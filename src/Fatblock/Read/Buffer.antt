-- ===== src/Fatblock/Read/Buffer.antt =====
-- `buffer_read` and `file_read` (fatblock/read.c), byte by byte.
use android_platform_system.Prelude.{
  ℕ, ◌+◌, ◌-◌, ◌^◌, ◌≤◌, ◌<◌, ◌≡◌, ◌⊎◌, true, false, ◌&&◌, arith, ltb, leb, add64, if◌then◌else◌,
}
use android_platform_system.Prelude.Memory.{Memory, memcpy}
use android_platform_system.Fatblock.Extents.{File}
use android_platform_system.Fatblock.Read.{
  Files, done, sky_is_falling, buffer_read, file_read, file_fetch, file_check_metadata, uint32_max,
}

-- For a range that ends below 2^64, `buffer_read` writes to the `len` places from `dest` on the
-- bytes of the buffer from `off` on, with 0 for those past its end, and writes nowhere else.
pub buffer_read_lem :
    (buf : Memory) (buf_len : ℕ) (out : Memory) (dest off len : ℕ)
    → off + len < 2 ^ 64
    → (i : ℕ)
    → buffer_read buf buf_len out dest off len i ≡ (
        if leb dest i && ltb i (dest + len)
        then (if ltb (off + (i - dest)) buf_len then buf (off + (i - dest)) else 0)
        else out i)
unfolding buffer_read
buffer_read_lem buf buf_len out dest off len h i =
    let e : add64 off len ≡ off + len = omega arith in rw e (ground arith)

-- Where the file is unchanged, opens, seeks, and has at least `2 * len` bytes, a read of `len` bytes
-- at `off` that ends by 2^32 - 1 succeeds, but delivers the bytes of the file from `len` on, whatever
-- `off` is; places outside the range are left alone.
pub file_read_lem :
    (files : Files) (f : File) (out : Memory) (dest off len : ℕ)
    → file_check_metadata files f ≡ true
    → files.opens f.path ≡ true
    → files.seeks f.path len ≡ true
    → len + len ≤ files.length_of f.path
    → off < uint32_max
    → off + len ≤ uint32_max
    → (buf : Memory) × (file_read files f out dest off len ≡ done buf)
      × ((i : ℕ) → i < len → buf (dest + i) ≡ files.bytes_of f.path (len + i))
      × ((i : ℕ) → (i < dest) ⊎ (dest + len ≤ i) → buf i ≡ out i)
unfolding file_read file_fetch
file_read_lem files f out dest off len m o s l a b =
    let e : add64 off len ≡ off + len = omega arith in
    let x : leb uint32_max off ≡ false = ground arith in
    let y : ltb uint32_max (off + len) ≡ false = ground arith in
    let z : ltb (files.length_of f.path) (len + len) ≡ false = ground arith in
    (
      memcpy out dest (files.bytes_of f.path) len len,
      rw (x, e, y, m, o, s, z),
      (λ i h. let d : dest + i - dest ≡ i = omega arith in rw d (ground arith)),
      (λ i h. ground arith),
    )

-- A file whose modification time is not the recorded one, or that is gone, is reported and the
-- buffer is left alone, for every read that starts below 2^32 - 1.
pub file_read_changed :
    (files : Files) (f : File) (out : Memory) (dest off len : ℕ)
    → file_check_metadata files f ≡ false
    → off < uint32_max
    → file_read files f out dest off len ≡ sky_is_falling out
unfolding file_read file_fetch
file_read_changed files f out dest off len m a =
    let x : leb uint32_max off ≡ false = ground arith in rw (x, m)
