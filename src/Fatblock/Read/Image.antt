-- ===== src/Fatblock/Read/Image.antt =====
-- The image as a function of the place in it, and one round of `fs_read` (fatblock/read.c).
use android_platform_system.Prelude.{
  ℕ, ◌+◌, ◌-◌, ◌^◌, ◌≤◌, ◌<◌, ◌≡◌, inl, inr, refl, Bool, true, false, ◌&&◌, ◌||◌, Bool-cases, arith,
  ltb, leb, if◌then◌else◌, List, [], ◌∷◌, ◌++◌,
}
use android_platform_system.Prelude.Memory.{Memory}
use android_platform_system.Fatblock.Extents.{Extent, Backing, boot, info, fat, file, dir}
use android_platform_system.Fatblock.Extents.Overlap.{NoOverlap, IsOverlap}
use android_platform_system.Fatblock.Volume.{Fs}
use android_platform_system.Fatblock.Volume.Layout.{Stacked}
use android_platform_system.Fatblock.Read.{
  Files, done, boot_bytes, info_bytes, fat_bytes, listed, dir_read, extent_read,
}
use android_platform_system.Fatblock.Read.Buffer.{buffer_read_lem}

-- The first `n` bytes of a buffer, and 0 behind them.
abbrev pub padded : Memory → ℕ → Memory
padded m n i = if ltb i n then m i else 0

-- The bytes that stand behind an extent. (Those of files are read from outside.)
pub content : Fs → Backing → Memory
content fs boot = padded (listed (boot_bytes fs.boot_sector)) 512
content fs info = padded (listed (info_bytes fs.info_sector)) 512
content fs fat = padded (fat_bytes fs.fat_entries) fs.fat_size
content fs (file f) = λ _. 0
content fs (dir d) = padded d.entries d.size

abbrev pub covers : Extent → ℕ → Bool
covers e p = leb e.start p && ltb p (e.start + e.len)

pub covered : List Extent → ℕ → Bool
covered [] p = false
covered (e ∷ extents) p = covers e p || covered extents p

-- The byte at place `p` of the image: that of the extent which covers it, and 0 where none does.
pub image : Fs → List Extent → Memory
image fs [] p = 0
image fs (e ∷ extents) p =
    if covers e p then content fs e.backing (p - e.start) else image fs extents p

abbrev pub NotFile : Backing → Type 0
NotFile boot = Unit {0}
NotFile info = Unit {0}
NotFile fat = Unit {0}
NotFile (file f) = ⊥
NotFile (dir d) = Unit {0}

abbrev pub NoFiles : List Extent → Type 0
NoFiles [] = Unit {0}
NoFiles (e ∷ extents) = NotFile e.backing × NoFiles extents

module _ (files : Files) (fs : Fs) (out : Memory) (dest off len : ℕ) (h : off + len < 2 ^ 64) where
  -- `extent_read` copies the content of an extent that is no file.
  pub extent_read_lem :
      (b : Backing)
      → NotFile b
      → (buf : Memory) × (extent_read files fs b out dest off len ≡ done buf)
        × ((i : ℕ)
            → buf i ≡ (
                if leb dest i && ltb i (dest + len)
                then content fs b (off + (i - dest))
                else out i))
  unfolding extent_read content dir_read
  extent_read_lem boot n =
      (_, refl, λ i. buffer_read_lem (listed (boot_bytes fs.boot_sector)) 512 out dest off len h i)
  extent_read_lem info n =
      (_, refl, λ i. buffer_read_lem (listed (info_bytes fs.info_sector)) 512 out dest off len h i)
  extent_read_lem fat n =
      (_, refl, λ i. buffer_read_lem (fat_bytes fs.fat_entries) fs.fat_size out dest off len h i)
  extent_read_lem (file f) n = absurd n
  extent_read_lem (dir d) n = (_, refl, λ i. buffer_read_lem d.entries d.size out dest off len h i)

-- Below the place where a stack of extents ends nothing covers.
pub covered_above :
    (bound p : ℕ) (extents : List Extent)
    → Stacked bound extents
    → bound ≤ p
    → covered extents p ≡ false
unfolding covered
covered_above bound p [] s h = refl
covered_above bound p (e ∷ extents) (l, s) h =
    let r = covered_above e.start p extents s (omega arith) in ground (arith, r)

-- Extents that do not overlap a range can be passed over in it.
pub pass_over :
    (fs : Fs) (start len p : ℕ) (before extents : List Extent)
    → NoOverlap start len before
    → start ≤ p
    → p < start + len
    → (covered (before ++ extents) p ≡ covered extents p)
      × (image fs (before ++ extents) p ≡ image fs extents p)
unfolding covered image
pass_over fs start len p [] extents n l u = (refl, refl)
pass_over fs start len p (e ∷ before) extents (o, n) l u =
    let (c, m) = pass_over fs start len p before extents n l u in
    let x : covers e p ≡ false = ground arith in rw x (c, m)

pub covered_none :
    (start len p : ℕ) (extents : List Extent)
    → NoOverlap start len extents
    → start ≤ p
    → p < start + len
    → covered extents p ≡ false
unfolding covered
covered_none start len p [] n l u = refl
covered_none start len p (e ∷ extents) (o, n) l u =
    let r = covered_none start len p extents n l u in ground (arith, r)

-- Where nothing covers, the image is 0.
pub image_uncovered :
    (fs : Fs) (p : ℕ) (extents : List Extent) → covered extents p ≡ false → image fs extents p ≡ 0
unfolding covered image
image_uncovered fs p [] h = refl
image_uncovered fs p (e ∷ extents) h = elim (Bool-cases (covers e p)) [
  | inl y ↦ cc (rw y at h)
  | inr n ↦ rw n (image_uncovered fs p extents (rw n at h))
]

-- What one round of `fs_read` does to the requested range, and what is left to the later rounds.
pub image-step :
    (fs : Fs) (start len bound : ℕ) (e : Extent) (behind : List Extent)
    (r_start e_start rel_len : ℕ)
    → IsOverlap start len e r_start e_start rel_len
    → Stacked bound (e ∷ behind)
    → (buf buf' : Memory)
    → ((i : ℕ)
        → buf' i ≡ (
            if leb r_start i && ltb i (r_start + rel_len)
            then content fs e.backing (e_start + (i - r_start))
            else buf i))
    → (i : ℕ) → i < len
    → (if covered behind (start + i) then image fs behind (start + i) else buf' i)
      ≡ (if covered (e ∷ behind) (start + i) then image fs (e ∷ behind) (start + i) else buf i)
unfolding covered image
image-step fs start len bound e behind r_start e_start rel_len o (l, s) buf buf' h i u =
    elim (Bool-cases (covers e (start + i))) [
      | inl y ↦
          let c : covered behind (start + i) ≡ false =
            covered_above e.start (start + i) behind s (ground arith) in
          let r : (leb r_start i && ltb i (r_start + rel_len)) ≡ true =
            ground (arith, o.first, o.same, o.last) in
          let d : e_start + (i - r_start) ≡ start + i - e.start =
            ground (arith, o.first, o.same, o.last, o.some) in
          rw (y, c, h i, r, d) refl
      | inr n ↦
          let r : (leb r_start i && ltb i (r_start + rel_len)) ≡ false =
            ground (arith, o.first, o.same, o.last) in
          rw (n, h i, r) refl
    ]
