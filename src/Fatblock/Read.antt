-- ===== src/Fatblock/Read.antt =====
-- Reading the image (fatblock/read.c). A buffer is a function of the place in it, and the bytes of a
-- structure are those of its packed little-endian layout (fatblock/fat.h).
pub mod Buffer
pub mod Image
pub mod Whole
use android_platform_system.Prelude.{
  ℕ, zero, suc, ◌+◌, ◌-◌, ◌*◌, ◌/◌, ◌%◌, ◌^◌, Bool, true, false, not, ◌&&◌, List, [], ◌∷◌, ◌++◌,
  Option, none, some, ltb, leb, ◌==◌, if◌then◌else◌, add64, sub64, length, get_or, replicate,
}
use android_platform_system.Prelude.Memory.{Memory, memset, memcpy}
use android_platform_system.Fatblock.Extents.{
  Extent, Dir, File, Backing, boot, info, fat, file, dir, Found, found, not_found, assert_fails,
  find_extent,
}
use android_platform_system.Fatblock.Volume.{BootSector, InfoSector, Fs}

-- What `stat`, `open`, `lseek` and `read` answer for a path: its modification time, whether it opens,
-- whether a seek to a position succeeds, its length and its bytes.
pub record Files : Type 0 where
  pub mtime_of : List ℕ → Option ℕ
  pub opens : List ℕ → Bool
  pub seeks : List ℕ → ℕ → Bool
  pub length_of : List ℕ → ℕ
  pub bytes_of : List ℕ → Memory

-- The return values 0, -1 and SKY_IS_FALLING with the buffer, and a failed assertion.
pub data Reads : Type 0 where
  done failed sky_is_falling : Memory → Reads
  aborts : Reads

le16 : ℕ → List ℕ
le16 n = n % 256 ∷ n / 256 % 256 ∷ []

le32 : ℕ → List ℕ
unfolding le16
le32 n = le16 (n % 2 ^ 16) ++ le16 (n / 2 ^ 16)

-- `struct fat_boot_sector`, packed.
unfoldable pub boot_bytes : BootSector → List ℕ
unfolding le16 le32
boot_bytes b =
    replicate 3 0
    ++ (b.name
        ++ (le16 b.sector_size
            ++ ((b.sectors_per_cluster ∷ [])
                ++ (le16 b.reserved_sectors
                    ++ ((b.fats ∷ [])
                        ++ (replicate 4 0
                            ++ ((b.media_desc ∷ [])
                                ++ (replicate 2 0
                                    ++ (le16 b.sectors_per_track
                                        ++ (le16 b.heads
                                            ++ (replicate 4 0
                                                ++ (le32 b.sectors32
                                                    ++ (le32 b.fat_sectors32
                                                        ++ (replicate 4 0
                                                            ++ (le32 b.rootdir_start
                                                            ++ (le16 b.fs_info_sector
                                                            ++ (le16 b.backup_boot_sector
                                                            ++ (replicate 12 0
                                                            ++ ((b.phys_drive ∷ 0 ∷ b.ext_boot_sig
                                                            ∷ [])
                                                            ++ (le32 b.serial
                                                            ++ (b.vol_label
                                                            ++ (b.fs_type
                                                            ++ (replicate 420 0
                                                            ++ b.boot_sig)))))))))))))))))))))))

-- `struct fat_info_sector`, packed.
unfoldable pub info_bytes : InfoSector → List ℕ
unfolding le32
info_bytes s =
    s.info_sig1
    ++ (replicate 480 0
        ++ (s.info_sig2
            ++ (le32 s.free_clusters ++ (le32 s.last_cluster ++ (replicate 14 0 ++ s.info_sig3)))))

-- The bytes behind `(char*)fs->fat`.
unfoldable pub fat_bytes : (ℕ → ℕ) → Memory
fat_bytes entries i = entries (i / 4) / 256 ^ (i % 4) % 256

-- `buffer_read(buf, buf_len, out + dest, off, len)`. Its assertions repeat the tests before them.
pub buffer_read : Memory → ℕ → Memory → ℕ → ℕ → ℕ → Memory
buffer_read buf buf_len out dest off len =
    if leb buf_len off
    then memset out dest 0 len
    else if ltb buf_len (add64 off len)
    then memcpy (memset out (dest + (buf_len - off)) 0 (len - (buf_len - off))) dest buf off
        (buf_len - off)
    else memcpy out dest buf off len

abbrev pub uint32_max : ℕ
uint32_max = 2 ^ 32 - 1

-- `file_check_metadata`: `true` is 0.
unfoldable pub file_check_metadata : Files → File → Bool
file_check_metadata files f = elim (files.mtime_of f.path) [ none ↦ false | some t ↦ t == f.mtime ]

-- The part of `file_read` behind the cuts at 2^32. The seek goes to `len`, not to `off`, and a
-- `read` that finds fewer than `len` bytes there fails.
pub file_fetch : Files → File → Memory → ℕ → ℕ → Reads
file_fetch files f out dest len =
    if not (file_check_metadata files f)
    then sky_is_falling out
    else if not (files.opens f.path)
    then failed out
    else if not (files.seeks f.path len)
    then failed out
    else if ltb (files.length_of f.path) (len + len)
    then failed (memcpy out dest (files.bytes_of f.path) len (files.length_of f.path - len))
    else done (memcpy out dest (files.bytes_of f.path) len len)

pub file_read : Files → File → Memory → ℕ → ℕ → ℕ → Reads
file_read files f out dest off len =
    if leb uint32_max off
    then done out
    else file_fetch files f out dest
        (if ltb uint32_max (add64 off len) then sub64 uint32_max off else len)

pub dir_read : Dir → Memory → ℕ → ℕ → ℕ → Memory
dir_read d out dest off len = buffer_read d.entries d.size out dest off len

abbrev pub listed : List ℕ → Memory
listed bytes i = get_or bytes i 0

-- `extent_read(fs, e, out + dest, off, len)`
pub extent_read : Files → Fs → Backing → Memory → ℕ → ℕ → ℕ → Reads
extent_read files fs boot out dest off len =
    done (buffer_read (listed (boot_bytes fs.boot_sector)) 512 out dest off len)
extent_read files fs info out dest off len =
    done (buffer_read (listed (info_bytes fs.info_sector)) 512 out dest off len)
extent_read files fs fat out dest off len =
    done (buffer_read (fat_bytes fs.fat_entries) fs.fat_size out dest off len)
extent_read files fs (file f) out dest off len = file_read files f out dest off len
extent_read files fs (dir d) out dest off len = done (dir_read d out dest off len)

-- `fs_read` goes on after a return value 0 only.
abbrev pub and_then : Reads → (Memory → Reads) → Reads
and_then (done buf) later = later buf
and_then (failed buf) later = failed buf
and_then (sky_is_falling buf) later = sky_is_falling buf
and_then aborts later = aborts

-- One round of the loop of `fs_read`, with what the rounds behind it do.
abbrev pub read_found : Files → Fs → Memory → (List Extent → Memory → Reads) → Found → Reads
read_found files fs buf later not_found = done buf
read_found files fs buf later assert_fails = aborts
read_found files fs buf later (found e behind r_start e_start rel_len) =
    and_then (extent_read files fs e.backing buf r_start e_start rel_len) (later behind)

-- The loop of `fs_read`: `extents` is the list behind the last extent found. Each round goes on
-- behind the extent that it found, so as many rounds as there are extents, and one, are enough; with
-- no round left the model aborts.
pub read_loop : Files → Fs → ℕ → ℕ → ℕ → List Extent → Memory → Reads
read_loop files fs zero start len extents buf = aborts
read_loop files fs (suc fuel) start len extents buf =
    read_found files fs buf (read_loop files fs fuel start len) (find_extent start len extents)

pub fs_read : Files → Fs → Memory → ℕ → ℕ → Reads
fs_read files fs buf start len =
    read_loop files fs (suc (length fs.extents)) start len fs.extents (memset buf 0 0 len)
