-- ===== src/Ext4/Xattr.antt =====
-- The extended attributes of an inode (ext4_utils/xattr.h and contents.c). Memory is a function of the
-- address, byte by byte and little-endian; a name is the list of its bytes before the 0, a value the
-- list of its bytes. An entry is the address of its `struct ext4_xattr_entry`.
pub mod Region
pub mod Walk
pub mod Written
pub mod Sorted
pub mod Added
pub mod Unmarked
pub mod Inode
pub mod Setters
pub mod Started
pub mod Fallback
mod Tests
use Prim.Native.Nat.{compare, Ordering}
use android_platform_system.Prelude.{
  ℕ, zero, suc, ◌+◌, ◌-◌, ◌*◌, ◌/◌, ◌%◌, ◌^◌, Bool, not, ◌&&◌, ltb, leb, ◌==◌, if◌then◌else◌, List,
  [], ◌∷◌, length, get_or, Option, none, some,
}
use android_platform_system.Prelude.Memory.{Memory, memset}
use android_platform_system.Ext4.Exit.{Outcome, returns, exits, faults, spins, error}

abbrev pub read16 : Memory → ℕ → ℕ
read16 m p = m p + 2 ^ 8 * m (p + 1)

abbrev pub read32 : Memory → ℕ → ℕ
read32 m p = read16 m p + 2 ^ 16 * read16 m (p + 2)

-- `memcpy(m + p, bytes, length bytes)`
abbrev pub write_bytes : Memory → ℕ → List ℕ → Memory
write_bytes m p bytes i =
    if leb p i && ltb i (p + length bytes) then get_or bytes (i - p) 0 else m i

-- The bytes of a `__le16` and of a `__le32`.
abbrev pub le16_bytes : ℕ → List ℕ
le16_bytes v = v % 2 ^ 8 ∷ v / 2 ^ 8 % 2 ^ 8 ∷ []

abbrev pub le32_bytes : ℕ → List ℕ
le32_bytes v = v % 2 ^ 8 ∷ v / 2 ^ 8 % 2 ^ 8 ∷ v / 2 ^ 16 % 2 ^ 8 ∷ v / 2 ^ 24 % 2 ^ 8 ∷ []

abbrev pub write16 : Memory → ℕ → ℕ → Memory
write16 m p v = write_bytes m p (le16_bytes v)

abbrev pub write32 : Memory → ℕ → ℕ → Memory
write32 m p v = write_bytes m p (le32_bytes v)

-- `EXT4_XATTR_LEN(name_len)`: `& ~3` rounds down to a multiple of 4.
abbrev pub xattr_len : ℕ → ℕ
xattr_len name_len = (name_len + 3 + 16) / 4 * 4

-- `EXT4_XATTR_SIZE(size)` of a `size_t` far below 2^64.
abbrev pub xattr_size : ℕ → ℕ
xattr_size size = (size + 3) / 4 * 4

-- `EXT4_XATTR_SIZE(le32_to_cpu(size))`, on 32 bits.
abbrev pub xattr_size32 : ℕ → ℕ
xattr_size32 size = (size + 3) % 2 ^ 32 / 4 * 4

-- `IS_LAST_ENTRY(entry)`
abbrev pub is_last_entry : Memory → ℕ → Bool
is_last_entry m entry = read32 m entry == 0

-- `EXT4_XATTR_NEXT(entry)`
abbrev pub xattr_next : Memory → ℕ → ℕ
xattr_next m entry = entry + xattr_len (m entry)

-- The loop of xattr_free_space. Once `end` went down, `entry` is 16 at least, so that `end` below
-- address 0 and `end` at 0 are the same to the tests.
unfoldable pub free_space_loop : ℕ → Memory → ℕ → ℕ → Outcome (ℕ × ℕ)
free_space_loop zero m entry end = spins
free_space_loop (suc fuel) m entry end =
    let rest =
      free_space_loop fuel m (xattr_next m entry) (end - xattr_size32 (read32 m (entry + 8))) in
    if not (is_last_entry m entry) && ltb entry end then rest else returns (entry, end)

abbrev pub space_between : Bool → Outcome (ℕ × ℕ) → Outcome ℕ
space_between force (returns (entry, end)) =
    if ltb end entry then error force 0 else returns (end - entry)
space_between force exits = exits
space_between force faults = faults
space_between force spins = spins

-- Every entry takes 16 bytes at least, so that `end` rounds leave the region.
unfoldable pub xattr_free_space : Bool → Memory → ℕ → ℕ → Outcome ℕ
unfolding free_space_loop
xattr_free_space force m entry end = space_between force (free_space_loop (suc end) m entry end)

-- The source puts no bound on this loop.
unfoldable pub xattr_get_last : ℕ → Memory → ℕ → Outcome ℕ
xattr_get_last zero m entry = spins
xattr_get_last (suc fuel) m entry =
    let rest = xattr_get_last fuel m (xattr_next m entry) in
    if is_last_entry m entry then returns entry else rest

-- `if (cmp == 0) cmp = other;`
abbrev pub or_else : Ordering → Ordering → Ordering
or_else Ordering.eq other = other
or_else Ordering.lt other = Ordering.lt
or_else Ordering.gt other = Ordering.gt

-- The sign of `memcmp(m + p, m + q, n)`
abbrev pub memcmp : Memory → ℕ → ℕ → ℕ → Ordering
memcmp m p q zero = Ordering.eq
memcmp m p q (suc n) = let rest = memcmp m (suc p) (suc q) n in or_else (compare (m p) (m q)) rest

-- The sign of `cmp` in xattr_assert_sane.
abbrev pub compare_entries : Memory → ℕ → ℕ → Ordering
compare_entries m next entry =
    or_else (or_else (compare (m (next + 1)) (m (entry + 1))) (compare (m next) (m entry)))
      (memcmp m (next + 16) (entry + 16) (m next))

abbrev pub sane_step : Bool → Ordering → Outcome (Unit {0}) → Outcome (Unit {0})
sane_step force Ordering.gt rest = rest
sane_step force Ordering.lt rest = error force tt
sane_step force Ordering.eq rest = error force tt

-- The source puts no bound on this loop.
unfoldable pub xattr_assert_sane : ℕ → Bool → Memory → ℕ → Outcome (Unit {0})
xattr_assert_sane zero force m entry = spins
xattr_assert_sane (suc fuel) force m entry =
    let next = xattr_next m entry in
    let rest = xattr_assert_sane fuel force m next in
    if is_last_entry m entry
    then returns tt
    else if is_last_entry m next
    then returns tt
    else sane_step force (compare_entries m next entry) rest

-- From `memset(new_entry, 0, ...)` to `memcpy(val, value, value_len)`.
unfoldable pub write_entry : Memory → ℕ → ℕ → ℕ → ℕ → List ℕ → List ℕ → Memory
write_entry m block_start new_entry available_size name_index name value =
    let m1 = memset m new_entry 0 (xattr_len (length name)) in
    let m2 = write_bytes m1 new_entry (length name % 2 ^ 8 ∷ name_index % 2 ^ 8 ∷ []) in
    let m3 = write_bytes m2 (new_entry + 16) name in
    let m4 = write32 m3 (new_entry + 4) 0 in
    let m5 = write32 m4 (new_entry + 8) (length value) in
    let val = new_entry + available_size - xattr_size (length value) in
    let m6 = write16 m5 (new_entry + 2) (val - block_start) in
    let m7 = memset m6 val 0 (xattr_size (length value)) in write_bytes m7 val value

abbrev pub asserted : Outcome (Unit {0}) → ℕ → Memory → Outcome (Option ℕ) × Memory
asserted (returns _) new_entry m = (returns (some new_entry), m)
asserted exits new_entry m = (exits, m)
asserted faults new_entry m = (faults, m)
asserted spins new_entry m = (spins, m)

-- The last part of xattr_addto_range, from `xattr_get_last` on. A walk over the entries that left
-- `block_end` behind has no end that is known.
unfoldable pub add_at :
    Bool → Memory → ℕ → ℕ → ℕ → ℕ → List ℕ → List ℕ → ℕ → Outcome ℕ → Outcome (Option ℕ) × Memory
unfolding write_entry xattr_assert_sane
add_at force m block_start block_end first name_index name value available_size
      (returns new_entry) =
    let m' = write_entry m block_start new_entry available_size name_index name value in
    asserted (xattr_assert_sane (suc block_end) force m' first) new_entry m'
add_at force m block_start block_end first name_index name value available_size exits = (exits, m)
add_at force m block_start block_end first name_index name value available_size faults = (faults, m)
add_at force m block_start block_end first name_index name value available_size spins = (spins, m)

abbrev pub add_within :
    Bool → Memory → ℕ → ℕ → ℕ → ℕ → List ℕ → List ℕ → Outcome ℕ → Outcome (Option ℕ) × Memory
unfolding add_at xattr_get_last
add_within force m block_start block_end first name_index name value (returns available_size) =
    if ltb available_size (xattr_len (length name) + xattr_size (length value))
    then (returns none, m)
    else add_at force m block_start block_end first name_index name value available_size
        (xattr_get_last (suc block_end) m first)
add_within force m block_start block_end first name_index name value exits = (exits, m)
add_within force m block_start block_end first name_index name value faults = (faults, m)
add_within force m block_start block_end first name_index name value spins = (spins, m)

-- The address of the new entry, or `none` for NULL.
unfoldable pub xattr_addto_range :
    Bool → Memory → ℕ → ℕ → ℕ → ℕ → List ℕ → List ℕ → Outcome (Option ℕ) × Memory
unfolding add_within xattr_free_space
xattr_addto_range force m block_start block_end first name_index name value =
    if ltb 255 (length name)
    then (returns none, m)
    else add_within force m block_start block_end first name_index name value
        (xattr_free_space force m first block_end)
