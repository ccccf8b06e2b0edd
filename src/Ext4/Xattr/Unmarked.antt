-- ===== src/Ext4/Xattr/Unmarked.antt =====
-- A region without room for the end marker (ext4_utils/contents.c).
use android_platform_system.Prelude.{
  ℕ, ◌+◌, ◌-◌, ◌≤◌, ◌≡◌, ◌≢◌, refl, ap, subst, ◌∙◌, arith, Bool, false, List, length, get_or,
}
use android_platform_system.Prelude.Memory.{Memory}
use android_platform_system.Ext4.Exit.{Outcome, returns, exits, faults, spins}
use android_platform_system.Ext4.Xattr.{
  is_last_entry, xattr_len, xattr_size, write_entry, asserted, xattr_addto_range,
}
use android_platform_system.Ext4.Xattr.Region.{Attribute, EntryAt, Holds}
use android_platform_system.Ext4.Xattr.Added.{Storable, needed_size, addto_room}
use android_platform_system.Ext4.Xattr.Written.{written-EntryAt}
use android_platform_system.Ext4.Xattr.Walk.{Entries-bounds}

asserted_memory : (o : Outcome (Unit {0})) (q : ℕ) (m : Memory) → (asserted o q m).1 ≡ m
asserted_memory (returns u) q m = refl
asserted_memory exits q m = refl
asserted_memory faults q m = refl
asserted_memory spins q m = refl

-- On a region with a gap that an attribute with a value whose first byte is not 0 fills to the last byte:
-- xattr_addto_range writes the attribute, and the place behind its entry, where the walks read the next entry, is the value, and no end marker.
pub xattr_addto_range-unmarked :
    (force : Bool) (m : Memory) (base first end : ℕ) (attributes : List Attribute) (q w : ℕ)
    (a : Attribute)
    → Holds m base first end attributes q w
    → Storable base end a
    → length a.name ≤ 255
    → w ≡ q + needed_size a
    → 1 ≤ length a.value
    → get_or a.value 0 0 ≢ 0
    → (m' : Memory) × ((xattr_addto_range force m base end first a.name_index a.name a.value).1
        ≡ m')
      × EntryAt m' base q (q + xattr_len (length a.name)) a
      × (is_last_entry m' (q + xattr_len (length a.name)) ≡ false)
xattr_addto_range-unmarked force m base first end attributes q w a holds s h k v n =
    let (b, c) = Entries-bounds m base first end q w attributes holds.entries in
    let m' = write_entry m base q (w - q) a.name_index a.name a.value in
    let fits : needed_size a ≤ w - q = omega arith in
    let near = s.near in
    let entry =
      written-EntryAt m base q (w - q) a.name_index a.name a.value fits h s.some_index s.index
        s.short (omega arith) in
    let here : q + (w - q) - xattr_size (length a.value) ≡ q + xattr_len (length a.name) =
      omega arith in
    let entry' = subst (λ v. EntryAt m' base q v a) here entry in
    let byte : m' (q + xattr_len (length a.name)) ≡ get_or a.value 0 0 =
      ap m' (omega arith) ∙ entry'.value_bytes 0 (omega arith) in
    (
      m',
      rw (addto_room force m base first end attributes q w a holds h (omega arith))
          (asserted_memory _ q m'),
      entry',
      ground arith,
    )
