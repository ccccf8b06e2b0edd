-- ===== src/Ext4/Xattr/Added.antt =====
-- xattr_addto_range (ext4_utils/contents.c) on a region.
use android_platform_system.Prelude.{
  ℕ, suc, ◌+◌, ◌-◌, ◌^◌, ◌≤◌, ◌<◌, ◌≡◌, ◌⊎◌, inl, inr, refl, subst, ◌∙◌, arith, Bool, Bool-cases,
  true, false, ltb, if◌then◌else◌, List, [], ◌∷◌, ◌++◌, length, Option, none, some,
}
use android_platform_system.Prelude.Memory.{Memory}
use android_platform_system.Ext4.Exit.{Outcome, returns, error}
use android_platform_system.Ext4.Xattr.{
  xattr_len, xattr_size, write_entry, asserted, add_at, add_within, xattr_get_last,
  xattr_assert_sane, xattr_addto_range,
}
use android_platform_system.Ext4.Xattr.Region.{Attribute, EntryAt, Holds}
use android_platform_system.Ext4.Xattr.Walk.{
  Entries-bounds, Entries-frame, Entries-append, Holds-is_last, xattr_free_space-Holds,
  xattr_get_last-Entries,
}
use android_platform_system.Ext4.Xattr.Written.{written_elsewhere, written-EntryAt}
use android_platform_system.Ext4.Xattr.Sorted.{sorted, xattr_assert_sane-sorted}

-- What a C string and a length can be, and the regions whose offsets 16 bits hold.
pub record Storable (base end : ℕ) (a : Attribute) : Type 0 where
  pub some_index : 1 ≤ a.name_index
  pub index : a.name_index ≤ 255
  pub short : length a.value + 3 < 2 ^ 32
  pub near : end < base + 2 ^ 16

-- The bytes of the entry and of the value of an attribute.
abbrev pub needed_size : Attribute → ℕ
needed_size a = xattr_len (length a.name) + xattr_size (length a.value)

-- How a call ends on a region with the gap from `q` to `w`.
pub data Adds (force : Bool) (m : Memory) (base first end : ℕ) (attributes : List Attribute)
    (q w : ℕ) (a : Attribute) : Outcome (Option ℕ) × Memory → Type 0 where
  -- The name is too long.
  long_name : 255 < length a.name → Adds force m base first end attributes q w a (returns none, m)
  -- The gap is too small.
  full :
      length a.name ≤ 255
      → w < q + needed_size a
      → Adds force m base first end attributes q w a (returns none, m)
  -- The attribute is behind the others, and memory outside the gap is the same.
  added :
      {m' : Memory}
      → length a.name ≤ 255
      → Holds m' base first end
          (attributes ++ a ∷ [])
          (q + xattr_len (length a.name))
          (w - xattr_size (length a.value))
      → ((i : ℕ) → i < q → m' i ≡ m i)
      → ((i : ℕ) → w ≤ i → m' i ≡ m i)
      → Adds force m base first end attributes q w a
          (if sorted (attributes ++ a ∷ []) then returns (some q) else error force (some q), m')

asserted_if :
    (force s : Bool) (o : Outcome (Unit {0})) (q : ℕ) (m : Memory)
    → o ≡ (if s then returns tt else error force tt)
    → asserted o q m ≡ (if s then returns (some q) else error force (some q), m)
asserted_if force true o q m e = rw e refl
asserted_if true false o q m e = rw e refl
asserted_if false false o q m e = rw e refl

module _ (force : Bool) (m : Memory) (base first end : ℕ) (attributes : List Attribute) (q w : ℕ)
    (a : Attribute) (holds : Holds m base first end attributes q w) where
  -- A call whose attribute and gap pass the tests.
  pub addto_room :
      length a.name ≤ 255
      → q + needed_size a ≤ w
      → xattr_addto_range force m base end first a.name_index a.name a.value ≡ (
          let m' = write_entry m base q (w - q) a.name_index a.name a.value in
          asserted (xattr_assert_sane (suc end) force m' first) q m')
  unfolding xattr_addto_range add_within add_at
  addto_room h k =
      let (b, c) = Entries-bounds m base first end q w attributes holds.entries in
      let short : ltb 255 (length a.name) ≡ false = ground arith in
      let room : ltb (w - q) (needed_size a) ≡ false = ground arith in
      let last : xattr_get_last (suc end) m first ≡ returns q =
        xattr_get_last-Entries m base (suc end) first end q w attributes (omega (arith, holds.gap))
          holds.entries (Holds-is_last m base first end q w attributes holds) in
      rw (short, xattr_free_space-Holds force m base first end q w attributes holds, room, last)
        refl

  pub addto_full :
      length a.name ≤ 255
      → w < q + needed_size a
      → xattr_addto_range force m base end first a.name_index a.name a.value ≡ (returns none, m)
  unfolding xattr_addto_range add_within
  addto_full h k =
      let g = holds.gap in
      let short : ltb 255 (length a.name) ≡ false = ground arith in
      let room : ltb (w - q) (needed_size a) ≡ true = ground arith in
      rw (short, xattr_free_space-Holds force m base first end q w attributes holds, room) refl

  addto_long :
      255 < length a.name
      → xattr_addto_range force m base end first a.name_index a.name a.value ≡ (returns none, m)
  unfolding xattr_addto_range
  addto_long h = let long : ltb 255 (length a.name) ≡ true = ground arith in rw long refl

  written-Holds :
      Storable base end a
      → length a.name ≤ 255
      → q + needed_size a + 4 ≤ w
      → Holds
          (write_entry m base q (w - q) a.name_index a.name a.value)
          base
          first
          end
          (attributes ++ a ∷ [])
          (q + xattr_len (length a.name))
          (w - xattr_size (length a.value))
  written-Holds s h k =
      let m' = write_entry m base q (w - q) a.name_index a.name a.value in
      let fits : needed_size a ≤ w - q = omega arith in
      let (b, c) = Entries-bounds m base first end q w attributes holds.entries in
      let kept = written_elsewhere m base q (w - q) a.name_index a.name a.value fits in
      let near = s.near in
      let entry =
        written-EntryAt m base q (w - q) a.name_index a.name a.value fits h s.some_index s.index
          s.short (omega arith) in
      let here : q + (w - q) - xattr_size (length a.value) ≡ w - xattr_size (length a.value) =
        omega arith in
      record {
        entries =
            Entries-append m' base first end q w a attributes
              (Entries-frame m m' base first q w end
                (λ i o l. kept i (λ j. omega arith) (λ j. omega arith))
                (λ i l o. kept i (λ j. omega arith) (λ j. omega arith)) first end attributes
                (omega arith) (omega arith) holds.entries)
              (omega arith) (subst (λ v. EntryAt m' base q v a) here entry);
        gap = omega arith;
        zeros =
            λ i l r. kept i (λ j. l) (λ j. omega arith) ∙ holds.zeros i (omega arith) (omega arith);
      }

  pub addto_room-Holds :
      Storable base end a
      → length a.name ≤ 255
      → q + needed_size a + 4 ≤ w
      → (m' : Memory) × (xattr_addto_range force m base end first a.name_index a.name a.value
          ≡ (if sorted (attributes ++ a ∷ []) then returns (some q) else error force (some q), m'))
        × Holds m' base first end
            (attributes ++ a ∷ [])
            (q + xattr_len (length a.name))
            (w - xattr_size (length a.value))
        × ((i : ℕ) → i < q → m' i ≡ m i)
        × ((i : ℕ) → w ≤ i → m' i ≡ m i)
  addto_room-Holds s h k =
      let m' = write_entry m base q (w - q) a.name_index a.name a.value in
      let fits : needed_size a ≤ w - q = omega arith in
      let kept = written_elsewhere m base q (w - q) a.name_index a.name a.value fits in
      let after = written-Holds s h k in
      let (b, c) = Entries-bounds m' base first end _ _ _ after.entries in
      let sane =
        xattr_assert_sane-sorted force m' base _ _ (Holds-is_last m' base first end _ _ _ after)
          (suc end) first end (attributes ++ a ∷ []) (omega arith) after.entries in
      (
        m',
        addto_room h (omega arith) ∙ asserted_if force (sorted (attributes ++ a ∷ [])) _ q m' sane,
        after,
        λ i l. kept i (λ j. omega arith) (λ j. omega arith),
        λ i l. kept i (λ j. omega arith) (λ j. omega arith),
      )

  -- On a region that holds attributes and a gap with the end marker, and that 16-bit offsets reach, for
  -- an attribute whose index and value length fit their fields and that either does not fit in the
  -- gap or fits together with the end marker: xattr_addto_range returns NULL and changes nothing if
  -- the name is longer than 255 bytes or the gap is too small. Otherwise it appends the attribute
  -- behind the others, which it keeps, with a gap left that holds the end marker, and writes
  -- nothing outside the gap; it returns the place of the entry if the attributes are sorted now, and
  -- goes by `error` if they are not.
  pub xattr_addto_range-Adds :
      Storable base end a
      → (w < q + needed_size a) ⊎ (q + needed_size a + 4 ≤ w)
      → Adds force m base first end attributes q w a
          (xattr_addto_range force m base end first a.name_index a.name a.value)
  xattr_addto_range-Adds s f = elim (Bool-cases (ltb 255 (length a.name))) [
    | inl y ↦ rw (addto_long (ground arith)) (long_name (ground arith))
    | inr n ↦ by_room (ground arith) f
  ]
    where
      by_room :
          length a.name ≤ 255
          → (w < q + needed_size a) ⊎ (q + needed_size a + 4 ≤ w)
          → Adds force m base first end attributes q w a
              (xattr_addto_range force m base end first a.name_index a.name a.value)
      by_room h (inl k) = rw (addto_full h k) (full h k)
      by_room h (inr k) =
          let (m', e, after, below, above) = addto_room-Holds s h k in
          rw e (added h after below above)
