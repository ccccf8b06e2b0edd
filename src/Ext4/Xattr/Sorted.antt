-- ===== src/Ext4/Xattr/Sorted.antt =====
-- The order of the attributes that xattr_assert_sane (ext4_utils/contents.c) asks for.
use Prim.Native.Nat.{compare, Ordering}
use android_platform_system.Prelude.{
  ℕ, zero, suc, ◌+◌, ◌-◌, ◌<◌, ◌≡◌, refl, ap, ◌∙◌, arith, Bool, true, false, ◌&&◌, if◌then◌else◌,
  List, [], ◌∷◌, length,
}
use android_platform_system.Prelude.Memory.{Memory}
use android_platform_system.Ext4.Exit.{Outcome, returns, error}
use android_platform_system.Ext4.Xattr.{
  is_last_entry, xattr_len, xattr_size, xattr_next, memcmp, or_else, compare_entries, sane_step,
  xattr_assert_sane,
}
use android_platform_system.Ext4.Xattr.Region.{Attribute, BytesAt, EntryAt, Entries}
use android_platform_system.Ext4.Xattr.Walk.{entry_visible, entry_next}

-- Names of one length, byte by byte.
abbrev pub compare_names : List ℕ → List ℕ → Ordering
compare_names [] ys = Ordering.eq
compare_names (x ∷ xs) [] = Ordering.gt
compare_names (x ∷ xs) (y ∷ ys) = or_else (compare x y) (compare_names xs ys)

-- First the index, then the length of the name, then its bytes.
abbrev pub compare_attributes : Attribute → Attribute → Ordering
compare_attributes a b =
    or_else (or_else (compare a.name_index b.name_index) (compare (length a.name) (length b.name)))
      (compare_names a.name b.name)

abbrev pub is_gt : Ordering → Bool
is_gt Ordering.gt = true
is_gt Ordering.lt = false
is_gt Ordering.eq = false

-- Each attribute is above the one before it.
abbrev pub sorted_from : Attribute → List Attribute → Bool
sorted_from a [] = true
sorted_from a (b ∷ attributes) = is_gt (compare_attributes b a) && sorted_from b attributes

abbrev pub sorted : List Attribute → Bool
sorted [] = true
sorted (a ∷ attributes) = sorted_from a attributes

memcmp_names :
    (m : Memory) (p q : ℕ) (xs ys : List ℕ)
    → BytesAt m p xs
    → BytesAt m q ys
    → length xs ≡ length ys
    → memcmp m p q (length xs) ≡ compare_names xs ys
memcmp_names m p q [] ys h k e = refl
memcmp_names m p q (x ∷ xs) [] h k e = absurd (omega arith)
memcmp_names m p q (x ∷ xs) (y ∷ ys) h k e =
    let a : m p ≡ x = ap m (omega arith) ∙ h 0 (omega arith) in
    let b : m q ≡ y = ap m (omega arith) ∙ k 0 (omega arith) in
    let r : memcmp m (suc p) (suc q) (length xs) ≡ compare_names xs ys =
      memcmp_names m (suc p) (suc q) xs ys (λ i l. ap m (omega arith) ∙ h (suc i) (omega arith))
        (λ i l. ap m (omega arith) ∙ k (suc i) (omega arith)) (omega arith) in
    rw (a, b, r) refl

compare_eq : (a b : ℕ) → compare a b ≡ Ordering.eq → a ≡ b
compare_eq a b h = ground arith

compare_rest :
    (o : Ordering) (a b : ℕ) (r s : Ordering)
    → (a ≡ b → r ≡ s)
    → or_else (or_else o (compare a b)) r ≡ or_else (or_else o (compare a b)) s
compare_rest Ordering.lt a b r s h = refl
compare_rest Ordering.gt a b r s h = refl
compare_rest Ordering.eq a b r s h = last (compare a b) refl
  where
    last : (o : Ordering) → compare a b ≡ o → or_else o r ≡ or_else o s
    last Ordering.lt e = refl
    last Ordering.gt e = refl
    last Ordering.eq e = h (compare_eq a b e)

compare_entries-EntryAt :
    (m : Memory) (base p v q w : ℕ) (a b : Attribute)
    → EntryAt m base p v a
    → EntryAt m base q w b
    → compare_entries m q p ≡ compare_attributes b a
compare_entries-EntryAt m base p v q w a b e f =
    rw (e.index, e.name_len, f.index, f.name_len)
      (compare_rest (compare b.name_index a.name_index) (length b.name) (length a.name) _ _
        (λ l. memcmp_names m (q + 16) (p + 16) b.name a.name f.name_bytes e.name_bytes l))

sane_gt :
    (force : Bool) (o : Ordering) (s : Bool) (r : Outcome (Unit {0}))
    → r ≡ (if s then returns tt else error force tt)
    → sane_step force o r ≡ (if is_gt o && s then returns tt else error force tt)
sane_gt force Ordering.gt s r h = h
sane_gt force Ordering.lt s r h = refl
sane_gt force Ordering.eq s r h = refl

module _ (force : Bool) (m : Memory) (base q w : ℕ) (last : is_last_entry m q ≡ true) where
  sane_from :
      (fuel p v : ℕ) (a : Attribute) (attributes : List Attribute)
      → length attributes + 1 < fuel
      → Entries m base p v (a ∷ attributes) q w
      → xattr_assert_sane fuel force m p
        ≡ (if sorted_from a attributes then returns tt else error force tt)
  unfolding xattr_assert_sane
  sane_from zero p v a attributes h e = absurd (omega arith)
  sane_from (suc fuel) p v a [] h (s, e, (f, g)) =
      let n : is_last_entry m (xattr_next m p) ≡ true = rw (entry_next m base p _ a e, f) last in
      rw (entry_visible m base p _ a e, n) refl
  sane_from (suc fuel) p v a (b ∷ attributes) h (s, e, (t, f, g)) =
      let next = p + xattr_len (length a.name) in
      let val = v - xattr_size (length a.value) in
      let r = sane_from fuel next val b attributes (omega arith) (t, f, g) in
      rw
        (
          entry_visible m base p _ a e,
          entry_next m base p _ a e,
          entry_visible m base next _ b f,
          compare_entries-EntryAt m base p _ next _ a b e f,
        )
        (sane_gt force (compare_attributes b a) (sorted_from b attributes) _ r)

  -- The check passes silently if the attributes are sorted without a repetition, and is an error otherwise.
  pub xattr_assert_sane-sorted :
      (fuel p v : ℕ) (attributes : List Attribute)
      → length attributes < fuel
      → Entries m base p v attributes q w
      → xattr_assert_sane fuel force m p
        ≡ (if sorted attributes then returns tt else error force tt)
  unfolding xattr_assert_sane
  xattr_assert_sane-sorted zero p v attributes h e = absurd (omega arith)
  xattr_assert_sane-sorted (suc fuel) p v [] h (e, f) = rw (e, last) refl
  xattr_assert_sane-sorted (suc fuel) p v (a ∷ attributes) h e =
      sane_from (suc fuel) p v a attributes (omega arith) e
