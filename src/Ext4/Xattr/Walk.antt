-- ===== src/Ext4/Xattr/Walk.antt =====
-- The walks over the entries (ext4_utils/contents.c) in a region.
use android_platform_system.Prelude.{
  ℕ, zero, suc, ◌+◌, ◌-◌, ◌*◌, ◌≤◌, ◌<◌, ◌≡◌, refl, ap, ◌∙◌, arith, Bool, true, false, ltb, List,
  [], ◌∷◌, ◌++◌, length,
}
use android_platform_system.Prelude.Memory.{Memory}
use android_platform_system.Ext4.Exit.{returns}
use android_platform_system.Ext4.Xattr.{
  read32, xattr_len, xattr_size, xattr_size32, is_last_entry, xattr_next, free_space_loop,
  xattr_free_space, xattr_get_last, space_between,
}
use android_platform_system.Ext4.Xattr.Region.{Attribute, EntryAt, Entries, Holds}

module _ (m : Memory) (base : ℕ) where
  pub Entries-bounds :
      (p v q w : ℕ) (attributes : List Attribute)
      → Entries m base p v attributes q w
      → (p + 16 * length attributes ≤ q) × (w ≤ v)
  Entries-bounds p v q w [] (e, f) = (omega arith, omega arith)
  Entries-bounds p v q w (a ∷ attributes) (h, e, f) =
      let (b, c) =
        Entries-bounds (p + xattr_len (length a.name)) (v - xattr_size (length a.value)) q w
          attributes f in
      (omega arith, omega arith)

  pub entry_visible :
      (p val : ℕ) (a : Attribute) → EntryAt m base p val a → is_last_entry m p ≡ false
  entry_visible p val a e = let i = e.index in let n = e.visible in ground arith

  pub entry_size :
      (p val : ℕ) (a : Attribute)
      → EntryAt m base p val a
      → xattr_size32 (read32 m (p + 8)) ≡ xattr_size (length a.value)
  entry_size p val a e = let s = e.size in let h = e.short in rw s (omega arith)

  pub entry_next :
      (p val : ℕ) (a : Attribute)
      → EntryAt m base p val a
      → xattr_next m p ≡ p + xattr_len (length a.name)
  entry_next p val a e = rw (e.name_len) refl

  pub free_space_loop-Entries :
      (fuel p v q w : ℕ) (attributes : List Attribute)
      → length attributes < fuel
      → Entries m base p v attributes q w
      → is_last_entry m q ≡ true
      → q < w
      → free_space_loop fuel m p v ≡ returns (q, w)
  unfolding free_space_loop
  free_space_loop-Entries zero p v q w attributes h e l k = absurd (omega arith)
  free_space_loop-Entries (suc fuel) p v q w [] h (e, f) l k = rw (e, f, l) refl
  free_space_loop-Entries (suc fuel) p v q w (a ∷ attributes) h (s, e, f) l k =
      let (b, c) = Entries-bounds _ _ q w attributes f in
      let r = free_space_loop-Entries fuel _ _ q w attributes (omega arith) f l k in
      let less : ltb p v ≡ true = ground arith in
      rw (entry_visible p _ a e, less, entry_size p _ a e, entry_next p _ a e) r

  pub xattr_get_last-Entries :
      (fuel p v q w : ℕ) (attributes : List Attribute)
      → length attributes < fuel
      → Entries m base p v attributes q w
      → is_last_entry m q ≡ true
      → xattr_get_last fuel m p ≡ returns q
  unfolding xattr_get_last
  xattr_get_last-Entries zero p v q w attributes h e l = absurd (omega arith)
  xattr_get_last-Entries (suc fuel) p v q w [] h (e, f) l = rw (e, l) refl
  xattr_get_last-Entries (suc fuel) p v q w (a ∷ attributes) h (s, e, f) l =
      let r = xattr_get_last-Entries fuel _ _ q w attributes (omega arith) f l in
      rw (entry_visible p _ a e, entry_next p _ a e) r

-- A zero word at the begin of the gap is the end marker.
pub Holds-is_last :
    (m : Memory) (base first end q w : ℕ) (attributes : List Attribute)
    → Holds m base first end attributes q w
    → is_last_entry m q ≡ true
Holds-is_last m base first end q w attributes h =
    let g = h.gap in
    let z0 = h.zeros q (omega arith) (omega arith) in
    let z1 = h.zeros (q + 1) (omega arith) (omega arith) in
    let z2 = h.zeros (q + 2) (omega arith) (omega arith) in
    let z3 = h.zeros (q + 2 + 1) (omega arith) (omega arith) in rw (z0, z1, z2, z3) refl

pub xattr_free_space-Holds :
    (force : Bool) (m : Memory) (base first end q w : ℕ) (attributes : List Attribute)
    → Holds m base first end attributes q w
    → xattr_free_space force m first end ≡ returns (w - q)
unfolding xattr_free_space
xattr_free_space-Holds force m base first end q w attributes h =
    let g = h.gap in
    let (b, c) = Entries-bounds m base first end q w attributes h.entries in
    let l =
      free_space_loop-Entries m base (suc end) first end q w attributes (omega arith) h.entries
        (Holds-is_last m base first end q w attributes h) (omega arith) in
    let no : ltb w q ≡ false = ground arith in ap (space_between force) l ∙ rw no refl

-- Both memories agree in the region from `low` to `high`, but for the gap.
module _ (m m' : Memory) (base low q w high : ℕ) (below : (i : ℕ) → low ≤ i → i < q → m' i ≡ m i)
    (above : (i : ℕ) → w ≤ i → i < high → m' i ≡ m i) where
  EntryAt-frame :
      (p val : ℕ) (a : Attribute)
      → low ≤ p
      → p + xattr_len (length a.name) ≤ q
      → w ≤ val
      → val + xattr_size (length a.value) ≤ high
      → EntryAt m base p val a
      → EntryAt m' base p val a
  EntryAt-frame p val a hl hp hv hh e = record {
    name_len = below p (omega arith) (omega arith) ∙ e.name_len;
    index = below (p + 1) (omega arith) (omega arith) ∙ e.index;
    offset =
        rw
          (below (p + 2) (omega arith) (omega arith), below (p + 2 + 1) (omega arith) (omega arith))
          e.offset;
    in_place =
        rw
          (
            below (p + 4) (omega arith) (omega arith),
            below (p + 4 + 1) (omega arith) (omega arith),
            below (p + 4 + 2) (omega arith) (omega arith),
            below (p + 4 + 2 + 1) (omega arith) (omega arith),
          )
          e.in_place;
    size =
        rw
          (
            below (p + 8) (omega arith) (omega arith),
            below (p + 8 + 1) (omega arith) (omega arith),
            below (p + 8 + 2) (omega arith) (omega arith),
            below (p + 8 + 2 + 1) (omega arith) (omega arith),
          )
          e.size;
    name_bytes = λ i h. below (p + 16 + i) (omega arith) (omega arith) ∙ e.name_bytes i h;
    value_bytes = λ i h. above (val + i) (omega arith) (omega arith) ∙ e.value_bytes i h;
    visible = e.visible;
    short = e.short;
  }

  pub Entries-frame :
      (p v : ℕ) (attributes : List Attribute)
      → low ≤ p
      → v ≤ high
      → Entries m base p v attributes q w
      → Entries m' base p v attributes q w
  Entries-frame p v [] hl hh e = e
  Entries-frame p v (a ∷ attributes) hl hh (s, e, f) =
      let (b, c) = Entries-bounds m base _ _ q w attributes f in
      (
        s,
        EntryAt-frame p _ a hl (omega arith) c (omega arith) e,
        Entries-frame (p + xattr_len (length a.name)) (v - xattr_size (length a.value)) attributes
            (omega arith) (omega arith) f,
      )

-- A region where nothing changes.
pub Holds-frame :
    (m m' : Memory) (base first end q w : ℕ) (attributes : List Attribute)
    → ((i : ℕ) → first ≤ i → i < end → m' i ≡ m i)
    → Holds m base first end attributes q w
    → Holds m' base first end attributes q w
Holds-frame m m' base first end q w attributes same h =
    let (b, c) = Entries-bounds m base first end q w attributes h.entries in
    let g = h.gap in
    record {
      entries =
          Entries-frame m m' base first q w end (λ i l k. same i l (omega arith))
            (λ i l k. same i (omega arith) k) first end attributes (omega arith) (omega arith)
            h.entries;
      gap = g;
      zeros = λ i l k. same i (omega arith) (omega arith) ∙ h.zeros i l k;
    }

pub Entries-append :
    (m : Memory) (base p v q w : ℕ) (a : Attribute) (attributes : List Attribute)
    → Entries m base p v attributes q w
    → xattr_size (length a.value) ≤ w
    → EntryAt m base q (w - xattr_size (length a.value)) a
    → Entries m base p v
        (attributes ++ a ∷ [])
        (q + xattr_len (length a.name))
        (w - xattr_size (length a.value))
Entries-append m base p v q w a [] (e, f) s d = rw (e, f) (s, d, (refl, refl))
Entries-append m base p v q w a (b ∷ attributes) (t, e, f) s d = (
  t,
  e,
  Entries-append m base (p + xattr_len (length b.name)) (v - xattr_size (length b.value)) q w a
      attributes f s d,
)
