-- ===== src/Ext4/Regions/Linked.antt =====
-- A doubly linked list of regions in memory (ext4_utils/allocate.c), and a region added at its end.
use android_platform_system.Prelude.{
  ℕ, suc, ◌<◌, ◌≡◌, false, arith, List, [], ◌∷◌, ◌++◌, some, ◌==◌, ◌∙◌,
}
use android_platform_system.Ext4.Store.{Ptr, null, Region, Store}
use android_platform_system.Ext4.Regions.{RegionList}

-- A region of a list, with its address.
pub record Node : Type 0 where
  pub at : Ptr
  pub block : ℕ
  pub len : ℕ
  pub bg : ℕ

abbrev pub head_at : List Node → Ptr
head_at [] = null
head_at (x ∷ xs) = x.at

abbrev pub last_at : Ptr → List Node → Ptr
last_at q [] = q
last_at q (x ∷ xs) = last_at x.at xs

-- No node of the list stands at `p`.
abbrev pub Apart : Ptr → List Node → Type 0
Apart p [] = Unit
Apart p (x ∷ xs) = ((p == x.at) ≡ false) × Apart p xs

abbrev pub region : Node → Ptr → Ptr → Region
region x next prev = record { block = x.block; len = x.len; bg = x.bg; next = next; prev = prev }

-- The memory links the nodes both ways, behind the node at `q`; no two share an address.
abbrev pub Linked : Store → Ptr → List Node → Type 0
Linked s q [] = Unit
Linked s q (x ∷ xs) =
    (0 < x.at)
    × (x.at < s.fresh)
    × Apart x.at xs
    × (s.cell x.at ≡ some (region x (head_at xs) q))
    × Linked s x.at xs

pub record IsList (s : Store) (list : RegionList) (xs : List Node) : Type 0 where
  pub linked : Linked s null xs
  pub first : list.first ≡ head_at xs
  pub last : list.last ≡ last_at null xs
  pub some_fresh : 0 < s.fresh

Apart-last :
    (xs : List Node) (p : Ptr) (q : Ptr)
    → (p == q) ≡ false
    → Apart p xs
    → (p == last_at q xs) ≡ false
Apart-last [] p q n a = n
Apart-last (x ∷ xs) p q n (m, a) = Apart-last xs p x.at m a

Apart-snoc :
    (xs : List Node) (p : Ptr) (y : Node)
    → (p == y.at) ≡ false
    → Apart p xs
    → Apart p (xs ++ y ∷ [])
Apart-snoc [] p y n a = (n, tt)
Apart-snoc (x ∷ xs) p y n (m, a) = (m, Apart-snoc xs p y n a)

pub last-old :
    (xs : List Node) (s : Store) (x : Node) (q : Ptr)
    → Linked s q (x ∷ xs)
    → (0 < last_at x.at xs) × (last_at x.at xs < s.fresh)
last-old [] s x q (z, f, a, c, l) = (z, f)
last-old (y ∷ ys) s x q (z, f, a, c, l) = last-old ys s y x.at l

-- The node at the end of a list, with the address before it.
pub last-cell :
    (xs : List Node) (s : Store) (x : Node) (q : Ptr)
    → Linked s q (x ∷ xs)
    → (r : Region) × (s.cell (last_at x.at xs) ≡ some r)
last-cell [] s x q (z, f, a, c, l) = (region x null q, c)
last-cell (y ∷ ys) s x q (z, f, a, c, l) = last-cell ys s y x.at l

-- What `append_region` does to the memory when the list ends at `last`: the last node points to the
-- new one, which points back, and the others stay.
pub record Extends (s t : Store) (last : Ptr) (new : Node) : Type 0 where
  pub at_fresh : new.at ≡ s.fresh
  pub grown : t.fresh ≡ suc s.fresh
  pub others : (p : Ptr) → (p == s.fresh) ≡ false → (p == last) ≡ false → t.cell p ≡ s.cell p
  pub at_last :
      (r : Region) → s.cell last ≡ some r → t.cell last ≡ some (record r { next = s.fresh })
  pub at_new : t.cell s.fresh ≡ some (region new null last)

module _ (s t : Store) (new : Node) where
  pub Linked-snoc :
      (xs : List Node) (x : Node) (q : Ptr)
      → Linked s q (x ∷ xs)
      → Extends s t (last_at x.at xs) new
      → Linked t q (x ∷ xs ++ new ∷ [])
  Linked-snoc [] x q (z, f, a, c, l) e =
      let n : (x.at == new.at) ≡ false = ground (arith, e.at_fresh) in
      (
        z,
        omega (arith, e.grown),
        (n, tt),
        e.at_last (region x null q) c ∙ rw e.at_fresh,
        (
          omega (arith, e.at_fresh),
          omega (arith, e.grown, e.at_fresh),
          tt,
          rw e.at_fresh e.at_new,
          tt,
        ),
      )
  Linked-snoc (y ∷ ys) x q (z, f, (n, a), c, l) e = (
    z,
    omega (arith, e.grown),
    (n, Apart-snoc ys x.at new (ground (arith, e.at_fresh)) a),
    e.others x.at (ground arith) (Apart-last ys x.at y.at n a) ∙ c,
    Linked-snoc ys y x.at l e,
  )
