-- ===== src/Fatblock/Pool/Links.antt =====
-- A node is taken out of the ring of fatblock/fdpool.c, or put in.
use android_platform_system.Prelude.{
  ℕ, ◌≡◌, refl, inl, inr, true, false, ◌==◌, List, [], ◌∷◌, arith, Bool-cases, ◌∙◌,
}
use android_platform_system.Fatblock.Pool.Ring.{
  member, delete, Distinct, Forward, Backward, before, after, first_of, Forward-frame,
  Backward-frame, member-apart, before-member,
}

-- Where `x` is taken out, its neighbours point to each other.
pub Forward-delete :
    (next next' : ℕ → ℕ) (x a : ℕ) (xs : List ℕ) (b : ℕ)
    → Forward next a xs b
    → member x xs ≡ true
    → Distinct (a ∷ xs)
    → next' (before a xs x) ≡ next x
    → ((i : ℕ) → (i == before a xs x) ≡ false → next' i ≡ next i)
    → Forward next' a (delete x xs) b
Forward-delete next next' x a [] b p m d s f = ground arith
Forward-delete next next' x a (y ∷ ys) b p m d s f = elim (Bool-cases (x == y)) [
  | inl e ↦
      let xy : x ≡ y = ground arith in
      let s' : next' a ≡ next y = (rw e at s) ∙ rw xy refl in
      rw e (
        Forward-frame next next' y a ys b (p.1) s'
          (λ i m'. (rw e at f) i (member-apart i a ys m' (ground (arith, d.0)))))
  | inr e ↦
      let g : (i : ℕ) → (i == before y ys x) ≡ false → next' i ≡ next i = rw e at f in
      let apart : (before y ys x == a) ≡ false =
        member-apart (before y ys x) a (y ∷ ys) (before-member y ys x) (d.0) in
      rw e (
        g a (ground arith) ∙ p.0,
        Forward-delete next next' x y ys b (p.1) (ground arith) (d.1) (rw e at s) g,
      )
]

pub first_of-member :
    (xs : List ℕ) (b y : ℕ) → member y xs ≡ false → (b == y) ≡ false → (first_of xs b == y) ≡ false
first_of-member [] b y m n = n
first_of-member (x ∷ xs) b y m n = ground arith

pub after-apart :
    (xs : List ℕ) (b x y : ℕ) → member y xs ≡ false → (b == y) ≡ false → (after xs b x == y) ≡ false
after-apart [] b x y m n = n
after-apart (z ∷ zs) b x y m n = elim (Bool-cases (x == z)) [
  | inl e ↦ rw e (first_of-member zs b y (ground arith) n)
  | inr e ↦ rw e (after-apart zs b x y (ground arith) n)
]

pub Backward-start :
    (prev prev' : ℕ → ℕ) (a y : ℕ) (xs : List ℕ) (b : ℕ)
    → Backward prev y xs b
    → Distinct xs
    → member b xs ≡ false
    → prev' (first_of xs b) ≡ a
    → ((i : ℕ) → (i == first_of xs b) ≡ false → prev' i ≡ prev i)
    → Backward prev' a xs b
Backward-start prev prev' a y [] b p d n s f = s
Backward-start prev prev' a y (x ∷ xs) b p d n s f = (
  s,
  Backward-frame prev prev' x xs b (p.1) (f b (ground arith))
      (λ i m. f i (member-apart i x xs m (d.0))),
)

pub Backward-delete :
    (prev prev' : ℕ → ℕ) (x a : ℕ) (xs : List ℕ) (b : ℕ)
    → Backward prev a xs b
    → member x xs ≡ true
    → Distinct xs
    → member b xs ≡ false
    → prev' (after xs b x) ≡ prev x
    → ((i : ℕ) → (i == after xs b x) ≡ false → prev' i ≡ prev i)
    → Backward prev' a (delete x xs) b
Backward-delete prev prev' x a [] b p m d n s f = ground arith
Backward-delete prev prev' x a (y ∷ ys) b p m d n s f = elim (Bool-cases (x == y)) [
  | inl e ↦
      let xy : x ≡ y = ground arith in
      let s' : prev' (first_of ys b) ≡ a = (rw e at s) ∙ rw xy (p.0) in
      rw e (Backward-start prev prev' a y ys b (p.1) (d.1) (ground arith) s' (rw e at f))
  | inr e ↦
      let g : (i : ℕ) → (i == after ys b x) ≡ false → prev' i ≡ prev i = rw e at f in
      let apart : (after ys b x == y) ≡ false = after-apart ys b x y (d.0) (ground arith) in
      rw e (
        g y (ground arith) ∙ p.0,
        Backward-delete prev prev' x y ys b (p.1) (ground arith) (d.1) (ground arith) (rw e at s) g,
      )
]
