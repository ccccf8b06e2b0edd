-- ===== src/Fatblock/Pool/Ring.antt =====
-- The ring of nodes of fatblock/fdpool.c as a list.
use android_platform_system.Prelude.{
  ℕ, suc, ◌≡◌, refl, sym, inl, inr, subst, Bool, true, false, not, ◌&&◌, ◌||◌, ◌==◌, if◌then◌else◌,
  List, [], ◌∷◌, arith, Bool-cases, ◌∙◌, length, ap,
}

abbrev pub member : ℕ → List ℕ → Bool
member x [] = false
member x (y ∷ ys) = x == y || member x ys

abbrev pub delete : ℕ → List ℕ → List ℕ
delete x [] = []
delete x (y ∷ ys) = if x == y then ys else y ∷ delete x ys

abbrev pub last_of : ℕ → List ℕ → ℕ
last_of a [] = a
last_of a (x ∷ xs) = last_of x xs

abbrev pub Distinct : List ℕ → Type 0
Distinct [] = Unit
Distinct (x ∷ xs) = (member x xs ≡ false) × Distinct xs

-- `next` leads from `a` through `xs` to `b`.
abbrev pub Forward : (ℕ → ℕ) → ℕ → List ℕ → ℕ → Type 0
Forward next a [] b = next a ≡ b
Forward next a (x ∷ xs) b = (next a ≡ x) × Forward next x xs b

-- `prev` leads from `b` back through `xs` to `a`.
abbrev pub Backward : (ℕ → ℕ) → ℕ → List ℕ → ℕ → Type 0
Backward prev a [] b = prev b ≡ a
Backward prev a (x ∷ xs) b = (prev x ≡ a) × Backward prev x xs b

-- The neighbours of `x` in `a ∷ xs` and in `xs` followed by `b`.
abbrev pub before : ℕ → List ℕ → ℕ → ℕ
before a [] x = a
before a (y ∷ ys) x = if x == y then a else before y ys x

abbrev pub first_of : List ℕ → ℕ → ℕ
first_of [] b = b
first_of (x ∷ xs) b = x

abbrev pub after : List ℕ → ℕ → ℕ → ℕ
after [] b x = b
after (y ∷ ys) b x = if x == y then first_of ys b else after ys b x

pub Forward-first :
    (next : ℕ → ℕ) (a : ℕ) (xs : List ℕ) (b : ℕ) → Forward next a xs b → next a ≡ first_of xs b
Forward-first next a [] b p = p
Forward-first next a (x ∷ xs) b p = p.0

pub Backward-last :
    (prev : ℕ → ℕ) (a : ℕ) (xs : List ℕ) (b : ℕ) → Backward prev a xs b → prev b ≡ last_of a xs
Backward-last prev a [] b p = p
Backward-last prev a (x ∷ xs) b p = Backward-last prev x xs b (p.1)

pub Forward-after :
    (next : ℕ → ℕ) (a : ℕ) (xs : List ℕ) (b x : ℕ)
    → Forward next a xs b
    → member x xs ≡ true
    → next x ≡ after xs b x
Forward-after next a [] b x p m = ground arith
Forward-after next a (y ∷ ys) b x p m = elim (Bool-cases (x == y)) [
  | inl e ↦ let xy : x ≡ y = ground arith in rw (e, xy) (Forward-first next y ys b (p.1))
  | inr e ↦ rw e (Forward-after next y ys b x (p.1) (ground arith))
]

pub Backward-before :
    (prev : ℕ → ℕ) (a : ℕ) (xs : List ℕ) (b x : ℕ)
    → Backward prev a xs b
    → member x xs ≡ true
    → prev x ≡ before a xs x
Backward-before prev a [] b x p m = ground arith
Backward-before prev a (y ∷ ys) b x p m = elim (Bool-cases (x == y)) [
  | inl e ↦ let xy : x ≡ y = ground arith in rw (e, xy) (p.0)
  | inr e ↦ rw e (Backward-before prev y ys b x (p.1) (ground arith))
]

Bool-or_true : (c : Bool) → (c || true) ≡ true
Bool-or_true true = refl
Bool-or_true false = refl

pub member-apart :
    (x y : ℕ) (ys : List ℕ) → member x ys ≡ true → member y ys ≡ false → (x == y) ≡ false
member-apart x y ys m n = elim (Bool-cases (x == y)) [
  | inl e ↦
      let xy : x ≡ y = ground arith in
      let m' : member y ys ≡ true = rw xy at m in absurd (ground (arith, m', n))
  | inr e ↦ e
]

pub Forward-frame :
    (next next' : ℕ → ℕ) (a c : ℕ) (xs : List ℕ) (b : ℕ)
    → Forward next a xs b
    → next' c ≡ next a
    → ((i : ℕ) → member i xs ≡ true → next' i ≡ next i)
    → Forward next' c xs b
Forward-frame next next' a c [] b p s f = s ∙ p
Forward-frame next next' a c (x ∷ xs) b p s f =
    let xx : (x == x) ≡ true = ground arith in
    (
      s ∙ p.0,
      Forward-frame next next' x x xs b (p.1) (f x (rw xx refl))
          (λ i m. f i (rw m (Bool-or_true (i == x)))),
    )

pub Backward-frame :
    (prev prev' : ℕ → ℕ) (a : ℕ) (xs : List ℕ) (b : ℕ)
    → Backward prev a xs b
    → prev' b ≡ prev b
    → ((i : ℕ) → member i xs ≡ true → prev' i ≡ prev i)
    → Backward prev' a xs b
Backward-frame prev prev' a [] b p s f = s ∙ p
Backward-frame prev prev' a (x ∷ xs) b p s f =
    let xx : (x == x) ≡ true = ground arith in
    (
      f x (rw xx refl) ∙ p.0,
      Backward-frame prev prev' x xs b (p.1) s (λ i m. f i (rw m (Bool-or_true (i == x)))),
    )

pub member-here : (a : ℕ) (xs : List ℕ) → member a (a ∷ xs) ≡ true
member-here a xs = let aa : (a == a) ≡ true = ground arith in rw aa refl

pub member-after : (c a : ℕ) (xs : List ℕ) → member c xs ≡ true → member c (a ∷ xs) ≡ true
member-after c a xs m = rw m (Bool-or_true (c == a))

before-step : (a y x : ℕ) (ys : List ℕ) → (x == y) ≡ false → before a (y ∷ ys) x ≡ before y ys x
before-step a y x ys e = rw e refl

before-here : (a y x : ℕ) (ys : List ℕ) → (x == y) ≡ true → before a (y ∷ ys) x ≡ a
before-here a y x ys e = rw e refl

pub before-member : (a : ℕ) (xs : List ℕ) (x : ℕ) → member (before a xs x) (a ∷ xs) ≡ true
before-member a [] x = ground arith
before-member a (y ∷ ys) x = elim (Bool-cases (x == y)) [
  | inl e ↦
      subst (λ c. member c (a ∷ y ∷ ys) ≡ true) (sym (before-here a y x ys e))
        (member-here a (y ∷ ys))
  | inr e ↦
      subst (λ c. member c (a ∷ y ∷ ys) ≡ true) (sym (before-step a y x ys e))
        (member-after (before y ys x) a (y ∷ ys) (before-member y ys x))
]

pub member-delete :
    (i x : ℕ) (xs : List ℕ) → Distinct xs → member i (delete x xs) ≡ (not (i == x) && member i xs)
member-delete i x [] d = ground arith
member-delete i x (y ∷ ys) d = elim (Bool-cases (x == y)) [
  | inl e ↦
      let xy : x ≡ y = ground arith in
      elim (Bool-cases (i == y)) [
        | inl e' ↦ let iy : i ≡ y = ground arith in rw (e, xy, iy) (ground (arith, d.0))
        | inr e' ↦ let ix : (i == x) ≡ false = rw xy e' in rw (e, ix, e') refl
      ]
  | inr e ↦ rw (e, member-delete i x ys (d.1)) (ground arith)
]

pub Distinct-delete : (x : ℕ) (xs : List ℕ) → Distinct xs → Distinct (delete x xs)
Distinct-delete x [] d = tt
Distinct-delete x (y ∷ ys) d = elim (Bool-cases (x == y)) [
  | inl e ↦ rw e (d.1)
  | inr e ↦ rw e (member-delete y x ys (d.1) ∙ rw (d.0) (ground arith), Distinct-delete x ys (d.1))
]

pub length-delete :
    (x : ℕ) (xs : List ℕ) → member x xs ≡ true → suc (length (delete x xs)) ≡ length xs
length-delete x [] m = ground arith
length-delete x (y ∷ ys) m = elim (Bool-cases (x == y)) [
  | inl e ↦ rw e refl
  | inr e ↦ rw e (ap suc (length-delete x ys (ground arith)))
]

pub last_of-member : (a : ℕ) (xs : List ℕ) → member (last_of a xs) (a ∷ xs) ≡ true
last_of-member a [] = member-here a []
last_of-member a (x ∷ xs) = member-after (last_of x xs) a (x ∷ xs) (last_of-member x xs)
