-- ===== src/Ext4/Slashes/Closed.antt =====
-- What canonicalize_slashes (ext4_utils/make_ext4fs.c) guarantees.
use android_platform_system.Prelude.{
  ℕ, suc, ◌+◌, ◌≡◌, ◌≢◌, ◌⊎◌, inl, inr, refl, ap, ◌∙◌, arith, Bool, true, false, not, ◌&&◌, ◌==◌,
  Bool-cases, List, [], ◌∷◌, ◌++◌, length, length-append,
}
use android_platform_system.Ext4.Exit.{returns}
use android_platform_system.Ext4.Slashes.{
  slash, first_byte, last_byte, slash_if, one_if, slashed, canonicalize_slashes,
}

append_empty : (xs : List ℕ) → xs ++ [] ≡ xs
append_empty [] = refl
append_empty (x ∷ xs) = ap (λ l. x ∷ l) (append_empty xs)

length-slash_if : (b : Bool) → length (slash_if b) ≡ one_if b
length-slash_if true = refl
length-slash_if false = refl

-- The length that was computed is the length of the string.
slashed_lem :
    (lead trail : Bool) (str : List ℕ)
    → slashed lead trail str ≡ returns (slash_if lead ++ (str ++ slash_if trail))
slashed_lem lead trail str =
    let ret = slash_if lead ++ (str ++ slash_if trail) in
    let a = length-append (slash_if lead) (str ++ slash_if trail) in
    let b = length-append str (slash_if trail) in
    let c = length-slash_if lead in
    let d = length-slash_if trail in
    let e : length ret ≡ length str + one_if lead + one_if trail = omega (arith, a, b, c, d) in
    let same : (length ret == (length str + one_if lead + one_if trail)) ≡ true = ground arith in
    rw same refl

last_byte-append :
    (before : ℕ) (str : List ℕ) (trail : Bool)
    → not (last_byte before str == slash) ≡ trail
    → last_byte before (str ++ slash_if trail) ≡ slash
last_byte-append before [] true h = refl
last_byte-append before [] false h = ground arith
last_byte-append before (x ∷ str) trail h = last_byte-append x str trail h

-- A string that has its slashes stays as it is.
stays :
    (other x : ℕ) (str : List ℕ) (absolute : Bool)
    → last_byte x str ≡ slash
    → (absolute ≡ false) ⊎ (x ≡ slash)
    → canonicalize_slashes other (x ∷ str) absolute ≡ returns (x ∷ str)
unfolding canonicalize_slashes
stays other x str absolute l f =
    let some : (suc (length str) == 0) ≡ false = ground arith in
    let lead : (not (x == slash) && absolute) ≡ false = elim f [
      | inl e ↦ ground arith
      | inr e ↦ ground arith
    ] in
    let trail : (last_byte x str == slash) ≡ true = ground arith in
    rw (some, lead, trail)
      (slashed_lem false false (x ∷ str) ∙ ap (λ s. returns s) (append_empty (x ∷ str)))

-- What a call promises of the string that it returns.
abbrev pub Canonical : ℕ → Bool → List ℕ → Type 0
Canonical other absolute ret =
    (last_byte 0 ret ≡ slash)
    × ((absolute ≡ false) ⊎ (first_byte ret ≡ slash))
    × (canonicalize_slashes other ret absolute ≡ returns ret)

closed :
    (other before x : ℕ) (xs : List ℕ) (absolute lead trail : Bool)
    → (not (x == slash) && absolute) ≡ lead
    → not (last_byte x xs == slash) ≡ trail
    → Canonical other absolute (slash_if lead ++ ((x ∷ xs) ++ slash_if trail))
closed other before x xs absolute true trail h k =
    let l = last_byte-append x xs trail k in
    (l, inr refl, stays other slash (x ∷ xs ++ slash_if trail) absolute l (inr refl))
closed other before x xs absolute false trail h k =
    let l = last_byte-append x xs trail k in
    let f : (absolute ≡ false) ⊎ (x ≡ slash) = elim (Bool-cases absolute) [
      | inl y ↦ inr (ground arith)
      | inr n ↦ inl n
    ] in
    (l, f, stays other x (xs ++ slash_if trail) absolute l f)

-- The string with at most one slash added on each side: in front only with `absolute` and where
-- it has none, behind only where it does not end in one.
abbrev pub Wraps : List ℕ → Bool → List ℕ → Type 0
Wraps str absolute ret =
    (lead : Bool) × (trail : Bool) × (ret ≡ slash_if lead ++ (str ++ slash_if trail))
    × ((lead ≡ false) ⊎ (absolute ≡ true))
    × ((lead ≡ false) ⊎ (first_byte str ≢ slash))
    × ((trail ≡ false) ⊎ (last_byte 0 str ≢ slash))

wraps_lem :
    (x : ℕ) (xs : List ℕ) (absolute lead trail : Bool)
    → (not (x == slash) && absolute) ≡ lead
    → not (last_byte x xs == slash) ≡ trail
    → Wraps (x ∷ xs) absolute (slash_if lead ++ ((x ∷ xs) ++ slash_if trail))
wraps_lem x xs absolute lead trail h k =
    let f : (lead ≡ false) ⊎ (absolute ≡ true) = ground arith in
    let g : (lead ≡ false) ⊎ (x ≢ slash) = elim (Bool-cases lead) [
      | inl y ↦ inr (λ e. ground arith)
      | inr n ↦ inl n
    ] in
    let t : (trail ≡ false) ⊎ (last_byte x xs ≢ slash) = elim (Bool-cases trail) [
      | inl y ↦ inr (λ e. ground arith)
      | inr n ↦ inl n
    ] in
    (lead, trail, refl, f, g, t)

-- For a string that is not empty, or with `absolute`: canonicalize_slashes returns, so that its assertion
-- on the length holds, the string itself, with a slash added in front only if it has none there
-- and `absolute` is set, and one behind only if it does not end in one. The result ends in a slash,
-- begins with one if `absolute` is set, and a second call leaves it as it is.
pub canonicalize_slashes-Canonical :
    (before other : ℕ) (str : List ℕ) (absolute : Bool)
    → (str ≢ []) ⊎ (absolute ≡ true)
    → (ret : List ℕ) × (canonicalize_slashes before str absolute ≡ returns ret)
      × Wraps str absolute ret
      × Canonical other absolute ret
unfolding canonicalize_slashes
canonicalize_slashes-Canonical before other [] absolute (inl h) = absurd (h refl)
canonicalize_slashes-Canonical before other [] absolute (inr h) = (
  slash ∷ [],
  rw h refl,
  (false, true, refl, inl refl, inl refl, inr (λ e. omega arith)),
  (refl, inr refl, stays other slash [] absolute refl (inr refl)),
)
canonicalize_slashes-Canonical before other (x ∷ xs) absolute h =
    let some : (suc (length xs) == 0) ≡ false = ground arith in
    let lead = not (x == slash) && absolute in
    let trail = not (last_byte x xs == slash) in
    (
      slash_if lead ++ ((x ∷ xs) ++ slash_if trail),
      rw some (slashed_lem lead trail (x ∷ xs)),
      wraps_lem x xs absolute lead trail refl refl,
      closed other before x xs absolute lead trail refl refl,
    )
