-- ===== src/Ext4/Geometry/Powers.antt =====
-- `is_power_of` and `ext4_bg_has_super_block` (ext4_utils/ext4_utils.c).
use Prim.Native.Nat.{bit_and}
use native.Mathlib.Nat.{pow-zero, pow-suc, div-add-mod', div-lt_self, mul-div_cancel}
use android_platform_system.Prelude.{
  ℕ, zero, suc, ◌*◌, ◌/◌, ◌%◌, ◌^◌, ◌≤◌, ◌<◌, ◌≡◌, ◌≢◌, ◌↔◌, ◌⊎◌, inl, inr, refl, true, false, ◌||◌,
  ◌==◌, ==_iff, Bool-cases, arith, ltb, sym, ap, ◌∙◌,
}
use android_platform_system.Ext4.Geometry.{power_loop, is_power_of, FsInfo, ext4_bg_has_super_block}

-- `a` is `b`, or `b` times itself once or more.
abbrev pub IsPower : ℕ → ℕ → Type 0
IsPower a b = (k : ℕ) × (a ≡ b ^ suc k)

pow_one : (b : ℕ) → b ^ 1 ≡ b
pow_one b = pow-suc b 0 ∙ (ap (λ x. x * b) (pow-zero b) ∙ omega arith)

div_exact : (a b : ℕ) → a % b ≡ 0 → a ≡ a / b * b
div_exact a b h = omega (arith, div-add-mod' a b, h)

power_loop-IsPower : (fuel a b : ℕ) → 2 ≤ b → a < fuel → power_loop fuel a b ≡ true → IsPower a b
unfolding power_loop
power_loop-IsPower zero a b h l t = absurd (omega arith)
power_loop-IsPower (suc fuel) a b h l t = elim (Bool-cases (ltb b a)) [
  | inr n ↦ (0, (==_iff a b).0 (rw n at t) ∙ sym (pow_one b))
  | inl y ↦ elim (Bool-cases (a % b == 0)) [
    | inr n ↦ cc (rw (y, n) at t)
    | inl z ↦
        let l' : a / b < a = div-lt_self (ground arith) (omega arith) in
        let (k, e) = power_loop-IsPower fuel (a / b) b h (omega arith) (rw (y, z) at t) in
        (suc k, div_exact a b (ground arith) ∙ (ap (λ x. x * b) e ∙ sym (pow-suc b (suc k))))
  ]
]

pow_pos : (b k : ℕ) → 2 ≤ b → 2 ≤ b ^ suc k
pow_pos b zero h = omega (arith, pow_one b)
pow_pos b (suc k) h =
    let i : 2 ≤ b ^ suc k = pow_pos b k h in
    let m : 2 * 2 ≤ b ^ suc k * b = grind arith in omega (arith, pow-suc b (suc k), m)

IsPower-power_loop :
    (k fuel b : ℕ) → 2 ≤ b → b ^ suc k < fuel → power_loop fuel (b ^ suc k) b ≡ true
unfolding power_loop
IsPower-power_loop k zero b h l = absurd (omega arith)
IsPower-power_loop zero (suc fuel) b h l =
    let e : b ^ 1 ≡ b = omega (arith, pow_one b) in rw e (ground arith)
IsPower-power_loop (suc k) (suc fuel) b h l =
    let p : ℕ = b ^ suc k in
    let e : b ^ suc (suc k) ≡ p * b = pow-suc b (suc k) in
    let i : 2 ≤ p = pow_pos b k h in
    let g : 2 * b ≤ p * b = grind arith in
    let y : ltb b (p * b) ≡ true = ground arith in
    let d : p * b / b ≡ p = mul-div_cancel p (omega arith) in
    let m : p * b % b ≡ 0 = omega (arith, div-add-mod' (p * b) b, ap (λ (t : ℕ). t * b) d) in
    let w : p * 2 ≤ p * b = grind arith in
    rw (e, y, d, m) (IsPower-power_loop k fuel b h (omega (arith, e)))

-- `is_power_of` tells exactly the powers of a base of at least 2, from the first on.
pub is_power_of_iff : (a b : ℕ) → 2 ≤ b → (is_power_of a b ≡ true) ↔ IsPower a b
unfolding is_power_of
is_power_of_iff a b h = (
  (λ t. power_loop-IsPower (suc a) a b h (omega arith) t),
  (λ p. rw p.1 (IsPower-power_loop p.0 (suc (b ^ suc p.0)) b h (omega arith))),
)

-- The groups that have a superblock under sparse_super.
abbrev pub HasSuper : ℕ → Type 0
HasSuper bg = ((bg ≡ 0) ⊎ (bg ≡ 1)) ⊎ (IsPower bg 3 ⊎ (IsPower bg 5 ⊎ IsPower bg 7))

one_of_three :
    (bg : ℕ)
    → (is_power_of bg 3 || (is_power_of bg 5 || is_power_of bg 7)) ≡ true
    → IsPower bg 3 ⊎ (IsPower bg 5 ⊎ IsPower bg 7)
one_of_three bg t = elim (Bool-cases (is_power_of bg 3)) [
  | inl p ↦ inl ((is_power_of_iff bg 3 (omega arith)).0 p)
  | inr n ↦ elim (Bool-cases (is_power_of bg 5)) [
    | inl p ↦ inr (inl ((is_power_of_iff bg 5 (omega arith)).0 p))
    | inr m ↦ inr (inr ((is_power_of_iff bg 7 (omega arith)).0 (rw (n, m) at t)))
  ]
]

three_of_one :
    (bg : ℕ)
    → IsPower bg 3 ⊎ (IsPower bg 5 ⊎ IsPower bg 7)
    → (is_power_of bg 3 || (is_power_of bg 5 || is_power_of bg 7)) ≡ true
three_of_one bg (inl p) = rw ((is_power_of_iff bg 3 (omega arith)).1 p) refl
three_of_one bg (inr (inl p)) = let e = (is_power_of_iff bg 5 (omega arith)).1 p in ground arith
three_of_one bg (inr (inr p)) = let e = (is_power_of_iff bg 7 (omega arith)).1 p in ground arith

-- With sparse_super exactly the groups 0 and 1 and the powers of 3, 5 and 7 have a superblock.
pub ext4_bg_has_super_block_iff :
    (info : FsInfo) (bg : ℕ)
    → bit_and info.feat_ro_compat 1 ≢ 0
    → (ext4_bg_has_super_block info bg ≡ true) ↔ HasSuper bg
unfolding ext4_bg_has_super_block
ext4_bg_has_super_block_iff info bg h =
    let s : (bit_and info.feat_ro_compat 1 == 0) ≡ false = ground arith in
    elim (Bool-cases (bg == 0 || bg == 1)) [
      | inl y ↦ rw (s, y) ((λ t. inl (ground arith)), (λ t. refl))
      | inr n ↦ rw (s, n) ((λ t. inr (one_of_three bg t)), (λ t. later n t))
    ]
  where
    later :
        (bg == 0 || bg == 1) ≡ false
        → HasSuper bg
        → (is_power_of bg 3 || (is_power_of bg 5 || is_power_of bg 7)) ≡ true
    later n (inl e) = absurd (ground arith)
    later n (inr p) = three_of_one bg p
