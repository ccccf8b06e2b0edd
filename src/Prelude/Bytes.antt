-- ===== src/Prelude/Bytes.antt =====
-- One bit of one byte, as C reads and writes it: `b & 1 << j`, `b |= 1 << j`, `b &= ~(1 << j)`.
-- The laws are checked at every byte and position.
use Prim.Native.Nat.{ℕ, zero, suc, ◌-◌, ◌^◌, ◌<◌, bit_and, bit_or}
use mathlib.Core.Path.{◌≡◌, refl}
use mathlib.Core.Logic.{◌≢◌, inl, inr}
use mathlib.Core.Bool.{Bool, true, false, not, ◌&&◌, ◌||◌}
use native.Mathlib.Omega.{arith}
use android_platform_system.Prelude.Tests.{Bool-cases, ltb, ◌==◌, if◌then◌else◌}

-- `b & 1 << j` is not 0
unfoldable pub test_bit : ℕ → ℕ → Bool
test_bit b j = not (bit_and b (2 ^ j) == 0)

-- `b | 1 << j`
pub raise_bit : ℕ → ℕ → ℕ
raise_bit b j = bit_or b (2 ^ j)

-- `b & ~(1 << j)`, with `~` on a 32-bit integer
pub lower_bit : ℕ → ℕ → ℕ
lower_bit b j = bit_and b (2 ^ 32 - 1 - 2 ^ j)

-- The test holds of every number up to `k`.
unfoldable pub holds_to : ℕ → (ℕ → Bool) → Bool
holds_to zero test = test 0
holds_to (suc k) test = if test (suc k) then holds_to k test else false

pub holds_at :
    (k : ℕ) (test : ℕ → Bool) (x : ℕ) → holds_to k test ≡ true → x < suc k → test x ≡ true
unfolding holds_to
holds_at zero test x h l = let e : x ≡ 0 = omega arith in rw e h
holds_at (suc k) test x h l = elim (Bool-cases (x == suc k)) [
  | inl y ↦ let e : x ≡ suc k = ground arith in rw e (ground arith)
  | inr n ↦ holds_at k test x (ground arith) (ground arith)
]

unfoldable pub eqb : Bool → Bool → Bool
eqb true b = b
eqb false b = not b

eqb_sound : (a b : Bool) → eqb a b ≡ true → a ≡ b
unfolding eqb
eqb_sound a b h = ground arith

-- Two tests that agree on every number up to `n` by evaluation.
pub agree_below :
    (n : ℕ) (p q : ℕ → Bool)
    → holds_to n (λ k. eqb (p k) (q k)) ≡ true
    → (k : ℕ) → k < suc n
    → p k ≡ q k
agree_below n p q h k l = eqb_sound _ _ (holds_at n (λ j. eqb (p j) (q j)) k h l)

abbrev raise_law : ℕ → ℕ → ℕ → Bool
raise_law b i j = eqb (test_bit (raise_bit b i) j) (i == j || test_bit b j)

abbrev lower_law : ℕ → ℕ → ℕ → Bool
lower_law b i j = eqb (test_bit (lower_bit b i) j) (not (i == j) && test_bit b j)

raise_table : holds_to 255 (λ b. holds_to 7 (λ i. holds_to 7 (λ j. raise_law b i j))) ≡ true
unfolding holds_to eqb test_bit raise_bit
raise_table = refl

lower_table : holds_to 255 (λ b. holds_to 7 (λ i. holds_to 7 (λ j. lower_law b i j))) ≡ true
unfolding holds_to eqb test_bit lower_bit
lower_table = refl

range_table :
    holds_to 255 (λ b. holds_to 7 (λ i. ltb (raise_bit b i) 256 && ltb (lower_bit b i) 256)) ≡ true
unfolding holds_to raise_bit lower_bit
range_table = refl

zero_table : holds_to 7 (λ j. not (test_bit 0 j) && test_bit 255 j) ≡ true
unfolding holds_to test_bit
zero_table = refl

-- The place of a set bit of a byte that is not 0.
pub some_bit : ℕ → ℕ
some_bit b =
    if test_bit b 0
    then 0
    else if test_bit b 1
    then 1
    else if test_bit b 2
    then 2
    else if test_bit b 3
    then 3
    else if test_bit b 4
    then 4
    else if test_bit b 5
    then 5
    else if test_bit b 6
    then 6
    else 7

some_bit_table :
    holds_to 255 (λ b. b == 0 || (test_bit b (some_bit b) && ltb (some_bit b) 8)) ≡ true
unfolding holds_to some_bit test_bit
some_bit_table = refl

module _ (b i : ℕ) (hb : b < 256) (hi : i < 8) where
  pub test_bit-raise_bit : (j : ℕ) → j < 8 → test_bit (raise_bit b i) j ≡ (i == j || test_bit b j)
  test_bit-raise_bit j hj =
      eqb_sound _ _ (
        holds_at 7 (λ j. raise_law b i j) j (holds_at 7 _ i (holds_at 255 _ b raise_table hb) hi)
          hj)

  pub test_bit-lower_bit :
      (j : ℕ) → j < 8 → test_bit (lower_bit b i) j ≡ (not (i == j) && test_bit b j)
  test_bit-lower_bit j hj =
      eqb_sound _ _ (
        holds_at 7 (λ j. lower_law b i j) j (holds_at 7 _ i (holds_at 255 _ b lower_table hb) hi)
          hj)

  pub bit_range : (raise_bit b i < 256) × (lower_bit b i < 256)
  bit_range =
      let h : (ltb (raise_bit b i) 256 && ltb (lower_bit b i) 256) ≡ true =
        holds_at 7 _ i (holds_at 255 _ b range_table hb) hi in
      ground arith

pub test_bit_ends : (j : ℕ) → j < 8 → (test_bit 0 j ≡ false) × (test_bit 255 j ≡ true)
test_bit_ends j hj =
    let h : (not (test_bit 0 j) && test_bit 255 j) ≡ true = holds_at 7 _ j zero_table hj in
    ground arith

pub some_bit_lem : (b : ℕ) → b < 256 → b ≢ 0 → (test_bit b (some_bit b) ≡ true) × (some_bit b < 8)
some_bit_lem b hb h =
    let t : (b == 0 || (test_bit b (some_bit b) && ltb (some_bit b) 8)) ≡ true =
      holds_at 255 _ b some_bit_table hb in
    ground arith
