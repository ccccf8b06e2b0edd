-- ===== src/Prelude/Bits.antt =====
-- Laws of `bit_xor`, from its lowest digit, and `bit_and` with the mask of a byte.
use Prim.Native.Nat.{
  ℕ, zero, suc, ◌+◌, ◌*◌, ◌/◌, ◌%◌, ◌^◌, ◌≤◌, ◌<◌, bit_and, bit_xor, digits, bitwise, differ, min,
  bit_xor-bitwise, bit_and-bitwise,
}
use mathlib.Core.Path.{◌≡◌, refl, sym, ap, ◌∙◌}
use native.Mathlib.Nat.{pow-suc}
use native.Mathlib.Omega.{arith}

module _ (left : ℕ → ℕ) (digit : ℕ → ℕ → ℕ) where
  -- The count of digits does not matter while it is enough.
  enough_digits : (m n a b : ℕ) → a ≤ m → a ≤ n → digits left digit m a b ≡ digits left digit n a b
  enough_digits m n zero b h k = none_left m ∙ sym (none_left n)
    where
      none_left : (m : ℕ) → digits left digit m 0 b ≡ left b
      none_left zero = refl
      none_left (suc m) = refl
  enough_digits zero n (suc a) b h k = absurd (omega arith)
  enough_digits (suc m) zero (suc a) b h k = absurd (omega arith)
  enough_digits (suc m) (suc n) (suc a) b h k =
      ap (λ t. t * 2 + digit (suc a % 2) (b % 2))
        (enough_digits m n (suc a / 2) (b / 2) (omega arith) (omega arith))

  lowest_digit :
      (a b : ℕ)
      → bitwise left digit (suc a) b
        ≡ bitwise left digit (suc a / 2) (b / 2) * 2 + digit (suc a % 2) (b % 2)
  lowest_digit a b =
      ap (λ t. t * 2 + digit (suc a % 2) (b % 2))
        (enough_digits a (suc a / 2) (suc a / 2) (b / 2) (omega arith) (omega arith))

differ_sum : (x y : ℕ) → x < 2 → y < 2 → differ x y ≡ (x + y) % 2
differ_sum zero y p q = omega arith
differ_sum (suc zero) zero p q = refl
differ_sum (suc zero) (suc zero) p q = refl
differ_sum (suc zero) (suc (suc y)) p q = absurd (omega arith)
differ_sum (suc (suc x)) y p q = absurd (omega arith)

pub bit_xor_digit : (a b : ℕ) → bit_xor a b ≡ bit_xor (a / 2) (b / 2) * 2 + (a + b) % 2
bit_xor_digit zero b = simp bit_xor-bitwise (omega arith)
bit_xor_digit (suc a) b = simp bit_xor-bitwise (
    lowest_digit (λ y. y) differ a b
    ∙ omega (arith, differ_sum (suc a % 2) (b % 2) (omega arith) (omega arith)))

pub bit_and_digit : (a b : ℕ) → bit_and a b ≡ bit_and (a / 2) (b / 2) * 2 + min (a % 2) (b % 2)
bit_and_digit zero b = simp bit_and-bitwise (omega arith)
bit_and_digit (suc a) b = simp bit_and-bitwise (lowest_digit (λ y. 0) min a b)

xor_right_comm_fuel :
    (n a b c : ℕ) → a + b + c ≤ n → bit_xor (bit_xor a b) c ≡ bit_xor (bit_xor a c) b
xor_right_comm_fuel zero zero zero zero h = refl
xor_right_comm_fuel zero (suc a) b c h = absurd (omega arith)
xor_right_comm_fuel zero zero (suc b) c h = absurd (omega arith)
xor_right_comm_fuel zero zero zero (suc c) h = absurd (omega arith)
xor_right_comm_fuel (suc n) a b c h =
    let ab = bit_xor_digit a b in
    let ac = bit_xor_digit a c in
    let l : bit_xor a b / 2 ≡ bit_xor (a / 2) (b / 2) = omega (arith, ab) in
    let r : bit_xor a c / 2 ≡ bit_xor (a / 2) (c / 2) = omega (arith, ac) in
    let k : bit_xor (bit_xor a b / 2) (c / 2) ≡ bit_xor (bit_xor a c / 2) (b / 2) =
      rw (l, r) (xor_right_comm_fuel n (a / 2) (b / 2) (c / 2) (omega arith)) in
    omega (arith, ab, ac, k, bit_xor_digit (bit_xor a b) c, bit_xor_digit (bit_xor a c) b)

pub bit_xor-right_comm : (a b c : ℕ) → bit_xor (bit_xor a b) c ≡ bit_xor (bit_xor a c) b
bit_xor-right_comm a b c = xor_right_comm_fuel (a + b + c) a b c (omega arith)

xor_zero_fuel : (n a : ℕ) → a ≤ n → bit_xor a 0 ≡ a
xor_zero_fuel n zero h = refl
xor_zero_fuel zero (suc a) h = absurd (omega arith)
xor_zero_fuel (suc n) (suc a) h =
    omega (arith, bit_xor_digit (suc a) 0, xor_zero_fuel n (suc a / 2) (omega arith))

pub bit_xor-zero : (a : ℕ) → bit_xor a 0 ≡ a
bit_xor-zero a = xor_zero_fuel a a (omega arith)

pub bit_xor-half : (a b : ℕ) → bit_xor a b / 2 ≡ bit_xor (a / 2) (b / 2)
bit_xor-half a b = omega (arith, bit_xor_digit a b)

pub bit_xor_nibble : (a b : ℕ) → bit_xor a b / 16 ≡ bit_xor (a / 16) (b / 16)
bit_xor_nibble a b =
    let e1 = bit_xor-half a b in
    let e2 = bit_xor-half (a / 2) (b / 2) in
    let e3 = bit_xor-half (a / 2 / 2) (b / 2 / 2) in
    let e4 = bit_xor-half (a / 2 / 2 / 2) (b / 2 / 2 / 2) in
    let x : a / 2 / 2 / 2 / 2 ≡ a / 16 = omega arith in
    let y : b / 2 / 2 / 2 / 2 ≡ b / 16 = omega arith in
    let e : bit_xor (a / 2 / 2 / 2 / 2) (b / 2 / 2 / 2 / 2) ≡ bit_xor (a / 16) (b / 16) =
      rw (x, y) refl in
    omega (arith, e1, e2, e3, e4, e)

-- Numbers of different places.
pub bit_xor-places : (k r q : ℕ) → r < 2 ^ k → bit_xor r (q * 2 ^ k) ≡ q * 2 ^ k + r
bit_xor-places zero r q h =
    let z : r ≡ 0 = omega arith in
    let e : bit_xor 0 (q * 2 ^ 0) ≡ q * 2 ^ 0 = bit_xor-bitwise 0 (q * 2 ^ 0) in
    rw z (e ∙ omega arith)
bit_xor-places (suc k) r q h =
    let p : q * 2 ^ suc k ≡ 2 * (q * 2 ^ k) = omega (arith, ap (λ (t : ℕ). q * t) (pow-suc 2 k)) in
    let d : q * 2 ^ suc k / 2 ≡ q * 2 ^ k = omega (arith, p) in
    let i : bit_xor (r / 2) (q * 2 ^ suc k / 2) ≡ q * 2 ^ k + r / 2 =
      rw d (bit_xor-places k (r / 2) q (omega (arith, pow-suc 2 k))) in
    omega (arith, bit_xor_digit r (q * 2 ^ suc k), i, p)

and_zero_fuel : (n a : ℕ) → a ≤ n → bit_and a 0 ≡ 0
and_zero_fuel n zero h = refl
and_zero_fuel zero (suc a) h = absurd (omega arith)
and_zero_fuel (suc n) (suc a) h =
    omega (arith, bit_and_digit (suc a) 0, and_zero_fuel n (suc a / 2) (omega arith))

bit_and-zero : (a : ℕ) → bit_and a 0 ≡ 0
bit_and-zero a = and_zero_fuel a a (omega arith)

bit_and_odd : (m a : ℕ) → bit_and a (2 * m + 1) ≡ bit_and (a / 2) m * 2 + a % 2
bit_and_odd m a =
    let h : (2 * m + 1) / 2 ≡ m = omega arith in
    let e : bit_and a (2 * m + 1) ≡ bit_and (a / 2) m * 2 + min (a % 2) ((2 * m + 1) % 2) =
      bit_and_digit a (2 * m + 1) ∙ rw h refl in
    omega (arith, e)

bit_and_nibble : (m a : ℕ) → bit_and a (16 * m + 15) ≡ bit_and (a / 16) m * 16 + a % 16
bit_and_nibble m a =
    let o : (k b : ℕ) → bit_and b (2 * k + 1) ≡ bit_and (b / 2) k * 2 + b % 2 = bit_and_odd in
    let e3 : bit_and a (16 * m + 15) ≡ bit_and (a / 2) (8 * m + 7) * 2 + a % 2 =
      ap (λ k. bit_and a k) (omega arith) ∙ o (8 * m + 7) a in
    let e2 : bit_and (a / 2) (8 * m + 7) ≡ bit_and (a / 4) (4 * m + 3) * 2 + a / 2 % 2 =
      ap (λ k. bit_and (a / 2) k) (omega arith) ∙ o (4 * m + 3) (a / 2) ∙ rw (quarter a) refl in
    let e1 : bit_and (a / 4) (4 * m + 3) ≡ bit_and (a / 8) (2 * m + 1) * 2 + a / 4 % 2 =
      ap (λ k. bit_and (a / 4) k) (omega arith) ∙ o (2 * m + 1) (a / 4) ∙ rw (eighth a) refl in
    let e0 : bit_and (a / 8) (2 * m + 1) ≡ bit_and (a / 16) m * 2 + a / 8 % 2 =
      o m (a / 8) ∙ rw (sixteenth a) refl in
    omega (arith, e3, e2, e1, e0)
  where
    quarter : (b : ℕ) → b / 2 / 2 ≡ b / 4
    quarter b = omega arith

    eighth : (b : ℕ) → b / 4 / 2 ≡ b / 8
    eighth b = omega arith

    sixteenth : (b : ℕ) → b / 8 / 2 ≡ b / 16
    sixteenth b = omega arith

pub bit_and_byte : (a : ℕ) → bit_and a 0xFF ≡ a % 256
bit_and_byte a =
    let z = bit_and-zero (a / 16 / 16) in
    let e = bit_and_nibble 0 (a / 16) in let f = bit_and_nibble 15 a in omega (arith, z, e, f)
