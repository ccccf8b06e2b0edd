-- ===== src/Ext4/Bitmap/Laws.antt =====
-- What the bit operations of ext4_utils/allocate.c do to every bit of a bitmap.
use android_platform_system.Prelude.{
  ℕ, ◌+◌, ◌*◌, ◌/◌, ◌%◌, ◌<◌, ◌≡◌, ◌≢◌, ◌⊎◌, inl, inr, true, false, not, ◌&&◌, ◌||◌, set, length,
  length-set, get_or-set_self, get_or-set_ne, ◌==◌, ==_iff, Bool-cases, arith,
}
use android_platform_system.Prelude.Bytes.{
  test_bit, raise_bit, lower_bit, test_bit-raise_bit, test_bit-lower_bit, bit_range, test_bit_ends,
  some_bit, some_bit_lem,
}
use android_platform_system.Ext4.Bitmap.{Bitmap, byte_at, is_set, raise, lower, Bytes}

byte_at-set :
    (bm : Bitmap) (i j v : ℕ)
    → i < length bm
    → ((i ≡ j) × (byte_at (set bm i v) j ≡ v)) ⊎ ((i ≢ j) × (byte_at (set bm i v) j ≡ byte_at bm j))
byte_at-set bm i j v h = elim (Bool-cases (i == j)) [
  | inl e ↦
      let e' : i ≡ j = (==_iff i j).0 e in inl (e', ground (arith, get_or-set_self bm i v 0 h))
  | inr n ↦ let n' : i ≢ j = ground arith in inr (n', get_or-set_ne bm i j v 0 n')
]

pub Bytes-set : (bm : Bitmap) (i v : ℕ) → i < length bm → v < 256 → Bytes bm → Bytes (set bm i v)
Bytes-set bm i v hi hv b j = ground (arith, byte_at-set bm i j v hi, b j)

module _ (bm : Bitmap) (b : Bytes bm) (bit : ℕ) (h : bit < 8 * length bm) where
  pub is_set-raise : (k : ℕ) → is_set (raise bm bit) k ≡ (bit == k || is_set bm k)
  unfolding is_set raise
  is_set-raise k =
      let v : ℕ = raise_bit (byte_at bm (bit / 8)) (bit % 8) in
      ground (
        arith,
        byte_at-set bm (bit / 8) (k / 8) v (omega arith),
        test_bit-raise_bit (byte_at bm (bit / 8)) (bit % 8) (b (bit / 8)) (omega arith) (k % 8)
            (omega arith),
      )

  pub is_set-lower : (k : ℕ) → is_set (lower bm bit) k ≡ (not (bit == k) && is_set bm k)
  unfolding is_set lower
  is_set-lower k =
      let v : ℕ = lower_bit (byte_at bm (bit / 8)) (bit % 8) in
      ground (
        arith,
        byte_at-set bm (bit / 8) (k / 8) v (omega arith),
        test_bit-lower_bit (byte_at bm (bit / 8)) (bit % 8) (b (bit / 8)) (omega arith) (k % 8)
            (omega arith),
      )

  pub is_set-fill : (k : ℕ) → is_set (set bm (bit / 8) 255) k ≡ (k / 8 == bit / 8 || is_set bm k)
  unfolding is_set
  is_set-fill k = ground (
    arith,
    byte_at-set bm (bit / 8) (k / 8) 255 (omega arith),
    test_bit_ends (k % 8) (omega arith),
  )

  pub Bytes-raise : Bytes (raise bm bit)
  unfolding raise
  Bytes-raise =
      Bytes-set bm (bit / 8) _ (omega arith)
        (bit_range (byte_at bm (bit / 8)) (bit % 8) (b (bit / 8)) (omega arith)).0 b

  pub Bytes-lower : Bytes (lower bm bit)
  unfolding lower
  Bytes-lower =
      Bytes-set bm (bit / 8) _ (omega arith)
        (bit_range (byte_at bm (bit / 8)) (bit % 8) (b (bit / 8)) (omega arith)).1 b

pub length-raise : (bm : Bitmap) (bit : ℕ) → length (raise bm bit) ≡ length bm
unfolding raise
length-raise bm bit = length-set bm (bit / 8) _

pub length-lower : (bm : Bitmap) (bit : ℕ) → length (lower bm bit) ≡ length bm
unfolding lower
length-lower bm bit = length-set bm (bit / 8) _

-- A byte that is 0 has no bit set.
pub is_set_of_zero : (bm : Bitmap) (k : ℕ) → byte_at bm (k / 8) ≡ 0 → is_set bm k ≡ false
unfolding is_set
is_set_of_zero bm k h = ground (arith, test_bit_ends (k % 8) (omega arith))

-- A byte that is not 0 has a bit set.
pub is_set_of_ne_zero :
    (bm : Bitmap) (i : ℕ)
    → Bytes bm
    → byte_at bm i ≢ 0
    → (k : ℕ) × (k / 8 ≡ i) × (is_set bm k ≡ true)
unfolding is_set
is_set_of_ne_zero bm i b h =
    let s : ℕ = some_bit (byte_at bm i) in
    let f : (test_bit (byte_at bm i) s ≡ true) × (s < 8) = some_bit_lem (byte_at bm i) (b i) h in
    let d : (8 * i + s) / 8 ≡ i = omega arith in
    let m : (8 * i + s) % 8 ≡ s = omega arith in (8 * i + s, d, ground arith)
