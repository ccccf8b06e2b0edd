-- ===== src/Ext4/Crc16/Bitwise.antt =====
-- The table of ext4_utils/crc16.c against the polynomial division, bit by bit.
use Prim.Native.Nat.{bit_xor}
use native.Mathlib.Nat.{pow-suc}
use android_platform_system.Prelude.{
  ℕ, zero, suc, ◌*◌, ◌/◌, ◌%◌, ◌^◌, ◌<◌, ◌≡◌, refl, ap, inl, inr, Bool, true, ◌==◌, if◌then◌else◌,
  List, [], ◌∷◌, get_or, arith, Bool-cases, ◌∙◌,
}
use android_platform_system.Prelude.Bits.{
  bit_xor_digit, bit_xor-half, bit_xor_nibble, bit_xor-right_comm, bit_xor-zero, bit_xor-places,
  bit_and_byte,
}
use android_platform_system.Prelude.Bytes.{holds_to, holds_at}
use android_platform_system.Ext4.Crc16.{crc16_tab, crc_byte, ext4_crc16}

-- The polynomial x^16 + x^15 + x^2 + 1, the lowest power in the highest bit.
abbrev pub polynomial : ℕ
polynomial = 0xA001

unfoldable pub divide_bit : ℕ → ℕ
divide_bit x = if x % 2 == 0 then x / 2 else bit_xor (x / 2) polynomial

abbrev pub divide_bits : ℕ → ℕ → ℕ
divide_bits zero x = x
divide_bits (suc n) x = divide_bits n (divide_bit x)

-- The checksum bit by bit.
unfoldable pub crc_bitwise : ℕ → List ℕ → ℕ
unfolding divide_bit
crc_bitwise crc [] = crc
crc_bitwise crc (byte ∷ buf) = crc_bitwise (divide_bits 8 (bit_xor crc byte)) buf

-- A part of even places goes through unchanged.
divide_bit-xor : (u v : ℕ) → divide_bit (bit_xor u (v * 2)) ≡ bit_xor (divide_bit u) v
unfolding divide_bit
divide_bit-xor u v =
    let h : bit_xor u (v * 2) / 2 ≡ bit_xor (u / 2) v =
      bit_xor-half u (v * 2) ∙ ap (λ t. bit_xor (u / 2) t) (omega arith) in
    let p : bit_xor u (v * 2) % 2 ≡ u % 2 = omega (arith, bit_xor_digit u (v * 2)) in
    elim (Bool-cases (u % 2 == 0)) [
      | inl e ↦ rw (p, e, h) refl
      | inr e ↦ rw (p, e, h) (bit_xor-right_comm (u / 2) v polynomial)
    ]

divide_bits-xor : (n u v : ℕ) → divide_bits n (bit_xor u (v * 2 ^ n)) ≡ bit_xor (divide_bits n u) v
divide_bits-xor zero u v = ap (λ t. bit_xor u t) (omega arith)
divide_bits-xor (suc n) u v =
    let e : v * 2 ^ suc n ≡ v * 2 ^ n * 2 = omega (arith, ap (λ (t : ℕ). v * t) (pow-suc 2 n)) in
    ap (λ t. divide_bits n (divide_bit (bit_xor u t))) e
    ∙ ap (λ t. divide_bits n t) (divide_bit-xor u (v * 2 ^ n))
    ∙ divide_bits-xor n (divide_bit u) v

-- The table is checked at each byte.
abbrev agrees : ℕ → Bool
agrees x = divide_bits 8 x == get_or crc16_tab x 0

table_agrees : holds_to 255 agrees ≡ true
unfolding holds_to crc16_tab divide_bit
table_agrees = refl

same : (a b : ℕ) → (a == b) ≡ true → a ≡ b
same a b h = ground arith

table_lem : (x : ℕ) → x < 256 → divide_bits 8 x ≡ get_or crc16_tab x 0
table_lem x h = same (divide_bits 8 x) (get_or crc16_tab x 0) (holds_at 255 agrees x table_agrees h)

high_byte : (crc byte : ℕ) → byte < 256 → bit_xor crc byte / 256 ≡ crc / 2 ^ 8
high_byte crc byte h =
    let e = bit_xor_nibble crc byte in
    let f = bit_xor_nibble (crc / 16) (byte / 16) in
    let z : byte / 16 / 16 ≡ 0 = omega arith in
    let g : bit_xor (crc / 16 / 16) (byte / 16 / 16) ≡ crc / 16 / 16 =
      rw z (bit_xor-zero (crc / 16 / 16)) in
    omega (arith, e, f, g)

crc_byte_lem : (crc byte : ℕ) → byte < 256 → divide_bits 8 (bit_xor crc byte) ≡ crc_byte crc byte
unfolding crc_byte
crc_byte_lem crc byte h =
    let x = bit_xor crc byte in
    let low : x % 256 < 256 = omega arith in
    let split : x ≡ bit_xor (x % 256) (x / 256 * 2 ^ 8) =
      omega (arith, bit_xor-places 8 (x % 256) (x / 256) low) in
    let high : x / 256 ≡ crc / 2 ^ 8 = high_byte crc byte h in
    ap (λ t. divide_bits 8 t) split
    ∙ divide_bits-xor 8 (x % 256) (x / 256)
    ∙ rw (table_lem (x % 256) low, bit_and_byte x, high) refl

abbrev pub AllBytes : List ℕ → Type 0
AllBytes [] = Unit
AllBytes (b ∷ bs) = (b < 256) × AllBytes bs

-- For bytes, `ext4_crc16` is the division of the bits by the polynomial, whatever it starts from.
pub ext4_crc16-bitwise :
    (crc : ℕ) (buf : List ℕ) → AllBytes buf → ext4_crc16 crc buf ≡ crc_bitwise crc buf
unfolding ext4_crc16 crc_bitwise
ext4_crc16-bitwise crc [] h = refl
ext4_crc16-bitwise crc (byte ∷ buf) (b, h) =
    rw (crc_byte_lem crc byte b) (ext4_crc16-bitwise (crc_byte crc byte) buf h)
