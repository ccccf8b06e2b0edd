-- ===== src/Ext4/Bitmap.antt =====
-- The bitmaps of a block group (ext4_utils/allocate.c): arrays of bytes in which one bit stands for
-- one block or inode, and the functions that set and clear bits.
pub mod Laws
use android_platform_system.Prelude.{
  ℕ, ◌+◌, ◌*◌, ◌/◌, ◌%◌, ◌<◌, ◌≡◌, Bool, true, false, not, List, get_or, set, length, ◌==◌,
  if◌then◌else◌,
}
use android_platform_system.Prelude.Bytes.{test_bit, raise_bit, lower_bit}

abbrev pub Bitmap : Type 0
Bitmap = List ℕ

-- `bitmap[i]`
abbrev pub byte_at : Bitmap → ℕ → ℕ
byte_at bm i = get_or bm i 0

-- `bitmap[bit / 8] & 1 << (bit % 8)`
unfoldable pub is_set : Bitmap → ℕ → Bool
unfolding test_bit
is_set bm bit = test_bit (byte_at bm (bit / 8)) (bit % 8)

-- `bitmap[bit / 8] |= 1 << (bit % 8)`
pub raise : Bitmap → ℕ → Bitmap
raise bm bit = set bm (bit / 8) (raise_bit (byte_at bm (bit / 8)) (bit % 8))

-- `bitmap[bit / 8] &= ~(1 << (bit % 8))`
pub lower : Bitmap → ℕ → Bitmap
lower bm bit = set bm (bit / 8) (lower_bit (byte_at bm (bit / 8)) (bit % 8))

-- The flag is the `int` that is returned: whether the bit was set before.
unfoldable pub bitmap_set_bit : Bitmap → ℕ → Bool × Bitmap
bitmap_set_bit bm bit = if is_set bm bit then (true, bm) else (false, raise bm bit)

-- The number is the byte as it was before.
unfoldable pub bitmap_set_8_bits : Bitmap → ℕ → ℕ × Bitmap
bitmap_set_8_bits bm bit = (byte_at bm (bit / 8), set bm (bit / 8) 255)

-- Every cell holds a byte.
abbrev pub Bytes : Bitmap → Type 0
Bytes bm = (i : ℕ) → byte_at bm i < 256
