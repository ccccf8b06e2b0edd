-- ===== src/Ext4/BlockGroup/Reserve.antt =====
-- `reserve_blocks` (ext4_utils/allocate.c) on every branch, and the invariant of a block group.
use android_platform_system.Prelude.{
  ℕ, ◌+◌, ◌-◌, ◌*◌, ◌^◌, ◌≤◌, ◌<◌, ◌≡◌, inl, inr, refl, Bool, true, false, not, ◌&&◌, length, ◌==◌,
  Bool-cases, arith, ltb, leb, add32, sub32, if◌then◌else◌,
}
use android_platform_system.Ext4.Exit.{Outcome, returns, error}
use android_platform_system.Ext4.Bitmap.{Bitmap, is_set, Bytes}
use android_platform_system.Ext4.BlockGroup.{Run, done, taken, BlockGroupInfo, fill, reserve_blocks}
use android_platform_system.Ext4.BlockGroup.Fill.{Filled, Fill, fill_lem}

-- What a successful call makes of the group, up to its bitmap.
abbrev pub reserved : BlockGroupInfo → ℕ → ℕ → Bitmap → BlockGroupInfo
reserved bg start num bm = record bg {
  block_bitmap = bm;
  free_blocks = bg.free_blocks - num;
  first_free_block = if start == bg.first_free_block then start + num else bg.first_free_block;
}

-- The three ends of a call: too few free blocks, done, or a block of the range is in use.
pub data Reserves (force : Bool) (bg : BlockGroupInfo) (start num : ℕ)
    : Outcome Bool × BlockGroupInfo → Type 0 where
  short : bg.free_blocks < num → Reserves force bg start num (returns false, bg)
  full :
      num ≤ bg.free_blocks
      → (bm : Bitmap) → Filled bg.block_bitmap start num bm
      → Reserves force bg start num (returns true, reserved bg start num bm)
  clash :
      num ≤ bg.free_blocks
      → (bm : Bitmap) → (k : ℕ) → start ≤ k
      → k < start + num
      → is_set bg.block_bitmap k ≡ true
      → Reserves force bg start num (error force false, record bg { block_bitmap = bm })

module _ (force : Bool) (bg : BlockGroupInfo) (start num : ℕ) where
  -- For a range inside a bitmap of at most 2^28 bytes, and free blocks that fit in a `u32`,
  -- `reserve_blocks` leaves the group alone if it has too few free blocks; otherwise it either sets
  -- exactly the bits of the range, all clear before, and accounts for them, or stops with the error
  -- at a range that holds a set bit, its counters unchanged.
  pub reserve_blocks_lem :
      Bytes bg.block_bitmap
      → 8 * length bg.block_bitmap ≤ 2 ^ 31
      → bg.free_blocks < 2 ^ 32
      → start + num ≤ 8 * length bg.block_bitmap
      → Reserves force bg start num (reserve_blocks force bg start num)
  unfolding reserve_blocks
  reserve_blocks_lem b s f h = elim (Bool-cases (ltb bg.free_blocks num)) [
    | inl y ↦ rw y (short (ground arith))
    | inr n ↦ rw n (
        by_run (fill num start bg.block_bitmap) (fill_lem num start bg.block_bitmap b s h)
          (ground arith))
  ]
    where
      by_run :
          (r : Run)
          → Fill num start bg.block_bitmap r
          → num ≤ bg.free_blocks
          → Reserves force bg start num (elim r [
            | taken bm ↦ (error force false, record bg { block_bitmap = bm })
            | done _ _ bm ↦ (
              returns true,
              record bg {
                block_bitmap = bm;
                free_blocks = sub32 bg.free_blocks num;
                first_free_block =
                    if start == bg.first_free_block then add32 start num else bg.first_free_block;
              },
            )
          ])
      by_run (taken bm) (k, l, u, e) m = clash m bm k l u e
      by_run (done i block bm) e m =
          let d : sub32 bg.free_blocks num ≡ bg.free_blocks - num = omega arith in
          let a : add32 start num ≡ start + num = omega arith in rw (d, a) (full m bm e)

-- The blocks of a group are handed out in order: those from `first_free_block` up to `limit` are
-- free, and all others below `blocks_per_group` are in use.
pub record IsGroup (blocks_per_group limit : ℕ) (bg : BlockGroupInfo) : Type 0 where
  pub bytes : Bytes bg.block_bitmap
  pub room : blocks_per_group ≤ 8 * length bg.block_bitmap
  pub small : 8 * length bg.block_bitmap ≤ 2 ^ 31
  pub limit_in : limit ≤ blocks_per_group
  -- Block numbers stay below EXT4_ALLOCATE_FAILED.
  pub numbered : bg.first_block + blocks_per_group < 2 ^ 32 - 1
  pub free : bg.first_free_block + bg.free_blocks ≡ limit
  pub used :
      (k : ℕ)
      → k < blocks_per_group
      → is_set bg.block_bitmap k ≡ not (leb bg.first_free_block k && ltb k limit)

-- A group keeps the invariant when its next free blocks are reserved.
pub reserved-IsGroup :
    (blocks_per_group limit : ℕ) (bg : BlockGroupInfo) (num : ℕ) (bm : Bitmap)
    → IsGroup blocks_per_group limit bg
    → num ≤ bg.free_blocks
    → Filled bg.block_bitmap bg.first_free_block num bm
    → IsGroup blocks_per_group limit (reserved bg bg.first_free_block num bm)
reserved-IsGroup blocks_per_group limit bg num bm g h f = record {
  bytes = f.bytes;
  room = omega (arith, g.room, f.size);
  small = omega (arith, g.small, f.size);
  limit_in = g.limit_in;
  numbered = g.numbered;
  free = ground (arith, g.free);
  used = λ k u. ground (arith, g.used k u, f.marks k, g.free);
}

-- A group with too few free blocks is left alone.
pub reserve_short :
    (force : Bool) (bg : BlockGroupInfo) (start num : ℕ)
    → bg.free_blocks < num
    → reserve_blocks force bg start num ≡ (returns false, bg)
unfolding reserve_blocks
reserve_short force bg start num h = let e : ltb bg.free_blocks num ≡ true = ground arith in rw e

module _ (force : Bool) (bg : BlockGroupInfo) (start num : ℕ) (h : num ≤ bg.free_blocks)
    (c : (k : ℕ) → start ≤ k → k < start + num → is_set bg.block_bitmap k ≡ false) where
  clear_no_clash :
      (r : Outcome Bool × BlockGroupInfo)
      → Reserves force bg start num r
      → (bm : Bitmap) × (r ≡ (returns true, reserved bg start num bm))
        × Filled bg.block_bitmap start num bm
  clear_no_clash r (short s) = absurd (omega arith)
  clear_no_clash r (full m bm f) = (bm, refl, f)
  clear_no_clash r (clash m bm k l u s) = absurd (ground (arith, c k l u))

  -- A range of clear bits is reserved without an error.
  pub reserve_clear :
      Bytes bg.block_bitmap
      → 8 * length bg.block_bitmap ≤ 2 ^ 31
      → bg.free_blocks < 2 ^ 32
      → start + num ≤ 8 * length bg.block_bitmap
      → (bm : Bitmap) × (reserve_blocks force bg start num
          ≡ (returns true, reserved bg start num bm))
        × Filled bg.block_bitmap start num bm
  reserve_clear b s f r = clear_no_clash _ (reserve_blocks_lem force bg start num b s f r)

-- In a group the next `num` free blocks are always reserved without an error.
pub reserve_next :
    (blocks_per_group limit : ℕ) (force : Bool) (bg : BlockGroupInfo) (num : ℕ)
    → IsGroup blocks_per_group limit bg
    → num ≤ bg.free_blocks
    → (bm : Bitmap) × (reserve_blocks force bg bg.first_free_block num
        ≡ (returns true, reserved bg bg.first_free_block num bm))
      × Filled bg.block_bitmap bg.first_free_block num bm
reserve_next blocks_per_group limit force bg num g h =
    reserve_clear force bg bg.first_free_block num h
      (λ k l u. ground (arith, g.used k (omega (arith, g.free, g.limit_in)), g.free)) g.bytes
      g.small (omega (arith, g.free, g.limit_in, g.room, g.small))
      (omega (arith, g.free, g.limit_in, g.room))
