-- ===== src/Ext4/BlockGroup.antt =====
-- One block group (ext4_utils/allocate.c): the record that the allocator keeps of it, and the
-- functions that mark blocks as used and give them back.
pub mod Fill
pub mod Reserve
pub mod Release
use android_platform_system.Prelude.{
  ℕ, zero, suc, ◌+◌, ◌-◌, ◌%◌, Bool, true, false, not, ◌&&◌, ltb, leb, ◌==◌, if◌then◌else◌, add32,
  sub32,
}
use android_platform_system.Ext4.Exit.{Outcome, returns, error}
use android_platform_system.Ext4.Bitmap.{Bitmap, bitmap_set_bit, bitmap_set_8_bits, lower}

-- `struct block_group_info`. `bitmaps` is the one array behind the two bitmaps, and is not kept
-- apart; of the inode table only its presence is kept.
pub record BlockGroupInfo : Type 0 where
  pub first_block : ℕ
  pub header_blocks : ℕ
  pub data_blocks_used : ℕ
  pub has_superblock : Bool
  pub block_bitmap : Bitmap
  pub inode_bitmap : Bitmap
  pub has_inode_table : Bool
  pub free_blocks : ℕ
  pub first_free_block : ℕ
  pub free_inodes : ℕ
  pub first_free_inode : ℕ
  pub flags : ℕ
  pub used_dirs : ℕ

-- How a loop of `reserve_blocks` ends: at its test, with the counters, or at a bit already set.
pub data Run : Type 0 where
  done : ℕ → ℕ → Bitmap → Run
  taken : Bitmap → Run

-- `for (; i < num && go_on(block); i++, block++)` over `bitmap_set_bit`, the body of the first and
-- the third loop. `num - i` rounds are the most that it makes, so fuel `num` is enough.
pub bit_loop : (ℕ → Bool) → ℕ → ℕ → ℕ → ℕ → Bitmap → Run
bit_loop go_on zero num i block bm = done i block bm
bit_loop go_on (suc fuel) num i block bm =
    let (was, bm') = bitmap_set_bit bm block in
    let rest = bit_loop go_on fuel num (add32 i 1) (add32 block 1) bm' in
    if ltb i num && go_on block then (if was then taken bm' else rest) else done i block bm

-- `for (; i + 8 <= (num & ~7); i += 8, block += 8)` over `bitmap_set_8_bits`.
pub byte_loop : ℕ → ℕ → ℕ → ℕ → Bitmap → Run
byte_loop zero num i block bm = done i block bm
byte_loop (suc fuel) num i block bm =
    let (old, bm') = bitmap_set_8_bits bm block in
    let rest = byte_loop fuel num (add32 i 8) (add32 block 8) bm' in
    if leb (add32 i 8) (num - num % 8)
    then (if old == 0 then rest else taken bm')
    else done i block bm

abbrev pub unaligned : ℕ → Bool
unaligned block = not (block % 8 == 0)

-- The three loops in their order.
pub fill : ℕ → ℕ → Bitmap → Run
fill num start bm = elim (bit_loop unaligned num num 0 start bm) [
  | taken b ↦ taken b
  | done i block b ↦ elim (byte_loop num num i block b) [
    | taken c ↦ taken c
    | done j block' c ↦ bit_loop (λ _. true) num num j block' c
  ]
]

-- `true` is the return value 0, `false` is -1.
pub reserve_blocks : Bool → BlockGroupInfo → ℕ → ℕ → Outcome Bool × BlockGroupInfo
reserve_blocks force bg start num =
    if ltb bg.free_blocks num then (returns false, bg) else elim (fill num start bg.block_bitmap) [
      | taken bm ↦ (error force false, record bg { block_bitmap = bm })
      | done _ _ bm ↦ (
        returns true,
        record bg {
          block_bitmap = bm;
          free_blocks = sub32 bg.free_blocks num;
          first_free_block =
              if start == bg.first_free_block then add32 start num else bg.first_free_block;
        },
      )
    ]

-- `for (i = 0; i < num_blocks; i++, block--)` of `free_blocks`: recursion on the rounds left.
pub free_loop : ℕ → ℕ → Bitmap → Bitmap
free_loop zero block bm = bm
free_loop (suc n) block bm = free_loop n (sub32 block 1) (lower bm block)

pub free_blocks : BlockGroupInfo → ℕ → BlockGroupInfo
free_blocks bg num_blocks = record bg {
  block_bitmap = free_loop num_blocks (sub32 bg.first_free_block 1) bg.block_bitmap;
  free_blocks = add32 bg.free_blocks num_blocks;
  first_free_block = sub32 bg.first_free_block num_blocks;
}
