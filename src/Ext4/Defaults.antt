-- ===== src/Ext4/Defaults.antt =====
-- The parameters that make_ext4fs chooses where none are given (ext4_utils/make_ext4fs.c). `size_t` has
-- 64 bits.
pub mod Bounds
mod Tests
use android_platform_system.Prelude.{
  ℕ, ◌+◌, ◌-◌, ◌*◌, ◌/◌, ◌%◌, ◌^◌, ltb, if◌then◌else◌, sub32, mul32, add64, sub64, mul64,
  div_round_up32,
}
use android_platform_system.Ext4.Geometry.{group_desc_size}

-- `DIV_ROUND_UP(len, info.block_size)` in 64 bits.
abbrev pub len_in_blocks : ℕ → ℕ → ℕ
len_in_blocks len block_size = sub64 (add64 len block_size) 1 / block_size

abbrev pub compute_block_size : ℕ
compute_block_size = 4096

unfoldable pub compute_journal_blocks : ℕ → ℕ → ℕ
compute_journal_blocks len block_size =
    let journal_blocks = len_in_blocks len block_size / 64 % 2 ^ 32 in
    let at_least = if ltb journal_blocks 1024 then 1024 else journal_blocks in
    if ltb 32768 at_least then 32768 else at_least

abbrev pub compute_blocks_per_group : ℕ → ℕ
compute_blocks_per_group block_size = mul32 block_size 8

unfoldable pub compute_inodes : ℕ → ℕ → ℕ
compute_inodes len block_size = len_in_blocks len block_size / 4 % 2 ^ 32

abbrev pub block_groups : ℕ → ℕ → ℕ → ℕ
block_groups len block_size blocks_per_group =
    div_round_up32 (len_in_blocks len block_size % 2 ^ 32) blocks_per_group

-- The inodes of a group, and the new `info.inodes`.
unfoldable pub compute_inodes_per_group : ℕ → ℕ → ℕ → ℕ → ℕ → ℕ × ℕ
compute_inodes_per_group len block_size blocks_per_group inode_size info_inodes =
    let groups = block_groups len block_size blocks_per_group in
    let per_block = block_size / inode_size in
    let inodes = mul32 per_block (div_round_up32 (div_round_up32 info_inodes groups) per_block) in
    (inodes, mul32 inodes groups)

unfoldable pub compute_bg_desc_reserve_blocks : ℕ → ℕ → ℕ → ℕ
compute_bg_desc_reserve_blocks len block_size blocks_per_group =
    let groups = block_groups len block_size blocks_per_group in
    let bg_desc_blocks = len_in_blocks (mul64 groups group_desc_size) block_size % 2 ^ 32 in
    let reserve =
      sub64 (len_in_blocks (mul64 (mul32 groups 1024) group_desc_size) block_size) bg_desc_blocks
      % 2 ^ 32 in
    if ltb (block_size / 4) reserve then block_size / 4 else reserve
