-- ===== src/Ext4/Defaults/Tests.antt =====
-- The parameters of make_ext4fs (ext4_utils/make_ext4fs.c) at concrete inputs.
use android_platform_system.Prelude.{ℕ, ◌≡◌, refl, arith}
use android_platform_system.Ext4.Defaults.{
  compute_journal_blocks, compute_inodes_per_group, compute_inodes, compute_bg_desc_reserve_blocks,
}
use android_platform_system.Ext4.Defaults.Bounds.{GroupInodes, compute_inodes_per_group_lem}

-- An image of 1 GB.
journal_of_gb : compute_journal_blocks 1073741824 4096 ≡ 4096
unfolding compute_journal_blocks
journal_of_gb = refl

inodes_of_gb : compute_inodes_per_group 1073741824 4096 32768 256 65536 ≡ (8192, 65536)
unfolding compute_inodes_per_group
inodes_of_gb = refl

reserve_of_gb : compute_bg_desc_reserve_blocks 1073741824 4096 32768 ≡ 63
unfolding compute_bg_desc_reserve_blocks
reserve_of_gb = refl

compute_inodes_per_group_lem_example :
    (per_group : ℕ) × (total : ℕ) × (compute_inodes_per_group 1073741824 4096 32768 256
        (compute_inodes 1073741824 4096)
      ≡ (per_group, total))
    × GroupInodes 1073741824 per_group total
compute_inodes_per_group_lem_example =
    compute_inodes_per_group_lem 1073741824 (omega arith) (omega arith)
