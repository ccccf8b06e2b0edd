-- ===== src/Ext4/Super/Totals.antt =====
-- The counts that `ext4_update_free` (ext4_utils/ext4_utils.c) writes.
use android_platform_system.Prelude.{
  ℕ, suc, ◌+◌, ◌%◌, ◌^◌, ◌<◌, ◌≡◌, refl, arith, add32, List, [], ◌∷◌, length,
}
use android_platform_system.Ext4.BlockGroup.{BlockGroupInfo}
use android_platform_system.Ext4.Super.{
  SuperBlock, GroupDesc, desc_checksum, update_desc, update_free_from, ext4_update_free,
}

abbrev pub total : (BlockGroupInfo → ℕ) → List BlockGroupInfo → ℕ
total count [] = 0
total count (bg ∷ bgs) = count bg + total count bgs

-- The descriptor `d` has become `e`: the counts of its group, and the checksum of all that.
pub record Counts (uuid : List ℕ) (i : ℕ) (bg : BlockGroupInfo) (d e : GroupDesc) : Type 0 where
  pub free_blocks : e.bg_free_blocks_count ≡ bg.free_blocks
  pub free_inodes : e.bg_free_inodes_count ≡ bg.free_inodes
  pub directories : e.bg_used_dirs_count ≡ (d.bg_used_dirs_count + bg.used_dirs) % 2 ^ 16
  pub block_bitmap : e.bg_block_bitmap ≡ d.bg_block_bitmap
  pub inode_bitmap : e.bg_inode_bitmap ≡ d.bg_inode_bitmap
  pub inode_table : e.bg_inode_table ≡ d.bg_inode_table
  pub checksum : e.bg_checksum ≡ desc_checksum uuid i e

abbrev pub AllCount : List ℕ → ℕ → List BlockGroupInfo → List GroupDesc → List GroupDesc → Type 0
AllCount uuid i [] ds es = es ≡ ds
AllCount uuid i (bg ∷ bgs) [] es = ⊥
AllCount uuid i (bg ∷ bgs) (d ∷ ds) [] = ⊥
AllCount uuid i (bg ∷ bgs) (d ∷ ds) (e ∷ es) =
    Counts uuid i bg d e × AllCount uuid (suc i) bgs ds es

-- A group has fewer than 2^16 free blocks and inodes.
abbrev pub Small : List BlockGroupInfo → Type 0
Small [] = Unit
Small (bg ∷ bgs) = (bg.free_blocks < 2 ^ 16) × (bg.free_inodes < 2 ^ 16) × Small bgs

update_desc-Counts :
    (uuid : List ℕ) (i : ℕ) (bg : BlockGroupInfo) (d : GroupDesc)
    → bg.free_blocks < 2 ^ 16
    → bg.free_inodes < 2 ^ 16
    → Counts uuid i bg d (update_desc uuid i bg d)
unfolding update_desc desc_checksum
update_desc-Counts uuid i bg d p q = record {
  free_blocks = omega arith;
  free_inodes = omega arith;
  directories = refl;
  block_bitmap = refl;
  inode_bitmap = refl;
  inode_table = refl;
  checksum = refl;
}

record Updates (i : ℕ) (bgs : List BlockGroupInfo) (ds : List GroupDesc) (sb : SuperBlock)
    (r : SuperBlock × List GroupDesc) : Type 0 where
  blocks :
      (r.0).s_free_blocks_count_lo ≡ sb.s_free_blocks_count_lo + total (λ bg. bg.free_blocks) bgs
  inodes : (r.0).s_free_inodes_count ≡ sb.s_free_inodes_count + total (λ bg. bg.free_inodes) bgs
  each : AllCount sb.s_uuid i bgs ds (r.1)

update_free_from-Updates :
    (i : ℕ) (bgs : List BlockGroupInfo) (ds : List GroupDesc) (sb : SuperBlock)
    → Small bgs
    → length bgs ≡ length ds
    → sb.s_free_blocks_count_lo + total (λ bg. bg.free_blocks) bgs < 2 ^ 32
    → sb.s_free_inodes_count + total (λ bg. bg.free_inodes) bgs < 2 ^ 32
    → Updates i bgs ds sb (update_free_from i bgs ds sb)
unfolding update_free_from
update_free_from-Updates i [] ds sb s l p q = record {
  blocks = omega arith;
  inodes = omega arith;
  each = refl;
}
update_free_from-Updates i (bg ∷ bgs) [] sb s l p q = absurd (omega arith)
update_free_from-Updates i (bg ∷ bgs) (d ∷ ds) sb (u, v, s) l p q =
    let b : add32 sb.s_free_blocks_count_lo bg.free_blocks
        ≡ sb.s_free_blocks_count_lo + bg.free_blocks =
      omega arith in
    let n : add32 sb.s_free_inodes_count bg.free_inodes ≡ sb.s_free_inodes_count + bg.free_inodes =
      omega arith in
    let r =
      update_free_from-Updates (suc i) bgs ds
        (record sb {
          s_free_blocks_count_lo = add32 sb.s_free_blocks_count_lo bg.free_blocks;
          s_free_inodes_count = add32 sb.s_free_inodes_count bg.free_inodes;
        })
        s (omega arith) (omega (arith, b)) (omega (arith, n)) in
    record {
      blocks = omega (arith, r.blocks, b);
      inodes = omega (arith, r.inodes, n);
      each = (update_desc-Counts sb.s_uuid i bg d u v, r.each);
    }

-- Where the counts of the superblock start at 0 and nothing wraps, `ext4_update_free` makes them the
-- totals of the free blocks and inodes over all groups; the descriptor of each group gets the counts of
-- that group, keeps the places of its bitmaps and inode table, and ends with the checksum of itself.
pub ext4_update_free_lem :
    (bgs : List BlockGroupInfo) (ds : List GroupDesc) (sb : SuperBlock)
    → Small bgs
    → length bgs ≡ length ds
    → sb.s_free_blocks_count_lo ≡ 0
    → sb.s_free_inodes_count ≡ 0
    → total (λ bg. bg.free_blocks) bgs < 2 ^ 32
    → total (λ bg. bg.free_inodes) bgs < 2 ^ 32
    → ((ext4_update_free bgs ds sb).0.s_free_blocks_count_lo ≡ total (λ bg. bg.free_blocks) bgs)
      × ((ext4_update_free bgs ds sb).0.s_free_inodes_count ≡ total (λ bg. bg.free_inodes) bgs)
      × AllCount sb.s_uuid 0 bgs ds (ext4_update_free bgs ds sb).1
unfolding ext4_update_free
ext4_update_free_lem bgs ds sb s l a b p q =
    let r = update_free_from-Updates 0 bgs ds sb s l (omega arith) (omega arith) in
    (omega (arith, r.blocks), omega (arith, r.inodes), r.each)
