-- ===== src/Ext4/Tests.antt =====
-- Runs of the allocator (ext4_utils/allocate.c) on a file system of two groups of 16 blocks and 8
-- inodes, and the theorems at these inputs.
use android_platform_system.Prelude.{
  none, some, ℕ, zero, suc, ◌+◌, ◌<◌, ◌≡◌, ◌≢◌, ◌⊎◌, refl, true, false, not, ◌&&◌, arith, ltb, leb,
  List, [], ◌∷◌,
}
use android_platform_system.Prelude.Bytes.{holds_to, eqb, agree_below}
use android_platform_system.Ext4.Exit.{returns}
use android_platform_system.Ext4.Bitmap.{Bitmap, is_set, Bytes}
use android_platform_system.Ext4.BlockGroup.{BlockGroupInfo, reserve_blocks, free_blocks}
use android_platform_system.Ext4.BlockGroup.Reserve.{IsGroup, Reserves, reserve_blocks_lem}
use android_platform_system.Ext4.BlockGroup.Release.{free_blocks-reserve_blocks}
use android_platform_system.Ext4.Groups.{allocate_failed, first_group, allocate_block}
use android_platform_system.Ext4.Groups.FirstFit.{AllGroups, FirstFit, first_group-FirstFit}
use android_platform_system.Ext4.Groups.Calls.{Calls, Increasing, allocate_block-Calls}
use android_platform_system.Ext4.Groups.Queue.{free_list}
use android_platform_system.Ext4.Groups.Blocks.{Chosen, Short, allocate_block_lem}
use android_platform_system.Ext4.Store.{Store}
use android_platform_system.Ext4.Allocation.{allocate_blocks}
use android_platform_system.Ext4.Allocation.OneGroup.{OneRegion, allocate_blocks-OneRegion}
use android_platform_system.Ext4.Inodes.{allocate_inode, group_of_inode, slot_of_inode}
use android_platform_system.Ext4.Inodes.Laws.{IsInodes}
use android_platform_system.Ext4.Inodes.Fresh.{NoInodes, IsFresh, allocate_inode-IsFresh}

-- Three header blocks and five data blocks are in use, two blocks overrun the end of the device.
abbrev pub group_map : Bitmap
group_map = 255 ∷ 192 ∷ []

-- Two inodes are in use.
abbrev pub inode_map : Bitmap
inode_map = 3 ∷ 0 ∷ []

abbrev pub small_group : BlockGroupInfo
small_group = record {
  first_block = 16;
  header_blocks = 3;
  data_blocks_used = 5;
  has_superblock = true;
  block_bitmap = group_map;
  inode_bitmap = inode_map;
  has_inode_table = false;
  free_blocks = 6;
  first_free_block = 8;
  free_inodes = 6;
  first_free_inode = 3;
  flags = 0;
  used_dirs = 0;
}

-- A group with neither a free block nor a free inode.
abbrev pub full_group : BlockGroupInfo
full_group = record small_group {
  first_block = 0;
  block_bitmap = 255 ∷ 255 ∷ [];
  free_blocks = 0;
  first_free_block = 16;
  inode_bitmap = 255 ∷ 0 ∷ [];
  free_inodes = 0;
  first_free_inode = 9;
}

Bytes-pair : (a b : ℕ) → a < 256 → b < 256 → Bytes (a ∷ b ∷ [])
Bytes-pair a b h k zero = h
Bytes-pair a b h k (suc zero) = k
Bytes-pair a b h k (suc (suc i)) = omega arith

pub small_group-IsGroup : IsGroup 16 14 small_group
unfolding is_set holds_to eqb
small_group-IsGroup = record {
  bytes = Bytes-pair 255 192 (omega arith) (omega arith);
  room = omega arith;
  small = omega arith;
  limit_in = omega arith;
  numbered = omega arith;
  free = refl;
  used = agree_below 15 _ (λ k. not (leb 8 k && ltb k 14)) refl;
}

pub full_group-IsGroup : IsGroup 16 16 full_group
unfolding is_set holds_to eqb
full_group-IsGroup = record {
  bytes = Bytes-pair 255 255 (omega arith) (omega arith);
  room = omega arith;
  small = omega arith;
  limit_in = omega arith;
  numbered = omega arith;
  free = refl;
  used = agree_below 15 _ (λ k. not (leb 16 k && ltb k 16)) refl;
}

small_group-IsInodes : IsInodes 8 small_group
unfolding is_set holds_to eqb
small_group-IsInodes = record {
  bytes = Bytes-pair 3 0 (omega arith) (omega arith);
  room = omega arith;
  small = omega arith;
  first = omega arith;
  free = refl;
  used = agree_below 7 _ (λ k. ltb (k + 1) 3) refl;
}

full_group-IsInodes : IsInodes 8 full_group
unfolding is_set holds_to eqb
full_group-IsInodes = record {
  bytes = Bytes-pair 255 0 (omega arith) (omega arith);
  room = omega arith;
  small = omega arith;
  first = omega arith;
  free = refl;
  used = agree_below 7 _ (λ k. ltb (k + 1) 9) refl;
}

abbrev pub two_groups : List BlockGroupInfo
two_groups = full_group ∷ small_group ∷ []

reserve_blocks_lem_example : Reserves false small_group 8 5 (reserve_blocks false small_group 8 5)
reserve_blocks_lem_example =
    reserve_blocks_lem false small_group 8 5 small_group-IsGroup.bytes (omega arith) (omega arith)
      (omega arith)

free_blocks-reserve_blocks_example :
    (bg' : BlockGroupInfo) × (reserve_blocks false small_group 8 6 ≡ (returns true, bg'))
    × ((free_blocks bg' 6).free_blocks ≡ 6)
    × ((free_blocks bg' 6).first_free_block ≡ 8)
    × ((k : ℕ) → is_set (free_blocks bg' 6).block_bitmap k ≡ is_set group_map k)
free_blocks-reserve_blocks_example =
    free_blocks-reserve_blocks 16 14 small_group 6 small_group-IsGroup false (omega arith)

first_group-FirstFit_example :
    FirstFit 2 0 two_groups (first_group false 2 0 two_groups)
    × AllGroups 16 (16 ∷ 14 ∷ []) (first_group false 2 0 two_groups).1
first_group-FirstFit_example =
    first_group-FirstFit 16 false 2 0 (16 ∷ 14 ∷ []) two_groups
      (full_group-IsGroup, (small_group-IsGroup, tt))

allocate_block_lem_example :
    ((allocate_block false two_groups ≡ (returns allocate_failed, two_groups)) × Short 1 two_groups)
    ⊎ ((block : ℕ) × ((allocate_block false two_groups).0 ≡ returns block)
        × Chosen 1 two_groups block (allocate_block false two_groups).1)
allocate_block_lem_example =
    allocate_block_lem 16 false (16 ∷ 14 ∷ []) two_groups
      (full_group-IsGroup, (small_group-IsGroup, tt))

allocate_block-Calls_example :
    (bgs' : List BlockGroupInfo) × Calls false two_groups (24 ∷ 25 ∷ []) bgs'
    × Increasing 0 (24 ∷ 25 ∷ [])
    × (free_list bgs' ≡ 26 ∷ 27 ∷ 28 ∷ 29 ∷ [])
    × AllGroups 16 (16 ∷ 14 ∷ []) bgs'
    × ((free_list bgs' ≢ []) ⊎ (allocate_block false bgs' ≡ (returns allocate_failed, bgs')))
allocate_block-Calls_example =
    allocate_block-Calls 16 (16 ∷ 14 ∷ []) false 2 two_groups
      (full_group-IsGroup, (small_group-IsGroup, tt)) (omega arith, (omega arith, tt)) (omega arith)

allocate_inode-IsFresh_example :
    ((allocate_inode 8 two_groups ≡ (allocate_failed, two_groups)) × NoInodes two_groups)
    ⊎ ((f : IsFresh 8 0 two_groups (allocate_inode 8 two_groups).0 (allocate_inode 8 two_groups).1)
        × (group_of_inode 8 (allocate_inode 8 two_groups).0 ≡ f.group)
        × (slot_of_inode 8 (allocate_inode 8 two_groups).0 ≡ f.slot))
allocate_inode-IsFresh_example =
    allocate_inode-IsFresh 8 two_groups (full_group-IsInodes, (small_group-IsInodes, tt))
      (omega arith)

abbrev pub empty_memory : Store
empty_memory = record { bgs = two_groups; cell = λ p. none; fresh = 1; image = λ b i. 0 }

allocate_blocks-OneRegion_example :
    Short 2 two_groups
    ⊎ ((r : OneRegion 2 empty_memory) × (allocate_blocks false 2 empty_memory
          ≡ (returns (some r.alloc), r.s')))
allocate_blocks-OneRegion_example =
    allocate_blocks-OneRegion 16 false (16 ∷ 14 ∷ []) 2 empty_memory
      (full_group-IsGroup, (small_group-IsGroup, tt)) (omega arith)
