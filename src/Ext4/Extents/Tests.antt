-- ===== src/Ext4/Extents/Tests.antt =====
-- The extents of an allocation of two regions, and the theorem at this input (ext4_utils/extent.c).
use android_platform_system.Prelude.{
  ℕ, ◌+◌, ◌*◌, ◌^◌, ◌<◌, ◌≤◌, ◌≡◌, ◌⊎◌, some, false, refl, arith, [], ◌∷◌,
}
use android_platform_system.Ext4.Exit.{returns}
use android_platform_system.Ext4.Regions.{BlockAllocation, rewind_alloc}
use android_platform_system.Ext4.Regions.Chain.{nth_block}
use android_platform_system.Ext4.Regions.Tests.{first_region, second_region, two, alloc}
use android_platform_system.Ext4.Geometry.Tests.{small_info}
use android_platform_system.Ext4.Groups.Blocks.{Short}
use android_platform_system.Ext4.Tests.{
  two_groups, empty_memory, full_group-IsGroup, small_group-IsGroup,
}
use android_platform_system.Ext4.Extents.Run.{InOneGroup, do_inode_allocate_extents_lem}
use android_platform_system.Ext4.Extents.{
  Ext4Inode, do_inode_allocate_extents, write_inline, ext4_ext_magic,
}
use android_platform_system.Ext4.Extents.Lookup.{lookup_block, write_inline_lem}

abbrev pub empty_inode : Ext4Inode
empty_inode = record {
  i_size_lo = 0;
  i_size_high = 0;
  i_blocks_lo = 0;
  l_i_blocks_high = 0;
  i_flags = 0;
  i_block = λ i. 0;
}

write_inline_lem_example :
    (alloc' : BlockAllocation) × (inode' : Ext4Inode) × (write_inline small_info
        (rewind_alloc alloc)
        2
        empty_inode
        two
      ≡ (returns (alloc', inode'), two))
    × (rewind_alloc alloc' ≡ rewind_alloc (rewind_alloc alloc))
    × (inode'.i_block 0 ≡ ext4_ext_magic + 2 ^ 16 * 2)
    × ((n : ℕ)
        → n < 8
        → lookup_block inode'.i_block n ≡ nth_block (first_region ∷ second_region ∷ []) n)
    × ((i : ℕ) → 9 ≤ i → inode'.i_block i ≡ 0)
unfolding rewind_alloc
write_inline_lem_example =
    write_inline_lem small_info (rewind_alloc alloc) (first_region ∷ second_region ∷ []) empty_inode
      two (refl, refl, (refl, refl, refl)) refl (omega arith) (omega arith)
      (omega arith, (omega arith, tt))

-- A file of one block of two bytes.
do_inode_allocate_extents_lem_example :
    Short 2 two_groups
    ⊎ ((r : InOneGroup 2 1 empty_memory) × (do_inode_allocate_extents small_info false empty_inode 2
            empty_memory
          ≡ (returns (some r.alloc, r.inode'), r.s')))
do_inode_allocate_extents_lem_example =
    do_inode_allocate_extents_lem small_info false 16 (16 ∷ 14 ∷ []) empty_inode 2 1 empty_memory
      (full_group-IsGroup, (small_group-IsGroup, tt)) (omega arith) refl (omega arith) (omega arith)
      (omega arith)
