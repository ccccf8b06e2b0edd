-- ===== src/Ext4/Indirect/Tests.antt =====
-- The theorems on indirect blocks (ext4_utils/indirect.c) at concrete inputs: an allocation of two
-- regions of 3 and 5 blocks, and blocks that hold 4 block numbers.
use android_platform_system.Prelude.{
  ℕ, ◌+◌, ◌-◌, ◌%◌, ◌^◌, ◌≤◌, ◌<◌, ◌≡◌, ◌↔◌, refl, arith, [], ◌∷◌, false, true, ltb, ◌==◌,
  if◌then◌else◌,
}
use android_platform_system.Ext4.Exit.{returns}
use android_platform_system.Ext4.Geometry.{FsInfo, FsAuxInfo}
use android_platform_system.Ext4.Regions.{BlockAllocation}
use android_platform_system.Ext4.Regions.Chain.{nth_block}
use android_platform_system.Ext4.Regions.Tests.{first_region, second_region, two, alloc}
use android_platform_system.Ext4.Geometry.Tests.{small_info, small_aux}
use android_platform_system.Ext4.Extents.{Ext4Inode}
use android_platform_system.Ext4.Extents.Tests.{empty_inode}
use android_platform_system.Ext4.Indirect.Reserve.{indirect_blocks_needed}
use android_platform_system.Ext4.Indirect.Fill.{fill_indirect_block}
use android_platform_system.Ext4.Indirect.Attach.{Attach, inode_attach_direct_blocks}
use android_platform_system.Ext4.Indirect.Direct.{
  Points, fill_indirect_block_lem, inode_attach_direct_blocks_lem,
}
use android_platform_system.Ext4.Indirect.Resize.{resize_slot, resize_slot_lem}

abbrev four_aux : FsAuxInfo
four_aux = record small_aux {
  blocks_per_ind = 4;
  blocks_per_dind = 16;
  blocks_per_tind = 64;
  bg_desc_blocks = 2;
}

-- 12 direct blocks, 4 in the first tree, 16 in the second, 4 in the third.
needed_36 : indirect_blocks_needed four_aux 36 ≡ returns 9
unfolding indirect_blocks_needed
needed_36 = refl

-- Blocks of 1024 bytes.
abbrev kilo_info : FsInfo
kilo_info = record small_info { block_size = 1024 }

abbrev at_start : BlockAllocation
at_start = record alloc { list = record { first = 1; last = 2; iter = 1; partial_iter = 0 } }

start-Points : Points two at_start (first_region ∷ second_region ∷ []) 0
start-Points = record {
  chain = (refl, refl, (refl, refl, refl));
  fits = (omega arith, (omega arith, tt));
  allocated = omega arith;
  position = refl;
}

fill_indirect_block_lem_example :
    (image' : ℕ → ℕ → ℕ) × (fill_indirect_block 50 4 at_start two
      ≡ (returns tt, record two { image = image' }))
    × ((j : ℕ)
        → image' 50 j
          ≡ (if ltb j 4 then nth_block (first_region ∷ second_region ∷ []) (0 + j) else 0))
    × ((b : ℕ) → (b == 50) ≡ false → (j : ℕ) → image' b j ≡ 0)
fill_indirect_block_lem_example =
    fill_indirect_block_lem 50 4 0 at_start (first_region ∷ second_region ∷ []) two start-Points
      (omega arith)

abbrev five_blocks : Attach
five_blocks = record { inode = empty_inode; alloc = at_start; block_len = 5 }

inode_attach_direct_blocks_lem_example :
    (inode' : Ext4Inode) × (q : ℕ) × (inode_attach_direct_blocks false five_blocks two ≡ (
      returns (
        true,
        record {
          inode = inode';
          alloc = record at_start { list = record at_start.list { partial_iter = q } };
          block_len = 0;
        },
      ),
      two,
    ))
    × ((j : ℕ)
        → inode'.i_block j
          ≡ (if ltb j 5 then nth_block (first_region ∷ second_region ∷ []) (0 + j) else 0))
inode_attach_direct_blocks_lem_example =
    inode_attach_direct_blocks_lem false five_blocks (first_region ∷ second_region ∷ []) 0 two
      start-Points (omega arith) (omega arith) (omega arith) (omega arith)

abbrev seven_reserved : FsInfo
seven_reserved = record small_info { bg_desc_reserve_blocks = 7 }

-- 7 does not divide 2^32, so slot 0 is not for block 5.
slot_zero : resize_slot seven_reserved four_aux 0 ≡ 2
unfolding resize_slot
slot_zero = refl

resize_slot_lem_example :
    (2 ≤ 0 → resize_slot seven_reserved four_aux 0 ≡ 0 - 2)
    × (0 < 2 → (resize_slot seven_reserved four_aux 0 ≡ 0 + 7 - 2) ↔ (◌≡◌ {A = ℕ} (2 ^ 32 % 7) 0))
resize_slot_lem_example =
    resize_slot_lem seven_reserved four_aux 0 (omega arith) (omega arith) (omega arith)
