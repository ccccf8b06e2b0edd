-- ===== src/Ext4/Indirect.antt =====
-- The blocks of a file as a tree of indirect blocks (ext4_utils/indirect.c).
pub mod Reserve
pub mod Fill
pub mod Attach
pub mod Resize
pub mod Direct
pub mod Needed
mod Tests
use android_platform_system.Prelude.{
  ℕ, suc, ◌/◌, ◌%◌, ◌^◌, Bool, true, false, not, ltb, leb, ◌==◌, if◌then◌else◌, add32, mul32, List,
  [], Option, none, some,
}
use android_platform_system.Ext4.Geometry.{FsInfo, FsAuxInfo}
use android_platform_system.Ext4.Store.{Ptr, Cmd, pure, ◌>>=◌, ◌>>◌, fail, critical, lift}
use android_platform_system.Ext4.Regions.{BlockAllocation, with_fuel, rewind_alloc}
use android_platform_system.Ext4.Regions.Split.{free_alloc}
use android_platform_system.Ext4.Allocation.{allocate_blocks}
use android_platform_system.Ext4.Extents.{Ext4Inode, Piece, blocks_for, backing_loop}
use android_platform_system.Ext4.Indirect.Reserve.{
  ext4_ndir_blocks, indirect_blocks_needed, reserve_all_indirect_blocks,
}
use android_platform_system.Ext4.Indirect.Attach.{do_inode_attach_indirect}

module _ (info : FsInfo) (aux : FsAuxInfo) (force : Bool) where
  -- The loop is that of `extent_create_backing`. `unsigned long` has 64 bits.
  unfoldable pub create_backing : BlockAllocation → ℕ → Cmd (List Piece)
  unfolding backing_loop
  create_backing alloc backing_len =
      if ltb ext4_ndir_blocks (blocks_for info.block_size backing_len)
      then critical
      else with_fuel (λ fuel. backing_loop info fuel 0 backing_len alloc)

  unfoldable pub do_inode_allocate_indirect : ℕ → Cmd (Option BlockAllocation)
  unfolding indirect_blocks_needed allocate_blocks
  do_inode_allocate_indirect block_len = do
    indirect_len ← lift (indirect_blocks_needed aux block_len)
    alloc ← allocate_blocks force (add32 block_len indirect_len)
    (elim alloc [ none ↦ fail force none | some a ↦ pure (some a) ])

  unfoldable pub inode_allocate_indirect : Ext4Inode → ℕ → Cmd Ext4Inode
  unfolding do_inode_allocate_indirect do_inode_attach_indirect reserve_all_indirect_blocks
      rewind_alloc free_alloc
  inode_allocate_indirect inode len = do
    let block_len = blocks_for info.block_size len
    indirect_len ← lift (indirect_blocks_needed aux block_len)
    found ← do_inode_allocate_indirect block_len
    (elim found [
      | none ↦ fail force inode
      | some alloc ↦ (do
        alloc' ← reserve_all_indirect_blocks aux force alloc block_len
        r ← do_inode_attach_indirect aux force inode (rewind_alloc alloc') block_len
        (if not (r.0) then fail force tt else pure tt)
        let inode' = r.1.inode
        free_alloc (r.1.alloc)
        pure (record inode' {
          i_flags = 0;
          i_blocks_lo = mul32 (add32 block_len indirect_len) info.block_size / 512;
          i_size_lo = len % 2 ^ 32;
        }))
    ])

  unfoldable pub inode_allocate_data_indirect : Ext4Inode → ℕ → ℕ → Cmd (List Piece × Ext4Inode)
  unfolding do_inode_allocate_indirect do_inode_attach_indirect create_backing rewind_alloc
      free_alloc
  inode_allocate_data_indirect inode len backing_len = do
    let block_len = blocks_for info.block_size len
    found ← do_inode_allocate_indirect block_len
    (elim found [
      | none ↦ fail force ([], inode)
      | some alloc ↦ (do
        pieces ← (if backing_len == 0 then pure [] else create_backing alloc backing_len)
        r ← do_inode_attach_indirect aux force inode (rewind_alloc alloc) block_len
        (if not (r.0) then fail force tt else pure tt)
        free_alloc (r.1.alloc)
        pure (pieces, r.1.inode))
    ])
