-- ===== src/Ext4/Indirect/Attach.antt =====
-- Attaching the blocks of an allocation to an inode (ext4_utils/indirect.c): 12 direct blocks, then
-- one tree of each depth.
use android_platform_system.Prelude.{
  ℕ, zero, suc, ◌+◌, Bool, true, false, not, ◌==◌, if◌then◌else◌, sub32,
}
use android_platform_system.Ext4.Geometry.{FsAuxInfo}
use android_platform_system.Ext4.Store.{Cmd, pure, ◌>>=◌, ◌>>◌, fail, add_zeros}
use android_platform_system.Ext4.Regions.{BlockAllocation, get_block, get_oob_block, rewind_alloc}
use android_platform_system.Ext4.Regions.Advance.{advance_blocks, advance_oob_blocks}
use android_platform_system.Ext4.Extents.{Ext4Inode}
use android_platform_system.Ext4.Indirect.Reserve.{min, ext4_ndir_blocks}
use android_platform_system.Ext4.Indirect.Fill.{
  fill_indirect_block, fill_dindirect_block, fill_tindirect_block,
}

-- What these functions change: the inode, the allocation and `*block_len`.
pub record Attach : Type 0 where
  pub inode : Ext4Inode
  pub alloc : BlockAllocation
  pub block_len : ℕ

abbrev pub set_i_block : ℕ → ℕ → Ext4Inode → Ext4Inode
set_i_block i v inode = record inode { i_block = λ i'. if i' == i then v else inode.i_block i' }

-- `for (i = 0; i < len; i++) inode->i_block[i] = get_block(alloc, i)`, with `n` rounds left.
unfoldable pub direct_loop : ℕ → ℕ → BlockAllocation → Ext4Inode → Cmd Ext4Inode
unfolding get_block
direct_loop zero i alloc inode = pure inode
direct_loop (suc n) i alloc inode = do
  b ← get_block alloc i
  direct_loop n (suc i) alloc (set_i_block i b inode)

-- `if (advance_blocks(alloc, len)) { error(...); return -1; } *block_len -= len; return 0;`
abbrev pub advanced : Bool → ℕ → Attach → Cmd (Bool × Attach)
advanced force len a = do
  r ← advance_blocks a.alloc len
  let a' = record a { alloc = r.1 }
  (if not (r.0)
      then fail force (false, a')
      else pure (true, record a' { block_len = sub32 a.block_len len }))

-- `true` stands for 0, `false` for -1.
unfoldable pub inode_attach_direct_blocks : Bool → Attach → Cmd (Bool × Attach)
unfolding direct_loop advance_blocks
inode_attach_direct_blocks force a = do
  let len = min a.block_len ext4_ndir_blocks
  inode ← direct_loop len 0 a.alloc a.inode
  advanced force len (record a { inode = inode })

module _ (aux : FsAuxInfo) (force : Bool) where
  -- The beginning of the three functions below: the root of a tree is the next block of the oob
  -- list, stands in `i_block[slot]` and is queued with zeros. `false` is the return of -1.
  unfoldable pub attach_root : ℕ → Attach → Cmd ((Bool × ℕ) × Attach)
  unfolding get_oob_block advance_oob_blocks add_zeros
  attach_root slot a = do
    root ← get_oob_block a.alloc 0
    r ← advance_oob_blocks a.alloc 1
    let a' = record a { inode = set_i_block slot root a.inode; alloc = r.1 }
    (if not (r.0)
        then fail force ((false, root), a')
        else (do add_zeros root; pure ((true, root), a')))

  unfoldable pub inode_attach_indirect_blocks : Attach → Cmd (Bool × Attach)
  unfolding attach_root fill_indirect_block advance_blocks
  inode_attach_indirect_blocks a = do
    let len = min a.block_len aux.blocks_per_ind
    r ← attach_root ext4_ndir_blocks a
    (if not (r.0.0)
        then pure (false, r.1)
        else (do fill_indirect_block (r.0.1) len (r.1.alloc); advanced force len (r.1)))

  -- `fill_dindirect_block` has advanced the allocation already.
  unfoldable pub inode_attach_dindirect_blocks : Attach → Cmd (Bool × Attach)
  unfolding attach_root fill_dindirect_block advance_blocks
  inode_attach_dindirect_blocks a = do
    let len = min a.block_len aux.blocks_per_dind
    r ← attach_root (ext4_ndir_blocks + 1) a
    (if not (r.0.0) then pure (false, r.1) else (do
      alloc ← fill_dindirect_block aux force (r.0.1) len (r.1.alloc)
      let b = r.1
      advanced force len (record b { alloc = alloc })))

  unfoldable pub inode_attach_tindirect_blocks : Attach → Cmd (Bool × Attach)
  unfolding attach_root fill_tindirect_block advance_blocks
  inode_attach_tindirect_blocks a = do
    let len = min a.block_len aux.blocks_per_tind
    r ← attach_root (ext4_ndir_blocks + 2) a
    (if not (r.0.0) then pure (false, r.1) else (do
      alloc ← fill_tindirect_block aux force (r.0.1) len (r.1.alloc)
      let b = r.1
      advanced force len (record b { alloc = alloc })))

  -- One `if (count > 0) { if (...) { error(...); return -1; } }` of `do_inode_attach_indirect`, and
  -- what follows it.
  abbrev pub attach_rest :
      (Attach → Cmd (Bool × Attach)) → (Attach → Cmd (Bool × Attach)) → Attach → Cmd (Bool × Attach)
  attach_rest level rest a =
      if a.block_len == 0
      then rest a
      else (do r ← level a; (if not (r.0) then fail force r else rest (r.1)))

  -- The end: `error` if blocks are left, or the allocation rewound.
  unfoldable pub attached : Attach → Cmd (Bool × Attach)
  unfolding rewind_alloc
  attached a =
      if a.block_len == 0
      then pure (true, record a { alloc = rewind_alloc a.alloc })
      else fail force (false, a)

  unfoldable pub do_inode_attach_indirect : Ext4Inode → BlockAllocation → ℕ → Cmd (Bool × Attach)
  unfolding inode_attach_direct_blocks inode_attach_indirect_blocks inode_attach_dindirect_blocks
      inode_attach_tindirect_blocks attached
  do_inode_attach_indirect inode alloc block_len = do
    r ←
        inode_attach_direct_blocks force
          (record { inode = inode; alloc = alloc; block_len = block_len })
    (if not (r.0)
        then fail force r
        else attach_rest inode_attach_indirect_blocks
            (attach_rest inode_attach_dindirect_blocks
              (attach_rest inode_attach_tindirect_blocks attached))
            (r.1))
