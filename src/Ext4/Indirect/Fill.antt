-- ===== src/Ext4/Indirect/Fill.antt =====
-- Filling the blocks of an indirect block tree (ext4_utils/indirect.c). The buffer of an indirect
-- block is the block of the image that it is queued for. The numbers of blocks are `int`s that do not
-- reach 2^31.
use android_platform_system.Prelude.{ℕ, zero, suc, Bool, not, if◌then◌else◌, sub32}
use android_platform_system.Ext4.Exit.{spins}
use android_platform_system.Ext4.Geometry.{FsAuxInfo}
use android_platform_system.Ext4.Store.{Cmd, pure, ◌>>=◌, ◌>>◌, fail, add_zeros, set_word}
use android_platform_system.Ext4.Regions.{BlockAllocation, get_block, get_oob_block}
use android_platform_system.Ext4.Regions.Advance.{advance_blocks, advance_oob_blocks, above_zero}
use android_platform_system.Ext4.Indirect.Reserve.{min}

-- `for (i = 0; i < len; i++) ind_block[i] = get_block(alloc, i)`, from `i` on with `n` rounds left.
unfoldable pub fill_loop : ℕ → ℕ → ℕ → BlockAllocation → Cmd (Unit {0})
unfolding get_block set_word
fill_loop block zero i alloc = pure tt
fill_loop block (suc n) i alloc = do
  b ← get_block alloc i
  set_word block i b
  fill_loop block n (suc i) alloc

unfoldable pub fill_indirect_block : ℕ → ℕ → BlockAllocation → Cmd (Unit {0})
unfolding fill_loop
fill_indirect_block block len alloc = fill_loop block len 0 alloc

module _ (aux : FsAuxInfo) (force : Bool) where
  -- `for (i = 0; len > 0; i++)` of `fill_dindirect_block`.
  unfoldable pub fill_dindirect_loop : ℕ → ℕ → ℕ → ℕ → BlockAllocation → Cmd BlockAllocation
  unfolding fill_indirect_block get_oob_block advance_oob_blocks advance_blocks set_word add_zeros
  fill_dindirect_loop zero dind_block i len alloc = λ s. (spins, s)
  fill_dindirect_loop (suc fuel) dind_block i len alloc =
      if not (above_zero len) then pure alloc else (do
        ind_block ← get_oob_block alloc 0
        a ← advance_oob_blocks alloc 1
        (if not (a.0) then fail force (a.1) else (do
          set_word dind_block i ind_block
          add_zeros ind_block
          let ind_block_len = min aux.blocks_per_ind len
          fill_indirect_block ind_block ind_block_len (a.1)
          b ← advance_blocks (a.1) ind_block_len
          (if not (b.0)
              then fail force (b.1)
              else fill_dindirect_loop fuel dind_block (suc i) (sub32 len ind_block_len) (b.1)))))

  -- A round of at least one block makes `len` smaller, so the fuel `len + 1` is enough.
  unfoldable pub fill_dindirect_block : ℕ → ℕ → BlockAllocation → Cmd BlockAllocation
  unfolding fill_dindirect_loop
  fill_dindirect_block dind_block len alloc = fill_dindirect_loop (suc len) dind_block 0 len alloc

  -- `for (i = 0; len > 0; i++)` of `fill_tindirect_block`.
  unfoldable pub fill_tindirect_loop : ℕ → ℕ → ℕ → ℕ → BlockAllocation → Cmd BlockAllocation
  unfolding fill_dindirect_block get_oob_block advance_oob_blocks set_word add_zeros
  fill_tindirect_loop zero tind_block i len alloc = λ s. (spins, s)
  fill_tindirect_loop (suc fuel) tind_block i len alloc =
      if not (above_zero len) then pure alloc else (do
        dind_block ← get_oob_block alloc 0
        a ← advance_oob_blocks alloc 1
        (if not (a.0) then fail force (a.1) else (do
          set_word tind_block i dind_block
          add_zeros dind_block
          let dind_block_len = min aux.blocks_per_dind len
          b ← fill_dindirect_block dind_block dind_block_len (a.1)
          fill_tindirect_loop fuel tind_block (suc i) (sub32 len dind_block_len) b)))

  unfoldable pub fill_tindirect_block : ℕ → ℕ → BlockAllocation → Cmd BlockAllocation
  unfolding fill_tindirect_loop
  fill_tindirect_block tind_block len alloc = fill_tindirect_loop (suc len) tind_block 0 len alloc
