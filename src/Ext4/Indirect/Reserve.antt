-- ===== src/Ext4/Indirect/Reserve.antt =====
-- How many indirect blocks a file needs, and taking them out of its allocation
-- (ext4_utils/indirect.c). The numbers of blocks are `int`s that do not reach 2^31.
use android_platform_system.Prelude.{
  ℕ, zero, suc, Bool, not, ltb, leb, ◌==◌, if◌then◌else◌, add32, sub32, div_round_up32,
}
use android_platform_system.Ext4.Exit.{Outcome, returns, exits, spins}
use android_platform_system.Ext4.Geometry.{FsAuxInfo}
use android_platform_system.Ext4.Store.{Cmd, pure, ◌>>=◌, fail}
use android_platform_system.Ext4.Regions.{BlockAllocation}
use android_platform_system.Ext4.Regions.Advance.{advance_blocks, above_zero}
use android_platform_system.Ext4.Regions.Split.{reserve_oob_blocks}

abbrev pub min : ℕ → ℕ → ℕ
min a b = if ltb a b then a else b

abbrev pub ext4_ndir_blocks : ℕ
ext4_ndir_blocks = 12

module _ (aux : FsAuxInfo) where
  -- `critical_error` leaves in any case.
  unfoldable pub indirect_blocks_needed : ℕ → Outcome ℕ
  indirect_blocks_needed len =
      let len1 = sub32 len ext4_ndir_blocks in
      let ind1 = div_round_up32 len1 aux.blocks_per_ind in
      let len2 = sub32 len1 aux.blocks_per_ind in
      let ind2 = add32 ind1 (div_round_up32 len2 aux.blocks_per_dind) in
      let len3 = sub32 len2 aux.blocks_per_dind in
      let ind3 = add32 ind2 (div_round_up32 len3 aux.blocks_per_tind) in
      if leb len ext4_ndir_blocks
      then returns 0
      else if leb len1 aux.blocks_per_ind
      then returns ind1
      else if leb len2 aux.blocks_per_dind
      then returns ind2
      else if leb len3 aux.blocks_per_tind
      then returns ind3
      else exits

  module _ (force : Bool) where
    unfoldable pub reserve_indirect_block : BlockAllocation → ℕ → Cmd BlockAllocation
    unfolding reserve_oob_blocks advance_blocks
    reserve_indirect_block alloc len = do
      r ← reserve_oob_blocks alloc 1
      (if not (r.0) then fail force (r.1) else (do
        a ← advance_blocks (r.1) len
        (if not (a.0) then fail force (a.1) else pure (a.1))))

    -- The loop of `reserve_dindirect_block`.
    unfoldable pub reserve_dindirect_loop : ℕ → BlockAllocation → ℕ → Cmd BlockAllocation
    unfolding reserve_indirect_block
    reserve_dindirect_loop zero alloc len = λ s. (spins, s)
    reserve_dindirect_loop (suc fuel) alloc len = if not (above_zero len) then pure alloc else (do
      let ind_block_len = min aux.blocks_per_ind len
      alloc' ← reserve_indirect_block alloc ind_block_len
      reserve_dindirect_loop fuel alloc' (sub32 len ind_block_len))

    -- A round of at least one block makes `len` smaller, so the fuel `len + 1` is enough.
    unfoldable pub reserve_dindirect_block : BlockAllocation → ℕ → Cmd BlockAllocation
    unfolding reserve_oob_blocks reserve_dindirect_loop
    reserve_dindirect_block alloc len = do
      r ← reserve_oob_blocks alloc 1
      (if not (r.0) then fail force (r.1) else reserve_dindirect_loop (suc len) (r.1) len)

    unfoldable pub reserve_tindirect_loop : ℕ → BlockAllocation → ℕ → Cmd BlockAllocation
    unfolding reserve_dindirect_block
    reserve_tindirect_loop zero alloc len = λ s. (spins, s)
    reserve_tindirect_loop (suc fuel) alloc len = if not (above_zero len) then pure alloc else (do
      let dind_block_len = min aux.blocks_per_dind len
      alloc' ← reserve_dindirect_block alloc dind_block_len
      reserve_tindirect_loop fuel alloc' (sub32 len dind_block_len))

    unfoldable pub reserve_tindirect_block : BlockAllocation → ℕ → Cmd BlockAllocation
    unfolding reserve_oob_blocks reserve_tindirect_loop
    reserve_tindirect_block alloc len = do
      r ← reserve_oob_blocks alloc 1
      (if not (r.0) then fail force (r.1) else reserve_tindirect_loop (suc len) (r.1) len)

    unfoldable pub reserve_all_indirect_blocks : BlockAllocation → ℕ → Cmd BlockAllocation
    unfolding advance_blocks reserve_indirect_block reserve_dindirect_block reserve_tindirect_block
    reserve_all_indirect_blocks alloc len =
        let len1 = sub32 len ext4_ndir_blocks in
        let len2 = sub32 len1 (min aux.blocks_per_ind len1) in
        let len3 = sub32 len2 (min aux.blocks_per_dind len2) in
        let len4 = sub32 len3 (min aux.blocks_per_tind len3) in
        if leb len ext4_ndir_blocks then pure alloc else (do
          a ← advance_blocks alloc ext4_ndir_blocks
          b ← reserve_indirect_block (a.1) (min aux.blocks_per_ind len1)
          (if len2 == 0 then pure b else (do
            c ← reserve_dindirect_block b (min aux.blocks_per_dind len2)
            (if len3 == 0 then pure c else (do
              d ← reserve_tindirect_block c (min aux.blocks_per_tind len3)
              (if len4 == 0 then pure d else fail force d))))))
