-- ===== src/Ext4/Groups.antt =====
-- Allocation from the array of block groups, `aux_info.bgs` (ext4_utils/allocate.c). The array is a
-- list of `aux_info.groups` groups, and a loop over it is a recursion on the list.
pub mod FirstFit
pub mod Blocks
pub mod Queue
pub mod Calls
use android_platform_system.Prelude.{
  ℕ, suc, ◌-◌, ◌^◌, Bool, true, false, Option, none, some, List, [], ◌∷◌, ltb, ◌==◌, if◌then◌else◌,
  add32, u32_mod,
}
use android_platform_system.Ext4.Exit.{Outcome, returns, exits, faults, spins, error}
use android_platform_system.Ext4.BlockGroup.{BlockGroupInfo, reserve_blocks}

-- EXT4_ALLOCATE_FAILED, `(u32)(~0)`
abbrev pub allocate_failed : ℕ
allocate_failed = 2 ^ 32 - 1

-- The part of `ext4_allocate_blocks_from_block_group` behind `reserve_blocks`.
abbrev pub account : Bool → ℕ → ℕ → Outcome Bool → BlockGroupInfo → Outcome ℕ × BlockGroupInfo
account force len block (returns true) bg = (
  returns (add32 bg.first_block block),
  record bg { data_blocks_used = add32 bg.data_blocks_used len },
)
account force len block (returns false) bg = (error force allocate_failed, bg)
account force len block exits bg = (exits, bg)
account force len block faults bg = (faults, bg)
account force len block spins bg = (spins, bg)

-- `ext4_allocate_blocks_from_block_group` on the group `&aux_info.bgs[bg_num]`.
pub allocate_blocks_from_block_group : Bool → ℕ → BlockGroupInfo → Outcome ℕ × BlockGroupInfo
allocate_blocks_from_block_group force len bg =
    if ltb bg.free_blocks len
    then (returns allocate_failed, bg)
    else let (o, bg') = reserve_blocks force bg bg.first_free_block len in
      account force len bg.first_free_block o bg'

-- What a loop over the groups has found so far: nothing, or a block and its group's number; and the
-- groups as they are then.
abbrev pub Searched : Type 0
Searched = Outcome (Option (ℕ × ℕ)) × List BlockGroupInfo

-- One round: the answer of group `i` ends the loop, unless it is EXT4_ALLOCATE_FAILED.
abbrev pub or_later : ℕ → List BlockGroupInfo → Outcome ℕ × BlockGroupInfo → Searched → Searched
or_later i bgs (returns block, bg') later =
    if block == allocate_failed
    then (later.0, bg' ∷ later.1)
    else (returns (some (block, i)), bg' ∷ bgs)
or_later i bgs (exits, bg') later = (exits, bg' ∷ bgs)
or_later i bgs (faults, bg') later = (faults, bg' ∷ bgs)
or_later i bgs (spins, bg') later = (spins, bg' ∷ bgs)

-- The loop `for (i = 0; i < aux_info.groups; i++)` that asks each group for `len` blocks and stops at
-- the first that has them. `allocate_block` returns the block, `ext4_allocate_contiguous_blocks`
-- makes a region of block and group.
pub first_group : Bool → ℕ → ℕ → List BlockGroupInfo → Searched
first_group force len i [] = (returns none, [])
first_group force len i (bg ∷ bgs) =
    or_later i bgs (allocate_blocks_from_block_group force len bg)
      (first_group force len (suc i) bgs)

-- The value of the function where no group has room.
abbrev pub block_or_failed : Outcome (Option (ℕ × ℕ)) → Outcome ℕ
block_or_failed (returns none) = returns allocate_failed
block_or_failed (returns (some (block, i))) = returns block
block_or_failed exits = exits
block_or_failed faults = faults
block_or_failed spins = spins

pub allocate_block : Bool → List BlockGroupInfo → Outcome ℕ × List BlockGroupInfo
allocate_block force bgs = let (o, bgs') = first_group force 1 0 bgs in (block_or_failed o, bgs')
