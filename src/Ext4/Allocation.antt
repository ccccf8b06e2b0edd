-- ===== src/Ext4/Allocation.antt =====
-- Allocations of many blocks (ext4_utils/allocate.c): in one group where one has room, otherwise
-- spread over the groups whose blocks are all unused.
pub mod OneGroup
use android_platform_system.Prelude.{
  ℕ, zero, suc, Bool, true, false, ltb, leb, ◌==◌, if◌then◌else◌, sub32, List, [], ◌∷◌, set, Option,
  none, some,
}
use android_platform_system.Ext4.Exit.{Outcome, returns, exits, faults, spins, error}
use android_platform_system.Ext4.BlockGroup.{BlockGroupInfo}
use android_platform_system.Ext4.Groups.{
  allocate_failed, allocate_blocks_from_block_group, first_group,
}
use android_platform_system.Ext4.Store.{
  Ptr, null, Store, Cmd, pure, ◌>>=◌, ◌>>◌, load, store, malloc, set_next, set_prev, fail,
}
use android_platform_system.Ext4.Regions.{
  RegionList, BlockAllocation, create_allocation, region_list_append, with_fuel,
}

-- The region of `len` blocks that a search over the groups found, or NULL.
unfoldable region_of : ℕ → Option (ℕ × ℕ) → Cmd Ptr
unfolding malloc
region_of len none = pure null
region_of len (some (block, i)) =
    malloc (record { block = block; len = len; bg = i; next = null; prev = null })

-- A result of the functions on the groups, in the store.
abbrev pub with_bgs : {A : Type 0} → Outcome A × List BlockGroupInfo → Cmd A
with_bgs (o, bgs) s = (o, record s { bgs = bgs })

unfoldable pub ext4_allocate_contiguous_blocks : Bool → ℕ → Cmd Ptr
unfolding region_of
ext4_allocate_contiguous_blocks force len s =
    (with_bgs (first_group force len 0 s.bgs) >>= region_of len) s

-- The first group from number `i` on that has no blocks of data.
unused_group : ℕ → List BlockGroupInfo → Option (ℕ × BlockGroupInfo)
unused_group i [] = none
unused_group i (bg ∷ bgs) =
    let later = unused_group (suc i) bgs in if bg.data_blocks_used == 0 then some (i, bg) else later

-- `reg->block = block; reg->len = bg_len; ...`
unfoldable whole_region : Bool → ℕ → ℕ → ℕ → Cmd Ptr
unfolding malloc
whole_region force i bg_len block =
    if block == allocate_failed
    then (λ s. (error force null, s))
    else malloc (record { block = block; len = bg_len; bg = i; next = null; prev = null })

-- The body of the loop of `ext4_allocate_partial`, which always returns.
unfoldable take_unused : Bool → ℕ → Option (ℕ × BlockGroupInfo) → Cmd Ptr
unfolding whole_region
take_unused force len none = pure null
take_unused force len (some (i, bg)) =
    if leb len bg.free_blocks then ext4_allocate_contiguous_blocks force len else λ s.
    (let (o, bg') = allocate_blocks_from_block_group force bg.free_blocks bg in
        with_bgs (o, set s.bgs i bg') >>= whole_region force i bg.free_blocks)
      s

unfoldable pub ext4_allocate_partial : Bool → ℕ → Cmd Ptr
unfolding unused_group take_unused
ext4_allocate_partial force len s = take_unused force len (unused_group 0 s.bgs) s

-- `if (prev_reg) { prev_reg->next = reg; reg->prev = prev_reg; }`
unfoldable link_regions : Ptr → Ptr → Cmd (Unit {0})
unfolding set_next set_prev
link_regions prev_reg reg =
    if prev_reg == null then pure tt else (do set_next prev_reg reg; set_prev reg prev_reg)

-- `while (len > 0)`. A region of at least one block makes `len` smaller, so fuel `len + 1` is enough
-- for these.
multiple_loop : Bool → ℕ → Ptr → Ptr → ℕ → Cmd Ptr
unfolding link_regions load
multiple_loop force zero first_reg prev_reg len = λ s. (spins, s)
multiple_loop force (suc fuel) first_reg prev_reg len = if len == 0 then pure first_reg else (do
  reg ← ext4_allocate_partial force len
  (if reg == null then pure null else (do
    link_regions prev_reg reg
    r ← load reg
    multiple_loop force fuel (if first_reg == null then reg else first_reg) reg (sub32 len r.len))))

unfoldable pub ext4_allocate_multiple_contiguous_blocks : Bool → ℕ → Cmd Ptr
unfolding multiple_loop
ext4_allocate_multiple_contiguous_blocks force len = multiple_loop force (suc len) null null len

unfoldable pub do_allocate : Bool → ℕ → Cmd Ptr
do_allocate force len = do
  reg ← ext4_allocate_contiguous_blocks force len
  (if reg == null then ext4_allocate_multiple_contiguous_blocks force len else pure reg)

-- `none` is NULL.
unfoldable pub allocate_blocks : Bool → ℕ → Cmd (Option BlockAllocation)
unfolding create_allocation
allocate_blocks force len = do
  reg ← do_allocate force len
  pure (
      if reg == null
      then none
      else some (record create_allocation {
        list = record { first = reg; last = reg; iter = reg; partial_iter = 0 };
      }))

-- `for (; reg; reg = reg->next) region_list_append(&alloc->oob_list, reg);`
append_loop : ℕ → Ptr → RegionList → Cmd RegionList
unfolding load region_list_append
append_loop zero reg list = λ s. (spins, s)
append_loop (suc fuel) reg list =
    if reg == null
    then pure list
    else (do list' ← region_list_append list reg; r ← load reg; append_loop fuel r.next list')

-- `true` stands for 0, `false` for -1.
unfoldable pub append_oob_allocation : Bool → BlockAllocation → ℕ → Cmd (Bool × BlockAllocation)
unfolding append_loop
append_oob_allocation force alloc len = do
  reg ← do_allocate force len
  (if reg == null then fail force (false, alloc) else (do
    list ← with_fuel (λ fuel. append_loop fuel reg alloc.oob_list)
    pure (true, record alloc { oob_list = list })))
