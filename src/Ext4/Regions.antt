-- ===== src/Ext4/Regions.antt =====
-- Region lists (ext4_utils/allocate.c): the pieces of an allocation, in the order of the file's
-- blocks. A `struct block_allocation` has one owner, so a function that changes one returns the new
-- value. A loop along a list has the fuel `fresh + 1`: a list without a cycle is no longer.
pub mod Linked
pub mod Append
pub mod Advance
pub mod Split
pub mod Chain
pub mod Tests
use android_platform_system.Prelude.{ℕ, zero, suc, Bool, ltb, ◌==◌, if◌then◌else◌, add32, sub32}
use android_platform_system.Ext4.Exit.{spins}
use android_platform_system.Ext4.Groups.{allocate_failed}
use android_platform_system.Ext4.Store.{
  Ptr, null, Cmd, pure, ◌>>=◌, ◌>>◌, load, store, malloc, set_next, set_prev,
}

-- `struct region_list`
pub record RegionList : Type 0 where
  pub first : Ptr
  pub last : Ptr
  pub iter : Ptr
  pub partial_iter : ℕ

abbrev pub no_regions : RegionList
no_regions = record { first = null; last = null; iter = null; partial_iter = 0 }

-- `struct block_allocation`
pub record BlockAllocation : Type 0 where
  pub list : RegionList
  pub oob_list : RegionList

unfoldable pub create_allocation : BlockAllocation
create_allocation = record { list = no_regions; oob_list = no_regions }

-- Fuel for a walk along a list.
abbrev pub with_fuel : {A : Type 0} → (ℕ → Cmd A) → Cmd A
with_fuel k s = k (suc s.fresh) s

unfoldable pub region_list_remove : RegionList → Ptr → Cmd RegionList
unfolding load store set_next set_prev
region_list_remove list reg = do
  r ← load reg
  (if r.prev == null then pure tt else set_next r.prev r.next)
  r ← load reg
  (if r.next == null then pure tt else set_prev r.next r.prev)
  r ← load reg
  set_next reg null
  set_prev reg null
  pure (record list {
    first = if list.first == reg then r.next else list.first;
    last = if list.last == reg then r.prev else list.last;
  })

unfoldable pub region_list_append : RegionList → Ptr → Cmd RegionList
unfolding load store set_next set_prev
region_list_append list reg =
    if list.first == null
    then (do
      set_prev reg null
      set_next reg null
      pure (record { first = reg; last = reg; iter = reg; partial_iter = 0 }))
    else (do
      set_next list.last reg
      set_prev reg list.last
      set_next reg null
      pure (record list { last = reg }))

unfoldable pub append_region : BlockAllocation → ℕ → ℕ → ℕ → Cmd BlockAllocation
unfolding malloc region_list_append
append_region alloc block len bg_num = do
  reg ← malloc (record { block = block; len = len; bg = bg_num; next = null; prev = null })
  list ← region_list_append alloc.list reg
  pure (record alloc { list = list })

-- `for (i = 0; reg != NULL; reg = reg->next) i++`
unfoldable pub num_loop : ℕ → Ptr → ℕ → Cmd ℕ
num_loop zero reg i = λ s. (spins, s)
num_loop (suc fuel) reg i =
    if reg == null then pure i else (do r ← load reg; num_loop fuel r.next (add32 i 1))

unfoldable pub block_allocation_num_regions : BlockAllocation → Cmd ℕ
unfolding num_loop load
block_allocation_num_regions alloc = with_fuel (λ fuel. num_loop fuel alloc.list.first 0)

-- `for (i = 0; reg != NULL; reg = reg->next) i += reg->len`
unfoldable pub len_loop : ℕ → Ptr → ℕ → Cmd ℕ
len_loop zero reg i = λ s. (spins, s)
len_loop (suc fuel) reg i =
    if reg == null then pure i else (do r ← load reg; len_loop fuel r.next (add32 i r.len))

unfoldable pub block_allocation_len : BlockAllocation → Cmd ℕ
unfolding len_loop load
block_allocation_len alloc = with_fuel (λ fuel. len_loop fuel alloc.list.first 0)

-- `for (; reg; reg = reg->next)` of `get_block` and `get_oob_block`.
unfoldable pub block_loop : ℕ → Ptr → ℕ → Cmd ℕ
block_loop zero reg block = λ s. (spins, s)
block_loop (suc fuel) reg block = if reg == null then pure allocate_failed else (do
  r ← load reg
  (if ltb block r.len
      then pure (add32 r.block block)
      else block_loop fuel r.next (sub32 block r.len)))

-- The two functions differ in the list.
unfoldable pub block_in : RegionList → ℕ → Cmd ℕ
unfolding block_loop load
block_in list block = with_fuel (λ fuel. block_loop fuel list.iter (add32 block list.partial_iter))

unfoldable pub get_block : BlockAllocation → ℕ → Cmd ℕ
unfolding block_in
get_block alloc block = block_in alloc.list block

unfoldable pub get_oob_block : BlockAllocation → ℕ → Cmd ℕ
unfolding block_in
get_oob_block alloc block = block_in alloc.oob_list block

unfoldable pub get_region : BlockAllocation → Cmd (ℕ × ℕ)
unfolding load
get_region alloc = do r ← load alloc.list.iter; pure (r.block, sub32 r.len alloc.list.partial_iter)

unfoldable pub get_next_region : BlockAllocation → Cmd BlockAllocation
unfolding load
get_next_region alloc = do
  r ← load alloc.list.iter
  let list = alloc.list
  pure (record alloc { list = record list { iter = r.next; partial_iter = 0 } })

unfoldable pub last_region : BlockAllocation → Bool
last_region alloc = alloc.list.iter == null

unfoldable pub rewind_alloc : BlockAllocation → BlockAllocation
rewind_alloc alloc =
    let list = alloc.list in
    record alloc { list = record list { iter = list.first; partial_iter = 0 } }
