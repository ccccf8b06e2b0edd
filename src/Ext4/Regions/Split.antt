-- ===== src/Ext4/Regions/Split.antt =====
-- Splitting an allocation and giving blocks of it back (ext4_utils/allocate.c): `reduce_allocation`,
-- `reserve_oob_blocks` and what they call. A loop along a list has the fuel of Ext4/Regions.
use android_platform_system.Prelude.{
  ℕ, zero, suc, Bool, true, false, ◌&&◌, ◌||◌, ltb, leb, ◌==◌, if◌then◌else◌, add32, sub32, List,
  [], ◌∷◌, Option, none, some,
}
use android_platform_system.Ext4.Exit.{returns, faults, spins}
use android_platform_system.Ext4.BlockGroup.{BlockGroupInfo, free_blocks}
use android_platform_system.Ext4.Store.{
  Ptr, null, Cmd, pure, ◌>>=◌, ◌>>◌, load, store, malloc, free, set_next, set_len,
}
use android_platform_system.Ext4.Regions.{
  BlockAllocation, no_regions, with_fuel, region_list_remove, region_list_append,
}

-- `aux_info.bgs[i]` replaced by its value under a function, or nothing past the end of the array.
abbrev pub on_group :
    ℕ → (BlockGroupInfo → BlockGroupInfo) → List BlockGroupInfo → Option (List BlockGroupInfo)
on_group i f [] = none
on_group zero f (bg ∷ bgs) = some (f bg ∷ bgs)
on_group (suc i) f (bg ∷ bgs) = elim (on_group i f bgs) [
  | none ↦ none
  | some bgs' ↦ some (bg ∷ bgs')
]

abbrev pub put_groups : Option (List BlockGroupInfo) → Cmd (Unit {0})
put_groups none s = (faults, s)
put_groups (some bgs) s = (returns tt, record s { bgs = bgs })

-- `free_blocks(&aux_info.bgs[i], num)`
unfoldable pub free_blocks_of : ℕ → ℕ → Cmd (Unit {0})
free_blocks_of i num s = put_groups (on_group i (λ bg. free_blocks bg num) s.bgs) s

-- `while (len)` of `reduce_allocation`. A round that goes on frees a region.
unfoldable pub reduce_loop : ℕ → ℕ → BlockAllocation → Cmd BlockAllocation
unfolding free_blocks_of load store set_len set_next free
reduce_loop zero len alloc = λ s. (spins, s)
reduce_loop (suc fuel) len alloc = if len == 0 then pure alloc else (do
  last_reg ← load alloc.list.last
  (if ltb len last_reg.len
      then (do
        free_blocks_of last_reg.bg len
        set_len alloc.list.last (sub32 last_reg.len len)
        reduce_loop fuel 0 alloc)
      else (do
        free_blocks_of last_reg.bg last_reg.len
        (if last_reg.prev == null then pure tt else set_next last_reg.prev null)
        free alloc.list.last
        reduce_loop fuel (sub32 len last_reg.len)
            (if last_reg.prev == null then record alloc { list = no_regions } else alloc))))

unfoldable pub reduce_allocation : BlockAllocation → ℕ → Cmd BlockAllocation
unfolding reduce_loop
reduce_allocation alloc len = with_fuel (λ fuel. reduce_loop (suc fuel) len alloc)

-- `while (reg && len >= reg->len)` of `do_split_allocation`: the region reached, and what is left
-- of `len` there.
unfoldable pub seek_loop : ℕ → Ptr → ℕ → Cmd (Ptr × ℕ)
unfolding load
seek_loop zero reg len = λ s. (spins, s)
seek_loop (suc fuel) reg len = if reg == null then pure (reg, len) else (do
  r ← load reg
  (if leb r.len len then seek_loop fuel r.next (sub32 len r.len) else pure (reg, len)))

-- The part of `do_split_allocation` behind the loop.
unfoldable pub split_at : BlockAllocation → Ptr × ℕ → Cmd (Ptr × BlockAllocation)
unfolding load malloc set_next set_len
split_at alloc (reg, len) =
    if (reg == null) && ltb 0 len
    then pure (null, alloc)
    else if len == 0
    then pure (reg, alloc)
    else (do
      r ← load reg
      new ← malloc (record {
        block = add32 r.block len;
        len = sub32 r.len len;
        bg = r.bg;
        next = r.next;
        prev = reg;
      })
      set_next reg new
      set_len reg len
      pure (alloc.list.iter, record alloc { list = record alloc.list { iter = new } }))

unfoldable pub do_split_allocation : BlockAllocation → ℕ → Cmd (Ptr × BlockAllocation)
unfolding seek_loop split_at
do_split_allocation alloc len =
    with_fuel (λ fuel. seek_loop fuel alloc.list.iter len) >>= split_at alloc

unfoldable pub split_allocation : BlockAllocation → ℕ → Cmd (Ptr × BlockAllocation)
unfolding do_split_allocation
split_allocation alloc len = do
  first ← do_split_allocation alloc alloc.list.partial_iter
  middle ← do_split_allocation (first.1) len
  let list = middle.1.list
  pure (middle.0, record (middle.1) { list = record list { partial_iter = 0 } })

-- `while (oob && oob != alloc->list.iter)` of `reserve_oob_blocks`.
unfoldable pub move_loop : ℕ → Ptr → BlockAllocation → Cmd BlockAllocation
unfolding load region_list_remove region_list_append
move_loop zero oob alloc = λ s. (spins, s)
move_loop (suc fuel) oob alloc =
    if (oob == null) || (oob == alloc.list.iter) then pure alloc else (do
      r ← load oob
      list ← region_list_remove alloc.list oob
      oob_list ← region_list_append alloc.oob_list oob
      move_loop fuel r.next (record { list = list; oob_list = oob_list }))

-- `true` stands for 0, `false` for -1.
unfoldable pub reserve_oob_blocks : BlockAllocation → ℕ → Cmd (Bool × BlockAllocation)
unfolding split_allocation move_loop
reserve_oob_blocks alloc blocks = do
  p ← split_allocation alloc blocks
  (if p.0 == null
      then pure (false, p.1)
      else (do moved ← with_fuel (λ fuel. move_loop fuel (p.0) (p.1)); pure (true, moved)))

-- `while (reg)` of `free_alloc`.
unfoldable pub free_regions : ℕ → Ptr → Cmd (Unit {0})
unfolding load free
free_regions zero reg = λ s. (spins, s)
free_regions (suc fuel) reg =
    if reg == null then pure tt else (do r ← load reg; free reg; free_regions fuel r.next)

unfoldable pub free_alloc : BlockAllocation → Cmd (Unit {0})
unfolding free_regions
free_alloc alloc = do
  with_fuel (λ fuel. free_regions fuel alloc.list.first)
  with_fuel (λ fuel. free_regions fuel alloc.oob_list.first)
