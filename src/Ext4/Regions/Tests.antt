-- ===== src/Ext4/Regions/Tests.antt =====
-- Runs of the region lists (ext4_utils/allocate.c) on an allocation of two regions, and the theorems
-- at these inputs.
use android_platform_system.Prelude.{
  ℕ, true, List, ◌≡◌, refl, arith, [], ◌∷◌, none, some, ◌==◌, if◌then◌else◌,
}
use android_platform_system.Ext4.Exit.{returns}
use android_platform_system.Ext4.Store.{
  Store, Region, ◌>>=◌, store, load, malloc, set_next, set_prev,
}
use android_platform_system.Ext4.Regions.{
  BlockAllocation, create_allocation, append_region, get_block, rewind_alloc, region_list_append,
  block_loop, block_in, block_allocation_num_regions, block_allocation_len,
}
use android_platform_system.Ext4.Regions.Advance.{advance_blocks, advance_blocks_lem}
use android_platform_system.Ext4.Regions.Linked.{Node, IsList}
use android_platform_system.Ext4.Regions.Append.{Appends, append_region-Appends}
use android_platform_system.Ext4.Regions.Chain.{Holds, get_block-rewind_alloc, num_regions-and-len}

abbrev empty : Store
empty = record { bgs = []; cell = λ p. none; fresh = 1; image = λ b i. 0 }

abbrev pub first_region : Region
first_region = record { block = 100; len = 3; bg = 0; next = 2; prev = 0 }

abbrev pub second_region : Region
second_region = record { block = 200; len = 5; bg = 1; next = 0; prev = 1 }

abbrev pub two : Store
two = record {
  bgs = [];
  cell = λ p. if p == 1 then some first_region else if p == 2 then some second_region else none;
  fresh = 3;
  image = λ b i. 0;
}

abbrev pub alloc : BlockAllocation
alloc = record {
  list = record { first = 1; last = 2; iter = 2; partial_iter = 4 };
  oob_list = record { first = 0; last = 0; iter = 0; partial_iter = 0 };
}

-- Two regions appended to a new allocation, and the fifth block of it.
appended :
    ((do
      a ← append_region create_allocation 100 3 0
      b ← append_region a 200 5 1
      get_block (rewind_alloc b) 4)
      empty).0
    ≡ returns 201
unfolding append_region get_block rewind_alloc block_loop block_in malloc region_list_append
    set_next set_prev load store create_allocation
appended = refl

two-Holds : Holds two alloc.list (first_region ∷ second_region ∷ [])
two-Holds = record { chain = (refl, refl, (refl, refl, refl)); allocated = omega arith }

get_block-rewind_alloc_example : get_block (rewind_alloc alloc) 4 two ≡ (returns 201, two)
get_block-rewind_alloc_example =
    get_block-rewind_alloc alloc (first_region ∷ second_region ∷ []) two two-Holds 4 (omega arith)
      (omega arith, (omega arith, tt))

num_regions-and-len_example :
    (block_allocation_num_regions alloc two ≡ (returns 2, two))
    × (block_allocation_len alloc two ≡ (returns 8, two))
num_regions-and-len_example =
    num_regions-and-len alloc (first_region ∷ second_region ∷ []) two two-Holds (omega arith)
      (omega arith)

abbrev two_nodes : List Node
two_nodes =
    record { at = 1; block = 100; len = 3; bg = 0 }
    ∷ record { at = 2; block = 200; len = 5; bg = 1 }
    ∷ []

two-IsList : IsList two alloc.list two_nodes
two-IsList = record {
  linked = (omega arith, omega arith, (refl, tt), refl, (omega arith, omega arith, tt, refl, tt));
  first = refl;
  last = refl;
  some_fresh = omega arith;
}

append_region-Appends_example :
    (r : Appends alloc two_nodes (record { at = 3; block = 300; len = 7; bg = 1 }) two)
    × (append_region alloc 300 7 1 two ≡ (returns r.alloc', r.s'))
append_region-Appends_example = append_region-Appends alloc two_nodes 300 7 1 two two-IsList

-- The iterator stands before block 4 of the second region; nothing is left behind block 5.
advance_blocks_lem_example :
    (q : ℕ) × (advance_blocks alloc 1 two
      ≡ (returns (true, record alloc { list = record alloc.list { partial_iter = q } }), two))
advance_blocks_lem_example =
    advance_blocks_lem alloc (second_region ∷ []) 1 two (refl, refl, refl) (omega arith)
      (omega arith) (omega arith) (omega arith)
