-- ===== src/Ext4/Allocation/OneGroup.antt =====
-- `allocate_blocks` (ext4_utils/allocate.c) where one group has room for all blocks.
use android_platform_system.Prelude.{
  ℕ, suc, ◌<◌, ◌≡◌, ◌⊎◌, inl, inr, refl, length, List, [], ◌∷◌, Bool, true, false, some, ◌==◌,
  arith, if◌then◌else◌,
}
use android_platform_system.Ext4.Exit.{returns}
use android_platform_system.Ext4.Groups.{first_group}
use android_platform_system.Ext4.Groups.FirstFit.{AllGroups, first_group-FirstFit}
use android_platform_system.Ext4.Groups.Blocks.{Short, Chosen, FirstFit-Chosen}
use android_platform_system.Ext4.Store.{Ptr, null, Store, malloc}
use android_platform_system.Ext4.Regions.{BlockAllocation, create_allocation}
use android_platform_system.Ext4.Regions.Linked.{IsList}
use android_platform_system.Ext4.Allocation.{
  region_of, ext4_allocate_contiguous_blocks, do_allocate, allocate_blocks,
}

-- An allocation of one region: `len` blocks from the first group that has them, at a fresh address,
-- with nothing else in memory changed.
pub record OneRegion (len : ℕ) (s : Store) : Type 0 where
  pub alloc : BlockAllocation
  pub s' : Store
  pub block : ℕ
  pub group : ℕ
  pub list :
      IsList s' alloc.list (record { at = s.fresh; block = block; len = len; bg = group } ∷ [])
  pub no_oob : alloc.oob_list.first ≡ null
  pub groups : Chosen len s.bgs block s'.bgs
  pub place : group ≡ length groups.before
  pub at_start : (alloc.list.iter ≡ s.fresh) × (alloc.list.partial_iter ≡ 0)
  pub grown : s'.fresh ≡ suc s.fresh
  pub others : (p : Ptr) → (p == s.fresh) ≡ false → s'.cell p ≡ s.cell p

-- Over groups that meet the invariant, and where the next address is not NULL, either every group
-- has fewer than `len` free blocks, or `allocate_blocks` takes the first group that has as many, and
-- returns an allocation of exactly one region, of these blocks.
pub allocate_blocks-OneRegion :
    (blocks_per_group : ℕ) (force : Bool) (limits : List ℕ) (len : ℕ) (s : Store)
    → AllGroups blocks_per_group limits s.bgs
    → 0 < s.fresh
    → Short len s.bgs
      ⊎ ((r : OneRegion len s) × (allocate_blocks force len s ≡ (returns (some r.alloc), r.s')))
unfolding allocate_blocks do_allocate ext4_allocate_contiguous_blocks region_of malloc
    create_allocation
allocate_blocks-OneRegion blocks_per_group force limits len s a z =
    elim (FirstFit-Chosen len 0 s.bgs (first_group force len 0 s.bgs)
      (first_group-FirstFit blocks_per_group force len 0 limits s.bgs a).0) [
        | inl (e, n) ↦ inl n
        | inr (b, j, e, c, p) ↦
            let i : (s.fresh == 0) ≡ false = ground arith in
            let k : (s.fresh == s.fresh) ≡ true = ground arith in
            inr (
              record {
                alloc = record create_allocation {
                  list = record {
                    first = s.fresh;
                    last = s.fresh;
                    iter = s.fresh;
                    partial_iter = 0;
                  };
                };
                s' = record s {
                  bgs = (first_group force len 0 s.bgs).1;
                  cell = λ q.
                      if q == s.fresh
                      then some (record { block = b; len = len; bg = j; next = 0; prev = 0 })
                      else s.cell q;
                  fresh = suc s.fresh;
                };
                block = b;
                group = j;
                list = record {
                  linked = (z, omega arith, tt, rw k, tt);
                  first = refl;
                  last = refl;
                  some_fresh = omega arith;
                };
                no_oob = refl;
                groups = c;
                place = omega (arith, p);
                at_start = (refl, refl);
                grown = refl;
                others = λ p m. rw m;
              },
              rw (e, i, i),
            )
      ]
