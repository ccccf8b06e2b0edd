-- ===== src/Ext4/Extents/Run.antt =====
-- A whole run of `do_inode_allocate_extents` (ext4_utils/extent.c) where one group holds the file.
use android_platform_system.Prelude.{
  ℕ, ◌+◌, ◌*◌, ◌^◌, ◌≤◌, ◌<◌, ◌≡◌, ◌⊎◌, inl, inr, refl, Bool, true, false, ltb, ◌==◌, add32, sub32,
  List, [], ◌∷◌, ◌++◌, some, length, arith, ◌∙◌,
}
use android_platform_system.Ext4.Exit.{returns}
use android_platform_system.Ext4.BlockGroup.{BlockGroupInfo, free_blocks}
use android_platform_system.Ext4.Geometry.{FsInfo}
use android_platform_system.Ext4.Groups.FirstFit.{AllGroups}
use android_platform_system.Ext4.Groups.Blocks.{Short, Chosen}
use android_platform_system.Ext4.Store.{Ptr, Region, Store, load, store, set_len, update}
use android_platform_system.Ext4.Regions.{BlockAllocation, rewind_alloc}
use android_platform_system.Ext4.Regions.Chain.{num_regions-and-len, Chain}
use android_platform_system.Ext4.Regions.Split.{
  on_group, free_blocks_of, reduce_loop, reduce_allocation,
}
use android_platform_system.Ext4.Allocation.{allocate_blocks}
use android_platform_system.Ext4.Allocation.OneGroup.{OneRegion, allocate_blocks-OneRegion}
use android_platform_system.Ext4.Extents.{
  Ext4Inode, blocks_for, with_sizes, write_inline, attach_extents, choose_extents,
  do_inode_allocate_extents,
}
use android_platform_system.Ext4.Extents.Lookup.{lookup_block, write_inline_lem}

on_group_middle :
    (before : List BlockGroupInfo) (bg : BlockGroupInfo) (behind : List BlockGroupInfo)
    (f : BlockGroupInfo → BlockGroupInfo)
    → on_group (length before) f (before ++ (bg ∷ behind)) ≡ some (before ++ (f bg ∷ behind))
on_group_middle [] bg behind f = refl
on_group_middle (b ∷ before) bg behind f = rw (on_group_middle before bg behind f)

abbrev region_at : ℕ → ℕ → ℕ → Region
region_at block len group = record { block = block; len = len; bg = group; next = 0; prev = 0 }

-- A store with an allocation of one region at `p`, and what `reduce_allocation` of one block makes
-- of it.
module _ (s : Store) (alloc : BlockAllocation) (p block n group : ℕ) (bgs' : List BlockGroupInfo)
    (live : (p == 0) ≡ false) (cell : s.cell p ≡ some (region_at block (n + 1) group))
    (last : alloc.list.last ≡ p) (pos : 0 < n) (small : n + 1 < 2 ^ 32)
    (freed : on_group group (λ bg. free_blocks bg 1) s.bgs ≡ some bgs') where
  abbrev reduced : Store
  reduced = record s { bgs = bgs'; cell = update s.cell p (some (region_at block n group)) }

  reduce_one : reduce_allocation alloc 1 s ≡ (returns alloc, reduced)
  unfolding reduce_allocation reduce_loop free_blocks_of set_len store load
  reduce_one =
      let a : ltb 1 (n + 1) ≡ true = ground arith in
      let b : sub32 (n + 1) 1 ≡ n = omega arith in
      rw (last, live, cell, a, freed, live, cell, live, cell, b)

  module _ (info : FsInfo) (force : Bool) (len : ℕ) (inode : Ext4Inode)
      (first : alloc.list.first ≡ p) (iter : alloc.list.iter ≡ p)
      (start : alloc.list.partial_iter ≡ 0) (one : 1 ≤ s.fresh) (short : n ≤ 2 ^ 15) where
    Chooses : Type 0
    unfolding choose_extents
    Chooses =
        (alloc' : BlockAllocation) × (inode' : Ext4Inode) × (choose_extents info force len n inode
            alloc s
          ≡ (returns (some (rewind_alloc alloc'), with_sizes info n len inode'), reduced))
        × (rewind_alloc alloc' ≡ rewind_alloc alloc)
        × ((i : ℕ) → i < n → lookup_block inode'.i_block i ≡ block + i)

    choose_one : Chooses
    unfolding Chooses choose_extents attach_extents
    choose_one =
        let r = region_at block n group in
        let rs : List Region = r ∷ [] in
        let live' : (alloc.list.iter == 0) ≡ false = rw iter live in
        let old : Chain s alloc.list.first (region_at block (n + 1) group ∷ []) =
          rw first (live, cell, refl) in
        let count =
          num_regions-and-len alloc (region_at block (n + 1) group ∷ []) s
            (record { chain = old; allocated = one }) (omega arith) (omega arith) in
        let j : (p == p) ≡ true = ground arith in
        let chain : Chain reduced alloc.list.iter rs = rw iter (live, rw j, refl) in
        let w =
          write_inline_lem info alloc rs inode reduced chain start one (omega arith) (short, tt) in
        let round : ((alloc' : BlockAllocation) × (inode' : Ext4Inode) × (write_inline info alloc 1
                  inode reduced
                ≡ (returns (alloc', inode'), reduced))
              × (rewind_alloc alloc' ≡ rewind_alloc alloc)
              × ((i : ℕ) → i < n → lookup_block inode'.i_block i ≡ block + i))
            → Chooses =
          λ x. (x.0, x.1, rw (count.0, reduce_one, x.2), x.3, x.4) in
        round (
          w.0,
          w.1,
          w.2,
          w.3,
          λ i h. let y : ltb i n ≡ true = ground arith in w.5 i (omega arith) ∙ rw y,
        )

-- The run took `n` blocks of the first group that has `n + 1` (the last one is given back), and the
-- inode maps the blocks of the file to them and has its size.
pub record InOneGroup (len n : ℕ) (s : Store) : Type 0 where
  pub alloc : BlockAllocation
  pub inode' : Ext4Inode
  pub s' : Store
  pub block : ℕ
  pub taken : List BlockGroupInfo
  pub chosen : Chosen (n + 1) s.bgs block taken
  pub given_back : s'.bgs ≡ chosen.before ++ (free_blocks chosen.taken 1 ∷ chosen.behind)
  pub blocks : (i : ℕ) → i < n → lookup_block inode'.i_block i ≡ block + i
  pub size : inode'.i_size_lo + 2 ^ 32 * inode'.i_size_high ≡ len
  pub others : (p : Ptr) → (p == s.fresh) ≡ false → s'.cell p ≡ s.cell p

module _ (info : FsInfo) (force : Bool) (inode : Ext4Inode) (len n : ℕ) (s : Store)
    (r : OneRegion (n + 1) s) (t : Store)
    (given_back : t.bgs ≡ r.groups.before ++ (free_blocks r.groups.taken 1 ∷ r.groups.behind))
    (others : (p : Ptr) → (p == s.fresh) ≡ false → t.cell p ≡ s.cell p)
    (b : blocks_for info.block_size len ≡ n) (small : n ≤ 2 ^ 15) (wide : len < 2 ^ 64) where
  finish :
      allocate_blocks force (n + 1) s ≡ (returns (some r.alloc), r.s')
      → (alloc' : BlockAllocation) (inode' : Ext4Inode)
      → choose_extents info force len n inode r.alloc r.s'
        ≡ (returns (some (rewind_alloc alloc'), with_sizes info n len inode'), t)
      → ((i : ℕ) → i < n → lookup_block inode'.i_block i ≡ r.block + i)
      → (q : InOneGroup len n s) × (do_inode_allocate_extents info force inode len s
          ≡ (returns (some q.alloc, q.inode'), q.s'))
  unfolding do_inode_allocate_extents
  finish e alloc' inode' c blocks =
      let m : add32 n 1 ≡ n + 1 = omega arith in
      (
        record {
          alloc = rewind_alloc alloc';
          inode' = with_sizes info n len inode';
          s' = t;
          block = r.block;
          taken = r.s'.bgs;
          chosen = r.groups;
          given_back = given_back;
          blocks = blocks;
          size = omega arith;
          others = others;
        },
        rw (b, m, e, b) c,
      )

-- Over groups that meet the invariant, for a file of `n` blocks, at least one and at most 2^15,
-- and where the next address is not NULL: either every group has fewer than `n + 1` free blocks, or
-- the run succeeds in the first group that has as many. Then the file has `n` of its blocks in a row,
-- to which the extent in the inode, as a reader of the format sees it, maps the blocks of the file,
-- and one block is given back.
pub do_inode_allocate_extents_lem :
    (info : FsInfo) (force : Bool) (blocks_per_group : ℕ) (limits : List ℕ) (inode : Ext4Inode)
    (len n : ℕ) (s : Store)
    → AllGroups blocks_per_group limits s.bgs
    → 0 < s.fresh
    → blocks_for info.block_size len ≡ n
    → 0 < n
    → n ≤ 2 ^ 15
    → len < 2 ^ 64
    → Short (n + 1) s.bgs
      ⊎ ((r : InOneGroup len n s) × (do_inode_allocate_extents info force inode len s
            ≡ (returns (some r.alloc, r.inode'), r.s')))
unfolding Chooses
do_inode_allocate_extents_lem info force blocks_per_group limits inode len n s a z b pos small
      wide =
    elim (allocate_blocks-OneRegion blocks_per_group force limits (n + 1) s a z) [
      | inl short ↦ inl short
      | inr (r, e) ↦
          let t = r.s' in
          let c : t.cell s.fresh ≡ some (region_at r.block (n + 1) r.group) = r.list.linked.3 in
          let bgs' = r.groups.before ++ (free_blocks r.groups.taken 1 ∷ r.groups.behind) in
          let freed : on_group r.group (λ bg. free_blocks bg 1) t.bgs ≡ some bgs' =
            rw (r.place, r.groups.now)
              (on_group_middle r.groups.before r.groups.taken r.groups.behind _) in
          let live : (s.fresh == 0) ≡ false = ground arith in
          let w =
            choose_one t r.alloc s.fresh r.block n r.group bgs' live c r.list.last pos (omega arith)
              freed info force len inode r.list.first (r.at_start.0) (r.at_start.1) (omega arith)
              (omega arith) in
          let t' =
            reduced t r.alloc s.fresh r.block n r.group bgs' live c r.list.last pos (omega arith)
              freed in
          inr (
            finish info force inode len n s r t' refl (λ p h. rw h (r.others p h)) b small wide e
              (w.0) (w.1) (w.2) (w.4))
    ]
