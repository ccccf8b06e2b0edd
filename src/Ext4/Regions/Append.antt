-- ===== src/Ext4/Regions/Append.antt =====
-- `append_region` (ext4_utils/allocate.c) keeps a region list doubly linked.
use android_platform_system.Prelude.{
  ℕ, suc, ◌<◌, ◌≡◌, refl, true, false, arith, List, [], ◌∷◌, ◌++◌, some, ◌==◌, if◌then◌else◌, sym,
}
use android_platform_system.Ext4.Exit.{returns}
use android_platform_system.Ext4.Store.{
  Ptr, null, Region, Store, load, store, malloc, set_next, set_prev, update,
}
use android_platform_system.Ext4.Regions.{
  RegionList, BlockAllocation, append_region, region_list_append,
}
use android_platform_system.Ext4.Regions.Linked.{
  Node, last_at, IsList, last-old, last-cell, Extends, Linked-snoc,
}

abbrev put : Ptr → Region → Store → Store
put p r s = record s { cell = update s.cell p (some r) }

set_next-run :
    (p q : Ptr) (s : Store) (r : Region)
    → (p == null) ≡ false
    → s.cell p ≡ some r
    → set_next p q s ≡ (returns tt, put p (record r { next = q }) s)
unfolding set_next store load
set_next-run p q s r n c = rw (n, c, n, c)

set_prev-run :
    (p q : Ptr) (s : Store) (r : Region)
    → (p == null) ≡ false
    → s.cell p ≡ some r
    → set_prev p q s ≡ (returns tt, put p (record r { prev = q }) s)
unfolding set_prev store load
set_prev-run p q s r n c = rw (n, c, n, c)

module _ (s : Store) (r : Region) (b l g : ℕ) (q : Ptr) where
  -- The memory behind `malloc`, and behind each of the three writes.
  abbrev fresh_region : Region
  fresh_region = record { block = b; len = l; bg = g; next = null; prev = null }

  abbrev linked_region : Region
  linked_region = record fresh_region { prev = q }

  abbrev with_fresh : Store
  with_fresh = record s { cell = update s.cell s.fresh (some fresh_region); fresh = suc s.fresh }

  abbrev forward : Store
  forward = put q (record r { next = s.fresh }) with_fresh

  abbrev backward : Store
  backward = put s.fresh linked_region forward

  abbrev after_append : Store
  after_append = put s.fresh linked_region backward

  append_region-run :
      (alloc : BlockAllocation)
      → 0 < q
      → q < s.fresh
      → s.cell q ≡ some r
      → 0 < alloc.list.first
      → alloc.list.last ≡ q
      → append_region alloc b l g s
        ≡ (returns (record alloc { list = record alloc.list { last = s.fresh } }), after_append)
  unfolding append_region region_list_append malloc
  append_region-run alloc z o c p e =
      let a : (alloc.list.first == 0) ≡ false = ground arith in
      let d : (q == 0) ≡ false = ground arith in
      let h : (q == s.fresh) ≡ false = ground arith in
      let i : (s.fresh == 0) ≡ false = ground arith in
      let j : (s.fresh == s.fresh) ≡ true = ground arith in
      let k : (s.fresh == q) ≡ false = ground arith in
      let n = set_next-run q s.fresh with_fresh r d (rw h c) in
      let m = set_prev-run s.fresh q forward fresh_region i (rw (k, j)) in
      let o = set_next-run s.fresh null backward linked_region i (rw j) in rw (a, e, n, m, o)

  after-Extends :
      q < s.fresh
      → s.cell q ≡ some r
      → Extends s after_append q (record { at = s.fresh; block = b; len = l; bg = g })
  after-Extends o c0 =
      let h : (q == s.fresh) ≡ false = ground arith in
      let j : (s.fresh == s.fresh) ≡ true = ground arith in
      let i : (q == q) ≡ true = ground arith in
      record {
        at_fresh = refl;
        grown = refl;
        others = λ p m n. rw (m, n);
        at_last = λ r' c. let e : r ≡ r' = cc in rw (h, i, e);
        at_new = rw j;
      }

-- The first region of a list.
module _ (s : Store) (b l g : ℕ) where
  abbrev fresh_list : RegionList
  fresh_list = record { first = s.fresh; last = s.fresh; iter = s.fresh; partial_iter = 0 }

  abbrev after_first : Store
  after_first =
      let x : Region = record { block = b; len = l; bg = g; next = null; prev = null } in
      put s.fresh x (put s.fresh x (with_fresh s x b l g s.fresh))

  append_region-first :
      (alloc : BlockAllocation)
      → 0 < s.fresh
      → alloc.list.first ≡ null
      → append_region alloc b l g s ≡ (returns (record alloc { list = fresh_list }), after_first)
  unfolding append_region region_list_append malloc
  append_region-first alloc z e =
      let x : Region = record { block = b; len = l; bg = g; next = null; prev = null } in
      let i : (s.fresh == 0) ≡ false = ground arith in
      let j : (s.fresh == s.fresh) ≡ true = ground arith in
      let t = with_fresh s x b l g s.fresh in
      let n = set_prev-run s.fresh null t x i (rw j) in
      let m = set_next-run s.fresh null (put s.fresh x t) x i (rw j) in rw (e, n, m)

-- What `append_region` leaves: the list has the new region at its end, at a fresh address; the other
-- list of the allocation, the groups, the image and all memory but the new region and the one before
-- it stay; and the place of the iterator stays too, unless the list was empty, when it is the start
-- of the new region.
pub record Appends (alloc : BlockAllocation) (xs : List Node) (new : Node) (s : Store)
    : Type 0 where
  pub alloc' : BlockAllocation
  pub s' : Store
  pub list : IsList s' alloc'.list (xs ++ new ∷ [])
  pub oob_list : alloc'.oob_list ≡ alloc.oob_list
  pub iter : alloc'.list.iter ≡ (if alloc.list.first == null then new.at else alloc.list.iter)
  pub partial_iter :
      alloc'.list.partial_iter ≡ (if alloc.list.first == null then 0 else alloc.list.partial_iter)
  pub bgs : s'.bgs ≡ s.bgs
  pub image : s'.image ≡ s.image
  pub fresh : s'.fresh ≡ suc s.fresh
  pub others :
      (p : Ptr) → (p == new.at) ≡ false → (p == last_at null xs) ≡ false → s'.cell p ≡ s.cell p

last_at-snoc : (xs : List Node) (q : Ptr) (y : Node) → last_at q (xs ++ y ∷ []) ≡ y.at
last_at-snoc [] q y = refl
last_at-snoc (x ∷ xs) q y = last_at-snoc xs x.at y

-- A region appended to a doubly linked list is its new last one: `append_region` ends without a
-- fault, keeps the list well formed, takes one fresh address, and leaves the other list, the block
-- groups, the image and all other memory alone; the iterator with its place in a region stays, and is
-- at the start of the new region if the list was empty.
pub append_region-Appends :
    (alloc : BlockAllocation) (xs : List Node) (block len bg : ℕ) (s : Store)
    → IsList s alloc.list xs
    → (r : Appends alloc xs (record { at = s.fresh; block = block; len = len; bg = bg }) s)
      × (append_region alloc block len bg s ≡ (returns r.alloc', r.s'))
append_region-Appends alloc [] b l g s h =
    let j : (s.fresh == s.fresh) ≡ true = ground arith in
    let z : (0 == 0) ≡ true = refl in
    (
      record {
        alloc' = record alloc { list = fresh_list s b l g };
        s' = after_first s b l g;
        list = record {
          linked = (h.some_fresh, omega arith, tt, rw j, tt);
          first = refl;
          last = refl;
          some_fresh = omega arith;
        };
        oob_list = refl;
        iter = rw h.first;
        partial_iter = rw h.first;
        bgs = refl;
        image = refl;
        fresh = refl;
        others = λ p m n. rw m;
      },
      append_region-first s b l g alloc h.some_fresh h.first,
    )
append_region-Appends alloc (x ∷ xs) b l g s h =
    let (r, c) = last-cell xs s x null h.linked in
    let (z, o) = last-old xs s x null h.linked in
    let q = last_at x.at xs in
    let new : Node = record { at = s.fresh; block = b; len = l; bg = g } in
    let e = after-Extends s r b l g q o c in
    let t = after_append s r b l g q in
    let p : 0 < alloc.list.first = rw h.first (h.linked.0) in
    let a : (alloc.list.first == null) ≡ false = ground arith in
    (
      record {
        alloc' = record alloc { list = record alloc.list { last = s.fresh } };
        s' = t;
        list = record {
          linked = Linked-snoc s t new xs x null h.linked e;
          first = h.first;
          last = sym (last_at-snoc xs x.at new);
          some_fresh = omega arith;
        };
        oob_list = refl;
        iter = rw a;
        partial_iter = rw a;
        bgs = refl;
        image = refl;
        fresh = refl;
        others = λ p m n. rw (m, n);
      },
      append_region-run s r b l g q alloc z o c p h.last,
    )
