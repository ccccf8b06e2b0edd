-- ===== src/Ext4/Regions/Chain.antt =====
-- What a region list in memory stands for, and what the walks along it (ext4_utils/allocate.c) give.
use android_platform_system.Prelude.{
  ℕ, zero, suc, ◌+◌, ◌-◌, ◌^◌, ◌≤◌, ◌<◌, ◌≡◌, inl, inr, false, length, arith, ltb, add32, sub32,
  List, [], ◌∷◌, some, Bool-cases, ◌==◌, if◌then◌else◌,
}
use android_platform_system.Ext4.Exit.{returns}
use android_platform_system.Ext4.Groups.{allocate_failed}
use android_platform_system.Ext4.Store.{Ptr, null, Region, Store, load}
use android_platform_system.Ext4.Regions.{
  RegionList, BlockAllocation, block_loop, num_loop, len_loop, get_block, rewind_alloc,
  block_allocation_num_regions, block_allocation_len, block_in,
}

-- From `p` on, the memory holds exactly these regions, each the `next` of the one before.
abbrev pub Chain : Store → Ptr → List Region → Type 0
Chain s p [] = p ≡ null
Chain s p (r ∷ rs) = ((p == null) ≡ false) × (s.cell p ≡ some r) × Chain s r.next rs

-- `rs` are the regions of a list; each was allocated, so at most `fresh` of them.
pub record Holds (s : Store) (list : RegionList) (rs : List Region) : Type 0 where
  pub chain : Chain s list.first rs
  pub allocated : length rs ≤ s.fresh

-- The sum of the lengths.
abbrev pub total : List Region → ℕ
total [] = 0
total (r ∷ rs) = r.len + total rs

-- Block `n` of the regions laid end to end.
abbrev pub nth_block : List Region → ℕ → ℕ
nth_block [] n = allocate_failed
nth_block (r ∷ rs) n = if ltb n r.len then r.block + n else nth_block rs (n - r.len)

-- Block numbers fit in a `u32`.
abbrev pub Fits : List Region → Type 0
Fits [] = Unit
Fits (r ∷ rs) = (r.block + r.len < 2 ^ 32) × Fits rs

pub load-cell :
    (p : Ptr) (s : Store) (r : Region)
    → (p == null) ≡ false
    → s.cell p ≡ some r
    → load p s ≡ (returns r, s)
unfolding load
load-cell p s r n c = rw (n, c)

pub block_loop-Chain :
    (rs : List Region) (fuel p n : ℕ) (s : Store)
    → Chain s p rs
    → Fits rs
    → length rs ≤ fuel
    → n < 2 ^ 32
    → block_loop (suc fuel) p n s ≡ (returns (nth_block rs n), s)
unfolding block_loop
block_loop-Chain [] fuel p n s c f e b = rw c
block_loop-Chain (r ∷ rs) zero p n s c f e b = ground arith
block_loop-Chain (r ∷ rs) (suc fuel) p n s (nn, c, cs) (f, fs) e b =
    rw (nn, load-cell p s r nn c)
      (elim (Bool-cases (ltb n r.len)) [
        | inl y ↦ let a : add32 r.block n ≡ r.block + n = ground arith in rw (y, a)
        | inr m ↦
            let a : sub32 n r.len ≡ n - r.len = ground arith in
            rw (m, a)
              (block_loop-Chain rs fuel r.next (n - r.len) s cs fs (omega arith) (omega arith))
      ])

num_loop-Chain :
    (rs : List Region) (fuel p i : ℕ) (s : Store)
    → Chain s p rs
    → length rs ≤ fuel
    → i + length rs < 2 ^ 32
    → num_loop (suc fuel) p i s ≡ (returns (i + length rs), s)
unfolding num_loop
num_loop-Chain [] fuel p i s c e b = let z : i + 0 ≡ i = omega arith in rw (c, z)
num_loop-Chain (r ∷ rs) zero p i s c e b = ground arith
num_loop-Chain (r ∷ rs) (suc fuel) p i s (nn, c, cs) e b =
    let a : add32 i 1 ≡ i + 1 = omega arith in
    let d : i + suc (length rs) ≡ i + 1 + length rs = omega arith in
    rw (nn, load-cell p s r nn c, a, d)
      (num_loop-Chain rs fuel r.next (i + 1) s cs (omega arith) (omega arith))

len_loop-Chain :
    (rs : List Region) (fuel p i : ℕ) (s : Store)
    → Chain s p rs
    → length rs ≤ fuel
    → i + total rs < 2 ^ 32
    → len_loop (suc fuel) p i s ≡ (returns (i + total rs), s)
unfolding len_loop
len_loop-Chain [] fuel p i s c e b = let z : i + 0 ≡ i = omega arith in rw (c, z)
len_loop-Chain (r ∷ rs) zero p i s c e b = ground arith
len_loop-Chain (r ∷ rs) (suc fuel) p i s (nn, c, cs) e b =
    let a : add32 i r.len ≡ i + r.len = omega arith in
    let d : i + (r.len + total rs) ≡ i + r.len + total rs = omega arith in
    rw (nn, load-cell p s r nn c, a, d)
      (len_loop-Chain rs fuel r.next (i + r.len) s cs (omega arith) (omega arith))

module _ (alloc : BlockAllocation) (rs : List Region) (s : Store) (h : Holds s alloc.list rs) where
  -- After `rewind_alloc`, and for an index and block numbers that fit in a `u32`, `get_block` gives
  -- that block of the regions laid end to end, or `EXT4_ALLOCATE_FAILED` where they end before it;
  -- it ends, and the store stays as it is.
  pub get_block-rewind_alloc :
      (n : ℕ)
      → n < 2 ^ 32
      → Fits rs
      → get_block (rewind_alloc alloc) n s ≡ (returns (nth_block rs n), s)
  unfolding get_block block_in rewind_alloc
  get_block-rewind_alloc n b f =
      let a : add32 n 0 ≡ n = omega arith in
      rw a (block_loop-Chain rs s.fresh alloc.list.first n s h.chain f h.allocated b)

  -- For fewer than 2^32 blocks in fewer than 2^32 regions, `block_allocation_num_regions` counts
  -- the regions and `block_allocation_len` the blocks; both end, and the store stays as it is.
  pub num_regions-and-len :
      length rs < 2 ^ 32
      → total rs < 2 ^ 32
      → (block_allocation_num_regions alloc s ≡ (returns (length rs), s))
        × (block_allocation_len alloc s ≡ (returns (total rs), s))
  unfolding block_allocation_num_regions block_allocation_len
  num_regions-and-len b t =
      let z : 0 + length rs ≡ length rs = omega arith in
      let y : 0 + total rs ≡ total rs = omega arith in
      let num = num_loop-Chain rs s.fresh alloc.list.first 0 s h.chain h.allocated (rw z b) in
      let len = len_loop-Chain rs s.fresh alloc.list.first 0 s h.chain h.allocated (rw y t) in
      (rw z at num, rw y at len)
