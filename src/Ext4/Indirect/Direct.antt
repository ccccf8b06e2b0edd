-- ===== src/Ext4/Indirect/Direct.antt =====
-- The block numbers that the direct blocks and an indirect block hold (ext4_utils/indirect.c).
use android_platform_system.Prelude.{
  ℕ, zero, suc, ◌+◌, ◌-◌, ◌^◌, ◌≤◌, ◌<◌, ◌≡◌, inl, inr, refl, Bool, true, false, ◌&&◌, ltb, leb,
  ◌==◌, if◌then◌else◌, add32, sub32, List, [], ◌∷◌, length, arith, Bool-cases, ◌∙◌,
}
use android_platform_system.Ext4.Exit.{returns}
use android_platform_system.Ext4.Store.{Store, Region, Ptr, set_word}
use android_platform_system.Ext4.Regions.{BlockAllocation, get_block}
use android_platform_system.Ext4.Regions.Advance.{Inside, advance_blocks_lem}
use android_platform_system.Ext4.Indirect.Reserve.{min}
use android_platform_system.Ext4.Regions.Chain.{total, Chain, Fits, nth_block, block_loop-Chain}
use android_platform_system.Ext4.Extents.{Ext4Inode}
use android_platform_system.Ext4.Indirect.Fill.{fill_loop, fill_indirect_block}
use android_platform_system.Ext4.Indirect.Attach.{
  Attach, inode_attach_direct_blocks, direct_loop, set_i_block,
}

-- The regions `rs` stand behind the allocation's iterator, and it is in front of block `at` of them.
pub record Points (s : Store) (alloc : BlockAllocation) (rs : List Region) (at : ℕ) : Type 0 where
  pub chain : Chain s alloc.list.iter rs
  pub fits : Fits rs
  pub allocated : length rs ≤ s.fresh
  pub position : alloc.list.partial_iter ≡ at

get_block-Points :
    (s : Store) (alloc : BlockAllocation) (rs : List Region) (at n : ℕ)
    → Points s alloc rs at
    → at + n < 2 ^ 32
    → get_block alloc n s ≡ (returns (nth_block rs (at + n)), s)
unfolding get_block
get_block-Points s alloc rs at n h b =
    let a : add32 n alloc.list.partial_iter ≡ at + n = omega (arith, h.position) in
    rw a (block_loop-Chain rs s.fresh alloc.list.iter (at + n) s h.chain h.fits h.allocated b)

Chain-image :
    (rs : List Region) (p : Ptr) (s : Store) (image : ℕ → ℕ → ℕ)
    → Chain s p rs
    → Chain (record s { image = image }) p rs
Chain-image [] p s image c = c
Chain-image (r ∷ rs) p s image (n, c, cs) = (n, c, Chain-image rs r.next s image cs)

-- The numbers of the blocks from `at` on, in the places from `i` on.
abbrev pub with_blocks : List Region → ℕ → ℕ → ℕ → (ℕ → ℕ) → ℕ → ℕ
with_blocks rs at i n words j = if leb i j && ltb j (i + n) then nth_block rs (at + j) else words j

with_blocks-suc :
    (rs : List Region) (at i n : ℕ) (words : ℕ → ℕ) (j : ℕ)
    → with_blocks rs at (suc i) n (λ j'. if j' == i then nth_block rs (at + i) else words j') j
      ≡ with_blocks rs at i (suc n) words j
with_blocks-suc rs at i n words j = elim (Bool-cases (j == i)) [
  | inl y ↦ let e : j ≡ i = ground arith in rw e (ground arith)
  | inr z ↦ ground arith
]

module _ (alloc : BlockAllocation) (rs : List Region) (at : ℕ) where
  Directed : ℕ → ℕ → Ext4Inode → Store → Type 0
  unfolding direct_loop
  Directed n i inode s =
      (inode' : Ext4Inode) × (direct_loop n i alloc inode s ≡ (returns inode', s))
      × ((j : ℕ) → inode'.i_block j ≡ with_blocks rs at i n inode.i_block j)

  direct_loop-Directed :
      (n i : ℕ) (inode : Ext4Inode) (s : Store)
      → Points s alloc rs at
      → at + i + n < 2 ^ 32
      → Directed n i inode s
  unfolding Directed direct_loop
  direct_loop-Directed zero i inode s h b = (inode, refl, λ j. ground arith)
  direct_loop-Directed (suc n) i inode s h b =
      let g = get_block-Points s alloc rs at i h (omega arith) in
      let next = set_i_block i (nth_block rs (at + i)) inode in
      let round : Directed n (suc i) next s → Directed (suc n) i inode s =
        λ x. (x.0, rw g (x.1), λ j. x.2 j ∙ with_blocks-suc rs at i n inode.i_block j) in
      round (direct_loop-Directed n (suc i) next s h (omega arith))

  Filled : ℕ → ℕ → ℕ → Store → Type 0
  unfolding fill_loop
  Filled block n i s =
      (image' : ℕ → ℕ → ℕ) × (fill_loop block n i alloc s
        ≡ (returns tt, record s { image = image' }))
      × ((j : ℕ) → image' block j ≡ with_blocks rs at i n (s.image block) j)
      × ((b : ℕ) → (b == block) ≡ false → (j : ℕ) → image' b j ≡ s.image b j)

  fill_loop-Filled :
      (block n i : ℕ) (s : Store) → Points s alloc rs at → at + i + n < 2 ^ 32 → Filled block n i s
  unfolding Filled fill_loop set_word
  fill_loop-Filled block zero i s h b = (s.image, refl, λ j. ground arith, λ b n j. refl)
  fill_loop-Filled block (suc n) i s h b =
      let v = nth_block rs (at + i) in
      let g = get_block-Points s alloc rs at i h (omega arith) in
      let e : (block == block) ≡ true = ground arith in
      let next : Store = record s {
        image = λ b' i'. if (b' == block) && (i' == i) then v else s.image b' i';
      } in
      let h' : Points next alloc rs at = record {
        chain = Chain-image rs alloc.list.iter s next.image h.chain;
        fits = h.fits;
        allocated = h.allocated;
        position = h.position;
      } in
      let round : Filled block n (suc i) next → Filled block (suc n) i s = λ x. (
        x.0,
        rw g (x.1),
        λ j. (x.2 j ∙ rw e) ∙ with_blocks-suc rs at i n (s.image block) j,
        λ b' m j. x.3 b' m j ∙ rw m,
      ) in
      round (fill_loop-Filled block n (suc i) next h' (omega arith))

-- Where the allocation points to block `at` of regions whose numbers fit in a `u32`,
-- `fill_indirect_block` writes the numbers of the next `len` blocks to the first words of the buffer,
-- and changes nothing else.
pub fill_indirect_block_lem :
    (block len at : ℕ) (alloc : BlockAllocation) (rs : List Region) (s : Store)
    → Points s alloc rs at
    → at + len < 2 ^ 32
    → (image' : ℕ → ℕ → ℕ) × (fill_indirect_block block len alloc s
        ≡ (returns tt, record s { image = image' }))
      × ((j : ℕ) → image' block j ≡ (if ltb j len then nth_block rs (at + j) else s.image block j))
      × ((b : ℕ) → (b == block) ≡ false → (j : ℕ) → image' b j ≡ s.image b j)
unfolding fill_indirect_block Filled
fill_indirect_block_lem block len at alloc rs s h b =
    let x = fill_loop-Filled alloc rs at block len 0 s h (omega arith) in
    (x.0, x.1, λ j. x.2 j ∙ ground arith, x.3)

-- With enough blocks left behind block `at`, and positions below 2^31, `inode_attach_direct_blocks`
-- succeeds: the first (at most 12) words of `i_block` hold the numbers of the next blocks, the others
-- stay, and so many blocks fewer are left to attach. The allocation changes in `partial_iter` only.
pub inode_attach_direct_blocks_lem :
    (force : Bool) (a : Attach) (rs : List Region) (at : ℕ) (s : Store)
    → Points s a.alloc rs at
    → Inside a.alloc.list.partial_iter rs
    → at + total rs < 2 ^ 31
    → at + min a.block_len 12 ≤ total rs
    → a.block_len < 2 ^ 32
    → (inode' : Ext4Inode) × (q : ℕ) × (inode_attach_direct_blocks force a s ≡ (
      returns (
        true,
        record {
          inode = inode';
          alloc = record a.alloc { list = record a.alloc.list { partial_iter = q } };
          block_len = a.block_len - min a.block_len 12;
        },
      ),
      s,
    ))
      × ((j : ℕ)
          → inode'.i_block j
            ≡ (if ltb j (min a.block_len 12) then nth_block rs (at + j) else a.inode.i_block j))
unfolding inode_attach_direct_blocks Directed
inode_attach_direct_blocks_lem force a rs at s h i t e u =
    let n = min a.block_len 12 in
    let small : n ≤ 12 = ground arith in
    let less : n ≤ a.block_len = ground arith in
    let x = direct_loop-Directed a.alloc rs at n 0 a.inode s h (omega arith) in
    let y =
      advance_blocks_lem a.alloc rs n s h.chain h.allocated i (omega arith)
        (omega (arith, h.position)) in
    let v : leb (a.alloc.list.partial_iter + n) (total rs) ≡ true = ground (arith, h.position) in
    let w : sub32 a.block_len n ≡ a.block_len - n = omega arith in
    (x.0, y.0, rw (x.1, y.1, v, w), λ j. x.2 j ∙ ground arith)
