-- ===== src/Ext4/BlockGroup/Release.antt =====
-- `free_blocks` (ext4_utils/allocate.c): the last blocks handed out go back.
use android_platform_system.Prelude.{
  ℕ, zero, suc, ◌+◌, ◌-◌, ◌*◌, ◌^◌, ◌≤◌, ◌<◌, ◌≡◌, refl, Bool, true, not, ◌&&◌, length, arith, ltb,
  leb, add32, sub32,
}
use android_platform_system.Ext4.Bitmap.{Bitmap, is_set, lower, Bytes}
use android_platform_system.Ext4.Bitmap.Laws.{is_set-lower, Bytes-lower, length-lower}
use android_platform_system.Ext4.Exit.{returns}
use android_platform_system.Ext4.BlockGroup.{BlockGroupInfo, free_loop, free_blocks, reserve_blocks}
use android_platform_system.Ext4.BlockGroup.Reserve.{
  IsGroup, reserved, reserved-IsGroup, reserve_next,
}

-- `bm'` is `bm` with the `n` bits below `top` cleared.
record Lowered (bm : Bitmap) (top n : ℕ) (bm' : Bitmap) : Type 0 where
  marks : (k : ℕ) → is_set bm' k ≡ (is_set bm k && not (leb (top - n) k && ltb k top))
  bytes : Bytes bm'
  size : length bm' ≡ length bm

free_loop_lem :
    (n top : ℕ) (bm : Bitmap)
    → Bytes bm
    → 8 * length bm ≤ 2 ^ 31
    → n ≤ top
    → top ≤ 8 * length bm
    → Lowered bm top n (free_loop n (sub32 top 1) bm)
unfolding free_loop
free_loop_lem zero top bm b s h u = record { marks = λ k. ground arith; bytes = b; size = refl }
free_loop_lem (suc n) top bm b s h u =
    let e : sub32 top 1 ≡ top - 1 = omega arith in
    let p : top - 1 < 8 * length bm = omega arith in
    let l : length (lower bm (top - 1)) ≡ length bm = length-lower bm (top - 1) in
    let r =
      free_loop_lem n (top - 1) (lower bm (top - 1)) (Bytes-lower bm b (top - 1) p) (rw l s)
        (omega arith) (omega arith) in
    rw e (record {
      marks = λ k. ground (arith, r.marks k, is_set-lower bm b (top - 1) p k);
      bytes = r.bytes;
      size = omega (arith, r.size, l);
    })

module _ (blocks_per_group limit : ℕ) (bg : BlockGroupInfo) (num : ℕ)
    (g : IsGroup blocks_per_group limit bg) where
  lowered :
      num ≤ bg.first_free_block
      → Lowered bg.block_bitmap bg.first_free_block num (free_blocks bg num).block_bitmap
  unfolding free_blocks
  lowered h =
      free_loop_lem num bg.first_free_block bg.block_bitmap g.bytes g.small h
        (omega (arith, g.free, g.limit_in, g.room))

  -- Giving back the last `num` blocks in front of `first_free_block` keeps the invariant of the
  -- group with the same limit, and moves `first_free_block` back by `num`.
  pub free_blocks-IsGroup :
      num ≤ bg.first_free_block
      → IsGroup blocks_per_group limit (free_blocks bg num)
        × ((free_blocks bg num).first_free_block ≡ bg.first_free_block - num)
        × ((free_blocks bg num).free_blocks ≡ bg.free_blocks + num)
  unfolding free_blocks
  free_blocks-IsGroup h =
      let w = lowered h in
      let a : add32 bg.free_blocks num ≡ bg.free_blocks + num =
        omega (arith, g.free, g.limit_in, g.room, g.small) in
      let s : sub32 bg.first_free_block num ≡ bg.first_free_block - num =
        omega (arith, g.free, g.limit_in, g.room, g.small) in
      (
        record {
          bytes = w.bytes;
          room = omega (arith, w.size, g.room);
          small = omega (arith, w.size, g.small);
          limit_in = g.limit_in;
          numbered = g.numbered;
          free = omega (arith, g.free, a, s);
          used = λ k u. rw s (ground (arith, w.marks k, g.used k u, g.free));
        },
        s,
        a,
      )

module _ (blocks_per_group limit : ℕ) (bg : BlockGroupInfo) (num : ℕ)
    (g : IsGroup blocks_per_group limit bg) where
  -- Reserving the next `num` free blocks of a group and giving them back restores the counters and
  -- every bit of the block bitmap.
  pub free_blocks-reserve_blocks :
      (force : Bool)
      → num ≤ bg.free_blocks
      → (bg' : BlockGroupInfo) × (reserve_blocks force bg bg.first_free_block num
          ≡ (returns true, bg'))
        × ((free_blocks bg' num).free_blocks ≡ bg.free_blocks)
        × ((free_blocks bg' num).first_free_block ≡ bg.first_free_block)
        × ((k : ℕ) → is_set (free_blocks bg' num).block_bitmap k ≡ is_set bg.block_bitmap k)
  free_blocks-reserve_blocks force h =
      let (bm, e, f) = reserve_next blocks_per_group limit force bg num g h in
      let bg' : BlockGroupInfo = reserved bg bg.first_free_block num bm in
      let g' : IsGroup blocks_per_group limit bg' =
        reserved-IsGroup blocks_per_group limit bg num bm g h f in
      let le : num ≤ bg'.first_free_block = ground arith in
      let (_, x, y) = free_blocks-IsGroup blocks_per_group limit bg' num g' le in
      let w = lowered blocks_per_group limit bg' num g' le in
      (
        bg',
        e,
        ground (arith, y),
        ground (arith, x),
        λ k. ground (arith, w.marks k, f.marks k, f.clear k),
      )
