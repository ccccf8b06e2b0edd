-- ===== src/Ext4/Inodes/Laws.antt =====
-- Inode numbers are handed out in order, each once (ext4_utils/allocate.c).
use android_platform_system.Prelude.{
  ℕ, zero, suc, ◌+◌, ◌-◌, ◌*◌, ◌^◌, ◌≤◌, ◌<◌, ◌≡◌, refl, true, false, ◌&&◌, ◌||◌, length, arith,
  ltb, leb, add32, sub32,
}
use android_platform_system.Ext4.Bitmap.{Bitmap, is_set, Bytes, raise}
use android_platform_system.Ext4.Bitmap.Laws.{is_set-raise, Bytes-raise, length-raise}
use android_platform_system.Ext4.BlockGroup.{BlockGroupInfo}
use android_platform_system.Ext4.Groups.{allocate_failed}
use android_platform_system.Ext4.Inodes.{inode_loop, reserve_inodes}

-- `bm'` is `bm` with the `n` bits from `start` on set.
record Raised (bm : Bitmap) (start n : ℕ) (bm' : Bitmap) : Type 0 where
  marks : (k : ℕ) → is_set bm' k ≡ (is_set bm k || (leb start k && ltb k (start + n)))
  bytes : Bytes bm'
  size : length bm' ≡ length bm

inode_loop_lem :
    (n i first : ℕ) (bm : Bitmap)
    → Bytes bm
    → 8 * length bm ≤ 2 ^ 31
    → 0 < first
    → first - 1 + i + n ≤ 8 * length bm
    → Raised bm (first - 1 + i) n (inode_loop n i first bm)
unfolding inode_loop
inode_loop_lem zero i first bm b s p h = record {
  marks = λ k. ground arith;
  bytes = b;
  size = refl;
}
inode_loop_lem (suc n) i first bm b s p h =
    let x : add32 i 1 ≡ i + 1 = omega arith in
    let bit : ℕ = first - 1 + i in
    let y : sub32 (add32 first i) 1 ≡ bit = omega arith in
    let q : bit < 8 * length bm = omega arith in
    let l : length (raise bm bit) ≡ length bm = length-raise bm bit in
    let r =
      inode_loop_lem n (i + 1) first (raise bm bit) (Bytes-raise bm b bit q) (rw l s) p
        (omega arith) in
    rw (x, y)
      (record {
        marks = λ k. ground (arith, r.marks k, is_set-raise bm b bit q k);
        bytes = r.bytes;
        size = omega (arith, r.size, l);
      })

-- The inodes of a group up to `first_free_inode` (which counts from 1) are in use, the others free.
pub record IsInodes (inodes_per_group : ℕ) (bg : BlockGroupInfo) : Type 0 where
  pub bytes : Bytes bg.inode_bitmap
  pub room : inodes_per_group ≤ 8 * length bg.inode_bitmap
  pub small : 8 * length bg.inode_bitmap ≤ 2 ^ 31
  pub first : 0 < bg.first_free_inode
  pub free : bg.first_free_inode + bg.free_inodes ≡ inodes_per_group + 1
  pub used :
      (k : ℕ) → k < inodes_per_group → is_set bg.inode_bitmap k ≡ ltb (k + 1) bg.first_free_inode

module _ (inodes_per_group : ℕ) (bg : BlockGroupInfo) (num : ℕ) (g : IsInodes inodes_per_group bg)
    (h : num ≤ bg.free_inodes) where
  pub reserve_inodes-marks :
      (k : ℕ)
      → is_set (reserve_inodes bg num).1.inode_bitmap k ≡ (
          is_set bg.inode_bitmap k
          || (leb (bg.first_free_inode - 1) k && ltb k (bg.first_free_inode - 1 + num)))
  unfolding reserve_inodes
  reserve_inodes-marks k =
      let n : ltb bg.free_inodes num ≡ false = ground arith in
      let r =
        inode_loop_lem num 0 bg.first_free_inode bg.inode_bitmap g.bytes g.small g.first
          (omega (arith, g.free, g.room, g.first)) in
      rw n (ground (arith, r.marks k))

  -- A group with `num` free inodes gives the number of its first free one and marks the `num` next
  -- as used: the invariant is kept, and the counters move by `num`.
  pub reserve_inodes-IsInodes :
      ((reserve_inodes bg num).0 ≡ bg.first_free_inode)
      × ((reserve_inodes bg num).1.first_free_inode ≡ bg.first_free_inode + num)
      × ((reserve_inodes bg num).1.free_inodes ≡ bg.free_inodes - num)
      × ((reserve_inodes bg num).1.block_bitmap ≡ bg.block_bitmap)
      × IsInodes inodes_per_group (reserve_inodes bg num).1
  unfolding reserve_inodes
  reserve_inodes-IsInodes =
      let n : ltb bg.free_inodes num ≡ false = ground arith in
      let x : add32 bg.first_free_inode num ≡ bg.first_free_inode + num =
        omega (arith, g.free, g.room, g.small) in
      let y : sub32 bg.free_inodes num ≡ bg.free_inodes - num =
        omega (arith, g.free, g.room, g.small) in
      let r =
        inode_loop_lem num 0 bg.first_free_inode bg.inode_bitmap g.bytes g.small g.first
          (omega (arith, g.free, g.room, g.first)) in
      rw (n, x, y)
        (
          refl,
          refl,
          refl,
          refl,
          record {
            bytes = r.bytes;
            room = omega (arith, r.size, g.room);
            small = omega (arith, r.size, g.small);
            first = omega (arith, g.first);
            free = omega (arith, g.free);
            used = λ k u. ground (arith, r.marks k, g.used k u, g.first);
          },
        )

-- A group with no free inode refuses, and stays as it is.
pub reserve_inodes_none :
    (bg : BlockGroupInfo) → bg.free_inodes ≡ 0 → reserve_inodes bg 1 ≡ (allocate_failed, bg)
unfolding reserve_inodes
reserve_inodes_none bg h = let n : ltb bg.free_inodes 1 ≡ true = ground arith in rw n
