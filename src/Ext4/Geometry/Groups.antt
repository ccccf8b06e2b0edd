-- ===== src/Ext4/Geometry/Groups.antt =====
-- `init_bg` (ext4_utils/allocate.c) starts a block group in a state that meets its invariants.
use android_platform_system.Prelude.{
  ℕ, ◌+◌, ◌-◌, ◌*◌, ◌/◌, ◌%◌, ◌^◌, ◌≤◌, ◌<◌, ◌≡◌, inl, inr, refl, Bool, true, false, not, ◌&&◌,
  ◌||◌, ◌==◌, Bool-cases, arith, ltb, leb, if◌then◌else◌, ◌∙◌, length, replicate, length-replicate,
  get_or-replicate, add32, sub32, sub64,
}
use android_platform_system.Ext4.Exit.{returns}
use android_platform_system.Ext4.Bitmap.{Bitmap, is_set, Bytes, byte_at}
use android_platform_system.Ext4.Bitmap.Laws.{is_set_of_zero}
use android_platform_system.Ext4.BlockGroup.{BlockGroupInfo, reserve_blocks}
use android_platform_system.Ext4.BlockGroup.Fill.{Filled}
use android_platform_system.Ext4.BlockGroup.Reserve.{
  IsGroup, reserved, reserve_clear, reserve_short,
}
use android_platform_system.Ext4.Inodes.Laws.{IsInodes}
use android_platform_system.Ext4.Geometry.{
  FsInfo, FsAuxInfo, ext4_bg_has_super_block, fresh_bg, header_blocks, init_bg, after_header,
  reserve_overrun, ignored,
}

-- The blocks of group `i` that the device has.
abbrev pub usable : FsInfo → FsAuxInfo → ℕ → ℕ
usable info aux i =
    if leb (aux.first_data_block + i * info.blocks_per_group + info.blocks_per_group) aux.len_blocks
    then info.blocks_per_group
    else aux.len_blocks - (aux.first_data_block + i * info.blocks_per_group)

usable-le : (start size end : ℕ) → (if leb (start + size) end then size else end - start) ≤ size
usable-le start size end = ground arith

-- The state in which group `i` starts: its blocks in use are exactly the header at its begin and those that the
-- device lacks at its end, and no inode is in use.
pub record Starts (info : FsInfo) (aux : FsAuxInfo) (i : ℕ) (bg : BlockGroupInfo) : Type 0 where
  pub limit : ℕ
  pub group : IsGroup info.blocks_per_group limit bg
  pub inodes : IsInodes info.inodes_per_group bg
  pub free : bg.free_blocks ≡ usable info aux i - header_blocks info aux i
  pub first_block : bg.first_block ≡ aux.first_data_block + i * info.blocks_per_group
  pub superblock : bg.has_superblock ≡ ext4_bg_has_super_block info i
  pub bits :
      (k : ℕ)
      → k < info.blocks_per_group
      → is_set bg.block_bitmap k ≡ (ltb k (header_blocks info aux i) || leb (usable info aux i) k)
  pub first_inode : bg.first_free_inode ≡ 1
  pub free_inodes : bg.free_inodes ≡ info.inodes_per_group
  pub inode_bits : (k : ℕ) → is_set bg.inode_bitmap k ≡ false

-- What `init_bg` needs of the parameters: one block holds each bitmap, numbers fit, and the header
-- of the group lies on the device.
pub record HasRoom (info : FsInfo) (aux : FsAuxInfo) (i : ℕ) : Type 0 where
  pub bitmap : info.blocks_per_group ≤ 8 * info.block_size
  pub inode_bitmap : info.inodes_per_group ≤ 8 * info.block_size
  pub block_size : info.block_size ≤ 2 ^ 16
  pub ends : aux.first_data_block + i * info.blocks_per_group + info.blocks_per_group < 2 ^ 32 - 1
  pub device : aux.len_blocks + info.blocks_per_group < 2 ^ 32
  pub starts : aux.first_data_block + i * info.blocks_per_group ≤ aux.len_blocks
  pub header : header_blocks info aux i ≤ usable info aux i

zero-byte : (n i : ℕ) → byte_at (replicate n 0) i ≡ 0
zero-byte n i = get_or-replicate {A = ℕ} n i 0

Bytes-zeros : (n : ℕ) → Bytes (replicate n 0)
Bytes-zeros n i = omega (arith, zero-byte n i)

is_set-zeros : (n k : ℕ) → is_set (replicate n 0) k ≡ false
is_set-zeros n k = is_set_of_zero (replicate n 0) k (zero-byte n (k / 8))

zeros-length : (n : ℕ) → length (replicate {A = ℕ} n 0) ≡ n
zeros-length n = length-replicate {A = ℕ} n 0

-- The bits below `header` and the last `o` of `size`, as those outside a range of free blocks.
cut_bits :
    (header o size k : ℕ)
    → o ≤ size
    → header ≤ size - o
    → k < size
    → (ltb k header || (leb (size - o) k && ltb k (size - o + o)))
      ≡ not (
          leb (if size - o == 0 + header then size - o + o else 0 + header) k
          && ltb k (if size - o == header then size else size - o))
cut_bits header o size k w h l = ground arith

cut_free :
    (header o size : ℕ)
    → o ≤ size
    → header ≤ size - o
    → (if size - o == 0 + header then size - o + o else 0 + header) + (size - header - o)
      ≡ (if size - o == header then size else size - o)
cut_free header o size w h = ground arith

cut_limit-le : (header o size : ℕ) → (if size - o == header then size else size - o) ≤ size
cut_limit-le header o size = ground arith

module _ (force : Bool) (info : FsInfo) (aux : FsAuxInfo) (i : ℕ) (r : HasRoom info aux i) where
  open info use {blocks_per_group, inodes_per_group}

  abbrev fresh : BlockGroupInfo
  fresh = fresh_bg info aux i

  first-eq : fresh.first_block ≡ aux.first_data_block + i * blocks_per_group
  first-eq = omega (arith, r.ends)

  header-le : fresh.header_blocks ≤ blocks_per_group
  header-le = omega (
    arith,
    r.header,
    usable-le (aux.first_data_block + i * blocks_per_group) blocks_per_group aux.len_blocks,
  )

  fresh-IsInodes :
      (bg : BlockGroupInfo)
      → bg.inode_bitmap ≡ fresh.inode_bitmap
      → bg.first_free_inode ≡ 1
      → bg.free_inodes ≡ inodes_per_group
      → IsInodes inodes_per_group bg
  fresh-IsInodes bg b f n = record {
    bytes = rw b (Bytes-zeros info.block_size);
    room = rw b (omega (arith, r.inode_bitmap, zeros-length info.block_size));
    small = rw b (omega (arith, r.block_size, zeros-length info.block_size));
    first = omega arith;
    free = omega arith;
    used = λ k u. rw (b, f) (ground (arith, is_set-zeros info.block_size k));
  }

  -- The group behind its header, before the end of the device is looked at.
  module _ (bm : Bitmap) (f : Filled fresh.block_bitmap 0 fresh.header_blocks bm) where
    abbrev headed : BlockGroupInfo
    headed = reserved fresh 0 fresh.header_blocks bm

    header-bit : (k : ℕ) → is_set bm k ≡ ltb k fresh.header_blocks
    header-bit k = ground (arith, f.marks k, is_set-zeros info.block_size k)

    headed-IsGroup :
        usable info aux i ≡ blocks_per_group → IsGroup blocks_per_group blocks_per_group headed
    headed-IsGroup u = record {
      bytes = f.bytes;
      room = omega (arith, f.size, zeros-length info.block_size, r.bitmap);
      small = omega (arith, f.size, zeros-length info.block_size, r.block_size);
      limit_in = omega arith;
      numbered = omega (arith, first-eq, r.ends);
      free = omega (arith, r.header);
      used = λ k l. ground (arith, header-bit k);
    }

    -- A group that the device has in full: nothing more is reserved.
    overrun_complete :
        leb (aux.first_data_block + i * blocks_per_group + blocks_per_group) aux.len_blocks ≡ true
        → ignored (reserve_overrun force info aux headed) ≡ (returns tt, headed)
    overrun_complete c =
        let e : ℕ = aux.first_data_block + i * blocks_per_group + blocks_per_group in
        let a : add32 fresh.first_block blocks_per_group ≡ e = omega (arith, first-eq, r.ends) in
        elim (Bool-cases (e == aux.len_blocks)) [
          | inl y ↦
              let o : sub64 e aux.len_blocks % 2 ^ 32 ≡ 0 = ground (arith, r.device) in
              rw (a, o) refl
          | inr n ↦
              let d : ℕ = sub64 e aux.len_blocks % 2 ^ 32 in
              let v : d ≡ 2 ^ 32 - (aux.len_blocks - e) = ground (arith, r.device, r.ends) in
              let s : ltb 0 d ≡ true = ground (arith, r.device) in
              let q : headed.free_blocks < d = ground (arith, r.device) in
              rw (a, s, reserve_short force headed (sub32 blocks_per_group d) d q) refl
        ]

    overrun_eq :
        leb (aux.first_data_block + i * blocks_per_group + blocks_per_group) aux.len_blocks ≡ false
        → (o : ℕ)
        → o ≡ aux.first_data_block + i * blocks_per_group + blocks_per_group - aux.len_blocks
        → (bg : BlockGroupInfo)
        → reserve_blocks force headed (blocks_per_group - o) o ≡ (returns true, bg)
        → ignored (reserve_overrun force info aux headed) ≡ (returns tt, bg)
    overrun_eq c o d bg q =
        let e : ℕ = aux.first_data_block + i * blocks_per_group + blocks_per_group in
        let l : aux.len_blocks < e = ground arith in
        let a : add32 fresh.first_block blocks_per_group ≡ e = omega (arith, first-eq, r.ends) in
        let v : sub64 e aux.len_blocks % 2 ^ 32 ≡ o = omega (arith, r.ends) in
        let p : ltb 0 o ≡ true = ground arith in
        let s : sub32 blocks_per_group o ≡ blocks_per_group - o = omega (arith, r.ends, r.starts) in
        rw (a, v, p, s, q) refl

    -- The reservation at the end of a group of which the device lacks `o` blocks.
    module _ (o : ℕ) (w : o ≤ blocks_per_group) (h : fresh.header_blocks ≤ blocks_per_group - o)
        (b : blocks_per_group < 2 ^ 32) where
      open fresh use {header_blocks as header}

      z : length bm ≡ info.block_size
      z = omega (arith, f.size, zeros-length info.block_size)

      tail-clear :
          (k : ℕ) → blocks_per_group - o ≤ k → k < blocks_per_group - o + o → is_set bm k ≡ false
      tail-clear k l m = ground (arith, header-bit k)

      module _ (bm' : Bitmap) (g : Filled bm (blocks_per_group - o) o bm') where
        abbrev cut : BlockGroupInfo
        cut = reserved headed (blocks_per_group - o) o bm'

        abbrev cut_limit : ℕ
        cut_limit =
            if blocks_per_group - o == header then blocks_per_group else blocks_per_group - o

        tail-bit :
            (k : ℕ)
            → is_set bm' k
              ≡ (ltb k header || (leb (blocks_per_group - o) k && ltb k (blocks_per_group - o + o)))
        tail-bit k = ground (arith, header-bit k, g.marks k)

        cut-used :
            (k : ℕ)
            → k < blocks_per_group
            → is_set bm' k ≡ not (leb cut.first_free_block k && ltb k cut_limit)
        cut-used k l = tail-bit k ∙ cut_bits header o blocks_per_group k w h l

        cut-bits :
            usable info aux i ≡ blocks_per_group - o
            → (k : ℕ) → k < blocks_per_group
            → is_set bm' k ≡ (ltb k header || leb (usable info aux i) k)
        cut-bits u k l =
            let e : (leb (blocks_per_group - o) k && ltb k (blocks_per_group - o + o))
                ≡ leb (blocks_per_group - o) k =
              ground arith in
            rw u (tail-bit k ∙ rw e refl)

        cut-Starts : usable info aux i ≡ blocks_per_group - o → Starts info aux i cut
        cut-Starts u = record {
          limit = cut_limit;
          group = record {
            bytes = g.bytes;
            room = omega (arith, g.size, z, r.bitmap);
            small = omega (arith, g.size, z, r.block_size);
            limit_in = cut_limit-le header o blocks_per_group;
            numbered = omega (arith, first-eq, r.ends);
            free = cut_free header o blocks_per_group w h;
            used = cut-used;
          };
          inodes = fresh-IsInodes cut refl refl refl;
          free = omega (arith, u);
          first_block = first-eq;
          superblock = refl;
          bits = cut-bits u;
          first_inode = refl;
          free_inodes = refl;
          inode_bits = λ k. is_set-zeros info.block_size k;
        }

    -- A group that the device ends in: the blocks behind the end are reserved too.
    overrun_cut :
        leb (aux.first_data_block + i * blocks_per_group + blocks_per_group) aux.len_blocks ≡ false
        → (bg : BlockGroupInfo) × (ignored (reserve_overrun force info aux headed)
            ≡ (returns tt, bg))
          × Starts info aux i bg
    overrun_cut c =
        let e : ℕ = aux.first_data_block + i * blocks_per_group + blocks_per_group in
        let o : ℕ = e - aux.len_blocks in
        let w : o ≤ blocks_per_group = omega (arith, r.starts) in
        let l : aux.len_blocks < e = ground arith in
        let u : usable info aux i ≡ blocks_per_group - o = rw c (omega (arith, r.starts)) in
        let h : fresh.header_blocks ≤ blocks_per_group - o = rw u at r.header in
        let z : length bm ≡ info.block_size = omega (arith, f.size, zeros-length info.block_size) in
        let (bm', q, g) =
          reserve_clear force headed (blocks_per_group - o) o (omega (arith, h))
            (λ k l m. tail-clear o w h (omega (arith, r.ends)) k l m) f.bytes
            (omega (arith, z, r.block_size)) (omega (arith, r.ends))
            (omega (arith, z, r.bitmap, w)) in
        (
          cut o w h (omega (arith, r.ends)) bm' g,
          overrun_eq c o refl (cut o w h (omega (arith, r.ends)) bm' g) q,
          cut-Starts o w h (omega (arith, r.ends)) bm' g u,
        )

    headed-Starts : usable info aux i ≡ blocks_per_group → Starts info aux i headed
    headed-Starts u = record {
      limit = blocks_per_group;
      group = headed-IsGroup u;
      inodes = fresh-IsInodes headed refl refl refl;
      free = omega (arith, u);
      first_block = first-eq;
      superblock = refl;
      bits = λ k l. ground (arith, header-bit k, u);
      first_inode = refl;
      free_inodes = refl;
      inode_bits = λ k. is_set-zeros info.block_size k;
    }

    after_header-Starts :
        (bg : BlockGroupInfo) × (ignored (after_header force info aux (returns true, headed))
          ≡ (returns tt, bg))
        × Starts info aux i bg
    after_header-Starts =
        elim (Bool-cases
          (leb (aux.first_data_block + i * blocks_per_group + blocks_per_group) aux.len_blocks)) [
            | inl y ↦ (headed, overrun_complete y, headed-Starts (rw y refl))
            | inr n ↦ overrun_cut n
          ]

  -- If the bitmaps hold a group, block numbers fit and the header of group `i` lies on the device,
  -- `init_bg` starts the group without an error: it meets the invariants of the block and the inode
  -- allocator; of its blocks exactly the header at its begin and those behind the end of the device
  -- are in use, and the others are counted as free; no inode is in use, and the first is next.
  pub init_bg-Starts :
      (bg : BlockGroupInfo) × ((init_bg force info aux i).0 ≡ (returns tt, bg))
      × Starts info aux i bg
  unfolding init_bg
  init_bg-Starts =
      let size : length (replicate {A = ℕ} info.block_size 0) ≡ info.block_size =
        zeros-length info.block_size in
      let (bm, q, f) =
        reserve_clear force fresh 0 fresh.header_blocks (omega (arith, header-le))
          (λ k l u. is_set-zeros info.block_size k) (Bytes-zeros info.block_size)
          (omega (arith, size, r.block_size)) (omega (arith, r.ends))
          (omega (arith, size, header-le, r.bitmap)) in
      let (bg, e, s) = after_header-Starts bm f in (bg, rw q e, s)
