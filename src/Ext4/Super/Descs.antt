-- ===== src/Ext4/Super/Descs.antt =====
-- Where the descriptors of `ext4_fill_in_sb` (ext4_utils/ext4_utils.c) point to.
use android_platform_system.Prelude.{
  ℕ, zero, suc, ◌+◌, ◌*◌, ◌^◌, ◌<◌, ◌≤◌, ◌≡◌, refl, inl, inr, add32, mul32, arith, Bool-cases, List,
  get_elem?, some, ◌∙◌, Bool,
}
use android_platform_system.Ext4.Geometry.{
  FsInfo, FsAuxInfo, Chunk, ext4_bg_has_super_block, super_blocks, header_blocks, init_bg,
}
use android_platform_system.Ext4.Super.{
  SuperBlock, GroupDesc, group_desc, group_start_block, header_size, fill_in_sb, fill_loop_sb,
  ext4_fill_in_sb,
}

-- The descriptor names the two blocks that `init_bg` queues for the bitmaps, and the blocks of the inode
-- table, with which the header ends.
pub record Locates (info : FsInfo) (aux : FsAuxInfo) (i : ℕ) (chunk : Chunk) (d : GroupDesc)
    : Type 0 where
  pub block_bitmap : d.bg_block_bitmap ≡ chunk.block
  pub inode_bitmap : d.bg_inode_bitmap ≡ chunk.block + 1
  pub two_blocks : chunk.len ≡ 2 * info.block_size
  pub inode_table : d.bg_inode_table ≡ chunk.block + 2
  pub header_end :
      d.bg_inode_table + aux.inode_table_blocks
      ≡ aux.first_data_block + i * info.blocks_per_group + header_blocks info aux i

nth_desc :
    (info : FsInfo) (aux : FsAuxInfo) (sb : SuperBlock) (n i k : ℕ)
    → k < n
    → get_elem? (fill_loop_sb info aux sb n i).descs k ≡ some (group_desc info aux (i + k))
unfolding fill_loop_sb
nth_desc info aux sb zero i k h = absurd (omega arith)
nth_desc info aux sb (suc n) i zero h = let e : i + 0 ≡ i = omega arith in rw e refl
nth_desc info aux sb (suc n) i (suc k) h =
    let e : i + suc k ≡ suc i + k = omega arith in
    rw e (nth_desc info aux sb n (suc i) k (omega arith))

header-le :
    (info : FsInfo) (aux : FsAuxInfo) (i : ℕ) → header_size info aux i ≤ super_blocks info aux
header-le info aux i = elim (Bool-cases (ext4_bg_has_super_block info i)) [
  | inl y ↦ rw y (omega arith)
  | inr n ↦ rw n (omega arith)
]

-- `init_bg` and `ext4_fill_in_sb` agree on the header.
headers :
    (force : Bool) (info : FsInfo) (aux : FsAuxInfo) (i : ℕ)
    → add32 2 aux.inode_table_blocks + header_size info aux i < 2 ^ 32
    → group_start_block info aux i < 2 ^ 32
    → (header_blocks info aux i ≡ add32 2 aux.inode_table_blocks + header_size info aux i)
      × ((init_bg force info aux i).1.block
          ≡ add32 (group_start_block info aux i) (header_size info aux i))
unfolding init_bg
headers force info aux i l g = elim (Bool-cases (ext4_bg_has_super_block info i)) [
  | inl y ↦ let l' = rw y at l in (rw y (omega (arith, l')), rw y refl)
  | inr n ↦ let l' = rw n at l in (rw n (omega arith), rw n (omega arith))
]

group_desc-Locates :
    (force : Bool) (info : FsInfo) (aux : FsAuxInfo) (i : ℕ)
    → aux.first_data_block
        + i * info.blocks_per_group
        + aux.inode_table_blocks
        + aux.bg_desc_blocks
        + info.bg_desc_reserve_blocks
        + 3
      < 2 ^ 32
    → info.block_size < 2 ^ 31
    → Locates info aux i (init_bg force info aux i).1 (group_desc info aux i)
unfolding init_bg
group_desc-Locates force info aux i h b =
    let m : mul32 i info.blocks_per_group ≡ i * info.blocks_per_group = omega arith in
    let u : super_blocks info aux ≡ 1 + aux.bg_desc_blocks + info.bg_desc_reserve_blocks =
      omega arith in
    let k : header_size info aux i ≤ super_blocks info aux = header-le info aux i in
    let (hb, cb) = headers force info aux i (omega (arith, k)) (omega arith) in
    record {
      block_bitmap = omega (arith, cb);
      inode_bitmap = omega (arith, cb, k);
      two_blocks = omega arith;
      inode_table = omega (arith, cb, k);
      header_end = omega (arith, hb, k);
    }

-- For a group `i` whose header ends below block 2^32, and blocks below 2^31 bytes: the descriptor that
-- `ext4_fill_in_sb` writes for it names as bitmaps the two blocks that `init_bg` queues for them, and as
-- inode table the blocks behind these up to the end of the header that `init_bg` reserves.
pub ext4_fill_in_sb-Locates :
    (uuid : List ℕ) (force : Bool) (info : FsInfo) (aux : FsAuxInfo) (i : ℕ)
    → i < aux.groups
    → aux.first_data_block
        + i * info.blocks_per_group
        + aux.inode_table_blocks
        + aux.bg_desc_blocks
        + info.bg_desc_reserve_blocks
        + 3
      < 2 ^ 32
    → info.block_size < 2 ^ 31
    → (d : GroupDesc) × (get_elem? (ext4_fill_in_sb uuid info aux).1.descs i ≡ some d)
      × Locates info aux i (init_bg force info aux i).1 d
unfolding ext4_fill_in_sb
ext4_fill_in_sb-Locates uuid force info aux i g h b =
    let e : 0 + i ≡ i = omega arith in
    (
      group_desc info aux i,
      nth_desc info aux (fill_in_sb uuid info aux) aux.groups 0 i g ∙ rw e refl,
      group_desc-Locates force info aux i h b,
    )
