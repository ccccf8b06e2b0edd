-- ===== src/Ext4/Super/RoundTrip.antt =====
-- `ext4_parse_sb` behind `ext4_fill_in_sb` (ext4_utils/ext4_utils.c).
use native.Mathlib.Nat.{pow-suc, one-le-pow, mul-div_cancel_left}
use android_platform_system.Prelude.{
  ℕ, zero, suc, ◌+◌, ◌-◌, ◌*◌, ◌/◌, ◌%◌, ◌^◌, ◌≤◌, ◌<◌, ◌≡◌, refl, ap, Bool, true, false, ◌==◌,
  arith, mul32, add64, mul64, List, [], ◌∷◌, ◌++◌, replicate, length, ◌∙◌,
}
use android_platform_system.Ext4.Exit.{returns}
use android_platform_system.Ext4.Geometry.{FsInfo, FsAuxInfo, ext4_create_fs_aux_info}
use android_platform_system.Ext4.Super.{
  SuperBlock, strncpy, c_string, fill_in_sb, log_2, parsed_info, parse_geometry, ext4_parse_sb,
}
use android_platform_system.Ext4.Super.Log.{lt_pow, log_2_pow}
use android_platform_system.Ext4.Super.Sizes.{read_info, read_aux, read_created, created_blocks}

-- No byte is 0.
abbrev pub IsText : List ℕ → Type 0
IsText [] = Unit
IsText (c ∷ s) = ((c == 0) ≡ false) × IsText s

-- A block size of 2048 bytes or more, and what fits in the fields.
pub record Parseable (info : FsInfo) : Type 0 where
  pub exponent : ℕ
  pub power : info.block_size ≡ 1024 * 2 ^ exponent
  pub exponent_min : 1 ≤ exponent
  pub size_max : info.block_size < 2 ^ 32
  pub inode_size : info.inode_size < 2 ^ 16
  pub reserved : info.bg_desc_reserve_blocks < 2 ^ 16
  pub label_text : IsText info.label
  pub label_length : length info.label ≤ 16
  pub a_block : 0 < info.blocks_per_group
  pub blocks : info.len / info.block_size + info.blocks_per_group < 2 ^ 32

c_string-strncpy :
    (n : ℕ) (s rest : List ℕ) → IsText s → length s ≤ n → c_string (strncpy n s ++ (0 ∷ rest)) ≡ s
c_string-strncpy zero [] rest t h = refl
c_string-strncpy zero (c ∷ s) rest t h = absurd (omega arith)
c_string-strncpy (suc n) [] rest t h = refl
c_string-strncpy (suc n) (c ∷ s) rest (z, t) h =
    rw z (ap (λ l. c ∷ l) (c_string-strncpy n s rest t (omega arith)))

module _ (uuid : List ℕ) (old info : FsInfo) (h : Parseable info) where
  abbrev made : FsAuxInfo
  made = ext4_create_fs_aux_info info

  abbrev sb : SuperBlock
  sb = fill_in_sb uuid info made

  large : 1024 < info.block_size
  large =
      let p : 1 ≤ 2 ^ (h.exponent - 1) = one-le-pow (h.exponent - 1) 2 (omega arith) in
      let q : 2 ^ suc (h.exponent - 1) ≡ 2 ^ (h.exponent - 1) * 2 = pow-suc 2 (h.exponent - 1) in
      let e : suc (h.exponent - 1) ≡ h.exponent = omega (arith, h.exponent_min) in
      let q' : 2 ^ h.exponent ≡ 2 ^ (h.exponent - 1) * 2 = rw e at q in
      omega (arith, p, q', h.power)

  block_size_lem : (1024 * 2 ^ log_2 (info.block_size / 1024)) % 2 ^ 32 ≡ info.block_size
  block_size_lem =
      let d : info.block_size / 1024 ≡ 2 ^ h.exponent =
        ap (λ b. b / 1024) h.power ∙ mul-div_cancel_left (2 ^ h.exponent) (omega arith) in
      let l = lt_pow h.exponent in
      let g : log_2 (2 ^ h.exponent) ≡ h.exponent =
        log_2_pow h.exponent (omega (arith, l, h.power, h.size_max)) in
      rw (d, g) (omega (arith, h.power, h.size_max))

  blocks_lem :
      add64 (made.len_blocks / 2 ^ 32 % 2 ^ 32 * 2 ^ 32) (made.len_blocks % 2 ^ 32)
      ≡ made.len_blocks
  blocks_lem =
      let b = created_blocks info 0 0 large h.a_block h.blocks in omega (arith, b, h.blocks)

  product : (a b : ℕ) → a < 2 ^ 32 → b < 2 ^ 32 → mul64 a b ≡ a * b
  product a b p q = let m : a * b ≤ 2 ^ 32 * b = grind arith in omega arith

  parsed : parsed_info sb old ≡ read_info old info made
  unfolding fill_in_sb
  parsed =
      let b = created_blocks info 0 0 large h.a_block h.blocks in
      let m : mul64 info.block_size made.len_blocks ≡ info.block_size * made.len_blocks =
        product info.block_size made.len_blocks h.size_max (omega (arith, b, h.blocks)) in
      let i : info.inode_size % 2 ^ 16 ≡ info.inode_size = omega (arith, h.inode_size) in
      let r : info.bg_desc_reserve_blocks % 2 ^ 16 ≡ info.bg_desc_reserve_blocks =
        omega (arith, h.reserved) in
      let c : c_string (strncpy 16 info.label ++ replicate 64 0) ≡ info.label =
        c_string-strncpy 16 info.label (replicate 63 0) h.label_text h.label_length in
      rw (block_size_lem, blocks_lem, m, i, r, c) refl

geometry_accepted :
    (sb : SuperBlock) (info : FsInfo) (aux : FsAuxInfo)
    → ext4_create_fs_aux_info info ≡ aux
    → aux.first_data_block ≡ sb.s_first_data_block
    → parse_geometry sb info ≡ returns (info, aux)
geometry_accepted sb info aux e f =
    let t : (sb.s_first_data_block == sb.s_first_data_block) ≡ true = ground arith in
    rw (e, f, t) refl

-- The two tests at the start pass.
accepted :
    (force : Bool) (uuid : List ℕ) (old info : FsInfo) (aux : FsAuxInfo)
    → ext4_parse_sb force (fill_in_sb uuid info aux) old
      ≡ parse_geometry (fill_in_sb uuid info aux) (parsed_info (fill_in_sb uuid info aux) old)
unfolding ext4_parse_sb fill_in_sb
accepted force uuid old info aux = refl

first_data_block_lem :
    (uuid : List ℕ) (info : FsInfo) (aux : FsAuxInfo)
    → aux.first_data_block ≡ (fill_in_sb uuid info aux).s_first_data_block
unfolding fill_in_sb
first_data_block_lem uuid info aux = refl

-- For a block size of 2048 bytes or more that is a power of two, and parameters that fit in the fields
-- of the superblock: `ext4_parse_sb` accepts what `ext4_fill_in_sb` wrote and restores the parameters,
-- with the length cut to the blocks in use and the inodes of all groups, and the geometry, except
-- that it counts the blocks of the group descriptors for the groups in use, where
-- `ext4_create_fs_aux_info` counts a last group, too, that it then leaves out.
pub ext4_parse_sb-fill_in_sb :
    (force : Bool) (uuid : List ℕ) (old info : FsInfo)
    → Parseable info
    → ext4_parse_sb force (fill_in_sb uuid info (ext4_create_fs_aux_info info)) old
      ≡ returns (
        read_info old info (ext4_create_fs_aux_info info),
        read_aux info (ext4_create_fs_aux_info info),
      )
ext4_parse_sb-fill_in_sb force uuid old info h =
    let aux = ext4_create_fs_aux_info info in
    let c =
      read_created info (mul32 info.inodes_per_group aux.groups) old.journal_blocks
        (large uuid old info h) h.a_block h.blocks in
    accepted force uuid old info aux
    ∙ ap (λ i. parse_geometry (fill_in_sb uuid info aux) i) (parsed uuid old info h)
    ∙ geometry_accepted (fill_in_sb uuid info aux) (read_info old info aux) (read_aux info aux) c
        (first_data_block_lem uuid info aux)
