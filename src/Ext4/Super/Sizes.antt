-- ===== src/Ext4/Super/Sizes.antt =====
-- `ext4_create_fs_aux_info` (ext4_utils/ext4_utils.c) on the length that the superblock gives.
use native.Mathlib.Nat.{div-add-mod', mod-lt, mul-div_cancel_left, mul-mod_left}
use android_platform_system.Prelude.{
  ℕ, suc, ◌+◌, ◌-◌, ◌*◌, ◌/◌, ◌%◌, ◌^◌, ◌≤◌, ◌<◌, ◌≡◌, refl, sym, ap, inl, inr, Bool, true, false,
  ◌&&◌, ltb, if◌then◌else◌, arith, Bool-cases, add32, sub32, mul32, add64, sub64, ◌∙◌,
}
use android_platform_system.Prelude.Division.{quotient_unique}
use android_platform_system.Ext4.Geometry.{
  FsInfo, FsAuxInfo, sizes, ext4_bg_has_super_block, ext4_create_fs_aux_info, super_blocks,
  group_desc_size,
}

-- The test of `ext4_create_fs_aux_info` on the last group.
cuts : FsInfo → Bool
cuts info =
    let aux = sizes info in
    ltb 0 (aux.len_blocks % info.blocks_per_group)
    && ltb (aux.len_blocks % info.blocks_per_group) (
        if ext4_bg_has_super_block info (sub32 aux.groups 1)
        then add32 (add32 2 aux.inode_table_blocks) (super_blocks info aux)
        else add32 2 aux.inode_table_blocks)

create_kept : (info : FsInfo) → cuts info ≡ false → ext4_create_fs_aux_info info ≡ sizes info
unfolding cuts ext4_create_fs_aux_info
create_kept info e = rw e refl

abbrev shorter : FsInfo → FsAuxInfo
shorter info = record (sizes info) {
  groups = sub32 (sizes info).groups 1;
  len_blocks = sub64 (sizes info).len_blocks ((sizes info).len_blocks % info.blocks_per_group);
}

create_cut : (info : FsInfo) → cuts info ≡ true → ext4_create_fs_aux_info info ≡ shorter info
unfolding cuts ext4_create_fs_aux_info
create_cut info e = rw e refl

-- `DIV_ROUND_UP(groups * sizeof(struct ext2_group_desc), info.block_size)`
abbrev pub desc_blocks : ℕ → ℕ → ℕ
desc_blocks block_size groups = (groups * group_desc_size + block_size - 1) / block_size % 2 ^ 32

-- What is read back.
abbrev pub read_info : FsInfo → FsInfo → FsAuxInfo → FsInfo
read_info old info aux = record info {
  len = info.block_size * aux.len_blocks;
  inodes = mul32 info.inodes_per_group aux.groups;
  journal_blocks = old.journal_blocks;
}

abbrev pub read_aux : FsInfo → FsAuxInfo → FsAuxInfo
read_aux info aux = record aux { bg_desc_blocks = desc_blocks info.block_size aux.groups }

abbrev groups_of : ℕ → ℕ → ℕ
groups_of bpg blocks = sub64 (add64 (sub64 blocks 0) bpg) 1 / bpg % 2 ^ 32

groups_of_more :
    (bpg q r : ℕ)
    → 0 < bpg
    → 0 < r
    → r < bpg
    → q * bpg + r + bpg < 2 ^ 32
    → groups_of bpg (q * bpg + r) ≡ suc q
groups_of_more bpg q r p z l h =
    let n = q * bpg + r + bpg - 1 in
    let e : sub64 (add64 (sub64 (q * bpg + r) 0) bpg) 1 ≡ n = omega arith in
    let u : n / bpg * bpg + n % bpg ≡ n = div-add-mod' n bpg in
    let w : n % bpg < bpg = mod-lt n p in
    let s : suc q * bpg ≡ q * bpg + bpg = grind arith in
    let d : n / bpg ≡ suc q =
      quotient_unique bpg _ _ (n % bpg) (r - 1) (omega arith) w (omega arith) in
    let k : suc q * 1 ≤ suc q * bpg = grind arith in rw (e, d) (omega arith)

groups_of_whole : (bpg q : ℕ) → 0 < bpg → q * bpg + bpg < 2 ^ 32 → groups_of bpg (q * bpg) ≡ q
groups_of_whole bpg q p h =
    let n = q * bpg + bpg - 1 in
    let e : sub64 (add64 (sub64 (q * bpg) 0) bpg) 1 ≡ n = omega arith in
    let u : n / bpg * bpg + n % bpg ≡ n = div-add-mod' n bpg in
    let w : n % bpg < bpg = mod-lt n p in
    let d : n / bpg ≡ q =
      quotient_unique bpg _ _ (n % bpg) (bpg - 1) (omega arith) w (omega arith) in
    let k : q * 1 ≤ q * bpg = grind arith in rw (e, d) (omega arith)

-- The parameters with another length and with what does not matter for the sizes.
abbrev with_len : FsInfo → ℕ → ℕ → ℕ → FsInfo
with_len info blocks inodes journal_blocks = record info {
  len = info.block_size * blocks;
  inodes = inodes;
  journal_blocks = journal_blocks;
}

abbrev sizes_with : FsInfo → ℕ → FsAuxInfo
sizes_with info blocks =
    let groups = groups_of info.blocks_per_group blocks in
    record (sizes info) {
      len_blocks = blocks;
      groups = groups;
      bg_desc_blocks = desc_blocks info.block_size groups;
    }

module _ (info : FsInfo) (blocks inodes journal : ℕ) (big : 1024 < info.block_size) where
  sizes-with_len : sizes (with_len info blocks inodes journal) ≡ sizes_with info blocks
  unfolding sizes
  sizes-with_len =
      let t : ltb 1024 info.block_size ≡ true = ground arith in
      let m : info.block_size * blocks / info.block_size ≡ blocks =
        mul-div_cancel_left blocks (omega arith) in
      rw (t, m) refl

  sizes-itself : sizes info ≡ sizes_with info (info.len / info.block_size)
  unfolding sizes
  sizes-itself = let t : ltb 1024 info.block_size ≡ true = ground arith in rw t refl

  cuts_whole :
      blocks % info.blocks_per_group ≡ 0 → cuts (with_len info blocks inodes journal) ≡ false
  unfolding cuts
  cuts_whole e = rw (sizes-with_len, e) refl

  sizes_same :
      blocks ≡ info.len / info.block_size → sizes (with_len info blocks inodes journal) ≡ sizes info
  sizes_same e = sizes-with_len ∙ ap (λ b. sizes_with info b) e ∙ sym sizes-itself

  cuts_same :
      blocks ≡ info.len / info.block_size → cuts (with_len info blocks inodes journal) ≡ cuts info
  unfolding cuts ext4_bg_has_super_block
  cuts_same e = rw (sizes_same e) refl

module _ (info : FsInfo) (inodes journal : ℕ) (big : 1024 < info.block_size)
    (a_block : 0 < info.blocks_per_group)
    (fits : info.len / info.block_size + info.blocks_per_group < 2 ^ 32) where
  abbrev created : FsAuxInfo
  created = ext4_create_fs_aux_info info

  abbrev ReadsBack : FsAuxInfo → Type 0
  ReadsBack aux =
      ext4_create_fs_aux_info (with_len info aux.len_blocks inodes journal) ≡ read_aux info aux

  len_blocks_lem : (sizes info).len_blocks ≡ info.len / info.block_size
  len_blocks_lem = ap (λ (a : FsAuxInfo). a.len_blocks) (sizes-itself info 0 0 0 big)

  read_kept : cuts info ≡ false → ReadsBack (sizes info)
  read_kept c =
      create_kept _ (cuts_same info (sizes info).len_blocks inodes journal big len_blocks_lem ∙ c)
      ∙ sizes_same info (sizes info).len_blocks inodes journal big len_blocks_lem
      ∙ sizes-itself info 0 0 0 big
      ∙ ap (λ (a : FsAuxInfo). read_aux info a) (sym (sizes-itself info 0 0 0 big))

  abbrev whole : ℕ
  whole = info.len / info.block_size / info.blocks_per_group

  abbrev rest_blocks : ℕ
  rest_blocks = info.len / info.block_size % info.blocks_per_group

  groups_lem : (sizes info).groups ≡ groups_of info.blocks_per_group (info.len / info.block_size)
  groups_lem = ap (λ (a : FsAuxInfo). a.groups) (sizes-itself info 0 0 0 big)

  rest-above_zero : cuts info ≡ true → 0 < rest_blocks
  unfolding cuts
  rest-above_zero c = elim (Bool-cases (ltb 0 ((sizes info).len_blocks % info.blocks_per_group))) [
    | inl y ↦ let z : ltb 0 rest_blocks ≡ true = rw len_blocks_lem at y in ground (arith, z)
    | inr n ↦ let f : false ≡ true = rw n at c in absurd (ground (arith, f))
  ]

  divided : whole * info.blocks_per_group + rest_blocks ≡ info.len / info.block_size
  divided = div-add-mod' (info.len / info.block_size) info.blocks_per_group

  rest-lt : rest_blocks < info.blocks_per_group
  rest-lt = mod-lt (info.len / info.block_size) a_block

  short_blocks : (shorter info).len_blocks ≡ whole * info.blocks_per_group
  short_blocks = let e = len_blocks_lem in let d = divided in rw e (omega (arith, d, rest-lt))

  short_groups : cuts info ≡ true → (shorter info).groups ≡ whole
  short_groups c =
      let g : groups_of info.blocks_per_group (info.len / info.block_size) ≡ suc whole =
        ap (λ b. groups_of info.blocks_per_group b) (sym divided)
        ∙ groups_of_more info.blocks_per_group whole rest_blocks a_block (rest-above_zero c) rest-lt
            (omega (arith, divided)) in
      let k : whole * 1 ≤ whole * info.blocks_per_group = grind arith in
      rw (groups_lem ∙ g) (omega (arith, divided))

  read_groups :
      cuts info ≡ true
      → groups_of info.blocks_per_group (shorter info).len_blocks ≡ (shorter info).groups
  read_groups c =
      ap (λ b. groups_of info.blocks_per_group b) short_blocks
      ∙ groups_of_whole info.blocks_per_group whole a_block (omega (arith, divided))
      ∙ sym (short_groups c)

  short_rest : (shorter info).len_blocks % info.blocks_per_group ≡ 0
  short_rest =
      ap (λ b. b % info.blocks_per_group) short_blocks ∙ mul-mod_left whole info.blocks_per_group

  read_cut : cuts info ≡ true → ReadsBack (shorter info)
  read_cut c =
      create_kept _ (cuts_whole info (shorter info).len_blocks inodes journal big short_rest)
      ∙ sizes-with_len info (shorter info).len_blocks inodes journal big
      ∙ ap
          (λ (g : ℕ).
            let a : FsAuxInfo = record (sizes info) {
              len_blocks = (shorter info).len_blocks;
              groups = g;
              bg_desc_blocks = desc_blocks info.block_size g;
            } in
            a)
          (read_groups c)

  -- Read back, the parameters are those that were made, with the blocks of the descriptors counted anew.
  pub read_created : ReadsBack created
  read_created = elim (Bool-cases (cuts info)) [
    | inl y ↦ rw (create_cut info y) (read_cut y)
    | inr n ↦ rw (create_kept info n) (read_kept n)
  ]

  pub created_blocks : created.len_blocks ≤ info.len / info.block_size
  created_blocks = elim (Bool-cases (cuts info)) [
    | inl y ↦ rw (create_cut info y) (omega (arith, short_blocks, divided))
    | inr n ↦ rw (create_kept info n) (omega (arith, len_blocks_lem))
  ]
