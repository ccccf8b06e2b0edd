-- ===== src/Ext4/Xattr/Inode.antt =====
-- The attributes of an inode in its table and in a block of their own (ext4_utils/contents.c and
-- allocate.c). The inode is at an address, with the fields of `struct ext4_inode` at their offsets. The
-- sparse file is a parameter: whether it takes one more buffer.
use Prim.Native.Nat.{bit_xor}
use android_platform_system.Prelude.{
  ℕ, zero, suc, ◌+◌, ◌*◌, ◌/◌, ◌%◌, ◌^◌, Bool, true, false, not, ◌&&◌, ◌==◌, if◌then◌else◌, List,
  [], ◌∷◌, Option, none, some,
}
use android_platform_system.Prelude.Memory.{Memory, memset}
use android_platform_system.Ext4.Exit.{Outcome, returns, exits, faults, spins, error}
use android_platform_system.Ext4.BlockGroup.{BlockGroupInfo}
use android_platform_system.Ext4.Groups.{allocate_block}
use android_platform_system.Ext4.Geometry.{FsInfo}
use android_platform_system.Ext4.Xattr.{read16, read32, write16, write32, xattr_addto_range}

-- A buffer in the sparse file: its address, its length, and the block.
pub record Queued : Type 0 where
  pub address : ℕ
  pub len : ℕ
  pub block : ℕ

-- The memory, the address that `calloc` gives next, `bgs[i].inode_table` where group `i` has one, the list
-- `aux_info.xattrs` of inodes and blocks, and the sparse file. (The program takes `calloc` to succeed.)
pub record XattrStore : Type 0 where
  pub bgs : List BlockGroupInfo
  pub mem : Memory
  pub brk : ℕ
  pub inode_table : ℕ → ℕ
  pub xattrs : List (ℕ × ℕ)
  pub queued : List Queued

abbrev pub Step : Type 0 → Type 0
Step A = XattrStore → Outcome A × XattrStore

abbrev pub run_then :
    {A B : Type 0} → Outcome A × XattrStore → (A → Step B) → Outcome B × XattrStore
run_then (returns a, fs) k = k a fs
run_then (exits, fs) k = (exits, fs)
run_then (faults, fs) k = (faults, fs)
run_then (spins, fs) k = (spins, fs)

abbrev pub xattr_magic : ℕ
xattr_magic = 0xEA020000

abbrev pub xattr_index_security : ℕ
xattr_index_security = 6

unfoldable pub xattr_list_find : List (ℕ × ℕ) → ℕ → Option ℕ
xattr_list_find [] inode = none
xattr_list_find (element ∷ xattrs) inode =
    let rest = xattr_list_find xattrs inode in if element.0 == inode then some element.1 else rest

abbrev pub xattr_list_insert : ℕ → ℕ → XattrStore → XattrStore
xattr_list_insert inode header fs = record fs { xattrs = (inode, header) ∷ fs.xattrs }

-- The loops of ext4_xattr_hash_entry. `hash << 5` and `hash << 16` are on 32 bits.
unfoldable pub hash_name : ℕ → Memory → ℕ → ℕ → ℕ
hash_name zero m name hash = hash
hash_name (suc n) m name hash =
    hash_name n m (suc name) (bit_xor (bit_xor (hash * 2 ^ 5 % 2 ^ 32) (hash / 2 ^ 27)) (m name))

unfoldable pub hash_value : ℕ → Memory → ℕ → ℕ → ℕ
hash_value zero m value hash = hash
hash_value (suc n) m value hash =
    hash_value n m (value + 4)
      (bit_xor (bit_xor (hash * 2 ^ 16 % 2 ^ 32) (hash / 2 ^ 16)) (read32 m value))

unfoldable pub entry_hash : Memory → ℕ → ℕ → ℕ
unfolding hash_name hash_value
entry_hash m header entry =
    let hash = hash_name (m entry) m (entry + 16) 0 in
    let size = read32 m (entry + 8) in
    if read32 m (entry + 4) == 0 && not (size == 0)
    then hash_value ((size + 3) % 2 ^ 32 / 4) m (header + read16 m (entry + 2)) hash
    else hash

unfoldable pub ext4_xattr_hash_entry : Memory → ℕ → ℕ → Memory
unfolding entry_hash
ext4_xattr_hash_entry m header entry = write32 m (entry + 12) (entry_hash m header entry)

-- The memory that get_xattr_block_for_inode makes of the new block and of the inode.
unfoldable pub start_block : FsInfo → ℕ → ℕ → ℕ → Memory → Memory
start_block info inode block block_num m =
    let m1 = memset m block 0 info.block_size in
    let m2 = write32 m1 block xattr_magic in
    let m3 = write32 m2 (block + 4) 1 in
    let m4 = write32 m3 (block + 8) 1 in
    let m5 = write32 m4 (inode + 28) (read32 m4 (inode + 28) + info.block_size / 512) in
    write32 m5 (inode + 104) block_num

module _ (add_data : List Queued → Queued → Bool) (info : FsInfo) (force : Bool) where
  -- The result of allocate_block is not looked at.
  unfoldable pub new_xattr_block : ℕ → ℕ → Step (Option ℕ)
  unfolding start_block
  new_xattr_block inode block_num fs =
      let block = fs.brk in
      let q : Queued = record { address = block; len = info.block_size; block = block_num } in
      let fs' = record fs {
        mem = start_block info inode block block_num fs.mem;
        brk = block + info.block_size;
      } in
      if add_data fs.queued q
      then (
        returns (some block),
        xattr_list_insert inode block (record fs' { queued = q ∷ fs.queued }),
      )
      else (error force none, fs')

  abbrev pub allocate_for_xattr : Step ℕ
  allocate_for_xattr fs =
      let (o, bgs') = allocate_block force fs.bgs in (o, record fs { bgs = bgs' })

  abbrev pub found_or_new : Option ℕ → ℕ → Step (Option ℕ)
  unfolding new_xattr_block
  found_or_new (some block) inode fs = (returns (some block), fs)
  found_or_new none inode fs =
      run_then (allocate_for_xattr fs) (λ block_num. new_xattr_block inode block_num)

  unfoldable pub get_xattr_block_for_inode : ℕ → Step (Option ℕ)
  unfolding xattr_list_find
  get_xattr_block_for_inode inode fs = found_or_new (xattr_list_find fs.xattrs inode) inode fs

  abbrev pub range_step : ℕ → ℕ → ℕ → ℕ → List ℕ → List ℕ → Step (Option ℕ)
  unfolding xattr_addto_range
  range_step block_start block_end first name_index name value fs =
      let (o, m') =
        xattr_addto_range force fs.mem block_start block_end first name_index name value in
      (o, record fs { mem = m' })

  -- The header in front of the attributes of an inode, and i_extra_isize, 156 - 128.
  abbrev pub mark_inode : ℕ → Option ℕ → Step Bool
  mark_inode inode none fs = (returns false, fs)
  mark_inode inode (some entry) fs = (
    returns true,
    record fs { mem = write16 (write32 fs.mem (inode + 156) xattr_magic) (inode + 128) 28 },
  )

  -- `true` for 0, `false` for -1.
  unfoldable pub xattr_addto_inode : ℕ → ℕ → List ℕ → List ℕ → Step Bool
  unfolding range_step
  xattr_addto_inode inode name_index name value fs =
      let first = inode + 160 in
      run_then (range_step first (inode + info.inode_size) first name_index name value fs)
        (mark_inode inode)

  abbrev pub mark_hash : ℕ → Option ℕ → Step Bool
  unfolding ext4_xattr_hash_entry
  mark_hash header none fs = (returns false, fs)
  mark_hash header (some entry) fs =
      (returns true, record fs { mem = ext4_xattr_hash_entry fs.mem header entry })

  abbrev pub add_to_header : ℕ → List ℕ → List ℕ → Option ℕ → Step Bool
  unfolding range_step mark_hash
  add_to_header name_index name value none fs = (returns false, fs)
  add_to_header name_index name value (some header) fs =
      run_then (range_step header (header + info.block_size) (header + 32) name_index name value fs)
        (mark_hash header)

  unfoldable pub xattr_addto_block : ℕ → ℕ → List ℕ → List ℕ → Step Bool
  unfolding get_xattr_block_for_inode add_to_header
  xattr_addto_block inode name_index name value fs =
      run_then (get_xattr_block_for_inode inode fs) (add_to_header name_index name value)

  abbrev pub or_block : ℕ → ℕ → List ℕ → List ℕ → Bool → Step Bool
  unfolding xattr_addto_block
  or_block inode name_index name value true fs = (returns true, fs)
  or_block inode name_index name value false fs = xattr_addto_block inode name_index name value fs

  -- xattr_add behind get_inode.
  unfoldable pub add_to_inode : ℕ → List ℕ → List ℕ → ℕ → Step Bool
  unfolding xattr_addto_inode or_block
  add_to_inode name_index name value inode fs =
      if inode == 0
      then (returns false, fs)
      else run_then (xattr_addto_inode inode name_index name value fs)
          (or_block inode name_index name value)
