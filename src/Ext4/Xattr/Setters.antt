-- ===== src/Ext4/Xattr/Setters.antt =====
-- inode_set_selinux, inode_set_capabilities, inode_set_permissions (ext4_utils/contents.c) and the
-- inode that they change, get_inode (ext4_utils/allocate.c).
use Prim.Native.Nat.{bit_and, bit_or}
use android_platform_system.Prelude.{
  ℕ, ◌+◌, ◌-◌, ◌*◌, ◌/◌, ◌%◌, ◌^◌, Bool, true, false, ◌==◌, if◌then◌else◌, List, [], ◌∷◌, ◌++◌,
  get_elem?, modify, Option, none, some, add32, mul32,
}
use android_platform_system.Prelude.Memory.{Memory, memset}
use android_platform_system.Ext4.Exit.{returns, faults}
use android_platform_system.Ext4.BlockGroup.{BlockGroupInfo}
use android_platform_system.Ext4.Inodes.{group_of_inode, slot_of_inode}
use android_platform_system.Ext4.Geometry.{FsInfo, FsAuxInfo}
use android_platform_system.Ext4.Xattr.{read16, write16, write32, le32_bytes}
use android_platform_system.Ext4.Xattr.Inode.{
  Queued, XattrStore, Step, run_then, xattr_index_security, add_to_inode,
}

module _ (add_data : List Queued → Queued → Bool) (info : FsInfo) (aux : FsAuxInfo) where
  -- The block of the inode table of a group.
  abbrev pub inode_table_block : BlockGroupInfo → ℕ
  inode_table_block bg =
      let block = add32 bg.first_block 2 in
      if bg.has_superblock
      then add32 block (add32 (add32 aux.bg_desc_blocks info.bg_desc_reserve_blocks) 1)
      else block

  abbrev pub queue_table : Queued → List Queued → List Queued
  queue_table q queued = if add_data queued q then q ∷ queued else queued

  -- EXT4_BG_INODE_UNINIT is 1.
  abbrev pub start_table : ℕ → BlockGroupInfo → XattrStore → XattrStore
  start_table i bg fs =
      let size = mul32 aux.inode_table_blocks info.block_size in
      let q : Queued = record { address = fs.brk; len = size; block = inode_table_block bg } in
      record fs {
        bgs =
            modify i
              (λ bg. record bg {
                has_inode_table = true;
                flags = bit_and bg.flags (2 ^ 32 - 1 - 1);
              })
              fs.bgs;
        mem = memset fs.mem fs.brk 0 (aux.inode_table_blocks * info.block_size);
        brk = fs.brk + aux.inode_table_blocks * info.block_size;
        inode_table = λ k. if k == i then fs.brk else fs.inode_table k;
        queued = queue_table q fs.queued;
      }

  abbrev pub table_of : ℕ → Option BlockGroupInfo → Step ℕ
  table_of i none fs = (faults, fs)
  table_of i (some bg) fs =
      if bg.has_inode_table
      then (returns (fs.inode_table i), fs)
      else let fs' = start_table i bg fs in (returns (fs'.inode_table i), fs')

  -- On `&aux_info.bgs[i]`, and the table.
  unfoldable pub allocate_bg_inode_table : ℕ → Step ℕ
  allocate_bg_inode_table i fs = table_of i (get_elem? fs.bgs i) fs

  unfoldable pub get_inode : ℕ → Step ℕ
  unfolding allocate_bg_inode_table
  get_inode inode fs =
      run_then (allocate_bg_inode_table (group_of_inode info.inodes_per_group inode) fs)
        (λ table fs.
          (returns (table + mul32 (slot_of_inode info.inodes_per_group inode) info.inode_size), fs))

  module _ (force : Bool) where
    unfoldable pub xattr_add : ℕ → ℕ → List ℕ → Option (List ℕ) → Step Bool
    unfolding get_inode add_to_inode
    xattr_add inode_num name_index name none fs = (returns true, fs)
    xattr_add inode_num name_index name (some value) fs =
        run_then (get_inode inode_num fs) (add_to_inode add_data info force name_index name value)

    -- "selinux"; the value goes up to its 0.
    unfoldable pub inode_set_selinux : ℕ → Option (List ℕ) → Step Bool
    unfolding xattr_add
    inode_set_selinux inode_num none fs = (returns true, fs)
    inode_set_selinux inode_num (some secon) fs =
        xattr_add inode_num xattr_index_security (115 ∷ 101 ∷ 108 ∷ 105 ∷ 110 ∷ 117 ∷ 120 ∷ [])
          (some (secon ++ 0 ∷ [])) fs

    -- "capability". `magic_etc` is `VFS_CAP_REVISION | VFS_CAP_FLAGS_EFFECTIVE` of the system's header.
    unfoldable pub inode_set_capabilities : ℕ → ℕ → ℕ → Step Bool
    unfolding xattr_add
    inode_set_capabilities magic_etc inode_num capabilities fs =
        if capabilities == 0
        then (returns true, fs)
        else xattr_add inode_num xattr_index_security
            (99 ∷ 97 ∷ 112 ∷ 97 ∷ 98 ∷ 105 ∷ 108 ∷ 105 ∷ 116 ∷ 121 ∷ [])
            (some (
              le32_bytes magic_etc
              ++ le32_bytes (capabilities % 2 ^ 32)
              ++ le32_bytes 0
              ++ le32_bytes (capabilities / 2 ^ 32)
              ++ le32_bytes 0))
            fs

  -- The fields that inode_set_permissions writes.
  abbrev pub permit : ℕ → ℕ → ℕ → ℕ → ℕ → Memory → Memory
  permit mode uid gid mtime inode m =
      let m1 = write16 m inode (bit_or (read16 m inode) mode) in
      let m2 = write16 m1 (inode + 2) uid in
      let m3 = write16 m2 (inode + 24) gid in
      let m4 = write32 m3 (inode + 16) mtime in
      let m5 = write32 m4 (inode + 8) mtime in write32 m5 (inode + 12) mtime

  unfoldable pub inode_set_permissions : ℕ → ℕ → ℕ → ℕ → ℕ → Step Bool
  unfolding get_inode
  inode_set_permissions inode_num mode uid gid mtime fs =
      run_then (get_inode inode_num fs) (λ inode fs.
        if inode == 0
        then (returns false, fs)
        else (returns true, record fs { mem = permit mode uid gid mtime inode fs.mem }))
