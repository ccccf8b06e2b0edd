-- ===== src/Ext4/Xattr/Fallback.antt =====
-- xattr_add behind get_inode (ext4_utils/contents.c): the inode first, then a block.
use android_platform_system.Prelude.{
  ℕ, ◌+◌, ◌-◌, ◌%◌, ◌^◌, ◌≤◌, ◌<◌, ◌≡◌, ◌≢◌, ◌⊎◌, inl, inr, refl, ◌∙◌, arith, Bool, true, false,
  ◌==◌, List, [], ◌∷◌, ◌++◌, length, none, some,
}
use android_platform_system.Prelude.Memory.{Memory}
use android_platform_system.Ext4.Exit.{returns}
use android_platform_system.Ext4.BlockGroup.{BlockGroupInfo}
use android_platform_system.Ext4.Groups.{allocate_block}
use android_platform_system.Ext4.Geometry.{FsInfo}
use android_platform_system.Ext4.Xattr.{
  read32, write32, write16, le16_bytes, le32_bytes, xattr_len, xattr_size,
}
use android_platform_system.Ext4.Xattr.Region.{Attribute, Holds}
use android_platform_system.Ext4.Xattr.Walk.{Entries-bounds, Holds-frame}
use android_platform_system.Ext4.Xattr.Written.{write_off}
use android_platform_system.Ext4.Xattr.Started.{
  read32-write32, read32_frame, EntryAt-hash, start_block_inode, start_block-file_acl,
  start_block-Holds,
}
use android_platform_system.Ext4.Xattr.Sorted.{sorted}
use android_platform_system.Ext4.Xattr.Added.{Storable, needed_size, addto_room-Holds, addto_full}
use android_platform_system.Ext4.Xattr.Inode.{
  Queued, XattrStore, xattr_magic, xattr_list_find, ext4_xattr_hash_entry, entry_hash, start_block,
  new_xattr_block, get_xattr_block_for_inode, xattr_addto_inode, xattr_addto_block, add_to_inode,
}

-- The attributes in the inode itself.
abbrev pub InInode : FsInfo → ℕ → Memory → List Attribute → ℕ → ℕ → Type 0
InInode info inode m attributes q w =
    Holds m (inode + 160) (inode + 160) (inode + info.inode_size) attributes q w

-- The attribute is alone in a block behind the memory that `fs` uses, which is queued for the image
-- and which the inode names.
abbrev pub InBlock : FsInfo → ℕ → Attribute → XattrStore → ℕ → XattrStore → Type 0
InBlock info inode a fs block_num fs' =
    Holds fs'.mem fs.brk (fs.brk + 32) (fs.brk + info.block_size) (a ∷ [])
      (fs.brk + 32 + xattr_len (length a.name))
      (fs.brk + info.block_size - xattr_size (length a.value))
    × (xattr_list_find fs'.xattrs inode ≡ some fs.brk)
    × (read32 fs'.mem (inode + 104) ≡ block_num % 2 ^ 32)
    × (fs'.queued
        ≡ record { address = fs.brk; len = info.block_size; block = block_num } ∷ fs.queued)

self_eq : (n : ℕ) → (n == n) ≡ true
self_eq n = ground arith

module _ (add_data : List Queued → Queued → Bool) (info : FsInfo) (force : Bool) (inode : ℕ)
    (fs : XattrStore) (attributes : List Attribute) (q w : ℕ) (a : Attribute) where
  module _ (holds : InInode info inode fs.mem attributes q w) (some_inode : inode ≢ 0)
      (short_name : length a.name ≤ 255) where
    addto_inode-fits :
        Storable (inode + 160) (inode + info.inode_size) a
        → sorted (attributes ++ a ∷ []) ≡ true
        → q + needed_size a + 4 ≤ w
        → (fs' : XattrStore) × (add_to_inode add_data info force a.name_index a.name a.value inode
              fs
            ≡ (returns true, fs'))
          × InInode info inode fs'.mem
              (attributes ++ a ∷ [])
              (q + xattr_len (length a.name))
              (w - xattr_size (length a.value))
          × (read32 fs'.mem (inode + 156) ≡ xattr_magic)
    unfolding add_to_inode xattr_addto_inode
    addto_inode-fits s o k =
        let first = inode + 160 in
        let end = inode + info.inode_size in
        let no : (inode == 0) ≡ false = ground arith in
        let (m', e, after, below, above) =
          addto_room-Holds force fs.mem first first end attributes q w a holds s short_name k in
        let m1 = write32 m' (inode + 156) xattr_magic in
        let m2 = write16 m1 (inode + 128) 28 in
        let magic : read32 m2 (inode + 156) ≡ read32 m1 (inode + 156) =
          read32_frame m1 m2 (inode + 156)
            (λ i h k. write_off m1 (inode + 128) (le16_bytes 28) i (λ j. omega arith)) in
        let same : (i : ℕ) → first ≤ i → i < end → m2 i ≡ m' i = λ i h k.
          write_off m1 (inode + 128) (le16_bytes 28) i (λ j. omega arith)
          ∙ write_off m' (inode + 156) (le32_bytes xattr_magic) i (λ j. omega arith) in
        (
          record fs { mem = m2 },
          rw (no, e, o) refl,
          Holds-frame m' m2 first first end _ _ _ same after,
          magic ∙ read32-write32 m' (inode + 156) xattr_magic,
        )

    addto_inode-full :
        w < q + needed_size a
        → add_to_inode add_data info force a.name_index a.name a.value inode fs
          ≡ xattr_addto_block add_data info force inode a.name_index a.name a.value fs
    unfolding add_to_inode xattr_addto_inode
    addto_inode-full k =
        let first = inode + 160 in
        let no : (inode == 0) ≡ false = ground arith in
        let e =
          addto_full force fs.mem first first (inode + info.inode_size) attributes q w a holds
            short_name k in
        rw (no, e) refl

    addto_inode-block :
        (block_num : ℕ) (bgs' : List BlockGroupInfo)
        → inode + info.inode_size ≤ fs.brk
        → xattr_list_find fs.xattrs inode ≡ none
        → Storable fs.brk (fs.brk + info.block_size) a
        → w < q + needed_size a
        → needed_size a + 36 ≤ info.block_size
        → allocate_block force fs.bgs ≡ (returns block_num, bgs')
        → add_data fs.queued (record { address = fs.brk; len = info.block_size; block = block_num })
          ≡ true
        → (fs' : XattrStore) × (add_to_inode add_data info force a.name_index a.name a.value inode
              fs
            ≡ (returns true, fs'))
          × InInode info inode fs'.mem attributes q w
          × InBlock info inode a fs block_num fs'
    unfolding xattr_addto_block get_xattr_block_for_inode new_xattr_block xattr_list_find
        ext4_xattr_hash_entry
    addto_inode-block block_num bgs' l none_yet s full room free queue =
        let block = fs.brk in
        let first = block + 32 in
        let (b, c) = Entries-bounds fs.mem _ _ _ q w attributes holds.entries in
        let g = holds.gap in
        let apart : inode + 160 ≤ block = omega arith in
        let m1 = start_block info inode block block_num fs.mem in
        let (m2, e, after, below, above) =
          addto_room-Holds force m1 block first (block + info.block_size) [] first
            (block + info.block_size) a
            (start_block-Holds info inode block block_num fs.mem apart (omega arith)) s short_name
            (omega arith) in
        let hash = entry_hash m2 block first in
        let m3 = write32 m2 (first + 12) hash in
        let off : (i : ℕ) → (first + 12 ≤ i → first + 16 ≤ i) → m3 i ≡ m2 i =
          λ i h. write_off m2 (first + 12) (le32_bytes hash) i (λ j. omega (arith, h j)) in
        let low : (i : ℕ) → i < block → m3 i ≡ m1 i =
          λ i h. off i (λ j. omega arith) ∙ below i (omega arith) in
        let same = self_eq inode in
        let (t, entry, ends) = after.entries in
        (
          record fs {
            bgs = bgs';
            mem = m3;
            brk = block + info.block_size;
            xattrs = (inode, block) ∷ fs.xattrs;
            queued =
                record { address = fs.brk; len = info.block_size; block = block_num } ∷ fs.queued;
          },
          addto_inode-full full ∙ rw (none_yet, free, queue, e) refl,
          Holds-frame fs.mem m3 (inode + 160) (inode + 160) (inode + info.inode_size) q w attributes
              (λ i h k.
                low i (omega arith)
                ∙ start_block_inode info inode block block_num fs.mem apart i h (omega arith))
              holds,
          (
            record {
              entries = (t, EntryAt-hash m2 block first _ hash a (omega arith) entry, ends);
              gap = after.gap;
              zeros = λ i h k. off i (λ j. omega arith) ∙ after.zeros i h k;
            },
            rw same refl,
            read32_frame m1 m3 (inode + 104) (λ i h k. low i (omega arith))
                ∙ start_block-file_acl info inode block block_num fs.mem apart,
            refl,
          ),
        )

    -- For an inode, not at address 0 and in front of the memory that calloc gives next, whose own
    -- region holds attributes and that has no block of attributes yet; for an attribute with a name
    -- of at most 255 bytes, an index and lengths that fit their fields, that sorts behind the others and
    -- that either fits in the inode together with the end marker, or does not fit there but in a
    -- block; if a block is free and the sparse file takes it: xattr_add, behind get_inode, succeeds. It
    -- appends the attribute in the inode, marked by the magic number, if it fits there. Otherwise
    -- the attributes in the inode stay, and the attribute is alone in a new block, which the inode
    -- names and which is queued for the image.
    pub add_to_inode-Stored :
        (block_num : ℕ) (bgs' : List BlockGroupInfo)
        → inode + info.inode_size ≤ fs.brk
        → xattr_list_find fs.xattrs inode ≡ none
        → Storable (inode + 160) (inode + info.inode_size) a
        → Storable fs.brk (fs.brk + info.block_size) a
        → sorted (attributes ++ a ∷ []) ≡ true
        → (q + needed_size a + 4 ≤ w) ⊎ (w < q + needed_size a)
        → needed_size a + 36 ≤ info.block_size
        → allocate_block force fs.bgs ≡ (returns block_num, bgs')
        → add_data fs.queued (record { address = fs.brk; len = info.block_size; block = block_num })
          ≡ true
        → (fs' : XattrStore) × (add_to_inode add_data info force a.name_index a.name a.value inode
              fs
            ≡ (returns true, fs'))
          × (((q + needed_size a + 4 ≤ w)
                × InInode info inode fs'.mem
                    (attributes ++ a ∷ [])
                    (q + xattr_len (length a.name))
                    (w - xattr_size (length a.value))
                × (read32 fs'.mem (inode + 156) ≡ xattr_magic))
              ⊎ ((w < q + needed_size a)
                  × InInode info inode fs'.mem attributes q w
                  × InBlock info inode a fs block_num fs'))
    add_to_inode-Stored block_num bgs' l none_yet si sb o (inl fits) room free queue =
        let (fs', e, i, m) = addto_inode-fits si o fits in (fs', e, inl (fits, i, m))
    add_to_inode-Stored block_num bgs' l none_yet si sb o (inr full) room free queue =
        let (fs', e, i, b) = addto_inode-block block_num bgs' l none_yet sb full room free queue in
        (fs', e, inr (full, i, b))
