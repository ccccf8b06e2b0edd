-- ===== src/Ext4/Xattr/Started.antt =====
-- The block that get_xattr_block_for_inode (ext4_utils/allocate.c) starts, and the hash of an entry.
use android_platform_system.Prelude.{ℕ, ◌+◌, ◌/◌, ◌%◌, ◌^◌, ◌≤◌, ◌<◌, ◌≡◌, refl, ◌∙◌, arith, []}
use android_platform_system.Prelude.Memory.{Memory, memset}
use android_platform_system.Ext4.Geometry.{FsInfo}
use android_platform_system.Ext4.Xattr.{read32, write32, le32_bytes}
use android_platform_system.Ext4.Xattr.Region.{Attribute, EntryAt, Holds}
use android_platform_system.Ext4.Xattr.Written.{write_at, write_off, memset_at, memset_off}
use android_platform_system.Ext4.Xattr.Inode.{xattr_magic, start_block}

pub read32-write32 : (m : Memory) (p v : ℕ) → read32 (write32 m p v) p ≡ v % 2 ^ 32
read32-write32 m p v =
    let a = write_at m p (le32_bytes v) p 0 (omega arith) (omega arith) in
    let b = write_at m p (le32_bytes v) (p + 1) 1 refl (omega arith) in
    let c = write_at m p (le32_bytes v) (p + 2) 2 refl (omega arith) in
    let d = write_at m p (le32_bytes v) (p + 2 + 1) 3 (omega arith) (omega arith) in
    omega (arith, a, b, c, d)

pub read32_frame :
    (m m' : Memory) (p : ℕ) → ((i : ℕ) → p ≤ i → i < p + 4 → m' i ≡ m i) → read32 m' p ≡ read32 m p
read32_frame m m' p same =
    rw
      (
        same p (omega arith) (omega arith),
        same (p + 1) (omega arith) (omega arith),
        same (p + 2) (omega arith) (omega arith),
        same (p + 2 + 1) (omega arith) (omega arith),
      )
      refl

-- The hash of an entry is none of what makes it hold an attribute.
pub EntryAt-hash :
    (m : Memory) (base p val hash : ℕ) (a : Attribute)
    → p + 16 ≤ val
    → EntryAt m base p val a
    → EntryAt (write32 m (p + 12) hash) base p val a
EntryAt-hash m base p val hash a l e =
    let off : (i : ℕ) → (p + 12 ≤ i → p + 12 + 4 ≤ i) → write32 m (p + 12) hash i ≡ m i =
      λ i h. write_off m (p + 12) (le32_bytes hash) i h in
    record {
      name_len = off p (λ j. omega arith) ∙ e.name_len;
      index = off (p + 1) (λ j. omega arith) ∙ e.index;
      offset = rw (off (p + 2) (λ j. omega arith), off (p + 2 + 1) (λ j. omega arith)) e.offset;
      in_place = read32_frame m _ (p + 4) (λ i k n. off i (λ j. omega arith)) ∙ e.in_place;
      size = read32_frame m _ (p + 8) (λ i k n. off i (λ j. omega arith)) ∙ e.size;
      name_bytes = λ i h. off (p + 16 + i) (λ j. omega arith) ∙ e.name_bytes i h;
      value_bytes = λ i h. off (val + i) (λ j. omega arith) ∙ e.value_bytes i h;
      visible = e.visible;
      short = e.short;
    }

module _ (info : FsInfo) (inode block block_num : ℕ) (m : Memory)
    (apart : inode + 160 ≤ block) where
  abbrev zeroed : Memory
  zeroed = memset m block 0 info.block_size

  abbrev with_magic : Memory
  with_magic = write32 zeroed block xattr_magic

  abbrev with_refcount : Memory
  with_refcount = write32 with_magic (block + 4) 1

  abbrev with_header : Memory
  with_header = write32 with_refcount (block + 8) 1

  abbrev more_blocks : ℕ
  more_blocks = read32 with_header (inode + 28) + info.block_size / 512

  abbrev with_count : Memory
  with_count = write32 with_header (inode + 28) more_blocks

  start_block_off :
      (i : ℕ)
      → inode + 160 ≤ i
      → (block ≤ i → block + 32 ≤ i)
      → start_block info inode block block_num m i ≡ zeroed i
  unfolding start_block
  start_block_off i h k =
      write_off with_count (inode + 104) (le32_bytes block_num) i (λ j. omega arith)
      ∙ write_off with_header (inode + 28) (le32_bytes more_blocks) i (λ j. omega arith)
      ∙ write_off with_refcount (block + 8) (le32_bytes 1) i (λ j. omega (arith, k (omega arith)))
      ∙ write_off with_magic (block + 4) (le32_bytes 1) i (λ j. omega (arith, k (omega arith)))
      ∙ write_off zeroed block (le32_bytes xattr_magic) i (λ j. omega (arith, k j))

  pub start_block_inode :
      (i : ℕ) → inode + 160 ≤ i → i < block → start_block info inode block block_num m i ≡ m i
  start_block_inode i h k =
      start_block_off i h (λ j. omega arith)
      ∙ memset_off m block 0 info.block_size i (λ j. omega arith)

  start_block_zeros :
      (i : ℕ)
      → block + 32 ≤ i
      → i < block + info.block_size
      → start_block info inode block block_num m i ≡ 0
  start_block_zeros i h k =
      start_block_off i (omega arith) (λ j. h)
      ∙ memset_at m block 0 info.block_size i (omega arith) k

  pub start_block-file_acl :
      read32 (start_block info inode block block_num m) (inode + 104) ≡ block_num % 2 ^ 32
  unfolding start_block
  start_block-file_acl = read32-write32 with_count (inode + 104) block_num

  pub start_block-Holds :
      36 ≤ info.block_size
      → Holds
          (start_block info inode block block_num m)
          block
          (block + 32)
          (block + info.block_size)
          []
          (block + 32)
          (block + info.block_size)
  start_block-Holds h = record {
    entries = (refl, refl);
    gap = omega arith;
    zeros = start_block_zeros;
  }
