-- ===== src/Ext4/Extents.antt =====
-- The blocks of a file as extents (ext4_utils/extent.c). An extent tree has one level here: up to
-- three extents stand in the inode itself, more in one block that the inode points to.
pub mod Lookup
pub mod Run
pub mod Tests
use android_platform_system.Prelude.{
  ℕ, zero, suc, ◌+◌, ◌-◌, ◌*◌, ◌/◌, ◌%◌, ◌^◌, Bool, true, false, ◌&&◌, ltb, leb, ◌==◌,
  if◌then◌else◌, add32, sub32, mul32, add64, sub64, mul64, List, [], ◌∷◌, ◌++◌, Option, none, some,
}
use Prim.Native.Nat.{bit_or}
use android_platform_system.Ext4.Exit.{returns, faults, spins}
use android_platform_system.Ext4.Geometry.{FsInfo}
use android_platform_system.Ext4.Store.{
  Ptr, null, Store, Cmd, pure, ◌>>=◌, ◌>>◌, fail, add_zeros, set_word,
}
use android_platform_system.Ext4.Regions.{
  RegionList, BlockAllocation, with_fuel, block_allocation_num_regions, get_oob_block, get_region,
  get_next_region, last_region, rewind_alloc,
}
use android_platform_system.Ext4.Regions.Split.{reduce_allocation, reserve_oob_blocks, free_alloc}
use android_platform_system.Ext4.Allocation.{allocate_blocks}

-- The fields of `struct ext4_inode` that extents and indirect blocks set; `i_block` is its array of
-- 15 words.
pub record Ext4Inode : Type 0 where
  pub i_size_lo : ℕ
  pub i_size_high : ℕ
  pub i_blocks_lo : ℕ
  pub l_i_blocks_high : ℕ
  pub i_flags : ℕ
  pub i_block : ℕ → ℕ

abbrev pub ext4_ext_magic : ℕ
ext4_ext_magic = 0xf30a

abbrev pub ext4_extents_fl : ℕ
ext4_extents_fl = 0x80000

-- The three words of a `struct ext4_extent_header` with all its fields set, and those of a
-- `struct ext4_extent`, on a little-endian host.
abbrev pub header_word : ℕ → ℕ → ℕ → ℕ → ℕ
header_word entries max_entries depth i =
    if i == 0
    then ext4_ext_magic + 2 ^ 16 * (entries % 2 ^ 16)
    else if i == 1
    then max_entries % 2 ^ 16 + 2 ^ 16 * depth
    else 0

abbrev pub extent_word : ℕ → ℕ → ℕ → ℕ → ℕ
extent_word file_block region_len region_block i =
    if i == 0 then file_block else if i == 1 then region_len % 2 ^ 16 else region_block

-- Three words written from place `at` on.
abbrev pub write_words : ℕ → (ℕ → ℕ) → (ℕ → ℕ) → ℕ → ℕ
write_words at three words i = if leb at i && ltb i (at + 3) then three (i - at) else words i

-- `for (; !last_region(alloc); extent++, get_next_region(alloc))`: `at` is the word that `extent`
-- points to, in the array of `limit` words that holds the extents. A write behind the array faults.
unfoldable pub extents_loop :
    ℕ → ℕ → ℕ → ℕ → BlockAllocation → (ℕ → ℕ) → Cmd (BlockAllocation × (ℕ → ℕ))
unfolding last_region get_region get_next_region
extents_loop zero limit at file_block alloc words = λ s. (spins, s)
extents_loop (suc fuel) limit at file_block alloc words =
    if last_region alloc then pure (alloc, words) else (do
      region ← get_region alloc
      (if ltb limit (at + 3) then (λ s. (faults, s)) else pure tt)
      next ← get_next_region alloc
      extents_loop fuel limit (at + 3) (add32 file_block (region.1)) next
          (write_words at (extent_word file_block (region.1) (region.0)) words))

-- `DIV_ROUND_UP(len, info.block_size)` of a `u64`, stored in a `u32`.
abbrev pub blocks_for : ℕ → ℕ → ℕ
blocks_for block_size len = sub64 (add64 len block_size) 1 / block_size % 2 ^ 32

-- The words of the block with number `b` in the image replaced.
abbrev pub set_block : ℕ → (ℕ → ℕ) → Cmd (Unit {0})
set_block b words s =
    (returns tt, record s { image = λ b' i. if b' == b then words i else s.image b' i })

-- A piece of a file's data in the image: `len` bytes of the data from `offset` on, at block `block`.
pub record Piece : Type 0 where
  pub offset : ℕ
  pub len : ℕ
  pub block : ℕ

module _ (info : FsInfo) where
  -- The loop of `extent_create_backing` and `extent_create_backing_file`. `backing_len` is a `u64`,
  -- `len` a `u32`. The pieces stand for the calls of `sparse_file_add_data` on the buffer, or of
  -- `sparse_file_add_file` on the file.
  unfoldable pub backing_loop : ℕ → ℕ → ℕ → BlockAllocation → Cmd (List Piece)
  unfolding get_region get_next_region
  backing_loop zero offset backing_len alloc = λ s. (spins, s)
  backing_loop (suc fuel) offset backing_len alloc = if backing_len == 0 then pure [] else (do
    region ← get_region alloc
    let bytes = mul32 (region.1) info.block_size
    let len = (if ltb bytes backing_len then bytes else backing_len) % 2 ^ 32
    next ← get_next_region alloc
    rest ← backing_loop fuel (add64 offset len) (sub64 backing_len len) next
    pure (record { offset = offset; len = len; block = region.0 } ∷ rest))

  unfoldable pub extent_create_backing : BlockAllocation → ℕ → Cmd (List Piece)
  unfolding backing_loop
  extent_create_backing alloc backing_len =
      with_fuel (λ fuel. backing_loop fuel 0 backing_len alloc)

  -- The extents in the inode, whose i_block has EXT4_N_BLOCKS, 15, words.
  unfoldable pub write_inline : BlockAllocation → ℕ → Ext4Inode → Cmd (BlockAllocation × Ext4Inode)
  unfolding extents_loop
  write_inline alloc allocation_len inode = do
    let words = write_words 0 (header_word allocation_len 3 0) inode.i_block
    r ← with_fuel (λ fuel. extents_loop fuel 15 3 0 alloc words)
    pure (r.0, record inode { i_block = r.1 })

  -- `info.block_size - sizeof(hdr) / sizeof(extent)`: both are 12 bytes.
  abbrev pub fits_in_block : ℕ → Bool
  fits_in_block allocation_len = leb allocation_len (info.block_size - 1)

  -- The extents in the block `extent_block`. `none` is the return of NULL; the header in the inode
  -- has been written by then.
  unfoldable pub write_leaf :
      Bool → BlockAllocation → ℕ → ℕ → Ext4Inode → Cmd (Option BlockAllocation × Ext4Inode)
  unfolding extents_loop add_zeros
  write_leaf force alloc allocation_len extent_block inode = do
    let head = write_words 0 (header_word 1 3 1) inode.i_block
    let root = write_words 3 (λ i. if i == 1 then extent_block else 0) head
    let inode' = record inode { i_block = root }
    add_zeros extent_block
    (if fits_in_block allocation_len
        then (do
          let leaf =
              write_words 0 (header_word allocation_len ((info.block_size - 12) / 12) 0) (λ i. 0)
          r ← with_fuel (λ fuel. extents_loop fuel (info.block_size / 4) 3 0 alloc leaf)
          set_block extent_block (r.1)
          pure (some (r.0), inode'))
        else fail force (none, inode'))

  -- The sizes that the inode stores at the end of `do_inode_allocate_extents`.
  abbrev pub with_sizes : ℕ → ℕ → Ext4Inode → Ext4Inode
  with_sizes block_len len inode =
      let blocks = mul64 block_len info.block_size / 512 in
      record inode {
        i_flags = bit_or inode.i_flags ext4_extents_fl;
        i_size_lo = len % 2 ^ 32;
        i_size_high = len / 2 ^ 32 % 2 ^ 32;
        i_blocks_lo = blocks % 2 ^ 32;
        l_i_blocks_high = blocks / 2 ^ 32 % 2 ^ 16;
      }

  -- The part of `do_inode_allocate_extents` behind the choice of `extent_block`, which is 0 if
  -- there is none.
  unfoldable pub attach_extents :
      Bool → ℕ → ℕ → ℕ → ℕ → BlockAllocation → Ext4Inode → Cmd (Option BlockAllocation × Ext4Inode)
  unfolding write_inline write_leaf rewind_alloc
  attach_extents force len block_len allocation_len extent_block alloc inode =
      if extent_block == 0
      then (do
        r ← write_inline alloc allocation_len inode
        pure (some (rewind_alloc (r.0)), with_sizes block_len len (r.1)))
      else (do
        r ← write_leaf force alloc allocation_len extent_block inode
        (elim (r.0) [
          | none ↦ pure (none, r.1)
          | some alloc' ↦
              pure (some (rewind_alloc alloc'), with_sizes (add32 block_len 1) len (r.1))
        ]))

  -- The part behind `allocate_blocks`.
  unfoldable pub choose_extents :
      Bool → ℕ → ℕ → Ext4Inode → BlockAllocation → Cmd (Option BlockAllocation × Ext4Inode)
  unfolding attach_extents reduce_allocation reserve_oob_blocks block_allocation_num_regions
      get_oob_block
  choose_extents force len block_len inode alloc = do
    allocation_len ← block_allocation_num_regions alloc
    (if leb allocation_len 3
        then (do
          alloc' ← reduce_allocation alloc 1
          attach_extents force len block_len allocation_len 0 alloc' inode)
        else (do
          r ← reserve_oob_blocks alloc 1
          extent_block ← get_oob_block (r.1) 0
          attach_extents force len block_len allocation_len extent_block (r.1) inode))

  unfoldable pub do_inode_allocate_extents :
      Bool → Ext4Inode → ℕ → Cmd (Option BlockAllocation × Ext4Inode)
  do_inode_allocate_extents force inode len = do
    let block_len = blocks_for info.block_size len
    found ← allocate_blocks force (add32 block_len 1)
    (elim found [
      | none ↦ fail force (none, inode)
      | some alloc ↦ choose_extents force len block_len inode alloc
    ])

  -- The data of the file as pieces, and the inode. `inode_allocate_data_extents` gives `backing_len`
  -- bytes a buffer, `inode_allocate_file_extents` takes all from the file, so that its `backing_len`
  -- is `len`, and `inode_allocate_extents` has none.
  unfoldable pub inode_allocate_backed : Bool → Ext4Inode → ℕ → ℕ → Cmd (List Piece × Ext4Inode)
  unfolding do_inode_allocate_extents extent_create_backing free_alloc
  inode_allocate_backed force inode len backing_len = do
    r ← do_inode_allocate_extents force inode len
    (elim (r.0) [
      | none ↦ fail force ([], r.1)
      | some alloc ↦ (do
        pieces ← (if backing_len == 0 then pure [] else extent_create_backing alloc backing_len)
        free_alloc alloc
        pure (pieces, r.1))
    ])

  unfoldable pub inode_allocate_data_extents :
      Bool → Ext4Inode → ℕ → ℕ → Cmd (List Piece × Ext4Inode)
  unfolding inode_allocate_backed
  inode_allocate_data_extents force inode len backing_len =
      inode_allocate_backed force inode len backing_len

  unfoldable pub inode_allocate_file_extents : Bool → Ext4Inode → ℕ → Cmd (List Piece × Ext4Inode)
  unfolding inode_allocate_backed
  inode_allocate_file_extents force inode len = inode_allocate_backed force inode len len

  unfoldable pub inode_allocate_extents : Bool → Ext4Inode → ℕ → Cmd Ext4Inode
  unfolding inode_allocate_backed
  inode_allocate_extents force inode len = do
    r ← inode_allocate_backed force inode len 0
    pure (r.1)
