-- ===== src/Ext4/Contents.antt =====
-- The records of a directory (ext4_utils/contents.c). A file name is the list of its bytes. The pointer
-- to the inode number of an entry, which make_directory stores in `dentries[i].inode`, is left out.
pub mod Blocks
pub mod Tiled
pub mod Added
pub mod Directory
pub mod Whole
mod Tests
use android_platform_system.Prelude.{
  ℕ, zero, suc, ◌+◌, ◌-◌, ◌*◌, ◌/◌, ◌%◌, ◌^◌, Bool, not, ◌&&◌, ◌||◌, ltb, ◌==◌, if◌then◌else◌,
  add32, sub32, mul32, div_round_up32, List, [], ◌∷◌, length,
}
use android_platform_system.Ext4.Exit.{Outcome, returns, exits, faults, spins}

-- `ALIGN(x, 4)` of a number far below 2^31.
abbrev pub align4 : ℕ → ℕ
align4 x = 4 * ((x + 4 - 1) / 4)

-- `struct dentry`, as far as a record is made of it.
pub record Dentry : Type 0 where
  pub filename : List ℕ
  pub file_type : ℕ

-- `struct ext4_dir_entry_2` at the byte `at` of the directory's data.
pub record DirEntry : Type 0 where
  pub at : ℕ
  pub inode : ℕ
  pub rec_len : ℕ
  pub name_len : ℕ
  pub entry_type : ℕ
  pub name : List ℕ

unfoldable pub size_loop : ℕ → ℕ → List Dentry → ℕ
size_loop block_size len [] = len
size_loop block_size len (d ∷ dentries) =
    let dentry_len = (8 + align4 (length d.filename)) % 2 ^ 32 in
    let padded =
      if ltb block_size (add32 (len % block_size) dentry_len)
      then add32 len (sub32 block_size (len % block_size))
      else len in
    size_loop block_size (add32 padded dentry_len) dentries

unfoldable pub dentry_size : ℕ → List Dentry → ℕ
unfolding size_loop
dentry_size block_size dentries = size_loop block_size 24 dentries

-- The records that were added, the newest first: it is the one that `prev` points to. With the offset.
pub record DirData : Type 0 where
  pub records : List DirEntry
  pub offset : ℕ

abbrev pub lengthen : ℕ → DirEntry → DirEntry
lengthen n r = record r { rec_len = (r.rec_len + n) % 2 ^ 16 }

-- `prev->rec_len += to - *offset; *offset = to`
abbrev pub pad_prev : ℕ → ℕ → List DirEntry → Outcome DirData
pad_prev to offset [] = exits
pad_prev to offset (prev ∷ records) =
    returns (record { records = lengthen (sub32 to offset) prev ∷ records; offset = to })

abbrev pub put_record : ℕ → ℕ → ℕ → List ℕ → ℕ → Outcome DirData → Outcome DirData
put_record rec_len name_len inode name file_type (returns d) = returns (record {
  records =
      record {
        at = d.offset;
        inode = inode;
        rec_len = rec_len;
        name_len = name_len;
        entry_type = file_type;
        name = name;
      }
      ∷ d.records;
  offset = add32 d.offset rec_len;
})
put_record rec_len name_len inode name file_type exits = exits
put_record rec_len name_len inode name file_type faults = faults
put_record rec_len name_len inode name file_type spins = spins

unfoldable pub add_dentry : ℕ → ℕ → List ℕ → ℕ → DirData → Outcome DirData
add_dentry block_size inode name file_type d =
    let name_len = length name % 2 ^ 8 in
    let rec_len = (8 + align4 name_len) % 2 ^ 16 in
    let start_block = d.offset / block_size in
    let end_block = sub32 (add32 d.offset rec_len) 1 / block_size in
    put_record rec_len name_len inode name file_type (
      if not (start_block == end_block)
      then pad_prev (mul32 end_block block_size) d.offset d.records
      else returns d)

abbrev pub then_with : Outcome DirData → (DirData → Outcome DirData) → Outcome DirData
then_with (returns d) k = k d
then_with exits k = exits
then_with faults k = faults
then_with spins k = spins

-- The test for a record that ends too late; `more` are the entries that follow.
abbrev pub checked_end : ℕ → List Dentry → DirData → Outcome DirData
checked_end len more d =
    if ltb len d.offset || ((d.offset == len) && ltb 0 (length more)) then exits else returns d

unfoldable pub entries_loop : ℕ → ℕ → List Dentry → DirData → Outcome DirData
unfolding add_dentry
entries_loop block_size len [] d = returns d
entries_loop block_size len (e ∷ dentries) d =
    then_with
      (then_with (add_dentry block_size 0 e.filename e.file_type d) (checked_end len dentries))
      (entries_loop block_size len dentries)

-- `dentry->rec_len += len - offset`
abbrev pub pad_last : ℕ → ℕ → List DirEntry → Outcome DirData
pad_last len offset [] = faults
pad_last len offset (last ∷ records) =
    returns (record { records = lengthen (sub32 len offset) last ∷ records; offset = offset })

abbrev pub ext4_ft_dir : ℕ
ext4_ft_dir = 2

-- `make_directory` from `dentry = NULL` on, with the data that was allocated: `len` bytes.
unfoldable pub fill_directory : ℕ → ℕ → ℕ → ℕ → List Dentry → Outcome DirData
unfolding add_dentry entries_loop
fill_directory block_size len inode_num dir_inode_num dentries =
    then_with
      (add_dentry block_size inode_num (b'.' ∷ []) ext4_ft_dir
        (record { records = []; offset = 0 }))
      (λ d. then_with (add_dentry block_size dir_inode_num (b'.' ∷ b'.' ∷ []) ext4_ft_dir d) (λ d'.
        then_with (entries_loop block_size len dentries d') (λ r. pad_last len r.offset r.records)))

-- The bytes of a directory: whole blocks.
abbrev pub directory_len : ℕ → List Dentry → ℕ
directory_len block_size dentries =
    mul32 (div_round_up32 (dentry_size block_size dentries) block_size) block_size
