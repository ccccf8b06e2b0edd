-- ===== src/Fatblock/Extents.antt =====
-- Extents (fatblock/fatblock.h, fatblock/fs.c): the ranges of the image that something stands behind,
-- and the search for the next one that a read touches.
pub mod Overlap
use android_platform_system.Prelude.{
  ℕ, ◌+◌, ◌-◌, Bool, true, false, ◌&&◌, ◌||◌, List, [], ◌∷◌, ltb, leb, if◌then◌else◌, add64, sub64,
}

-- `struct dir`, without its extent: the bytes of `entries`, of which `size` count.
pub record Dir : Type 0 where
  pub size : ℕ
  pub entries : ℕ → ℕ

-- `struct file`, without its extent and its place in the pool of open files.
pub record File : Type 0 where
  pub path : List ℕ
  pub size : ℕ
  pub mtime : ℕ

-- `extent_type`, with the structure that a FILE or a DIR extent is the first field of.
pub data Backing : Type 0 where
  boot info fat : Backing
  file : File → Backing
  dir : Dir → Backing

pub record Extent : Type 0 where
  pub start : ℕ
  pub len : ℕ
  pub backing : Backing

-- `fs_add_extent`: the list that `fs->extents` heads.
unfoldable pub add_extent : List Extent → ℕ → ℕ → Backing → List Extent
add_extent extents start len backing =
    record { start = start; len = len; backing = backing } ∷ extents

-- How `fs_find_extent` ends: with an extent, the extents behind it, and the three numbers that it
-- stores through its pointers; with none; or at a failed assertion.
pub data Found : Type 0 where
  found : Extent → List Extent → (r_start e_start rel_len : ℕ) → Found
  not_found : Found
  assert_fails : Found

-- The four assertions.
abbrev pub checked : ℕ → Extent → List Extent → (r_rel_start e_rel_start rel_len : ℕ) → Found
checked len e behind r_rel_start e_rel_start rel_len =
    if ltb e_rel_start e.len
      && leb (add64 e_rel_start rel_len) e.len
      && ltb r_rel_start len
      && leb (add64 r_rel_start rel_len) len
    then found e behind r_rel_start e_rel_start rel_len
    else assert_fails

-- The body of the loop for an extent that is not passed over.
pub overlap : ℕ → ℕ → Extent → List Extent → Found
overlap start len e behind =
    if leb e.start start
    then checked len e behind 0 (sub64 start e.start) (
        if leb (add64 start len) (add64 e.start e.len)
        then len
        else sub64 (add64 e.start e.len) start)
    else checked len e behind (sub64 e.start start) 0 (
        if leb (add64 e.start e.len) (add64 start len)
        then e.len
        else sub64 (add64 start len) e.start)

-- `fs_find_extent`. The list is `fs->extents`, or what stands behind `last`.
pub find_extent : ℕ → ℕ → List Extent → Found
find_extent start len [] = not_found
find_extent start len (e ∷ extents) =
    let next = find_extent start len extents in
    if leb (add64 e.start e.len) start || leb (add64 start len) e.start
    then next
    else overlap start len e extents
