-- ===== src/Ext4/Inodes.antt =====
-- Inode numbers (ext4_utils/allocate.c): groups hand them out in order, and number `n` belongs to
-- group `(n - 1) / inodes_per_group`.
pub mod Laws
pub mod Fresh
use android_platform_system.Prelude.{
  ℕ, zero, suc, ◌+◌, ◌-◌, ◌/◌, ◌%◌, ◌^◌, Bool, true, false, List, [], ◌∷◌, ltb, ◌==◌, if◌then◌else◌,
  add32, sub32, mul32, modify,
}
use android_platform_system.Ext4.Bitmap.{Bitmap, raise}
use android_platform_system.Ext4.BlockGroup.{BlockGroupInfo}
use android_platform_system.Ext4.Groups.{allocate_failed}

-- `for (i = 0; i < num; i++)` of `reserve_inodes`: recursion on the rounds left.
pub inode_loop : ℕ → ℕ → ℕ → Bitmap → Bitmap
inode_loop zero i first bm = bm
inode_loop (suc n) i first bm = inode_loop n (add32 i 1) first (raise bm (sub32 (add32 first i) 1))

-- `reserve_inodes` on the group `aux_info.bgs[bg]`.
pub reserve_inodes : BlockGroupInfo → ℕ → ℕ × BlockGroupInfo
reserve_inodes bg num = if ltb bg.free_inodes num then (allocate_failed, bg) else (
  bg.first_free_inode,
  record bg {
    inode_bitmap = inode_loop num 0 bg.first_free_inode bg.inode_bitmap;
    first_free_inode = add32 bg.first_free_inode num;
    free_inodes = sub32 bg.free_inodes num;
  },
)

-- One round of `allocate_inode`, for the group with number `bg`.
abbrev pub inode_or_later :
    ℕ
    → ℕ
    → List BlockGroupInfo
    → ℕ × BlockGroupInfo
    → ℕ × List BlockGroupInfo
    → ℕ × List BlockGroupInfo
inode_or_later inodes_per_group bg bgs (inode, group) later =
    if inode == allocate_failed
    then (later.0, group ∷ later.1)
    else (add32 (mul32 bg inodes_per_group) inode, group ∷ bgs)

-- `for (bg = 0; bg < aux_info.groups; bg++)` of `allocate_inode`.
pub allocate_inode_from : ℕ → ℕ → List BlockGroupInfo → ℕ × List BlockGroupInfo
allocate_inode_from inodes_per_group bg [] = (allocate_failed, [])
allocate_inode_from inodes_per_group bg (group ∷ bgs) =
    inode_or_later inodes_per_group bg bgs (reserve_inodes group 1)
      (allocate_inode_from inodes_per_group (suc bg) bgs)

pub allocate_inode : ℕ → List BlockGroupInfo → ℕ × List BlockGroupInfo
allocate_inode inodes_per_group bgs = allocate_inode_from inodes_per_group 0 bgs

-- `int bg = (inode - 1) / info.inodes_per_group`, in `get_inode` and `add_directory`.
abbrev pub group_of_inode : ℕ → ℕ → ℕ
group_of_inode inodes_per_group inode = sub32 inode 1 / inodes_per_group

-- `inode -= 1; ...; inode %= info.inodes_per_group`, in `get_inode`.
abbrev pub slot_of_inode : ℕ → ℕ → ℕ
slot_of_inode inodes_per_group inode = sub32 inode 1 % inodes_per_group

-- `used_dirs` is a `u16`.
unfoldable pub add_directory : ℕ → ℕ → List BlockGroupInfo → List BlockGroupInfo
add_directory inodes_per_group inode bgs =
    modify (group_of_inode inodes_per_group inode)
      (λ bg. record bg { used_dirs = (bg.used_dirs + 1) % 2 ^ 16 }) bgs
