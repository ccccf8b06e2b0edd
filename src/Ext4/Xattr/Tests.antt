-- ===== src/Ext4/Xattr/Tests.antt =====
-- Runs of the extended attributes (ext4_utils/contents.c) on inodes of 256 bytes, at address 0 and at
-- address 256.
use android_platform_system.Prelude.{
  ℕ, ◌+◌, ◌<◌, ◌≤◌, ◌≡◌, ◌⊎◌, inl, inr, refl, sym, ap, subst, arith, Bool, true, false, List, [],
  ◌∷◌, replicate, some,
}
use android_platform_system.Prelude.Memory.{Memory}
use android_platform_system.Ext4.Exit.{returns}
use android_platform_system.Ext4.Xattr.{read32, is_last_entry, xattr_free_space, xattr_addto_range}
use android_platform_system.Ext4.Xattr.Region.{Attribute, EntryAt, Holds}
use android_platform_system.Ext4.Xattr.Added.{Adds, xattr_addto_range-Adds}
use android_platform_system.Ext4.Xattr.Unmarked.{xattr_addto_range-unmarked}
use android_platform_system.Ext4.BlockGroup.{BlockGroupInfo}
use android_platform_system.Ext4.Geometry.{FsInfo}
use android_platform_system.Ext4.Groups.{allocate_block}
use android_platform_system.Ext4.Groups.Queue.{take_head}
use android_platform_system.Ext4.Tests.{two_groups, full_group-IsGroup, small_group-IsGroup}
use android_platform_system.Ext4.Xattr.Inode.{Queued, XattrStore, xattr_list_find, add_to_inode}
use android_platform_system.Ext4.Xattr.Fallback.{InInode, InBlock, add_to_inode-Stored}

abbrev blank : Memory
blank i = 0

-- "selinux" with the value "u:x"
abbrev selinux_name : List ℕ
selinux_name = 115 ∷ 101 ∷ 108 ∷ 105 ∷ 110 ∷ 117 ∷ 120 ∷ []

abbrev selinux : Attribute
selinux = record { name_index = 6; name = selinux_name; value = 117 ∷ 58 ∷ 120 ∷ 0 ∷ [] }

abbrev capability_name : List ℕ
capability_name = 99 ∷ 97 ∷ 112 ∷ 97 ∷ 98 ∷ 105 ∷ 108 ∷ 105 ∷ 116 ∷ 121 ∷ []

abbrev one_attribute : Memory
one_attribute = (xattr_addto_range false blank 160 256 160 6 selinux_name selinux.value).1

selinux_added :
    (xattr_addto_range false blank 160 256 160 6 selinux_name selinux.value).0 ≡ returns (some 160)
unfolding xattr_addto_range
selinux_added = refl

free_space_left : xattr_free_space false one_attribute 160 256 ≡ returns 68
unfolding xattr_addto_range xattr_free_space
free_space_left = refl

-- A label of 72 bytes fills the inode, and the walk for the next attribute leaves it.
abbrev full_label : Attribute
full_label = record { name_index = 6; name = selinux_name; value = replicate 72 117 }

blank-Holds : Holds blank 160 160 256 [] 160 256
blank-Holds = record { entries = (refl, refl); gap = omega arith; zeros = λ i l r. refl }

xattr_addto_range-Adds_example :
    Adds false blank 160 160 256 [] 160 256 selinux
      (xattr_addto_range false blank 160 256 160 6 selinux_name (117 ∷ 58 ∷ 120 ∷ 0 ∷ []))
xattr_addto_range-Adds_example =
    xattr_addto_range-Adds false blank 160 160 256 [] 160 256 selinux blank-Holds
      (record {
        some_index = omega arith;
        index = omega arith;
        short = omega arith;
        near = omega arith;
      })
      (inr (omega arith))

xattr_addto_range-unmarked_example :
    (m' : Memory) × ((xattr_addto_range false blank 160 256 160 6 selinux_name (replicate 72 117)).1
      ≡ m')
    × EntryAt m' 160 160 184 full_label
    × (is_last_entry m' 184 ≡ false)
xattr_addto_range-unmarked_example =
    xattr_addto_range-unmarked false blank 160 160 256 [] 160 256 full_label blank-Holds
      (record {
        some_index = omega arith;
        index = omega arith;
        short = omega arith;
        near = omega arith;
      })
      (omega arith) (omega arith) (omega arith) (λ z. omega arith)

abbrev small_info : FsInfo
small_info = record {
  len = 32768;
  block_size = 1024;
  blocks_per_group = 16;
  inodes_per_group = 8;
  inode_size = 256;
  inodes = 16;
  journal_blocks = 0;
  feat_ro_compat = 0;
  feat_compat = 0;
  feat_incompat = 0;
  bg_desc_reserve_blocks = 0;
  label = [];
}

-- The inode at address 256 is the last thing in memory.
abbrev one_inode : XattrStore
one_inode = record {
  bgs = two_groups;
  mem = blank;
  brk = 512;
  inode_table = λ i. 0;
  xattrs = [];
  queued = [];
}

abbrev takes_all : List Queued → Queued → Bool
takes_all queued q = true

-- Too long for the inode.
abbrev long_label : Attribute
long_label = record { name_index = 6; name = selinux_name; value = replicate 80 117 }

abbrev head_or : ℕ → List ℕ → ℕ
head_or d [] = d
head_or d (x ∷ xs) = x

block_24_free :
    (bgs' : List BlockGroupInfo) × (allocate_block false two_groups ≡ (returns 24, bgs'))
block_24_free =
    elim (take_head 16 (16 ∷ 14 ∷ []) false two_groups
      (full_group-IsGroup, (small_group-IsGroup, tt))) [
        | inl (e, f) ↦ absurd (let x : 24 ≡ 0 = ap (head_or 0) e in omega (arith, x))
        | inr (block, bgs', e, f, a) ↦
            let x : 24 ≡ block = ap (head_or 0) f in
            (bgs', subst (λ k. allocate_block false two_groups ≡ (returns k, bgs')) (sym x) e)
      ]

add_to_inode-Stored_example :
    (fs' : XattrStore) × (add_to_inode takes_all small_info false 6 selinux_name
        (replicate 80 117)
        256
        one_inode
      ≡ (returns true, fs'))
    × (((416 + 104 + 4 ≤ 512)
          × InInode small_info 256 fs'.mem (long_label ∷ []) 440 432
          × (read32 fs'.mem 412 ≡ 0xEA020000))
        ⊎ ((512 < 416 + 104)
            × InInode small_info 256 fs'.mem [] 416 512
            × InBlock small_info 256 long_label one_inode 24 fs'))
unfolding xattr_list_find
add_to_inode-Stored_example =
    add_to_inode-Stored takes_all small_info false 256 one_inode [] 416 512 long_label
      (record { entries = (refl, refl); gap = omega arith; zeros = λ i l r. refl })
      (λ z. omega arith) (omega arith) 24 block_24_free.0 (omega arith) refl
      (record {
        some_index = omega arith;
        index = omega arith;
        short = omega arith;
        near = omega arith;
      })
      (record {
        some_index = omega arith;
        index = omega arith;
        short = omega arith;
        near = omega arith;
      })
      refl (inr (omega arith)) (omega arith) block_24_free.1 refl
