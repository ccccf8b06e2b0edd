-- ===== src/Ext4/Groups/FirstFit.antt =====
-- The loops over the block groups (ext4_utils/allocate.c) are a first fit.
use android_platform_system.Prelude.{
  ℕ, suc, ◌+◌, ◌≤◌, ◌<◌, ◌≡◌, ◌⊎◌, inl, inr, refl, subst, sym, Bool, false, ◌==◌, Bool-cases, arith,
  ltb, add32, List, [], ◌∷◌, Option, none, some,
}
use android_platform_system.Ext4.Exit.{Outcome, returns}
use android_platform_system.Ext4.Bitmap.{Bitmap}
use android_platform_system.Ext4.BlockGroup.{BlockGroupInfo}
use android_platform_system.Ext4.BlockGroup.Fill.{Filled}
use android_platform_system.Ext4.BlockGroup.Reserve.{
  IsGroup, reserved, reserve_next, reserved-IsGroup,
}
use android_platform_system.Ext4.Groups.{
  allocate_failed, allocate_blocks_from_block_group, or_later, Searched, first_group,
}

-- A group after `len` of its free blocks went to the caller, up to its bitmap.
abbrev pub allocated : BlockGroupInfo → ℕ → Bitmap → BlockGroupInfo
allocated bg len bm = record (reserved bg bg.first_free_block len bm) {
  data_blocks_used = add32 bg.data_blocks_used len;
}

-- `bg'` is `bg` with its next `len` blocks in use: their bits were clear and are the only ones that
-- changed.
pub record Takes (len : ℕ) (bg bg' : BlockGroupInfo) : Type 0 where
  pub enough : len ≤ bg.free_blocks
  pub bitmap : Filled bg.block_bitmap bg.first_free_block len bg'.block_bitmap
  pub rest : bg' ≡ allocated bg len bg'.block_bitmap

module _ (blocks_per_group limit : ℕ) (force : Bool) (len : ℕ) (bg : BlockGroupInfo)
    (g : IsGroup blocks_per_group limit bg) where
  -- A group with fewer than `len` free blocks fails and stays as it is; any other gives its first
  -- free block and takes the next `len` blocks, keeping the invariant.
  pub allocate_blocks_from_block_group_lem :
      ((bg.free_blocks < len)
        × (allocate_blocks_from_block_group force len bg ≡ (returns allocate_failed, bg)))
      ⊎ ((bg' : BlockGroupInfo) × (allocate_blocks_from_block_group force len bg
            ≡ (returns (bg.first_block + bg.first_free_block), bg'))
          × Takes len bg bg'
          × IsGroup blocks_per_group limit bg')
  unfolding allocate_blocks_from_block_group
  allocate_blocks_from_block_group_lem = elim (Bool-cases (ltb bg.free_blocks len)) [
    | inl y ↦ inl (ground arith, rw y)
    | inr n ↦
        let h : len ≤ bg.free_blocks = ground arith in
        let (bm, e, f) = reserve_next blocks_per_group limit force bg len g h in
        let r = reserved-IsGroup blocks_per_group limit bg len bm g h f in
        let a : add32 bg.first_block bg.first_free_block ≡ bg.first_block + bg.first_free_block =
          omega (arith, g.free, g.limit_in, g.numbered) in
        inr (
          allocated bg len bm,
          rw (n, e, a),
          record { enough = h; bitmap = f; rest = refl },
          record {
            bytes = r.bytes;
            room = r.room;
            small = r.small;
            limit_in = r.limit_in;
            numbered = r.numbered;
            free = r.free;
            used = r.used;
          },
        )
  ]

-- Every group keeps the invariant, each with its own limit.
abbrev pub AllGroups : ℕ → List ℕ → List BlockGroupInfo → Type 0
AllGroups blocks_per_group [] [] = Unit {0}
AllGroups blocks_per_group (limit ∷ limits) (bg ∷ bgs) =
    IsGroup blocks_per_group limit bg × AllGroups blocks_per_group limits bgs
AllGroups blocks_per_group [] (bg ∷ bgs) = ⊥
AllGroups blocks_per_group (limit ∷ limits) [] = ⊥

-- The ends of a first fit over the groups from number `i` on: none has `len` free blocks, or the
-- first that has them takes the block.
pub data FirstFit (len : ℕ) : ℕ → List BlockGroupInfo → Searched → Type 0 where
  no_group : {i : ℕ} → FirstFit len i [] (returns none, [])
  this_group :
      {i : ℕ} {bg bg' : BlockGroupInfo} {bgs : List BlockGroupInfo}
      → Takes len bg bg'
      → FirstFit len i
          (bg ∷ bgs)
          (returns (some (bg.first_block + bg.first_free_block, i)), bg' ∷ bgs)
  later_group :
      {i : ℕ} {bg : BlockGroupInfo} {bgs bgs' : List BlockGroupInfo} {o : Outcome (Option (ℕ × ℕ))}
      → bg.free_blocks < len
      → FirstFit len (suc i) bgs (o, bgs')
      → FirstFit len i (bg ∷ bgs) (o, bg ∷ bgs')

module _ (blocks_per_group : ℕ) (force : Bool) (len : ℕ) where
  -- Over groups that meet the invariant, asking the groups in turn is a first fit that ends without
  -- an error, and every group keeps the invariant with its limit.
  pub first_group-FirstFit :
      (i : ℕ) (limits : List ℕ) (bgs : List BlockGroupInfo)
      → AllGroups blocks_per_group limits bgs
      → FirstFit len i bgs (first_group force len i bgs)
        × AllGroups blocks_per_group limits (first_group force len i bgs).1
  unfolding first_group
  first_group-FirstFit i [] [] a = (no_group, tt)
  first_group-FirstFit i [] (bg ∷ bgs) a = absurd a
  first_group-FirstFit i (limit ∷ limits) [] a = absurd a
  first_group-FirstFit i (limit ∷ limits) (bg ∷ bgs) (g, a) =
      by_group (allocate_blocks_from_block_group_lem blocks_per_group limit force len bg g)
        (first_group-FirstFit (suc i) limits bgs a)
    where
      Kept : Outcome ℕ × BlockGroupInfo → Type 0
      Kept r =
          let found : Searched = or_later i bgs r (first_group force len (suc i) bgs) in
          FirstFit len i (bg ∷ bgs) found × AllGroups blocks_per_group (limit ∷ limits) found.1

      by_group :
          ((bg.free_blocks < len)
              × (allocate_blocks_from_block_group force len bg ≡ (returns allocate_failed, bg)))
            ⊎ ((bg' : BlockGroupInfo) × (allocate_blocks_from_block_group force len bg
                  ≡ (returns (bg.first_block + bg.first_free_block), bg'))
                × Takes len bg bg'
                × IsGroup blocks_per_group limit bg')
          → FirstFit len (suc i) bgs (first_group force len (suc i) bgs)
            × AllGroups blocks_per_group limits (first_group force len (suc i) bgs).1
          → FirstFit len i (bg ∷ bgs) (first_group force len i (bg ∷ bgs))
            × AllGroups blocks_per_group (limit ∷ limits) (first_group force len i (bg ∷ bgs)).1
      by_group (inl (s, e)) (f, b) = subst Kept (sym e) (later_group s f, (g, b))
      by_group (inr (bg', e, t, g')) (f, b) =
          let n : ((bg.first_block + bg.first_free_block) == allocate_failed) ≡ false =
            ground (arith, g.free, g.limit_in, g.numbered) in
          subst Kept (sym e) (rw n (this_group t, (g', a)))
