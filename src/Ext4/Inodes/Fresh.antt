-- ===== src/Ext4/Inodes/Fresh.antt =====
-- `allocate_inode` (ext4_utils/allocate.c) over all groups: the number is fresh, and is the only one
-- that becomes used.
use android_platform_system.Prelude.{
  ℕ, zero, suc, ◌+◌, ◌-◌, ◌*◌, ◌/◌, ◌^◌, ◌≤◌, ◌<◌, ◌≡◌, ◌⊎◌, inl, inr, refl, Bool, false, ◌&&◌,
  ◌||◌, length, ◌==◌, Bool-cases, arith, ltb, leb, add32, sub32, mul32, List, [], ◌∷◌,
}
use native.Mathlib.Nat.{mul-add-div_right, div-eq_of_lt, div-add-mod'}
use android_platform_system.Ext4.Bitmap.{is_set}
use android_platform_system.Ext4.BlockGroup.{BlockGroupInfo}
use android_platform_system.Ext4.Groups.{allocate_failed}
use android_platform_system.Ext4.Inodes.{
  reserve_inodes, allocate_inode_from, inode_or_later, allocate_inode, group_of_inode,
  slot_of_inode,
}
use android_platform_system.Ext4.Inodes.Laws.{
  IsInodes, reserve_inodes-IsInodes, reserve_inodes-marks, reserve_inodes_none,
}

-- Whether the inode in place `slot` of group `j` is in use.
abbrev pub slot_used : List BlockGroupInfo → ℕ → ℕ → Bool
slot_used [] j slot = false
slot_used (bg ∷ bgs) zero slot = is_set bg.inode_bitmap slot
slot_used (bg ∷ bgs) (suc j) slot = slot_used bgs j slot

abbrev pub AllInodes : ℕ → List BlockGroupInfo → Type 0
AllInodes inodes_per_group [] = Unit {0}
AllInodes inodes_per_group (bg ∷ bgs) =
    IsInodes inodes_per_group bg × AllInodes inodes_per_group bgs

abbrev pub NoInodes : List BlockGroupInfo → Type 0
NoInodes [] = Unit {0}
NoInodes (bg ∷ bgs) = (bg.free_inodes ≡ 0) × NoInodes bgs

-- Number `n` is the inode in place `slot` of group `group`, counted from `base`; it was free, and
-- from `bgs` to `bgs'` it alone became used.
pub record IsFresh (inodes_per_group base : ℕ) (bgs : List BlockGroupInfo) (n : ℕ)
    (bgs' : List BlockGroupInfo) : Type 0 where
  pub group : ℕ
  pub slot : ℕ
  pub number : n ≡ (base + group) * inodes_per_group + slot + 1
  pub in_group : slot < inodes_per_group
  pub in_list : group < length bgs
  pub was_free : slot_used bgs group slot ≡ false
  pub marks : (j s : ℕ) → slot_used bgs' j s ≡ ((j == group && s == slot) || slot_used bgs j s)
  pub valid : AllInodes inodes_per_group bgs'

abbrev Allocates : ℕ → ℕ → List BlockGroupInfo → ℕ × List BlockGroupInfo → Type 0
Allocates inodes_per_group base bgs r =
    ((r ≡ (allocate_failed, bgs)) × NoInodes bgs) ⊎ IsFresh inodes_per_group base bgs r.0 r.1

module _ (inodes_per_group base : ℕ) (bg : BlockGroupInfo) (bgs : List BlockGroupInfo)
    (g : IsInodes inodes_per_group bg) (a : AllInodes inodes_per_group bgs)
    (small : (base + length (bg ∷ bgs)) * inodes_per_group < 2 ^ 32 - 1) where
  IsFresh-here :
      0 < bg.free_inodes
      → IsFresh inodes_per_group base
          (bg ∷ bgs)
          (add32 (mul32 base inodes_per_group) bg.first_free_inode)
          ((reserve_inodes bg 1).1 ∷ bgs)
  IsFresh-here h =
      let (_, _, _, _, v) = reserve_inodes-IsInodes inodes_per_group bg 1 g (omega arith) in
      let m = reserve_inodes-marks inodes_per_group bg 1 g (omega arith) in
      record {
        group = 0;
        slot = bg.first_free_inode - 1;
        number = omega (arith, g.first, g.free);
        in_group = omega (arith, g.first, g.free);
        in_list = omega arith;
        was_free =
            ground
              (arith, g.used (bg.first_free_inode - 1) (omega (arith, g.first, g.free)), g.first);
        marks = λ j s. by_group j s (m s);
        valid = (v, a);
      }
    where
      by_group :
          (j s : ℕ)
          → is_set (reserve_inodes bg 1).1.inode_bitmap s ≡ (
              is_set bg.inode_bitmap s
              || (leb (bg.first_free_inode - 1) s && ltb s (bg.first_free_inode - 1 + 1)))
          → slot_used ((reserve_inodes bg 1).1 ∷ bgs) j s
            ≡ ((j == 0 && s == bg.first_free_inode - 1) || slot_used (bg ∷ bgs) j s)
      by_group zero s e = ground arith
      by_group (suc j) s e = ground arith

  IsFresh-later :
      (n : ℕ) (bgs' : List BlockGroupInfo)
      → IsFresh inodes_per_group (suc base) bgs n bgs'
      → IsFresh inodes_per_group base (bg ∷ bgs) n (bg ∷ bgs')
  IsFresh-later n bgs' f = record {
    group = suc f.group;
    slot = f.slot;
    number = omega (arith, f.number);
    in_group = f.in_group;
    in_list = omega (arith, f.in_list);
    was_free = f.was_free;
    marks = by_group;
    valid = (g, f.valid);
  }
    where
      by_group :
          (j s : ℕ)
          → slot_used (bg ∷ bgs') j s
            ≡ ((j == suc f.group && s == f.slot) || slot_used (bg ∷ bgs) j s)
      by_group zero s = ground arith
      by_group (suc j) s = ground (arith, f.marks j s)

  Allocates-step :
      Allocates inodes_per_group
        (suc base)
        bgs
        (allocate_inode_from inodes_per_group (suc base) bgs)
      → Allocates inodes_per_group base (bg ∷ bgs) (
          inode_or_later inodes_per_group base bgs
            (reserve_inodes bg 1)
            (allocate_inode_from inodes_per_group (suc base) bgs))
  Allocates-step r = elim (Bool-cases (bg.free_inodes == 0)) [
    | inl y ↦
        let z : bg.free_inodes ≡ 0 = ground arith in
        rw (reserve_inodes_none bg z)
          (elim r [ inl (e, n) ↦ inl (rw e, (z, n)) | inr f ↦ inr (IsFresh-later _ _ f) ])
    | inr n ↦
        let (e, _, _, _, _) = reserve_inodes-IsInodes inodes_per_group bg 1 g (ground arith) in
        let x : (bg.first_free_inode == allocate_failed) ≡ false =
          ground (arith, g.free, g.room, g.small) in
        rw (e, x) (inr (IsFresh-here (ground arith)))
  ]

allocate_inode_from-Allocates :
    (inodes_per_group base : ℕ) (bgs : List BlockGroupInfo)
    → AllInodes inodes_per_group bgs
    → (base + length bgs) * inodes_per_group < 2 ^ 32 - 1
    → Allocates inodes_per_group base bgs (allocate_inode_from inodes_per_group base bgs)
unfolding allocate_inode_from
allocate_inode_from-Allocates inodes_per_group base [] a h = inl (refl, tt)
allocate_inode_from-Allocates inodes_per_group base (bg ∷ bgs) (g, a) h =
    Allocates-step inodes_per_group base bg bgs g a h
      (allocate_inode_from-Allocates inodes_per_group (suc base) bgs a (omega arith))

pos_of_lt : {a b : ℕ} → a < b → 0 < b
pos_of_lt h = omega arith

slot_of_inode-IsFresh :
    (inodes_per_group n : ℕ) (bgs bgs' : List BlockGroupInfo)
    (f : IsFresh inodes_per_group 0 bgs n bgs')
    → n < 2 ^ 32
    → (group_of_inode inodes_per_group n ≡ f.group) × (slot_of_inode inodes_per_group n ≡ f.slot)
slot_of_inode-IsFresh inodes_per_group n bgs bgs' f h =
    let e : sub32 n 1 ≡ f.group * inodes_per_group + f.slot = omega (arith, f.number) in
    let z : f.slot / inodes_per_group ≡ 0 = div-eq_of_lt f.in_group in
    let d : (f.group * inodes_per_group + f.slot) / inodes_per_group ≡ f.group =
      omega (arith, mul-add-div_right (pos_of_lt f.in_group) f.group f.slot) in
    let m = div-add-mod' (f.group * inodes_per_group + f.slot) inodes_per_group in
    rw e (d, omega (arith, rw d at m))

number_lt :
    (inodes_per_group n : ℕ) (bgs bgs' : List BlockGroupInfo)
    → IsFresh inodes_per_group 0 bgs n bgs'
    → length bgs * inodes_per_group < 2 ^ 32 - 1
    → n < 2 ^ 32
number_lt inodes_per_group n bgs bgs' f h =
    let c : (f.group + 1) * inodes_per_group ≤ length bgs * inodes_per_group =
      grind (arith, f.in_list) in
    omega (arith, f.number, f.in_group, c)

-- If every group keeps its inode invariant and all inode numbers fit, `allocate_inode` either
-- reports that no group has a free inode and changes nothing, or returns the number of an inode
-- that was free, which is the only one that becomes used; every group keeps the invariant, and
-- `get_inode` and `add_directory` find the group and the place of that number.
pub allocate_inode-IsFresh :
    (inodes_per_group : ℕ) (bgs : List BlockGroupInfo)
    → AllInodes inodes_per_group bgs
    → length bgs * inodes_per_group < 2 ^ 32 - 1
    → ((allocate_inode inodes_per_group bgs ≡ (allocate_failed, bgs)) × NoInodes bgs)
      ⊎ ((f : IsFresh inodes_per_group 0 bgs
            (allocate_inode inodes_per_group bgs).0
            (allocate_inode inodes_per_group bgs).1)
          × (group_of_inode inodes_per_group (allocate_inode inodes_per_group bgs).0 ≡ f.group)
          × (slot_of_inode inodes_per_group (allocate_inode inodes_per_group bgs).0 ≡ f.slot))
unfolding allocate_inode
allocate_inode-IsFresh inodes_per_group bgs a h =
    elim (allocate_inode_from-Allocates inodes_per_group 0 bgs a (omega arith)) [
      | inl e ↦ inl e
      | inr f ↦
          let (d, m) =
            slot_of_inode-IsFresh inodes_per_group _ bgs _ f
              (number_lt inodes_per_group _ bgs _ f h) in
          inr (f, d, m)
    ]
