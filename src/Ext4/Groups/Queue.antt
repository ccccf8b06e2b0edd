-- ===== src/Ext4/Groups/Queue.antt =====
-- A call of `allocate_block` (ext4_utils/allocate.c): the free blocks are handed out as from a
-- queue.
use android_platform_system.Prelude.{
  ℕ, zero, suc, ◌+◌, ◌-◌, ◌≤◌, ◌<◌, ◌≡◌, ◌⊎◌, inl, inr, refl, ap, arith, Bool, true, ◌==◌, List, [],
  ◌∷◌, ◌++◌, Option, none, some, ◌∙◌,
}
use android_platform_system.Ext4.Exit.{Outcome, returns, exits, faults, spins}
use android_platform_system.Ext4.BlockGroup.{BlockGroupInfo}
use android_platform_system.Ext4.BlockGroup.Reserve.{IsGroup}
use android_platform_system.Ext4.Groups.{allocate_failed, Searched, first_group, allocate_block}
use android_platform_system.Ext4.Groups.FirstFit.{
  Takes, FirstFit, no_group, this_group, later_group, AllGroups, first_group-FirstFit,
}

-- `n` numbers from `a` on.
abbrev pub range : ℕ → ℕ → List ℕ
range a zero = []
range a (suc n) = a ∷ range (suc a) n

-- The numbers of the free blocks, group by group.
abbrev pub free_list : List BlockGroupInfo → List ℕ
free_list [] = []
free_list (bg ∷ bgs) = range (bg.first_block + bg.first_free_block) bg.free_blocks ++ free_list bgs

-- A search took the head of the queue, or found it empty.
abbrev pub Pops : List BlockGroupInfo → Searched → Type 0
Pops bgs (returns none, bgs') = (free_list bgs ≡ []) × (bgs' ≡ bgs)
Pops bgs (returns (some (block, i)), bgs') = free_list bgs ≡ block ∷ free_list bgs'
Pops bgs (exits, bgs') = ⊥
Pops bgs (faults, bgs') = ⊥
Pops bgs (spins, bgs') = ⊥

range_head : (a n : ℕ) → 1 ≤ n → range a n ≡ a ∷ range (suc a) (n - 1)
range_head a n h = let e : n ≡ suc (n - 1) = omega arith in ap (λ k. range a k) e

Takes-range :
    (blocks_per_group limit : ℕ) (bg bg' : BlockGroupInfo)
    → IsGroup blocks_per_group limit bg
    → Takes 1 bg bg'
    → range (bg.first_block + bg.first_free_block) bg.free_blocks
      ≡ (bg.first_block + bg.first_free_block)
        ∷ range (bg'.first_block + bg'.first_free_block) bg'.free_blocks
Takes-range blocks_per_group limit bg bg' g t =
    let a = bg.first_block + bg.first_free_block in
    let same : (bg.first_free_block == bg.first_free_block) ≡ true = ground arith in
    let f : bg'.first_block + bg'.first_free_block ≡ suc a =
      ap (λ (b : BlockGroupInfo). b.first_block + b.first_free_block) t.rest
      ∙ rw same (omega arith) in
    let n : bg'.free_blocks ≡ bg.free_blocks - 1 =
      ap (λ (b : BlockGroupInfo). b.free_blocks) t.rest ∙ omega arith in
    range_head a bg.free_blocks t.enough ∙ rw (f, n) refl

range_none : (a n : ℕ) → n < 1 → range a n ≡ []
range_none a zero h = refl
range_none a (suc n) h = absurd (omega arith)

skip :
    (bg : BlockGroupInfo) (bgs bgs' : List BlockGroupInfo) (o : Outcome (Option (ℕ × ℕ)))
    → bg.free_blocks < 1
    → Pops bgs (o, bgs')
    → Pops (bg ∷ bgs) (o, bg ∷ bgs')
skip bg bgs bgs' (returns none) h (e, f) =
    (rw (range_none (bg.first_block + bg.first_free_block) bg.free_blocks h) e, ap (λ l. bg ∷ l) f)
skip bg bgs bgs' (returns (some (block, i))) h e =
    rw (range_none (bg.first_block + bg.first_free_block) bg.free_blocks h) e
skip bg bgs bgs' exits h e = e
skip bg bgs bgs' faults h e = e
skip bg bgs bgs' spins h e = e

FirstFit-Pops :
    (blocks_per_group i : ℕ) (limits : List ℕ) (bgs : List BlockGroupInfo) (r : Searched)
    → AllGroups blocks_per_group limits bgs
    → FirstFit 1 i bgs r
    → Pops bgs r
FirstFit-Pops blocks_per_group i limits [] r a no_group = (refl, refl)
FirstFit-Pops blocks_per_group i [] (bg ∷ bgs) r a f = absurd a
FirstFit-Pops blocks_per_group i (limit ∷ limits) (bg ∷ bgs) r (g, a) (this_group {bg' = bg'} t) =
    ap (λ l. l ++ free_list bgs) (Takes-range blocks_per_group limit bg bg' g t)
FirstFit-Pops blocks_per_group i (limit ∷ limits) (bg ∷ bgs) r (g, a)
      (later_group {bgs' = bgs'} {o = o} s f) =
    skip bg bgs bgs' o s (FirstFit-Pops blocks_per_group (suc i) limits bgs (o, bgs') a f)

-- One call takes the head of the queue, or fails where it is empty.
abbrev pub One : ℕ → List ℕ → Bool → List BlockGroupInfo → Type 0
One blocks_per_group limits force bgs =
    ((free_list bgs ≡ []) × (allocate_block force bgs ≡ (returns allocate_failed, bgs)))
    ⊎ ((block : ℕ) × (bgs' : List BlockGroupInfo) × (allocate_block force bgs
          ≡ (returns block, bgs'))
        × (free_list bgs ≡ block ∷ free_list bgs')
        × AllGroups blocks_per_group limits bgs')

head_by_case :
    (blocks_per_group : ℕ) (limits : List ℕ) (force : Bool) (bgs : List BlockGroupInfo)
    (r : Searched)
    → first_group force 1 0 bgs ≡ r
    → Pops bgs r
    → AllGroups blocks_per_group limits (r.1)
    → One blocks_per_group limits force bgs
unfolding allocate_block
head_by_case blocks_per_group limits force bgs (returns none, bgs') e (p, q) a =
    inl (p, rw (e, q) refl)
head_by_case blocks_per_group limits force bgs (returns (some (block, i)), bgs') e p a =
    inr (block, bgs', rw e refl, p, a)
head_by_case blocks_per_group limits force bgs (exits, bgs') e p a = absurd p
head_by_case blocks_per_group limits force bgs (faults, bgs') e p a = absurd p
head_by_case blocks_per_group limits force bgs (spins, bgs') e p a = absurd p

pub take_head :
    (blocks_per_group : ℕ) (limits : List ℕ) (force : Bool) (bgs : List BlockGroupInfo)
    → AllGroups blocks_per_group limits bgs
    → One blocks_per_group limits force bgs
take_head blocks_per_group limits force bgs a =
    let f = first_group-FirstFit blocks_per_group force 1 0 limits bgs a in
    head_by_case blocks_per_group limits force bgs (first_group force 1 0 bgs) refl
      (FirstFit-Pops blocks_per_group 0 limits bgs (first_group force 1 0 bgs) a (f.0)) (f.1)
