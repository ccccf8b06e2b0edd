-- ===== src/Ext4/Groups/Calls.antt =====
-- Calls of `allocate_block` (ext4_utils/allocate.c) in a row.
use android_platform_system.Prelude.{
  ℕ, zero, suc, ◌+◌, ◌≤◌, ◌≡◌, ◌⊎◌, inl, inr, refl, sym, ap, ◌≢◌, arith, Bool, List, [], ◌∷◌, ◌++◌,
  length, ◌∙◌, subst,
}
use android_platform_system.Ext4.Exit.{returns}
use android_platform_system.Ext4.BlockGroup.{BlockGroupInfo}
use android_platform_system.Ext4.Groups.{allocate_failed, allocate_block}
use android_platform_system.Ext4.Groups.FirstFit.{AllGroups}
use android_platform_system.Ext4.Groups.Queue.{range, free_list, take_head}

abbrev pub take : ℕ → List ℕ → List ℕ
take zero xs = []
take (suc n) [] = []
take (suc n) (x ∷ xs) = x ∷ take n xs

abbrev pub drop : ℕ → List ℕ → List ℕ
drop zero xs = xs
drop (suc n) [] = []
drop (suc n) (x ∷ xs) = drop n xs

-- Calls of `allocate_block` one after the other, and what they return.
pub data Calls (force : Bool) : List BlockGroupInfo → List ℕ → List BlockGroupInfo → Type 0 where
  done : {bgs : List BlockGroupInfo} → Calls force bgs [] bgs
  call :
      {bgs bgs' bgs'' : List BlockGroupInfo} {block : ℕ} {blocks : List ℕ}
      → allocate_block force bgs ≡ (returns block, bgs')
      → Calls force bgs' blocks bgs''
      → Calls force bgs (block ∷ blocks) bgs''

-- Each group begins behind the one before it.
abbrev pub Spaced : ℕ → ℕ → List BlockGroupInfo → Type 0
Spaced blocks_per_group from [] = Unit
Spaced blocks_per_group from (bg ∷ bgs) =
    (from ≤ bg.first_block) × Spaced blocks_per_group (bg.first_block + blocks_per_group) bgs

-- Each number is at least `from`, and above the one before it.
abbrev pub Increasing : ℕ → List ℕ → Type 0
Increasing from [] = Unit
Increasing from (x ∷ xs) = (from ≤ x) × Increasing (suc x) xs

Increasing-range :
    (a n : ℕ) (rest : List ℕ) → Increasing (a + n) rest → Increasing a (range a n ++ rest)
Increasing-range a zero rest h =
    let e : a + 0 ≡ a = omega arith in subst (λ k. Increasing k rest) e h
Increasing-range a (suc n) rest h =
    let e : a + suc n ≡ suc a + n = omega arith in
    (omega arith, Increasing-range (suc a) n rest (subst (λ k. Increasing k rest) e h))

Increasing-from : (a b : ℕ) (xs : List ℕ) → a ≤ b → Increasing b xs → Increasing a xs
Increasing-from a b [] h i = i
Increasing-from a b (x ∷ xs) h (l, i) = (omega arith, i)

free_list-Increasing :
    (blocks_per_group from : ℕ) (limits : List ℕ) (bgs : List BlockGroupInfo)
    → AllGroups blocks_per_group limits bgs
    → Spaced blocks_per_group from bgs
    → Increasing from (free_list bgs)
free_list-Increasing blocks_per_group from limits [] a s = tt
free_list-Increasing blocks_per_group from [] (bg ∷ bgs) a s = absurd a
free_list-Increasing blocks_per_group from (limit ∷ limits) (bg ∷ bgs) (g, a) (l, s) =
    Increasing-from from (bg.first_block + bg.first_free_block) _ (omega arith) (
      Increasing-range (bg.first_block + bg.first_free_block) bg.free_blocks (free_list bgs) (
        Increasing-from _ (bg.first_block + blocks_per_group) (free_list bgs)
          (omega (arith, g.free, g.limit_in))
          (free_list-Increasing blocks_per_group (bg.first_block + blocks_per_group) limits bgs a
            s)))

Increasing-take : (a n : ℕ) (xs : List ℕ) → Increasing a xs → Increasing a (take n xs)
Increasing-take a zero xs i = tt
Increasing-take a (suc n) [] i = tt
Increasing-take a (suc n) (x ∷ xs) (l, i) = (l, Increasing-take (suc x) n xs i)

run_queue :
    (blocks_per_group : ℕ) (limits : List ℕ) (force : Bool) (n : ℕ) (bgs : List BlockGroupInfo)
    → AllGroups blocks_per_group limits bgs
    → n ≤ length (free_list bgs)
    → (bgs' : List BlockGroupInfo) × Calls force bgs (take n (free_list bgs)) bgs'
      × (free_list bgs' ≡ drop n (free_list bgs))
      × AllGroups blocks_per_group limits bgs'
run_queue blocks_per_group limits force zero bgs a h = (bgs, done, refl, a)
run_queue blocks_per_group limits force (suc n) bgs a h =
    elim (take_head blocks_per_group limits force bgs a) [
      | inl (e, f) ↦ let l : suc n ≤ length {A = ℕ} [] = rw e at h in absurd (omega arith)
      | inr (block, bgs1, e, f, a1) ↦
          let l : suc n ≤ suc (length (free_list bgs1)) = rw f at h in
          let (bgs', c, d, a') = run_queue blocks_per_group limits force n bgs1 a1 (omega arith) in
          (
            bgs',
            subst (λ q. Calls force bgs (take (suc n) q) bgs') (sym f) (call e c),
            d ∙ sym (ap (λ q. drop (suc n) q) f),
            a',
          )
    ]

-- Over groups that meet the invariant and begin one behind the other, `n` calls of `allocate_block` all
-- succeed if `n` blocks are free: they return the first `n` free blocks, in increasing order and so
-- each once, the others stay free, and the groups keep the invariant. If no block is left, a call
-- fails and changes nothing.
pub allocate_block-Calls :
    (blocks_per_group : ℕ) (limits : List ℕ) (force : Bool) (n : ℕ) (bgs : List BlockGroupInfo)
    → AllGroups blocks_per_group limits bgs
    → Spaced blocks_per_group 0 bgs
    → n ≤ length (free_list bgs)
    → (bgs' : List BlockGroupInfo) × Calls force bgs (take n (free_list bgs)) bgs'
      × Increasing 0 (take n (free_list bgs))
      × (free_list bgs' ≡ drop n (free_list bgs))
      × AllGroups blocks_per_group limits bgs'
      × ((free_list bgs' ≢ []) ⊎ (allocate_block force bgs' ≡ (returns allocate_failed, bgs')))
allocate_block-Calls blocks_per_group limits force n bgs a s h =
    let (bgs', c, d, a') = run_queue blocks_per_group limits force n bgs a h in
    let i = free_list-Increasing blocks_per_group 0 limits bgs a s in
    (
      bgs',
      c,
      Increasing-take 0 n (free_list bgs) i,
      d,
      a',
      elim (take_head blocks_per_group limits force bgs' a') [
        | inl (e, f) ↦ inr f
        | inr (block, bgs1, e, f, a1) ↦ inl (λ z. cc)
      ],
    )
