-- ===== src/Ext4/Groups/Blocks.antt =====
-- `allocate_block` (ext4_utils/allocate.c) over all groups.
use android_platform_system.Prelude.{
  ℕ, suc, ◌+◌, ◌<◌, ◌≡◌, ◌⊎◌, inl, inr, refl, ap, arith, length, List, [], ◌∷◌, ◌++◌, Bool, none,
  some,
}
use android_platform_system.Ext4.Exit.{returns}
use android_platform_system.Ext4.BlockGroup.{BlockGroupInfo}
use android_platform_system.Ext4.Groups.{allocate_failed, Searched, allocate_block}
use android_platform_system.Ext4.Groups.FirstFit.{
  Takes, FirstFit, no_group, this_group, later_group, AllGroups, first_group-FirstFit,
}

-- No group has `len` free blocks.
abbrev pub Short : ℕ → List BlockGroupInfo → Type 0
Short len [] = Unit {0}
Short len (bg ∷ bgs) = (bg.free_blocks < len) × Short len bgs

-- The groups before the one that gave the blocks, that one before and after, and those behind it.
pub record Chosen (len : ℕ) (bgs : List BlockGroupInfo) (block : ℕ) (bgs' : List BlockGroupInfo)
    : Type 0 where
  pub before : List BlockGroupInfo
  pub chosen : BlockGroupInfo
  pub taken : BlockGroupInfo
  pub behind : List BlockGroupInfo
  pub was : bgs ≡ before ++ (chosen ∷ behind)
  pub now : bgs' ≡ before ++ (taken ∷ behind)
  pub too_small : Short len before
  pub takes : Takes len chosen taken
  pub number : block ≡ chosen.first_block + chosen.first_free_block

pub FirstFit-Chosen :
    (len i : ℕ) (bgs : List BlockGroupInfo) (r : Searched)
    → FirstFit len i bgs r
    → ((r ≡ (returns none, bgs)) × Short len bgs)
      ⊎ ((block : ℕ) × (j : ℕ) × (r.0 ≡ returns (some (block, j)))
          × (c : Chosen len bgs block r.1) × (j ≡ i + length c.before))
FirstFit-Chosen len i [] r no_group = inl (refl, tt)
FirstFit-Chosen len i (bg ∷ bgs) r (this_group {bg' = bg'} t) = inr (
  bg.first_block + bg.first_free_block,
  i,
  refl,
  record {
    before = [];
    chosen = bg;
    taken = bg';
    behind = bgs;
    was = refl;
    now = refl;
    too_small = tt;
    takes = t;
    number = refl;
  },
  omega arith,
)
FirstFit-Chosen len i (bg ∷ bgs) r (later_group {bgs' = bgs'} {o = o} s f) =
    elim (FirstFit-Chosen len (suc i) bgs (o, bgs') f) [
      | inl (e, n) ↦
          inl (ap (λ (q : Searched). let q' : Searched = (q.0, bg ∷ q.1) in q') e, (s, n))
      | inr (block, j, e, c, p) ↦ inr (
        block,
        j,
        e,
        record {
          before = bg ∷ c.before;
          chosen = c.chosen;
          taken = c.taken;
          behind = c.behind;
          was = ap (λ l. bg ∷ l) c.was;
          now = ap (λ l. bg ∷ l) c.now;
          too_small = (s, c.too_small);
          takes = c.takes;
          number = c.number;
        },
        omega (arith, p),
      )
    ]

-- Over groups that meet the invariant, `allocate_block` either fails because no group has a free
-- block, and changes nothing, or returns the first free block of the first group that has one, in
-- which that block's bit is the only one that changes.
pub allocate_block_lem :
    (blocks_per_group : ℕ) (force : Bool) (limits : List ℕ) (bgs : List BlockGroupInfo)
    → AllGroups blocks_per_group limits bgs
    → ((allocate_block force bgs ≡ (returns allocate_failed, bgs)) × Short 1 bgs)
      ⊎ ((block : ℕ) × ((allocate_block force bgs).0 ≡ returns block)
          × Chosen 1 bgs block (allocate_block force bgs).1)
unfolding allocate_block
allocate_block_lem blocks_per_group force limits bgs a =
    elim (FirstFit-Chosen 1 0 bgs _
      (first_group-FirstFit blocks_per_group force 1 0 limits bgs a).0) [
        | inl (e, s) ↦ inl (rw e refl, s)
        | inr (block, j, e, c, p) ↦ inr (block, rw e refl, c)
      ]
