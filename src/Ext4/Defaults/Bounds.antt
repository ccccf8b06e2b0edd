-- ===== src/Ext4/Defaults/Bounds.antt =====
-- The bounds of the parameters that make_ext4fs chooses (ext4_utils/make_ext4fs.c).
use native.Mathlib.Nat.{div-add-mod', mod-lt}
use android_platform_system.Prelude.{
  ℕ, suc, ◌+◌, ◌-◌, ◌*◌, ◌/◌, ◌%◌, ◌^◌, ◌≤◌, ◌<◌, ◌≡◌, refl, sub32, add32, mul32, div_round_up32,
  arith,
}
use android_platform_system.Ext4.Defaults.{compute_inodes, block_groups, compute_inodes_per_group}

-- A quotient rounded up: enough, and at most `k` where `k * g` is enough.
record RoundsUp (a g k n : ℕ) : Type 0 where
  enough : a ≤ n * g
  bounded : n ≤ k

not-above : (a g k n : ℕ) → n * g < a + g → a ≤ k * g → ¬ (suc k ≤ n)
not-above a g k n t h l = let m : k * g + g ≤ n * g = grind arith in omega arith

div_round_up32-RoundsUp :
    (a g k : ℕ) → 0 < g → a + g < 2 ^ 32 → a ≤ k * g → RoundsUp a g k (div_round_up32 a g)
div_round_up32-RoundsUp a g k p r h =
    let e : sub32 (add32 a g) 1 ≡ a + g - 1 = omega arith in
    let u : (a + g - 1) / g * g + (a + g - 1) % g ≡ a + g - 1 = div-add-mod' (a + g - 1) g in
    let w : (a + g - 1) % g < g = mod-lt (a + g - 1) p in
    let b = not-above a g k ((a + g - 1) / g) (omega arith) h in
    rw e record { enough = omega arith; bounded = omega (arith, b) }

-- The inodes of the groups of an image of `len` bytes with 4096 bytes in a block and 256 in an inode.
pub record GroupInodes (len per_group total : ℕ) : Type 0 where
  pub whole_blocks : per_group % 16 ≡ 0
  pub in_bitmap : per_group ≤ 8192
  pub over_groups : total ≡ per_group * block_groups len 4096 32768
  pub enough : compute_inodes len 4096 ≤ total

times_mono : (a b c : ℕ) → a ≤ b → a * c ≤ b * c
times_mono a b c h = grind arith

per_group_lem :
    (len inodes groups n : ℕ)
    → groups ≡ block_groups len 4096 32768
    → inodes ≡ compute_inodes len 4096
    → groups < 2 ^ 18
    → RoundsUp inodes groups 8192 n
    → GroupInodes len
        (mul32 16 (div_round_up32 n 16))
        (mul32 (mul32 16 (div_round_up32 n 16)) groups)
per_group_lem len inodes groups n e f h r =
    let x : mul32 16 (div_round_up32 n 16) ≡ 16 * ((n + 15) / 16) = omega (arith, r.bounded) in
    let b : 16 * ((n + 15) / 16) ≤ 8192 = omega (arith, r.bounded) in
    let l : n ≤ 16 * ((n + 15) / 16) = omega arith in
    let m : 16 * ((n + 15) / 16) * groups ≤ 8192 * groups =
      times_mono (16 * ((n + 15) / 16)) 8192 groups b in
    let g : n * groups ≤ 16 * ((n + 15) / 16) * groups =
      times_mono n (16 * ((n + 15) / 16)) groups l in
    let y : mul32 (16 * ((n + 15) / 16)) groups ≡ 16 * ((n + 15) / 16) * groups = omega arith in
    rw (x, y)
      record {
        whole_blocks = omega arith;
        in_bitmap = b;
        over_groups = rw e refl;
        enough = rw (← f) (omega (arith, r.enough, g));
      }

groups_small : (len : ℕ) → len < 2 ^ 43 → block_groups len 4096 32768 < 2 ^ 18
groups_small len h = omega arith

inodes-RoundsUp :
    (len : ℕ)
    → 0 < len
    → len < 2 ^ 43
    → RoundsUp
        (compute_inodes len 4096)
        (block_groups len 4096 32768)
        8192
        (div_round_up32 (compute_inodes len 4096) (block_groups len 4096 32768))
unfolding compute_inodes
inodes-RoundsUp len p h =
    let i = compute_inodes len 4096 in
    let g = block_groups len 4096 32768 in
    div_round_up32-RoundsUp i g 8192 (omega arith) (omega arith) (omega arith)

-- For an image of 1 byte to 2^43 bytes with the block size, the blocks of a group, the size of an
-- inode and the number of inodes that make_ext4fs chooses itself, the inodes of a group fill whole
-- blocks of the inode table and are at most 8192, and those of all groups together, which
-- `info.inodes` is set to, are at least as many as were asked for.
pub compute_inodes_per_group_lem :
    (len : ℕ)
    → 0 < len
    → len < 2 ^ 43
    → (per_group : ℕ) × (total : ℕ) × (compute_inodes_per_group len 4096 32768 256
          (compute_inodes len 4096)
        ≡ (per_group, total))
      × GroupInodes len per_group total
unfolding compute_inodes_per_group
compute_inodes_per_group_lem len p h =
    let inodes = compute_inodes len 4096 in
    let groups = block_groups len 4096 32768 in
    let r : RoundsUp inodes groups 8192 (div_round_up32 inodes groups) = inodes-RoundsUp len p h in
    let n = div_round_up32 inodes groups in
    (
      mul32 16 (div_round_up32 n 16),
      mul32 (mul32 16 (div_round_up32 n 16)) groups,
      refl,
      per_group_lem len inodes groups n refl refl (groups_small len h) r,
    )
