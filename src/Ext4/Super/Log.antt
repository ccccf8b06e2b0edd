-- ===== src/Ext4/Super/Log.antt =====
-- `log_2` (ext4_utils/ext4_utils.h) of a power of two.
use native.Mathlib.Nat.{pow-suc, one-le-pow}
use android_platform_system.Prelude.{
  ℕ, zero, suc, ◌+◌, ◌*◌, ◌/◌, ◌^◌, ◌≤◌, ◌<◌, ◌≡◌, refl, true, ltb, arith, ◌∙◌,
}
use android_platform_system.Ext4.Super.{log_loop, log_2}

log_loop_zero : (fuel i : ℕ) → log_loop fuel 0 i ≡ i
unfolding log_loop
log_loop_zero zero i = refl
log_loop_zero (suc fuel) i = refl

log_loop_pow : (fuel k i : ℕ) → k < fuel → log_loop fuel (2 ^ k) i ≡ i + suc k
unfolding log_loop
log_loop_pow zero k i h = absurd (omega arith)
log_loop_pow (suc fuel) zero i h = log_loop_zero fuel (suc i) ∙ omega arith
log_loop_pow (suc fuel) (suc k) i h =
    let p : 2 ^ suc k ≡ 2 ^ k * 2 = pow-suc 2 k in
    let q : 1 ≤ 2 ^ k = one-le-pow k 2 (omega arith) in
    let t : ltb 0 (2 ^ suc k) ≡ true = ground (arith, p, q) in
    let d : 2 ^ suc k / 2 ≡ 2 ^ k = omega (arith, p) in
    rw (t, d) (log_loop_pow fuel k (suc i) (omega arith) ∙ omega arith)

pub lt_pow : (k : ℕ) → k < 2 ^ k
lt_pow zero = omega arith
lt_pow (suc k) = omega (arith, lt_pow k, pow-suc 2 k)

-- The loop of `log_2` ends within its fuel, with the exponent.
pub log_2_pow : (k : ℕ) → k < 2 ^ 32 → log_2 (2 ^ k) ≡ k
unfolding log_2
log_2_pow k h = rw (log_loop_pow (2 ^ k) k 0 (lt_pow k)) (omega arith)
