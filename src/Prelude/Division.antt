-- ===== src/Prelude/Division.antt =====
-- A quotient by a variable is determined by its remainder.
use Prim.Native.Nat.{ℕ, suc, ◌+◌, ◌*◌, ◌≤◌, ◌<◌}
use mathlib.Core.Path.{◌≡◌, sym}
use native.Mathlib.Omega.{arith}

mul_mono : (bs k e : ℕ) → suc k ≤ e → k * bs + bs ≤ e * bs
mul_mono bs k e h = grind arith

not-below : (bs k e m n : ℕ) → k * bs + m ≡ e * bs + n → m < bs → ¬ (suc k ≤ e)
not-below bs k e m n h a l = let x : k * bs + bs ≤ e * bs = mul_mono bs k e l in omega arith

pub quotient_unique : (bs k e m n : ℕ) → k * bs + m ≡ e * bs + n → m < bs → n < bs → k ≡ e
quotient_unique bs k e m n h a b =
    let x = not-below bs k e m n h a in
    let y = not-below bs e k n m (sym h) b in omega (arith, x, y)
