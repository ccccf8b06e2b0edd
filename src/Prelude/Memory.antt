-- ===== src/Prelude/Memory.antt =====
-- `memset` and `memcpy` on a buffer, which is a function of the place in it.
use Prim.Native.Nat.{ℕ, ◌+◌, ◌-◌}
use mathlib.Core.Bool.{◌&&◌}
use android_platform_system.Prelude.Tests.{ltb, leb, if◌then◌else◌}

abbrev pub Memory : Type 0
Memory = ℕ → ℕ

-- `memset(m + dest, v, n)`
abbrev pub memset : Memory → ℕ → ℕ → ℕ → Memory
memset m dest v n i = if leb dest i && ltb i (dest + n) then v else m i

-- `memcpy(m + dest, source + off, n)`
abbrev pub memcpy : Memory → ℕ → Memory → ℕ → ℕ → Memory
memcpy m dest source off n i =
    if leb dest i && ltb i (dest + n) then source (off + (i - dest)) else m i
