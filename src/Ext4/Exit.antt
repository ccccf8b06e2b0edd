-- ===== src/Ext4/Exit.antt =====
-- The end of a call in ext4_utils. The macro `error` of ext4_utils.h prints a message and, unless
-- the global `force` is set, leaves by longjmp to `setjmp_env`; with `force` the call goes on.
-- `critical_error` leaves in any case.
use android_platform_system.Prelude.{Bool, if◌then◌else◌}

pub data Outcome (A : Type 0) : Type 0 where
  returns : A → Outcome A
  exits : Outcome A
  -- A read or write through a pointer to nothing.
  faults : Outcome A
  -- A loop whose fuel ran out.
  spins : Outcome A

-- `error(...); return v;`
abbrev pub error : {A : Type 0} → Bool → A → Outcome A
error force v = if force then returns v else exits
