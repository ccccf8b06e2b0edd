-- ===== src/Ext4/Contents/Blocks.antt =====
-- Where a record of ext4_utils/contents.c comes to stand, on numbers that do not wrap.
use native.Mathlib.Nat.{div-add-mod', mod-lt}
use android_platform_system.Prelude.{ℕ, suc, ◌+◌, ◌-◌, ◌*◌, ◌/◌, ◌%◌, ◌≤◌, ◌<◌, ◌≡◌, arith}
use android_platform_system.Prelude.Division.{quotient_unique}

-- The block that a record of `d` bytes at `off` ends in.
pub end_block_same : (bs off d : ℕ) → 0 < d → off % bs + d ≤ bs → (off + d - 1) / bs ≡ off / bs
end_block_same bs off d p h =
    let u : (off + d - 1) / bs * bs + (off + d - 1) % bs ≡ off + d - 1 =
      div-add-mod' (off + d - 1) bs in
    let v : off / bs * bs + off % bs ≡ off = div-add-mod' off bs in
    let w : (off + d - 1) % bs < bs = mod-lt (off + d - 1) (omega arith) in
    quotient_unique bs _ _ ((off + d - 1) % bs) (off % bs + d - 1) (omega arith) w (omega arith)

pub end_block_next :
    (bs off d : ℕ) → 0 < d → d ≤ bs → bs < off % bs + d → (off + d - 1) / bs ≡ suc (off / bs)
end_block_next bs off d p l h =
    let u : (off + d - 1) / bs * bs + (off + d - 1) % bs ≡ off + d - 1 =
      div-add-mod' (off + d - 1) bs in
    let v : off / bs * bs + off % bs ≡ off = div-add-mod' off bs in
    let w : (off + d - 1) % bs < bs = mod-lt (off + d - 1) (omega arith) in
    let m : off % bs < bs = mod-lt off (omega arith) in
    let s : suc (off / bs) * bs ≡ off / bs * bs + bs = grind arith in
    quotient_unique bs _ _ ((off + d - 1) % bs) (off % bs + d - 1 - bs) (omega arith) w
      (omega arith)
