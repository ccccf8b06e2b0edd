-- ===== src/Fatblock/Text.antt =====
-- `strpadcpy` (fatblock/utils.c). A C string is the list of its bytes before the NUL; the result is
-- the list of the bytes written from `d` on.
use android_platform_system.Prelude.{
  ℕ, zero, suc, ◌+◌, ◌-◌, ◌^◌, ◌≤◌, ◌<◌, ◌≡◌, refl, List, [], ◌∷◌, ◌++◌, length, replicate, arith,
  ap, length-replicate, length-append,
}

-- `while (*s && l-- > 0) *d++ = *s++`: what it writes, and `l` after it. The test `l-- > 0` also
-- subtracts when it fails, and then `l` wraps to SIZE_MAX.
copy_loop : List ℕ → ℕ → List ℕ × ℕ
copy_loop [] l = ([], l)
copy_loop (c ∷ s) zero = ([], 2 ^ 64 - 1)
copy_loop (c ∷ s) (suc l) = let (out, l') = copy_loop s l in (c ∷ out, l')

-- The second loop writes ' ', whatever the argument `p`.
unfoldable pub strpadcpy : List ℕ → ℕ → List ℕ
unfolding copy_loop
strpadcpy s l = let (out, l') = copy_loop s l in out ++ replicate l' b' '

copy_loop_fits : (s : List ℕ) (l : ℕ) → length s ≤ l → copy_loop s l ≡ (s, l - length s)
unfolding copy_loop
copy_loop_fits [] l h = ap (λ (k : ℕ). let r : List ℕ × ℕ = ([], k) in r) (omega arith)
copy_loop_fits (c ∷ s) zero h = absurd (omega arith)
copy_loop_fits (c ∷ s) (suc l) h =
    let e : suc l - suc (length s) ≡ l - length s = omega arith in
    rw (copy_loop_fits s l (omega arith), e)

copy_loop_long :
    (s : List ℕ) (l : ℕ)
    → l < length s
    → (length (copy_loop s l).0 ≡ l) × ((copy_loop s l).1 ≡ 2 ^ 64 - 1)
unfolding copy_loop
copy_loop_long [] l h = absurd (omega arith)
copy_loop_long (c ∷ s) zero h = (refl, refl)
copy_loop_long (c ∷ s) (suc l) h = let r = copy_loop_long s l (omega arith) in (ap suc r.0, r.1)

-- A string that fits in `l` bytes is copied and padded with spaces to `l` bytes.
pub strpadcpy_fits :
    (s : List ℕ) (l : ℕ)
    → length s ≤ l
    → (strpadcpy s l ≡ s ++ replicate (l - length s) b' ') × (length (strpadcpy s l) ≡ l)
unfolding strpadcpy
strpadcpy_fits s l h = rw (copy_loop_fits s l h) (
  refl,
  omega (
    arith,
    length-append s (replicate (l - length s) b' '),
    length-replicate {A = ℕ} (l - length s) b' ',
  ),
)

-- For a string longer than `l`, `l` wraps at the end of the first loop, and the second writes
-- 2^64 - 1 bytes more behind the field of `l` bytes.
pub strpadcpy_overrun :
    (s : List ℕ) (l : ℕ) → l < length s → length (strpadcpy s l) ≡ l + (2 ^ 64 - 1)
unfolding strpadcpy
strpadcpy_overrun s l h =
    let (e, f) = copy_loop_long s l h in
    omega (
      arith,
      length-append (copy_loop s l).0 (replicate (copy_loop s l).1 b' '),
      length-replicate {A = ℕ} (copy_loop s l).1 b' ',
      e,
      f,
    )
