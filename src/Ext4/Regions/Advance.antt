-- ===== src/Ext4/Regions/Advance.antt =====
-- Moving the allocation pointer (ext4_utils/allocate.c). An `int` is given by its 32 bits.
use android_platform_system.Prelude.{
  ℕ, zero, suc, ◌+◌, ◌-◌, ◌^◌, ◌≤◌, ◌<◌, ◌≡◌, refl, inl, inr, Bool, true, not, ◌&&◌, ◌||◌, length,
  arith, ltb, leb, add32, sub32, List, [], ◌∷◌, Bool-cases, ◌==◌, if◌then◌else◌,
}
use android_platform_system.Ext4.Exit.{returns, spins}
use android_platform_system.Ext4.Store.{Ptr, null, Region, Store, Cmd, load, ◌>>=◌, pure}
use android_platform_system.Ext4.Regions.{RegionList, BlockAllocation, with_fuel}
use android_platform_system.Ext4.Regions.Chain.{Chain, total, load-cell}

-- `blocks > 0`
abbrev pub above_zero : ℕ → Bool
above_zero blocks = ltb 0 blocks && ltb blocks (2 ^ 31)

-- The loop of `advance_list_ptr`: `true` for 0, `false` for -1.
unfoldable advance_loop : ℕ → Ptr → ℕ → RegionList → Cmd (Bool × RegionList)
advance_loop zero reg blocks list = λ s. (spins, s)
advance_loop (suc fuel) reg blocks list =
    if (reg == null) || not (above_zero blocks) then pure (not (above_zero blocks), list) else (do
      r ← load reg
      (if ltb (add32 list.partial_iter blocks) r.len
          then pure (true, record list { partial_iter = add32 list.partial_iter blocks })
          else advance_loop fuel r.next (sub32 blocks (sub32 r.len list.partial_iter))
              (record list { partial_iter = 0 })))

unfoldable pub advance_list_ptr : RegionList → ℕ → Cmd (Bool × RegionList)
unfolding advance_loop
advance_list_ptr list blocks = with_fuel (λ fuel. advance_loop fuel list.iter blocks list)

unfoldable pub advance_blocks : BlockAllocation → ℕ → Cmd (Bool × BlockAllocation)
unfolding advance_list_ptr
advance_blocks alloc blocks = do
  r ← advance_list_ptr alloc.list blocks
  pure (r.0, record alloc { list = r.1 })

unfoldable pub advance_oob_blocks : BlockAllocation → ℕ → Cmd (Bool × BlockAllocation)
unfolding advance_list_ptr
advance_oob_blocks alloc blocks = do
  r ← advance_list_ptr alloc.oob_list blocks
  pure (r.0, record alloc { oob_list = r.1 })

-- The position in the first region is not behind its end.
abbrev pub Inside : ℕ → List Region → Type 0
Inside p [] = p ≡ 0
Inside p (r ∷ rs) = p ≤ r.len

Inside-zero : (rs : List Region) → Inside 0 rs
Inside-zero [] = refl
Inside-zero (r ∷ rs) = omega arith

Advances : ℕ → Ptr → ℕ → RegionList → List Region → Store → Type 0
unfolding advance_loop
Advances fuel reg n list rs s =
    (q : ℕ) × (advance_loop fuel reg n list s
      ≡ (returns (leb (list.partial_iter + n) (total rs), record list { partial_iter = q }), s))

advance_loop-Chain :
    (rs : List Region) (fuel reg n : ℕ) (list : RegionList) (s : Store)
    → Chain s reg rs
    → length rs ≤ fuel
    → Inside list.partial_iter rs
    → n < 2 ^ 31
    → list.partial_iter + total rs < 2 ^ 31
    → Advances (suc fuel) reg n list rs s
unfolding Advances advance_loop
advance_loop-Chain [] fuel reg n list s c e i b t =
    let x : not (above_zero n) ≡ leb (list.partial_iter + n) 0 = ground arith in
    (list.partial_iter, rw (c, x))
advance_loop-Chain (r ∷ rs) zero reg n list s c e i b t = ground arith
advance_loop-Chain (r ∷ rs) (suc fuel) reg n list s (nn, c, cs) e i b t =
    elim (Bool-cases (above_zero n)) [
      | inl y ↦ elim (Bool-cases (ltb (add32 list.partial_iter n) r.len)) [
        | inl v ↦
            let x : leb (list.partial_iter + n) (r.len + total rs) ≡ true = ground arith in
            (add32 list.partial_iter n, rw (nn, y, load-cell reg s r nn c, v, x))
        | inr w ↦
            let m : sub32 n (sub32 r.len list.partial_iter) ≡ n - (r.len - list.partial_iter) =
              ground arith in
            let x : leb (list.partial_iter + n) (r.len + total rs)
                ≡ leb (0 + (n - (r.len - list.partial_iter))) (total rs) =
              ground arith in
            let later : RegionList = record list { partial_iter = 0 } in
            let k = n - (r.len - list.partial_iter) in
            let round : Advances (suc fuel) r.next k later rs s
                → Advances (suc (suc fuel)) reg n list (r ∷ rs) s =
              λ a. (a.0, rw (nn, y, load-cell reg s r nn c, w, m, x) (a.1)) in
            round (
              advance_loop-Chain rs fuel r.next k later s cs (omega arith) (Inside-zero rs)
                (omega arith) (omega arith))
      ]
      | inr z ↦
          let x : leb (list.partial_iter + n) (r.len + total rs) ≡ true = ground arith in
          (list.partial_iter, rw (nn, z, x))
    ]

-- From a position in the first of the regions `rs` on, where positions and the number of blocks are
-- below 2^31 and `rs` are no more than were allocated, `advance_blocks` ends and succeeds exactly if
-- that many blocks are left; but whatever region it reaches, the list's iterator stays where it is,
-- and only `partial_iter` changes.
pub advance_blocks_lem :
    (alloc : BlockAllocation) (rs : List Region) (n : ℕ) (s : Store)
    → Chain s alloc.list.iter rs
    → length rs ≤ s.fresh
    → Inside alloc.list.partial_iter rs
    → n < 2 ^ 31
    → alloc.list.partial_iter + total rs < 2 ^ 31
    → (q : ℕ) × (advance_blocks alloc n s ≡ (
      returns (
        leb (alloc.list.partial_iter + n) (total rs),
        record alloc { list = record alloc.list { partial_iter = q } },
      ),
      s,
    ))
unfolding advance_blocks advance_list_ptr Advances
advance_blocks_lem alloc rs n s c e i b t =
    let (q, f) = advance_loop-Chain rs s.fresh alloc.list.iter n alloc.list s c e i b t in (q, rw f)
