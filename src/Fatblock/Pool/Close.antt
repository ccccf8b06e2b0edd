-- ===== src/Fatblock/Pool/Close.antt =====
-- `fdpool_close` (fatblock/fdpool.c) and the `fdpool_open` behind it.
use android_platform_system.Prelude.{
  ℕ, ◌≡◌, refl, inl, inr, true, false, not, ◌||◌, ◌==◌, List, Option, none, some, arith, Bool-cases,
  ◌∙◌, length,
}
use android_platform_system.Fatblock.Pool.{
  FdPool, fdpool_head, fdpool_size, poke, fdpool_remove, fdpool_unpool, fdpool_clear,
  fdpool_remove_tail, fdpool_evict, fdpool_pool, fdpool_open, fdpool_close,
}
use android_platform_system.Fatblock.Pool.Ring.{member, last_of, member-apart, Backward-last}
use android_platform_system.Fatblock.Pool.Recent.{is_open, IsPool, last_of-inside}

not-open : (y : Option ℕ) → is_open y ≡ false → y ≡ none
not-open none e = refl
not-open (some fd) e = absurd (ground (arith, e))

closed_node :
    (p : FdPool) (x y : ℕ) (xs : List ℕ)
    → IsPool p xs
    → (y == fdpool_head) ≡ false
    → (y == x || not (member y xs)) ≡ true
    → is_open (poke x none p.fd y) ≡ false
closed_node p x y xs h a c = elim (Bool-cases (y == x)) [
  | inl e ↦ rw e refl
  | inr e ↦ let n : member y xs ≡ false = ground arith in rw (e, h.opened y a, n) refl
]

-- `fdpool_close` leaves the node in the ring: if it is called for the file used longest ago while four
-- are open, the next `fdpool_open` of a file that is not open fails an assertion.
pub fdpool_open-fdpool_close :
    (p : FdPool) (y fd : ℕ) (xs : List ℕ)
    → IsPool p xs
    → length xs ≡ fdpool_size
    → (y == fdpool_head) ≡ false
    → (y == last_of fdpool_head xs || not (member y xs)) ≡ true
    → fdpool_open y (some fd) (fdpool_close (last_of fdpool_head xs) p) ≡ none
unfolding fdpool_open fdpool_pool fdpool_evict fdpool_remove_tail fdpool_remove fdpool_close
    fdpool_unpool fdpool_clear
fdpool_open-fdpool_close p y fd xs h four a c =
    let x = last_of fdpool_head xs in
    let m : member x xs ≡ true = last_of-inside fdpool_head xs (omega (arith, four)) in
    let b : (x == fdpool_head) ≡ false = member-apart x fdpool_head xs m (h.ring.distinct.0) in
    let b' : (fdpool_head == x) ≡ false = ground arith in
    let e : p.prev fdpool_head ≡ x =
      Backward-last p.prev fdpool_head xs fdpool_head h.ring.backward in
    let xx : (x == x) ≡ true = ground arith in
    let n : p.fdpool_count ≡ 4 = h.ring.counted ∙ four in
    let f : poke x none p.fd y ≡ none =
      not-open (poke x none p.fd y) (closed_node p x y xs h a c) in
    rw (f, n, b', e, b, xx) refl
