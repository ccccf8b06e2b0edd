-- ===== src/Fatblock/Pool/Open.antt =====
-- `fdpool_open` and `fdpool_close` (fatblock/fdpool.c) on all their branches.
use android_platform_system.Prelude.{
  ℕ, ◌≡◌, refl, sym, inl, inr, true, false, leb, ◌==◌, List, ◌∷◌, Option, none, some, arith,
  Bool-cases, ◌∙◌, length, subst, ap,
}
use android_platform_system.Fatblock.Pool.{
  FdPool, insert_head, fdpool_head, no_node, fdpool_size, poke, fdpool_insert_head, fdpool_pool,
  fdpool_touch, fdpool_open,
}
use android_platform_system.Fatblock.Pool.Ring.{
  member, delete, last_of, member-apart, member-delete, length-delete,
}
use android_platform_system.Fatblock.Pool.Nodes.{
  IsRing, fdpool_insert_head-IsRing, Removes, fdpool_remove-Removes, poke-here, poke-apart,
}
use android_platform_system.Fatblock.Pool.Recent.{
  is_open, IsPool, make_room, recent, closed_by, Opens, answer, Handles, last_of-inside, Evicts,
  fdpool_evict-Evicts, inserted-opened, touched-opened,
}

recent-member : (x : ℕ) (xs : List ℕ) → member x xs ≡ true → recent x xs ≡ x ∷ delete x xs
recent-member x xs m = rw m refl

recent-new : (x : ℕ) (xs : List ℕ) → member x xs ≡ false → recent x xs ≡ x ∷ make_room xs
recent-new x xs m = rw m refl

member-behind :
    (i x : ℕ) (ys : List ℕ) → (i == x) ≡ false → member i (x ∷ ys) ≡ true → member i ys ≡ true
member-behind i x ys b k = rw b at k

closed_by-member :
    (p : FdPool) (x : ℕ) (xs : List ℕ) → member x xs ≡ true → closed_by p x xs ≡ p.closed
closed_by-member p x xs m = rw m refl

module _ (p : FdPool) (x : ℕ) (xs : List ℕ) (h : IsPool p xs) (a : (x == fdpool_head) ≡ false)
    (z : (x == no_node) ≡ false) where
  abbrev Touches : ℕ → Type 0
  Touches fd = (q : FdPool) × (fdpool_touch x p ≡ some q) × Opens p x fd xs q

  touch : (fd : ℕ) → p.fd x ≡ some fd → Touches fd
  unfolding fdpool_touch fdpool_insert_head
  touch fd y =
      let m : member x xs ≡ true = sym (h.opened x a) ∙ rw y refl in
      let s : Removes p x xs = fdpool_remove-Removes p x xs h.ring m in
      let xx : (x == x) ≡ true = ground arith in
      let gone : member x (delete x xs) ≡ false =
        member-delete x x xs (h.ring.distinct.1) ∙ rw xx refl in
      (
        fdpool_insert_head x s.after_it,
        ap (insert_head x) s.removed,
        record {
          pool =
              subst (IsPool (fdpool_insert_head x s.after_it)) (sym (recent-member x xs m)) record {
                ring = fdpool_insert_head-IsRing s.after_it (delete x xs) x s.ring gone a z;
                opened = touched-opened x fd s.after_it.fd (delete x xs) (s.same_fd x ∙ y) (λ i b c.
                    rw (s.same_fd i, h.opened i b, member-delete i x xs (h.ring.distinct.1), c)
                      refl);
                bounded = omega (arith, length-delete x xs m, h.bounded);
              };
          own = s.same_fd x ∙ y;
          others = λ i b c. s.same_fd i;
          closes = s.same_closed ∙ sym (closed_by-member p x xs m);
        },
      )

  abbrev Pools : ℕ → Type 0
  Pools fd = (q : FdPool) × (fdpool_pool x fd p ≡ some q) × Opens p x fd xs q

  pool_free : (fd : ℕ) → member x xs ≡ false → leb fdpool_size (length xs) ≡ false → Pools fd
  unfolding fdpool_pool fdpool_insert_head
  pool_free fd m l =
      let q = record (fdpool_insert_head x p) { fd = poke x (some fd) p.fd } in
      let c : leb fdpool_size p.fdpool_count ≡ false = rw h.ring.counted l in
      let e : recent x xs ≡ x ∷ xs = recent-new x xs m ∙ rw l refl in
      let r : IsRing (fdpool_insert_head x p) (x ∷ xs) =
        fdpool_insert_head-IsRing p xs x h.ring m a z in
      (
        q,
        rw c refl,
        record {
          pool = subst (IsPool q) (sym e) record {
            ring = record {
              forward = r.forward;
              backward = r.backward;
              distinct = r.distinct;
              no_null = r.no_null;
              counted = r.counted;
            };
            opened = inserted-opened x fd p.fd xs (λ i b c. h.opened i b);
            bounded = ground (arith, l);
          };
          own = poke-here x (some fd) p.fd;
          others = λ i b c. poke-apart x (some fd) p.fd i b;
          closes = rw (m, l) refl;
        },
      )

  abbrev tail : ℕ
  tail = last_of fdpool_head xs

  poked-opened :
      (i : ℕ)
      → (i == fdpool_head) ≡ false
      → is_open (poke tail none p.fd i) ≡ member i (delete tail xs)
  poked-opened i b = elim (Bool-cases (i == tail)) [
    | inl e ↦ rw (member-delete i tail xs (h.ring.distinct.1), e) refl
    | inr e ↦ rw (member-delete i tail xs (h.ring.distinct.1), e) (h.opened i b)
  ]

  kept : (i : ℕ) → member i (delete tail xs) ≡ true → poke tail none p.fd i ≡ p.fd i
  kept i k =
      let tt' : (tail == tail) ≡ true = ground arith in
      let n : member tail (delete tail xs) ≡ false =
        member-delete tail tail xs (h.ring.distinct.1) ∙ rw tt' refl in
      poke-apart tail none p.fd i (member-apart i tail (delete tail xs) k n)

  pool_full : (fd : ℕ) → member x xs ≡ false → leb fdpool_size (length xs) ≡ true → Pools fd
  unfolding fdpool_pool fdpool_insert_head
  pool_full fd m l =
      let ys = delete tail xs in
      let v : Evicts p xs = fdpool_evict-Evicts p xs h.ring (ground (arith, l)) in
      let q = record (fdpool_insert_head x v.after_it) { fd = poke x (some fd) v.after_it.fd } in
      let c : leb fdpool_size p.fdpool_count ≡ true = rw h.ring.counted l in
      let e : recent x xs ≡ x ∷ ys = recent-new x xs m ∙ rw l refl in
      let in_xs : member tail xs ≡ true = last_of-inside fdpool_head xs (ground (arith, l)) in
      let n : member x ys ≡ false =
        member-delete x tail xs (h.ring.distinct.1) ∙ rw m (ground arith) in
      let r : IsRing (fdpool_insert_head x v.after_it) (x ∷ ys) =
        fdpool_insert_head-IsRing v.after_it ys x v.ring n a z in
      (
        q,
        rw (c, v.evicted) refl,
        record {
          pool = subst (IsPool q) (sym e) record {
            ring = record {
              forward = r.forward;
              backward = r.backward;
              distinct = r.distinct;
              no_null = r.no_null;
              counted = r.counted;
            };
            opened =
                inserted-opened x fd v.after_it.fd ys (λ i b c. rw (v.fds i) (poked-opened i b));
            bounded = omega (arith, length-delete tail xs in_xs, h.bounded);
          };
          own = poke-here x (some fd) v.after_it.fd;
          others = λ i b k.
              poke-apart x (some fd) v.after_it.fd i b
              ∙ v.fds i
              ∙ kept i (member-behind i x ys b (subst (λ zs. member i zs ≡ true) e k));
          closes = rw (m, l) v.closes;
        },
      )

  pool : (fd : ℕ) → member x xs ≡ false → Pools fd
  pool fd m = elim (Bool-cases (leb fdpool_size (length xs))) [
    | inl l ↦ pool_full fd m l
    | inr l ↦ pool_free fd m l
  ]

  Answers : Option ℕ → Type 0
  Answers opened =
      (q : FdPool) × (fdpool_open x opened p ≡ some (answer (p.fd x) opened, q))
      × Handles (answer (p.fd x) opened) p x xs q

  open_pooled : (fd : ℕ) (opened : Option ℕ) → p.fd x ≡ some fd → Answers opened
  unfolding fdpool_open Answers
  open_pooled fd opened y =
      let round : Touches fd → Answers opened = λ t. (t.0, rw (y, t.1) refl, rw y (t.2)) in
      round (touch fd y)

  open_new : (opened : Option ℕ) → p.fd x ≡ none → Answers opened
  unfolding fdpool_open Answers
  open_new none y = (p, rw y refl, rw y refl)
  open_new (some fd) y =
      let m : member x xs ≡ false = sym (h.opened x a) ∙ rw y refl in
      let round : Pools fd → Answers (some fd) = λ t. (t.0, rw (y, t.1) refl, rw y (t.2)) in
      round (pool fd m)

  open_cases : (y opened : Option ℕ) → p.fd x ≡ y → Answers opened
  open_cases none opened e = open_new opened e
  open_cases (some fd) opened e = open_pooled fd opened e

-- On a pool, `fdpool_open` fails no assertion. It answers with the descriptor that the file has, or
-- else with the one that `open` gives; if `open` fails, nothing changes. Otherwise the file is the one
-- used last, only it and the files used last before it are open, at most four, and only the file
-- used longest ago is closed, and only if there were four and this one was not among them.
pub fdpool_open_lem :
    (p : FdPool) (x : ℕ) (xs : List ℕ) (opened : Option ℕ)
    → IsPool p xs
    → (x == fdpool_head) ≡ false
    → (x == no_node) ≡ false
    → (q : FdPool) × (fdpool_open x opened p ≡ some (answer (p.fd x) opened, q))
      × Handles (answer (p.fd x) opened) p x xs q
unfolding Answers
fdpool_open_lem p x xs opened h a z = open_cases p x xs h a z (p.fd x) opened refl
