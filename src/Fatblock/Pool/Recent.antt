-- ===== src/Fatblock/Pool/Recent.antt =====
-- `fdpool_open` (fatblock/fdpool.c) as a cache of the files used last.
use android_platform_system.Prelude.{
  ℕ, ◌≤◌, ◌≡◌, refl, inl, inr, Bool, true, false, leb, ◌==◌, if◌then◌else◌, List, [], ◌∷◌, Option,
  none, some, arith, Bool-cases, ◌∙◌, length,
}
use android_platform_system.Fatblock.Pool.{
  FdPool, fdpool_head, fdpool_size, poke, fdpool_unpool, fdpool_clear, fdpool_remove_tail,
  fdpool_evict,
}
use android_platform_system.Fatblock.Pool.Ring.{
  member, delete, last_of, member-apart, member-delete, last_of-member, Backward-last,
}
use android_platform_system.Fatblock.Pool.Nodes.{
  IsRing, Removes, fdpool_remove-Removes, fdpool_unpool-IsRing,
}

abbrev pub is_open : Option ℕ → Bool
is_open none = false
is_open (some fd) = true

-- `xs` are the nodes with an open descriptor, the one used last in front; there are at most four.
pub record IsPool (p : FdPool) (xs : List ℕ) : Type 0 where
  pub ring : IsRing p xs
  pub opened : (i : ℕ) → (i == fdpool_head) ≡ false → is_open (p.fd i) ≡ member i xs
  pub bounded : length xs ≤ fdpool_size

-- The one used longest ago makes room.
abbrev pub make_room : List ℕ → List ℕ
make_room xs = if leb fdpool_size (length xs) then delete (last_of fdpool_head xs) xs else xs

abbrev pub recent : ℕ → List ℕ → List ℕ
recent x xs = x ∷ (if member x xs then delete x xs else make_room xs)

abbrev pub closed_by : FdPool → ℕ → List ℕ → List (Option ℕ)
closed_by p x xs =
    if member x xs
    then p.closed
    else if leb fdpool_size (length xs)
    then p.fd (last_of fdpool_head xs) ∷ p.closed
    else p.closed

pub record Opens (p : FdPool) (x fd : ℕ) (xs : List ℕ) (q : FdPool) : Type 0 where
  pub pool : IsPool q (recent x xs)
  pub own : q.fd x ≡ some fd
  pub others : (i : ℕ) → (i == x) ≡ false → member i (recent x xs) ≡ true → q.fd i ≡ p.fd i
  pub closes : q.closed ≡ closed_by p x xs

abbrev pub answer : Option ℕ → Option ℕ → Option ℕ
answer none opened = opened
answer (some fd) opened = some fd

abbrev pub Handles : Option ℕ → FdPool → ℕ → List ℕ → FdPool → Type 0
Handles none p x xs q = q ≡ p
Handles (some fd) p x xs q = Opens p x fd xs q

pub last_of-inside : (a : ℕ) (xs : List ℕ) → 1 ≤ length xs → member (last_of a xs) xs ≡ true
last_of-inside a [] h = absurd (omega arith)
last_of-inside a (x ∷ xs) h = last_of-member x xs

-- `fdpool_evict`
pub record Evicts (p : FdPool) (xs : List ℕ) : Type 0 where
  pub after_it : FdPool
  pub evicted : fdpool_evict p ≡ some after_it
  pub ring : IsRing after_it (delete (last_of fdpool_head xs) xs)
  pub fds : (i : ℕ) → after_it.fd i ≡ poke (last_of fdpool_head xs) none p.fd i
  pub closes : after_it.closed ≡ p.fd (last_of fdpool_head xs) ∷ p.closed

pub fdpool_evict-Evicts : (p : FdPool) (xs : List ℕ) → IsRing p xs → 1 ≤ length xs → Evicts p xs
unfolding fdpool_evict fdpool_remove_tail fdpool_unpool fdpool_clear
fdpool_evict-Evicts p xs r h =
    let tail = last_of fdpool_head xs in
    let e : p.prev fdpool_head ≡ tail =
      Backward-last p.prev fdpool_head xs fdpool_head r.backward in
    let m : member tail xs ≡ true = last_of-inside fdpool_head xs h in
    let a : (tail == fdpool_head) ≡ false = member-apart tail fdpool_head xs m (r.distinct.0) in
    let s : Removes p tail xs = fdpool_remove-Removes p tail xs r m in
    let tt' : (tail == tail) ≡ true = ground arith in
    record {
      after_it = fdpool_unpool tail s.after_it;
      evicted = rw (e, a, s.removed) refl;
      ring =
          fdpool_unpool-IsRing s.after_it tail (delete tail xs) s.ring
            (member-delete tail tail xs (r.distinct.1) ∙ rw tt' refl) a;
      fds = λ i. rw (s.same_fd i) refl;
      closes = rw (s.same_fd tail, s.same_closed) refl;
    }

-- `insert_fd` on a pool from which the node is gone.
pub inserted-opened :
    (x fd : ℕ) (f : ℕ → Option ℕ) (xs : List ℕ)
    → ((i : ℕ) → (i == fdpool_head) ≡ false → (i == x) ≡ false → is_open (f i) ≡ member i xs)
    → (i : ℕ) → (i == fdpool_head) ≡ false
    → is_open (poke x (some fd) f i) ≡ member i (x ∷ xs)
inserted-opened x fd f xs h i a = elim (Bool-cases (i == x)) [
  | inl e ↦ rw e refl
  | inr e ↦ rw e (h i a e)
]

pub touched-opened :
    (x fd : ℕ) (f : ℕ → Option ℕ) (xs : List ℕ)
    → f x ≡ some fd
    → ((i : ℕ) → (i == fdpool_head) ≡ false → (i == x) ≡ false → is_open (f i) ≡ member i xs)
    → (i : ℕ) → (i == fdpool_head) ≡ false
    → is_open (f i) ≡ member i (x ∷ xs)
touched-opened x fd f xs y h i a = elim (Bool-cases (i == x)) [
  | inl e ↦ let ix : i ≡ x = ground arith in rw (e, ix, y) refl
  | inr e ↦ rw e (h i a e)
]
