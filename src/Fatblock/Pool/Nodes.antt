-- ===== src/Fatblock/Pool/Nodes.antt =====
-- What fdpool_insert_head, fdpool_remove and fdpool_unpool (fatblock/fdpool.c) do to the ring.
use android_platform_system.Prelude.{
  ℕ, ◌-◌, ◌≡◌, refl, sym, true, false, ◌==◌, List, ◌∷◌, some, arith, ◌∙◌, length, subst,
}
use android_platform_system.Fatblock.Pool.{
  FdPool, fdpool_head, no_node, poke, fdpool_insert_head, fdpool_remove, fdpool_unpool,
  fdpool_clear,
}
use android_platform_system.Fatblock.Pool.Ring.{
  member, delete, Distinct, Forward, Backward, before, after, first_of, Forward-first,
  Forward-after, Backward-before, Forward-frame, Backward-frame, member-apart, before-member,
  member-delete, Distinct-delete, length-delete,
}
use android_platform_system.Fatblock.Pool.Links.{
  Forward-delete, Backward-delete, Backward-start, first_of-member, after-apart,
}

-- The ring is `xs` around `fdpool_head`, and is counted.
pub record IsRing (p : FdPool) (xs : List ℕ) : Type 0 where
  pub forward : Forward p.next fdpool_head xs fdpool_head
  pub backward : Backward p.prev fdpool_head xs fdpool_head
  pub distinct : Distinct (fdpool_head ∷ xs)
  pub no_null : member no_node xs ≡ false
  pub counted : p.fdpool_count ≡ length xs

pub poke-here : {A : Type 0} (node : ℕ) (v : A) (f : ℕ → A) → poke node v f node ≡ v
poke-here node v f = let e : (node == node) ≡ true = ground arith in rw e refl

pub poke-apart :
    {A : Type 0} (node : ℕ) (v : A) (f : ℕ → A) (i : ℕ)
    → (i == node) ≡ false
    → poke node v f i ≡ f i
poke-apart node v f i e = rw e refl

flip : (i j : ℕ) → (i == j) ≡ false → (j == i) ≡ false
flip i j e = ground arith

insert-forward :
    (next : ℕ → ℕ) (node head : ℕ) (xs : List ℕ)
    → Forward next head xs head
    → member head xs ≡ false
    → member node xs ≡ false
    → (node == head) ≡ false
    → Forward (poke node (next head) (poke head node next)) head (node ∷ xs) head
insert-forward next node head xs f h n a = (
  poke-apart node (next head) (poke head node next) head (flip node head a)
      ∙ poke-here head node next,
  Forward-frame next _ head node xs head f (poke-here node (next head) (poke head node next))
      (λ i m.
        poke-apart node (next head) (poke head node next) i (member-apart i node xs m n)
        ∙ poke-apart head node next i (member-apart i head xs m h)),
)

insert-backward :
    (prev : ℕ → ℕ) (node head : ℕ) (xs : List ℕ)
    → Backward prev head xs head
    → Distinct xs
    → member head xs ≡ false
    → member node xs ≡ false
    → (node == head) ≡ false
    → Backward (poke (first_of xs head) node (poke node head prev)) head (node ∷ xs) head
insert-backward prev node head xs b d h n a =
    let prev' = poke node head prev in
    let b' : Backward prev' head xs head =
      Backward-frame prev prev' head xs head b (poke-apart node head prev head (flip node head a))
        (λ i m. poke-apart node head prev i (member-apart i node xs m n)) in
    let c : (first_of xs head == node) ≡ false =
      first_of-member xs head node n (flip node head a) in
    (
      poke-apart (first_of xs head) node prev' node (flip (first_of xs head) node c)
          ∙ poke-here node head prev,
      Backward-start prev' _ node head xs head b' d h (poke-here (first_of xs head) node prev')
          (λ i e. poke-apart (first_of xs head) node prev' i e),
    )

pub fdpool_insert_head-IsRing :
    (p : FdPool) (xs : List ℕ) (node : ℕ)
    → IsRing p xs
    → member node xs ≡ false
    → (node == fdpool_head) ≡ false
    → (node == no_node) ≡ false
    → IsRing (fdpool_insert_head node p) (node ∷ xs)
unfolding fdpool_insert_head
fdpool_insert_head-IsRing p xs node r n a z = record {
  forward = insert-forward p.next node fdpool_head xs r.forward (r.distinct.0) n a;
  backward =
      subst
        (λ c.
          Backward (poke c node (poke node fdpool_head p.prev)) fdpool_head (node ∷ xs) fdpool_head)
        (sym (Forward-first p.next fdpool_head xs fdpool_head r.forward))
        (insert-backward p.prev node fdpool_head xs r.backward (r.distinct.1) (r.distinct.0) n a);
  distinct = (ground (arith, r.distinct.0), (n, r.distinct.1));
  no_null = ground (arith, r.no_null);
  counted = omega (arith, r.counted);
}

-- `fdpool_remove` of a node of the ring.
pub record Removes (p : FdPool) (x : ℕ) (xs : List ℕ) : Type 0 where
  pub after_it : FdPool
  pub removed : fdpool_remove x p ≡ some after_it
  pub ring : IsRing after_it (delete x xs)
  pub same_fd : (i : ℕ) → after_it.fd i ≡ p.fd i
  pub same_closed : after_it.closed ≡ p.closed

present :
    (x : ℕ) (xs : List ℕ)
    → member no_node (fdpool_head ∷ xs) ≡ false
    → member x (fdpool_head ∷ xs) ≡ true
    → (x == no_node) ≡ false
present x xs n m = member-apart x no_node (fdpool_head ∷ xs) m n

pub fdpool_remove-Removes :
    (p : FdPool) (x : ℕ) (xs : List ℕ) → IsRing p xs → member x xs ≡ true → Removes p x xs
unfolding fdpool_remove
fdpool_remove-Removes p x xs r m =
    let nn : member no_node (fdpool_head ∷ xs) ≡ false = r.no_null in
    let b : p.prev x ≡ before fdpool_head xs x =
      Backward-before p.prev fdpool_head xs fdpool_head x r.backward m in
    let a : p.next x ≡ after xs fdpool_head x =
      Forward-after p.next fdpool_head xs fdpool_head x r.forward m in
    let b0 : (p.prev x == no_node) ≡ false =
      rw b (present (before fdpool_head xs x) xs nn (before-member fdpool_head xs x)) in
    let a0 : (p.next x == no_node) ≡ false =
      rw a (after-apart xs fdpool_head x no_node r.no_null refl) in
    record {
      after_it = record p {
        next = poke (p.prev x) (p.next x) p.next;
        prev = poke (p.next x) (p.prev x) p.prev;
        fdpool_count = p.fdpool_count - 1;
      };
      removed = rw (b0, a0) refl;
      ring = record {
        forward =
            Forward-delete p.next _ x fdpool_head xs fdpool_head r.forward m r.distinct
              (rw b (poke-here (before fdpool_head xs x) (p.next x) p.next))
              (λ i e. rw b (poke-apart (before fdpool_head xs x) (p.next x) p.next i e));
        backward =
            Backward-delete p.prev _ x fdpool_head xs fdpool_head r.backward m (r.distinct.1)
              (r.distinct.0) (rw a (poke-here (after xs fdpool_head x) (p.prev x) p.prev))
              (λ i e. rw a (poke-apart (after xs fdpool_head x) (p.prev x) p.prev i e));
        distinct = (
          member-delete fdpool_head x xs (r.distinct.1) ∙ rw (r.distinct.0) (ground arith),
          Distinct-delete x xs (r.distinct.1),
        );
        no_null = member-delete no_node x xs (r.distinct.1) ∙ rw r.no_null (ground arith);
        counted = omega (arith, r.counted, length-delete x xs m);
      };
      same_fd = λ i. refl;
      same_closed = refl;
    }

pub fdpool_unpool-IsRing :
    (p : FdPool) (x : ℕ) (xs : List ℕ)
    → IsRing p xs
    → member x xs ≡ false
    → (x == fdpool_head) ≡ false
    → IsRing (fdpool_unpool x p) xs
unfolding fdpool_unpool fdpool_clear
fdpool_unpool-IsRing p x xs r n a = record {
  forward =
      Forward-frame p.next _ fdpool_head fdpool_head xs fdpool_head r.forward
        (poke-apart x no_node p.next fdpool_head (flip x fdpool_head a))
        (λ i m. poke-apart x no_node p.next i (member-apart i x xs m n));
  backward =
      Backward-frame p.prev _ fdpool_head xs fdpool_head r.backward
        (poke-apart x no_node p.prev fdpool_head (flip x fdpool_head a))
        (λ i m. poke-apart x no_node p.prev i (member-apart i x xs m n));
  distinct = r.distinct;
  no_null = r.no_null;
  counted = r.counted;
}
