-- ===== src/Fatblock/Pool.antt =====
-- The pool of open files (fatblock/fdpool.c): a ring of nodes around `fdpool_head`, with the file
-- used last at its front. The counter of type int does not go below 0 here.
pub mod Ring
pub mod Links
pub mod Nodes
pub mod Recent
pub mod Open
pub mod Close
mod Tests
use android_platform_system.Prelude.{
  ℕ, suc, ◌+◌, ◌-◌, Bool, not, ltb, leb, ◌==◌, if◌then◌else◌, List, [], ◌∷◌, Option, none, some,
}

-- The addresses of nodes; `no_node` is NULL.
abbrev pub no_node : ℕ
no_node = 0

abbrev pub fdpool_head : ℕ
fdpool_head = 1

abbrev pub fdpool_size : ℕ
fdpool_size = 4

-- The fields of every `struct pooled_fd` by its address, `fdpool_count`, and the descriptors that
-- `close` was called on, the last one first. INVALID_FD is `none`.
pub record FdPool : Type 0 where
  pub prev : ℕ → ℕ
  pub next : ℕ → ℕ
  pub fd : ℕ → Option ℕ
  pub fdpool_count : ℕ
  pub closed : List (Option ℕ)

-- A field of one node is written.
abbrev pub poke : {A : Type 0} → ℕ → A → (ℕ → A) → ℕ → A
poke node v field i = if i == node then v else field i

unfoldable pub fdpool_insert_head : ℕ → FdPool → FdPool
fdpool_insert_head node p =
    let prev_node = fdpool_head in
    let next_node = p.next prev_node in
    record p {
      next = poke node next_node (poke prev_node node p.next);
      prev = poke next_node node (poke node prev_node p.prev);
      fdpool_count = p.fdpool_count + 1;
    }

-- From here on `none` is an assertion that fails.
unfoldable pub fdpool_remove : ℕ → FdPool → Option FdPool
fdpool_remove node p =
    let prev_node = p.prev node in
    let next_node = p.next node in
    if prev_node == no_node
    then none
    else if next_node == no_node
    then none
    else some (record p {
      next = poke prev_node next_node p.next;
      prev = poke next_node prev_node p.prev;
      fdpool_count = p.fdpool_count - 1;
    })

abbrev pub with_node : ℕ → Option FdPool → Option (ℕ × FdPool)
with_node node none = none
with_node node (some p) = some (node, p)

unfoldable pub fdpool_remove_tail : FdPool → Option (ℕ × FdPool)
unfolding fdpool_remove
fdpool_remove_tail p =
    let tail = p.prev fdpool_head in
    if tail == fdpool_head then none else with_node tail (fdpool_remove tail p)

unfoldable pub fdpool_clear : ℕ → FdPool → FdPool
fdpool_clear pfd p = record p {
  fd = poke pfd none p.fd;
  prev = poke pfd no_node p.prev;
  next = poke pfd no_node p.next;
}

unfoldable pub fdpool_unpool : ℕ → FdPool → FdPool
unfolding fdpool_clear
fdpool_unpool pfd p = fdpool_clear pfd (record p { closed = p.fd pfd ∷ p.closed })

abbrev pub unpool_tail : Option (ℕ × FdPool) → Option FdPool
unpool_tail none = none
unpool_tail (some (tail, p)) = some (fdpool_unpool tail p)

unfoldable pub fdpool_evict : FdPool → Option FdPool
unfolding fdpool_remove_tail fdpool_unpool
fdpool_evict p = unpool_tail (fdpool_remove_tail p)

abbrev pub insert_head : ℕ → Option FdPool → Option FdPool
insert_head node none = none
insert_head node (some p) = some (fdpool_insert_head node p)

abbrev pub insert_fd : ℕ → ℕ → Option FdPool → Option FdPool
insert_fd pfd fd none = none
insert_fd pfd fd (some p) =
    let p' = fdpool_insert_head pfd p in some (record p' { fd = poke pfd (some fd) p'.fd })

unfoldable pub fdpool_pool : ℕ → ℕ → FdPool → Option FdPool
unfolding fdpool_evict fdpool_insert_head
fdpool_pool pfd fd p =
    insert_fd pfd fd (if leb fdpool_size p.fdpool_count then fdpool_evict p else some p)

unfoldable pub fdpool_touch : ℕ → FdPool → Option FdPool
unfolding fdpool_remove fdpool_insert_head
fdpool_touch pfd p = insert_head pfd (fdpool_remove pfd p)

unfoldable pub fdpool_init : ℕ → FdPool → FdPool
unfolding fdpool_clear
fdpool_init pfd p = fdpool_clear pfd p

abbrev pub gives : Option ℕ → Option FdPool → Option (Option ℕ × FdPool)
gives fd none = none
gives fd (some p) = some (fd, p)

-- `fdpool_open` where the node has a descriptor, and where it has none.
abbrev pub open_node : ℕ → Option ℕ → Option ℕ → FdPool → Option (Option ℕ × FdPool)
open_node pfd (some fd) opened p = gives (some fd) (fdpool_touch pfd p)
open_node pfd none (some fd) p = gives (some fd) (fdpool_pool pfd fd p)
open_node pfd none none p = some (none, p)

-- `opened` is what `open` gives if it is called, `none` for a negative number. The result is the
-- descriptor that is returned.
unfoldable pub fdpool_open : ℕ → Option ℕ → FdPool → Option (Option ℕ × FdPool)
unfolding fdpool_pool fdpool_touch
fdpool_open pfd opened p = open_node pfd (p.fd pfd) opened p

unfoldable pub fdpool_close : ℕ → FdPool → FdPool
unfolding fdpool_unpool
fdpool_close pfd p = fdpool_unpool pfd p
