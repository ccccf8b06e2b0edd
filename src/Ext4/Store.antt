-- ===== src/Ext4/Store.antt =====
-- The memory that the region lists of ext4_utils/allocate.c live in, and commands over it.
use android_platform_system.Prelude.{
  ℕ, suc, Bool, ◌&&◌, ◌==◌, if◌then◌else◌, List, Option, none, some,
}
use android_platform_system.Ext4.Exit.{Outcome, returns, exits, faults, spins, error}
use android_platform_system.Ext4.BlockGroup.{BlockGroupInfo}

abbrev pub Ptr : Type 0
Ptr = ℕ

abbrev pub null : Ptr
null = 0

-- `struct region`
pub record Region : Type 0 where
  pub block : ℕ
  pub len : ℕ
  pub bg : ℕ
  pub next : Ptr
  pub prev : Ptr

-- The block groups, the regions by address, the address that `malloc` gives next, and the image:
-- `image b i` is the 32-bit word `i` of block `b`, as the buffers that stand in the sparse file for
-- block `b` hold it. (The program takes `malloc` to succeed.)
pub record Store : Type 0 where
  pub bgs : List BlockGroupInfo
  pub cell : Ptr → Option Region
  pub fresh : Ptr
  pub image : ℕ → ℕ → ℕ

abbrev pub Cmd : Type 0 → Type 0
Cmd A = Store → Outcome A × Store

abbrev pub pure : {A : Type 0} → A → Cmd A
pure a s = (returns a, s)

abbrev pub bind : {A B : Type 0} → Outcome A × Store → (A → Cmd B) → Outcome B × Store
bind (returns a, s) k = k a s
bind (exits, s) k = (exits, s)
bind (faults, s) k = (faults, s)
bind (spins, s) k = (spins, s)

infixl 5 ◌>>=◌ ◌>>◌
abbrev pub ◌>>=◌ : {A B : Type 0} → Cmd A → (A → Cmd B) → Cmd B
◌>>=◌ m k s = bind (m s) k

abbrev pub ◌>>◌ : {A B : Type 0} → Cmd A → Cmd B → Cmd B
m >> k = m >>= λ _. k

abbrev pub update : (Ptr → Option Region) → Ptr → Option Region → Ptr → Option Region
update cell p r q = if q == p then r else cell q

abbrev pub found : Option Region → Cmd Region
found none s = (faults, s)
found (some r) s = (returns r, s)

-- `*p`
unfoldable pub load : Ptr → Cmd Region
load p s = found (if p == null then none else s.cell p) s

-- `*p = r`
unfoldable pub store : Ptr → Region → Cmd (Unit {0})
unfolding load
store p r = load p >>= λ _ s. (returns tt, record s { cell = update s.cell p (some r) })

unfoldable pub malloc : Region → Cmd Ptr
malloc r s =
    (returns s.fresh, record s { cell = update s.cell s.fresh (some r); fresh = suc s.fresh })

unfoldable pub free : Ptr → Cmd (Unit {0})
unfolding load
free p = load p >>= λ _ s. (returns tt, record s { cell = update s.cell p none })

-- `p->next = q`, `p->prev = q`
unfoldable pub set_next : Ptr → Ptr → Cmd (Unit {0})
unfolding load store
set_next p q = do r ← load p; store p (record r { next = q })

unfoldable pub set_prev : Ptr → Ptr → Cmd (Unit {0})
unfolding load store
set_prev p q = do r ← load p; store p (record r { prev = q })

-- `p->len = n`
unfoldable pub set_len : Ptr → ℕ → Cmd (Unit {0})
unfolding load store
set_len p n = do r ← load p; store p (record r { len = n })

-- `error(...); return v;`
abbrev pub fail : {A : Type 0} → Bool → A → Cmd A
fail force v s = (error force v, s)

-- `critical_error(...)`
abbrev pub critical : {A : Type 0} → Cmd A
critical s = (exits, s)

-- `calloc(info.block_size, 1)` and `sparse_file_add_data` of the new buffer at block `b`.
unfoldable pub add_zeros : ℕ → Cmd (Unit {0})
add_zeros b s = (returns tt, record s { image = λ b' i. if b' == b then 0 else s.image b' i })

-- `data[i] = v` in the buffer of block `b`.
unfoldable pub set_word : ℕ → ℕ → ℕ → Cmd (Unit {0})
set_word b i v s =
    (returns tt, record s { image = λ b' i'. if (b' == b) && (i' == i) then v else s.image b' i' })

-- A call of a function that uses no memory.
abbrev pub lift : {A : Type 0} → Outcome A → Cmd A
lift o s = (o, s)
