-- ===== src/Ext4/Xattr/Region.antt =====
-- A region of extended attributes (ext4_utils/contents.c) as the list of its attributes.
use android_platform_system.Prelude.{
  ℕ, ◌+◌, ◌-◌, ◌^◌, ◌≤◌, ◌<◌, ◌≡◌, ◌≢◌, List, [], ◌∷◌, length, get_or,
}
use android_platform_system.Prelude.Memory.{Memory}
use android_platform_system.Ext4.Xattr.{read16, read32, xattr_len, xattr_size}

pub record Attribute : Type 0 where
  pub name_index : ℕ
  pub name : List ℕ
  pub value : List ℕ

-- The bytes from `p` on.
abbrev pub BytesAt : Memory → ℕ → List ℕ → Type 0
BytesAt m p bytes = (i : ℕ) → i < length bytes → m (p + i) ≡ get_or bytes i 0

-- The entry at `p` and the value at `val` of an attribute.
pub record EntryAt (m : Memory) (base p val : ℕ) (a : Attribute) : Type 0 where
  pub name_len : m p ≡ length a.name
  pub index : m (p + 1) ≡ a.name_index
  pub offset : read16 m (p + 2) ≡ val - base
  pub in_place : read32 m (p + 4) ≡ 0
  pub size : read32 m (p + 8) ≡ length a.value
  pub name_bytes : BytesAt m (p + 16) a.name
  pub value_bytes : BytesAt m val a.value
  pub visible : a.name_index ≢ 0
  pub short : length a.value + 3 < 2 ^ 32

-- The entries from `p` up to `q`, their values from `v` down to `w`.
abbrev pub Entries : Memory → ℕ → ℕ → ℕ → List Attribute → ℕ → ℕ → Type 0
Entries m base p v [] q w = (p ≡ q) × (v ≡ w)
Entries m base p v (a ∷ attributes) q w =
    (xattr_size (length a.value) ≤ v)
    × EntryAt m base p (v - xattr_size (length a.value)) a
    × Entries m base (p + xattr_len (length a.name)) (v - xattr_size (length a.value)) attributes q
        w

-- The attributes of the region from `first` to `end`, with the gap from `q` to `w`. The four bytes of
-- the end marker lie in the gap.
pub record Holds (m : Memory) (base first end : ℕ) (attributes : List Attribute) (q w : ℕ)
    : Type 0 where
  pub entries : Entries m base first end attributes q w
  pub gap : q + 4 ≤ w
  pub zeros : (i : ℕ) → q ≤ i → i < w → m i ≡ 0
