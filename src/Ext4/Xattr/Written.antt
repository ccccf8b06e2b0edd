-- ===== src/Ext4/Xattr/Written.antt =====
-- What xattr_addto_range (ext4_utils/contents.c) writes into the gap.
use android_platform_system.Prelude.{
  ℕ, ◌+◌, ◌-◌, ◌%◌, ◌^◌, ◌≤◌, ◌<◌, ◌≡◌, refl, ◌∙◌, arith, true, ltb, leb, List, [], ◌∷◌, length,
  get_or,
}
use android_platform_system.Prelude.Memory.{Memory, memset}
use android_platform_system.Ext4.Xattr.{
  write_bytes, write16, write32, le16_bytes, le32_bytes, xattr_len, xattr_size, write_entry,
}
use android_platform_system.Ext4.Xattr.Region.{BytesAt, EntryAt}

pub write_at :
    (m : Memory) (p : ℕ) (bytes : List ℕ) (i j : ℕ)
    → i ≡ p + j
    → j < length bytes
    → write_bytes m p bytes i ≡ get_or bytes j 0
write_at m p bytes i j e h =
    let l : leb p i ≡ true = ground arith in
    let k : ltb i (p + length bytes) ≡ true = ground arith in
    let d : i - p ≡ j = omega arith in rw (l, k, d) refl

pub write_off :
    (m : Memory) (p : ℕ) (bytes : List ℕ) (i : ℕ)
    → (p ≤ i → p + length bytes ≤ i)
    → write_bytes m p bytes i ≡ m i
write_off m p bytes i h = ground arith

pub memset_at : (m : Memory) (p v n i : ℕ) → p ≤ i → i < p + n → memset m p v n i ≡ v
memset_at m p v n i h k = ground arith

pub memset_off : (m : Memory) (p v n i : ℕ) → (p ≤ i → p + n ≤ i) → memset m p v n i ≡ m i
memset_off m p v n i h = ground arith

module _ (m : Memory) (base q room name_index : ℕ) (name value : List ℕ)
    (fits : xattr_len (length name) + xattr_size (length value) ≤ room) where
  abbrev cleared : Memory
  cleared = memset m q 0 (xattr_len (length name))

  abbrev labelled : Memory
  labelled = write_bytes cleared q (length name % 2 ^ 8 ∷ name_index % 2 ^ 8 ∷ [])

  abbrev named : Memory
  named = write_bytes labelled (q + 16) name

  abbrev placed : Memory
  placed = write32 named (q + 4) 0

  abbrev sized : Memory
  sized = write32 placed (q + 8) (length value)

  abbrev val : ℕ
  val = q + room - xattr_size (length value)

  abbrev headed : Memory
  headed = write16 sized (q + 2) (val - base)

  abbrev written : Memory
  written = write_entry m base q room name_index name value

  -- The value lies behind the entry.
  head_kept : (i : ℕ) → i < val → written i ≡ headed i
  unfolding write_entry
  head_kept i h =
      write_off (memset headed val 0 (xattr_size (length value))) val value i (λ l. omega arith)
      ∙ memset_off headed val 0 (xattr_size (length value)) i (λ l. omega arith)

  label_at :
      (i j : ℕ)
      → i ≡ q + j
      → j < 2
      → written i ≡ get_or (length name % 2 ^ 8 ∷ name_index % 2 ^ 8 ∷ []) j 0
  label_at i j e h =
      head_kept i (omega arith)
      ∙ write_off sized (q + 2) (le16_bytes (val - base)) i (λ l. omega arith)
      ∙ write_off placed (q + 8) (le32_bytes (length value)) i (λ l. omega arith)
      ∙ write_off named (q + 4) (le32_bytes 0) i (λ l. omega arith)
      ∙ write_off labelled (q + 16) name i (λ l. omega arith)
      ∙ write_at cleared q (length name % 2 ^ 8 ∷ name_index % 2 ^ 8 ∷ []) i j e h

  name_at : BytesAt written (q + 16) name
  name_at j h =
      head_kept (q + 16 + j) (omega arith)
      ∙ write_off sized (q + 2) (le16_bytes (val - base)) (q + 16 + j) (λ l. omega arith)
      ∙ write_off placed (q + 8) (le32_bytes (length value)) (q + 16 + j) (λ l. omega arith)
      ∙ write_off named (q + 4) (le32_bytes 0) (q + 16 + j) (λ l. omega arith)
      ∙ write_at labelled (q + 16) name (q + 16 + j) j refl h

  place_at : (i j : ℕ) → i ≡ q + 4 + j → j < 4 → written i ≡ get_or (le32_bytes 0) j 0
  place_at i j e h =
      head_kept i (omega arith)
      ∙ write_off sized (q + 2) (le16_bytes (val - base)) i (λ l. omega arith)
      ∙ write_off placed (q + 8) (le32_bytes (length value)) i (λ l. omega arith)
      ∙ write_at named (q + 4) (le32_bytes 0) i j e h

  size_at : (i j : ℕ) → i ≡ q + 8 + j → j < 4 → written i ≡ get_or (le32_bytes (length value)) j 0
  size_at i j e h =
      head_kept i (omega arith)
      ∙ write_off sized (q + 2) (le16_bytes (val - base)) i (λ l. omega arith)
      ∙ write_at placed (q + 8) (le32_bytes (length value)) i j e h

  offset_at : (i j : ℕ) → i ≡ q + 2 + j → j < 2 → written i ≡ get_or (le16_bytes (val - base)) j 0
  offset_at i j e h =
      head_kept i (omega arith) ∙ write_at sized (q + 2) (le16_bytes (val - base)) i j e h

  value_at : BytesAt written val value
  unfolding write_entry
  value_at j h =
      write_at (memset headed val 0 (xattr_size (length value))) val value (val + j) j refl h

  -- Nothing outside the entry and the value changes.
  pub written_elsewhere :
      (i : ℕ)
      → (q ≤ i → q + xattr_len (length name) ≤ i)
      → (val ≤ i → q + room ≤ i)
      → written i ≡ m i
  unfolding write_entry
  written_elsewhere i h k =
      write_off (memset headed val 0 (xattr_size (length value))) val value i
        (λ l. omega (arith, k l))
      ∙ memset_off headed val 0 (xattr_size (length value)) i (λ l. omega (arith, k l))
      ∙ write_off sized (q + 2) (le16_bytes (val - base)) i (λ l. omega (arith, h (omega arith)))
      ∙ write_off placed (q + 8) (le32_bytes (length value)) i (λ l. omega (arith, h (omega arith)))
      ∙ write_off named (q + 4) (le32_bytes 0) i (λ l. omega (arith, h (omega arith)))
      ∙ write_off labelled (q + 16) name i (λ l. omega (arith, h (omega arith)))
      ∙ write_off cleared q (length name % 2 ^ 8 ∷ name_index % 2 ^ 8 ∷ []) i
          (λ l. omega (arith, h (omega arith)))
      ∙ memset_off m q 0 (xattr_len (length name)) i (λ l. omega (arith, h l))

  pub written-EntryAt :
      length name ≤ 255
      → 1 ≤ name_index
      → name_index ≤ 255
      → length value + 3 < 2 ^ 32
      → q + room < base + 2 ^ 16
      → EntryAt written base q val (record { name_index = name_index; name = name; value = value })
  written-EntryAt short_name some_index index short near = record {
    name_len = label_at q 0 (omega arith) (omega arith) ∙ omega arith;
    index = label_at (q + 1) 1 refl (omega arith) ∙ omega arith;
    offset =
        let a = offset_at (q + 2) 0 (omega arith) (omega arith) in
        let b = offset_at (q + 2 + 1) 1 refl (omega arith) in omega (arith, a, b);
    in_place =
        let a = place_at (q + 4) 0 (omega arith) (omega arith) in
        let b = place_at (q + 4 + 1) 1 (omega arith) (omega arith) in
        let c = place_at (q + 4 + 2) 2 (omega arith) (omega arith) in
        let d = place_at (q + 4 + 2 + 1) 3 (omega arith) (omega arith) in omega (arith, a, b, c, d);
    size =
        let a = size_at (q + 8) 0 (omega arith) (omega arith) in
        let b = size_at (q + 8 + 1) 1 (omega arith) (omega arith) in
        let c = size_at (q + 8 + 2) 2 (omega arith) (omega arith) in
        let d = size_at (q + 8 + 2 + 1) 3 (omega arith) (omega arith) in omega (arith, a, b, c, d);
    name_bytes = name_at;
    value_bytes = value_at;
    visible = λ z. omega arith;
    short = short;
  }
