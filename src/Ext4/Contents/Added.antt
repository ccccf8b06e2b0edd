-- ===== src/Ext4/Contents/Added.antt =====
-- `add_dentry` (ext4_utils/contents.c) on both its branches.
use native.Mathlib.Nat.{div-add-mod', mod-lt}
use android_platform_system.Prelude.{
  ℕ, suc, ◌+◌, ◌-◌, ◌*◌, ◌/◌, ◌%◌, ◌^◌, ◌≤◌, ◌<◌, ◌≡◌, refl, inl, inr, true, false, not, ltb, ◌==◌,
  if◌then◌else◌, arith, Bool-cases, add32, sub32, mul32, List, [], ◌∷◌, length, ◌∙◌, ap,
}
use android_platform_system.Ext4.Exit.{returns}
use android_platform_system.Ext4.Contents.{
  DirEntry, DirData, lengthen, pad_prev, put_record, add_dentry,
}
use android_platform_system.Ext4.Contents.Blocks.{end_block_same, end_block_next}
use android_platform_system.Prelude.Division.{quotient_unique}
use android_platform_system.Ext4.Contents.Tiled.{
  Tiled, start_of, record_len, record_len_bounds, same_block, lengthen-InBlock, new-InBlock,
}

abbrev pub names : List DirEntry → List (List ℕ)
names [] = []
names (r ∷ records) = r.name ∷ names records

pub record Adds (bs inode file_type : ℕ) (name : List ℕ) (d d' : DirData) : Type 0 where
  pub added : add_dentry bs inode name file_type d ≡ returns d'
  pub tiled : Tiled bs d'.records d'.offset
  pub moved : d'.offset ≡ start_of bs d.offset (record_len name) + record_len name
  pub written : names d'.records ≡ name ∷ names d.records

module _ (bs inode file_type : ℕ) (name : List ℕ) (h : length name < 256) (b : 264 ≤ bs)
    (b' : bs < 2 ^ 16) where
  abbrev new_record : ℕ → DirEntry
  new_record off = record {
    at = off;
    inode = inode;
    rec_len = record_len name;
    name_len = length name;
    entry_type = file_type;
    name = name;
  }

  abbrev result : List DirEntry → ℕ → DirData
  result records off = record { records = new_record off ∷ records; offset = off + record_len name }

  start_of_block : (q : ℕ) → (q * bs + bs) % bs ≡ 0
  start_of_block q =
      let u : (q * bs + bs) / bs * bs + (q * bs + bs) % bs ≡ q * bs + bs =
        div-add-mod' (q * bs + bs) bs in
      let w : (q * bs + bs) % bs < bs = mod-lt (q * bs + bs) (omega arith) in
      let s : suc q * bs ≡ q * bs + bs = grind arith in
      let e : (q * bs + bs) / bs ≡ suc q =
        quotient_unique bs _ _ ((q * bs + bs) % bs) 0 (omega arith) w (omega arith) in
      let u' : suc q * bs + (q * bs + bs) % bs ≡ q * bs + bs = rw e at u in omega arith

  -- What the numbers come to where nothing wraps.
  add_dentry_unwrapped :
      (records : List DirEntry) (off : ℕ)
      → off + 264 < 2 ^ 32
      → add_dentry bs inode name file_type (record { records = records; offset = off })
        ≡ put_record (record_len name) (length name) inode name file_type (
            if not (off / bs == (off + record_len name - 1) / bs)
            then pad_prev (mul32 ((off + record_len name - 1) / bs) bs) off records
            else returns (record { records = records; offset = off }))
  unfolding add_dentry
  add_dentry_unwrapped records off r =
      let s : (8 + length name ≤ record_len name) × (record_len name ≤ 264) =
        record_len_bounds name h in
      let n : length name % 2 ^ 8 ≡ length name = omega arith in
      let l : record_len name % 2 ^ 16 ≡ record_len name = omega arith in
      let e : sub32 (add32 off (record_len name)) 1 ≡ off + record_len name - 1 = omega arith in
      rw (n, l, e) refl

  same :
      (records : List DirEntry) (off : ℕ)
      → off + bs + 264 < 2 ^ 32
      → Tiled bs records off
      → ltb bs (off % bs + record_len name) ≡ false
      → Adds bs inode file_type name
          (record { records = records; offset = off })
          (result records off)
  same records off r t z =
      let s : (8 + length name ≤ record_len name) × (record_len name ≤ 264) =
        record_len_bounds name h in
      let e : (off + record_len name - 1) / bs ≡ off / bs =
        end_block_same bs off (record_len name) (omega arith) (ground arith) in
      let y : (off / bs == off / bs) ≡ true = ground arith in
      let a : add32 off (record_len name) ≡ off + record_len name = omega arith in
      record {
        added = add_dentry_unwrapped records off (omega arith) ∙ rw (e, y, a) refl;
        tiled = (new-InBlock bs off inode file_type name h b (ground arith), t);
        moved = rw z refl;
        written = refl;
      }

  abbrev block_end : ℕ → ℕ
  block_end off = off / bs * bs + bs

  padded :
      (prev : DirEntry) (records : List DirEntry) (off : ℕ)
      → off + bs + 264 < 2 ^ 32
      → Tiled bs (prev ∷ records) off
      → ltb bs (off % bs + record_len name) ≡ true
      → Adds bs inode file_type name
          (record { records = prev ∷ records; offset = off })
          (result (lengthen (sub32 (block_end off) off) prev ∷ records) (block_end off))
  padded prev records off r t z =
      let s : (8 + length name ≤ record_len name) × (record_len name ≤ 264) =
        record_len_bounds name h in
      let v : off / bs * bs + off % bs ≡ off = div-add-mod' off bs in
      let m : off % bs < bs = mod-lt off (omega arith) in
      let big : bs < off % bs + record_len name = ground arith in
      let e : (off + record_len name - 1) / bs ≡ suc (off / bs) =
        end_block_next bs off (record_len name) (omega arith) (omega arith) big in
      let k : suc (off / bs) * bs ≡ block_end off = grind arith in
      let w : mul32 (suc (off / bs)) bs ≡ block_end off = ap (λ c. c % 2 ^ 32) k ∙ omega arith in
      let y : (off / bs == suc (off / bs)) ≡ false = ground arith in
      let a : add32 (block_end off) (record_len name) ≡ block_end off + record_len name =
        omega arith in
      let o : off + (bs - off % bs) ≡ block_end off = omega arith in
      let f : (off - 1) / bs ≡ off / bs = same_block bs off (omega arith) (omega arith) in
      record {
        added = add_dentry_unwrapped (prev ∷ records) off (omega arith) ∙ rw (e, y, w, a) refl;
        tiled = (
          new-InBlock bs (block_end off) inode file_type name h b
              (rw (start_of_block (off / bs)) (omega arith)),
          (
            lengthen-InBlock bs prev off (block_end off) (omega arith) b' (t.0) (omega arith)
                (omega arith) (off / bs) refl f,
            t.1,
          ),
        );
        moved = rw (z, o) refl;
        written = refl;
      }

  no_padding_at_zero : (off : ℕ) → off ≡ 0 → ltb bs (off % bs + record_len name) ≡ false
  no_padding_at_zero off e =
      let s : (8 + length name ≤ record_len name) × (record_len name ≤ 264) =
        record_len_bounds name h in
      let v : off / bs * bs + off % bs ≡ off = div-add-mod' off bs in
      let z : off % bs ≡ 0 = omega arith in rw z (ground arith)

  by_padding :
      (records : List DirEntry) (off : ℕ)
      → off + bs + 264 < 2 ^ 32
      → Tiled bs records off
      → (d' : DirData) × Adds bs inode file_type name
          (record { records = records; offset = off })
          d'
  by_padding [] off r t = (result [] off, same [] off r t (no_padding_at_zero off t))
  by_padding (prev ∷ records) off r t = elim (Bool-cases (ltb bs (off % bs + record_len name))) [
    | inl z ↦ (
      result (lengthen (sub32 (block_end off) off) prev ∷ records) (block_end off),
      padded prev records off r t z,
    )
    | inr z ↦ (result (prev ∷ records) off, same (prev ∷ records) off r t z)
  ]

-- On records that stand one behind the other from byte 0 up to the offset, each in one block and long
-- enough for its name, `add_dentry` succeeds and adds one more: behind the last, or, where that would
-- cross the end of the block, at the start of the next, with the record before it made longer up to there.
pub add_dentry-Tiled :
    (bs inode file_type : ℕ) (name : List ℕ) (d : DirData)
    → length name < 256
    → 264 ≤ bs
    → bs < 2 ^ 16
    → d.offset + bs + 264 < 2 ^ 32
    → Tiled bs d.records d.offset
    → (d' : DirData) × Adds bs inode file_type name d d'
add_dentry-Tiled bs inode file_type name d h b b' r t =
    by_padding bs inode file_type name h b b' d.records d.offset r t
