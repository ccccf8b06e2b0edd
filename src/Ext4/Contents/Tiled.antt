-- ===== src/Ext4/Contents/Tiled.antt =====
-- `add_dentry` (ext4_utils/contents.c): the records stand one behind the other, each in one block.
use native.Mathlib.Nat.{div-add-mod', mod-lt}
use android_platform_system.Prelude.{
  ℕ, ◌+◌, ◌-◌, ◌*◌, ◌/◌, ◌%◌, ◌^◌, ◌≤◌, ◌<◌, ◌≡◌, refl, sym, ltb, if◌then◌else◌, arith, sub32, List,
  [], ◌∷◌, length, ◌∙◌, ap,
}
use android_platform_system.Ext4.Contents.{DirEntry, align4, lengthen}
use android_platform_system.Ext4.Contents.Blocks.{end_block_same}
use android_platform_system.Prelude.Division.{quotient_unique}

-- The record ends at `end`, in the block that it begins in, and its name fits.
pub record InBlock (block_size : ℕ) (r : DirEntry) (end : ℕ) : Type 0 where
  pub ends : end ≡ r.at + r.rec_len
  pub holds : 8 + length r.name ≤ r.rec_len
  pub named : r.name_len ≡ length r.name
  pub one_block : r.at / block_size ≡ (end - 1) / block_size

-- The newest first, without gaps, from the byte 0 up to `end`.
abbrev pub Tiled : ℕ → List DirEntry → ℕ → Type 0
Tiled block_size [] end = end ≡ 0
Tiled block_size (r ∷ records) end = InBlock block_size r end × Tiled block_size records r.at

-- Where a record of `len` bytes begins.
abbrev pub start_of : ℕ → ℕ → ℕ → ℕ
start_of block_size offset len =
    if ltb block_size (offset % block_size + len)
    then offset + (block_size - offset % block_size)
    else offset

abbrev pub record_len : List ℕ → ℕ
record_len name = 8 + align4 (length name)

pub record_len_bounds :
    (name : List ℕ)
    → length name < 256
    → (8 + length name ≤ record_len name) × (record_len name ≤ 264)
record_len_bounds name h = (omega arith, omega arith)

pub same_block : (bs off : ℕ) → 0 < off % bs → 0 < bs → (off - 1) / bs ≡ off / bs
same_block bs off h b =
    let u : (off - 1) / bs * bs + (off - 1) % bs ≡ off - 1 = div-add-mod' (off - 1) bs in
    let v : off / bs * bs + off % bs ≡ off = div-add-mod' off bs in
    let w : (off - 1) % bs < bs = mod-lt (off - 1) b in
    let m : off % bs < bs = mod-lt off b in
    quotient_unique bs _ _ ((off - 1) % bs) (off % bs - 1) (omega arith) w (omega arith)

-- The newest record made longer, up to the end of its block.
pub lengthen-InBlock :
    (bs : ℕ) (r : DirEntry) (off to : ℕ)
    → 0 < bs
    → bs < 2 ^ 16
    → InBlock bs r off
    → off ≤ to
    → to < 2 ^ 32
    → (q : ℕ) → to ≡ q * bs + bs
    → (off - 1) / bs ≡ q
    → InBlock bs (lengthen (sub32 to off) r) to
lengthen-InBlock bs r off to b c i l t q e f =
    let at_block : r.at / bs ≡ q = i.one_block ∙ f in
    let v : r.at / bs * bs + r.at % bs ≡ r.at = div-add-mod' r.at bs in
    let v' : q * bs + r.at % bs ≡ r.at = ap (λ k. k * bs + r.at % bs) (sym at_block) ∙ v in
    let d : sub32 to off ≡ to - off = omega arith in
    let n : (r.rec_len + (to - off)) % 2 ^ 16 ≡ r.rec_len + (to - off) = omega (arith, i.ends) in
    let u : (to - 1) / bs * bs + (to - 1) % bs ≡ to - 1 = div-add-mod' (to - 1) bs in
    let w : (to - 1) % bs < bs = mod-lt (to - 1) b in
    let z : (to - 1) / bs ≡ q =
      quotient_unique bs _ _ ((to - 1) % bs) (bs - 1) (omega arith) w (omega arith) in
    rw (d, n)
      record {
        ends = omega (arith, i.ends);
        holds = omega (arith, i.holds);
        named = i.named;
        one_block = at_block ∙ sym z;
      }

pub new-InBlock :
    (bs off inode file_type : ℕ) (name : List ℕ)
    → length name < 256
    → 264 ≤ bs
    → off % bs + record_len name ≤ bs
    → InBlock bs
        record {
          at = off;
          inode = inode;
          rec_len = record_len name;
          name_len = length name;
          entry_type = file_type;
          name = name;
        }
        (off + record_len name)
new-InBlock bs off inode file_type name h b l =
    let s : (8 + length name ≤ record_len name) × (record_len name ≤ 264) =
      record_len_bounds name h in
    record {
      ends = refl;
      holds = s.0;
      named = refl;
      one_block = sym (end_block_same bs off (record_len name) (omega arith) l);
    }
