-- ===== src/Ext4/Contents/Whole.antt =====
-- All the records that `make_directory` (ext4_utils/contents.c) writes.
use native.Mathlib.Nat.{div-add-mod', mod-lt, mod-eq_of_lt}
use android_platform_system.Prelude.{
  ℕ, suc, ◌+◌, ◌-◌, ◌*◌, ◌/◌, ◌%◌, ◌^◌, ◌≤◌, ◌<◌, ◌≡◌, refl, sym, false, ltb, arith, add32, sub32,
  mul32, div_round_up32, List, [], ◌∷◌, ◌∙◌, ap, subst,
}
use android_platform_system.Ext4.Exit.{returns}
use android_platform_system.Ext4.Contents.{
  Dentry, DirEntry, DirData, lengthen, pad_last, add_dentry, entries_loop, size_loop, dentry_size,
  fill_directory, directory_len, ext4_ft_dir,
}
use android_platform_system.Prelude.Division.{quotient_unique}
use android_platform_system.Ext4.Contents.Tiled.{Tiled, start_of, lengthen-InBlock}
use android_platform_system.Ext4.Contents.Added.{names, Adds, add_dentry-Tiled}
use android_platform_system.Ext4.Contents.Directory.{
  laid_out, Short, laid_out-grows, size_loop_lem, pushed, entries_loop-Loops,
}

abbrev pub dot : List ℕ
dot = b'.' ∷ []

abbrev pub dot_dot : List ℕ
dot_dot = b'.' ∷ b'.' ∷ []

dot_end : (bs off : ℕ) → 264 ≤ bs → off < 252 → start_of bs off 12 + 12 ≡ off + 12
dot_end bs off b h =
    let m : off % bs ≡ off = mod-eq_of_lt (omega arith) in
    let z : ltb bs (off + 12) ≡ false = ground arith in rw (m, z) refl

-- The bytes of a directory are whole blocks, and the last record begins in the last one.
record Lengths (bs s len : ℕ) : Type 0 where
  enough : s ≤ len
  small : len < 2 ^ 32
  before_last : ℕ
  blocks : len ≡ before_last * bs + bs
  last_block : (s - 1) / bs ≡ before_last

directory_len-Lengths :
    (bs s : ℕ)
    → 264 ≤ bs
    → bs < 2 ^ 16
    → 24 ≤ s
    → s + bs + 264 < 2 ^ 32
    → Lengths bs s (mul32 (div_round_up32 s bs) bs)
directory_len-Lengths bs s b b' p r =
    let e : sub32 (add32 s bs) 1 ≡ s + bs - 1 = omega arith in
    let v : (s - 1) / bs * bs + (s - 1) % bs ≡ s - 1 = div-add-mod' (s - 1) bs in
    let w : (s - 1) % bs < bs = mod-lt (s - 1) (omega arith) in
    let u : (s + bs - 1) / bs * bs + (s + bs - 1) % bs ≡ s + bs - 1 =
      div-add-mod' (s + bs - 1) bs in
    let x : (s + bs - 1) % bs < bs = mod-lt (s + bs - 1) (omega arith) in
    let k : suc ((s - 1) / bs) * bs ≡ (s - 1) / bs * bs + bs = grind arith in
    let q : (s + bs - 1) / bs ≡ suc ((s - 1) / bs) =
      quotient_unique bs _ _ ((s + bs - 1) % bs) ((s - 1) % bs) (omega arith) x w in
    let l : mul32 (div_round_up32 s bs) bs ≡ (s - 1) / bs * bs + bs =
      rw (e, q) (ap (λ c. c % 2 ^ 32) k ∙ omega arith) in
    record {
      enough = omega arith;
      small = omega arith;
      before_last = (s - 1) / bs;
      blocks = l;
      last_block = refl;
    }

pad_last-Tiled :
    (bs len off : ℕ) (records : List DirEntry)
    → 264 ≤ bs
    → bs < 2 ^ 16
    → 24 ≤ off
    → Lengths bs off len
    → Tiled bs records off
    → (d : DirData) × (pad_last len off records ≡ returns d)
      × Tiled bs d.records len
      × (names d.records ≡ names records)
pad_last-Tiled bs len off [] b b' p l t = absurd (omega (arith, t))
pad_last-Tiled bs len off (r ∷ records) b b' p l (i, t) = (
  record { records = lengthen (sub32 len off) r ∷ records; offset = off },
  refl,
  (
    lengthen-InBlock bs r off len (omega arith) b' i l.enough l.small l.before_last l.blocks
        l.last_block,
    t,
  ),
  refl,
)

module _ (bs len inode_num dir_inode_num : ℕ) (dentries : List Dentry) where
  abbrev nothing : DirData
  nothing = record { records = []; offset = 0 }

  fill_directory-run :
      (d1 d2 d3 d4 : DirData)
      → add_dentry bs inode_num dot ext4_ft_dir nothing ≡ returns d1
      → add_dentry bs dir_inode_num dot_dot ext4_ft_dir d1 ≡ returns d2
      → entries_loop bs len dentries d2 ≡ returns d3
      → pad_last len d3.offset d3.records ≡ returns d4
      → fill_directory bs len inode_num dir_inode_num dentries ≡ returns d4
  unfolding fill_directory
  fill_directory-run d1 d2 d3 d4 a b c d = rw (a, b, c) d

  abbrev Fills : Type 0
  Fills =
      (d : DirData) × (fill_directory bs len inode_num dir_inode_num dentries ≡ returns d)
      × Tiled bs d.records len
      × (names d.records ≡ pushed dentries (dot_dot ∷ dot ∷ []))

  fill_rest :
      (d1 d2 : DirData)
      → 264 ≤ bs
      → bs < 2 ^ 16
      → Short dentries
      → laid_out bs 24 dentries + bs + 264 < 2 ^ 32
      → Lengths bs (laid_out bs 24 dentries) len
      → Adds bs inode_num ext4_ft_dir dot nothing d1
      → Adds bs dir_inode_num ext4_ft_dir dot_dot d1 d2
      → d2.offset ≡ 24
      → Fills
  fill_rest d1 d2 b b' s r l x y o =
      let (d3, z) = entries_loop-Loops bs len dentries d2 b b' s (rw o r) (rw o l.enough) y.tiled in
      let e : d3.offset ≡ laid_out bs 24 dentries = z.moved ∙ rw o refl in
      let g : 24 ≤ laid_out bs 24 dentries = laid_out-grows bs 24 dentries in
      let (d4, p, t, n) =
        pad_last-Tiled bs len d3.offset d3.records b b' (rw e g) (rw e l) z.tiled in
      (
        d4,
        fill_directory-run d1 d2 d3 d4 x.added y.added z.ran p,
        t,
        n ∙ z.written ∙ rw (y.written, x.written) refl,
      )

  fill_all :
      264 ≤ bs
      → bs < 2 ^ 16
      → Short dentries
      → laid_out bs 24 dentries + bs + 264 < 2 ^ 32
      → Lengths bs (laid_out bs 24 dentries) len
      → Fills
  fill_all b b' s r l =
      let (d1, x) =
        add_dentry-Tiled bs inode_num ext4_ft_dir dot nothing (omega arith) b b' (omega arith)
          refl in
      let o1 : d1.offset ≡ 12 = x.moved ∙ dot_end bs 0 b (omega arith) in
      let (d2, y) =
        add_dentry-Tiled bs dir_inode_num ext4_ft_dir dot_dot d1 (omega arith) b b'
          (omega (arith, o1)) x.tiled in
      let o2 : d2.offset ≡ 24 = y.moved ∙ rw o1 (dot_end bs 12 b (omega arith)) in
      fill_rest d1 d2 b b' s r l x y o2

-- For names of less than 256 bytes and a block size from 264 to 65535, where nothing reaches 2^32,
-- the bytes that `dentry_size` asks for, in whole blocks, are what the records need: `make_directory`
-- finds no record that ends too late, and it writes ".", ".." and an entry for each name in their order,
-- one behind the other without gaps from byte 0 to the end of the last block, each in one block and
-- long enough for its name.
pub fill_directory_lem :
    (bs inode_num dir_inode_num : ℕ) (dentries : List Dentry)
    → 264 ≤ bs
    → bs < 2 ^ 16
    → Short dentries
    → laid_out bs 24 dentries + bs + 264 < 2 ^ 32
    → (d : DirData) × (fill_directory bs
          (directory_len bs dentries)
          inode_num
          dir_inode_num
          dentries
        ≡ returns d)
      × Tiled bs d.records (directory_len bs dentries)
      × (names d.records ≡ pushed dentries (dot_dot ∷ dot ∷ []))
unfolding dentry_size
fill_directory_lem bs inode_num dir_inode_num dentries b b' s r =
    let e : size_loop bs 24 dentries ≡ laid_out bs 24 dentries =
      size_loop_lem bs 24 dentries b b' s r in
    let l : Lengths bs (laid_out bs 24 dentries) (directory_len bs dentries) =
      subst (λ c. Lengths bs (laid_out bs 24 dentries) (mul32 (div_round_up32 c bs) bs)) (sym e)
        (directory_len-Lengths bs (laid_out bs 24 dentries) b b' (laid_out-grows bs 24 dentries)
          r) in
    fill_all bs (directory_len bs dentries) inode_num dir_inode_num dentries b b' s r l
