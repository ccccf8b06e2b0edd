-- ===== src/Ext4/Extents/Lookup.antt =====
-- The extents that `do_inode_allocate_extents` (ext4_utils/extent.c) writes, and reading them back.
use android_platform_system.Prelude.{
  ℕ, zero, suc, ◌+◌, ◌-◌, ◌*◌, ◌/◌, ◌%◌, ◌^◌, ◌≤◌, ◌<◌, ◌≡◌, inl, inr, refl, true, false, ◌==◌, ◌∙◌,
  ◌&&◌, ltb, leb, if◌then◌else◌, add32, sub32, List, [], ◌∷◌, length, arith, Bool-cases,
}
use android_platform_system.Ext4.Exit.{returns}
use android_platform_system.Ext4.Groups.{allocate_failed}
use android_platform_system.Ext4.Store.{Ptr, Region, Store}
use android_platform_system.Ext4.Regions.{BlockAllocation, rewind_alloc}
use android_platform_system.Ext4.Regions.Chain.{Chain, total, nth_block, load-cell}
use android_platform_system.Ext4.Extents.{
  extents_loop, extent_word, write_words, write_inline, Ext4Inode, header_word, ext4_ext_magic,
}
use android_platform_system.Ext4.Geometry.{FsInfo}

-- EXT_INIT_MAX_LEN. A longer extent is one without data yet.
abbrev pub ext_init_max_len : ℕ
ext_init_max_len = 2 ^ 15

-- The block of the device for block `n` of the file, as the `count` extents from word `at` on say,
-- by the format of ext4_utils/ext4_extents.h.
abbrev pub lookup_extent : ℕ → ℕ → (ℕ → ℕ) → ℕ → ℕ
lookup_extent zero at words n = allocate_failed
lookup_extent (suc count) at words n =
    if leb (words (at + 1) % 2 ^ 16) ext_init_max_len
      && (leb (words at) n && ltb n (words at + words (at + 1) % 2 ^ 16))
    then words (at + 2) + 2 ^ 32 * (words (at + 1) / 2 ^ 16) + (n - words at)
    else lookup_extent count (at + 3) words n

-- The same from the header on: it has the magic number and depth 0, and counts the extents behind it.
abbrev pub lookup_block : (ℕ → ℕ) → ℕ → ℕ
lookup_block words n =
    if words 0 % 2 ^ 16 == ext4_ext_magic
      && (words 1 / 2 ^ 16 == 0 && leb (words 0 / 2 ^ 16) (words 1 % 2 ^ 16))
    then lookup_extent (words 0 / 2 ^ 16) 3 words n
    else allocate_failed

-- The length of a region is one of an extent with data.
abbrev pub ShortRegions : List Region → Type 0
ShortRegions [] = Unit
ShortRegions (r ∷ rs) = (r.len ≤ ext_init_max_len) × ShortRegions rs

total-ShortRegions : (rs : List Region) → ShortRegions rs → total rs ≤ 2 ^ 15 * length rs
total-ShortRegions [] h = omega arith
total-ShortRegions (r ∷ rs) (l, h) = omega (arith, total-ShortRegions rs h)

-- The extents from word `at` on are those of the regions, for the file from block `from` on, and no
-- other word is written; the allocation is the same but for its iterator.
pub record Written (alloc alloc' : BlockAllocation) (rs : List Region) (at from : ℕ)
    (words words' : ℕ → ℕ) : Type 0 where
  pub below : (i : ℕ) → i < at → words' i ≡ words i
  pub behind : (i : ℕ) → at + 3 * length rs ≤ i → words' i ≡ words i
  pub reads :
      (n : ℕ)
      → from ≤ n
      → n < from + total rs
      → lookup_extent (length rs) at words' n ≡ nth_block rs (n - from)
  pub same : rewind_alloc alloc' ≡ rewind_alloc alloc

abbrev next_alloc : BlockAllocation → Ptr → BlockAllocation
next_alloc alloc p = record alloc { list = record alloc.list { iter = p; partial_iter = 0 } }

Written-step :
    (alloc alloc' : BlockAllocation) (r : Region) (rs : List Region) (at from : ℕ)
    (words words' : ℕ → ℕ)
    → r.len ≤ ext_init_max_len
    → Written
        (next_alloc alloc r.next)
        alloc'
        rs
        (at + 3)
        (from + r.len)
        (write_words at (extent_word from r.len r.block) words)
        words'
    → Written alloc alloc' (r ∷ rs) at from words words'
unfolding rewind_alloc
Written-step alloc alloc' r rs at from words words' short w =
    let a : words' at ≡ from = ground (arith, w.below at) in
    let b : words' (at + 1) ≡ r.len = ground (arith, w.below (at + 1)) in
    let c : words' (at + 2) ≡ r.block = ground (arith, w.below (at + 2)) in
    record {
      below = λ i h. ground (arith, w.below i);
      behind = λ i h. ground (arith, w.behind i);
      reads = λ n l h. elim (Bool-cases (ltb (n - from) r.len)) [
        | inl y ↦
            let d : (leb (r.len % 2 ^ 16) ext_init_max_len
                  && (leb from n && ltb n (from + r.len % 2 ^ 16)))
                ≡ true =
              ground arith in
            let e : r.block + 2 ^ 32 * (r.len / 2 ^ 16) + (n - from) ≡ r.block + (n - from) =
              omega arith in
            rw (a, b, c, d, y, e)
        | inr z ↦
            let d : (leb (r.len % 2 ^ 16) ext_init_max_len
                  && (leb from n && ltb n (from + r.len % 2 ^ 16)))
                ≡ false =
              ground arith in
            let e : n - (from + r.len) ≡ n - from - r.len = omega arith in
            rw (a, b, d, z, ← e) (w.reads n (ground arith) (omega arith))
      ];
      same = w.same;
    }

-- `extents_loop` ends, leaves the store alone, and has written the regions.
Finishes : ℕ → ℕ → ℕ → ℕ → BlockAllocation → (ℕ → ℕ) → List Region → Store → Type 0
unfolding extents_loop
Finishes fuel limit at from alloc words rs s =
    (alloc' : BlockAllocation) × (words' : ℕ → ℕ) × (extents_loop fuel limit at from alloc words s
      ≡ (returns (alloc', words'), s))
    × Written alloc alloc' rs at from words words'

module _ (s : Store) where
  extents_loop-Written :
      (rs : List Region) (fuel limit at from : ℕ) (alloc : BlockAllocation) (words : ℕ → ℕ)
      → Chain s alloc.list.iter rs
      → alloc.list.partial_iter ≡ 0
      → ShortRegions rs
      → length rs ≤ fuel
      → from + total rs < 2 ^ 32
      → at + 3 * length rs ≤ limit
      → Finishes (suc fuel) limit at from alloc words rs s
  unfolding Finishes extents_loop
  extents_loop-Written [] fuel limit at from alloc words c p sh e t m = (
    alloc,
    words,
    rw c,
    record {
      below = λ i h. refl;
      behind = λ i h. refl;
      reads = λ n l h. absurd (omega arith);
      same = refl;
    },
  )
  extents_loop-Written (r ∷ rs) zero limit at from alloc words c p sh e t m = absurd (omega arith)
  extents_loop-Written (r ∷ rs) (suc fuel) limit at from alloc words (nn, c, cs) p (sh, shs) e t m =
      let a : add32 from r.len ≡ from + r.len = omega arith in
      let b : sub32 r.len 0 ≡ r.len = omega arith in
      let next = next_alloc alloc r.next in
      let space : ltb limit (at + 3) ≡ false = ground arith in
      let first = write_words at (extent_word from r.len r.block) words in
      let l = load-cell alloc.list.iter s r nn c in
      let round : Finishes (suc fuel) limit (at + 3) (from + r.len) next first rs s
          → Finishes (suc (suc fuel)) limit at from alloc words (r ∷ rs) s =
        λ x. (
          x.0,
          x.1,
          rw (nn, l, space, l, p, b, a) (x.2),
          Written-step alloc (x.0) r rs at from words (x.1) sh (x.3),
        ) in
      round (
        extents_loop-Written rs fuel limit (at + 3) (from + r.len) next first cs refl shs
          (omega arith) (omega arith) (omega arith))

-- For an allocation at its start, of at most three regions of at most 2^15 blocks each: `write_inline`
-- ends without an error, within the array of the inode, and leaves the store and the lists alone; a
-- reader of the format finds from the header in the inode, for every block of the file, the
-- block of the device at that place of the regions laid end to end.
pub write_inline_lem :
    (info : FsInfo) (alloc : BlockAllocation) (rs : List Region) (inode : Ext4Inode) (s : Store)
    → Chain s alloc.list.iter rs
    → alloc.list.partial_iter ≡ 0
    → length rs ≤ s.fresh
    → length rs ≤ 3
    → ShortRegions rs
    → (alloc' : BlockAllocation) × (inode' : Ext4Inode) × (write_inline info alloc
          (length rs)
          inode
          s
        ≡ (returns (alloc', inode'), s))
      × (rewind_alloc alloc' ≡ rewind_alloc alloc)
      × (inode'.i_block 0 ≡ ext4_ext_magic + 2 ^ 16 * length rs)
      × ((n : ℕ) → n < total rs → lookup_block inode'.i_block n ≡ nth_block rs n)
      × ((i : ℕ) → 3 + 3 * length rs ≤ i → inode'.i_block i ≡ inode.i_block i)
unfolding write_inline Finishes
write_inline_lem info alloc rs inode s c p e few sh =
    let words = write_words 0 (header_word (length rs) 3 0) inode.i_block in
    let x =
      extents_loop-Written s rs s.fresh 15 3 0 alloc words c p sh e
        (omega (arith, total-ShortRegions rs sh)) (omega arith) in
    let w0 : x.1 0 ≡ ext4_ext_magic + 2 ^ 16 * length rs =
      x.3.below 0 (omega arith) ∙ omega arith in
    let w1 : x.1 1 ≡ 3 = x.3.below 1 (omega arith) in
    let count : (ext4_ext_magic + 2 ^ 16 * length rs) / 2 ^ 16 ≡ length rs = omega arith in
    let good : ((ext4_ext_magic + 2 ^ 16 * length rs) % 2 ^ 16 == ext4_ext_magic
          && (3 / 2 ^ 16 == 0 && leb (length rs) (3 % 2 ^ 16)))
        ≡ true =
      ground arith in
    (
      x.0,
      record inode { i_block = x.1 },
      rw (x.2),
      x.3.same,
      w0,
      λ n h.
          let e : n - 0 ≡ n = omega arith in
          rw (w0, w1, count, good) (rw e at (x.3.reads n (omega arith) (omega arith))),
      λ i h. x.3.behind i h ∙ ground arith,
    )
