-- ===== src/Ext4/Contents/Directory.antt =====
-- `dentry_size` and the records of `make_directory` (ext4_utils/contents.c).
use native.Mathlib.Nat.{mod-lt}
use android_platform_system.Prelude.{
  ℕ, ◌+◌, ◌-◌, ◌%◌, ◌^◌, ◌≤◌, ◌<◌, ◌≡◌, refl, inl, inr, false, ◌&&◌, ltb, ◌==◌, if◌then◌else◌,
  arith, Bool-cases, add32, sub32, List, [], ◌∷◌, length, ◌∙◌,
}
use android_platform_system.Ext4.Exit.{returns}
use android_platform_system.Ext4.Contents.{Dentry, DirData, checked_end, entries_loop, size_loop}
use android_platform_system.Ext4.Contents.Tiled.{Tiled, start_of, record_len, record_len_bounds}
use android_platform_system.Ext4.Contents.Added.{names, Adds, add_dentry-Tiled}

-- Where the last record ends, without wrapping and before it is made longer.
abbrev pub laid_out : ℕ → ℕ → List Dentry → ℕ
laid_out bs off [] = off
laid_out bs off (e ∷ dentries) =
    laid_out bs (start_of bs off (record_len e.filename) + record_len e.filename) dentries

-- Every name has less than 256 bytes.
abbrev pub Short : List Dentry → Type 0
Short [] = Unit
Short (e ∷ dentries) = (length e.filename < 256) × Short dentries

start_of-grows : (bs off n : ℕ) → off ≤ start_of bs off n
start_of-grows bs off n = ground arith

pub laid_out-grows : (bs off : ℕ) (dentries : List Dentry) → off ≤ laid_out bs off dentries
laid_out-grows bs off [] = omega arith
laid_out-grows bs off (e ∷ dentries) =
    let s = start_of-grows bs off (record_len e.filename) in
    let l =
      laid_out-grows bs (start_of bs off (record_len e.filename) + record_len e.filename)
        dentries in
    omega (arith, s, l)

laid_out-more :
    (bs off : ℕ) (dentries : List Dentry) → 0 < length dentries → off < laid_out bs off dentries
laid_out-more bs off [] h = absurd (omega arith)
laid_out-more bs off (e ∷ dentries) h =
    let s = start_of-grows bs off (record_len e.filename) in
    let l =
      laid_out-grows bs (start_of bs off (record_len e.filename) + record_len e.filename)
        dentries in
    omega (arith, s, l)

size_step :
    (bs off : ℕ) (name : List ℕ)
    → 264 ≤ bs
    → bs < 2 ^ 16
    → length name < 256
    → off + bs + 264 < 2 ^ 32
    → add32
        (if ltb bs (add32 (off % bs) (record_len name % 2 ^ 32))
          then add32 off (sub32 bs (off % bs))
          else off)
        (record_len name % 2 ^ 32)
      ≡ start_of bs off (record_len name) + record_len name
size_step bs off name b b' h r =
    let s : (8 + length name ≤ record_len name) × (record_len name ≤ 264) =
      record_len_bounds name h in
    let m : off % bs < bs = mod-lt off (omega arith) in
    let e : record_len name % 2 ^ 32 ≡ record_len name = omega arith in
    let a : add32 (off % bs) (record_len name) ≡ off % bs + record_len name = omega arith in
    let c : add32 off (sub32 bs (off % bs)) ≡ off + (bs - off % bs) = omega arith in
    elim (Bool-cases (ltb bs (off % bs + record_len name))) [
      | inl z ↦ rw (e, a, z, c) (omega arith)
      | inr z ↦ rw (e, a, z) (omega arith)
    ]

pub size_loop_lem :
    (bs off : ℕ) (dentries : List Dentry)
    → 264 ≤ bs
    → bs < 2 ^ 16
    → Short dentries
    → laid_out bs off dentries + bs + 264 < 2 ^ 32
    → size_loop bs off dentries ≡ laid_out bs off dentries
unfolding size_loop
size_loop_lem bs off [] b b' s r = refl
size_loop_lem bs off (e ∷ dentries) b b' (h, s) r =
    let g = laid_out-grows bs off (e ∷ dentries) in
    rw (size_step bs off e.filename b b' h (omega (arith, g))) (
      size_loop_lem bs (start_of bs off (record_len e.filename) + record_len e.filename) dentries b
        b' s r)

-- The names in the order of the records, the newest first.
abbrev pub pushed : List Dentry → List (List ℕ) → List (List ℕ)
pushed [] acc = acc
pushed (e ∷ dentries) acc = pushed dentries (e.filename ∷ acc)

pub record Loops (bs len : ℕ) (dentries : List Dentry) (d d' : DirData) : Type 0 where
  pub ran : entries_loop bs len dentries d ≡ returns d'
  pub tiled : Tiled bs d'.records d'.offset
  pub moved : d'.offset ≡ laid_out bs d.offset dentries
  pub written : names d'.records ≡ pushed dentries (names d.records)

checked_end_passes :
    (bs len : ℕ) (more : List Dentry) (d : DirData)
    → laid_out bs d.offset more ≤ len
    → checked_end len more d ≡ returns d
checked_end_passes bs len [] d h =
    let e : ltb len d.offset ≡ false = ground arith in
    let f : ((d.offset == len) && false) ≡ false = ground arith in rw (e, f) refl
checked_end_passes bs len (e ∷ more) d h =
    let g = laid_out-more bs d.offset (e ∷ more) (omega arith) in
    let x : ltb len d.offset ≡ false = ground (arith, g) in
    let y : (d.offset == len) ≡ false = ground (arith, g) in rw (x, y) refl

entries_loop-step :
    (bs len : ℕ) (e : Dentry) (dentries : List Dentry) (d d' : DirData)
    → laid_out bs d.offset (e ∷ dentries) ≤ len
    → Adds bs 0 e.file_type e.filename d d'
    → entries_loop bs len (e ∷ dentries) d ≡ entries_loop bs len dentries d'
unfolding entries_loop
entries_loop-step bs len e dentries d d' l a =
    rw a.added (rw (checked_end_passes bs len dentries d' (rw a.moved l)) refl)

pub entries_loop-Loops :
    (bs len : ℕ) (dentries : List Dentry) (d : DirData)
    → 264 ≤ bs
    → bs < 2 ^ 16
    → Short dentries
    → laid_out bs d.offset dentries + bs + 264 < 2 ^ 32
    → laid_out bs d.offset dentries ≤ len
    → Tiled bs d.records d.offset
    → (d' : DirData) × Loops bs len dentries d d'
unfolding entries_loop
entries_loop-Loops bs len [] d b b' s r l t =
    (d, record { ran = refl; tiled = t; moved = refl; written = refl })
entries_loop-Loops bs len (e ∷ dentries) d b b' (h, s) r l t =
    let g = laid_out-grows bs d.offset (e ∷ dentries) in
    let (m, a) = add_dentry-Tiled bs 0 e.file_type e.filename d h b b' (omega (arith, g)) t in
    let (d', x) =
      entries_loop-Loops bs len dentries m b b' s (rw a.moved r) (rw a.moved l) a.tiled in
    (
      d',
      record {
        ran = entries_loop-step bs len e dentries d m l a ∙ x.ran;
        tiled = x.tiled;
        moved = x.moved ∙ rw a.moved refl;
        written = x.written ∙ rw a.written refl;
      },
    )
