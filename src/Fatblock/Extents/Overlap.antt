-- ===== src/Fatblock/Extents/Overlap.antt =====
-- `fs_find_extent` (fatblock/fs.c) finds the first extent that overlaps a range, and the overlap.
use Prim.Native.Nat.{min, max}
use android_platform_system.Prelude.{
  ℕ, ◌+◌, ◌-◌, ◌^◌, ◌≤◌, ◌<◌, ◌≡◌, ◌⊎◌, inl, inr, refl, ◌||◌, Bool-cases, arith, leb, add64, sub64,
  List, [], ◌∷◌, ◌++◌, ap,
}
use android_platform_system.Fatblock.Extents.{
  Extent, Found, found, not_found, checked, overlap, find_extent,
}

-- The ranges share a byte.
pub record Overlaps (start len : ℕ) (e : Extent) : Type 0 where
  pub from : start < e.start + e.len
  pub to : e.start < start + len

-- `r_start` and `e_start` are the place of the common range in the request and in the extent.
pub record IsOverlap (start len : ℕ) (e : Extent) (r_start e_start rel_len : ℕ) : Type 0 where
  pub first : start + r_start ≡ max start e.start
  pub same : start + r_start ≡ e.start + e_start
  pub last : start + r_start + rel_len ≡ min (start + len) (e.start + e.len)
  pub some : 0 < rel_len

checked-found :
    (len : ℕ) (e : Extent) (behind : List Extent) (r_start e_start rel_len : ℕ)
    → len < 2 ^ 64
    → e.len < 2 ^ 64
    → e_start < e.len
    → e_start + rel_len ≤ e.len
    → r_start < len
    → r_start + rel_len ≤ len
    → checked len e behind r_start e_start rel_len ≡ found e behind r_start e_start rel_len
checked-found len e behind r_start e_start rel_len hl he a b c d =
    let x : add64 e_start rel_len ≡ e_start + rel_len = omega arith in
    let y : add64 r_start rel_len ≡ r_start + rel_len = omega arith in rw (x, y) (ground arith)

module _ (start len : ℕ) (e : Extent) (behind : List Extent) (h : start + len < 2 ^ 64)
    (k : e.start + e.len < 2 ^ 64) (o : Overlaps start len e) (p : 0 < len) (q : 0 < e.len) where
  abbrev Right : Found → Type 0
  Right r =
      (r_start e_start rel_len : ℕ) × (r ≡ found e behind r_start e_start rel_len)
      × IsOverlap start len e r_start e_start rel_len

  right :
      (r_start e_start rel_len : ℕ)
      → IsOverlap start len e r_start e_start rel_len
      → Right (checked len e behind r_start e_start rel_len)
  right r_start e_start rel_len i = (
    r_start,
    e_start,
    rel_len,
    checked-found len e behind r_start e_start rel_len (omega arith) (omega arith)
        (omega (arith, i.same, i.last, i.some)) (omega (arith, i.same, i.last))
        (omega (arith, i.last, i.some)) (omega (arith, i.last)),
    i,
  )

  overlap-found : Right (overlap start len e behind)
  unfolding overlap
  overlap-found =
      let x : add64 start len ≡ start + len = omega arith in
      let y : add64 e.start e.len ≡ e.start + e.len = omega arith in
      elim (Bool-cases (leb e.start start)) [
        | inl s ↦
            let z : sub64 start e.start ≡ start - e.start = ground arith in
            let w : sub64 (e.start + e.len) start ≡ e.start + e.len - start =
              omega (arith, o.from) in
            rw (s, x, y, z, w)
              (right 0 _ _ (record {
                first = ground arith;
                same = ground arith;
                last = ground (arith, o.from);
                some = ground (arith, o.from);
              }))
        | inr n ↦
            let z : sub64 e.start start ≡ e.start - start = ground arith in
            let w : sub64 (start + len) e.start ≡ start + len - e.start = omega (arith, o.to) in
            rw (n, x, y, z, w)
              (right _ 0 _ (record {
                first = ground arith;
                same = ground arith;
                last = ground (arith, o.to);
                some = ground (arith, o.to);
              }))
      ]

-- Every extent has bytes and ends below 2 ^ 64.
abbrev pub Fit : List Extent → Type 0
Fit [] = Unit {0}
Fit (e ∷ extents) = (0 < e.len) × (e.start + e.len < 2 ^ 64) × Fit extents

abbrev pub NoOverlap : ℕ → ℕ → List Extent → Type 0
NoOverlap start len [] = Unit {0}
NoOverlap start len (e ∷ extents) =
    ((e.start + e.len ≤ start) ⊎ (start + len ≤ e.start)) × NoOverlap start len extents

-- The ends of a search that finds the first overlapping extent, if there is one.
pub data Finds (start len : ℕ) (extents : List Extent) : Found → Type 0 where
  nothing : NoOverlap start len extents → Finds start len extents not_found
  first :
      (before behind : List Extent) (e : Extent) (r_start e_start rel_len : ℕ)
      → extents ≡ before ++ (e ∷ behind)
      → NoOverlap start len before
      → Overlaps start len e
      → IsOverlap start len e r_start e_start rel_len
      → Finds start len extents (found e behind r_start e_start rel_len)

Finds-later :
    (start len : ℕ) (e : Extent) (extents : List Extent) (r : Found)
    → (e.start + e.len ≤ start) ⊎ (start + len ≤ e.start)
    → Finds start len extents r
    → Finds start len (e ∷ extents) r
Finds-later start len e extents r n (nothing f) = nothing (n, f)
Finds-later start len e extents r n (first before behind x r_start e_start rel_len eq f o i) =
    first (e ∷ before) behind x r_start e_start rel_len (ap (λ l. e ∷ l) eq) (n, f) o i

-- For a range with bytes that ends below 2 ^ 64, over extents that do so too, `fs_find_extent`
-- fails no assertion, passes over the extents that do not overlap the range, and stops at the first
-- that does with the place of the common range in both; it finds none only if there is none.
pub find_extent-Finds :
    (start len : ℕ) (extents : List Extent)
    → start + len < 2 ^ 64
    → 0 < len
    → Fit extents
    → Finds start len extents (find_extent start len extents)
unfolding find_extent
find_extent-Finds start len [] h p f = nothing tt
find_extent-Finds start len (e ∷ extents) h p (q, k, f) =
    let x : add64 start len ≡ start + len = omega arith in
    let y : add64 e.start e.len ≡ e.start + e.len = omega arith in
    elim (Bool-cases (leb (e.start + e.len) start || leb (start + len) e.start)) [
      | inl s ↦
          rw (x, y, s)
            (Finds-later start len e extents _ (ground arith)
              (find_extent-Finds start len extents h p f))
      | inr n ↦
          let o : Overlaps start len e = record { from = ground arith; to = ground arith } in
          let (r_start, e_start, rel_len, eq, i) = overlap-found start len e extents h k o p q in
          rw (x, y, n, eq) (first [] extents e r_start e_start rel_len refl tt o i)
    ]
