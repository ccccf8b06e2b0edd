-- ===== src/Fatblock/Volume/Chain.antt =====
-- The chain that `fs_alloc_extent` (fatblock/fs.c) writes into the FAT.
use android_platform_system.Prelude.{
  ℕ, zero, suc, ◌+◌, ◌-◌, ◌^◌, ◌≤◌, ◌<◌, ◌≡◌, refl, false, ◌&&◌, ◌==◌, arith, ltb, leb, add32,
  sub32, if◌then◌else◌, List, [], ◌∷◌, ap,
}
use android_platform_system.Fatblock.Volume.{fat_entry_eoc, fs_set_fat, link_loop}

-- A reader of the image: the clusters from `c` on, up to the entry that ends the chain.
pub follow : ℕ → (ℕ → ℕ) → ℕ → List ℕ
follow zero entries c = []
follow (suc fuel) entries c =
    let rest = follow fuel entries (entries c) in
    if leb fat_entry_eoc (entries c) then c ∷ [] else c ∷ rest

-- `start, start + 1, …`, `n` of them.
abbrev pub count_from : ℕ → ℕ → List ℕ
count_from start zero = []
count_from start (suc n) = start ∷ count_from (start + 1) n

link_loop_lem :
    (n start i : ℕ) (entries : ℕ → ℕ)
    → start + i + n < 2 ^ 32
    → (c : ℕ)
    → link_loop n start i entries c
      ≡ (if leb (start + i) c && ltb c (start + i + n) then c + 1 else entries c)
unfolding link_loop fs_set_fat
link_loop_lem zero start i entries h c = ground arith
link_loop_lem (suc n) start i entries h c =
    let x : add32 i 1 ≡ i + 1 = omega arith in
    let y : add32 start i ≡ start + i = omega arith in
    let z : add32 (start + i) 1 ≡ start + i + 1 = omega arith in
    rw (x, y, z)
      (ground (
        arith,
        link_loop_lem n start (i + 1) (fs_set_fat entries (start + i) (start + i + 1)) (omega arith)
            c,
      ))

-- The table after the loop and the entry that ends the chain.
abbrev pub chained : ℕ → ℕ → (ℕ → ℕ) → ℕ → ℕ
chained start n entries =
    fs_set_fat (link_loop (sub32 n 1) start 0 entries) (sub32 (start + n) 1) fat_entry_eoc

pub chained_lem :
    (start n : ℕ) (entries : ℕ → ℕ)
    → 0 < n
    → start + n < 2 ^ 32
    → (c : ℕ)
    → chained start n entries c ≡ (
        if c == start + n - 1
        then fat_entry_eoc
        else if leb start c && ltb c (start + n)
        then c + 1
        else entries c)
unfolding fs_set_fat
chained_lem start n entries p h c =
    let x : sub32 n 1 ≡ n - 1 = omega arith in
    let y : sub32 (start + n) 1 ≡ start + n - 1 = omega arith in
    rw (x, y) (ground (arith, link_loop_lem (n - 1) start 0 entries (omega arith) c))

-- A table in which `n` clusters are linked in order is read back as these clusters.
pub follow_lem :
    (n start : ℕ) (t : ℕ → ℕ)
    → ((c : ℕ)
        → start ≤ c
        → c < start + n
        → t c ≡ (if c == start + n - 1 then fat_entry_eoc else c + 1))
    → start + n ≤ fat_entry_eoc
    → follow n t start ≡ count_from start n
unfolding follow
follow_lem zero start t h b = refl
follow_lem (suc zero) start t h b =
    let e : t start ≡ fat_entry_eoc = ground (arith, h start (omega arith) (omega arith)) in
    rw (e, follow)
follow_lem (suc (suc n)) start t h b =
    let e : t start ≡ start + 1 = ground (arith, h start (omega arith) (omega arith)) in
    let l : leb fat_entry_eoc (start + 1) ≡ false = ground arith in
    let later : (c : ℕ)
        → start + 1 ≤ c
        → c < start + 1 + suc n
        → t c ≡ (if c == start + 1 + suc n - 1 then fat_entry_eoc else c + 1) =
      λ c p q. ground (arith, h c (omega arith) (omega arith)) in
    let r = follow_lem (suc n) (start + 1) t later (omega arith) in
    rw (follow, e, l) (ap (λ xs. start ∷ xs) r)
