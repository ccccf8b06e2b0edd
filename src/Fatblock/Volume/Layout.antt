-- ===== src/Fatblock/Volume/Layout.antt =====
-- `fs_alloc_extent` (fatblock/fs.c) on every branch, and the invariant of `struct fs`.
use native.Mathlib.Nat.{div-add-mod', mod-lt}
use android_platform_system.Prelude.{
  ℕ, ◌+◌, ◌-◌, ◌*◌, ◌/◌, ◌%◌, ◌^◌, ◌≤◌, ◌<◌, ◌≡◌, ◌⊎◌, inl, inr, refl, false, ◌==◌, Bool-cases,
  arith, ltb, add32, sub32, add64, sub64, mul64, List, [], ◌∷◌,
}
use android_platform_system.Fatblock.Extents.{Extent, Backing, add_extent}
use android_platform_system.Fatblock.Extents.Overlap.{Fit}
use android_platform_system.Fatblock.Volume.{
  Fs, fat_entry_eoc, Allocated, allocated, full, clusters_for, alloc_extent,
}
use android_platform_system.Fatblock.Volume.Chain.{
  follow, follow_lem, count_from, chained, chained_lem,
}

-- The extents stand in the image one below the other, the newest on top, and end at `bound`.
abbrev pub Stacked : ℕ → List Extent → Type 0
Stacked bound [] = Unit {0}
Stacked bound (e ∷ extents) = (e.start + e.len ≤ bound) × Stacked e.start extents

-- Where the bytes of cluster `c` begin.
abbrev pub offset_of : Fs → ℕ → ℕ
offset_of fs c = fs.data_offset + (c - 2) * fs.cluster_size

pub record IsFs (fs : Fs) : Type 0 where
  pub cluster_min : 512 ≤ fs.cluster_size
  pub cluster_max : fs.cluster_size < 2 ^ 16
  pub next_min : 2 ≤ fs.next_cluster
  pub next_max : fs.next_cluster ≤ fs.num_clusters
  pub numbers : fs.num_clusters ≤ fat_entry_eoc
  pub table : 4 * fs.num_clusters ≤ fs.fat_size
  pub room : offset_of fs fs.num_clusters < 2 ^ 64
  pub stacked : Stacked (offset_of fs fs.next_cluster) fs.extents
  pub fit : Fit fs.extents

-- The clusters for `len` bytes: enough, and none too many.
record Rounds (cluster_size len n : ℕ) : Type 0 where
  enough : len ≤ n * cluster_size
  tight : n * cluster_size < len + cluster_size
  positive : 0 < n
  small : n < 2 ^ 31

clusters_for-Rounds :
    (cluster_size len : ℕ)
    → 512 ≤ cluster_size
    → cluster_size < 2 ^ 16
    → 0 < len
    → len < 2 ^ 32
    → Rounds cluster_size len (clusters_for cluster_size len)
unfolding clusters_for
clusters_for-Rounds cluster_size len a b p h =
    let e : sub64 (add64 len cluster_size) 1 ≡ len + cluster_size - 1 = omega arith in
    let q : ℕ = (len + cluster_size - 1) / cluster_size in
    let d : q * cluster_size + (len + cluster_size - 1) % cluster_size ≡ len + cluster_size - 1 =
      div-add-mod' (len + cluster_size - 1) cluster_size in
    let m : (len + cluster_size - 1) % cluster_size < cluster_size = mod-lt _ (omega arith) in
    let s : q * 512 ≤ q * cluster_size = grind arith in
    let w : q % 2 ^ 32 ≡ q = omega arith in
    rw (e, w)
      (record {
        enough = omega arith;
        tight = omega arith;
        positive = grind arith;
        small = omega arith;
      })

-- What the new file system is after `len` bytes got the clusters from `first` on.
pub record Placed (fs : Fs) (len : ℕ) (backing : Backing) (first : ℕ) (fs' : Fs) : Type 0 where
  pub count : ℕ
  pub enough : len ≤ count * fs.cluster_size
  pub tight : count * fs.cluster_size < len + fs.cluster_size
  pub fresh : first ≡ fs.next_cluster
  pub next : fs'.next_cluster ≡ first + count
  pub extents :
      fs'.extents
      ≡ record { start = offset_of fs first; len = count * fs.cluster_size; backing = backing }
        ∷ fs.extents
  pub chain : follow count fs'.fat_entries first ≡ count_from first count
  pub end : fs'.fat_entries (first + count - 1) ≡ fat_entry_eoc
  pub others : (c : ℕ) → (c < first) ⊎ (first + count ≤ c) → fs'.fat_entries c ≡ fs.fat_entries c
  pub valid : IsFs fs'

-- The ends of `fs_alloc_extent` for a length that is not 0.
pub data Allocates (fs : Fs) (len : ℕ) (backing : Backing) : Allocated → Type 0 where
  no_room :
      (count : ℕ)
      → count * fs.cluster_size < len + fs.cluster_size
      → fs.num_clusters < fs.next_cluster + count
      → Allocates fs len backing full
  placed :
      (first : ℕ) (fs' : Fs)
      → Placed fs len backing first fs'
      → Allocates fs len backing (allocated first fs')

module _ (fs : Fs) (len : ℕ) (backing : Backing) (v : IsFs fs) where
  offset_of-add :
      (n : ℕ)
      → offset_of fs (fs.next_cluster + n) ≡ offset_of fs fs.next_cluster + n * fs.cluster_size
  offset_of-add n =
      let e : fs.next_cluster + n - 2 ≡ (fs.next_cluster - 2) + n = omega (arith, v.next_min) in
      rw e (omega arith)

  offset_of-le :
      (n : ℕ)
      → fs.next_cluster + n ≤ fs.num_clusters
      → offset_of fs fs.next_cluster + n * fs.cluster_size ≤ offset_of fs fs.num_clusters
  offset_of-le n h =
      let m : (fs.next_cluster + n - 2) * fs.cluster_size
          ≤ (fs.num_clusters - 2) * fs.cluster_size =
        grind arith in
      omega (arith, offset_of-add n, m)

  module _ (n : ℕ) (r : Rounds fs.cluster_size len n)
      (h : fs.next_cluster + n ≤ fs.num_clusters) where
    abbrev after : Fs
    after = record fs {
      next_cluster = fs.next_cluster + n;
      fat_entries = chained fs.next_cluster n fs.fat_entries;
      extents = add_extent fs.extents (offset_of fs fs.next_cluster) (n * fs.cluster_size) backing;
    }

    after-IsFs : IsFs after
    unfolding add_extent
    after-IsFs = record {
      cluster_min = v.cluster_min;
      cluster_max = v.cluster_max;
      next_min = omega (arith, v.next_min);
      next_max = h;
      numbers = v.numbers;
      table = v.table;
      room = v.room;
      stacked = (omega (arith, offset_of-add n), v.stacked);
      fit = (
        grind (arith, r.positive, v.cluster_min),
        omega (arith, offset_of-le n h, v.room),
        v.fit,
      );
    }

    after-Placed : 0 < len → Placed fs len backing fs.next_cluster after
    unfolding add_extent
    after-Placed p =
        let t =
          chained_lem fs.next_cluster n fs.fat_entries r.positive (omega (arith, v.numbers)) in
        record {
          count = n;
          enough = r.enough;
          tight = r.tight;
          fresh = refl;
          next = refl;
          extents = refl;
          chain =
              follow_lem n fs.next_cluster (chained fs.next_cluster n fs.fat_entries)
                (λ c a b. ground (arith, t c)) (omega (arith, v.numbers));
          end = ground (arith, t (fs.next_cluster + n - 1), r.positive);
          others = λ c o. ground (arith, t c);
          valid = after-IsFs;
        }

  -- On a valid file system and for a length of 1 to 2^32 - 1 bytes, `fs_alloc_extent` either reports
  -- that the clusters that the length needs (rounded up) are not left, or takes exactly these: the
  -- new extent is theirs, the FAT links them in order, ends the chain with FAT_ENTRY_EOC and is otherwise
  -- unchanged, and the file system stays valid, with all extents apart.
  pub alloc_extent-Allocates :
      0 < len → len < 2 ^ 32 → Allocates fs len backing (alloc_extent fs len backing)
  unfolding alloc_extent
  alloc_extent-Allocates p s =
      let n : ℕ = clusters_for fs.cluster_size len in
      let r : Rounds fs.cluster_size len n =
        clusters_for-Rounds fs.cluster_size len v.cluster_min v.cluster_max p s in
      let z : (len == 0) ≡ false = ground arith in
      let a : add32 fs.next_cluster n ≡ fs.next_cluster + n =
        omega (arith, v.next_max, v.numbers, r.small) in
      elim (Bool-cases (ltb fs.num_clusters (fs.next_cluster + n))) [
        | inl y ↦ rw (z, a, y) (no_room n r.tight (ground arith))
        | inr k ↦
            let h : fs.next_cluster + n ≤ fs.num_clusters = ground arith in
            let x : sub32 fs.next_cluster 2 ≡ fs.next_cluster - 2 =
              omega (arith, v.next_min, v.next_max, v.numbers) in
            let le = offset_of-le n h in
            let m : mul64 (fs.next_cluster - 2) fs.cluster_size
                ≡ (fs.next_cluster - 2) * fs.cluster_size =
              omega (arith, v.room) in
            let o : add64 fs.data_offset ((fs.next_cluster - 2) * fs.cluster_size)
                ≡ offset_of fs fs.next_cluster =
              omega (arith, v.room) in
            let l : mul64 n fs.cluster_size ≡ n * fs.cluster_size = omega (arith, v.room) in
            rw (z, a, k, x, m, o, l) (placed fs.next_cluster (after n r h) (after-Placed n r h p))
      ]
