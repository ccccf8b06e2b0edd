-- ===== src/Fatblock/Volume/Init.antt =====
-- What `fs_init` (fatblock/fs.c) sets up.
use native.Mathlib.Nat.{div-add-mod', mod-lt}
use android_platform_system.Prelude.{
  ℕ, ◌+◌, ◌-◌, ◌*◌, ◌/◌, ◌%◌, ◌^◌, ◌≤◌, ◌<◌, ◌≡◌, refl, arith, add32, sub32, add64, sub64, mul64,
}
use android_platform_system.Fatblock.Extents.{add_extent}
use android_platform_system.Fatblock.Volume.{
  fat_entry_eoc, fat_cluster_zero, fs_init, data_clusters, fat_sectors, total_sectors,
  reserved_sectors, sector_size, reserved_sectors,
}
use android_platform_system.Fatblock.Volume.Layout.{IsFs, offset_of}

data_clusters-eq :
    (cluster_size data_size n : ℕ)
    → 0 < cluster_size
    → data_size + cluster_size < 2 ^ 64
    → data_size ≤ n * cluster_size
    → n * cluster_size < data_size + cluster_size
    → n < 2 ^ 32
    → data_clusters cluster_size data_size ≡ n
unfolding data_clusters
data_clusters-eq cluster_size data_size n p h a b s =
    let e : sub64 (add64 data_size cluster_size) 1 ≡ data_size + cluster_size - 1 = omega arith in
    let d = div-add-mod' (data_size + cluster_size - 1) cluster_size in
    let m : (data_size + cluster_size - 1) % cluster_size < cluster_size = mod-lt _ p in
    let q : (data_size + cluster_size - 1) / cluster_size ≡ n = grind (arith, d, m) in
    rw (e, q) (omega arith)

-- For clusters of 1 to 127 sectors and data that needs `n` clusters (rounded up), at most 2^28 - 10,
-- `fs_init` gives a valid file system: the first cluster to be given is 2, `n` clusters are free, and
-- the total size that it stores ends with the last of them.
pub fs_init-IsFs :
    (sectors data_size n : ℕ)
    → 0 < sectors
    → sectors < 128
    → data_size ≤ n * (sectors * 512)
    → n * (sectors * 512) < data_size + sectors * 512
    → n ≤ fat_entry_eoc - 2
    → IsFs (fs_init (sectors * 512) data_size).0
      × ((fs_init (sectors * 512) data_size).0.next_cluster ≡ 2)
      × ((fs_init (sectors * 512) data_size).0.num_clusters ≡ n + 2)
      × ((fs_init (sectors * 512) data_size).1
          ≡ offset_of (fs_init (sectors * 512) data_size).0 (n + 2))
unfolding fs_init fat_sectors total_sectors add_extent
fs_init-IsFs sectors data_size n p q a b h =
    let c : ℕ = sectors * 512 in
    let s : n * c ≤ n * 65024 = grind arith in
    let e : data_clusters c data_size ≡ n =
      data_clusters-eq c data_size n (omega arith) (omega arith) a b (omega arith) in
    let f : sub32 (add32 (add32 n 2) 128) 1 ≡ n + 129 = omega arith in
    let k : ℕ = (n + 129) / 128 in
    let u : add32 fat_cluster_zero n ≡ n + 2 = omega arith in
    let w : mul64 k sector_size ≡ k * 512 = omega arith in
    let d : mul64 (add64 reserved_sectors k) sector_size ≡ 1536 + k * 512 = omega arith in
    let x : c / sector_size ≡ sectors = omega arith in
    let y : n * sectors ≤ n * 127 = grind arith in
    let t : mul64 (add64 (add64 reserved_sectors k) (mul64 n sectors)) sector_size
        ≡ 1536 + k * 512 + n * (sectors * 512) =
      omega arith in
    let z : n + 2 - 2 ≡ n = omega arith in
    rw (e, f, u, w, d, x)
      (
        record {
          cluster_min = omega arith;
          cluster_max = omega arith;
          next_min = omega arith;
          next_max = omega arith;
          numbers = omega arith;
          table = omega arith;
          room = rw z (omega arith);
          stacked = (omega arith, (omega arith, (omega arith, (omega arith, tt))));
          fit = omega arith;
        },
        refl,
        refl,
        rw (t, z),
      )
