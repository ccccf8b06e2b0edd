-- ===== src/Fatblock/Volume.antt =====
-- `struct fs` (fatblock/fs.h, fatblock/fs.c): the geometry of the image, the allocation of clusters,
-- and the file allocation table. On a little-endian host `htole16` and `htole32` change nothing.
pub mod Chain
pub mod Layout
pub mod Init
use android_platform_system.Prelude.{
  ℕ, zero, suc, ◌+◌, ◌-◌, ◌*◌, ◌/◌, ◌%◌, ◌^◌, Bool, List, [], ◌∷◌, ltb, ◌==◌, if◌then◌else◌, add32,
  sub32, add64, sub64, mul64,
}
use android_platform_system.Fatblock.Extents.{Extent, Backing, boot, info, fat, add_extent}
use android_platform_system.Fatblock.Text.{strpadcpy}

-- FAT_CLUSTER_ZERO, FAT_ENTRY_EOC
abbrev pub fat_cluster_zero : ℕ
fat_cluster_zero = 2

abbrev pub fat_entry_eoc : ℕ
fat_entry_eoc = 0x0fff_fff8

-- The fields of `struct fat_boot_sector` that the program sets; the others stay 0.
pub record BootSector : Type 0 where
  pub name : List ℕ
  pub sector_size : ℕ
  pub sectors_per_cluster : ℕ
  pub reserved_sectors : ℕ
  pub fats : ℕ
  pub media_desc : ℕ
  pub sectors_per_track : ℕ
  pub heads : ℕ
  pub sectors32 : ℕ
  pub fat_sectors32 : ℕ
  pub rootdir_start : ℕ
  pub fs_info_sector : ℕ
  pub backup_boot_sector : ℕ
  pub phys_drive : ℕ
  pub ext_boot_sig : ℕ
  pub serial : ℕ
  pub vol_label : List ℕ
  pub fs_type : List ℕ
  pub boot_sig : List ℕ

-- The fields of `struct fat_info_sector` that the program sets.
pub record InfoSector : Type 0 where
  pub info_sig1 : List ℕ
  pub info_sig2 : List ℕ
  pub free_clusters : ℕ
  pub last_cluster : ℕ
  pub info_sig3 : List ℕ

-- `struct fs`. The entries of the FAT are a function of the cluster; `fat_size` bytes are behind it.
pub record Fs : Type 0 where
  pub cluster_size : ℕ
  pub num_clusters : ℕ
  pub next_cluster : ℕ
  pub extents : List Extent
  pub boot_sector : BootSector
  pub info_sector : InfoSector
  pub fat_entries : ℕ → ℕ
  pub fat_size : ℕ
  pub data_offset : ℕ

-- `fs->fat[cluster] = htole32(entry)`
pub fs_set_fat : (ℕ → ℕ) → ℕ → ℕ → ℕ → ℕ
fs_set_fat entries cluster entry c = if c == cluster then entry else entries c

-- `for (i = 0; i < clusters_needed - 1; i++)` of `fs_alloc_extent`: recursion on the rounds left.
pub link_loop : ℕ → ℕ → ℕ → (ℕ → ℕ) → ℕ → ℕ
link_loop zero start i entries = entries
link_loop (suc n) start i entries =
    link_loop n start (add32 i 1) (fs_set_fat entries (add32 start i) (add32 (add32 start i) 1))

-- How `fs_alloc_extent` ends: 0 with the first cluster, or -1.
pub data Allocated : Type 0 where
  allocated : (first_cluster : ℕ) → Fs → Allocated
  full : Allocated

-- `(len + fs->cluster_size - 1) / fs->cluster_size`, stored in a `u32`.
pub clusters_for : ℕ → ℕ → ℕ
clusters_for cluster_size len = sub64 (add64 len cluster_size) 1 / cluster_size % 2 ^ 32

-- `fs_alloc_extent`. A call with length 0 gives the extent no bytes and does not list it.
pub alloc_extent : Fs → ℕ → Backing → Allocated
alloc_extent fs len backing =
    if len == 0
    then allocated 0 fs
    else let clusters_needed = clusters_for fs.cluster_size len in
      let start = fs.next_cluster in
      if ltb fs.num_clusters (add32 start clusters_needed)
      then full
      else allocated start (record fs {
        next_cluster = add32 start clusters_needed;
        fat_entries =
            fs_set_fat (link_loop (sub32 clusters_needed 1) start 0 fs.fat_entries)
              (sub32 (add32 start clusters_needed) 1) fat_entry_eoc;
        extents =
            add_extent fs.extents
              (add64 fs.data_offset (mul64 (sub32 start fat_cluster_zero) fs.cluster_size))
              (mul64 clusters_needed fs.cluster_size) backing;
      })

-- The four values of `fs_init` that the sizes are computed from.
abbrev pub sector_size : ℕ
sector_size = 512

abbrev pub reserved_sectors : ℕ
reserved_sectors = 3

pub data_clusters : ℕ → ℕ → ℕ
data_clusters cluster_size data_size =
    sub64 (add64 data_size cluster_size) 1 / cluster_size % 2 ^ 32

-- `((data_clusters + 2) + fat_entries_per_sector - 1) / fat_entries_per_sector`, 128 entries to a
-- sector.
pub fat_sectors : ℕ → ℕ
fat_sectors clusters = sub32 (add32 (add32 clusters 2) 128) 1 / 128

abbrev pub text_fatblock : List ℕ
text_fatblock = b'F' ∷ b'A' ∷ b'T' ∷ b'B' ∷ b'L' ∷ b'O' ∷ b'C' ∷ b'K' ∷ []

-- `total_sectors`
pub total_sectors : ℕ → ℕ → ℕ
total_sectors cluster_size clusters =
    add64 (add64 reserved_sectors (fat_sectors clusters))
      (mul64 clusters (cluster_size / sector_size))

init_boot : ℕ → ℕ → BootSector
init_boot cluster_size clusters = record {
  name = strpadcpy text_fatblock 8;
  sector_size = sector_size;
  sectors_per_cluster = cluster_size / sector_size % 2 ^ 8;
  reserved_sectors = reserved_sectors;
  fats = 1;
  media_desc = 0xf8;
  sectors_per_track = 42;
  heads = 42;
  sectors32 = total_sectors cluster_size clusters % 2 ^ 32;
  fat_sectors32 = fat_sectors clusters;
  rootdir_start = 0;
  fs_info_sector = 1;
  backup_boot_sector = 2;
  phys_drive = 0;
  ext_boot_sig = 0x29;
  serial = 0x4242_4242;
  vol_label = strpadcpy text_fatblock 11;
  fs_type = strpadcpy (b'F' ∷ b'A' ∷ b'T' ∷ b'3' ∷ b'2' ∷ []) 8;
  boot_sig = 0x55 ∷ 0xaa ∷ [];
}

init_info : InfoSector
init_info = record {
  info_sig1 = b'R' ∷ b'R' ∷ b'a' ∷ b'A' ∷ [];
  info_sig2 = b'r' ∷ b'r' ∷ b'A' ∷ b'a' ∷ [];
  free_clusters = 2 ^ 32 - 1;
  last_cluster = fat_cluster_zero;
  info_sig3 = 0x55 ∷ 0xaa ∷ [];
}

-- `fs_init`, where `malloc` gives the table; with `*total_size_out`.
unfoldable pub fs_init : ℕ → ℕ → Fs × ℕ
unfolding init_boot init_info
fs_init cluster_size data_size =
    let clusters = data_clusters cluster_size data_size in
    let fat_size : ℕ = mul64 (fat_sectors clusters) sector_size in
    (
      record {
        cluster_size = cluster_size;
        num_clusters = add32 fat_cluster_zero clusters;
        next_cluster = fat_cluster_zero;
        extents =
            add_extent
              (add_extent
                (add_extent (add_extent [] 0 sector_size boot) sector_size sector_size info)
                (2 * sector_size) sector_size boot)
              (reserved_sectors * sector_size) fat_size fat;
        boot_sector = init_boot cluster_size clusters;
        info_sector = init_info;
        fat_entries = λ _. 0;
        fat_size = fat_size;
        data_offset = mul64 (add64 reserved_sectors (fat_sectors clusters)) sector_size;
      },
      mul64 (total_sectors cluster_size clusters) sector_size,
    )

unfoldable pub fs_set_rootdir_start : Fs → ℕ → Fs
fs_set_rootdir_start fs rootdir_start =
    let bs = fs.boot_sector in
    record fs { boot_sector = record bs { rootdir_start = rootdir_start } }

unfoldable pub fs_update_free_clusters : Fs → Fs
fs_update_free_clusters fs =
    let is = fs.info_sector in
    record fs { info_sector = record is { free_clusters = sub32 fs.num_clusters fs.next_cluster } }
