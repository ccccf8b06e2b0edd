-- ===== src/Fatblock/Tests.antt =====
-- Runs of fatblock on an image of ten clusters, and the theorems at these inputs.
use android_platform_system.Prelude.{
  ℕ, ◌+◌, ◌-◌, ◌*◌, ◌^◌, ◌<◌, ◌≡◌, true, ◌&&◌, length, arith, ltb, leb, if◌then◌else◌, [], ◌∷◌,
  some,
}
use android_platform_system.Prelude.Memory.{Memory}
use android_platform_system.Fatblock.Extents.{Extent, boot, File, find_extent, add_extent}
use android_platform_system.Fatblock.Extents.Overlap.{Finds, find_extent-Finds}
use android_platform_system.Fatblock.Text.{strpadcpy, strpadcpy_overrun}
use android_platform_system.Fatblock.Volume.{Fs, fs_init, alloc_extent}
use android_platform_system.Fatblock.Volume.Layout.{
  IsFs, Allocates, alloc_extent-Allocates, offset_of,
}
use android_platform_system.Fatblock.Volume.Init.{fs_init-IsFs}
use android_platform_system.Fatblock.Read.{Files, done, buffer_read, fs_read}
use android_platform_system.Fatblock.Read.Buffer.{buffer_read_lem}
use android_platform_system.Fatblock.Read.Image.{image}
use android_platform_system.Fatblock.Read.Whole.{fs_read-image}

-- 5000 bytes in clusters of one sector: ten clusters.
abbrev volume : Fs
volume = (fs_init 512 5000).0

volume-IsFs :
    IsFs volume
    × (volume.next_cluster ≡ 2)
    × (volume.num_clusters ≡ 10 + 2)
    × ((fs_init 512 5000).1 ≡ offset_of volume (10 + 2))
volume-IsFs =
    fs_init-IsFs 1 5000 10 (omega arith) (omega arith) (omega arith) (omega arith) (omega arith)

fs_init-IsFs_example :
    IsFs (fs_init (1 * 512) 5000).0
    × ((fs_init (1 * 512) 5000).0.next_cluster ≡ 2)
    × ((fs_init (1 * 512) 5000).0.num_clusters ≡ 10 + 2)
    × ((fs_init (1 * 512) 5000).1 ≡ offset_of (fs_init (1 * 512) 5000).0 (10 + 2))
fs_init-IsFs_example =
    fs_init-IsFs 1 5000 10 (omega arith) (omega arith) (omega arith) (omega arith) (omega arith)

-- A file of 1300 bytes takes three clusters.
alloc_extent-Allocates_example : Allocates volume 1300 boot (alloc_extent volume 1300 boot)
alloc_extent-Allocates_example =
    alloc_extent-Allocates volume 1300 boot volume-IsFs.0 (omega arith) (omega arith)

abbrev extent : ℕ → ℕ → Extent
extent start len = record { start = start; len = len; backing = boot }

find_extent-Finds_example :
    Finds 600 100
      (extent 1024 512 ∷ extent 512 512 ∷ [])
      (find_extent 600 100 (extent 1024 512 ∷ extent 512 512 ∷ []))
find_extent-Finds_example =
    find_extent-Finds 600 100 (extent 1024 512 ∷ extent 512 512 ∷ []) (omega arith) (omega arith)
      (omega arith)

abbrev blank : Memory
blank = λ _. 7

-- A file of 100 bytes, the numbers from 0 on, last changed at time 3.
abbrev files : Files
files = record {
  mtime_of = λ _. some 3;
  opens = λ _. true;
  seeks = λ _ _. true;
  length_of = λ _. 100;
  bytes_of = λ _ i. i;
}

abbrev a_file : File
a_file = record { path = b'a' ∷ []; size = 100; mtime = 3 }

fs_read-image_example :
    (buf' : Memory) × (fs_read files volume blank 500 600 ≡ done buf')
    × ((i : ℕ) → i < 600 → buf' i ≡ image volume volume.extents (500 + i))
unfolding fs_init add_extent
fs_read-image_example =
    fs_read-image files volume 500 600 (omega arith) (omega arith) blank volume-IsFs.0
      (tt, (tt, (tt, (tt, tt))))

buffer_read_lem_example : buffer_read (λ i. i) 100 blank 5 90 20 17 ≡ (
    if leb 5 17 && ltb 17 (5 + 20)
    then (if ltb (90 + (17 - 5)) 100 then 90 + (17 - 5) else 0)
    else 7)
buffer_read_lem_example = buffer_read_lem (λ i. i) 100 blank 5 90 20 (omega arith) 17

abbrev old_file : File
old_file = record a_file { mtime = 2 }

strpadcpy_overrun_example : length (strpadcpy (b'F' ∷ b'A' ∷ []) 1) ≡ 1 + (2 ^ 64 - 1)
strpadcpy_overrun_example = strpadcpy_overrun (b'F' ∷ b'A' ∷ []) 1 (omega arith)
