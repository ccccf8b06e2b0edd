-- ===== src/Ext4/Contents/Tests.antt =====
-- The records of a directory (ext4_utils/contents.c) at concrete inputs.
use android_platform_system.Prelude.{ℕ, ◌≡◌, refl, List, [], ◌∷◌, arith}
use android_platform_system.Ext4.Exit.{returns}
use android_platform_system.Ext4.Contents.{Dentry, DirData, fill_directory, dentry_size}
use android_platform_system.Ext4.Contents.Tiled.{Tiled}
use android_platform_system.Ext4.Contents.Added.{names}
use android_platform_system.Ext4.Contents.Directory.{Short}
use android_platform_system.Ext4.Contents.Whole.{dot, dot_dot, fill_directory_lem}

abbrev lost_found : List ℕ
lost_found = b'l' ∷ b'o' ∷ b's' ∷ b't' ∷ b'+' ∷ b'f' ∷ b'o' ∷ b'u' ∷ b'n' ∷ b'd' ∷ []

abbrev two_files : List Dentry
two_files =
    record { filename = lost_found; file_type = 2 }
    ∷ record { filename = b'a' ∷ []; file_type = 1 }
    ∷ []

two_files-Short : Short two_files
two_files-Short = (omega arith, (omega arith, tt))

two_files_size : dentry_size 1024 two_files ≡ 56
unfolding dentry_size
two_files_size = refl

fill_directory_lem_example :
    (d : DirData) × (fill_directory 1024 1024 2 2 two_files ≡ returns d)
    × Tiled 1024 d.records 1024
    × (names d.records ≡ (b'a' ∷ []) ∷ lost_found ∷ dot_dot ∷ dot ∷ [])
unfolding dentry_size
fill_directory_lem_example =
    fill_directory_lem 1024 2 2 two_files (omega arith) (omega arith) two_files-Short (omega arith)
