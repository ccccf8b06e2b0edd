-- ===== src/Ext4/Slashes/Tests.antt =====
-- Runs of canonicalize_slashes (ext4_utils/make_ext4fs.c).
use android_platform_system.Prelude.{ℕ, ◌≡◌, inl, refl, true, List, [], ◌∷◌}
use android_platform_system.Ext4.Exit.{returns}
use android_platform_system.Ext4.Slashes.{canonicalize_slashes, canonicalize_rel_slashes}
use android_platform_system.Ext4.Slashes.Closed.{Wraps, Canonical, canonicalize_slashes-Canonical}

-- An empty string keeps no slash if the byte in front of it happens to be one.
empty_behind_slash : canonicalize_rel_slashes 47 [] ≡ returns []
unfolding canonicalize_rel_slashes
empty_behind_slash = refl

-- "system" becomes "/system/".
canonicalize_slashes-Canonical_example :
    (ret : List ℕ) × (canonicalize_slashes 0 (115 ∷ 121 ∷ 115 ∷ 116 ∷ 101 ∷ 109 ∷ []) true
      ≡ returns ret)
    × Wraps (115 ∷ 121 ∷ 115 ∷ 116 ∷ 101 ∷ 109 ∷ []) true ret
    × Canonical 1 true ret
canonicalize_slashes-Canonical_example =
    canonicalize_slashes-Canonical 0 1 (115 ∷ 121 ∷ 115 ∷ 116 ∷ 101 ∷ 109 ∷ []) true (inl (λ e. cc))
