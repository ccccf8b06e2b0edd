-- ===== src/Ext4/Indirect/Needed.antt =====
-- `indirect_blocks_needed` (ext4_utils/indirect.c) counts the blocks of the three trees.
use native.Mathlib.Nat.{add-mul-div_right, div-eq_of_lt}
use android_platform_system.Prelude.{
  ℕ, ◌+◌, ◌-◌, ◌*◌, ◌/◌, ◌^◌, ◌<◌, ◌≡◌, leb, ◌==◌, if◌then◌else◌, mul32, Bool, ltb, ◌&&◌, arith,
  ◌∙◌,
}
use android_platform_system.Ext4.Geometry.{FsInfo, FsAuxInfo}
use android_platform_system.Ext4.Indirect.Reserve.{min}

abbrev ceil : ℕ → ℕ → ℕ
ceil n b = (n + b - 1) / b

-- The indirect blocks of a tree of each depth that holds `n` data blocks: the root, and the blocks
-- of each level below it.
abbrev pub tree1 : ℕ → ℕ
tree1 n = if n == 0 then 0 else 1

abbrev pub tree2 : ℕ → ℕ → ℕ
tree2 b n = if n == 0 then 0 else 1 + (n + b - 1) / b

abbrev pub tree3 : ℕ → ℕ → ℕ
tree3 b n = if n == 0 then 0 else 1 + (n + b * b - 1) / (b * b) + (n + b - 1) / b

-- A file of `len` blocks, `b` to an indirect block: 12 direct, and as many as fit in each tree.
abbrev pub blocks_of_trees : ℕ → ℕ → ℕ
blocks_of_trees b len =
    tree1 (min (len - 12) b) + tree2 b (min (len - 12 - b) (b * b)) + tree3 b (len - 12 - b - b * b)

ceil-add : (n k b : ℕ) → 0 < b → ceil (n + k * b) b ≡ ceil n b + k
ceil-add n k b h =
    let e : n + k * b + b - 1 ≡ n + b - 1 + k * b = omega arith in
    rw e (add-mul-div_right (n + b - 1) k h)

ceil_square : (b : ℕ) → 0 < b → ceil (b * b) b ≡ b
ceil_square b h =
    let z : ceil 0 b ≡ 0 = div-eq_of_lt (omega arith) in
    let e : 0 + b * b ≡ b * b = omega arith in rw e at (ceil-add 0 b b h) ∙ omega (arith, z)

-- The sizes of the trees for `b` words to a block, on 32 bits.
abbrev word_law : ℕ → Bool
word_law b =
    ltb 0 b
    && (leb b (2 ^ 14)
        && (leb (b * b) (2 ^ 28) && (mul32 b b == b * b && mul32 (mul32 b b) (mul32 b b) == 0)))

abbrev Trees : FsInfo → FsAuxInfo → Type 0
Trees info aux =
    let b = info.block_size / 4 in
    (aux.blocks_per_ind ≡ b)
    × (aux.blocks_per_dind ≡ mul32 b b)
    × (aux.blocks_per_tind ≡ mul32 (mul32 b b) (mul32 b b))
