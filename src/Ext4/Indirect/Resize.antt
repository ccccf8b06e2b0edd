-- ===== src/Ext4/Indirect/Resize.antt =====
-- `inode_attach_resize` (ext4_utils/indirect.c): the inode that holds the blocks reserved for more
-- group descriptors.
use native.Mathlib.Nat.{mod-add-mod, mod-eq_of_lt, mod-eq-sub-mod, mod-lt, mod_self}
use android_platform_system.Prelude.{
  ◌↔◌, arith, refl, false, leb, sym, ◌∙◌, Bool-cases, inl, inr, ℕ, zero, suc, ◌+◌, ◌-◌, ◌/◌, ◌%◌,
  ◌^◌, ◌≤◌, ◌<◌, ◌≡◌, Bool, not, ltb, ◌==◌, if◌then◌else◌, add32, sub32, mul32, add64, mul64,
}
use android_platform_system.Ext4.Geometry.{FsInfo, FsAuxInfo}
use android_platform_system.Ext4.Store.{Cmd, pure, ◌>>=◌, ◌>>◌, critical, add_zeros, set_word}
use android_platform_system.Ext4.Regions.{
  BlockAllocation, block_allocation_len, get_block, get_oob_block,
}
use android_platform_system.Ext4.Allocation.{append_oob_allocation}
use android_platform_system.Ext4.Extents.{Ext4Inode}
use android_platform_system.Ext4.Indirect.Reserve.{ext4_ndir_blocks}
use android_platform_system.Ext4.Indirect.Attach.{set_i_block}

module _ (info : FsInfo) (aux : FsAuxInfo) where
  -- `(i - aux_info.bg_desc_blocks) % info.bg_desc_reserve_blocks`: all three are `u32`, so the
  -- difference wraps. `r` is an `int`: from 2^31 on it is negative, and `r += info.bg_desc_reserve_blocks`
  -- is unsigned again.
  unfoldable pub resize_slot : ℕ → ℕ
  resize_slot i =
      let r = sub32 i aux.bg_desc_blocks % info.bg_desc_reserve_blocks in
      if leb (2 ^ 31) r then add32 r info.bg_desc_reserve_blocks else r

  -- `calloc(info.block_size, info.bg_desc_reserve_blocks)` queued from block `first` on.
  unfoldable pub add_zeros_from : ℕ → ℕ → Cmd (Unit {0})
  unfolding add_zeros
  add_zeros_from first zero = pure tt
  add_zeros_from first (suc n) = do add_zeros (first + n); add_zeros_from first n

  -- `for (j = 1; j < superblocks; j++)`, from `j` on with `n` rounds left. The array starts in block
  -- `first`; a block holds `block_size / 4` words of it.
  unfoldable pub superblock_loop : ℕ → BlockAllocation → ℕ → ℕ → ℕ → Cmd (Unit {0})
  unfolding get_block set_word
  superblock_loop first alloc r zero j = pure tt
  superblock_loop first alloc r (suc n) j = do
    let place = sub32 (add32 (mul32 r aux.blocks_per_ind) j) 1
    v ← get_block alloc (add32 (mul32 j info.bg_desc_reserve_blocks) r)
    set_word (first + place / (info.block_size / 4)) (place % (info.block_size / 4)) v
    superblock_loop first alloc r n (suc j)

  -- `for (i = 0; i < info.bg_desc_reserve_blocks; i++)`, from `i` on with `n` rounds left.
  unfoldable pub resize_loop : ℕ → ℕ → BlockAllocation → ℕ → ℕ → ℕ → Cmd (Unit {0})
  unfolding superblock_loop get_block set_word resize_slot
  resize_loop dind_block first alloc superblocks zero i = pure tt
  resize_loop dind_block first alloc superblocks (suc n) i = do
    let r = resize_slot i
    v ← get_block alloc r
    set_word dind_block i v
    superblock_loop first alloc r (superblocks - 1) 1
    resize_loop dind_block first alloc superblocks n (suc i)

  -- The numbers that the inode stores.
  abbrev pub last_block : ℕ → ℕ
  last_block superblocks =
      sub32
        (add32
          (add32 (add32 ext4_ndir_blocks aux.blocks_per_ind)
            (mul32 aux.blocks_per_ind (sub32 info.bg_desc_reserve_blocks 1)))
          superblocks)
        2

  abbrev pub resized : ℕ → ℕ → ℕ → Ext4Inode → Ext4Inode
  resized block_len superblocks dind_block inode =
      let blocks = mul64 (add64 block_len 1) info.block_size / 512 in
      let size = mul64 (last_block superblocks) info.block_size in
      let rooted = set_i_block (ext4_ndir_blocks + 1) dind_block inode in
      record rooted {
        i_flags = 0;
        i_blocks_lo = blocks % 2 ^ 32;
        l_i_blocks_high = blocks / 2 ^ 32 % 2 ^ 16;
        i_size_lo = size % 2 ^ 32;
        i_size_high = size / 2 ^ 32;
      }

  unfoldable pub inode_attach_resize :
      Bool → Ext4Inode → BlockAllocation → Cmd (BlockAllocation × Ext4Inode)
  unfolding block_allocation_len append_oob_allocation get_oob_block get_block add_zeros
      add_zeros_from resize_loop
  inode_attach_resize force inode alloc = do
    block_len ← block_allocation_len alloc
    let superblocks = block_len / info.bg_desc_reserve_blocks
    (if not (block_len % info.bg_desc_reserve_blocks == 0) then critical else pure tt)
    a ← append_oob_allocation force alloc 1
    dind_block ← get_oob_block (a.1) 0
    add_zeros dind_block
    first ← get_block (a.1) 0
    add_zeros_from first info.bg_desc_reserve_blocks
    resize_loop dind_block first (a.1) superblocks info.bg_desc_reserve_blocks 0
    pure (a.1, resized block_len superblocks dind_block inode)

wrapped : (m n k : ℕ) → 0 < k → k < n → (m + k) % n ≡ 0 → m % n ≡ n - k
wrapped m n k p l z =
    let b : m % n < n = mod-lt m (omega arith) in
    let s : (m % n + k) % n ≡ 0 = mod-add-mod m n k ∙ z in
    elim (Bool-cases (ltb (m % n + k) n)) [
      | inl y ↦
          let e : m % n + k ≡ 0 = sym (mod-eq_of_lt (ground arith)) ∙ s in absurd (omega (arith, e))
      | inr y ↦
          let t : (m % n + k - n) % n ≡ 0 = sym (mod-eq-sub-mod (ground arith)) ∙ s in
          let e : m % n + k - n ≡ 0 = sym (mod-eq_of_lt (omega arith)) ∙ t in ground (arith, e)
    ]

module _ (info : FsInfo) (aux : FsAuxInfo) (i : ℕ) (inside : i < info.bg_desc_reserve_blocks)
    (desc : aux.bg_desc_blocks < info.bg_desc_reserve_blocks)
    (small : info.bg_desc_reserve_blocks ≤ 2 ^ 31) where
  -- Up to 2^31 reserved blocks the remainder is not negative.
  resize_slot_rem :
      resize_slot info aux i ≡ sub32 i aux.bg_desc_blocks % info.bg_desc_reserve_blocks
  unfolding resize_slot
  resize_slot_rem =
      let l : sub32 i aux.bg_desc_blocks % info.bg_desc_reserve_blocks
          < info.bg_desc_reserve_blocks =
        mod-lt _ (omega arith) in
      let no : leb (2 ^ 31) (sub32 i aux.bg_desc_blocks % info.bg_desc_reserve_blocks) ≡ false =
        ground arith in
      rw no refl

  -- With at most 2^31 blocks reserved, and fewer taken by the descriptors: behind the blocks that the descriptors take now, slot `i` of the resize inode is for the block so
  -- far behind them. In front of them the slots mean to go around, to the end of the reserved blocks:
  -- they do so exactly if the number of reserved blocks divides 2^32.
  pub resize_slot_lem :
      (aux.bg_desc_blocks ≤ i → resize_slot info aux i ≡ i - aux.bg_desc_blocks)
      × (i < aux.bg_desc_blocks
          → (resize_slot info aux i ≡ i + info.bg_desc_reserve_blocks - aux.bg_desc_blocks)
            ↔ (2 ^ 32 % info.bg_desc_reserve_blocks ≡ 0))
  resize_slot_lem =
      let n = info.bg_desc_reserve_blocks in
      let d = aux.bg_desc_blocks in
      let m = 2 ^ 32 + i - d in
      (
        (λ h.
            let e : sub32 i d ≡ i - d = omega arith in
            resize_slot_rem ∙ rw e (mod-eq_of_lt (omega arith))),
        (λ h.
            let e : sub32 i d ≡ m = omega arith in
            (
              (λ r.
                  let r' : m % n ≡ i + n - d = rw e at (sym resize_slot_rem ∙ r) in
                  let f : 2 ^ 32 ≡ m + (d - i) = omega arith in
                  let g : i + n - d + (d - i) ≡ n = omega arith in
                  rw f (sym (mod-add-mod m n (d - i)) ∙ rw (r', g) (mod_self n))),
              (λ z.
                  let f : m + (d - i) ≡ 2 ^ 32 = omega arith in
                  resize_slot_rem
                  ∙ rw e (wrapped m n (d - i) (omega arith) (omega arith) (rw f z) ∙ omega arith)),
            )),
      )
