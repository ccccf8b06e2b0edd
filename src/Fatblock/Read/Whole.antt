-- ===== src/Fatblock/Read/Whole.antt =====
-- `fs_read` (fatblock/read.c) delivers the bytes of the image.
use android_platform_system.Prelude.{
  ℕ, zero, suc, ◌+◌, ◌^◌, ◌<◌, ◌≡◌, inl, inr, refl, length, Bool-cases, arith, if◌then◌else◌, List,
  [], ◌∷◌, ◌++◌, subst, sym, ◌∙◌, length-append,
}
use android_platform_system.Prelude.Memory.{Memory, memset}
use android_platform_system.Fatblock.Extents.{Extent, Found, found, find_extent}
use android_platform_system.Fatblock.Extents.Overlap.{
  NoOverlap, IsOverlap, Fit, Finds, nothing, first, find_extent-Finds,
}
use android_platform_system.Fatblock.Volume.{Fs}
use android_platform_system.Fatblock.Volume.Layout.{Stacked, IsFs, offset_of}
use android_platform_system.Fatblock.Read.{Files, Reads, done, read_found, read_loop, fs_read}
use android_platform_system.Fatblock.Read.Image.{
  image, covered, NoFiles, extent_read_lem, pass_over, image_uncovered, image-step, covered_none,
}

-- What a loop over extents needs of them.
record IsReadable (bound : ℕ) (extents : List Extent) : Type 0 where
  stacked : Stacked bound extents
  fit : Fit extents
  no_files : NoFiles extents

IsReadable-behind :
    (bound : ℕ) (before : List Extent) (e : Extent) (behind : List Extent)
    → IsReadable bound (before ++ (e ∷ behind))
    → (b : ℕ) × IsReadable b (e ∷ behind)
IsReadable-behind bound [] e behind r = (bound, r)
IsReadable-behind bound (x ∷ before) e behind r =
    IsReadable-behind x.start before e behind
      (record { stacked = r.stacked.1; fit = r.fit.2; no_files = r.no_files.1 })

module _ (files : Files) (fs : Fs) (start len : ℕ) (h : start + len < 2 ^ 64) (p : 0 < len) where
  -- The buffer is right: what the extents cover is theirs, the rest is as it was.
  abbrev Delivers : List Extent → Memory → Reads → Type 0
  Delivers extents buf r =
      (buf' : Memory) × (r ≡ done buf')
      × ((i : ℕ)
          → i < len
          → buf' i ≡ (if covered extents (start + i) then image fs extents (start + i) else buf i))

  first-Delivers :
      (fuel bound : ℕ) (before behind : List Extent) (e : Extent) (buf : Memory)
      (r_start e_start rel_len : ℕ)
      → ((b : ℕ) (behind : List Extent) (buf' : Memory)
          → length behind < fuel
          → IsReadable b behind
          → Delivers behind buf' (read_loop files fs fuel start len behind buf'))
      → length (before ++ (e ∷ behind)) < suc fuel
      → IsReadable bound (before ++ (e ∷ behind))
      → NoOverlap start len before
      → IsOverlap start len e r_start e_start rel_len
      → Delivers (before ++ (e ∷ behind)) buf (
          read_found files fs buf
            (read_loop files fs fuel start len)
            (found e behind r_start e_start rel_len))
  first-Delivers fuel bound before behind e buf r_start e_start rel_len later l v n o =
      let (b, w) = IsReadable-behind bound before e behind v in
      let ends : e_start + rel_len < 2 ^ 64 = omega (arith, o.same, o.last, w.fit) in
      let (buf', q, c) =
        extent_read_lem files fs buf r_start e_start rel_len ends e.backing w.no_files.0 in
      let shorter : length behind < fuel = omega (arith, length-append before (e ∷ behind)) in
      let (buf'', q', c') =
        later e.start behind buf' shorter
          (record { stacked = w.stacked.1; fit = w.fit.2; no_files = w.no_files.1 }) in
      (
        buf'',
        rw (q, q') refl,
        λ k u.
            let (x, y) =
              pass_over fs start len (start + k) before (e ∷ behind) n (omega arith)
                (omega arith) in
            rw (x, y)
              (c' k u
                ∙ image-step fs start len b e behind r_start e_start rel_len o w.stacked buf buf' c
                    k u),
      )

  round-Delivers :
      (fuel bound : ℕ) (extents : List Extent) (buf : Memory) (r : Found)
      → ((b : ℕ) (behind : List Extent) (buf' : Memory)
          → length behind < fuel
          → IsReadable b behind
          → Delivers behind buf' (read_loop files fs fuel start len behind buf'))
      → length extents < suc fuel
      → IsReadable bound extents
      → Finds start len extents r
      → Delivers extents buf (read_found files fs buf (read_loop files fs fuel start len) r)
  round-Delivers fuel bound extents buf r later l v (nothing n) = (
    buf,
    refl,
    λ i u. rw (covered_none start len (start + i) extents n (omega arith) (omega arith)) refl,
  )
  round-Delivers fuel bound extents buf r later l v
        (first before behind e r_start e_start rel_len eq n o i) =
      let l' : length (before ++ (e ∷ behind)) < suc fuel = subst (λ x. length x < suc fuel) eq l in
      subst
        (λ x. Delivers x buf (
          read_found files fs buf (read_loop files fs fuel start len)
            (found e behind r_start e_start rel_len)))
        (sym eq)
        (first-Delivers fuel bound before behind e buf r_start e_start rel_len later l'
          (subst (λ x. IsReadable bound x) eq v) n i)

  read_loop-Delivers :
      (fuel bound : ℕ) (extents : List Extent) (buf : Memory)
      → length extents < fuel
      → IsReadable bound extents
      → Delivers extents buf (read_loop files fs fuel start len extents buf)
  unfolding read_loop
  read_loop-Delivers zero bound extents buf l v = absurd (omega arith)
  read_loop-Delivers (suc fuel) bound extents buf l v =
      round-Delivers fuel bound extents buf (find_extent start len extents)
        (λ b behind buf' m w. read_loop-Delivers fuel b behind buf' m w) l v
        (find_extent-Finds start len extents h p v.fit)

  -- On a valid file system whose extents are all sectors, the FAT or directories and none a file, a read of at least one byte that ends below
  -- 2^64 succeeds and fills the buffer with the bytes of the image: those of the extent that covers
  -- the place, and 0 where none does.
  pub fs_read-image :
      (buf : Memory)
      → IsFs fs
      → NoFiles fs.extents
      → (buf' : Memory) × (fs_read files fs buf start len ≡ done buf')
        × ((i : ℕ) → i < len → buf' i ≡ image fs fs.extents (start + i))
  unfolding fs_read
  fs_read-image buf v n =
      let (buf', e, c) =
        read_loop-Delivers (suc (length fs.extents)) (offset_of fs fs.next_cluster) fs.extents
          (memset buf 0 0 len) (omega arith)
          (record { stacked = v.stacked; fit = v.fit; no_files = n }) in
      (
        buf',
        e,
        λ i u. elim (Bool-cases (covered fs.extents (start + i))) [
          | inl y ↦ rw y at (c i u)
          | inr k ↦ ground (arith, c i u, image_uncovered fs (start + i) fs.extents k)
        ],
      )
