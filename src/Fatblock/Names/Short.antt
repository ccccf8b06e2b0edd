-- ===== src/Fatblock/Names/Short.antt =====
-- The bytes that `convert_name` (fatblock/import.c) writes.
use android_platform_system.Prelude.{
  ℕ, zero, suc, ◌+◌, ◌-◌, ◌≤◌, ◌<◌, ◌≡◌, refl, inl, inr, true, false, ◌&&◌, ◌||◌, ltb, leb, ◌==◌,
  if◌then◌else◌, List, [], ◌∷◌, ◌++◌, Option, none, some, length, get_or, arith, Bool-cases, ◌∙◌,
  length-append,
}
use android_platform_system.Prelude.Memory.{Memory, memset}
use android_platform_system.Fatblock.Names.{
  toupper, valid_char, scan_name, upper_loop, copy_name, convert_name,
}

-- Every byte is valid and no dot.
abbrev pub Plain : List ℕ → Type 0
Plain [] = Unit
Plain (c ∷ cs) = ((c == b'.') ≡ false) × (valid_char c ≡ true) × Plain cs

abbrev uppers : ℕ → ℕ → ℕ → ℕ → List ℕ → Memory → Memory
uppers n i dest from long_name m j =
    if leb (dest + i) j && ltb j (dest + i + n)
    then toupper (get_or long_name (from + (j - dest)) 0)
    else m j

upper_loop_lem :
    (n i dest from : ℕ) (long_name : List ℕ) (m : Memory) (j : ℕ)
    → upper_loop n i dest from long_name m j ≡ uppers n i dest from long_name m j
unfolding upper_loop
upper_loop_lem zero i dest from long_name m j = ground arith
upper_loop_lem (suc n) i dest from long_name m j =
    upper_loop_lem n (suc i) dest from long_name _ j ∙ elim (Bool-cases (j == dest + i)) [
      | inl y ↦ let e : from + i ≡ from + (j - dest) = ground arith in rw (y, e) (ground arith)
      | inr z ↦ rw z (ground arith)
    ]

scan_name-Plain :
    (cs rest : List ℕ) (dot : Option ℕ) (i : ℕ)
    → Plain cs
    → scan_name dot i (cs ++ rest) ≡ scan_name dot (i + length cs) rest
unfolding scan_name
scan_name-Plain [] rest dot i p = let e : i + 0 ≡ i = omega arith in rw e
scan_name-Plain (c ∷ cs) rest dot i (d, v, p) =
    let e : suc i + length cs ≡ i + suc (length cs) = omega arith in
    rw (d, v) (scan_name-Plain cs rest dot (suc i) p ∙ rw e)

append-nil' : (xs : List ℕ) → xs ++ [] ≡ xs
append-nil' [] = refl
append-nil' (x ∷ xs) = rw (append-nil' xs)

-- A name without a dot is accepted whatever its length, and all its bytes are written, also behind
-- the 11 of the short name.
pub convert_name_undotted :
    (short_name : Memory) (long_name : List ℕ)
    → Plain long_name
    → (m : Memory) × (convert_name short_name long_name ≡ some m)
      × ((i : ℕ) → i < length long_name → m i ≡ toupper (get_or long_name i 0))
      × ((i : ℕ) → length long_name ≤ i → m i ≡ (if ltb i 11 then b' ' else short_name i))
unfolding convert_name copy_name
convert_name_undotted short_name long_name p =
    let n = length long_name in
    let e : scan_name none 0 (long_name ++ []) ≡ some none =
      scan_name-Plain long_name [] none 0 p in
    let e' : scan_name none 0 long_name ≡ some none = rw (append-nil' long_name) at e in
    let z : n - n ≡ 0 = omega arith in
    let first = upper_loop_lem n 0 0 0 long_name (memset short_name 0 b' ' 11) in
    (
      upper_loop 0 0 8 (n + 1) long_name
          (upper_loop n 0 0 0 long_name (memset short_name 0 b' ' 11)),
      rw (e', z),
      λ i h.
          let y : (leb (0 + 0) i && ltb i (0 + 0 + n)) ≡ true = ground arith in
          let x : 0 + (i - 0) ≡ i = omega arith in first i ∙ rw (y, x),
      λ i h.
          let y : (leb (0 + 0) i && ltb i (0 + 0 + n)) ≡ false = ground arith in
          first i ∙ rw y (ground arith),
    )

get_or-append_left :
    (xs ys : List ℕ) (i : ℕ) → i < length xs → get_or (xs ++ ys) i 0 ≡ get_or xs i 0
get_or-append_left [] ys i h = absurd (omega arith)
get_or-append_left (x ∷ xs) ys zero h = refl
get_or-append_left (x ∷ xs) ys (suc i) h = get_or-append_left xs ys i (omega arith)

get_or-append_right : (xs ys : List ℕ) (i : ℕ) → get_or (xs ++ ys) (length xs + i) 0 ≡ get_or ys i 0
get_or-append_right [] ys i = let e : 0 + i ≡ i = omega arith in rw e
get_or-append_right (x ∷ xs) ys i =
    let e : suc (length xs) + i ≡ suc (length xs + i) = omega arith in
    rw e (get_or-append_right xs ys i)

get_or_end : (xs : List ℕ) → get_or xs (length xs) 0 ≡ 0
get_or_end [] = refl
get_or_end (x ∷ xs) = get_or_end xs

toupper_zero : toupper 0 ≡ 0
unfolding toupper
toupper_zero = refl

module _ (short_name : Memory) (base ext : List ℕ) (p : Plain base) (q : Plain ext)
    (b8 : length base ≤ 8) (e3 : length ext ≤ 3) where
  abbrev joined_name : List ℕ
  joined_name = base ++ (b'.' ∷ ext)

  abbrev written : Memory
  written = copy_name short_name joined_name (length base)

  accepted : convert_name short_name joined_name ≡ some written
  unfolding convert_name scan_name
  accepted =
      let l : length joined_name ≡ length base + suc (length ext) =
        length-append base (b'.' ∷ ext) in
      let e : scan_name none 0 joined_name ≡ scan_name none (0 + length base) (b'.' ∷ ext) =
        scan_name-Plain base (b'.' ∷ ext) none 0 p in
      let f : scan_name (some (0 + length base)) (suc (0 + length base)) ext
          ≡ some (some (0 + length base)) =
        rw (append-nil' ext) at
          (scan_name-Plain ext [] (some (0 + length base)) (suc (0 + length base)) q) in
      let z : 0 + length base ≡ length base = omega arith in
      let t : (ltb 8 (length base) || ltb 3 (length joined_name - (length base + 1))) ≡ false =
        ground (arith, l) in
      rw (e, f, z, t)

  written_at :
      (i : ℕ)
      → written i ≡ (
          if leb 8 i && ltb i (8 + suc (length ext))
          then toupper (get_or joined_name (length base + 1 + (i - 8)) 0)
          else if ltb i (length base)
          then toupper (get_or joined_name i 0)
          else if ltb i 11
          then b' '
          else short_name i)
  unfolding copy_name
  written_at i =
      let l : length joined_name - length base ≡ suc (length ext) =
        omega (arith, length-append base (b'.' ∷ ext)) in
      let spaces = memset short_name 0 b' ' 11 in
      let c : (leb (0 + 0) i && ltb i (0 + 0 + length base)) ≡ ltb i (length base) = ground arith in
      let x : 0 + (i - 0) ≡ i = omega arith in
      let first : upper_loop (length base) 0 0 0 joined_name spaces i
          ≡ (if ltb i (length base) then toupper (get_or joined_name i 0) else spaces i) =
        upper_loop_lem (length base) 0 0 0 joined_name spaces i ∙ rw (c, x) in
      let second =
        upper_loop_lem (suc (length ext)) 0 8 (length base + 1) joined_name
          (upper_loop (length base) 0 0 0 joined_name spaces) i in
      let d : leb 0 i ≡ true = ground arith in rw l (second ∙ rw (first, d))

  in_extension : (k : ℕ) → k ≤ length ext → written (8 + k) ≡ toupper (get_or ext k 0)
  in_extension k h =
      let c : (leb 8 (8 + k) && ltb (8 + k) (8 + suc (length ext))) ≡ true = ground arith in
      let e : length base + 1 + (8 + k - 8) ≡ length base + suc k = omega arith in
      written_at (8 + k) ∙ rw (c, e, get_or-append_right base (b'.' ∷ ext) (suc k))

  in_base :
      (i : ℕ)
      → i < 8
      → written i ≡ (if ltb i (length base) then toupper (get_or base i 0) else b' ')
  in_base i h =
      let c : (leb 8 i && ltb i (8 + suc (length ext))) ≡ false = ground arith in
      let d : ltb i 11 ≡ true = ground arith in
      written_at i ∙ elim (Bool-cases (ltb i (length base))) [
        | inl y ↦ rw (c, y, get_or-append_left base (b'.' ∷ ext) i (ground arith))
        | inr z ↦ rw (c, z, d)
      ]

  -- A name of at most 8 bytes, a dot and at most 3 bytes is accepted: its two parts are written in upper
  -- case from the places 0 and 8 on, and behind each come spaces up to its width, except that the byte
  -- behind the extension is 0, also where that is behind the 11 bytes of the short name.
  pub convert_name_dotted :
      (m : Memory) × (convert_name short_name joined_name ≡ some m)
      × ((i : ℕ) → i < 8 → m i ≡ (if ltb i (length base) then toupper (get_or base i 0) else b' '))
      × ((i : ℕ) → i < length ext → m (8 + i) ≡ toupper (get_or ext i 0))
      × (m (8 + length ext) ≡ 0)
      × ((i : ℕ) → 8 + length ext < i → m i ≡ (if ltb i 11 then b' ' else short_name i))
  convert_name_dotted = (
    written,
    accepted,
    in_base,
    λ i h. in_extension i (omega arith),
    in_extension (length ext) (omega arith) ∙ rw (get_or_end ext) toupper_zero,
    λ i h. written_at i ∙ ground arith,
  )
