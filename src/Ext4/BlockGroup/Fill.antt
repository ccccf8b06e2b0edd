-- ===== src/Ext4/BlockGroup/Fill.antt =====
-- The loops of `reserve_blocks` (ext4_utils/allocate.c) set the bits of a range, no more and no less.
use android_platform_system.Prelude.{
  ℕ, zero, suc, ◌+◌, ◌-◌, ◌*◌, ◌/◌, ◌%◌, ◌^◌, ◌≤◌, ◌<◌, ◌≡◌, ◌⊎◌, inl, inr, refl, Bool, true, false,
  ◌&&◌, ◌||◌, length, set, length-set, ◌==◌, Bool-cases, arith, ltb, leb, add32,
}
use android_platform_system.Ext4.Bitmap.{
  Bitmap, byte_at, is_set, raise, Bytes, bitmap_set_bit, bitmap_set_8_bits,
}
use android_platform_system.Ext4.Bitmap.Laws.{
  is_set-raise, is_set-fill, Bytes-raise, Bytes-set, length-raise, is_set_of_zero,
  is_set_of_ne_zero,
}
use android_platform_system.Ext4.BlockGroup.{Run, done, taken, bit_loop, byte_loop, fill, unaligned}

-- `bm'` is `bm` with `n` bits more from `block` on, all of them clear before.
pub record Filled (bm : Bitmap) (block n : ℕ) (bm' : Bitmap) : Type 0 where
  pub clear : (k : ℕ) → block ≤ k → k < block + n → is_set bm k ≡ false
  pub marks : (k : ℕ) → is_set bm' k ≡ (is_set bm k || (leb block k && ltb k (block + n)))
  pub bytes : Bytes bm'
  pub size : length bm' ≡ length bm

Filled-refl : (bm : Bitmap) (block : ℕ) → Bytes bm → Filled bm block 0 bm
Filled-refl bm block b = record {
  clear = λ k l u. absurd (omega arith);
  marks = λ k. ground arith;
  bytes = b;
  size = refl;
}

Filled-trans :
    (a b c : Bitmap) (block n m : ℕ)
    → Filled a block n b
    → Filled b (block + n) m c
    → Filled a block (n + m) c
Filled-trans a b c block n m f g = record {
  clear = λ k l u. elim (Bool-cases (ltb k (block + n))) [
    | inl t ↦ f.clear k l (ground arith)
    | inr t ↦ ground (arith, f.marks k, g.clear k (ground arith) (omega arith))
  ];
  marks = λ k. ground (arith, f.marks k, g.marks k);
  bytes = g.bytes;
  size = omega (arith, f.size, g.size);
}

-- What the end of a loop says of its start.
abbrev Ends : ℕ → ℕ → ℕ → Bitmap → Run → Type 0
Ends num i block bm (done i' block' bm') =
    (i ≤ i') × (i' ≤ num) × (block' ≡ block + (i' - i)) × Filled bm block (i' - i) bm'
Ends num i block bm (taken bm') =
    (k : ℕ) × (block ≤ k) × (k < block + (num - i)) × (is_set bm k ≡ true)

-- The range lies in the bitmap, which is small.
record Fits (num i block : ℕ) (bm : Bitmap) : Type 0 where
  bytes : Bytes bm
  small : 8 * length bm ≤ 2 ^ 31
  count : num ≤ 2 ^ 31
  below : i ≤ num
  inside : block + (num - i) ≤ 8 * length bm

Filled-raise :
    (bm : Bitmap) (block : ℕ)
    → Bytes bm
    → block < 8 * length bm
    → is_set bm block ≡ false
    → Filled bm block 1 (raise bm block)
Filled-raise bm block b h c = record {
  clear = λ k l u. let e : k ≡ block = omega arith in rw e c;
  marks = λ k. ground (arith, is_set-raise bm b block h k);
  bytes = Bytes-raise bm b block h;
  size = length-raise bm block;
}

Ends-shift :
    (num i block n : ℕ) (bm b : Bitmap) (r : Run)
    → Filled bm block n b
    → i + n ≤ num
    → Ends num (i + n) (block + n) b r
    → Ends num i block bm r
Ends-shift num i block n bm b (done i' block' bm') f h (l, u, e, g) =
    let d : i' - i ≡ n + (i' - (i + n)) = omega arith in
    (omega arith, u, omega arith, rw d (Filled-trans bm b bm' block n (i' - (i + n)) f g))
Ends-shift num i block n bm b (taken bm') f h (k, l, u, s) =
    (k, omega arith, omega arith, ground (arith, f.marks k))

Fits-shift :
    (num i block n : ℕ) (bm b : Bitmap)
    → Fits num i block bm
    → Filled bm block n b
    → i + n ≤ num
    → Fits num (i + n) (block + n) b
Fits-shift num i block n bm b t f h = record {
  bytes = f.bytes;
  small = rw (f.size) t.small;
  count = t.count;
  below = h;
  inside = omega (arith, t.inside, f.size);
}

-- Why a loop that was not stopped ended.
abbrev EndsBy : (ℕ → Bool) → ℕ → Run → Type 0
EndsBy go_on num (done i' block' bm') = (i' ≡ num) ⊎ (go_on block' ≡ false)
EndsBy go_on num (taken bm') = Unit {0}

Ends-here :
    (num i block : ℕ) (bm : Bitmap) → Fits num i block bm → Ends num i block bm (done i block bm)
Ends-here num i block bm t =
    let e : i - i ≡ 0 = omega arith in
    (omega arith, t.below, omega arith, rw e (Filled-refl bm block t.bytes))

bit_loop-Ends :
    (go_on : ℕ → Bool) (fuel num i block : ℕ) (bm : Bitmap)
    → Fits num i block bm
    → num ≤ fuel + i
    → Ends num i block bm (bit_loop go_on fuel num i block bm)
      × EndsBy go_on num (bit_loop go_on fuel num i block bm)
unfolding bit_loop bitmap_set_bit
bit_loop-Ends go_on zero num i block bm t e =
    (Ends-here num i block bm t, inl (omega (arith, t.below)))
bit_loop-Ends go_on (suc fuel) num i block bm t e = elim (Bool-cases (ltb i num && go_on block)) [
  | inr n ↦ rw n (Ends-here num i block bm t, stop (Bool-cases (go_on block)) n t.below)
  | inl y ↦
      let h : i + 1 ≤ num = ground arith in
      let p : block < 8 * length bm = omega (arith, t.inside) in
      let ei : add32 i 1 ≡ i + 1 = omega (arith, t.count) in
      let eb : add32 block 1 ≡ block + 1 = omega (arith, t.inside, t.small) in
      elim (Bool-cases (is_set bm block)) [
        | inl s ↦ rw (y, s) ((block, omega arith, omega arith, s), tt)
        | inr c ↦
            let f : Filled bm block 1 (raise bm block) = Filled-raise bm block t.bytes p c in
            let (a, b) =
              bit_loop-Ends go_on fuel num (i + 1) (block + 1) (raise bm block)
                (Fits-shift num i block 1 bm (raise bm block) t f h) (omega arith) in
            rw (y, c, ei, eb) (Ends-shift num i block 1 bm (raise bm block) _ f h a, b)
      ]
]
  where
    stop :
        {g : Bool}
        → (g ≡ true) ⊎ (g ≡ false)
        → (ltb i num && g) ≡ false
        → i ≤ num
        → (i ≡ num) ⊎ (g ≡ false)
    stop (inl y) n l = ground arith
    stop (inr y) n l = inr y

-- Eight bits from an aligned place on.
Filled-byte :
    (bm : Bitmap) (block : ℕ)
    → Bytes bm
    → block < 8 * length bm
    → block % 8 ≡ 0
    → byte_at bm (block / 8) ≡ 0
    → Filled bm block 8 (set bm (block / 8) 255)
Filled-byte bm block b h m z = record {
  clear = λ k l u. let e : k / 8 ≡ block / 8 = omega arith in is_set_of_zero bm k (rw e z);
  marks = λ k. ground (arith, is_set-fill bm b block h k);
  bytes = Bytes-set bm (block / 8) 255 (omega arith) (omega arith) b;
  size = length-set bm (block / 8) 255;
}

byte_loop-Ends :
    (fuel num i block : ℕ) (bm : Bitmap)
    → Fits num i block bm
    → (i ≡ num) ⊎ (block % 8 ≡ 0)
    → Ends num i block bm (byte_loop fuel num i block bm)
unfolding byte_loop bitmap_set_8_bits
byte_loop-Ends zero num i block bm t a = Ends-here num i block bm t
byte_loop-Ends (suc fuel) num i block bm t a = elim (Bool-cases (leb (add32 i 8) (num - num % 8))) [
  | inr n ↦ rw n (Ends-here num i block bm t)
  | inl y ↦
      let ei : add32 i 8 ≡ i + 8 = omega (arith, t.count, t.below) in
      let h : i + 8 ≤ num = ground (arith, t.count) in
      let m : block % 8 ≡ 0 = omega arith in
      let p : block + 8 ≤ 8 * length bm = omega (arith, t.inside) in
      let eb : add32 block 8 ≡ block + 8 = omega (arith, t.small) in
      elim (Bool-cases (byte_at bm (block / 8) == 0)) [
        | inr s ↦
            let (k, d, q) = is_set_of_ne_zero bm (block / 8) t.bytes (ground arith) in
            rw (y, s) (k, omega arith, omega arith, q)
        | inl c ↦
            let z : byte_at bm (block / 8) ≡ 0 = ground arith in
            let f : Filled bm block 8 (set bm (block / 8) 255) =
              Filled-byte bm block t.bytes (omega arith) m z in
            rw (y, c, ei, eb)
              (Ends-shift num i block 8 bm (set bm (block / 8) 255) _ f h (
                byte_loop-Ends fuel num (i + 8) (block + 8) (set bm (block / 8) 255)
                  (Fits-shift num i block 8 bm (set bm (block / 8) 255) t f h) (inr (omega arith))))
      ]
]

-- How `fill` ends: every bit of the range was clear and is set now, or one was set before.
abbrev pub Fill : ℕ → ℕ → Bitmap → Run → Type 0
Fill num start bm (done _ _ bm') = Filled bm start num bm'
Fill num start bm (taken bm') = (k : ℕ) × (start ≤ k) × (k < start + num) × (is_set bm k ≡ true)

-- A loop goes on where another ended.
Ends-trans :
    (num i block i' block' : ℕ) (bm b : Bitmap) (r : Run)
    → Ends num i block bm (done i' block' b)
    → Ends num i' block' b r
    → Ends num i block bm r
Ends-trans num i block i' block' bm b r (l, u, e, f) g =
    let d : i + (i' - i) ≡ i' = omega arith in
    Ends-shift num i block (i' - i) bm b r f (omega arith) (rw (d, ← e) g)

Fits-trans :
    (num i block i' block' : ℕ) (bm b : Bitmap)
    → Fits num i block bm
    → Ends num i block bm (done i' block' b)
    → Fits num i' block' b
Fits-trans num i block i' block' bm b t (l, u, e, f) =
    let d : i + (i' - i) ≡ i' = omega arith in
    let s : Fits num (i + (i' - i)) (block + (i' - i)) b =
      Fits-shift num i block (i' - i) bm b t f (omega arith) in
    rw (d, ← e) at s

Fill-Ends :
    (num start : ℕ) (bm : Bitmap) (r : Run)
    → Ends num 0 start bm r
    → EndsBy (λ _. true) num r
    → Fill num start bm r
Fill-Ends num start bm (done i block b) (l, u, e, f) (inl h) =
    let d : i - 0 ≡ num = omega arith in rw d at f
Fill-Ends num start bm (done i block b) (l, u, e, f) (inr h) = cc
Fill-Ends num start bm (taken b) (k, l, u, s) h = (k, l, omega arith, s)

module _ (num start : ℕ) (bm : Bitmap) (t : Fits num 0 start bm) where
  third :
      (r : Run)
      → Ends num 0 start bm r
      → Fill num start bm
          (elim r [ taken c ↦ taken c | done j block' c ↦ bit_loop (λ _. true) num num j block' c ])
  third (taken c) e = Fill-Ends num start bm (taken c) e tt
  third (done j block' c) e =
      let s : Fits num j block' c = Fits-trans num 0 start j block' bm c t e in
      let (a, b) = bit_loop-Ends (λ _. true) num num j block' c s (omega arith) in
      Fill-Ends num start bm _ (Ends-trans num 0 start j block' bm c _ e a) b

  second :
      (r : Run)
      → Ends num 0 start bm r
      → EndsBy unaligned num r
      → Fill num start bm (elim r [
        | taken b ↦ taken b
        | done i block b ↦ elim (byte_loop num num i block b) [
          | taken c ↦ taken c
          | done j block' c ↦ bit_loop (λ _. true) num num j block' c
        ]
      ])
  second (taken c) e h = Fill-Ends num start bm (taken c) e tt
  second (done i block b) e h = third _ (
      Ends-trans num 0 start i block bm b _ e
        (byte_loop-Ends num num i block b (Fits-trans num 0 start i block bm b t e) (ground arith)))

-- The three loops set exactly the bits of the range, or find one of them set.
pub fill_lem :
    (num start : ℕ) (bm : Bitmap)
    → Bytes bm
    → 8 * length bm ≤ 2 ^ 31
    → start + num ≤ 8 * length bm
    → Fill num start bm (fill num start bm)
unfolding fill
fill_lem num start bm b s h =
    let t : Fits num 0 start bm = record {
      bytes = b;
      small = s;
      count = omega arith;
      below = omega arith;
      inside = omega arith;
    } in
    let (x, y) = bit_loop-Ends unaligned num num 0 start bm t (omega arith) in
    second num start bm t _ x y
