-- ===== src/Fatblock/Names.antt =====
-- Short names and directory entries (fatblock/import.c, fatblock/fat.c). A C string is the list of
-- its bytes before the NUL; a place that is written to is a function of the index of the byte.
pub mod Short
mod Tests
use android_platform_system.Prelude.{
  ℕ, zero, suc, ◌+◌, ◌-◌, ◌*◌, ◌/◌, ◌%◌, ◌^◌, Bool, true, false, not, ◌&&◌, ◌||◌, ltb, leb, ◌==◌,
  if◌then◌else◌, List, [], ◌∷◌, ◌++◌, Option, none, some, length, get_or,
}
use android_platform_system.Prelude.Memory.{Memory, memset, memcpy}

-- `isalnum` and `toupper` in the C locale.
unfoldable pub isalnum : ℕ → Bool
isalnum c = (leb b'0' c && leb c b'9') || (leb b'A' c && leb c b'Z') || (leb b'a' c && leb c b'z')

unfoldable pub toupper : ℕ → ℕ
toupper c = if leb b'a' c && leb c b'z' then c - 32 else c

-- `strchr`: the NUL at the end of the string is found, too.
unfoldable pub in_string : List ℕ → ℕ → Bool
in_string [] c = c == 0
in_string (x ∷ xs) c = c == x || in_string xs c

abbrev pub punctuation : List ℕ
punctuation =
    b'!' ∷ b'#' ∷ b'$' ∷ b'%' ∷ b'\'' ∷ b'(' ∷ b')' ∷ b'-' ∷ b'@' ∷ b'^' ∷ b'_' ∷ b'`' ∷ b'{' ∷ b'}'
    ∷ b'~' ∷ []

-- `char` is unsigned here.
unfoldable pub valid_char : ℕ → Bool
unfolding isalnum in_string
valid_char c = isalnum c || in_string punctuation c || (leb 128 c && ltb c 256)

-- The first loop of `convert_name`, from index `i` on: the index of the dot, if there is one; `none`
-- stands for the jump to `short_fail`.
unfoldable pub scan_name : Option ℕ → ℕ → List ℕ → Option (Option ℕ)
unfolding valid_char
scan_name dot i [] = some dot
scan_name dot i (c ∷ cs) =
    let rest = scan_name (if c == b'.' then some i else dot) (suc i) cs in
    if c == b'.'
    then elim dot [ none ↦ rest | some d ↦ none ]
    else if valid_char c
    then rest
    else none

-- `short_name[dest + i] = toupper(long_name[from + i])` from `i` on, with `n` rounds left. The byte
-- behind the end of `long_name` is its NUL.
unfoldable pub upper_loop : ℕ → ℕ → ℕ → ℕ → List ℕ → Memory → Memory
unfolding toupper
upper_loop zero i dest from long_name m = m
upper_loop (suc n) i dest from long_name m =
    upper_loop n (suc i) dest from long_name
      (λ j. if j == dest + i then toupper (get_or long_name (from + i) 0) else m j)

-- The two tests on lengths. Without a dot, `dot - long_name` is negative.
abbrev pub too_long : List ℕ → Option ℕ → Bool
too_long long_name none = false
too_long long_name (some dot) = ltb 8 dot || ltb 3 (length long_name - (dot + 1))

-- The copying at the end of `convert_name`, with `dot` at the end of a name that has none.
unfoldable pub copy_name : Memory → List ℕ → ℕ → Memory
unfolding upper_loop
copy_name short_name long_name dot =
    upper_loop (length long_name - dot) 0 8 (dot + 1) long_name
      (upper_loop dot 0 0 0 long_name (memset short_name 0 b' ' 11))

abbrev pub dot_or_end : List ℕ → Option ℕ → ℕ
dot_or_end long_name none = length long_name
dot_or_end long_name (some dot) = dot

-- The part of `convert_name` behind the first loop.
unfoldable pub finish_name : Memory → List ℕ → Option (Option ℕ) → Option Memory
unfolding copy_name
finish_name short_name long_name none = none
finish_name short_name long_name (some dot) =
    if too_long long_name dot
    then none
    else some (copy_name short_name long_name (dot_or_end long_name dot))

-- `convert_name`: `none` is the return of 1, and otherwise `short_name` as it is then.
unfoldable pub convert_name : Memory → List ℕ → Option Memory
unfolding scan_name finish_name
convert_name short_name long_name = finish_name short_name long_name (scan_name none 0 long_name)

-- `struct fat_dirent`, without the times, which stay 0.
pub record FatDirent : Type 0 where
  pub name : Memory
  pub attr : ℕ
  pub first_cluster_hi : ℕ
  pub first_cluster_lo : ℕ
  pub size : ℕ

unfoldable pub fat_dirent_set_first_cluster : FatDirent → ℕ → FatDirent
fat_dirent_set_first_cluster de cluster = record de {
  first_cluster_hi = cluster / 2 ^ 16 % 2 ^ 16;
  first_cluster_lo = cluster % 2 ^ 16;
}

-- The 11 bytes of the name are those from the start of `name` on.
unfoldable pub fat_dirent_set : Memory → ℕ → ℕ → ℕ → FatDirent
unfolding fat_dirent_set_first_cluster
fat_dirent_set name attr first_cluster size =
    let de : FatDirent = record {
      name = memcpy (λ i. 0) 0 name 0 11;
      attr = attr;
      first_cluster_hi = 0;
      first_cluster_lo = 0;
      size = 0;
    } in
    record (fat_dirent_set_first_cluster de first_cluster) { size = size }
