-- ===== src/Ext4/Slashes.antt =====
-- The mount point and the path of the directory with their slashes (ext4_utils/make_ext4fs.c). A
-- string is the list of its bytes before the 0, shorter than 2^31.
pub mod Closed
mod Tests
use android_platform_system.Prelude.{
  ℕ, ◌+◌, Bool, true, false, not, ◌&&◌, ◌==◌, if◌then◌else◌, List, [], ◌∷◌, ◌++◌, length,
}
use android_platform_system.Ext4.Exit.{Outcome, returns, exits}

-- `/`
abbrev pub slash : ℕ
slash = 47

-- `str[0]`, the 0 at the end of an empty string.
abbrev pub first_byte : List ℕ → ℕ
first_byte [] = 0
first_byte (x ∷ str) = x

-- `str[len - 1]`, where `before` is the byte in front of the string.
abbrev pub last_byte : ℕ → List ℕ → ℕ
last_byte before [] = before
last_byte before (x ∷ str) = last_byte x str

abbrev pub slash_if : Bool → List ℕ
slash_if b = if b then slash ∷ [] else []

abbrev pub one_if : Bool → ℕ
one_if b = if b then 1 else 0

-- The string built with a slash in front and behind where they are wanted, against the length that was
-- computed for it.
abbrev pub slashed : Bool → Bool → List ℕ → Outcome (List ℕ)
slashed lead trail str =
    let ret = slash_if lead ++ (str ++ slash_if trail) in
    let newlen = length str + one_if lead + one_if trail in
    if length ret == newlen then returns ret else exits

unfoldable pub canonicalize_slashes : ℕ → List ℕ → Bool → Outcome (List ℕ)
canonicalize_slashes before str absolute =
    if length str == 0 && absolute
    then returns (slash ∷ [])
    else slashed (not (first_byte str == slash) && absolute) (not (last_byte before str == slash))
        str

unfoldable pub canonicalize_abs_slashes : ℕ → List ℕ → Outcome (List ℕ)
unfolding canonicalize_slashes
canonicalize_abs_slashes before str = canonicalize_slashes before str true

unfoldable pub canonicalize_rel_slashes : ℕ → List ℕ → Outcome (List ℕ)
unfolding canonicalize_slashes
canonicalize_rel_slashes before str = canonicalize_slashes before str false
