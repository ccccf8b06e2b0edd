-- ===== src/Fatblock/Names/Tests.antt =====
-- Short names (fatblock/import.c) at concrete inputs.
use android_platform_system.Prelude.{
  ℕ, ◌+◌, ◌≤◌, ◌<◌, ◌≡◌, refl, arith, ltb, if◌then◌else◌, [], ◌∷◌, some, get_or, List,
}
use android_platform_system.Prelude.Memory.{Memory}
use android_platform_system.Fatblock.Names.{toupper, valid_char, convert_name}
use android_platform_system.Fatblock.Names.Short.{Plain, convert_name_undotted, convert_name_dotted}

abbrev ones : Memory
ones = λ i. 1

abbrev readme : List ℕ
readme = b'r' ∷ b'e' ∷ b'a' ∷ b'd' ∷ b'm' ∷ b'e' ∷ []

abbrev txt : List ℕ
txt = b't' ∷ b'x' ∷ b't' ∷ []

readme-Plain : Plain readme
unfolding valid_char
readme-Plain =
    (refl, refl, (refl, refl, (refl, refl, (refl, refl, (refl, refl, (refl, refl, tt))))))

txt-Plain : Plain txt
unfolding valid_char
txt-Plain = (refl, refl, (refl, refl, (refl, refl, tt)))

convert_name_undotted_example :
    (m : Memory) × (convert_name ones readme ≡ some m)
    × ((i : ℕ) → i < 6 → m i ≡ toupper (get_or readme i 0))
    × ((i : ℕ) → 6 ≤ i → m i ≡ (if ltb i 11 then b' ' else 1))
convert_name_undotted_example = convert_name_undotted ones readme readme-Plain

-- "readme.txt": the byte behind the 11 of the short name is written.
convert_name_dotted_example :
    (m : Memory) × (convert_name ones
        (b'r' ∷ b'e' ∷ b'a' ∷ b'd' ∷ b'm' ∷ b'e' ∷ b'.' ∷ b't' ∷ b'x' ∷ b't' ∷ [])
      ≡ some m)
    × ((i : ℕ) → i < 8 → m i ≡ (if ltb i 6 then toupper (get_or readme i 0) else b' '))
    × ((i : ℕ) → i < 3 → m (8 + i) ≡ toupper (get_or txt i 0))
    × (m 11 ≡ 0)
    × ((i : ℕ) → 11 < i → m i ≡ (if ltb i 11 then b' ' else 1))
convert_name_dotted_example =
    convert_name_dotted ones readme txt readme-Plain txt-Plain (omega arith) (omega arith)
