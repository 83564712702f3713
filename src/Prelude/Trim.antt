-- ===== src/Prelude/Trim.antt =====
-- `str::trim` on UTF-8 bytes: the characters with the property White_Space are those of one byte
-- (U+0009 to U+000D, U+0020), of two (U+0085, U+00A0) and of three bytes (U+1680, U+2000 to
-- U+200A, U+2028, U+2029, U+202F, U+205F, U+3000).
use Prim.Native.Nat.{ℕ}
use mathlib.Core.Path.{◌≡◌, refl}
use mathlib.Core.Bool.{Bool, ◌&&◌, ◌||◌}
use mathlib.Core.List.{[], ◌∷◌, reverse}
use llmgate.Prelude.Tests.{leb, ◌==◌, if◌then◌else◌}
use llmgate.Prelude.Strings.{Text, text}

abbrev pub is_space : ℕ → Bool
is_space a = (leb 9 a && leb a 13) || (a == 32)

abbrev is_space_two : ℕ → ℕ → Bool
is_space_two a b = (a == 0xC2) && ((b == 0x85) || (b == 0xA0))

abbrev is_space_three : ℕ → ℕ → ℕ → Bool
is_space_three a b c =
    ((a == 0xE1) && (b == 0x9A) && (c == 0x80))
    || ((a == 0xE2)
        && (b == 0x80)
        && ((leb 0x80 c && leb c 0x8A) || (c == 0xA8) || (c == 0xA9) || (c == 0xAF)))
    || ((a == 0xE2) && (b == 0x81) && (c == 0x9F))
    || ((a == 0xE3) && (b == 0x80) && (c == 0x80))

unfoldable pub trim_start : Text → Text
trim_start [] = []
trim_start (a ∷ []) = if is_space a then [] else a ∷ []
trim_start (a ∷ b ∷ []) =
    let one = trim_start (b ∷ []) in
    if is_space a then one else if is_space_two a b then [] else a ∷ b ∷ []
trim_start (a ∷ b ∷ c ∷ s) =
    let one = trim_start (b ∷ c ∷ s) in
    let two = trim_start (c ∷ s) in
    let three = trim_start s in
    if is_space a
    then one
    else if is_space_two a b
    then two
    else if is_space_three a b c
    then three
    else a ∷ b ∷ c ∷ s

-- The same from the other end, on the reversed text.
trim_back : Text → Text
trim_back [] = []
trim_back (a ∷ []) = if is_space a then [] else a ∷ []
trim_back (b ∷ a ∷ []) =
    let one = trim_back (a ∷ []) in
    if is_space b then one else if is_space_two a b then [] else b ∷ a ∷ []
trim_back (c ∷ b ∷ a ∷ s) =
    let one = trim_back (b ∷ a ∷ s) in
    let two = trim_back (a ∷ s) in
    let three = trim_back s in
    if is_space c
    then one
    else if is_space_two b c
    then two
    else if is_space_three a b c
    then three
    else c ∷ b ∷ a ∷ s

unfoldable pub trim_end : Text → Text
unfolding trim_back
trim_end s = reverse (trim_back (reverse s))

unfoldable pub trim : Text → Text
unfolding trim_start trim_end
trim s = trim_end (trim_start s)

trim_runs : (trim (text " \t a b \n") ≡ text "a b") × (trim (0xC2 ∷ 0xA0 ∷ 0x61 ∷ []) ≡ text "a")
unfolding trim
trim_runs = (refl, refl)
