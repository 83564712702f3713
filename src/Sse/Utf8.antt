-- ===== src/Sse/Utf8.antt =====
-- `std::str::from_utf8` and `String::from_utf8_lossy`, as src/core/sse.rs uses them.
use llmgate.Prelude.{
  ℕ, ◌≡◌, ◌∙◌, sym, ap, inl, inr, Bool, true, false, ◌&&◌, Option, none, some, List, [], ◌∷◌, ◌++◌,
  append_assoc, append-nil, Text, leb, ◌==◌, if◌then◌else◌, Bool-cases, Option-cases,
}

abbrev pub Ranges : Type 0
Ranges = List (ℕ × ℕ)

abbrev within : ℕ → ℕ → ℕ → Bool
within lo hi b = leb lo b && leb b hi

-- The ranges of the bytes that must follow a first byte, if it may be a first byte.
unfoldable pub follow : ℕ → Option Ranges
follow b =
    if leb b 0x7F
    then some []
    else if within 0xC2 0xDF b
    then some ((0x80, 0xBF) ∷ [])
    else if b == 0xE0
    then some ((0xA0, 0xBF) ∷ (0x80, 0xBF) ∷ [])
    else if b == 0xED
    then some ((0x80, 0x9F) ∷ (0x80, 0xBF) ∷ [])
    else if within 0xE1 0xEF b
    then some ((0x80, 0xBF) ∷ (0x80, 0xBF) ∷ [])
    else if b == 0xF0
    then some ((0x90, 0xBF) ∷ (0x80, 0xBF) ∷ (0x80, 0xBF) ∷ [])
    else if within 0xF1 0xF3 b
    then some ((0x80, 0xBF) ∷ (0x80, 0xBF) ∷ (0x80, 0xBF) ∷ [])
    else if b == 0xF4
    then some ((0x80, 0x8F) ∷ (0x80, 0xBF) ∷ (0x80, 0xBF) ∷ [])
    else none

-- The bytes finish the sequence that is begun and go on with whole ones.
unfoldable pub well_formed : Ranges → Text → Bool
unfolding follow
well_formed [] [] = true
well_formed (r ∷ rs) [] = false
well_formed [] (b ∷ s) = elim (follow b) [ none ↦ false | some rs ↦ well_formed rs s ]
well_formed ((lo, hi) ∷ rs) (b ∷ s) = within lo hi b && well_formed rs s

-- `std::str::from_utf8(s).is_ok()`
unfoldable pub is_utf8 : Text → Bool
unfolding well_formed
is_utf8 s = well_formed [] s

-- U+FFFD
abbrev replacement : Text
replacement = 0xEF ∷ 0xBF ∷ 0xBD ∷ []

-- A maximal beginning of a sequence that is not completed, and a byte that begins none, each give
-- one replacement character; `held` is the sequence begun.
unfoldable pub lossy : Text → Ranges → Text → Text
unfolding follow
lossy held [] [] = held
lossy held (r ∷ rs) [] = replacement
lossy held [] (b ∷ s) = elim (follow b) [
  | none ↦ held ++ (replacement ++ lossy [] [] s)
  | some rs ↦ held ++ lossy (b ∷ []) rs s
]
lossy held ((lo, hi) ∷ rs) (b ∷ s) =
    let goes_on = lossy (held ++ b ∷ []) rs s in
    let starts_over : Text = elim (follow b) [
      | none ↦ replacement ++ (replacement ++ lossy [] [] s)
      | some rs' ↦ replacement ++ lossy (b ∷ []) rs' s
    ] in
    if within lo hi b then goes_on else starts_over

-- `String::from_utf8_lossy`
unfoldable pub from_utf8_lossy : Text → Text
unfolding lossy
from_utf8_lossy s = lossy [] [] s

lossy_of_well_formed :
    (held : Text) (rs : Ranges) (s : Text) → well_formed rs s ≡ true → lossy held rs s ≡ held ++ s
unfolding lossy well_formed
lossy_of_well_formed held [] [] h = sym (append-nil held)
lossy_of_well_formed held (r ∷ rs) [] h = cc
lossy_of_well_formed held [] (b ∷ s) h = elim (Option-cases (follow b)) [
  | inl missed ↦ cc (rw (missed, well_formed) at h)
  | inr (rs, found) ↦
      rw (found, lossy)
        (ap (λ t. held ++ t) (lossy_of_well_formed (b ∷ []) rs s (rw (found, well_formed) at h)))
]
lossy_of_well_formed held ((lo, hi) ∷ rs) (b ∷ s) h = elim (Bool-cases (within lo hi b)) [
  | inr out ↦ cc (rw out at h)
  | inl hit ↦
      rw hit
        (lossy_of_well_formed (held ++ b ∷ []) rs s (rw hit at h) ∙ append_assoc held (b ∷ []) s)
]

pub from_utf8_lossy_of_utf8 : (s : Text) → is_utf8 s ≡ true → from_utf8_lossy s ≡ s
unfolding from_utf8_lossy is_utf8
from_utf8_lossy_of_utf8 s h = lossy_of_well_formed [] [] s h

well_formed-append :
    (rs : Ranges) (s t : Text)
    → well_formed rs s ≡ true
    → well_formed [] t ≡ true
    → well_formed rs (s ++ t) ≡ true
unfolding well_formed
well_formed-append [] [] t h k = k
well_formed-append (r ∷ rs) [] t h k = cc
well_formed-append [] (b ∷ s) t h k = elim (Option-cases (follow b)) [
  | inl missed ↦ cc (rw (missed, well_formed) at h)
  | inr (rs, found) ↦
      rw (found, well_formed) (well_formed-append rs s t (rw (found, well_formed) at h) k)
]
well_formed-append ((lo, hi) ∷ rs) (b ∷ s) t h k = elim (Bool-cases (within lo hi b)) [
  | inr out ↦ cc (rw out at h)
  | inl hit ↦ rw hit (well_formed-append rs s t (rw hit at h) k)
]

pub is_utf8-append : (s t : Text) → is_utf8 s ≡ true → is_utf8 t ≡ true → is_utf8 (s ++ t) ≡ true
unfolding is_utf8
is_utf8-append s t h k = well_formed-append [] s t h k
