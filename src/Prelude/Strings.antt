-- ===== src/Prelude/Strings.antt =====
-- Rust strings as lists of bytes, and what the source uses of `str`.
use Prim.Native.Nat.{ℕ, zero, suc, ◌+◌, ◌-◌, ◌<◌}
use Prim.Native.Char.{code}
use Prim.Native.String.{String}
use mathlib.Core.Path.{◌≡◌, refl, sym, ap, ◌∙◌}
use mathlib.Core.Logic.{◌↔◌, ◌≢◌, inl, inr}
use mathlib.Core.Bool.{Bool, true, false, ◌&&◌}
use mathlib.Core.List.{List, [], ◌∷◌, ◌++◌, append-nil}
use mathlib.Core.Option.{Option, none, some}
use native.Mathlib.Omega.{arith}
use llmgate.Prelude.Tests.{◌==◌, leb, Key, Bool-cases, if◌then◌else◌}
use llmgate.Prelude.Lists.{
  length, take, drop, All, length-append, take-append-drop, take-length-append, drop-length-append,
}

abbrev pub Text : Type 0
Text = List ℕ

abbrev pub IsByte : ℕ → Type 0
IsByte b = b < 256

-- The code points of a literal; these are its bytes, since each literal here is ASCII.
abbrev pub text : String → Text
text String.[] = []
text (String.◌∷◌ c s) = code c ∷ text s

unfoldable pub text_eq : Text → Text → Bool
text_eq [] [] = true
text_eq (a ∷ s) (b ∷ t) = (a == b) && text_eq s t
text_eq _ _ = false

pub text_eq_iff : (s t : Text) → (text_eq s t ≡ true) ↔ (s ≡ t)
unfolding text_eq
text_eq_iff [] [] = ground arith
text_eq_iff [] (b ∷ t) = ground arith
text_eq_iff (a ∷ s) [] = ground arith
text_eq_iff (a ∷ s) (b ∷ t) = ground (arith, text_eq_iff s t)

pub text_eq_self : (s : Text) → text_eq s s ≡ true
text_eq_self s = (text_eq_iff s s).1 refl

instance abbrev pub text_key : Key Text
text_key = record { same = text_eq; same_iff = text_eq_iff }

abbrev pub is_empty : Text → Bool
is_empty [] = true
is_empty (b ∷ s) = false

-- `str::strip_prefix`
unfoldable pub strip_prefix : Text → Text → Option Text
strip_prefix [] s = some s
strip_prefix (p ∷ ps) [] = none
strip_prefix (p ∷ ps) (b ∷ s) = if p == b then strip_prefix ps s else none

unfoldable pub starts_with : Text → Text → Bool
starts_with [] s = true
starts_with (p ∷ ps) [] = false
starts_with (p ∷ ps) (b ∷ s) = (p == b) && starts_with ps s

pub strip_prefix-append : (p s : Text) → strip_prefix p (p ++ s) ≡ some s
unfolding strip_prefix
strip_prefix-append [] s = refl
strip_prefix-append (b ∷ p) s = ground (arith, strip_prefix-append p s)

pub append_of_strip_prefix : (p s rest : Text) → strip_prefix p s ≡ some rest → s ≡ p ++ rest
unfolding strip_prefix
append_of_strip_prefix [] s rest h = ground arith
append_of_strip_prefix (b ∷ p) [] rest h = cc
append_of_strip_prefix (b ∷ p) (c ∷ s) rest h = ground (arith, append_of_strip_prefix p s rest)

pub append_of_starts_with : (p s : Text) → starts_with p s ≡ true → (rest : Text) × (s ≡ p ++ rest)
unfolding starts_with
append_of_starts_with [] s h = (s, refl)
append_of_starts_with (b ∷ p) [] h = cc
append_of_starts_with (b ∷ p) (c ∷ s) h =
    let (rest, e) = append_of_starts_with p s (ground arith) in (rest, ground arith)

pub starts_with-append : (p s : Text) → starts_with p (p ++ s) ≡ true
unfolding starts_with
starts_with-append [] s = refl
starts_with-append (b ∷ p) s = ground (arith, starts_with-append p s)

-- `str::ends_with`, `str::strip_suffix`
unfoldable pub ends_with : Text → Text → Bool
unfolding text_eq
ends_with p s = leb (length p) (length s) && text_eq (drop (length s - length p) s) p

unfoldable pub strip_suffix : Text → Text → Option Text
unfolding ends_with
strip_suffix p s = if ends_with p s then some (take (length s - length p) s) else none

pub ends_with-append : (s p : Text) → ends_with p (s ++ p) ≡ true
unfolding ends_with
ends_with-append s p =
    let fits : leb (length p) (length (s ++ p)) ≡ true = ground (arith, length-append s p) in
    let front : length (s ++ p) - length p ≡ length s = omega (arith, length-append s p) in
    rw (fits, front, drop-length-append s p) (text_eq_self p)

pub append_of_ends_with :
    (p s : Text) → ends_with p s ≡ true → s ≡ take (length s - length p) s ++ p
unfolding ends_with
append_of_ends_with p s h =
    let same : drop (length s - length p) s ≡ p = (text_eq_iff _ p).0 (ground arith) in
    sym (take-append-drop (length s - length p) s)
    ∙ ap (λ t. take (length s - length p) s ++ t) same

pub strip_suffix-append : (s p : Text) → strip_suffix p (s ++ p) ≡ some s
unfolding strip_suffix
strip_suffix-append s p =
    let front : length (s ++ p) - length p ≡ length s = omega (arith, length-append s p) in
    rw (ends_with-append s p, front, take-length-append s p)

pub append_of_strip_suffix : (p s rest : Text) → strip_suffix p s ≡ some rest → s ≡ rest ++ p
unfolding strip_suffix
append_of_strip_suffix p s rest h = elim (Bool-cases (ends_with p s)) [
  | inl fits ↦ append_of_ends_with p s fits ∙ ap (λ t. t ++ p) (cc (rw fits at h))
  | inr misses ↦ cc (rw misses at h)
]

-- The number of bytes equal to `b`, as `s.matches(b).count()` for an ASCII `b`.
unfoldable pub count : ℕ → Text → ℕ
count b [] = 0
count b (c ∷ s) = if b == c then suc (count b s) else count b s

pub count-append : (b : ℕ) (s t : Text) → count b (s ++ t) ≡ count b s + count b t
unfolding count
count-append b [] t = omega arith
count-append b (c ∷ s) t = ground (arith, count-append b s t)

pub count_of_absent : (b : ℕ) (s : Text) → All (λ c. c ≢ b) s → count b s ≡ 0
unfolding count
count_of_absent b [] h = refl
count_of_absent b (c ∷ s) h = ground (arith, count_of_absent b s h.1)

-- `str::replace`: from left to right, each occurrence of `from` gives way to `to`. The number says
-- how many bytes of an occurrence are still to be passed over.
replace_from : Text → Text → ℕ → Text → Text
replace_from from to k [] = []
replace_from from to (suc k) (c ∷ s) = replace_from from to k s
replace_from from to zero (c ∷ s) =
    let hit = to ++ replace_from from to (length from - 1) s in
    let miss = c ∷ replace_from from to zero s in if starts_with from (c ∷ s) then hit else miss

unfoldable pub replace : Text → Text → Text → Text
unfolding replace_from
replace from to s = replace_from from to 0 s

-- A text that holds the first byte of the pattern nowhere is copied.
replace_from-absent :
    (b : ℕ) (from to s t : Text)
    → All (λ c. c ≢ b) s
    → replace_from (b ∷ from) to 0 (s ++ t) ≡ s ++ replace_from (b ∷ from) to 0 t
unfolding replace_from starts_with
replace_from-absent b from to [] t h = refl
replace_from-absent b from to (c ∷ s) t h = ground (arith, replace_from-absent b from to s t h.1)

replace_from-skip :
    (from to s t : Text) → replace_from from to (length s) (s ++ t) ≡ replace_from from to 0 t
unfolding replace_from
replace_from-skip from to [] t = refl
replace_from-skip from to (c ∷ s) t = replace_from-skip from to s t

replace_from-hit :
    (b : ℕ) (from to t : Text)
    → replace_from (b ∷ from) to 0 ((b ∷ from) ++ t) ≡ to ++ replace_from (b ∷ from) to 0 t
unfolding replace_from
replace_from-hit b from to t =
    let less_one : length (b ∷ from) - 1 ≡ length from = omega arith in
    rw (starts_with-append (b ∷ from) t, less_one, replace_from-skip (b ∷ from) to from t)

-- One occurrence, with no byte like the pattern's first before or behind it.
pub replace_once :
    (b : ℕ) (from to s t : Text)
    → All (λ c. c ≢ b) s
    → All (λ c. c ≢ b) t
    → replace (b ∷ from) to (s ++ ((b ∷ from) ++ t)) ≡ s ++ (to ++ t)
unfolding replace
replace_once b from to s t hs ht =
    let rest : replace_from (b ∷ from) to 0 t ≡ t =
      rw (← append-nil t) (replace_from-absent b from to t [] ht) in
    let at_hit : replace_from (b ∷ from) to 0 ((b ∷ from) ++ t) ≡ to ++ t =
      replace_from-hit b from to t ∙ ap (λ u. to ++ u) rest in
    replace_from-absent b from to s ((b ∷ from) ++ t) hs ∙ ap (λ u. s ++ u) at_hit
