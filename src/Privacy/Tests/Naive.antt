-- ===== src/Privacy/Tests/Naive.antt =====
-- Concrete search libraries: a leftmost-first search that tries every pattern at every position, and
-- a regex that matches single digits. They show that what is assumed of the crates can be met.
use mathlib.Core.Path.{subst}
use mathlib.Core.List.{Memᴰ}
use llmgate.Prelude.{
  ℕ, zero, suc, ◌+◌, ◌-◌, ◌≤◌, ◌<◌, ◌≡◌, ◌∙◌, refl, sym, ap, inl, inr, true, false, Option, none,
  some, List, [], ◌∷◌, ◌++◌, Text, length, length-append, length-drop, drop, map, arith, ◌==◌,
  Bool-cases, Option-cases, eq_of_some, if◌then◌else◌,
}
use llmgate.Prelude.Strings.{starts_with, starts_with-append, append_of_starts_with}
use llmgate.Prelude.Decimal.{is_ascii_digit}
use llmgate.Privacy.Search.{
  Span, Regex, IsIterator, Ordered, AhoCorasick, IsLeftmost, Occurs, shift,
}

-- The length of the first listed pattern that the text begins with.
unfoldable pub pattern_at : List Text → Text → Option ℕ
pattern_at [] t = none
pattern_at (p ∷ ps) t = if starts_with p t then some (length p) else pattern_at ps t

unfoldable pub find_from : List Text → ℕ → Text → Option Span
find_from ps at [] = elim (pattern_at ps []) [ none ↦ none | some n ↦ some (at, at + n) ]
find_from ps at (b ∷ t) =
    let later = find_from ps (at + 1) t in
    elim (pattern_at ps (b ∷ t)) [ none ↦ later | some n ↦ some (at, at + n) ]

unfoldable pub iter_fuel : ℕ → List Text → Text → List Span
iter_fuel zero ps t = []
iter_fuel (suc f) ps t = elim (find_from ps 0 t) [
  | none ↦ []
  | some (s, e) ↦
      let rest = map (shift e) (iter_fuel f ps (drop e t)) in if e == 0 then [] else (s, e) ∷ rest
]

abbrev pub naive : AhoCorasick
naive = record {
  find = λ ps t. find_from ps 0 t;
  find_iter = λ ps t. iter_fuel (length t + 1) ps t;
}

pattern_at_sound :
    (ps : List Text) (t : Text) (n : ℕ)
    → pattern_at ps t ≡ some n
    → (p : Text) × (after : Text) × Memᴰ p ps × (t ≡ p ++ after) × (n ≡ length p)
unfolding pattern_at
pattern_at_sound [] t n h = cc
pattern_at_sound (p ∷ ps) t n h = elim (Bool-cases (starts_with p t)) [
  | inl hit ↦
      let (after, e) = append_of_starts_with p t hit in
      (p, after, Memᴰ.head refl, e, sym (eq_of_some (rw (hit, pattern_at) at h)))
  | inr miss ↦
      let (q, after, m, e, w) = pattern_at_sound ps t n (rw (miss, pattern_at) at h) in
      (q, after, Memᴰ.tail m, e, w)
]

pattern_at_complete :
    (ps : List Text) (t p after : Text) → pattern_at ps t ≡ none → Memᴰ p ps → t ≡ p ++ after → ⊥
unfolding pattern_at
pattern_at_complete [] t p after h m e = elim m [ ]
pattern_at_complete (q ∷ ps) t p after h m e = elim (Bool-cases (starts_with q t)) [
  | inl hit ↦ cc (rw (hit, pattern_at) at h)
  | inr miss ↦ other m (rw (miss, pattern_at) at h) miss (pattern_at_complete ps t p after)
]
  where
    other :
        Memᴰ p (q ∷ ps)
        → pattern_at ps t ≡ none
        → starts_with q t ≡ false
        → (pattern_at ps t ≡ none → Memᴰ p ps → t ≡ p ++ after → ⊥)
        → ⊥
    other (Memᴰ.head same) h miss ih =
        cc (miss, subst (λ u. starts_with u t ≡ true) same (rw e (starts_with-append p after)))
    other (Memᴰ.tail m) h miss ih = ih h m e

-- What a search from byte `at` on reports.
abbrev Reports : List Text → ℕ → Text → Option Span → Type 0
Reports ps at t none = (s e : ℕ) → Occurs ps t s e → ⊥
Reports ps at t (some (s, e)) =
    (at ≤ s)
    × Occurs ps t (s - at) (e - at)
    × (at ≤ e)
    × ((s' e' : ℕ) → Occurs ps t s' e' → s ≤ at + s')

-- An occurrence is at the beginning, or in the tail.
module _ (ps : List Text) (b : ℕ) (t : Text) (s e : ℕ) where
  later_occurrence :
      (before pattern after : Text)
      → Memᴰ pattern ps
      → b ∷ t ≡ before ++ (pattern ++ after)
      → s ≡ length before
      → e ≡ length before + length pattern
      → pattern_at ps (b ∷ t) ≡ none
      → (0 < s) × Occurs ps t (s - 1) (e - 1)
  later_occurrence [] pattern after m split starts ends missed =
      absurd (pattern_at_complete ps (b ∷ t) pattern after missed m split)
  later_occurrence (c ∷ before) pattern after m split starts ends missed = (
    omega arith,
    record {
      before = before;
      pattern = pattern;
      after = after;
      listed = m;
      split = cc split;
      starts = omega arith;
      ends = omega arith;
    },
  )

  first_occurrence : (n : ℕ) (u : Text) → pattern_at ps u ≡ some n → Occurs ps u 0 n
  first_occurrence n u found =
      let (p, after, m, split, width) = pattern_at_sound ps u n found in
      record {
        before = [];
        pattern = p;
        after = after;
        listed = m;
        split = split;
        starts = refl;
        ends = omega arith;
      }

  shifted : Occurs ps t s e → Occurs ps (b ∷ t) (s + 1) (e + 1)
  shifted o = record {
    before = b ∷ o.before;
    pattern = o.pattern;
    after = o.after;
    listed = o.listed;
    split = ap (λ u. b ∷ u) o.split;
    starts = omega (arith, o.starts);
    ends = omega (arith, o.ends);
  }

no_occurrence_in_nil :
    (ps : List Text) (before pattern after : Text)
    → Memᴰ pattern ps
    → [] ≡ before ++ (pattern ++ after)
    → pattern_at ps [] ≡ none
    → ⊥
no_occurrence_in_nil ps [] pattern after m split missed =
    pattern_at_complete ps [] pattern after missed m split
no_occurrence_in_nil ps (c ∷ before) pattern after m split missed = cc

Occurs-at :
    (ps : List Text) (t : Text) {s e s' e' : ℕ}
    → s ≡ s'
    → e ≡ e'
    → Occurs ps t s e
    → Occurs ps t s' e'
Occurs-at ps t p q o = record {
  before = o.before;
  pattern = o.pattern;
  after = o.after;
  listed = o.listed;
  split = o.split;
  starts = sym p ∙ o.starts;
  ends = sym q ∙ o.ends;
}

Reports-here :
    (ps : List Text) (at n : ℕ) (t : Text)
    → pattern_at ps t ≡ some n
    → Reports ps at t (some (at, at + n))
Reports-here ps at n t found = (
  omega arith,
  Occurs-at ps t (omega arith) (omega arith) (first_occurrence ps 0 [] 0 0 n t found),
  omega arith,
  λ s' e' o. omega arith,
)

Reports-later :
    (ps : List Text) (at b : ℕ) (t : Text) (r : Option Span)
    → pattern_at ps (b ∷ t) ≡ none
    → Reports ps (at + 1) t r
    → Reports ps at (b ∷ t) r
Reports-later ps at b t none missed h = λ s e o.
    h (s - 1) (e - 1)
      (later_occurrence ps b t s e o.before o.pattern o.after o.listed o.split o.starts o.ends
        missed).1
Reports-later ps at b t (some (s, e)) missed (lo, occurs, mid, first) = (
  omega arith,
  Occurs-at ps (b ∷ t) (omega arith) (omega arith)
      (shifted ps b t (s - (at + 1)) (e - (at + 1)) occurs),
  omega arith,
  λ s' e' o.
      let (pos, tail) =
        later_occurrence ps b t s' e' o.before o.pattern o.after o.listed o.split o.starts o.ends
          missed in
      omega (arith, first (s' - 1) (e' - 1) tail, pos),
)

find_from-Reports : (ps : List Text) (at : ℕ) (t : Text) → Reports ps at t (find_from ps at t)
unfolding find_from
find_from-Reports ps at [] = elim (Option-cases (pattern_at ps [])) [
  | inl missed ↦
      rw (missed, find_from)
        (λ s e o. no_occurrence_in_nil ps o.before o.pattern o.after o.listed o.split missed)
  | inr (n, found) ↦ rw (found, find_from) (Reports-here ps at n [] found)
]
find_from-Reports ps at (b ∷ t) = elim (Option-cases (pattern_at ps (b ∷ t))) [
  | inl missed ↦
      rw (missed, find_from)
        (Reports-later ps at b t (find_from ps (at + 1) t) missed (find_from-Reports ps (at + 1) t))
  | inr (n, found) ↦ rw (found, find_from) (Reports-here ps at n (b ∷ t) found)
]

naive_found :
    (ps : List Text) (t : Text) (s e : ℕ)
    → find_from ps 0 t ≡ some (s, e)
    → Reports ps 0 t (some (s, e))
naive_found ps t s e h = subst (Reports ps 0 t) h (find_from-Reports ps 0 t)

ends_inside : (ps : List Text) (t : Text) (s e : ℕ) → Occurs ps t s e → e ≤ length t
ends_inside ps t s e o = omega (
  arith,
  o.ends,
  ap length o.split,
  length-append o.before (o.pattern ++ o.after),
  length-append o.pattern o.after,
)

iter_fuel_enough :
    (f g : ℕ) (ps : List Text) (t : Text)
    → length t < f
    → length t < g
    → iter_fuel f ps t ≡ iter_fuel g ps t
unfolding iter_fuel
iter_fuel_enough zero g ps t h k = elim h [ ]
iter_fuel_enough (suc f) zero ps t h k = elim k [ ]
iter_fuel_enough (suc f) (suc g) ps t h k = elim (Option-cases (find_from ps 0 t)) [
  | inl missed ↦ rw (missed, iter_fuel)
  | inr ((s, e), found) ↦ elim (Bool-cases (e == 0)) [
    | inl empty ↦ rw (found, iter_fuel) (rw empty)
    | inr more ↦
        let (lo, occurs, mid, first) = naive_found ps t s e found in
        let inside : e - 0 ≤ length t = ends_inside ps t (s - 0) (e - 0) occurs in
        let shorter : length (drop e t) < length t = ground (arith, length-drop e t, inside) in
        rw (found, iter_fuel, more)
          (ap (λ (ss : List Span). (s, e) ∷ map (shift e) ss)
            (iter_fuel_enough f g ps (drop e t) (omega arith) (omega arith)))
  ]
]

naive_iter_some :
    (ps : List Text) (t : Text) (s e : ℕ)
    → find_from ps 0 t ≡ some (s, e)
    → 0 < e
    → naive.find_iter ps t ≡ (s, e) ∷ map (shift e) (naive.find_iter ps (drop e t))
unfolding iter_fuel
naive_iter_some ps t s e found pos =
    let (lo, occurs, mid, first) = naive_found ps t s e found in
    let inside : e - 0 ≤ length t = ends_inside ps t (s - 0) (e - 0) occurs in
    let shorter : length (drop e t) < length t = omega (arith, length-drop e t, inside) in
    let more : (e == 0) ≡ false = ground arith in
    let one_more : length t + 1 ≡ suc (length t) = omega arith in
    ap (λ n. iter_fuel n ps t) one_more
    ∙ rw (found, iter_fuel, more)
        (ap (λ (ss : List Span). (s, e) ∷ map (shift e) ss)
          (iter_fuel_enough (length t) (length (drop e t) + 1) ps (drop e t) (omega arith)
            (omega arith)))

naive_iter_none : (ps : List Text) (t : Text) → find_from ps 0 t ≡ none → naive.find_iter ps t ≡ []
unfolding iter_fuel
naive_iter_none ps t missed =
    let one_more : length t + 1 ≡ suc (length t) = omega arith in
    ap (λ n. iter_fuel n ps t) one_more ∙ rw (missed, iter_fuel)

pub naive-IsLeftmost : IsLeftmost naive
naive-IsLeftmost = record {
  find_none = λ ps t h s e o. subst (Reports ps 0 t) h (find_from-Reports ps 0 t) s e o;
  find_some = λ ps t s e h. Occurs-at ps t (omega arith) (omega arith) (naive_found ps t s e h).1;
  find_first = λ ps t s e h s' e' o. omega (arith, (naive_found ps t s e h).3 s' e' o);
  iter_none = naive_iter_none;
  iter_some = naive_iter_some;
}

-- Matches of one digit each.
unfoldable pub digit_spans : ℕ → Text → List Span
digit_spans at [] = []
digit_spans at (b ∷ t) =
    let rest = digit_spans (at + 1) t in if is_ascii_digit b then (at, at + 1) ∷ rest else rest

Ordered-later : (at len : ℕ) (ss : List Span) → Ordered (at + 1) len ss → Ordered at len ss
Ordered-later at len [] h = omega arith
Ordered-later at len ((s, e) ∷ ss) (lo, mid, h) = (omega arith, mid, h)

digit_spans-Ordered : (at : ℕ) (t : Text) → Ordered at (at + length t) (digit_spans at t)
unfolding digit_spans
digit_spans-Ordered at [] = omega arith
digit_spans-Ordered at (b ∷ t) =
    let size : at + 1 + length t ≡ at + suc (length t) = omega arith in
    let ih : Ordered (at + 1) (at + suc (length t)) (digit_spans (at + 1) t) =
      subst (λ n. Ordered (at + 1) n (digit_spans (at + 1) t)) size
        (digit_spans-Ordered (at + 1) t) in
    elim (Bool-cases (is_ascii_digit b)) [
      | inl hit ↦ rw hit (omega arith, omega arith, ih)
      | inr miss ↦ rw miss (Ordered-later at (at + suc (length t)) (digit_spans (at + 1) t) ih)
    ]

abbrev pub digit_regex : Regex
digit_regex = record { find_iter = λ t. digit_spans 0 t; is_match = λ t. false }

pub digit_regex-IsIterator : IsIterator digit_regex
digit_regex-IsIterator t =
    subst (λ n. Ordered 0 n (digit_spans 0 t)) (omega arith) (digit_spans-Ordered 0 t)
