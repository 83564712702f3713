-- ===== src/Privacy/Search.antt =====
-- The two search libraries that src/core/privacy.rs calls, as interfaces: the crate `regex` and the
-- crate `aho_corasick`. A span is a start and an end, in bytes.
use mathlib.Core.List.{Memᴰ}
use llmgate.Prelude.{
  ℕ, ◌+◌, ◌≤◌, ◌<◌, ◌≡◌, Bool, Option, none, some, List, [], ◌∷◌, ◌++◌, map, Text, length, drop,
}

abbrev pub Span : Type 0
Span = ℕ × ℕ

-- A compiled `regex::Regex`: the spans of the matches that `find_iter` and `captures_iter` go
-- through, and `is_match`.
pub record Regex : Type 0 where
  pub find_iter : Text → List Span
  pub is_match : Text → Bool

-- Spans in order, disjoint, and inside a text of `len` bytes.
abbrev pub Ordered : ℕ → ℕ → List Span → Type 0
Ordered at len [] = at ≤ len
Ordered at len ((s, e) ∷ rest) = (at ≤ s) × (s ≤ e) × Ordered e len rest

-- Documented: the matches are successive and do not overlap.
abbrev pub IsIterator : Regex → Type 0
IsIterator r = (t : Text) → Ordered 0 (length t) (r.find_iter t)

-- `AhoCorasick` with `MatchKind::LeftmostFirst`, built over a list of patterns.
pub record AhoCorasick : Type 0 where
  pub find : List Text → Text → Option Span
  pub find_iter : List Text → Text → List Span

-- Where a pattern stands in a text.
pub record Occurs (ps : List Text) (t : Text) (s e : ℕ) : Type 0 where
  pub before : Text
  pub pattern : Text
  pub after : Text
  pub listed : Memᴰ pattern ps
  pub split : t ≡ before ++ (pattern ++ after)
  pub starts : s ≡ length before
  pub ends : e ≡ length before + length pattern

abbrev pub shift : ℕ → Span → Span
shift k (s, e) = (k + s, k + e)

-- Documented: a match is reported exactly if some pattern occurs, it is an occurrence, none starts
-- before it, and the iterator goes on from the end of a match that is not empty.
pub record IsLeftmost (ac : AhoCorasick) : Type 0 where
  pub find_none :
      (ps : List Text) (t : Text) → ac.find ps t ≡ none → (s e : ℕ) → Occurs ps t s e → ⊥
  pub find_some :
      (ps : List Text) (t : Text) (s e : ℕ) → ac.find ps t ≡ some (s, e) → Occurs ps t s e
  pub find_first :
      (ps : List Text) (t : Text) (s e : ℕ)
      → ac.find ps t ≡ some (s, e)
      → (s' e' : ℕ) → Occurs ps t s' e'
      → s ≤ s'
  pub iter_none : (ps : List Text) (t : Text) → ac.find ps t ≡ none → ac.find_iter ps t ≡ []
  pub iter_some :
      (ps : List Text) (t : Text) (s e : ℕ)
      → ac.find ps t ≡ some (s, e)
      → 0 < e
      → ac.find_iter ps t ≡ (s, e) ∷ map (shift e) (ac.find_iter ps (drop e t))
