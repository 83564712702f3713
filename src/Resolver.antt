-- ===== src/Resolver.antt =====
-- src/resolver.rs: the model-name resolution of `ModelResolver`.
pub mod Laws
pub mod Tests
use llmgate.Prelude.{
  ℕ, Bool, true, Option, none, some, List, [], ◌∷◌, Text, is_empty, length, ltb, if◌then◌else◌,
}
use llmgate.Prelude.Strings.{strip_prefix}
use llmgate.Prelude.Map
use llmgate.Prelude.Map.{Map}
use llmgate.Prelude.Strings.{text_key}

pub record ModelResolver : Type 0 where
  pub default : Text
  pub map : Map Text Text
  pub prefixes : List Text

-- `best.is_none_or(|(best_len, _)| prefix.len() > best_len)`
unfoldable pub is_better : ℕ → Option (ℕ × Text) → Bool
is_better len none = true
is_better len (some (best_len, rest)) = ltb best_len len

-- One round of the loop over the prefixes.
unfoldable pub consider : Text → Text → Option (ℕ × Text) → Option (ℕ × Text)
unfolding is_better
consider name prefix best = elim (strip_prefix prefix name) [
  | none ↦ best
  | some rest ↦ if is_better (length prefix) best then some (length prefix, rest) else best
]

unfoldable pub best_prefix : List Text → Text → Option (ℕ × Text) → Option (ℕ × Text)
best_prefix [] name best = best
best_prefix (prefix ∷ prefixes) name best = best_prefix prefixes name (consider name prefix best)

-- `best.map(|(_, rest)| rest).unwrap_or(name)`
unfoldable pub rest_or : Text → Option (ℕ × Text) → Text
rest_or name none = name
rest_or name (some (len, rest)) = rest

-- `ModelResolver::strip_prefix`
unfoldable pub strip_longest : ModelResolver → Text → Text
unfolding best_prefix consider rest_or
strip_longest r name = rest_or name (best_prefix r.prefixes name none)

unfoldable pub mapped_or_default : ModelResolver → Text → Option Text → Text
mapped_or_default r stripped (some mapped) = mapped
mapped_or_default r stripped none = if is_empty stripped then r.default else stripped

unfoldable pub resolve : ModelResolver → Text → Text
unfolding mapped_or_default
resolve r requested =
    let stripped = strip_longest r requested in
    mapped_or_default r stripped (Map.get stripped r.map)
