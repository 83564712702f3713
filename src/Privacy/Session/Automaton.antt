-- ===== src/Privacy/Session/Automaton.antt =====
-- What a cached automaton covers, and what a use of it sees.
use mathlib.Core.Path.{subst}
use mathlib.Core.List.{Memᴰ}
use llmgate.Prelude.{
  ℕ, ◌≤◌, ◌<◌, ◌≡◌, ◌∙◌, refl, sym, ap, ◌⊎◌, inl, inr, Option, none, some, List, [], ◌∷◌, Text,
  arith, Bool-cases, Option-cases, text_eq, text_eq_iff, text_key, eq_of_some, ◌==◌,
}
use llmgate.Prelude.Map
use llmgate.Privacy.Vault.{Vault}
use llmgate.Privacy.Vault.Valid.{original_of}
use llmgate.Privacy.Session.{Session, cached, rebuild, with_automaton}

-- The tokens of the vault: the patterns that the automaton ought to be built over.
abbrev pub tokens_of : Vault → List Text
tokens_of v = Map.keys v.token_to_original

-- A cache of the vault's version is over the vault's tokens, and none is of a later version.
abbrev pub IsCoherent : Vault → Option (ℕ × List Text) → Type 0
IsCoherent v none = Unit
IsCoherent v (some (version, patterns)) =
    (version ≤ v.version) × (version ≡ v.version → patterns ≡ tokens_of v)

-- The automaton's patterns, or none where there is no token to look for.
abbrev pub patterns_for : List Text → Option (List Text)
patterns_for [] = none
patterns_for (p ∷ ps) = some (p ∷ ps)

-- What a use of the automaton sees, and what it leaves.
pub record IsFresh (s : Session) (patterns : Option (List Text)) (s' : Session) : Type 0 where
  pub current : (patterns ≡ none) × (tokens_of s.vault ≡ []) ⊎ (patterns ≡ some (tokens_of s.vault))
  pub same_vault : s'.vault ≡ s.vault
  pub coherent : IsCoherent s'.vault s'.automaton

rebuild-IsFresh :
    (s : Session) (ps : List Text)
    → tokens_of s.vault ≡ ps
    → IsCoherent s.vault s.automaton
    → IsFresh s (rebuild s ps).0 (rebuild s ps).1
unfolding rebuild
rebuild-IsFresh s [] e h = record { current = inl (refl, e); same_vault = refl; coherent = h }
rebuild-IsFresh s (p ∷ ps) e h = record {
  current = inr (ap some (sym e));
  same_vault = refl;
  coherent = (omega arith, λ same. sym e);
}

cached_current :
    (v : Vault) (cache : Option (ℕ × List Text)) (patterns : List Text)
    → IsCoherent v cache
    → cached v.version cache ≡ some patterns
    → patterns ≡ tokens_of v
unfolding cached
cached_current v none patterns h e = cc
cached_current v (some (version, ps)) patterns h e = elim (Bool-cases (version == v.version)) [
  | inl same ↦ sym (eq_of_some (rw same at e)) ∙ h.1 (ground arith)
  | inr other ↦ cc (rw other at e)
]

-- With a cache that is coherent with the vault, `with_automaton` runs its argument against exactly the
-- tokens that the vault holds now, or not at all if there are none; it leaves the vault as it was,
-- and a cache that is coherent.
pub with_automaton-IsFresh :
    (s : Session)
    → IsCoherent s.vault s.automaton
    → IsFresh s (with_automaton s).0 (with_automaton s).1
unfolding with_automaton
with_automaton-IsFresh s h = elim (Option-cases (cached s.vault.version s.automaton)) [
  | inl stale ↦ rw (stale, with_automaton) (rebuild-IsFresh s (tokens_of s.vault) refl h)
  | inr (patterns, hit) ↦
      rw (hit, with_automaton)
        (record {
          current = inr (ap some (cached_current s.vault s.automaton patterns h hit));
          same_vault = refl;
          coherent = h;
        })
]

-- A later vault does not upset the cache.
pub IsCoherent-later :
    (v w : Vault) (cache : Option (ℕ × List Text))
    → (w ≡ v) ⊎ (v.version < w.version)
    → IsCoherent v cache
    → IsCoherent w cache
IsCoherent-later v w none step h = tt
IsCoherent-later v w (some (version, patterns)) (inl same) h =
    subst (λ u. IsCoherent u (some (version, patterns))) (sym same) h
IsCoherent-later v w (some (version, patterns)) (inr later) h =
    (omega arith, λ same. absurd (omega arith))

-- A token of the vault is a pattern, and a pattern is a token of the vault.
mem_keys :
    (k : Text) (m : Map.Map Text Text) (o : Text) → Map.get k m ≡ some o → Memᴰ k (Map.keys m)
unfolding Map.get
mem_keys k [] o h = cc
mem_keys k ((j, w) ∷ m) o h = elim (Bool-cases (text_eq j k)) [
  | inl same ↦ Memᴰ.head (sym ((text_eq_iff j k).0 same))
  | inr other ↦ Memᴰ.tail (mem_keys k m o (rw (other, Map.get) at h))
]

get_of_mem :
    (k : Text) (m : Map.Map Text Text) → Memᴰ k (Map.keys m) → (o : Text) × (Map.get k m ≡ some o)
unfolding Map.get
get_of_mem k [] h = elim h [ ]
get_of_mem k ((j, w) ∷ m) (Memᴰ.head e) = (w, rw ((text_eq_iff j k).1 (sym e)))
get_of_mem k ((j, w) ∷ m) (Memᴰ.tail h) = elim (Bool-cases (text_eq j k)) [
  | inl same ↦ (w, rw same)
  | inr other ↦ let (o, found) = get_of_mem k m h in (o, rw other found)
]

pub mem_tokens : (v : Vault) (k o : Text) → original_of v k ≡ some o → Memᴰ k (tokens_of v)
mem_tokens v k o h = mem_keys k v.token_to_original o h

pub original_of_mem :
    (v : Vault) (k : Text) → Memᴰ k (tokens_of v) → (o : Text) × (original_of v k ≡ some o)
original_of_mem v k h = get_of_mem k v.token_to_original h
