-- ===== src/Resolver/Laws.antt =====
-- What `ModelResolver` promises: the longest prefix is stripped, in whatever order they are listed.
use mathlib.Core.List.{Memᴰ}
use llmgate.Prelude.{
  ℕ, suc, ◌≤◌, ◌≡◌, refl, ap, sym, ◌≢◌, ◌⊎◌, inl, inr, ◌∙◌, Option, none, some, List, [], ◌∷◌, ◌++◌,
  Text, length, arith, Option-cases, append_inj, Bool, true, false,
}
use llmgate.Prelude.Strings.{strip_prefix, strip_prefix-append, append_of_strip_prefix, text_key}
use llmgate.Prelude.Map
use llmgate.Resolver.{
  ModelResolver, is_better, consider, best_prefix, rest_or, strip_longest, resolve,
  mapped_or_default,
}

-- The specification: `rest` is what is left of `name` behind the longest of the prefixes that it
-- begins with, or the whole of `name` if it begins with none of them.
pub data IsStripped (prefixes : List Text) (name : Text) : Text → Type 0 where
  untouched : ((p rest : Text) → Memᴰ p prefixes → name ≢ p ++ rest) → IsStripped prefixes name name
  longest :
      (p rest : Text)
      → Memᴰ p prefixes
      → name ≡ p ++ rest
      → ((q other : Text) → Memᴰ q prefixes → name ≡ q ++ other → length q ≤ length p)
      → IsStripped prefixes name rest

-- Candidates in the order in which the loop prefers them.
abbrev score : Option (ℕ × Text) → ℕ
score none = 0
score (some (len, rest)) = suc len

score-le-consider :
    (name p : Text) (best : Option (ℕ × Text)) → score best ≤ score (consider name p best)
unfolding consider
score-le-consider name p best = ground arith

length-le-consider :
    (p other : Text) (best : Option (ℕ × Text))
    → suc (length p) ≤ score (consider (p ++ other) p best)
unfolding consider
length-le-consider p other best = rw (strip_prefix-append, consider) (ground arith)

score-le-best_prefix :
    (ps : List Text) (name : Text) (best : Option (ℕ × Text))
    → score best ≤ score (best_prefix ps name best)
unfolding best_prefix
score-le-best_prefix [] name best = omega arith
score-le-best_prefix (p ∷ ps) name best =
    omega
      (arith, score-le-consider name p best, score-le-best_prefix ps name (consider name p best))

length-le-best_prefix :
    (ps : List Text) (name : Text) (best : Option (ℕ × Text)) (p other : Text)
    → Memᴰ p ps
    → name ≡ p ++ other
    → suc (length p) ≤ score (best_prefix ps name best)
unfolding best_prefix
length-le-best_prefix [] name best p other m h = elim m [ ]
length-le-best_prefix (q ∷ ps) name best p other (Memᴰ.head e) h =
    let first : suc (length p) ≤ score (consider name q best) =
      rw (h, ← e) (length-le-consider p other best) in
    omega (arith, first, score-le-best_prefix ps name (consider name q best))
length-le-best_prefix (q ∷ ps) name best p other (Memᴰ.tail m) h =
    length-le-best_prefix ps name (consider name q best) p other m h

-- A candidate other than the one that the loop began with comes from a listed prefix.
abbrev IsFrom : List Text → Text → Option (ℕ × Text) → Type 0
IsFrom ps name r =
    (p : Text) × (rest : Text) × Memᴰ p ps × (r ≡ some (length p, rest)) × (name ≡ p ++ rest)

consider_cases :
    (ps : List Text) (name p : Text) (best : Option (ℕ × Text))
    → (consider name p best ≡ best) ⊎ IsFrom (p ∷ ps) name (consider name p best)
unfolding consider
consider_cases ps name p best = elim (Option-cases (strip_prefix p name)) [
  | inl missed ↦ inl (rw (missed, consider))
  | inr (rest, found) ↦ choose rest found (is_better (length p) best) refl
]
  where
    choose :
        (rest : Text)
        → strip_prefix p name ≡ some rest
        → (b : Bool) → is_better (length p) best ≡ b
        → (consider name p best ≡ best) ⊎ IsFrom (p ∷ ps) name (consider name p best)
    choose rest found true e = inr (
      p,
      rest,
      Memᴰ.head refl,
      rw (found, consider) (rw e),
      append_of_strip_prefix p name rest found,
    )
    choose rest found false e = inl (rw (found, consider) (rw e))

best_prefix_cases :
    (ps : List Text) (name : Text) (best : Option (ℕ × Text))
    → (best_prefix ps name best ≡ best) ⊎ IsFrom ps name (best_prefix ps name best)
unfolding best_prefix
best_prefix_cases [] name best = inl refl
best_prefix_cases (p ∷ ps) name best = elim (best_prefix_cases ps name (consider name p best)) [
  | inr (q, rest, m, e, h) ↦ inr (q, rest, Memᴰ.tail m, e, h)
  | inl same ↦ elim (consider_cases ps name p best) [
    | inl kept ↦ inl (same ∙ kept)
    | inr (q, rest, m, e, h) ↦ inr (q, rest, m, same ∙ e, h)
  ]
]

-- Model-name resolution strips the longest configured prefix that the name begins with, wherever it
-- stands in the list, and leaves a name with no such prefix alone.
pub strip_longest-IsStripped :
    (r : ModelResolver) (name : Text) → IsStripped r.prefixes name (strip_longest r name)
unfolding strip_longest
strip_longest-IsStripped r name = elim (best_prefix_cases r.prefixes name none) [
  | inl missed ↦
      rw (missed, rest_or)
        (IsStripped.untouched λ p rest m e.
          absurd
            (omega (arith, length-le-best_prefix r.prefixes name none p rest m e, ap score missed)))
  | inr (p, rest, m, e, h) ↦
      rw (e, rest_or)
        (IsStripped.longest p rest m h λ q other mq hq.
          omega (arith, length-le-best_prefix r.prefixes name none q other mq hq, ap score e))
]

-- Two ways to strip a name that meet the specification for lists with the same members agree.
IsStripped-unique :
    (ps qs : List Text) (name s t : Text)
    → ((p : Text) → Memᴰ p ps → Memᴰ p qs)
    → ((p : Text) → Memᴰ p qs → Memᴰ p ps)
    → IsStripped ps name s
    → IsStripped qs name t
    → s ≡ t
IsStripped-unique ps qs name s t to fro (IsStripped.untouched f) (IsStripped.untouched g) = refl
IsStripped-unique ps qs name s t to fro (IsStripped.untouched f) (IsStripped.longest p rest m e _) =
    absurd (f p rest (fro p m) e)
IsStripped-unique ps qs name s t to fro (IsStripped.longest p rest m e _) (IsStripped.untouched g) =
    absurd (g p rest (to p m) e)
IsStripped-unique ps qs name s t to fro (IsStripped.longest p u m e h)
      (IsStripped.longest q v n k l) =
    (append_inj p q (sym e ∙ k) (omega (arith, h q t (fro q n) k, l p s (to p m) e))).1

-- Only the set of configured prefixes matters to the model that a request gets, not their order or
-- how often each is listed: configurations that agree on it, on the map and on the default resolve
-- every name alike.
pub resolve_order_free :
    (r : ModelResolver) (prefixes : List Text) (name : Text)
    → ((p : Text) → Memᴰ p r.prefixes → Memᴰ p prefixes)
    → ((p : Text) → Memᴰ p prefixes → Memᴰ p r.prefixes)
    → resolve (record r { prefixes = prefixes }) name ≡ resolve r name
unfolding resolve
resolve_order_free r prefixes name to fro =
    let r' : ModelResolver = record r { prefixes = prefixes } in
    let same : strip_longest r' name ≡ strip_longest r name =
      IsStripped-unique prefixes r.prefixes name _ _ fro to (strip_longest-IsStripped r' name)
        (strip_longest-IsStripped r name) in
    ap (λ s. mapped_or_default r s (Map.get s r.map)) same
