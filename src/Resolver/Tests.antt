-- ===== src/Resolver/Tests.antt =====
-- Runs of the resolver, and the theorems at them.
use mathlib.Core.List.{Memᴰ}
use llmgate.Prelude.{◌≡◌, refl, Text, text, List, [], ◌∷◌}
use llmgate.Prelude.Map
use llmgate.Prelude.Strings.{text_eq, strip_prefix}
use llmgate.Resolver.{ModelResolver, strip_longest, resolve}
use llmgate.Resolver.Laws.{IsStripped, strip_longest-IsStripped, resolve_order_free}

abbrev short_first : List Text
short_first = text "vendor/" ∷ text "vendor/gpt/" ∷ []

abbrev long_first : List Text
long_first = text "vendor/gpt/" ∷ text "vendor/" ∷ []

abbrev gateway : ModelResolver
gateway = record {
  default = text "fallback-model";
  map = (text "gpt-4o", text "claude-3-5-sonnet") ∷ [];
  prefixes = short_first;
}

runs :
    (resolve gateway (text "vendor/gpt/4o") ≡ text "4o")
    × (resolve gateway (text "vendor/gpt-4o") ≡ text "claude-3-5-sonnet")
    × (resolve gateway (text "some-model") ≡ text "some-model")
    × (resolve gateway (text "vendor/") ≡ text "fallback-model")
    × (resolve gateway [] ≡ text "fallback-model")
unfolding resolve strip_longest Map.get text_eq strip_prefix
runs = (refl, refl, refl, refl, refl)

strip_longest-IsStripped_example :
    IsStripped short_first (text "vendor/gpt/4o") (strip_longest gateway (text "vendor/gpt/4o"))
strip_longest-IsStripped_example = strip_longest-IsStripped gateway (text "vendor/gpt/4o")

to_long : (p : Text) → Memᴰ p short_first → Memᴰ p long_first
to_long p (Memᴰ.head e) = Memᴰ.tail (Memᴰ.head e)
to_long p (Memᴰ.tail (Memᴰ.head e)) = Memᴰ.head e
to_long p (Memᴰ.tail (Memᴰ.tail m)) = elim m [ ]

to_short : (p : Text) → Memᴰ p long_first → Memᴰ p short_first
to_short p (Memᴰ.head e) = Memᴰ.tail (Memᴰ.head e)
to_short p (Memᴰ.tail (Memᴰ.head e)) = Memᴰ.head e
to_short p (Memᴰ.tail (Memᴰ.tail m)) = elim m [ ]

resolve_order_free_example :
    resolve (record gateway { prefixes = long_first }) (text "vendor/gpt/4o")
    ≡ resolve gateway (text "vendor/gpt/4o")
resolve_order_free_example =
    resolve_order_free gateway long_first (text "vendor/gpt/4o") to_long to_short
