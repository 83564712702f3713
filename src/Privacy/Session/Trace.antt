-- ===== src/Privacy/Session/Trace.antt =====
-- What a redacted text is made of: bytes that were copied, and tokens in the place of originals.
use mathlib.Core.Path.{subst₂}
use llmgate.Prelude.{
  ℕ, ◌+◌, ◌≤◌, ◌<◌, ◌≡◌, ◌∙◌, refl, sym, ap, ◌⊎◌, inl, inr, some, List, [], ◌∷◌, ◌++◌, append_assoc,
  Text, length, length-append, map, arith, ◌==◌, Bool-cases, All, All_mono,
}
use llmgate.Privacy.Search.{Span, shift}
use llmgate.Privacy.Vault.{Vault}
use llmgate.Privacy.Vault.Valid.{original_of, IsValid, Grows}

-- `Redacts v out t`: `out` is `t` with some parts replaced by tokens that `v` maps to these parts.
pub data Redacts (v : Vault) : Text → Text → Type 0 where
  nil : Redacts v [] []
  byte : {out t : Text} (b : ℕ) → Redacts v out t → Redacts v (b ∷ out) (b ∷ t)
  token :
      {out t : Text} (k o : Text)
      → original_of v k ≡ some o
      → Redacts v out t
      → Redacts v (k ++ out) (o ++ t)

pub copied : {v : Vault} (t : Text) → Redacts v t t
copied [] = nil
copied (b ∷ t) = byte b (copied t)

pub Redacts-append :
    {v : Vault} {out t out' t' : Text}
    → Redacts v out t
    → Redacts v out' t'
    → Redacts v (out ++ out') (t ++ t')
Redacts-append nil r' = r'
Redacts-append (byte b r) r' = byte b (Redacts-append r r')
Redacts-append {v} {out' = out'} {t' = t'} (token {out} {t} k o e r) r' =
    subst₂ (Redacts v) (sym (append_assoc k out out')) (sym (append_assoc o t t'))
      (token k o e (Redacts-append r r'))

pub Redacts-Grows : {v w : Vault} {out t : Text} → Grows v w → Redacts v out t → Redacts w out t
Redacts-Grows g nil = nil
Redacts-Grows g (byte b r) = byte b (Redacts-Grows g r)
Redacts-Grows g (token k o e r) = token k o (g.keeps k o e) (Redacts-Grows g r)

-- The spans of the tokens, in a text that begins at byte `at`.
unfoldable pub spans : {v : Vault} {out t : Text} → Redacts v out t → ℕ → List Span
spans nil at = []
spans (byte b r) at = spans r (at + 1)
spans (token k o e r) at = (at, at + length k) ∷ spans r (at + length k)

pub map-shift-spans :
    {v : Vault} {out t : Text} (r : Redacts v out t) (k at : ℕ)
    → map (shift k) (spans r at) ≡ spans r (k + at)
unfolding spans
map-shift-spans nil k at = refl
map-shift-spans (byte b r) k at = map-shift-spans r k (at + 1) ∙ ap (spans r) (omega arith)
map-shift-spans (token c o e r) k at =
    let e : k + (at + length c) ≡ k + at + length c = omega arith in
    rw (map-shift-spans r k (at + length c), e)

-- No token's span holds the position strictly inside.
abbrev pub Clear : ℕ → List Span → Type 0
Clear x = All (λ s. (x ≤ s.0) ⊎ (s.1 ≤ x))

-- A redacted text cut in two at a position outside its tokens.
pub record Cut {v : Vault} {out t : Text} (r : Redacts v out t) (at x : ℕ) : Type 0 where
  pub out₁ : Text
  pub out₂ : Text
  pub t₁ : Text
  pub t₂ : Text
  pub first : Redacts v out₁ t₁
  pub second : Redacts v out₂ t₂
  pub outs : out ≡ out₁ ++ out₂
  pub texts : t ≡ t₁ ++ t₂
  pub position : x ≡ at + length out₁
  pub tokens : spans r at ≡ spans first at ++ spans second x

-- The cut in front of everything.
Cut-here : {v : Vault} {out t : Text} (r : Redacts v out t) (at x : ℕ) → x ≡ at → Cut r at x
unfolding spans
Cut-here {out} {t} r at x here = record {
  out₁ = [];
  out₂ = out;
  t₁ = [];
  t₂ = t;
  first = nil;
  second = r;
  outs = refl;
  texts = refl;
  position = omega arith;
  tokens = ap (spans r) (sym here);
}

Cut-byte :
    {v : Vault} {out t : Text} (b : ℕ) (r : Redacts v out t) (at x : ℕ)
    → Cut r (at + 1) x
    → Cut (byte b r) at x
unfolding spans
Cut-byte b r at x c = record {
  out₁ = b ∷ c.out₁;
  out₂ = c.out₂;
  t₁ = b ∷ c.t₁;
  t₂ = c.t₂;
  first = byte b c.first;
  second = c.second;
  outs = ap (λ u. b ∷ u) c.outs;
  texts = ap (λ u. b ∷ u) c.texts;
  position = omega (arith, c.position);
  tokens = c.tokens;
}

Cut-token :
    {v : Vault} {out t : Text} (k o : Text) (e : original_of v k ≡ some o) (r : Redacts v out t)
    (at x : ℕ)
    → Cut r (at + length k) x
    → Cut (token k o e r) at x
unfolding spans
Cut-token k o e r at x c = record {
  out₁ = k ++ c.out₁;
  out₂ = c.out₂;
  t₁ = o ++ c.t₁;
  t₂ = c.t₂;
  first = token k o e c.first;
  second = c.second;
  outs = ap (λ u. k ++ u) c.outs ∙ sym (append_assoc k c.out₁ c.out₂);
  texts = ap (λ u. o ++ u) c.texts ∙ sym (append_assoc o c.t₁ c.t₂);
  position = omega (arith, c.position, length-append k c.out₁);
  tokens = ap (λ (ss : List Span). (at, at + length k) ∷ ss) c.tokens;
}

pub cut :
    {v : Vault} {out t : Text} (r : Redacts v out t) (at x : ℕ)
    → at ≤ x
    → x ≤ at + length out
    → Clear x (spans r at)
    → Cut r at x
unfolding spans
cut nil at x lo hi clear = Cut-here nil at x (omega arith)
cut (byte b r) at x lo hi clear = elim (Bool-cases (x == at)) [
  | inl here ↦ Cut-here (byte b r) at x (ground arith)
  | inr later ↦ Cut-byte b r at x (cut r (at + 1) x (ground arith) (omega arith) clear)
]
cut (token {out} k o e r) at x lo hi clear = elim (Bool-cases (x == at)) [
  | inl here ↦ Cut-here (token k o e r) at x (ground arith)
  | inr later ↦ Cut-token k o e r at x (
      cut r (at + length k) x (ground (arith, clear.0)) (omega (arith, length-append k out))
        clear.1)
]

-- Where no token overlaps the text is a copy.
pub eq_of_no_spans :
    {v : Vault} {out t : Text} (r : Redacts v out t) (at : ℕ) → spans r at ≡ [] → out ≡ t
unfolding spans
eq_of_no_spans nil at h = refl
eq_of_no_spans (byte b r) at h = ap (λ u. b ∷ u) (eq_of_no_spans r (at + 1) h)
eq_of_no_spans (token k o e r) at h = cc

-- Every span lies between the ends of the text, and a token is not empty.
pub spans_inside :
    {v : Vault} {out t : Text} (r : Redacts v out t) (at : ℕ)
    → IsValid v
    → All (λ s. (at ≤ s.0) × (s.0 < s.1) × (s.1 ≤ at + length out)) (spans r at)
unfolding spans
spans_inside nil at valid = tt
spans_inside (byte {out} b r) at valid =
    All_mono (λ s. (at + 1 ≤ s.0) × (s.0 < s.1) × (s.1 ≤ at + 1 + length out)) _
      (λ s h. omega arith) (spans r (at + 1)) (spans_inside r (at + 1) valid)
spans_inside (token {out} k o e r) at valid =
    let shape = valid.tokens k o e in
    (
      (omega arith, omega (arith, ap length shape.shape), omega (arith, length-append k out)),
      All_mono (λ s. (at + length k ≤ s.0) × (s.0 < s.1) × (s.1 ≤ at + length k + length out)) _
          (λ s h. omega (arith, length-append k out)) (spans r (at + length k))
          (spans_inside r (at + length k) valid),
    )
