-- ===== src/Privacy/Session/Restore.antt =====
-- Restoring a redacted text gives back the text that was redacted.
use mathlib.Core.Path.{subst}
use mathlib.Core.List.{Memᴰ}
use llmgate.Prelude.{
  ℕ, ◌+◌, ◌-◌, ◌≡◌, ◌∙◌, refl, sym, ap, inl, inr, some, List, [], ◌∷◌, ◌++◌, append_assoc, Text,
  length, length-append, map, arith, take-length-append, drop-length-append,
}
use llmgate.Privacy.Search.{Span, AhoCorasick, IsLeftmost, shift}
use llmgate.Privacy.Vault.{Vault}
use llmgate.Privacy.Vault.Valid.{original_of, IsValid}
use llmgate.Privacy.Tokens.{
  Absent, AreTokens, Absent-append_left, Absent-append_right, iter_token, find-Absent,
}
use llmgate.Privacy.Session.{Session, slice, lookup, original_or, splice, restore_text}
use llmgate.Privacy.Session.Automaton.{
  tokens_of, mem_tokens, original_of_mem, IsCoherent, with_automaton-IsFresh,
}
use llmgate.Privacy.Session.Trace.{Redacts, nil, byte, token, spans, map-shift-spans}

pub AreTokens-tokens_of : (v : Vault) → IsValid v → AreTokens (tokens_of v)
AreTokens-tokens_of v valid p m = let (o, found) = original_of_mem v p m in valid.tokens p o found

-- No token of the vault stands in the text.
abbrev pub Unmentioned : Vault → Text → Type 0
Unmentioned v t = Absent (tokens_of v) t

module _ (ac : AhoCorasick) (leftmost : IsLeftmost ac) (v : Vault) (valid : IsValid v) where
  -- The search finds the tokens where they were put, and nothing else.
  pub iter-spans :
      {out t : Text} (r : Redacts v out t) (l : Text)
      → Unmentioned v (l ++ t)
      → ac.find_iter (tokens_of v) (l ++ out) ≡ spans r (length l)
  unfolding spans
  iter-spans nil l absent =
      leftmost.iter_none (tokens_of v) (l ++ [])
        (find-Absent ac (tokens_of v) (l ++ []) leftmost absent)
  iter-spans (byte {out} {t} b r) l absent =
      let whole : (l ++ b ∷ []) ++ t ≡ l ++ b ∷ t = append_assoc l (b ∷ []) t in
      let whole_out : (l ++ b ∷ []) ++ out ≡ l ++ b ∷ out = append_assoc l (b ∷ []) out in
      let longer : length (l ++ b ∷ []) ≡ length l + 1 = length-append l (b ∷ []) in
      ap (ac.find_iter (tokens_of v)) (sym whole_out)
      ∙ iter-spans r (l ++ b ∷ []) (subst (Unmentioned v) (sym whole) absent)
      ∙ ap (spans r) longer
  iter-spans (token {out} {t} k o e r) l absent =
      let rest : Unmentioned v t =
        Absent-append_right (tokens_of v) o t
          (Absent-append_right (tokens_of v) l (o ++ t) absent) in
      iter_token (tokens_of v) (AreTokens-tokens_of v valid) l k out
        (Absent-append_left (tokens_of v) l (o ++ t) absent) (mem_tokens v k o e) ac leftmost
      ∙ ap
          (λ (ss : List Span).
            (length l, length l + length k) ∷ map (shift (length l + length k)) ss)
          (iter-spans r [] rest)
      ∙ ap (λ (ss : List Span). (length l, length l + length k) ∷ ss)
          (map-shift-spans r (length l + length k) 0 ∙ ap (spans r) (omega arith))

slice_lem : (a b c : Text) → slice (length a) (length a + length b) (a ++ (b ++ c)) ≡ b
slice_lem a b c =
    let width : length a + length b - length a ≡ length b = omega arith in
    rw (width, drop-length-append a (b ++ c)) (take-length-append b c)

not-mem_nil : {k : Text} → Memᴰ k [] → ⊥
not-mem_nil m = elim m [ ]

zero_right : (n : ℕ) → n + 0 ≡ n
zero_right n = omega arith

module _ (s : Session) where
  original_or_lem : (k o : Text) → original_of s.vault k ≡ some o → original_or s k ≡ o
  unfolding original_or lookup
  original_or_lem k o e = rw (e, original_or)

  -- The loop of `restore_text`, with the literal `l` not yet copied and `done` behind it.
  splice-spans :
      {out t : Text} (r : Redacts s.vault out t) (done l acc : Text)
      → splice s (done ++ (l ++ out)) (spans r (length done + length l)) (length done) acc
        ≡ acc ++ (l ++ t)
  unfolding spans splice
  splice-spans nil done l acc = rw (drop-length-append done (l ++ []))
  splice-spans (byte {out} {t} b r) done l acc =
      let whole : (l ++ b ∷ []) ++ t ≡ l ++ b ∷ t = append_assoc l (b ∷ []) t in
      let whole_out : (l ++ b ∷ []) ++ out ≡ l ++ b ∷ out = append_assoc l (b ∷ []) out in
      let longer : length done + length (l ++ b ∷ []) ≡ length done + length l + 1 =
        omega (arith, length-append l (b ∷ [])) in
      rw (← whole, ← whole_out, ← longer) (splice-spans r done (l ++ b ∷ []) acc)
  splice-spans (token {out} {t} k o e r) done l acc =
      let at : ℕ = length done + length l in
      let T : Text = done ++ (l ++ (k ++ out)) in
      let T' : Text = ((done ++ l) ++ k) ++ out in
      let regroup : T' ≡ T = simp append_assoc in
      let at_front : length (done ++ l) ≡ at = length-append done l in
      let at_end : length ((done ++ l) ++ k) ≡ at + length k =
        omega (arith, length-append (done ++ l) k, at_front) in
      let literal : slice (length done) at T ≡ l = slice_lem done l (k ++ out) in
      let found : slice at (at + length k) T ≡ k =
        subst (λ (n : ℕ). slice n (n + length k) T ≡ k) at_front
          (ap (slice (length (done ++ l)) (length (done ++ l) + length k))
              (sym (append_assoc done l (k ++ out)))
            ∙ slice_lem (done ++ l) k out) in
      let back : original_or s (slice at (at + length k) T) ≡ o =
        ap (original_or s) found ∙ original_or_lem k o e in
      let later : splice s T (spans r (at + length k)) (at + length k) (acc ++ (l ++ o))
          ≡ (acc ++ (l ++ o)) ++ t =
        subst (λ (n : ℕ). splice s T (spans r n) n (acc ++ (l ++ o)) ≡ (acc ++ (l ++ o)) ++ t)
          at_end
          (subst
            (λ u.
              splice s u (spans r (length ((done ++ l) ++ k))) (length ((done ++ l) ++ k))
                (acc ++ (l ++ o))
              ≡ (acc ++ (l ++ o)) ++ t)
            regroup
            (subst
              (λ (n : ℕ).
                splice s T' (spans r n) (length ((done ++ l) ++ k)) (acc ++ (l ++ o))
                ≡ (acc ++ (l ++ o)) ++ t)
              (zero_right (length ((done ++ l) ++ k)))
              (splice-spans r ((done ++ l) ++ k) [] (acc ++ (l ++ o))))) in
      ap (λ u. splice s T (spans r (at + length k)) (at + length k) (acc ++ u))
        (ap (λ u. u ++ original_or s (slice at (at + length k) T)) literal ∙ ap (λ u. l ++ u) back)
      ∙ later
      ∙ simp append_assoc

pub no_spans_of_no_tokens :
    {v : Vault} {out t : Text} → tokens_of v ≡ [] → (r : Redacts v out t) (at : ℕ) → spans r at ≡ []
unfolding spans
no_spans_of_no_tokens empty nil at = refl
no_spans_of_no_tokens empty (byte b r) at = no_spans_of_no_tokens empty r (at + 1)
no_spans_of_no_tokens {v} empty (token k o e r) at =
    absurd (not-mem_nil (subst (Memᴰ k) empty (mem_tokens v k o e)))

copied_of_no_tokens : {v : Vault} {out t : Text} → tokens_of v ≡ [] → Redacts v out t → out ≡ t
copied_of_no_tokens empty nil = refl
copied_of_no_tokens empty (byte b r) = ap (λ u. b ∷ u) (copied_of_no_tokens empty r)
copied_of_no_tokens {v} empty (token k o e r) =
    absurd (not-mem_nil (subst (Memᴰ k) empty (mem_tokens v k o e)))

-- Where a text is redacted by the vault's tokens and the original mentions none of these, restoring
-- gives back the original.
pub restore_of_Redacts :
    (ac : AhoCorasick) (s : Session) (out t : Text)
    → IsLeftmost ac
    → IsValid s.vault
    → IsCoherent s.vault s.automaton
    → Redacts s.vault out t
    → Unmentioned s.vault t
    → (restore_text ac out s).0 ≡ t
unfolding restore_text
restore_of_Redacts ac s out t leftmost valid coherent r absent =
    let fresh = with_automaton-IsFresh s coherent in
    elim fresh.current [
      | inl (idle, empty) ↦ rw (idle, restore_text) (copied_of_no_tokens empty r)
      | inr found ↦
          rw (found, restore_text)
            (ap (λ (ss : List Span). splice s out ss 0 [])
                (iter-spans ac leftmost s.vault valid r [] absent)
              ∙ splice-spans s r [] [] [])
    ]
