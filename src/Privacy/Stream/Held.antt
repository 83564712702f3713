-- ===== src/Privacy/Stream/Held.antt =====
-- What a restorer of a stream holds back.
use mathlib.Core.Path.{subst}
use mathlib.Core.List.{Memᴰ}
use llmgate.Prelude.{
  ℕ, zero, suc, ◌+◌, ◌-◌, ◌<◌, ◌≡◌, ◌∙◌, refl, sym, ap, inl, inr, Bool, some, [], ◌∷◌, ◌++◌, Text,
  length, length-append, length-drop, take, drop, arith, Option-cases, Bool-cases, eq_of_some, ◌==◌,
  ◌⊎◌, drop-drop,
}
use llmgate.Privacy.Search.{AhoCorasick, IsLeftmost}
use llmgate.Privacy.Vault.Valid.{IsValid}
use llmgate.Privacy.Tokens.{Absent-append_right}
use llmgate.Privacy.Session.{Session, slice, with_automaton}
use llmgate.Privacy.Session.Automaton.{tokens_of, with_automaton-IsFresh}
use llmgate.Privacy.Session.Restore.{Unmentioned, AreTokens-tokens_of}
use llmgate.Privacy.Session.Redact.{IsSound}
use llmgate.Privacy.Stream.{
  find_byte, round_down, RestoreStream, spliced, drain_tokens, keep_from, feed,
}

-- The part of the buffer that is left has no token, and the session is as it was but for its cache.
pub record Drained (s : Session) (r : Text × Text × Session) : Type 0 where
  pub absent : Unmentioned s.vault r.1
  pub sound : IsSound r.2
  pub same_vault : r.2.vault ≡ s.vault

-- Nothing, or what begins with `<`.
abbrev pub MayOpen : Text → Type 0
MayOpen held = (held ≡ []) ⊎ ((rest : Text) × (held ≡ b'<' ∷ rest))

find_byte_lem :
    (b : ℕ) (s : Text) (i : ℕ) → find_byte b s ≡ some i → (rest : Text) × (drop i s ≡ b ∷ rest)
unfolding find_byte
find_byte_lem b [] i h = cc
find_byte_lem b (c ∷ s) i h = elim (Bool-cases (c == b)) [
  | inl same ↦ elim (Option-cases (find_byte b s)) [
    | inl missed ↦
        let first : 0 ≡ i = eq_of_some (rw (missed, find_byte, same) at h) in
        (s, ap (λ n. drop n (c ∷ s)) (sym first) ∙ ap (λ d. d ∷ s) (ground arith))
    | inr (j, found) ↦
        let first : 0 ≡ i = eq_of_some (rw (found, find_byte, same) at h) in
        (s, ap (λ n. drop n (c ∷ s)) (sym first) ∙ ap (λ d. d ∷ s) (ground arith))
  ]
  | inr other ↦ elim (Option-cases (find_byte b s)) [
    | inl missed ↦ cc (rw (missed, find_byte, other) at h)
    | inr (j, found) ↦
        let later : j + 1 ≡ i = eq_of_some (rw (found, find_byte, other) at h) in
        let (rest, e) = find_byte_lem b s j found in
        let next : suc j ≡ i = omega arith in (rest, ap (λ n. drop n (c ∷ s)) (sym next) ∙ e)
  ]
]

nothing_left : (s : Text) → drop (length s) s ≡ []
nothing_left [] = refl
nothing_left (b ∷ s) = nothing_left s

take-append-drop : (n : ℕ) (s : Text) → take n s ++ drop n s ≡ s
take-append-drop zero s = refl
take-append-drop (suc n) [] = refl
take-append-drop (suc n) (b ∷ s) = ap (λ t. b ∷ t) (take-append-drop n s)

keep_from-MayOpen : (n : ℕ) (buffer : Text) → MayOpen (drop (keep_from n buffer) buffer)
unfolding keep_from
keep_from-MayOpen n buffer =
    let start = round_down buffer (length buffer - (n - 1)) in
    elim (Option-cases (find_byte b'<' (drop start buffer))) [
      | inl missed ↦ rw (missed, keep_from) (inl (nothing_left buffer))
      | inr (i, found) ↦
          let (rest, e) = find_byte_lem b'<' (drop start buffer) i found in
          rw (found, keep_from) (inr (rest, sym (drop-drop start i buffer) ∙ e))
    ]

pub IsSound-with_automaton : (s : Session) → IsSound s → IsSound (with_automaton s).1
IsSound-with_automaton s sound =
    let fresh = with_automaton-IsFresh s sound.coherent in
    record { valid = subst IsValid (sym fresh.same_vault) sound.valid; coherent = fresh.coherent }

module _ (ac : AhoCorasick) (to_string : Text → Text) (leftmost : IsLeftmost ac) where
  -- A match takes a byte at least and ends in the buffer.
  pub match_takes :
      (s : Session) (buffer : Text) (start end : ℕ)
      → IsSound s
      → ac.find (tokens_of s.vault) buffer ≡ some (start, end)
      → length (drop end buffer) < length buffer
  match_takes s buffer start end sound found =
      let o = leftmost.find_some (tokens_of s.vault) buffer start end found in
      let token = AreTokens-tokens_of s.vault sound.valid o.pattern o.listed in
      omega (
        arith,
        o.ends,
        ap length token.shape,
        ap length o.split,
        length-append o.before (o.pattern ++ o.after),
        length-append o.pattern o.after,
        length-drop end buffer,
      )

  drain_tokens-Drained :
      (rounds : ℕ) (json_escape : Bool) (buffer out : Text) (s : Session)
      → IsSound s
      → length buffer < rounds
      → Drained s (drain_tokens ac to_string rounds json_escape buffer out s)
  unfolding drain_tokens
  drain_tokens-Drained zero json_escape buffer out s sound enough = elim enough [ ]
  drain_tokens-Drained (suc rounds) json_escape buffer out s sound enough =
      let fresh = with_automaton-IsFresh s sound.coherent in
      let s' = (with_automaton s).1 in
      let sound' = IsSound-with_automaton s sound in
      elim fresh.current [
        | inl (idle, empty) ↦
            rw (drain_tokens, idle)
              (record {
                absent = λ i j o. no_member (subst (Memᴰ o.pattern) empty o.listed);
                sound = sound';
                same_vault = fresh.same_vault;
              })
        | inr found ↦ elim (Option-cases (ac.find (tokens_of s.vault) buffer)) [
          | inl missed ↦
              rw (drain_tokens, found, missed)
                (record {
                  absent = leftmost.find_none (tokens_of s.vault) buffer missed;
                  sound = sound';
                  same_vault = fresh.same_vault;
                })
          | inr ((start, end), hit) ↦
              let shorter = match_takes s buffer start end sound hit in
              let emitted =
                out
                ++ (take start buffer
                    ++ spliced ac to_string json_escape s' (slice start end buffer)) in
              let left =
                (drain_tokens ac to_string rounds json_escape (drop end buffer) emitted s').1 in
              let rest =
                drain_tokens-Drained rounds json_escape (drop end buffer) emitted s' sound'
                  (omega (arith, shorter)) in
              rw (drain_tokens, found, hit)
                (record {
                  absent = subst (λ v. Unmentioned v left) fresh.same_vault rest.absent;
                  sound = rest.sound;
                  same_vault = rest.same_vault ∙ fresh.same_vault;
                })
        ]
      ]
    where
      no_member : {k : Text} → Memᴰ k [] → ⊥
      no_member m = elim m [ ]

  -- Whatever fragment is fed: no token of the session stands in the text that is held back, since the
  -- loop has found each of them; the held text is empty or begins with `<`, so that plain text passes
  -- at once; and the session's mappings are as they were.
  pub feed-Held :
      (r : RestoreStream) (fragment : Text) (s : Session)
      → IsSound s
      → Unmentioned s.vault (feed ac to_string r fragment s).1.buffer
        × MayOpen (feed ac to_string r fragment s).1.buffer
        × IsSound (feed ac to_string r fragment s).2
        × ((feed ac to_string r fragment s).2.vault ≡ s.vault)
  unfolding feed
  feed-Held r fragment s sound =
      let whole = r.buffer ++ fragment in
      let done =
        drain_tokens-Drained (length whole + 1) r.json_escape whole [] s sound (omega arith) in
      let left = (drain_tokens ac to_string (length whole + 1) r.json_escape whole [] s).1 in
      let keep = keep_from r.max_token_len left in
      (
        Absent-append_right (tokens_of s.vault) (take keep left) (drop keep left)
            (subst (Unmentioned s.vault) (sym (take-append-drop keep left)) done.absent),
        keep_from-MayOpen r.max_token_len left,
        done.sound,
        done.same_vault,
      )
