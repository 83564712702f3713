-- ===== src/Privacy/Stream/Fuel.antt =====
-- The loop over the tokens of a buffer ends by itself.
use llmgate.Prelude.{
  ℕ, zero, suc, ◌<◌, ◌≡◌, refl, inl, inr, Bool, ◌++◌, Text, length, take, drop, arith, Option-cases,
}
use llmgate.Privacy.Search.{AhoCorasick, IsLeftmost}
use llmgate.Privacy.Session.{Session, slice, with_automaton}
use llmgate.Privacy.Session.Automaton.{tokens_of, with_automaton-IsFresh}
use llmgate.Privacy.Session.Redact.{IsSound}
use llmgate.Privacy.Stream.{spliced, drain_tokens}
use llmgate.Privacy.Stream.Held.{IsSound-with_automaton, match_takes}

module _ (ac : AhoCorasick) (to_string : Text → Text) (leftmost : IsLeftmost ac) where
  -- The loop that replaces the tokens of a buffer ends by itself, since each round takes a byte at
  -- least: with more rounds than the buffer has bytes, further rounds change nothing. The session is
  -- sound, and the search is leftmost.
  pub drain_tokens-fuel :
      (rounds more : ℕ) (json_escape : Bool) (buffer out : Text) (s : Session)
      → IsSound s
      → length buffer < rounds
      → length buffer < more
      → drain_tokens ac to_string rounds json_escape buffer out s
        ≡ drain_tokens ac to_string more json_escape buffer out s
  unfolding drain_tokens
  drain_tokens-fuel zero more json_escape buffer out s sound enough enough' = elim enough [ ]
  drain_tokens-fuel (suc rounds) zero json_escape buffer out s sound enough enough' =
      elim enough' [ ]
  drain_tokens-fuel (suc rounds) (suc more) json_escape buffer out s sound enough enough' =
      let fresh = with_automaton-IsFresh s sound.coherent in
      let s' = (with_automaton s).1 in
      elim fresh.current [
        | inl (idle, empty) ↦ rw (drain_tokens, idle) refl
        | inr found ↦ elim (Option-cases (ac.find (tokens_of s.vault) buffer)) [
          | inl missed ↦ rw (drain_tokens, found, missed) refl
          | inr ((start, end), hit) ↦
              let shorter = match_takes ac to_string leftmost s buffer start end sound hit in
              let emitted =
                out
                ++ (take start buffer
                    ++ spliced ac to_string json_escape s' (slice start end buffer)) in
              rw (drain_tokens, found, hit)
                (drain_tokens-fuel rounds more json_escape (drop end buffer) emitted s'
                  (IsSound-with_automaton s sound) (omega (arith, shorter))
                  (omega (arith, shorter)))
        ]
      ]
