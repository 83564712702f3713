-- ===== src/Pipeline/Channel.antt =====
-- src/core/pipeline.rs: the channel to the client, `tx`, and `send_lines`.
use llmgate.Prelude.{
  ℕ, ◌-◌, ◌==◌, Bool, true, false, Option, none, some, List, [], ◌∷◌, ◌++◌, Text, if◌then◌else◌,
}
use llmgate.Sse.Chunks.{concat}

-- What has been sent, and when the client goes: `some n` after `n` more looks at the channel, which
-- are the sends and `is_closed`; `none` if it stays.
pub record Channel : Type 0 where
  pub sent : List Text
  pub left : Option ℕ

-- A look at the channel: whether the client is there.
abbrev pub look : Option ℕ → Bool × Option ℕ
look none = (true, none)
look (some n) = if n == 0 then (false, some 0) else (true, some (n - 1))

-- `!tx.is_closed()`
abbrev pub is_open : Channel → Bool × Channel
is_open ch = let (there, left) = look ch.left in (there, record ch { left = left })

-- `tx.send(…).await.is_ok()`
abbrev pub send : Text → Channel → Bool × Channel
send message ch =
    let (there, left) = look ch.left in
    (there, record { sent = if there then ch.sent ++ message ∷ [] else ch.sent; left = left })

-- `Vec::is_empty`
abbrev pub no_lines : List Text → Bool
no_lines [] = true
no_lines (line ∷ lines) = false

unfoldable pub send_lines : List Text → Channel → Bool × Channel
send_lines lines ch = if no_lines lines then (true, ch) else send (concat lines) ch

-- The channel to a client that stays.
abbrev pub staying : List Text → Channel
staying sent = record { sent = sent; left = none }
