-- ===== src/Pipeline/JsonStream/Events.antt =====
-- The events that stand for a whole response.
use llmgate.Prelude.{
  ℕ, ◌+◌, ◌%◌, ◌^◌, ◌<◌, ◌≡◌, ◌∙◌, refl, sym, ap, List, [], ◌∷◌, ◌++◌, append_assoc, append-nil,
  Text, arith,
}
use llmgate.Neutral.{Value, ContentBlock, NeutralResponse, NeutralStreamEvent}
use llmgate.Events.{starts, stops, call_indices, Counts}
use llmgate.Pipeline.JsonStream.{block_events, response_to_events}

-- All that is said in texts.
abbrev pub said : List NeutralStreamEvent → Text
said [] = []
said (NeutralStreamEvent.text_delta t ∷ es) = t ++ said es
said (_ ∷ es) = said es

-- The tool calls of the blocks, and their text.
abbrev pub calls : List ContentBlock → ℕ
calls [] = 0
calls (ContentBlock.tool_use id name input ∷ blocks) = 1 + calls blocks
calls (_ ∷ blocks) = calls blocks

abbrev pub spoken : List ContentBlock → Text
spoken [] = []
spoken (ContentBlock.text_block t ∷ blocks) = t ++ spoken blocks
spoken (_ ∷ blocks) = spoken blocks

module _ (to_string : Value → Text) where
  Counts-block_events :
      (at end : ℕ) (blocks : List ContentBlock) (after : List NeutralStreamEvent)
      → at + calls blocks ≡ end
      → end < 2 ^ 32
      → call_indices after ≡ []
      → Counts at end (call_indices (block_events to_string at blocks ++ after))
  unfolding block_events
  Counts-block_events at end [] after total small none_after = rw none_after (omega (arith, total))
  Counts-block_events at end (ContentBlock.tool_use id name input ∷ blocks) after total small
        none_after =
      let next : (at + 1) % 2 ^ 32 ≡ at + 1 = omega (arith, total, small) in
      (
        refl,
        rw next
            (Counts-block_events (at + 1) end blocks after (omega (arith, total)) small none_after),
      )
  Counts-block_events at end (ContentBlock.text_block t ∷ blocks) after total small none_after =
      Counts-block_events at end blocks after total small none_after
  Counts-block_events at end (ContentBlock.thinking t signature ∷ blocks) after total small
        none_after =
      Counts-block_events at end blocks after total small none_after
  Counts-block_events at end (ContentBlock.image media_type base64 ∷ blocks) after total small
        none_after =
      Counts-block_events at end blocks after total small none_after
  Counts-block_events at end (ContentBlock.tool_result id content bad ∷ blocks) after total small
        none_after =
      Counts-block_events at end blocks after total small none_after
  Counts-block_events at end (ContentBlock.redacted_thinking payload ∷ blocks) after total small
        none_after =
      Counts-block_events at end blocks after total small none_after

  said-block_events :
      (at : ℕ) (blocks : List ContentBlock) (after : List NeutralStreamEvent)
      → said (block_events to_string at blocks ++ after) ≡ spoken blocks ++ said after
  unfolding block_events
  said-block_events at [] after = refl
  said-block_events at (ContentBlock.text_block t ∷ blocks) after =
      ap (λ u. t ++ u) (said-block_events at blocks after)
      ∙ sym (append_assoc t (spoken blocks) (said after))
  said-block_events at (ContentBlock.tool_use id name input ∷ blocks) after =
      said-block_events ((at + 1) % 2 ^ 32) blocks after
  said-block_events at (ContentBlock.thinking t signature ∷ blocks) after =
      said-block_events at blocks after
  said-block_events at (ContentBlock.image media_type base64 ∷ blocks) after =
      said-block_events at blocks after
  said-block_events at (ContentBlock.tool_result id content bad ∷ blocks) after =
      said-block_events at blocks after
  said-block_events at (ContentBlock.redacted_thinking payload ∷ blocks) after =
      said-block_events at blocks after

  stops-block_events :
      (at : ℕ) (blocks : List ContentBlock) (after : List NeutralStreamEvent)
      → (stops (block_events to_string at blocks ++ after) ≡ stops after)
        × (starts (block_events to_string at blocks ++ after) ≡ starts after)
  unfolding block_events
  stops-block_events at [] after = (refl, refl)
  stops-block_events at (ContentBlock.text_block t ∷ blocks) after =
      let later = stops-block_events at blocks after in
      (omega (arith, later.0), omega (arith, later.1))
  stops-block_events at (ContentBlock.tool_use id name input ∷ blocks) after =
      let later = stops-block_events ((at + 1) % 2 ^ 32) blocks after in
      (omega (arith, later.0), omega (arith, later.1))
  stops-block_events at (ContentBlock.thinking t signature ∷ blocks) after =
      let later = stops-block_events at blocks after in
      (omega (arith, later.0), omega (arith, later.1))
  stops-block_events at (ContentBlock.image media_type base64 ∷ blocks) after =
      stops-block_events at blocks after
  stops-block_events at (ContentBlock.tool_result id content bad ∷ blocks) after =
      stops-block_events at blocks after
  stops-block_events at (ContentBlock.redacted_thinking payload ∷ blocks) after =
      stops-block_events at blocks after

  -- The events that stand for a response have one start and one stop; their tool calls are numbered
  -- from 0 without a gap, whatever else stands between them; and their texts are those of the
  -- response, in order. The response has fewer than 2 ^ 32 tool calls.
  pub response_to_events_lem :
      (resp : NeutralResponse)
      → calls resp.content < 2 ^ 32
      → (starts (response_to_events to_string resp) ≡ 1)
        × (stops (response_to_events to_string resp) ≡ 1)
        × Counts 0 (calls resp.content) (call_indices (response_to_events to_string resp))
        × (said (response_to_events to_string resp) ≡ spoken resp.content)
  unfolding response_to_events
  response_to_events_lem resp small =
      let stop = NeutralStreamEvent.message_stop resp.finish_reason resp.usage in
      let counts = stops-block_events 0 resp.content (stop ∷ []) in
      (
        omega (arith, counts.1),
        omega (arith, counts.0),
        Counts-block_events 0 (calls resp.content) resp.content (stop ∷ []) (omega arith) small
            refl,
        said-block_events 0 resp.content (stop ∷ []) ∙ append-nil (spoken resp.content),
      )
