-- ===== src/Privacy/Request.antt =====
-- src/core/privacy.rs: what `RedactionSession` does to requests and responses. The source redacts a
-- clone of a request, so that a request stays as it is if some text of it cannot be redacted.
pub mod RoundTrip
use llmgate.Prelude.{List, [], ◌∷◌}
use llmgate.Prelude.Outcome.{Result, ok, err}
use llmgate.Neutral.{
  Value, Items, Fields, ContentBlock, NeutralMessage, NeutralRequest, NeutralResponse,
}
use llmgate.Privacy.Search.{AhoCorasick}
use llmgate.Privacy.Engine.{RedactionEngine}
use llmgate.Privacy.Vault.{TokenError}
use llmgate.Privacy.Session.{Session, redact_text, restore_text}

-- What a redaction of an `A` gives.
abbrev pub Redacted : Type 0 → Type 0
Redacted A = Result TokenError A × Session

-- `?`, with the session passed on.
abbrev pub and_next : {A B : Type 0} → Redacted A → (A → Session → Redacted B) → Redacted B
and_next (ok a, s) next = next a s
and_next (err e, s) next = (err e, s)

module _ (ac : AhoCorasick) (engine : RedactionEngine) where
  -- `redact_json`: the strings of a value, keys excepted.
  unfoldable mutual
    pub redact_json : Value → Session → Redacted Value
    redact_json (Value.string t) s =
        and_next (redact_text ac engine t s) (λ t' s'. (ok (Value.string t'), s'))
    redact_json (Value.array items) s =
        and_next (redact_items items s) (λ items' s'. (ok (Value.array items'), s'))
    redact_json (Value.object fields) s =
        and_next (redact_fields fields s) (λ fields' s'. (ok (Value.object fields'), s'))
    redact_json Value.null s = (ok Value.null, s)
    redact_json (Value.bool b) s = (ok (Value.bool b), s)
    redact_json (Value.number n) s = (ok (Value.number n), s)

    pub redact_items : Items → Session → Redacted Items
    redact_items Items.nil s = (ok Items.nil, s)
    redact_items (Items.cons v rest) s =
        and_next (redact_json v s)
          (λ v' s'. and_next (redact_items rest s') (λ rest' s''. (ok (Items.cons v' rest'), s'')))

    pub redact_fields : Fields → Session → Redacted Fields
    redact_fields Fields.end s = (ok Fields.end, s)
    redact_fields (Fields.field k v rest) s = and_next (redact_json v s) (λ v' s'.
        and_next (redact_fields rest s') (λ rest' s''. (ok (Fields.field k v' rest'), s'')))

  -- One block of a message.
  unfoldable pub redact_block : ContentBlock → Session → Redacted ContentBlock
  unfolding redact_json
  redact_block (ContentBlock.text_block t) s =
      and_next (redact_text ac engine t s) (λ t' s'. (ok (ContentBlock.text_block t'), s'))
  redact_block (ContentBlock.thinking t signature) s =
      and_next (redact_text ac engine t s) (λ t' s'. (ok (ContentBlock.thinking t' signature), s'))
  redact_block (ContentBlock.tool_result id content is_error) s =
      and_next (redact_text ac engine content s)
        (λ content' s'. (ok (ContentBlock.tool_result id content' is_error), s'))
  redact_block (ContentBlock.tool_use id name input) s =
      and_next (redact_json input s) (λ input' s'. (ok (ContentBlock.tool_use id name input'), s'))
  redact_block (ContentBlock.image media_type base64) s =
      (ok (ContentBlock.image media_type base64), s)
  redact_block (ContentBlock.redacted_thinking payload) s =
      (ok (ContentBlock.redacted_thinking payload), s)

  unfoldable pub redact_blocks : List ContentBlock → Session → Redacted (List ContentBlock)
  unfolding redact_block
  redact_blocks [] s = (ok [], s)
  redact_blocks (block ∷ blocks) s = and_next (redact_block block s) (λ block' s'.
      and_next (redact_blocks blocks s') (λ blocks' s''. (ok (block' ∷ blocks'), s'')))

  -- `redact_message`
  unfoldable pub redact_message : NeutralMessage → Session → Redacted NeutralMessage
  unfolding redact_blocks
  redact_message message s =
      and_next (redact_blocks message.content s)
        (λ content s'. (ok (record message { content = content }), s'))

  unfoldable pub redact_messages : List NeutralMessage → Session → Redacted (List NeutralMessage)
  unfolding redact_message
  redact_messages [] s = (ok [], s)
  redact_messages (message ∷ messages) s = and_next (redact_message message s) (λ message' s'.
      and_next (redact_messages messages s') (λ messages' s''. (ok (message' ∷ messages'), s'')))

  -- `redact_request`
  unfoldable pub redact_request :
      (F : Type 0) → NeutralRequest F → Session → Redacted (NeutralRequest F)
  unfolding redact_messages
  redact_request F req s =
      and_next (redact_messages req.messages s)
        (λ messages s'. (ok (record req { messages = messages }), s'))

module _ (ac : AhoCorasick) where
  -- `restore_json`
  unfoldable mutual
    pub restore_json : Value → Session → Value × Session
    restore_json (Value.string t) s = let (t', s') = restore_text ac t s in (Value.string t', s')
    restore_json (Value.array items) s =
        let (items', s') = restore_items items s in (Value.array items', s')
    restore_json (Value.object fields) s =
        let (fields', s') = restore_fields fields s in (Value.object fields', s')
    restore_json Value.null s = (Value.null, s)
    restore_json (Value.bool b) s = (Value.bool b, s)
    restore_json (Value.number n) s = (Value.number n, s)

    pub restore_items : Items → Session → Items × Session
    restore_items Items.nil s = (Items.nil, s)
    restore_items (Items.cons v rest) s =
        let (v', s') = restore_json v s in
        let (rest', s'') = restore_items rest s' in (Items.cons v' rest', s'')

    pub restore_fields : Fields → Session → Fields × Session
    restore_fields Fields.end s = (Fields.end, s)
    restore_fields (Fields.field k v rest) s =
        let (v', s') = restore_json v s in
        let (rest', s'') = restore_fields rest s' in (Fields.field k v' rest', s'')

  unfoldable pub restore_block : ContentBlock → Session → ContentBlock × Session
  unfolding restore_json
  restore_block (ContentBlock.text_block t) s =
      let (t', s') = restore_text ac t s in (ContentBlock.text_block t', s')
  restore_block (ContentBlock.thinking t signature) s =
      let (t', s') = restore_text ac t s in (ContentBlock.thinking t' signature, s')
  restore_block (ContentBlock.tool_use id name input) s =
      let (input', s') = restore_json input s in (ContentBlock.tool_use id name input', s')
  restore_block (ContentBlock.tool_result id content is_error) s =
      let (content', s') = restore_text ac content s in
      (ContentBlock.tool_result id content' is_error, s')
  restore_block (ContentBlock.image media_type base64) s = (ContentBlock.image media_type base64, s)
  restore_block (ContentBlock.redacted_thinking payload) s =
      (ContentBlock.redacted_thinking payload, s)

  unfoldable pub restore_blocks : List ContentBlock → Session → List ContentBlock × Session
  unfolding restore_block
  restore_blocks [] s = ([], s)
  restore_blocks (block ∷ blocks) s =
      let (block', s') = restore_block block s in
      let (blocks', s'') = restore_blocks blocks s' in (block' ∷ blocks', s'')

  -- `restore_response`
  unfoldable pub restore_response : NeutralResponse → Session → NeutralResponse × Session
  unfolding restore_blocks
  restore_response resp s =
      let (content, s') = restore_blocks resp.content s in (record resp { content = content }, s')
