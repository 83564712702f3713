-- ===== src/Registry.antt =====
-- src/core/registry.rs: the traits of the adapters and of a stream's two ends, as records of operations.
use llmgate.Prelude.{ℕ, List, Text}
use llmgate.Prelude.Outcome.{Result}
use llmgate.Neutral.{NeutralRequest, NeutralResponse, NeutralStreamEvent, AdapterError}

-- `StreamDecoder`; `start` is what `stream_decoder()` gives.
pub record StreamDecoder (D : Type 0) : Type 0 where
  pub start : D
  pub feed : D → Text → List NeutralStreamEvent × D
  pub finish : D → List NeutralStreamEvent × D

-- `StreamEncoder`; `start` is what `stream_encoder()` gives.
pub record StreamEncoder (E : Type 0) : Type 0 where
  pub start : E
  pub encode : E → NeutralStreamEvent → List Text × E
  pub done : E → Text

-- `ProtocolAdapter`, without its endpoints and its models. `F` is the type of floats of a request.
pub record ProtocolAdapter (F : Type 0) (D : Type 0) (E : Type 0) : Type 0 where
  pub conversation_url : Text → Text → Result AdapterError Text
  pub stream_conversation_url : Text → Text → Result AdapterError Text
  pub request_headers : List (Text × Text)
  pub parse_request : Text → Result AdapterError (NeutralRequest F)
  pub serialize_request : NeutralRequest F → Result AdapterError Text
  pub parse_response : Text → Result AdapterError NeutralResponse
  pub serialize_response : NeutralResponse → Result AdapterError Text
  pub parse_upstream_error : ℕ → Text → AdapterError
  pub serialize_error : AdapterError → ℕ × Text
  pub stream_decoder : StreamDecoder D
  pub stream_encoder : StreamEncoder E
