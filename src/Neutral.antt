-- ===== src/Neutral.antt =====
-- src/core/neutral.rs and src/core/error.rs: the protocol-neutral model. `Value` is the data type of
-- the crate `serde_json`; a float is opaque, so the requests are generic in the type of floats.
use llmgate.Prelude.Decimal.{decimal}
use llmgate.Prelude.{◌++◌, ℕ, Bool, false, Option, none, List, [], Text, text}

pub data Number : Type 0 where
  unsigned : ℕ → Number
  negative : ℕ → Number
  -- any other number, by its text
  float : Text → Number

mutual
  pub data Value : Type 0 where
    null : Value
    bool : Bool → Value
    number : Number → Value
    string : Text → Value
    array : Items → Value
    object : Fields → Value

  -- the entries of an object, in order
  pub data Fields : Type 0 where
    end : Fields
    field : (key : Text) (value : Value) (rest : Fields) → Fields

  -- the elements of an array
  pub data Items : Type 0 where
    nil : Items
    cons : (value : Value) (rest : Items) → Items

pub data NeutralRole : Type 0 where
  system user assistant tool : NeutralRole

pub data ContentBlock : Type 0 where
  text_block : Text → ContentBlock
  image : (media_type base64 : Text) → ContentBlock
  thinking : (thought : Text) (signature : Option Text) → ContentBlock
  tool_use : (id name : Text) (input : Value) → ContentBlock
  tool_result : (tool_use_id content : Text) (is_error : Bool) → ContentBlock
  redacted_thinking : (payload : Text) → ContentBlock

pub record NeutralMessage : Type 0 where
  pub role : NeutralRole
  pub content : List ContentBlock

pub record NeutralTool : Type 0 where
  pub name : Text
  pub description : Option Text
  pub parameters : Value

pub record NeutralRequest (F : Type 0) : Type 0 where
  pub model : Text
  pub messages : List NeutralMessage
  pub tools : List NeutralTool
  pub max_tokens : Option ℕ
  pub max_completion_tokens : Option ℕ
  pub temperature : Option F
  pub top_p : Option F
  pub top_k : Option ℕ
  pub stop : Option (List Text)
  pub stream : Bool

-- `NeutralRequest::new`
unfoldable pub new_request : (F : Type 0) → Text → List NeutralMessage → NeutralRequest F
new_request F model messages = record {
  model = model;
  messages = messages;
  tools = [];
  max_tokens = none;
  max_completion_tokens = none;
  temperature = none;
  top_p = none;
  top_k = none;
  stop = none;
  stream = false;
}

pub data FinishReason : Type 0 where
  stop length tool_calls content_filter : FinishReason
  other : Text → FinishReason

-- `FinishReason::as_str`
unfoldable pub as_str : FinishReason → Text
as_str FinishReason.stop = text "stop"
as_str FinishReason.length = text "length"
as_str FinishReason.tool_calls = text "tool_calls"
as_str FinishReason.content_filter = text "content_filter"
as_str (FinishReason.other s) = s

pub record NeutralUsage : Type 0 where
  pub input_tokens : ℕ
  pub output_tokens : ℕ

pub record NeutralResponse : Type 0 where
  pub id : Text
  pub model : Text
  pub content : List ContentBlock
  pub finish_reason : FinishReason
  pub usage : Option NeutralUsage

pub record ModelInfo : Type 0 where
  pub id : Text
  pub owned_by : Text

pub data AdapterError : Type 0 where
  invalid_request : Text → AdapterError
  authentication permission_denied : AdapterError
  rate_limit : (retry_after_secs : Option ℕ) → AdapterError
  overloaded insufficient_quota : AdapterError
  api : Text → AdapterError
  upstream : (status : ℕ) (body : Text) → AdapterError
  internal : Text → AdapterError

-- `Display`, from the `#[error]` attributes.
unfoldable pub display : AdapterError → Text
display (AdapterError.invalid_request m) = text "invalid request: " ++ m
display AdapterError.authentication = text "authentication failed"
display AdapterError.permission_denied = text "permission denied"
display (AdapterError.rate_limit after) = text "rate limit exceeded"
display AdapterError.overloaded = text "upstream overloaded"
display AdapterError.insufficient_quota = text "insufficient quota"
display (AdapterError.api m) = text "upstream api error: " ++ m
display (AdapterError.upstream status body) =
    text "upstream http " ++ (decimal status ++ (text ": " ++ body))
display (AdapterError.internal m) = text "internal error: " ++ m

pub data NeutralStreamEvent : Type 0 where
  message_start : (id model : Text) (usage : Option NeutralUsage) → NeutralStreamEvent
  text_delta : Text → NeutralStreamEvent
  reasoning_delta : Text → NeutralStreamEvent
  reasoning_signature : Text → NeutralStreamEvent
  tool_call_delta : (index : ℕ) (id name arguments : Text) → NeutralStreamEvent
  message_stop : (finish_reason : FinishReason) (usage : Option NeutralUsage) → NeutralStreamEvent
  error : AdapterError → NeutralStreamEvent
