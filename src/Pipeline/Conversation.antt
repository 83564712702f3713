-- ===== src/Pipeline/Conversation.antt =====
-- src/core/pipeline.rs: `handle_conversation`, from the request's body to the answer. The upstream's
-- HTTP answer is a parameter.
pub mod Guarded
mod Tests
use llmgate.Prelude.{
  ℕ, ◌+◌, leb, ltb, Bool, true, false, not, ◌&&◌, Option, none, some, List, [], ◌∷◌, ◌++◌, Text,
  text, is_empty, length, if◌then◌else◌,
}
use llmgate.Prelude.Decimal.{decimal}
use llmgate.Prelude.Strings.{starts_with}
use llmgate.Prelude.Outcome.{Result, ok, err, ◌>>=◌}
use llmgate.Neutral.{Value, NeutralRequest, NeutralResponse, NeutralUsage, AdapterError}
use llmgate.Resolver.{ModelResolver, resolve}
use llmgate.Sse.Utf8.{is_utf8}
use llmgate.Privacy.Search.{AhoCorasick}
use llmgate.Privacy.Engine.{RedactionEngine}
use llmgate.Privacy.Vault.{TokenError, token_error}
use llmgate.Privacy.Session.{Session, new_session, restore_text}
use llmgate.Privacy.Request.{redact_request, restore_response}
use llmgate.Privacy.Stream.{new_restorer}
use llmgate.Registry.{ProtocolAdapter}
use llmgate.Pipeline.Channel.{Channel}
use llmgate.Pipeline.Relay.{Stages, Restorer, Input, Status, Relay, relay_stream}
use llmgate.Pipeline.JsonStream.{handle_json_as_stream}

-- A header that the upstream is sent, with its value.
abbrev pub Header : Type 0
Header = Text × Text

-- What `handle_conversation` reads of the state.
pub record AppState : Type 0 where
  pub url : Text
  pub authorization : Text
  pub extra_headers : List Header
  pub resolver : ModelResolver
  pub privacy : Option RedactionEngine

-- What is sent to the upstream.
pub record Call : Type 0 where
  pub streaming : Bool
  pub url : Text
  pub headers : List Header
  pub body : Text

-- `MAX_UPSTREAM_BODY_BYTES`
abbrev pub max_upstream_body_bytes : ℕ
max_upstream_body_bytes = 16777216

-- The loop of `read_upstream_text`: a chunk, or what is wrong with the stream.
unfoldable pub read_chunks : Text → List (Result Text Text) → Result AdapterError Text
read_chunks bytes [] = ok bytes
read_chunks bytes (err e ∷ chunks) =
    err (AdapterError.internal (text "upstream body read failed: " ++ e))
read_chunks bytes (ok chunk ∷ chunks) =
    if ltb max_upstream_body_bytes (length bytes + length chunk)
    then err (
        AdapterError.internal (
          text "upstream response body exceeds "
          ++ (decimal max_upstream_body_bytes ++ text " bytes")))
    else read_chunks (bytes ++ chunk) chunks

abbrev checked : Text → Result AdapterError Text
checked bytes =
    if is_utf8 bytes
    then ok bytes
    else err (AdapterError.internal (text "upstream response is not valid utf-8"))

-- `read_upstream_text`
unfoldable pub read_upstream_text : List (Result Text Text) → Result AdapterError Text
unfolding read_chunks
read_upstream_text chunks = read_chunks [] chunks >>= checked

abbrev nonempty_headers : List Header → List Header
nonempty_headers [] = []
nonempty_headers ((name, value) ∷ headers) =
    let rest = nonempty_headers headers in if is_empty name then rest else (name, value) ∷ rest

-- The headers of a request to the upstream.
unfoldable pub upstream_headers : AppState → List Header → List Header
upstream_headers state adapter =
    (if is_empty state.authorization then [] else (text "authorization", state.authorization) ∷ [])
    ++ (nonempty_headers state.extra_headers ++ adapter)

-- The answer of the upstream: its body as it is read at once, and as it is read as a stream.
pub record UpstreamResponse : Type 0 where
  pub status : ℕ
  pub content_type : Option Text
  pub chunks : List (Result Text Text)
  pub inputs : List Input

-- What the client is answered.
pub data Reply : Type 0 where
  error_json : (status : ℕ) (body : Text) → Reply
  json : (body : Text) → Reply
  event_stream : List Text → Reply

-- What is recorded of a request, if the store is enabled: the mode, the status and the usage.
pub record Recorded : Type 0 where
  pub streaming : Bool
  pub status : Status
  pub usage : Option NeutralUsage

-- What a request comes to: what has been sent upstream, the reply, and the record.
pub record Outcome : Type 0 where
  pub sent : Option Call
  pub reply : Reply
  pub recorded : Option Recorded

-- `error_json_response`
unfoldable pub error_json_response : ℕ × Text → Reply
error_json_response (status, body) =
    Reply.error_json (if leb 100 status && leb status 999 then status else 500) body

-- `status.is_success()`
abbrev pub is_success : ℕ → Bool
is_success status = leb 200 status && leb status 299

abbrev pub looks_like_json : Option Text → Bool
looks_like_json none = false
looks_like_json (some content_type) = starts_with (text "application/json") content_type

-- A request that is ready to be sent, and the session that it was redacted in.
pub record Prepared : Type 0 where
  pub call : Call
  pub session : Option Session

module _ (F : Type 0) (ac : AhoCorasick) where
  -- The redaction, if the guard is on.
  abbrev pub redacted :
      Result TokenError (NeutralRequest F) × Session
      → Result AdapterError (NeutralRequest F × Option Session)
  redacted (ok req, s) = ok (req, some s)
  redacted (err e, s) = err (token_error e)

  unfoldable pub guard :
      Option RedactionEngine
      → NeutralRequest F
      → Result AdapterError (NeutralRequest F × Option Session)
  guard none req = ok (req, none)
  guard (some engine) req = redacted (redact_request ac engine F req new_session)

  module _ {D : Type 0} {E : Type 0} (upstream : ProtocolAdapter F D E) (state : AppState) where
    -- The URL that a request goes to.
    abbrev pub url_of : NeutralRequest F → Result AdapterError Text
    url_of req =
        if req.stream
        then upstream.stream_conversation_url state.url req.model
        else upstream.conversation_url state.url req.model

    abbrev call_of : NeutralRequest F → Text → Text → Call
    call_of req body url = record {
      streaming = req.stream;
      url = url;
      headers = upstream_headers state upstream.request_headers;
      body = body;
    }

    -- From the parsed request to the one that is sent.
    unfoldable pub prepare : NeutralRequest F → Result AdapterError Prepared
    unfolding guard
    prepare req =
        guard state.privacy (record req { model = resolve state.resolver req.model })
        >>= (λ guarded. upstream.serialize_request guarded.0 >>= (λ body.
            url_of guarded.0
            >>= (λ url. ok (record { call = call_of guarded.0 body url; session = guarded.1 }))))

-- `session.restore_text`, if there is a session.
abbrev restored_text : AhoCorasick → Option Session → Text → Text
restored_text ac none t = t
restored_text ac (some s) t = (restore_text ac t s).0

abbrev restored_response : AhoCorasick → Option Session → NeutralResponse → NeutralResponse
restored_response ac none resp = resp
restored_response ac (some s) resp = (restore_response ac resp s).0

-- `privacy.map(StreamRestorer::new)`
abbrev restorer_of : Option RedactionEngine → Option Session → Restorer
restorer_of (some engine) (some s) = some (new_restorer engine, s)
restorer_of _ _ = none

-- The engine that the stages of a stream are given; without a guard there is no session either.
abbrev engine_of : Option RedactionEngine → RedactionEngine
engine_of none = record { rules = []; allow_domains = []; allow_patterns = []; max_token_len = 0 }
engine_of (some engine) = engine

module _ (F : Type 0) (ac : AhoCorasick) (to_string : Text → Text) (print : Value → Text)
    {D : Type 0} {E : Type 0} {D' : Type 0} {E' : Type 0} (client : ProtocolAdapter F D E)
    (upstream : ProtocolAdapter F D' E') (state : AppState) where
  abbrev pub failure : AdapterError → Reply
  failure e = error_json_response (client.serialize_error e)

  abbrev stages : Stages D' E
  stages = record {
    decoder = upstream.stream_decoder;
    encoder = client.stream_encoder;
    automaton = ac;
    to_string = to_string;
    engine = engine_of state.privacy;
  }

  abbrev noted : Bool → Status → Option NeutralUsage → Option Recorded
  noted streaming status usage =
      some (record { streaming = streaming; status = status; usage = usage })

  -- The answer to an error of the upstream; the tokens in its body are restored.
  abbrev upstream_error : Bool → Option Session → ℕ → Text → Reply × Option Recorded
  upstream_error streaming session status body = (
    failure (upstream.parse_upstream_error status (restored_text ac session body)),
    noted streaming Status.error none,
  )

  abbrev or_failure : Result AdapterError (Reply × Option Recorded) → Reply × Option Recorded
  or_failure (ok answer) = answer
  or_failure (err e) = (failure e, none)

  -- A body that is JSON although a stream was asked for. It is not recorded.
  abbrev json_as_stream : Option Session → Text → Result AdapterError (Reply × Option Recorded)
  json_as_stream session body =
      handle_json_as_stream stages print upstream.parse_response (restorer_of state.privacy session)
        body
      >>= (λ lines. ok (Reply.event_stream (lines ∷ []), none))

  abbrev recorded_stream : Relay D' E × Option Status → Reply × Option Recorded
  recorded_stream (s, none) = (Reply.event_stream s.channel.sent, none)
  recorded_stream (s, some status) = (Reply.event_stream s.channel.sent, noted true status none)

  -- `handle_streaming_response`
  unfoldable pub handle_streaming_response :
      Option Session → Channel → UpstreamResponse → Reply × Option Recorded
  unfolding read_upstream_text handle_json_as_stream relay_stream restore_text
  handle_streaming_response session channel resp =
      if not (is_success resp.status)
      then or_failure (
          read_upstream_text resp.chunks
          >>= (λ body. ok (upstream_error true session resp.status body)))
      else if looks_like_json resp.content_type
      then or_failure (read_upstream_text resp.chunks >>= json_as_stream session)
      else recorded_stream
          (relay_stream stages (restorer_of state.privacy session) channel resp.inputs)

  abbrev or_recorded_error : Result AdapterError (Reply × Option Recorded) → Reply × Option Recorded
  or_recorded_error (ok answer) = answer
  or_recorded_error (err e) = (failure e, noted false Status.error none)

  -- The answer to a response that has been parsed; it is recorded even if it cannot be serialized.
  abbrev answered : NeutralResponse → Reply × Option Recorded
  answered resp = (
    elim (client.serialize_response resp) [ ok body ↦ Reply.json body | err e ↦ failure e ],
    noted false Status.ok resp.usage,
  )

  -- The answer to the body of a response.
  abbrev on_body : Option Session → ℕ → Text → Reply × Option Recorded
  on_body session status body =
      if not (is_success status)
      then upstream_error false session status body
      else or_recorded_error (
          upstream.parse_response body
          >>= (λ resp. ok (answered (restored_response ac session resp))))

  unfoldable pub handle_response : Option Session → UpstreamResponse → Reply × Option Recorded
  unfolding read_upstream_text restore_text restore_response
  handle_response session resp =
      or_failure
        (read_upstream_text resp.chunks >>= (λ body. ok (on_body session resp.status body)))

  -- What becomes of a call, with what the upstream answers to it, or why it does not.
  unfoldable pub on_answer :
      Prepared → Channel → Result Text UpstreamResponse → Reply × Option Recorded
  unfolding handle_streaming_response handle_response
  on_answer prepared channel (err e) = (
    failure (AdapterError.internal (text "upstream request failed: " ++ e)),
    noted prepared.call.streaming Status.error none,
  )
  on_answer prepared channel (ok resp) =
      if prepared.call.streaming
      then handle_streaming_response prepared.session channel resp
      else handle_response prepared.session resp

  -- What becomes of a request that has been prepared, or could not be.
  abbrev pub carry_out :
      (Call → Result Text UpstreamResponse) → Channel → Result AdapterError Prepared → Outcome
  carry_out forward channel (err e) = record { sent = none; reply = failure e; recorded = none }
  carry_out forward channel (ok prepared) =
      let (reply, recorded) = on_answer prepared channel (forward prepared.call) in
      record { sent = some prepared.call; reply = reply; recorded = recorded }

  -- `handle_conversation`, once the adapters are found: with the body as `read_body` gives it, the
  -- channel to the client, and the upstream, `proxy::forward` and `proxy::forward_stream`.
  unfoldable pub handle_conversation :
      (Call → Result Text UpstreamResponse) → Channel → Result AdapterError Text → Outcome
  unfolding prepare on_answer
  handle_conversation forward channel body =
      carry_out forward channel (body >>= client.parse_request >>= prepare F ac upstream state)
