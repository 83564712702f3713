-- ===== src/Pipeline/Conversation/Tests.antt =====
-- Runs of a conversation, and the theorems at them: a protocol whose requests are their own text.
use llmgate.Prelude.{
  ℕ, ◌≡◌, refl, false, none, some, List, [], ◌∷◌, ◌++◌, Text, text, text_eq, if◌then◌else◌,
}
use llmgate.Prelude.Map
use llmgate.Prelude.Strings.{strip_prefix, starts_with, replace}
use llmgate.Prelude.Decimal.{decimal}
use llmgate.Prelude.Outcome.{Result, ok, err, ◌>>=◌}
use llmgate.Neutral.{
  Value, NeutralRequest, NeutralRole, NeutralMessage, ContentBlock, AdapterError, display,
}
use llmgate.Resolver.{resolve, strip_longest, mapped_or_default}
use llmgate.Privacy.Search.{Regex, AhoCorasick}
use llmgate.Privacy.Engine.{RedactionEngine, is_allowed}
use llmgate.Privacy.Template.{render}
use llmgate.Privacy.Vault.{counter, store, mint, token_for}
use llmgate.Privacy.Session.{redact_text, with_automaton}
use llmgate.Privacy.Request.{
  redact_request, redact_message, redact_messages, redact_blocks, redact_block,
}
use llmgate.Registry.{ProtocolAdapter}
use llmgate.Pipeline.Channel.{staying}
use llmgate.Pipeline.Conversation.{
  AppState, Call, UpstreamResponse, Outcome, guard, prepare, upstream_headers, handle_conversation,
}
use llmgate.Pipeline.Conversation.Guarded.{IsRedacted, conversation, conversation-IsRedacted}

-- The digits 1 and 2, each a match.
abbrev digit_spans : Text → List (ℕ × ℕ)
digit_spans t =
    if text_eq t (text "12")
    then (0, 1) ∷ (1, 2) ∷ []
    else if text_eq t (text "1")
    then (0, 1) ∷ []
    else []

abbrev digits : Regex
digits = record { find_iter = digit_spans; is_match = λ t. false }

-- One rule.
abbrev engine : RedactionEngine
engine = record {
  rules = record { name = text "d"; regex = digits; template = text "<D_{n}>" } ∷ [];
  allow_domains = [];
  allow_patterns = [];
  max_token_len = 8;
}

abbrev blind : AhoCorasick
blind = record { find = λ ps t. none; find_iter = λ ps t. [] }

abbrev state : AppState
state = record {
  url = text "http://u";
  authorization = [];
  extra_headers = [];
  resolver = record { default = text "m"; map = []; prefixes = [] };
  privacy = some engine;
}

abbrev message : Text → NeutralMessage
message t = record { role = NeutralRole.user; content = ContentBlock.text_block t ∷ [] }

abbrev request : Text → NeutralRequest ℕ
request t = record {
  model = text "m";
  messages = message t ∷ [];
  tools = [];
  max_tokens = none;
  max_completion_tokens = none;
  temperature = none;
  top_p = none;
  top_k = none;
  stop = none;
  stream = false;
}

-- The text of the blocks and of the messages.
abbrev text_of_blocks : List ContentBlock → Text
text_of_blocks [] = []
text_of_blocks (ContentBlock.text_block t ∷ blocks) = t ++ text_of_blocks blocks
text_of_blocks (_ ∷ blocks) = text_of_blocks blocks

abbrev text_of : List NeutralMessage → Text
text_of [] = []
text_of (m ∷ messages) = text_of_blocks m.content ++ text_of messages

abbrev adapter : ProtocolAdapter ℕ ℕ ℕ
adapter = record {
  conversation_url = λ base model. ok base;
  stream_conversation_url = λ base model. ok base;
  request_headers = [];
  parse_request = λ t. ok (request t);
  serialize_request = λ req. ok (text_of req.messages);
  parse_response = λ t. err AdapterError.overloaded;
  serialize_response = λ resp. ok [];
  parse_upstream_error = λ status body. AdapterError.upstream status body;
  serialize_error = λ e. (500, display e);
  stream_decoder = record { start = 0; feed = λ d t. ([], d); finish = λ d. ([], d) };
  stream_encoder = record { start = 0; encode = λ e event. ([], e); done = λ e. [] };
}

abbrev print : Value → Text
print v = []

abbrev forward : Call → Result Text UpstreamResponse
forward call = err (text "refused")

abbrev at : Text → Outcome
at t = conversation ℕ blind (λ u. u) print adapter adapter state engine forward (staying []) (ok t)

abbrev sent_call : Call
sent_call = record { streaming = false; url = text "http://u"; headers = []; body = text "<D_1>" }

-- What a run unfolds.
unfolded : Unit {0}
unfolding handle_conversation prepare guard redact_request redact_messages redact_message
    redact_blocks redact_block redact_text is_allowed token_for mint store counter render replace
    strip_prefix decimal Map.get Map.insert resolve mapped_or_default strip_longest upstream_headers
    with_automaton starts_with text_eq
unfolded = tt

is_sent : (at (text "1")).sent ≡ some sent_call
unfolding unfolded
is_sent = refl

conversation-IsRedacted_example :
    (req : NeutralRequest ℕ) × (ok (text "1") >>= adapter.parse_request ≡ ok req)
    × IsRedacted ℕ blind
        (λ u. u)
        print
        adapter
        adapter
        state
        engine
        forward
        (staying [])
        req
        (text "<D_1>")
conversation-IsRedacted_example =
    conversation-IsRedacted ℕ blind (λ u. u) print adapter adapter state engine forward (staying [])
      (ok (text "1")) sent_call refl is_sent
