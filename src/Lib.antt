-- ===== src/Lib.antt =====
-- llmgate is a gateway between LLM protocols. A client speaks one protocol (OpenAI, Anthropic, Gemini), an
-- upstream another. An adapter turns a request into the neutral model and the neutral answer back; the
-- privacy guard replaces sensitive values of the request by tokens and puts them back into the answer; the
-- framing cuts an upstream's byte stream into events, which a decoder turns into neutral events and an
-- encoder into the client's.
--
-- What models what:
--   Resolver.antt            src/resolver.rs: ModelResolver::resolve and strip_prefix (strip_longest).
--   Neutral.antt             src/core/neutral.rs, src/core/error.rs: requests, responses, events, errors.
--   Privacy/Template.antt    src/core/privacy.rs: validate_template, template_prefix, digit_suffix_collides.
--   Privacy/Engine.antt      the same file: PrivacyConfig, RedactionEngine::new (new) and is_allowed.
--   Privacy/Vault.antt       the same file: Vault and RedactionSession::token_for.
--   Privacy/Session.antt     the same file: redact_text, restore_text, with_automaton, lookup.
--   Privacy/Request.antt     the same file: redact_request, redact_json, restore_response, restore_json.
--   Privacy/Stream.antt      the same file: RestoreStream and StreamRestorer.
--   Privacy/Search.antt      the crates regex and aho_corasick, as interfaces with the laws relied on.
--   Sse.antt, Sse/Utf8.antt  src/core/sse.rs: SseFraming::push and finish, and the UTF-8 checks it calls.
--   Json.antt                what the adapters use of serde_json::Value.
--   Upstream.antt            what a payload of an upstream is, whatever a decoder makes of it.
--   Anthropic/Decoder.antt   src/adapters/anthropic/stream.rs: AnthropicStreamDecoder.
--   Anthropic/Encoder.antt   the same file: AnthropicStreamEncoder.
--   Openai/Decoder.antt      src/adapters/openai/stream.rs: OpenAiStreamDecoder.
--   Openai/Encoder.antt      the same file: OpenAiStreamEncoder.
--   Gemini/Decoder.antt      src/adapters/gemini/stream.rs: GeminiStreamDecoder.
--   Gemini/Encoder.antt      the same file: GeminiStreamEncoder.
--   Auth.antt                src/auth.rs: require_auth, extract_key, ct_eq, strip_credential_headers.
--   Registry.antt            src/core/registry.rs: the traits ProtocolAdapter, StreamDecoder, StreamEncoder.
--   Pipeline/Channel.antt    src/core/pipeline.rs: the channel to the client and send_lines.
--   Pipeline/Relay.antt      the same file: process_payload and the task of handle_streaming_response.
--   Pipeline/JsonStream.antt the same file: handle_json_as_stream and response_to_events.
--   Pipeline/Conversation.antt  the same file: handle_conversation and read_upstream_text.
--   Memory.antt              src/core/memory.rs: the actor, its ledger, insert_one and sweep.
--   Config.antt              src/config.rs: Config::validate.
-- The files below these hold the proofs, the files named Tests the runs and the theorems at them.
--
-- Text is a list of bytes. A hash map is an association list with its keys once each, in Prelude/Map.antt.
-- State that the source mutates is passed along: each operation returns its result and the new state. The
-- mutex of a vault and the lock of an automaton guard the state of one request, so they leave no trace
-- here; what other threads do between two calls is a longer history of the same session. Loops over bytes,
-- matches, rules and events are structural recursion; the loop of RestoreStream::feed runs on the length
-- of its buffer and one more, since each round takes a byte at least. Numbers are natural; a u64 count and
-- a u32 block index wrap around as written out in their definitions, and the sizes stay within the caps
-- (4096 tokens, 64 MiB). JSON objects are sorted by their keys, as serde_json keeps them.
--
-- Parameters: the HTTP client, the database of the store, the clock, the header map, the compilation and
-- the matches of a regex, the Aho-Corasick search, the JSON parser and printer. Privacy/Tests/Naive.antt
-- shows that the laws assumed of the two searches can be met.
--
-- Not modelled: the registry's map of adapters, the listing of models and the counting of tokens, the
-- parsing of the configuration file, the conversions of requests and responses, and the HTTP server, which
-- is I/O.
pub mod Prelude
pub mod Resolver
pub mod Neutral
pub mod Privacy
pub mod Sse
pub mod Json
pub mod Events
pub mod Upstream
pub mod Anthropic
pub mod Openai
pub mod Gemini
pub mod Pipeline
pub mod Registry
pub mod Auth
pub mod Memory
pub mod Config
