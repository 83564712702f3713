-- ===== src/Privacy/Tests.antt =====
-- Runs of the privacy guard, and the theorems at them.
mod Naive
use mathlib.Core.Path.{subst}
use mathlib.Core.List.{Memᴰ}
use llmgate.Prelude.{
  ℕ, ◌≤◌, ◌<◌, ◌≡◌, refl, ap, ◌≢◌, ◌↔◌, Bool, true, false, Option, none, some, List, [], ◌∷◌, Text,
  text, text_eq, length, arith, All,
}
use llmgate.Prelude.Map
use llmgate.Prelude.Strings.{starts_with, strip_prefix, strip_suffix, ends_with, count, replace}
use llmgate.Prelude.Decimal.{decimal}
use llmgate.Prelude.Trim.{trim}
use llmgate.Prelude.Outcome.{Result, ok, err}
use llmgate.Privacy.Search.{Regex, AhoCorasick, IsLeftmost, Occurs}
use llmgate.Privacy.Template.{
  validate_template, template_prefix, digit_suffix_collides, render, bad_start, bad_end, bad_slot,
  bad_name,
}
use llmgate.Privacy.Template.Grammar.{IsName, template_of, token_of, validate_template_iff}
use llmgate.Privacy.Template.Namespace.{Collide, digit_suffix_collides_iff}
use llmgate.Privacy.Engine.{
  PrivacyConfig, RuleConfig, CompiledRule, RedactionEngine, new, rule, default_config, is_allowed,
}
use llmgate.Privacy.Engine.Valid
use llmgate.Privacy.Engine.Valid.{new-IsValid}
use llmgate.Privacy.Vault.{
  Vault, TokenError, empty_vault, max_session_tokens, cap_reached, collision, counter, store, mint,
  token_for,
}
use llmgate.Privacy.Vault.Valid.{
  original_of, IsValid, Grows, Grows-refl, IsMinted, IsValid-empty_vault, token_for-IsMinted,
}
use llmgate.Privacy.Vault.Fresh.{
  IsTracked, IsTracked-empty_vault, token_for-IsTracked, token_for_error, length-token-le,
}
use llmgate.Privacy.Session.{
  Session, new_session, redact_text, restore_text, with_automaton, lookup, original_or,
}
use llmgate.Privacy.Session.Automaton.{tokens_of}
use llmgate.Privacy.Session.Reached.{Reached}
use llmgate.Privacy.Session.Restore.{Unmentioned}
use llmgate.Privacy.Session.Redact.{IsSound}
use llmgate.Privacy.Session.RoundTrip.{
  IsRule, IsSound-new_session, redact_text-Grows, restore_text-redact_text,
}
use llmgate.Neutral.{
  Value, Items, Fields, ContentBlock, NeutralRole, NeutralMessage, NeutralResponse, FinishReason,
}
use llmgate.Privacy.Request.{
  redact_json, redact_block, redact_blocks, redact_message, restore_response,
}
use llmgate.Privacy.Request.RoundTrip.{
  UnmentionedJson, UnmentionedBlocks, redact_message-Grows, restore_response-redact_message,
}
use llmgate.Privacy.Stream.{RestoreStream, with_mode, drain_tokens, feed}
use llmgate.Privacy.Stream.Fuel.{drain_tokens-fuel}
use llmgate.Privacy.Stream.Held.{MayOpen, feed-Held}
use Naive.{
  pattern_at, find_from, iter_fuel, naive, naive-IsLeftmost, digit_spans, digit_regex,
  digit_regex-IsIterator,
}

-- What a run unfolds.
guard : Unit {0}
unfolding validate_template template_prefix digit_suffix_collides render is_allowed token_for
    counter store mint redact_text restore_text with_automaton lookup original_or Map.get Map.insert
    text_eq starts_with strip_prefix strip_suffix ends_with count replace decimal trim new
    pattern_at find_from iter_fuel digit_spans redact_json redact_block redact_blocks redact_message
    UnmentionedJson
guard = tt

abbrev every : Text → Option Regex
every pattern = some digit_regex

-- One rule, which takes each digit.
abbrev config : PrivacyConfig
config = record {
  enabled = true;
  vault = text "memory";
  rules = rule (text "digit") (text "[0-9]") (text "<D_{n}>") ∷ [];
  allow_list = record { domains = []; patterns = [] };
}

abbrev digit_rule : CompiledRule
digit_rule = record { name = text "digit"; regex = digit_regex; template = text "<D_{n}>" }

abbrev engine : RedactionEngine
engine = record {
  rules = digit_rule ∷ [];
  allow_domains = [];
  allow_patterns = [];
  max_token_len = 16;
}

built : new every config ≡ ok engine
unfolding guard
built = refl

abbrev after : Session
after = (redact_text naive engine (text "a7b7c3") new_session).1

redacted :
    redact_text naive engine (text "a7b7c3") new_session ≡ (ok (text "a<D_1>b<D_1>c<D_2>"), after)
unfolding guard
redacted = refl

templates :
    (validate_template (text "<CRED_{n}>") ≡ none)
    × (validate_template (text "CRED_{n}>") ≡ some bad_start)
    × (validate_template (text "<CRED_{n}") ≡ some bad_end)
    × (validate_template (text "<{n}CRED>") ≡ some bad_slot)
    × (validate_template (text "<CRED-{n}>") ≡ some bad_name)
unfolding guard
templates = (refl, refl, refl, refl, refl)

engine-IsValid : Valid.IsValid engine
engine-IsValid = new-IsValid every config engine built

new-IsValid_example : Valid.IsValid engine
new-IsValid_example = new-IsValid every config engine built

validate_template_iff_example :
    (validate_template (text "<CRED_{n}>") ≡ none)
    ↔ ((name : Text) × IsName name × (text "<CRED_{n}>" ≡ template_of name))
validate_template_iff_example = validate_template_iff (text "<CRED_{n}>")

ne_names : text "X_" ≢ text "X_1"
ne_names e = cc

digit_suffix_collides_iff_example :
    (digit_suffix_collides (text "X_") (text "X_1") ≡ true) ↔ Collide (text "X_") (text "X_1")
digit_suffix_collides_iff_example = digit_suffix_collides_iff (text "X_") (text "X_1") ne_names

template_of_rule : Valid.IsTemplate digit_rule.template
template_of_rule = engine-IsValid.templates.0

abbrev minted : Vault
minted = (token_for empty_vault digit_rule (text "7")).1

first_token : token_for empty_vault digit_rule (text "7") ≡ (ok (text "<D_1>"), minted)
unfolding guard
first_token = refl

token_for-IsMinted_example : IsMinted empty_vault (text "7") (text "<D_1>") minted
token_for-IsMinted_example =
    token_for-IsMinted empty_vault minted digit_rule (text "7") (text "<D_1>") template_of_rule
      IsValid-empty_vault first_token

token_for-IsTracked_example : IsTracked engine.rules minted
token_for-IsTracked_example =
    token_for-IsTracked engine engine-IsValid empty_vault (IsTracked-empty_vault engine.rules)
      digit_rule (Memᴰ.head refl) (text "7")

length-token-le_example : length (text "<D_1>") ≤ 16
unfolding guard
length-token-le_example =
    length-token-le engine minted (text "<D_1>") (text "7") engine-IsValid
      token_for-IsTracked_example (omega arith) refl

-- A session that has cached an automaton over one token and then minted another.
abbrev cached : Session
cached = (with_automaton (redact_text naive engine (text "a7b") new_session).1).1

abbrev outdated : Session
outdated = record cached { vault = (token_for cached.vault digit_rule (text "9")).1 }

outdated_cache : outdated.automaton ≡ some (1, text "<D_1>" ∷ [])
unfolding guard
outdated_cache = refl

outdated_vault : tokens_of outdated.vault ≡ text "<D_1>" ∷ text "<D_2>" ∷ []
unfolding guard
outdated_vault = refl

rules : All IsRule engine.rules
rules = (record { template = template_of_rule; iterator = digit_regex-IsIterator }, tt)

after-IsSound : IsSound after × Grows empty_vault after.vault
after-IsSound =
    redact_text-Grows naive naive-IsLeftmost engine rules (text "a7b7c3")
      (text "a<D_1>b<D_1>c<D_2>") new_session after IsSound-new_session redacted

not_mentioned : Unmentioned after.vault (text "a7b7c3")
unfolding guard
not_mentioned = naive-IsLeftmost.find_none (text "<D_1>" ∷ text "<D_2>" ∷ []) (text "a7b7c3") refl

restore_text-redact_text_example :
    (restore_text naive (text "a<D_1>b<D_1>c<D_2>") after).0 ≡ text "a7b7c3"
restore_text-redact_text_example =
    restore_text-redact_text naive naive-IsLeftmost engine rules (text "a7b7c3")
      (text "a<D_1>b<D_1>c<D_2>") new_session after after IsSound-new_session redacted
      after-IsSound.0 (Grows-refl after.vault) not_mentioned

-- A text, and a tool call with a number of a person in its JSON.
abbrev message_with : Text → Text → NeutralMessage
message_with spoken argument = record {
  role = NeutralRole.assistant;
  content =
      ContentBlock.text_block spoken
      ∷ ContentBlock.tool_use (text "t") (text "call")
          (Value.object (Fields.field (text "7") (Value.string argument) Fields.end))
      ∷ [];
}

abbrev sent : Session
sent = (redact_message naive engine (message_with (text "a7") (text "7c3")) new_session).1

redacted_message :
    redact_message naive engine (message_with (text "a7") (text "7c3")) new_session
    ≡ (ok (message_with (text "a<D_1>") (text "<D_1>c<D_2>")), sent)
unfolding guard
redacted_message = refl

abbrev answer : NeutralResponse
answer = record {
  id = [];
  model = [];
  content = (message_with (text "a<D_1>") (text "<D_1>c<D_2>")).content;
  finish_reason = FinishReason.tool_calls;
  usage = none;
}

sent-IsSound : IsSound sent
sent-IsSound =
    (redact_message-Grows naive naive-IsLeftmost engine rules
      (message_with (text "a7") (text "7c3")) (message_with (text "a<D_1>") (text "<D_1>c<D_2>"))
      new_session sent IsSound-new_session redacted_message).0

not_mentioned_in_message :
    UnmentionedBlocks sent.vault (message_with (text "a7") (text "7c3")).content
unfolding guard
not_mentioned_in_message = (
  naive-IsLeftmost.find_none (text "<D_1>" ∷ text "<D_2>" ∷ []) (text "a7") refl,
  ((naive-IsLeftmost.find_none (text "<D_1>" ∷ text "<D_2>" ∷ []) (text "7c3") refl, tt), tt),
)

restore_response-redact_message_example :
    (restore_response naive answer sent).0.content ≡ (message_with (text "a7") (text "7c3")).content
restore_response-redact_message_example =
    restore_response-redact_message naive naive-IsLeftmost engine rules
      (message_with (text "a7") (text "7c3")) (message_with (text "a<D_1>") (text "<D_1>c<D_2>"))
      answer new_session sent sent IsSound-new_session redacted_message refl sent-IsSound
      (Grows-refl sent.vault) not_mentioned_in_message

-- The first part of a token is held back.
abbrev fed : Text × RestoreStream × Session
fed = feed naive (λ t. t) (with_mode engine false) (text "x<D_1>y<D_") after

feed-Held_example :
    Unmentioned after.vault fed.1.buffer
    × MayOpen fed.1.buffer
    × IsSound fed.2
    × (fed.2.vault ≡ after.vault)
feed-Held_example =
    feed-Held naive (λ t. t) naive-IsLeftmost (with_mode engine false) (text "x<D_1>y<D_") after
      after-IsSound.0

drain_tokens-fuel_example :
    drain_tokens naive (λ t. t) 8 false (text "x<D_1>y") [] after
    ≡ drain_tokens naive (λ t. t) 100 false (text "x<D_1>y") [] after
drain_tokens-fuel_example =
    drain_tokens-fuel naive (λ t. t) naive-IsLeftmost 8 100 false (text "x<D_1>y") [] after
      after-IsSound.0 (omega arith) (omega arith)
