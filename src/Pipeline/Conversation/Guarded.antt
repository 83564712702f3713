-- ===== src/Pipeline/Conversation/Guarded.antt =====
-- With the privacy guard on, nothing but a redacted request is sent upstream.
use mathlib.Core.Path.{subst}
use llmgate.Prelude.{◌≡◌, ◌∙◌, refl, sym, ap, Option, some, Text, eq_of_some}
use llmgate.Prelude.Outcome.{Result, ok, err, ◌>>=◌, >>=-eq-ok, ok-injective}
use llmgate.Neutral.{Value, NeutralRequest, AdapterError}
use llmgate.Resolver.{resolve}
use llmgate.Privacy.Search.{AhoCorasick}
use llmgate.Privacy.Engine.{RedactionEngine}
use llmgate.Privacy.Vault.{TokenError}
use llmgate.Privacy.Session.{Session, new_session}
use llmgate.Privacy.Request.{redact_request}
use llmgate.Registry.{ProtocolAdapter}
use llmgate.Pipeline.Channel.{Channel}
use llmgate.Pipeline.Conversation.{
  AppState, Call, UpstreamResponse, Outcome, Prepared, redacted, guard, prepare, url_of, carry_out,
  handle_conversation,
}

module _ (F : Type 0) (ac : AhoCorasick) where
  -- What a redaction that succeeded was.
  redacted-ok :
      (r : Result TokenError (NeutralRequest F) × Session) (out : NeutralRequest F × Option Session)
      → redacted F ac r ≡ ok out
      → (s : Session) × (r ≡ (ok out.0, s))
  redacted-ok (ok req, s) out h =
      (s, ap (λ (o : NeutralRequest F × Option Session). (ok o.0, s)) (ok-injective h))
  redacted-ok (err e, s) out h = cc h

  module _ (to_string : Text → Text) (print : Value → Text) {D : Type 0} {E : Type 0} {D' : Type 0}
      {E' : Type 0} (client : ProtocolAdapter F D E) (upstream : ProtocolAdapter F D' E')
      (state : AppState) (engine : RedactionEngine) (forward : Call → Result Text UpstreamResponse)
      (channel : Channel) where
    -- The request with the model that the upstream knows.
    abbrev pub resolved : NeutralRequest F → NeutralRequest F
    resolved req = record req { model = resolve state.resolver req.model }

    -- That a body was written from a request that had been redacted.
    pub record IsRedacted (req : NeutralRequest F) (body : Text) : Type 0 where
      pub clean : NeutralRequest F
      pub session : Session
      pub redaction : redact_request ac engine F (resolved req) new_session ≡ (ok clean, session)
      pub written : upstream.serialize_request clean ≡ ok body

    prepare-IsRedacted :
        (req : NeutralRequest F) (prepared : Prepared)
        → state.privacy ≡ some engine
        → prepare F ac upstream state req ≡ ok prepared
        → IsRedacted req prepared.call.body
    unfolding prepare guard
    prepare-IsRedacted req prepared on h =
        let (guarded, passed, rest) = >>=-eq-ok (guard F ac state.privacy (resolved req)) _ h in
        let (body, written, rest') = >>=-eq-ok (upstream.serialize_request guarded.0) _ rest in
        let (url, found, done) = >>=-eq-ok (url_of F ac upstream state guarded.0) _ rest' in
        let clean =
          redacted-ok (redact_request ac engine F (resolved req) new_session) guarded
            (ap (λ p. guard F ac p (resolved req)) (sym on) ∙ passed) in
        record {
          clean = guarded.0;
          session = clean.0;
          redaction = clean.1;
          written = written ∙ ap (λ (p : Prepared). ok p.call.body) (ok-injective done);
        }

    carried_out :
        (r : Result AdapterError Prepared) (call : Call)
        → (carry_out F ac to_string print client upstream state forward channel r).sent ≡ some call
        → (prepared : Prepared) × (r ≡ ok prepared) × (prepared.call ≡ call)
    carried_out (err e) call sent = cc sent
    carried_out (ok prepared) call sent = (prepared, refl, eq_of_some sent)

    abbrev pub conversation : Result AdapterError Text → Outcome
    conversation body =
        handle_conversation F ac to_string print client upstream state forward channel body

    -- With the guard on, what is sent upstream is written from a request that has been redacted: the
    -- client's, parsed, with its model resolved.
    pub conversation-IsRedacted :
        (body : Result AdapterError Text) (call : Call)
        → state.privacy ≡ some engine
        → (conversation body).sent ≡ some call
        → (req : NeutralRequest F) × (body >>= client.parse_request ≡ ok req)
          × IsRedacted req call.body
    unfolding handle_conversation
    conversation-IsRedacted body call on sent =
        let chain = body >>= client.parse_request >>= prepare F ac upstream state in
        let (prepared, fine, same) = carried_out chain call sent in
        let (req, parsed, ready) = >>=-eq-ok (body >>= client.parse_request) _ fine in
        (
          req,
          parsed,
          subst (λ (c : Call). IsRedacted req c.body) same
              (prepare-IsRedacted req prepared on ready),
        )
