-- ===== src/Pipeline/Relay/Gone.antt =====
-- A client that goes while the stream runs.
use llmgate.Prelude.{◌≡◌, refl, Bool, true, false, none, some, List, [], ◌∷◌, if◌then◌else◌}
use llmgate.Sse.{push}
use llmgate.Pipeline.Channel.{Channel}
use llmgate.Pipeline.Relay.{
  Stages, Restorer, Loop, Input, on_payloads, run, conclude, start_loop, relay_stream,
}

module _ {D : Type 0} {E : Type 0} (st : Stages D E) where
  -- What a chunk leads to.
  abbrev either : Bool → Loop D E → Loop D E → Loop D E
  either going rest l = if going then rest else l

  either-client_gone :
      (going : Bool) (rest l : Loop D E)
      → l.client_gone ≡ false
      → (rest.client_gone ≡ true → rest.relay.channel.left ≡ some 0)
      → (either going rest l).client_gone ≡ true
      → (either going rest l).relay.channel.left ≡ some 0
  either-client_gone true rest l there later gone = later gone
  either-client_gone false rest l there later gone = cc

  run-client_gone :
      (inputs : List Input) (l : Loop D E)
      → l.client_gone ≡ false
      → (run st inputs l).client_gone ≡ true
      → (run st inputs l).relay.channel.left ≡ some 0
  unfolding run
  run-client_gone [] l there gone = cc
  run-client_gone (Input.closed ∷ inputs) l there gone = refl
  run-client_gone (Input.failed ∷ inputs) l there gone = cc
  run-client_gone (Input.timed_out ∷ inputs) l there gone = cc
  run-client_gone (Input.bytes chunk ∷ inputs) l there gone =
      let framed = push l.framing chunk in
      let fed = on_payloads st framed.0 l.relay in
      let l' : Loop D E = record l { relay = fed.1; framing = framed.1 } in
      either-client_gone fed.0 (run st inputs l') l' there (run-client_gone inputs l' there) gone

  -- A stream during which the loop sees the client go is not recorded at all: neither as an error,
  -- as the record's status has it, nor otherwise.
  pub relay_stream-client_gone :
      (restorer : Restorer) (channel : Channel) (inputs : List Input)
      → (run st inputs (start_loop st restorer channel)).client_gone ≡ true
      → (relay_stream st restorer channel inputs).1 ≡ none
  unfolding relay_stream conclude
  relay_stream-client_gone restorer channel inputs gone =
      rw (run-client_gone inputs (start_loop st restorer channel) refl gone) refl
