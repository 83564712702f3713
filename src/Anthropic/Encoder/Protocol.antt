-- ===== src/Anthropic/Encoder/Protocol.antt =====
-- The encoder keeps to the protocol: a client that follows the blocks never sees a part that does not
-- belong.
use mathlib.Core.Path.{subst}
use llmgate.Prelude.{
  ℕ, ◌+◌, ◌%◌, ◌^◌, ◌≡◌, ◌∙◌, refl, sym, ap, inl, inr, Bool, true, false, ◌&&◌, Option, none, some,
  List, [], ◌∷◌, ◌++◌, Text, arith, ◌==◌, if◌then◌else◌, not, eq_of_some, Option-cases, Bool-cases,
  any, is_empty,
}
use llmgate.Neutral.{NeutralStreamEvent}
use llmgate.Anthropic.Encoder.{
  BlockKind, Encoder, Block, Delta, Event, Step, new_encoder, take_signature, release_tool, without,
  close_block, ensure_block, open_tool, encode, is_current,
}

-- A client of the protocol: the index that the next block has, or the open one, and the open
-- block's kind.
pub record Client : Type 0 where
  pub index : ℕ
  pub open_block : Option BlockKind

abbrev kind_of : Block → BlockKind
kind_of Block.text_start = BlockKind.text_kind
kind_of Block.thinking_start = BlockKind.thinking_kind
kind_of (Block.tool_use_start id name) = BlockKind.tool_use_kind

-- Which parts a block takes.
abbrev takes : Option BlockKind → Delta → Bool
takes (some BlockKind.text_kind) (Delta.text_part t) = true
takes (some BlockKind.thinking_kind) (Delta.thinking_part t) = true
takes (some BlockKind.thinking_kind) (Delta.signature_part t) = true
takes (some BlockKind.tool_use_kind) (Delta.input_json_part t) = true
takes _ _ = false

abbrev is_open : Option BlockKind → Bool
is_open none = false
is_open (some kind) = true

-- The next state of the client, if it accepts the event: a block starts with none open and the next
-- index; a part goes to the open block, with its index and of its kind; the open block is closed
-- under its index; a message or an error ends with no block open.
unfoldable pub accept : Client → Event → Option Client
accept c (Event.message_start id model n) = some c
accept c (Event.block_start i block) =
    if not (is_open c.open_block) && (i == c.index)
    then some (record c { open_block = some (kind_of block) })
    else none
accept c (Event.block_delta i delta) =
    if takes c.open_block delta && (i == c.index) then some c else none
accept c (Event.block_stop i) =
    if is_open c.open_block && (i == c.index)
    then some (record { index = (c.index + 1) % 2 ^ 32; open_block = none })
    else none
accept c (Event.message_delta reason n) = if is_open c.open_block then none else some c
accept c Event.message_stop = if is_open c.open_block then none else some c
accept c (Event.error message) = if is_open c.open_block then none else some c

unfoldable pub accept_all : Client → List Event → Option Client
unfolding accept
accept_all c [] = some c
accept_all c (e ∷ es) = elim (accept c e) [ none ↦ none | some c' ↦ accept_all c' es ]

accept_all-append :
    (c c' : Client) (es es' : List Event)
    → accept_all c es ≡ some c'
    → accept_all c (es ++ es') ≡ accept_all c' es'
unfolding accept_all
accept_all-append c c' [] es' h = ap (λ d. accept_all d es') (eq_of_some h)
accept_all-append c c' (e ∷ es) es' h = elim (Option-cases (accept c e)) [
  | inl refused ↦ cc (rw (refused, accept_all) at h)
  | inr (d, accepted) ↦
      rw (accepted, accept_all) (accept_all-append d c' es es' (rw (accepted, accept_all) at h))
]

-- What the client knows of the encoder.
abbrev pub client_of : Encoder → Client
client_of e = record { index = e.block_index; open_block = e.current_block }

-- The neutral index of the open tool block is the only one that counts as open.
abbrev Tidy : Option BlockKind → Option ℕ → List ℕ → Type 0
Tidy (some BlockKind.tool_use_kind) o is = (i : ℕ) × (o ≡ some i) × (is ≡ i ∷ [])
Tidy _ o is = (o ≡ none) × (is ≡ [])

abbrev pub IsTidy : Encoder → Type 0
IsTidy e = Tidy e.current_block e.open_tool_index e.tool_blocks_open

-- What a step gives.
abbrev pub Follows : Encoder → Step → Type 0
Follows e (events, e') = (accept_all (client_of e) events ≡ some (client_of e')) × IsTidy e'

self : (n : ℕ) → (n == n) ≡ true
self n = ground arith

without_self : (i : ℕ) → without i (i ∷ []) ≡ []
unfolding without
without_self i = ground arith

abbrev encoder : ℕ → Option BlockKind → Bool → Option Text → List ℕ → Option ℕ → Encoder
encoder n kind started signature is o = record {
  block_index = n;
  current_block = kind;
  message_started = started;
  pending_signature = signature;
  tool_blocks_open = is;
  open_tool_index = o;
}

abbrev Closed : Encoder → Step → Type 0
Closed e (events, e') =
    (accept_all (client_of e) events ≡ some (client_of e'))
    × (e'.current_block ≡ none)
    × (e'.open_tool_index ≡ none)
    × (e'.tool_blocks_open ≡ [])

accept_all-stop :
    (n : ℕ) (kind : BlockKind)
    → accept_all (record { index = n; open_block = some kind }) (Event.block_stop n ∷ [])
      ≡ some (record { index = (n + 1) % 2 ^ 32; open_block = none })
unfolding accept_all accept
accept_all-stop n kind = rw (accept_all, accept, self n)

accept_all-signature :
    (n : ℕ) (s : Text)
    → accept_all
        (record { index = n; open_block = some BlockKind.thinking_kind })
        (Event.block_delta n (Delta.signature_part s) ∷ Event.block_stop n ∷ [])
      ≡ some (record { index = (n + 1) % 2 ^ 32; open_block = none })
unfolding accept_all accept
accept_all-signature n s =
    rw (accept_all, accept, self n) (accept_all-stop n BlockKind.thinking_kind)

close_fields-Closed :
    (n : ℕ) (kind : Option BlockKind) (started : Bool) (signature : Option Text) (is : List ℕ)
    (o : Option ℕ)
    → Tidy kind o is
    → Closed
        (encoder n kind started signature is o)
        (close_block (encoder n kind started signature is o))
unfolding close_block take_signature release_tool accept_all
close_fields-Closed n none started signature is o h = (refl, refl, h.0, h.1)
close_fields-Closed n (some BlockKind.text_kind) started signature is o h =
    (accept_all-stop n BlockKind.text_kind, refl, h.0, h.1)
close_fields-Closed n (some BlockKind.thinking_kind) started none is o h =
    (accept_all-stop n BlockKind.thinking_kind, refl, h.0, h.1)
close_fields-Closed n (some BlockKind.thinking_kind) started (some s) is o h =
    (accept_all-signature n s, refl, h.0, h.1)
close_fields-Closed n (some BlockKind.tool_use_kind) started signature is o (i, found, only) =
    subst (λ (js : List ℕ). Goal js o) (sym only)
      (subst (λ (p : Option ℕ). Goal (i ∷ []) p) (sym found)
        (accept_all-stop n BlockKind.tool_use_kind, refl, refl, without_self i))
  where
    Goal : List ℕ → Option ℕ → Type 0
    Goal js p =
        Closed (encoder n (some BlockKind.tool_use_kind) started signature js p)
          (close_block (encoder n (some BlockKind.tool_use_kind) started signature js p))

close_block-Closed : (e : Encoder) → IsTidy e → Closed e (close_block e)
close_block-Closed e h =
    close_fields-Closed e.block_index e.current_block e.message_started e.pending_signature
      e.tool_blocks_open e.open_tool_index h

-- Starting a block after the open one is closed.
accept_all-start :
    (e : Encoder) (r : Step) (block : Block)
    → Closed e r
    → accept_all (client_of e) (r.0 ++ Event.block_start r.1.block_index block ∷ [])
      ≡ some (record { index = r.1.block_index; open_block = some (kind_of block) })
unfolding accept_all accept
accept_all-start e r block (run, empty, released, none_open) =
    accept_all-append (client_of e) (client_of r.1) r.0 _ run
    ∙ rw (accept_all, accept, self r.1.block_index, empty)

-- A part for the open block.
accept_all-delta :
    (e : Encoder) (r : Step) (delta : Delta)
    → accept_all (client_of e) r.0 ≡ some (client_of r.1)
    → takes r.1.current_block delta ≡ true
    → accept_all (client_of e) (r.0 ++ Event.block_delta r.1.block_index delta ∷ [])
      ≡ some (client_of r.1)
unfolding accept_all accept
accept_all-delta e r delta run fits =
    accept_all-append (client_of e) (client_of r.1) r.0 _ run
    ∙ rw (accept_all, accept, self r.1.block_index, fits)

is_current_eq :
    (kind : BlockKind) (current : Option BlockKind)
    → is_current kind current ≡ true
    → current ≡ some kind
is_current_eq BlockKind.text_kind (some BlockKind.text_kind) h = refl
is_current_eq BlockKind.thinking_kind (some BlockKind.thinking_kind) h = refl
is_current_eq BlockKind.tool_use_kind (some BlockKind.tool_use_kind) h = refl
is_current_eq kind none h = cc
is_current_eq BlockKind.text_kind (some BlockKind.thinking_kind) h = cc
is_current_eq BlockKind.text_kind (some BlockKind.tool_use_kind) h = cc
is_current_eq BlockKind.thinking_kind (some BlockKind.text_kind) h = cc
is_current_eq BlockKind.thinking_kind (some BlockKind.tool_use_kind) h = cc
is_current_eq BlockKind.tool_use_kind (some BlockKind.text_kind) h = cc
is_current_eq BlockKind.tool_use_kind (some BlockKind.thinking_kind) h = cc

-- The block of the kind is open, and the client knows it.
abbrev Ensured : BlockKind → Encoder → Step → Type 0
Ensured kind e (events, e') =
    (accept_all (client_of e) events ≡ some (client_of e'))
    × IsTidy e'
    × (e'.current_block ≡ some kind)

ensure_text-Ensured :
    (e : Encoder) → IsTidy e → Ensured BlockKind.text_kind e (ensure_block BlockKind.text_kind e)
unfolding ensure_block accept_all
ensure_text-Ensured e h = elim (Bool-cases (is_current BlockKind.text_kind e.current_block)) [
  | inl same ↦ rw same (refl, h, is_current_eq BlockKind.text_kind e.current_block same)
  | inr other ↦
      let closed = close_block-Closed e h in
      rw other
        (accept_all-start e (close_block e) Block.text_start closed, (closed.2, closed.3), refl)
]

ensure_thinking-Ensured :
    (e : Encoder)
    → IsTidy e
    → Ensured BlockKind.thinking_kind e (ensure_block BlockKind.thinking_kind e)
unfolding ensure_block accept_all
ensure_thinking-Ensured e h =
    elim (Bool-cases (is_current BlockKind.thinking_kind e.current_block)) [
      | inl same ↦ rw same (refl, h, is_current_eq BlockKind.thinking_kind e.current_block same)
      | inr other ↦
          let closed = close_block-Closed e h in
          rw other (
            accept_all-start e (close_block e) Block.thinking_start closed,
            (closed.2, closed.3),
            refl,
          )
    ]

tool_is_open :
    (index : ℕ) (kind : Option BlockKind) (o : Option ℕ) (is : List ℕ)
    → Tidy kind o is
    → any (λ i. i == index) is ≡ true
    → kind ≡ some BlockKind.tool_use_kind
tool_is_open index none o is h hit = cc (ap (any (λ i. i == index)) h.1, hit)
tool_is_open index (some BlockKind.text_kind) o is h hit = cc (ap (any (λ i. i == index)) h.1, hit)
tool_is_open index (some BlockKind.thinking_kind) o is h hit =
    cc (ap (any (λ i. i == index)) h.1, hit)
tool_is_open index (some BlockKind.tool_use_kind) o is h hit = refl

open_tool-Ensured :
    (index : ℕ) (id name : Text) (e : Encoder)
    → IsTidy e
    → Ensured BlockKind.tool_use_kind e (open_tool index id name e)
unfolding open_tool accept_all
open_tool-Ensured index id name e h = elim (Bool-cases (any (λ i. i == index) e.tool_blocks_open)) [
  | inl known ↦
      rw known
        (refl, h, tool_is_open index e.current_block e.open_tool_index e.tool_blocks_open h known)
  | inr new ↦
      let closed = close_block-Closed e h in
      rw new (
        accept_all-start e (close_block e) (Block.tool_use_start id name) closed,
        (index, refl, ap (λ (is : List ℕ). index ∷ is) closed.3),
        refl,
      )
]

-- A part behind what ensures its block.
part-Follows :
    (kind : BlockKind) (delta : Delta) (e : Encoder) (r : Step)
    → takes (some kind) delta ≡ true
    → Ensured kind e r
    → Follows e (r.0 ++ Event.block_delta r.1.block_index delta ∷ [], r.1)
part-Follows kind delta e r fits (run, tidy, current) =
    (accept_all-delta e r delta run (ap (λ k. takes k delta) current ∙ fits), tidy)

IsTidy-of_Closed : (e : Encoder) (r : Step) → Closed e r → IsTidy r.1
IsTidy-of_Closed e r (run, empty, released, none_open) =
    subst (λ (k : Option BlockKind). Tidy k r.1.open_tool_index r.1.tool_blocks_open) (sym empty)
      (released, none_open)

-- What ends a message, once the block is closed.
ending-Follows :
    (e : Encoder) (r : Step) (last : List Event)
    → Closed e r
    → accept_all (client_of r.1) last ≡ some (client_of r.1)
    → Follows e (r.0 ++ last, r.1)
ending-Follows e r last closed ends = (
  accept_all-append (client_of e) (client_of r.1) r.0 last closed.0 ∙ ends,
  IsTidy-of_Closed e r closed,
)

-- One neutral event.
encode-Follows : (e : Encoder) (event : NeutralStreamEvent) → IsTidy e → Follows e (encode e event)
unfolding encode accept_all accept
encode-Follows e (NeutralStreamEvent.message_start id model usage) h = (refl, h)
encode-Follows e (NeutralStreamEvent.text_delta t) h =
    part-Follows BlockKind.text_kind (Delta.text_part t) e (ensure_block BlockKind.text_kind e) refl
      (ensure_text-Ensured e h)
encode-Follows e (NeutralStreamEvent.reasoning_delta t) h =
    part-Follows BlockKind.thinking_kind (Delta.thinking_part t) e
      (ensure_block BlockKind.thinking_kind e) refl (ensure_thinking-Ensured e h)
encode-Follows e (NeutralStreamEvent.reasoning_signature signature) h = (refl, h)
encode-Follows e (NeutralStreamEvent.tool_call_delta index id name arguments) h =
    let ensured = open_tool-Ensured index id name e h in
    elim (Bool-cases (is_empty arguments)) [
      | inl none_yet ↦ rw none_yet (ensured.0, ensured.1)
      | inr more ↦ rw more (
          part-Follows BlockKind.tool_use_kind (Delta.input_json_part arguments) e
            (open_tool index id name e) refl ensured)
    ]
encode-Follows e (NeutralStreamEvent.message_stop reason usage) h =
    let closed = close_block-Closed e h in
    ending-Follows e (close_block e) _ closed (rw (accept_all, accept, closed.1))
encode-Follows e (NeutralStreamEvent.error err) h =
    let closed = close_block-Closed e h in
    ending-Follows e (close_block e) _ closed (rw (accept_all, accept, closed.1))

-- A whole stream of neutral events.
abbrev pub encode_all : Encoder → List NeutralStreamEvent → Step
encode_all e [] = ([], e)
encode_all e (event ∷ events) =
    let (here, e') = encode e event in
    let (later, e'') = encode_all e' events in (here ++ later, e'')

encode_all-Follows :
    (e : Encoder) (events : List NeutralStreamEvent) → IsTidy e → Follows e (encode_all e events)
unfolding accept_all
encode_all-Follows e [] h = (refl, h)
encode_all-Follows e (event ∷ events) h =
    let here = encode-Follows e event h in
    let later = encode_all-Follows (encode e event).1 events here.1 in
    (
      accept_all-append (client_of e) (client_of (encode e event).1) (encode e event).0 _ here.0
          ∙ later.0,
      later.1,
    )

-- Whatever neutral events an upstream's stream is decoded to, in whatever order, a client accepts
-- what the encoder writes for them: each block starts with no other open and under the next index,
-- each part carries the index of the open block and is of its kind, a thinking block's signature
-- included, each block is closed under its index, and a message ends, or an error is reported, with
-- every block closed. The client's state is then the encoder's.
pub accept_all-encode_all :
    (events : List NeutralStreamEvent)
    → accept_all (client_of new_encoder) (encode_all new_encoder events).0
      ≡ some (client_of (encode_all new_encoder events).1)
accept_all-encode_all events = (encode_all-Follows new_encoder events (refl, refl)).0
