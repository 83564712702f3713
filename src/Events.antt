-- ===== src/Events.antt =====
-- Streams of neutral events: what the theorems about decoders and encoders count.
use mathlib.Core.Path.{subst}
use llmgate.Prelude.{ℕ, ◌+◌, ◌≡◌, refl, sym, ap, Bool, List, [], ◌∷◌, ◌++◌, arith, if◌then◌else◌}
use llmgate.Neutral.{NeutralStreamEvent}

abbrev pub is_stop : NeutralStreamEvent → ℕ
is_stop (NeutralStreamEvent.message_stop reason usage) = 1
is_stop _ = 0

-- How many stops are among the events.
abbrev pub stops : List NeutralStreamEvent → ℕ
stops [] = 0
stops (e ∷ es) = is_stop e + stops es

pub stops-append : (es es' : List NeutralStreamEvent) → stops (es ++ es') ≡ stops es + stops es'
stops-append [] es' = omega arith
stops-append (e ∷ es) es' = omega (arith, stops-append es es')

abbrev pub is_start : NeutralStreamEvent → ℕ
is_start (NeutralStreamEvent.message_start id model usage) = 1
is_start _ = 0

-- How many starts are among the events.
abbrev pub starts : List NeutralStreamEvent → ℕ
starts [] = 0
starts (e ∷ es) = is_start e + starts es

pub starts-append : (es es' : List NeutralStreamEvent) → starts (es ++ es') ≡ starts es + starts es'
starts-append [] es' = omega arith
starts-append (e ∷ es) es' = omega (arith, starts-append es es')

abbrev pub one_if : Bool → ℕ
one_if b = if b then 1 else 0

-- The indices of the tool calls.
abbrev pub call_indices : List NeutralStreamEvent → List ℕ
call_indices [] = []
call_indices (NeutralStreamEvent.tool_call_delta index id name arguments ∷ es) =
    index ∷ call_indices es
call_indices (_ ∷ es) = call_indices es

pub call_indices-append :
    (es es' : List NeutralStreamEvent)
    → call_indices (es ++ es') ≡ call_indices es ++ call_indices es'
call_indices-append [] es' = refl
call_indices-append (NeutralStreamEvent.tool_call_delta index id name arguments ∷ es) es' =
    ap (λ l. index ∷ l) (call_indices-append es es')
call_indices-append (NeutralStreamEvent.message_start id model usage ∷ es) es' =
    call_indices-append es es'
call_indices-append (NeutralStreamEvent.text_delta t ∷ es) es' = call_indices-append es es'
call_indices-append (NeutralStreamEvent.reasoning_delta t ∷ es) es' = call_indices-append es es'
call_indices-append (NeutralStreamEvent.reasoning_signature t ∷ es) es' = call_indices-append es es'
call_indices-append (NeutralStreamEvent.message_stop reason usage ∷ es) es' =
    call_indices-append es es'
call_indices-append (NeutralStreamEvent.error err ∷ es) es' = call_indices-append es es'

-- The numbers that stand in a list, each the one before and one more.
abbrev pub Counts : ℕ → ℕ → List ℕ → Type 0
Counts at end [] = at ≡ end
Counts at end (i ∷ is) = (i ≡ at) × Counts (at + 1) end is

pub Counts-append :
    (at mid end : ℕ) (is js : List ℕ)
    → Counts at mid is
    → Counts mid end js
    → Counts at end (is ++ js)
Counts-append at mid end [] js e h = subst (λ n. Counts n end js) (sym e) h
Counts-append at mid end (i ∷ is) js (here, later) h =
    (here, Counts-append (at + 1) mid end is js later h)
