-- ===== src/Memory/Ledger.antt =====
-- What a sweep forgets.
use mathlib.Core.Path.{subst}
use llmgate.Prelude.{
  ℕ, ◌-◌, ◌≤◌, ◌<◌, ◌≡◌, ◌⊎◌, ◌∙◌, refl, sym, ap, Bool, true, false, Bool-cases, inl, inr, none,
  some, List, [], ◌∷◌, ◌++◌, Text, All, All-append, All_mono, ltb, arith, if◌then◌else◌,
}
use llmgate.Neutral.{Value}
use llmgate.Memory.{
  RequestRecord, Database, Ledger, pop_expired, forget_plan, no_ids, no_ledger, Actor, Event,
  started, execute_text, sweep, insert_one, note_inserted, checkpoint, sweep_at, on_event,
}

-- The entries that have not expired, and the ids of those that have.
abbrev pub kept : ℕ → Ledger → Ledger
kept cutoff [] = []
kept cutoff ((id, ts) ∷ ledger) =
    let rest = kept cutoff ledger in if ltb ts cutoff then rest else (id, ts) ∷ rest

abbrev pub expired : ℕ → Ledger → List Text
expired cutoff [] = []
expired cutoff ((id, ts) ∷ ledger) =
    let rest = expired cutoff ledger in if ltb ts cutoff then id ∷ rest else rest

-- Times that do not decrease, from a bound on.
abbrev Rising : ℕ → Ledger → Type 0
Rising low [] = Unit
Rising low ((id, ts) ∷ ledger) = (low ≤ ts) × Rising ts ledger

-- The ledger is in the order of its times, which are past.
record IsOrdered (now : ℕ) (ledger : Ledger) : Type 0 where
  rising : Rising 0 ledger
  past : All (λ entry. entry.1 ≤ now) ledger

none_expired :
    (cutoff low : ℕ) (ledger : Ledger)
    → Rising low ledger
    → cutoff ≤ low
    → (kept cutoff ledger ≡ ledger) × (expired cutoff ledger ≡ [])
none_expired cutoff low [] rising late = (refl, refl)
none_expired cutoff low ((id, ts) ∷ ledger) (here, later) late =
    let rest = none_expired cutoff ts ledger later (omega arith) in
    let fresh : ltb ts cutoff ≡ false = ground arith in
    (rw fresh (ap (λ l. (id, ts) ∷ l) rest.0), rw fresh rest.1)

-- On a ledger in order, the front is all that has expired.
pop_expired-kept :
    (cutoff low : ℕ) (ledger : Ledger)
    → Rising low ledger
    → pop_expired cutoff ledger ≡ (expired cutoff ledger, kept cutoff ledger)
unfolding pop_expired
pop_expired-kept cutoff low [] rising = refl
pop_expired-kept cutoff low ((id, ts) ∷ ledger) (here, later) = elim (Bool-cases (ltb ts cutoff)) [
  | inl old ↦
      rw old
        (ap (λ (r : List Text × Ledger). (id ∷ r.0, r.1)) (pop_expired-kept cutoff ts ledger later))
  | inr fresh ↦
      let rest = none_expired cutoff ts ledger later (ground arith) in
      rw fresh (
        ap (λ ids. (ids, (id, ts) ∷ ledger)) (sym rest.1)
        ∙ ap (λ l. (expired cutoff ledger, (id, ts) ∷ l)) (sym rest.0))
]

Rising-snoc :
    (low ts : ℕ) (id : Text) (ledger : Ledger)
    → Rising low ledger
    → low ≤ ts
    → All (λ entry. entry.1 ≤ ts) ledger
    → Rising low (ledger ++ (id, ts) ∷ [])
Rising-snoc low ts id [] rising after past = (after, tt)
Rising-snoc low ts id ((id', ts') ∷ ledger) (here, later) after (before, past) =
    (here, Rising-snoc ts' ts id ledger later before past)

Rising-below :
    (low high : ℕ) (ledger : Ledger) → low ≤ high → Rising high ledger → Rising low ledger
Rising-below low high [] below rising = tt
Rising-below low high ((id, ts) ∷ ledger) below (here, later) = (omega arith, later)

Rising-kept :
    (cutoff low : ℕ) (ledger : Ledger) → Rising low ledger → Rising low (kept cutoff ledger)
Rising-kept cutoff low [] rising = tt
Rising-kept cutoff low ((id, ts) ∷ ledger) (here, later) =
    let rest = Rising-kept cutoff ts ledger later in
    elim (Bool-cases (ltb ts cutoff)) [
      | inl old ↦ rw old (Rising-below low ts (kept cutoff ledger) here rest)
      | inr fresh ↦ rw fresh (here, rest)
    ]

All-kept :
    (cutoff now : ℕ) (ledger : Ledger)
    → All (λ entry. entry.1 ≤ now) ledger
    → All (λ entry. entry.1 ≤ now) (kept cutoff ledger)
All-kept cutoff now [] past = tt
All-kept cutoff now ((id, ts) ∷ ledger) (here, past) = elim (Bool-cases (ltb ts cutoff)) [
  | inl old ↦ rw old (All-kept cutoff now ledger past)
  | inr fresh ↦ rw fresh (here, All-kept cutoff now ledger past)
]

Ledger-cases : (ledger : Ledger) → (ledger ≡ []) ⊎ (no_ledger ledger ≡ false)
Ledger-cases [] = inl refl
Ledger-cases (entry ∷ ledger) = inr refl

module _ {P : Type 0} {S : Type 0} (nq : Database P S) (print : Value → Text) (ttl_ms : ℕ) where
  -- A state of the actor that is reached, and the time of its last event, with a clock that is not
  -- set back.
  pub data Reached : ℕ → Actor S → Type 0 where
    begun : (db : S) → Reached 0 (started db)
    got :
        {now : ℕ} {a : Actor S} (ts : ℕ) (rec : RequestRecord)
        → Reached now a
        → now ≤ ts
        → Reached ts (on_event nq print ttl_ms a (Event.received ts rec))
    waited :
        {now : ℕ} {a : Actor S} (later : ℕ)
        → Reached now a
        → now ≤ later
        → Reached later (on_event nq print ttl_ms a (Event.timed_out later))

  -- The database once ids have been forgotten, if there are any.
  abbrev pub forgotten : List Text → S → S
  forgotten ids db = if no_ids ids then db else (execute_text nq print (forget_plan ids) db).1

  sweep-kept :
      (db : S) (low cutoff : ℕ) (ledger : Ledger)
      → Rising low ledger
      → ((sweep nq print db ledger cutoff).1 ≡ forgotten (expired cutoff ledger) db)
        × ((sweep nq print db ledger cutoff).2 ≡ kept cutoff ledger)
  unfolding sweep
  sweep-kept db low cutoff ledger rising =
      let popped = pop_expired-kept cutoff low ledger rising in
      elim (Bool-cases (no_ids (expired cutoff ledger))) [
        | inl none_old ↦ (rw (popped, none_old) refl, rw (popped, none_old) refl)
        | inr some_old ↦ (rw (popped, some_old) refl, rw (popped, some_old) refl)
      ]

  ledger_checkpoint : (a : Actor S) → (checkpoint nq print a).ledger ≡ a.ledger
  ledger_checkpoint a = elim (Bool-cases a.dirty) [
    | inl dirty ↦ rw dirty refl
    | inr clean ↦ rw clean refl
  ]

  -- A sweep of a ledger in order, also if it is empty.
  sweep_at-kept :
      (now : ℕ) (a : Actor S)
      → 0 < ttl_ms
      → Rising 0 a.ledger
      → ((sweep_at nq print ttl_ms now a).db ≡ forgotten (expired (now - ttl_ms) a.ledger) a.db)
        × ((sweep_at nq print ttl_ms now a).ledger ≡ kept (now - ttl_ms) a.ledger)
  sweep_at-kept now a on rising =
      let tracked : ltb 0 ttl_ms ≡ true = ground arith in
      elim (Ledger-cases a.ledger) [
        | inl none_there ↦ (rw (tracked, none_there) refl, rw (tracked, none_there) refl)
        | inr some_there ↦
            let swept = sweep-kept a.db 0 (now - ttl_ms) a.ledger rising in
            (rw (tracked, some_there) swept.0, rw (tracked, some_there) swept.1)
      ]

  IsOrdered-later :
      (now later : ℕ) (ledger : Ledger)
      → now ≤ later
      → IsOrdered now ledger
      → IsOrdered later ledger
  IsOrdered-later now later ledger after h = record {
    rising = h.rising;
    past =
        All_mono (λ entry. entry.1 ≤ now) (λ entry. entry.1 ≤ later) (λ entry p. omega (arith, p))
          ledger h.past;
  }

  IsOrdered-note_inserted :
      (track good : Bool) (now ts seq : ℕ) (id : Text) (db : S) (a : Actor S)
      → IsOrdered now a.ledger
      → now ≤ ts
      → IsOrdered ts
          (note_inserted nq print track (if good then some (id, ts) else none, db, seq) a).ledger
  IsOrdered-note_inserted track false now ts seq id db a h after =
      IsOrdered-later now ts a.ledger after h
  IsOrdered-note_inserted false true now ts seq id db a h after =
      IsOrdered-later now ts a.ledger after h
  IsOrdered-note_inserted true true now ts seq id db a h after =
      let h' = IsOrdered-later now ts a.ledger after h in
      record {
        rising = Rising-snoc 0 ts id a.ledger h'.rising (omega arith) h'.past;
        past =
            All-append (λ entry. entry.1 ≤ ts) a.ledger ((id, ts) ∷ []) h'.past (omega arith, tt);
      }

  IsOrdered-sweep_at :
      (now : ℕ) (a : Actor S)
      → IsOrdered now a.ledger
      → IsOrdered now (sweep_at nq print ttl_ms now a).ledger
  IsOrdered-sweep_at now a h = elim (Bool-cases (ltb 0 ttl_ms)) [
    | inl on ↦ subst (IsOrdered now) (sym (sweep_at-kept now a (ground arith) h.rising).1) (record {
      rising = Rising-kept (now - ttl_ms) 0 a.ledger h.rising;
      past = All-kept (now - ttl_ms) now a.ledger h.past;
    })
    | inr off ↦ rw off h
  ]

  Reached-IsOrdered : {now : ℕ} {a : Actor S} → Reached now a → IsOrdered now a.ledger
  unfolding on_event insert_one
  Reached-IsOrdered (begun db) = record { rising = tt; past = tt }
  Reached-IsOrdered (got {now} {a} ts rec before after) =
      IsOrdered-note_inserted (ltb 0 ttl_ms) _ now ts _ _ _ a (Reached-IsOrdered before) after
  Reached-IsOrdered (waited {now} {a} later before after) =
      IsOrdered-sweep_at later (checkpoint nq print a) (
        subst (IsOrdered later) (sym (ledger_checkpoint a))
          (IsOrdered-later now later a.ledger after (Reached-IsOrdered before)))

  -- In every state that the actor reaches with a clock that is not set back, and with a time to live,
  -- the timeout of the loop forgets all records whose time is more than the time to live ago and no
  -- others: their ids are put into one plan for the database, and just they leave the ledger, also if
  -- the plan fails.
  pub timed_out-expired :
      {now : ℕ} {a : Actor S} (later : ℕ)
      → Reached now a
      → now ≤ later
      → 0 < ttl_ms
      → ((on_event nq print ttl_ms a (Event.timed_out later)).db
          ≡ forgotten (expired (later - ttl_ms) a.ledger) (checkpoint nq print a).db)
        × ((on_event nq print ttl_ms a (Event.timed_out later)).ledger
            ≡ kept (later - ttl_ms) a.ledger)
  unfolding on_event
  timed_out-expired {now} {a} later before after on =
      let c = checkpoint nq print a in
      let same = ledger_checkpoint a in
      let swept =
        sweep_at-kept later c on (subst (Rising 0) (sym same) (Reached-IsOrdered before).rising) in
      (
        swept.0 ∙ ap (λ l. forgotten (expired (later - ttl_ms) l) c.db) same,
        swept.1 ∙ ap (kept (later - ttl_ms)) same,
      )
