-- ===== src/Relay/Events/Transitions.antt =====
-- What the audit log tells of a relay's input.
use neo_transcoder.Base.{
  ◌+◌, ◌≡◌, refl, Bool, true, false, List, [], ◌∷◌, ◌++◌, Bytes, arith, ◌==◌, bytes_eq,
  bytes_beq_iff, if◌then◌else◌, lookup, insert, lookup-insert, count_where, count_where-append,
  one_if, All, Bool-cases, Option-cases, sym, nat_eq, some, inl, inr,
}
use neo_transcoder.Relay.Models.{Time, RelayState, WorkerEvent, relay_metrics}
use neo_transcoder.Relay.Store.{Store, state_of}
use neo_transcoder.Relay.Sessions.{AuditEvent, of_worker, input_stalled, input_restored, named}
use neo_transcoder.Relay.Events.{
  is_degraded, apply_metrics, apply_type, apply_worker_event, audit_of_event, audit_of_transition,
  audit_level,
}

abbrev pub is_stall : AuditEvent → Bool
is_stall audit = elim audit.type [
  | of_worker type ↦ false
  | input_stalled ↦ true
  | input_restored ↦ false
  | named text ↦ false
]

abbrev pub is_restoration : AuditEvent → Bool
is_restoration audit = elim audit.type [
  | of_worker type ↦ false
  | input_stalled ↦ false
  | input_restored ↦ true
  | named text ↦ false
]

-- A worker's events one after another, with the time at which each one is read: the store, and the
-- audit events.
pub apply_run : Bytes → List (WorkerEvent × Time) → Store → Store × List AuditEvent
apply_run relay_id [] s = (s, [])
apply_run relay_id ((event, clock) ∷ events) s =
    let (s₁, first) = apply_worker_event relay_id event clock s in
    let (s₂, later) = apply_run relay_id events s₁ in (s₂, first ++ later)

abbrev pub IsMetrics : WorkerEvent × Time → Type 0
IsMetrics (event, clock) = event.type ≡ relay_metrics

-- Whether the store takes the relay for degraded; a relay without a state is not.
pub is_degraded_in : Bytes → Store → Bool
is_degraded_in relay_id s = is_degraded (state_of relay_id 0 s).status

-- How the transition of one metrics event goes with the state.
transition_balance :
    (event : WorkerEvent) (now now' : Time) (relay_id : Bytes) (old : RelayState)
    → count_where is_stall
          (audit_of_transition (apply_metrics event now old).1 relay_id event.reason now')
        + one_if (is_degraded old.status)
      ≡ count_where is_restoration
          (audit_of_transition (apply_metrics event now old).1 relay_id event.reason now')
        + one_if (is_degraded (apply_metrics event now old).0.status)
unfolding apply_metrics audit_of_transition is_degraded
transition_balance event now now' relay_id old = elim (Bool-cases (event.reason == [])) [
  | inl calm ↦ elim (Bool-cases (is_degraded old.status)) [
    | inl low ↦ ground (arith, calm, low)
    | inr high ↦ ground (arith, calm, high)
  ]
  | inr reason ↦ elim (Bool-cases (is_degraded old.status)) [
    | inl low ↦ ground (arith, reason, low)
    | inr high ↦ ground (arith, reason, high)
  ]
]

abbrev received : WorkerEvent → Time → Time
received event clock = if event.time == 0 then clock else event.time

-- A metrics event, written out.
apply-metrics :
    (relay_id : Bytes) (event : WorkerEvent) (clock : Time) (s : Store)
    → event.type ≡ relay_metrics
    → apply_worker_event relay_id event clock s ≡ (
      record s {
        states =
            insert relay_id
              (apply_metrics event
                (received event clock)
                (state_of relay_id (received event clock) s)).0
              s.states;
      },
      audit_of_transition
          (apply_metrics event
            (received event clock)
            (state_of relay_id (received event clock) s)).1
          relay_id
          event.reason
          (received event clock),
    )
unfolding apply_worker_event apply_type audit_of_event audit_level
apply-metrics relay_id event clock s metrics = rw (metrics, audit_level, apply_type)

-- The status of a relay without a state does not depend on the time.
degraded_any_time :
    (relay_id : Bytes) (now : Time) (s : Store)
    → is_degraded (state_of relay_id now s).status ≡ is_degraded_in relay_id s
unfolding is_degraded_in state_of
degraded_any_time relay_id now s = elim (Option-cases (lookup relay_id s.states)) [
  | inl missing ↦ rw (missing, state_of)
  | inr (state, found) ↦ rw (found, state_of)
]

put_self :
    (relay_id : Bytes) (state : RelayState) (s : Store)
    → lookup relay_id (insert relay_id state s.states) ≡ some state
put_self relay_id state s =
    ground (arith, lookup-insert relay_id relay_id state s.states, bytes_beq_iff relay_id relay_id)

degraded_put :
    (relay_id : Bytes) (state : RelayState) (s : Store)
    → is_degraded_in relay_id (record s { states = insert relay_id state s.states })
      ≡ is_degraded state.status
unfolding is_degraded_in state_of
degraded_put relay_id state s = rw (put_self relay_id state s, state_of)

metrics_step :
    (relay_id : Bytes) (event : WorkerEvent) (clock : Time) (s : Store)
    → event.type ≡ relay_metrics
    → count_where is_stall (apply_worker_event relay_id event clock s).1
        + one_if (is_degraded_in relay_id s)
      ≡ count_where is_restoration (apply_worker_event relay_id event clock s).1
        + one_if (is_degraded_in relay_id (apply_worker_event relay_id event clock s).0)
metrics_step relay_id event clock s metrics =
    let now = received event clock in
    let old = state_of relay_id now s in
    rw
      (
        apply-metrics relay_id event clock s metrics,
        degraded_put relay_id (apply_metrics event now old).0 s,
        sym (degraded_any_time relay_id now s),
      )
      (transition_balance event now now relay_id old)

-- Over any run of metrics events of a relay, from any store: the stalls that the audit log tells of, and
-- one if the relay is degraded at first, are as many as the restorations, and one if it is degraded at
-- the end.
pub metrics-run :
    (relay_id : Bytes) (events : List (WorkerEvent × Time)) (s : Store)
    → All IsMetrics events
    → count_where is_stall (apply_run relay_id events s).1 + one_if (is_degraded_in relay_id s)
      ≡ count_where is_restoration (apply_run relay_id events s).1
        + one_if (is_degraded_in relay_id (apply_run relay_id events s).0)
unfolding apply_run
metrics-run relay_id [] s metrics = refl
metrics-run relay_id ((event, clock) ∷ events) s (metrics, rest) = omega (
  arith,
  metrics_step relay_id event clock s metrics,
  metrics-run relay_id events (apply_worker_event relay_id event clock s).0 rest,
  count_where-append is_stall (apply_worker_event relay_id event clock s).1
      (apply_run relay_id events (apply_worker_event relay_id event clock s).0).1,
  count_where-append is_restoration (apply_worker_event relay_id event clock s).1
      (apply_run relay_id events (apply_worker_event relay_id event clock s).0).1,
)
