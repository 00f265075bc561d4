-- ===== src/Relay/Manager/Recovery.antt =====
-- A worker that fails is started again.
use neo_transcoder.Base.{
  ℕ, ◌+◌, ◌≡◌, refl, ap, ◌∙◌, true, false, none, some, Bytes, arith, ◌==◌, nat_eq, bytes_eq,
  bytes_beq_iff, nat_beq_iff, lookup, insert, delete, lookup-insert, lookup-delete, tally,
}
use neo_transcoder.Relay.Models.{Time, Relay, RelayState, starting, restarting}
use neo_transcoder.Relay.Store.{Store, state_of}
use neo_transcoder.Relay.Sessions.{is_open_on, close_relay_sessions}
use neo_transcoder.Relay.Sessions.Closing.{close_relay_sessions-all}
use neo_transcoder.Relay.Events.{update_state}
use neo_transcoder.Relay.Manager.{
  RelayJob, Manager, with_state, failed_now, started_state, tracker_of, allow_restart, start,
  restart_later, limit_restarts, after_failure, wait,
}

state_of-update_state :
    (id : Bytes) (now later : Time) (update : RelayState → RelayState) (s : Store)
    → state_of id later (update_state id now update s)
      ≡ record (update (state_of id now s)) { updated_at = now }
unfolding state_of update_state
state_of-update_state id now later update s =
    rw
      (
        state_of,
        lookup-insert id id (record (update (state_of id now s)) { updated_at = now }) s.states,
        (bytes_beq_iff id id).1 refl,
      )
      refl

-- The manager once the worker has failed, and once the restart is planned.
abbrev failed : Bytes → Bytes → Time → Manager → Manager
failed id reason now m = with_state id now (failed_now reason) (record m {
  jobs = delete id m.jobs;
  store = (close_relay_sessions id reason now now m.store).0;
})

abbrev planned : Bytes → Bytes → Time → Manager → Manager
planned id reason now m =
    with_state id now (λ state. record state { status = restarting })
      (allow_restart id now (failed id reason now m)).0

-- The manager with the new worker.
abbrev launched : Bytes → ℕ → Time → Manager → Manager
launched id pid now m =
    with_state id now (started_state pid true)
      (record m { jobs = insert id (record { pid = pid; stopping = false }) m.jobs })

wait-planned :
    (id : Bytes) (pid : ℕ) (reason : Bytes) (now : Time) (relay : Relay) (m : Manager)
    → lookup id m.jobs ≡ some (record { pid = pid; stopping = false })
    → lookup id m.store.relays ≡ some relay
    → relay.enabled ≡ true
    → (allow_restart id now m).1 ≡ true
    → wait id pid reason now m ≡ (planned id reason now m, restart_later)
unfolding wait after_failure limit_restarts allow_restart tracker_of update_state
    close_relay_sessions
wait-planned id pid reason now relay m job known enabled allowed =
    let same : (pid == pid) ≡ true = (nat_beq_iff pid pid).1 refl in
    rw (wait, job, same, after_failure, known, enabled, limit_restarts, allowed) refl

start-launched :
    (id : Bytes) (pid : ℕ) (now : Time) (relay : Relay) (m : Manager)
    → lookup id m.store.relays ≡ some relay
    → relay.enabled ≡ true
    → lookup id m.jobs ≡ none
    → start id true true (some pid) now m ≡ (launched id pid now m, none)
unfolding start update_state
start-launched id pid now relay m known enabled idle = rw (start, known, enabled, idle) refl

-- A relay that is enabled, whose worker fails without a request to stop it, and whose tracker allows a
-- restart: the restart is planned, and none of the relay's sessions is open then. If a process can be
-- started at its time, it is the relay's job, and the relay is starting, with one restart more.
pub wait-start :
    (id : Bytes) (pid pid' : ℕ) (reason : Bytes) (now later : Time) (relay : Relay) (m : Manager)
    → lookup id m.jobs ≡ some (record { pid = pid; stopping = false })
    → lookup id m.store.relays ≡ some relay
    → relay.enabled ≡ true
    → (allow_restart id now m).1 ≡ true
    → (m1 : Manager) × (m2 : Manager) × (wait id pid reason now m ≡ (m1, restart_later))
      × (tally (is_open_on id) m1.store.sessions ≡ 0)
      × (start id true true (some pid') later m1 ≡ (m2, none))
      × (lookup id m2.jobs ≡ some (record { pid = pid'; stopping = false }))
      × ((state_of id later m2.store).status ≡ starting)
      × ((state_of id later m2.store).restart_count ≡ (state_of id now m.store).restart_count + 1)
unfolding allow_restart update_state state_of failed_now started_state close_relay_sessions
wait-start id pid pid' reason now later relay m job known enabled allowed =
    let m0 = failed id reason now m in
    let m1 = planned id reason now m in
    let m2 = launched id pid' later m1 in
    let job' : RelayJob = record { pid = pid'; stopping = false } in
    let closed = (close_relay_sessions id reason now now m.store).0 in
    let s1 = state_of-update_state id now now (failed_now reason) closed in
    let s2 =
      state_of-update_state id now later (λ state. record state { status = restarting }) m0.store in
    let s3 = state_of-update_state id later later (started_state pid' true) m1.store in
    (
      m1,
      m2,
      wait-planned id pid reason now relay m job known enabled allowed,
      (close_relay_sessions-all id reason now now m.store).0,
      start-launched id pid' later relay m1 known enabled
          (ground (arith, lookup-delete id id m.jobs, bytes_beq_iff id id)),
      ground (arith, lookup-insert id id job' m1.jobs, bytes_beq_iff id id),
      ap (λ s. s.status) s3,
      ap (λ s. s.restart_count) s3
          ∙ ap (λ s. s.restart_count + 1) s2
          ∙ ap (λ s. s.restart_count + 1) s1,
    )
