-- ===== src/Streams/Jobs/Lifecycle.antt =====
-- A process that fails is started again; one that is stopped is not.
use neo_transcoder.Base.{
  ℕ, ◌+◌, ◌≡◌, refl, ap, ◌∙◌, inl, inr, pos, String, Bool, true, false, ◌&&◌, Option, none, some,
  Bytes, bytes, arith, ◌==◌, nat_eq, string_eq, bytes_eq, eq_iff, nat_beq_iff, if◌then◌else◌,
  lookup, insert, delete, lookup-insert, lookup-delete, ltb_ℤ, Checked, ok, Checked-cases,
}
use neo_transcoder.Ffmpeg.Models.{Profile, with_log_level}
use neo_transcoder.Ffmpeg.Urls.{Urls}
use neo_transcoder.Ffmpeg.Args.{build_args}
use neo_transcoder.Ffmpeg.Template.Rendered.{is_ok}
use neo_transcoder.Streams.Models.{Time, Config, RestartPolicy, State, running}
use neo_transcoder.Streams.Store.{Store, View, get, update_state, state_of}
use neo_transcoder.Streams.Jobs.{
  JobManager, StartError, stream_of, with_state, running_state, launch, start, at_rest,
  restart_after, tracker_of, count_failure, restarting_state, limit_restarts, active_policy,
  maybe_restart,
}
use neo_transcoder.Streams.Jobs.Processes.{
  ended_state, is_manual, without_job, take_job, write_ended, restart_ended, wait, after_backoff,
}

pub state_of-update_state :
    (id : String) (update : State → State) (s : Store)
    → state_of id (update_state id update s) ≡ update (state_of id s)
unfolding update_state state_of
state_of-update_state id update s =
    rw (state_of, lookup-insert id id (update (state_of id s)) s.states, (eq_iff id id).1 refl) refl

get-known :
    (id : String) (cfg : Config) (s : Store)
    → lookup id s.streams ≡ some cfg
    → get id s ≡ some (record { config = cfg; state = state_of id s })
unfolding get
get-known id cfg s known = rw (known, get) refl

-- The manager with a process for the stream.
abbrev launched : String → ℕ → Bool → Time → JobManager → JobManager
launched id pid restarted now m = with_state id (running_state pid restarted now) (record m {
  jobs = insert id (record { pid = pid; stopping = false }) m.jobs;
  restarts = if restarted then m.restarts else delete id m.restarts;
})

start-launched :
    (urls : Urls) (id : String) (restarted : Bool) (pid : ℕ) (now : Time) (cfg : Config)
    (profile : Profile) (m : JobManager)
    → lookup id m.store.streams ≡ some cfg
    → lookup (bytes cfg.profile_name) m.store.profiles ≡ some profile
    → is_ok (build_args urls (stream_of cfg) profile (with_log_level m.sys (bytes cfg.log_level)))
      ≡ true
    → lookup id m.jobs ≡ none
    → start urls id restarted (ok pid) now m ≡ (launched id pid restarted now m, none)
unfolding start launch
start-launched urls id restarted pid now cfg profile m known has_profile builds idle =
    elim (Checked-cases
      (build_args urls (stream_of cfg) profile (with_log_level m.sys (bytes cfg.log_level)))) [
        | inl (e, refused) ↦ absurd (ground (arith, refused))
        | inr (args, built) ↦
            rw (start, get-known id cfg m.store known, has_profile, built, launch, idle) refl
      ]

-- The manager with a restart planned.
abbrev planned : String → Bytes → RestartPolicy → Time → JobManager → JobManager
planned id reason policy now m =
    with_state id (restarting_state reason)
      (record m { restarts = insert id (count_failure policy now (tracker_of id m)) m.restarts })

maybe_restart-planned :
    (id : String) (reason : Bytes) (now : Time) (cfg : Config) (policy : RestartPolicy)
    (m : JobManager)
    → lookup id m.store.streams ≡ some cfg
    → (cfg.enabled && policy.enabled) ≡ true
    → cfg.restart ≡ some policy
    → ltb_ℤ policy.max_attempts (pos (count_failure policy now (tracker_of id m)).attempts) ≡ false
    → maybe_restart id reason now m
      ≡ (planned id reason policy now m, restart_after policy.backoff_seconds)
unfolding maybe_restart limit_restarts active_policy update_state insert
maybe_restart-planned id reason now cfg policy m known on has_policy attempts_left =
    rw
      (
        maybe_restart,
        get-known id cfg m.store known,
        active_policy,
        has_policy,
        on,
        limit_restarts,
        attempts_left,
      )
      refl

-- The manager once the stream's process has ended by itself.
abbrev ended : String → Option Bytes → Time → JobManager → JobManager
ended id exit now m =
    with_state id (ended_state false exit now) (record m { jobs = delete id m.jobs })

wait-ended :
    (id : String) (pid : ℕ) (reason : Bytes) (now : Time) (m : JobManager)
    → lookup id m.jobs ≡ some (record { pid = pid; stopping = false })
    → wait id pid (some reason) now m
      ≡ maybe_restart id
          (state_of id (ended id (some reason) now m).store).last_error
          now
          (ended id (some reason) now m)
unfolding wait take_job write_ended restart_ended is_manual without_job update_state
wait-ended id pid reason now m job =
    let same : (pid == pid) ≡ true = (nat_beq_iff pid pid).1 refl in
    rw (wait, job, is_manual, without_job, same) refl

tracker_of-restarts :
    (id : String) (m n : JobManager) → m.restarts ≡ n.restarts → tracker_of id m ≡ tracker_of id n
unfolding tracker_of
tracker_of-restarts id m n e = rw (tracker_of, e) refl

after_backoff-started :
    (urls : Urls) (text : StartError → Bytes) (id : String) (process : Checked Bytes ℕ) (now : Time)
    (view : View) (m m' : JobManager)
    → get id m.store ≡ some view
    → view.config.enabled ≡ true
    → start urls id true process now m ≡ (m', none)
    → after_backoff urls text id process now m ≡ (m', at_rest)
unfolding after_backoff
after_backoff-started urls text id process now view m m' got enabled starts =
    rw (after_backoff, got, starts) (rw enabled (ap (λ r. (r.0, at_rest)) starts))

module _ (urls : Urls) (text : StartError → Bytes) (id : String) (pid pid' : ℕ) (reason : Bytes)
    (now later : Time) (cfg : Config) (policy : RestartPolicy) (profile : Profile) (m : JobManager)
    (job : lookup id m.jobs ≡ some (record { pid = pid; stopping = false }))
    (known : lookup id m.store.streams ≡ some cfg) (on : (cfg.enabled && policy.enabled) ≡ true)
    (has_policy : cfg.restart ≡ some policy)
    (attempts_left : ltb_ℤ policy.max_attempts
        (pos (count_failure policy now (tracker_of id m)).attempts)
      ≡ false)
    (has_profile : lookup (bytes cfg.profile_name) m.store.profiles ≡ some profile)
    (builds : is_ok
        (build_args urls (stream_of cfg) profile (with_log_level m.sys (bytes cfg.log_level)))
      ≡ true) where
  abbrev after_failure : JobManager
  after_failure =
      planned id (state_of id (ended id (some reason) now m).store).last_error policy now
        (ended id (some reason) now m)

  wait-planned :
      wait id pid (some reason) now m ≡ (after_failure, restart_after policy.backoff_seconds)
  unfolding update_state
  wait-planned =
      wait-ended id pid reason now m job
      ∙ maybe_restart-planned id _ now cfg policy (ended id (some reason) now m) known on has_policy
          (ap (λ t. ltb_ℤ policy.max_attempts (pos (count_failure policy now t).attempts))
              (tracker_of-restarts id (ended id (some reason) now m) m refl)
            ∙ attempts_left)

  idle : lookup id after_failure.jobs ≡ none
  idle = ground (arith, lookup-delete id id m.jobs, eq_iff id id)

  after_backoff-launched :
      after_backoff urls text id (ok pid') later after_failure
      ≡ (launched id pid' true later after_failure, at_rest)
  unfolding update_state
  after_backoff-launched =
      let starts =
        start-launched urls id true pid' later cfg profile after_failure known has_profile builds
          idle in
      after_backoff-started urls text id (ok pid') later _ after_failure _
        (get-known id cfg after_failure.store known) (ground arith) starts

-- A stream that is enabled, whose restart policy is on and has attempts left, and whose profile gives a
-- command line: when its process fails, a restart after the policy's backoff is planned, and if a process
-- can be started then, the stream is running again, with that process, and with one restart more.
pub wait-after_backoff :
    (urls : Urls) (text : StartError → Bytes) (id : String) (pid pid' : ℕ) (reason : Bytes)
    (now later : Time) (cfg : Config) (policy : RestartPolicy) (profile : Profile) (m : JobManager)
    → lookup id m.jobs ≡ some (record { pid = pid; stopping = false })
    → lookup id m.store.streams ≡ some cfg
    → (cfg.enabled && policy.enabled) ≡ true
    → cfg.restart ≡ some policy
    → ltb_ℤ policy.max_attempts (pos (count_failure policy now (tracker_of id m)).attempts) ≡ false
    → lookup (bytes cfg.profile_name) m.store.profiles ≡ some profile
    → is_ok (build_args urls (stream_of cfg) profile (with_log_level m.sys (bytes cfg.log_level)))
      ≡ true
    → (m1 : JobManager) × (m2 : JobManager) × (wait id pid (some reason) now m
        ≡ (m1, restart_after policy.backoff_seconds))
      × (after_backoff urls text id (ok pid') later m1 ≡ (m2, at_rest))
      × (lookup id m2.jobs ≡ some (record { pid = pid'; stopping = false }))
      × ((state_of id m2.store).status ≡ running)
      × ((state_of id m2.store).restart_count ≡ (state_of id m.store).restart_count + 1)
unfolding running_state restarting_state ended_state
wait-after_backoff urls text id pid pid' reason now later cfg policy profile m job known on
      has_policy attempts_left has_profile builds =
    let m0 = ended id (some reason) now m in
    let m1 =
      after_failure urls text id pid pid' reason now later cfg policy profile m job known on
        has_policy attempts_left has_profile builds in
    let m2 = launched id pid' true later m1 in
    let s1 = state_of-update_state id (ended_state false (some reason) now) m.store in
    let s2 =
      state_of-update_state id (restarting_state (state_of id m0.store).last_error) m0.store in
    let s3 = state_of-update_state id (running_state pid' true later) m1.store in
    (
      m1,
      m2,
      wait-planned urls text id pid pid' reason now later cfg policy profile m job known on
          has_policy attempts_left has_profile builds,
      after_backoff-launched urls text id pid pid' reason now later cfg policy profile m job known
          on has_policy attempts_left has_profile builds,
      ground (
        arith,
        lookup-insert id id (record { pid = pid'; stopping = false }) m1.jobs,
        eq_iff id id,
      ),
      ap (λ s. s.status) s3,
      ap (λ s. s.restart_count) s3
          ∙ ap (λ s. s.restart_count + 1) s2
          ∙ ap (λ s. s.restart_count + 1) s1,
    )
