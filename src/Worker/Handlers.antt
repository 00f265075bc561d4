-- ===== src/Worker/Handlers.antt =====
-- The whole handlers of the listener as runs of steps: `authorize`, `expireAttempt`, the accept loop's
-- body, and `close`.
use neo_transcoder.Base.{
  ℕ, Bool, true, false, Option, none, some, Bytes, lookup, bytes_eq, if◌then◌else◌, inl, inr,
  Option-cases,
}
use neo_transcoder.Relay.Models.{Time, Session}
use neo_transcoder.Worker.{
  Worker, ClientAcl, ClientSession, PendingAttempt, emit_rejected, attempt_key,
}
use neo_transcoder.Worker.StreamId.{ClientId, client, refused}
use neo_transcoder.Worker.Admission.{
  Admission, already_pending, client_full, relay_full, reserved_slot, admit, answer,
  authorize_client, with_client, authorize_allowed, limited, authorize, pending_secret,
}
use neo_transcoder.Worker.Sessions.{
  Accepted, expire_attempt, accept, close_session, report_expired, report_accept, report_closed,
}
use neo_transcoder.Worker.Interleaving.{
  Reach, here, next, limit, report, reserve, let_go, seat, leave,
}

rejected-Reach :
    {u w : Worker} (s : Session) (reason : Bytes) (now : Time)
    → Reach u w
    → Reach u (emit_rejected s reason now w)
unfolding emit_rejected
rejected-Reach s reason now r = next r (report _ _)

answer-Reach :
    {u : Worker} (base : Session) (now : Time) (acl : ClientAcl) (r : Worker × Admission)
    → Reach u r.0
    → Reach u (answer base now acl r).0
unfolding answer
answer-Reach base now acl (w, already_pending secret) r = r
answer-Reach base now acl (w, client_full) r = rejected-Reach base _ now r
answer-Reach base now acl (w, relay_full) r = rejected-Reach base _ now r
answer-Reach base now acl (w, reserved_slot) r = r

if-Reach :
    {u : Worker} (b : Bool) (x y : Worker × Bytes × ℕ)
    → Reach u x.0
    → Reach u y.0
    → Reach u (if b then x else y).0
if-Reach true x y rx ry = rx
if-Reach false x y rx ry = ry

abbrev attempt_of : Bytes → ℕ → Bytes → Bytes → PendingAttempt
attempt_of ip port stream_id id = record {
  client_id = id;
  remote_ip = ip;
  remote_port = port;
  stream_id = stream_id;
}

module _ (parse_ip : Bytes → Option Bytes) (ip : Bytes) (port : ℕ) (stream_id : Bytes)
    (now : Time) where
  authorize_client-Reach :
      {u : Worker} (id : Bytes) (w : Worker)
      → Reach u w
      → Reach u (authorize_client parse_ip ip port stream_id now id w).0
  unfolding authorize_client
  authorize_client-Reach id w r = elim (Option-cases (lookup id w.clients)) [
    | inl e ↦ rw (e, authorize_client) (rejected-Reach _ _ now r)
    | inr (acl, e) ↦
        rw (e, authorize_client)
          (if-Reach _ _ _
            (answer-Reach _ now acl
              (admit (attempt_key ip port stream_id) (attempt_of ip port stream_id id) acl w)
              (next r (
                reserve w (attempt_key ip port stream_id) (attempt_of ip port stream_id id) acl e)))
            (rejected-Reach _ _ now r))
  ]

  chosen-Reach :
      {u : Worker} (c : ClientId) (w : Worker)
      → Reach u w
      → Reach u (with_client parse_ip ip port stream_id now c w).0
  unfolding with_client
  chosen-Reach (client id) w r = authorize_client-Reach id w r
  chosen-Reach (refused e) w r = rejected-Reach _ _ now r

  limited-Reach :
      {u : Worker} (r : Worker × Bool × Bool)
      → Reach u r.0
      → Reach u (limited parse_ip ip port stream_id now r).0
  unfolding limited authorize_allowed
  limited-Reach (w, true, reported) r = chosen-Reach _ _ (next r (report w _))
  limited-Reach (w, false, true) r = rejected-Reach _ _ now r
  limited-Reach (w, false, false) r = r

  -- A call of `authorize`, on every branch, is a run of steps.
  pub authorize-Reach : (w : Worker) → Reach w (authorize parse_ip ip port stream_id now w).0
  unfolding authorize
  authorize-Reach w = elim (Option-cases (pending_secret (attempt_key ip port stream_id) w)) [
    | inl e ↦ rw (e, authorize) (limited-Reach _ (next here (limit w ip now)))
    | inr (secret, e) ↦ rw (e, authorize) here
  ]

module _ (key : Bytes) (now : Time) where
  expired-Reach :
      {u : Worker} (a : Option PendingAttempt) (w : Worker)
      → Reach u w
      → Reach u (report_expired a now w)
  unfolding report_expired
  expired-Reach none w r = r
  expired-Reach (some attempt) w r = rejected-Reach _ _ now r

  -- A call of `expireAttempt` is a run of steps.
  pub expire_attempt-Reach : (w : Worker) → Reach w (expire_attempt key now w)
  unfolding expire_attempt
  expire_attempt-Reach w = expired-Reach _ _ (next here (let_go w key))

module _ (conn : Accepted) (now : Time) where
  accepted-Reach :
      {u : Worker} (a : Option PendingAttempt) (id : Option Bytes) (w : Worker)
      → Reach u w
      → Reach u (report_accept conn a id now w)
  unfolding report_accept
  accepted-Reach none id w r = rejected-Reach _ _ now r
  accepted-Reach (some attempt) none w r = r
  accepted-Reach (some attempt) (some id) w r = next r (report w _)

  -- A round of the accept loop is a run of steps.
  pub accept-Reach : (id : Option Bytes) (w : Worker) → Reach w (accept conn id now w)
  unfolding accept
  accept-Reach id w = accepted-Reach _ id _ (next here (seat w conn id now))

module _ (reason : Bytes) (now : Time) where
  closed-Reach :
      {u : Worker} (s : Option ClientSession) (w : Worker)
      → Reach u w
      → Reach u (report_closed s reason now w)
  unfolding report_closed
  closed-Reach none w r = r
  closed-Reach (some s) w r = next r (report w _)

  -- A call of `close` is a run of steps.
  pub close_session-Reach : (id : Bytes) (w : Worker) → Reach w (close_session id reason now w)
  unfolding close_session
  close_session-Reach id w = closed-Reach _ _ (next here (leave w id))
