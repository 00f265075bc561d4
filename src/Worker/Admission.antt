-- ===== src/Worker/Admission.antt =====
-- The listener's admission control in internal/srtworker/worker.go: `authorize`, the expiry of pending
-- handshakes, the accept loop and the end of a session. What runs under `w.mu` in one piece is a
-- function of its own, since the pieces of different goroutines interleave.
use neo_transcoder.Base.{
  ℕ, ◌+◌, Bool, false, not, ◌||◌, Option, none, some, List, [], Bytes, bytes, pos, leb_ℤ, ◌==◌,
  nat_eq, bytes_eq, if◌then◌else◌, size, tally, lookup, insert,
}
use neo_transcoder.Relay.Models.{Time, Session, Relay, connection_attempt}
use neo_transcoder.Worker.{
  Worker, IpNet, ClientAcl, PendingAttempt, peer_session, session_event, emit, emit_rejected,
  attempt_key, reserved, is_session_of,
}
use neo_transcoder.Worker.StreamId.{
  ClientId, client, refused, StreamIdError, stream_id_required, invalid_client_id,
  client_id_missing, client_id_from_stream_id,
}
use neo_transcoder.Worker.Limiter.{allow_connection_attempt}
use neo_transcoder.Worker.Acl.{ip_allowed}

unfoldable pub acl_secret : Option ClientAcl → Option Bytes
acl_secret none = none
acl_secret (some acl) = some acl.config.passphrase

unfoldable pub pending_secret : Bytes → Worker → Option Bytes
unfolding acl_secret
pending_secret key w = elim (lookup key w.pending) [
  | none ↦ none
  | some attempt ↦ acl_secret (lookup attempt.client_id w.clients)
]

-- The text of an error of `clientIDFromStreamID`
unfoldable pub stream_id_error : StreamIdError → Bytes
stream_id_error stream_id_required = bytes "Stream ID is required"
stream_id_error invalid_client_id = bytes "invalid client ID in Stream ID"
stream_id_error client_id_missing = bytes "Stream ID must include u=<client-id>"

-- The client ID that `authorize` goes on with: the compatibility default for a missing Stream ID.
unfoldable pub choose_client : Relay → Bytes → ClientId → ClientId
choose_client relay stream_id (client id) = client id
choose_client relay stream_id (refused e) =
    if not (stream_id == []) || not relay.allow_missing_stream_id
    then refused e
    else client relay.default_client_id

-- What the last critical section of `authorize` decides.
pub data Admission : Type 0 where
  already_pending : Bytes → Admission
  client_full relay_full reserved_slot : Admission

secret_of : Option ClientAcl → Bytes
secret_of none = []
secret_of (some acl) = acl.config.passphrase

-- The part of `authorize` from `w.mu.Lock()` on.
unfoldable pub admit : Bytes → PendingAttempt → ClientAcl → Worker → Worker × Admission
unfolding secret_of
admit key attempt acl w =
    let id = attempt.client_id in
    let active = reserved id w + tally (is_session_of id) w.sessions in
    elim (lookup key w.pending) [
      | some old ↦ (w, already_pending (secret_of (lookup old.client_id w.clients)))
      | none ↦
          if leb_ℤ acl.config.max_sessions (pos active)
          then (w, client_full)
          else if leb_ℤ w.config.relay.max_clients (pos (size w.sessions + size w.pending))
          then (w, relay_full)
          else (
            record w {
              pending = insert key attempt w.pending;
              reservations = insert id (reserved id w + 1) w.reservations;
            },
            reserved_slot,
          )
    ]

-- How `authorize` answers after the critical section.
unfoldable pub answer : Session → Time → ClientAcl → Worker × Admission → Worker × Bytes × ℕ
answer base now acl (w, already_pending secret) = (w, secret, 0)
answer base now acl (w, client_full) =
    (emit_rejected base (bytes "client session limit reached") now w, [], 429)
answer base now acl (w, relay_full) =
    (emit_rejected base (bytes "relay client limit reached") now w, [], 429)
answer base now acl (w, reserved_slot) = (w, acl.config.passphrase, 0)

unfoldable pub is_allowed_from : Option Bytes → List IpNet → Bool
is_allowed_from none networks = false
is_allowed_from (some ip) networks = ip_allowed ip networks

module _ (parse_ip : Bytes → Option Bytes) where
  -- `authorize` from the lookup of the client on
  unfoldable pub authorize_client : Bytes → ℕ → Bytes → Time → Bytes → Worker → Worker × Bytes × ℕ
  unfolding answer is_allowed_from
  authorize_client remote_ip remote_port stream_id now id w =
      let base = peer_session id remote_ip remote_port stream_id in
      elim (lookup id w.clients) [
        | none ↦ (emit_rejected base (bytes "unknown or disabled SRT client") now w, [], 404)
        | some acl ↦
            if is_allowed_from (parse_ip remote_ip) acl.networks
            then answer base now acl (
                admit (attempt_key remote_ip remote_port stream_id)
                  (record {
                    client_id = id;
                    remote_ip = remote_ip;
                    remote_port = remote_port;
                    stream_id = stream_id;
                  })
                  acl w)
            else (emit_rejected base (bytes "remote IP is not allowed") now w, [], 403)
      ]

  -- `authorize` after the choice of the client ID
  unfoldable pub with_client : Bytes → ℕ → Bytes → Time → ClientId → Worker → Worker × Bytes × ℕ
  unfolding authorize_client stream_id_error
  with_client remote_ip remote_port stream_id now (client id) w =
      authorize_client remote_ip remote_port stream_id now id w
  with_client remote_ip remote_port stream_id now (refused e) w =
      let base = peer_session [] remote_ip remote_port stream_id in
      (emit_rejected base (stream_id_error e) now w, [], 400)

  -- `authorize` after the rate limiter
  unfoldable pub authorize_allowed : Bytes → ℕ → Bytes → Time → Worker → Worker × Bytes × ℕ
  unfolding with_client choose_client
  authorize_allowed remote_ip remote_port stream_id now w =
      let base = peer_session [] remote_ip remote_port stream_id in
      with_client remote_ip remote_port stream_id now
        (choose_client w.config.relay stream_id (client_id_from_stream_id stream_id))
        (emit (session_event connection_attempt now [] base) w).0

  unfoldable pub limited : Bytes → ℕ → Bytes → Time → Worker × Bool × Bool → Worker × Bytes × ℕ
  unfolding authorize_allowed
  limited remote_ip remote_port stream_id now (w, allowed, report) =
      if allowed then authorize_allowed remote_ip remote_port stream_id now w else (
        (if report
            then emit_rejected (peer_session [] remote_ip remote_port stream_id)
                (bytes "connection attempt rate limit exceeded") now w
            else w),
        [],
        429,
      )

  -- The passphrase for the handshake with code 0, or a refusal's code. The timer that it starts is
  -- `expire_attempt`, called by the environment.
  unfoldable pub authorize : Bytes → ℕ → Bytes → Time → Worker → Worker × Bytes × ℕ
  unfolding limited
  authorize remote_ip remote_port stream_id now w =
      elim (pending_secret (attempt_key remote_ip remote_port stream_id) w) [
        | some secret ↦ (w, secret, 0)
        | none ↦
            limited remote_ip remote_port stream_id now (allow_connection_attempt remote_ip now w)
      ]
