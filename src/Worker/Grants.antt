-- ===== src/Worker/Grants.antt =====
-- What a granted handshake leaves behind.
use neo_transcoder.Base.{
  ℕ, ◌≡◌, ◌∙◌, Bool, true, false, Option, none, some, Bytes, arith, lookup, lookup-insert, bytes_eq,
  bytes_beq_iff, inl, inr, Option-cases,
}
use neo_transcoder.Relay.Models.{Time, Session, WorkerEvent}
use neo_transcoder.Worker.{Worker, ClientAcl, PendingAttempt, emit, peer_session, attempt_key}
use neo_transcoder.Worker.StreamId.{ClientId, client, refused}
use neo_transcoder.Worker.Limiter.{
  allow_connection_attempt, limit_attempt, open_window, count_attempt,
}
use neo_transcoder.Worker.Admission.{
  acl_secret, pending_secret, admit, answer, authorize_client, with_client, authorize_allowed,
  limited, authorize,
}
use neo_transcoder.Worker.Bounds.{IsBounded}

secret_held :
    (key : Bytes) (w : Worker) (a : PendingAttempt) (acl : ClientAcl)
    → lookup key w.pending ≡ some a
    → lookup a.client_id w.clients ≡ some acl
    → pending_secret key w ≡ some acl.config.passphrase
unfolding pending_secret
secret_held key w a acl held known = rw (held, pending_secret, known, acl_secret)

-- A pending handshake of a bounded worker has a secret.
no_secret-missing :
    (key : Bytes) (w : Worker)
    → IsBounded w
    → pending_secret key w ≡ none
    → lookup key w.pending ≡ none
no_secret-missing key w h e = elim (Option-cases (lookup key w.pending)) [
  | inl missing ↦ missing
  | inr (a, held) ↦
      let (acl, known) = h.known key a held in cc (secret_held key w a acl held known, e)
]

pending-emit :
    (key : Bytes) (event : WorkerEvent) (w : Worker)
    → lookup key (emit event w).0.pending ≡ lookup key w.pending
unfolding emit
pending-emit key event w = ground arith

pending-limit :
    (key ip : Bytes) (now : Time) (w : Worker)
    → lookup key (allow_connection_attempt ip now w).0.pending ≡ lookup key w.pending
unfolding allow_connection_attempt limit_attempt open_window count_attempt
pending-limit key ip now w = ground arith

module _ (parse_ip : Bytes → Option Bytes) (ip : Bytes) (port : ℕ) (stream_id : Bytes)
    (now : Time) where
  abbrev key_of : Bytes
  key_of = attempt_key ip port stream_id

  answer-secret :
      (base : Session) (a : PendingAttempt) (acl : ClientAcl) (w w' : Worker) (secret : Bytes)
      → lookup key_of w.pending ≡ none
      → lookup a.client_id w.clients ≡ some acl
      → answer base now acl (admit key_of a acl w) ≡ (w', secret, 0)
      → pending_secret key_of w' ≡ some secret
  unfolding answer admit pending_secret
  answer-secret base a acl w w' secret fresh known h =
      ground (arith, lookup-insert key_of key_of a w.pending, bytes_beq_iff key_of key_of)

  authorize_client-secret :
      (id : Bytes) (w w' : Worker) (secret : Bytes)
      → lookup key_of w.pending ≡ none
      → authorize_client parse_ip ip port stream_id now id w ≡ (w', secret, 0)
      → pending_secret key_of w' ≡ some secret
  unfolding authorize_client
  authorize_client-secret id w w' secret fresh h = elim (Option-cases (lookup id w.clients)) [
    | inl missing ↦ cc (rw (missing, authorize_client) at h)
    | inr (acl, known) ↦ ground (
      arith,
      answer-secret (peer_session id ip port stream_id)
          (record { client_id = id; remote_ip = ip; remote_port = port; stream_id = stream_id }) acl
          w w' secret fresh known,
      known,
      h,
    )
  ]

  with_client-secret :
      (c : ClientId) (w w' : Worker) (secret : Bytes)
      → lookup key_of w.pending ≡ none
      → with_client parse_ip ip port stream_id now c w ≡ (w', secret, 0)
      → pending_secret key_of w' ≡ some secret
  unfolding with_client
  with_client-secret (client id) w w' secret fresh h =
      authorize_client-secret id w w' secret fresh h
  with_client-secret (refused e) w w' secret fresh h = ground arith

  limited-secret :
      (r : Worker × Bool × Bool) (w' : Worker) (secret : Bytes)
      → lookup key_of r.0.pending ≡ none
      → limited parse_ip ip port stream_id now r ≡ (w', secret, 0)
      → pending_secret key_of w' ≡ some secret
  unfolding limited authorize_allowed
  limited-secret (w, true, report) w' secret fresh h =
      with_client-secret _ _ w' secret (pending-emit key_of _ w ∙ fresh) h
  limited-secret (w, false, report) w' secret fresh h = ground arith

  -- A handshake that is granted is pending afterwards, under the secret that was handed out.
  authorize-secret :
      (w w' : Worker) (secret : Bytes)
      → IsBounded w
      → authorize parse_ip ip port stream_id now w ≡ (w', secret, 0)
      → pending_secret key_of w' ≡ some secret
  unfolding authorize
  authorize-secret w w' secret b h = elim (Option-cases (pending_secret key_of w)) [
    | inl e ↦
        limited-secret (allow_connection_attempt ip now w) w' secret
          (pending-limit key_of ip now w ∙ no_secret-missing key_of w b e) (rw (e, authorize) at h)
    | inr (s, e) ↦ ground (arith, rw (e, authorize) at h, e)
  ]

-- Where a listener within its limits granted a handshake, the same handshake again, at any time and
-- before anything else happens to it, is granted with the same passphrase and changes nothing: it is
-- not counted as an attempt and reserves no second slot.
pub authorize_again :
    (parse_ip : Bytes → Option Bytes) (ip : Bytes) (port : ℕ) (stream_id : Bytes) (now later : Time)
    (w w' : Worker) (secret : Bytes)
    → IsBounded w
    → authorize parse_ip ip port stream_id now w ≡ (w', secret, 0)
    → authorize parse_ip ip port stream_id later w' ≡ (w', secret, 0)
unfolding authorize
authorize_again parse_ip ip port stream_id now later w w' secret b h =
    rw (authorize-secret parse_ip ip port stream_id now w w' secret b h, authorize)
