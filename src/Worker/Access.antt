-- ===== src/Worker/Access.antt =====
-- Whom the listener grants a handshake.
use neo_transcoder.Base.{
  ℕ, ◌≡◌, ◌⊎◌, refl, sym, ap, ◌∙◌, Bool, true, false, Option, some, [], Bytes, arith, lookup,
  bytes_eq, inl, inr, Option-cases, Bool-cases,
}
use mathlib.Core.Path.{subst}
use neo_transcoder.Relay.Models.{Time, WorkerEvent, connection_attempt, WorkerConfig}
use neo_transcoder.Worker.{Worker, ClientAcl, emit, attempt_key, session_event, peer_session}
use neo_transcoder.Worker.StreamId.{ClientId, client, refused, client_id_from_stream_id}
use neo_transcoder.Worker.Limiter.{
  allow_connection_attempt, limit_attempt, open_window, count_attempt,
}
use neo_transcoder.Worker.Admission.{
  pending_secret, choose_client, is_allowed_from, authorize_client, with_client, authorize_allowed,
  limited, authorize,
}

-- A client of the listener that may connect from an address.
pub record IsPermitted (parse_ip : Bytes → Option Bytes) (ip id : Bytes) (w : Worker) : Type 0 where
  pub acl : ClientAcl
  pub known : lookup id w.clients ≡ some acl
  pub allowed : is_allowed_from (parse_ip ip) acl.networks ≡ true

clients-emit : (event : WorkerEvent) (w : Worker) → (emit event w).0.clients ≡ w.clients
unfolding emit
clients-emit event w = ground arith

relay-emit : (event : WorkerEvent) (w : Worker) → (emit event w).0.config ≡ w.config
unfolding emit
relay-emit event w = ground arith

limit-same :
    (ip : Bytes) (now : Time) (w : Worker)
    → ((allow_connection_attempt ip now w).0.clients ≡ w.clients)
      × ((allow_connection_attempt ip now w).0.config ≡ w.config)
unfolding allow_connection_attempt limit_attempt open_window count_attempt
limit-same ip now w = ground arith

module _ (parse_ip : Bytes → Option Bytes) (ip : Bytes) (port : ℕ) (stream_id : Bytes)
    (now : Time) where
  authorize_client-IsPermitted :
      (id : Bytes) (w w' : Worker) (secret : Bytes)
      → authorize_client parse_ip ip port stream_id now id w ≡ (w', secret, 0)
      → IsPermitted parse_ip ip id w
  unfolding authorize_client
  authorize_client-IsPermitted id w w' secret h = elim (Option-cases (lookup id w.clients)) [
    | inl missing ↦ cc (rw (missing, authorize_client) at h)
    | inr (acl, known) ↦ elim (Bool-cases (is_allowed_from (parse_ip ip) acl.networks)) [
      | inl allowed ↦ record { acl = acl; known = known; allowed = allowed }
      | inr refused_ip ↦ cc (rw (known, authorize_client, refused_ip) at h)
    ]
  ]

  with_client-IsPermitted :
      (c : ClientId) (w w' : Worker) (secret : Bytes)
      → with_client parse_ip ip port stream_id now c w ≡ (w', secret, 0)
      → (id : Bytes) × (c ≡ client id) × IsPermitted parse_ip ip id w
  unfolding with_client
  with_client-IsPermitted (client id) w w' secret h =
      (id, refl, authorize_client-IsPermitted id w w' secret h)
  with_client-IsPermitted (refused e) w w' secret h = cc

  IsPermitted-same :
      (id : Bytes) (v w : Worker)
      → v.clients ≡ w.clients
      → IsPermitted parse_ip ip id v
      → IsPermitted parse_ip ip id w
  IsPermitted-same id v w same p = record {
    acl = p.acl;
    known = subst (λ t. lookup id t ≡ some p.acl) same p.known;
    allowed = p.allowed;
  }

  allowed-IsPermitted :
      (w w' : Worker) (secret : Bytes)
      → authorize_allowed parse_ip ip port stream_id now w ≡ (w', secret, 0)
      → (id : Bytes) × (choose_client w.config.relay stream_id (client_id_from_stream_id stream_id)
          ≡ client id)
        × IsPermitted parse_ip ip id w
  unfolding authorize_allowed
  allowed-IsPermitted w w' secret h =
      let event = session_event connection_attempt now [] (peer_session [] ip port stream_id) in
      let (id, chosen, p) = with_client-IsPermitted _ (emit event w).0 w' secret h in
      (id, chosen, IsPermitted-same id (emit event w).0 w (clients-emit event w) p)

  limited-IsPermitted :
      (r : Worker × Bool × Bool) (w' : Worker) (secret : Bytes)
      → limited parse_ip ip port stream_id now r ≡ (w', secret, 0)
      → (id : Bytes) × (choose_client r.0.config.relay stream_id
            (client_id_from_stream_id stream_id)
          ≡ client id)
        × IsPermitted parse_ip ip id r.0
  unfolding limited
  limited-IsPermitted (w, true, report) w' secret h = allowed-IsPermitted w w' secret h
  limited-IsPermitted (w, false, report) w' secret h = cc

-- A handshake that is granted was pending already, or its Stream ID names a client of the listener (or
-- is missing where the relay has a default client for that), and the client's networks hold the
-- peer's address.
pub authorize-IsPermitted :
    (parse_ip : Bytes → Option Bytes) (ip : Bytes) (port : ℕ) (stream_id : Bytes) (now : Time)
    (w w' : Worker) (secret : Bytes)
    → authorize parse_ip ip port stream_id now w ≡ (w', secret, 0)
    → (pending_secret (attempt_key ip port stream_id) w ≡ some secret)
      ⊎ ((id : Bytes) × (choose_client w.config.relay stream_id (client_id_from_stream_id stream_id)
            ≡ client id)
          × IsPermitted parse_ip ip id w)
unfolding authorize
authorize-IsPermitted parse_ip ip port stream_id now w w' secret h =
    elim (Option-cases (pending_secret (attempt_key ip port stream_id) w)) [
      | inl fresh ↦
          let (id, chosen, p) =
            limited-IsPermitted parse_ip ip port stream_id now (allow_connection_attempt ip now w)
              w' secret (rw (fresh, authorize) at h) in
          let (clients, configs) = limit-same ip now w in
          inr (
            id,
            ap
                  (λ (c : WorkerConfig).
                    choose_client c.relay stream_id (client_id_from_stream_id stream_id))
                  (sym configs)
                ∙ chosen,
            IsPermitted-same parse_ip ip port stream_id now id (allow_connection_attempt ip now w).0
                w clients p,
          )
      | inr (s, held) ↦ inl (ground (arith, rw (held, authorize) at h, held))
    ]
