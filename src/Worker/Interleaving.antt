-- ===== src/Worker/Interleaving.antt =====
-- The listener as a transition system: a step is one critical section of worker.go, one event that goes
-- into or out of the channel, or one packet that is offered to the sessions. The handlers are runs of
-- such steps, between which other goroutines make theirs.
use neo_transcoder.Base.{
  ℕ, ◌≡◌, refl, ap, sym, Unique, Bool, true, Option, none, some, [], ◌∷◌, Bytes, arith, to_ℕ, ◌==◌,
  bytes_eq, Table, size, tally, lookup,
}
use mathlib.Core.Path.{subst}
use neo_transcoder.Relay.Models.{Time, WorkerConfig, WorkerEvent, Session}
use neo_transcoder.Worker.{
  Worker, IpNet, ClientAcl, ClientSession, PendingAttempt, emit, write_event, reserved,
  is_session_of, is_attempt_of,
}
use neo_transcoder.Worker.Limiter.{
  allow_connection_attempt, limit_attempt, open_window, count_attempt,
}
use neo_transcoder.Worker.Admission.{admit}
use neo_transcoder.Worker.Sessions.{Accepted, release, accept_session, drop_session, clear_attempts}
use neo_transcoder.Worker.Bounds.{
  IsBounded, admit-IsBounded, release-IsBounded, accept_session-IsBounded, drop_session-IsBounded,
  clear_attempts-IsBounded,
}
use neo_transcoder.Worker.Broadcast.{offer, offer_all, broadcast}
use neo_transcoder.Base.{ok}
use neo_transcoder.Worker.Start.{new_worker}

pub data Step : Worker → Worker → Type 0 where
  limit : (w : Worker) (ip : Bytes) (now : Time) → Step w (allow_connection_attempt ip now w).0
  report : (w : Worker) (event : WorkerEvent) → Step w (emit event w).0
  write : (w : Worker) → Step w (write_event w)
  reserve :
      (w : Worker) (key : Bytes) (attempt : PendingAttempt) (acl : ClientAcl)
      → lookup attempt.client_id w.clients ≡ some acl
      → Step w (admit key attempt acl w).0
  let_go : (w : Worker) (key : Bytes) → Step w (release key w)
  seat :
      (w : Worker) (conn : Accepted) (id : Option Bytes) (now : Time)
      → Step w (accept_session conn id now w)
  leave : (w : Worker) (id : Bytes) → Step w (drop_session id w)
  send : (w : Worker) (packet : Bytes) → Step w (broadcast packet w).0
  stop : (w : Worker) → Step w (clear_attempts w)

-- The states that a run of critical sections leads to.
pub data Reach (start : Worker) : Worker → Type 0 where
  next : {before after : Worker} → Reach start before → Step before after → Reach start after
  here : Reach start start

-- The limiter, the channel and the packets touch none of the fields that the limits speak of.
record SameSeats (a b : Worker) : Type 0 where
  same_config : b.config ≡ a.config
  same_clients : b.clients ≡ a.clients
  same_pending : b.pending ≡ a.pending
  same_reservations : b.reservations ≡ a.reservations
  same_tally : (c : Bytes) → tally (is_session_of c) b.sessions ≡ tally (is_session_of c) a.sessions
  same_size : size b.sessions ≡ size a.sessions

-- A change that leaves all these fields alone.
SameSeats-of :
    (a b : Worker)
    → (b.config ≡ a.config)
      × (b.clients ≡ a.clients)
      × (b.pending ≡ a.pending)
      × (b.reservations ≡ a.reservations)
      × (b.sessions ≡ a.sessions)
    → SameSeats a b
SameSeats-of a b (config, clients, pending, reservations, sessions) = record {
  same_config = config;
  same_clients = clients;
  same_pending = pending;
  same_reservations = reservations;
  same_tally = λ c. ap (λ t. tally (is_session_of c) t) sessions;
  same_size = ap (λ t. size t) sessions;
}

SameSeats-limit :
    (w : Worker) (ip : Bytes) (now : Time) → SameSeats w (allow_connection_attempt ip now w).0
unfolding allow_connection_attempt limit_attempt open_window count_attempt
SameSeats-limit w ip now = SameSeats-of w (allow_connection_attempt ip now w).0 (ground arith)

SameSeats-emit : (w : Worker) (event : WorkerEvent) → SameSeats w (emit event w).0
unfolding emit
SameSeats-emit w event = SameSeats-of w (emit event w).0 (ground arith)

SameSeats-write : (w : Worker) → SameSeats w (write_event w)
unfolding write_event
SameSeats-write w = SameSeats-of w (write_event w) (refl, refl, refl, refl, refl)

-- A packet that is offered to a session leaves its client alone.
client-offer : (packet : Bytes) (s : ClientSession) → (offer packet s).0.info ≡ s.info
unfolding offer
client-offer packet s = ground arith

tally-offer_all :
    (p : Bytes → Bool) (packet : Bytes) (t : Table Bytes ClientSession)
    → tally (λ s. p s.info.client_id) (offer_all packet t).0 ≡ tally (λ s. p s.info.client_id) t
unfolding offer_all tally
tally-offer_all p packet [] = refl
tally-offer_all p packet ((id, s) ∷ t) =
    ground (
      arith,
      tally-offer_all p packet t,
      ap (λ (x : Session). p x.client_id) (client-offer packet s),
    )

SameSeats-send : (w : Worker) (packet : Bytes) → SameSeats w (broadcast packet w).0
unfolding broadcast
SameSeats-send w packet = record {
  same_config = refl;
  same_clients = refl;
  same_pending = refl;
  same_reservations = refl;
  same_tally = λ c. tally-offer_all (λ id. id == c) packet w.sessions;
  same_size = tally-offer_all (λ id. true) packet w.sessions;
}

reserved-same :
    (c : Bytes) (a b : Worker) → b.reservations ≡ a.reservations → reserved c b ≡ reserved c a
unfolding reserved
reserved-same c a b e =
    ap (λ (t : Table Bytes ℕ). elim (lookup c t) as (λ _. ℕ) [ none ↦ 0 | some n ↦ n ]) e

reserved-none : (c : Bytes) (w : Worker) → w.reservations ≡ [] → reserved c w ≡ 0
unfolding reserved lookup
reserved-none c w e =
    ap (λ (t : Table Bytes ℕ). elim (lookup c t) as (λ _. ℕ) [ none ↦ 0 | some n ↦ n ]) e

SameSeats-IsBounded : (a b : Worker) → SameSeats a b → IsBounded a → IsBounded b
SameSeats-IsBounded a b e h = record {
  pending_once = subst Unique (sym e.same_pending) h.pending_once;
  known = λ j x p.
      subst (λ t. (acl : ClientAcl) × (lookup x.client_id t ≡ some acl)) (sym e.same_clients)
        (h.known j x (subst (λ t. lookup j t ≡ some x) e.same_pending p));
  exact = λ c. omega (
    arith,
    reserved-same c a b e.same_reservations,
    h.exact c,
    ap (λ t. tally (is_attempt_of c) t) e.same_pending,
  );
  client_cap = λ c acl known. omega (
    arith,
    reserved-same c a b e.same_reservations,
    e.same_tally c,
    h.client_cap c acl (subst (λ t. lookup c t ≡ some acl) e.same_clients known),
  );
  relay_cap = omega (
    arith,
    h.relay_cap,
    e.same_size,
    ap (λ t. size t) e.same_pending,
    ap (λ (x : WorkerConfig). to_ℕ x.relay.max_clients) e.same_config,
  );
}

Step-IsBounded : {u v : Worker} → Step u v → IsBounded u → IsBounded v
Step-IsBounded (limit w ip now) h =
    SameSeats-IsBounded w (allow_connection_attempt ip now w).0 (SameSeats-limit w ip now) h
Step-IsBounded (report w event) h =
    SameSeats-IsBounded w (emit event w).0 (SameSeats-emit w event) h
Step-IsBounded (write w) h = SameSeats-IsBounded w (write_event w) (SameSeats-write w) h
Step-IsBounded (reserve w key attempt acl known) h = admit-IsBounded key attempt acl w h known
Step-IsBounded (let_go w key) h = release-IsBounded key w h
Step-IsBounded (seat w conn id now) h = accept_session-IsBounded conn id now w h
Step-IsBounded (leave w id) h = drop_session-IsBounded id w h
Step-IsBounded (send w packet) h =
    SameSeats-IsBounded w (broadcast packet w).0 (SameSeats-send w packet) h
Step-IsBounded (stop w) h = clear_attempts-IsBounded w h

Reach-IsBounded : {w v : Worker} → IsBounded w → Reach w v → IsBounded v
Reach-IsBounded h here = h
Reach-IsBounded h (next r s) = Step-IsBounded s (Reach-IsBounded h r)

empty-IsBounded :
    (w : Worker) → w.sessions ≡ [] → w.pending ≡ [] → w.reservations ≡ [] → IsBounded w
unfolding tally Unique lookup
empty-IsBounded w no_session no_attempt no_reservation = record {
  pending_once = subst Unique (sym no_attempt) tt;
  known = λ j a e. cc (subst (λ t. lookup j t ≡ some a) no_attempt e);
  exact = λ c.
      omega
        (arith, reserved-none c w no_reservation, ap (λ t. tally (is_attempt_of c) t) no_attempt);
  client_cap = λ c acl known.
      omega
        (arith, reserved-none c w no_reservation, ap (λ t. tally (is_session_of c) t) no_session);
  relay_cap = omega (arith, ap (λ t. size t) no_session, ap (λ t. size t) no_attempt);
}

-- A worker that `newWorker` has set up has no session, no attempt and no reservation.
start_empty :
    (parse_cidr : Bytes → Option IpNet) (config : WorkerConfig) (w : Worker)
    → new_worker parse_cidr config ≡ ok w
    → (w.sessions ≡ []) × (w.pending ≡ []) × (w.reservations ≡ [])
unfolding new_worker
start_empty parse_cidr config w h = ground arith

start-IsBounded :
    (parse_cidr : Bytes → Option IpNet) (config : WorkerConfig) (w : Worker)
    → new_worker parse_cidr config ≡ ok w
    → IsBounded w
start-IsBounded parse_cidr config w h =
    let (no_session, no_attempt, no_reservation) = start_empty parse_cidr config w h in
    empty-IsBounded w no_session no_attempt no_reservation

-- From the start of a listener on, whatever the order in which the critical sections of its goroutines
-- run: sessions and pending handshakes together stay within `max_clients`, the sessions and
-- reservations of each client stay within its `max_sessions`, each client's reservation count is
-- exactly the number of its pending handshakes, and no handshake is pending twice.
pub listener_limits :
    (parse_cidr : Bytes → Option IpNet) (config : WorkerConfig) (w v : Worker)
    → new_worker parse_cidr config ≡ ok w
    → Reach w v
    → IsBounded v
listener_limits parse_cidr config w v started r =
    Reach-IsBounded (start-IsBounded parse_cidr config w started) r
