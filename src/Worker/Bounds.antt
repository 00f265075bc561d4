-- ===== src/Worker/Bounds.antt =====
-- The limits that the admission control keeps over every interleaving of its critical sections.
use neo_transcoder.Base.{
  ℕ, ℤ, ◌⊎◌, ◌+◌, ◌-◌, ◌≤◌, ◌≡◌, refl, true, false, none, some, Bytes, arith, pos, to_ℕ, leb_ℤ,
  ◌==◌, bytes_eq, bytes_beq_iff, size, one_if, tally, lookup, insert, delete, Unique, lookup-insert,
  lookup-delete, Unique-insert, Unique-delete, tally-delete, tally-delete-le, tally-insert_new,
  tally-insert-le, Option-cases, Bool-cases, Option, inl, inr,
}
use neo_transcoder.Relay.Models.{Time}
use neo_transcoder.Worker.{
  Worker, ClientAcl, PendingAttempt, reserved, is_session_of, is_attempt_of, attempt_key,
}
use neo_transcoder.Worker.Admission.{admit}
use neo_transcoder.Worker.Sessions.{
  Accepted, new_session, open_session, take_session, release, accept_session, drop_session,
  clear_attempts,
}

pub record IsBounded (w : Worker) : Type 0 where
  pub pending_once : Unique w.pending
  pub known :
      (key : Bytes) (a : PendingAttempt)
      → lookup key w.pending ≡ some a
      → (acl : ClientAcl) × (lookup a.client_id w.clients ≡ some acl)
  pub exact : (c : Bytes) → reserved c w ≡ tally (is_attempt_of c) w.pending
  pub client_cap :
      (c : Bytes) (acl : ClientAcl)
      → lookup c w.clients ≡ some acl
      → tally (is_session_of c) w.sessions + reserved c w ≤ to_ℕ acl.config.max_sessions
  pub relay_cap : size w.sessions + size w.pending ≤ to_ℕ w.config.relay.max_clients

-- `admit` in the case that it reserves a slot
admitted : Bytes → PendingAttempt → Worker → Worker
admitted key attempt w = record w {
  pending = insert key attempt w.pending;
  reservations = insert attempt.client_id (reserved attempt.client_id w + 1) w.reservations;
}

admit-cases :
    (key : Bytes) (attempt : PendingAttempt) (acl : ClientAcl) (w : Worker)
    → ((admit key attempt acl w).0 ≡ w)
      ⊎ ((lookup key w.pending ≡ none)
          × (leb_ℤ acl.config.max_sessions (
                pos (
                  reserved attempt.client_id w
                  + tally (is_session_of attempt.client_id) w.sessions))
              ≡ false)
          × (leb_ℤ w.config.relay.max_clients (pos (size w.sessions + size w.pending)) ≡ false)
          × ((admit key attempt acl w).0 ≡ admitted key attempt w))
unfolding admit admitted
admit-cases key attempt acl w = ground arith

room : (m : ℤ) (n : ℕ) → leb_ℤ m (pos n) ≡ false → n + 1 ≤ to_ℕ m
room m n h = ground arith

module _ (key : Bytes) (attempt : PendingAttempt) (w : Worker) where
  reserved-admitted :
      (c : Bytes)
      → reserved c (admitted key attempt w) ≡ reserved c w + one_if (attempt.client_id == c)
  unfolding reserved admitted
  reserved-admitted c = ground (
    arith,
    lookup-insert attempt.client_id c (reserved attempt.client_id w + 1) w.reservations,
    bytes_beq_iff attempt.client_id c,
  )

  known-admitted :
      (acl : ClientAcl)
      → IsBounded w
      → lookup attempt.client_id w.clients ≡ some acl
      → (j : Bytes) (a : PendingAttempt) → lookup j (insert key attempt w.pending) ≡ some a
      → (other : ClientAcl) × (lookup a.client_id w.clients ≡ some other)
  known-admitted acl h present j a e = elim (Bool-cases (key == j)) [
    | inl same ↦ (acl, ground (arith, lookup-insert key j attempt w.pending, present))
    | inr differs ↦ h.known j a (ground (arith, lookup-insert key j attempt w.pending))
  ]

  admitted-IsBounded :
      (acl : ClientAcl)
      → IsBounded w
      → lookup attempt.client_id w.clients ≡ some acl
      → lookup key w.pending ≡ none
      → leb_ℤ acl.config.max_sessions
          (pos (reserved attempt.client_id w + tally (is_session_of attempt.client_id) w.sessions))
        ≡ false
      → leb_ℤ w.config.relay.max_clients (pos (size w.sessions + size w.pending)) ≡ false
      → IsBounded (admitted key attempt w)
  unfolding admitted
  admitted-IsBounded acl h known fresh below_client below_relay = record {
    pending_once = Unique-insert key attempt w.pending h.pending_once;
    known = known-admitted acl h known;
    exact = λ c. omega (
      arith,
      reserved-admitted c,
      h.exact c,
      tally-insert_new (is_attempt_of c) key attempt w.pending fresh,
    );
    client_cap = λ c other e. ground (
      arith,
      reserved-admitted c,
      h.client_cap c other e,
      bytes_beq_iff attempt.client_id c,
      room acl.config.max_sessions _ below_client,
    );
    relay_cap = omega (
      arith,
      h.relay_cap,
      tally-insert_new (λ _. true) key attempt w.pending fresh,
      room w.config.relay.max_clients _ below_relay,
    );
  }

pub admit-IsBounded :
    (key : Bytes) (attempt : PendingAttempt) (acl : ClientAcl) (w : Worker)
    → IsBounded w
    → lookup attempt.client_id w.clients ≡ some acl
    → IsBounded (admit key attempt acl w).0
admit-IsBounded key attempt acl w h known = elim (admit-cases key attempt acl w) [
  | inl e ↦ rw e h
  | inr (fresh, below_client, below_relay, e) ↦
      rw e (admitted-IsBounded key attempt w acl h known fresh below_client below_relay)
]

-- `release` of an attempt that is pending
released : Bytes → PendingAttempt → Worker → Worker
released key attempt w = record w {
  pending = delete key w.pending;
  reservations = insert attempt.client_id (reserved attempt.client_id w - 1) w.reservations;
}

module _ (key : Bytes) (attempt : PendingAttempt) (w : Worker) where
  reserved-released :
      (c : Bytes)
      → reserved c (released key attempt w) ≡ reserved c w - one_if (attempt.client_id == c)
  unfolding reserved released
  reserved-released c = ground (
    arith,
    lookup-insert attempt.client_id c (reserved attempt.client_id w - 1) w.reservations,
    bytes_beq_iff attempt.client_id c,
  )

  module _ (h : IsBounded w) (held : lookup key w.pending ≡ some attempt) where
    -- An attempt that is pending holds a reservation, so `reservations[id]--` is exact.
    held-reservation : (c : Bytes) → one_if (attempt.client_id == c) ≤ reserved c w
    held-reservation c =
        omega (
          arith,
          h.exact c,
          tally-delete (is_attempt_of c) key w.pending attempt h.pending_once held,
        )

    -- What an attempt that is taken out leaves for a session in its place.
    released-room :
        (c : Bytes)
        → reserved c (released key attempt w) + one_if (attempt.client_id == c) ≡ reserved c w
    released-room c = omega (arith, reserved-released c, held-reservation c)

    released-size : size (released key attempt w).pending + 1 ≡ size w.pending
    unfolding released
    released-size = tally-delete (λ _. true) key w.pending attempt h.pending_once held

    released-IsBounded : IsBounded (released key attempt w)
    unfolding released
    released-IsBounded = record {
      pending_once = Unique-delete key w.pending h.pending_once;
      known = λ j a e. h.known j a (ground (arith, lookup-delete key j w.pending));
      exact = λ c. omega (
        arith,
        released-room c,
        h.exact c,
        tally-delete (is_attempt_of c) key w.pending attempt h.pending_once held,
      );
      client_cap = λ c acl e. omega (arith, released-room c, h.client_cap c acl e);
      relay_cap = omega (arith, released-size, h.relay_cap);
    }

release_held :
    (key : Bytes) (attempt : PendingAttempt) (w : Worker)
    → lookup key w.pending ≡ some attempt
    → release key w ≡ released key attempt w
unfolding release released
release_held key attempt w held = rw held

release_missing : (key : Bytes) (w : Worker) → lookup key w.pending ≡ none → release key w ≡ w
unfolding release
release_missing key w missing = rw missing

pub release-IsBounded : (key : Bytes) (w : Worker) → IsBounded w → IsBounded (release key w)
release-IsBounded key w h = elim (Option-cases (lookup key w.pending)) [
  | inl missing ↦ rw (release_missing key w missing) h
  | inr (attempt, held) ↦
      rw (release_held key attempt w held) (released-IsBounded key attempt w h held)
]

-- A session may be opened where there is room for it below both limits.
open_session-IsBounded :
    (conn : Accepted) (attempt : PendingAttempt) (id : Bytes) (now : Time) (w : Worker)
    → IsBounded w
    → ((c : Bytes) (acl : ClientAcl)
        → lookup c w.clients ≡ some acl
        → tally (is_session_of c) w.sessions + reserved c w + one_if (attempt.client_id == c)
          ≤ to_ℕ acl.config.max_sessions)
    → size w.sessions + size w.pending + 1 ≤ to_ℕ w.config.relay.max_clients
    → IsBounded (open_session conn attempt id now w)
unfolding open_session new_session reserved
open_session-IsBounded conn attempt id now w h below_client below_relay =
    let s = new_session conn w.config.relay.id attempt.client_id id now in
    record {
      pending_once = h.pending_once;
      known = h.known;
      exact = h.exact;
      client_cap = λ c acl e.
          omega (arith, below_client c acl e, tally-insert-le (is_session_of c) id s w.sessions);
      relay_cap = omega (arith, below_relay, tally-insert-le (λ _. true) id s w.sessions);
    }

-- The session takes the place of the attempt that was taken out.
seated-IsBounded :
    (key : Bytes) (attempt : PendingAttempt) (w : Worker) (conn : Accepted) (id : Bytes)
    (now : Time)
    → IsBounded w
    → lookup key w.pending ≡ some attempt
    → IsBounded (open_session conn attempt id now (released key attempt w))
unfolding released
seated-IsBounded key attempt w conn id now h held =
    open_session-IsBounded conn attempt id now (released key attempt w)
      (released-IsBounded key attempt w h held)
      (λ c acl e. omega (arith, released-room key attempt w h held c, h.client_cap c acl e))
      (omega (arith, released-size key attempt w h held, h.relay_cap))

take_session-IsBounded :
    (conn : Accepted) (key : Bytes) (attempt : Option PendingAttempt) (id : Option Bytes)
    (now : Time) (w : Worker)
    → IsBounded w
    → lookup key w.pending ≡ attempt
    → IsBounded (take_session conn attempt id now (release key w))
unfolding take_session
take_session-IsBounded conn key none id now w h e = release-IsBounded key w h
take_session-IsBounded conn key (some attempt) none now w h e = release-IsBounded key w h
take_session-IsBounded conn key (some attempt) (some id) now w h e =
    rw (release_held key attempt w e) (seated-IsBounded key attempt w conn id now h e)

pub accept_session-IsBounded :
    (conn : Accepted) (id : Option Bytes) (now : Time) (w : Worker)
    → IsBounded w
    → IsBounded (accept_session conn id now w)
unfolding accept_session
accept_session-IsBounded conn id now w h =
    take_session-IsBounded conn (attempt_key conn.remote_ip conn.remote_port conn.stream_id)
      (lookup (attempt_key conn.remote_ip conn.remote_port conn.stream_id) w.pending) id now w h
      refl

pub drop_session-IsBounded : (id : Bytes) (w : Worker) → IsBounded w → IsBounded (drop_session id w)
unfolding drop_session reserved
drop_session-IsBounded id w h = record {
  pending_once = h.pending_once;
  known = h.known;
  exact = h.exact;
  client_cap = λ c acl e.
      omega (arith, h.client_cap c acl e, tally-delete-le (is_session_of c) id w.sessions);
  relay_cap = omega (arith, h.relay_cap, tally-delete-le (λ _. true) id w.sessions);
}

pub clear_attempts-IsBounded : (w : Worker) → IsBounded w → IsBounded (clear_attempts w)
unfolding clear_attempts reserved lookup tally Unique
clear_attempts-IsBounded w h = record {
  pending_once = tt;
  known = λ j a e. cc;
  exact = λ c. refl;
  client_cap = λ c acl e. omega (arith, h.client_cap c acl e);
  relay_cap = omega (arith, h.relay_cap);
}
