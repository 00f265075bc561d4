-- ===== src/Relay/Manager/Restarts.antt =====
-- How often a failing worker is restarted.
use neo_transcoder.Base.{
  ℕ, ◌+◌, ◌-◌, ◌≤◌, ◌<◌, ◌≡◌, refl, ap, ◌∙◌, inl, inr, Bool, true, false, none, some, List, [], ◌∷◌,
  Bytes, arith, leb, nat_eq, bytes_eq, bytes_beq_iff, lookup, insert, lookup-insert, length, one_if,
  All, Bool-cases,
}
use Prim.Native.Nat.{min}
use neo_transcoder.Relay.Models.{Time, Relay}
use neo_transcoder.Relay.Sessions.{close_relay_sessions}
use neo_transcoder.Relay.Events.{update_state}
use neo_transcoder.Relay.Manager.{
  Manager, RestartTracker, restart_window, max_restarts, tracker_of, allow_restart, Next,
  restart_later, limit_restarts, after_failure,
}

abbrev is_restart : Next → Bool
is_restart restart_later = true
is_restart _ = false

-- How many of the failures at these times are followed by a restart.
pub restarts_in : Bytes → Bytes → List Time → Manager → ℕ
restarts_in id reason [] m = 0
restarts_in id reason (t ∷ ts) m =
    let (m', next) = after_failure id reason t m in
    one_if (is_restart next) + restarts_in id reason ts m'

-- A relay that `wait` restarts.
abbrev pub IsEnabled : Bytes → Manager → Type 0
IsEnabled id m = (relay : Relay) × (lookup id m.store.relays ≡ some relay) × (relay.enabled ≡ true)

-- What a failure of an enabled relay does to its tracker, and whether a restart follows.
after_failure-allow_restart :
    (id reason : Bytes) (t : Time) (m : Manager)
    → IsEnabled id m
    → let (m', next) = after_failure id reason t m in
      (m'.restarts ≡ (allow_restart id t m).0.restarts)
      × (is_restart next ≡ (allow_restart id t m).1)
      × IsEnabled id m'
unfolding after_failure limit_restarts close_relay_sessions update_state allow_restart tracker_of
after_failure-allow_restart id reason t m (relay, known, enabled) =
    elim (Bool-cases (allow_restart id t m).1) [
      | inl allowed ↦
          rw (after_failure, known, enabled, limit_restarts, allowed)
            (refl, refl, (relay, known, enabled))
      | inr refused ↦
          rw (after_failure, known, enabled, limit_restarts, refused)
            (refl, refl, (relay, known, enabled))
    ]

tracker_of-known :
    (id : Bytes) (m : Manager) (tracker : RestartTracker)
    → lookup id m.restarts ≡ some tracker
    → tracker_of id m ≡ tracker
unfolding tracker_of
tracker_of-known id m tracker known = rw (known, tracker_of)

tracker_of-none :
    (id : Bytes) (m : Manager)
    → lookup id m.restarts ≡ none
    → tracker_of id m ≡ record { first_failure = 0; attempts = 0 }
unfolding tracker_of
tracker_of-none id m fresh = rw (fresh, tracker_of)

one_more : RestartTracker → RestartTracker
one_more tracker = record tracker { attempts = tracker.attempts + 1 }

allow-known :
    (id : Bytes) (t : Time) (m : Manager) (tracker : RestartTracker)
    → lookup id m.restarts ≡ some tracker
    → 0 < tracker.first_failure
    → t - tracker.first_failure ≤ restart_window
    → allow_restart id t m ≡ (
      record m { restarts = insert id (one_more tracker) m.restarts },
      leb (tracker.attempts + 1) max_restarts,
    )
unfolding allow_restart one_more
allow-known id t m tracker known started within =
    ground (arith, tracker_of-known id m tracker known)

allow-first :
    (id : Bytes) (t : Time) (m : Manager)
    → lookup id m.restarts ≡ none
    → allow_restart id t m ≡ (
      record m { restarts = insert id (record { first_failure = t; attempts = 1 }) m.restarts },
      true,
    )
unfolding allow_restart
allow-first id t m fresh = ground (arith, tracker_of-none id m fresh)

lookup-counted :
    (id : Bytes) (tracker : RestartTracker) (m n : Manager)
    → m.restarts ≡ insert id tracker n.restarts
    → lookup id m.restarts ≡ some tracker
lookup-counted id tracker m n e =
    ground (arith, e, lookup-insert id id tracker n.restarts, bytes_beq_iff id id)

restarts_known :
    (id reason : Bytes) (ts : List Time) (m : Manager) (tracker : RestartTracker)
    → IsEnabled id m
    → lookup id m.restarts ≡ some tracker
    → 0 < tracker.first_failure
    → All (λ t. t - tracker.first_failure ≤ restart_window) ts
    → restarts_in id reason ts m + min tracker.attempts max_restarts
      ≡ min (tracker.attempts + length ts) max_restarts
unfolding restarts_in one_more
restarts_known id reason [] m tracker on known started within = ground arith
restarts_known id reason (t ∷ ts) m tracker on known started (first, within) =
    let allows = allow-known id t m tracker known started first in
    let (written, goes, still_on) = after_failure-allow_restart id reason t m on in
    let m' = (after_failure id reason t m).0 in
    let again =
      restarts_known id reason ts m' (one_more tracker) still_on
        (lookup-counted id (one_more tracker) m' m (written ∙ ap (λ r. r.0.restarts) allows))
        started within in
    let goes' : is_restart (after_failure id reason t m).1
        ≡ leb (tracker.attempts + 1) max_restarts =
      goes ∙ ap (λ r. r.1) allows in
    ground (arith, again, goes')

-- An enabled relay whose worker has not failed since its start, and whose first failure is not at Go's
-- zero time: of its worker's failures up to five minutes after the first one, exactly the first five are
-- followed by a restart.
pub restarts_in_a_window :
    (id reason : Bytes) (t : Time) (ts : List Time) (m : Manager)
    → IsEnabled id m
    → lookup id m.restarts ≡ none
    → 0 < t
    → All (λ s. s - t ≤ restart_window) ts
    → restarts_in id reason (t ∷ ts) m ≡ min (length (t ∷ ts)) max_restarts
unfolding restarts_in
restarts_in_a_window id reason t ts m on fresh started within =
    let first : RestartTracker = record { first_failure = t; attempts = 1 } in
    let allows = allow-first id t m fresh in
    let (written, goes, still_on) = after_failure-allow_restart id reason t m on in
    let m' = (after_failure id reason t m).0 in
    let again =
      restarts_known id reason ts m' first still_on
        (lookup-counted id first m' m (written ∙ ap (λ r. r.0.restarts) allows)) started within in
    let goes' : is_restart (after_failure id reason t m).1 ≡ true = goes ∙ ap (λ r. r.1) allows in
    ground (arith, again, goes')
