-- ===== src/Relay/History.antt =====
-- Everything that changes a store after it was set up, in any order: the operations on relays and
-- clients, whether or not their save succeeds, the workers' events, and the manager's updates.
use neo_transcoder.Base.{ℤ, ◌≡◌, refl, arith, sym, Bool, some, [], Bytes, bytes_eq, lookup}
use mathlib.Core.Path.{subst}
use neo_transcoder.Relay.Models.{Time, Relay, RelayState, Client, WorkerEvent}
use neo_transcoder.Relay.Normalize.{Net}
use neo_transcoder.Relay.Store.{Store, upsert_relay, rotate_relay_key, delete_relay}
use neo_transcoder.Relay.Credentials.{upsert_client, rotate_client_key, delete_client}
use neo_transcoder.Relay.Sessions.{close_relay_sessions}
use neo_transcoder.Relay.Events.{update_state, apply_type, apply_worker_event}
use neo_transcoder.Relay.Consistent.{IsConsistent, HasDefault}
use neo_transcoder.Relay.Consistent.OfRelays.{
  upsert_relay-IsConsistent, rotate_relay_key-IsConsistent, delete_relay-IsConsistent,
}
use neo_transcoder.Relay.Consistent.OfClients.{upsert_client-IsConsistent}
use neo_transcoder.Relay.Consistent.OfKeys.{
  rotate_client_key-IsConsistent, delete_client-IsConsistent,
}

-- The store of a daemon that starts without a state file.
abbrev pub empty_store : Store
empty_store = record { relays = []; states = []; clients = []; sessions = [] }

module _ (net : Net) (publish_key client_key : Bytes → ℤ → Bytes) where
  pub data Change (s : Store) : Store → Type 1 where
    relay_saved :
        (given : Relay) (saved : Bool) (now : Time)
        → Change s (upsert_relay publish_key net saved now given s).0
    relay_key_rotated :
        (id : Bytes) (saved : Bool) (now : Time)
        → Change s (rotate_relay_key publish_key id saved now s).0
    relay_deleted :
        (id : Bytes) (saved : Bool) (now : Time) → Change s (delete_relay id saved now s).0
    client_saved :
        (given : Client) (saved create_only : Bool) (now : Time)
        → Change s (upsert_client client_key net saved create_only now given s).0
    client_key_rotated :
        (id : Bytes) (saved : Bool) (now : Time)
        → Change s (rotate_client_key client_key id saved now s).0
    client_deleted : (id : Bytes) (saved : Bool) → Change s (delete_client id saved s).0
    sessions_closed :
        (relay_id reason : Bytes) (given clock : Time)
        → Change s (close_relay_sessions relay_id reason given clock s).0
    state_updated :
        (id : Bytes) (now : Time) (update : RelayState → RelayState)
        → Change s (update_state id now update s)
    event_applied :
        (relay_id : Bytes) (event : WorkerEvent) (clock : Time)
        → Change s (apply_worker_event relay_id event clock s).0

  pub data History : Store → Type 1 where
    opened : History empty_store
    and_then : {s t : Store} → History s → Change s t → History t

  -- A change that leaves relays and clients alone.
  elsewhere-IsConsistent :
      (s t : Store) → t.relays ≡ s.relays → t.clients ≡ s.clients → IsConsistent s → IsConsistent t
  elsewhere-IsConsistent s t relays clients h = record {
    relay_keys = λ id r e. h.relay_keys id r (subst (λ x. lookup id x ≡ some r) relays e);
    client_keys = λ id c e. h.client_keys id c (subst (λ x. lookup id x ≡ some c) clients e);
    defaults = λ id r e on.
        subst (λ x. HasDefault x r) (sym clients)
          (h.defaults id r (subst (λ x. lookup id x ≡ some r) relays e) on);
    assignments = λ id c e relay_id named.
        let (r, found) =
          h.assignments id c (subst (λ x. lookup id x ≡ some c) clients e) relay_id named in
        (r, subst (λ x. lookup relay_id x ≡ some r) (sym relays) found);
  }

  apply_worker_event-elsewhere :
      (relay_id : Bytes) (event : WorkerEvent) (clock : Time) (s : Store)
      → ((apply_worker_event relay_id event clock s).0.relays ≡ s.relays)
        × ((apply_worker_event relay_id event clock s).0.clients ≡ s.clients)
  unfolding apply_worker_event apply_type
  apply_worker_event-elsewhere relay_id event clock s = ground arith

  Change-IsConsistent : {s t : Store} → Change s t → IsConsistent s → IsConsistent t
  unfolding update_state close_relay_sessions
  Change-IsConsistent {s} (relay_saved given saved now) h =
      upsert_relay-IsConsistent publish_key net saved now given s h
  Change-IsConsistent {s} (relay_key_rotated id saved now) h =
      rotate_relay_key-IsConsistent publish_key id saved now s h
  Change-IsConsistent {s} (relay_deleted id saved now) h =
      delete_relay-IsConsistent id saved now s h
  Change-IsConsistent {s} (client_saved given saved create_only now) h =
      upsert_client-IsConsistent client_key net saved create_only now given s h
  Change-IsConsistent {s} (client_key_rotated id saved now) h =
      rotate_client_key-IsConsistent client_key id saved now s h
  Change-IsConsistent {s} (client_deleted id saved) h = delete_client-IsConsistent id saved s h
  Change-IsConsistent {s} (sessions_closed relay_id reason given clock) h =
      elsewhere-IsConsistent s (close_relay_sessions relay_id reason given clock s).0 refl refl h
  Change-IsConsistent {s} (state_updated id now update) h =
      elsewhere-IsConsistent s (update_state id now update s) refl refl h
  Change-IsConsistent {s} (event_applied relay_id event clock) h =
      let (relays, clients) = apply_worker_event-elsewhere relay_id event clock s in
      elsewhere-IsConsistent s (apply_worker_event relay_id event clock s).0 relays clients h

  -- Whatever has happened to a store that started empty: each relay and each client stands under its own
  -- ID; a relay that admits peers without a Stream ID has a default client that is there, enabled and
  -- assigned to it; and every relay that a client is assigned to is there.
  pub History-IsConsistent : {s : Store} → History s → IsConsistent s
  unfolding lookup
  History-IsConsistent opened = record {
    relay_keys = λ id r e. cc;
    client_keys = λ id c e. cc;
    defaults = λ id r e on. cc;
    assignments = λ id c e relay_id named. cc;
  }
  History-IsConsistent (and_then before change) =
      Change-IsConsistent change (History-IsConsistent before)
