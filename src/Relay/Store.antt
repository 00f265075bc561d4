-- ===== src/Relay/Store.antt =====
-- The relays of internal/srtrelay/store.go: `Store`, `UpsertRelay`, `RotateRelayKey`, `DeleteRelay`,
-- `PublishPassphrase`. Each operation is what happens under `s.mu`; `saved` says whether `saveLocked`
-- succeeds: where it does not, the code returns an error and keeps the change in memory. The events for
-- the subscribers are left out. `publish_key` is the HMAC of a relay's ID and key version.
use neo_transcoder.Base.{
  zero, suc, ◌+◌, ℤ, pos, negsuc, wrap_i64, Bool, true, false, not, ◌&&◌, Option, none, some, [],
  ◌∷◌, Bytes, ◌==◌, bytes_eq, nat_eq, if◌then◌else◌, Table, lookup, insert, delete, any_value,
  Checked, ok, err, ◌>>◌, refuse_if, is_ℕ,
}
use neo_transcoder.Relay.Models.{
  Time, Relay, RelayState, Client, Session, Status, stopped, error, flapping, encryption_aes256,
  encryption_none, direction_listener, direction_publish,
}
use neo_transcoder.Relay.Texts.{contains}
use neo_transcoder.Relay.Normalize.{Net, RelayError, normalize_relay}
use neo_transcoder.Relay.Clients.{ClientError}

pub record Store : Type 0 where
  pub relays : Table Bytes Relay
  pub states : Table Bytes RelayState
  pub clients : Table Bytes Client
  pub sessions : Table Bytes Session

pub data StoreError : Type 0 where
  bad_relay : RelayError → StoreError
  bad_client : ClientError → StoreError
  address_in_use relay_not_found not_a_publish_relay encryption_disabled relay_running : StoreError
  relay_is_assigned default_not_found default_disabled default_not_assigned : StoreError
  client_exists client_not_found client_is_default client_is_active not_saved : StoreError

pub record RelayView : Type 0 where
  pub config : Relay
  pub state : RelayState
  pub passphrase : Bytes

-- `state, ok := s.states[id]`, or a stopped relay's state.
abbrev pub stopped_state : Time → RelayState
stopped_state now = record {
  status = stopped;
  pid = 0;
  active_clients = 0;
  input_bitrate_bps = pos 0;
  output_bitrate_bps = pos 0;
  input_packets = pos 0;
  continuity_errors = pos 0;
  restart_count = 0;
  is_flapping = false;
  last_error = [];
  updated_at = now;
}

unfoldable pub state_of : Bytes → Time → Store → RelayState
state_of id now s = elim (lookup id s.states) [ none ↦ stopped_state now | some state ↦ state ]

-- `KeyVersion++` on an int of 64 bits
unfoldable pub next_version : ℤ → ℤ
next_version (pos n) = wrap_i64 (n + 1)
next_version (negsuc zero) = pos 0
next_version (negsuc (suc n)) = negsuc n

unfoldable pub is_encrypted_publish : Relay → Bool
is_encrypted_publish relay =
    relay.direction == direction_publish && relay.encryption_mode == encryption_aes256

-- The relay that is stored, and whether its passphrase is handed out.
unfoldable pub with_key : Option Relay → Relay → Relay × Bool
with_key none relay = (relay, is_encrypted_publish relay)
with_key (some old) relay =
    let kept = record relay { key_version = old.key_version } in
    if is_encrypted_publish relay && not (is_encrypted_publish old)
    then (record kept { key_version = next_version old.key_version }, true)
    else (kept, false)

-- `==` on two ints
unfoldable pub is_same : ℤ → ℤ → Bool
is_same (pos m) n = is_ℕ n m
is_same (negsuc m) (pos n) = false
is_same (negsuc m) (negsuc n) = m == n

-- The loop of `UpsertRelay`: whether another listener has the address.
unfoldable pub is_address_used : Relay → Table Bytes Relay → Bool
is_address_used relay [] = false
is_address_used relay ((id, other) ∷ relays) =
    let rest = is_address_used relay relays in
    if relay.direction == direction_listener
      && other.direction == direction_listener
      && not (id == relay.id)
      && other.bind_address == relay.bind_address
      && is_same other.port relay.port
    then true
    else rest

-- validateRelayDefaultClientLocked
unfoldable pub check_default : Table Bytes Client → Relay → Checked StoreError (Unit {0})
check_default clients relay =
    if not relay.allow_missing_stream_id
    then ok tt
    else elim (lookup relay.default_client_id clients) [
      | none ↦ err default_not_found
      | some client ↦ do
        refuse_if (not client.enabled) default_disabled
        refuse_if (not (contains client.allowed_relay_ids relay.id)) default_not_assigned
    ]

-- What an operation returns once its change is made.
unfoldable pub when_saved {ℓ} : {A : Type ℓ} → Bool → A → Checked StoreError A
when_saved saved a = if saved then ok a else err not_saved

-- The relay and its state in the maps.
unfoldable pub put_relay : Relay → Time → Store → Store
put_relay relay now s = record s {
  relays = insert relay.id relay s.relays;
  states = insert relay.id (state_of relay.id now s) s.states;
}

module _ (publish_key : Bytes → ℤ → Bytes) where
  unfoldable pub view_of : Relay → Bool → Time → Store → RelayView
  view_of relay shows_key now s = record {
    config = relay;
    state = state_of relay.id now s;
    passphrase = if shows_key then publish_key relay.id relay.key_version else [];
  }

  -- `UpsertRelay` from `s.mu.Lock()` on
  unfoldable pub store_relay : Bool → Time → Relay → Store → Store × Checked StoreError RelayView
  unfolding with_key view_of
  store_relay saved now normalized s =
      let (relay, shows_key) = with_key (lookup normalized.id s.relays) normalized in
      let s' = put_relay relay now s in
      if is_address_used normalized s.relays
      then (s, err address_in_use)
      else elim (check_default s.clients normalized) [
        | err e ↦ (s, err e)
        | ok done ↦ (s', when_saved saved (view_of relay shows_key now s'))
      ]

  unfoldable pub upsert_relay :
      Net → Bool → Time → Relay → Store → Store × Checked StoreError RelayView
  upsert_relay net saved now given s = elim (normalize_relay net given) [
    | err e ↦ (s, err (bad_relay e))
    | ok normalized ↦ store_relay saved now normalized s
  ]

  unfoldable pub publish_passphrase : Bytes → Store → Bytes
  publish_passphrase id s = elim (lookup id s.relays) [
    | none ↦ []
    | some relay ↦ if is_encrypted_publish relay then publish_key relay.id relay.key_version else []
  ]

  unfoldable pub rotate_relay_key :
      Bytes → Bool → Time → Store → Store × Checked StoreError RelayView
  unfolding view_of
  rotate_relay_key id saved now s = elim (lookup id s.relays) [
    | none ↦ (s, err relay_not_found)
    | some relay ↦
        let rotated = record relay { key_version = next_version relay.key_version } in
        let s' = record s { relays = insert id rotated s.relays } in
        if not (relay.direction == direction_publish)
        then (s, err not_a_publish_relay)
        else if relay.encryption_mode == encryption_none
        then (s, err encryption_disabled)
        else (s', when_saved saved (view_of rotated true now s'))
  ]

-- The states in which a relay may be deleted.
unfoldable pub is_at_rest : Status → Bool
is_at_rest stopped = true
is_at_rest error = true
is_at_rest flapping = true
is_at_rest _ = false

unfoldable pub delete_relay : Bytes → Bool → Time → Store → Store × Checked StoreError Bool
unfolding is_at_rest
delete_relay id saved now s = elim (lookup id s.relays) [
  | none ↦ (s, ok false)
  | some relay ↦
      if not (is_at_rest (state_of id now s).status)
      then (s, err relay_running)
      else if any_value (λ client. contains client.allowed_relay_ids id) s.clients
      then (s, err relay_is_assigned)
      else (
        record s { relays = delete id s.relays; states = delete id s.states },
        when_saved saved true,
      )
]
