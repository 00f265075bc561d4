-- ===== src/Relay/Credentials.antt =====
-- The clients of internal/srtrelay/store.go: `upsertClient`, `RotateClientKey`, `DeleteClient` and
-- `WorkerClients`. `client_key` is the HMAC of a client's ID and key version.
pub mod Handed
use neo_transcoder.Base.{
  ℤ, pos, Bool, true, false, not, ◌&&◌, ◌||◌, Option, none, some, List, [], ◌∷◌, Bytes, ◌==◌,
  bytes_eq, if◌then◌else◌, Table, lookup, insert, delete, any_value, Checked, ok, err,
}
use neo_transcoder.Relay.Models.{
  Time, Relay, Client, Session, WorkerClient, encryption_aes256, encryption_none,
}
use neo_transcoder.Relay.Texts.{contains, sort_texts}
use neo_transcoder.Relay.Normalize.{Net}
use neo_transcoder.Relay.Clients.{normalize_client}
use neo_transcoder.Relay.Store.{
  Store, StoreError, bad_client, client_exists, client_not_found, client_is_default,
  client_is_active, encryption_disabled, when_saved, next_version,
}

pub record ClientCredential : Type 0 where
  pub client : Client
  pub passphrase : Bytes

-- The times and the key version that the store and not the caller decides.
unfoldable pub stamped : Option Client → Time → Client → Client
stamped none now client = record client { created_at = now; key_version = pos 1; updated_at = now }
stamped (some old) now client = record client {
  created_at = old.created_at;
  key_version = old.key_version;
  updated_at = now;
}

-- The client that is stored, and whether its passphrase is handed out.
unfoldable pub with_client_key : Option Client → Client → Client × Bool
with_client_key none client = (client, client.encryption_mode == encryption_aes256)
with_client_key (some old) client =
    if old.encryption_mode == encryption_none && client.encryption_mode == encryption_aes256
    then (record client { key_version = next_version client.key_version }, true)
    else (client, false)

-- Whether a relay takes the client for peers without a Stream ID, and could not any more.
unfoldable pub loses_default : Client → Relay → Bool
loses_default client relay =
    relay.allow_missing_stream_id
    && relay.default_client_id == client.id
    && (not client.enabled || not (contains client.allowed_relay_ids relay.id))

-- A session of the client that has not ended.
unfoldable pub is_active_of : Bytes → Session → Bool
is_active_of id session =
    session.client_id == id && elim session.disconnected_at [ none ↦ true | some t ↦ false ]

keys : Table Bytes Client → List Bytes
keys [] = []
keys ((id, client) ∷ clients) = id ∷ keys clients

module _ (client_key : Bytes → ℤ → Bytes) where
  credential : Client → Bool → ClientCredential
  credential client shows_key = record {
    client = client;
    passphrase = if shows_key then client_key client.id client.key_version else [];
  }

  -- `upsertClient` once the client is normalized
  unfoldable pub store_client :
      Bool → Option Client → Client → Store → Store × Checked StoreError ClientCredential
  unfolding with_client_key credential
  store_client saved existing normalized s =
      let (client, shows_key) = with_client_key existing normalized in
      if any_value (loses_default normalized) s.relays then (s, err client_is_default) else (
        record s { clients = insert client.id client s.clients },
        when_saved saved (credential client shows_key),
      )

  unfoldable pub upsert_client :
      Net → Bool → Bool → Time → Client → Store → Store × Checked StoreError ClientCredential
  unfolding stamped
  upsert_client net saved create_only now given s =
      let existing = lookup given.id s.clients in
      if create_only && elim existing [ none ↦ false | some client ↦ true ]
      then (s, err client_exists)
      else elim (normalize_client net s.relays (stamped existing now given)) [
        | err e ↦ (s, err (bad_client e))
        | ok normalized ↦ store_client saved existing normalized s
      ]

  unfoldable pub rotate_client_key :
      Bytes → Bool → Time → Store → Store × Checked StoreError ClientCredential
  unfolding credential
  rotate_client_key id saved now s = elim (lookup id s.clients) [
    | none ↦ (s, err client_not_found)
    | some client ↦
        let rotated = record client {
          key_version = next_version client.key_version;
          updated_at = now;
        } in
        if client.encryption_mode == encryption_none then (s, err encryption_disabled) else (
          record s { clients = insert id rotated s.clients },
          when_saved saved (credential rotated true),
        )
  ]

  worker_client : Client → WorkerClient
  worker_client client = record {
    id = client.id;
    encryption_mode = client.encryption_mode;
    passphrase =
        if client.encryption_mode == encryption_aes256
        then client_key client.id client.key_version
        else [];
    allowed_cidrs = client.allowed_cidrs;
    max_sessions = client.max_sessions;
  }

  -- The loop of `WorkerClients` over the IDs in order.
  collect : Bytes → Table Bytes Client → List Bytes → List WorkerClient
  unfolding worker_client
  collect relay_id clients [] = []
  collect relay_id clients (id ∷ ids) =
      let rest = collect relay_id clients ids in
      elim (lookup id clients) [
        | none ↦ rest
        | some client ↦
            if not client.enabled || not (contains client.allowed_relay_ids relay_id)
            then rest
            else worker_client client ∷ rest
      ]

  unfoldable pub worker_clients : Bytes → Store → List WorkerClient
  unfolding collect keys
  worker_clients relay_id s = collect relay_id s.clients (sort_texts (keys s.clients))

unfoldable pub delete_client : Bytes → Bool → Store → Store × Checked StoreError Bool
delete_client id saved s = elim (lookup id s.clients) [
  | none ↦ (s, ok false)
  | some client ↦
      if any_value (λ relay. relay.allow_missing_stream_id && relay.default_client_id == id)
        s.relays
      then (s, err client_is_default)
      else if any_value (is_active_of id) s.sessions
      then (s, err client_is_active)
      else (record s { clients = delete id s.clients }, when_saved saved true)
]
