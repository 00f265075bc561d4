-- ===== src/Relay/Consistent.antt =====
-- The references between the relays and the clients of a store.
pub mod OfRelays
pub mod OfClients
pub mod OfKeys
use neo_transcoder.Base.{◌≡◌, true, some, Bytes, bytes_eq, Table, lookup}
use neo_transcoder.Relay.Models.{Relay, Client}
use neo_transcoder.Relay.Texts.{contains}
use neo_transcoder.Relay.Store.{Store}

-- A relay with a client for peers without a Stream ID has one that is there, enabled, and assigned to
-- the relay.
pub record HasDefault (clients : Table Bytes Client) (relay : Relay) : Type 0 where
  pub client : Client
  pub known : lookup relay.default_client_id clients ≡ some client
  pub enabled : client.enabled ≡ true
  pub assigned : contains client.allowed_relay_ids relay.id ≡ true

pub record IsConsistent (s : Store) : Type 0 where
  pub relay_keys : (id : Bytes) (r : Relay) → lookup id s.relays ≡ some r → r.id ≡ id
  pub client_keys : (id : Bytes) (c : Client) → lookup id s.clients ≡ some c → c.id ≡ id
  pub defaults :
      (id : Bytes) (r : Relay)
      → lookup id s.relays ≡ some r
      → r.allow_missing_stream_id ≡ true
      → HasDefault s.clients r
  pub assignments :
      (id : Bytes) (c : Client)
      → lookup id s.clients ≡ some c
      → (relay_id : Bytes) → contains c.allowed_relay_ids relay_id ≡ true
      → (r : Relay) × (lookup relay_id s.relays ≡ some r)
