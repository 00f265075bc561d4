-- ===== src/Relay/Clients.antt =====
-- `normalizeClientLocked` of internal/srtrelay/store.go.
use neo_transcoder.Base.{
  not, ◌&&◌, none, some, List, [], ◌∷◌, Bytes, pos, ltb_ℤ, ◌==◌, bytes_eq, nat_eq, length,
  if◌then◌else◌, trim_space, Table, lookup, Checked, ok, err, ◌>>=◌, ◌>>◌, refuse_if,
}
use neo_transcoder.Relay.Models.{
  Relay, Client, encryption_aes256, encryption_none, direction_listener,
}
use neo_transcoder.Relay.Names.{is_id}
use neo_transcoder.Relay.Texts.{sort_texts, distinct}
use neo_transcoder.Relay.Normalize.{Net, is_outside, default_to, normalize_cidr, is_unrestricted}

pub data ClientError : Type 0 where
  bad_id bad_encryption_mode no_relay no_cidr bad_max_sessions : ClientError
  relay_missing relay_not_listening bad_cidr unrestricted_cidr : Bytes → ClientError

-- The loop over the relays that the client may use.
unfoldable pub check_relays : Table Bytes Relay → List Bytes → Checked ClientError (Unit {0})
check_relays relays [] = ok tt
check_relays relays (id ∷ ids) = elim (lookup id relays) [
  | none ↦ err (relay_missing id)
  | some relay ↦ do
    refuse_if (not (relay.direction == direction_listener)) (relay_not_listening id)
    check_relays relays ids
]

-- The texts and numbers that an empty or zero field stands for.
unfoldable pub fill_client : Client → Client
fill_client client = record client {
  name = if trim_space client.name == [] then client.id else client.name;
  encryption_mode =
      if client.encryption_mode == [] then encryption_aes256 else client.encryption_mode;
  allowed_relay_ids = sort_texts (distinct client.allowed_relay_ids);
  max_sessions = default_to 1 client.max_sessions;
  key_version = if ltb_ℤ client.key_version (pos 1) then pos 1 else client.key_version;
}

unfoldable pub check_mode : Client → Checked ClientError (Unit {0})
check_mode client = do
  refuse_if (not (is_id client.id)) bad_id
  refuse_if
      (not (client.encryption_mode == encryption_aes256)
        && not (client.encryption_mode == encryption_none))
      bad_encryption_mode

module _ (net : Net) where
  -- The loop over the networks, which rewrites them.
  unfoldable pub check_cidrs : Bytes → List Bytes → Checked ClientError (List Bytes)
  check_cidrs mode [] = ok []
  check_cidrs mode (value ∷ values) = elim (normalize_cidr net value) [
    | none ↦ err (bad_cidr value)
    | some cidr ↦ do
      refuse_if (mode == encryption_none && is_unrestricted net cidr) (unrestricted_cidr value)
      cidrs ← check_cidrs mode values
      ok (cidr ∷ cidrs)
  ]

  unfoldable pub normalize_client : Table Bytes Relay → Client → Checked ClientError Client
  normalize_client relays given = do
    let client = fill_client given
    check_mode client
    refuse_if (length given.allowed_relay_ids == 0) no_relay
    check_relays relays given.allowed_relay_ids
    refuse_if (length client.allowed_cidrs == 0) no_cidr
    cidrs ← check_cidrs client.encryption_mode client.allowed_cidrs
    refuse_if (is_outside 1 1000 client.max_sessions) bad_max_sessions
    ok (record client { allowed_cidrs = sort_texts cidrs })
