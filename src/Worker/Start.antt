-- ===== src/Worker/Start.antt =====
-- `newWorker` of internal/srtworker/worker.go, with the listener's settings that depend on the
-- configuration alone. `parse_cidr` is net.ParseCIDR.
use neo_transcoder.Base.{
  ℕ, Bool, true, false, not, ◌&&◌, ◌||◌, Option, none, some, List, Checked, ok, err, ◌>>=◌, ◌>>◌,
  refuse_if, [], ◌∷◌, Bytes, pos, is_ℕ, ltb_ℤ, ltb, ◌==◌, bytes_eq, if◌then◌else◌, Table, lookup,
  insert, length,
}
use neo_transcoder.Relay.Models.{
  Relay, WorkerClient, WorkerConfig, encryption_aes256, encryption_none, direction_listener,
  direction_publish,
}
use neo_transcoder.Worker.{IpNet, ClientAcl, Worker}

pub data StartError : Type 0 where
  bad_publish_passphrase unneeded_publish_passphrase bad_input_timeout
        compatibility_is_listener_only :
      StartError
  bad_client bad_client_passphrase unneeded_client_passphrase no_default_client : Bytes → StartError
  bad_cidr : Bytes → Bytes → StartError

-- len(passphrase) < 10 || len(passphrase) > 79
bad_passphrase : Bytes → Bool
bad_passphrase p = ltb (length p) 10 || ltb 79 (length p)

unfoldable pub listener_minimum_version : Relay → ℕ
listener_minimum_version relay = if relay.allow_missing_stream_id then 0x010000 else 0x010300

unfoldable pub listener_enforces_encryption : List WorkerClient → Bool
listener_enforces_encryption [] = true
listener_enforces_encryption (c ∷ cs) =
    if c.encryption_mode == encryption_none then false else listener_enforces_encryption cs

-- The defaults that `newWorker` writes into its configuration.
start_defaults : Relay → Relay
start_defaults relay = record relay {
  direction = if relay.direction == [] then direction_listener else relay.direction;
  input_timeout_seconds =
      if is_ℕ relay.input_timeout_seconds 0 then pos 10 else relay.input_timeout_seconds;
}

check_publish : Relay → Bytes → Checked StartError (Unit {0})
unfolding bad_passphrase
check_publish relay passphrase =
    if relay.direction == direction_publish
    then (do
      refuse_if (relay.encryption_mode == encryption_aes256 && bad_passphrase passphrase)
          bad_publish_passphrase
      refuse_if (relay.encryption_mode == encryption_none && not (passphrase == []))
          unneeded_publish_passphrase)
    else ok tt

module _ (parse_cidr : Bytes → Option IpNet) where
  parse_networks : Bytes → List Bytes → Checked StartError (List IpNet)
  parse_networks id [] = ok []
  parse_networks id (value ∷ more) = do
    network ← elim (parse_cidr value) [ none ↦ err (bad_cidr id value) | some n ↦ ok n ]
    networks ← parse_networks id more
    ok (network ∷ networks)

  -- The body of the loop over `config.Clients`
  check_client : WorkerClient → Checked StartError ClientAcl
  unfolding bad_passphrase
  check_client given = do
    let mode = if given.encryption_mode == [] then encryption_aes256 else given.encryption_mode
    refuse_if (given.id == [] || (not (mode == encryption_aes256) && not (mode == encryption_none)))
        (bad_client given.id)
    refuse_if (mode == encryption_aes256 && bad_passphrase given.passphrase)
        (bad_client_passphrase given.id)
    refuse_if (mode == encryption_none && not (given.passphrase == []))
        (unneeded_client_passphrase given.id)
    networks ← parse_networks given.id given.allowed_cidrs
    ok (record { config = record given { encryption_mode = mode }; networks = networks })

  check_clients :
      List WorkerClient → Table Bytes ClientAcl → Checked StartError (Table Bytes ClientAcl)
  unfolding check_client parse_networks
  check_clients [] acls = ok acls
  check_clients (c ∷ cs) acls = do acl ← check_client c; check_clients cs (insert c.id acl acls)

  check_default : Relay → Table Bytes ClientAcl → Checked StartError (Unit {0})
  check_default relay acls =
      if relay.allow_missing_stream_id
      then (do
        refuse_if (not (relay.direction == direction_listener)) compatibility_is_listener_only
        elim (lookup relay.default_client_id acls) [
          | none ↦ err (no_default_client relay.default_client_id)
          | some acl ↦ ok tt
        ])
      else ok tt

  unfoldable pub new_worker : WorkerConfig → Checked StartError Worker
  unfolding start_defaults check_publish check_clients check_default
  new_worker config = do
    let relay = start_defaults config.relay
    check_publish relay config.publish_passphrase
    refuse_if
        (ltb_ℤ relay.input_timeout_seconds (pos 3) || ltb_ℤ (pos 300) relay.input_timeout_seconds)
        bad_input_timeout
    acls ← check_clients config.clients []
    check_default relay acls
    ok (record {
      config = record config { relay = relay };
      clients = acls;
      sessions = [];
      pending = [];
      reservations = [];
      attempts = [];
      queued = 0;
      sent = [];
      is_stopping = false;
    })
