-- ===== src/Tests/RelayRuns.antt =====
-- A store with a relay and a client, the events of its worker, and the worker's failures.
use neo_transcoder.Base.{
  All, ℕ, ◌+◌, ◌*◌, ◌≡◌, refl, ℤ, true, false, none, some, ok, err, any_value, wrap_i64, Option,
  insert, List, [], ◌∷◌, ◌++◌, Bytes, bytes, bytes_beq, bytes_eq, pos, arith, lookup, tally, length,
  count_where, one_if, trim_space,
}
use Prim.Native.Nat.{min}
use neo_transcoder.Relay.Models.{
  Relay, Client, WorkerEvent, relay_metrics, second, direction_listener, direction_publish,
  encryption_none, starting,
}
use neo_transcoder.Relay.Names.{is_id, is_hostname}
use neo_transcoder.Relay.Texts.{sort_texts, distinct, contains}
use neo_transcoder.Relay.Clients.{
  relay_not_listening, normalize_client, fill_client, check_mode, check_relays, check_cidrs,
}
use neo_transcoder.Relay.Normalize.{
  Net, normalize_relay, fill_common, check_input, check_listener, check_publish, check_numbers,
  normalize_cidr, is_unrestricted,
}
use neo_transcoder.Relay.Normalize.Ranges.{IsRelay, normalize_relay-IsRelay}
use neo_transcoder.Relay.Store.{
  Store, upsert_relay, store_relay, with_key, put_relay, state_of, is_address_used, check_default,
  is_encrypted_publish, is_same, next_version,
}
use neo_transcoder.Relay.Credentials.Handed.{
  may_receive, is_listed, IsHanded, worker_clients-IsHanded,
}
use neo_transcoder.Relay.Credentials.{
  worker_clients, upsert_client, stamped, store_client, with_client_key, loses_default,
}
use neo_transcoder.Relay.Consistent.{IsConsistent}
use neo_transcoder.Relay.History.{
  empty_store, opened, and_then, relay_saved, client_saved, History-IsConsistent,
}
use neo_transcoder.Relay.Sessions.{is_open_on, close_relay_sessions}
use neo_transcoder.Relay.Sessions.Closing.{close_relay_sessions-all}
use neo_transcoder.Relay.Events.{no_session}
use neo_transcoder.Relay.Events.Transitions.{
  is_stall, is_restoration, is_degraded_in, apply_run, metrics-run,
}
use neo_transcoder.Relay.Manager.{
  Manager, max_restarts, tracker_of, allow_restart, start, restart_later, wait,
}
use neo_transcoder.Relay.Manager.Recovery.{wait-start}
use neo_transcoder.Relay.Manager.Restarts.{IsEnabled, restarts_in, restarts_in_a_window}

-- The network texts of the runs: one multicast URL, and addresses that are all alike.
abbrev net : Net
net = record {
  Address = Bytes;
  parse_url = λ text. some (record {
    scheme = bytes "udp";
    host = bytes "239.0.0.1:5000";
    hostname = bytes "239.0.0.1";
    port = bytes "5000";
  });
  parse_ip = λ text. some text;
  is_multicast = λ address. true;
  is_v4 = λ address. true;
  ip_text = λ address. address;
  atoi = λ text. some (pos 5000);
  parse_cidr = λ text. some (record { network = text; ones = 8 });
}

-- The key of an ID, for any version.
abbrev key : Bytes → ℤ → Bytes
key id version = bytes "secret-of-" ++ id

abbrev given : Relay
given = record {
  id = bytes "live";
  name = [];
  direction = [];
  input_url = bytes "udp://239.0.0.1:5000";
  network_interface = [];
  bind_address = [];
  port = pos 9000;
  destination_address = [];
  destination_port = pos 0;
  stream_id = [];
  encryption_mode = [];
  key_version = pos 0;
  latency_ms = pos 0;
  payload_size = pos 0;
  max_clients = pos 0;
  input_timeout_seconds = pos 0;
  allow_missing_stream_id = false;
  default_client_id = [];
  enabled = true;
}

abbrev normal : Relay
normal = record given {
  name = bytes "live";
  direction = direction_listener;
  bind_address = bytes "0.0.0.0";
  latency_ms = pos 800;
  payload_size = pos 1316;
  max_clients = pos 16;
  input_timeout_seconds = pos 10;
}

normalize_live : normalize_relay net given ≡ ok normal
unfolding normalize_relay is_id fill_common check_input check_listener check_numbers bytes bytes_beq
    trim_space
normalize_live = refl

normalize_relay-IsRelay_example : IsRelay normal
normalize_relay-IsRelay_example = normalize_relay-IsRelay net given normal normalize_live

abbrev receiver : Client
receiver = record {
  id = bytes "rx-1";
  name = [];
  enabled = true;
  encryption_mode = encryption_none;
  allowed_relay_ids = bytes "live" ∷ [];
  allowed_cidrs = bytes "10.0.0.0/8" ∷ [];
  max_sessions = pos 1;
  key_version = pos 0;
  created_at = 0;
  updated_at = 0;
}

abbrev with_relay : Store
with_relay = (upsert_relay key net true (1 * second) given empty_store).0

-- The second operation's save fails, and its change stays in memory.
History-IsConsistent_example :
    IsConsistent (upsert_client key net false true (2 * second) receiver with_relay).0
History-IsConsistent_example = History-IsConsistent net key key (
    and_then (and_then opened (relay_saved given true (1 * second)))
      (client_saved receiver false true (2 * second)))

abbrev with_receiver : Store
with_receiver = (upsert_client key net true true (2 * second) receiver with_relay).0

-- The same relay, saved again as a publishing one.
abbrev turned : Store
turned =
    (upsert_relay key net true (3 * second)
      (record given {
        direction = direction_publish;
        destination_address = bytes "10.0.0.9";
        destination_port = pos 9000;
        stream_id = bytes "live";
      })
      with_receiver).0

-- The direction of a relay can change while a client is assigned to it, and the client that is stored
-- is not accepted again.
turned_client : Option Client
turned_client = lookup (bytes "rx-1") turned.clients

stored_client_refused :
    elim turned_client [ none ↦ ok receiver | some c ↦ normalize_client net turned.relays c ]
    ≡ err (relay_not_listening (bytes "live"))
unfolding turned_client upsert_client normalize_client upsert_relay store_relay normalize_relay
    is_id is_hostname fill_common check_input check_listener check_publish check_numbers bytes
    bytes_beq trim_space lookup insert any_value fill_client check_mode check_relays check_cidrs
    normalize_cidr is_unrestricted sort_texts distinct contains stamped store_client with_client_key
    loses_default with_key put_relay state_of is_address_used check_default is_encrypted_publish
    is_same next_version wrap_i64
stored_client_refused = refl

abbrev metrics : Bytes → WorkerEvent
metrics reason = record {
  type = relay_metrics;
  time = 0;
  reason = reason;
  session = none;
  active_clients = 0;
  input_bitrate_bps = pos 0;
  output_bitrate_bps = pos 0;
  input_packets = pos 0;
  continuity_errors = pos 0;
}

abbrev stall_and_return : List (WorkerEvent × ℕ)
stall_and_return =
    (metrics (bytes "no input"), 1 * second)
    ∷ (metrics (bytes "no input"), 2 * second)
    ∷ (metrics [], 3 * second)
    ∷ []

metrics-run_example :
    count_where is_stall (apply_run (bytes "live") stall_and_return with_relay).1
      + one_if (is_degraded_in (bytes "live") with_relay)
    ≡ count_where is_restoration (apply_run (bytes "live") stall_and_return with_relay).1
      + one_if
          (is_degraded_in (bytes "live") (apply_run (bytes "live") stall_and_return with_relay).0)
metrics-run_example =
    metrics-run (bytes "live") stall_and_return with_relay (refl, (refl, (refl, tt)))

abbrev with_session : Store
with_session = record empty_store {
  sessions =
      (bytes "srt_1", record no_session { id = bytes "srt_1"; relay_id = bytes "live" }) ∷ [];
}

close_relay_sessions-all_example :
    (tally
        (is_open_on (bytes "live"))
        (close_relay_sessions
          (bytes "live")
          (bytes "killed")
          0
          (9 * second)
          with_session).0.sessions
      ≡ 0)
    × (length (close_relay_sessions (bytes "live") (bytes "killed") 0 (9 * second) with_session).1
        ≡ tally (is_open_on (bytes "live")) with_session.sessions)
close_relay_sessions-all_example =
    close_relay_sessions-all (bytes "live") (bytes "killed") 0 (9 * second) with_session

abbrev manager : Manager
manager = record {
  store = record empty_store { relays = (bytes "live", given) ∷ [] };
  jobs = [];
  restarts = [];
}

enabled : IsEnabled (bytes "live") manager
unfolding lookup bytes bytes_beq
enabled = (_, refl, refl)

abbrev failures : List ℕ
failures = 110 * second ∷ 120 * second ∷ 130 * second ∷ 140 * second ∷ 150 * second ∷ []

restarts_in_a_window_example :
    restarts_in (bytes "live") (bytes "killed") (100 * second ∷ failures) manager
    ≡ min (length (100 * second ∷ failures)) max_restarts
unfolding lookup
restarts_in_a_window_example =
    restarts_in_a_window (bytes "live") (bytes "killed") (100 * second) failures manager enabled
      refl (omega arith)
      (omega arith, (omega arith, (omega arith, (omega arith, (omega arith, tt)))))

-- The relay's worker, to which a receiver is connected.
abbrev serving : Manager
serving = record manager {
  store = record manager.store { sessions = with_session.sessions };
  jobs = (bytes "live", record { pid = 7; stopping = false }) ∷ [];
}

serving_job :
    (lookup (bytes "live") serving.jobs ≡ some (record { pid = 7; stopping = false }))
    × (lookup (bytes "live") serving.store.relays ≡ some given)
    × ((allow_restart (bytes "live") (100 * second) serving).1 ≡ true)
unfolding lookup bytes bytes_beq allow_restart tracker_of
serving_job = (refl, refl, refl)

wait-start_example :
    (m1 : Manager) × (m2 : Manager) × (wait (bytes "live") 7 (bytes "killed") (100 * second) serving
      ≡ (m1, restart_later))
    × (tally (is_open_on (bytes "live")) m1.store.sessions ≡ 0)
    × (start (bytes "live") true true (some 8) (105 * second) m1 ≡ (m2, none))
    × (lookup (bytes "live") m2.jobs ≡ some (record { pid = 8; stopping = false }))
    × ((state_of (bytes "live") (105 * second) m2.store).status ≡ starting)
    × ((state_of (bytes "live") (105 * second) m2.store).restart_count
        ≡ (state_of (bytes "live") (100 * second) serving.store).restart_count + 1)
wait-start_example =
    wait-start (bytes "live") 7 8 (bytes "killed") (100 * second) (105 * second) given serving
      serving_job.0 serving_job.1 refl serving_job.2

worker_clients-IsHanded_example :
    (is_listed (bytes "rx-1") (worker_clients key (bytes "live") with_receiver)
      ≡ may_receive (bytes "live") (bytes "rx-1") with_receiver.clients)
    × All
        (IsHanded key (bytes "live") with_receiver)
        (worker_clients key (bytes "live") with_receiver)
worker_clients-IsHanded_example =
    worker_clients-IsHanded key (bytes "live") (bytes "rx-1") with_receiver (
      History-IsConsistent net key key (
        and_then (and_then opened (relay_saved given true (1 * second)))
          (client_saved receiver true true (2 * second))))
