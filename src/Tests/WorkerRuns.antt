-- ===== src/Tests/WorkerRuns.antt =====
-- A listener with one client, its admission control and its packet path.
use neo_transcoder.Base.{
  ◌⊎◌, ℕ, replicate, ◌&&◌, inl, itoa, trim_space, has_prefix, ◌+◌, ◌*◌, ◌≤◌, ◌≡◌, refl, true, false,
  Option, some, List, [], ◌∷◌, Bytes, bytes, ok, pos, arith, ltb, leb, bytes_eq, bytes_beq, size,
  one_if, tally, lookup, insert, length, map,
}
use Prim.Native.Nat.{min}
use neo_transcoder.Relay.Models.{
  Relay, WorkerClient, WorkerConfig, direction_listener, encryption_none, second,
}
use neo_transcoder.Worker.{
  Worker, IpNet, ClientAcl, ClientSession, AttemptWindow, session_queue_size, max_queue_drop_burst,
  peer_session, attempt_key, emit, emit_rejected, reserved,
}
use neo_transcoder.Worker.Access.{IsPermitted, authorize-IsPermitted}
use neo_transcoder.Worker.StreamId.{client, client_id_from_stream_id}
use neo_transcoder.Worker.Acl.{ip_allowed}
use neo_transcoder.Worker.Start.{new_worker}
use neo_transcoder.Worker.Limiter.{max_tracked_ips, attempts_per_minute, allow_connection_attempt}
use neo_transcoder.Worker.Limiter.Rate.{allowed_in, reported_in, attempts_in_a_minute, tracked-le}
use neo_transcoder.Worker.Admission.{
  authorize, pending_secret, choose_client, authorize_allowed, is_allowed_from, admit, answer,
}
use neo_transcoder.Worker.Grants.{authorize_again}
use neo_transcoder.Worker.Bounds.{IsBounded}
use neo_transcoder.Worker.Interleaving.{here, listener_limits}
use neo_transcoder.Worker.Handlers.{authorize-Reach}
use neo_transcoder.Worker.Broadcast.{Input}
use neo_transcoder.Worker.Broadcast.Queues.{offer_run, full_run}
use neo_transcoder.Worker.Broadcast.Payloads.{IsSplit, joined, receive_all, receive_all_exact}
use neo_transcoder.Worker.Continuity.{
  pid_of, has_discontinuity, adaptation_control, counter_of, observe,
}
use neo_transcoder.Worker.Continuity.Errors.{IsPayload, breaks, observe-breaks}

abbrev relay : Relay
relay = record {
  id = bytes "live";
  name = bytes "live";
  direction = direction_listener;
  input_url = bytes "udp://239.0.0.1:5000";
  network_interface = [];
  bind_address = bytes "0.0.0.0";
  port = pos 9000;
  destination_address = [];
  destination_port = pos 0;
  stream_id = [];
  encryption_mode = [];
  key_version = pos 0;
  latency_ms = pos 800;
  payload_size = pos 1316;
  max_clients = pos 2;
  input_timeout_seconds = pos 0;
  allow_missing_stream_id = false;
  default_client_id = [];
  enabled = true;
}

abbrev receiver : WorkerClient
receiver = record {
  id = bytes "rx-1";
  encryption_mode = encryption_none;
  passphrase = [];
  allowed_cidrs = bytes "10.0.0.0/8" ∷ [];
  max_sessions = pos 1;
}

abbrev config : WorkerConfig
config = record { relay = relay; publish_passphrase = []; clients = receiver ∷ [] }

-- The two addresses of the runs, as net.ParseCIDR and net.ParseIP read them.
abbrev parse_cidr : Bytes → Option IpNet
parse_cidr value = some (record { ip = 10 ∷ 0 ∷ 0 ∷ 0 ∷ []; mask = 255 ∷ 0 ∷ 0 ∷ 0 ∷ [] })

abbrev parse_ip : Bytes → Option Bytes
parse_ip value = some (10 ∷ 0 ∷ 0 ∷ 7 ∷ [])

abbrev acl : ClientAcl
acl = record {
  config = receiver;
  networks = record { ip = 10 ∷ 0 ∷ 0 ∷ 0 ∷ []; mask = 255 ∷ 0 ∷ 0 ∷ 0 ∷ [] } ∷ [];
}

abbrev listener : Worker
listener = record {
  config = record config { relay = record relay { input_timeout_seconds = pos 10 } };
  clients = (bytes "rx-1", acl) ∷ [];
  sessions = [];
  pending = [];
  reservations = [];
  attempts = [];
  queued = 0;
  sent = [];
  is_stopping = false;
}

started : new_worker parse_cidr config ≡ ok listener
unfolding new_worker bytes bytes_beq insert lookup
started = refl

abbrev after_handshake : Worker
after_handshake =
    (authorize parse_ip (bytes "10.0.0.7") 4000 (bytes "rx-1") (100 * second) listener).0

-- The handshake of a known client from an allowed address is accepted.
handshake_accepted :
    (authorize parse_ip (bytes "10.0.0.7") 4000 (bytes "rx-1") (100 * second) listener)
    ≡ (after_handshake, [], 0)
unfolding authorize pending_secret attempt_key itoa allow_connection_attempt choose_client
    authorize_allowed client_id_from_stream_id trim_space has_prefix bytes bytes_beq emit
    emit_rejected lookup insert tally ip_allowed is_allowed_from admit answer reserved
handshake_accepted = refl

-- A second receiver of the same client is refused while the first handshake is pending.
second_refused :
    (authorize parse_ip (bytes "10.0.0.8") 4000 (bytes "rx-1") (101 * second) after_handshake).2
    ≡ 429
unfolding authorize pending_secret attempt_key itoa allow_connection_attempt choose_client
    authorize_allowed client_id_from_stream_id trim_space has_prefix bytes bytes_beq emit
    emit_rejected lookup insert tally ip_allowed is_allowed_from admit answer reserved
second_refused = refl

listener-IsBounded : IsBounded listener
listener-IsBounded = listener_limits parse_cidr config listener listener started here

listener_limits_example : IsBounded after_handshake
listener_limits_example =
    listener_limits parse_cidr config listener after_handshake started
      (authorize-Reach parse_ip (bytes "10.0.0.7") 4000 (bytes "rx-1") (100 * second) listener)

authorize-IsPermitted_example :
    (pending_secret (attempt_key (bytes "10.0.0.7") 4000 (bytes "rx-1")) listener ≡ some [])
    ⊎ ((id : Bytes) × (choose_client listener.config.relay
            (bytes "rx-1")
            (client_id_from_stream_id (bytes "rx-1"))
          ≡ client id)
        × IsPermitted parse_ip (bytes "10.0.0.7") id listener)
authorize-IsPermitted_example =
    authorize-IsPermitted parse_ip (bytes "10.0.0.7") 4000 (bytes "rx-1") (100 * second) listener
      after_handshake [] handshake_accepted

authorize_again_example :
    authorize parse_ip (bytes "10.0.0.7") 4000 (bytes "rx-1") (101 * second) after_handshake
    ≡ (after_handshake, [], 0)
authorize_again_example =
    authorize_again parse_ip (bytes "10.0.0.7") 4000 (bytes "rx-1") (100 * second) (101 * second)
      listener after_handshake [] listener-IsBounded handshake_accepted

attempts_in_a_minute_example :
    (allowed_in (bytes "10.0.0.7") (100 * second ∷ 101 * second ∷ []) listener
      ≡ min (length (100 * second ∷ 101 * second ∷ [])) attempts_per_minute)
    × (reported_in (bytes "10.0.0.7") (100 * second ∷ 101 * second ∷ []) listener
        ≡ one_if (ltb attempts_per_minute (length (100 * second ∷ 101 * second ∷ []))))
unfolding lookup tally
attempts_in_a_minute_example =
    attempts_in_a_minute (bytes "10.0.0.7") (100 * second) (101 * second ∷ []) listener refl
      (omega arith) (omega arith)

tracked-le_example :
    size (allow_connection_attempt (bytes "10.0.0.7") (100 * second) listener).0.attempts
    ≤ max_tracked_ips
unfolding tally
tracked-le_example = tracked-le (bytes "10.0.0.7") (100 * second) listener (omega arith)

abbrev idle_input : Input
idle_input = record {
  pending = 7 ∷ [];
  continuity = [];
  input_bytes = 0;
  input_packets = 0;
  continuity_errors = 0;
}

receive_all_exact_example :
    (i' : Input) × (packets : List Bytes) × (receive_all 2
        ((1 ∷ 2 ∷ []) ∷ (3 ∷ 4 ∷ 5 ∷ []) ∷ [])
        idle_input
      ≡ some (i', packets))
    × IsSplit 2 (7 ∷ 1 ∷ 2 ∷ 3 ∷ 4 ∷ 5 ∷ []) packets i'.pending
    × (i'.input_bytes ≡ 0 + 5)
receive_all_exact_example =
    receive_all_exact 2 ((1 ∷ 2 ∷ []) ∷ (3 ∷ 4 ∷ 5 ∷ []) ∷ []) idle_input (omega arith)
      (omega arith)

-- A packet of the PID 256 with a payload and this counter byte.
abbrev ts_packet : ℕ → Bytes
ts_packet counter = 0x47 ∷ 1 ∷ 0 ∷ (16 + counter) ∷ replicate 184 0

ts_packet-IsPayload : (c : ℕ) → adaptation_control (ts_packet c) ≡ 1 → IsPayload 256 (ts_packet c)
unfolding pid_of has_discontinuity
ts_packet-IsPayload c e = record {
  sized = refl;
  synced = refl;
  on_pid = refl;
  control = inl e;
  continuous = rw e;
}

observe-breaks_example :
    (observe (joined (ts_packet 4 ∷ ts_packet 5 ∷ ts_packet 7 ∷ [])) ((256, 3) ∷ [])).1
    ≡ breaks 3 (map counter_of (ts_packet 4 ∷ ts_packet 5 ∷ ts_packet 7 ∷ []))
unfolding adaptation_control lookup
observe-breaks_example =
    observe-breaks 256 3 (ts_packet 4 ∷ ts_packet 5 ∷ ts_packet 7 ∷ []) ((256, 3) ∷ [])
      (omega arith)
      (ts_packet-IsPayload 4 refl, (ts_packet-IsPayload 5 refl, (ts_packet-IsPayload 7 refl, tt)))
      refl

abbrev short_input : Bytes
short_input = 1 ∷ 2 ∷ 3 ∷ []

abbrev window : AttemptWindow
window = record { started = 100 * second; count = 60; reported = true }

-- A session of the receiver whose queue holds as many packets as it can.
abbrev slow_session : ClientSession
slow_session = record {
  info = peer_session (bytes "rx-1") (bytes "10.0.0.7") 4000 (bytes "rx-1");
  queue = replicate session_queue_size [];
  done = false;
  drop_burst = 0;
  app_drops = 0;
}

full_run_example :
    ((offer_run ((7 ∷ []) ∷ []) slow_session).0.queue ≡ slow_session.queue)
    × ((offer_run ((7 ∷ []) ∷ []) slow_session).0.app_drops ≡ 0 + 1)
    × ((offer_run ((7 ∷ []) ∷ []) slow_session).0.drop_burst ≡ 0 + 1)
    × ((offer_run ((7 ∷ []) ∷ []) slow_session).1
        ≡ one_if (ltb 0 max_queue_drop_burst && leb max_queue_drop_burst (0 + 1)))
full_run_example = full_run ((7 ∷ []) ∷ []) slow_session refl refl
