-- ===== src/Relay/Normalize.antt =====
-- `normalizeRelay` and `normalizeCIDR` of internal/srtrelay/store.go. What they use of Go's net and
-- net/url packages is a parameter, the record `Net`.
pub mod Ranges
use neo_transcoder.Base.{
  ℕ, ◌%◌, ℤ, Bool, true, false, not, ◌&&◌, ◌||◌, Option, none, some, List, [], ◌∷◌, ◌++◌, Bytes,
  bytes, pos, ltb, ltb_ℤ, is_ℕ, to_ℕ, ◌==◌, nat_eq, bytes_eq, if◌then◌else◌, length, any,
  trim_space, Checked, ok, err, ◌>>=◌, ◌>>◌, refuse_if,
}
use neo_transcoder.Relay.Models.{
  Relay, encryption_aes256, encryption_none, direction_listener, direction_publish,
}
use neo_transcoder.Relay.Names.{is_id, is_hostname, trim_dot}

-- Of a parsed URL: its scheme, its host, the host without the port, and the port.
pub record Url : Type 0 where
  pub scheme : Bytes
  pub host : Bytes
  pub hostname : Bytes
  pub port : Bytes

-- A parsed CIDR: the text of its network, and the number of the mask's leading ones.
pub record Cidr : Type 0 where
  pub network : Bytes
  pub ones : ℕ

-- url.Parse, net.ParseIP with the methods IsMulticast, To4 and String, strconv.Atoi, net.ParseCIDR.
pub record Net : Type 1 where
  pub Address : Type 0
  pub parse_url : Bytes → Option Url
  pub parse_ip : Bytes → Option Address
  pub is_multicast : Address → Bool
  pub is_v4 : Address → Bool
  pub ip_text : Address → Bytes
  pub atoi : Bytes → Option ℤ
  pub parse_cidr : Bytes → Option Cidr

pub data RelayError : Type 0 where
  bad_id bad_direction bad_input_url bad_input_host bad_input_port : RelayError
  bad_destination bad_destination_port bad_stream_id bad_encryption_mode : RelayError
  bad_default_client bad_bind_address bad_port bad_latency bad_payload_size : RelayError
  bad_max_clients bad_input_timeout : RelayError

-- `value < low || value > high`
unfoldable pub is_outside : ℕ → ℕ → ℤ → Bool
is_outside low high value = ltb_ℤ value (pos low) || ltb_ℤ (pos high) value

abbrev pub default_to : ℕ → ℤ → ℤ
default_to n value = if is_ℕ value 0 then pos n else value

is_some {ℓ} : {A : Type ℓ} → Option A → Bool
is_some none = false
is_some (some a) = true

-- `\r`, `\n` and the zero byte
is_unsafe : ℕ → Bool
is_unsafe c = c == b'\r' || c == b'\n' || c == 0

-- The fields that a relay of either direction has.
unfoldable pub fill_common : Relay → Relay
fill_common relay = record relay {
  name = if trim_space relay.name == [] then relay.id else relay.name;
  direction = if relay.direction == [] then direction_listener else relay.direction;
}

unfoldable pub check_numbers : Relay → Checked RelayError Relay
unfolding is_outside
check_numbers given = do
  let relay = record given {
    latency_ms = default_to 800 given.latency_ms;
    payload_size = default_to 1316 given.payload_size;
    max_clients = default_to 16 given.max_clients;
    input_timeout_seconds = default_to 10 given.input_timeout_seconds;
  }
  refuse_if (is_outside 20 60000 relay.latency_ms) bad_latency
  refuse_if (is_outside 188 1456 relay.payload_size || not (to_ℕ relay.payload_size % 188 == 0))
      bad_payload_size
  refuse_if (is_outside 1 1000 relay.max_clients) bad_max_clients
  refuse_if (is_outside 3 300 relay.input_timeout_seconds) bad_input_timeout
  ok relay

module _ (net : Net) where
  -- The checks of the input URL.
  unfoldable pub check_input : Relay → Checked RelayError (Unit {0})
  unfolding is_some
  check_input relay = elim (net.parse_url relay.input_url) [
    | none ↦ err bad_input_url
    | some u ↦ do
      refuse_if (not (u.scheme == bytes "udp") || u.host == []) bad_input_url
      refuse_if
          (elim (net.parse_ip u.hostname) [ none ↦ true | some ip ↦ not (net.is_multicast ip) ])
          bad_input_host
      refuse_if (not (is_some (net.atoi u.port))) bad_input_port
  ]

  -- The branch of a publishing relay.
  unfoldable pub check_publish : Relay → Checked RelayError Relay
  unfolding is_some is_unsafe is_outside
  check_publish given = do
    let relay = record given {
      allow_missing_stream_id = false;
      default_client_id = [];
      destination_address = trim_space given.destination_address;
      encryption_mode =
          if given.encryption_mode == [] then encryption_aes256 else given.encryption_mode;
      key_version = if ltb_ℤ given.key_version (pos 1) then pos 1 else given.key_version;
    }
    refuse_if
        (not (is_some (net.parse_ip relay.destination_address))
          && (ltb 253 (length (trim_dot relay.destination_address))
              || not (is_hostname relay.destination_address)))
        bad_destination
    refuse_if (is_outside 1 65535 relay.destination_port) bad_destination_port
    refuse_if
        (trim_space relay.stream_id == []
          || ltb 512 (length relay.stream_id)
          || any is_unsafe relay.stream_id)
        bad_stream_id
    refuse_if
        (not (relay.encryption_mode == encryption_aes256)
          && not (relay.encryption_mode == encryption_none))
        bad_encryption_mode
    ok relay

  -- The branch of a listening relay, and the checks of its address.
  unfoldable pub check_listener : Relay → Checked RelayError Relay
  unfolding is_some is_outside
  check_listener given = do
    let relay = record given {
      bind_address = if given.bind_address == [] then bytes "0.0.0.0" else given.bind_address;
      default_client_id =
          if given.allow_missing_stream_id then trim_space given.default_client_id else [];
    }
    refuse_if (relay.allow_missing_stream_id && not (is_id relay.default_client_id))
        bad_default_client
    refuse_if (not (is_some (net.parse_ip relay.bind_address))) bad_bind_address
    refuse_if (is_outside 1 65535 relay.port) bad_port
    ok relay

  unfoldable pub normalize_relay : Relay → Checked RelayError Relay
  normalize_relay given = do
    refuse_if (not (is_id given.id)) bad_id
    let named = fill_common given
    refuse_if
        (not (named.direction == direction_listener) && not (named.direction == direction_publish))
        bad_direction
    check_input named
    relay ←
        if named.direction == direction_publish then check_publish named else check_listener named
    check_numbers relay

  -- normalizeCIDR; none is its error.
  unfoldable pub normalize_cidr : Bytes → Option Bytes
  normalize_cidr given =
      let value = trim_space given in
      elim (net.parse_ip value) [
        | some ip ↦ some (net.ip_text ip ++ (if net.is_v4 ip then bytes "/32" else bytes "/128"))
        | none ↦ elim (net.parse_cidr value) [ none ↦ none | some cidr ↦ some cidr.network ]
      ]

  -- unrestrictedCIDR
  unfoldable pub is_unrestricted : Bytes → Bool
  is_unrestricted value = elim (net.parse_cidr value) [ none ↦ false | some cidr ↦ cidr.ones == 0 ]
