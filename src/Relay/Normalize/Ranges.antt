-- ===== src/Relay/Normalize/Ranges.antt =====
-- What `normalizeRelay` promises of the relay that it returns.
use neo_transcoder.Base.{
  ℕ, ◌%◌, ◌≤◌, ◌≡◌, ◌⊎◌, refl, sym, ap, ◌∙◌, ℤ, Bool, true, false, [], not, ◌&&◌, Bytes, bytes,
  arith, pos, negsuc, to_ℕ, ◌==◌, nat_eq, bytes_eq, bytes_beq, bytes_beq_iff, if◌then◌else◌,
  Bool-cases, inl, inr, Checked, ok, refuse_if, >>=-eq-ok,
}
use mathlib.Core.Path.{subst}
use neo_transcoder.Relay.Models.{Relay, direction_listener, direction_publish}
use neo_transcoder.Relay.Names.{is_id}
use neo_transcoder.Relay.Normalize.{
  Net, RelayError, bad_id, bad_direction, is_outside, fill_common, check_numbers, check_input,
  check_publish, check_listener, normalize_relay,
}

abbrev pub IsWithin : ℕ → ℕ → ℤ → Type 0
IsWithin low high value = (n : ℕ) × (value ≡ pos n) × (low ≤ n) × (n ≤ high)

pub record IsRelay (r : Relay) : Type 0 where
  pub id : is_id r.id ≡ true
  pub direction : (r.direction ≡ direction_listener) ⊎ (r.direction ≡ direction_publish)
  pub listener_port : r.direction ≡ direction_listener → IsWithin 1 65535 r.port
  pub publish_port : r.direction ≡ direction_publish → IsWithin 1 65535 r.destination_port
  pub publish_default : r.direction ≡ direction_publish → r.allow_missing_stream_id ≡ false
  pub publish_client : r.direction ≡ direction_publish → r.default_client_id ≡ []
  pub latency : IsWithin 20 60000 r.latency_ms
  pub payload : IsWithin 188 1456 r.payload_size
  pub whole_packets : to_ℕ r.payload_size % 188 ≡ 0
  pub clients : IsWithin 1 1000 r.max_clients
  pub timeout : IsWithin 3 300 r.input_timeout_seconds

is_outside-IsWithin :
    (low high : ℕ) (value : ℤ) → is_outside low high value ≡ false → IsWithin low high value
unfolding is_outside
is_outside-IsWithin low high (pos n) h = (n, refl, ground arith, ground arith)
is_outside-IsWithin low high (negsuc n) h = cc

check_numbers-inv :
    (given r : Relay)
    → check_numbers given ≡ ok r
    → (is_outside 20 60000 r.latency_ms ≡ false)
      × (is_outside 188 1456 r.payload_size ≡ false)
      × (to_ℕ r.payload_size % 188 ≡ 0)
      × (is_outside 1 1000 r.max_clients ≡ false)
      × (is_outside 3 300 r.input_timeout_seconds ≡ false)
      × (r.id ≡ given.id)
      × (r.direction ≡ given.direction)
      × (r.port ≡ given.port)
      × (r.destination_port ≡ given.destination_port)
      × (r.allow_missing_stream_id ≡ given.allow_missing_stream_id)
      × (r.default_client_id ≡ given.default_client_id)
unfolding check_numbers
check_numbers-inv given r h = ground arith

check_publish-inv :
    (net : Net) (given r : Relay)
    → check_publish net given ≡ ok r
    → (is_outside 1 65535 r.destination_port ≡ false)
      × (r.allow_missing_stream_id ≡ false)
      × (r.default_client_id ≡ [])
      × (r.id ≡ given.id)
      × (r.direction ≡ given.direction)
unfolding check_publish
check_publish-inv net given r h = ground arith

check_listener-inv :
    (net : Net) (given r : Relay)
    → check_listener net given ≡ ok r
    → (is_outside 1 65535 r.port ≡ false) × (r.id ≡ given.id) × (r.direction ≡ given.direction)
unfolding check_listener
check_listener-inv net given r h = ground arith

fill_common-same : (given : Relay) → (fill_common given).id ≡ given.id
unfolding fill_common
fill_common-same given = refl

refuse_if-inv :
    {E : Type 0} (refused : Bool) (e : E) → refuse_if refused e ≡ ok tt → refused ≡ false
refuse_if-inv true e h = cc
refuse_if-inv false e h = refl

-- The two branches.
abbrev branch_of : Net → Relay → Checked RelayError Relay
branch_of net named =
    if named.direction == direction_publish
    then check_publish net named
    else check_listener net named

branch_same :
    (net : Net) (named m : Relay)
    → branch_of net named ≡ ok m
    → (m.id ≡ named.id) × (m.direction ≡ named.direction)
branch_same net named m e = elim (Bool-cases (named.direction == direction_publish)) [
  | inl publish ↦
      let (port, default, client, ids, directions) =
        check_publish-inv net named m (ground (arith, e, publish)) in
      (ids, directions)
  | inr listens ↦
      let (port, ids, directions) = check_listener-inv net named m (ground (arith, e, listens)) in
      (ids, directions)
]

publish_branch :
    (net : Net) (named m : Relay)
    → branch_of net named ≡ ok m
    → named.direction ≡ direction_publish
    → (is_outside 1 65535 m.destination_port ≡ false)
      × (m.allow_missing_stream_id ≡ false)
      × (m.default_client_id ≡ [])
publish_branch net named m e publish =
    let (port, default, client, ids, same) =
      check_publish-inv net named m
        (ground (arith, e, bytes_beq_iff named.direction direction_publish)) in
    (port, default, client)

listener-ne-publish : (direction_listener == direction_publish) ≡ false
unfolding bytes bytes_beq
listener-ne-publish = refl

listener_branch :
    (net : Net) (named m : Relay)
    → branch_of net named ≡ ok m
    → named.direction ≡ direction_listener
    → is_outside 1 65535 m.port ≡ false
listener_branch net named m e listens =
    (check_listener-inv net named m (
      subst (λ (b : Bool). (if b then check_publish net named else check_listener net named) ≡ ok m)
        (ap (λ (d : Bytes). d == direction_publish) listens ∙ listener-ne-publish) e)).0

-- A successful normalization, step by step.
normalize_relay-inv :
    (net : Net) (given r : Relay)
    → normalize_relay net given ≡ ok r
    → (m : Relay) × (is_id given.id ≡ true)
      × (((fill_common given).direction ≡ direction_listener)
          ⊎ ((fill_common given).direction ≡ direction_publish))
      × (branch_of net (fill_common given) ≡ ok m)
      × (check_numbers m ≡ ok r)
unfolding normalize_relay
normalize_relay-inv net given r h =
    let named = fill_common given in
    let unknown =
      not (named.direction == direction_listener) && not (named.direction == direction_publish) in
    let (u₁, id, h₁) = >>=-eq-ok (refuse_if (not (is_id given.id)) bad_id) _ _ h in
    let (u₂, direction, h₂) = >>=-eq-ok (refuse_if unknown bad_direction) _ _ h₁ in
    let (u₃, input, h₃) = >>=-eq-ok (check_input net named) _ _ h₂ in
    let (m, branch, numbers) =
      >>=-eq-ok
        (if named.direction == direction_publish
          then check_publish net named
          else check_listener net named)
        _ _ h₃ in
    (
      m,
      ground (arith, refuse_if-inv (not (is_id given.id)) bad_id id),
      ground (
        arith,
        refuse_if-inv unknown bad_direction direction,
        bytes_beq_iff named.direction direction_listener,
        bytes_beq_iff named.direction direction_publish,
      ),
      branch,
      numbers,
    )

-- A relay that the store accepts has a valid ID, one of the two directions, and numbers within their
-- ranges: a listener its port, a publishing relay its destination port; each a latency of 20 to 60000 ms,
-- a payload of 188 to 1456 bytes in whole packets, 1 to 1000 clients and a timeout of 3 to 300 seconds. A
-- publishing relay names no default client, and does not admit peers without a Stream ID.
pub normalize_relay-IsRelay :
    (net : Net) (given r : Relay) → normalize_relay net given ≡ ok r → IsRelay r
normalize_relay-IsRelay net given r h =
    let (m, id, direction, branch, numbers) = normalize_relay-inv net given r h in
    let (
      latency, payload, whole, clients, timeout, ids, directions, ports, destinations, allows,
      defaults,
    ) =
      check_numbers-inv m r numbers in
    let (m_id, m_direction) = branch_same net (fill_common given) m branch in
    record {
      id = rw (ids, m_id, fill_common-same given) id;
      direction = rw (directions, m_direction) direction;
      listener_port = λ e. is_outside-IsWithin 1 65535 r.port (
          rw ports (
            listener_branch net (fill_common given) m branch
              (sym m_direction ∙ sym directions ∙ e)));
      publish_port = λ e. is_outside-IsWithin 1 65535 r.destination_port (
          rw destinations
            (publish_branch net (fill_common given) m branch
              (sym m_direction ∙ sym directions ∙ e)).0);
      publish_default = λ e.
          allows
          ∙ (publish_branch net (fill_common given) m branch
              (sym m_direction ∙ sym directions ∙ e)).1;
      publish_client = λ e.
          defaults
          ∙ (publish_branch net (fill_common given) m branch
              (sym m_direction ∙ sym directions ∙ e)).2;
      latency = is_outside-IsWithin 20 60000 r.latency_ms latency;
      payload = is_outside-IsWithin 188 1456 r.payload_size payload;
      whole_packets = whole;
      clients = is_outside-IsWithin 1 1000 r.max_clients clients;
      timeout = is_outside-IsWithin 3 300 r.input_timeout_seconds timeout;
    }
