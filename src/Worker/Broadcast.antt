-- ===== src/Worker/Broadcast.antt =====
-- The packet path of internal/srtworker/worker.go: the input loop's split of the received bytes into
-- payloads, `broadcast` with its drop counting, and the send loop. One goroutine reads the input.
pub mod Queues
pub mod Payloads
use neo_transcoder.Base.{
  ℕ, zero, suc, ◌+◌, ◌-◌, ◌/◌, Bool, true, false, Option, none, some, List, [], ◌∷◌, ◌++◌, Bytes,
  leb, ltb, ◌==◌, nat_eq, bytes_eq, if◌then◌else◌, Table, lookup, insert, length, take, drop,
}
use neo_transcoder.Worker.{Worker, ClientSession, session_queue_size, max_queue_drop_burst}
use neo_transcoder.Worker.Continuity.{Tracker, observe}

-- What happens to one session: the session, and whether the loop starts its `close`.
unfoldable pub offer : Bytes → ClientSession → ClientSession × Bool
offer packet s =
    if s.done
    then (s, false)
    else if ltb (length s.queue) session_queue_size
    then (record s { queue = s.queue ++ packet ∷ []; drop_burst = 0 }, false)
    else (
      record s { app_drops = s.app_drops + 1; drop_burst = s.drop_burst + 1 },
      s.drop_burst + 1 == max_queue_drop_burst,
    )

-- The loop over the snapshot: the sessions, and the IDs of those whose `close` is started.
unfoldable pub offer_all :
    Bytes → Table Bytes ClientSession → Table Bytes ClientSession × List Bytes
unfolding offer
offer_all packet [] = ([], [])
offer_all packet ((id, s) ∷ rest) =
    let (s', full) = offer packet s in
    let (rest', closing) = offer_all packet rest in
    ((id, s') ∷ rest', (if full then id ∷ closing else closing))

unfoldable pub broadcast : Bytes → Worker → Worker × List Bytes
unfolding offer_all
broadcast packet w =
    let (sessions, closing) = offer_all packet w.sessions in
    (record w { sessions = sessions }, closing)

-- The send loop takes the oldest packet of a session's queue.
unfoldable pub next_packet : ClientSession → ClientSession × Option Bytes
next_packet s = elim s.queue [
  | [] ↦ (s, none)
  | packet ∷ rest ↦ (record s { queue = rest }, some packet)
]

-- The loop `for len(pending) >= PayloadSize`, on fuel: the payloads in order, and what is left. Go
-- never leaves it for a payload size of 0; none is the end of the fuel.
unfoldable pub split_payloads : ℕ → ℕ → Bytes → Option (List Bytes × Bytes)
split_payloads zero payload_size pending = none
split_payloads (suc fuel) payload_size pending =
    let rest = split_payloads fuel payload_size (drop payload_size pending) in
    let with_first : Option (List Bytes × Bytes) = elim rest [
      | none ↦ none
      | some (packets, left) ↦ some (take payload_size pending ∷ packets, left)
    ] in
    if leb payload_size (length pending) then with_first else some ([], pending)

-- The variables of the input loop, with the counters that it adds to.
pub record Input : Type 0 where
  pub pending : Bytes
  pub continuity : Tracker
  pub input_bytes : ℕ
  pub input_packets : ℕ
  pub continuity_errors : ℕ

-- The body of the input loop for one datagram: the payloads that it hands to `broadcast`.
unfoldable pub receive : ℕ → Bytes → Input → Option (Input × List Bytes)
receive payload_size datagram i =
    let (tracker, errors) = observe datagram i.continuity in
    elim (split_payloads (suc (length (i.pending ++ datagram))) payload_size
      (i.pending ++ datagram)) [
        | none ↦ none
        | some (packets, left) ↦ some (
          record {
            pending = left;
            continuity = tracker;
            input_bytes = i.input_bytes + length datagram;
            input_packets = i.input_packets + length datagram / 188;
            continuity_errors = i.continuity_errors + errors;
          },
          packets,
        )
      ]
