-- ===== src/Tests/AuditRuns.antt =====
-- An audit log of two days.
use mathlib.Core.List.{Perm}
use neo_transcoder.Base.{
  ℕ, ◌+◌, ◌*◌, ◌≡◌, ℤ, none, some, [], ◌∷◌, ◌++◌, Bytes, bytes, bytes_beq, bytes_beq_iff, bytes_eq,
  pos, arith, lookup, take, ltb, ◌==◌, nat_eq, if◌then◌else◌,
}
use neo_transcoder.Relay.Models.{session_connected, second}
use neo_transcoder.Relay.Sessions.{AuditEvent, of_worker}
use neo_transcoder.Relay.Audit.{
  AuditFilter, Directory, recorded, unreadable, no_event, day_of, audit_matches, list_audit,
  list_limit, clear_audit, append_audit,
}
use neo_transcoder.Relay.Audit.Order.{IsNewestFirst}
use neo_transcoder.Relay.Audit.Listing.{events_of, list_audit-newest}
use neo_transcoder.Relay.Audit.Clearing.{
  Disjoint, lines_of, clear_audit-keeps_others, append_audit-lookup,
}

abbrev connected : ℕ → Bytes → AuditEvent
connected time relay_id = record no_event {
  time = time;
  type = of_worker session_connected;
  relay_id = relay_id;
}

abbrev days : Directory
days =
    (
      7,
      recorded (connected 1 (bytes "a"))
          ∷ unreadable (bytes "{")
          ∷ recorded (connected 2 (bytes "b"))
          ∷ [],
    )
    ∷ (8, recorded (connected 3 (bytes "b")) ∷ recorded (connected 4 (bytes "a")) ∷ [])
    ∷ []

abbrev only : Bytes → ℤ → AuditFilter
only relay_id limit = record { relay_id = relay_id; client_id = []; type = []; limit = limit }

list_audit-newest_example :
    (files : Directory) × IsNewestFirst files
    × Perm files days
    × (list_audit (only (bytes "b") (pos 1)) days
        ≡ take (list_limit (pos 1)) (events_of (only (bytes "b") (pos 1)) files))
list_audit-newest_example = list_audit-newest (only (bytes "b") (pos 1)) days

a≢b : bytes "a" ≡ bytes "b" → ⊥
unfolding bytes
a≢b e = ground arith

apart : Disjoint (only (bytes "a") (pos 0)) (only (bytes "b") (pos 0))
unfolding audit_matches bytes bytes_beq
apart event h =
    ground (
      arith,
      bytes_beq_iff event.relay_id (bytes "a"),
      bytes_beq_iff event.relay_id (bytes "b"),
      a≢b,
    )

clear_audit-keeps_others_example :
    (events_of (only (bytes "a") (pos 0)) (clear_audit (only (bytes "a") (pos 0)) days).0 ≡ [])
    × (events_of (only (bytes "b") (pos 0)) (clear_audit (only (bytes "a") (pos 0)) days).0
        ≡ events_of (only (bytes "b") (pos 0)) days)
clear_audit-keeps_others_example =
    clear_audit-keeps_others (only (bytes "a") (pos 0)) (only (bytes "b") (pos 0)) days apart

abbrev later : AuditEvent
later = connected (9 * (24 * 60 * 60 * second)) (bytes "c")

append_audit-lookup_example : lookup 7 (append_audit 1 later 0 days).0 ≡ (
    let event = (append_audit 1 later 0 days).1 in
    let today = day_of event.time in
    if ltb (7 + 1) today
    then none
    else if today == 7
    then some (lines_of today days ++ recorded event ∷ [])
    else lookup 7 days)
append_audit-lookup_example = append_audit-lookup 1 later 0 days 7
