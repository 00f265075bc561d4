-- ===== src/Relay/Audit.antt =====
-- The audit log of internal/srtrelay/audit.go: `Append`, `List`, `Clear` and `pruneLocked`. The
-- directory is a table of files by their day, counted from Go's zero time (all callers give times in
-- UTC); a name "srt-audit-<date>.jsonl" stands for its day, and dates sort as their days do. A file is
-- its lines; a line that json.Unmarshal refuses is kept as such. Errors of the file system are left out,
-- and so are an event's ID and details.
pub mod Newest
pub mod Order
pub mod Listing
pub mod Clearing
use neo_transcoder.Base.{
  ℕ, zero, suc, ◌+◌, ◌-◌, ◌*◌, ◌/◌, ◌%◌, ℤ, pos, Bool, true, false, not, ◌&&◌, ◌||◌, Option, none,
  some, List, [], ◌∷◌, ◌++◌, Bytes, bytes, ltb, ltb_ℤ, to_ℕ, ◌==◌, nat_eq, bytes_eq, if◌then◌else◌,
  Table, length, set, get_or, replicate,
}
use neo_transcoder.Relay.Models.{
  Time, second, EventType, connection_attempt, connection_rejected, session_connected,
  session_stats, session_disconnected, relay_ready, relay_metrics, relay_error, other_event,
}
use neo_transcoder.Relay.Sessions.{
  AuditEvent, AuditType, of_worker, input_stalled, input_restored, named, info_level,
}

pub record AuditFilter : Type 0 where
  pub relay_id : Bytes
  pub client_id : Bytes
  pub type : Bytes
  pub limit : ℤ

pub data Line : Type 0 where
  recorded : AuditEvent → Line
  unreadable : Bytes → Line

event_text : EventType → Bytes
event_text connection_attempt = bytes "connection_attempt"
event_text connection_rejected = bytes "connection_rejected"
event_text session_connected = bytes "session_connected"
event_text session_stats = bytes "session_stats"
event_text session_disconnected = bytes "session_disconnected"
event_text relay_ready = bytes "relay_ready"
event_text relay_metrics = bytes "relay_metrics"
event_text relay_error = bytes "relay_error"
event_text (other_event text) = text

-- `event.Type`
unfoldable pub audit_text : AuditType → Bytes
unfolding event_text
audit_text (of_worker type) = event_text type
audit_text input_stalled = bytes "input_stalled"
audit_text input_restored = bytes "input_restored"
audit_text (named text) = text

unfoldable pub audit_matches : AuditFilter → AuditEvent → Bool
unfolding audit_text
audit_matches filter event =
    (filter.relay_id == [] || event.relay_id == filter.relay_id)
    && (filter.client_id == [] || event.client_id == filter.client_id)
    && (filter.type == [] || audit_text event.type == filter.type)

-- The event of a line that is read and matches.
unfoldable pub matching : AuditFilter → Line → Option AuditEvent
matching filter (unreadable text) = none
matching filter (recorded event) = if audit_matches filter event then some event else none

-- Go's `AuditEvent{}`
abbrev pub no_event : AuditEvent
no_event = record {
  time = 0;
  type = named [];
  level = info_level;
  relay_id = [];
  client_id = [];
  session_id = [];
  remote_ip = [];
  remote_port = 0;
  stream_id = [];
  reason = [];
}

-- The variables of `readAuditFile`.
pub record Ring : Type 0 where
  pub ring : List AuditEvent
  pub count : ℕ
  pub start : ℕ

-- The end of the loop's body, for an event that matches.
unfoldable pub put : ℕ → AuditEvent → Ring → Ring
put limit event r =
    if ltb r.count limit
    then record r { ring = set r.ring r.count event; count = r.count + 1 }
    else record r { ring = set r.ring r.start event; start = (r.start + 1) % limit }

put_line : ℕ → Option AuditEvent → Ring → Ring
put_line limit none r = r
put_line limit (some event) r = put limit event r

-- The loop over the lines.
unfoldable pub scan_lines : AuditFilter → ℕ → List Line → Ring → Ring
unfolding put_line
scan_lines filter limit [] r = r
scan_lines filter limit (line ∷ lines) r =
    scan_lines filter limit lines (put_line limit (matching filter line) r)

-- The index of `result[index]` in the ring. Go evaluates it with `index < count` only.
unfoldable pub position : Ring → ℕ → ℕ
position r index = (r.start + r.count - 1 - index) % r.count

-- The loop that fills `result`, from an index on, with the rounds that are left.
unfoldable pub read_ring : Ring → ℕ → ℕ → List AuditEvent
read_ring r zero index = []
read_ring r (suc rounds) index =
    get_or r.ring (position r index) no_event ∷ read_ring r rounds (index + 1)

unfoldable pub read_audit_file : AuditFilter → ℕ → List Line → List AuditEvent
read_audit_file filter limit lines =
    let r =
      scan_lines filter limit lines
        (record { ring = replicate limit no_event; count = 0; start = 0 }) in
    read_ring r r.count 0

-- The files of the directory by their day.
abbrev pub Directory : Type 0
Directory = Table ℕ (List Line)

unfoldable pub put_newer : ℕ → List Line → Directory → Directory
put_newer day lines [] = (day, lines) ∷ []
put_newer day lines ((other, others) ∷ files) =
    let rest = put_newer day lines files in
    if ltb day other then (other, others) ∷ rest else (day, lines) ∷ (other, others) ∷ files

-- pathsLocked: the files with the latest day first.
unfoldable pub newest_files : Directory → Directory
unfolding put_newer
newest_files [] = []
newest_files ((day, lines) ∷ files) = put_newer day lines (newest_files files)

-- `filter.Limit`, or 200 where it is not between 1 and 1000
unfoldable pub list_limit : ℤ → ℕ
list_limit limit = if ltb_ℤ limit (pos 1) || ltb_ℤ (pos 1000) limit then 200 else to_ℕ limit

-- The loop of `List` over the files, with the room that is left in `result`.
unfoldable pub list_files : AuditFilter → ℕ → Directory → List AuditEvent
list_files filter room [] = []
list_files filter room ((day, lines) ∷ files) =
    let events = read_audit_file filter room lines in
    let more = list_files filter (room - length events) files in
    if length events == room then events else events ++ more

unfoldable pub list_audit : AuditFilter → Directory → List AuditEvent
list_audit filter dir = list_files filter (list_limit filter.limit) (newest_files dir)

-- clearAuditFile: the lines that are kept, and how many are cleared.
unfoldable pub clear_lines : AuditFilter → List Line → List Line × ℕ
clear_lines filter [] = ([], 0)
clear_lines filter (line ∷ lines) =
    let (kept, cleared) = clear_lines filter lines in
    elim (matching filter line) [ none ↦ (line ∷ kept, cleared) | some event ↦ (kept, cleared + 1) ]

-- The loop of `Clear`; a file of which nothing is kept is removed.
unfoldable pub clear_files : AuditFilter → Directory → Directory × ℕ
clear_files filter [] = ([], 0)
clear_files filter ((day, lines) ∷ files) =
    let (rest, cleared) = clear_files filter files in
    let (kept, count) = clear_lines filter lines in
    ((if length kept == 0 then rest else (day, kept) ∷ rest), cleared + count)

-- `Clear`; with no filter it removes the files and counts those.
unfoldable pub clear_audit : AuditFilter → Directory → Directory × ℕ
clear_audit filter dir =
    if filter.relay_id == [] && filter.client_id == [] && filter.type == []
    then ([], length dir)
    else clear_files filter dir

abbrev pub day_of : Time → ℕ
day_of time = time / (24 * 60 * 60 * second)

-- The write of `Append`, at the end of the file of the event's day.
unfoldable pub append_line : ℕ → Line → Directory → Directory
append_line day line [] = (day, line ∷ []) ∷ []
append_line day line ((other, lines) ∷ files) =
    let rest = append_line day line files in
    if other == day then (other, lines ++ line ∷ []) ∷ files else (other, lines) ∷ rest

-- pruneLocked: the files of the days before the one that lies so many days back are removed.
unfoldable pub prune_files : ℕ → Time → Directory → Directory
prune_files retention_days now [] = []
prune_files retention_days now ((day, lines) ∷ files) =
    let rest = prune_files retention_days now files in
    if ltb (day + retention_days) (day_of now) then rest else (day, lines) ∷ rest

-- Append; `clock` is what time.Now returns, where the event has no time.
unfoldable pub append_audit : ℕ → AuditEvent → Time → Directory → Directory × AuditEvent
append_audit retention_days given clock dir =
    let event = record given { time = if given.time == 0 then clock else given.time } in
    (
      prune_files retention_days event.time (append_line (day_of event.time) (recorded event) dir),
      event,
    )
