-- ===== src/Streams/Logs.antt =====
-- The log buffer of internal/streams/store.go: `AppendLogCode`, `pruneLogsLocked`, `Logs`, `ClearLogs`.
-- `logs` is oldest first; the loops that go through it from its end are recursions on the reversed list.
pub mod Retained
use neo_transcoder.Base.{
  ℕ, zero, suc, ◌+◌, ℤ, String, Bool, true, false, not, ◌&&◌, ◌||◌, Option, none, some, List, [],
  ◌∷◌, ◌++◌, reverse, pos, leb, ltb, ltb_ℤ, leb_ℤ, is_longer, to_ℕ, ◌==◌, nat_eq, string_eq,
  if◌then◌else◌, Table, lookup, insert, keep,
}
use neo_transcoder.Streams.Models.{Time, Config, LogEntry}
use neo_transcoder.Streams.Config.{default_log_retention_seconds}

abbrev pub max_logs_per_stream : ℕ
max_logs_per_stream = 500

config_retention : Option Config → ℤ
config_retention none = default_log_retention_seconds
config_retention (some cfg) =
    if ltb_ℤ (pos 0) cfg.log_retention_seconds
    then cfg.log_retention_seconds
    else default_log_retention_seconds

unfoldable pub retention : Table String Config → String → ℤ
unfolding config_retention
retention streams id = config_retention (lookup id streams)

unfoldable pub is_expired : Table String Config → Time → LogEntry → Bool
is_expired streams now entry = is_longer (retention streams entry.stream_id) entry.time now

-- `counts[id]`, which is 0 for a missing key
unfoldable pub kept_of : String → Table String ℕ → ℕ
kept_of id counts = elim (lookup id counts) [ none ↦ 0 | some n ↦ n ]

-- The tests of the loop: whether the entry is kept.
unfoldable pub is_kept : Table String Config → Time → Table String ℕ → LogEntry → Bool
is_kept streams now counts entry =
    entry.stream_id == ""
    || (not (is_expired streams now entry)
        && not (leb max_logs_per_stream (kept_of entry.stream_id counts)))

unfoldable pub count_kept : LogEntry → Table String ℕ → Table String ℕ
count_kept entry counts =
    if entry.stream_id == ""
    then counts
    else insert entry.stream_id (kept_of entry.stream_id counts + 1) counts

-- The loop, from the newest entry on.
unfoldable pub prune_newest :
    Table String Config → Time → List LogEntry → Table String ℕ → List LogEntry
prune_newest streams now [] counts = []
prune_newest streams now (entry ∷ older) counts =
    let kept = is_kept streams now counts entry in
    let rest = prune_newest streams now older (if kept then count_kept entry counts else counts) in
    if kept then entry ∷ rest else rest

unfoldable pub prune_logs : Table String Config → Time → List LogEntry → List LogEntry
prune_logs streams now logs = reverse (prune_newest streams now (reverse logs) [])

unfoldable pub append_log : Table String Config → LogEntry → List LogEntry → List LogEntry
append_log streams entry logs = prune_logs streams entry.time (logs ++ entry ∷ [])

-- `streamID == "" || entry.StreamID == streamID`
unfoldable pub is_shown : String → LogEntry → Bool
is_shown id entry = id == "" || entry.stream_id == id

-- The loop of `Logs`, with the room that is left in `out`.
unfoldable pub page_newest : String → ℕ → List LogEntry → List LogEntry
page_newest id zero logs = []
page_newest id (suc room) [] = []
page_newest id (suc room) (entry ∷ older) =
    let shown = entry ∷ page_newest id room older in
    let skipped = page_newest id (suc room) older in if is_shown id entry then shown else skipped

unfoldable pub page_limit : ℤ → ℕ
page_limit limit = if leb_ℤ limit (pos 0) || ltb_ℤ (pos 500) limit then 200 else to_ℕ limit

unfoldable pub logs_page : String → ℤ → List LogEntry → List LogEntry
unfolding page_limit
logs_page id limit logs = reverse (page_newest id (page_limit limit) (reverse logs))

unfoldable pub clear_logs : String → List LogEntry → List LogEntry
clear_logs id logs = if id == "" then [] else keep (λ entry. not (entry.stream_id == id)) logs
