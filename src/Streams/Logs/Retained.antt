-- ===== src/Streams/Logs/Retained.antt =====
-- What the pruning keeps, and what a page shows.
use neo_transcoder.Base.{
  ℕ, zero, suc, ◌+◌, ◌≡◌, ◌≢◌, refl, sym, ap, ◌∙◌, ℤ, String, Bool, not, ◌&&◌, ◌||◌, List, [], ◌∷◌,
  ◌++◌, reverse, arith, eq_iff, leb_ℤ, ltb_ℤ, to_ℕ, pos, ◌==◌, string_eq, if◌then◌else◌, Table,
  lookup, lookup-insert, keep, take, Bool-cases, inl, inr, keep-append,
}
use mathlib.Core.Path.{◌≡⟨◌⟩◌, ◌∎}
use mathlib.Core.List.{reverse-cons, append-nil}
use neo_transcoder.Streams.Models.{Time, Config, LogEntry}
use neo_transcoder.Streams.Logs.{
  max_logs_per_stream, is_expired, kept_of, is_kept, count_kept, prune_newest, prune_logs, is_shown,
  page_newest, page_limit, logs_page, clear_logs,
}

abbrev pub is_of : String → LogEntry → Bool
is_of id entry = entry.stream_id == id

-- The entries of one stream whose retention time has not passed.
abbrev pub is_live : Table String Config → Time → String → LogEntry → Bool
is_live streams now id entry = is_of id entry && not (is_expired streams now entry)

kept_of-count_kept :
    (id : String) (entry : LogEntry) (counts : Table String ℕ)
    → ◌≢◌ {A = String} id ""
    → kept_of id (count_kept entry counts)
      ≡ (if entry.stream_id == id then kept_of id counts + 1 else kept_of id counts)
unfolding kept_of count_kept
kept_of-count_kept id entry counts named = ground (
  arith,
  eq_iff entry.stream_id id,
  eq_iff entry.stream_id "",
  lookup-insert entry.stream_id id (kept_of entry.stream_id counts + 1) counts,
)

keep-reverse {ℓ} :
    {A : Type ℓ} (p : A → Bool) (xs : List A) → keep p (reverse xs) ≡ reverse (keep p xs)
keep-reverse p [] = refl
keep-reverse p (x ∷ xs) =
    keep p (reverse (x ∷ xs))
    ≡⟨ ap (keep p) (reverse-cons x xs) ⟩ keep p (reverse xs ++ x ∷ [])
    ≡⟨ keep-append p (reverse xs) (x ∷ []) ⟩ keep p (reverse xs) ++ keep p (x ∷ [])
    ≡⟨ ap (λ t. t ++ keep p (x ∷ [])) (keep-reverse p xs) ⟩ reverse (keep p xs) ++ keep p (x ∷ [])
    ≡⟨ elim (Bool-cases (p x)) [
      | inl e ↦ rw e (sym (reverse-cons x (keep p xs)))
      | inr e ↦ rw e (append-nil (reverse (keep p xs)))
    ] ⟩
      reverse (keep p (x ∷ xs)) ∎

module _ (streams : Table String Config) (now : Time) (id : String)
    (named : ◌≢◌ {A = String} id "") where
  -- The loop with room for so many more entries of the stream.
  stream_newest :
      (logs : List LogEntry) (counts : Table String ℕ) (room : ℕ)
      → kept_of id counts + room ≡ max_logs_per_stream
      → keep (is_of id) (prune_newest streams now logs counts)
        ≡ take room (keep (is_live streams now id) logs)
  unfolding prune_newest is_kept
  stream_newest [] counts zero e = refl
  stream_newest [] counts (suc room) e = refl
  stream_newest (entry ∷ older) counts zero e = ground (
    arith,
    eq_iff entry.stream_id id,
    eq_iff entry.stream_id "",
    kept_of-count_kept id entry counts named,
    stream_newest older counts zero,
    stream_newest older (count_kept entry counts) zero,
  )
  stream_newest (entry ∷ older) counts (suc room) e = ground (
    arith,
    eq_iff entry.stream_id id,
    eq_iff entry.stream_id "",
    kept_of-count_kept id entry counts named,
    stream_newest older counts (suc room),
    stream_newest older (count_kept entry counts) (suc room),
    stream_newest older (count_kept entry counts) room,
  )

  -- After a pruning a stream has exactly the newest 500 of its entries that have not expired, in their
  -- order, whatever the other streams have logged.
  pub stream-prune_logs :
      (logs : List LogEntry)
      → keep (is_of id) (prune_logs streams now logs)
        ≡ reverse (take max_logs_per_stream (keep (is_live streams now id) (reverse logs)))
  unfolding prune_logs
  stream-prune_logs logs =
      keep-reverse (is_of id) (prune_newest streams now (reverse logs) [])
      ∙ ap reverse
          (stream_newest (reverse logs) [] max_logs_per_stream (unfold kept_of lookup in refl))

page_newest-take :
    (id : String) (room : ℕ) (logs : List LogEntry)
    → page_newest id room logs ≡ take room (keep (is_shown id) logs)
unfolding page_newest
page_newest-take id zero logs = refl
page_newest-take id (suc room) [] = refl
page_newest-take id (suc room) (entry ∷ older) =
    ground (arith, page_newest-take id room older, page_newest-take id (suc room) older)

-- A page of the log is the newest matching entries in their order, as many as the limit says, or 200
-- for a limit that is not between 1 and 500.
pub logs_page-newest :
    (id : String) (limit : ℤ) (logs : List LogEntry)
    → logs_page id limit logs
      ≡ reverse (
          take
            (if leb_ℤ limit (pos 0) || ltb_ℤ (pos 500) limit then 200 else to_ℕ limit)
            (keep (is_shown id) (reverse logs)))
unfolding logs_page page_limit
logs_page-newest id limit logs = ap reverse (page_newest-take id _ (reverse logs))

-- Clearing the log of a stream removes its entries and no other.
pub clear_logs-others :
    (id other : String) (logs : List LogEntry)
    → ◌≢◌ {A = String} id ""
    → keep (is_of other) (clear_logs id logs)
      ≡ (if id == other then [] else keep (is_of other) logs)
unfolding clear_logs
clear_logs-others id other [] named = ground arith
clear_logs-others id other (entry ∷ logs) named = ground (
  arith,
  clear_logs-others id other logs named,
  eq_iff id other,
  eq_iff entry.stream_id id,
  eq_iff entry.stream_id other,
  eq_iff id "",
)
