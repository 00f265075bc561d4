-- ===== src/Relay/Audit/Listing.antt =====
-- What `List` and `Clear` do with the files of the audit log.
use mathlib.Core.List.{Perm, append-nil}
use neo_transcoder.Base.{
  ℕ, zero, suc, ◌-◌, ◌≤◌, ◌<◌, ◌≡◌, refl, sym, ap, ◌∙◌, true, false, List, [], ◌∷◌, ◌++◌, reverse,
  arith, ◌==◌, nat_eq, Bool-cases, inl, inr, length, take, take-append, length-take, pos, negsuc, ℤ,
  bytes_eq,
}
use neo_transcoder.Relay.Sessions.{AuditEvent}
use neo_transcoder.Relay.Audit.{
  AuditFilter, Directory, newest_files, list_limit, list_files, list_audit,
}
use neo_transcoder.Relay.Audit.Order.{IsNewestFirst, newest_files-IsNewestFirst, newest_files-perm}
use neo_transcoder.Relay.Audit.Newest.{matches_of, read_audit_file-newest}

-- The matching events of the files in this order, each file's latest first.
unfoldable pub events_of : AuditFilter → Directory → List AuditEvent
events_of filter [] = []
events_of filter ((day, lines) ∷ files) =
    reverse (matches_of filter lines) ++ events_of filter files

-- A file's share of the list: with no room left, and with room for more.
room_full :
    (room : ℕ) (mine more : List AuditEvent)
    → (length (take room mine) == room) ≡ true
    → take room mine ≡ take room (mine ++ more)
room_full room mine more is_full =
    let none_left : room - length mine ≡ 0 = ground (arith, length-take room mine) in
    sym (append-nil (take room mine))
    ∙ ap (λ k. take room mine ++ take k more) (sym none_left)
    ∙ sym (take-append room mine more)

room_for_more :
    (room : ℕ) (mine more : List AuditEvent)
    → (length (take room mine) == room) ≡ false
    → take room mine ++ take (room - length (take room mine)) more ≡ take room (mine ++ more)
room_for_more room mine more has_room =
    let same : room - length (take room mine) ≡ room - length mine =
      ground (arith, length-take room mine) in
    ap (λ k. take room mine ++ take k more) same ∙ sym (take-append room mine more)

list_files-newest :
    (filter : AuditFilter) (room : ℕ) (files : Directory)
    → 0 < room
    → list_files filter room files ≡ take room (events_of filter files)
unfolding list_files events_of
list_files-newest filter zero [] some_room = absurd (omega arith)
list_files-newest filter (suc room) [] some_room = refl
list_files-newest filter room ((day, lines) ∷ files) some_room =
    let mine = reverse (matches_of filter lines) in
    rw (read_audit_file-newest filter room lines some_room)
      (elim (Bool-cases (length (take room mine) == room)) [
        | inl is_full ↦ rw is_full (room_full room mine (events_of filter files) is_full)
        | inr has_room ↦
            let rest =
              list_files-newest filter (room - length (take room mine)) files
                (ground (arith, length-take room mine)) in
            rw (has_room, rest) (room_for_more room mine (events_of filter files) has_room)
      ])

list_limit_lem : (limit : ℤ) → (0 < list_limit limit) × (list_limit limit ≤ 1000)
unfolding list_limit
list_limit_lem (pos n) = (ground arith, ground arith)
list_limit_lem (negsuc n) = (ground arith, ground arith)

-- `List` answers with the newest matching events of the log, however many files they are in: from the
-- log's files, all of them, in an order in which no file stands after one of an earlier day, it takes the
-- matching events of each, the latest first, and as many as the filter's limit allows.
pub list_audit-newest :
    (filter : AuditFilter) (dir : Directory)
    → (files : Directory) × IsNewestFirst files
      × Perm files dir
      × (list_audit filter dir ≡ take (list_limit filter.limit) (events_of filter files))
unfolding list_audit
list_audit-newest filter dir =
    let (some_room, _) = list_limit_lem filter.limit in
    (
      newest_files dir,
      newest_files-IsNewestFirst dir,
      newest_files-perm dir,
      list_files-newest filter (list_limit filter.limit) (newest_files dir) some_room,
    )
