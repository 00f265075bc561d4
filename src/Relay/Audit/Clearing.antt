-- ===== src/Relay/Audit/Clearing.antt =====
-- What `Clear` and `pruneLocked` leave of the audit log.
use mathlib.Core.List.{reverse-cons}
use neo_transcoder.Base.{
  ℕ, ◌+◌, ◌≡◌, refl, sym, ap, ◌∙◌, Bool, true, false, none, some, List, [], ◌∷◌, ◌++◌, reverse,
  arith, ltb, ◌==◌, nat_eq, bytes_eq, if◌then◌else◌, Bool-cases, inl, inr, length, ◌&&◌,
  length-append, lookup,
}
use neo_transcoder.Relay.Models.{Time}
use neo_transcoder.Relay.Sessions.{AuditEvent}
use neo_transcoder.Relay.Audit.{
  AuditFilter, Line, recorded, unreadable, Directory, matching, audit_matches, clear_lines,
  clear_files, clear_audit, day_of, prune_files, append_line, append_audit,
}
use neo_transcoder.Relay.Audit.Newest.{matches_of}
use neo_transcoder.Relay.Audit.Listing.{events_of}

clear_lines-matches_of :
    (filter : AuditFilter) (lines : List Line) → matches_of filter (clear_lines filter lines).0 ≡ []
unfolding clear_lines matches_of
clear_lines-matches_of filter [] = refl
clear_lines-matches_of filter (line ∷ lines) = ground (arith, clear_lines-matches_of filter lines)

clear_lines-length :
    (filter : AuditFilter) (lines : List Line)
    → (clear_lines filter lines).1 ≡ length (matches_of filter lines)
unfolding clear_lines matches_of
clear_lines-length filter [] = refl
clear_lines-length filter (line ∷ lines) = ground (arith, clear_lines-length filter lines)

-- No event matches both filters.
abbrev pub Disjoint : AuditFilter → AuditFilter → Type 0
Disjoint f g = (event : AuditEvent) → audit_matches g event ≡ true → audit_matches f event ≡ false

clear_lines-others :
    (f g : AuditFilter) (lines : List Line)
    → Disjoint f g
    → matches_of g (clear_lines f lines).0 ≡ matches_of g lines
unfolding clear_lines matches_of matching
clear_lines-others f g [] apart = refl
clear_lines-others f g (unreadable text ∷ lines) apart = clear_lines-others f g lines apart
clear_lines-others f g (recorded event ∷ lines) apart =
    ground (arith, apart event, clear_lines-others f g lines)

-- A file of which nothing is kept is gone, with the same events.
kept_events :
    (filter : AuditFilter) (day : ℕ) (kept : List Line) (rest : Directory)
    → events_of filter (if length kept == 0 then rest else (day, kept) ∷ rest)
      ≡ reverse (matches_of filter kept) ++ events_of filter rest
unfolding events_of matches_of
kept_events filter day [] rest = refl
kept_events filter day (line ∷ kept) rest =
    let e : (length (line ∷ kept) == 0) ≡ false = ground arith in rw e refl

clear_files-events_of :
    (filter : AuditFilter) (dir : Directory) → events_of filter (clear_files filter dir).0 ≡ []
unfolding clear_files events_of
clear_files-events_of filter [] = refl
clear_files-events_of filter ((day, lines) ∷ files) =
    kept_events filter day (clear_lines filter lines).0 (clear_files filter files).0
    ∙ rw (clear_lines-matches_of filter lines, clear_files-events_of filter files) refl

clear_files-others :
    (f g : AuditFilter) (dir : Directory)
    → Disjoint f g
    → events_of g (clear_files f dir).0 ≡ events_of g dir
unfolding clear_files events_of
clear_files-others f g [] apart = refl
clear_files-others f g ((day, lines) ∷ files) apart =
    kept_events g day (clear_lines f lines).0 (clear_files f files).0
    ∙ rw (clear_lines-others f g lines apart, clear_files-others f g files apart) refl

length-reverse {ℓ} : {A : Type ℓ} (xs : List A) → length (reverse xs) ≡ length xs
length-reverse [] = refl
length-reverse (x ∷ xs) =
    ap (λ t. length t) (reverse-cons x xs)
    ∙ omega (arith, length-append (reverse xs) (x ∷ []), length-reverse xs)

clear_files-length :
    (filter : AuditFilter) (dir : Directory)
    → (clear_files filter dir).1 ≡ length (events_of filter dir)
unfolding clear_files events_of
clear_files-length filter [] = refl
clear_files-length filter ((day, lines) ∷ files) = omega (
  arith,
  clear_lines-length filter lines,
  clear_files-length filter files,
  length-append (reverse (matches_of filter lines)) (events_of filter files),
  length-reverse (matches_of filter lines),
)

-- A filter that names nothing.
abbrev pub names_nothing : AuditFilter → Bool
names_nothing filter = filter.relay_id == [] && filter.client_id == [] && filter.type == []

all_match :
    (filter : AuditFilter) (event : AuditEvent)
    → names_nothing filter ≡ true
    → audit_matches filter event ≡ true
unfolding audit_matches
all_match filter event h = ground arith

no_matches :
    (g : AuditFilter) (lines : List Line)
    → ((event : AuditEvent) → audit_matches g event ≡ false)
    → matches_of g lines ≡ []
unfolding matches_of matching
no_matches g [] none_match = refl
no_matches g (unreadable text ∷ lines) none_match = no_matches g lines none_match
no_matches g (recorded event ∷ lines) none_match =
    ground (arith, none_match event, no_matches g lines)

no_events :
    (g : AuditFilter) (dir : Directory)
    → ((event : AuditEvent) → audit_matches g event ≡ false)
    → events_of g dir ≡ []
unfolding events_of
no_events g [] none_match = refl
no_events g ((day, lines) ∷ files) none_match =
    rw (no_matches g lines none_match, no_events g files none_match) refl

-- After `Clear`, no event of the log matches its filter any more; every event that a filter apart from
-- it matches is still there, in its place.
pub clear_audit-keeps_others :
    (f g : AuditFilter) (dir : Directory)
    → Disjoint f g
    → (events_of f (clear_audit f dir).0 ≡ [])
      × (events_of g (clear_audit f dir).0 ≡ events_of g dir)
unfolding clear_audit events_of
clear_audit-keeps_others f g dir apart = elim (Bool-cases (names_nothing f)) [
  | inl all ↦
      let nothing : (event : AuditEvent) → audit_matches g event ≡ false =
        λ event. ground (arith, apart event, all_match f event all) in
      rw all (refl, sym (no_events g dir nothing))
  | inr some_name ↦ rw some_name (clear_files-events_of f dir, clear_files-others f g dir apart)
]

-- Where its filter names something, `Clear` returns how many events it removed.
pub clear_audit-count :
    (filter : AuditFilter) (dir : Directory)
    → names_nothing filter ≡ false
    → (clear_audit filter dir).1 ≡ length (events_of filter dir)
unfolding clear_audit
clear_audit-count filter dir named = rw named (clear_files-length filter dir)

lookup-prune_files :
    (retention : ℕ) (now : Time) (dir : Directory) (day : ℕ)
    → lookup day (prune_files retention now dir)
      ≡ (if ltb (day + retention) (day_of now) then none else lookup day dir)
unfolding prune_files lookup
lookup-prune_files retention now [] day = ground arith
lookup-prune_files retention now ((other, lines) ∷ files) day =
    ground (arith, lookup-prune_files retention now files day)

-- The lines of a day's file, none where there is no file.
unfoldable pub lines_of : ℕ → Directory → List Line
lines_of day dir = elim (lookup day dir) [ none ↦ [] | some lines ↦ lines ]

lookup-append_line :
    (today : ℕ) (line : Line) (dir : Directory) (day : ℕ)
    → lookup day (append_line today line dir)
      ≡ (if today == day then some (lines_of today dir ++ line ∷ []) else lookup day dir)
unfolding append_line lookup lines_of
lookup-append_line today line [] day = refl
lookup-append_line today line ((other, lines) ∷ files) day =
    ground (arith, lookup-append_line today line files day)

-- After `Append`, the file of the event's day ends with the event, the other files are as they were,
-- and no file is left of a day that lies further back than the retention.
pub append_audit-lookup :
    (retention : ℕ) (given : AuditEvent) (clock : Time) (dir : Directory) (day : ℕ)
    → lookup day (append_audit retention given clock dir).0 ≡ (
        let event = (append_audit retention given clock dir).1 in
        let today = day_of event.time in
        if ltb (day + retention) today
        then none
        else if today == day
        then some (lines_of today dir ++ recorded event ∷ [])
        else lookup day dir)
unfolding append_audit
append_audit-lookup retention given clock dir day =
    let now = if given.time == 0 then clock else given.time in
    let event = record given { time = now } in
    lookup-prune_files retention now (append_line (day_of now) (recorded event) dir) day
    ∙ rw (lookup-append_line (day_of now) (recorded event) dir day) refl
