-- ===== src/Worker/Limiter/Rate.antt =====
-- What the rate limiter lets through, over any run of attempts from one address.
use Prim.Native.Nat.{min}
use neo_transcoder.Base.{
  ℕ, ◌+◌, ◌-◌, ◌≤◌, ◌<◌, ◌≡◌, Bool, true, false, not, ◌&&◌, none, some, List, [], ◌∷◌, Bytes, arith,
  leb, ltb, lt→ltb, if◌then◌else◌, size, one_if, lookup, insert, length, All, lookup-insert,
  tally-insert-le, tally-insert_present, tally-retain-le, bytes_eq, retain, bytes_beq_iff,
  Option-cases, inl, inr, Bool-cases,
}
use neo_transcoder.Relay.Models.{Time}
use neo_transcoder.Worker.{Worker, AttemptWindow}
use neo_transcoder.Worker.Limiter.{
  attempts_per_minute, max_tracked_ips, minute, is_fresh, set_window, open_window, count_attempt,
  limit_attempt, allow_connection_attempt,
}

-- How many of the attempts at these times are allowed.
pub allowed_in : Bytes → List Time → Worker → ℕ
allowed_in ip [] w = 0
allowed_in ip (t ∷ ts) w =
    let (w', allowed, report) = allow_connection_attempt ip t w in
    one_if allowed + allowed_in ip ts w'

-- How many of their refusals are reported.
pub reported_in : Bytes → List Time → Worker → ℕ
reported_in ip [] w = 0
reported_in ip (t ∷ ts) w =
    let (w', allowed, report) = allow_connection_attempt ip t w in
    one_if report + reported_in ip ts w'

-- The window after one more attempt in the same minute.
bump : AttemptWindow → AttemptWindow
bump win = record win {
  count = win.count + 1;
  reported = if leb (win.count + 1) attempts_per_minute then win.reported else true;
}

step_known :
    (ip : Bytes) (t : Time) (w : Worker) (win : AttemptWindow)
    → lookup ip w.attempts ≡ some win
    → t - win.started < minute
    → allow_connection_attempt ip t w ≡ (
      set_window ip (bump win) w,
      leb (win.count + 1) attempts_per_minute,
      not (leb (win.count + 1) attempts_per_minute) && not win.reported,
    )
unfolding allow_connection_attempt limit_attempt count_attempt bump
step_known ip t w win e fresh = rw (e, lt→ltb _ _ fresh) (ground arith)

lookup-set_window :
    (ip : Bytes) (win : AttemptWindow) (w : Worker)
    → lookup ip (set_window ip win w).attempts ≡ some win
lookup-set_window ip win w = ground (arith, lookup-insert ip ip win w.attempts, bytes_beq_iff ip ip)

allowed_known :
    (ip : Bytes) (ts : List Time) (w : Worker) (win : AttemptWindow)
    → lookup ip w.attempts ≡ some win
    → All (λ t. t - win.started < minute) ts
    → allowed_in ip ts w ≡ min (length ts) (attempts_per_minute - win.count)
unfolding allowed_in bump
allowed_known ip [] w win e fresh = omega arith
allowed_known ip (t ∷ ts) w win e (now, later) = rw (step_known ip t w win e now) (
    ground (
      arith,
      allowed_known ip ts (set_window ip (bump win) w) (bump win)
          (lookup-set_window ip (bump win) w) later,
    ))

reported_known :
    (ip : Bytes) (ts : List Time) (w : Worker) (win : AttemptWindow)
    → lookup ip w.attempts ≡ some win
    → All (λ t. t - win.started < minute) ts
    → reported_in ip ts w
      ≡ one_if (not win.reported && ltb (attempts_per_minute - win.count) (length ts))
unfolding reported_in bump
reported_known ip [] w win e fresh = ground arith
reported_known ip (t ∷ ts) w win e (now, later) = rw (step_known ip t w win e now) (
    ground (
      arith,
      reported_known ip ts (set_window ip (bump win) w) (bump win)
          (lookup-set_window ip (bump win) w) later,
    ))

-- The window that the first attempt of an address opens.
first_window : Time → AttemptWindow
first_window t = record { started = t; count = 1; reported = false }

step_first :
    (ip : Bytes) (t : Time) (w : Worker)
    → lookup ip w.attempts ≡ none
    → size w.attempts < max_tracked_ips
    → allow_connection_attempt ip t w ≡ (set_window ip (first_window t) w, true, false)
unfolding allow_connection_attempt limit_attempt open_window first_window
step_first ip t w e room = rw e (ground arith)

-- An address that is not tracked yet, while fewer than 10000 are: of its attempts within a minute of
-- the first one, exactly the first 60 are allowed, and of the refusals exactly one is reported, if
-- there is any.
pub attempts_in_a_minute :
    (ip : Bytes) (t : Time) (ts : List Time) (w : Worker)
    → lookup ip w.attempts ≡ none
    → size w.attempts < max_tracked_ips
    → All (λ later. later - t < minute) ts
    → (allowed_in ip (t ∷ ts) w ≡ min (length (t ∷ ts)) attempts_per_minute)
      × (reported_in ip (t ∷ ts) w ≡ one_if (ltb attempts_per_minute (length (t ∷ ts))))
unfolding allowed_in reported_in first_window
attempts_in_a_minute ip t ts w e room later = rw (step_first ip t w e room) (
    ground (
      arith,
      allowed_known ip ts (set_window ip (first_window t) w) (first_window t)
          (lookup-set_window ip (first_window t) w) later,
      reported_known ip ts (set_window ip (first_window t) w) (first_window t)
          (lookup-set_window ip (first_window t) w) later,
    ))

-- A minute or more after the window of an address was opened, its next attempt is allowed and opens a
-- new one.
pub attempt_after_a_minute :
    (ip : Bytes) (t : Time) (w : Worker) (win : AttemptWindow)
    → lookup ip w.attempts ≡ some win
    → minute ≤ t - win.started
    → ((allow_connection_attempt ip t w).1 ≡ true)
      × (lookup ip (allow_connection_attempt ip t w).0.attempts
          ≡ some (record { started = t; count = 1; reported = false }))
unfolding allow_connection_attempt limit_attempt open_window
attempt_after_a_minute ip t w win e late = rw e (
    ground (
      arith,
      lookup-insert ip ip (record { started = t; count = 1; reported = false }) w.attempts,
      bytes_beq_iff ip ip,
    ))

opened-le :
    (ip : Bytes) (t : Time) (w : Worker)
    → leb max_tracked_ips (size w.attempts) ≡ false
    → size (open_window ip t w).0.attempts ≤ max_tracked_ips
unfolding open_window first_window
opened-le ip t w h = ground (arith, tally-insert-le (λ _. true) ip (first_window t) w.attempts)

abbrev full_or_opened : Bytes → Time → Worker → Worker × Bool × Bool
full_or_opened ip t w =
    if leb max_tracked_ips (size w.attempts) then (w, false, false) else open_window ip t w

-- The refusal of an address that is not tracked, where the table is full after the expired
-- windows were deleted.
full_or_opened-le :
    (ip : Bytes) (t : Time) (w : Worker)
    → size w.attempts ≤ max_tracked_ips
    → size (full_or_opened ip t w).0.attempts ≤ max_tracked_ips
full_or_opened-le ip t w h = elim (Bool-cases (leb max_tracked_ips (size w.attempts))) [
  | inl e ↦ rw e h
  | inr e ↦ rw e (opened-le ip t w e)
]

replaced-le :
    (ip : Bytes) (win old : AttemptWindow) (w : Worker)
    → lookup ip w.attempts ≡ some old
    → size w.attempts ≤ max_tracked_ips
    → size (insert ip win w.attempts) ≤ max_tracked_ips
replaced-le ip win old w e h =
    omega (arith, tally-insert_present (λ _. true) ip win old w.attempts e)

-- Where at most 10000 addresses are tracked, at most 10000 are tracked after a further attempt.
pub tracked-le :
    (ip : Bytes) (t : Time) (w : Worker)
    → size w.attempts ≤ max_tracked_ips
    → size (allow_connection_attempt ip t w).0.attempts ≤ max_tracked_ips
unfolding allow_connection_attempt limit_attempt open_window count_attempt first_window
tracked-le ip t w h = elim (Option-cases (lookup ip w.attempts)) [
  | inl e ↦ rw e (elim (Bool-cases (leb max_tracked_ips (size w.attempts))) [
    | inl full ↦ rw full (
        full_or_opened-le ip t (record w { attempts = retain (is_fresh t) w.attempts })
          (omega (arith, tally-retain-le (λ _. true) (is_fresh t) w.attempts)))
    | inr more ↦ rw more (full_or_opened-le ip t w h)
  ])
  | inr (win, e) ↦ rw e (
      ground (
        arith,
        replaced-le ip (first_window t) win w e h,
        replaced-le ip (record win { count = win.count + 1 }) win w e h,
        replaced-le ip (record win { count = win.count + 1; reported = true }) win w e h,
      ))
]
