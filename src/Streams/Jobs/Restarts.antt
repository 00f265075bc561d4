-- ===== src/Streams/Jobs/Restarts.antt =====
-- How often a failing stream is restarted.
use neo_transcoder.Base.{
  ℕ, ◌+◌, ◌<◌, ◌≡◌, refl, sym, ap, ◌∙◌, pos, String, Bool, true, false, not, none, some, List, [],
  ◌∷◌, Bytes, arith, ltb, ltb_ℤ, Bool-cases, inl, inr, is_longer, nat_eq, string_eq, eq_iff, lookup,
  insert, lookup-insert, length, one_if, All,
}
use Prim.Native.Nat.{min}
use neo_transcoder.Streams.Models.{Time, RestartPolicy}
use neo_transcoder.Streams.Store.{update_state, append_log_code}
use neo_transcoder.Streams.Jobs.{
  JobManager, RestartTracker, Next, at_rest, restart_after, tracker_of, count_failure,
  limit_restarts,
}

abbrev is_restart : Next → Bool
is_restart at_rest = false
is_restart (restart_after seconds) = true

-- How many of the failures at these times are followed by a restart.
pub restarts_in : String → Bytes → RestartPolicy → List Time → JobManager → ℕ
restarts_in id reason policy [] m = 0
restarts_in id reason policy (t ∷ ts) m =
    let (m', next) = limit_restarts id reason policy t m in
    one_if (is_restart next) + restarts_in id reason policy ts m'

limit_restarts-counted :
    (id : String) (reason : Bytes) (policy : RestartPolicy) (max : ℕ) (t : Time) (m : JobManager)
    → policy.max_attempts ≡ pos max
    → ((limit_restarts id reason policy t m).0.restarts
        ≡ insert id (count_failure policy t (tracker_of id m)) m.restarts)
      × (is_restart (limit_restarts id reason policy t m).1
          ≡ not (ltb max (count_failure policy t (tracker_of id m)).attempts))
unfolding limit_restarts append_log_code update_state
limit_restarts-counted id reason policy max t m limit =
    let attempts = (count_failure policy t (tracker_of id m)).attempts in
    let same : ltb_ℤ policy.max_attempts (pos attempts) ≡ ltb max attempts =
      ap (λ l. ltb_ℤ l (pos attempts)) limit in
    elim (Bool-cases (ltb_ℤ policy.max_attempts (pos attempts))) [
      | inl over ↦ (rw over refl, rw over (ap not (sym over ∙ same)))
      | inr within ↦ (rw within refl, rw within (ap not (sym within ∙ same)))
    ]

abbrev one_more : RestartTracker → RestartTracker
one_more tracker = record tracker { attempts = tracker.attempts + 1 }

count_failure-within :
    (policy : RestartPolicy) (t : Time) (tracker : RestartTracker)
    → 0 < tracker.first_failure
    → is_longer policy.window_seconds tracker.first_failure t ≡ false
    → count_failure policy t tracker ≡ one_more tracker
unfolding count_failure
count_failure-within policy t tracker started within = ground (arith, within)

tracker_of-known :
    (id : String) (m : JobManager) (tracker : RestartTracker)
    → lookup id m.restarts ≡ some tracker
    → tracker_of id m ≡ tracker
unfolding tracker_of
tracker_of-known id m tracker known = rw (tracker_of, known) refl

restarts_known :
    (id : String) (reason : Bytes) (policy : RestartPolicy) (max : ℕ) (ts : List Time)
    (m : JobManager) (tracker : RestartTracker)
    → policy.max_attempts ≡ pos max
    → lookup id m.restarts ≡ some tracker
    → 0 < tracker.first_failure
    → All (λ t. is_longer policy.window_seconds tracker.first_failure t ≡ false) ts
    → restarts_in id reason policy ts m + min tracker.attempts max
      ≡ min (tracker.attempts + length ts) max
unfolding restarts_in
restarts_known id reason policy max [] m tracker limit known started within = ground arith
restarts_known id reason policy max (t ∷ ts) m tracker limit known started (first, within) =
    let m' = (limit_restarts id reason policy t m).0 in
    let counted : count_failure policy t (tracker_of id m) ≡ one_more tracker =
      ap (λ k. count_failure policy t k) (tracker_of-known id m tracker known)
      ∙ count_failure-within policy t tracker started first in
    let (written, allowed) = limit_restarts-counted id reason policy max t m limit in
    let now_known : lookup id m'.restarts ≡ some (one_more tracker) =
      ap (λ r. lookup id r) (written ∙ ap (λ k. insert id k m.restarts) counted)
      ∙ ground (arith, lookup-insert id id (one_more tracker) m.restarts, eq_iff id id) in
    let again =
      restarts_known id reason policy max ts m' (one_more tracker) limit now_known started within in
    let goes : is_restart (limit_restarts id reason policy t m).1
        ≡ not (ltb max (tracker.attempts + 1)) =
      allowed ∙ ap (λ k. not (ltb max k.attempts)) counted in
    ground (arith, again, goes)

-- A stream with no failures on record, under a policy with a positive limit, whose first failure is not at
-- Go's zero time: of its failures within the policy's window after the first one, as many as the limit says
-- are followed by a restart, and no more.
pub restarts_in_a_policy_window :
    (id : String) (reason : Bytes) (policy : RestartPolicy) (max : ℕ) (t : Time) (ts : List Time)
    (m : JobManager)
    → policy.max_attempts ≡ pos max
    → 0 < max
    → lookup id m.restarts ≡ none
    → 0 < t
    → All (λ s. is_longer policy.window_seconds t s ≡ false) ts
    → restarts_in id reason policy (t ∷ ts) m ≡ min (length (t ∷ ts)) max
unfolding restarts_in tracker_of count_failure
restarts_in_a_policy_window id reason policy max t ts m limit some_max fresh started within =
    let m' = (limit_restarts id reason policy t m).0 in
    let first : RestartTracker = record { first_failure = t; attempts = 1 } in
    let counted : count_failure policy t (tracker_of id m) ≡ first = rw (fresh, tracker_of) refl in
    let (written, allowed) = limit_restarts-counted id reason policy max t m limit in
    let now_known : lookup id m'.restarts ≡ some first =
      ap (λ r. lookup id r) (written ∙ ap (λ k. insert id k m.restarts) counted)
      ∙ ground (arith, lookup-insert id id first m.restarts, eq_iff id id) in
    let again = restarts_known id reason policy max ts m' first limit now_known started within in
    let goes : is_restart (limit_restarts id reason policy t m).1 ≡ not (ltb max 1) =
      allowed ∙ ap (λ k. not (ltb max k.attempts)) counted in
    ground (arith, again, goes)
