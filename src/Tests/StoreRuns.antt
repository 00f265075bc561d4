-- ===== src/Tests/StoreRuns.antt =====
-- A store that is opened without a file, with a stream and a new password; and the stream's process.
use neo_transcoder.Base.{
  ℕ, ◌+◌, ◌≡◌, refl, pos, true, false, none, some, List, [], ◌∷◌, ◌++◌, Bytes, bytes, bytes_beq,
  bytes_eq, string_eq, nat_eq, arith, ok, lookup, insert, is_longer, duration_seconds, time_sub,
  wrap_i64, All, length, ltb_ℤ, ◌*◌,
}
use Prim.Native.Nat.{min}
use neo_transcoder.Auth.{
  User, Claims, new_user, hash_password, validate_username, validate_password, all_username_chars,
  iterations, key_length, public,
}
use neo_transcoder.Auth.Base64.{encode}
use neo_transcoder.Auth.Pbkdf2.{pbkdf2_key}
use neo_transcoder.Ffmpeg.Models.{h264_very_fast_4m, h264_ultrafast_template_4m, with_log_level}
use neo_transcoder.Ffmpeg.Args.{build_args}
use neo_transcoder.Ffmpeg.Template.Rendered.{is_ok}
use neo_transcoder.Ffmpeg.Args.BuiltIn.{build_args-built_in}
use neo_transcoder.Ffmpeg.Urls.{validate_input, validate_url, check_url}
use neo_transcoder.Streams.Models.{running, second}
use neo_transcoder.Streams.Config.{default_restart_policy}
use neo_transcoder.Streams.Store.{
  Store, upsert, ensure_default_profiles, ensure_profile, stopped_state, state_of,
}
use neo_transcoder.Streams.Store.Users.{
  authenticate, is_same_version, verify_token_claims, change_password, change_known, with_password,
  next_token_version,
}
use neo_transcoder.Streams.Store.Loading.{new_store, load, ensure_secret, ensure_admin, ensure_auth}
use neo_transcoder.Streams.Store.Consistent.{IsConsistent}
use neo_transcoder.Streams.Store.Histories.{stream_saved, opened, followed_by, Reached-IsConsistent}
use neo_transcoder.Streams.Store.Passwords.{change_password-revokes}
use neo_transcoder.Streams.Jobs.{
  JobManager, stream_of, count_failure, tracker_of, write_stopping, at_rest, restart_after,
}
use neo_transcoder.Streams.Jobs.Processes.{take_job, write_ended, wait, after_backoff}
use neo_transcoder.Streams.Jobs.Goroutines.{
  waits, taken, written, returned, Threads, stopping_threads,
}
use neo_transcoder.Streams.Jobs.Lifecycle.{wait-after_backoff}
use neo_transcoder.Streams.Jobs.Restarts.{restarts_in, restarts_in_a_policy_window}
use neo_transcoder.Tests.AuthRuns.{crypto, counted, counted-IsBytes, salt, salt-IsBytes}
use neo_transcoder.Tests.FfmpegRuns.{urls, sys}
use neo_transcoder.Tests.StreamRuns.{filled}

abbrev pub hash_of : Bytes → Bytes
hash_of password =
    bytes "pbkdf2-sha256"
    ++ b'$'
      ∷ (bytes "120000"
          ++ b'$'
            ∷ (encode salt
                ++ b'$' ∷ encode (pbkdf2_key (counted password) salt iterations key_length)))

abbrev pub admin : User
admin = record {
  username = bytes "admin";
  password_hash = hash_of (bytes "123456");
  must_change_password = true;
  created_at = 9;
  updated_at = 9;
  token_version = pos 1;
}

abbrev pub fresh : Store
fresh = record {
  streams = [];
  profiles =
      (bytes "h264_veryfast_4m", h264_very_fast_4m)
      ∷ (bytes "h264_ultrafast_template_4m", h264_ultrafast_template_4m)
      ∷ [];
  users = (bytes "admin", admin) ∷ [];
  auth_secret = bytes "secret";
  states = [];
  logs = [];
}

pub opens : new_store crypto none (some (bytes "secret")) (some salt) 9 true ≡ ok fresh
unfolding new_store load ensure_auth ensure_secret ensure_admin ensure_default_profiles
    ensure_profile lookup insert new_user validate_username validate_password all_username_chars
    hash_password bytes bytes_beq
opens = refl

Reached-IsConsistent_example : IsConsistent (upsert filled false fresh).0
Reached-IsConsistent_example = Reached-IsConsistent crypto (
    followed_by (opened none (some (bytes "secret")) (some salt) 9 true opens)
      (stream_saved filled false))

abbrev session : Claims
session = record {
  subject = bytes "admin";
  type = bytes "access";
  token_version = pos 1;
  expires_at = 900;
}

abbrev pub changed : Store
changed = record fresh {
  users = (bytes "admin", with_password (hash_of (bytes "better")) 20 admin) ∷ [];
}

changes :
    change_password crypto (some salt) (bytes "admin") [] (bytes "better") false 20 true fresh
    ≡ (changed, ok (public (with_password (hash_of (bytes "better")) 20 admin)))
unfolding change_password change_known validate_password hash_password lookup insert
    next_token_version bytes bytes_beq
changes = refl

accepted : verify_token_claims session fresh ≡ some admin
unfolding verify_token_claims is_same_version lookup bytes bytes_beq
accepted = refl

change_password-revokes_example :
    (verify_token_claims session changed ≡ none)
    × ((after : User) × (authenticate crypto (bytes "admin") (bytes "better") changed ≡ some after)
        × (after.username ≡ admin.username))
change_password-revokes_example =
    change_password-revokes crypto salt (bytes "admin") [] (bytes "better") false 20 true fresh
      changed (public (with_password (hash_of (bytes "better")) 20 admin)) session admin
      salt-IsBytes (λ m. refl) (counted-IsBytes (bytes "better")) changes refl accepted

abbrev pub manager : JobManager
manager = record {
  store = record fresh { streams = ("news", filled) ∷ []; states = ("news", stopped_state) ∷ [] };
  jobs = ("news", record { pid = 41; stopping = false }) ∷ [];
  restarts = [];
  sys = sys;
}

builds :
    is_ok (
      build_args urls
        (stream_of filled)
        h264_very_fast_4m
        (with_log_level sys (bytes filled.log_level)))
    ≡ true
unfolding stream_of validate_input validate_url check_url bytes bytes_beq
builds =
    (build_args-built_in urls (stream_of filled) (with_log_level sys (bytes filled.log_level)) refl
      refl).1

attempts_left :
    ltb_ℤ default_restart_policy.max_attempts
      (pos (count_failure default_restart_policy 100 (tracker_of "news" manager)).attempts)
    ≡ false
unfolding count_failure tracker_of lookup
attempts_left = refl

has_profile : lookup (bytes filled.profile_name) manager.store.profiles ≡ some h264_very_fast_4m
unfolding lookup bytes bytes_beq
has_profile = refl

running_job :
    (lookup "news" manager.jobs ≡ some (record { pid = 41; stopping = false }))
    × (lookup "news" manager.store.streams ≡ some filled)
unfolding lookup
running_job = (refl, refl)

wait-after_backoff_example :
    (m1 : JobManager) × (m2 : JobManager) × (wait "news" 41
        (some (bytes "exit status 1"))
        100
        manager
      ≡ (m1, restart_after (pos 5)))
    × (after_backoff urls (λ e. bytes "not started") "news" (ok 42) 200 m1 ≡ (m2, at_rest))
    × (lookup "news" m2.jobs ≡ some (record { pid = 42; stopping = false }))
    × ((state_of "news" m2.store).status ≡ running)
    × ((state_of "news" m2.store).restart_count ≡ (state_of "news" manager.store).restart_count + 1)
wait-after_backoff_example =
    wait-after_backoff urls (λ e. bytes "not started") "news" 41 42 (bytes "exit status 1") 100 200
      filled default_restart_policy h264_very_fast_4m manager running_job.0 running_job.1 refl refl
      attempts_left has_profile builds

-- The process ends before `Stop` writes its status.
abbrev asked : Threads
asked = stopping_threads "news" manager

abbrev forgotten : Threads
forgotten = record asked {
  manager = (take_job "news" 41 asked.manager).0;
  wait_at = taken (take_job "news" 41 asked.manager).1;
}

abbrev reported : Threads
reported = record forgotten {
  manager = (write_ended "news" true none 150 forgotten.manager).0;
  wait_at = written true (write_ended "news" true none 150 forgotten.manager).1;
}

abbrev finished : Threads
finished = record reported { wait_at = returned at_rest }

abbrev late_write : Threads
late_write = record finished {
  manager = write_stopping "news" 160 finished.manager;
  stop_at = waits true;
}

no_failures : lookup "news" manager.restarts ≡ none
unfolding lookup
no_failures = refl

-- Six failures, one a second.
abbrev failures : List ℕ
failures = 2 * second ∷ 3 * second ∷ 4 * second ∷ 5 * second ∷ 6 * second ∷ []

in_window : All (λ s. is_longer default_restart_policy.window_seconds second s ≡ false) failures
unfolding is_longer duration_seconds time_sub wrap_i64
in_window = (refl, (refl, (refl, (refl, (refl, tt)))))

restarts_in_a_policy_window_example :
    restarts_in "news" (bytes "exit status 1") default_restart_policy (second ∷ failures) manager
    ≡ min (length (second ∷ failures)) 5
restarts_in_a_policy_window_example =
    restarts_in_a_policy_window "news" (bytes "exit status 1") default_restart_policy 5 second
      failures manager refl (omega arith) no_failures (omega arith) in_window
