-- ===== src/Streams/Store.antt =====
-- The store of internal/streams/store.go: streams and profiles. Whether saveLocked succeeds is the
-- argument `saved`; where it fails, the operation returns an error and what it changed stays. Events to
-- the subscribers are left out.
pub mod Users
pub mod Loading
pub mod Consistent
pub mod Histories
pub mod Passwords
use neo_transcoder.Base.{
  ℕ, ℤ, String, Bool, true, false, not, ◌&&◌, ◌||◌, Option, none, some, List, [], ◌∷◌, Bytes, bytes,
  Eq, ◌==◌, nat_eq, bytes_eq, string_eq, if◌then◌else◌, Table, lookup, insert, delete, any_value,
  Checked, ok, err, ◌>>=◌, ◌>>◌, refuse_if, length,
}
use neo_transcoder.Auth.{User, AuthError}
use neo_transcoder.Ffmpeg.Models.{Profile, h264_very_fast_4m, h264_ultrafast_template_4m}
use neo_transcoder.Streams.Models.{Time, Config, State, LogEntry, stopped, no_code}
use neo_transcoder.Streams.Config.{ConfigError, normalize_config}
use neo_transcoder.Streams.Logs.{append_log, clear_logs}

pub record Store : Type 0 where
  pub streams : Table String Config
  pub profiles : Table Bytes Profile
  pub users : Table Bytes User
  pub auth_secret : Bytes
  pub states : Table String State
  pub logs : List LogEntry

pub data ProfileError : Type 0 where
  name_required video_codec_required audio_codec_required : ProfileError

pub data StoreError : Type 0 where
  invalid_config : ConfigError → StoreError
  invalid_profile : ProfileError → StoreError
  invalid_user : AuthError → StoreError
  profile_not_found default_profile profile_used not_saved : StoreError
  user_exists default_admin user_not_found wrong_password password_hash_required no_secret :
      StoreError

-- `_, ok := m[k]`
abbrev pub has : {K V : Type 0} ⦃e : Eq K⦄ → K → Table K V → Bool
has k t = elim (lookup k t) [ none ↦ false | some v ↦ true ]

-- `State{Status: "stopped"}`
abbrev pub stopped_state : State
stopped_state = record {
  status = stopped;
  pid = 0;
  started_at = none;
  stopped_at = none;
  error_code = no_code;
  last_error = [];
  restart_count = 0;
  is_flapping = false;
  metrics = none;
  process = none;
}

-- stateLocked
unfoldable pub state_of : String → Store → State
state_of id s = elim (lookup id s.states) [ none ↦ stopped_state | some state ↦ state ]

pub record View : Type 0 where
  pub config : Config
  pub state : State

-- Get
unfoldable pub get : String → Store → Option View
get id s = elim (lookup id s.streams) [
  | none ↦ none
  | some config ↦ some (record { config = config; state = state_of id s })
]

-- The two writes of `Upsert`
unfoldable pub put_stream : Config → Store → Store
put_stream cfg s = record s {
  streams = insert cfg.id cfg s.streams;
  states = if has cfg.id s.states then s.states else insert cfg.id stopped_state s.states;
}

abbrev pub when_saved : {A : Type 0} → Bool → A → Checked StoreError A
when_saved saved value = if saved then ok value else err not_saved

unfoldable pub upsert : Config → Bool → Store → Store × Checked StoreError View
upsert given saved s = elim (normalize_config given) [
  | err e ↦ (s, err (invalid_config e))
  | ok cfg ↦
      let s' = put_stream cfg s in
      let view : View = record { config = cfg; state = state_of cfg.id s' } in
      if has (bytes cfg.profile_name) s.profiles
      then (s', when_saved saved view)
      else (s, err profile_not_found)
]

unfoldable pub normalize_profile : Profile → Checked ProfileError Profile
normalize_profile profile =
    let filled = record profile {
      format = if profile.format == [] then bytes "mpegts" else profile.format;
    } in
    if profile.name == []
    then err name_required
    else if not (length profile.template.args == 0)
    then ok profile
    else if profile.video.codec == []
    then err video_codec_required
    else if profile.audio.codec == []
    then err audio_codec_required
    else ok filled

abbrev pub put_profile : Profile → Store → Store
put_profile profile s = record s { profiles = insert profile.name profile s.profiles }

unfoldable pub upsert_profile : Profile → Bool → Store → Store × Checked StoreError Profile
upsert_profile given saved s = elim (normalize_profile given) [
  | err e ↦ (s, err (invalid_profile e))
  | ok profile ↦ (put_profile profile s, when_saved saved profile)
]

unfoldable pub is_default_profile : Bytes → Bool
is_default_profile name =
    name == bytes "h264_veryfast_4m" || name == bytes "h264_ultrafast_template_4m"

unfoldable pub delete_profile : Bytes → Bool → Store → Store × Checked StoreError Bool
delete_profile name saved s =
    if is_default_profile name
    then (s, err default_profile)
    else if not (has name s.profiles)
    then (s, ok false)
    else if any_value (λ cfg. bytes cfg.profile_name == name) s.streams
    then (s, err profile_used)
    else (record s { profiles = delete name s.profiles }, when_saved saved true)

-- Delete
unfoldable pub delete_stream : String → Bool → Store → Store × Checked StoreError Bool
delete_stream id saved s =
    if has id s.streams
    then (
      record s { streams = delete id s.streams; states = delete id s.states },
      when_saved saved true,
    )
    else (s, ok false)

-- UpdateState, and SetState where the update forgets the old state
unfoldable pub update_state : String → (State → State) → Store → Store
update_state id update s = record s { states = insert id (update (state_of id s)) s.states }

-- AppendLogCode
unfoldable pub append_log_code : LogEntry → Store → Store
append_log_code entry s = record s { logs = append_log s.streams entry s.logs }

-- ClearLogs
unfoldable pub clear_stream_logs : String → Store → Store
clear_stream_logs id s = record s { logs = clear_logs id s.logs }

unfoldable pub ensure_profile : Profile → Store → Store
ensure_profile profile s = if has profile.name s.profiles then s else put_profile profile s

unfoldable pub ensure_default_profiles : Store → Store
ensure_default_profiles s =
    ensure_profile h264_ultrafast_template_4m (ensure_profile h264_very_fast_4m s)
