-- ===== src/Streams/Store/Loading.antt =====
-- `NewStore`: the state file, the built-in profiles, the secret and the first user. The file's contents
-- are what os.ReadFile and json.Unmarshal give, none where there is no path or no file.
use neo_transcoder.Base.{
  pos, Bool, true, false, not, ◌&&◌, Option, none, some, List, [], ◌∷◌, Bytes, bytes, ltb_ℤ, ◌==◌,
  bytes_eq, string_eq, if◌then◌else◌, insert, Checked, ok, err, ◌>>=◌, ◌>>◌, refuse_if,
}
use neo_transcoder.Auth.{User, Crypto, Time, new_user, validate_username}
use neo_transcoder.Ffmpeg.Models.{Profile}
use neo_transcoder.Streams.Models.{Config}
use neo_transcoder.Streams.Config.{normalize_config}
use neo_transcoder.Streams.Store.{
  Store, StoreError, invalid_config, invalid_profile, invalid_user, profile_not_found,
  password_hash_required, no_secret, not_saved, has, stopped_state, put_profile, normalize_profile,
  ensure_default_profiles,
}
use neo_transcoder.Streams.Store.Users.{put_user}

pub record PersistedState : Type 0 where
  pub streams : List Config
  pub profiles : List Profile
  pub users : List User
  pub secret : Bytes

abbrev pub empty_store : Store
empty_store = record {
  streams = [];
  profiles = [];
  users = [];
  auth_secret = [];
  states = [];
  logs = [];
}

-- The loop over the profiles.
unfoldable pub load_profiles : List Profile → Store → Checked StoreError Store
load_profiles [] s = ok s
load_profiles (profile ∷ profiles) s = elim (normalize_profile profile) [
  | err e ↦ err (invalid_profile e)
  | ok normalized ↦ load_profiles profiles (put_profile normalized s)
]

unfoldable pub load_user : User → Checked StoreError User
load_user user = elim (validate_username user.username) [
  | err e ↦ err (invalid_user e)
  | ok _ ↦
      if user.password_hash == []
      then err password_hash_required
      else ok
          (if ltb_ℤ user.token_version (pos 1) then record user { token_version = pos 1 } else user)
]

-- The loop over the users.
unfoldable pub load_users : List User → Store → Checked StoreError Store
load_users [] s = ok s
load_users (user ∷ users) s = elim (load_user user) [
  | err e ↦ err e
  | ok loaded ↦ load_users users (put_user loaded s)
]

-- The loop over the streams.
unfoldable pub load_streams : List Config → Store → Checked StoreError Store
load_streams [] s = ok s
load_streams (config ∷ configs) s = elim (normalize_config config) [
  | err e ↦ err (invalid_config e)
  | ok cfg ↦
      let rest = load_streams configs (record s {
        streams = insert cfg.id cfg s.streams;
        states = insert cfg.id stopped_state s.states;
      }) in
      if has (bytes cfg.profile_name) s.profiles then rest else err profile_not_found
]

unfoldable pub load : Option PersistedState → Store → Checked StoreError Store
load none s = ok s
load (some state) s = do
  with_profiles ← load_profiles state.profiles s
  with_users ← load_users state.users with_profiles
  load_streams state.streams
      (ensure_default_profiles (record with_users { auth_secret = state.secret }))

-- The store with a secret, and whether it is new.
unfoldable pub ensure_secret : Option Bytes → Store → Checked StoreError (Store × Bool)
ensure_secret secret s =
    if s.auth_secret == []
    then elim secret [
      | none ↦ err no_secret
      | some value ↦ ok (record s { auth_secret = value }, true)
    ]
    else ok (s, false)

-- The store with the first user, and whether something is new.
unfoldable pub ensure_admin :
    Crypto → Option Bytes → Time → Store × Bool → Checked StoreError (Store × Bool)
ensure_admin crypto salt now (s, changed) =
    if has (bytes "admin") s.users
    then ok (s, changed)
    else elim (new_user crypto salt (bytes "admin") (bytes "123456") true now) [
      | err e ↦ err (invalid_user e)
      | ok user ↦ ok (put_user user s, true)
    ]

-- ensureAuth; `secret` and `salt` are what the random source gives.
unfoldable pub ensure_auth :
    Crypto → Option Bytes → Option Bytes → Time → Bool → Store → Checked StoreError Store
ensure_auth crypto secret salt now saved s = do
  with_secret ← ensure_secret secret s
  (with_admin, changed) ← ensure_admin crypto salt now with_secret
  refuse_if (changed && not saved) not_saved
  ok with_admin

unfoldable pub new_store :
    Crypto
    → Option PersistedState
    → Option Bytes
    → Option Bytes
    → Time
    → Bool
    → Checked StoreError Store
new_store crypto file secret salt now saved = do
  loaded ← load file empty_store
  ensure_auth crypto secret salt now saved (ensure_default_profiles loaded)
