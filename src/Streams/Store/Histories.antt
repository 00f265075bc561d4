-- ===== src/Streams/Store/Histories.antt =====
-- The store from its opening on: whatever the state file holds, and whatever is done to the store, in
-- any order, and whether or not its saves succeed.
use neo_transcoder.Base.{◌≡◌, String, Bool, Option, Bytes, bytes_eq, string_eq, ok}
use neo_transcoder.Auth.{Crypto, Time}
use neo_transcoder.Ffmpeg.Models.{Profile}
use neo_transcoder.Streams.Models.{Config, State, LogEntry}
use neo_transcoder.Streams.Store.{
  Store, upsert, upsert_profile, delete_profile, delete_stream, update_state, append_log_code,
  clear_stream_logs,
}
use neo_transcoder.Streams.Store.Users.{create_user, delete_user, change_password}
use neo_transcoder.Streams.Store.Loading.{PersistedState, new_store}
use neo_transcoder.Streams.Store.Consistent.{IsConsistent}
use neo_transcoder.Streams.Store.Consistent.OfOpening.{new_store-IsConsistent}
use neo_transcoder.Streams.Store.Consistent.OfStreams.{
  upsert-IsConsistent, upsert_profile-IsConsistent, delete_profile-IsConsistent,
  delete_stream-IsConsistent, update_state-IsConsistent,
}
use neo_transcoder.Streams.Store.Consistent.OfUsers.{
  create_user-IsConsistent, delete_user-IsConsistent, change_password-IsConsistent,
}

module _ (crypto : Crypto) where
  -- What changes a store.
  pub data Step (s : Store) : Store → Type 0 where
    stream_saved : (given : Config) (saved : Bool) → Step s (upsert given saved s).0
    stream_deleted : (id : String) (saved : Bool) → Step s (delete_stream id saved s).0
    profile_saved : (given : Profile) (saved : Bool) → Step s (upsert_profile given saved s).0
    profile_deleted : (name : Bytes) (saved : Bool) → Step s (delete_profile name saved s).0
    user_created :
        (salt : Option Bytes) (username password : Bytes) (now : Time) (saved : Bool)
        → Step s (create_user crypto salt username password now saved s).0
    user_deleted : (username : Bytes) (saved : Bool) → Step s (delete_user username saved s).0
    password_changed :
        (salt : Option Bytes) (username current password : Bytes) (require_current : Bool)
        (now : Time) (saved : Bool)
        → Step s
            (change_password crypto salt username current password require_current now saved s).0
    state_updated : (id : String) (update : State → State) → Step s (update_state id update s)
    log_appended : (entry : LogEntry) → Step s (append_log_code entry s)
    logs_cleared : (id : String) → Step s (clear_stream_logs id s)

  -- The stores that come about.
  pub data Reached : Store → Type 0 where
    opened :
        (file : Option PersistedState) (secret salt : Option Bytes) (now : Time) (saved : Bool)
        {s : Store}
        → new_store crypto file secret salt now saved ≡ ok s
        → Reached s
    followed_by : {s t : Store} → Reached s → Step s t → Reached t

  Step-IsConsistent : {s t : Store} → Step s t → IsConsistent s → IsConsistent t
  unfolding append_log_code clear_stream_logs
  Step-IsConsistent {s} (stream_saved given saved) h = upsert-IsConsistent given saved s h
  Step-IsConsistent {s} (stream_deleted id saved) h = delete_stream-IsConsistent id saved s h
  Step-IsConsistent {s} (profile_saved given saved) h = upsert_profile-IsConsistent given saved s h
  Step-IsConsistent {s} (profile_deleted name saved) h = delete_profile-IsConsistent name saved s h
  Step-IsConsistent {s} (user_created salt username password now saved) h =
      create_user-IsConsistent crypto salt username password now saved s h
  Step-IsConsistent {s} (user_deleted username saved) h =
      delete_user-IsConsistent username saved s h
  Step-IsConsistent {s} (password_changed salt username current password require_current now saved)
        h =
      change_password-IsConsistent crypto salt username current password require_current now saved s
        h
  Step-IsConsistent {s} (state_updated id update) h = update_state-IsConsistent id update s h
  Step-IsConsistent (log_appended entry) h = record {
    linked = h.linked;
    defaults = h.defaults;
    admin = h.admin;
    user_names = h.user_names;
  }
  Step-IsConsistent (logs_cleared id) h = record {
    linked = h.linked;
    defaults = h.defaults;
    admin = h.admin;
    user_names = h.user_names;
  }

  -- Whatever the state file holds, once the store is opened, and after everything that is done to it, in
  -- any order and whether or not it is saved: each stream has its profile and its state and stands under
  -- its own ID, each profile and each user stands under its own name, and the built-in profiles and the
  -- user admin are there.
  pub Reached-IsConsistent : {s : Store} → Reached s → IsConsistent s
  Reached-IsConsistent (opened file secret salt now saved e) =
      new_store-IsConsistent crypto file secret salt now saved _ e
  Reached-IsConsistent (followed_by before step) =
      Step-IsConsistent step (Reached-IsConsistent before)
