-- ===== src/Streams/Store/Consistent/OfStreams.antt =====
-- The operations on streams and profiles keep the store consistent.
use neo_transcoder.Base.{
  ◌≡◌, inl, inr, String, Bool, true, false, Bytes, bytes, arith, ◌==◌, bytes_eq, string_eq, eq_iff,
  Table, insert, delete, any_value, Bool-cases, Checked-cases,
}
use neo_transcoder.Ffmpeg.Models.{Profile}
use neo_transcoder.Streams.Models.{Config, State}
use neo_transcoder.Streams.Config.{normalize_config}
use neo_transcoder.Streams.Store.{
  Store, has, stopped_state, state_of, put_stream, upsert, put_profile, normalize_profile,
  upsert_profile, is_default_profile, delete_profile, delete_stream, update_state,
}
use neo_transcoder.Streams.Store.Consistent.{
  HasDefaults, IsConsistent, has-insert, has-delete, insert_profile-IsLinked,
  insert_stream-IsLinked, delete_profile-IsLinked, delete_stream-IsLinked,
}

insert-HasDefaults :
    (p : Profile) (profiles : Table Bytes Profile)
    → HasDefaults profiles
    → HasDefaults (insert p.name p profiles)
insert-HasDefaults p profiles (a, b) = (
  ground (arith, has-insert p.name (bytes "h264_veryfast_4m") p profiles),
  ground (arith, has-insert p.name (bytes "h264_ultrafast_template_4m") p profiles),
)

delete-HasDefaults :
    (name : Bytes) (profiles : Table Bytes Profile)
    → is_default_profile name ≡ false
    → HasDefaults profiles
    → HasDefaults (delete name profiles)
unfolding is_default_profile
delete-HasDefaults name profiles other (a, b) = (
  ground (arith, has-delete name (bytes "h264_veryfast_4m") profiles),
  ground (arith, has-delete name (bytes "h264_ultrafast_template_4m") profiles),
)

put_profile-IsConsistent :
    (p : Profile) (s : Store) → IsConsistent s → IsConsistent (put_profile p s)
put_profile-IsConsistent p s h = record {
  linked = insert_profile-IsLinked s.streams s.states s.profiles h.linked p;
  defaults = insert-HasDefaults p s.profiles h.defaults;
  admin = h.admin;
  user_names = h.user_names;
}

put_stream-IsConsistent :
    (cfg : Config) (s : Store)
    → has (bytes cfg.profile_name) s.profiles ≡ true
    → IsConsistent s
    → IsConsistent (put_stream cfg s)
unfolding put_stream
put_stream-IsConsistent cfg s known h = record {
  linked =
      insert_stream-IsLinked s.streams s.states s.profiles h.linked cfg _ known
        (ground (arith, has-insert cfg.id cfg.id stopped_state s.states, eq_iff cfg.id cfg.id))
        (λ id stated. ground (arith, stated, has-insert cfg.id id stopped_state s.states));
  defaults = h.defaults;
  admin = h.admin;
  user_names = h.user_names;
}

pub upsert-IsConsistent :
    (given : Config) (saved : Bool) (s : Store)
    → IsConsistent s
    → IsConsistent (upsert given saved s).0
unfolding upsert
upsert-IsConsistent given saved s h = elim (Checked-cases (normalize_config given)) [
  | inl (e, refused) ↦ rw (refused, upsert) h
  | inr (cfg, normal) ↦ elim (Bool-cases (has (bytes cfg.profile_name) s.profiles)) [
    | inl known ↦ rw (normal, upsert, known) (put_stream-IsConsistent cfg s known h)
    | inr unknown ↦ rw (normal, upsert, unknown) h
  ]
]

pub upsert_profile-IsConsistent :
    (given : Profile) (saved : Bool) (s : Store)
    → IsConsistent s
    → IsConsistent (upsert_profile given saved s).0
unfolding upsert_profile
upsert_profile-IsConsistent given saved s h = elim (Checked-cases (normalize_profile given)) [
  | inl (e, refused) ↦ rw (refused, upsert_profile) h
  | inr (p, normal) ↦ rw (normal, upsert_profile) (put_profile-IsConsistent p s h)
]

pub delete_profile-IsConsistent :
    (name : Bytes) (saved : Bool) (s : Store)
    → IsConsistent s
    → IsConsistent (delete_profile name saved s).0
unfolding delete_profile
delete_profile-IsConsistent name saved s h = elim (Bool-cases (is_default_profile name)) [
  | inl default ↦ rw default h
  | inr other ↦ elim (Bool-cases (has name s.profiles)) [
    | inr missing ↦ rw (other, missing) h
    | inl found ↦ elim (Bool-cases (any_value (λ cfg. bytes cfg.profile_name == name) s.streams)) [
      | inl used ↦ rw (other, found, used) h
      | inr unused ↦
          rw (other, found, unused)
            (record {
              linked = delete_profile-IsLinked s.streams s.states s.profiles h.linked name unused;
              defaults = delete-HasDefaults name s.profiles other h.defaults;
              admin = h.admin;
              user_names = h.user_names;
            })
    ]
  ]
]

pub delete_stream-IsConsistent :
    (id : String) (saved : Bool) (s : Store)
    → IsConsistent s
    → IsConsistent (delete_stream id saved s).0
unfolding delete_stream
delete_stream-IsConsistent id saved s h = elim (Bool-cases (has id s.streams)) [
  | inr missing ↦ rw missing h
  | inl found ↦ rw found (record {
    linked = delete_stream-IsLinked s.streams s.states s.profiles h.linked id;
    defaults = h.defaults;
    admin = h.admin;
    user_names = h.user_names;
  })
]

-- A new state for any stream, known or not.
pub update_state-IsConsistent :
    (id : String) (update : State → State) (s : Store)
    → IsConsistent s
    → IsConsistent (update_state id update s)
unfolding update_state
update_state-IsConsistent id update s h = record {
  linked = record {
    stream_ids = h.linked.stream_ids;
    stream_profiles = h.linked.stream_profiles;
    stream_states = λ i found.
        ground (
          arith,
          has-insert id i (update (state_of id s)) s.states,
          h.linked.stream_states i found,
        );
    profile_names = h.linked.profile_names;
  };
  defaults = h.defaults;
  admin = h.admin;
  user_names = h.user_names;
}
