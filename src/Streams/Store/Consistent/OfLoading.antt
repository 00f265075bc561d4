-- ===== src/Streams/Store/Consistent/OfLoading.antt =====
-- The loops of `load` keep what holds while the state file is read.
use neo_transcoder.Base.{
  ◌≡◌, refl, sym, ap, ◌∙◌, inl, inr, true, ◌||◌, Option, none, some, List, [], ◌∷◌, Bytes, bytes,
  arith, ◌==◌, bytes_eq, bytes_beq_iff, string_eq, eq_iff, lookup, insert, ok, Bool-cases,
  Checked-cases, found-insert,
}
use mathlib.Core.Path.{subst}
use neo_transcoder.Auth.{User}
use neo_transcoder.Ffmpeg.Models.{Profile, h264_very_fast_4m, h264_ultrafast_template_4m}
use neo_transcoder.Streams.Models.{Config}
use neo_transcoder.Streams.Config.{normalize_config}
use neo_transcoder.Streams.Store.{
  Store, has, stopped_state, put_profile, normalize_profile, ensure_profile,
  ensure_default_profiles,
}
use neo_transcoder.Streams.Store.Users.{put_user}
use neo_transcoder.Streams.Store.Loading.{
  PersistedState, empty_store, load_profiles, load_user, load_users, load_streams, load,
}
use neo_transcoder.Streams.Store.Consistent.{
  IsLinked, HasDefaults, IsLinked-empty, has-insert, insert_profile-IsLinked,
  insert_stream-IsLinked,
}

-- What holds while the file is read.
pub record IsLoading (s : Store) : Type 0 where
  pub linked : IsLinked s.streams s.states s.profiles
  pub user_names : (name : Bytes) (u : User) → lookup name s.users ≡ some u → u.username ≡ name

put_profile-IsLoading : (p : Profile) (s : Store) → IsLoading s → IsLoading (put_profile p s)
put_profile-IsLoading p s h = record {
  linked = insert_profile-IsLinked s.streams s.states s.profiles h.linked p;
  user_names = h.user_names;
}

pub put_user-IsLoading : (user : User) (s : Store) → IsLoading s → IsLoading (put_user user s)
put_user-IsLoading user s h = record {
  linked = h.linked;
  user_names = λ n u found. elim (found-insert user.username n user u s.users found) [
    | inl (e, f) ↦ ap (λ r. r.username) (sym f) ∙ e
    | inr (old, _) ↦ h.user_names n u old
  ];
}

load_profiles-IsLoading :
    (profiles : List Profile) (s t : Store)
    → load_profiles profiles s ≡ ok t
    → IsLoading s
    → IsLoading t
unfolding load_profiles
load_profiles-IsLoading [] s t e h = subst (λ x. IsLoading x) (ground arith) h
load_profiles-IsLoading (profile ∷ profiles) s t e h =
    elim (Checked-cases (normalize_profile profile)) [
      | inl (r, refused) ↦ absurd (ground (arith, refused))
      | inr (p, normal) ↦
          load_profiles-IsLoading profiles (put_profile p s) t (ground (arith, normal))
            (put_profile-IsLoading p s h)
    ]

load_users-IsLoading :
    (users : List User) (s t : Store) → load_users users s ≡ ok t → IsLoading s → IsLoading t
unfolding load_users
load_users-IsLoading [] s t e h = subst (λ x. IsLoading x) (ground arith) h
load_users-IsLoading (user ∷ users) s t e h = elim (Checked-cases (load_user user)) [
  | inl (r, refused) ↦ absurd (ground (arith, refused))
  | inr (loaded, valid) ↦
      load_users-IsLoading users (put_user loaded s) t (ground (arith, valid))
        (put_user-IsLoading loaded s h)
]

load_streams-IsLoading :
    (configs : List Config) (s t : Store)
    → load_streams configs s ≡ ok t
    → IsLoading s
    → IsLoading t
unfolding load_streams
load_streams-IsLoading [] s t e h = subst (λ x. IsLoading x) (ground arith) h
load_streams-IsLoading (config ∷ configs) s t e h = elim (Checked-cases (normalize_config config)) [
  | inl (r, refused) ↦ absurd (ground (arith, refused))
  | inr (cfg, normal) ↦ elim (Bool-cases (has (bytes cfg.profile_name) s.profiles)) [
    | inr unknown ↦ absurd (ground (arith, normal, unknown))
    | inl known ↦
        let s' = record s {
          streams = insert cfg.id cfg s.streams;
          states = insert cfg.id stopped_state s.states;
        } in
        load_streams-IsLoading configs s' t (ground (arith, normal, known)) (record {
          linked =
              insert_stream-IsLinked s.streams s.states s.profiles h.linked cfg _ known
                (ground
                  (arith, has-insert cfg.id cfg.id stopped_state s.states, eq_iff cfg.id cfg.id))
                (λ id stated. ground (arith, stated, has-insert cfg.id id stopped_state s.states));
          user_names = h.user_names;
        })
  ]
]

ensure_profile-IsLoading : (p : Profile) (s : Store) → IsLoading s → IsLoading (ensure_profile p s)
unfolding ensure_profile
ensure_profile-IsLoading p s h = elim (Bool-cases (has p.name s.profiles)) [
  | inl there ↦ rw there h
  | inr missing ↦ rw missing (put_profile-IsLoading p s h)
]

has-ensure_profile :
    (p : Profile) (name : Bytes) (s : Store)
    → has name (ensure_profile p s).profiles ≡ (p.name == name || has name s.profiles)
unfolding ensure_profile
has-ensure_profile p name s = elim (Bool-cases (has p.name s.profiles)) [
  | inl there ↦ elim (Bool-cases (p.name == name)) [
    | inl same ↦
        let e : p.name ≡ name = (bytes_beq_iff p.name name).0 same in
        rw (there, same) (subst (λ n. has n s.profiles ≡ true) e there)
    | inr other ↦ rw (there, other) refl
  ]
  | inr missing ↦ rw missing (has-insert p.name name p s.profiles)
]

pub ensure_default_profiles-IsLoading :
    (s : Store) → IsLoading s → IsLoading (ensure_default_profiles s)
unfolding ensure_default_profiles
ensure_default_profiles-IsLoading s h =
    ensure_profile-IsLoading h264_ultrafast_template_4m _
      (ensure_profile-IsLoading h264_very_fast_4m s h)

pub ensure_default_profiles-HasDefaults :
    (s : Store) → HasDefaults (ensure_default_profiles s).profiles
unfolding ensure_default_profiles
ensure_default_profiles-HasDefaults s =
    let with_first = ensure_profile h264_very_fast_4m s in
    (
      ground (
        arith,
        has-ensure_profile h264_ultrafast_template_4m (bytes "h264_veryfast_4m") with_first,
        has-ensure_profile h264_very_fast_4m (bytes "h264_veryfast_4m") s,
        bytes_beq_iff (bytes "h264_veryfast_4m") (bytes "h264_veryfast_4m"),
      ),
      ground (
        arith,
        has-ensure_profile h264_ultrafast_template_4m (bytes "h264_ultrafast_template_4m")
            with_first,
        bytes_beq_iff (bytes "h264_ultrafast_template_4m") (bytes "h264_ultrafast_template_4m"),
      ),
    )

empty-IsLoading : IsLoading empty_store
unfolding lookup
empty-IsLoading = record {
  linked = IsLinked-empty;
  user_names = λ name u found. absurd (ground arith);
}

pub load-IsLoading :
    (file : Option PersistedState) (t : Store) → load file empty_store ≡ ok t → IsLoading t
unfolding load
load-IsLoading none t e =
    let it : empty_store ≡ t = ground arith in subst (λ x. IsLoading x) it empty-IsLoading
load-IsLoading (some state) t e = elim (Checked-cases (load_profiles state.profiles empty_store)) [
  | inl (r, refused) ↦ absurd (ground (arith, refused))
  | inr (s1, p) ↦ elim (Checked-cases (load_users state.users s1)) [
    | inl (r, refused) ↦ absurd (ground (arith, p, refused))
    | inr (s2, u) ↦
        let h2 =
          load_users-IsLoading state.users s1 s2 u
            (load_profiles-IsLoading state.profiles empty_store s1 p empty-IsLoading) in
        let s3 = record s2 { auth_secret = state.secret } in
        let h3 : IsLoading s3 = record { linked = h2.linked; user_names = h2.user_names } in
        load_streams-IsLoading state.streams (ensure_default_profiles s3) t (ground (arith, p, u))
          (ensure_default_profiles-IsLoading s3 h3)
  ]
]
