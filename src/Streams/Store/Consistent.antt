-- ===== src/Streams/Store/Consistent.antt =====
-- What holds of the store's maps between the operations, and the operations on streams and profiles.
pub mod OfStreams
pub mod OfUsers
pub mod OfLoading
pub mod OfOpening
use neo_transcoder.Base.{
  ℕ, ◌≡◌, refl, sym, ap, ◌∙◌, inl, inr, String, Bool, true, false, not, ◌&&◌, ◌||◌, Option, none,
  some, List, [], ◌∷◌, Bytes, bytes, arith, Eq, ◌==◌, bytes_eq, bytes_beq, bytes_beq_iff, string_eq,
  eq_iff, if◌then◌else◌, Table, lookup, insert, delete, any_value, lookup-insert, lookup-delete,
  found-insert, found-delete, any_value-lookup, Checked, ok, err, Bool-cases, Option-cases,
  Checked-cases,
}
use mathlib.Core.Path.{subst}
use neo_transcoder.Auth.{User}
use neo_transcoder.Ffmpeg.Models.{Profile, h264_very_fast_4m, h264_ultrafast_template_4m}
use neo_transcoder.Streams.Models.{Config, State}
use neo_transcoder.Streams.Config.{normalize_config}
use neo_transcoder.Streams.Store.{
  Store, has, stopped_state, put_stream, upsert, put_profile, normalize_profile, upsert_profile,
  is_default_profile, delete_profile, delete_stream, update_state, ensure_default_profiles,
}

module _ {K V : Type 0} ⦃e : Eq K⦄ where
  pub has-insert : (k j : K) (v : V) (t : Table K V) → has j (insert k v t) ≡ (k == j || has j t)
  has-insert k j v t = elim (Bool-cases (k == j)) [
    | inl same ↦ ground (arith, lookup-insert k j v t, same)
    | inr other ↦ ground (arith, lookup-insert k j v t, other)
  ]

  pub has-delete : (k j : K) (t : Table K V) → has j (delete k t) ≡ (not (k == j) && has j t)
  has-delete k j t = elim (Bool-cases (k == j)) [
    | inl same ↦ ground (arith, lookup-delete k j t, same)
    | inr other ↦ ground (arith, lookup-delete k j t, other)
  ]

-- The streams and profiles: each stands under its own name, a stream's profile exists, and a stream has a
-- state.
pub record IsLinked (streams : Table String Config) (states : Table String State)
    (profiles : Table Bytes Profile) : Type 0 where
  pub stream_ids : (id : String) (cfg : Config) → lookup id streams ≡ some cfg → cfg.id ≡ id
  pub stream_profiles :
      (id : String) (cfg : Config)
      → lookup id streams ≡ some cfg
      → has (bytes cfg.profile_name) profiles ≡ true
  pub stream_states : (id : String) → has id streams ≡ true → has id states ≡ true
  pub profile_names : (name : Bytes) (p : Profile) → lookup name profiles ≡ some p → p.name ≡ name

abbrev pub HasDefaults : Table Bytes Profile → Type 0
HasDefaults profiles =
    (has (bytes "h264_veryfast_4m") profiles ≡ true)
    × (has (bytes "h264_ultrafast_template_4m") profiles ≡ true)

pub IsLinked-empty : IsLinked [] [] []
unfolding lookup
IsLinked-empty = record {
  stream_ids = λ id cfg found. absurd (ground arith);
  stream_profiles = λ id cfg found. absurd (ground arith);
  stream_states = λ id found. absurd (ground arith);
  profile_names = λ name p found. absurd (ground arith);
}

module _ (streams : Table String Config) (states : Table String State)
    (profiles : Table Bytes Profile) (h : IsLinked streams states profiles) where
  pub insert_profile-IsLinked : (p : Profile) → IsLinked streams states (insert p.name p profiles)
  insert_profile-IsLinked p = record {
    stream_ids = h.stream_ids;
    stream_profiles = λ id cfg found. ground (
      arith,
      has-insert p.name (bytes cfg.profile_name) p profiles,
      h.stream_profiles id cfg found,
    );
    stream_states = h.stream_states;
    profile_names = λ name q found. elim (found-insert p.name name p q profiles found) [
      | inl (n, e) ↦ ap (λ r. r.name) (sym e) ∙ n
      | inr (old, _) ↦ h.profile_names name q old
    ];
  }

  -- A new state for a stream, or the one that it has.
  pub insert_stream-IsLinked :
      (cfg : Config) (states' : Table String State)
      → has (bytes cfg.profile_name) profiles ≡ true
      → has cfg.id states' ≡ true
      → ((id : String) → has id states ≡ true → has id states' ≡ true)
      → IsLinked (insert cfg.id cfg streams) states' profiles
  insert_stream-IsLinked cfg states' known stated kept = record {
    stream_ids = λ id c found. elim (found-insert cfg.id id cfg c streams found) [
      | inl (n, e) ↦ ap (λ r. r.id) (sym e) ∙ n
      | inr (old, _) ↦ h.stream_ids id c old
    ];
    stream_profiles = λ id c found. elim (found-insert cfg.id id cfg c streams found) [
      | inl (n, e) ↦ subst (λ r. has (bytes r.profile_name) profiles ≡ true) e known
      | inr (old, _) ↦ h.stream_profiles id c old
    ];
    stream_states = λ id found. elim (Bool-cases (cfg.id == id)) [
      | inl same ↦ subst (λ i. has i states' ≡ true) ((eq_iff cfg.id id).0 same) stated
      | inr other ↦
          kept id (h.stream_states id (ground (arith, has-insert cfg.id id cfg streams, other)))
    ];
    profile_names = h.profile_names;
  }

  pub delete_profile-IsLinked :
      (name : Bytes)
      → any_value (λ cfg. bytes cfg.profile_name == name) streams ≡ false
      → IsLinked streams states (delete name profiles)
  delete_profile-IsLinked name unused = record {
    stream_ids = h.stream_ids;
    stream_profiles = λ id cfg found. ground (
      arith,
      has-delete name (bytes cfg.profile_name) profiles,
      h.stream_profiles id cfg found,
      any_value-lookup (λ c. bytes c.profile_name == name) streams id cfg unused found,
      bytes_beq_iff name (bytes cfg.profile_name),
      bytes_beq_iff (bytes cfg.profile_name) name,
    );
    stream_states = h.stream_states;
    profile_names =
        λ n p found. let (old, _) = found-delete name n p profiles found in h.profile_names n p old;
  }

  pub delete_stream-IsLinked :
      (id : String) → IsLinked (delete id streams) (delete id states) profiles
  delete_stream-IsLinked id = record {
    stream_ids =
        λ i c found. let (old, _) = found-delete id i c streams found in h.stream_ids i c old;
    stream_profiles =
        λ i c found. let (old, _) = found-delete id i c streams found in h.stream_profiles i c old;
    stream_states = λ i found.
        ground (arith, has-delete id i streams, has-delete id i states, h.stream_states i);
    profile_names = h.profile_names;
  }

pub record IsConsistent (s : Store) : Type 0 where
  pub linked : IsLinked s.streams s.states s.profiles
  pub defaults : HasDefaults s.profiles
  pub admin : has (bytes "admin") s.users ≡ true
  pub user_names : (name : Bytes) (u : User) → lookup name s.users ≡ some u → u.username ≡ name
