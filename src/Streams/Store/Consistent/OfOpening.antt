-- ===== src/Streams/Store/Consistent/OfOpening.antt =====
-- A store that `NewStore` opens is consistent, whatever the state file holds.
use neo_transcoder.Base.{
  ◌≡◌, inl, inr, Bool, true, Option, [], Bytes, bytes, arith, ◌==◌, bytes_eq, bytes_beq_iff,
  string_eq, ok, Bool-cases, Option-cases, Checked-cases,
}
use mathlib.Core.Path.{subst}
use neo_transcoder.Auth.{
  User, Crypto, Time, new_user, validate_username, validate_password, hash_password,
}
use neo_transcoder.Streams.Store.{Store, has, ensure_default_profiles}
use neo_transcoder.Streams.Store.Users.{put_user}
use neo_transcoder.Streams.Store.Loading.{
  PersistedState, empty_store, load, ensure_secret, ensure_admin, ensure_auth, new_store,
}
use neo_transcoder.Streams.Store.Consistent.{HasDefaults, IsConsistent, has-insert}
use neo_transcoder.Streams.Store.Consistent.OfLoading.{
  IsLoading, put_user-IsLoading, ensure_default_profiles-IsLoading,
  ensure_default_profiles-HasDefaults, load-IsLoading,
}

new_user-username :
    (crypto : Crypto) (salt : Option Bytes) (username password : Bytes) (must_change : Bool)
    (now : Time) (user : User)
    → new_user crypto salt username password must_change now ≡ ok user
    → user.username ≡ username
unfolding new_user
new_user-username crypto salt username password must_change now user h =
    elim (Checked-cases (validate_username username)) [
      | inl (e, refused) ↦ absurd (ground (arith, refused))
      | inr (_, v) ↦ elim (Checked-cases (validate_password password)) [
        | inl (e, refused) ↦ absurd (ground (arith, v, refused))
        | inr (_, w) ↦ elim (Checked-cases (hash_password crypto salt password)) [
          | inl (e, refused) ↦ absurd (ground (arith, v, w, refused))
          | inr (hash, made) ↦ ground (arith, v, w, made)
        ]
      ]
    ]

with_secret :
    (secret : Option Bytes) (s t : Store) (changed : Bool)
    → ensure_secret secret s ≡ ok (t, changed)
    → IsLoading s
    → HasDefaults s.profiles
    → IsLoading t × HasDefaults t.profiles
unfolding ensure_secret
with_secret secret s t changed e h d = elim (Bool-cases (s.auth_secret == [])) [
  | inr there ↦
      let it : s ≡ t = ground (arith, there) in
      subst (λ x. IsLoading x × HasDefaults x.profiles) it (h, d)
  | inl missing ↦ elim (Option-cases secret) [
    | inl failed ↦ absurd (ground (arith, missing, failed))
    | inr (value, given) ↦
        let it : record s { auth_secret = value } ≡ t = ground (arith, missing, given) in
        subst (λ x. IsLoading x × HasDefaults x.profiles) it
          (record { linked = h.linked; user_names = h.user_names }, d)
  ]
]

with_admin :
    (crypto : Crypto) (salt : Option Bytes) (now : Time) (s t : Store) (changed changed' : Bool)
    → ensure_admin crypto salt now (s, changed) ≡ ok (t, changed')
    → IsLoading s
    → HasDefaults s.profiles
    → IsConsistent t
unfolding ensure_admin
with_admin crypto salt now s t changed changed' e h d =
    elim (Bool-cases (has (bytes "admin") s.users)) [
      | inl there ↦
          let it : s ≡ t = ground (arith, there) in
          subst (λ x. IsConsistent x) it
            (record { linked = h.linked; defaults = d; admin = there; user_names = h.user_names })
      | inr missing ↦
          elim (Checked-cases (new_user crypto salt (bytes "admin") (bytes "123456") true now)) [
            | inl (r, refused) ↦ absurd (ground (arith, missing, refused))
            | inr (user, made) ↦
                let it : put_user user s ≡ t = ground (arith, missing, made) in
                let h' = put_user-IsLoading user s h in
                subst (λ x. IsConsistent x) it
                  (record {
                    linked = h'.linked;
                    defaults = d;
                    admin = ground (
                      arith,
                      has-insert user.username (bytes "admin") user s.users,
                      new_user-username crypto salt (bytes "admin") (bytes "123456") true now user
                          made,
                      bytes_beq_iff user.username (bytes "admin"),
                    );
                    user_names = h'.user_names;
                  })
          ]
    ]

-- Where `NewStore` opens a store, the store is consistent, whatever the state file holds.
pub new_store-IsConsistent :
    (crypto : Crypto) (file : Option PersistedState) (secret salt : Option Bytes) (now : Time)
    (saved : Bool) (s : Store)
    → new_store crypto file secret salt now saved ≡ ok s
    → IsConsistent s
unfolding new_store ensure_auth
new_store-IsConsistent crypto file secret salt now saved s e =
    elim (Checked-cases (load file empty_store)) [
      | inl (r, refused) ↦ absurd (ground (arith, refused))
      | inr (loaded, l) ↦
          let s0 = ensure_default_profiles loaded in
          let h0 = ensure_default_profiles-IsLoading loaded (load-IsLoading file loaded l) in
          let d0 = ensure_default_profiles-HasDefaults loaded in
          elim (Checked-cases (ensure_secret secret s0)) [
            | inl (r, refused) ↦ absurd (ground (arith, l, refused))
            | inr ((s1, changed), k) ↦
                elim (Checked-cases (ensure_admin crypto salt now (s1, changed))) [
                  | inl (r, refused) ↦ absurd (ground (arith, l, k, refused))
                  | inr ((s2, changed'), a) ↦
                      let (h1, d1) = with_secret secret s0 s1 changed k h0 d0 in
                      let it : s2 ≡ s = ground (arith, l, k, a) in
                      subst (λ x. IsConsistent x) it
                        (with_admin crypto salt now s1 s2 changed changed' a h1 d1)
                ]
          ]
    ]
