-- ===== src/Streams/Store/Users.antt =====
-- The users of internal/streams/store.go.
use neo_transcoder.Base.{
  zero, suc, ◌+◌, ℤ, pos, negsuc, wrap_i64, Bool, true, false, not, ◌&&◌, Option, none, some, Bytes,
  bytes, ◌==◌, bytes_eq, nat_eq, if◌then◌else◌, lookup, insert, delete, Checked, ok, err,
}
use neo_transcoder.Auth.{
  User, PublicUser, public, Claims, Crypto, Time, new_user, hash_password, verify_password,
  validate_password,
}
use neo_transcoder.Streams.Store.{
  Store, StoreError, invalid_user, user_exists, default_admin, user_not_found, wrong_password, has,
  when_saved,
}

abbrev pub put_user : User → Store → Store
put_user user s = record s { users = insert user.username user s.users }

-- Authenticate
unfoldable pub authenticate : Crypto → Bytes → Bytes → Store → Option User
authenticate crypto username password s = elim (lookup username s.users) [
  | none ↦ none
  | some user ↦ if verify_password crypto user.password_hash password then some user else none
]

-- `==` on two ints
unfoldable pub is_same_version : ℤ → ℤ → Bool
is_same_version (pos m) (pos n) = m == n
is_same_version (pos m) (negsuc n) = false
is_same_version (negsuc m) (pos n) = false
is_same_version (negsuc m) (negsuc n) = m == n

-- VerifyTokenClaims
unfoldable pub verify_token_claims : Claims → Store → Option User
verify_token_claims claims s = elim (lookup claims.subject s.users) [
  | none ↦ none
  | some user ↦ if is_same_version user.token_version claims.token_version then some user else none
]

-- CreateUser; `salt` is what the random source gives.
unfoldable pub create_user :
    Crypto
    → Option Bytes
    → Bytes
    → Bytes
    → Time
    → Bool
    → Store
    → Store × Checked StoreError PublicUser
create_user crypto salt username password now saved s =
    elim (new_user crypto salt username password false now) [
      | err e ↦ (s, err (invalid_user e))
      | ok user ↦
          if has user.username s.users
          then (s, err user_exists)
          else (put_user user s, when_saved saved (public user))
    ]

unfoldable pub delete_user : Bytes → Bool → Store → Store × Checked StoreError Bool
delete_user username saved s =
    if not (has username s.users)
    then (s, ok false)
    else if username == bytes "admin"
    then (s, err default_admin)
    else (record s { users = delete username s.users }, when_saved saved true)

-- `user.TokenVersion++`
unfoldable pub next_token_version : ℤ → ℤ
next_token_version (pos n) = wrap_i64 (n + 1)
next_token_version (negsuc zero) = pos 0
next_token_version (negsuc (suc n)) = negsuc n

-- The user with a new password.
abbrev pub with_password : Bytes → Time → User → User
with_password hash now user = record user {
  password_hash = hash;
  must_change_password = false;
  token_version = next_token_version user.token_version;
  updated_at = now;
}

unfoldable pub change_known :
    Crypto
    → Option Bytes
    → Bytes
    → Bytes
    → Time
    → Bool
    → User
    → Store
    → Store × Checked StoreError PublicUser
change_known crypto salt username password now saved user s =
    elim (hash_password crypto salt password) [
      | err e ↦ (s, err (invalid_user e))
      | ok hash ↦ (
        record s { users = insert username (with_password hash now user) s.users },
        when_saved saved (public (with_password hash now user)),
      )
    ]

-- ChangePassword
unfoldable pub change_password :
    Crypto
    → Option Bytes
    → Bytes
    → Bytes
    → Bytes
    → Bool
    → Time
    → Bool
    → Store
    → Store × Checked StoreError PublicUser
unfolding change_known
change_password crypto salt username current password require_current now saved s =
    elim (validate_password password) [
      | err e ↦ (s, err (invalid_user e))
      | ok _ ↦ elim (lookup username s.users) [
        | none ↦ (s, err user_not_found)
        | some user ↦
            if require_current && not (verify_password crypto user.password_hash current)
            then (s, err wrong_password)
            else change_known crypto salt username password now saved user s
      ]
    ]
