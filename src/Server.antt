-- ===== src/Server.antt =====
-- internal/server/server.go: the requests that are let through, and the handlers of logins, tokens and
-- users. A request's body is what readJSON makes of it; an error's text is left out of the answer.
pub mod Access
pub mod Sessions
pub mod Revocation
pub mod Streams
use neo_transcoder.Base.{
  ℕ, ◌+◌, ◌*◌, Bool, true, false, not, ◌&&◌, ◌||◌, Option, none, some, List, [], ◌∷◌, ◌++◌, Bytes,
  bytes, ◌==◌, bytes_eq, if◌then◌else◌, Checked, ok, err, has_prefix, drop_prefix,
}
use neo_transcoder.Auth.{
  Time, User, PublicUser, public, Claims, Crypto, TokenError, issue_token, verify_token,
}
use neo_transcoder.Streams.Models.{second}
use neo_transcoder.Streams.Store.{Store, StoreError}
use neo_transcoder.Streams.Store.Users.{
  authenticate, verify_token_claims, create_user, delete_user, change_password,
}

pub record Request : Type 0 where
  pub path : Bytes
  -- the header Authorization, and the query's access_token; "" where there is none
  pub authorization : Bytes
  pub query_token : Bytes

pub record TokenPair : Type 0 where
  pub access_token : Bytes
  pub refresh_token : Bytes
  pub access_expires_at : Time
  pub refresh_expires_at : Time
  pub must_change_password : Bool
  pub user : PublicUser

-- The status of an answer, with the data of those that have some.
pub data Reply : Type 0 where
  status : ℕ → Reply
  tokens : TokenPair → Reply
  with_user : ℕ → PublicUser → Reply

abbrev pub access_token_ttl : Time
access_token_ttl = 15 * 60 * second

abbrev pub refresh_token_ttl : Time
refresh_token_ttl = 7 * 24 * 60 * 60 * second

abbrev pub bearer : Bytes
bearer = bytes "Bearer "

unfoldable pub header_token : Request → Bytes
header_token r =
    if has_prefix r.authorization bearer then drop_prefix r.authorization bearer else []

-- The token that `userFromRequest` goes by.
unfoldable pub token_of : Request → Bytes
token_of r =
    if header_token r == [] && r.path == bytes "/api/events" then r.query_token else header_token r

-- userFromRequest: the user, or the status 401.
unfoldable pub user_from_request : Crypto → Request → Bytes → Time → Store → Checked ℕ User
user_from_request crypto r kind now s =
    if token_of r == []
    then err 401
    else elim (verify_token crypto s.auth_secret (token_of r) kind now) [
      | err e ↦ err 401
      | ok claims ↦ elim (verify_token_claims claims s) [ none ↦ err 401 | some user ↦ ok user ]
    ]

-- The paths that are served without a user.
unfoldable pub is_open : Bytes → Bool
is_open path =
    path == bytes "/api/health"
    || path == bytes "/api/auth/required"
    || path == bytes "/api/auth/login"
    || path == bytes "/api/auth/refresh"
    || not (has_prefix path (bytes "/api/"))

-- auth: the user that the next handler is called with, none where it needs none, or the status.
unfoldable pub authorized : Crypto → Request → Time → Store → Checked ℕ (Option User)
authorized crypto r now s =
    if is_open r.path then ok none else elim (user_from_request crypto r (bytes "access") now s) [
      | err e ↦ err e
      | ok user ↦ ok (some user)
    ]

abbrev pub claims_for : User → Bytes → Time → Claims
claims_for user type expires_at = record {
  subject = user.username;
  type = type;
  token_version = user.token_version;
  expires_at = expires_at;
}

unfoldable pub write_pair :
    User → Time → Checked TokenError Bytes → Checked TokenError Bytes → Reply
write_pair user now (err e) refresh = status 500
write_pair user now (ok access) (err e) = status 500
write_pair user now (ok access) (ok refresh) = tokens (record {
  access_token = access;
  refresh_token = refresh;
  access_expires_at = now + access_token_ttl;
  refresh_expires_at = now + refresh_token_ttl;
  must_change_password = user.must_change_password;
  user = public user;
})

unfoldable pub write_token_pair : Crypto → User → Time → Store → Reply
unfolding write_pair
write_token_pair crypto user now s =
    write_pair user now
      (issue_token crypto s.auth_secret (claims_for user (bytes "access") (now + access_token_ttl)))
      (issue_token crypto s.auth_secret
        (claims_for user (bytes "refresh") (now + refresh_token_ttl)))

unfoldable pub login : Crypto → Bytes → Bytes → Time → Store → Reply
login crypto username password now s = elim (authenticate crypto username password s) [
  | none ↦ status 401
  | some user ↦ write_token_pair crypto user now s
]

unfoldable pub refresh : Crypto → Bytes → Time → Store → Reply
refresh crypto token now s = elim (verify_token crypto s.auth_secret token (bytes "refresh") now) [
  | err e ↦ status 401
  | ok claims ↦ elim (verify_token_claims claims s) [
    | none ↦ status 401
    | some user ↦ write_token_pair crypto user now s
  ]
]

-- writeError with 400, or the user
unfoldable pub user_reply : ℕ → Checked StoreError PublicUser → Reply
user_reply code (err e) = status 400
user_reply code (ok user) = with_user code user

unfoldable pub change_own_password :
    Crypto → Request → Option Bytes → Bytes → Bytes → Time → Bool → Store → Store × Reply
change_own_password crypto r salt current password now saved s =
    elim (user_from_request crypto r (bytes "access") now s) [
      | err e ↦ (s, status e)
      | ok user ↦
          let (s', result) =
            change_password crypto salt user.username current password true now saved s in
          (s', user_reply 200 result)
    ]

-- The handler `createUser`
unfoldable pub post_user :
    Crypto → Option Bytes → Bytes → Bytes → Time → Bool → Store → Store × Reply
post_user crypto salt username password now saved s =
    let (s', result) = create_user crypto salt username password now saved s in
    (s', user_reply 201 result)

unfoldable pub change_user_password :
    Crypto → Option Bytes → Bytes → Bytes → Time → Bool → Store → Store × Reply
change_user_password crypto salt username password now saved s =
    let (s', result) = change_password crypto salt username [] password false now saved s in
    (s', user_reply 200 result)

deleted_reply : Checked StoreError Bool → Reply
deleted_reply (err e) = status 400
deleted_reply (ok false) = status 404
deleted_reply (ok true) = status 204

-- The handler `deleteUser`
unfoldable pub remove_user : Bytes → Bool → Store → Store × Reply
unfolding deleted_reply
remove_user username saved s =
    let (s', result) = delete_user username saved s in (s', deleted_reply result)
