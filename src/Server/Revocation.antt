-- ===== src/Server/Revocation.antt =====
-- What a new password takes away.
use neo_transcoder.Base.{
  ◌+◌, ◌≡◌, refl, ap, ◌∙◌, ◌⊎◌, inl, inr, Bool, false, Option, none, some, [], ◌++◌, Bytes, bytes,
  arith, ◌==◌, bytes_eq, ok, err, nat_eq, Checked-cases,
}
use neo_transcoder.Auth.{
  Time, User, PublicUser, Claims, Crypto, TokenError, verify_token, check_claims,
}
use neo_transcoder.Auth.Base64.{encode, IsBytes}
use neo_transcoder.Auth.Tokens.{verify_token-issue_token}
use neo_transcoder.Streams.Store.{Store}
use neo_transcoder.Streams.Store.Users.{authenticate, change_password}
use neo_transcoder.Streams.Store.Passwords.{change_password-IsChanged, change_password-refuses}
use neo_transcoder.Streams.Store.Consistent.{IsConsistent}
use neo_transcoder.Server.{
  Request, TokenPair, tokens, access_token_ttl, bearer, token_of, user_from_request, is_open,
  authorized, claims_for, login,
}
use neo_transcoder.Server.Sessions.{
  token_of-bearer, login-issue_token, issue_token_some, own_claims, user_from_request-verified,
}

user_from_request-refused :
    (crypto : Crypto) (r : Request) (kind token : Bytes) (now : Time) (s : Store) (e : TokenError)
    → token_of r ≡ token
    → verify_token crypto s.auth_secret token kind now ≡ err e
    → user_from_request crypto r kind now s ≡ err 401
unfolding user_from_request
user_from_request-refused crypto r kind token now s e it refused =
    let f : verify_token crypto s.auth_secret (token_of r) kind now ≡ err e =
      ap (λ t. verify_token crypto s.auth_secret t kind now) it ∙ refused in
    ground (arith, f)

check_claims-same :
    (claims : Claims) (kind : Bytes) (now : Time)
    → (check_claims claims kind now ≡ ok claims)
      ⊎ ((e : TokenError) × (check_claims claims kind now ≡ err e))
unfolding check_claims
check_claims-same claims kind now = elim (Checked-cases (check_claims claims kind now)) [
  | inl (e, refused) ↦ inr (e, refused)
  | inr (found, passes) ↦ inl (ground arith)
]

-- Once the user's password is changed, the access token of an earlier login is refused, at every time, on
-- every path that is not open, with the status 401.
pub login-change_password :
    (crypto : Crypto) (username password body : Bytes) (now later : Time) (s t : Store)
    (user : User) (pair : TokenPair) (r : Request) (salt : Option Bytes)
    (current new_password : Bytes) (require_current : Bool) (changed_at : Time) (saved : Bool)
    (public_user : PublicUser)
    → IsConsistent s
    → authenticate crypto username password s ≡ some user
    → login crypto username password now s ≡ tokens pair
    → crypto.marshal (claims_for user (bytes "access") (now + access_token_ttl)) ≡ some body
    → crypto.unmarshal body ≡ some (claims_for user (bytes "access") (now + access_token_ttl))
    → IsBytes body
    → ((body == []) ≡ false)
    → ((crypto.hmac s.auth_secret (encode body) == []) ≡ false)
    → r.authorization ≡ bearer ++ pair.access_token
    → is_open r.path ≡ false
    → change_password crypto salt username current new_password require_current changed_at saved s
      ≡ (t, ok public_user)
    → authorized crypto r later t ≡ err 401
unfolding authorized
login-change_password crypto username password body now later s t user pair r salt current
      new_password require_current changed_at saved public_user consistent known logged_in written
      read bounded some_body some_mac carries closed changed =
    let claims = claims_for user (bytes "access") (now + access_token_ttl) in
    let issued = login-issue_token crypto username password now s user pair known logged_in in
    let some_token = issue_token_some crypto s.auth_secret pair.access_token claims issued in
    let (own_name, accepted) =
      own_claims crypto username password (now + access_token_ttl) s user consistent known in
    let c =
      change_password-IsChanged crypto salt username current new_password require_current changed_at
        saved s t public_user changed in
    let revoked =
      change_password-refuses crypto salt username current new_password require_current changed_at
        saved s t public_user claims user changed own_name accepted in
    let checks : verify_token crypto t.auth_secret pair.access_token (bytes "access") later
        ≡ check_claims claims (bytes "access") later =
      ap (λ k. verify_token crypto k pair.access_token (bytes "access") later) c.secret
      ∙ verify_token-issue_token crypto s.auth_secret body pair.access_token (bytes "access") later
          claims written read bounded some_body some_mac issued in
    let it = token_of-bearer r pair.access_token carries some_token in
    let refused : user_from_request crypto r (bytes "access") later t ≡ err 401 =
      elim (check_claims-same claims (bytes "access") later) [
        | inl passes ↦
            user_from_request-verified crypto r (bytes "access") pair.access_token later t claims
              none it some_token (checks ∙ passes) revoked
        | inr (e, fails) ↦
            user_from_request-refused crypto r (bytes "access") pair.access_token later t e it
              (checks ∙ fails)
      ] in
    rw (closed, authorized, refused) refl
