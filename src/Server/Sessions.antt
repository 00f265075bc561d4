-- ===== src/Server/Sessions.antt =====
-- What a login gives access to, and for how long.
use neo_transcoder.Base.{
  ℕ, ◌+◌, ◌<◌, ◌≡◌, refl, ap, ◌∙◌, inl, inr, ℤ, pos, negsuc, ltb_ℤ, true, false, Option, none, some,
  [], ◌∷◌, ◌++◌, Bytes, bytes, arith, ◌==◌, bytes_eq, bytes_beq, bytes_beq_iff, if◌then◌else◌,
  lookup, has_prefix, drop_prefix, ok, err, nat_eq, Bool-cases, Option-cases, Checked-cases,
}
use mathlib.Core.Path.{subst}
use neo_transcoder.Auth.{Time, User, Claims, Crypto, sign, issue_token, verify_token, check_claims}
use neo_transcoder.Auth.Base64.{encode, IsBytes}
use neo_transcoder.Auth.Tokens.{verify_token-issue_token}
use neo_transcoder.Streams.Store.{Store}
use neo_transcoder.Streams.Store.Users.{authenticate, is_same_version, verify_token_claims}
use neo_transcoder.Streams.Store.Consistent.{IsConsistent}
use neo_transcoder.Server.{
  Request, TokenPair, tokens, access_token_ttl, refresh_token_ttl, bearer, header_token, token_of,
  user_from_request, is_open, authorized, claims_for, write_pair, write_token_pair, login,
}

has_prefix-append : (p s : Bytes) → has_prefix (p ++ s) p ≡ true
unfolding has_prefix
has_prefix-append [] s = refl
has_prefix-append (c ∷ p) s = ground (arith, has_prefix-append p s)

drop_prefix-append : (p s : Bytes) → drop_prefix (p ++ s) p ≡ s
unfolding drop_prefix
drop_prefix-append [] [] = refl
drop_prefix-append [] (c ∷ s) = refl
drop_prefix-append (c ∷ p) s = drop_prefix-append p s

-- The token behind the word Bearer is the one that counts.
pub token_of-bearer :
    (r : Request) (token : Bytes)
    → r.authorization ≡ bearer ++ token
    → (token == []) ≡ false
    → token_of r ≡ token
unfolding token_of header_token
token_of-bearer r token h some_token =
    let e : header_token r ≡ token =
      ap (λ a. if has_prefix a bearer then drop_prefix a bearer else []) h
      ∙ rw (has_prefix-append bearer token) (drop_prefix-append bearer token) in
    ground (arith, e, some_token)

-- What a login that succeeds has done.
pub login-issue_token :
    (crypto : Crypto) (username password : Bytes) (now : Time) (s : Store) (user : User)
    (pair : TokenPair)
    → authenticate crypto username password s ≡ some user
    → login crypto username password now s ≡ tokens pair
    → issue_token crypto s.auth_secret (claims_for user (bytes "access") (now + access_token_ttl))
      ≡ ok pair.access_token
unfolding login write_token_pair write_pair
login-issue_token crypto username password now s user pair known h =
    elim (Checked-cases (
      issue_token crypto s.auth_secret
        (claims_for user (bytes "access") (now + access_token_ttl)))) [
          | inl (e, refused) ↦ absurd (ground (arith, known, refused))
          | inr (access, made) ↦
              elim (Checked-cases (
                issue_token crypto s.auth_secret
                  (claims_for user (bytes "refresh") (now + refresh_token_ttl)))) [
                    | inl (e, refused) ↦ absurd (ground (arith, known, made, refused))
                    | inr (later, made') ↦ ground (arith, known, made, made')
                  ]
        ]

joined_some : (front back : Bytes) (c : ℕ) → ((front ++ c ∷ back) == []) ≡ false
unfolding bytes_beq
joined_some [] back c = refl
joined_some (b ∷ front) back c = refl

pub issue_token_some :
    (crypto : Crypto) (secret token : Bytes) (claims : Claims)
    → issue_token crypto secret claims ≡ ok token
    → (token == []) ≡ false
unfolding issue_token
issue_token_some crypto secret token claims h = elim (Option-cases (crypto.marshal claims)) [
  | inl failed ↦ absurd (ground (arith, failed))
  | inr (body, written) ↦
      let e : encode body ++ b'.' ∷ sign crypto secret (encode body) ≡ token =
        ground (arith, written) in
      subst (λ t. (t == []) ≡ false) e
        (joined_some (encode body) (sign crypto secret (encode body)) b'.')
]

check_claims-access :
    (user : User) (expires_at now : Time)
    → now < expires_at
    → (user.username == []) ≡ false
    → ltb_ℤ user.token_version (pos 1) ≡ false
    → check_claims (claims_for user (bytes "access") expires_at) (bytes "access") now
      ≡ ok (claims_for user (bytes "access") expires_at)
unfolding check_claims
check_claims-access user expires_at now in_time named versioned =
    ground (arith, bytes_beq_iff (bytes "access") (bytes "access"))

pub user_from_request-verified :
    (crypto : Crypto) (r : Request) (kind token : Bytes) (now : Time) (s : Store) (claims : Claims)
    (found : Option User)
    → token_of r ≡ token
    → (token == []) ≡ false
    → verify_token crypto s.auth_secret token kind now ≡ ok claims
    → verify_token_claims claims s ≡ found
    → user_from_request crypto r kind now s ≡ (elim found [ none ↦ err 401 | some user ↦ ok user ])
unfolding user_from_request
user_from_request-verified crypto r kind token now s claims found it some_token verified accepted =
    let e : verify_token crypto s.auth_secret (token_of r) kind now ≡ ok claims =
      ap (λ t. verify_token crypto s.auth_secret t kind now) it ∙ verified in
    let some_token' : (token_of r == []) ≡ false = ap (λ t. t == []) it ∙ some_token in
    rw (user_from_request, some_token', e, accepted) refl

authenticate-found :
    (crypto : Crypto) (username password : Bytes) (s : Store) (user : User)
    → authenticate crypto username password s ≡ some user
    → lookup username s.users ≡ some user
unfolding authenticate
authenticate-found crypto username password s user h =
    elim (Option-cases (lookup username s.users)) [
      | inl missing ↦ absurd (ground (arith, missing))
      | inr (u, found) ↦ ground (arith, found)
    ]

is_same_version_refl : (v : ℤ) → is_same_version v v ≡ true
unfolding is_same_version
is_same_version_refl (pos n) = ground arith
is_same_version_refl (negsuc n) = ground arith

-- A user that is authenticated in a consistent store has accepted claims.
pub own_claims :
    (crypto : Crypto) (username password : Bytes) (expires_at : Time) (s : Store) (user : User)
    → IsConsistent s
    → authenticate crypto username password s ≡ some user
    → (user.username ≡ username)
      × (verify_token_claims (claims_for user (bytes "access") expires_at) s ≡ some user)
unfolding verify_token_claims
own_claims crypto username password expires_at s user consistent known =
    let found = authenticate-found crypto username password s user known in
    let own_name : user.username ≡ username = consistent.user_names username user found in
    let found' : lookup user.username s.users ≡ some user =
      ap (λ n. lookup n s.users) own_name ∙ found in
    (own_name, rw (found', verify_token_claims, is_same_version_refl user.token_version) refl)

-- In a consistent store, a user that is not nameless and has a token version of at least 1 logs in: until
-- the access token expires, a request that carries it behind the word Bearer, to any path, is let through
-- as this user, or as nobody's where the path is open. json.Unmarshal has to read the claims that
-- json.Marshal wrote, a text of bytes that is not empty, and HMAC to give a text that is not empty.
pub login-authorized :
    (crypto : Crypto) (username password body : Bytes) (now later : Time) (s : Store) (user : User)
    (pair : TokenPair) (r : Request)
    → IsConsistent s
    → authenticate crypto username password s ≡ some user
    → login crypto username password now s ≡ tokens pair
    → crypto.marshal (claims_for user (bytes "access") (now + access_token_ttl)) ≡ some body
    → crypto.unmarshal body ≡ some (claims_for user (bytes "access") (now + access_token_ttl))
    → IsBytes body
    → ((body == []) ≡ false)
    → ((crypto.hmac s.auth_secret (encode body) == []) ≡ false)
    → (username == []) ≡ false
    → ltb_ℤ user.token_version (pos 1) ≡ false
    → later < now + access_token_ttl
    → r.authorization ≡ bearer ++ pair.access_token
    → authorized crypto r later s ≡ ok (if is_open r.path then none else some user)
unfolding authorized
login-authorized crypto username password body now later s user pair r consistent known logged_in
      written read bounded some_body some_mac named versioned in_time carries =
    let claims = claims_for user (bytes "access") (now + access_token_ttl) in
    let issued = login-issue_token crypto username password now s user pair known logged_in in
    let some_token = issue_token_some crypto s.auth_secret pair.access_token claims issued in
    let (own_name, accepted) =
      own_claims crypto username password (now + access_token_ttl) s user consistent known in
    let named' : (user.username == []) ≡ false = ap (λ n. n == []) own_name ∙ named in
    let verified : verify_token crypto s.auth_secret pair.access_token (bytes "access") later
        ≡ ok claims =
      verify_token-issue_token crypto s.auth_secret body pair.access_token (bytes "access") later
        claims written read bounded some_body some_mac issued
      ∙ check_claims-access user (now + access_token_ttl) later in_time named' versioned in
    let passes =
      user_from_request-verified crypto r (bytes "access") pair.access_token later s claims
        (some user) (token_of-bearer r pair.access_token carries some_token) some_token verified
        accepted in
    elim (Bool-cases (is_open r.path)) [
      | inl is_free ↦ rw is_free refl
      | inr closed ↦ rw (closed, authorized, passes) refl
    ]
