-- ===== src/Tests/ServerRuns.antt =====
-- The first user logs in, uses the access token, and changes the password.
use neo_transcoder.Base.{
  ◌+◌, ◌≡◌, refl, ◌∙◌, true, false, none, some, [], ◌∷◌, ◌++◌, Bytes, bytes, bytes_beq,
  bytes_beq_iff, bytes_eq, ◌==◌, arith, ok, err, lookup, insert, if◌then◌else◌, has_prefix,
}
use neo_transcoder.Auth.{
  User, Crypto, public, sign, hash_password, issue_token, verify_password, iterations, key_length,
  validate_password,
}
use neo_transcoder.Auth.Base64.{encode}
use neo_transcoder.Auth.Pbkdf2.{pbkdf2_key}
use neo_transcoder.Auth.Passwords.{verify_password-hash_password}
use neo_transcoder.Streams.Store.Users.{
  authenticate, with_password, change_password, change_known, next_token_version,
}
use neo_transcoder.Streams.Store.Consistent.{IsConsistent}
use neo_transcoder.Streams.Store.Histories.{opened, Reached-IsConsistent}
use neo_transcoder.Server.{
  Request, TokenPair, tokens, access_token_ttl, refresh_token_ttl, bearer, is_open, authorized,
  claims_for, write_pair, write_token_pair, login,
}
use neo_transcoder.Server.Access.{IsKnown, IsProtected, authorized-IsKnown}
use neo_transcoder.Server.Sessions.{login-authorized}
use neo_transcoder.Server.Revocation.{login-change_password}
use neo_transcoder.Tests.AuthRuns.{
  crypto, counted, counted-IsBytes, salt, salt-IsBytes, admin-IsBytes,
}
use neo_transcoder.Tests.StoreRuns.{fresh, admin, opens, hash_of, changed}

-- The JSON of the runs keeps the subject.
abbrev json : Crypto
json = record {
  hmac = counted;
  marshal = λ claims. some claims.subject;
  unmarshal = λ body.
      some (record (claims_for admin (bytes "access") (10 + access_token_ttl)) { subject = body });
}

fresh-IsConsistent : IsConsistent fresh
fresh-IsConsistent =
    Reached-IsConsistent crypto (opened none (some (bytes "secret")) (some salt) 9 true opens)

hashed : hash_password json (some salt) (bytes "123456") ≡ ok (hash_of (bytes "123456"))
unfolding hash_password
hashed = refl

admin_password : verify_password json (hash_of (bytes "123456")) (bytes "123456") ≡ true
admin_password =
    let key = pbkdf2_key (counted (bytes "123456")) salt iterations key_length in
    verify_password-hash_password json salt (bytes "123456") (bytes "123456")
      (hash_of (bytes "123456")) salt-IsBytes (λ m. refl) (counted-IsBytes (bytes "123456")) hashed
    ∙ (bytes_beq_iff key key).1 refl

authenticated : authenticate json (bytes "admin") (bytes "123456") fresh ≡ some admin
unfolding authenticate lookup bytes_beq bytes
authenticated = rw admin_password refl

abbrev token : Bytes
token = encode (bytes "admin") ++ b'.' ∷ sign json (bytes "secret") (encode (bytes "admin"))

abbrev pair : TokenPair
pair = record {
  access_token = token;
  refresh_token = token;
  access_expires_at = 10 + access_token_ttl;
  refresh_expires_at = 10 + refresh_token_ttl;
  must_change_password = true;
  user = public admin;
}

logged_in : login json (bytes "admin") (bytes "123456") 10 fresh ≡ tokens pair
unfolding login write_token_pair write_pair issue_token
logged_in = rw (login, authenticated) refl

abbrev asks : Request
asks = record { path = bytes "/api/streams"; authorization = bearer ++ token; query_token = [] }

texts :
    ((bytes "admin" == []) ≡ false)
    × ((counted (bytes "secret") (encode (bytes "admin")) == []) ≡ false)
    × (is_open (bytes "/api/streams") ≡ false)
unfolding bytes bytes_beq is_open has_prefix
texts = (refl, refl, refl)

login-authorized_example :
    authorized json asks 500 fresh ≡ ok (if is_open asks.path then none else some admin)
login-authorized_example =
    login-authorized json (bytes "admin") (bytes "123456") (bytes "admin") 10 500 fresh admin pair
      asks fresh-IsConsistent authenticated logged_in refl refl admin-IsBytes texts.0 texts.1
      texts.0 refl (omega arith) refl

let_through : authorized json asks 500 fresh ≡ ok (some admin)
let_through =
    login-authorized json (bytes "admin") (bytes "123456") (bytes "admin") 10 500 fresh admin pair
      asks fresh-IsConsistent authenticated logged_in refl refl admin-IsBytes texts.0 texts.1
      texts.0 refl (omega arith) refl
    ∙ rw texts.2 refl

protected : IsProtected asks.path
unfolding has_prefix bytes bytes_beq
protected = (refl, (refl, (refl, (refl, (refl, tt)))))

authorized-IsKnown_example :
    (user : User) × (some admin ≡ some user) × IsKnown json asks (bytes "access") 500 fresh user
authorized-IsKnown_example =
    authorized-IsKnown json asks 500 fresh (some admin) protected let_through

changes :
    change_password json (some salt) (bytes "admin") [] (bytes "better") false 20 true fresh
    ≡ (changed, ok (public (with_password (hash_of (bytes "better")) 20 admin)))
unfolding change_password change_known validate_password hash_password lookup next_token_version
    insert bytes bytes_beq
changes = refl

login-change_password_example : authorized json asks 500 changed ≡ err 401
login-change_password_example =
    login-change_password json (bytes "admin") (bytes "123456") (bytes "admin") 10 500 fresh changed
      admin pair asks (some salt) [] (bytes "better") false 20 true
      (public (with_password (hash_of (bytes "better")) 20 admin)) fresh-IsConsistent authenticated
      logged_in refl refl admin-IsBytes texts.0 texts.1 refl texts.2 changes
