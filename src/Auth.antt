-- ===== src/Auth.antt =====
-- internal/auth/auth.go: users, passwords and signed tokens. What the code takes from the packages
-- crypto/hmac, crypto/sha256 and encoding/json is the record Crypto; what crypto/rand gives is an
-- argument, and so is the time.
pub mod Base64
pub mod Pbkdf2
pub mod Passwords
pub mod Tokens
use neo_transcoder.Base.{
  ℕ, zero, suc, ◌+◌, ◌-◌, ◌*◌, ◌≤◌, ◌<◌, ℤ, pos, Bool, true, false, not, ◌&&◌, ◌||◌, Option, none,
  some, List, [], ◌∷◌, ◌++◌, Bytes, bytes, ltb, leb, ltb_ℤ, ◌==◌, nat_eq, bytes_eq, if◌then◌else◌,
  length, to_ℕ, Checked, ok, err, ◌>>=◌, ◌>>◌, refuse_if, cut, split, parse_int,
}
use neo_transcoder.Auth.Base64.{encode, decode}
use neo_transcoder.Auth.Pbkdf2.{pbkdf2_key}

-- Nanoseconds since Go's zero time.
abbrev pub Time : Type 0
Time = ℕ

pub record User : Type 0 where
  pub username : Bytes
  pub password_hash : Bytes
  pub must_change_password : Bool
  pub created_at : Time
  pub updated_at : Time
  pub token_version : ℤ

pub record PublicUser : Type 0 where
  pub username : Bytes
  pub must_change_password : Bool
  pub created_at : Time
  pub updated_at : Time

-- An expiry may lie before Go's zero time; such a token is expired like one at that time.
pub record Claims : Type 0 where
  pub subject : Bytes
  pub type : Bytes
  pub token_version : ℤ
  pub expires_at : Time

pub record Crypto : Type 0 where
  -- HMAC with SHA-256: a key and a message
  pub hmac : Bytes → Bytes → Bytes
  -- json.Marshal of claims, and json.Unmarshal into claims
  pub marshal : Claims → Option Bytes
  pub unmarshal : Bytes → Option Claims

pub data AuthError : Type 0 where
  bad_username_length bad_username_characters bad_password no_randomness : AuthError

-- The errors of `VerifyToken` and `IssueToken`.
pub data TokenError : Type 0 where
  not_marshalled invalid_token invalid_token_type token_expired : TokenError

is_username_char : ℕ → Bool
is_username_char r =
    (leb b'a' r && leb r b'z')
    || (leb b'A' r && leb r b'Z')
    || (leb b'0' r && leb r b'9')
    || r == b'_'
    || r == b'-'
    || r == b'.'

-- The loop over the runes. A rune outside ASCII is refused, and so is each of its bytes.
unfoldable pub all_username_chars : Bytes → Bool
unfolding is_username_char
all_username_chars [] = true
all_username_chars (r ∷ s) = is_username_char r && all_username_chars s

unfoldable pub validate_username : Bytes → Checked AuthError (Unit {0})
validate_username username = do
  refuse_if (ltb (length username) 3 || ltb 64 (length username)) bad_username_length
  refuse_if (not (all_username_chars username)) bad_username_characters

unfoldable pub validate_password : Bytes → Checked AuthError (Unit {0})
validate_password password = refuse_if (ltb (length password) 6) bad_password

abbrev pub iterations : ℕ
iterations = 120000

abbrev pub key_length : ℕ
key_length = 32

-- `salt` is what crypto/rand gives.
unfoldable pub hash_password : Crypto → Option Bytes → Bytes → Checked AuthError Bytes
hash_password crypto none password = err no_randomness
hash_password crypto (some salt) password =
    let key = pbkdf2_key (crypto.hmac password) salt iterations key_length in
    ok (
      bytes "pbkdf2-sha256" ++ b'$' ∷ (bytes "120000" ++ b'$' ∷ (encode salt ++ b'$' ∷ encode key)))

unfoldable pub new_user :
    Crypto → Option Bytes → Bytes → Bytes → Bool → Time → Checked AuthError User
new_user crypto salt username password must_change now = do
  validate_username username
  validate_password password
  hash ← hash_password crypto salt password
  ok (record {
    username = username;
    password_hash = hash;
    must_change_password = must_change;
    created_at = now;
    updated_at = now;
    token_version = pos 1;
  })

-- Public
abbrev pub public : User → PublicUser
public user = record {
  username = user.username;
  must_change_password = user.must_change_password;
  created_at = user.created_at;
  updated_at = user.updated_at;
}

-- VerifyPassword once the hash's parts are read.
unfoldable pub check_key : Crypto → Bytes → ℕ → Bytes → Bytes → Bool
check_key crypto password count salt expected =
    pbkdf2_key (crypto.hmac password) salt count (length expected) == expected

unfoldable pub check_parts : Crypto → Bytes → Option ℤ → Option Bytes → Option Bytes → Bool
unfolding check_key
check_parts crypto password (some count) (some salt) (some expected) =
    not (ltb_ℤ count (pos 1)) && check_key crypto password (to_ℕ count) salt expected
check_parts crypto password none salt expected = false
check_parts crypto password (some count) none expected = false
check_parts crypto password (some count) (some salt) none = false

unfoldable pub verify_parts : Crypto → Bytes → List Bytes → Bool
unfolding check_parts
verify_parts crypto password (name ∷ count ∷ salt ∷ key ∷ []) =
    name == bytes "pbkdf2-sha256"
    && check_parts crypto password (parse_int count) (decode salt) (decode key)
verify_parts crypto password [] = false
verify_parts crypto password (a ∷ []) = false
verify_parts crypto password (a ∷ b ∷ []) = false
verify_parts crypto password (a ∷ b ∷ c ∷ []) = false
verify_parts crypto password (a ∷ b ∷ c ∷ d ∷ e ∷ parts) = false

unfoldable pub verify_password : Crypto → Bytes → Bytes → Bool
verify_password crypto hash password = verify_parts crypto password (split b'$' hash)

unfoldable pub sign : Crypto → Bytes → Bytes → Bytes
sign crypto secret payload = encode (crypto.hmac secret payload)

unfoldable pub issue_token : Crypto → Bytes → Claims → Checked TokenError Bytes
issue_token crypto secret claims = elim (crypto.marshal claims) [
  | none ↦ err not_marshalled
  | some body ↦ ok (encode body ++ b'.' ∷ sign crypto secret (encode body))
]

-- The claims in a payload whose signature is right.
unfoldable pub read_claims : Crypto → Bytes → Option Claims
read_claims crypto payload = elim (decode payload) [
  | none ↦ none
  | some data' ↦ crypto.unmarshal data'
]

-- The checks on the claims.
unfoldable pub check_claims : Claims → Bytes → Time → Checked TokenError Claims
check_claims claims kind now = do
  refuse_if (not (claims.type == kind)) invalid_token_type
  refuse_if (not (ltb now claims.expires_at)) token_expired
  refuse_if (claims.subject == [] || ltb_ℤ claims.token_version (pos 1)) invalid_token
  ok claims

unfoldable pub verify_read : Option Claims → Bytes → Time → Checked TokenError Claims
verify_read none kind now = err invalid_token
verify_read (some claims) kind now = check_claims claims kind now

unfoldable pub verify_cut :
    Crypto → Bytes → Option (Bytes × Bytes) → Bytes → Time → Checked TokenError Claims
unfolding verify_read
verify_cut crypto secret none kind now = err invalid_token
verify_cut crypto secret (some (payload, signature)) kind now =
    if payload == [] || signature == [] || not (sign crypto secret payload == signature)
    then err invalid_token
    else verify_read (read_claims crypto payload) kind now

unfoldable pub verify_token : Crypto → Bytes → Bytes → Bytes → Time → Checked TokenError Claims
verify_token crypto secret token kind now = verify_cut crypto secret (cut b'.' token) kind now
