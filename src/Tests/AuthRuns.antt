-- ===== src/Tests/AuthRuns.antt =====
-- A user, a password and a token. The hash function of the runs counts bytes: its results have 32
-- bytes, as those of HMAC with SHA-256 have.
use neo_transcoder.Base.{
  ℕ, suc, zero, ◌%◌, ◌≡◌, refl, pos, false, some, [], ◌∷◌, ◌++◌, Bytes, bytes, bytes_beq, bytes_eq,
  ◌==◌, arith, ok, replicate, length,
}
use neo_transcoder.Auth.Base64.{encode, decode, IsBytes}
use neo_transcoder.Auth.Base64.RoundTrip.{decode-encode}
use neo_transcoder.Auth.Pbkdf2.{pbkdf2_key}
use neo_transcoder.Auth.Pbkdf2.Reference.{derived_key, pbkdf2_key-derived_key}
use neo_transcoder.Auth.{
  Crypto, Claims, iterations, key_length, sign, hash_password, verify_password, issue_token,
  verify_token, check_claims,
}
use neo_transcoder.Auth.Passwords.{verify_password-hash_password}
use neo_transcoder.Auth.Tokens.{IsGranted, verify_token-issue_token, verify_token-IsGranted}

abbrev pub counted : Bytes → Bytes → Bytes
counted key message = (length key % 256) ∷ (length message % 256) ∷ replicate 30 7

abbrev session : Claims
session = record {
  subject = bytes "admin";
  type = bytes "access";
  token_version = pos 1;
  expires_at = 900;
}

abbrev pub crypto : Crypto
crypto = record {
  hmac = counted;
  marshal = λ claims. some claims.subject;
  unmarshal = λ body. some (record session { subject = body });
}

replicate-IsBytes : (n : ℕ) → IsBytes (replicate n 7)
replicate-IsBytes zero = tt
replicate-IsBytes (suc n) = (omega arith, replicate-IsBytes n)

pub counted-IsBytes : (key message : Bytes) → IsBytes (counted key message)
counted-IsBytes key message = (omega arith, (omega arith, replicate-IsBytes 30))

abbrev pub salt : Bytes
salt = 1 ∷ 2 ∷ 3 ∷ 255 ∷ []

pub salt-IsBytes : IsBytes salt
salt-IsBytes = (omega arith, (omega arith, (omega arith, (omega arith, tt))))

decode-encode_example : decode (encode salt) ≡ some salt
decode-encode_example = decode-encode salt salt-IsBytes

pbkdf2_key-derived_key_example :
    pbkdf2_key (counted (bytes "secret")) salt 3 40
    ≡ derived_key (counted (bytes "secret")) salt 3 40
pbkdf2_key-derived_key_example = pbkdf2_key-derived_key (counted (bytes "secret")) salt 3 40

abbrev secret_hash : Bytes
secret_hash =
    bytes "pbkdf2-sha256"
    ++ b'$'
      ∷ (bytes "120000"
          ++ b'$'
            ∷ (encode salt
                ++ b'$'
                  ∷ encode (pbkdf2_key (counted (bytes "secret")) salt iterations key_length)))

hashed : hash_password crypto (some salt) (bytes "secret") ≡ ok secret_hash
unfolding hash_password
hashed = refl

verify_password-hash_password_example : verify_password crypto secret_hash (bytes "guess") ≡ (
    pbkdf2_key (counted (bytes "guess")) salt iterations key_length
    == pbkdf2_key (counted (bytes "secret")) salt iterations key_length)
verify_password-hash_password_example =
    verify_password-hash_password crypto salt (bytes "secret") (bytes "guess") secret_hash
      salt-IsBytes (λ m. refl) (counted-IsBytes (bytes "secret")) hashed

abbrev token : Bytes
token = encode (bytes "admin") ++ b'.' ∷ sign crypto (bytes "key") (encode (bytes "admin"))

issued : issue_token crypto (bytes "key") session ≡ ok token
unfolding issue_token
issued = refl

pub admin-IsBytes : IsBytes (bytes "admin")
unfolding bytes
admin-IsBytes = (omega arith, (omega arith, (omega arith, (omega arith, (omega arith, tt)))))

some_text :
    ((bytes "admin" == []) ≡ false)
    × ((counted (bytes "key") (encode (bytes "admin")) == []) ≡ false)
unfolding bytes bytes_beq
some_text = (refl, refl)

verify_token-issue_token_example :
    verify_token crypto (bytes "key") token (bytes "access") 500
    ≡ check_claims session (bytes "access") 500
verify_token-issue_token_example =
    verify_token-issue_token crypto (bytes "key") (bytes "admin") token (bytes "access") 500 session
      refl refl admin-IsBytes some_text.0 some_text.1 issued

granted : verify_token crypto (bytes "key") token (bytes "access") 500 ≡ ok session
unfolding check_claims bytes bytes_beq
granted =
    verify_token-issue_token crypto (bytes "key") (bytes "admin") token (bytes "access") 500 session
      refl refl admin-IsBytes some_text.0 some_text.1 issued

verify_token-IsGranted_example : IsGranted crypto (bytes "key") token (bytes "access") 500 session
verify_token-IsGranted_example =
    verify_token-IsGranted crypto (bytes "key") token (bytes "access") 500 session granted
