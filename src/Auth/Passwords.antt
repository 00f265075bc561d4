-- ===== src/Auth/Passwords.antt =====
-- `VerifyPassword` on the hashes that `HashPassword` makes.
use neo_transcoder.Base.{
  ◌≡◌, refl, ap, ◌∙◌, pos, true, some, [], ◌∷◌, ◌++◌, Bytes, bytes, arith, ◌==◌, bytes_eq, ok,
  split, parse_int, length, split-append, split-plain, lacks-Lacks, bytes_beq_iff,
}
use neo_transcoder.Auth.Base64.{encode, IsBytes}
use neo_transcoder.Auth.Base64.RoundTrip.{decode-encode, encode-Lacks}
use neo_transcoder.Auth.Pbkdf2.{pbkdf2_key, hash_length}
use neo_transcoder.Auth.Pbkdf2.Reference.{length-pbkdf2_key, pbkdf2_key-IsBytes}
use neo_transcoder.Auth.{
  Crypto, iterations, key_length, hash_password, verify_parts, check_parts, check_key,
  verify_password,
}

hash_parts :
    (salt key : Bytes)
    → IsBytes salt
    → IsBytes key
    → split b'$' (
        bytes "pbkdf2-sha256"
        ++ b'$' ∷ (bytes "120000" ++ b'$' ∷ (encode salt ++ b'$' ∷ encode key)))
      ≡ bytes "pbkdf2-sha256" ∷ bytes "120000" ∷ encode salt ∷ encode key ∷ []
unfolding bytes
hash_parts salt key hs hk =
    let (_, salt_plain) = encode-Lacks salt hs in
    let (_, key_plain) = encode-Lacks key hk in
    split-append b'$' (bytes "pbkdf2-sha256") _ (lacks-Lacks b'$' (bytes "pbkdf2-sha256") refl)
    ∙ ap (λ t. bytes "pbkdf2-sha256" ∷ t)
        (split-append b'$' (bytes "120000") _ (lacks-Lacks b'$' (bytes "120000") refl)
          ∙ ap (λ t. bytes "120000" ∷ t)
              (split-append b'$' (encode salt) (encode key) salt_plain
                ∙ ap (λ t. encode salt ∷ t) (split-plain b'$' (encode key) key_plain)))

count_lem : parse_int (bytes "120000") ≡ some (pos iterations)
unfolding parse_int bytes
count_lem = refl

-- The hash of a password accepts exactly the passwords from which the same key is derived: itself
-- among them. HMAC under that password gives 32 bytes.
pub verify_password-hash_password :
    (crypto : Crypto) (salt password other hash : Bytes)
    → IsBytes salt
    → ((m : Bytes) → length (crypto.hmac password m) ≡ hash_length)
    → ((m : Bytes) → IsBytes (crypto.hmac password m))
    → hash_password crypto (some salt) password ≡ ok hash
    → verify_password crypto hash other ≡ (
        pbkdf2_key (crypto.hmac other) salt iterations key_length
        == pbkdf2_key (crypto.hmac password) salt iterations key_length)
unfolding hash_password verify_password verify_parts check_parts check_key
verify_password-hash_password crypto salt password other hash salted sized bounded made =
    let key = pbkdf2_key (crypto.hmac password) salt iterations key_length in
    let hk : IsBytes key =
      pbkdf2_key-IsBytes (crypto.hmac password) salt sized bounded iterations key_length in
    let made' : hash
        ≡ bytes "pbkdf2-sha256"
          ++ b'$' ∷ (bytes "120000" ++ b'$' ∷ (encode salt ++ b'$' ∷ encode key)) =
      ground arith in
    let named : (bytes "pbkdf2-sha256" == bytes "pbkdf2-sha256") ≡ true =
      (bytes_beq_iff (bytes "pbkdf2-sha256") (bytes "pbkdf2-sha256")).1 refl in
    rw
      (
        made',
        verify_password,
        hash_parts salt key salted hk,
        verify_parts,
        named,
        count_lem,
        decode-encode salt salted,
        decode-encode key hk,
        check_parts,
        check_parts,
        check_key,
        length-pbkdf2_key (crypto.hmac password) salt sized bounded iterations key_length,
      )
      refl
