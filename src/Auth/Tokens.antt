-- ===== src/Auth/Tokens.antt =====
-- What the checks of `VerifyToken` establish, and that it reads what `IssueToken` wrote.
use mathlib.Core.Path.{subst}
use neo_transcoder.Base.{
  ◌<◌, ◌≡◌, refl, sym, ap, ◌∙◌, inl, inr, pos, true, false, some, [], ◌∷◌, ◌++◌, Bytes, arith,
  ltb_ℤ, ◌==◌, bytes_eq, ok, cut, cut-append, append-cut, Option-cases, bytes_beq_iff,
}
use neo_transcoder.Auth.Base64.{encode, IsBytes}
use neo_transcoder.Auth.Base64.RoundTrip.{decode-encode, encode-Lacks, encode-empty}
use neo_transcoder.Auth.{
  Time, Claims, Crypto, sign, issue_token, read_claims, check_claims, verify_read, verify_cut,
  verify_token,
}

verify_read_back :
    (crypto : Crypto) (secret body kind : Bytes) (now : Time) (claims : Claims)
    → IsBytes body
    → ((body == []) ≡ false)
    → ((crypto.hmac secret (encode body) == []) ≡ false)
    → crypto.unmarshal body ≡ some claims
    → verify_token crypto secret (encode body ++ b'.' ∷ sign crypto secret (encode body)) kind now
      ≡ check_claims claims kind now
unfolding verify_token verify_cut sign read_claims
verify_read_back crypto secret body kind now claims bounded some_body some_mac read =
    let signature = encode (crypto.hmac secret (encode body)) in
    let (no_dot, _) = encode-Lacks body bounded in
    let same : (signature == signature) ≡ true = (bytes_beq_iff signature signature).1 refl in
    let p : (encode body == []) ≡ false = encode-empty body ∙ some_body in
    let q : (signature == []) ≡ false =
      encode-empty (crypto.hmac secret (encode body)) ∙ some_mac in
    rw
      (
        verify_token,
        cut-append b'.' (encode body) signature no_dot,
        verify_cut,
        sign,
        p,
        q,
        same,
        read_claims,
        decode-encode body bounded,
        read,
      )
      refl

-- A token that `IssueToken` made is verified, under its secret, exactly as its claims are checked: with
-- its type, before its expiry, with a subject and a version it is accepted with these claims, and
-- otherwise refused. json.Unmarshal has to read what json.Marshal wrote, a text of bytes that is not
-- empty, and HMAC to give a text that is not empty.
pub verify_token-issue_token :
    (crypto : Crypto) (secret body token kind : Bytes) (now : Time) (claims : Claims)
    → crypto.marshal claims ≡ some body
    → crypto.unmarshal body ≡ some claims
    → IsBytes body
    → ((body == []) ≡ false)
    → ((crypto.hmac secret (encode body) == []) ≡ false)
    → issue_token crypto secret claims ≡ ok token
    → verify_token crypto secret token kind now ≡ check_claims claims kind now
unfolding issue_token
verify_token-issue_token crypto secret body token kind now claims written read bounded some_body
      some_mac issued =
    let e : token ≡ encode body ++ b'.' ∷ sign crypto secret (encode body) =
      ground (arith, written) in
    rw e (verify_read_back crypto secret body kind now claims bounded some_body some_mac read)

-- What a token is accepted for.
pub record IsGranted (crypto : Crypto) (secret token kind : Bytes) (now : Time) (claims : Claims)
    : Type 0 where
  pub payload : Bytes
  pub signed : token ≡ payload ++ b'.' ∷ sign crypto secret payload
  pub read : read_claims crypto payload ≡ some claims
  pub type : claims.type ≡ kind
  pub in_time : now < claims.expires_at
  pub version : ltb_ℤ claims.token_version (pos 1) ≡ false
  pub subject : (claims.subject == []) ≡ false

check_claims-eq-ok :
    (found : Claims) (kind : Bytes) (now : Time) (claims : Claims)
    → check_claims found kind now ≡ ok claims
    → (found ≡ claims)
      × ((found.type == kind) ≡ true)
      × (now < found.expires_at)
      × (ltb_ℤ found.token_version (pos 1) ≡ false)
      × ((found.subject == []) ≡ false)
unfolding check_claims
check_claims-eq-ok found kind now claims h = ground arith

verify_cut-eq-ok :
    (crypto : Crypto) (secret payload signature kind : Bytes) (now : Time) (claims : Claims)
    → verify_cut crypto secret (some (payload, signature)) kind now ≡ ok claims
    → ((sign crypto secret payload == signature) ≡ true)
      × (verify_read (read_claims crypto payload) kind now ≡ ok claims)
unfolding verify_cut
verify_cut-eq-ok crypto secret payload signature kind now claims h = ground arith

-- A token is accepted only if it is a payload with the signature of that payload under the secret, and
-- the payload's claims have the type asked for, are not expired, and name a subject and a version.
pub verify_token-IsGranted :
    (crypto : Crypto) (secret token kind : Bytes) (now : Time) (claims : Claims)
    → verify_token crypto secret token kind now ≡ ok claims
    → IsGranted crypto secret token kind now claims
unfolding verify_token verify_cut verify_read
verify_token-IsGranted crypto secret token kind now claims h =
    elim (Option-cases (cut b'.' token)) [
      | inl missing ↦ absurd (ground (arith, missing))
      | inr ((payload, signature), e) ↦
          let (same, read) =
            verify_cut-eq-ok crypto secret payload signature kind now claims
              (subst (λ c. verify_cut crypto secret c kind now ≡ ok claims) e h) in
          elim (Option-cases (read_claims crypto payload)) [
            | inl unread ↦ absurd (ground (arith, unread))
            | inr (found, g) ↦
                let checked : check_claims found kind now ≡ ok claims = ground (arith, g) in
                let (it, type, in_time, version, subject) =
                  check_claims-eq-ok found kind now claims checked in
                record {
                  payload = payload;
                  signed =
                      append-cut b'.' token payload signature e
                      ∙ ap (λ t. payload ++ b'.' ∷ t)
                          (sym ((bytes_beq_iff (sign crypto secret payload) signature).0 same));
                  read = g ∙ ap some it;
                  type =
                      (bytes_beq_iff claims.type kind).0
                        (subst (λ c. (c.type == kind) ≡ true) it type);
                  in_time = subst (λ c. now < c.expires_at) it in_time;
                  version = subst (λ c. ltb_ℤ c.token_version (pos 1) ≡ false) it version;
                  subject = subst (λ c. (c.subject == []) ≡ false) it subject;
                }
          ]
    ]
