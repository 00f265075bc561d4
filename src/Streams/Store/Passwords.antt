-- ===== src/Streams/Store/Passwords.antt =====
-- What a new password does: the tokens from before are refused, and the password is accepted.
use neo_transcoder.Base.{
  zero, suc, ◌≡◌, refl, ap, ◌∙◌, inl, inr, ℤ, pos, negsuc, wrap_i64, Bool, true, false, not, ◌&&◌,
  Option, none, some, Bytes, arith, nat_eq, bytes_eq, bytes_beq_iff, lookup, insert, lookup-insert,
  ok, Bool-cases, Option-cases, Checked-cases, length,
}
use neo_transcoder.Auth.{
  User, PublicUser, Claims, Crypto, Time, hash_password, verify_password, validate_password,
  iterations, key_length,
}
use neo_transcoder.Auth.Base64.{IsBytes}
use neo_transcoder.Auth.Pbkdf2.{hash_length, pbkdf2_key}
use neo_transcoder.Auth.Passwords.{verify_password-hash_password}
use neo_transcoder.Streams.Store.{Store}
use neo_transcoder.Streams.Store.Users.{
  authenticate, is_same_version, verify_token_claims, next_token_version, with_password,
  change_known, change_password,
}

-- What a successful change of a password has found and written.
pub record IsChanged (crypto : Crypto) (salt : Option Bytes) (username password : Bytes)
    (now : Time) (s t : Store) : Type 0 where
  pub user : User
  pub hash : Bytes
  pub found : lookup username s.users ≡ some user
  pub hashed : hash_password crypto salt password ≡ ok hash
  pub users : t.users ≡ insert username (with_password hash now user) s.users
  pub secret : t.auth_secret ≡ s.auth_secret

pub change_password-IsChanged :
    (crypto : Crypto) (salt : Option Bytes) (username current password : Bytes)
    (require_current : Bool) (now : Time) (saved : Bool) (s t : Store) (public_user : PublicUser)
    → change_password crypto salt username current password require_current now saved s
      ≡ (t, ok public_user)
    → IsChanged crypto salt username password now s t
unfolding change_password change_known
change_password-IsChanged crypto salt username current password require_current now saved s t
      public_user e =
    elim (Checked-cases (validate_password password)) [
      | inl (r, refused) ↦ absurd (ground (arith, refused))
      | inr (_, valid) ↦ elim (Option-cases (lookup username s.users)) [
        | inl missing ↦ absurd (ground (arith, valid, missing))
        | inr (user, found) ↦
            elim (Bool-cases
              (require_current && not (verify_password crypto user.password_hash current))) [
                | inl wrong ↦ absurd (ground (arith, valid, found, wrong))
                | inr right ↦ elim (Checked-cases (hash_password crypto salt password)) [
                  | inl (r, refused) ↦ absurd (ground (arith, valid, found, right, refused))
                  | inr (hash, hashed) ↦ record {
                    user = user;
                    hash = hash;
                    found = found;
                    hashed = hashed;
                    users = ground (arith, valid, found, right, hashed);
                    secret = ground (arith, valid, found, right, hashed);
                  }
                ]
              ]
      ]
    ]

-- An int64 and the next one differ, at the bound too.
next_token_version-other :
    (v w : ℤ) → is_same_version v w ≡ true → is_same_version (next_token_version v) w ≡ false
unfolding next_token_version wrap_i64 is_same_version
next_token_version-other (pos m) (pos n) h = ground arith
next_token_version-other (pos m) (negsuc n) h = ground arith
next_token_version-other (negsuc m) (pos n) h = ground arith
next_token_version-other (negsuc zero) (negsuc n) h = ground arith
next_token_version-other (negsuc (suc m)) (negsuc n) h = ground arith

verify_password_self :
    (crypto : Crypto) (salt password hash : Bytes)
    → IsBytes salt
    → ((m : Bytes) → length (crypto.hmac password m) ≡ hash_length)
    → ((m : Bytes) → IsBytes (crypto.hmac password m))
    → hash_password crypto (some salt) password ≡ ok hash
    → verify_password crypto hash password ≡ true
verify_password_self crypto salt password hash salted sized bounded made =
    let key = pbkdf2_key (crypto.hmac password) salt iterations key_length in
    verify_password-hash_password crypto salt password password hash salted sized bounded made
    ∙ (bytes_beq_iff key key).1 refl

lookup-changed :
    (crypto : Crypto) (salt : Option Bytes) (username password : Bytes) (now : Time) (s t : Store)
    → (c : IsChanged crypto salt username password now s t)
    → lookup username t.users ≡ some (with_password c.hash now c.user)
lookup-changed crypto salt username password now s t c =
    ap (λ users. lookup username users) c.users
    ∙ ground (
      arith,
      lookup-insert username username (with_password c.hash now c.user) s.users,
      bytes_beq_iff username username,
    )

-- Claims that were accepted before a user's password was changed are refused after it.
pub change_password-refuses :
    (crypto : Crypto) (salt : Option Bytes) (username current password : Bytes)
    (require_current : Bool) (now : Time) (saved : Bool) (s t : Store) (public_user : PublicUser)
    (claims : Claims) (before : User)
    → change_password crypto salt username current password require_current now saved s
      ≡ (t, ok public_user)
    → claims.subject ≡ username
    → verify_token_claims claims s ≡ some before
    → verify_token_claims claims t ≡ none
unfolding verify_token_claims
change_password-refuses crypto salt username current password require_current now saved s t
      public_user claims before e named accepted =
    let c =
      change_password-IsChanged crypto salt username current password require_current now saved s t
        public_user e in
    let known : lookup claims.subject s.users ≡ some c.user =
      ap (λ n. lookup n s.users) named ∙ c.found in
    let there : lookup claims.subject t.users ≡ some (with_password c.hash now c.user) =
      ap (λ n. lookup n t.users) named ∙ lookup-changed crypto salt username password now s t c in
    let valid : is_same_version c.user.token_version claims.token_version ≡ true =
      ground (arith, known) in
    rw
      (
        there,
        verify_token_claims,
        next_token_version-other c.user.token_version claims.token_version valid,
      )
      refl

-- After a user's password is changed, the user is authenticated with the new password, and every claims of
-- this user that VerifyTokenClaims accepted before are refused. HMAC under the password gives 32 bytes.
pub change_password-revokes :
    (crypto : Crypto) (salt username current password : Bytes) (require_current : Bool) (now : Time)
    (saved : Bool) (s t : Store) (public_user : PublicUser) (claims : Claims) (before : User)
    → IsBytes salt
    → ((m : Bytes) → length (crypto.hmac password m) ≡ hash_length)
    → ((m : Bytes) → IsBytes (crypto.hmac password m))
    → change_password crypto (some salt) username current password require_current now saved s
      ≡ (t, ok public_user)
    → claims.subject ≡ username
    → verify_token_claims claims s ≡ some before
    → (verify_token_claims claims t ≡ none)
      × ((after : User) × (authenticate crypto username password t ≡ some after)
          × (after.username ≡ before.username))
unfolding verify_token_claims authenticate
change_password-revokes crypto salt username current password require_current now saved s t
      public_user claims before salted sized bounded e named accepted =
    let c =
      change_password-IsChanged crypto (some salt) username current password require_current now
        saved s t public_user e in
    let there = lookup-changed crypto (some salt) username password now s t c in
    let known : lookup claims.subject s.users ≡ some c.user =
      ap (λ n. lookup n s.users) named ∙ c.found in
    let valid : is_same_version c.user.token_version claims.token_version ≡ true =
      ground (arith, known) in
    let it : c.user ≡ before = ground (arith, known, valid) in
    let self = verify_password_self crypto salt password c.hash salted sized bounded c.hashed in
    (
      change_password-refuses crypto (some salt) username current password require_current now saved
          s t public_user claims before e named accepted,
      (
        with_password c.hash now c.user,
        (rw (there, authenticate, self) refl),
        ap (λ u. u.username) it,
      ),
    )
