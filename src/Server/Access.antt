-- ===== src/Server/Access.antt =====
-- Who is let through.
use neo_transcoder.Base.{
  ◌≡◌, refl, ap, ◌∙◌, inl, inr, true, false, Option, some, List, [], ◌∷◌, All, has_prefix, Bytes,
  bytes, arith, ◌==◌, bytes_eq, lookup, ok, Bool-cases, Option-cases, Checked-cases,
}
use mathlib.Core.Path.{subst}
use neo_transcoder.Auth.{Time, User, Claims, Crypto, verify_token}
use neo_transcoder.Auth.Tokens.{IsGranted, verify_token-IsGranted}
use neo_transcoder.Streams.Store.{Store}
use neo_transcoder.Streams.Store.Users.{is_same_version, verify_token_claims}
use neo_transcoder.Server.{Request, token_of, user_from_request, is_open, authorized}

-- What a request has shown that is let through as a user's.
pub record IsKnown (crypto : Crypto) (r : Request) (kind : Bytes) (now : Time) (s : Store)
    (user : User) : Type 0 where
  pub claims : Claims
  pub granted : IsGranted crypto s.auth_secret (token_of r) kind now claims
  pub found : lookup claims.subject s.users ≡ some user
  pub current : is_same_version user.token_version claims.token_version ≡ true

verify_token_claims-found :
    (claims : Claims) (s : Store) (user : User)
    → verify_token_claims claims s ≡ some user
    → (lookup claims.subject s.users ≡ some user)
      × (is_same_version user.token_version claims.token_version ≡ true)
unfolding verify_token_claims
verify_token_claims-found claims s user h = elim (Option-cases (lookup claims.subject s.users)) [
  | inl missing ↦ absurd (ground (arith, missing))
  | inr (u, found) ↦
      let valid : is_same_version u.token_version claims.token_version ≡ true =
        ground (arith, found) in
      let it : u ≡ user = ground (arith, found, valid) in
      (
        found ∙ ap some it,
        subst (λ x. is_same_version x.token_version claims.token_version ≡ true) it valid,
      )
]

user_from_request-IsKnown :
    (crypto : Crypto) (r : Request) (kind : Bytes) (now : Time) (s : Store) (user : User)
    → user_from_request crypto r kind now s ≡ ok user
    → IsKnown crypto r kind now s user
unfolding user_from_request
user_from_request-IsKnown crypto r kind now s user h = elim (Bool-cases (token_of r == [])) [
  | inl missing ↦ absurd (ground (arith, missing))
  | inr given ↦ elim (Checked-cases (verify_token crypto s.auth_secret (token_of r) kind now)) [
    | inl (e, refused) ↦ absurd (ground (arith, given, refused))
    | inr (claims, verified) ↦ elim (Option-cases (verify_token_claims claims s)) [
      | inl revoked ↦ absurd (ground (arith, given, verified, revoked))
      | inr (u, accepted) ↦
          let it : u ≡ user = ground (arith, given, verified, accepted) in
          let (found, current) = verify_token_claims-found claims s user (accepted ∙ ap some it) in
          record {
            claims = claims;
            granted =
                verify_token-IsGranted crypto s.auth_secret (token_of r) kind now claims verified;
            found = found;
            current = current;
          }
    ]
  ]
]

-- The paths of the API that need no user.
abbrev public_paths : List Bytes
public_paths =
    bytes "/api/health"
    ∷ bytes "/api/auth/required"
    ∷ bytes "/api/auth/login"
    ∷ bytes "/api/auth/refresh"
    ∷ []

abbrev pub IsProtected : Bytes → Type 0
IsProtected path =
    (has_prefix path (bytes "/api/") ≡ true) × All (λ p. (path == p) ≡ false) public_paths

IsProtected-is_open : (path : Bytes) → IsProtected path → is_open path ≡ false
unfolding is_open
IsProtected-is_open path (api, (health, (required, (login, (refresh, _))))) =
    rw (health, required, login, refresh, api) refl

-- A request to a path of the API other than the four open ones is let through only as a user's: it carries
-- an access token that is signed with the store's secret and not expired, whose subject is a user of the
-- store at this moment, with the token version that this user has now.
pub authorized-IsKnown :
    (crypto : Crypto) (r : Request) (now : Time) (s : Store) (let_through : Option User)
    → IsProtected r.path
    → authorized crypto r now s ≡ ok let_through
    → (user : User) × (let_through ≡ some user) × IsKnown crypto r (bytes "access") now s user
unfolding authorized
authorized-IsKnown crypto r now s let_through protected h =
    let closed = IsProtected-is_open r.path protected in
    elim (Checked-cases (user_from_request crypto r (bytes "access") now s)) [
      | inl (e, refused) ↦ absurd (ground (arith, closed, refused))
      | inr (user, known) ↦ (
        user,
        ground (arith, closed, known),
        user_from_request-IsKnown crypto r (bytes "access") now s user known,
      )
    ]
