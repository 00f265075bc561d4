-- ===== src/Auth/Base64.antt =====
-- base64.RawURLEncoding, which internal/auth writes salts, keys, payloads and signatures with.
-- The decoder skips line breaks, and, as it is not strict, the bits that are left over.
pub mod RoundTrip
use neo_transcoder.Base.{
  ℕ, zero, suc, ◌+◌, ◌-◌, ◌*◌, ◌/◌, ◌%◌, ◌≤◌, ◌<◌, ◌≡◌, refl, ap, ◌∙◌, Bool, true, false, not, ◌&&◌,
  ◌||◌, Option, none, some, List, [], ◌∷◌, Bytes, arith, ltb, leb, ◌==◌, nat_eq, if◌then◌else◌, All,
  map, keep, length,
}

-- The bytes' bits in groups of six, the last one filled up with zeros.
unfoldable pub sextets : Bytes → List ℕ
sextets [] = []
sextets (a ∷ []) = (a / 4) ∷ (a % 4 * 16) ∷ []
sextets (a ∷ b ∷ []) = (a / 4) ∷ (a % 4 * 16 + b / 16) ∷ (b % 16 * 4) ∷ []
sextets (a ∷ b ∷ c ∷ s) =
    (a / 4) ∷ (a % 4 * 16 + b / 16) ∷ (b % 16 * 4 + c / 64) ∷ (c % 64) ∷ sextets s

unfoldable pub sextet_char : ℕ → ℕ
sextet_char v =
    if ltb v 26
    then b'A' + v
    else if ltb v 52
    then b'a' + (v - 26)
    else if ltb v 62
    then b'0' + (v - 52)
    else if v == 62
    then b'-'
    else b'_'

-- EncodeToString
unfoldable pub encode : Bytes → Bytes
encode s = map sextet_char (sextets s)

unfoldable pub char_sextet : ℕ → Option ℕ
char_sextet c =
    if leb b'A' c && leb c b'Z'
    then some (c - b'A')
    else if leb b'a' c && leb c b'z'
    then some (c - b'a' + 26)
    else if leb b'0' c && leb c b'9'
    then some (c - b'0' + 52)
    else if c == b'-'
    then some 62
    else if c == b'_'
    then some 63
    else none

unfoldable pub read_sextets : Bytes → Option (List ℕ)
read_sextets [] = some []
read_sextets (c ∷ s) = elim (char_sextet c) [
  | none ↦ none
  | some v ↦ elim (read_sextets s) [ none ↦ none | some vs ↦ some (v ∷ vs) ]
]

unfoldable pub join_sextets : List ℕ → Option Bytes
join_sextets [] = some []
join_sextets (x ∷ []) = none
join_sextets (x ∷ y ∷ []) = some ((x * 4 + y / 16) ∷ [])
join_sextets (x ∷ y ∷ z ∷ []) = some ((x * 4 + y / 16) ∷ (y % 16 * 16 + z / 4) ∷ [])
join_sextets (x ∷ y ∷ z ∷ w ∷ vs) = elim (join_sextets vs) [
  | none ↦ none
  | some s ↦ some ((x * 4 + y / 16) ∷ (y % 16 * 16 + z / 4) ∷ (z % 4 * 64 + w) ∷ s)
]

-- DecodeString
unfoldable pub decode : Bytes → Option Bytes
decode s = elim (read_sextets (keep (λ c. not (c == 10 || c == 13)) s)) [
  | none ↦ none
  | some vs ↦ join_sextets vs
]

abbrev pub IsBytes : Bytes → Type 0
IsBytes s = All (λ b. b < 256) s

sextet_char_lem :
    (v : ℕ)
    → v < 64
    → (char_sextet (sextet_char v) ≡ some v)
      × ((sextet_char v == 10 || sextet_char v == 13) ≡ false)
      × ((sextet_char v == b'.') ≡ false)
      × ((sextet_char v == b'$') ≡ false)
unfolding char_sextet sextet_char
sextet_char_lem v h = ground arith
