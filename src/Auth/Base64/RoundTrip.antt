-- ===== src/Auth/Base64/RoundTrip.antt =====
-- What is encoded is decoded again, and holds no separator.
use neo_transcoder.Base.{
  ℕ, ◌+◌, ◌*◌, ◌/◌, ◌%◌, ◌<◌, ◌≡◌, refl, ap, ◌∙◌, not, ◌||◌, some, List, [], ◌∷◌, Bytes, arith,
  ◌==◌, nat_eq, All, map, keep, Lacks, bytes_eq, bytes_beq,
}
use neo_transcoder.Auth.Base64.{
  sextets, sextet_char, encode, read_sextets, join_sextets, decode, IsBytes, sextet_char_lem,
}

sextets-All : (s : Bytes) → IsBytes s → All (λ v. v < 64) (sextets s)
unfolding sextets
sextets-All [] h = tt
sextets-All (a ∷ []) (ha, _) = (omega arith, (omega arith, tt))
sextets-All (a ∷ b ∷ []) (ha, (hb, _)) = (omega arith, (omega arith, (omega arith, tt)))
sextets-All (a ∷ b ∷ c ∷ s) (ha, (hb, (hc, h))) =
    (omega arith, (omega arith, (omega arith, (omega arith, sextets-All s h))))

read_sextets-map :
    (vs : List ℕ)
    → All (λ v. v < 64) vs
    → read_sextets (keep (λ c. not (c == 10 || c == 13)) (map sextet_char vs)) ≡ some vs
unfolding read_sextets
read_sextets-map [] h = refl
read_sextets-map (v ∷ vs) (hv, h) =
    let (back, plain, _, _) = sextet_char_lem v hv in
    rw (plain, read_sextets, back, read_sextets-map vs h) refl

join_sextets-sextets : (s : Bytes) → IsBytes s → join_sextets (sextets s) ≡ some s
unfolding join_sextets sextets
join_sextets-sextets [] h = refl
join_sextets-sextets (a ∷ []) (ha, _) =
    let e : a / 4 * 4 + a % 4 * 16 / 16 ≡ a = omega arith in ap (λ x. some (x ∷ [])) e
join_sextets-sextets (a ∷ b ∷ []) (ha, (hb, _)) =
    let e : a / 4 * 4 + (a % 4 * 16 + b / 16) / 16 ≡ a = omega arith in
    let f : (a % 4 * 16 + b / 16) % 16 * 16 + b % 16 * 4 / 4 ≡ b = omega arith in
    ap (λ x. some (x ∷ ((a % 4 * 16 + b / 16) % 16 * 16 + b % 16 * 4 / 4) ∷ [])) e
    ∙ ap (λ y. some (a ∷ y ∷ [])) f
join_sextets-sextets (a ∷ b ∷ c ∷ s) (ha, (hb, (hc, h))) =
    let e : a / 4 * 4 + (a % 4 * 16 + b / 16) / 16 ≡ a = omega arith in
    let f : (a % 4 * 16 + b / 16) % 16 * 16 + (b % 16 * 4 + c / 64) / 4 ≡ b = omega arith in
    let g : (b % 16 * 4 + c / 64) % 4 * 64 + c % 64 ≡ c = omega arith in
    rw (join_sextets-sextets s h, e, f, g) refl

-- Every text of bytes is decoded from its encoding.
pub decode-encode : (s : Bytes) → IsBytes s → decode (encode s) ≡ some s
unfolding decode encode
decode-encode s h =
    rw (decode, encode, read_sextets-map (sextets s) (sextets-All s h)) (join_sextets-sextets s h)

map_sextets-Lacks :
    (vs : List ℕ)
    → All (λ v. v < 64) vs
    → Lacks b'.' (map sextet_char vs) × Lacks b'$' (map sextet_char vs)
map_sextets-Lacks [] h = (tt, tt)
map_sextets-Lacks (v ∷ vs) (hv, h) =
    let (_, _, no_dot, no_dollar) = sextet_char_lem v hv in
    let (dots, dollars) = map_sextets-Lacks vs h in ((no_dot, dots), (no_dollar, dollars))

-- The separators of tokens and of password hashes are no characters of an encoding.
pub encode-Lacks : (s : Bytes) → IsBytes s → Lacks b'.' (encode s) × Lacks b'$' (encode s)
unfolding encode
encode-Lacks s h = map_sextets-Lacks (sextets s) (sextets-All s h)

-- Only the empty text has an empty encoding.
pub encode-empty : (s : Bytes) → (encode s == []) ≡ (s == [])
unfolding encode sextets bytes_beq
encode-empty [] = refl
encode-empty (a ∷ []) = refl
encode-empty (a ∷ b ∷ []) = refl
encode-empty (a ∷ b ∷ c ∷ s) = refl
