-- ===== src/Worker/StreamId.antt =====
-- internal/srtworker/streamid.go: the client ID in an SRT Stream ID, with net/url's QueryUnescape.
use neo_transcoder.Base.{
  ℕ, ◌+◌, ◌-◌, ◌*◌, ◌&&◌, Option, none, some, List, [], ◌∷◌, Bytes, bytes, leb, ◌==◌, nat_eq,
  bytes_eq, if◌then◌else◌, trim_space, has_prefix, drop_prefix, split, cut, bytes_beq, ◌≡◌, refl,
}

pub data StreamIdError : Type 0 where
  stream_id_required invalid_client_id client_id_missing : StreamIdError

pub data ClientId : Type 0 where
  client : Bytes → ClientId
  refused : StreamIdError → ClientId

unfoldable pub unhex : ℕ → Option ℕ
unhex c =
    if leb b'0' c && leb c b'9'
    then some (c - b'0')
    else if leb b'a' c && leb c b'f'
    then some (c - b'a' + 10)
    else if leb b'A' c && leb c b'F'
    then some (c - b'A' + 10)
    else none

escaped_byte : Option ℕ → Option ℕ → Option ℕ
escaped_byte (some h) (some l) = some (h * 16 + l)
escaped_byte _ _ = none

put_byte : Option ℕ → Option Bytes → Option Bytes
put_byte (some c) (some s) = some (c ∷ s)
put_byte _ _ = none

-- url.QueryUnescape: `%XY` is a byte, `+` is a space; none is its error.
unfoldable pub query_unescape : Bytes → Option Bytes
unfolding unhex escaped_byte put_byte
query_unescape [] = some []
query_unescape (c ∷ []) = if c == b'%' then none else some ((if c == b'+' then b' ' else c) ∷ [])
query_unescape (c ∷ h ∷ []) =
    let plain = put_byte (some (if c == b'+' then b' ' else c)) (query_unescape (h ∷ [])) in
    if c == b'%' then none else plain
query_unescape (c ∷ h ∷ l ∷ s) =
    let escaped = put_byte (escaped_byte (unhex h) (unhex l)) (query_unescape s) in
    let plain = put_byte (some (if c == b'+' then b' ' else c)) (query_unescape (h ∷ l ∷ s)) in
    if c == b'%' then escaped else plain

abbrev pub stream_id_prefix : Bytes
stream_id_prefix = bytes "#!::"

decoded_client : Option Bytes → ClientId
decoded_client none = refused invalid_client_id
decoded_client (some []) = refused invalid_client_id
decoded_client (some (c ∷ s)) = client (c ∷ s)

-- What the loop does with a field: none goes on with the next one.
client_of_field : Option (Bytes × Bytes) → Option ClientId
unfolding decoded_client
client_of_field none = none
client_of_field (some (key, value)) =
    if key == b'u' ∷ [] then some (decoded_client (query_unescape value)) else none

unfoldable pub client_of_fields : List Bytes → ClientId
unfolding client_of_field
client_of_fields [] = refused client_id_missing
client_of_fields (field ∷ fields) =
    let rest = client_of_fields fields in
    elim (client_of_field (cut b'=' field)) [ none ↦ rest | some found ↦ found ]

unfoldable pub client_id_from_stream_id : Bytes → ClientId
client_id_from_stream_id raw =
    let stream_id = trim_space raw in
    if stream_id == []
    then refused stream_id_required
    else if has_prefix stream_id stream_id_prefix
    then client_of_fields (split b',' (drop_prefix stream_id stream_id_prefix))
    else client stream_id

bare_id : client_id_from_stream_id (bytes " rx-1 ") ≡ client (bytes "rx-1")
unfolding client_id_from_stream_id trim_space has_prefix bytes bytes_beq
bare_id = refl

tagged_id : client_id_from_stream_id (bytes "#!::r=live,u=rx%2D1") ≡ client (bytes "rx-1")
unfolding client_id_from_stream_id client_of_fields query_unescape trim_space has_prefix drop_prefix
    split cut bytes bytes_beq
tagged_id = refl
