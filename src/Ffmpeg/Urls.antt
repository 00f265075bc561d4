-- ===== src/Ffmpeg/Urls.antt =====
-- The checks on the URLs of internal/ffmpeg/args.go and the parameters that are added to them. net/url
-- is the record Urls; url.Values is the list of a query's parameters.
pub mod Kept
use neo_transcoder.Base.{
  ℕ, ℤ, pos, Bool, true, false, not, ◌&&◌, ◌||◌, Option, none, some, List, [], ◌∷◌, Bytes, bytes,
  Table, lookup, insert, delete, ltb_ℤ, leb_ℤ, ◌==◌, bytes_eq, if◌then◌else◌, Checked, ok, err,
  ◌>>=◌, ◌>>◌, refuse_if,
}
use neo_transcoder.Ffmpeg.Models.{Stream, SystemConfig, itoa_ℤ}

abbrev pub Values : Type 0
Values = Table Bytes Bytes

pub record Urls : Type 1 where
  pub Url : Type 0
  -- url.Parse
  pub parse : Bytes → Option Url
  pub scheme : Url → Bytes
  pub host : Url → Bytes
  -- u.Query()
  pub query : Url → Values
  -- u.String(), and with u.RawQuery set to the encoded values
  pub text : Url → Bytes
  pub text_with : Url → Values → Bytes

pub data UrlError : Type 0 where
  is_required not_parsed bad_scheme no_host : UrlError

-- q.Get
unfoldable pub get_value : Bytes → Values → Bytes
get_value name q = elim (lookup name q) [ none ↦ [] | some value ↦ value ]

-- q.Set
unfoldable pub set_value : Bytes → Bytes → Values → Values
set_value name value q = insert name value (delete name q)

unfoldable pub check_url : (urls : Urls) → Option urls.Url → Checked UrlError (Unit {0})
check_url urls none = err not_parsed
check_url urls (some u) = do
  refuse_if (not (urls.scheme u == bytes "udp") && not (urls.scheme u == bytes "rtp")) bad_scheme
  refuse_if (urls.host u == []) no_host

-- validateURL
unfoldable pub validate_url : Urls → Bytes → Checked UrlError (Unit {0})
validate_url urls raw = do refuse_if (raw == []) is_required; check_url urls (urls.parse raw)

-- validateInput
unfoldable pub validate_input : Urls → Stream → Checked UrlError (Unit {0})
validate_input urls stream =
    if stream.input_url == []
    then err is_required
    else if stream.source_type == bytes "file"
    then ok tt
    else validate_url urls stream.input_url

-- The four `q.Set` of `augmentMulticastInputURL`
unfoldable pub tune_input : SystemConfig → Values → Values
tune_input sys q =
    let q1 =
      if sys.udp_overrun_nonfatal then set_value (bytes "overrun_nonfatal") (bytes "1") q else q in
    let q2 =
      if ltb_ℤ (pos 0) sys.udp_fifo_size
      then set_value (bytes "fifo_size") (itoa_ℤ sys.udp_fifo_size) q1
      else q1 in
    let q3 =
      if ltb_ℤ (pos 0) sys.udp_buffer_size
      then set_value (bytes "buffer_size") (itoa_ℤ sys.udp_buffer_size) q2
      else q2 in
    if sys.udp_reuse then set_value (bytes "reuse") (bytes "1") q3 else q3

unfoldable pub augment_parsed :
    (urls : Urls) → Bytes → SystemConfig → Option urls.Url → Checked UrlError Bytes
augment_parsed urls raw sys none = err not_parsed
augment_parsed urls raw sys (some u) =
    ok (
      if urls.scheme u == bytes "udp"
      then urls.text_with u (tune_input sys (urls.query u))
      else raw)

-- augmentMulticastInputURL
unfoldable pub augment_input_url : Urls → Bytes → Bytes → SystemConfig → Checked UrlError Bytes
unfolding augment_parsed
augment_input_url urls raw source_type sys =
    if source_type == bytes "file" then ok raw else augment_parsed urls raw sys (urls.parse raw)

unfoldable pub size_packets :
    (urls : Urls) → Bytes → SystemConfig → Option urls.Url → Checked UrlError Bytes
size_packets urls raw sys none = err not_parsed
size_packets urls raw sys (some u) =
    let q = urls.query u in
    ok (
      if not (urls.scheme u == bytes "udp")
      then raw
      else if get_value (bytes "pkt_size") q == []
      then urls.text_with u (set_value (bytes "pkt_size") (itoa_ℤ sys.pkt_size) q)
      else urls.text u)

-- augmentUDPOutputURL
unfoldable pub augment_output_url : Urls → Bytes → Bytes → SystemConfig → Checked UrlError Bytes
augment_output_url urls raw format sys =
    if not (format == bytes "mpegts") || leb_ℤ sys.pkt_size (pos 0)
    then ok raw
    else size_packets urls raw sys (urls.parse raw)
