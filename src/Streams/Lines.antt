-- ===== src/Streams/Lines.antt =====
-- What internal/streams reads from ffmpeg's output: `scanCRLF` of jobs.go, and the classification of
-- log lines in errors.go.
pub mod Tokens
use neo_transcoder.Base.{
  ℕ, zero, suc, ◌+◌, Bool, true, false, not, ◌&&◌, ◌||◌, Option, none, some, List, [], ◌∷◌, ◌++◌,
  Bytes, bytes, has_prefix, contains_text, to_lower, trim_space, ltb, ◌==◌, nat_eq, bytes_eq,
  if◌then◌else◌, length, drop, take, any,
}
use neo_transcoder.Streams.Models.{
  ErrorCode, no_code, permission_error, bind_error, network_error, codec_error, input_error,
  output_error, unknown_error, packet_loss, Level, info, warn, error_level,
}

unfoldable pub is_break : ℕ → Bool
is_break c = c == b'\r' || c == b'\n'

-- What stands before the first `\r` or `\n`, and what stands from it on.
unfoldable pub before_break : Bytes → Bytes × Bytes
unfolding is_break
before_break [] = ([], [])
before_break (c ∷ s) =
    let (line, rest) = before_break s in if is_break c then ([], c ∷ s) else (c ∷ line, rest)

-- How many bytes the line break at the head has.
unfoldable pub break_width : Bytes → ℕ
break_width [] = 0
break_width (c ∷ []) = 1
break_width (c ∷ d ∷ s) = if c == b'\r' && d == b'\n' then 2 else 1

-- scanCRLF: how far to advance, and the token, if there is one.
unfoldable pub scan_crlf : Bytes → Bool → ℕ × Option Bytes
unfolding break_width
scan_crlf input at_eof =
    let (line, rest) = before_break input in
    if at_eof && length input == 0
    then (0, none)
    else if not (length rest == 0)
    then (length line + break_width rest, some line)
    else if at_eof
    then (length input, some input)
    else (0, none)

-- The scanner over a complete input: the tokens that `scan_crlf` gives, on fuel.
unfoldable pub scan_all : ℕ → Bytes → List Bytes
scan_all zero input = []
scan_all (suc fuel) input =
    let (advance, token) = scan_crlf input true in
    let rest = scan_all fuel (drop advance input) in
    elim token [ none ↦ [] | some line ↦ line ∷ rest ]

unfoldable pub is_packet_loss_noise : Bytes → Bool
is_packet_loss_noise lower =
    contains_text lower (bytes "packet corrupt")
    || contains_text lower (bytes "corrupt input packet")
    || contains_text lower (bytes "timestamp discontinuity")
    || contains_text lower (bytes "error while decoding mb")
    || contains_text lower (bytes "corrupt decoded frame")
    || contains_text lower (bytes "non-existing pps")
    || contains_text lower (bytes "non-existing sps")
    || contains_text lower (bytes "decode_slice_header error")
    || contains_text lower (bytes "no frame!")
    || contains_text lower (bytes "co located pocs unavailable")

unfoldable pub is_ffmpeg_stats_line : Bytes → Bool
is_ffmpeg_stats_line line =
    let trimmed = trim_space line in
    (has_prefix trimmed (bytes "frame=") || has_prefix trimmed (bytes "size="))
    && contains_text trimmed (bytes "bitrate=")

-- `strings.Contains` for one of several patterns
mentions : Bytes → List Bytes → Bool
mentions lower patterns = any (contains_text lower) patterns

unfoldable pub classify_error : Bytes → ErrorCode
unfolding mentions
classify_error message =
    let lower = to_lower message in
    if lower == []
    then no_code
    else if mentions lower (bytes "permission denied" ∷ bytes "operation not permitted" ∷ [])
    then permission_error
    else if mentions lower (bytes "address already in use" ∷ bytes "bind failed" ∷ [])
    then bind_error
    else if mentions lower (
        bytes "no route to host"
        ∷ bytes "network is unreachable"
        ∷ bytes "connection refused"
        ∷ bytes "connection timed out"
        ∷ [])
    then network_error
    else if mentions lower (
        bytes "invalid data found"
        ∷ bytes "could not find codec"
        ∷ bytes "unknown decoder"
        ∷ bytes "unknown encoder"
        ∷ bytes "error while decoding"
        ∷ bytes "error while encoding"
        ∷ [])
    then codec_error
    else if mentions lower (
        bytes "error opening input"
        ∷ bytes "no such file or directory"
        ∷ bytes "input/output error"
        ∷ [])
    then input_error
    else if mentions lower
        (bytes "error opening output" ∷ bytes "muxer" ∷ bytes "could not write" ∷ [])
    then output_error
    else unknown_error

-- The level words of the pattern `\[(panic|…|trace)\]\s*`, with the level that each one stands for.
abbrev pub level_tags : List (Bytes × Level)
level_tags =
    (bytes "[panic]", error_level)
    ∷ (bytes "[fatal]", error_level)
    ∷ (bytes "[error]", error_level)
    ∷ (bytes "[warning]", warn)
    ∷ (bytes "[info]", info)
    ∷ (bytes "[verbose]", info)
    ∷ (bytes "[debug]", info)
    ∷ (bytes "[trace]", info)
    ∷ []

-- The tag at the head of a text, if one stands there: its level, and the text behind it.
tag_at : List (Bytes × Level) → Bytes → Option (Level × Bytes)
tag_at [] s = none
tag_at ((tag, level) ∷ tags) s =
    let rest = tag_at tags s in if has_prefix s tag then some (level, drop (length tag) s) else rest

-- `\s*` of a regular expression: tab, newline, form feed, carriage return, space
drop_spaces : Bytes → Bytes
drop_spaces [] = []
drop_spaces (c ∷ s) =
    if c == b' ' || c == 9 || c == 10 || c == 12 || c == 13 then drop_spaces s else c ∷ s

-- The first tag of a line: its level, and the line without it.
unfoldable pub find_tag : Bytes → Option (Level × Bytes)
unfolding tag_at drop_spaces
find_tag [] = none
find_tag (c ∷ s) =
    let later : Option (Level × Bytes) = elim (find_tag s) [
      | none ↦ none
      | some (level, message) ↦ some (level, c ∷ message)
    ] in
    elim (tag_at level_tags (c ∷ s)) [
      | none ↦ later
      | some (level, behind) ↦ some (level, drop_spaces behind)
    ]

unfoldable pub parse_ffmpeg_level : Bytes → Level × Bytes
parse_ffmpeg_level line = elim (find_tag line) [ none ↦ (info, line) | some found ↦ found ]

-- `code` of `captureStderr`: only warnings and errors are classified.
logged_code : Level → Bytes → ErrorCode
logged_code info message = no_code
logged_code warn message = classify_error message
logged_code error_level message = classify_error message

-- Whether the code makes the line an error: `code != "" && code != ErrorUnknown`
unfoldable pub is_escalated : ErrorCode → Bool
is_escalated no_code = false
is_escalated unknown_error = false
is_escalated _ = true

-- The body of the loop of `captureStderr` for one line: none for a line that is not logged; else the
-- level, the code and the message of the entry. Where `is_escalated` holds of a code that is not
-- packet loss, the loop also writes code and message into the stream's state.
unfoldable pub log_of_line : Bytes → Option (Level × ErrorCode × Bytes)
unfolding logged_code is_escalated
log_of_line line =
    let (level, message) = parse_ffmpeg_level line in
    let code = logged_code level message in
    if is_ffmpeg_stats_line line
    then none
    else if is_packet_loss_noise (to_lower message)
    then some (warn, packet_loss, message)
    else some ((if is_escalated code then error_level else level), code, message)
