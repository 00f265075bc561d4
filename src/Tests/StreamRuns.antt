-- ===== src/Tests/StreamRuns.antt =====
-- A stream's configuration, its log and the lines that its ffmpeg process writes.
use neo_transcoder.Base.{
  ℕ, String, ◌*◌, ◌≡◌, ◌≢◌, refl, true, false, none, some, ok, List, [], ◌∷◌, Bytes, bytes, reverse,
  arith, eq_iff, pos, keep, take, All, Table, leb_ℤ, ltb_ℤ, to_ℕ, ◌||◌, if◌then◌else◌, ◌==◌,
  string_eq,
}
use neo_transcoder.Streams.Models.{Config, LogEntry, second, info, no_code}
use neo_transcoder.Streams.Config.{
  normalize_config, default_restart_policy, default_watchdog_policy, is_log_level, is_option_name,
  normalize_restart_policy, normalize_watchdog_policy, validate_options, fill_defaults,
  check_fields,
}
use neo_transcoder.Streams.Config.Normal.{
  IsNormal, normalize_config-IsNormal, normalize_config_idem,
}
use neo_transcoder.Streams.Logs.{max_logs_per_stream, prune_logs, logs_page, clear_logs, is_shown}
use neo_transcoder.Streams.Logs.Retained.{
  is_of, is_live, stream-prune_logs, logs_page-newest, clear_logs-others,
}
use neo_transcoder.Streams.Lines.{scan_all}
use neo_transcoder.Streams.Lines.Tokens.{IsLine, not_break, joined, scan_all-lines}

-- What a request gives: a name of an input, an output and no more.
abbrev given : Config
given = record {
  id = "news";
  name = "";
  input_url = "udp://239.0.0.1:5000";
  output_url = "udp://239.0.1.1:5000";
  source_type = "";
  profile_name = "";
  video_map = "";
  audio_map = "";
  audio_maps = [];
  disable_audio = false;
  logo = record { enabled = false; path = ""; x = pos 0; y = pos 0 };
  options = ("vcodec", "libx264") ∷ [];
  log_retention_seconds = pos 0;
  log_level = "";
  keep_stats = false;
  enabled = true;
  restart = none;
  watchdog = none;
}

abbrev pub filled : Config
filled = record given {
  name = "news";
  source_type = "multicast";
  profile_name = "h264_veryfast_4m";
  log_retention_seconds = pos 60;
  restart = some default_restart_policy;
  watchdog = some default_watchdog_policy;
}

normalize_given : normalize_config given ≡ ok filled
unfolding normalize_config fill_defaults check_fields is_log_level validate_options is_option_name
    normalize_restart_policy normalize_watchdog_policy
normalize_given = refl

normalize_config-IsNormal_example : IsNormal filled
normalize_config-IsNormal_example = normalize_config-IsNormal given filled normalize_given

normalize_config_idem_example : normalize_config filled ≡ ok filled
normalize_config_idem_example = normalize_config_idem given filled normalize_given

abbrev entry : String → ℕ → LogEntry
entry id seconds = record {
  stream_id = id;
  time = seconds * second;
  level = info;
  code = no_code;
  message = bytes "opened";
}

-- The log of two streams.
abbrev two_logs : List LogEntry
two_logs = entry "news" 10 ∷ entry "film" 60 ∷ entry "news" 90 ∷ []

abbrev streams : Table String Config
streams = ("news", filled) ∷ []

news_named : ◌≢◌ {A = String} "news" ""
news_named = ground (arith, eq_iff "news" "")

stream-prune_logs_example :
    keep (is_of "news") (prune_logs streams (100 * second) two_logs)
    ≡ reverse
        (take max_logs_per_stream (keep (is_live streams (100 * second) "news") (reverse two_logs)))
stream-prune_logs_example = stream-prune_logs streams (100 * second) "news" news_named two_logs

logs_page-newest_example :
    logs_page "news" (pos 1) two_logs
    ≡ reverse (
        take
          (if leb_ℤ (pos 1) (pos 0) || ltb_ℤ (pos 500) (pos 1) then 200 else to_ℕ (pos 1))
          (keep (is_shown "news") (reverse two_logs)))
logs_page-newest_example = logs_page-newest "news" (pos 1) two_logs

clear_logs-others_example :
    keep (is_of "film") (clear_logs "news" two_logs)
    ≡ (if ◌==◌ {T = String} "news" "film" then [] else keep (is_of "film") two_logs)
clear_logs-others_example = clear_logs-others "news" "film" two_logs news_named

abbrev output : Bytes
output = bytes "a\r\nb\rc"

scan_all-lines_example :
    All IsLine (scan_all 8 output) × (joined (scan_all 8 output) ≡ keep not_break output)
scan_all-lines_example = scan_all-lines 8 output (unfold bytes in omega arith)
