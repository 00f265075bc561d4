-- ===== src/Streams/Config.antt =====
-- `normalizeConfig` of internal/streams/store.go and the policies' normalizations.
pub mod Normal
use Prim.Native.Char.{code}
use Prim.Native.String as S
use neo_transcoder.Base.{
  ℕ, ℤ, String, Bool, true, false, not, ◌&&◌, ◌||◌, Option, none, some, List, Checked, ok, err,
  ◌>>=◌, ◌>>◌, refuse_if, [], ◌∷◌, pos, leb, ltb_ℤ, is_ℕ, ◌==◌, nat_eq, string_eq, if◌then◌else◌,
  Table,
}
use neo_transcoder.Streams.Models.{Config, RestartPolicy, WatchdogPolicy}

pub data ConfigError : Type 0 where
  id_required input_url_required output_url_required bad_source_type bad_log_retention : ConfigError
  bad_log_level bad_max_attempts bad_window_seconds bad_backoff_seconds : ConfigError
  bad_progress_timeout bad_max_memory bad_memory_grace : ConfigError
  reserved_option bad_option_name : String → ConfigError

abbrev pub default_text : String → String → String
default_text value default = if value == "" then default else value

abbrev pub default_number : ℤ → ℤ → ℤ
default_number value default = if is_ℕ value 0 then default else value

abbrev pub default_log_retention_seconds : ℤ
default_log_retention_seconds = pos 60

abbrev pub default_restart_policy : RestartPolicy
default_restart_policy = record {
  enabled = true;
  max_attempts = pos 5;
  window_seconds = pos 300;
  backoff_seconds = pos 5;
}

unfoldable pub normalize_restart_policy : Option RestartPolicy → Checked ConfigError RestartPolicy
normalize_restart_policy none = ok default_restart_policy
normalize_restart_policy (some policy) =
    let normalized : RestartPolicy = record {
      enabled = true;
      max_attempts = default_number policy.max_attempts (pos 5);
      window_seconds = default_number policy.window_seconds (pos 300);
      backoff_seconds = default_number policy.backoff_seconds (pos 5);
    } in
    if not policy.enabled then ok policy else do
      refuse_if (ltb_ℤ normalized.max_attempts (pos 1)) bad_max_attempts
      refuse_if (ltb_ℤ normalized.window_seconds (pos 1)) bad_window_seconds
      refuse_if (ltb_ℤ normalized.backoff_seconds (pos 1)) bad_backoff_seconds
      ok normalized

abbrev pub default_watchdog_policy : WatchdogPolicy
default_watchdog_policy = record {
  enabled = true;
  progress_timeout_seconds = pos 120;
  max_memory_bytes = pos 0;
  memory_grace_seconds = pos 30;
}

unfoldable pub normalize_watchdog_policy :
    Option WatchdogPolicy → Checked ConfigError WatchdogPolicy
normalize_watchdog_policy none = ok default_watchdog_policy
normalize_watchdog_policy (some policy) =
    let normalized : WatchdogPolicy = record {
      enabled = true;
      progress_timeout_seconds = default_number policy.progress_timeout_seconds (pos 120);
      max_memory_bytes = policy.max_memory_bytes;
      memory_grace_seconds = default_number policy.memory_grace_seconds (pos 30);
    } in
    if not policy.enabled then ok policy else do
      refuse_if (ltb_ℤ normalized.progress_timeout_seconds (pos 1)) bad_progress_timeout
      refuse_if (ltb_ℤ normalized.max_memory_bytes (pos 0)) bad_max_memory
      refuse_if (ltb_ℤ normalized.memory_grace_seconds (pos 1)) bad_memory_grace
      ok normalized

-- The classes of `^[A-Za-z_][A-Za-z0-9_]*$`
is_name_start : ℕ → Bool
is_name_start c = (leb b'A' c && leb c b'Z') || (leb b'a' c && leb c b'z') || c == b'_'

is_name_rest : ℕ → Bool
unfolding is_name_start
is_name_rest c = is_name_start c || (leb b'0' c && leb c b'9')

all_name_rest : String → Bool
unfolding is_name_rest
all_name_rest S.[] = true
all_name_rest (S.◌∷◌ c s) = is_name_rest (code c) && all_name_rest s

-- optionNamePattern.MatchString
unfoldable pub is_option_name : String → Bool
unfolding is_name_start all_name_rest
is_option_name S.[] = false
is_option_name (S.◌∷◌ c s) = is_name_start (code c) && all_name_rest s

-- The loop of `validateOptions`, in the map's order
unfoldable pub validate_options : Table String String → Checked ConfigError (Unit {0})
validate_options [] = ok tt
validate_options ((name, value) ∷ options) = do
  refuse_if (name == "i" || name == "o") (reserved_option name)
  refuse_if (not (is_option_name name)) (bad_option_name name)
  validate_options options

unfoldable pub is_log_level : String → Bool
is_log_level level = level == "" || level == "info" || level == "warning" || level == "error"

-- The texts and numbers that an empty or zero field stands for.
unfoldable pub fill_defaults : Config → Config
fill_defaults cfg = record cfg {
  name = default_text cfg.name cfg.id;
  source_type = default_text cfg.source_type "multicast";
  profile_name = default_text cfg.profile_name "h264_veryfast_4m";
  log_retention_seconds = default_number cfg.log_retention_seconds default_log_retention_seconds;
}

-- The checks on the texts and numbers, in the source's order.
unfoldable pub check_fields : Config → Checked ConfigError (Unit {0})
unfolding is_log_level
check_fields cfg = do
  refuse_if (cfg.id == "") id_required
  refuse_if (cfg.input_url == "") input_url_required
  refuse_if (cfg.output_url == "") output_url_required
  refuse_if (not (cfg.source_type == "multicast") && not (cfg.source_type == "file"))
      bad_source_type
  refuse_if (ltb_ℤ cfg.log_retention_seconds (pos 0)) bad_log_retention
  refuse_if (not (is_log_level cfg.log_level)) bad_log_level

unfoldable pub normalize_config : Config → Checked ConfigError Config
normalize_config given = do
  let cfg = fill_defaults given
  check_fields cfg
  validate_options cfg.options
  restart ← normalize_restart_policy cfg.restart
  watchdog ← normalize_watchdog_policy cfg.watchdog
  ok (record cfg { restart = some restart; watchdog = some watchdog })
