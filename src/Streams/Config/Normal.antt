-- ===== src/Streams/Config/Normal.antt =====
-- What `normalizeConfig` promises of the configuration that it returns.
use neo_transcoder.Base.{
  not, ◌&&◌, ◌≡◌, ◌≢◌, ◌⊎◌, refl, sym, ap, ℤ, String, true, false, Option, none, some, arith,
  eq_iff, ok, >>=-eq-ok, pos, leb_ℤ, ltb_ℤ, ◌==◌, string_eq,
}
use mathlib.Core.Path.{subst}
use neo_transcoder.Streams.Models.{Config, RestartPolicy, WatchdogPolicy}
use neo_transcoder.Streams.Config.{
  normalize_restart_policy, normalize_watchdog_policy, validate_options, fill_defaults,
  check_fields, normalize_config, default_text, default_number,
}

-- An enabled policy has only positive numbers.
pub record IsRestart (p : RestartPolicy) : Type 0 where
  pub attempts : p.enabled ≡ true → leb_ℤ (pos 1) p.max_attempts ≡ true
  pub window : p.enabled ≡ true → leb_ℤ (pos 1) p.window_seconds ≡ true
  pub backoff : p.enabled ≡ true → leb_ℤ (pos 1) p.backoff_seconds ≡ true

pub record IsWatchdog (p : WatchdogPolicy) : Type 0 where
  pub timeout : p.enabled ≡ true → leb_ℤ (pos 1) p.progress_timeout_seconds ≡ true
  pub memory : p.enabled ≡ true → leb_ℤ (pos 0) p.max_memory_bytes ≡ true
  pub grace : p.enabled ≡ true → leb_ℤ (pos 1) p.memory_grace_seconds ≡ true

normalize_restart_policy-IsRestart :
    (p : Option RestartPolicy) (q : RestartPolicy) → normalize_restart_policy p ≡ ok q → IsRestart q
unfolding normalize_restart_policy
normalize_restart_policy-IsRestart none q h = ground arith
normalize_restart_policy-IsRestart (some p) q h = ground arith

restart_again :
    (p : Option RestartPolicy) (q : RestartPolicy)
    → normalize_restart_policy p ≡ ok q
    → normalize_restart_policy (some q) ≡ ok q
unfolding normalize_restart_policy
restart_again none q h = ground arith
restart_again (some p) q h = ground arith

normalize_watchdog_policy-IsWatchdog :
    (p : Option WatchdogPolicy) (q : WatchdogPolicy)
    → normalize_watchdog_policy p ≡ ok q
    → IsWatchdog q
unfolding normalize_watchdog_policy
normalize_watchdog_policy-IsWatchdog none q h = ground arith
normalize_watchdog_policy-IsWatchdog (some p) q h = ground arith

watchdog_again :
    (p : Option WatchdogPolicy) (q : WatchdogPolicy)
    → normalize_watchdog_policy p ≡ ok q
    → normalize_watchdog_policy (some q) ≡ ok q
unfolding normalize_watchdog_policy
watchdog_again none q h = ground arith
watchdog_again (some p) q h = ground arith

-- The field checks and the defaults.
pub record IsFilled (cfg : Config) : Type 0 where
  pub id : ◌≢◌ {A = String} cfg.id ""
  pub name : ◌≢◌ {A = String} cfg.name ""
  pub input_url : ◌≢◌ {A = String} cfg.input_url ""
  pub output_url : ◌≢◌ {A = String} cfg.output_url ""
  pub profile_name : ◌≢◌ {A = String} cfg.profile_name ""
  pub source_type : (cfg.source_type ≡ "multicast") ⊎ (cfg.source_type ≡ "file")
  pub retention : leb_ℤ (pos 1) cfg.log_retention_seconds ≡ true

-- A default is not empty, so a defaulted text is not.
default_text-ne :
    (value default : String)
    → ◌≢◌ {A = String} default ""
    → ◌≢◌ {A = String} (default_text value default) ""
default_text-ne value default h = ground (arith, eq_iff value "")

default_text_again :
    (value default : String)
    → default_text (default_text value default) default ≡ default_text value default
default_text_again value default = ground (arith, eq_iff value "", eq_iff default "")

multicast-ne : ◌≢◌ {A = String} "multicast" ""
multicast-ne = ground (arith, eq_iff "multicast" "")

profile-ne : ◌≢◌ {A = String} "h264_veryfast_4m" ""
profile-ne = ground (arith, eq_iff "h264_veryfast_4m" "")

default_number-pos :
    (n : ℤ)
    → ltb_ℤ (default_number n (pos 60)) (pos 0) ≡ false
    → leb_ℤ (pos 1) (default_number n (pos 60)) ≡ true
default_number-pos n h = ground arith

-- What the checks have established when they pass.
check_fields-inv :
    (cfg : Config)
    → check_fields cfg ≡ ok tt
    → ((cfg.id == "") ≡ false)
      × ((cfg.input_url == "") ≡ false)
      × ((cfg.output_url == "") ≡ false)
      × ((not (cfg.source_type == "multicast") && not (cfg.source_type == "file")) ≡ false)
      × (ltb_ℤ cfg.log_retention_seconds (pos 0) ≡ false)
unfolding check_fields
check_fields-inv cfg h = ground arith

text-ne : (s t : String) → (s == t) ≡ false → s ≢ t
text-ne s t h = ground (arith, eq_iff s t)

one_of : (s a b : String) → (not (s == a) && not (s == b)) ≡ false → (s ≡ a) ⊎ (s ≡ b)
one_of s a b h = ground (arith, eq_iff s a, eq_iff s b)

fill-IsFilled :
    (cfg : Config) → check_fields (fill_defaults cfg) ≡ ok tt → IsFilled (fill_defaults cfg)
unfolding fill_defaults
fill-IsFilled cfg h =
    let (id, input, output, source, retention) = check_fields-inv (fill_defaults cfg) h in
    record {
      id = text-ne cfg.id "" id;
      name = default_text-ne cfg.name cfg.id (text-ne cfg.id "" id);
      input_url = text-ne cfg.input_url "" input;
      output_url = text-ne cfg.output_url "" output;
      profile_name = default_text-ne cfg.profile_name "h264_veryfast_4m" profile-ne;
      source_type = one_of (default_text cfg.source_type "multicast") "multicast" "file" source;
      retention = default_number-pos cfg.log_retention_seconds retention;
    }

default_number_again : (n d : ℤ) → default_number (default_number n d) d ≡ default_number n d
default_number_again n d = ground arith

fill_again : (cfg : Config) → fill_defaults (fill_defaults cfg) ≡ fill_defaults cfg
unfolding fill_defaults
fill_again cfg = λ i. record cfg {
  name = default_text_again cfg.name cfg.id i;
  source_type = default_text_again cfg.source_type "multicast" i;
  profile_name = default_text_again cfg.profile_name "h264_veryfast_4m" i;
  log_retention_seconds = default_number_again cfg.log_retention_seconds (pos 60) i;
}

with_policies : Config → RestartPolicy → WatchdogPolicy → Config
with_policies c r d = record c { restart = some r; watchdog = some d }

-- The policies play no part in the defaults and the field checks.
fill-with_policies :
    (c : Config) (r : RestartPolicy) (d : WatchdogPolicy)
    → fill_defaults c ≡ c
    → fill_defaults (with_policies c r d) ≡ with_policies c r d
unfolding fill_defaults with_policies
fill-with_policies c r d e = ap (λ (x : Config). record x { restart = some r; watchdog = some d }) e

check-with_policies :
    (c : Config) (r : RestartPolicy) (d : WatchdogPolicy)
    → check_fields (with_policies c r d) ≡ check_fields c
unfolding check_fields with_policies
check-with_policies c r d = refl

policies_again :
    (c : Config) (r : RestartPolicy) (d : WatchdogPolicy)
    → fill_defaults c ≡ c
    → check_fields c ≡ ok tt
    → validate_options c.options ≡ ok tt
    → normalize_restart_policy (some r) ≡ ok r
    → normalize_watchdog_policy (some d) ≡ ok d
    → normalize_config (with_policies c r d) ≡ ok (with_policies c r d)
unfolding normalize_config
policies_again c r d filled fields options er ed =
    rw (fill-with_policies c r d filled, check-with_policies c r d, fields)
      (unfold with_policies in rw (options, er, ed))

-- A successful normalization, step by step.
pub normalize_config-inv :
    (given n : Config)
    → normalize_config given ≡ ok n
    → (restart : RestartPolicy) × (watchdog : WatchdogPolicy) × (check_fields (fill_defaults given)
        ≡ ok tt)
      × (validate_options (fill_defaults given).options ≡ ok tt)
      × (normalize_restart_policy (fill_defaults given).restart ≡ ok restart)
      × (normalize_watchdog_policy (fill_defaults given).watchdog ≡ ok watchdog)
      × (n ≡ record (fill_defaults given) { restart = some restart; watchdog = some watchdog })
unfolding normalize_config
normalize_config-inv given n h =
    let (c, fields, h₁) = >>=-eq-ok (check_fields (fill_defaults given)) _ _ h in
    let (o, options, h₂) = >>=-eq-ok (validate_options (fill_defaults given).options) _ _ h₁ in
    let (r, er, h₃) = >>=-eq-ok (normalize_restart_policy (fill_defaults given).restart) _ _ h₂ in
    let (d, ed, h₄) = >>=-eq-ok (normalize_watchdog_policy (fill_defaults given).watchdog) _ _ h₃ in
    (r, d, fields, options, er, ed, cc)

abbrev pub IsNormal : Config → Type 0
IsNormal n =
    IsFilled n
    × ((r : RestartPolicy) × (n.restart ≡ some r) × IsRestart r)
    × ((d : WatchdogPolicy) × (n.watchdog ≡ some d) × IsWatchdog d)

-- A normalized configuration has an ID, a name, both URLs, a profile name, a source type that is
-- multicast or file, a positive log retention, and policies whose numbers are positive where they are
-- enabled (and whose memory limit is not negative).
pub normalize_config-IsNormal : (given n : Config) → normalize_config given ≡ ok n → IsNormal n
normalize_config-IsNormal given n h =
    let (r, d, fields, options, er, ed, e) = normalize_config-inv given n h in
    let filled = fill-IsFilled given fields in
    subst IsNormal (sym e) (
      record {
        id = filled.id;
        name = filled.name;
        input_url = filled.input_url;
        output_url = filled.output_url;
        profile_name = filled.profile_name;
        source_type = filled.source_type;
        retention = filled.retention;
      },
      (r, refl, normalize_restart_policy-IsRestart _ r er),
      (d, refl, normalize_watchdog_policy-IsWatchdog _ d ed),
    )

-- Normalizing twice is normalizing once: what the store has saved is accepted again, unchanged.
pub normalize_config_idem :
    (given n : Config) → normalize_config given ≡ ok n → normalize_config n ≡ ok n
unfolding with_policies
normalize_config_idem given n h =
    let (r, d, fields, options, er, ed, e) = normalize_config-inv given n h in
    subst (λ c. normalize_config c ≡ ok c) (sym e)
      (policies_again (fill_defaults given) r d (fill_again given) fields options
        (restart_again _ r er) (watchdog_again _ d ed))
