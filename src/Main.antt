-- ===== src/Main.antt =====
-- main.go: the settings that both commands share. The flag package, the durations that it
-- and the environment hold, and the signals are not part of the program; log lines are left out.
pub mod Commands
pub mod Chains
pub mod Program
pub mod Settings
pub mod Repo
pub mod Serve
pub mod Once
mod Examples
use merge_bot.Base.{
  ℕ, suc, ◌*◌, Bool, false, not, ◌||◌, [], ◌∷◌, ◌++◌, Option, none, some, String, str_eq, Text,
  codes, quote, show, ◌==◌, if◌then◌else◌, ℤ, pos, negsuc, ltb_ℤ, parse_int, parse_bool, second,
  duration_text,
}
use merge_bot.Merge.Errors.{Error, Result, ok, err, plain}

-- The environment, and `time.ParseDuration`.
pub record Environment : Type 0 where
  pub getenv : String → String
  pub parse_duration : String → Option ℤ

unfoldable pub env_or : Environment → String → String → String
env_or env key default = let v = env.getenv key in if str_eq v "" then default else v

-- A value that cannot be read is replaced by the default.
abbrev pub or_value {ℓ} : {A : Type ℓ} → Option A → A → A
or_value none default = default
or_value (some a) default = a

unfoldable pub env_duration_or : Environment → String → ℤ → ℤ
env_duration_or env key default =
    let v = env.getenv key in
    if str_eq v "" then default else or_value (env.parse_duration v) default

unfoldable pub env_int_or : Environment → String → ℤ → ℤ
env_int_or env key default =
    let v = env.getenv key in
    if str_eq v "" then default else or_value (parse_int (codes v)) default

unfoldable pub env_bool_or : Environment → String → Bool → Bool
env_bool_or env key default =
    let v = env.getenv key in if str_eq v "" then default else or_value (parse_bool v) default

pub record CommonConfig : Type 0 where
  pub repo : String
  pub interval : ℤ
  pub timeout : ℤ
  pub merge_method : String
  pub min_approvals : ℤ
  pub rate_limit_wait : ℤ
  pub rate_limit_retries : ℤ
  pub allow_unstable : Bool
  pub allow_unresolved : Bool

abbrev pub minutes : ℕ → ℤ
minutes n = pos (n * (60 * second))

-- What the flags are where the command line does not set them.
unfoldable pub register_common : Environment → CommonConfig
unfolding env_or env_duration_or env_int_or env_bool_or
register_common env = record {
  repo = env_or env "MERGEBOT_REPO" "";
  interval = env_duration_or env "MERGEBOT_INTERVAL" (pos (30 * second));
  timeout = env_duration_or env "MERGEBOT_TIMEOUT" (minutes 60);
  merge_method = env_or env "MERGEBOT_MERGE_METHOD" "squash";
  min_approvals = env_int_or env "MERGEBOT_MIN_APPROVALS" (pos 2);
  rate_limit_wait = env_duration_or env "MERGEBOT_RATE_LIMIT_WAIT" (minutes 15);
  rate_limit_retries = env_int_or env "MERGEBOT_RATE_LIMIT_RETRIES" (pos 3);
  allow_unstable = env_bool_or env "MERGEBOT_ALLOW_UNSTABLE" false;
  allow_unresolved = env_bool_or env "MERGEBOT_ALLOW_UNRESOLVED" false;
}

-- A duration and a number, with their signs.
abbrev pub duration_shown : ℤ → Text
duration_shown (pos n) = duration_text n
duration_shown (negsuc n) = codes "-" ++ duration_text (suc n)

abbrev pub int_shown : ℤ → Text
int_shown (pos n) = show n
int_shown (negsuc n) = codes "-" ++ show (suc n)

abbrev pub complain : String → Text → Option Error
complain text value = some (plain (codes text ++ value))

unfoldable pub validate : CommonConfig → Option Error
validate c =
    if not (ltb_ℤ (pos 0) c.interval)
    then complain "--interval must be positive, got " (duration_shown c.interval)
    else if not (ltb_ℤ (pos 0) c.timeout)
    then complain "--timeout must be positive, got " (duration_shown c.timeout)
    else if not (
        str_eq c.merge_method "squash"
        || str_eq c.merge_method "merge"
        || str_eq c.merge_method "rebase")
    then complain "--merge-method must be squash, merge or rebase, got " (quote c.merge_method)
    else if ltb_ℤ c.min_approvals (pos 0)
    then complain "--min-approvals cannot be negative, got " (int_shown c.min_approvals)
    else if ltb_ℤ c.rate_limit_wait (pos 0)
    then complain "--rate-limit-wait cannot be negative, got " (duration_shown c.rate_limit_wait)
    else if ltb_ℤ c.rate_limit_retries (pos 0)
    then complain "--rate-limit-retries cannot be negative, got " (int_shown c.rate_limit_retries)
    else none

-- `strings.Cut(s, "/")`: the text in front of the first slash, and the one behind it, if there is one.
unfoldable pub cut_slash : Text → Text × Option Text
cut_slash [] = ([], none)
cut_slash (c ∷ s) =
    let (before, after) = cut_slash s in if c == b'/' then ([], some s) else (c ∷ before, after)

abbrev pub repo_parts : String → Text × Option Text → Result (Text × Text)
repo_parts repo (c ∷ owner, some (d ∷ name)) = ok (c ∷ owner, d ∷ name)
repo_parts repo _ = err (plain (codes "invalid --repo " ++ quote repo ++ codes ", want owner/name"))

unfoldable pub split_repo : String → Result (Text × Text)
unfolding cut_slash
split_repo repo = repo_parts repo (cut_slash (codes repo))

unfoldable pub token : Environment → Result String
token env =
    let t = env.getenv "GITHUB_TOKEN" in
    if str_eq t ""
    then err (plain (codes "GITHUB_TOKEN is not set (try: export GITHUB_TOKEN=$(gh auth token))"))
    else ok t
