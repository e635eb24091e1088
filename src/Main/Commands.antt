-- ===== src/Main/Commands.antt =====
-- main.go: the commands, from their flags to what they start (`runOnce`, `runServe`).
use merge_bot.Base.{
  ℕ, Bool, true, false, not, ◌||◌, List, [], ◌∷◌, ◌++◌, Option, none, some, String, str_eq, Text,
  codes, quote, if◌then◌else◌, ℤ, pos, pos_part, ltb_ℤ, parse_int,
}
use merge_bot.Merge.Errors.{Error, Result, ok, err, plain, wrap}
use merge_bot.Merge.Gate.{Runner}
use merge_bot.Queue.Types.{Item, Config, FileRead, content_of}
use merge_bot.Queue.Manager.{new, load_error}
use merge_bot.Queue.System.{start}
use merge_bot.Stats.{Snapshot, Collector, new_collector, load_history}
use merge_bot.Review.{Dashboard, new_dashboard, with_team_queue}
use merge_bot.Client.Options.{new_transport, with_rate_limit_wait, with_rate_limit_retries}
use merge_bot.Client.RateLimit.{Transport}
use merge_bot.Server.Daemon.{Daemon}
use merge_bot.Main.{
  Environment, env_or, env_duration_or, env_int_or, env_bool_or, CommonConfig, minutes,
  register_common, duration_shown, int_shown, validate, split_repo, token,
}

-- Steps that may fail, one after the other.
infixl 5 ◌>>=◌
abbrev pub ◌>>=◌ {ℓ κ} : {A : Type ℓ} {B : Type κ} → Result A → (A → Result B) → Result B
ok a >>= f = f a
err e >>= f = err e

abbrev pub guard : Option Error → Result (Unit {0})
guard none = ok tt
guard (some e) = err e

abbrev pub demand : Bool → Text → Result (Unit {0})
demand true text = ok tt
demand false text = err (plain text)

-- The client of `newClient`.
abbrev pub transport_of : CommonConfig → Transport
transport_of c =
    new_transport
      (with_rate_limit_wait c.rate_limit_wait ∷ with_rate_limit_retries c.rate_limit_retries ∷ [])

pub record OnceFlags : Type 0 where
  pub common : CommonConfig
  pub dry_run : Bool

-- What `runOnce` starts: a client and a runner.
pub record OnceRun : Type 0 where
  pub flags : OnceFlags
  pub token : String
  pub owner : Text
  pub name : Text
  pub number : ℤ

abbrev pub once_defaults : Environment → OnceFlags
once_defaults env = record {
  common = register_common env;
  dry_run = env_bool_or env "MERGEBOT_DRY_RUN" false;
}

abbrev pub only_argument : List String → Result String
only_argument (argument ∷ []) = ok argument
only_argument _ = err (plain (codes "expected exactly one PR number argument"))

-- `strconv.Atoi`, with the error that the command makes of it
abbrev pub number_argument : (String → Error) → String → Result ℤ
number_argument bad argument = elim (parse_int (codes argument)) [
  | some n ↦ ok n
  | none ↦ err (wrap (codes "invalid PR number " ++ quote argument) (bad argument))
]

-- `fs.Parse(args)` makes of the defaults the flags and the other arguments.
unfoldable pub run_once :
    Environment → (String → Error) → (OnceFlags → Result (OnceFlags × List String)) → Result OnceRun
unfolding register_common validate split_repo token
run_once env bad parse = do
  (flags, arguments) ← parse (once_defaults env)
  _ ← guard (validate flags.common)
  argument ← only_argument arguments
  number ← number_argument bad argument
  (owner, name) ← split_repo flags.common.repo
  tok ← token env
  ok (record { flags = flags; token = tok; owner = owner; name = name; number = number })

-- The runner of a number that is not negative.
abbrev pub runner_of : OnceRun → ℕ → Runner
runner_of o n = record {
  number = n;
  interval = pos_part o.flags.common.interval;
  timeout = pos_part o.flags.common.timeout;
  merge_method = o.flags.common.merge_method;
  min_approvals = pos_part o.flags.common.min_approvals;
  allow_unstable = o.flags.common.allow_unstable;
  allow_unresolved = o.flags.common.allow_unresolved;
  dry_run = o.flags.dry_run;
}

pub record ServeFlags : Type 0 where
  pub common : CommonConfig
  pub addr : String
  pub state_path : String
  pub recheck : ℤ
  pub concurrency : ℤ
  pub review_author : String
  pub merge_mode : String

abbrev pub serve_defaults : Environment → ServeFlags
serve_defaults env = record {
  common = register_common env;
  addr = env_or env "MERGEBOT_ADDR" "127.0.0.1:8080";
  state_path = env_or env "MERGEBOT_STATE" "mergebot-queue.json";
  recheck = env_duration_or env "MERGEBOT_RECHECK_INTERVAL" (minutes 5);
  concurrency = env_int_or env "MERGEBOT_CONCURRENCY" (pos 1);
  review_author = env_or env "MERGEBOT_REVIEW_AUTHOR" "";
  merge_mode = env_or env "MERGEBOT_MERGE_MODE" "self";
}

-- The two files.
pub record Files : Type 0 where
  pub queue_file : FileRead (List Item)
  pub stats_file : FileRead (List Snapshot)

abbrev pub has_state : ServeFlags → Bool
has_state flags = not (str_eq flags.state_path "")

abbrev pub is_team_mode : ServeFlags → Bool
is_team_mode flags = str_eq flags.merge_mode "merge-queue"

abbrev pub config_of : ServeFlags → Config
config_of flags = record {
  interval = pos_part flags.common.interval;
  timeout = pos_part flags.common.timeout;
  recheck_interval = pos_part flags.recheck;
  merge_method = flags.common.merge_method;
  min_approvals = pos_part flags.common.min_approvals;
  concurrency = pos_part flags.concurrency;
  merge_mode = flags.merge_mode;
  allow_unstable = flags.common.allow_unstable;
  allow_unresolved = flags.common.allow_unresolved;
}

-- A file of statistics that cannot be read or parsed is left aside.
abbrev pub stats_of : Files → ServeFlags → Option Collector
stats_of files flags =
    if is_team_mode flags
    then some (load_history (new_collector (has_state flags) (content_of files.stats_file)))
    else none

abbrev pub dashboard_of : ServeFlags → Dashboard
dashboard_of flags =
    let d = new_dashboard (pos_part flags.common.min_approvals) flags.review_author in
    if is_team_mode flags then with_team_queue d else d

-- The daemon before its first request.
abbrev pub daemon_of : Files → ServeFlags → Daemon
daemon_of files flags = record {
  system = start (new (config_of flags) (has_state flags) (content_of files.queue_file));
  reviewer = some (dashboard_of flags);
  stats = stats_of files flags;
  has_prober = is_team_mode flags;
  repo = codes flags.common.repo;
  mode = flags.merge_mode;
}

pub record ServeRun : Type 0 where
  pub flags : ServeFlags
  pub token : String
  pub owner : Text
  pub name : Text
  pub daemon : Daemon

abbrev pub modes_text : String → Text
modes_text mode =
    codes "--merge-mode must be "
    ++ quote "self"
    ++ codes " or "
    ++ quote "merge-queue"
    ++ codes ", got "
    ++ quote mode

-- The checks of `runServe` behind `validate`.
unfoldable pub serve_checks : ServeFlags → Result (Unit {0})
serve_checks flags = do
  _ ←
      demand (not (ltb_ℤ flags.concurrency (pos 1)))
        (codes "--concurrency must be at least 1, got " ++ int_shown flags.concurrency)
  _ ←
      demand (not (ltb_ℤ flags.recheck (pos 0)))
        (codes "--recheck-interval cannot be negative, got " ++ duration_shown flags.recheck)
  demand (str_eq flags.merge_mode "self" || str_eq flags.merge_mode "merge-queue")
      (modes_text flags.merge_mode)

abbrev pub queue_failure : Files → ServeFlags → Option Error
queue_failure files flags = elim (load_error (has_state flags) files.queue_file) [
  | none ↦ none
  | some e ↦ some (wrap (codes "load queue state") e)
]

unfoldable pub run_serve : Environment → Files → (ServeFlags → Result ServeFlags) → Result ServeRun
unfolding register_common validate split_repo token serve_checks
run_serve env files parse = do
  flags ← parse (serve_defaults env)
  _ ← guard (validate flags.common)
  _ ← serve_checks flags
  (owner, name) ← split_repo flags.common.repo
  tok ← token env
  _ ← guard (queue_failure files flags)
  ok (record {
    flags = flags;
    token = tok;
    owner = owner;
    name = name;
    daemon = daemon_of files flags;
  })

-- What `run` does with the arguments behind the program's name.
pub data Command : Type 0 where
  show_version : Command
  serve_with once_with : List String → Command

unfoldable pub command_of : List String → Command
command_of [] = once_with []
command_of (first ∷ arguments) =
    if str_eq first "version" || str_eq first "--version" || str_eq first "-version"
    then show_version
    else if str_eq first "serve"
    then serve_with arguments
    else once_with (first ∷ arguments)
