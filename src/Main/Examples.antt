-- ===== src/Main/Examples.antt =====
-- A start of the daemon by main.go.
use merge_bot.Base.{
  ◌≡◌, ◌↔◌, refl, true, List, [], ◌∷◌, none, String, str_eq, codes, parse_int, if◌then◌else◌,
}
use merge_bot.Merge.Errors.{Result, ok}
use merge_bot.Queue.Types.{failed, Item, missing, parsed}
use merge_bot.Queue.System.{dispatches}
use merge_bot.Queue.System.Invariant.{SystemInv}
use merge_bot.Server.Daemon.{Act, goroutine, acts}
use merge_bot.Main.{Environment, CommonConfig, register_common, split_repo}
use merge_bot.Main.Commands.{ServeFlags, Files, ServeRun, serve_defaults, daemon_of, run_serve}
use merge_bot.Main.Repo.{Splits, split_repo-Splits_iff}
use merge_bot.Main.Serve.{Servable, Loadable, run_serve-SystemInv}

abbrev variable : String → String
variable key =
    if str_eq key "GITHUB_TOKEN"
    then "secret"
    else if str_eq key "MERGEBOT_REPO"
    then "o/r"
    else if str_eq key "MERGEBOT_CONCURRENCY"
    then "2"
    else ""

abbrev env : Environment
env = record { getenv = variable; parse_duration = λ text. none }

abbrev file : List Item
file =
    record {
      number = 4;
      phase = failed;
      message = [];
      error = [];
      added_at = 5;
      updated_at = 5;
      merged_at = none;
    }
    ∷ []

abbrev files : Files
files = record { queue_file = parsed file; stats_file = missing }

abbrev as_registered : ServeFlags → Result ServeFlags
as_registered flags = ok flags

abbrev served : List Act
served = goroutine (dispatches (record { now = 10; writable = true })) ∷ []

abbrev serving : ServeRun
serving = record {
  flags = serve_defaults env;
  token = "secret";
  owner = codes "o";
  name = codes "r";
  daemon = daemon_of files (serve_defaults env);
}

serve_starts : run_serve env files as_registered ≡ ok serving
unfolding run_serve parse_int merge_bot.Queue.Manager.load_error
serve_starts = refl

run_serve-SystemInv_example :
    Servable serving.flags
    × Loadable files serving.flags
    × ((acted : List Act) → SystemInv (acts serving.daemon acted).system)
run_serve-SystemInv_example =
    run_serve-SystemInv env files as_registered serving (tt, tt) serve_starts

abbrev settings : CommonConfig
settings = register_common env

-- A second slash is part of the name.
nested : split_repo "o/r/x" ≡ ok (codes "o", codes "r/x")
unfolding split_repo
nested = refl

split_repo-Splits_iff_example :
    (split_repo "o/r/x" ≡ ok (codes "o", codes "r/x"))
    ↔ Splits (codes "o/r/x") (codes "o") (codes "r/x")
split_repo-Splits_iff_example = split_repo-Splits_iff "o/r/x" (codes "o") (codes "r/x")
