-- ===== src/Main/Once/Examples.antt =====
-- `mergebot 7`: the pull request is behind its base in the first round and clean in the second one.
use merge_bot.Base.{
  ℕ, zero, suc, ◌*◌, ◌≡◌, ◌⊎◌, refl, arith, false, List, [], ◌∷◌, none, some, String, str_eq, codes,
  parse_int, if◌then◌else◌, pos,
}
use merge_bot.Merge.Errors.{ok, plain}
use merge_bot.Merge.Github.{Github, PullRequest, ReviewStatus}
use merge_bot.Merge.Runner.{Poll, inspect, dispatch}
use merge_bot.Merge.Gate.{update, try_merge}
use merge_bot.Queue.Types.{missing}
use merge_bot.Main.Settings.{InBounds}
use merge_bot.Main.Commands.{OnceRun, once_defaults, run_once, command_of}
use merge_bot.Main.Program.{Machine, Exit, main, run_program}
use merge_bot.Main.Once.{Landed, main-Exits}

abbrev variable : String → String
variable key =
    if str_eq key "GITHUB_TOKEN" then "secret" else if str_eq key "MERGEBOT_REPO" then "o/r" else ""

abbrev pull_request : String → PullRequest
pull_request state = record {
  merged = false;
  state = "open";
  draft = false;
  mergeable_state = state;
  head_sha = "c0ffee";
  base_ref = "main";
}

abbrev review : ReviewStatus
review = record {
  unresolved_threads = 0;
  more_threads = false;
  review_decision = "APPROVED";
  approvals = 2;
}

abbrev github : String → Github
github state = record {
  get_pull_request = λ n. ok (pull_request state);
  update_branch = λ n head. none;
  merge = λ n method. none;
  check_summary = λ head. ok [];
  review_status = λ n. ok review;
  required_checks = λ base. ok [];
  check_runs = λ head. ok [];
  behind_by = λ base head. ok 2;
}

abbrev state_at : ℕ → String
state_at zero = "behind"
state_at (suc k) = "clean"

-- The clock goes on by 2000 seconds in a round.
abbrev polls : ℕ → Poll
polls k = record { api = github (state_at k); checked_at = 2000000000000 * k; interrupted = none }

abbrev machine : Machine
machine = record {
  version = codes "1.2";
  env = record { getenv = variable; parse_duration = λ text. none };
  bad_number = λ text. plain (codes "invalid syntax");
  parse_once = λ arguments flags. ok (flags, arguments);
  parse_serve = λ arguments flags. ok flags;
  files = record { queue_file = missing; stats_file = missing };
  listened = some (plain (codes "address in use"));
  is_closed = λ e. false;
  now = 0;
  polls = polls;
}

abbrev seven : OnceRun
seven = record {
  flags = once_defaults machine.env;
  token = "secret";
  owner = codes "o";
  name = codes "r";
  number = pos 7;
}

abbrev arguments : List String
arguments = "7" ∷ []

accepts : run_once machine.env machine.bad_number (machine.parse_once arguments) ≡ ok seven
unfolding run_once parse_int
accepts = refl

lands : main 3 machine arguments ≡ some (record { code = 0; output = []; complaint = [] })
unfolding main run_program command_of run_once parse_int merge_bot.Merge.Runner.run
    merge_bot.Merge.Runner.step inspect dispatch update try_merge
lands = refl

refuses :
    main 3 machine ("x" ∷ [])
    ≡ some (record {
      code = 1;
      output = [];
      complaint = codes "error: invalid PR number \"x\": invalid syntax";
    })
unfolding main run_program command_of run_once parse_int merge_bot.Merge.Errors.error_text
    merge_bot.Base.quote
refuses = refl

main-Exits_example :
    InBounds seven.flags.common
    × ((x : Exit) × (main 3 machine arguments ≡ some x)
        × ((x.code ≡ 1) ⊎ ((x.code ≡ 0) × Landed 3 machine seven)))
unfolding command_of merge_bot.Main.register_common
main-Exits_example =
    main-Exits 3 2 7 machine arguments arguments seven refl accepts refl (omega arith) (omega arith)
