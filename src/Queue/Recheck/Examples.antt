-- ===== src/Queue/Recheck/Examples.antt =====
-- Pull request 4 has failed, and is unstable: its build is green, its lint is red, and both are required.
use merge_bot.Base.{◌*◌, ◌≡◌, refl, inl, true, false, [], ◌∷◌, none, some, String}
use merge_bot.Merge.Errors.{Error, ok}
use merge_bot.Merge.Github.{Github, PullRequest, CheckRun, ReviewStatus}
use merge_bot.Merge.Delegate.{QueueClient}
use merge_bot.Queue.Types.{queued, failed, Item, Config, Manager}
use merge_bot.Queue.Cells.{find_first}
use merge_bot.Queue.Manager.{new, load, claimed}
use merge_bot.Queue.Manager.Lookup.{item_of}
use merge_bot.Queue.Process.{Drive, drive, settled}
use merge_bot.Queue.Recheck.{World, recheck_parked}
use merge_bot.Queue.Recheck.Churn.{Unstable, recheck_parked-fails_again}

abbrev config : Config
config = record {
  interval = 30;
  timeout = 3600;
  recheck_interval = 300;
  merge_method = "squash";
  min_approvals = 1;
  concurrency = 1;
  merge_mode = "self";
  allow_unstable = false;
  allow_unresolved = false;
}

abbrev broken : Item
broken = record {
  number = 4;
  phase = failed;
  message = [];
  error = [];
  added_at = 5;
  updated_at = 5;
  merged_at = none;
}

abbrev manager : Manager
manager = load (new config true (some (broken ∷ [])))

abbrev pull_request : PullRequest
pull_request = record {
  merged = false;
  state = "open";
  draft = false;
  mergeable_state = "unstable";
  head_sha = "c0ffee";
  base_ref = "main";
}

abbrev review : ReviewStatus
review = record {
  unresolved_threads = 0;
  more_threads = false;
  review_decision = "APPROVED";
  approvals = 2;
}

abbrev check : String → String → CheckRun
check name conclusion = record { name = name; completed = true; conclusion = conclusion }

abbrev github : Github
github = record {
  get_pull_request = λ n. ok pull_request;
  update_branch = λ n head. none;
  merge = λ n method. none;
  check_summary = λ head. ok [];
  review_status = λ n. ok review;
  required_checks = λ base. ok ("build" ∷ "lint" ∷ []);
  check_runs = λ head. ok (check "build" "success" ∷ check "lint" "failure" ∷ []);
  behind_by = λ base head. ok 0;
}

abbrev world : World
world = record {
  review_status = λ n. ok review;
  get_pull_request = λ n. ok pull_request;
  is_cancelled = λ n. false;
  io = λ n. record { now = 20; writable = true };
  meanwhile = λ n m. m;
}

abbrev client : QueueClient
client = record {
  get_pull_request = λ n. ok pull_request;
  check_runs = λ head. ok [];
  create_comment = λ n body. none;
  list_comments = λ n since. ok [];
}

abbrev driving : Drive
driving = record {
  polls = λ k. record { api = github; checked_at = 30 * k; interrupted = none };
  first = client;
  rounds =
      λ k. record { client = client; context_error = none; posted_at = 30; interrupted = none };
  is_capable = true;
  started = 25;
}

found : item_of 4 manager ≡ some broken
unfolding load new find_first
found = refl

unstable : Unstable github 4 pull_request
unfolding merge_bot.Merge.Github.check_succeeded
unstable = record {
  read = refl;
  state = refl;
  not_merged = refl;
  is_open = refl;
  not_draft = refl;
  names = "build" ∷ "lint" ∷ [];
  required = refl;
  runs = check "build" "success" ∷ check "lint" "failure" ∷ [];
  checked = refl;
  red = record {
    before = "build" ∷ [];
    name = "lint";
    later = [];
    listed = refl;
    greens = ((check "build" "success", refl, refl, inl refl), tt);
    run = check "lint" "failure";
    last = refl;
    completed = refl;
    bad = refl;
  };
}

recheck_parked-fails_again_example :
    (back : Item) × (item_of 4 (recheck_parked world manager) ≡ some back)
    × (back.phase ≡ queued)
    × ((e : Error) × (drive 1 config 4 driving ≡ some (some e))
        × ((settled 30 (some e) (claimed 25 back)).phase ≡ failed))
unfolding load new
recheck_parked-fails_again_example =
    recheck_parked-fails_again world manager broken pull_request pull_request driving (λ n x. refl)
      (λ n. refl) refl refl found refl refl refl unstable 25 30 0
