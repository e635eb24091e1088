-- ===== src/Client/Backed/Examples.antt =====
-- Pull request 7 behind the client of internal/ghclient/client.go: unstable with its required check
-- green, and blocked by a failed check.
use mathlib.Core.List.{Permᴰ, Perm}
use mathlib.Core.List.Permᴰ
use mathlib.Core.List.Perm
use merge_bot.Base.{
  ◌≡◌, ◌↔◌, arith, inl, inr, refl, true, false, [], ◌∷◌, none, some, String, codes, lookup, insert,
}
use merge_bot.Merge.Errors.{Error, ok, accepted}
use merge_bot.Merge.Github.{Github, PullRequest, CheckRun}
use merge_bot.Merge.Gate.{Runner}
use merge_bot.Merge.Gate.Clears.{Merges}
use merge_bot.Merge.Runner.{step}
use merge_bot.Review.{Pull, Fetcher, Dashboard, new_dashboard, entry_for, failed}
use merge_bot.Review.Dead.{ShownIn}
use merge_bot.Client.{Page, RunData, protected, decoded, Api, ReviewData}
use merge_bot.Client.Checks.{ByName}
use merge_bot.Client.Pages.{last_page}
use merge_bot.Client.Backed.{Backs, Feeds}
use merge_bot.Client.Backed.Checked.{Commit}
use merge_bot.Client.Backed.Merges.{Mergeable, step-Mergeable}
use merge_bot.Client.Backed.Declines.{shown_failed-parks}
use merge_bot.Merge.Delegate.{QueueClient}
use merge_bot.Queue.Types.{Phase, active, Item, Config}
use merge_bot.Queue.Process.{Drive, drive, settled}

abbrev pull_in : String → PullRequest
pull_in state = record {
  merged = false;
  state = "open";
  draft = false;
  mergeable_state = state;
  head_sha = "c0ffee";
  base_ref = "main";
}

abbrev run_data : String → String → RunData
run_data name conclusion = record { name = name; status = "completed"; conclusion = conclusion }

abbrev reviews : ReviewData
reviews = record {
  review_decision = "APPROVED";
  opinions = "APPROVED" ∷ "APPROVED" ∷ [];
  threads = true ∷ [];
  has_next_page = false;
}

-- The build ends as said; the lint fails, but is not required.
abbrev runs_page : String → Page RunData
runs_page build = record {
  items = run_data "lint" "failure" ∷ run_data "build" build ∷ [];
  next_page = 0;
}

abbrev no_page : {A : Type 0} → Page A
no_page = record { items = []; next_page = 0 }

abbrev api : String → String → Api
api state build = record {
  get_pull = λ n. ok (pull_in state);
  compare_commits = λ base head. ok 0;
  issue_comments = λ n since page. ok no_page;
  create_issue_comment = λ n body. none;
  get_user = ok "ann";
  search_issues = λ query page. ok no_page;
  update_pull = λ n head. some accepted;
  merge_pull = λ n method. none;
  first_runs = λ ref. ok (runs_page build).items;
  runs_page = λ ref page. ok (runs_page build);
  statuses_page = λ ref page. ok no_page;
  required_status_checks =
      λ branch. protected (record { checks = some (some "build" ∷ []); contexts = none });
  graphql = λ n. decoded [] reviews;
}

abbrev check : String → String → CheckRun
check name conclusion = record { name = name; completed = true; conclusion = conclusion }

-- The runner's interface and the dashboard's, as the client answers them.
abbrev github : String → String → String → Github
github state build summary = record {
  get_pull_request = λ n. ok (pull_in state);
  update_branch = λ n head. none;
  merge = λ n method. none;
  check_summary = λ ref. ok (codes summary);
  review_status = λ n. ok (record {
    unresolved_threads = 0;
    more_threads = false;
    review_decision = "APPROVED";
    approvals = 2;
  });
  required_checks = λ branch. ok ("build" ∷ []);
  check_runs = λ ref. ok (check "build" build ∷ check "lint" "failure" ∷ []);
  behind_by = λ base head. ok 0;
}

abbrev fetcher : String → String → Fetcher
fetcher state build = record {
  current_user = ok "ann";
  list_open_prs = λ author. ok [];
  pull_state = λ n. ok (state, "main", "c0ffee");
  behind_by = λ base head. ok 0;
  check_runs = λ ref. ok (check "lint" "failure" ∷ check "build" build ∷ []);
  review_status = λ n. ok (record {
    unresolved_threads = 0;
    more_threads = false;
    review_decision = "APPROVED";
    approvals = 2;
  });
  list_comments = λ n since. ok [];
}

-- The runner's visit of the map of the checks begins with its second entry.
abbrev swap_first : ByName → ByName
swap_first (a ∷ b ∷ entries) = b ∷ a ∷ entries
swap_first (a ∷ []) = a ∷ []
swap_first [] = []

visited_swapped : (m : ByName) → Permᴰ m (swap_first m)
visited_swapped [] = Permᴰ.nil
visited_swapped (a ∷ []) = Permᴰ.refl (a ∷ [])
visited_swapped (a ∷ b ∷ m) = Permᴰ.swap refl refl

swapped : (m : ByName) → Perm (swap_first m) m
swapped [] = Perm.refl []
swapped (a ∷ []) = Perm.refl (a ∷ [])
swapped (a ∷ b ∷ m) = Perm.swap a b m

blocked_client :
    Backs
      (api "blocked" "failure")
      swap_first
      1
      (github "blocked" "failure" "failed: lint=failure, build=failure")
unfolding merge_bot.Client.get_pull_request merge_bot.Client.update_branch
    merge_bot.Client.merge_pull_request merge_bot.Client.check_summary
    merge_bot.Client.Graphql.review_status merge_bot.Client.required_checks
    merge_bot.Client.Checks.check_runs merge_bot.Client.behind_by merge_bot.Merge.Errors.is_accepted
    merge_bot.Merge.Github.check_succeeded lookup insert
blocked_client = record {
  pulls = λ n. refl;
  updates = λ n head. refl;
  merges = λ n method. refl;
  summaries = λ ref. refl;
  reviews = λ n. refl;
  required = λ branch. refl;
  runs = λ ref. refl;
  compared = λ base head. refl;
}

unstable_client :
    Backs
      (api "unstable" "success")
      swap_first
      1
      (github "unstable" "success" "failed: lint=failure")
unfolding merge_bot.Client.get_pull_request merge_bot.Client.update_branch
    merge_bot.Client.merge_pull_request merge_bot.Client.check_summary
    merge_bot.Client.Graphql.review_status merge_bot.Client.required_checks
    merge_bot.Client.Checks.check_runs merge_bot.Client.behind_by merge_bot.Merge.Errors.is_accepted
    merge_bot.Merge.Github.check_succeeded lookup insert
unstable_client = record {
  pulls = λ n. refl;
  updates = λ n head. refl;
  merges = λ n method. refl;
  summaries = λ ref. refl;
  reviews = λ n. refl;
  required = λ branch. refl;
  runs = λ ref. refl;
  compared = λ base head. refl;
}

blocked_source :
    Feeds (api "blocked" "failure") (codes "o/r") (λ m. m) 1 (fetcher "blocked" "failure")
unfolding merge_bot.Client.current_user merge_bot.Client.list_open_prs merge_bot.Client.pull_state
    merge_bot.Client.list_comments merge_bot.Client.Graphql.review_status
    merge_bot.Client.Checks.check_runs merge_bot.Client.behind_by lookup insert
blocked_source = record {
  user = refl;
  open_prs = λ author. refl;
  states = λ n. refl;
  compared = λ base head. refl;
  runs = λ ref. refl;
  reviews = λ n. refl;
  comments = λ n since. refl;
}

abbrev runner : Runner
runner = record {
  number = 7;
  interval = 30;
  timeout = 60;
  merge_method = "squash";
  min_approvals = 1;
  allow_unstable = false;
  allow_unresolved = false;
  dry_run = false;
}

step-Mergeable_example :
    Merges runner (step runner (github "unstable" "success" "failed: lint=failure")).1
    ↔ Mergeable runner (api "unstable" "success")
step-Mergeable_example =
    step-Mergeable (api "unstable" "success") swap_first 1
      (github "unstable" "success" "failed: lint=failure") unstable_client visited_swapped runner

abbrev commit : Commit (api "unstable" "success") "c0ffee"
commit = record {
  runs = (runs_page "success").items;
  run_pages = 1;
  runs_served = last_page 0 (runs_page "success") refl refl;
  statuses = [];
  status_pages = 1;
  statuses_served = last_page 0 no_page refl refl;
}

-- The API's answers allow the merge.
mergeable : Mergeable runner (api "unstable" "success")
unfolding merge_bot.Client.required_names merge_bot.Client.Checks.run_of
mergeable = record {
  pr = pull_in "unstable";
  read = refl;
  not_merged = refl;
  is_open = refl;
  not_draft = refl;
  state_passes = inr (
      inr (
        refl,
        inr (
          "build" ∷ [],
          refl,
          inr (commit, ((check "build" "success", refl, refl, inl refl), tt)),
        ),
      ));
  review_passes = inr (
    reviews,
    refl,
    record { not_required = λ e. cc; enough = omega arith; no_changes = λ e. cc; resolved = refl },
  );
  not_dry = refl;
}

abbrev config : Config
config = record {
  interval = 30;
  timeout = 3600;
  recheck_interval = 300;
  merge_method = "squash";
  min_approvals = 1;
  concurrency = 3;
  merge_mode = "self";
  allow_unstable = false;
  allow_unresolved = false;
}

abbrev working : Item
working = record {
  number = 7;
  phase = active;
  message = codes "processing";
  error = [];
  added_at = 5;
  updated_at = 8;
  merged_at = none;
}

abbrev blocked_github : Github
blocked_github = github "blocked" "failure" "failed: lint=failure, build=failure"

-- The delegate runner is not used.
abbrev driving : Drive
driving = record {
  polls = λ k. record { api = blocked_github; checked_at = 30; interrupted = none };
  first = idle;
  rounds = λ k. record { client = idle; context_error = none; posted_at = 30; interrupted = none };
  is_capable = true;
  started = 10;
}
  where
    idle : QueueClient
    idle = record {
      get_pull_request = λ n. ok (pull_in "blocked");
      check_runs = λ head. ok [];
      create_comment = λ n body. none;
      list_comments = λ n since. ok [];
    }

abbrev fix : Pull
fix = record { number = 7; title = "Fix" }

abbrev board : Dashboard
board = new_dashboard 1 "ann"

shown : ShownIn failed (entry_for board (fetcher "blocked" "failure") 0 fix)
unfolding entry_for new_dashboard merge_bot.Review.by_checks merge_bot.Merge.Github.count_checks
    merge_bot.Merge.Github.check_succeeded
shown = (_, refl, refl)

shown_failed-parks_example :
    (e : Error) × (drive 1 config 7 driving ≡ some (some e))
    × ((settled 12 (some e) working).phase ≡ Phase.failed)
unfolding new_dashboard
shown_failed-parks_example =
    shown_failed-parks (api "blocked" "failure") (codes "o/r") (λ m. m) swap_first
      (λ m. Perm.refl m) swapped 1 board (fetcher "blocked" "failure") blocked_source 0 fix shown
      config working driving refl refl refl refl
      (record {
        backs = blocked_client;
        pr = pull_in "blocked";
        read = refl;
        not_merged = refl;
        is_open = refl;
        not_draft = refl;
      })
      12 0
