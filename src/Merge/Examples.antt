-- ===== src/Merge/Examples.antt =====
-- Inspections of pull request 7, for internal/merge/runner.go.
use merge_bot.Base.{
  ℕ, zero, suc, ◌*◌, ◌<◌, ◌≡◌, ◌≢◌, refl, inl, inr, true, false, List, [], ◌∷◌, none, some, arith,
  String, str_eq, str_eq_iff,
}
use merge_bot.Merge.Errors.{ok}
use merge_bot.Merge.Github.{Github, PullRequest, ReviewStatus, CheckRun, Call, check_succeeded}
use merge_bot.Merge.Gate.{Runner, update, try_merge}
use merge_bot.Merge.Gate.Clears.{Merges, Clears}
use merge_bot.Merge.Blocked.{handle_blocked}
use merge_bot.Merge.Blocked.Lanes.{
  UnderApproved, Lands, for_update, stale_failure, approved, handle_blocked-Lands,
}
use merge_bot.Merge.Runner.{step, inspect, dispatch, run, Poll, Ending}
use merge_bot.Merge.Runner.Safety.{step-Merges_iff}
use merge_bot.Merge.Runner.Writes.{IsCareful, step-IsCareful}
use merge_bot.Merge.Runner.Done.{Merged}
use merge_bot.Merge.Runner.Loop.{run_ends, run_nil}

abbrev runner : Runner
runner = record {
  number = 7;
  interval = 30;
  timeout = 60;
  merge_method = "squash";
  min_approvals = 1;
  allow_unstable = false;
  allow_unresolved = false;
  dry_run = false;
}

abbrev pull_request : String → PullRequest
pull_request state = record {
  merged = false;
  state = "open";
  draft = false;
  mergeable_state = state;
  head_sha = "c0ffee";
  base_ref = "main";
}

abbrev review : ReviewStatus
review = record {
  unresolved_threads = 0;
  more_threads = false;
  review_decision = "APPROVED";
  approvals = 2;
}

abbrev check : String → String → CheckRun
check name conclusion = record { name = name; completed = true; conclusion = conclusion }

abbrev runs : List CheckRun
runs = check "build" "failure" ∷ check "lint" "success" ∷ check "build" "success" ∷ []

-- GitHub with pull request 7 in a state, its branch two commits behind.
abbrev github : String → Github
github state = record {
  get_pull_request = λ n. ok (pull_request state);
  update_branch = λ n head. none;
  merge = λ n method. none;
  check_summary = λ head. ok [];
  review_status = λ n. ok review;
  required_checks = λ base. ok ("build" ∷ []);
  check_runs = λ head. ok runs;
  behind_by = λ base head. ok 2;
}

-- It is behind in the first round, and clean from then on.
abbrev state_at : ℕ → String
state_at zero = "behind"
state_at (suc k) = "clean"

abbrev polls : ℕ → Poll
polls k = record { api = github (state_at k); checked_at = 30 * k; interrupted = none }

abbrev stuck : ℕ → Poll
stuck k = record { api = github "unknown"; checked_at = 30 * k; interrupted = none }

differs_of : (s t : String) → str_eq s t ≡ false → s ≢ t
differs_of s t h e = ground (arith, str_eq_iff s t)

review-Clears : Clears runner review
review-Clears = record {
  not_required = differs_of "APPROVED" "REVIEW_REQUIRED" refl;
  enough = omega arith;
  no_changes = differs_of "APPROVED" "CHANGES_REQUESTED" refl;
  resolved = refl;
}

step-Merges_iff_example : Merges runner (step runner (github "unstable")).1
step-Merges_iff_example = (step-Merges_iff runner (github "unstable")).1 (record {
  pr = pull_request "unstable";
  read = refl;
  not_merged = refl;
  is_open = refl;
  not_draft = refl;
  state_clears = inr (
      inr (
        refl,
        inr (
          "build" ∷ [],
          refl,
          inr (runs, refl, ((check "build" "success", refl, refl, inl refl), tt)),
        ),
      ));
  review_clears = inr (review, refl, review-Clears);
  not_dry = refl;
})

step-IsCareful_example : IsCareful runner (step runner (github "behind")).1
step-IsCareful_example = step-IsCareful runner (github "behind")

run_ends_example : (x : Ending) × (run 4 runner 0 stuck ≡ some x)
run_ends_example = run_ends runner 0 3 4 stuck (omega arith) (omega arith)

ends_well : (calls : List Call) × (run 4 runner 0 polls ≡ some (none, calls))
unfolding run step inspect dispatch update try_merge
ends_well = (_, refl)

run_nil_example : (round : ℕ) × (round < 4) × Merged runner (polls round).api
run_nil_example = run_nil runner 0 4 polls refl ends_well.1

not-UnderApproved : ¬ UnderApproved runner review
not-UnderApproved (inl e) = differs_of "APPROVED" "REVIEW_REQUIRED" refl e
not-UnderApproved (inr few) = omega arith

handle_blocked-Lands_example :
    Lands runner
      (pull_request "blocked")
      for_update
      (handle_blocked runner (github "blocked") (pull_request "blocked"))
unfolding check_succeeded
handle_blocked-Lands_example =
    handle_blocked-Lands runner (github "blocked") (pull_request "blocked") (
      stale_failure runs 2 (approved review refl not-UnderApproved) refl (refl, (refl, (refl, tt)))
        (inl (refl, refl)) refl (omega arith) refl)
