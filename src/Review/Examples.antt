-- ===== src/Review/Examples.antt =====
-- Refreshes of the dashboard of internal/review/dashboard.go with two pull requests.
use merge_bot.Base.{
  ℕ, ◌≡◌, ◌↔◌, refl, true, false, List, [], ◌∷◌, none, String, ◌==◌, if◌then◌else◌,
}
use merge_bot.Merge.Errors.{ok}
use merge_bot.Merge.Github.{ReviewStatus, CheckRun, count_checks, check_succeeded}
use merge_bot.Review.{
  Pull, failed, Entry, Fetcher, Dashboard, new_dashboard, Pass, refresh, entry_for, by_checks,
}
use merge_bot.Review.Dead.{ShownIn, Dead, failed-Dead}

abbrev fix : Pull
fix = record { number = 7; title = "Fix" }

abbrev docs : Pull
docs = record { number = 8; title = "Docs" }

abbrev approved_status : ReviewStatus
approved_status = record {
  unresolved_threads = 0;
  more_threads = false;
  review_decision = "APPROVED";
  approvals = 2;
}

abbrev red : List CheckRun
red = record { name = "build"; completed = true; conclusion = "failure" } ∷ []

-- Pull request 7 is blocked by a failed check, all others are clean.
abbrev fetcher : Fetcher
fetcher = record {
  current_user = ok "ann";
  list_open_prs = λ author. ok (fix ∷ docs ∷ []);
  pull_state = λ n. ok (if n == 7 then "blocked" else "clean", "main", "c0ffee");
  behind_by = λ base head. ok 0;
  check_runs = λ head. ok red;
  review_status = λ n. ok approved_status;
  list_comments = λ n since. ok [];
}

abbrev board : Dashboard
board = new_dashboard 1 ""

-- The second goroutine writes before the first.
abbrev pass : Pass
pass = record { now = 0; order = 1 ∷ 0 ∷ []; interrupted = none }

abbrev shown : Dashboard → List (ℕ × String)
shown d = hints d.entries
  where
    hints : List Entry → List (ℕ × String)
    hints [] = []
    hints (e ∷ es) = (e.number, e.hint) ∷ hints es

shown-refresh : shown (refresh fetcher pass board).0 ≡ (7, "required check failed") ∷ (8, "") ∷ []
unfolding refresh new_dashboard entry_for by_checks count_checks check_succeeded
shown-refresh = refl

failed-Dead_example : ShownIn failed (entry_for board fetcher 0 fix) ↔ Dead board fetcher 7
failed-Dead_example = failed-Dead board fetcher 0 fix

shown_failed : ShownIn failed (entry_for board fetcher 0 fix)
unfolding entry_for new_dashboard by_checks count_checks check_succeeded
shown_failed = (_, refl, refl)
