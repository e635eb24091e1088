-- ===== src/Client/Examples.antt =====
-- Requests of internal/ghclient/client.go, with two pages of comments and one of all else.
use mathlib.Core.List.{Permᴰ}
use mathlib.Core.List.Permᴰ
use mathlib.Core.List.Perm
use merge_bot.Base.{
  ℕ, ◌≡◌, ◌↔◌, refl, Bool, true, false, List, [], ◌∷◌, none, some, arith, String, codes, lookup,
  insert, ◌==◌, if◌then◌else◌,
}
use merge_bot.Merge.Errors.{ok, err, accepted, plain, is_accepted}
use merge_bot.Merge.Github.{Github, PullRequest, CheckRun, check_succeeded}
use merge_bot.Merge.Signals.{Comment}
use merge_bot.Client.{
  list_comments, Page, RunData, StatusData, protected, ReviewData, decoded, Api, update_branch,
  check_summary, required_checks,
}
use merge_bot.Client.Pages.{last_page}
use merge_bot.Client.Checks.{ByName, checks_by_name, check_runs}
use merge_bot.Client.Checks.Latest.{or_else, latest_run, first_status}
use merge_bot.Client.Checks.Required.{Passes, check_runs-Green_iff}
use merge_bot.Merge.Unstable.Green.{Green}
use merge_bot.Client.Checks.Verdicts.{answering, check_runs-handle_blocked}
use merge_bot.Merge.Gate.{Runner}
use merge_bot.Merge.Blocked.{handle_blocked}
use merge_bot.Client.Graphql.{review_status, counted_status, review_status-counted}

abbrev comment : ℕ → Comment
comment at = record { author = codes "bot"; body = codes "hi"; created_at = at }

abbrev first_comments : Page Comment
first_comments = record { items = comment 1 ∷ comment 2 ∷ []; next_page = 2 }

abbrev last_comments : Page Comment
last_comments = record { items = comment 3 ∷ []; next_page = 0 }

abbrev run_data : String → String → String → RunData
run_data name status conclusion = record { name = name; status = status; conclusion = conclusion }

-- The build has failed and runs again; the lint runs for the first time.
abbrev runs_answer : Page RunData
runs_answer = record {
  items =
      run_data "build" "completed" "failure"
      ∷ run_data "lint" "queued" ""
      ∷ run_data "build" "in_progress" ""
      ∷ [];
  next_page = 0;
}

abbrev statuses_answer : Page StatusData
statuses_answer = record {
  items =
      record { context = "build"; state = "success" }
      ∷ record { context = "deploy"; state = "success" }
      ∷ record { context = "deploy"; state = "pending" }
      ∷ [];
  next_page = 0;
}

abbrev review_data : ReviewData
review_data = record {
  review_decision = "APPROVED";
  opinions = "APPROVED" ∷ "COMMENTED" ∷ "APPROVED" ∷ [];
  threads = true ∷ false ∷ [];
  has_next_page = false;
}

abbrev api : Api
api = record {
  get_pull = λ n. err (plain []);
  compare_commits = λ base head. ok 0;
  issue_comments = λ n since page. ok (if page == 2 then last_comments else first_comments);
  create_issue_comment = λ n body. none;
  get_user = ok "ann";
  search_issues = λ query page. ok (record { items = []; next_page = 0 });
  update_pull = λ n head. some accepted;
  merge_pull = λ n method. none;
  first_runs = λ ref. ok runs_answer.items;
  runs_page = λ ref page. ok runs_answer;
  statuses_page = λ ref page. ok statuses_answer;
  required_status_checks = λ branch.
      protected (record { checks = some (none ∷ some "" ∷ some "build" ∷ []); contexts = none });
  graphql = λ n. decoded [] review_data;
}

update_accepted : update_branch api 7 "c0ffee" ≡ none
unfolding update_branch is_accepted
update_accepted = refl

required_listed : required_checks api "main" ≡ ok ("build" ∷ [])
unfolding required_checks
required_listed = refl

summary_listed :
    check_summary api "c0ffee" ≡ ok (codes "failed: build=failure; pending: lint, build")
unfolding check_summary check_succeeded
summary_listed = refl

comments_listed : list_comments api 2 7 none ≡ some (ok (comment 1 ∷ comment 2 ∷ comment 3 ∷ []))
unfolding list_comments
comments_listed = refl

abbrev check : String → Bool → String → String × CheckRun
check name completed conclusion =
    (name, record { name = name; completed = completed; conclusion = conclusion })

abbrev filled : ByName
filled = check "build" true "failure" ∷ check "lint" false "" ∷ check "deploy" true "success" ∷ []

abbrev swap_first : ByName → ByName
swap_first (a ∷ b ∷ entries) = b ∷ a ∷ entries
swap_first (a ∷ []) = a ∷ []
swap_first [] = []

map_filled : checks_by_name api 5 "c0ffee" ≡ some (ok filled)
unfolding checks_by_name lookup insert
map_filled = refl

check_runs-handle_blocked_example :
    (runs : List CheckRun) × (others : List CheckRun) × (check_runs api swap_first 5 "c0ffee"
      ≡ some (ok runs))
    × (check_runs api (λ by_name. by_name) 5 "c0ffee" ≡ some (ok others))
    × ((r : Runner) (c : Github) (pr : PullRequest)
        → handle_blocked r (answering c runs) pr ≡ handle_blocked r (answering c others) pr)
check_runs-handle_blocked_example =
    check_runs-handle_blocked api swap_first (λ by_name. by_name) 5 "c0ffee" filled map_filled
      (Perm.swap _ _ _) (Perm.refl filled)

review_status-counted_example : (review_status api 7 ≡ ok (counted_status review_data)) ↔ (
    (pr : ReviewData) × (api.graphql 7 ≡ decoded [] pr)
    × (counted_status review_data ≡ counted_status pr))
review_status-counted_example = review_status-counted api 7 (counted_status review_data)

visited_swapped : (m : ByName) → Permᴰ m (swap_first m)
visited_swapped [] = Permᴰ.nil
visited_swapped (a ∷ []) = Permᴰ.refl (a ∷ [])
visited_swapped (a ∷ b ∷ m) = Permᴰ.swap refl refl

check_runs-Green_iff_example :
    (listed : List CheckRun) × (check_runs api swap_first 5 "c0ffee" ≡ some (ok listed))
    × ((name : String)
        → Green listed name
          ↔ Passes (
              or_else
                (latest_run name runs_answer.items)
                (first_status name statuses_answer.items)))
check_runs-Green_iff_example =
    check_runs-Green_iff api swap_first 5 "c0ffee" visited_swapped runs_answer.items 1
      (last_page 0 runs_answer refl refl) (omega arith) statuses_answer.items 1
      (last_page 0 statuses_answer refl refl) (omega arith)
