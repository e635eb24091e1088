-- ===== src/Merge/Github.antt =====
-- The data that internal/merge reads from GitHub, and the part of the GitHub API that the
-- runner depends on (internal/merge/runner.go). The API is not part of the program: a value of
-- `Github` is what it answers during one inspection of a pull request.
pub mod Counting
use merge_bot.Base.{
  ℕ, ◌+◌, leb, Bool, false, not, ◌||◌, List, [], ◌∷◌, Option, String, str_eq, Text, if◌then◌else◌,
}
use merge_bot.Merge.Errors.{Error, Result}

-- What the runner reads of a `github.PullRequest`, through its getters.
pub record PullRequest : Type 0 where
  pub merged : Bool
  pub state : String
  pub draft : Bool
  pub mergeable_state : String
  pub head_sha : String
  pub base_ref : String

pub record ReviewStatus : Type 0 where
  pub unresolved_threads : ℕ
  pub more_threads : Bool
  pub review_decision : String
  pub approvals : ℕ

pub record CheckRun : Type 0 where
  pub name : String
  pub completed : Bool
  pub conclusion : String

-- A method that returns only an `error` answers `none` for nil.
pub record Github : Type 0 where
  pub get_pull_request : ℕ → Result PullRequest
  pub update_branch : ℕ → String → Option Error
  pub merge : ℕ → String → Option Error
  pub check_summary : String → Result Text
  pub review_status : ℕ → Result ReviewStatus
  pub required_checks : String → Result (List String)
  pub check_runs : String → Result (List CheckRun)
  pub behind_by : String → String → Result ℕ

-- The calls of the API, with their arguments.
pub data Call : Type 0 where
  pull_call : ℕ → Call
  update_call : ℕ → String → Call
  merge_call : ℕ → String → Call
  summary_call : String → Call
  review_call : ℕ → Call
  required_call : String → Call
  runs_call : String → Call
  behind_call : String → String → Call

unfoldable pub check_succeeded : String → Bool
check_succeeded conclusion =
    str_eq conclusion "success" || str_eq conclusion "skipped" || str_eq conclusion "neutral"

-- One round of the loop of `CountChecks`, on (pending, failed).
abbrev pub count_check : CheckRun → ℕ × ℕ → ℕ × ℕ
count_check run (pending, failed) =
    if not run.completed
    then (pending + 1, failed)
    else if not (check_succeeded run.conclusion)
    then (pending, failed + 1)
    else (pending, failed)

count_checks_from : ℕ × ℕ → List CheckRun → ℕ × ℕ
count_checks_from counts [] = counts
count_checks_from counts (run ∷ runs) = count_checks_from (count_check run counts) runs

unfoldable pub count_checks : List CheckRun → ℕ × ℕ
unfolding count_checks_from
count_checks runs = count_checks_from (0, 0) runs

unfoldable pub approvals_met : ReviewStatus → ℕ → Bool
approvals_met status min_approvals =
    if str_eq status.review_decision "REVIEW_REQUIRED"
      || str_eq status.review_decision "CHANGES_REQUESTED"
    then false
    else leb min_approvals status.approvals
