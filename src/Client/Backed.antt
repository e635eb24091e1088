-- ===== src/Client/Backed.antt =====
-- The client of internal/ghclient/client.go behind the interfaces of the runner
-- (internal/merge/runner.go) and of the dashboard (internal/review/dashboard.go). Calls that list pages
-- are on fuel: a client stands behind an interface if each of its calls comes to an end.
pub mod Checked
pub mod Merges
pub mod Declines
mod Examples
use merge_bot.Base.{ℕ, ◌≡◌, some, String, Text, codes}
use merge_bot.Merge.Github.{Github}
use merge_bot.Merge.Signals.{Since}
use merge_bot.Review.{Fetcher}
use merge_bot.Client.{
  Api, pull_state, list_comments, list_open_prs, update_branch, check_summary, required_checks,
  get_pull_request, behind_by, current_user, merge_pull_request,
}
use merge_bot.Client.Checks.{ByName, check_runs}
use merge_bot.Client.Graphql.{review_status}

-- Every method of the runner's interface is answered by the client.
pub record Backs (api : Api) (order : ByName → ByName) (fuel : ℕ) (c : Github) : Type 0 where
  pub pulls : (n : ℕ) → c.get_pull_request n ≡ get_pull_request api n
  pub updates : (n : ℕ) (head : String) → c.update_branch n head ≡ update_branch api n head
  pub merges : (n : ℕ) (method : String) → c.merge n method ≡ merge_pull_request api n method
  pub summaries : (ref : String) → c.check_summary ref ≡ check_summary api ref
  pub reviews : (n : ℕ) → c.review_status n ≡ review_status api n
  pub required : (branch : String) → c.required_checks branch ≡ required_checks api branch
  pub runs : (ref : String) → check_runs api order fuel ref ≡ some (c.check_runs ref)
  pub compared : (base head : String) → c.behind_by base head ≡ behind_by api base head

-- And every method of the dashboard's interface, for a repository.
pub record Feeds (api : Api) (full_name : Text) (order : ByName → ByName) (fuel : ℕ) (f : Fetcher)
    : Type 0 where
  pub user : f.current_user ≡ current_user api
  pub open_prs :
      (author : String)
      → list_open_prs api full_name fuel (codes author) ≡ some (f.list_open_prs author)
  pub states : (n : ℕ) → f.pull_state n ≡ pull_state api n
  pub compared : (base head : String) → f.behind_by base head ≡ behind_by api base head
  pub runs : (ref : String) → check_runs api order fuel ref ≡ some (f.check_runs ref)
  pub reviews : (n : ℕ) → f.review_status n ≡ review_status api n
  pub comments :
      (n : ℕ) (since : Since)
      → list_comments api fuel n (some since) ≡ some (f.list_comments n since)
