-- ===== src/Client.antt =====
-- internal/ghclient/client.go: the client of the GitHub API. The owner and the repository, which
-- every call passes on, are left out. What go-github, encoding/json and the HTTP client answer is not
-- part of the program: a value of `Api` is what they answer.
pub mod RateLimit
pub mod Pages
pub mod Checks
pub mod Graphql
pub mod Backed
pub mod Options
mod Examples
use merge_bot.Base.{
  ℕ, zero, Bool, false, not, List, [], ◌∷◌, ◌++◌, Option, none, some, String, str_eq, Text, codes,
  join, ◌==◌, suc, ◌+◌, if◌then◌else◌,
}
use merge_bot.Merge.Errors.{Error, Result, ok, err, is_accepted}
use merge_bot.Merge.Github.{PullRequest, check_succeeded}
use merge_bot.Merge.Signals.{Comment, Since}
use merge_bot.Review.{Pull}

-- One page of an answer, and the number of the next page, 0 on the last one.
pub record Page (A : Type 0) : Type 0 where
  pub items : List A
  pub next_page : ℕ

-- What the client reads of a `github.CheckRun` and of a `github.RepoStatus`.
pub record RunData : Type 0 where
  pub name : String
  pub status : String
  pub conclusion : String

pub record StatusData : Type 0 where
  pub context : String
  pub state : String

-- `github.RequiredStatusChecks`: its two fields may be nil, and so may a check.
pub record RequiredData : Type 0 where
  pub checks : Option (List (Option String))
  pub contexts : Option (List String)

-- The answer about a branch's required checks; an error has the status code of its response, if any.
pub data Protection : Type 0 where
  protected : RequiredData → Protection
  unanswered : Option ℕ → Error → Protection

-- The answer to the GraphQL query: an error of the exchange; another status than 200, by its error; a
-- body that is not JSON; or the decoded body, with the messages of its errors.
pub record ReviewData : Type 0 where
  pub review_decision : String
  pub opinions : List String
  pub threads : List Bool
  pub has_next_page : Bool

pub data GraphqlAnswer : Type 0 where
  unsent : Error → GraphqlAnswer
  not_ok : Text → Text → GraphqlAnswer
  undecodable : Error → GraphqlAnswer
  decoded : List Text → ReviewData → GraphqlAnswer

pub record Api : Type 0 where
  pub get_pull : ℕ → Result PullRequest
  pub compare_commits : String → String → Result ℕ
  pub issue_comments : ℕ → Option Since → ℕ → Result (Page Comment)
  pub create_issue_comment : ℕ → Text → Option Error
  pub get_user : Result String
  pub search_issues : Text → ℕ → Result (Page Pull)
  pub update_pull : ℕ → Option String → Option Error
  pub merge_pull : ℕ → String → Option Error
  pub first_runs : String → Result (List RunData)
  pub runs_page : String → ℕ → Result (Page RunData)
  pub statuses_page : String → ℕ → Result (Page StatusData)
  pub required_status_checks : String → Protection
  pub graphql : ℕ → GraphqlAnswer

abbrev pub map_ok {ℓ κ} : {A : Type ℓ} {B : Type κ} → (A → B) → Result A → Result B
map_ok f (ok a) = ok (f a)
map_ok f (err e) = err e

-- `PullState`
unfoldable pub pull_state : Api → ℕ → Result (String × String × String)
pull_state api number =
    map_ok (λ pr. (pr.mergeable_state, pr.base_ref, pr.head_sha)) (api.get_pull number)

-- The loop over the items of a page.
unfoldable pub fold_items {ℓ} : {A : Type 0} {S : Type ℓ} → (S → A → S) → S → List A → S
fold_items step out [] = out
fold_items step out (a ∷ items) = fold_items step (step out a) items

-- The loop over the pages of a listing, from a page on, into what was collected so far; `none` if
-- the fuel does not suffice.
unfoldable pub fold_pages {ℓ} :
    {A : Type 0} {S : Type ℓ} → (S → A → S) → (ℕ → Result (Page A)) → ℕ → S → ℕ → Option (Result S)
unfolding fold_items
fold_pages step fetch zero out page = none
fold_pages step fetch (suc fuel) out page = elim (fetch page) [
  | err e ↦ some (err e)
  | ok answer ↦
      let collected = fold_items step out answer.items in
      let rest = fold_pages step fetch fuel collected answer.next_page in
      if answer.next_page == 0 then some (ok collected) else rest
]

-- `out = append(out, item)`
abbrev pub snoc {ℓ} : {A : Type ℓ} → List A → A → List A
snoc out a = out ++ a ∷ []

unfoldable pub list_comments : Api → ℕ → ℕ → Option Since → Option (Result (List Comment))
unfolding fold_pages
list_comments api fuel number since = fold_pages snoc (api.issue_comments number since) fuel [] 0

unfoldable pub search_query : Text → Text → Text
search_query full_name author =
    codes "repo:" ++ full_name ++ codes " is:pr is:open draft:false author:" ++ author

unfoldable pub list_open_prs : Api → Text → ℕ → Text → Option (Result (List Pull))
unfolding fold_pages search_query
list_open_prs api full_name fuel author =
    fold_pages snoc (api.search_issues (search_query full_name author)) fuel [] 0

abbrev pub unless_accepted : Option Error → Option Error
unless_accepted none = none
unless_accepted (some e) = if is_accepted e then none else some e

unfoldable pub update_branch : Api → ℕ → String → Option Error
update_branch api number expected =
    unless_accepted (api.update_pull number (if str_eq expected "" then none else some expected))

-- The loop of `CheckSummary`, on (failed, pending), by their names.
abbrev pub sort_run : List Text × List Text → RunData → List Text × List Text
sort_run (failed, pending) run =
    if not (str_eq run.status "completed")
    then (failed, snoc pending (codes run.name))
    else if check_succeeded run.conclusion
    then (failed, pending)
    else (snoc failed (codes run.name ++ codes "=" ++ codes run.conclusion), pending)

abbrev pub labelled : Text → List Text → List Text
labelled label [] = []
labelled label (name ∷ names) = (label ++ join (codes ", ") (name ∷ names)) ∷ []

abbrev pub summary_of : List Text × List Text → Text
summary_of (failed, pending) =
    join (codes "; ") (labelled (codes "failed: ") failed ++ labelled (codes "pending: ") pending)

-- The first page only.
unfoldable pub check_summary : Api → String → Result Text
unfolding fold_items join
check_summary api ref =
    map_ok (λ runs. summary_of (fold_items sort_run ([], []) runs)) (api.first_runs ref)

abbrev pub add_required : List String → Option String → List String
add_required names none = names
add_required names (some context) = if str_eq context "" then names else snoc names context

abbrev pub listed {ℓ} : {A : Type ℓ} → Option (List A) → List A
listed none = []
listed (some items) = items

abbrev pub or_contexts : List String → Option (List String) → List String
or_contexts [] contexts = listed contexts
or_contexts (name ∷ names) contexts = name ∷ names

-- The names in `Checks`, or else those in its predecessor `Contexts`.
unfoldable pub required_names : RequiredData → List String
unfolding fold_items
required_names rsc = or_contexts (fold_items add_required [] (listed rsc.checks)) rsc.contexts

abbrev pub is_not_found : Option ℕ → Bool
is_not_found none = false
is_not_found (some code) = code == 404

abbrev pub names_of : Protection → Result (List String)
names_of (protected rsc) = ok (required_names rsc)
names_of (unanswered code e) = if is_not_found code then ok [] else err e

unfoldable pub required_checks : Api → String → Result (List String)
unfolding required_names
required_checks api branch = names_of (api.required_status_checks branch)

-- The calls that are passed on as they are.
unfoldable pub get_pull_request : Api → ℕ → Result PullRequest
get_pull_request api number = api.get_pull number

unfoldable pub behind_by : Api → String → String → Result ℕ
behind_by api base head = api.compare_commits base head

unfoldable pub create_comment : Api → ℕ → Text → Option Error
create_comment api number body = api.create_issue_comment number body

unfoldable pub current_user : Api → Result String
current_user api = api.get_user

unfoldable pub merge_pull_request : Api → ℕ → String → Option Error
merge_pull_request api number method = api.merge_pull number method
