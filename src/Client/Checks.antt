-- ===== src/Client/Checks.antt =====
-- internal/ghclient/client.go: the checks of a commit, from check runs and from the legacy statuses
-- (`CheckRuns`, `addLegacyStatuses`, `statusConclusion`).
pub mod Latest
pub mod Unordered
pub mod Verdicts
pub mod Keyed
pub mod Required
use merge_bot.Base.{
  ℕ, Bool, false, not, ◌&&◌, ◌||◌, List, [], ◌∷◌, Option, none, some, String, str_eq, lookup,
  insert, if◌then◌else◌,
}
use merge_bot.Merge.Errors.{Result, ok, err}
use merge_bot.Merge.Github.{CheckRun}
use merge_bot.Client.{RunData, StatusData, Api, fold_pages}

abbrev pub ByName : Type 0
ByName = List (String × CheckRun)

unfoldable pub run_of : RunData → CheckRun
run_of run = record {
  name = run.name;
  completed = str_eq run.status "completed";
  conclusion = run.conclusion;
}

-- A completed run is not replaced by one that is not completed.
abbrev pub outranked : Option CheckRun → CheckRun → Bool
outranked none run = false
outranked (some prev) run = prev.completed && not run.completed

unfoldable pub add_run : ByName → RunData → ByName
unfolding run_of
add_run by_name run =
    if outranked (lookup run.name by_name) (run_of run)
    then by_name
    else insert run.name (run_of run) by_name

unfoldable pub status_conclusion : String → String
status_conclusion state =
    if str_eq state "success"
    then "success"
    else if str_eq state "failure" || str_eq state "error"
    then "failure"
    else ""

unfoldable pub run_of_status : StatusData → CheckRun
unfolding status_conclusion
run_of_status status = record {
  name = status.context;
  completed =
      str_eq status.state "success" || str_eq status.state "failure" || str_eq status.state "error";
  conclusion = status_conclusion status.state;
}

unfoldable pub add_status : ByName → StatusData → ByName
unfolding run_of_status
add_status by_name status = elim (lookup status.context by_name) [
  | some run ↦ by_name
  | none ↦ insert status.context (run_of_status status) by_name
]

unfoldable pub add_legacy_statuses : Api → ℕ → String → ByName → Option (Result ByName)
unfolding fold_pages add_status
add_legacy_statuses api fuel ref by_name =
    fold_pages add_status (api.statuses_page ref) fuel by_name 0

-- The map that `CheckRuns` fills.
abbrev pub with_statuses : Api → ℕ → String → Option (Result ByName) → Option (Result ByName)
with_statuses api fuel ref none = none
with_statuses api fuel ref (some (err e)) = some (err e)
with_statuses api fuel ref (some (ok by_name)) = add_legacy_statuses api fuel ref by_name

unfoldable pub checks_by_name : Api → ℕ → String → Option (Result ByName)
unfolding add_legacy_statuses add_run
checks_by_name api fuel ref =
    with_statuses api fuel ref (fold_pages add_run (api.runs_page ref) fuel [] 0)

-- The loop over the map, in the order that Go visits it.
unfoldable pub values : ByName → List CheckRun
values [] = []
values ((name, run) ∷ entries) = run ∷ values entries

abbrev pub listed_runs :
    (ByName → ByName) → Option (Result ByName) → Option (Result (List CheckRun))
listed_runs order none = none
listed_runs order (some (err e)) = some (err e)
listed_runs order (some (ok by_name)) = some (ok (values (order by_name)))

unfoldable pub check_runs : Api → (ByName → ByName) → ℕ → String → Option (Result (List CheckRun))
unfolding checks_by_name values
check_runs api order fuel ref = listed_runs order (checks_by_name api fuel ref)
