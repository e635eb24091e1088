-- ===== src/Client/Backed/Checked.antt =====
-- The checks of a commit, as the client of internal/ghclient/client.go reads them from the API, before
-- the required checks of internal/merge/runner.go.
use mathlib.Core.List.{Permᴰ}
use mathlib.Core.Option.{some-injective}
use merge_bot.Base.{
  ℕ, ◌≤◌, ◌≡◌, ◌↔◌, refl, sym, ◌∙◌, List, [], Option, none, some, arith, String, ap,
}
use merge_bot.Merge.Errors.{Result, ok, err}
use merge_bot.Merge.Github.{CheckRun}
use merge_bot.Merge.Unstable.Green.{Green}
use merge_bot.Client.{RunData, StatusData, Api, fold_pages, fold_items}
use merge_bot.Client.Pages.{Served, Served-fold_pages, enough_fuel, fold_pages-Served}
use merge_bot.Client.Checks.{
  ByName, add_run, add_status, add_legacy_statuses, with_statuses, checks_by_name, listed_runs,
  check_runs,
}
use merge_bot.Client.Checks.Latest.{or_else, latest_run, first_status}
use merge_bot.Client.Checks.Required.{Passes, check_runs-Green_iff}

-- All check runs and all legacy statuses of a commit, over all pages.
pub record Commit (api : Api) (ref : String) : Type 0 where
  pub runs : List RunData
  pub run_pages : ℕ
  pub runs_served : Served (api.runs_page ref) 0 runs run_pages
  pub statuses : List StatusData
  pub status_pages : ℕ
  pub statuses_served : Served (api.statuses_page ref) 0 statuses status_pages

-- The last completed check run of the name succeeded, or it has no check run and its first legacy
-- status is a success.
abbrev pub PassesIn : {api : Api} {ref : String} → Commit api ref → String → Type 0
PassesIn k name = Passes (or_else (latest_run name k.runs) (first_status name k.statuses))

module _ (api : Api) (order : ByName → ByName) (fuel : ℕ) (ref : String) where
  pub listed_ok :
      (filled : Option (Result ByName)) (listed : List CheckRun)
      → listed_runs order filled ≡ some (ok listed)
      → (m : ByName) × (filled ≡ some (ok m))
  listed_ok none listed h = absurd (ground arith)
  listed_ok (some (err e)) listed h = absurd (ground arith)
  listed_ok (some (ok m)) listed h = (m, refl)

  with_ok :
      (first : Option (Result ByName)) (m : ByName)
      → with_statuses api fuel ref first ≡ some (ok m)
      → (m₀ : ByName) × (first ≡ some (ok m₀)) × (add_legacy_statuses api fuel ref m₀ ≡ some (ok m))
  with_ok none m h = absurd (ground arith)
  with_ok (some (err e)) m h = absurd (ground arith)
  with_ok (some (ok m₀)) m h = (m₀, refl, h)

  listed_some :
      (filled : Option (Result ByName)) (x : Result (List CheckRun))
      → listed_runs order filled ≡ some x
      → (y : Result ByName) × (filled ≡ some y)
  listed_some none x h = absurd (ground arith)
  listed_some (some y) x h = (y, refl)

  with_some :
      (first : Option (Result ByName)) (y : Result ByName)
      → with_statuses api fuel ref first ≡ some y
      → (y₀ : Result ByName) × (first ≡ some y₀)
  with_some none y h = absurd (ground arith)
  with_some (some y₀) y h = (y₀, refl)

  first_of : Option (Result ByName)
  first_of = fold_pages add_run (api.runs_page ref) fuel [] 0

  -- The checks that were listed came from a commit whose pages ended.
  pub Commit-check_runs :
      (listed : List CheckRun) → check_runs api order fuel ref ≡ some (ok listed) → Commit api ref
  unfolding check_runs checks_by_name add_legacy_statuses first_of
  Commit-check_runs listed h =
      let (m, filled) = listed_ok (with_statuses api fuel ref first_of) listed h in
      let (m₀, first, second) = with_ok first_of m filled in
      let (runs, run_pages, runs_served, _) =
        Served-fold_pages add_run (api.runs_page ref) fuel 0 [] m₀ first in
      let (statuses, status_pages, statuses_served, _) =
        Served-fold_pages add_status (api.statuses_page ref) fuel 0 m₀ m second in
      record {
        runs = runs;
        run_pages = run_pages;
        runs_served = runs_served;
        statuses = statuses;
        status_pages = status_pages;
        statuses_served = statuses_served;
      }

  -- If `CheckRuns` returned, there was fuel for the pages of the commit.
  enough_for :
      (k : Commit api ref) (x : Result (List CheckRun))
      → check_runs api order fuel ref ≡ some x
      → (k.run_pages ≤ fuel) × (k.status_pages ≤ fuel)
  unfolding check_runs checks_by_name add_legacy_statuses first_of
  enough_for k x h =
      let (y, filled) = listed_some (with_statuses api fuel ref first_of) x h in
      let (y₀, first) = with_some first_of y filled in
      let enough : k.run_pages ≤ fuel =
        enough_fuel add_run (api.runs_page ref) fuel 0 k.run_pages [] k.runs y₀ k.runs_served
          first in
      let m₀ : ByName = fold_items add_run [] k.runs in
      let first_ok : first_of ≡ some (ok m₀) =
        fold_pages-Served add_run (api.runs_page ref) fuel 0 k.run_pages [] k.runs k.runs_served
          enough in
      (
        enough,
        enough_fuel add_status (api.statuses_page ref) fuel 0 k.status_pages m₀ k.statuses y
            k.statuses_served (ap (with_statuses api fuel ref) (sym first_ok) ∙ filled),
      )

  -- If the pages of the commit end and `CheckRuns` returned, it returned a list, which says of every
  -- name what the commit says.
  pub check_runs-PassesIn :
      ((m : ByName) → Permᴰ m (order m))
      → (k : Commit api ref) (x : Result (List CheckRun)) → check_runs api order fuel ref ≡ some x
      → (listed : List CheckRun) × (x ≡ ok listed)
        × ((name : String) → Green listed name ↔ PassesIn k name)
  check_runs-PassesIn visits k x h =
      let (enough, enough_too) = enough_for k x h in
      let (listed, returned, green) =
        check_runs-Green_iff api order fuel ref visits k.runs k.run_pages k.runs_served enough
          k.statuses k.status_pages k.statuses_served enough_too in
      (listed, some-injective x (ok listed) (sym h ∙ returned), green)
