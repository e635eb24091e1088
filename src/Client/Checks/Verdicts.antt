-- ===== src/Client/Checks/Verdicts.antt =====
-- The checks of internal/ghclient/client.go in front of the runner of internal/merge/runner.go.
use mathlib.Core.List.{Perm}
use merge_bot.Base.{
  ◌≡◌, refl, sym, ap, ◌∙◌, not, List, none, some, String, ℕ, ltb, codes, ◌++◌, if◌then◌else◌,
}
use merge_bot.Merge.Errors.{ok, wrap, sentinel, blocked}
use merge_bot.Merge.Github.{Github, PullRequest, CheckRun, count_checks, runs_call}
use merge_bot.Merge.Gate.{Runner, M, Verdict, ◌>>=◌, pure, ask, wait, fail, pr_text, review_gate}
use merge_bot.Merge.Blocked.{blocked_by_checks, blocked_by_failed, insufficient, handle_blocked}
use merge_bot.Client.{Api}
use merge_bot.Client.Checks.{ByName, checks_by_name, check_runs}
use merge_bot.Client.Checks.Unordered.{check_runs-Perm}

-- GitHub, whose check runs are these.
abbrev pub answering : Github → List CheckRun → Github
answering c runs = record c { check_runs = λ ref. ok runs }

module _ (r : Runner) (c : Github) (pr : PullRequest) (runs others : List CheckRun) where
  blocked_by_failed-answering :
      (failed : ℕ)
      → blocked_by_failed r (answering c runs) pr failed
        ≡ blocked_by_failed r (answering c others) pr failed
  unfolding blocked_by_failed
  blocked_by_failed-answering failed = refl

  -- The runner behind the check runs, by their counts.
  decided : M Verdict → ℕ × ℕ → M Verdict
  decided on_failed (pending, failed) = do
    answer ← ask {A = Unit {0}} tt (runs_call pr.head_sha)
    (if ltb 0 pending
        then pure wait
        else if ltb 0 failed
        then on_failed
        else pure (
            fail (
              wrap
                (pr_text r.number
                  ++ codes " is blocked by branch protection and cannot be merged automatically")
                (sentinel blocked))))

  blocked_by_checks-counts :
      count_checks runs ≡ count_checks others
      → blocked_by_checks r (answering c runs) pr ≡ blocked_by_checks r (answering c others) pr
  unfolding blocked_by_checks decided
  blocked_by_checks-counts same =
      ap (λ counts. decided (blocked_by_failed r (answering c runs) pr counts.1) counts) same
      ∙ ap (λ m. decided m (count_checks others))
          (blocked_by_failed-answering (count_checks others).1)

  -- The runner behind its look at the checks.
  gated : M Verdict → M Verdict
  unfolding review_gate
  gated checked =
      if not r.allow_unresolved
      then (do
        answer ← review_gate r c
        elim (insufficient answer) [ some e ↦ pure (fail e) | none ↦ checked ])
      else checked

  handle_blocked-counts :
      count_checks runs ≡ count_checks others
      → handle_blocked r (answering c runs) pr ≡ handle_blocked r (answering c others) pr
  unfolding handle_blocked gated
  handle_blocked-counts same = ap gated (blocked_by_checks-counts same)

-- In whatever orders two visits of the map of the checks go, `CheckRuns` answers both times, and the
-- runner treats a blocked pull request the same: the same verdict, and the same calls.
pub check_runs-handle_blocked :
    (api : Api) (order again : ByName → ByName) (fuel : ℕ) (ref : String) (by_name : ByName)
    → checks_by_name api fuel ref ≡ some (ok by_name)
    → Perm (order by_name) by_name
    → Perm (again by_name) by_name
    → (runs : List CheckRun) × (others : List CheckRun) × (check_runs api order fuel ref
        ≡ some (ok runs))
      × (check_runs api again fuel ref ≡ some (ok others))
      × ((r : Runner) (c : Github) (pr : PullRequest)
          → handle_blocked r (answering c runs) pr ≡ handle_blocked r (answering c others) pr)
check_runs-handle_blocked api order again fuel ref by_name filled p q =
    let (runs, answered, counted) = check_runs-Perm api order fuel ref by_name filled p in
    let (others, answered_too, counted_too) = check_runs-Perm api again fuel ref by_name filled q in
    (
      runs,
      others,
      answered,
      answered_too,
      (λ r c pr. handle_blocked-counts r c pr runs others (counted ∙ sym counted_too)),
    )
