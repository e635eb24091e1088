-- ===== src/Merge/Runner.antt =====
-- internal/merge/runner.go: one inspection of a pull request (`step`) and the polling loop (`Run`).
pub mod Safety
pub mod Writes
pub mod Done
pub mod Loop
use merge_bot.Base.{
  ℕ, zero, suc, ◌+◌, duration_text, not, ◌||◌, List, ◌++◌, Option, none, some, String, str_eq,
  codes, ltb, if◌then◌else◌,
}
use merge_bot.Merge.Errors.{Error, ok, err, wrap, plain, sentinel, conflicts, is_rate_limited}
use merge_bot.Merge.Github.{Github, PullRequest, Call, pull_call}
use merge_bot.Merge.Gate.{
  Runner, M, ◌>>=◌, pure, ask, Verdict, wait, done, fail, pr_text, try_merge, update_and_wait,
}
use merge_bot.Merge.Blocked.{handle_blocked}
use merge_bot.Merge.Unstable.{try_merge_unstable}

abbrev pub not_open : Runner → String → Error
not_open r state = plain (pr_text r.number ++ codes " is " ++ codes state ++ codes ", not open")

abbrev pub is_a_draft : Runner → Error
is_a_draft r = plain (pr_text r.number ++ codes " is a draft")

-- The `switch` on mergeable_state. Its cases "", "unknown" and `default` only wait.
unfoldable pub dispatch : Runner → Github → PullRequest → M Verdict
dispatch r c pr =
    let state = pr.mergeable_state in
    if str_eq state "clean" || str_eq state "has_hooks"
    then try_merge r c
    else if str_eq state "unstable"
    then try_merge_unstable r c pr
    else if str_eq state "behind"
    then update_and_wait r c pr.head_sha
    else if str_eq state "blocked"
    then handle_blocked r c pr
    else if str_eq state "dirty"
    then pure (
        fail (
          wrap (pr_text r.number ++ codes " has merge conflicts; resolve them manually")
            (sentinel conflicts)))
    else if str_eq state "draft"
    then pure (fail (is_a_draft r))
    else pure wait

-- The guards of `step` on a pull request that was read.
unfoldable pub inspect : Runner → Github → PullRequest → M Verdict
inspect r c pr =
    if pr.merged
    then pure done
    else if not (str_eq pr.state "open")
    then pure (fail (not_open r pr.state))
    else if pr.draft
    then pure (fail (is_a_draft r))
    else dispatch r c pr

unfoldable pub unreadable : Runner → Error → Verdict
unreadable r e =
    if is_rate_limited e then wait else fail (wrap (codes "get " ++ pr_text r.number) e)

unfoldable pub step : Runner → Github → M Verdict
unfolding unreadable
step r c = do
  answer ← ask (c.get_pull_request r.number) (pull_call r.number)
  elim answer [ err e ↦ pure (unreadable r e) | ok pr ↦ inspect r c pr ]

-- What one round of the loop of `Run` meets: the answers of the API, the clock when the deadline is
-- looked at, and the error of the context, if the wait ends by its cancellation.
pub record Poll : Type 0 where
  pub api : Github
  pub checked_at : ℕ
  pub interrupted : Option Error

-- How `Run` ends: its error, with all calls that were made.
abbrev pub Ending : Type 0
Ending = Option Error × List Call

abbrev pub gave_up : Runner → Error
gave_up r = plain (
    codes "gave up after "
    ++ duration_text r.timeout
    ++ codes " without merging "
    ++ pr_text r.number)

abbrev pub after_calls : List Call → Option Ending → Option Ending
after_calls calls none = none
after_calls calls (some (error, later)) = some (error, calls ++ later)

-- The part of a round behind `step`; `rest` is the rounds that follow.
unfoldable pub after_step : Runner → ℕ → Poll → M Verdict → Option Ending → Option Ending
after_step r deadline poll ((finished, some e), calls) rest = some (some e, calls)
after_step r deadline poll ((finished, none), calls) rest =
    if finished
    then some (none, calls)
    else if r.dry_run
    then some (none, calls)
    else if ltb deadline poll.checked_at
    then some (some (gave_up r), calls)
    else elim poll.interrupted [ some e ↦ some (some e, calls) | none ↦ after_calls calls rest ]

-- The rounds from round `k` on, as far as the fuel goes; `none` says that the loop still runs.
unfoldable pub run_from : ℕ → Runner → ℕ → (ℕ → Poll) → ℕ → Option Ending
unfolding after_step
run_from zero r deadline polls k = none
run_from (suc fuel) r deadline polls k =
    let rest = run_from fuel r deadline polls (suc k) in
    after_step r deadline (polls k) (step r (polls k).api) rest

-- `Run`, called at the time `now`.
unfoldable pub run : ℕ → Runner → ℕ → (ℕ → Poll) → Option Ending
unfolding run_from
run fuel r now polls = run_from fuel r (now + r.timeout) polls 0
