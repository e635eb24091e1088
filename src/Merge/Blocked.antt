-- ===== src/Merge/Blocked.antt =====
-- internal/merge/runner.go: what the runner does about a pull request that GitHub reports as
-- blocked (`handleBlocked`, `logBlockers`).
pub mod Reads
pub mod Lanes
use merge_bot.Base.{
  ℕ, not, ◌++◌, Bool, Option, none, some, String, Text, codes, show, ltb, if◌then◌else◌,
}
use merge_bot.Merge.Errors.{
  Error, ok, err, wrap, sentinel, required_check_failed, insufficient_approvals, blocked, errors_is,
}
use merge_bot.Merge.Github.{Github, PullRequest, summary_call, runs_call, behind_call, count_checks}
use merge_bot.Merge.Gate.{
  Runner, M, ◌>>=◌, pure, ask, Verdict, wait, fail, pr_text, review_gate, update, update_and_wait,
}

-- Only the names of failed and pending checks are read, for a log line.
unfoldable pub log_blockers : Github → String → M (Unit {0})
log_blockers c head = do answer ← ask (c.check_summary head) (summary_call head); pure tt

unfoldable pub blocked_text : Runner → ℕ → Text
blocked_text r failed =
    pr_text r.number
    ++ codes " blocked by "
    ++ show failed
    ++ codes " failed check(s) on an up-to-date branch"

-- The case of `handleBlocked` with a failed check and none pending.
unfoldable pub blocked_by_failed : Runner → Github → PullRequest → ℕ → M Verdict
unfolding log_blockers update blocked_text
blocked_by_failed r c pr failed = do
  answer ← ask (c.behind_by pr.base_ref pr.head_sha) (behind_call pr.base_ref pr.head_sha)
  elim answer [
    | err e ↦ pure wait
    | ok behind ↦ if ltb 0 behind then update_and_wait r c pr.head_sha else (do
      _ ← log_blockers c pr.head_sha
      pure (fail (wrap (blocked_text r failed) (sentinel required_check_failed))))
  ]

unfoldable pub blocked_by_checks : Runner → Github → PullRequest → M Verdict
blocked_by_checks r c pr = do
  answer ← ask (c.check_runs pr.head_sha) (runs_call pr.head_sha)
  elim answer [
    | err e ↦ pure wait
    | ok runs ↦
        let (pending, failed) = count_checks runs in
        if ltb 0 pending
        then pure wait
        else if ltb 0 failed
        then blocked_by_failed r c pr failed
        else pure (
            fail (
              wrap
                (pr_text r.number
                  ++ codes " is blocked by branch protection and cannot be merged automatically")
                (sentinel blocked)))
  ]

-- Whether the gate's error sends the pull request away for lack of approvals.
abbrev pub insufficient : Bool × Text × Option Error → Option Error
insufficient (passed, reason, none) = none
insufficient (passed, reason, some e) = if errors_is e insufficient_approvals then some e else none

unfoldable pub handle_blocked : Runner → Github → PullRequest → M Verdict
unfolding review_gate
handle_blocked r c pr =
    if not r.allow_unresolved
    then (do
      answer ← review_gate r c
      elim (insufficient answer) [ some e ↦ pure (fail e) | none ↦ blocked_by_checks r c pr ])
    else blocked_by_checks r c pr
