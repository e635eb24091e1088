-- ===== src/Merge/Blocked/Reads.antt =====
-- The calls made for a blocked pull request by internal/merge/runner.go.
use merge_bot.Base.{ℕ, inl, inr, arith, String}
use merge_bot.Merge.Errors.{Result-cases}
use merge_bot.Merge.Github.{Github, PullRequest, count_checks}
use merge_bot.Merge.Gate.{Runner, update_and_wait, update}
use merge_bot.Merge.Gate.Clears.{Merges}
use merge_bot.Merge.Blocked.{blocked_by_failed, blocked_by_checks, handle_blocked}

pub not-Merges-update_and_wait :
    (r : Runner) (c : Github) (head : String) → ¬ Merges r (update_and_wait r c head).1
unfolding update
not-Merges-update_and_wait r c head h = ground arith

not-Merges-blocked_by_failed :
    (r : Runner) (c : Github) (pr : PullRequest) (failed : ℕ)
    → ¬ Merges r (blocked_by_failed r c pr failed).1
unfolding blocked_by_failed
not-Merges-blocked_by_failed r c pr failed h = ground arith

not-Merges-blocked_by_checks :
    (r : Runner) (c : Github) (pr : PullRequest) → ¬ Merges r (blocked_by_checks r c pr).1
unfolding blocked_by_checks
not-Merges-blocked_by_checks r c pr h = elim (Result-cases (c.check_runs pr.head_sha)) [
  | inl (runs, e) ↦ ground (arith, not-Merges-blocked_by_failed r c pr (count_checks runs).1)
  | inr (x, e) ↦ ground arith
]

pub not-Merges-handle_blocked :
    (r : Runner) (c : Github) (pr : PullRequest) → ¬ Merges r (handle_blocked r c pr).1
unfolding handle_blocked
not-Merges-handle_blocked r c pr h = ground (arith, not-Merges-blocked_by_checks r c pr)
