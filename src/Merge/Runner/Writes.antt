-- ===== src/Merge/Runner/Writes.antt =====
-- The writes of one inspection by internal/merge/runner.go: branch updates and merges.
use merge_bot.Base.{
  ℕ, suc, ◌+◌, ◌≤◌, ◌≡◌, inl, inr, true, false, none, some, List, [], ◌∷◌, ◌++◌, arith, String,
}
use merge_bot.Merge.Errors.{Result-cases}
use merge_bot.Merge.Github.{
  Github, PullRequest, Call, pull_call, update_call, merge_call, summary_call, review_call,
  required_call, runs_call, behind_call, count_checks,
}
use merge_bot.Merge.Gate.{Runner, try_merge, merge, update, update_and_wait}
use merge_bot.Merge.Unstable.{Greens, required_checks_green, after_greens, try_merge_unstable}
use merge_bot.Merge.Blocked.{blocked_by_failed, blocked_by_checks, handle_blocked}
use merge_bot.Merge.Runner.{dispatch, inspect, step}

-- How many of the calls change something on GitHub.
abbrev pub writes : List Call → ℕ
writes [] = 0
writes (update_call n head ∷ calls) = suc (writes calls)
writes (merge_call n method ∷ calls) = suc (writes calls)
writes (pull_call n ∷ calls) = writes calls
writes (summary_call head ∷ calls) = writes calls
writes (review_call n ∷ calls) = writes calls
writes (required_call base ∷ calls) = writes calls
writes (runs_call head ∷ calls) = writes calls
writes (behind_call base head ∷ calls) = writes calls

-- At most one write is made, and none in a dry run.
pub record IsCareful (r : Runner) (calls : List Call) : Type 0 where
  pub at_most_one : writes calls ≤ 1
  pub dry_run_reads : r.dry_run ≡ true → writes calls ≡ 0

writes-append : (xs ys : List Call) → writes (xs ++ ys) ≡ writes xs + writes ys
writes-append [] ys = omega arith
writes-append (update_call n head ∷ calls) ys = omega (arith, writes-append calls ys)
writes-append (merge_call n method ∷ calls) ys = omega (arith, writes-append calls ys)
writes-append (pull_call n ∷ calls) ys = writes-append calls ys
writes-append (summary_call head ∷ calls) ys = writes-append calls ys
writes-append (review_call n ∷ calls) ys = writes-append calls ys
writes-append (required_call base ∷ calls) ys = writes-append calls ys
writes-append (runs_call head ∷ calls) ys = writes-append calls ys
writes-append (behind_call base head ∷ calls) ys = writes-append calls ys

merge-IsCareful : (r : Runner) (c : Github) → IsCareful r (merge r c).1
unfolding merge
merge-IsCareful r c = ground arith

try_merge-IsCareful : (r : Runner) (c : Github) → IsCareful r (try_merge r c).1
unfolding try_merge
try_merge-IsCareful r c = ground arith

update_and_wait-IsCareful :
    (r : Runner) (c : Github) (head : String) → IsCareful r (update_and_wait r c head).1
unfolding update
update_and_wait-IsCareful r c head = ground arith

writes-required_checks_green :
    (c : Github) (base head : String) → writes (required_checks_green c base head).1 ≡ 0
unfolding required_checks_green
writes-required_checks_green c base head = elim (Result-cases (c.required_checks base)) [
  | inl ([], e) ↦ ground arith
  | inl (name ∷ names, e) ↦ ground arith
  | inr (x, e) ↦ ground arith
]

after_greens-IsCareful : (r : Runner) (c : Github) (g : Greens) → IsCareful r (after_greens r c g).1
unfolding after_greens
after_greens-IsCareful r c (true, reason, none) = try_merge-IsCareful r c
after_greens-IsCareful r c (false, reason, none) = omega arith
after_greens-IsCareful r c (green, reason, some e) = ground arith

try_merge_unstable-IsCareful :
    (r : Runner) (c : Github) (pr : PullRequest) → IsCareful r (try_merge_unstable r c pr).1
unfolding try_merge_unstable
try_merge_unstable-IsCareful r c pr =
    let gate = required_checks_green c pr.base_ref pr.head_sha in
    ground (
      arith,
      try_merge-IsCareful r c,
      writes-append gate.1 (after_greens r c gate.0).1,
      writes-required_checks_green c pr.base_ref pr.head_sha,
      after_greens-IsCareful r c gate.0,
    )

blocked_by_failed-IsCareful :
    (r : Runner) (c : Github) (pr : PullRequest) (failed : ℕ)
    → IsCareful r (blocked_by_failed r c pr failed).1
unfolding blocked_by_failed
blocked_by_failed-IsCareful r c pr failed = ground arith

blocked_by_checks-IsCareful :
    (r : Runner) (c : Github) (pr : PullRequest) → IsCareful r (blocked_by_checks r c pr).1
unfolding blocked_by_checks
blocked_by_checks-IsCareful r c pr = elim (Result-cases (c.check_runs pr.head_sha)) [
  | inl (runs, e) ↦ ground (arith, blocked_by_failed-IsCareful r c pr (count_checks runs).1)
  | inr (x, e) ↦ ground arith
]

handle_blocked-IsCareful :
    (r : Runner) (c : Github) (pr : PullRequest) → IsCareful r (handle_blocked r c pr).1
unfolding handle_blocked
handle_blocked-IsCareful r c pr = ground (arith, blocked_by_checks-IsCareful r c pr)

dispatch-IsCareful : (r : Runner) (c : Github) (pr : PullRequest) → IsCareful r (dispatch r c pr).1
unfolding dispatch
dispatch-IsCareful r c pr = ground (
  arith,
  try_merge-IsCareful r c,
  try_merge_unstable-IsCareful r c pr,
  update_and_wait-IsCareful r c pr.head_sha,
  handle_blocked-IsCareful r c pr,
)

inspect-IsCareful : (r : Runner) (c : Github) (pr : PullRequest) → IsCareful r (inspect r c pr).1
unfolding inspect
inspect-IsCareful r c pr = ground (arith, dispatch-IsCareful r c pr)

-- Whatever GitHub answers, one inspection updates the branch or merges at most once, not both, and
-- in a dry run it does neither.
pub step-IsCareful : (r : Runner) (c : Github) → IsCareful r (step r c).1
unfolding step
step-IsCareful r c = elim (Result-cases (c.get_pull_request r.number)) [
  | inl (pr, e) ↦ ground (arith, inspect-IsCareful r c pr)
  | inr (x, e) ↦ ground arith
]
