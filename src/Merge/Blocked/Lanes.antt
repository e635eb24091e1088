-- ===== src/Merge/Blocked/Lanes.antt =====
-- What becomes of a blocked pull request (internal/merge/runner.go), by its reviews and checks.
use merge_bot.Base.{
  ℕ, ◌<◌, ◌≡◌, ◌⊎◌, inl, inr, ap, ◌∙◌, Bool, true, false, Option, none, some, List, arith, All, Any,
  Bool-cases, ltb, str_eq, str_eq_iff,
}
use merge_bot.Merge.Errors.{
  Error, Sentinel, ok, err, errors_is, required_check_failed, insufficient_approvals, blocked,
}
use merge_bot.Merge.Github.{
  Github, PullRequest, ReviewStatus, CheckRun, Call, update_call, check_succeeded,
}
use merge_bot.Merge.Github.Counting.{
  IsPending, HasFailed, no_pending, a_pending, a_failure, no_failure,
}
use merge_bot.Merge.Gate.{Runner, M, Verdict, gate_of, wait, update}
use merge_bot.Merge.Blocked.{blocked_by_failed, blocked_by_checks, handle_blocked}

-- The reviews that GitHub requires, or that the settings ask for, are missing.
abbrev pub UnderApproved : Runner → ReviewStatus → Type 0
UnderApproved r s = (s.review_decision ≡ "REVIEW_REQUIRED") ⊎ (s.approvals < r.min_approvals)

-- The error is of a kind.
abbrev pub error_is : Sentinel → Option Error → Bool
error_is kind none = false
error_is kind (some e) = errors_is e kind

gate_of-UnderApproved :
    (r : Runner) (s : ReviewStatus)
    → UnderApproved r s
    → error_is insufficient_approvals (gate_of r s).2 ≡ true
unfolding gate_of errors_is
gate_of-UnderApproved r s h = ground (arith, str_eq_iff s.review_decision "REVIEW_REQUIRED")

gate_of_approved : (r : Runner) (s : ReviewStatus) → ¬ UnderApproved r s → (gate_of r s).2 ≡ none
unfolding gate_of
gate_of_approved r s h = elim (Bool-cases (str_eq s.review_decision "REVIEW_REQUIRED")) [
  | inl required ↦ absurd (h (inl ((str_eq_iff _ _).0 required)))
  | inr free ↦ elim (Bool-cases (ltb s.approvals r.min_approvals)) [
    | inl few ↦ absurd (h (inr (ground arith)))
    | inr enough ↦ ground arith
  ]
]

-- The review gate does not send the pull request away: it is off, cannot be asked, or is content
-- with the approvals.
pub data ReviewSilent (r : Runner) (c : Github) : Type 0 where
  off : r.allow_unresolved ≡ true → ReviewSilent r c
  unread :
      (e : Error)
      → c.review_status r.number ≡ err e
      → errors_is e insufficient_approvals ≡ false
      → ReviewSilent r c
  approved :
      (s : ReviewStatus) → c.review_status r.number ≡ ok s → ¬ UnderApproved r s → ReviewSilent r c

pub data Lane : Type 0 where
  for_approvals for_checks for_update declined protected : Lane

-- What is known of a blocked pull request, and the lane that this asks for.
pub data InLane (r : Runner) (c : Github) (pr : PullRequest) : Lane → Type 0 where
  needs_review :
      (s : ReviewStatus)
      → r.allow_unresolved ≡ false
      → c.review_status r.number ≡ ok s
      → UnderApproved r s
      → InLane r c pr for_approvals
  runs_pending :
      (runs : List CheckRun)
      → ReviewSilent r c
      → c.check_runs pr.head_sha ≡ ok runs
      → Any IsPending runs
      → InLane r c pr for_checks
  stale_failure :
      (runs : List CheckRun) (behind : ℕ)
      → ReviewSilent r c
      → c.check_runs pr.head_sha ≡ ok runs
      → All (λ run. run.completed ≡ true) runs
      → Any HasFailed runs
      → c.behind_by pr.base_ref pr.head_sha ≡ ok behind
      → 0 < behind
      → r.dry_run ≡ false
      → InLane r c pr for_update
  fresh_failure :
      (runs : List CheckRun)
      → ReviewSilent r c
      → c.check_runs pr.head_sha ≡ ok runs
      → All (λ run. run.completed ≡ true) runs
      → Any HasFailed runs
      → c.behind_by pr.base_ref pr.head_sha ≡ ok 0
      → InLane r c pr declined
  all_green :
      (runs : List CheckRun)
      → ReviewSilent r c
      → c.check_runs pr.head_sha ≡ ok runs
      → All (λ run. run.completed ≡ true) runs
      → All (λ run. check_succeeded run.conclusion ≡ true) runs
      → InLane r c pr protected

-- What the runner does in each lane.
abbrev pub Lands : Runner → PullRequest → Lane → M Verdict → Type 0
Lands r pr for_approvals m = error_is insufficient_approvals m.0.1 ≡ true
Lands r pr for_checks m = m.0 ≡ wait
Lands r pr for_update m = Any (λ call. call ≡ update_call r.number pr.head_sha) m.1
Lands r pr declined m = error_is required_check_failed m.0.1 ≡ true
Lands r pr protected m = error_is blocked m.0.1 ≡ true

-- A silent gate hands over to the checks.
verdict_of_silent :
    (r : Runner) (c : Github) (pr : PullRequest)
    → ReviewSilent r c
    → (handle_blocked r c pr).0 ≡ (blocked_by_checks r c pr).0
unfolding handle_blocked
verdict_of_silent r c pr (off h) = ground arith
verdict_of_silent r c pr (unread e h f) = ground arith
verdict_of_silent r c pr (approved s h a) = ground (arith, gate_of_approved r s a)

calls_of_silent :
    (r : Runner) (c : Github) (pr : PullRequest) (P : Call → Type 0)
    → ReviewSilent r c
    → Any P (blocked_by_checks r c pr).1
    → Any P (handle_blocked r c pr).1
unfolding handle_blocked
calls_of_silent r c pr P (off h) k = ground arith
calls_of_silent r c pr P (unread e h f) k = ground arith
calls_of_silent r c pr P (approved s h a) k = ground (arith, gate_of_approved r s a)

-- What becomes of a blocked pull request: if the review gate is asked and approvals are missing, the
-- error is `insufficient approvals`; else, if a check has not completed, the runner waits; else, if a
-- check failed and the branch is behind its base, the branch update is asked for, unless it is a dry
-- run; if a check failed and the branch is not behind, the error is `required check failed`; and if all
-- checks succeeded, the error is `blocked by branch protection`.
pub handle_blocked-Lands :
    (r : Runner) (c : Github) (pr : PullRequest) {lane : Lane}
    → InLane r c pr lane
    → Lands r pr lane (handle_blocked r c pr)
unfolding blocked_by_checks blocked_by_failed update errors_is handle_blocked
handle_blocked-Lands r c pr (needs_review s on e u) = ground (arith, gate_of-UnderApproved r s u)
handle_blocked-Lands r c pr (runs_pending runs q e any) =
    verdict_of_silent r c pr q ∙ ground (arith, a_pending runs any)
handle_blocked-Lands r c pr (stale_failure runs behind q e all any b pos wet) =
    calls_of_silent r c pr _ q (ground (arith, no_pending runs all, a_failure runs any))
handle_blocked-Lands r c pr (fresh_failure runs q e all any b) =
    ap (λ (v : Verdict). error_is required_check_failed v.1) (verdict_of_silent r c pr q)
    ∙ ground (arith, no_pending runs all, a_failure runs any)
handle_blocked-Lands r c pr (all_green runs q e all good) =
    ap (λ (v : Verdict). error_is blocked v.1) (verdict_of_silent r c pr q)
    ∙ ground (arith, no_pending runs all, no_failure runs good)
