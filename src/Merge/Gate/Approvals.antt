-- ===== src/Merge/Gate/Approvals.antt =====
-- The test on approvals of the re-check in internal/queue/manager.go beside the review gate of
-- internal/merge/runner.go.
use merge_bot.Base.{◌≡◌, ◌≢◌, ◌↔◌, true, none, arith, str_eq_iff}
use merge_bot.Merge.Github.{ReviewStatus, approvals_met}
use merge_bot.Merge.Gate.{Runner, gate_of}

-- ApprovalsMet holds of a review status if and only if the review gate has no error for it, which would
-- send the pull request away for lack of approvals, and no reviewer requested changes.
pub approvals_met-gate_of :
    (r : Runner) (s : ReviewStatus)
    → (approvals_met s r.min_approvals ≡ true)
      ↔ (((gate_of r s).2 ≡ none) × (s.review_decision ≢ "CHANGES_REQUESTED"))
unfolding approvals_met gate_of
approvals_met-gate_of r s = ground (
  arith,
  str_eq_iff s.review_decision "REVIEW_REQUIRED",
  str_eq_iff s.review_decision "CHANGES_REQUESTED",
)
