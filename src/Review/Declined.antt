-- ===== src/Review/Declined.antt =====
-- A pull request on the dashboard of internal/review/dashboard.go, and the runner of
-- internal/merge/runner.go on the same pull request.
use merge_bot.Base.{ℕ, ◌≡◌, inl, inr, sym, subst, ap, ◌∙◌, true, arith}
use merge_bot.Merge.Errors.{ok, required_check_failed}
use merge_bot.Merge.Github.{Github, PullRequest}
use merge_bot.Merge.Gate.{Runner}
use merge_bot.Merge.Blocked.{handle_blocked}
use merge_bot.Merge.Blocked.Lanes.{
  UnderApproved, error_is, handle_blocked-Lands, approved, fresh_failure,
}
use merge_bot.Review.{Pull, failed, Fetcher, Dashboard, entry_for}
use merge_bot.Review.Dead.{Dead, ShownIn, entry_for-Dead}

-- The dashboard and a runner meet the same answers about a pull request.
pub record SameAnswers (d : Dashboard) (f : Fetcher) (r : Runner) (c : Github) (pr : PullRequest)
    : Type 0 where
  pub same_bound : r.min_approvals ≡ d.min_approvals
  pub same_state : f.pull_state r.number ≡ ok (pr.mergeable_state, pr.base_ref, pr.head_sha)
  pub same_review : c.review_status r.number ≡ f.review_status r.number
  pub same_behind : c.behind_by pr.base_ref pr.head_sha ≡ f.behind_by pr.base_ref pr.head_sha
  pub same_runs : c.check_runs pr.head_sha ≡ f.check_runs pr.head_sha

-- If a pull request is shown as failed and the runner meets the same answers, the runner ends its
-- blocked case with the error `required check failed`.
pub failed-handle_blocked :
    (d : Dashboard) (f : Fetcher) (now : ℕ) (pull : Pull) (r : Runner) (c : Github)
    (pr : PullRequest)
    → pull.number ≡ r.number
    → SameAnswers d f r c pr
    → ShownIn failed (entry_for d f now pull)
    → error_is required_check_failed (handle_blocked r c pr).0.1 ≡ true
failed-handle_blocked d f now pull r c pr same_number same shown =
    let dead : Dead d f r.number =
      subst (Dead d f) same_number (entry_for-Dead d f now pull shown) in
    let heads : (dead.base ≡ pr.base_ref) × (dead.head ≡ pr.head_sha) =
      ground (arith, dead.stuck, same.same_state) in
    let status_read : c.review_status r.number ≡ ok dead.status =
      same.same_review ∙ dead.reviewed in
    let runs_read : c.check_runs pr.head_sha ≡ ok dead.runs =
      same.same_runs ∙ ap f.check_runs (sym heads.1) ∙ dead.checked in
    let behind_read : c.behind_by pr.base_ref pr.head_sha ≡ ok 0 =
      same.same_behind
      ∙ sym (
          subst (λ b. f.behind_by b dead.head ≡ f.behind_by pr.base_ref pr.head_sha) (sym heads.0)
            (ap (f.behind_by pr.base_ref) heads.1))
      ∙ dead.current in
    let content : ¬ UnderApproved r dead.status = (λ u. elim u [
      | inl required ↦ dead.agreed.2 required
      | inr few ↦ absurd (omega (arith, few, dead.agreed.0, same.same_bound))
    ]) in
    handle_blocked-Lands r c pr (
      fresh_failure dead.runs (approved dead.status status_read content) runs_read dead.over.0
        dead.over.1 behind_read)
