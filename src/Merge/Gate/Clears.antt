-- ===== src/Merge/Gate/Clears.antt =====
-- When the review gate of internal/merge/runner.go lets a merge through.
use merge_bot.Base.{
  ◌≤◌, ◌≡◌, ◌≢◌, ◌⊎◌, inl, inr, true, false, none, List, [], arith, Any, str_eq_iff, Bool-cases,
}
use merge_bot.Merge.Errors.{ok, Result-cases}
use merge_bot.Merge.Github.{Github, ReviewStatus, Call, merge_call}
use merge_bot.Merge.Gate.{Runner, gate_of, try_merge}

-- The review side of a pull request is in order.
pub record Clears (r : Runner) (s : ReviewStatus) : Type 0 where
  pub not_required : s.review_decision ≢ "REVIEW_REQUIRED"
  pub enough : r.min_approvals ≤ s.approvals
  pub no_changes : s.review_decision ≢ "CHANGES_REQUESTED"
  pub resolved : s.unresolved_threads ≡ 0

abbrev pub Merges : Runner → List Call → Type 0
Merges r = Any (λ call. call ≡ merge_call r.number r.merge_method)

-- The gate is off, or a status was read and it is in order.
abbrev pub ReviewClears : Runner → Github → Type 0
ReviewClears r c =
    (r.allow_unresolved ≡ true)
    ⊎ ((s : ReviewStatus) × (c.review_status r.number ≡ ok s) × Clears r s)

gate_of-Clears : (r : Runner) (s : ReviewStatus) → Clears r s → gate_of r s ≡ (true, [], none)
unfolding gate_of
gate_of-Clears r s h = ground (
  arith,
  str_eq_iff s.review_decision "REVIEW_REQUIRED",
  str_eq_iff s.review_decision "CHANGES_REQUESTED",
)

Clears-of_gate : (r : Runner) (s : ReviewStatus) → (gate_of r s).0 ≡ true → Clears r s
unfolding gate_of
Clears-of_gate r s h = ground (
  arith,
  str_eq_iff s.review_decision "REVIEW_REQUIRED",
  str_eq_iff s.review_decision "CHANGES_REQUESTED",
)

-- A merge is asked for only behind the gate, and never in a dry run.
pub try_merge-Merges :
    (r : Runner) (c : Github) → Merges r (try_merge r c).1 → (r.dry_run ≡ false) × ReviewClears r c
unfolding try_merge
try_merge-Merges r c h = elim (Bool-cases r.allow_unresolved) [
  | inl off ↦ (ground arith, inl off)
  | inr gated ↦ elim (Result-cases (c.review_status r.number)) [
    | inl (s, e) ↦ (ground arith, inr (s, e, Clears-of_gate r s (ground arith)))
    | inr (x, e) ↦ absurd (ground arith)
  ]
]

pub Merges-try_merge :
    (r : Runner) (c : Github) → r.dry_run ≡ false → ReviewClears r c → Merges r (try_merge r c).1
unfolding try_merge
Merges-try_merge r c d (inl off) = ground arith
Merges-try_merge r c d (inr (s, e, h)) = ground (arith, gate_of-Clears r s h)
