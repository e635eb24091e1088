-- ===== src/Merge/Gate.antt =====
-- internal/merge/runner.go: the runner, and the gates and calls that a merge goes through. The
-- owner and the repository, which every call passes on, are left out, and so are the log lines.
pub mod Clears
pub mod Approvals
use merge_bot.Base.{
  ℕ, Bool, true, false, not, List, [], ◌∷◌, ◌++◌, Option, none, some, String, str_eq, Text, codes,
  show, ltb, if◌then◌else◌,
}
use merge_bot.Merge.Errors.{
  Error, ok, err, wrap, sentinel, insufficient_approvals, errors_is, is_rate_limited,
  is_stale_head_update,
}
use merge_bot.Merge.Github.{Github, ReviewStatus, Call, update_call, merge_call, review_call}

pub record Runner : Type 0 where
  pub number : ℕ
  pub interval : ℕ
  pub timeout : ℕ
  pub merge_method : String
  pub min_approvals : ℕ
  pub allow_unstable : Bool
  pub allow_unresolved : Bool
  pub dry_run : Bool

-- A result with the calls of the API that were made for it, in their order.
abbrev pub M {ℓ} : Type ℓ → Type ℓ
M A = A × List Call

infixl 5 ◌>>=◌
abbrev pub ◌>>=◌ {ℓ κ} : {A : Type ℓ} {B : Type κ} → M A → (A → M B) → M B
m >>= f = let (b, calls) = f m.0 in (b, m.1 ++ calls)

abbrev pub pure {ℓ} : {A : Type ℓ} → A → M A
pure a = (a, [])

abbrev pub ask {ℓ} : {A : Type ℓ} → A → Call → M A
ask answer call = (answer, call ∷ [])

-- What `step` returns: done, and the error.
abbrev pub Verdict : Type 0
Verdict = Bool × Option Error

abbrev pub wait : Verdict
wait = (false, none)

abbrev pub done : Verdict
done = (true, none)

abbrev pub fail : Error → Verdict
fail e = (false, some e)

abbrev pub pr_text : ℕ → Text
pr_text n = codes "PR #" ++ show n

-- The answer of `reviewGate` for a status that was read: ok, the reason to hold, the error.
unfoldable pub gate_of : Runner → ReviewStatus → Bool × Text × Option Error
gate_of r status =
    if str_eq status.review_decision "REVIEW_REQUIRED"
    then (false, [], some (wrap (codes "review required") (sentinel insufficient_approvals)))
    else if ltb status.approvals r.min_approvals
    then (
      false,
      [],
      some (
          wrap
            (codes "need "
              ++ show r.min_approvals
              ++ codes " approval(s), have "
              ++ show status.approvals)
            (sentinel insufficient_approvals)),
    )
    else if str_eq status.review_decision "CHANGES_REQUESTED"
    then (false, codes "changes requested by a reviewer", none)
    else if ltb 0 status.unresolved_threads
    then (
      false,
      show status.unresolved_threads
          ++ (if status.more_threads then codes "+" else [])
          ++ codes " unresolved review thread(s)",
      none,
    )
    else (true, [], none)

unfoldable pub review_gate : Runner → Github → M (Bool × Text × Option Error)
unfolding gate_of
review_gate r c = do
  answer ← ask (c.review_status r.number) (review_call r.number)
  pure (elim answer [ err e ↦ (false, [], some e) | ok status ↦ gate_of r status ])

-- What `merge` makes of the answer to its call.
unfoldable pub merge_verdict : Runner → Option Error → Verdict
merge_verdict r none = done
merge_verdict r (some e) =
    if is_rate_limited e then wait else fail (wrap (codes "merge " ++ pr_text r.number) e)

unfoldable pub merge : Runner → Github → M Verdict
unfolding merge_verdict
merge r c = if r.dry_run then pure done else (do
  answer ← ask (c.merge r.number r.merge_method) (merge_call r.number r.merge_method)
  pure (merge_verdict r answer))

unfoldable pub update_error : Runner → Option Error → Option Error
update_error r none = none
update_error r (some e) =
    if is_rate_limited e
    then none
    else if is_stale_head_update e
    then none
    else some (wrap (codes "update branch of " ++ pr_text r.number) e)

unfoldable pub update : Runner → Github → String → M (Option Error)
unfolding update_error
update r c head_sha = if r.dry_run then pure none else (do
  answer ← ask (c.update_branch r.number head_sha) (update_call r.number head_sha)
  pure (update_error r answer))

-- `return false, r.update(ctx, head)`
abbrev pub update_and_wait : Runner → Github → String → M Verdict
update_and_wait r c head = do error ← update r c head; pure (false, error)

-- What `tryMerge` makes of the answer of the review gate.
unfoldable pub after_gate : Runner → Github → Bool × Text × Option Error → M Verdict
after_gate r c (passed, reason, some e) =
    if errors_is e insufficient_approvals then pure (fail e) else pure wait
after_gate r c (passed, reason, none) = if not passed then pure wait else merge r c

unfoldable pub try_merge : Runner → Github → M Verdict
unfolding review_gate after_gate merge
try_merge r c =
    if not r.allow_unresolved
    then (do answer ← review_gate r c; after_gate r c answer)
    else merge r c
