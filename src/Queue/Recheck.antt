-- ===== src/Queue/Recheck.antt =====
-- internal/queue/manager.go: the background re-check of parked pull requests. Between two of its
-- critical sections other goroutines may work on the queue: `meanwhile n` is what they do to it
-- before pull request n is requeued.
pub mod Requeues
pub mod Recovers
pub mod Exact
pub mod Churn
pub mod Loop
mod Examples
use merge_bot.Base.{
  ℕ, Bool, true, false, not, ◌||◌, List, [], ◌∷◌, String, str_eq, Text, codes, ◌==◌, if◌then◌else◌,
}
use merge_bot.Merge.Errors.{Result, ok, err}
use merge_bot.Merge.Github.{PullRequest, ReviewStatus, approvals_met}
use merge_bot.Queue.Types.{Phase, needs_approvals, failed, phase_eq, Cell, Manager, Io}
use merge_bot.Queue.Manager.{requeue_parked}

-- The states from which a failed or a conflicting pull request counts as recovered.
unfoldable pub checks_recovered : String → Bool
checks_recovered state =
    str_eq state "clean"
    || str_eq state "unstable"
    || str_eq state "behind"
    || str_eq state "has_hooks"

unfoldable pub conflict_resolved : String → Bool
conflict_resolved state = not (str_eq state "dirty" || str_eq state "" || str_eq state "unknown")

-- What a re-check meets: GitHub's answers, whether the context is cancelled when a pull request is
-- looked at, the clock and the file at each requeue, and the other goroutines.
pub record World : Type 0 where
  pub review_status : ℕ → Result ReviewStatus
  pub get_pull_request : ℕ → Result PullRequest
  pub is_cancelled : ℕ → Bool
  pub io : ℕ → Io
  pub meanwhile : ℕ → Manager → Manager

-- The numbers of the items in a phase, in the order of the queue.
unfoldable pub numbers_in : Phase → List Cell → List ℕ
numbers_in phase [] = []
numbers_in phase (c ∷ cs) =
    let rest = numbers_in phase cs in
    if phase_eq c.item.phase phase then c.item.number ∷ rest else rest

abbrev pub is_approved : Result ReviewStatus → ℕ → Bool
is_approved (err e) min_approvals = false
is_approved (ok status) min_approvals = approvals_met status min_approvals

abbrev pub is_ready : (String → Bool) → Result PullRequest → Bool
is_ready ready (err e) = false
is_ready ready (ok pr) = ready pr.mergeable_state

-- The loop over parked numbers that both kinds of re-check have: a number that is `clear` is
-- requeued if it is still parked in the phase `from`. With whether the context stopped the loop.
unfoldable pub recheck_numbers :
    World → (ℕ → Bool) → Phase → Text → List ℕ → Manager → Manager × Bool
recheck_numbers w clear from message [] m = (m, false)
recheck_numbers w clear from message (n ∷ ns) m =
    let m' = w.meanwhile n m in
    let rest =
      recheck_numbers w clear from message ns
        (if clear n then requeue_parked (w.io n) n from message m' else m') in
    if w.is_cancelled n then (m, true) else rest

abbrev pub recheck_by_state : World → List ℕ → Phase → (String → Bool) → Text → Manager → Manager
recheck_by_state w numbers from ready message m =
    (recheck_numbers w (λ n. is_ready ready (w.get_pull_request n)) from message numbers m).0

-- The three loops of `recheckParked`. Which numbers are parked is read once, from `m`.
abbrev pub recheck_approvals : World → Manager → Manager × Bool
recheck_approvals w m =
    recheck_numbers w (λ n. is_approved (w.review_status n) m.cfg.min_approvals) needs_approvals
      (codes "approved; back in queue") (numbers_in needs_approvals m.items) m

abbrev pub recheck_conflicts : World → Manager → Manager → Manager
recheck_conflicts w m m₁ =
    recheck_by_state w (numbers_in Phase.conflicts m.items) Phase.conflicts conflict_resolved
      (codes "conflict resolved; back in queue") m₁

abbrev pub recheck_failed : World → Manager → Manager → Manager
recheck_failed w m m₂ =
    recheck_by_state w (numbers_in failed m.items) failed checks_recovered
      (codes "checks recovered; back in queue") m₂

-- A context that is cancelled during the first loop ends the whole re-check.
unfoldable pub recheck_parked : World → Manager → Manager
recheck_parked w m =
    let (m₁, stops) = recheck_approvals w m in
    let m₂ = recheck_conflicts w m m₁ in
    let m₃ = recheck_failed w m m₂ in
    if stops then m₁ else if str_eq m.cfg.merge_mode "merge-queue" then m₂ else m₃

-- `recheckLoop`, on what each tick of its ticker meets until its context ends; an interval of 0 turns it
-- off.
unfoldable pub recheck_ticks : List World → Manager → Manager
unfolding recheck_parked
recheck_ticks [] m = m
recheck_ticks (w ∷ ticks) m = recheck_ticks ticks (recheck_parked w m)

unfoldable pub recheck_loop : List World → Manager → Manager
unfolding recheck_ticks
recheck_loop ticks m = if m.cfg.recheck_interval == 0 then m else recheck_ticks ticks m
