-- ===== src/Queue/System/Diagram/Steps.antt =====
-- The events of the queue of internal/queue/manager.go as moves along the diagram of the phases.
use merge_bot.Base.{
  ℕ, ◌≡◌, refl, Bool, not, ◌&&◌, ◌||◌, List, Option, none, some, Bool-cases, inl, inr,
}
use merge_bot.Queue.Types.{Item, Config, Manager}
use merge_bot.Queue.Cells.{find_ref}
use merge_bot.Queue.Manager.{claim, new}
use merge_bot.Queue.System.{
  System, Event, Worker, adds, removes, requeues, clears, rechecks, dispatches, wakes, ends,
  finishes, logs, step, run, has_worker, dispatched, has_slot, start,
}
use merge_bot.Queue.System.Owned.{ManagerInv}
use merge_bot.Queue.System.Start.{DistinctFile, run-start-SystemInv}
use merge_bot.Queue.System.Exclusive.Calm.{CalmRun, run-start-Exclusive}
use merge_bot.Queue.System.Exclusive.{Exclusive}
use merge_bot.Queue.System.Diagram.{IsPlanned, Follows, Follows-same}
use merge_bot.Queue.System.Diagram.Operations.{
  add-Follows, remove-Follows, requeue-Follows, requeue_parked-Follows, claim-Follows,
  clear-Follows, finish-Follows, log_line-Follows,
}

pub dispatched-items :
    (s : System) (answer : Manager × Option Worker)
    → (dispatched s answer).manager.items ≡ answer.0.items
unfolding dispatched
dispatched-items s (m, none) = refl
dispatched-items s (m, some w) = refl

module _ (s : System) (v : ManagerInv s.manager s.workers) (x : Exclusive s.manager s.workers)
    (k : ℕ) (it : Item) (h : find_ref k s.manager.items ≡ some it) where
  step-Follows :
      (e : Event) → IsPlanned e → Follows s.workers k e it (find_ref k (step s e).manager.items)
  unfolding step
  step-Follows (adds io n) planned = add-Follows s.manager s.workers v k it h io n
  step-Follows (removes io n) planned = remove-Follows s.manager s.workers v k it h io n
  step-Follows (requeues io n) planned = requeue-Follows s.manager s.workers v k it h io n
  step-Follows (clears io phases) planned = clear-Follows s.manager s.workers v k it h io phases
  step-Follows (rechecks io n from message) planned =
      requeue_parked-Follows s.manager s.workers v k it h io n from message planned
  step-Follows (dispatches io) planned =
      elim (Bool-cases (s.ended || s.waiting || not (has_slot s))) [
        | inl shut ↦ simp shut (Follows-same s.workers (dispatches io) k it _ h)
        | inr free ↦
            simp (free, dispatched-items s (claim io s.manager))
              (claim-Follows s.manager s.workers v k it h io)
      ]
  step-Follows wakes planned = elim (Bool-cases (not s.ended && s.waiting && s.manager.wake)) [
    | inl woken ↦ simp woken (Follows-same s.workers wakes k it _ h)
    | inr asleep ↦ simp asleep (Follows-same s.workers wakes k it _ h)
  ]
  step-Follows ends planned = Follows-same s.workers ends k it _ h
  step-Follows (finishes io w result) planned = elim (Bool-cases (has_worker w s.workers)) [
    | inl runs ↦ simp runs (finish-Follows s.manager s.workers v k it h io w result runs x)
    | inr gone ↦ simp gone (Follows-same s.workers (finishes io w result) k it _ h)
  ]
  step-Follows (logs now w message) planned = elim (Bool-cases (has_worker w s.workers)) [
    | inl runs ↦ simp runs (log_line-Follows s.manager s.workers v k it h now w message)
    | inr gone ↦ simp gone (Follows-same s.workers (logs now w message) k it _ h)
  ]

-- Start over a state file with distinct numbers, and take any interleaving in which no pull request is
-- added again while its stopped worker still runs and no re-check requeues an active or stopped item.
-- Then the next event, which requeues, if it is one of a re-check, from a phase of those that are parked,
-- takes every item of the queue along the diagram: a queued item becomes active only when the dispatcher
-- starts it; an active one is settled by the result of a worker that was started for its address and
-- still runs, or stopped by Remove; one that is neither goes into the queue only by Add, Requeue (parked
-- ones) or the re-check (those with missing approvals, a conflict or a failure, each from its own phase);
-- and only Clear drops items, none of them queued or active.
pub run-start-Follows :
    (cfg : Config) (persistent : Bool) (disk : Option (List Item)) (es : List Event) (e : Event)
    (k : ℕ) (it : Item)
    → DistinctFile disk
    → CalmRun (start (new cfg persistent disk)) es
    → find_ref k (run (start (new cfg persistent disk)) es).manager.items ≡ some it
    → IsPlanned e
    → Follows
        (run (start (new cfg persistent disk)) es).workers
        k
        e
        it
        (find_ref k (step (run (start (new cfg persistent disk)) es) e).manager.items)
run-start-Follows cfg persistent disk es e k it d calm h planned =
    step-Follows (run (start (new cfg persistent disk)) es)
      (run-start-SystemInv cfg persistent disk es d).owned
      (run-start-Exclusive cfg persistent disk es d calm) k it h e planned
