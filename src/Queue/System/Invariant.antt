-- ===== src/Queue/System/Invariant.antt =====
-- The events of the queue of internal/queue/manager.go and its invariant.
use merge_bot.Base.{
  ◌≤◌, ◌<◌, ◌≡◌, ap, true, List, [], ◌∷◌, Option, none, some, arith, Bool-cases, not, ◌&&◌, ◌||◌,
  length, inl, inr,
}
use merge_bot.Queue.Types.{Manager}
use merge_bot.Queue.Manager.{claim, effective_concurrency}
use merge_bot.Queue.Manager.Fixed.{
  fixed, fixed-add, fixed-remove, fixed-clear, fixed-requeue, fixed-requeue_parked, fixed-claim,
  fixed-finish, fixed-log_line,
}
use merge_bot.Queue.System.{
  System, Event, Worker, adds, removes, requeues, clears, rechecks, dispatches, wakes, ends,
  finishes, logs, step, run, drop_worker, has_worker, dispatched, has_slot,
}
use merge_bot.Queue.System.Released.{finish-Inv, log_line-Inv}
use merge_bot.Queue.System.Owned.{
  ManagerInv, add-Inv, remove-Inv, requeue-Inv, requeue_parked-Inv, clear-Inv, claim-Inv,
  with_claimed,
}

-- Besides the invariant of the items: no more workers than slots.
pub record SystemInv (s : System) : Type 0 where
  pub owned : ManagerInv s.manager s.workers
  pub bounded : length s.workers ≤ effective_concurrency s.manager.cfg

-- An event on the manager alone.
on_manager-Inv :
    (s : System) (m : Manager)
    → ManagerInv m s.workers
    → fixed m ≡ fixed s.manager
    → SystemInv s
    → SystemInv (record s { manager = m })
on_manager-Inv s m v f h = record { owned = v; bounded = rw (ap (λ x. x.0) f) h.bounded }

length-drop_worker : (w : Worker) (ws : List Worker) → length (drop_worker w ws) ≤ length ws
unfolding drop_worker
length-drop_worker w [] = omega arith
length-drop_worker w (v ∷ vs) = ground (arith, length-drop_worker w vs)

dispatched-Inv :
    (s : System) (answer : Manager × Option Worker)
    → ManagerInv answer.0 (with_claimed s.workers answer.1)
    → fixed answer.0 ≡ fixed s.manager
    → length s.workers < effective_concurrency s.manager.cfg
    → SystemInv (dispatched s answer)
unfolding dispatched
dispatched-Inv s (m, none) v f b = record {
  owned = v;
  bounded = rw (ap (λ x. x.0) f) (omega arith);
}
dispatched-Inv s (m, some w) v f b = record { owned = v; bounded = rw (ap (λ x. x.0) f) b }

pub step-SystemInv : (s : System) (e : Event) → SystemInv s → SystemInv (step s e)
unfolding step
step-SystemInv s (adds io n) h =
    on_manager-Inv s _ (add-Inv io n s.manager s.workers h.owned) (fixed-add io n s.manager) h
step-SystemInv s (removes io n) h =
    on_manager-Inv s _ (remove-Inv io n s.manager s.workers h.owned) (fixed-remove io n s.manager) h
step-SystemInv s (requeues io n) h =
    on_manager-Inv s _ (requeue-Inv io n s.manager s.workers h.owned) (fixed-requeue io n s.manager)
      h
step-SystemInv s (clears io phases) h =
    on_manager-Inv s _ (clear-Inv io s.manager s.workers phases h.owned)
      (fixed-clear io phases s.manager) h
step-SystemInv s (rechecks io n from message) h =
    on_manager-Inv s _ (requeue_parked-Inv io n s.manager s.workers from message h.owned)
      (fixed-requeue_parked io n from message s.manager) h
step-SystemInv s (dispatches io) h = elim (Bool-cases (s.ended || s.waiting || not (has_slot s))) [
  | inl shut ↦ simp shut h
  | inr free ↦ simp free (
      dispatched-Inv s (claim io s.manager) (claim-Inv io s.manager s.workers h.owned)
        (fixed-claim io s.manager) (ground arith))
]
step-SystemInv s wakes h = elim (Bool-cases (not s.ended && s.waiting && s.manager.wake)) [
  | inl woken ↦ simp woken (record { owned = h.owned; bounded = h.bounded })
  | inr asleep ↦ simp asleep h
]
step-SystemInv s ends h = record { owned = h.owned; bounded = h.bounded }
step-SystemInv s (finishes io w result) h = elim (Bool-cases (has_worker w s.workers)) [
  | inl runs ↦ simp runs (record {
    owned = finish-Inv io w s.manager s.workers result h.owned;
    bounded =
        rw (ap (λ x. x.0) (fixed-finish io w.0 result s.manager))
          (omega (arith, h.bounded, length-drop_worker w s.workers));
  })
  | inr gone ↦ simp gone h
]
step-SystemInv s (logs now w message) h = elim (Bool-cases (has_worker w s.workers)) [
  | inl runs ↦ simp runs (
      on_manager-Inv s _
        (log_line-Inv (record { now = now; writable = true }) w s.manager s.workers now message
          h.owned)
        (fixed-log_line now w.0 message s.manager) h)
  | inr gone ↦ simp gone h
]

pub run-SystemInv : (s : System) (es : List Event) → SystemInv s → SystemInv (run s es)
unfolding run
run-SystemInv s [] h = h
run-SystemInv s (e ∷ es) h = run-SystemInv (step s e) es (step-SystemInv s e h)
