-- ===== src/Queue/System/Exclusive/Calm.antt =====
-- Interleavings of the daemon of internal/queue/manager.go in which each pull request has one worker.
use merge_bot.Base.{
  ℕ, ◌≡◌, Bool, false, not, ◌&&◌, ◌||◌, List, [], ◌∷◌, Option, none, some, All, All-zip, Bool-cases,
  inl, inr,
}
use merge_bot.Queue.Types.{Manager, Io, Item, Config}
use merge_bot.Queue.Manager.{claim, new, add}
use merge_bot.Queue.System.{
  System, Event, Worker, adds, removes, requeues, clears, rechecks, dispatches, wakes, ends,
  finishes, logs, step, run, has_worker, dispatched, has_slot, start,
}
use merge_bot.Queue.System.Owned.{with_claimed}
use merge_bot.Queue.System.Invariant.{SystemInv, step-SystemInv}
use merge_bot.Queue.System.Start.{DistinctFile, start-SystemInv}
use merge_bot.Queue.System.Exclusive.{
  is_held, Holds, Kept, Exclusive, Exclusive-Kept, Kept-wake, Apart-Kept, All-still,
}
use merge_bot.Queue.System.Exclusive.Operations.{
  add-Kept, remove-Kept, requeue-Kept, requeue_parked-Kept,
}
use merge_bot.Queue.System.Exclusive.Hits.{has_stopped}
use merge_bot.Queue.System.Exclusive.Workers.{clear-Kept, claim-Exclusive}
use merge_bot.Queue.System.Exclusive.Ends.{log_line-Exclusive, finish-Exclusive}

-- A pull request is not added while a worker still runs for it that was stopped; and the background
-- re-check requeues from the phases of parked and failed pull requests only.
abbrev pub Calm : System → Event → Type 0
Calm s (adds io n) = All (λ w. has_stopped n s.manager w ≡ false) s.workers
Calm s (rechecks io n from message) = is_held from ≡ false
Calm s _ = Unit

abbrev pub CalmRun : System → List Event → Type 0
CalmRun s [] = Unit
CalmRun s (e ∷ es) = Calm s e × CalmRun (step s e) es

add-Exclusive :
    (io : Io) (n : ℕ) (s : System)
    → SystemInv s
    → Calm s (adds io n)
    → Exclusive s.manager s.workers
    → Exclusive (add io n s.manager) s.workers
add-Exclusive io n s i calm x =
    let m = s.manager in
    let m' = add io n m in
    let kept : All (Kept m m') s.workers =
      All-zip (Holds m) (λ w. has_stopped n m w ≡ false) (Kept m m')
        (λ w h c. add-Kept m s.workers i.owned w h io n c) s.workers x.holds calm in
    record { holds = All-still m m' s.workers kept; apart = Apart-Kept m m' s.workers kept x.apart }

dispatched-Exclusive :
    (s : System) (answer : Manager × Option Worker)
    → Exclusive answer.0 (with_claimed s.workers answer.1)
    → Exclusive (dispatched s answer).manager (dispatched s answer).workers
unfolding dispatched
dispatched-Exclusive s (m, none) x = x
dispatched-Exclusive s (m, some w) x = x

abbrev pub SystemExclusive : System → Type 0
SystemExclusive s = Exclusive s.manager s.workers

pub step-Exclusive :
    (s : System) (e : Event)
    → SystemInv s
    → Calm s e
    → SystemExclusive s
    → SystemExclusive (step s e)
unfolding step
step-Exclusive s (adds io n) i calm x = add-Exclusive io n s i calm x
step-Exclusive s (removes io n) i calm x =
    Exclusive-Kept s.manager _ s.workers (λ w h. remove-Kept s.manager s.workers i.owned w h io n) x
step-Exclusive s (requeues io n) i calm x =
    Exclusive-Kept s.manager _ s.workers (λ w h. requeue-Kept s.manager s.workers i.owned w h io n)
      x
step-Exclusive s (clears io phases) i calm x =
    Exclusive-Kept s.manager _ s.workers
      (λ w h. clear-Kept s.manager s.workers i.owned w h io phases) x
step-Exclusive s (rechecks io n from message) i calm x =
    Exclusive-Kept s.manager _ s.workers
      (λ w h. requeue_parked-Kept s.manager s.workers i.owned w h io n from message calm) x
step-Exclusive s (dispatches io) i calm x =
    elim (Bool-cases (s.ended || s.waiting || not (has_slot s))) [
      | inl shut ↦ simp shut x
      | inr free ↦ simp free (
          dispatched-Exclusive s (claim io s.manager)
            (claim-Exclusive io s.manager s.workers i.owned x))
    ]
step-Exclusive s wakes i calm x = elim (Bool-cases (not s.ended && s.waiting && s.manager.wake)) [
  | inl woken ↦ simp woken (Exclusive-Kept s.manager _ s.workers (Kept-wake s.manager false) x)
  | inr asleep ↦ simp asleep x
]
step-Exclusive s ends i calm x = x
step-Exclusive s (finishes io w result) i calm x = elim (Bool-cases (has_worker w s.workers)) [
  | inl runs ↦ simp runs (finish-Exclusive s.manager s.workers i.owned io w result runs x)
  | inr gone ↦ simp gone x
]
step-Exclusive s (logs now w message) i calm x = elim (Bool-cases (has_worker w s.workers)) [
  | inl runs ↦ simp runs (log_line-Exclusive s.manager s.workers i.owned now w message x)
  | inr gone ↦ simp gone x
]

pub run-Exclusive :
    (s : System) (es : List Event)
    → SystemInv s
    → CalmRun s es
    → SystemExclusive s
    → SystemExclusive (run s es)
unfolding run
run-Exclusive s [] i calm x = x
run-Exclusive s (e ∷ es) i calm x =
    run-Exclusive (step s e) es (step-SystemInv s e i) calm.1 (step-Exclusive s e i calm.0 x)

-- If, after a start over a state file with distinct numbers, no pull request is added again while its
-- stopped worker still runs, then no two workers ever have the same pull request; the item of a worker
-- is active or stopped; and the context registered for an active item is that of its worker.
pub run-start-Exclusive :
    (cfg : Config) (persistent : Bool) (disk : Option (List Item)) (es : List Event)
    → DistinctFile disk
    → CalmRun (start (new cfg persistent disk)) es
    → SystemExclusive (run (start (new cfg persistent disk)) es)
unfolding start
run-start-Exclusive cfg persistent disk es d calm =
    run-Exclusive (start (new cfg persistent disk)) es (start-SystemInv cfg persistent disk d) calm
      (record { holds = tt; apart = tt })
