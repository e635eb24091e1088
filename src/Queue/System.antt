-- ===== src/Queue/System.antt =====
-- internal/queue/manager.go: the queue with its goroutines (`Run`). The dispatcher, the workers, the
-- HTTP handlers and the background re-check act in any order; an event is one critical section of
-- one of them, and a list of events is an interleaving.
pub mod Owned
pub mod Released
pub mod Invariant
pub mod Start
pub mod Crash
pub mod Exclusive
pub mod Diagram
pub mod Progress
mod Examples
use merge_bot.Base.{
  ℕ, Bool, true, false, not, ◌&&◌, ◌||◌, List, [], ◌∷◌, Option, none, some, Text, ltb, ◌==◌, length,
  if◌then◌else◌,
}
use merge_bot.Merge.Errors.{Error}
use merge_bot.Queue.Types.{Phase, Manager, Io}
use merge_bot.Queue.Manager.{
  load, add, remove, clear, requeue, requeue_parked, claim, effective_concurrency,
}
use merge_bot.Queue.Process.{finish, log_line}

-- A worker, by the address of its item and its context.
abbrev pub Worker : Type 0
Worker = ℕ × ℕ

-- `waiting` says that the dispatcher found no queued item and waits for the channel `wake`;
-- `ended`, that it returned because its context was cancelled.
pub record System : Type 0 where
  pub manager : Manager
  pub workers : List Worker
  pub waiting : Bool
  pub ended : Bool

pub data Event : Type 0 where
  adds removes requeues : Io → ℕ → Event
  clears : Io → List Phase → Event
  -- one requeue of the background re-check
  rechecks : Io → ℕ → Phase → Text → Event
  -- the dispatcher has a free slot and calls `claim`
  dispatches : Io → Event
  -- the dispatcher receives the signal that it waits for
  wakes : Event
  -- the dispatcher sees its context cancelled
  ends : Event
  -- `drive` returned to a worker with this result, and `process` settles the item
  finishes : Io → Worker → Option Error → Event
  -- a worker logs a line
  logs : ℕ → Worker → Text → Event

abbrev pub same_worker : Worker → Worker → Bool
same_worker (ref, context) (ref', context') = (ref == ref') && (context == context')

unfoldable pub has_worker : Worker → List Worker → Bool
has_worker w [] = false
has_worker w (v ∷ vs) = same_worker v w || has_worker w vs

unfoldable pub drop_worker : Worker → List Worker → List Worker
drop_worker w [] = []
drop_worker w (v ∷ vs) = if same_worker v w then vs else v ∷ drop_worker w vs

abbrev pub has_slot : System → Bool
has_slot s = ltb (length s.workers) (effective_concurrency s.manager.cfg)

abbrev pub on_manager : System → Manager → System
on_manager s m = record s { manager = m }

-- What the dispatcher does with the answer of `claim`.
unfoldable pub dispatched : System → Manager × Option Worker → System
dispatched s (m, none) = record s { manager = m; waiting = true }
dispatched s (m, some w) = record s { manager = m; workers = w ∷ s.workers }

-- An event that cannot happen in a state changes nothing.
unfoldable pub step : System → Event → System
step s (adds io n) = on_manager s (add io n s.manager)
step s (removes io n) = on_manager s (remove io n s.manager)
step s (requeues io n) = on_manager s (requeue io n s.manager).0
step s (clears io phases) = on_manager s (clear io phases s.manager)
step s (rechecks io n from message) = on_manager s (requeue_parked io n from message s.manager)
step s (dispatches io) =
    if s.ended || s.waiting || not (has_slot s) then s else dispatched s (claim io s.manager)
step s wakes =
    if not s.ended && s.waiting && s.manager.wake
    then record s { manager = record s.manager { wake = false }; waiting = false }
    else s
step s ends = record s { ended = true; waiting = false }
step s (finishes io w result) =
    if has_worker w s.workers
    then record s {
      manager = (finish io w.0 result s.manager).0;
      workers = drop_worker w s.workers;
    }
    else s
step s (logs now w message) =
    if has_worker w s.workers then on_manager s (log_line now w.0 message s.manager) else s

unfoldable pub run : System → List Event → System
run s [] = s
run s (e ∷ es) = run (step s e) es

-- The daemon after `Load`, before its first event.
unfoldable pub start : Manager → System
start m = record { manager = load m; workers = []; waiting = false; ended = false }
