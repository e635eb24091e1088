-- ===== src/Queue/System/Examples.antt =====
-- Pull requests of the queue of internal/queue/manager.go: 7 is stopped while its worker runs, its
-- worker ends, and 7 is added again; 9 is parked for conflicts and requeued by the re-check.
use merge_bot.Base.{
  inl, ◌++◌, false, ℕ, arith, Distinct, ◌≡◌, refl, true, false, List, [], ◌∷◌, none, some, codes,
}
use merge_bot.Merge.Errors.{canceled, sentinel, conflicts}
use merge_bot.Queue.Types.{Cell, Phase, queued, active, failed, Item, Config, Io}
use merge_bot.Queue.Cells.{find_first, find_ref}
use merge_bot.Queue.Manager.{new, is_queued, claimed}
use merge_bot.Queue.System.{
  wakes, has_slot, System, Event, adds, removes, rechecks, dispatches, finishes, step, run, start,
}
use merge_bot.Queue.System.Exclusive.Calm.{CalmRun, SystemExclusive, run-start-Exclusive}
use merge_bot.Queue.System.Diagram.{Follows}
use merge_bot.Queue.System.Progress.{HonestRun}
use merge_bot.Queue.System.Progress.Starts.{run-start-Progress}
use merge_bot.Queue.System.Diagram.Steps.{run-start-Follows}

abbrev config : Config
config = record {
  interval = 30;
  timeout = 3600;
  recheck_interval = 300;
  merge_method = "squash";
  min_approvals = 1;
  concurrency = 2;
  merge_mode = "self";
  allow_unstable = false;
  allow_unresolved = false;
}

abbrev item : ℕ → Phase → Item
item n phase = record {
  number = n;
  phase = phase;
  message = [];
  error = [];
  added_at = 5;
  updated_at = 5;
  merged_at = none;
}

abbrev items : List Item
items = item 4 failed ∷ item 7 queued ∷ item 9 active ∷ []

abbrev io : ℕ → Io
io t = record { now = t; writable = true }

abbrev settling : List Event
settling =
    dispatches (io 10)
    ∷ dispatches (io 11)
    ∷ removes (io 12) 7
    ∷ finishes (io 13) (1, 0) (some (sentinel canceled))
    ∷ dispatches (io 13)
    ∷ adds (io 14) 7
    ∷ finishes (io 15) (2, 1) (some (sentinel conflicts))
    ∷ rechecks (io 16) 9 Phase.conflicts (codes "conflict resolved; back in queue")
    ∷ []

abbrev events : List Event
events = settling ++ wakes ∷ dispatches (io 17) ∷ []

abbrev daemon : System
daemon = start (new config true (some items))

calm : CalmRun daemon events
unfolding run start merge_bot.Queue.System.step merge_bot.Queue.System.has_worker
    merge_bot.Queue.Manager.effective_concurrency merge_bot.Queue.Manager.add
    merge_bot.Queue.Cells.find_first merge_bot.Queue.Manager.load new
    merge_bot.Queue.Manager.restored merge_bot.Queue.Manager.allocate merge_bot.Queue.Manager.save
    merge_bot.Queue.System.dispatched merge_bot.Queue.Manager.claim
    merge_bot.Queue.Cells.update_first merge_bot.Queue.Manager.remove
    merge_bot.Queue.Manager.cancel_number merge_bot.Queue.Cells.lookup_cancel
    merge_bot.Queue.System.drop_worker merge_bot.Queue.Process.finish
    merge_bot.Queue.Cells.delete_cancel merge_bot.Queue.Cells.find_ref
    merge_bot.Queue.Cells.update_ref merge_bot.Queue.Process.settled merge_bot.Queue.Process.settle
    merge_bot.Queue.Process.settle_error merge_bot.Merge.Errors.errors_is
    merge_bot.Queue.Manager.requeue_parked merge_bot.Queue.Manager.notify
calm = (tt, (tt, (tt, (tt, (tt, ((refl, tt), (tt, (refl, (tt, (tt, tt))))))))))

numbers_differ : Distinct (4 ∷ 7 ∷ 9 ∷ [])
numbers_differ = omega arith

run-start-Exclusive_example : SystemExclusive (run daemon events)
run-start-Exclusive_example =
    run-start-Exclusive config true (some items) events numbers_differ calm

-- 7 is driven again, by another worker.
abbrev again : Item
again = record {
  number = 7;
  phase = active;
  message = codes "processing";
  error = [];
  added_at = 14;
  updated_at = 17;
  merged_at = none;
}

taken_again : find_ref 1 (run daemon events).manager.items ≡ some again
unfolding run start merge_bot.Queue.System.step merge_bot.Queue.System.has_worker
    merge_bot.Queue.Manager.effective_concurrency merge_bot.Queue.Manager.add
    merge_bot.Queue.Cells.find_first merge_bot.Queue.Manager.load new
    merge_bot.Queue.Manager.restored merge_bot.Queue.Manager.allocate merge_bot.Queue.Manager.save
    merge_bot.Queue.System.dispatched merge_bot.Queue.Manager.claim
    merge_bot.Queue.Cells.update_first merge_bot.Queue.Manager.remove
    merge_bot.Queue.Manager.cancel_number merge_bot.Queue.Cells.lookup_cancel
    merge_bot.Queue.System.drop_worker merge_bot.Queue.Process.finish
    merge_bot.Queue.Cells.delete_cancel merge_bot.Queue.Cells.find_ref
    merge_bot.Queue.Cells.update_ref merge_bot.Queue.Process.settled merge_bot.Queue.Process.settle
    merge_bot.Queue.Process.settle_error merge_bot.Merge.Errors.errors_is
    merge_bot.Queue.Manager.requeue_parked merge_bot.Queue.Manager.notify
taken_again = refl

abbrev merges : Event
merges = finishes (io 18) (1, 2) none

run-start-Follows_example :
    Follows
      (run daemon events).workers
      1
      merges
      again
      (find_ref 1 (step (run daemon events) merges).manager.items)
run-start-Follows_example =
    run-start-Follows config true (some items) events merges 1 again numbers_differ calm taken_again
      tt

settling_calm : CalmRun daemon settling
unfolding run start merge_bot.Queue.System.step merge_bot.Queue.System.has_worker
    merge_bot.Queue.Manager.effective_concurrency merge_bot.Queue.Manager.add
    merge_bot.Queue.Cells.find_first merge_bot.Queue.Manager.load new
    merge_bot.Queue.Manager.restored merge_bot.Queue.Manager.allocate merge_bot.Queue.Manager.save
    merge_bot.Queue.System.dispatched merge_bot.Queue.Manager.claim
    merge_bot.Queue.Cells.update_first merge_bot.Queue.Manager.remove
    merge_bot.Queue.Manager.cancel_number merge_bot.Queue.Cells.lookup_cancel
    merge_bot.Queue.System.drop_worker merge_bot.Queue.Process.finish
    merge_bot.Queue.Cells.delete_cancel merge_bot.Queue.Cells.find_ref
    merge_bot.Queue.Cells.update_ref merge_bot.Queue.Process.settled merge_bot.Queue.Process.settle
    merge_bot.Queue.Process.settle_error merge_bot.Merge.Errors.errors_is
    merge_bot.Queue.Manager.requeue_parked merge_bot.Queue.Manager.notify
settling_calm = (tt, (tt, (tt, (tt, (tt, ((refl, tt), (tt, (refl, tt))))))))

-- The first worker was cancelled by Remove.
settling_honest : HonestRun daemon settling
unfolding run start merge_bot.Queue.System.step merge_bot.Queue.System.has_worker
    merge_bot.Queue.Manager.effective_concurrency merge_bot.Queue.Manager.add
    merge_bot.Queue.Cells.find_first merge_bot.Queue.Manager.load new
    merge_bot.Queue.Manager.restored merge_bot.Queue.Manager.allocate merge_bot.Queue.Manager.save
    merge_bot.Queue.System.dispatched merge_bot.Queue.Manager.claim
    merge_bot.Queue.Cells.update_first merge_bot.Queue.Manager.remove
    merge_bot.Queue.Manager.cancel_number merge_bot.Queue.Cells.lookup_cancel
    merge_bot.Queue.System.drop_worker merge_bot.Queue.Process.finish
    merge_bot.Queue.Cells.delete_cancel merge_bot.Queue.Cells.find_ref
    merge_bot.Queue.Cells.update_ref merge_bot.Queue.Process.settled merge_bot.Queue.Process.settle
    merge_bot.Queue.Process.settle_error merge_bot.Merge.Errors.errors_is
    merge_bot.Queue.Manager.requeue_parked merge_bot.Queue.Manager.notify
settling_honest = (tt, (tt, (tt, ((λ e. inl (inl refl)), (tt, (tt, ((λ e. cc), (tt, tt))))))))

abbrev queued_cell : Cell
queued_cell = record {
  ref = 1;
  item = record again { phase = queued; message = codes "re-queued"; updated_at = 14 };
}

first_queued : find_first is_queued (run daemon settling).manager.items ≡ some queued_cell
unfolding run start merge_bot.Queue.System.step merge_bot.Queue.System.has_worker
    merge_bot.Queue.Manager.effective_concurrency merge_bot.Queue.Manager.add
    merge_bot.Queue.Cells.find_first merge_bot.Queue.Manager.load new
    merge_bot.Queue.Manager.restored merge_bot.Queue.Manager.allocate merge_bot.Queue.Manager.save
    merge_bot.Queue.System.dispatched merge_bot.Queue.Manager.claim
    merge_bot.Queue.Cells.update_first merge_bot.Queue.Manager.remove
    merge_bot.Queue.Manager.cancel_number merge_bot.Queue.Cells.lookup_cancel
    merge_bot.Queue.System.drop_worker merge_bot.Queue.Process.finish
    merge_bot.Queue.Cells.delete_cancel merge_bot.Queue.Cells.find_ref
    merge_bot.Queue.Cells.update_ref merge_bot.Queue.Process.settled merge_bot.Queue.Process.settle
    merge_bot.Queue.Process.settle_error merge_bot.Merge.Errors.errors_is
    merge_bot.Queue.Manager.requeue_parked merge_bot.Queue.Manager.notify
first_queued = refl

slot_free : ((run daemon settling).ended ≡ false) × (has_slot (run daemon settling) ≡ true)
unfolding run start merge_bot.Queue.System.step merge_bot.Queue.System.has_worker
    merge_bot.Queue.Manager.effective_concurrency merge_bot.Queue.Manager.add
    merge_bot.Queue.Cells.find_first merge_bot.Queue.Manager.load new
    merge_bot.Queue.Manager.restored merge_bot.Queue.Manager.allocate merge_bot.Queue.Manager.save
    merge_bot.Queue.System.dispatched merge_bot.Queue.Manager.claim
    merge_bot.Queue.Cells.update_first merge_bot.Queue.Manager.remove
    merge_bot.Queue.Manager.cancel_number merge_bot.Queue.Cells.lookup_cancel
    merge_bot.Queue.System.drop_worker merge_bot.Queue.Process.finish
    merge_bot.Queue.Cells.delete_cancel merge_bot.Queue.Cells.find_ref
    merge_bot.Queue.Cells.update_ref merge_bot.Queue.Process.settled merge_bot.Queue.Process.settle
    merge_bot.Queue.Process.settle_error merge_bot.Merge.Errors.errors_is
    merge_bot.Queue.Manager.requeue_parked merge_bot.Queue.Manager.notify
slot_free = (refl, refl)

run-start-Progress_example :
    find_ref 1 (run (run daemon settling) (wakes ∷ dispatches (io 17) ∷ [])).manager.items
    ≡ some (claimed 17 queued_cell.item)
run-start-Progress_example =
    run-start-Progress config true (some items) settling (io 17) queued_cell numbers_differ
      settling_calm settling_honest slot_free.0 slot_free.1 first_queued
