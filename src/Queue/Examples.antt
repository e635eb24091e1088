-- ===== src/Queue/Examples.antt =====
-- A queue of four pull requests, for internal/queue/manager.go.
use merge_bot.Base.{
  ℕ, ◌≡◌, ◌↔◌, refl, true, false, not, List, [], ◌∷◌, map, none, some, arith, Distinct,
}
use merge_bot.Merge.Errors.{canceled, ok, sentinel, conflicts}
use merge_bot.Queue.Types.{
  Phase, queued, active, failed, needs_approvals, Item, Config, Manager, Io,
}
use merge_bot.Queue.Cells.{find_first}
use merge_bot.Queue.Manager.{new, list, load, add, remove, clear, claim}
use merge_bot.Queue.Manager.Claim.{Claims, claim-Claims}
use merge_bot.Queue.Manager.Lookup.{item_of}
use merge_bot.Queue.Manager.Clear.{keep_if, dropped, item_of-clear}
use merge_bot.Queue.Recheck.{World, recheck_parked}
use merge_bot.Queue.Recheck.Requeues.{approvals}
use merge_bot.Queue.Recheck.Recovers.{
  Moves, Admitted, Queued, recheck_parked-Moves, recheck_parked-Queued_iff,
}
use merge_bot.Queue.System.{System, wakes, Event, adds, removes, dispatches, finishes, start, run}
use merge_bot.Queue.System.Invariant.{SystemInv}
use merge_bot.Queue.System.Start.{run-start-SystemInv}
use merge_bot.Queue.Manager.Synced.{resumed}
use merge_bot.Queue.System.Crash.{key, crash_resumes}

abbrev config : Config
config = record {
  interval = 30;
  timeout = 3600;
  recheck_interval = 300;
  merge_method = "squash";
  min_approvals = 1;
  concurrency = 1;
  merge_mode = "self";
  allow_unstable = false;
  allow_unresolved = false;
}

abbrev item : ℕ → Phase → Item
item n phase = record {
  number = n;
  phase = phase;
  message = [];
  error = [];
  added_at = 5;
  updated_at = 5;
  merged_at = none;
}

abbrev items : List Item
items = item 4 failed ∷ item 7 active ∷ item 9 needs_approvals ∷ item 12 Phase.conflicts ∷ []

abbrev io : ℕ → Io
io t = record { now = t; writable = true }

abbrev manager : Manager
manager = load (new config true (some items))

-- Number 12 is taken, 9 is removed, 7 fails with conflicts.
abbrev events : List Event
events =
    adds (io 10) 12
    ∷ dispatches (io 11)
    ∷ removes (io 12) 12
    ∷ finishes (io 13) (1, 0) (some (sentinel conflicts))
    ∷ dispatches (io 14)
    ∷ []

abbrev world : World
world = record {
  review_status = λ n. ok (record {
    unresolved_threads = 0;
    more_threads = false;
    review_decision = "APPROVED";
    approvals = 2;
  });
  get_pull_request = λ n. ok (record {
    merged = false;
    state = "open";
    draft = false;
    mergeable_state = "clean";
    head_sha = "c0ffee";
    base_ref = "main";
  });
  is_cancelled = λ n. false;
  io = λ n. io 20;
  meanwhile = λ n m. m;
}

numbers_differ : Distinct (4 ∷ 7 ∷ 9 ∷ 12 ∷ [])
numbers_differ = omega arith

run-start-SystemInv_example : SystemInv (run (start (new config true (some items))) events)
run-start-SystemInv_example = run-start-SystemInv config true (some items) events numbers_differ

crash_resumes_example :
    let s = run (start (new config true (some items))) events in
    map key (list (start (new config true s.manager.disk)).manager) ≡ map resumed (list s.manager)
crash_resumes_example =
    crash_resumes config (some items) events (refl, (refl, (refl, (refl, (refl, tt)))))

claim-Claims_example : Claims (io 10) manager (claim (io 10) manager)
claim-Claims_example = claim-Claims (io 10) manager

recheck_parked-Moves_example :
    Moves (Admitted world manager 9) (item_of 9 manager) (item_of 9 (recheck_parked world manager))
recheck_parked-Moves_example = recheck_parked-Moves world manager 9 (λ n x. refl)

nine_found : item_of 9 manager ≡ some (item 9 needs_approvals)
unfolding load new find_first
nine_found = refl

recheck_parked-Queued_iff_example :
    Queued (item_of 9 (recheck_parked world manager)) ↔ Admitted world manager 9 needs_approvals
recheck_parked-Queued_iff_example =
    recheck_parked-Queued_iff world manager 9 (item 9 needs_approvals) (λ n x. refl) (λ n. refl)
      nine_found approvals

item_of-clear_example :
    item_of 4 (clear (io 10) (failed ∷ queued ∷ []) manager)
    ≡ keep_if (λ it. not (dropped (failed ∷ queued ∷ []) it.phase)) (item_of 4 manager)
unfolding load new
item_of-clear_example = item_of-clear (io 10) (failed ∷ queued ∷ []) 4 manager numbers_differ

abbrev io_at : ℕ → Io
io_at t = record { now = t; writable = true }

-- Pull request 7 is removed and added again while its first worker has not ended yet. That worker, when
-- it ends, cancels the context of the second one. The item is queued again, but nothing wakes the
-- dispatcher, which waits with all slots free.
abbrev readded : List Event
readded =
    adds (io_at 1) 7
    ∷ dispatches (io_at 2)
    ∷ dispatches (io_at 2)
    ∷ wakes
    ∷ removes (io_at 3) 7
    ∷ adds (io_at 4) 7
    ∷ dispatches (io_at 5)
    ∷ dispatches (io_at 5)
    ∷ wakes
    ∷ dispatches (io_at 5)
    ∷ finishes (io_at 6) (0, 0) (some (sentinel canceled))
    ∷ finishes (io_at 7) (0, 1) (some (sentinel canceled))
    ∷ []

abbrev after_readding : System
after_readding = run (start (new (record config { concurrency = 3 }) false none)) readded

stranded :
    (map (λ it. it.phase) (list after_readding.manager) ≡ queued ∷ [])
    × (after_readding.manager.cancelled ≡ 1 ∷ 0 ∷ [])
    × (after_readding.workers ≡ [])
    × (after_readding.waiting ≡ true)
    × (after_readding.manager.wake ≡ false)
unfolding run start list merge_bot.Queue.System.step merge_bot.Queue.System.has_worker
    merge_bot.Queue.Manager.effective_concurrency add merge_bot.Queue.Cells.find_first load new
    merge_bot.Queue.Manager.save merge_bot.Queue.System.dispatched claim
    merge_bot.Queue.Cells.update_first remove merge_bot.Queue.Manager.cancel_number
    merge_bot.Queue.Cells.lookup_cancel merge_bot.Queue.System.drop_worker
    merge_bot.Queue.Process.finish merge_bot.Queue.Cells.delete_cancel
    merge_bot.Queue.Cells.find_ref merge_bot.Queue.Cells.update_ref merge_bot.Queue.Process.settled
    merge_bot.Queue.Process.settle merge_bot.Queue.Process.settle_error
    merge_bot.Merge.Errors.errors_is
stranded = (refl, refl, refl, refl, refl)
