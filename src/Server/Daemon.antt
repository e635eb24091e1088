-- ===== src/Server/Daemon.antt =====
-- The daemon: the handlers of internal/server/server.go between the goroutines of
-- internal/queue/manager.go.
use merge_bot.Base.{
  ℕ, ◌≡◌, refl, sym, ap, ◌∙◌, subst, Bool, true, false, List, [], ◌∷◌, ◌++◌, Option, none, some,
  String, arith, Text, ℤ, Option-cases, inl, inr, split_commas,
}
use merge_bot.Queue.Types.{Item, Config, Manager, Io}
use merge_bot.Queue.Manager.{new, requeue}
use merge_bot.Queue.System.{System, Event, adds, removes, requeues, clears, step, run, start}
use merge_bot.Queue.System.Invariant.{SystemInv}
use merge_bot.Queue.System.Start.{DistinctFile, run-start-SystemInv}
use merge_bot.Stats.{Collector}
use merge_bot.Review.{Dashboard}
use merge_bot.Server.{
  Server, Request, get_index, get_config, get_ready, post_refresh, get_items, get_stats, post_item,
  delete_items, delete_item, post_requeue, post_status, Visit, Handled, probe_status, add_item,
  clear_items, remove_item, requeue_item, requeued_answer, handle,
}
use merge_bot.Server.Texts.{positive_number, path_number, phases_of}

-- The server's queue is the manager that the goroutines work on.
pub record Daemon : Type 0 where
  pub system : System
  pub reviewer : Option Dashboard
  pub stats : Option Collector
  pub has_prober : Bool
  pub repo : Text
  pub mode : String

abbrev pub server_of : Daemon → Server
server_of d = record {
  manager = d.system.manager;
  reviewer = d.reviewer;
  stats = d.stats;
  has_prober = d.has_prober;
  repo = d.repo;
  mode = d.mode;
}

abbrev pub with_server : Daemon → Server → Daemon
with_server d s = record d {
  system = record d.system { manager = s.manager };
  reviewer = s.reviewer;
  stats = s.stats;
}

-- One critical section of a goroutine, or one request.
pub data Act : Type 0 where
  goroutine : Event → Act
  request : Visit → Request → Act

unfoldable pub act : Daemon → Act → Daemon
act d (goroutine e) = record d { system = step d.system e }
act d (request v r) = with_server d (handle v r (server_of d)).0

unfoldable pub acts : Daemon → List Act → Daemon
unfolding act
acts d [] = d
acts d (a ∷ rest) = acts (act d a) rest

-- The events of the queue that stand for a request: one, or none.
abbrev pub adds_event : Io → Option ℕ → List Event
adds_event io none = []
adds_event io (some n) = adds io n ∷ []

abbrev pub removes_event : Io → Option ℕ → List Event
removes_event io none = []
removes_event io (some n) = removes io n ∷ []

abbrev pub requeues_event : Io → Option ℕ → List Event
requeues_event io none = []
requeues_event io (some n) = requeues io n ∷ []

abbrev pub clears_event : Io → Text → List Event
clears_event io [] = []
clears_event io (c ∷ raw) = clears io (phases_of (split_commas (c ∷ raw))) ∷ []

abbrev pub posted_number : Option ℤ → Option ℕ
posted_number none = none
posted_number (some n) = positive_number (some n)

abbrev pub request_events : Visit → Request → List Event
request_events v (post_item number) = adds_event v.io (posted_number number)
request_events v (delete_items raw) = clears_event v.io raw
request_events v (delete_item number) = removes_event v.io (path_number number)
request_events v (post_requeue number) = requeues_event v.io (path_number number)
request_events v (get_index path) = []
request_events v get_config = []
request_events v get_ready = []
request_events v post_refresh = []
request_events v get_items = []
request_events v get_stats = []
request_events v (post_status number) = []

-- The system behind a handler's answer.
abbrev system_after : Daemon → Handled → System
system_after d served = record d.system { manager = served.0.manager }

module _ (v : Visit) (d : Daemon) where
  add_item-run :
      (number : Option ℤ)
      → system_after d (add_item v number (server_of d))
        ≡ run d.system (adds_event v.io (posted_number number))
  unfolding add_item run step
  add_item-run none = refl
  add_item-run (some number) = elim (Option-cases (positive_number (some number))) [
    | inl rejected ↦ simp (rejected, add_item)
    | inr (n, named) ↦ simp (named, add_item)
  ]

  clear_items-run :
      (raw : Text)
      → system_after d (clear_items v raw (server_of d)) ≡ run d.system (clears_event v.io raw)
  unfolding clear_items run step
  clear_items-run [] = refl
  clear_items-run (c ∷ raw) = refl

  remove_item-run :
      (number : Option ℕ)
      → system_after d (remove_item v number (server_of d))
        ≡ run d.system (removes_event v.io number)
  unfolding remove_item run step
  remove_item-run none = refl
  remove_item-run (some n) = refl

  requeued_answer-manager :
      (answer : Manager × Bool) → (requeued_answer (server_of d) answer).0.manager ≡ answer.0
  requeued_answer-manager (m, false) = refl
  requeued_answer-manager (m, true) = refl

  requeue_item-run :
      (number : Option ℕ)
      → system_after d (requeue_item v number (server_of d))
        ≡ run d.system (requeues_event v.io number)
  unfolding requeue_item run step
  requeue_item-run none = refl
  requeue_item-run (some n) =
      ap (λ m. record d.system { manager = m })
        (requeued_answer-manager (requeue v.io n d.system.manager))

  probe_status-manager :
      (number : Option ℕ) → (probe_status v number (server_of d)).0.manager ≡ d.system.manager
  unfolding probe_status
  probe_status-manager number = ground arith

  request-run : (r : Request) → (act d (request v r)).system ≡ run d.system (request_events v r)
  unfolding act handle run
  request-run (get_index path) = refl
  request-run get_config = refl
  request-run get_ready = refl
  request-run post_refresh = refl
  request-run get_items = refl
  request-run get_stats = refl
  request-run (post_item number) = add_item-run number
  request-run (delete_items raw) = clear_items-run raw
  request-run (delete_item number) = remove_item-run (path_number number)
  request-run (post_requeue number) = requeue_item-run (path_number number)
  request-run (post_status number) =
      ap (λ m. record d.system { manager = m }) (probe_status-manager (path_number number))

abbrev pub events_of : List Act → List Event
events_of [] = []
events_of (goroutine e ∷ rest) = e ∷ events_of rest
events_of (request v r ∷ rest) = request_events v r ++ events_of rest

run-append : (s : System) (es fs : List Event) → run s (es ++ fs) ≡ run (run s es) fs
unfolding run
run-append s [] fs = refl
run-append s (e ∷ es) fs = run-append (step s e) es fs

-- Requests refine the queue's events: in any interleaving of requests and goroutines, the queue goes
-- through the events of the goroutines, with one event, or none, for each request.
pub acts-run :
    (d : Daemon) (served : List Act) → (acts d served).system ≡ run d.system (events_of served)
unfolding acts run
acts-run d [] = refl
acts-run d (goroutine e ∷ rest) = acts-run (act d (goroutine e)) rest
acts-run d (request v r ∷ rest) =
    acts-run (act d (request v r)) rest
    ∙ ap (λ s. run s (events_of rest)) (request-run v d r)
    ∙ sym (run-append d.system (request_events v r) (events_of rest))

-- Whatever requests arrive and however they interleave with the goroutines: if the daemon is started
-- over a state file with distinct numbers, no number stands twice in its queue, every active item has a
-- worker, and there are at most as many workers as the concurrency allows.
pub acts-SystemInv :
    (cfg : Config) (persistent : Bool) (disk : Option (List Item)) (d : Daemon) (served : List Act)
    → DistinctFile disk
    → d.system ≡ start (new cfg persistent disk)
    → SystemInv (acts d served).system
acts-SystemInv cfg persistent disk d served distinct started =
    subst SystemInv (ap (λ s. run s (events_of served)) (sym started) ∙ sym (acts-run d served))
      (run-start-SystemInv cfg persistent disk (events_of served) distinct)
