-- ===== src/Queue/System/Crash.antt =====
-- The daemon's queue (internal/queue/manager.go) and its state file over a crash and a restart.
use merge_bot.Base.{
  ℕ, ◌≡◌, refl, sym, ◌∙◌, ap, Bool, true, not, ◌&&◌, ◌||◌, List, [], ◌∷◌, map, Option, none, some,
  arith, Bool-cases, inl, inr, All,
}
use merge_bot.Queue.Types.{Phase, Manager, Item, Config}
use merge_bot.Queue.Manager.{contents, new, load, list, restored, claim}
use merge_bot.Queue.Manager.Fixed.{
  fixed-add, fixed-remove, fixed-clear, fixed-requeue, fixed-requeue_parked, fixed-claim,
  fixed-finish, fixed-log_line,
}
use merge_bot.Queue.System.{
  System, Event, Worker, adds, removes, requeues, clears, rechecks, dispatches, wakes, ends,
  finishes, logs, step, run, has_worker, has_slot, dispatched, start,
}
use merge_bot.Queue.System.Start.{map-allocate}
use merge_bot.Queue.Manager.Synced.{
  resumed, file, Synced, add-Synced, remove-Synced, requeue-Synced, requeue_parked-Synced,
  clear-Synced, claim-Synced, finish-Synced, log_line-Synced, map-contents,
}

-- The state file can be written when the event wants to.
abbrev pub IsWritable : Event → Type 0
IsWritable (adds io n) = io.writable ≡ true
IsWritable (removes io n) = io.writable ≡ true
IsWritable (requeues io n) = io.writable ≡ true
IsWritable (clears io phases) = io.writable ≡ true
IsWritable (rechecks io n from message) = io.writable ≡ true
IsWritable (dispatches io) = io.writable ≡ true
IsWritable wakes = Unit
IsWritable ends = Unit
IsWritable (finishes io w result) = io.writable ≡ true
IsWritable (logs now w message) = Unit

record IsSafe (s : System) : Type 0 where
  synced : Synced s.manager
  persistent : s.manager.persistent ≡ true

dispatched-IsSafe :
    (s : System) (answer : Manager × Option Worker)
    → Synced answer.0
    → answer.0.persistent ≡ true
    → IsSafe (dispatched s answer)
unfolding dispatched
dispatched-IsSafe s (m, none) h p = record { synced = h; persistent = p }
dispatched-IsSafe s (m, some w) h p = record { synced = h; persistent = p }

kept : {x y : Config × Bool} → x ≡ y → y.1 ≡ true → x.1 ≡ true
kept f p = ap (λ x. x.1) f ∙ p

step-IsSafe : (s : System) (e : Event) → IsWritable e → IsSafe s → IsSafe (step s e)
unfolding step
step-IsSafe s (adds io n) w h = record {
  synced = add-Synced io s.manager w h.persistent n h.synced;
  persistent = kept (fixed-add io n s.manager) h.persistent;
}
step-IsSafe s (removes io n) w h = record {
  synced = remove-Synced io s.manager w h.persistent n h.synced;
  persistent = kept (fixed-remove io n s.manager) h.persistent;
}
step-IsSafe s (requeues io n) w h = record {
  synced = requeue-Synced io s.manager w h.persistent n h.synced;
  persistent = kept (fixed-requeue io n s.manager) h.persistent;
}
step-IsSafe s (clears io phases) w h = record {
  synced = clear-Synced io s.manager w h.persistent phases h.synced;
  persistent = kept (fixed-clear io phases s.manager) h.persistent;
}
step-IsSafe s (rechecks io n from message) w h = record {
  synced = requeue_parked-Synced io s.manager w h.persistent n from message h.synced;
  persistent = kept (fixed-requeue_parked io n from message s.manager) h.persistent;
}
step-IsSafe s (dispatches io) w h = elim (Bool-cases (s.ended || s.waiting || not (has_slot s))) [
  | inl shut ↦ simp shut h
  | inr free ↦ simp free (
      dispatched-IsSafe s (claim io s.manager) (claim-Synced io s.manager w h.persistent h.synced)
        (kept (fixed-claim io s.manager) h.persistent))
]
step-IsSafe s wakes w h = elim (Bool-cases (not s.ended && s.waiting && s.manager.wake)) [
  | inl woken ↦ simp woken (record { synced = h.synced; persistent = h.persistent })
  | inr asleep ↦ simp asleep h
]
step-IsSafe s ends w h = record { synced = h.synced; persistent = h.persistent }
step-IsSafe s (finishes io v result) w h = elim (Bool-cases (has_worker v s.workers)) [
  | inl runs ↦ simp runs (record {
    synced = finish-Synced io s.manager w h.persistent v.0 result h.synced;
    persistent = kept (fixed-finish io v.0 result s.manager) h.persistent;
  })
  | inr gone ↦ simp gone h
]
step-IsSafe s (logs now v message) w h = elim (Bool-cases (has_worker v s.workers)) [
  | inl runs ↦ simp runs (record {
    synced = log_line-Synced s.manager now v.0 message h.synced;
    persistent = kept (fixed-log_line now v.0 message s.manager) h.persistent;
  })
  | inr gone ↦ simp gone h
]

run-IsSafe : (s : System) (es : List Event) → All IsWritable es → IsSafe s → IsSafe (run s es)
unfolding run
run-IsSafe s [] w h = h
run-IsSafe s (e ∷ es) w h = run-IsSafe (step s e) es w.1 (step-IsSafe s e w.0 h)

-- The number and the phase of an item.
abbrev pub key : Item → ℕ × Phase
key it = (it.number, it.phase)

resumed-restored : (it : Item) → resumed (restored it) ≡ resumed it
unfolding restored
resumed-restored it = ground arith

key-restored : (it : Item) → key (restored it) ≡ resumed it
unfolding restored
key-restored it = ground arith

map-restored :
    (f g : Item → ℕ × Phase)
    → ((it : Item) → f (restored it) ≡ g it)
    → (its : List Item) → map f (map restored its) ≡ map g its
map-restored f g same [] = refl
map-restored f g same (it ∷ its) = cc (same it, map-restored f g same its)

load_resumes :
    (cfg : Config) (f g : Item → ℕ × Phase)
    → ((it : Item) → f (restored it) ≡ g it)
    → (disk : Option (List Item))
    → map f (contents (load (new cfg true disk)).items) ≡ map g (file disk)
unfolding load new
load_resumes cfg f g same none = refl
load_resumes cfg f g same (some its) =
    map-contents f _ ∙ map-allocate f 0 (map restored its) ∙ map-restored f g same its

start-IsSafe : (cfg : Config) (disk : Option (List Item)) → IsSafe (start (new cfg true disk))
unfolding start load new
start-IsSafe cfg none = record { synced = refl; persistent = refl }
start-IsSafe cfg (some its) = record {
  synced = sym (load_resumes cfg resumed resumed resumed-restored (some its));
  persistent = refl;
}

-- Crash safety: after any interleaving of a daemon with a state file, if the file could be written at
-- each event, a daemon that is started over the file then has the same pull requests in the same
-- order and phases, but that the active ones are queued again.
pub crash_resumes :
    (cfg : Config) (disk : Option (List Item)) (es : List Event)
    → All IsWritable es
    → let s = run (start (new cfg true disk)) es in
      map key (list (start (new cfg true s.manager.disk)).manager) ≡ map resumed (list s.manager)
unfolding list start
crash_resumes cfg disk es w =
    let s = run (start (new cfg true disk)) es in
    load_resumes cfg key resumed key-restored s.manager.disk
    ∙ (run-IsSafe (start (new cfg true disk)) es w (start-IsSafe cfg disk)).synced
