-- ===== src/Queue/System/Progress/Starts.antt =====
-- A daemon of internal/queue/manager.go that has a free slot and a queued pull request starts it.
use merge_bot.Base.{
  ◌≡◌, refl, ap, ◌∙◌, Bool, true, false, not, ◌&&◌, ◌||◌, List, [], ◌∷◌, Option, some, arith,
  Bool-cases, inl, inr,
}
use merge_bot.Queue.Types.{Item, Cell, Config, Manager, Io}
use merge_bot.Queue.Cells.{find_first, find_ref, update_first, lookup_cancel}
use merge_bot.Queue.Cells.Found.{find_first-All, find_first-passes, find_ref-update_first}
use merge_bot.Queue.Manager.{new, load, claim, claimed, is_queued}
use merge_bot.Queue.Manager.Saves.{saving}
use merge_bot.Queue.System.{System, Event, dispatches, wakes, step, run, has_slot, start}
use merge_bot.Queue.System.Invariant.{SystemInv, step-SystemInv}
use merge_bot.Queue.System.Owned.{ManagerInv}
use merge_bot.Queue.System.Start.{DistinctFile, start-SystemInv}
use merge_bot.Queue.System.Exclusive.{Exclusive}
use merge_bot.Queue.System.Exclusive.Calm.{CalmRun, step-Exclusive}
use merge_bot.Queue.System.Diagram.Steps.{dispatched-items}
use merge_bot.Queue.System.Progress.{Registry, HonestRun, Awake}
use merge_bot.Queue.System.Progress.Contexts.{contexts_of, Registry-same, step-Registry}
use merge_bot.Queue.System.Progress.Wakeups.{step-Awake}

-- What holds between two events.
record Going (s : System) : Type 0 where
  pub inv : SystemInv s
  pub exclusive : Exclusive s.manager s.workers
  pub registry : Registry s.manager
  pub awake : Awake s

run-Going :
    (s : System) (es : List Event) → CalmRun s es → HonestRun s es → Going s → Going (run s es)
unfolding run
run-Going s [] calm honest h = h
run-Going s (e ∷ es) calm honest h = run-Going (step s e) es calm.1 honest.1 (record {
  inv = step-SystemInv s e h.inv;
  exclusive = step-Exclusive s e h.inv calm.0 h.exclusive;
  registry = step-Registry s e h.registry;
  awake = step-Awake s e h.inv h.exclusive h.registry honest.0 h.awake;
})

load-contexts : (m : Manager) → contexts_of (load m) ≡ contexts_of m
unfolding load
load-contexts m = ground arith

start-Registry :
    (cfg : Config) (persistent : Bool) (disk : Option (List Item))
    → Registry (start (new cfg persistent disk)).manager
unfolding start new lookup_cancel
start-Registry cfg persistent disk =
    let m : Manager = new cfg persistent disk in
    Registry-same m (load m) (load-contexts m) (record {
      injective = λ a b c p q. absurd (ground (arith, p));
      below = λ a c p. absurd (ground (arith, p));
      cancelled_below = tt;
      uncancelled = λ a c p. absurd (ground (arith, p));
    })

start-Going :
    (cfg : Config) (persistent : Bool) (disk : Option (List Item))
    → DistinctFile disk
    → Going (start (new cfg persistent disk))
unfolding start
start-Going cfg persistent disk d = record {
  inv = start-SystemInv cfg persistent disk d;
  exclusive = record { holds = tt; apart = tt };
  registry = start-Registry cfg persistent disk;
  awake = λ open_ waits. absurd (ground (arith, waits));
}

claim-items :
    (io : Io) (m : Manager) (c : Cell)
    → find_first is_queued m.items ≡ some c
    → (claim io m).0.items ≡ update_first is_queued (claimed io.now) m.items
unfolding claim
claim-items io m c e = simp (e, claim, saving)

-- The dispatcher's next turn, once it does not wait.
dispatch_starts :
    (s : System) (io : Io) (c : Cell)
    → ManagerInv s.manager s.workers
    → s.ended ≡ false
    → s.waiting ≡ false
    → has_slot s ≡ true
    → find_first is_queued s.manager.items ≡ some c
    → find_ref c.ref (step s (dispatches io)).manager.items ≡ some (claimed io.now c.item)
unfolding step
dispatch_starts s io c v open_ busy slot e =
    let free : (s.ended || s.waiting || not (has_slot s)) ≡ false =
      ground (arith, open_, busy, slot) in
    let seen = find_ref-update_first is_queued (claimed io.now) c.ref s.manager.items c v.refs e in
    simp free (
      ap (find_ref c.ref) (dispatched-items s (claim io s.manager) ∙ claim-items io s.manager c e)
      ∙ seen
      ∙ ground arith)

-- A dispatcher without a signal does not wait while an item is queued.
not_waiting :
    (s : System) (c : Cell)
    → Going s
    → s.ended ≡ false
    → (s.waiting ≡ true → s.manager.wake ≡ false)
    → find_first is_queued s.manager.items ≡ some c
    → s.waiting ≡ false
not_waiting s c g open_ unsignalled e = elim (Bool-cases s.waiting) [
  | inr busy ↦ busy
  | inl waits ↦
      let none_queued = g.awake open_ waits (unsignalled waits) in
      absurd (
        ground (
          arith,
          find_first-passes is_queued s.manager.items c e,
          find_first-All (λ x. is_queued x.item ≡ false) is_queued s.manager.items c none_queued e,
        ))
]

two_turns :
    (s : System) (io : Io) (c : Cell)
    → Going s
    → s.ended ≡ false
    → has_slot s ≡ true
    → find_first is_queued s.manager.items ≡ some c
    → find_ref c.ref (run s (wakes ∷ dispatches io ∷ [])).manager.items
      ≡ some (claimed io.now c.item)
unfolding run step
two_turns s io c g open_ slot e = elim (Bool-cases (not s.ended && s.waiting && s.manager.wake)) [
  | inl woken ↦ simp woken (
      dispatch_starts (record s { manager = record s.manager { wake = false }; waiting = false }) io
        c
        (record {
          refs = g.inv.owned.refs;
          fresh = g.inv.owned.fresh;
          numbers = g.inv.owned.numbers;
          owned = g.inv.owned.owned;
        })
        open_ refl slot e)
  | inr asleep ↦ simp asleep (
      dispatch_starts s io c g.inv.owned open_
        (not_waiting s c g open_ (λ waits. ground (arith, asleep, waits, open_)) e) slot e)
]

-- Started over a state file with distinct numbers, as long as no pull request is added again while its
-- stopped worker still runs, no re-check requeues an active or stopped item, and a worker's drive is cut short only by the cancellation of its context:
-- whenever a pull request is queued, a slot is free, and the daemon has not ended, the next two turns of
-- the dispatcher make the first queued one active.
pub run-start-Progress :
    (cfg : Config) (persistent : Bool) (disk : Option (List Item)) (es : List Event) (io : Io)
    (c : Cell)
    → DistinctFile disk
    → CalmRun (start (new cfg persistent disk)) es
    → HonestRun (start (new cfg persistent disk)) es
    → (run (start (new cfg persistent disk)) es).ended ≡ false
    → has_slot (run (start (new cfg persistent disk)) es) ≡ true
    → find_first is_queued (run (start (new cfg persistent disk)) es).manager.items ≡ some c
    → find_ref c.ref
        (run (run (start (new cfg persistent disk)) es) (wakes ∷ dispatches io ∷ [])).manager.items
      ≡ some (claimed io.now c.item)
run-start-Progress cfg persistent disk es io c d calm honest =
    two_turns (run (start (new cfg persistent disk)) es) io c (
      run-Going (start (new cfg persistent disk)) es calm honest
        (start-Going cfg persistent disk d))
