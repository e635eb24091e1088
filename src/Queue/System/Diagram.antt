-- ===== src/Queue/System/Diagram.antt =====
-- The life of one pull request in the queue of internal/queue/manager.go: its phases, and the events of
-- the daemon that lead from one to another.
pub mod Operations
pub mod Steps
use mathlib.Core.Option
use mathlib.Core.Option.{some-injective}
use merge_bot.Base.{
  ℕ, ◌≡◌, refl, sym, ap, ◌∙◌, subst, Bool, true, false, List, Option, none, some, arith, Text,
  Bool-cases, inl, inr, ◌==◌,
}
use merge_bot.Merge.Errors.{Error}
use merge_bot.Queue.Types.{Phase, queued, active, stopped, Item, Cell, Manager, Io}
use merge_bot.Queue.Cells.{find_first, update_first, find_ref}
use merge_bot.Queue.Cells.Found.{find_ref-found, find_ref-update_first}
use merge_bot.Queue.Manager.{is_live, is_parked}
use merge_bot.Queue.Process.{settled}
use merge_bot.Queue.System.{
  Event, Worker, adds, removes, requeues, clears, rechecks, dispatches, finishes, has_worker,
}
use merge_bot.Queue.Recheck.Requeues.{IsParked}
use merge_bot.Queue.System.Owned.{ManagerInv}

-- The edges of the diagram for pull request n, whose item has the address k, while the workers ws run:
-- each under the event that takes it. The worker that settles the item was started for its address.
pub data Edge (ws : List Worker) (k n : ℕ) : Event → Phase → Phase → Type 0 where
  starts : (io : Io) → Edge ws k n (dispatches io) queued active
  stops : (io : Io) (p : Phase) → is_live p ≡ true → Edge ws k n (removes io n) p stopped
  adds_again : (io : Io) (p : Phase) → is_live p ≡ false → Edge ws k n (adds io n) p queued
  retries : (io : Io) (p : Phase) → is_parked p ≡ true → Edge ws k n (requeues io n) p queued
  recovers :
      (io : Io) (from : Phase) (message : Text)
      → IsParked from
      → Edge ws k n (rechecks io n from message) from queued
  settles :
      (io : Io) (w : Worker) (result : Option Error) (it : Item)
      → w.0 ≡ k
      → has_worker w ws ≡ true
      → it.phase ≡ active
      → Edge ws k n (finishes io w result) active (settled io.now result it).phase

-- What an event makes of an item of the queue: it keeps its number, and its phase stays or moves along
-- an edge; only `Clear` takes it out of the queue, and no queued or active one.
pub data Follows (ws : List Worker) (k : ℕ) (e : Event) (it : Item) : Option Item → Type 0 where
  dropped :
      (io : Io) (phases : List Phase)
      → e ≡ clears io phases
      → is_live it.phase ≡ false
      → Follows ws k e it none
  stays :
      (it' : Item) → it'.number ≡ it.number → it'.phase ≡ it.phase → Follows ws k e it (some it')
  moves :
      (it' : Item)
      → it'.number ≡ it.number
      → Edge ws k it.number e it.phase it'.phase
      → Follows ws k e it (some it')

-- A re-check looks for parked pull requests.
abbrev pub IsPlanned : Event → Type 0
IsPlanned (rechecks io n from message) = IsParked from
IsPlanned _ = Unit

module _ (ws : List Worker) (e : Event) (k : ℕ) (it : Item) where
  pub Follows-same : (x : Option Item) → x ≡ some it → Follows ws k e it x
  Follows-same x h = subst (Follows ws k e it) (sym h) (stays it refl refl)

  pub Follows-update_first :
      (m : Manager) (items : List Cell) (test : Item → Bool) (change : Item → Item) (c : Cell)
      → ManagerInv m ws
      → find_ref k m.items ≡ some it
      → find_first test m.items ≡ some c
      → items ≡ update_first test change m.items
      → ((c.item ≡ it) → Follows ws k e it (some (change it)))
      → Follows ws k e it (find_ref k items)
  Follows-update_first m items test change c v h found changed follows =
      let seen =
        ap (find_ref k) changed ∙ find_ref-update_first test change k m.items c v.refs found in
      elim (Bool-cases (c.ref == k)) [
        | inl hit ↦
            let same : c.item ≡ it = some-injective _ _ (
              sym (find_ref-found test m.items c v.refs found)
              ∙ ap (λ j. find_ref j m.items) (ground arith)
              ∙ h) in
            subst (Follows ws k e it) (sym (seen ∙ ground (arith, hit, same))) (follows same)
        | inr away ↦ Follows-same _ (seen ∙ ground (arith, away, h))
      ]
