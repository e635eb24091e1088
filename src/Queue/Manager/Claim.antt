-- ===== src/Queue/Manager/Claim.antt =====
-- `claim` of internal/queue/manager.go.
use merge_bot.Base.{
  ℕ, ◌≡◌, inl, inr, true, false, List, ◌∷◌, ◌++◌, Option, none, some, arith, All, Option-cases,
}
use merge_bot.Queue.Types.{Phase, queued, phase_eq, Cell, Manager, Io}
use merge_bot.Queue.Cells.{find_first, lookup_cancel}
use merge_bot.Queue.Cells.Updates.{changed, find_first-none}
use merge_bot.Queue.Cells.Split.{find_first-Split}
use merge_bot.Queue.Manager.{claim, is_queued, claimed}
use merge_bot.Queue.Manager.Saves.{saving}

-- No item waits; or the first one that waits is made active, under a context that is new and
-- registered for its number, and nothing else in the queue changes.
pub data Claims (io : Io) (m : Manager) (answer : Manager × Option (ℕ × ℕ)) : Type 0 where
  nothing : All (λ c. is_queued c.item ≡ false) m.items → answer ≡ (m, none) → Claims io m answer
  first :
      (before after : List Cell) (c : Cell)
      → m.items ≡ before ++ c ∷ after
      → All (λ x. is_queued x.item ≡ false) before
      → c.item.phase ≡ queued
      → answer.0.items ≡ before ++ changed (claimed io.now) c ∷ after
      → answer.1 ≡ some (c.ref, m.next_context)
      → lookup_cancel c.item.number answer.0.cancels ≡ some m.next_context
      → Claims io m answer

queued_of_eq : (p : Phase) → phase_eq p queued ≡ true → p ≡ queued
queued_of_eq p h = ground arith

lookup_cancel_first :
    (n context : ℕ) (rest : List (ℕ × ℕ)) → lookup_cancel n ((n, context) ∷ rest) ≡ some context
unfolding lookup_cancel
lookup_cancel_first n context rest = ground arith

-- The queue is served in its order: `claim` takes the first queued item, makes it active under a new
-- context registered for its number, and changes no other item; it gives up only if none is queued.
pub claim-Claims : (io : Io) (m : Manager) → Claims io m (claim io m)
unfolding claim
claim-Claims io m = elim (Option-cases (find_first is_queued m.items)) [
  | inl e ↦ nothing (find_first-none is_queued m.items e) (rw (e, claim))
  | inr (c, e) ↦
      let s = find_first-Split is_queued m.items c e in
      first s.before s.after c s.whole s.skipped (queued_of_eq c.item.phase s.passed)
        (simp (e, claim, saving) (s.update (claimed io.now))) (simp (e, claim))
        (simp (e, claim, saving) (lookup_cancel_first c.item.number m.next_context _))
]
