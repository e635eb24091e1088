-- ===== src/Queue/System/Progress/Signals.antt =====
-- Which operations of internal/queue/manager.go signal the dispatcher, and which queue nothing.
use merge_bot.Base.{
  ℕ, ◌≡◌, ◌⊎◌, refl, true, false, List, [], ◌∷◌, Option, none, arith, All, Bool-cases, Option-cases,
  inl, inr, Text,
}
use merge_bot.Merge.Errors.{Error}
use merge_bot.Queue.Types.{Phase, Cell, Manager, Io}
use merge_bot.Queue.Cells.{find_first}
use merge_bot.Queue.Cells.Updates.{All-update_first, All-keep_cells, find_first-none}
use merge_bot.Queue.Manager.{
  add, remove, clear, requeue, requeue_parked, claim, has_number, is_live, is_parked, stop,
  is_queued, wanted, drop_phases,
}
use merge_bot.Queue.Manager.Saves.{saving}
use merge_bot.Queue.Process.{finish, item_at, log_line}

abbrev pub NoneQueued : List Cell → Type 0
NoneQueued = All (λ c. is_queued c.item ≡ false)

-- An operation that queues an item sends the signal.
module _ (io : Io) (m : Manager) where
  pub add_wakes : (n : ℕ) → ((add io n m).wake ≡ true) ⊎ (add io n m ≡ m)
  unfolding add merge_bot.Queue.Manager.notify
  add_wakes n = elim (Option-cases (find_first (has_number n) m.items)) [
    | inl e ↦ inl (simp (e, add))
    | inr (c, e) ↦ elim (Bool-cases (is_live c.item.phase)) [
      | inl live ↦ inr (simp (e, add, live))
      | inr finished ↦ inl (simp (e, add, finished))
    ]
  ]

  pub requeue_wakes : (n : ℕ) → ((requeue io n m).0.wake ≡ true) ⊎ ((requeue io n m).0 ≡ m)
  unfolding requeue merge_bot.Queue.Manager.notify
  requeue_wakes n = elim (Option-cases (find_first (has_number n) m.items)) [
    | inl e ↦ inr (simp (e, requeue))
    | inr (c, e) ↦ elim (Bool-cases (is_parked c.item.phase)) [
      | inl parked ↦ inl (simp (e, requeue, parked))
      | inr other ↦ inr (simp (e, requeue, other))
    ]
  ]

  pub requeue_parked_wakes :
      (n : ℕ) (from : Phase) (message : Text) → (requeue_parked io n from message m).wake ≡ true
  unfolding requeue_parked merge_bot.Queue.Manager.notify
  requeue_parked_wakes n from message = ground arith

  -- The others queue nothing, and leave the signal as it is.
  pub remove_quiet :
      (n : ℕ)
      → ((remove io n m).wake ≡ m.wake) × (NoneQueued m.items → NoneQueued (remove io n m).items)
  unfolding remove
  remove_quiet n = elim (Option-cases (find_first (has_number n) m.items)) [
    | inl e ↦ simp (e, remove) (refl, (λ h. h))
    | inr (c, e) ↦ elim (Bool-cases (is_live c.item.phase)) [
      | inl live ↦
          simp (e, remove, live, saving)
            (refl, All-update_first (has_number n) (stop io.now) _ (λ x h _. refl) m.items)
      | inr finished ↦ simp (e, remove, finished) (refl, (λ h. h))
    ]
  ]

  pub clear_quiet :
      (phases : List Phase)
      → ((clear io phases m).wake ≡ m.wake)
        × (NoneQueued m.items → NoneQueued (clear io phases m).items)
  unfolding clear drop_phases
  clear_quiet phases = drop (wanted phases)
    where
      drop :
          (ps : List Phase)
          → ((elim ps as (λ x. Manager) [ [] ↦ m | p ∷ rest ↦ drop_phases io (p ∷ rest) m ]).wake
              ≡ m.wake)
            × (NoneQueued m.items
                → NoneQueued
                    (elim ps as (λ x. Manager) [
                      | [] ↦ m
                      | p ∷ rest ↦ drop_phases io (p ∷ rest) m
                    ]).items)
      drop [] = (refl, (λ h. h))
      drop (p ∷ ps) = simp saving (refl, All-keep_cells _ _ m.items)

  pub claim_quiet : ((claim io m).1 ≡ none) → NoneQueued (claim io m).0.items
  unfolding claim
  claim_quiet = elim (Option-cases (find_first is_queued m.items)) [
    | inl e ↦ simp (e, claim) (λ h. find_first-none is_queued m.items e)
    | inr (c, e) ↦ simp (e, claim) (λ h. absurd (ground arith))
  ]

-- A worker sends no signal.
pub finish_wake :
    (io : Io) (ref : ℕ) (result : Option Error) (m : Manager)
    → (finish io ref result m).0.wake ≡ m.wake
unfolding finish
finish_wake io ref result m = elim (Option-cases (item_at ref m)) [
  | inl e ↦ simp (e, finish)
  | inr (it, e) ↦ simp (e, finish, saving)
]

pub log_line_wake :
    (now ref : ℕ) (message : Text) (m : Manager) → (log_line now ref message m).wake ≡ m.wake
unfolding log_line
log_line_wake now ref message m = refl
