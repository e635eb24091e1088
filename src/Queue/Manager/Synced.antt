-- ===== src/Queue/Manager/Synced.antt =====
-- The state file of internal/queue/manager.go beside the queue, under each operation.
use merge_bot.Base.{
  ℕ, ◌≡◌, refl, sym, ◌∙◌, ap, true, List, [], ◌∷◌, map, Option, none, some, arith, Text, Bool-cases,
  Option-cases, inl, inr,
}
use merge_bot.Merge.Errors.{Error}
use merge_bot.Queue.Types.{Phase, Manager, Cell, Item, Io}
use merge_bot.Queue.Cells.{find_first, update_ref}
use merge_bot.Queue.Cells.Updates.{map-update_ref}
use merge_bot.Queue.Manager.{
  contents, save, restored, has_number, is_live, add, remove, wanted, clear, drop_phases, requeue,
  is_parked, parked_as, requeue_parked, is_queued, claim,
}
use merge_bot.Queue.Manager.Saves.{cancel_number-persistent}
use merge_bot.Queue.Process.{finish, item_at, log_line, logged}

-- The number of an item, and its phase after a restart.
abbrev pub resumed : Item → ℕ × Phase
resumed it = (it.number, (restored it).phase)

abbrev pub file : Option (List Item) → List Item
file none = []
file (some its) = its

-- A restart from the file finds the numbers and phases of the queue.
abbrev pub Synced : Manager → Type 0
Synced m = map resumed (file m.disk) ≡ map resumed (contents m.items)

save-Synced :
    (io : Io) (m : Manager) → io.writable ≡ true → m.persistent ≡ true → Synced (save io m)
unfolding save
save-Synced io m w p = ground arith

module _ (io : Io) (m : Manager) (w : io.writable ≡ true) (p : m.persistent ≡ true) where
  pub add-Synced : (n : ℕ) → Synced m → Synced (add io n m)
  unfolding add
  add-Synced n h = elim (Option-cases (find_first (has_number n) m.items)) [
    | inl e ↦ simp (e, add) (save-Synced io _ w p)
    | inr (c, e) ↦ elim (Bool-cases (is_live c.item.phase)) [
      | inl live ↦ simp (e, add, live) h
      | inr settled ↦ simp (e, add, settled) (save-Synced io _ w p)
    ]
  ]

  pub remove-Synced : (n : ℕ) → Synced m → Synced (remove io n m)
  unfolding remove
  remove-Synced n h = elim (Option-cases (find_first (has_number n) m.items)) [
    | inl e ↦ simp (e, remove) h
    | inr (c, e) ↦ elim (Bool-cases (is_live c.item.phase)) [
      | inl live ↦ simp (e, remove, live) (save-Synced io _ w (cancel_number-persistent n m ∙ p))
      | inr settled ↦ simp (e, remove, settled) h
    ]
  ]

  pub requeue-Synced : (n : ℕ) → Synced m → Synced (requeue io n m).0
  unfolding requeue
  requeue-Synced n h = elim (Option-cases (find_first (has_number n) m.items)) [
    | inl e ↦ simp (e, requeue) h
    | inr (c, e) ↦ elim (Bool-cases (is_parked c.item.phase)) [
      | inl parked ↦ simp (e, requeue, parked) (save-Synced io _ w p)
      | inr other ↦ simp (e, requeue, other) h
    ]
  ]

  pub requeue_parked-Synced :
      (n : ℕ) (from : Phase) (message : Text)
      → Synced m
      → Synced (requeue_parked io n from message m)
  unfolding requeue_parked
  requeue_parked-Synced n from message h =
      elim (Option-cases (find_first (parked_as n from) m.items)) [
        | inl e ↦ simp (e, requeue_parked) h
        | inr (c, e) ↦ simp (e, requeue_parked) (save-Synced io _ w p)
      ]

  pub clear-Synced : (phases : List Phase) → Synced m → Synced (clear io phases m)
  unfolding clear drop_phases
  clear-Synced phases h = drop (wanted phases)
    where
      drop :
          (ps : List Phase)
          → Synced (elim ps as (λ x. Manager) [ [] ↦ m | q ∷ rest ↦ drop_phases io (q ∷ rest) m ])
      drop [] = h
      drop (q ∷ ps) = save-Synced io _ w p

  pub claim-Synced : Synced m → Synced (claim io m).0
  unfolding claim
  claim-Synced h = elim (Option-cases (find_first is_queued m.items)) [
    | inl e ↦ simp (e, claim) h
    | inr (c, e) ↦ simp (e, claim) (save-Synced io _ w p)
  ]

  pub finish-Synced :
      (ref : ℕ) (result : Option Error) → Synced m → Synced (finish io ref result m).0
  unfolding finish
  finish-Synced ref result h = elim (Option-cases (item_at ref m)) [
    | inl e ↦ simp (e, finish) h
    | inr (it, e) ↦ simp (e, finish) (save-Synced io _ w (cancel_number-persistent it.number m ∙ p))
  ]

resumed-logged :
    (now : ℕ) (message : Text) (it : Item) → resumed (logged now message it) ≡ resumed it
unfolding restored
resumed-logged now message it = ground arith

pub map-contents {ℓ} :
    {B : Type ℓ} (f : Item → B) (cs : List Cell) → map f (contents cs) ≡ map (λ c. f c.item) cs
map-contents f [] = refl
map-contents f (c ∷ cs) = ap (λ xs. f c.item ∷ xs) (map-contents f cs)

pub log_line-Synced :
    (m : Manager) (now ref : ℕ) (message : Text) → Synced m → Synced (log_line now ref message m)
unfolding log_line
log_line-Synced m now ref message h =
    h
    ∙ map-contents resumed m.items
    ∙ sym (
        map-update_ref ref (logged now message) (λ c. resumed c.item)
          (λ c. resumed-logged now message c.item) m.items)
    ∙ sym (map-contents resumed (update_ref ref (logged now message) m.items))
