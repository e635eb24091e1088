-- ===== src/Queue/System/Released.antt =====
-- The invariant of the queue's items when a worker of internal/queue/manager.go ends or logs a line.
use merge_bot.Base.{
  ℕ, ◌≡◌, ◌≢◌, inl, inr, refl, List, [], ◌∷◌, Option, none, arith, Text, All-zip, Option-cases,
}
use merge_bot.Merge.Errors.{Error}
use merge_bot.Queue.Types.{active, Item, Manager, Io}
use merge_bot.Queue.Cells.{find_ref}
use merge_bot.Queue.Cells.Updates.{find_ref-none, map-update_ref, All-update_ref}
use merge_bot.Queue.Manager.Saves.{saving}
use merge_bot.Queue.Process.{settled, item_at, finish, log_line, logged}
use merge_bot.Queue.System.{Worker, drop_worker}
use merge_bot.Queue.System.Owned.{Owned, ManagerInv}

Owned-drop_worker :
    (k : ℕ) (w : Worker) (workers : List Worker)
    → k ≢ w.0
    → Owned k workers
    → Owned k (drop_worker w workers)
unfolding drop_worker
Owned-drop_worker k w [] away h = h
Owned-drop_worker k w (x ∷ xs) away h = ground (arith, Owned-drop_worker k w xs away)

settled_idle :
    (now : ℕ) (result : Option Error) (it : Item) → (settled now result it).phase ≢ active
unfolding settled
settled_idle now result it = ground arith

pub settled-number :
    (now : ℕ) (result : Option Error) (it : Item) → (settled now result it).number ≡ it.number
unfolding settled
settled-number now result it = ground arith

item_at-none : (ref : ℕ) (m : Manager) → item_at ref m ≡ none → find_ref ref m.items ≡ none
item_at-none ref m h = ground arith

module _ (io : Io) (w : Worker) (m : Manager) (workers : List Worker) where
  pub finish-Inv :
      (result : Option Error)
      → ManagerInv m workers
      → ManagerInv (finish io w.0 result m).0 (drop_worker w workers)
  unfolding finish
  finish-Inv result v = elim (Option-cases (item_at w.0 m)) [
    | inl e ↦
        simp (e, finish)
          (record {
            refs = v.refs;
            fresh = v.fresh;
            numbers = v.numbers;
            owned =
                All-zip _ _ _ (λ c h n a. Owned-drop_worker c.ref w workers n (h a)) m.items v.owned
                  (find_ref-none w.0 m.items (item_at-none w.0 m e));
          })
    | inr (it, e) ↦
        let change = settled io.now result in
        simp (e, finish, saving)
          (record {
            refs = rw (map-update_ref w.0 change (λ c. c.ref) (λ c. refl) m.items) v.refs;
            fresh = All-update_ref w.0 change _ _ (λ c h _. h) (λ c h _. h) m.items v.refs v.fresh;
            numbers =
                rw
                  (map-update_ref w.0 change (λ c. c.item.number)
                    (λ c. settled-number io.now result c.item) m.items)
                  v.numbers;
            owned =
                All-update_ref w.0 change _ _
                  (λ c h _ a. absurd (settled_idle io.now result c.item a))
                  (λ c h n a. Owned-drop_worker c.ref w workers n (h a)) m.items v.refs v.owned;
          })
  ]

  pub log_line-Inv :
      (now : ℕ) (message : Text)
      → ManagerInv m workers
      → ManagerInv (log_line now w.0 message m) workers
  unfolding log_line
  log_line-Inv now message v = record {
    refs = rw (map-update_ref w.0 (logged now message) (λ c. c.ref) (λ c. refl) m.items) v.refs;
    fresh =
        All-update_ref w.0 (logged now message) _ _ (λ c h _. h) (λ c h _. h) m.items v.refs
          v.fresh;
    numbers =
        rw
          (map-update_ref w.0 (logged now message) (λ c. c.item.number) (λ c. ground arith) m.items)
          v.numbers;
    owned =
        All-update_ref w.0 (logged now message) _ _ (λ c h _ a. h (ground arith)) (λ c h _. h)
          m.items v.refs v.owned;
  }
