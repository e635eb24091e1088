-- ===== src/Queue/Process/Settles.antt =====
-- The queue of internal/queue/manager.go when a worker ends: `process` behind `drive`.
use merge_bot.Base.{
  ap, ◌∙◌, if◌then◌else◌, ℕ, ◌≡◌, refl, List, [], ◌∷◌, Option, none, some, arith, ◌==◌,
  Option-cases, Bool-cases, inl, inr,
}
use merge_bot.Merge.Errors.{Error}
use merge_bot.Queue.Types.{Item, Cell, Manager, Io}
use merge_bot.Queue.Cells.{find_ref, update_ref, lookup_cancel, delete_cancel}
use merge_bot.Queue.Cells.Found.{find_ref-update_ref}
use merge_bot.Queue.Manager.{cancel_number}
use merge_bot.Queue.Manager.Saves.{saving}
use merge_bot.Queue.Process.{settled, finish, item_at}

-- `it` is the item at the address.
find_ref-update_found :
    (ref k : ℕ) (change : Item → Item) (cs : List Cell) (it : Item)
    → find_ref ref cs ≡ some it
    → find_ref k (update_ref ref change cs) ≡ (if ref == k then some (change it) else find_ref k cs)
find_ref-update_found ref k change cs it h =
    find_ref-update_ref ref k change cs ∙ (elim (Bool-cases (ref == k)) [
      | inl hit ↦
          let same : ref ≡ k = ground arith in ground (arith, hit, ap (λ j. find_ref j cs) same, h)
      | inr away ↦ ground (arith, away)
    ])

lookup_cancel-delete_cancel :
    (n : ℕ) (cancels : List (ℕ × ℕ)) → lookup_cancel n (delete_cancel n cancels) ≡ none
unfolding lookup_cancel delete_cancel
lookup_cancel-delete_cancel n [] = refl
lookup_cancel-delete_cancel n ((k, context) ∷ rest) =
    ground (arith, lookup_cancel-delete_cancel n rest)

lookup_cancel-cancel_number :
    (n : ℕ) (m : Manager) → lookup_cancel n (cancel_number n m).cancels ≡ none
unfolding cancel_number
lookup_cancel-cancel_number n m = elim (Option-cases (lookup_cancel n m.cancels)) [
  | inl e ↦ simp (e, cancel_number)
  | inr (context, e) ↦ simp (e, cancel_number) (lookup_cancel-delete_cancel n m.cancels)
]

-- When a worker ends, the item at its address, if it is in the queue, is settled by the result of the
-- worker, and every other item is left alone; no context stays registered for the item's number.
pub finish-settled :
    (io : Io) (ref k : ℕ) (result : Option Error) (m : Manager) (it : Item)
    → find_ref ref m.items ≡ some it
    → (find_ref k (finish io ref result m).0.items
        ≡ (if ref == k then some (settled io.now result it) else find_ref k m.items))
      × (lookup_cancel it.number (finish io ref result m).0.cancels ≡ none)
unfolding finish
finish-settled io ref k result m it h =
    let e : item_at ref m ≡ some it = rw (h, item_at) refl in
    (
      simp (e, finish, saving) (find_ref-update_found ref k (settled io.now result) m.items it h),
      simp (e, finish, saving) (lookup_cancel-cancel_number it.number m),
    )
