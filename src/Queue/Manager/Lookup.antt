-- ===== src/Queue/Manager/Lookup.antt =====
-- The queue of internal/queue/manager.go as a map from numbers to items, under Add, Remove and
-- Requeue.
use mathlib.Core.Option
use merge_bot.Base.{
  ℕ, ◌≡◌, ◌↔◌, inl, inr, refl, true, List, [], ◌∷◌, ◌++◌, Option, none, some, arith, Option-cases,
  Bool-cases, ◌==◌, if◌then◌else◌, codes,
}
use merge_bot.Queue.Types.{Item, Cell, Manager, Io}
use merge_bot.Queue.Cells.{find_first, update_first}
use merge_bot.Queue.Manager.{
  has_number, add, remove, requeue, is_live, is_parked, re_added, new_item, stop, requeued,
}
use merge_bot.Queue.Manager.Saves.{saving}

abbrev pub first_with : ℕ → List Cell → Option Item
first_with n cs = Option.map (λ c. c.item) (find_first (has_number n) cs)

-- The item of a number.
abbrev pub item_of : ℕ → Manager → Option Item
item_of n m = first_with n m.items

-- `change` keeps the number.
first_with-update_first :
    (n k : ℕ) (change : Item → Item)
    → ((it : Item) → (change it).number ≡ it.number)
    → (cs : List Cell)
    → first_with k (update_first (has_number n) change cs)
      ≡ (if n == k then Option.map change (first_with k cs) else first_with k cs)
unfolding find_first update_first
first_with-update_first n k change same [] = ground arith
first_with-update_first n k change same (c ∷ cs) =
    ground (arith, same c.item, first_with-update_first n k change same cs)

first_with-append_last :
    (k : ℕ) (cs : List Cell) (c : Cell)
    → first_with k (cs ++ c ∷ []) ≡ elim (first_with k cs) [
      | some it ↦ some it
      | none ↦ if c.item.number == k then some c.item else none
    ]
unfolding find_first
first_with-append_last k [] c = ground arith
first_with-append_last k (x ∷ xs) c = ground (arith, first_with-append_last k xs c)

first_with_found :
    (n : ℕ) (cs : List Cell) {c : Cell}
    → find_first (has_number n) cs ≡ some c
    → first_with n cs ≡ some c.item
first_with_found n cs e = rw e

-- What `Add`, `Remove` and `Requeue` make of the item of their number.
abbrev pub added : ℕ → ℕ → Option Item → Option Item
added now n none = some (new_item now n)
added now n (some it) = some (if is_live it.phase then it else re_added now it)

abbrev pub removed : ℕ → Option Item → Option Item
removed now none = none
removed now (some it) = some (if is_live it.phase then stop now it else it)

abbrev pub unparked : ℕ → Option Item → Option Item
unparked now none = none
unparked now (some it) =
    some (if is_parked it.phase then requeued now (codes "re-checking") it else it)

-- `Add` puts a new number into the map, starts a finished one afresh, leaves a queued or active one
-- alone, and touches no other number.
pub item_of-add :
    (io : Io) (n k : ℕ) (m : Manager)
    → item_of k (add io n m) ≡ (if n == k then added io.now n (item_of n m) else item_of k m)
unfolding add
item_of-add io n k m = elim (Option-cases (find_first (has_number n) m.items)) [
  | inl e ↦ simp (e, add, saving) (rw (first_with-append_last k m.items _) (ground arith))
  | inr (c, e) ↦ elim (Bool-cases (is_live c.item.phase)) [
    | inl live ↦ simp (e, add, live) (ground arith)
    | inr settled ↦
        simp (e, add, settled, saving)
          (rw (first_with-update_first n k (re_added io.now) (λ it. refl) m.items) (ground arith))
  ]
]

-- `Remove` stops a queued or active item, leaves any other alone, and touches no other number.
pub item_of-remove :
    (io : Io) (n k : ℕ) (m : Manager)
    → item_of k (remove io n m) ≡ (if n == k then removed io.now (item_of n m) else item_of k m)
unfolding remove
item_of-remove io n k m = elim (Option-cases (find_first (has_number n) m.items)) [
  | inl e ↦ simp (e, remove) (ground arith)
  | inr (c, e) ↦ elim (Bool-cases (is_live c.item.phase)) [
    | inl live ↦
        simp (e, remove, live, saving)
          (rw (first_with-update_first n k (stop io.now) (λ it. refl) m.items) (ground arith))
    | inr settled ↦ simp (e, remove, settled) (ground arith)
  ]
]

-- `Requeue` queues an item that is parked for conflicts or missing approvals, and answers true
-- exactly then; it leaves any other alone, and touches no other number.
pub item_of-requeue :
    (io : Io) (n k : ℕ) (m : Manager)
    → (item_of k (requeue io n m).0
        ≡ (if n == k then unparked io.now (item_of n m) else item_of k m))
      × (((requeue io n m).1 ≡ true)
          ↔ ((it : Item) × (item_of n m ≡ some it) × (is_parked it.phase ≡ true)))
unfolding requeue
item_of-requeue io n k m = elim (Option-cases (find_first (has_number n) m.items)) [
  | inl e ↦ (
    simp (e, requeue) (ground arith),
    simp (e, requeue) ((λ h. cc), (λ h. absurd (ground arith))),
  )
  | inr (c, e) ↦ elim (Bool-cases (is_parked c.item.phase)) [
    | inl parked ↦ (
      simp (e, requeue, parked, saving)
          (rw
            (first_with-update_first n k (requeued io.now (codes "re-checking")) (λ it. refl)
              m.items)
            (ground arith)),
      simp (e, requeue, parked) ((λ h. (c.item, refl, parked)), (λ h. refl)),
    )
    | inr other ↦ (
      simp (e, requeue, other) (ground arith),
      simp (e, requeue, other) ((λ h. cc), (λ h. absurd (ground arith))),
    )
  ]
]
