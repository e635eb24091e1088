-- ===== src/Queue/System/Owned.antt =====
-- Who owns an active item of internal/queue/manager.go: the invariant of the items, under the
-- operations of the queue.
use merge_bot.Base.{
  ℕ, suc, ◌<◌, ◌≡◌, ◌≢◌, inl, inr, refl, Bool, false, not, List, [], ◌∷◌, ◌++◌, map, Option, none,
  some, arith, Text, codes, All, Any, All-mono, All-append, Distinct, Distinct-append_last,
  map-append, Bool-cases, Option-cases,
}
use merge_bot.Queue.Types.{Phase, active, Item, Cell, Manager, Io}
use merge_bot.Queue.Cells.{find_first, update_first, keep_cells}
use merge_bot.Queue.Cells.Updates.{
  All-update_first, map-update_first, find_first-none, All-update_found, All-map, All-keep_cells,
  Distinct-keep_cells,
}
use merge_bot.Queue.Manager.{
  add, remove, clear, requeue, requeue_parked, claim, has_number, new_item, is_queued, claimed,
  is_live, re_added, stop, requeued, parked_as, is_parked, wanted, in_phases, drop_phases,
}
use merge_bot.Queue.Manager.Saves.{saving}
use merge_bot.Queue.Process.{settled}
use merge_bot.Queue.System.{Worker}

-- Some worker has the item at this address.
abbrev pub Owned : ℕ → List Worker → Type 0
Owned ref = Any (λ w. w.0 ≡ ref)

-- Addresses and numbers are distinct, fresh addresses are new, and an active item has a worker.
pub record Inv (items : List Cell) (next : ℕ) (workers : List Worker) : Type 0 where
  pub refs : Distinct (map (λ c. c.ref) items)
  pub fresh : All (λ c. c.ref < next) items
  pub numbers : Distinct (map (λ c. c.item.number) items)
  pub owned : All (λ c. c.item.phase ≡ active → Owned c.ref workers) items

abbrev pub ManagerInv : Manager → List Worker → Type 0
ManagerInv m = Inv m.items m.next_ref

-- An update of the first hit that keeps the number and ends outside `active`.
Inv-update_first :
    (test : Item → Bool) (change : Item → Item) (items : List Cell) (next : ℕ)
    (workers : List Worker)
    → ((it : Item) → (change it).number ≡ it.number)
    → ((it : Item) → (change it).phase ≢ active)
    → Inv items next workers
    → Inv (update_first test change items) next workers
Inv-update_first test change items next workers same idle v = record {
  refs = rw (map-update_first test change (λ c. c.ref) (λ c. refl) items) v.refs;
  fresh = All-update_first test change _ (λ c h _. h) items v.fresh;
  numbers =
      rw (map-update_first test change (λ c. c.item.number) (λ c. same c.item) items) v.numbers;
  owned = All-update_first test change _ (λ c h _ e. absurd (idle c.item e)) items v.owned;
}

module _ (io : Io) (n : ℕ) (m : Manager) (workers : List Worker) where
  add_new-Inv :
      All (λ c. has_number n c.item ≡ false) m.items
      → ManagerInv m workers
      → Inv
          (m.items ++ record { ref = m.next_ref; item = new_item io.now n } ∷ [])
          (suc m.next_ref)
          workers
  add_new-Inv other v = record {
    refs = rw (map-append (λ c. c.ref) m.items _) (
        Distinct-append_last _ m.next_ref v.refs (
          (All-map (λ c. c.ref) (λ k. k ≢ m.next_ref) m.items).1
            (All-mono _ _ (λ c h. omega arith) m.items v.fresh)));
    fresh =
        All-append _ m.items _ (All-mono _ _ (λ c h. omega arith) m.items v.fresh)
          (omega arith, tt);
    numbers = rw (map-append (λ c. c.item.number) m.items _) (
        Distinct-append_last _ n v.numbers (
          (All-map (λ c. c.item.number) (λ k. k ≢ n) m.items).1
            (All-mono _ _ (λ c h. ground arith) m.items other)));
    owned = All-append _ m.items _ v.owned ((λ e. cc), tt);
  }

  pub add-Inv : ManagerInv m workers → ManagerInv (add io n m) workers
  unfolding add
  add-Inv v = elim (Option-cases (find_first (has_number n) m.items)) [
    | inl e ↦ simp (e, add, saving) (add_new-Inv (find_first-none (has_number n) m.items e) v)
    | inr (c, e) ↦ elim (Bool-cases (is_live c.item.phase)) [
      | inl live ↦ simp (e, add, live) v
      | inr settled ↦
          simp (e, add, settled, saving)
            (Inv-update_first (has_number n) (re_added io.now) m.items m.next_ref workers
              (λ it. refl) (λ it e. cc) v)
    ]
  ]

  pub remove-Inv : ManagerInv m workers → ManagerInv (remove io n m) workers
  unfolding remove
  remove-Inv v = elim (Option-cases (find_first (has_number n) m.items)) [
    | inl e ↦ simp (e, remove) v
    | inr (c, e) ↦ elim (Bool-cases (is_live c.item.phase)) [
      | inl live ↦
          simp (e, remove, live, saving)
            (Inv-update_first (has_number n) (stop io.now) m.items m.next_ref workers (λ it. refl)
              (λ it e. cc) v)
      | inr settled ↦ simp (e, remove, settled) v
    ]
  ]

  pub requeue-Inv : ManagerInv m workers → ManagerInv (requeue io n m).0 workers
  unfolding requeue
  requeue-Inv v = elim (Option-cases (find_first (has_number n) m.items)) [
    | inl e ↦ simp (e, requeue) v
    | inr (c, e) ↦ elim (Bool-cases (is_parked c.item.phase)) [
      | inl parked ↦
          simp (e, requeue, parked, saving)
            (Inv-update_first (has_number n) (requeued io.now (codes "re-checking")) m.items
              m.next_ref workers (λ it. refl) (λ it e. cc) v)
      | inr other ↦ simp (e, requeue, other) v
    ]
  ]

  pub requeue_parked-Inv :
      (from : Phase) (message : Text)
      → ManagerInv m workers
      → ManagerInv (requeue_parked io n from message m) workers
  unfolding requeue_parked
  requeue_parked-Inv from message v = elim (Option-cases (find_first (parked_as n from) m.items)) [
    | inl e ↦ simp (e, requeue_parked) v
    | inr (c, e) ↦
        simp (e, requeue_parked, saving)
          (Inv-update_first (parked_as n from) (requeued io.now message) m.items m.next_ref workers
            (λ it. refl) (λ it e. cc) v)
  ]

keep_cells-Inv :
    (test : Item → Bool) (items : List Cell) (next : ℕ) (workers : List Worker)
    → Inv items next workers
    → Inv (keep_cells test items) next workers
keep_cells-Inv test items next workers v = record {
  refs = Distinct-keep_cells test (λ c. c.ref) items v.refs;
  fresh = All-keep_cells test _ items v.fresh;
  numbers = Distinct-keep_cells test (λ c. c.item.number) items v.numbers;
  owned = All-keep_cells test _ items v.owned;
}

-- The workers with the one that `claim` makes.
abbrev pub with_claimed : List Worker → Option Worker → List Worker
with_claimed workers none = workers
with_claimed workers (some w) = w ∷ workers

module _ (io : Io) (m : Manager) (workers : List Worker) where
  pub clear-Inv :
      (phases : List Phase) → ManagerInv m workers → ManagerInv (clear io phases m) workers
  unfolding clear drop_phases
  clear-Inv phases v = drop (wanted phases)
    where
      drop :
          (ps : List Phase)
          → ManagerInv
              (elim ps as (λ x. Manager) [ [] ↦ m | p ∷ rest ↦ drop_phases io (p ∷ rest) m ])
              workers
      drop [] = v
      drop (p ∷ ps) =
          simp (drop_phases, saving)
            (keep_cells-Inv (λ it. not (in_phases (p ∷ ps) it.phase)) m.items m.next_ref workers v)

  pub claim-Inv :
      ManagerInv m workers → ManagerInv (claim io m).0 (with_claimed workers (claim io m).1)
  unfolding claim
  claim-Inv v = elim (Option-cases (find_first is_queued m.items)) [
    | inl e ↦ simp (e, claim) v
    | inr (c, e) ↦
        simp (e, claim, saving)
          (record {
            refs =
                rw (map-update_first is_queued (claimed io.now) (λ x. x.ref) (λ x. refl) m.items)
                  v.refs;
            fresh = All-update_first is_queued (claimed io.now) _ (λ x h _. h) m.items v.fresh;
            numbers =
                rw
                  (map-update_first is_queued (claimed io.now) (λ x. x.item.number) (λ x. refl)
                    m.items)
                  v.numbers;
            owned =
                All-update_found is_queued (claimed io.now) _ _ c (λ h _. inl refl)
                  (λ x h a. inr (h a)) m.items e v.owned;
          })
  ]
