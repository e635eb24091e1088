-- ===== src/Queue/System/Exclusive/Operations.antt =====
-- The workers of the queue of internal/queue/manager.go and their items, under the operations that the
-- HTTP handlers and the background re-check call.
use merge_bot.Base.{
  ℕ, ◌≤◌, ◌≡◌, ◌≢◌, refl, sym, ap, ◌∙◌, subst, true, false, List, [], ◌∷◌, ◌++◌, some, arith, All,
  All-append, Option-cases, Bool-cases, inl, inr, ◌==◌, Text, codes,
}
use merge_bot.Queue.Types.{Phase, active, phase_eq, Cell, Manager, Io}
use merge_bot.Queue.Cells.{find_first, update_first, find_ref, lookup_cancel}
use merge_bot.Queue.Cells.Updates.{All-update_first, find_first-none}
use merge_bot.Queue.Cells.Found.{
  find_first-passes, find_ref-update_first, find_ref-append_other, find_ref-All,
}
use merge_bot.Queue.Manager.{
  add, remove, requeue, requeue_parked, has_number, new_item, is_live, re_added, stop, requeued,
  parked_as, is_parked,
}
use merge_bot.Queue.Manager.Saves.{saving}
use merge_bot.Queue.Process.{item_at}
use merge_bot.Queue.System.{Worker}
use merge_bot.Queue.System.Owned.{ManagerInv}
use merge_bot.Queue.System.Exclusive.{is_held, Holds, Kept, Kept-untouched, Kept-wake}
use merge_bot.Queue.System.Exclusive.Hits.{
  lookup_cancel-cancel_other, has_stopped, item_at-same, item_of_hit, Kept-update_first, hit_away,
  Kept-refl, other_number,
}

module _ (m : Manager) (ws : List Worker) (v : ManagerInv m ws) (w : Worker) (h : Holds m w) where
  -- A worker's active item is in the queue.
  unplaced :
      (n : ℕ)
      → All (λ c. has_number n c.item ≡ false) m.items
      → h.it.phase ≡ active
      → h.it.number ≢ n
  unplaced n none_has a same = absurd (
      ground (
        arith,
        find_ref-All (λ it. has_number n it ≡ false) w.0 m.items h.it none_has (h.placed a),
        same,
      ))

  -- The number of a pull request that the queue does not have.
  other_new :
      (n : ℕ)
      → has_stopped n m w ≡ false
      → All (λ c. has_number n c.item ≡ false) m.items
      → h.it.number ≢ n
  other_new n calm none_has same = elim (Bool-cases (phase_eq h.it.phase active)) [
    | inl a ↦ absurd (unplaced n none_has (ground arith) same)
    | inr idle ↦ absurd (ground (arith, calm, h.found, h.held))
  ]

  add_new-Kept :
      (m' : Manager) (c : Cell)
      → c.ref ≡ m.next_ref
      → h.it.number ≢ c.item.number
      → m'.items ≡ m.items ++ c ∷ []
      → m'.detached ≡ m.detached
      → m'.cancels ≡ m.cancels
      → m.next_ref ≤ m'.next_ref
      → Kept m m' w
  add_new-Kept m' c fresh other items detached cancels next =
      let seen : find_ref w.0 m'.items ≡ find_ref w.0 m.items =
        ap (find_ref w.0) items
        ∙ find_ref-append_other w.0 m.items c (λ e. absurd (omega (arith, h.known))) in
      Kept-untouched m m' w h (item_at-same w.0 m m' seen detached) (λ a. seen)
        (λ a. ap (lookup_cancel h.it.number) cancels)
        (subst (All (λ x. x.item.number ≡ h.it.number → x.ref ≡ w.0)) (sym items)
          (All-append _ m.items _ h.sole ((λ same. absurd (other (sym same))), tt)))
        next

  -- The worker's item is not a finished one that is added again.
  add_away :
      (n : ℕ) (c : Cell)
      → has_stopped n m w ≡ false
      → find_first (has_number n) m.items ≡ some c
      → is_live c.item.phase ≡ false
      → c.ref ≢ w.0
  add_away n c calm e settled hit =
      let same : h.it ≡ c.item = item_of_hit m ws v w h (has_number n) c e hit in
      absurd (
        ground (
          arith,
          calm,
          h.found,
          h.held,
          find_first-passes (has_number n) m.items c e,
          settled,
          ap (λ it. it.phase) same,
          ap (λ it. it.number) same,
        ))

  pub add-Kept : (io : Io) (n : ℕ) → has_stopped n m w ≡ false → Kept m (add io n m) w
  unfolding add merge_bot.Queue.Manager.notify
  add-Kept io n calm = elim (Option-cases (find_first (has_number n) m.items)) [
    | inl e ↦
        simp (e, add)
          (add_new-Kept _ (record { ref = m.next_ref; item = new_item io.now n }) refl
            (other_new n calm (find_first-none (has_number n) m.items e)) (simp saving)
            (simp saving) (simp saving) (simp saving (omega arith)))
    | inr (c, e) ↦ elim (Bool-cases (is_live c.item.phase)) [
      | inl live ↦ simp (e, add, live) (Kept-refl m ws v w h)
      | inr settled ↦
          simp (e, add, settled)
            (Kept-update_first m ws v w h _ (has_number n) (re_added io.now) c (λ it. refl) e
              (add_away n c calm e settled) (simp saving) (simp saving) (λ a. simp saving)
              (simp saving (omega arith)))
    ]
  ]

  pub requeue-Kept : (io : Io) (n : ℕ) → Kept m (requeue io n m).0 w
  unfolding requeue merge_bot.Queue.Manager.notify
  requeue-Kept io n = elim (Option-cases (find_first (has_number n) m.items)) [
    | inl e ↦ simp (e, requeue) (Kept-refl m ws v w h)
    | inr (c, e) ↦ elim (Bool-cases (is_parked c.item.phase)) [
      | inl parked ↦
          simp (e, requeue, parked)
            (Kept-update_first m ws v w h _ (has_number n) (requeued io.now (codes "re-checking")) c
              (λ it. refl) e (hit_away m ws v w h (has_number n) c e (ground arith)) (simp saving)
              (simp saving) (λ a. simp saving) (simp saving (omega arith)))
      | inr other ↦ simp (e, requeue, other) (Kept-refl m ws v w h)
    ]
  ]

  pub requeue_parked-Kept :
      (io : Io) (n : ℕ) (from : Phase) (message : Text)
      → is_held from ≡ false
      → Kept m (requeue_parked io n from message m) w
  unfolding requeue_parked merge_bot.Queue.Manager.notify
  requeue_parked-Kept io n from message idle =
      elim (Option-cases (find_first (parked_as n from) m.items)) [
        | inl e ↦ simp (e, requeue_parked) (Kept-wake m true w h)
        | inr (c, e) ↦
            simp (e, requeue_parked)
              (Kept-update_first m ws v w h _ (parked_as n from) (requeued io.now message) c
                (λ it. refl) e
                (hit_away m ws v w h (parked_as n from) c e
                  (ground (arith, find_first-passes (parked_as n from) m.items c e)))
                (simp saving) (simp saving) (λ a. simp saving) (simp saving (omega arith)))
      ]

  -- `Remove` stops the worker's item, or another one.
  stop-Kept :
      (m' : Manager) (now n : ℕ) (c : Cell)
      → find_first (has_number n) m.items ≡ some c
      → m'.items ≡ update_first (has_number n) (stop now) m.items
      → m'.detached ≡ m.detached
      → ((k : ℕ) → k ≢ n → lookup_cancel k m'.cancels ≡ lookup_cancel k m.cancels)
      → m.next_ref ≤ m'.next_ref
      → Kept m m' w
  stop-Kept m' now n c e items detached context next = elim (Bool-cases (c.ref == w.0)) [
    | inl hit ↦
        let same : h.it ≡ c.item = item_of_hit m ws v w h (has_number n) c e (ground arith) in
        let seen : find_ref w.0 m'.items ≡ some (stop now h.it) =
          ap (find_ref w.0) items
          ∙ find_ref-update_first (has_number n) (stop now) w.0 m.items c v.refs e
          ∙ ground (arith, hit, same) in
        let at : item_at w.0 m' ≡ some (stop now h.it) = rw (seen, item_at) refl in
        record {
          same = rw (at, h.found) refl;
          still = record {
            it = stop now h.it;
            found = at;
            held = refl;
            placed = λ a. cc;
            registered = λ a. cc;
            sole = subst (All (λ x. x.item.number ≡ h.it.number → x.ref ≡ w.0)) (sym items) (
                All-update_first (has_number n) (stop now)
                  (λ x. x.item.number ≡ h.it.number → x.ref ≡ w.0) (λ x p _ q. p q) m.items h.sole);
            known = omega (arith, h.known, next);
          };
        }
    | inr miss ↦
        let away : c.ref ≢ w.0 = ground arith in
        Kept-update_first m ws v w h m' (has_number n) (stop now) c (λ it. refl) e away items
          detached (λ a. context h.it.number (other_number m ws v w h n c e away)) next
  ]

  pub remove-Kept : (io : Io) (n : ℕ) → Kept m (remove io n m) w
  unfolding remove
  remove-Kept io n = elim (Option-cases (find_first (has_number n) m.items)) [
    | inl e ↦ simp (e, remove) (Kept-refl m ws v w h)
    | inr (c, e) ↦ elim (Bool-cases (is_live c.item.phase)) [
      | inl live ↦
          simp (e, remove, live)
            (stop-Kept _ io.now n c e (simp saving) (simp saving)
              (λ k other. simp saving (lookup_cancel-cancel_other k n m other))
              (simp saving (omega arith)))
      | inr settled ↦ simp (e, remove, settled) (Kept-refl m ws v w h)
    ]
  ]
