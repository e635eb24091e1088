-- ===== src/Queue/System/Exclusive/Ends.antt =====
-- The workers of the queue of internal/queue/manager.go and their items, when a worker ends or logs a
-- line.
use mathlib.Core.Option
use merge_bot.Base.{
  ℕ, ◌≤◌, ◌≡◌, ◌≢◌, refl, sym, ap, ◌∙◌, subst, true, List, [], ◌∷◌, Option, some, arith, All,
  All-zip, Option-cases, Bool-cases, inl, inr, ◌==◌, Text,
}
use merge_bot.Merge.Errors.{Error}
use merge_bot.Queue.Types.{Item, Manager, Io}
use merge_bot.Queue.Cells.{update_ref, find_ref, lookup_cancel}
use merge_bot.Queue.Cells.Updates.{All-update_ref}
use merge_bot.Queue.Cells.Found.{find_ref-update_ref}
use merge_bot.Queue.Manager.Saves.{saving}
use merge_bot.Queue.Process.{item_at, finish, settled, log_line, logged}
use merge_bot.Queue.System.{Worker, has_worker, drop_worker, same_worker}
use merge_bot.Queue.System.Owned.{ManagerInv}
use merge_bot.Queue.System.Released.{settled-number}
use merge_bot.Queue.System.Exclusive.{
  number_at, Holds, Kept, Kept-untouched, Apart, Exclusive, Apart-Kept, All-still, Exclusive-Kept,
}
use merge_bot.Queue.System.Exclusive.Hits.{lookup_cancel-cancel_other}

-- The workers that stay when one of them ends.
module _ (m : Manager) (w : Worker) where
  All-drop_worker : (P : Worker → Type 0) (ws : List Worker) → All P ws → All P (drop_worker w ws)
  unfolding drop_worker
  All-drop_worker P [] h = tt
  All-drop_worker P (x ∷ xs) h = elim (Bool-cases (same_worker x w)) [
    | inl is ↦ simp is h.1
    | inr other ↦ simp other (h.0, All-drop_worker P xs h.1)
  ]

  Apart-drop_worker : (ws : List Worker) → Apart m ws → Apart m (drop_worker w ws)
  unfolding drop_worker
  Apart-drop_worker [] a = tt
  Apart-drop_worker (x ∷ xs) a = elim (Bool-cases (same_worker x w)) [
    | inl is ↦ simp is a.1
    | inr other ↦ simp other (All-drop_worker _ xs a.0, Apart-drop_worker xs a.1)
  ]

  same_ref : (x : Worker) → same_worker x w ≡ true → x.0 ≡ w.0
  same_ref x h = ground arith

  -- What holds of all workers holds of one that runs, by its address.
  pub All-has_worker :
      (P : ℕ → Type 0) (ws : List Worker) → has_worker w ws ≡ true → All (λ x. P x.0) ws → P w.0
  unfolding has_worker
  All-has_worker P [] runs h = absurd (ground arith)
  All-has_worker P (x ∷ xs) runs h = elim (Bool-cases (same_worker x w)) [
    | inl is ↦ subst P (same_ref x is) h.0
    | inr other ↦ All-has_worker P xs (ground arith) h.1
  ]

  -- The others have other numbers.
  others-drop_worker :
      (ws : List Worker)
      → has_worker w ws ≡ true
      → Apart m ws
      → All (λ x. number_at x.0 m ≢ number_at w.0 m) (drop_worker w ws)
  unfolding drop_worker has_worker
  others-drop_worker [] runs a = tt
  others-drop_worker (x ∷ xs) runs a = elim (Bool-cases (same_worker x w)) [
    | inl is ↦
        simp is (subst (λ k. All (λ y. number_at y.0 m ≢ number_at k m) xs) (same_ref x is) a.0)
    | inr other ↦
        let later : has_worker w xs ≡ true = ground arith in
        simp other (
          (λ q. All-has_worker (λ k. number_at k m ≢ number_at x.0 m) xs later a.0 (sym q)),
          others-drop_worker xs later a.1,
        )
  ]

-- A write through another address leaves an item alone.
item_at-update_other :
    (ref k : ℕ) (change : Item → Item) (m m' : Manager)
    → ref ≢ k
    → m'.items ≡ update_ref ref change m.items
    → m'.detached ≡ update_ref ref change m.detached
    → (find_ref k m'.items ≡ find_ref k m.items) × (item_at k m' ≡ item_at k m)
item_at-update_other ref k change m m' other items detached =
    let seen : find_ref k m'.items ≡ find_ref k m.items =
      ap (find_ref k) items ∙ find_ref-update_ref ref k change m.items ∙ ground (arith, other) in
    let behind : find_ref k m'.detached ≡ find_ref k m.detached =
      ap (find_ref k) detached
      ∙ find_ref-update_ref ref k change m.detached
      ∙ ground (arith, other) in
    (seen, ground (arith, seen, behind))

-- A write that keeps a number keeps the items' numbers beside it.
sole-update_ref :
    (ref n k : ℕ) (change : Item → Item) (m : Manager) (ws : List Worker)
    → ManagerInv m ws
    → ((it : Item) → (change it).number ≡ it.number)
    → All (λ c. c.item.number ≡ n → c.ref ≡ k) m.items
    → All (λ c. c.item.number ≡ n → c.ref ≡ k) (update_ref ref change m.items)
sole-update_ref ref n k change m ws v same sole =
    All-update_ref ref change (λ c. c.item.number ≡ n → c.ref ≡ k)
      (λ c. c.item.number ≡ n → c.ref ≡ k) (λ c p at q. p (sym (same c.item) ∙ q)) (λ c p away. p)
      m.items v.refs sole

logged_number : (now : ℕ) (message : Text) (it : Item) → (logged now message it).number ≡ it.number
logged_number now message it = ground arith

module _ (m : Manager) (ws : List Worker) (v : ManagerInv m ws) (x : Worker) (h : Holds m x) where
  Kept-update_other :
      (m' : Manager) (ref : ℕ) (change : Item → Item)
      → ((it : Item) → (change it).number ≡ it.number)
      → ref ≢ x.0
      → m'.items ≡ update_ref ref change m.items
      → m'.detached ≡ update_ref ref change m.detached
      → lookup_cancel h.it.number m'.cancels ≡ lookup_cancel h.it.number m.cancels
      → m.next_ref ≤ m'.next_ref
      → Kept m m' x
  Kept-update_other m' ref change same other items detached context next =
      let seen = item_at-update_other ref x.0 change m m' other items detached in
      Kept-untouched m m' x h seen.1 (λ a. seen.0) (λ a. context)
        (subst (All (λ c. c.item.number ≡ h.it.number → c.ref ≡ x.0)) (sym items)
          (sole-update_ref ref h.it.number x.0 change m ws v same h.sole))
        next

  -- A worker that ends does not touch the item of another one, nor its context.
  finish-Kept :
      (io : Io) (w : Worker) (result : Option Error)
      → number_at x.0 m ≢ number_at w.0 m
      → Kept m (finish io w.0 result m).0 x
  unfolding finish
  finish-Kept io w result other = elim (Option-cases (item_at w.0 m)) [
    | inl e ↦ simp (e, finish) (record { same = refl; still = h })
    | inr (it, e) ↦
        let away : w.0 ≢ x.0 = (λ q. other (sym (ap (λ k. number_at k m) q))) in
        let number : h.it.number ≢ it.number = (λ q. other (ground (arith, e, h.found, q))) in
        simp (e, finish)
          (Kept-update_other _ w.0 (settled io.now result) (settled-number io.now result) away
            (simp saving) (simp saving)
            (simp saving (lookup_cancel-cancel_other h.it.number it.number m number))
            (simp saving (omega arith)))
  ]

  -- A log line keeps the number and the phase of the item that it goes to.
  logged-Kept :
      (now ref : ℕ) (message : Text) → ref == x.0 ≡ true → Kept m (log_line now ref message m) x
  unfolding log_line
  logged-Kept now ref message hit =
      let change : Item → Item = logged now message in
      let m' : Manager = record m {
        items = update_ref ref change m.items;
        detached = update_ref ref change m.detached;
      } in
      let seen : find_ref x.0 m'.items ≡ Option.map change (find_ref x.0 m.items) =
        find_ref-update_ref ref x.0 change m.items ∙ ground (arith, hit) in
      let behind : find_ref x.0 m'.detached ≡ Option.map change (find_ref x.0 m.detached) =
        find_ref-update_ref ref x.0 change m.detached ∙ ground (arith, hit) in
      let at : item_at x.0 m' ≡ some (change h.it) = ground (arith, seen, behind, h.found) in
      record {
        same = ground (arith, at, h.found);
        still = record {
          it = change h.it;
          found = at;
          held = ground (arith, h.held);
          placed = λ a. ground (arith, seen, h.placed (ground arith));
          registered = λ a. ground (arith, h.registered (ground arith));
          sole = rw (logged_number now message h.it) (
              sole-update_ref ref h.it.number x.0 change m ws v (logged_number now message) h.sole);
          known = h.known;
        };
      }

  log_line-Kept : (now : ℕ) (w : Worker) (message : Text) → Kept m (log_line now w.0 message m) x
  unfolding log_line
  log_line-Kept now w message = elim (Bool-cases (w.0 == x.0)) [
    | inl hit ↦ logged-Kept now w.0 message hit
    | inr away ↦
        Kept-update_other _ w.0 (logged now message) (λ it. ground arith) (ground arith) refl refl
          refl (omega arith)
  ]

module _ (m : Manager) (ws : List Worker) (v : ManagerInv m ws) where
  pub log_line-Exclusive :
      (now : ℕ) (w : Worker) (message : Text)
      → Exclusive m ws
      → Exclusive (log_line now w.0 message m) ws
  log_line-Exclusive now w message =
      Exclusive-Kept m (log_line now w.0 message m) ws
        (λ x h. log_line-Kept m ws v x h now w message)

  pub finish-Exclusive :
      (io : Io) (w : Worker) (result : Option Error)
      → has_worker w ws ≡ true
      → Exclusive m ws
      → Exclusive (finish io w.0 result m).0 (drop_worker w ws)
  finish-Exclusive io w result runs e =
      let m' = (finish io w.0 result m).0 in
      let kept : All (Kept m m') (drop_worker w ws) =
        All-zip (Holds m) (λ x. number_at x.0 m ≢ number_at w.0 m) (Kept m m')
          (λ x h other. finish-Kept m ws v x h io w result other) (drop_worker w ws)
          (All-drop_worker m w (Holds m) ws e.holds) (others-drop_worker m w ws runs e.apart) in
      record {
        holds = All-still m m' (drop_worker w ws) kept;
        apart = Apart-Kept m m' (drop_worker w ws) kept (Apart-drop_worker m w ws e.apart);
      }
