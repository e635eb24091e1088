-- ===== src/Queue/System/Exclusive/Hits.antt =====
-- A worker's item beside the item that an operation of internal/queue/manager.go changes.
use mathlib.Core.Option.{some-injective}
use merge_bot.Base.{
  ℕ, ◌≤◌, ◌≡◌, ◌≢◌, refl, sym, ap, ◌∙◌, subst, Bool, false, List, [], ◌∷◌, Option, none, some,
  arith, All, Option-cases, inl, inr, ◌==◌, ◌&&◌,
}
use merge_bot.Queue.Types.{active, stopped, phase_eq, Item, Cell, Manager}
use merge_bot.Queue.Cells.{find_first, update_first, find_ref, lookup_cancel, delete_cancel}
use merge_bot.Queue.Cells.Updates.{All-update_first}
use merge_bot.Queue.Cells.Found.{
  find_first-passes, find_first-All, find_ref-found, find_ref-update_first,
}
use merge_bot.Queue.Manager.{has_number, cancel_number}
use merge_bot.Queue.Process.{item_at}
use merge_bot.Queue.System.{Worker}
use merge_bot.Queue.System.Owned.{ManagerInv}
use merge_bot.Queue.System.Exclusive.{is_held, Holds, Kept, Kept-untouched}

pub lookup_cancel-delete_other :
    (k n : ℕ) (cancels : List (ℕ × ℕ))
    → k ≢ n
    → lookup_cancel k (delete_cancel n cancels) ≡ lookup_cancel k cancels
unfolding lookup_cancel delete_cancel
lookup_cancel-delete_other k n [] other = refl
lookup_cancel-delete_other k n ((j, context) ∷ rest) other =
    ground (arith, lookup_cancel-delete_other k n rest other)

-- Cancelling a number keeps the contexts of the others.
pub lookup_cancel-cancel_other :
    (k n : ℕ) (m : Manager)
    → k ≢ n
    → lookup_cancel k (cancel_number n m).cancels ≡ lookup_cancel k m.cancels
unfolding cancel_number
lookup_cancel-cancel_other k n m other = elim (Option-cases (lookup_cancel n m.cancels)) [
  | inl e ↦ simp (e, cancel_number)
  | inr (context, e) ↦ simp (e, cancel_number) (lookup_cancel-delete_other k n m.cancels other)
]

-- The worker's item is a stopped one with this number.
abbrev pub has_stopped : ℕ → Manager → Worker → Bool
has_stopped n m w = elim (item_at w.0 m) [
  | none ↦ false
  | some it ↦ it.number == n && phase_eq it.phase stopped
]

pub item_at-same :
    (k : ℕ) (m m' : Manager)
    → find_ref k m'.items ≡ find_ref k m.items
    → m'.detached ≡ m.detached
    → item_at k m' ≡ item_at k m
item_at-same k m m' seen detached =
    ap (λ x. elim x as (λ y. Option Item) [ some it ↦ some it | none ↦ find_ref k m'.detached ])
      seen
    ∙ ap
        (λ cs. elim (find_ref k m.items) as (λ y. Option Item) [
          | some it ↦ some it
          | none ↦ find_ref k cs
        ])
        detached

module _ (m : Manager) (ws : List Worker) (v : ManagerInv m ws) (w : Worker) (h : Holds m w) where
  -- The cell at the worker's address is its item.
  pub item_of_hit :
      (test : Item → Bool) (c : Cell)
      → find_first test m.items ≡ some c
      → c.ref ≡ w.0
      → h.it ≡ c.item
  item_of_hit test c e hit =
      let at : find_ref w.0 m.items ≡ some c.item =
        subst (λ k. find_ref k m.items ≡ some c.item) hit
          (find_ref-found test m.items c v.refs e) in
      some-injective _ _ (sym h.found ∙ rw (at, item_at) refl)

  -- An update of the first hit that is not the worker's item, and keeps numbers.
  pub Kept-update_first :
      (m' : Manager) (test : Item → Bool) (change : Item → Item) (c : Cell)
      → ((it : Item) → (change it).number ≡ it.number)
      → find_first test m.items ≡ some c
      → c.ref ≢ w.0
      → m'.items ≡ update_first test change m.items
      → m'.detached ≡ m.detached
      → (h.it.phase ≡ active
          → lookup_cancel h.it.number m'.cancels ≡ lookup_cancel h.it.number m.cancels)
      → m.next_ref ≤ m'.next_ref
      → Kept m m' w
  Kept-update_first m' test change c same e away items detached context next =
      let seen : find_ref w.0 m'.items ≡ find_ref w.0 m.items =
        ap (find_ref w.0) items
        ∙ find_ref-update_first test change w.0 m.items c v.refs e
        ∙ ground (arith, away) in
      Kept-untouched m m' w h (item_at-same w.0 m m' seen detached) (λ a. seen) context
        (subst (All (λ x. x.item.number ≡ h.it.number → x.ref ≡ w.0)) (sym items) (
          All-update_first test change (λ x. x.item.number ≡ h.it.number → x.ref ≡ w.0)
            (λ x p _ q. p (sym (same x.item) ∙ q)) m.items h.sole))
        next

  -- A hit in a phase that no worker's item has is another item.
  pub hit_away :
      (test : Item → Bool) (c : Cell)
      → find_first test m.items ≡ some c
      → is_held c.item.phase ≡ false
      → c.ref ≢ w.0
  hit_away test c e idle hit =
      absurd (ground (arith, h.held, ap (λ it. is_held it.phase) (item_of_hit test c e hit), idle))

  pub Kept-refl : Kept m m w
  Kept-refl = record { same = refl; still = h }

  -- The worker's item has another number, if it is none of the queue that has this number.
  pub other_number :
      (n : ℕ) (c : Cell)
      → find_first (has_number n) m.items ≡ some c
      → c.ref ≢ w.0
      → h.it.number ≢ n
  other_number n c e away same = away (
      find_first-All (λ x. x.item.number ≡ h.it.number → x.ref ≡ w.0) (has_number n) m.items c
        h.sole e (ground (arith, find_first-passes (has_number n) m.items c e, same)))
