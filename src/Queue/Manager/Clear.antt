-- ===== src/Queue/Manager/Clear.antt =====
-- The queue of internal/queue/manager.go as a map from numbers to items, under Clear and
-- requeueParked.
use mathlib.Core.Option
use mathlib.Core.Path.{fun_ext}
use merge_bot.Base.{
  ℕ, ◌≡◌, ◌≢◌, inl, inr, refl, sym, ap, subst, ◌∙◌, Bool, true, not, ◌&&◌, List, [], ◌∷◌, map,
  Option, none, some, arith, All, Distinct, Option-cases, Bool-cases, ◌==◌, if◌then◌else◌, Text,
}
use merge_bot.Queue.Types.{Phase, phase_eq, Item, Cell, Manager, Io}
use merge_bot.Queue.Cells.{find_first, update_first, keep_cells}
use merge_bot.Queue.Cells.Updates.{All-keep_cells, All-map}
use merge_bot.Queue.Manager.{
  clear, drop_phases, wanted, in_phases, is_live, requeue_parked, parked_as, requeued,
}
use merge_bot.Queue.Manager.Lookup.{first_with, item_of}
use merge_bot.Queue.Manager.Saves.{saving}

abbrev pub numbers : Manager → List ℕ
numbers m = map (λ c. c.item.number) m.items

first_with_absent :
    (k : ℕ) (cs : List Cell) → All (λ c. c.item.number ≢ k) cs → first_with k cs ≡ none
unfolding find_first
first_with_absent k [] h = refl
first_with_absent k (c ∷ cs) h = ground (arith, h.0, first_with_absent k cs h.1)

abbrev pub keep_if : (Item → Bool) → Option Item → Option Item
keep_if test none = none
keep_if test (some it) = if test it then some it else none

first_with-keep_cells :
    (k : ℕ) (test : Item → Bool) (cs : List Cell)
    → Distinct (map (λ c. c.item.number) cs)
    → first_with k (keep_cells test cs) ≡ keep_if test (first_with k cs)
unfolding keep_cells find_first
first_with-keep_cells k test [] d = refl
first_with-keep_cells k test (c ∷ cs) d = elim (Bool-cases (c.item.number == k)) [
  | inl hit ↦
      let e : c.item.number ≡ k = ground arith in
      let away : All (λ x. x.item.number ≢ k) cs =
        subst (λ j. All (λ x. x.item.number ≢ j) cs) e
          ((All-map (λ x. x.item.number) (λ j. j ≢ c.item.number) cs).0 d.0) in
      ground (arith, first_with_absent k (keep_cells test cs) (All-keep_cells test _ cs away))
  | inr miss ↦ ground (arith, first_with-keep_cells k test cs d.1)
]

-- A phase that is asked for and may be dropped.
abbrev pub dropped : List Phase → Phase → Bool
dropped phases p = in_phases phases p && not (is_live p)

live_of_eq : (p q : Phase) → phase_eq p q ≡ true → is_live p ≡ is_live q
live_of_eq p q h = ground arith

in_phases-wanted :
    (phases : List Phase) (p : Phase) → in_phases (wanted phases) p ≡ dropped phases p
unfolding wanted in_phases
in_phases-wanted [] p = refl
in_phases-wanted (q ∷ qs) p = ground (arith, live_of_eq q p, in_phases-wanted qs p)

keep_if_all : (o : Option Item) → o ≡ keep_if (λ it. true) o
keep_if_all none = refl
keep_if_all (some it) = refl

item_of-drop_phases :
    (io : Io) (ps : List Phase) (k : ℕ) (m : Manager)
    → Distinct (numbers m)
    → item_of k (elim ps as (λ x. Manager) [ [] ↦ m | p ∷ rest ↦ drop_phases io (p ∷ rest) m ])
      ≡ keep_if (λ it. not (in_phases ps it.phase)) (item_of k m)
unfolding drop_phases in_phases
item_of-drop_phases io [] k m d = keep_if_all (item_of k m)
item_of-drop_phases io (p ∷ ps) k m d =
    simp saving (first_with-keep_cells k (λ it. not (in_phases (p ∷ ps) it.phase)) m.items d)

-- In a queue with distinct numbers, `Clear` drops exactly the items whose phase is among those asked
-- for, but never a queued or active one, and leaves all others as they are.
pub item_of-clear :
    (io : Io) (phases : List Phase) (k : ℕ) (m : Manager)
    → Distinct (numbers m)
    → item_of k (clear io phases m) ≡ keep_if (λ it. not (dropped phases it.phase)) (item_of k m)
unfolding clear
item_of-clear io phases k m d =
    item_of-drop_phases io (wanted phases) k m d
    ∙ ap (λ f. keep_if (λ (it : Item). not (f it.phase)) (item_of k m))
        (fun_ext (in_phases-wanted phases))

-- What a re-check makes of an item that it requeues.
abbrev pub unparked_from : ℕ → Phase → Text → Option Item → Option Item
unparked_from now from message none = none
unparked_from now from message (some it) =
    some (if phase_eq it.phase from then requeued now message it else it)

first_with-update_if :
    (n k : ℕ) (test : Item → Bool) (change : Item → Item)
    → ((it : Item) → (change it).number ≡ it.number)
    → (cs : List Cell)
    → first_with k (update_first (λ it. it.number == n && test it) change cs) ≡ (
        if n == k
        then Option.map (λ it. if test it then change it else it) (first_with k cs)
        else first_with k cs)
unfolding find_first update_first
first_with-update_if n k test change same [] = ground arith
first_with-update_if n k test change same (c ∷ cs) =
    ground (arith, same c.item, first_with-update_if n k test change same cs)

unparked_from-map :
    (now : ℕ) (from : Phase) (message : Text) (o : Option Item)
    → Option.map (λ it. if phase_eq it.phase from then requeued now message it else it) o
      ≡ unparked_from now from message o
unparked_from-map now from message none = refl
unparked_from-map now from message (some it) = refl

update_first_missed :
    (test : Item → Bool) (change : Item → Item) (cs : List Cell)
    → find_first test cs ≡ none
    → update_first test change cs ≡ cs
unfolding find_first update_first
update_first_missed test change [] h = refl
update_first_missed test change (c ∷ cs) h = ground (arith, update_first_missed test change cs)

-- Under the test `n == k` the item of `k` is the item of `n`.
same_number :
    (n k : ℕ) (f : Option Item → Option Item) (look : ℕ → Option Item)
    → (if n == k then f (look k) else look k) ≡ (if n == k then f (look n) else look k)
same_number n k f look = ground arith

-- `requeueParked` queues the item of its number if that is parked in the phase meant, leaves any
-- other alone, and touches no other number.
pub item_of-requeue_parked :
    (io : Io) (n k : ℕ) (from : Phase) (message : Text) (m : Manager)
    → item_of k (requeue_parked io n from message m)
      ≡ (if n == k then unparked_from io.now from message (item_of n m) else item_of k m)
unfolding requeue_parked
item_of-requeue_parked io n k from message m =
    elim (Option-cases (find_first (parked_as n from) m.items)) [
      | inl e ↦
          simp (e, requeue_parked)
            (ap (first_with k) (sym (update_first_missed _ (requeued io.now message) m.items e))
              ∙ updated)
      | inr (c, e) ↦ simp (e, requeue_parked, saving) updated
    ]
  where
    updated :
        first_with k (update_first (parked_as n from) (requeued io.now message) m.items)
        ≡ (if n == k then unparked_from io.now from message (item_of n m) else item_of k m)
    updated =
        rw
          (
            first_with-update_if n k (λ it. phase_eq it.phase from) (requeued io.now message)
                (λ it. refl) m.items,
            unparked_from-map io.now from message (item_of k m),
          )
          (same_number n k (unparked_from io.now from message) (λ j. item_of j m))
