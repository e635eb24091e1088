-- ===== src/Queue/System/Exclusive/Workers.antt =====
-- The workers of the queue of internal/queue/manager.go and their items, when finished items are
-- dropped, an item is claimed, a worker ends or logs a line.
use mathlib.Core.Option.{some-injective}
use merge_bot.Base.{
  ℕ, ◌<◌, ◌≡◌, ◌≢◌, refl, sym, ap, ◌∙◌, subst, Bool, false, not, List, [], ◌∷◌, ◌++◌, map, some,
  arith, All, All-mono, Distinct, Option-cases, Bool-cases, inl, inr,
}
use merge_bot.Queue.Types.{Phase, active, Item, Cell, Manager, Io}
use merge_bot.Queue.Cells.{
  find_first, update_first, find_ref, lookup_cancel, delete_cancel, keep_cells,
}
use merge_bot.Queue.Cells.Updates.{All-update_first, All-keep_cells, All-map}
use merge_bot.Queue.Cells.Found.{
  find_first-passes, find_first-All, find_ref-update_first, find_ref-append, or_in,
  find_ref-keep_cells,
}
use merge_bot.Queue.Manager.{clear, wanted, in_phases, drop_phases, claim, claimed, is_queued}
use merge_bot.Queue.Manager.Saves.{saving}
use merge_bot.Queue.Process.{item_at}
use merge_bot.Queue.System.{Worker}
use merge_bot.Queue.System.Owned.{ManagerInv, with_claimed}
use merge_bot.Queue.System.Exclusive.{
  number_at, Holds, Kept, Kept-untouched, Exclusive, Exclusive-Kept,
}
use merge_bot.Queue.System.Exclusive.Hits.{
  hit_away, Kept-update_first, Kept-refl, lookup_cancel-delete_other,
}

-- An active item is never dropped.
in_phases-wanted : (phases : List Phase) → in_phases (wanted phases) active ≡ false
unfolding in_phases wanted
in_phases-wanted [] = refl
in_phases-wanted (p ∷ ps) = ground (arith, in_phases-wanted ps)

-- Items that are moved behind the queue: every address keeps its item.
item_at-moved :
    (test : Item → Bool) (m m' : Manager) (k : ℕ)
    → Distinct (map (λ c. c.ref) m.items)
    → m'.items ≡ keep_cells (λ it. not (test it)) m.items
    → m'.detached ≡ keep_cells test m.items ++ m.detached
    → item_at k m' ≡ item_at k m
item_at-moved test m m' k d items detached =
    let kept = ap (find_ref k) items ∙ find_ref-keep_cells (λ it. not (test it)) k m.items d in
    let behind =
      ap (find_ref k) detached
      ∙ find_ref-append k (keep_cells test m.items) m.detached
      ∙ ap (λ x. or_in x k m.detached) (find_ref-keep_cells test k m.items d) in
    elim (Option-cases (find_ref k m.items)) [
      | inl e ↦ ground (arith, kept, behind, e)
      | inr (it, e) ↦ elim (Bool-cases (test it)) [
        | inl moved ↦ ground (arith, kept, behind, e, moved)
        | inr stays ↦ ground (arith, kept, behind, e, stays)
      ]
    ]

module _ (m : Manager) (ws : List Worker) (v : ManagerInv m ws) (w : Worker) (h : Holds m w) where
  drop_phases-Kept :
      (io : Io) (phases : List Phase)
      → in_phases phases active ≡ false
      → Kept m (drop_phases io phases m) w
  unfolding drop_phases
  drop_phases-Kept io phases never =
      let test : Item → Bool = (λ it. in_phases phases it.phase) in
      Kept-untouched m (drop_phases io phases m) w h
        (item_at-moved test m (drop_phases io phases m) w.0 v.refs (simp saving) (simp saving))
        (λ a. simp saving (
          find_ref-keep_cells (λ it. not (test it)) w.0 m.items v.refs
          ∙ ground (arith, h.placed a, never, a)))
        (λ a. simp saving) (simp saving (All-keep_cells _ _ m.items h.sole))
        (simp saving (omega arith))

  pub clear-Kept : (io : Io) (phases : List Phase) → Kept m (clear io phases m) w
  unfolding clear
  clear-Kept io phases = drop (wanted phases) (in_phases-wanted phases)
    where
      drop :
          (ps : List Phase)
          → in_phases ps active ≡ false
          → Kept m (elim ps as (λ x. Manager) [ [] ↦ m | p ∷ rest ↦ drop_phases io (p ∷ rest) m ]) w
      drop [] never = Kept-refl m ws v w h
      drop (p ∷ ps) never = drop_phases-Kept io (p ∷ ps) never

-- With distinct numbers, the cell that is found is the only one with its number.
sole_number :
    (test : Item → Bool) (cs : List Cell) (c : Cell)
    → Distinct (map (λ x. x.item.number) cs)
    → find_first test cs ≡ some c
    → All (λ x. x.item.number ≡ c.item.number → x.ref ≡ c.ref) cs
unfolding find_first
sole_number test [] c d e = tt
sole_number test (x ∷ xs) c d e =
    let others : All (λ y. y.item.number ≢ x.item.number) xs =
      (All-map (λ y. y.item.number) (λ k. k ≢ x.item.number) xs).0 d.0 in
    elim (Bool-cases (test x.item)) [
      | inl hit ↦
          let same : x ≡ c = some-injective x c (rw (hit, find_first) at e) in
          (
            (λ q. ap (λ y. y.ref) same),
            All-mono _ _ (λ y n q. absurd (n (q ∙ sym (ap (λ z. z.item.number) same)))) xs others,
          )
      | inr miss ↦
          let later : find_first test xs ≡ some c = rw (miss, find_first) at e in
          let apart : c.item.number ≢ x.item.number =
            find_first-All (λ y. y.item.number ≢ x.item.number) test xs c others later in
          ((λ q. absurd (apart (sym q))), sole_number test xs c d.1 later)
    ]

module _ (io : Io) (m : Manager) (ws : List Worker) (v : ManagerInv m ws) (c : Cell)
    (e : find_first is_queued m.items ≡ some c) (m' : Manager)
    (items : m'.items ≡ update_first is_queued (claimed io.now) m.items)
    (detached : m'.detached ≡ m.detached)
    (cancels : m'.cancels ≡ (c.item.number, m.next_context) ∷ delete_cancel c.item.number m.cancels)
    (next : m'.next_ref ≡ m.next_ref) where
  claimed_at : item_at c.ref m' ≡ some (claimed io.now c.item)
  claimed_at = rw (claimed_in, item_at) refl
    where
      claimed_in : find_ref c.ref m'.items ≡ some (claimed io.now c.item)
      claimed_in =
          ap (find_ref c.ref) items
          ∙ find_ref-update_first is_queued (claimed io.now) c.ref m.items c v.refs e
          ∙ ground arith

  claimed-Holds : Holds m' (c.ref, m.next_context)
  unfolding lookup_cancel
  claimed-Holds = record {
    it = claimed io.now c.item;
    found = claimed_at;
    held = refl;
    placed = λ a.
        ap (find_ref c.ref) items
        ∙ find_ref-update_first is_queued (claimed io.now) c.ref m.items c v.refs e
        ∙ ground arith;
    registered = λ a. ap (lookup_cancel c.item.number) cancels ∙ ground arith;
    sole = subst (All (λ x. x.item.number ≡ c.item.number → x.ref ≡ c.ref)) (sym items) (
        All-update_first is_queued (claimed io.now)
          (λ x. x.item.number ≡ c.item.number → x.ref ≡ c.ref) (λ x p _ q. p q) m.items
          (sole_number is_queued m.items c v.numbers e));
    known = rw next (find_first-All (λ x. x.ref < m.next_ref) is_queued m.items c v.fresh e);
  }

  module _ (w : Worker) (h : Holds m w) where
    claimed_away : c.ref ≢ w.0
    claimed_away =
        hit_away m ws v w h is_queued c e (ground (arith, find_first-passes is_queued m.items c e))

    claimed_other : h.it.number ≢ c.item.number
    claimed_other same = claimed_away (
        find_first-All (λ x. x.item.number ≡ h.it.number → x.ref ≡ w.0) is_queued m.items c h.sole e
          (sym same))

    claimed-Kept : Kept m m' w
    unfolding lookup_cancel
    claimed-Kept =
        Kept-update_first m ws v w h m' is_queued (claimed io.now) c (λ it. refl) e claimed_away
          items detached
          (λ a.
            ap (lookup_cancel h.it.number) cancels
            ∙ ground (
              arith,
              claimed_other,
              lookup_cancel-delete_other h.it.number c.item.number m.cancels claimed_other,
            ))
          (omega (arith, next))

    claimed_apart : number_at w.0 m' ≢ number_at c.ref m'
    claimed_apart same =
        claimed_other (ground (arith, same, claimed_at, claimed-Kept.same, h.found))

  claimed-Apart :
      (vs : List Worker) → All (Holds m) vs → All (λ w. number_at w.0 m' ≢ number_at c.ref m') vs
  claimed-Apart vs h = All-mono _ _ (λ w k. claimed_apart w k) vs h

  claimed-Exclusive : Exclusive m ws → Exclusive m' ((c.ref, m.next_context) ∷ ws)
  claimed-Exclusive x =
      let rest : Exclusive m' ws = Exclusive-Kept m m' ws claimed-Kept x in
      record { holds = (claimed-Holds, rest.holds); apart = (claimed-Apart ws x.holds, rest.apart) }

pub claim-Exclusive :
    (io : Io) (m : Manager) (ws : List Worker)
    → ManagerInv m ws
    → Exclusive m ws
    → Exclusive (claim io m).0 (with_claimed ws (claim io m).1)
unfolding claim
claim-Exclusive io m ws v x = elim (Option-cases (find_first is_queued m.items)) [
  | inl e ↦ simp (e, claim) x
  | inr (c, e) ↦
      simp (e, claim)
        (claimed-Exclusive io m ws v c e _ (simp saving) (simp saving) (simp saving) (simp saving)
          x)
]
