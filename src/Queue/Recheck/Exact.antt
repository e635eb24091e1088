-- ===== src/Queue/Recheck/Exact.antt =====
-- The background re-check of internal/queue/manager.go while no other goroutine is at work and its context
-- is not cancelled: what becomes of each item.
use merge_bot.Base.{
  ℕ, ◌≡◌, inl, inr, refl, ap, ◌∙◌, subst, Bool, true, false, ◌&&◌, ◌||◌, not, List, [], ◌∷◌, Option,
  none, some, arith, Bool-cases, ◌==◌, Text, if◌then◌else◌, str_eq, codes,
}
use merge_bot.Queue.Types.{Phase, failed, needs_approvals, phase_eq, Item, Cell, Manager}
use merge_bot.Queue.Cells.{find_first}
use merge_bot.Queue.Manager.{requeue_parked, requeued}
use merge_bot.Queue.Manager.Lookup.{item_of, first_with}
use merge_bot.Queue.Manager.Clear.{unparked_from, item_of-requeue_parked}
use merge_bot.Queue.Recheck.{
  World, numbers_in, recheck_numbers, recheck_parked, is_ready, is_approved, checks_recovered,
  conflict_resolved, recheck_approvals, recheck_conflicts,
}
use merge_bot.Queue.Recheck.Requeues.{IsParked, approvals, conflicting, failing}

abbrev contains : ℕ → List ℕ → Bool
contains k [] = false
contains k (n ∷ ns) = (n == k) || contains k ns

-- The item whose number is looked for is in the phase, and so its number is listed.
contains-numbers_in :
    (k : ℕ) (from : Phase) (cs : List Cell) (it : Item)
    → first_with k cs ≡ some it
    → phase_eq it.phase from ≡ true
    → contains k (numbers_in from cs) ≡ true
unfolding find_first numbers_in
contains-numbers_in k from [] it h p = absurd (ground (arith, h))
contains-numbers_in k from (c ∷ cs) it h p = elim (Bool-cases (c.item.number == k)) [
  | inl hit ↦ ground (arith, hit, h, p)
  | inr miss ↦ ground (arith, miss, h, contains-numbers_in k from cs it (ground (arith, miss, h)) p)
]

-- A requeued item is not requeued again.
unparked_twice :
    (from : Phase) (now : ℕ) (message : Text) (o : Option Item)
    → IsParked from
    → unparked_from now from message (unparked_from now from message o)
      ≡ unparked_from now from message o
unparked_twice from now message none i = refl
unparked_twice from now message (some it) approvals = ground arith
unparked_twice from now message (some it) conflicting = ground arith
unparked_twice from now message (some it) failing = ground arith

at_most_once :
    (f : Option Item → Option Item)
    → ((o : Option Item) → f (f o) ≡ f o)
    → (first later clear : Bool) (o : Option Item)
    → (if later && clear
        then f (if first && clear then f o else o)
        else (if first && clear then f o else o))
      ≡ (if (first || later) && clear then f o else o)
at_most_once f h true true true o = h o
at_most_once f h true true false o = refl
at_most_once f h true false true o = refl
at_most_once f h true false false o = refl
at_most_once f h false true true o = refl
at_most_once f h false true false o = refl
at_most_once f h false false clear o = refl

module _ (w : World) (quiet : (n : ℕ) (m : Manager) → w.meanwhile n m ≡ m)
    (alive : (n : ℕ) → w.is_cancelled n ≡ false) where
  one_item :
      (clear : ℕ → Bool) (from : Phase) (message : Text) (n k : ℕ) (m : Manager)
      → item_of k (if clear n then requeue_parked (w.io n) n from message m else m) ≡ (
          if (n == k) && clear k
          then unparked_from (w.io k).now from message (item_of k m)
          else item_of k m)
  one_item clear from message n k m = elim (Bool-cases (clear n)) [
    | inr unclear ↦ elim (Bool-cases (n == k)) [
      | inl hit ↦
          let e : clear k ≡ false = subst (λ j. clear j ≡ false) (ground (arith, hit)) unclear in
          rw (unclear, hit, e) refl
      | inr miss ↦ rw (unclear, miss) refl
    ]
    | inl clears ↦ elim (Bool-cases (n == k)) [
      | inl hit ↦
          let same : n ≡ k = ground (arith, hit) in
          let e : clear k ≡ true = subst (λ j. clear j ≡ true) same clears in
          rw (clears, item_of-requeue_parked (w.io n) n k from message m, hit, e)
            (ap (λ j. unparked_from (w.io j).now from message (item_of j m)) same)
      | inr miss ↦ rw (clears, item_of-requeue_parked (w.io n) n k from message m, miss) refl
    ]
  ]

  recheck_numbers-item :
      (clear : ℕ → Bool) (from : Phase) (message : Text) (ns : List ℕ) (k : ℕ) (m : Manager)
      → IsParked from
      → (item_of k (recheck_numbers w clear from message ns m).0 ≡ (
          if contains k ns && clear k
          then unparked_from (w.io k).now from message (item_of k m)
          else item_of k m))
        × ((recheck_numbers w clear from message ns m).1 ≡ false)
  unfolding recheck_numbers
  recheck_numbers-item clear from message [] k m i = (refl, refl)
  recheck_numbers-item clear from message (n ∷ ns) k m i =
      let m' = if clear n then requeue_parked (w.io n) n from message m else m in
      let (rest, on) = recheck_numbers-item clear from message ns k m' i in
      rw (alive n, quiet n m)
        (
          rest
              ∙ ap
                  (λ o.
                    if contains k ns && clear k
                    then unparked_from (w.io k).now from message o
                    else o)
                  (one_item clear from message n k m)
              ∙ at_most_once (unparked_from (w.io k).now from message)
                  (λ o. unparked_twice from (w.io k).now message o i) (n == k) (contains k ns)
                  (clear k) (item_of k m),
          on,
        )

  -- A loop leaves an item of another phase alone.
  loop_kept :
      (clear : ℕ → Bool) (from : Phase) (message : Text) (ns : List ℕ) (k : ℕ) (m : Manager)
      (it : Item)
      → IsParked from
      → item_of k m ≡ some it
      → phase_eq it.phase from ≡ false
      → item_of k (recheck_numbers w clear from message ns m).0 ≡ some it
  loop_kept clear from message ns k m it i h away =
      (recheck_numbers-item clear from message ns k m i).0
      ∙ ap (λ o. if contains k ns && clear k then unparked_from (w.io k).now from message o else o)
          h
      ∙ (elim (Bool-cases (contains k ns && clear k)) [
        | inl hit ↦ rw (hit, away) refl
        | inr miss ↦ rw miss refl
      ])

  -- A loop over the numbers of its phase requeues an item of this phase if its number is clear.
  loop_from :
      (clear : ℕ → Bool) (from : Phase) (message : Text) (k : ℕ) (m₀ m : Manager) (it : Item)
      → IsParked from
      → item_of k m₀ ≡ some it
      → item_of k m ≡ some it
      → phase_eq it.phase from ≡ true
      → item_of k (recheck_numbers w clear from message (numbers_in from m₀.items) m).0
        ≡ some (if clear k then requeued (w.io k).now message it else it)
  loop_from clear from message k m₀ m it i listed h phased =
      (recheck_numbers-item clear from message (numbers_in from m₀.items) k m i).0
      ∙ ap
          (λ o.
            if contains k (numbers_in from m₀.items) && clear k
            then unparked_from (w.io k).now from message o
            else o)
          h
      ∙ rw (contains-numbers_in k from m₀.items it listed phased) (elim (Bool-cases (clear k)) [
        | inl clears ↦ rw (clears, phased) refl
        | inr unclear ↦ rw unclear refl
      ])

  -- The three loops, up to the last one, run to their ends.
  runs_on : (m : Manager) → (recheck_approvals w m).1 ≡ false
  runs_on m =
      (recheck_numbers-item _ needs_approvals _ (numbers_in needs_approvals m.items) 0 m
        approvals).1

  -- A failed item is requeued exactly if the mode is not merge-queue and its pull request could be read, with
  -- a mergeable_state that counts as recovered.
  pub recheck_parked-failed :
      (k : ℕ) (m : Manager) (it : Item)
      → item_of k m ≡ some it
      → it.phase ≡ failed
      → item_of k (recheck_parked w m)
        ≡ some (
            if not (str_eq m.cfg.merge_mode "merge-queue")
              && is_ready checks_recovered (w.get_pull_request k)
            then requeued (w.io k).now (codes "checks recovered; back in queue") it
            else it)
  unfolding recheck_parked
  recheck_parked-failed k m it h phased =
      let m₁ = (recheck_approvals w m).0 in
      let m₂ = recheck_conflicts w m m₁ in
      let one : item_of k m₁ ≡ some it =
        loop_kept _ needs_approvals _ _ k m it approvals h (ground (arith, phased)) in
      let two : item_of k m₂ ≡ some it =
        loop_kept _ Phase.conflicts _ _ k m₁ it conflicting one (ground (arith, phased)) in
      elim (Bool-cases (str_eq m.cfg.merge_mode "merge-queue")) [
        | inl delegated ↦ rw (runs_on m, delegated) two
        | inr self ↦
            rw (runs_on m, self)
              (loop_from _ failed _ k m m₂ it failing h two (ground (arith, phased)))
      ]

  -- So is one with missing approvals if its review status could be read and meets the gate.
  pub recheck_parked-unapproved :
      (k : ℕ) (m : Manager) (it : Item)
      → item_of k m ≡ some it
      → it.phase ≡ needs_approvals
      → item_of k (recheck_parked w m)
        ≡ some (
            if is_approved (w.review_status k) m.cfg.min_approvals
            then requeued (w.io k).now (codes "approved; back in queue") it
            else it)
  unfolding recheck_parked
  recheck_parked-unapproved k m it h phased =
      let clear = is_approved (w.review_status k) m.cfg.min_approvals in
      let m₁ = (recheck_approvals w m).0 in
      let m₂ = recheck_conflicts w m m₁ in
      let it₁ = if clear then requeued (w.io k).now (codes "approved; back in queue") it else it in
      let one : item_of k m₁ ≡ some it₁ =
        loop_from _ needs_approvals _ k m m it approvals h h (ground (arith, phased)) in
      let two : item_of k m₂ ≡ some it₁ =
        loop_kept _ Phase.conflicts _ _ k m₁ it₁ conflicting one (ground (arith, phased)) in
      elim (Bool-cases (str_eq m.cfg.merge_mode "merge-queue")) [
        | inl delegated ↦ rw (runs_on m, delegated) two
        | inr self ↦
            rw (runs_on m, self)
              (loop_kept _ failed _ _ k m₂ it₁ failing two (ground (arith, phased)))
      ]

  -- And one with a conflict if its pull request could be read, with a state that says that it is gone.
  pub recheck_parked-conflicting :
      (k : ℕ) (m : Manager) (it : Item)
      → item_of k m ≡ some it
      → it.phase ≡ Phase.conflicts
      → item_of k (recheck_parked w m)
        ≡ some (
            if is_ready conflict_resolved (w.get_pull_request k)
            then requeued (w.io k).now (codes "conflict resolved; back in queue") it
            else it)
  unfolding recheck_parked
  recheck_parked-conflicting k m it h phased =
      let clear = is_ready conflict_resolved (w.get_pull_request k) in
      let m₁ = (recheck_approvals w m).0 in
      let m₂ = recheck_conflicts w m m₁ in
      let it₁ =
        if clear then requeued (w.io k).now (codes "conflict resolved; back in queue") it else it in
      let one : item_of k m₁ ≡ some it =
        loop_kept _ needs_approvals _ _ k m it approvals h (ground (arith, phased)) in
      let two : item_of k m₂ ≡ some it₁ =
        loop_from _ Phase.conflicts _ k m m₁ it conflicting h one (ground (arith, phased)) in
      elim (Bool-cases (str_eq m.cfg.merge_mode "merge-queue")) [
        | inl delegated ↦ rw (runs_on m, delegated) two
        | inr self ↦
            rw (runs_on m, self)
              (loop_kept _ failed _ _ k m₂ it₁ failing two (ground (arith, phased)))
      ]
