-- ===== src/Queue/System/Diagram/Operations.antt =====
-- The items of the queue of internal/queue/manager.go under each of its operations, as moves along the
-- diagram of their phases.
use mathlib.Core.Option.{some-injective}
use merge_bot.Base.{
  ℕ, ◌≡◌, refl, sym, ap, ◌∙◌, subst, true, false, not, List, [], ◌∷◌, Option, some, arith, All-mono,
  Text, codes, Bool-cases, Option-cases, inl, inr, ◌==◌,
}
use merge_bot.Merge.Errors.{Error}
use merge_bot.Queue.Types.{Phase, queued, active, stopped, phase_eq, Item, Cell, Manager, Io}
use merge_bot.Queue.Cells.{find_first, find_ref}
use merge_bot.Queue.Cells.Found.{
  find_first-passes, find_ref-keep_cells, passing, find_ref-update_ref, find_ref-append,
}
use merge_bot.Queue.Manager.{
  add, remove, clear, requeue, requeue_parked, claim, has_number, is_live, re_added, stop, requeued,
  parked_as, is_parked, wanted, in_phases, drop_phases, is_queued, claimed,
}
use merge_bot.Queue.Manager.Saves.{saving}
use merge_bot.Queue.Process.{finish, settled, item_at, log_line, logged}
use merge_bot.Queue.System.{
  Event, Worker, adds, removes, requeues, clears, rechecks, dispatches, finishes, logs, has_worker,
}
use merge_bot.Queue.System.Owned.{ManagerInv}
use merge_bot.Queue.System.Exclusive.{is_held, Holds, Exclusive}
use merge_bot.Queue.System.Exclusive.Ends.{All-has_worker}
use merge_bot.Queue.System.Released.{settled-number}
use merge_bot.Queue.Recheck.Requeues.{IsParked, eq_of_parked}
use merge_bot.Queue.System.Diagram.{
  Edge, starts, stops, adds_again, retries, recovers, settles, Follows, dropped, stays, moves,
  Follows-same, Follows-update_first,
}

pub item_at-found :
    (r : ℕ) (m : Manager) (i : Item) → find_ref r m.items ≡ some i → item_at r m ≡ some i
item_at-found r m i f = rw (f, item_at) refl

-- `Clear` never drops a queued or active item.
live_unwanted :
    (phases : List Phase) (p : Phase) → is_live p ≡ true → in_phases (wanted phases) p ≡ false
unfolding in_phases wanted
live_unwanted [] p live = refl
live_unwanted (q ∷ qs) p live = ground (arith, live_unwanted qs p live)

module _ (m : Manager) (ws : List Worker) (v : ManagerInv m ws) (k : ℕ) (it : Item)
    (h : find_ref k m.items ≡ some it) where
  -- The item at the address has the number that a search looked for.
  number_found :
      (n : ℕ) (c : Cell) → find_first (has_number n) m.items ≡ some c → c.item ≡ it → n ≡ it.number
  number_found n c e same =
      ground (arith, find_first-passes (has_number n) m.items c e, ap (λ i. i.number) same)

  pub add-Follows : (io : Io) (n : ℕ) → Follows ws k (adds io n) it (find_ref k (add io n m).items)
  unfolding add
  add-Follows io n = elim (Option-cases (find_first (has_number n) m.items)) [
    | inl e ↦
        simp (e, add, saving)
          (Follows-same ws (adds io n) k it _ (find_ref-append k m.items _ ∙ ground (arith, h)))
    | inr (c, e) ↦ elim (Bool-cases (is_live c.item.phase)) [
      | inl live ↦ simp (e, add, live) (Follows-same ws (adds io n) k it _ h)
      | inr finished ↦
          simp (e, add, finished)
            (Follows-update_first ws (adds io n) k it m _ (has_number n) (re_added io.now) c v h e
              (simp saving)
              (λ same. moves (re_added io.now it) refl (
                subst (λ j. Edge ws k j (adds io n) it.phase queued) (number_found n c e same)
                  (adds_again io it.phase (rw (← same) finished)))))
    ]
  ]

  pub remove-Follows :
      (io : Io) (n : ℕ) → Follows ws k (removes io n) it (find_ref k (remove io n m).items)
  unfolding remove
  remove-Follows io n = elim (Option-cases (find_first (has_number n) m.items)) [
    | inl e ↦ simp (e, remove) (Follows-same ws (removes io n) k it _ h)
    | inr (c, e) ↦ elim (Bool-cases (is_live c.item.phase)) [
      | inl live ↦
          simp (e, remove, live)
            (Follows-update_first ws (removes io n) k it m _ (has_number n) (stop io.now) c v h e
              (simp saving)
              (λ same. moves (stop io.now it) refl (
                subst (λ j. Edge ws k j (removes io n) it.phase stopped) (number_found n c e same)
                  (stops io it.phase (rw (← same) live)))))
      | inr finished ↦ simp (e, remove, finished) (Follows-same ws (removes io n) k it _ h)
    ]
  ]

  pub requeue-Follows :
      (io : Io) (n : ℕ) → Follows ws k (requeues io n) it (find_ref k (requeue io n m).0.items)
  unfolding requeue
  requeue-Follows io n = elim (Option-cases (find_first (has_number n) m.items)) [
    | inl e ↦ simp (e, requeue) (Follows-same ws (requeues io n) k it _ h)
    | inr (c, e) ↦ elim (Bool-cases (is_parked c.item.phase)) [
      | inl parked ↦
          let change : Item → Item = requeued io.now (codes "re-checking") in
          simp (e, requeue, parked)
            (Follows-update_first ws (requeues io n) k it m _ (has_number n) change c v h e
              (simp saving)
              (λ same. moves (change it) refl (
                subst (λ j. Edge ws k j (requeues io n) it.phase queued) (number_found n c e same)
                  (retries io it.phase (rw (← same) parked)))))
      | inr other ↦ simp (e, requeue, other) (Follows-same ws (requeues io n) k it _ h)
    ]
  ]

  found_parked :
      (io : Io) (n : ℕ) (from : Phase) (message : Text) (i : Item)
      → IsParked from
      → n ≡ i.number
      → phase_eq i.phase from ≡ true
      → Edge ws k i.number (rechecks io n from message) i.phase queued
  found_parked io n from message i parked numbered phased =
      subst (λ j. Edge ws k j (rechecks io n from message) i.phase queued) numbered
        (subst (λ p. Edge ws k n (rechecks io n from message) p queued)
          (sym (eq_of_parked i.phase parked phased)) (recovers io from message parked))

  pub requeue_parked-Follows :
      (io : Io) (n : ℕ) (from : Phase) (message : Text)
      → IsParked from
      → Follows ws k
          (rechecks io n from message)
          it
          (find_ref k (requeue_parked io n from message m).items)
  unfolding requeue_parked
  requeue_parked-Follows io n from message parked =
      let e' : Event = rechecks io n from message in
      elim (Option-cases (find_first (parked_as n from) m.items)) [
        | inl e ↦ simp (e, requeue_parked) (Follows-same ws e' k it _ h)
        | inr (c, e) ↦
            let passed = find_first-passes (parked_as n from) m.items c e in
            simp (e, requeue_parked)
              (Follows-update_first ws e' k it m _ (parked_as n from) (requeued io.now message) c v
                h e (simp saving)
                (λ same. moves (requeued io.now message it) refl (
                  found_parked io n from message it parked
                    (ground (arith, passed, ap (λ i. i.number) same))
                    (ground (arith, passed, ap (λ i. i.phase) same)))))
      ]

  pub claim-Follows : (io : Io) → Follows ws k (dispatches io) it (find_ref k (claim io m).0.items)
  unfolding claim
  claim-Follows io = elim (Option-cases (find_first is_queued m.items)) [
    | inl e ↦ simp (e, claim) (Follows-same ws (dispatches io) k it _ h)
    | inr (c, e) ↦
        simp (e, claim)
          (Follows-update_first ws (dispatches io) k it m _ is_queued (claimed io.now) c v h e
            (simp saving)
            (λ same. moves (claimed io.now it) refl (
              subst (λ p. Edge ws k it.number (dispatches io) p active)
                (ground (arith, find_first-passes is_queued m.items c e, ap (λ i. i.phase) same))
                (starts io))))
  ]

  drop_phases-Follows :
      (io : Io) (asked phases : List Phase)
      → ((p : Phase) → is_live p ≡ true → in_phases phases p ≡ false)
      → Follows ws k (clears io asked) it (find_ref k (drop_phases io phases m).items)
  unfolding drop_phases
  drop_phases-Follows io asked phases never =
      let seen =
        find_ref-keep_cells (λ i. not (in_phases phases i.phase)) k m.items v.refs
        ∙ ap (passing (λ i. not (in_phases phases i.phase))) h in
      simp saving (elim (Bool-cases (in_phases phases it.phase)) [
        | inl gone ↦ subst (Follows ws k (clears io asked) it) (sym (seen ∙ ground (arith, gone))) (
            dropped io asked refl (elim (Bool-cases (is_live it.phase)) [
              | inl live ↦ absurd (ground (arith, never it.phase live, gone))
              | inr idle ↦ idle
            ]))
        | inr kept ↦ Follows-same ws (clears io asked) k it _ (seen ∙ ground (arith, kept))
      ])

  pub clear-Follows :
      (io : Io) (phases : List Phase)
      → Follows ws k (clears io phases) it (find_ref k (clear io phases m).items)
  unfolding clear
  clear-Follows io phases = drop (wanted phases) (live_unwanted phases)
    where
      drop :
          (ps : List Phase)
          → ((p : Phase) → is_live p ≡ true → in_phases ps p ≡ false)
          → Follows ws k (clears io phases) it (
              find_ref k
                (elim ps as (λ x. Manager) [
                  | [] ↦ m
                  | p ∷ rest ↦ drop_phases io (p ∷ rest) m
                ]).items)
      drop [] never = Follows-same ws (clears io phases) k it _ h
      drop (p ∷ ps) never = drop_phases-Follows io phases (p ∷ ps) never

  settled-Follows :
      (io : Io) (w : Worker) (result : Option Error)
      → w.0 ≡ k
      → has_worker w ws ≡ true
      → is_held it.phase ≡ true
      → Follows ws k (finishes io w result) it (some (settled io.now result it))
  unfolding settled
  settled-Follows io w result own runs held = elim (Bool-cases (phase_eq it.phase active)) [
    | inl works ↦
        let a : it.phase ≡ active = ground arith in
        moves (settled io.now result it) (settled-number io.now result it) (
          subst (λ p. Edge ws k it.number (finishes io w result) p (settled io.now result it).phase)
            (sym a) (settles io w result it own runs a))
    | inr idle ↦ stays (settled io.now result it) (settled-number io.now result it) (ground arith)
  ]

  -- An item that a running worker has is active or stopped.
  held_at :
      (w : Worker) → w.0 ≡ k → has_worker w ws ≡ true → Exclusive m ws → is_held it.phase ≡ true
  held_at w hit runs x =
      let Held : ℕ → Type 0 =
        (λ r. (i : Item) → find_ref r m.items ≡ some i → is_held i.phase ≡ true) in
      subst Held hit
        (All-has_worker m w Held ws runs (
          All-mono (Holds m) _
            (λ y hy i f.
              subst (λ z. is_held z.phase ≡ true)
                (some-injective hy.it i (sym hy.found ∙ item_at-found y.0 m i f)) hy.held)
            ws x.holds))
        it h

  pub finish-Follows :
      (io : Io) (w : Worker) (result : Option Error)
      → has_worker w ws ≡ true
      → Exclusive m ws
      → Follows ws k (finishes io w result) it (find_ref k (finish io w.0 result m).0.items)
  unfolding finish
  finish-Follows io w result runs x = elim (Option-cases (item_at w.0 m)) [
    | inl e ↦ simp (e, finish) (Follows-same ws (finishes io w result) k it _ h)
    | inr (j, e) ↦
        let seen = find_ref-update_ref w.0 k (settled io.now result) m.items in
        simp (e, finish, saving)
          (elim (Bool-cases (w.0 == k)) [
            | inl hit ↦
                subst (Follows ws k (finishes io w result) it) (sym (seen ∙ ground (arith, hit, h)))
                  (settled-Follows io w result (ground arith) runs
                    (held_at w (ground arith) runs x))
            | inr away ↦
                Follows-same ws (finishes io w result) k it _ (seen ∙ ground (arith, away, h))
          ])
  ]

  pub log_line-Follows :
      (now : ℕ) (w : Worker) (message : Text)
      → Follows ws k (logs now w message) it (find_ref k (log_line now w.0 message m).items)
  unfolding log_line
  log_line-Follows now w message =
      let seen = find_ref-update_ref w.0 k (logged now message) m.items in
      elim (Bool-cases (w.0 == k)) [
        | inl hit ↦
            subst (Follows ws k (logs now w message) it) (sym (seen ∙ ground (arith, hit, h)))
              (stays (logged now message it) (ground arith) (ground arith))
        | inr away ↦ Follows-same ws (logs now w message) k it _ (seen ∙ ground (arith, away, h))
      ]
