-- ===== src/Queue/Recheck/Loop.antt =====
-- The background re-check of internal/queue/manager.go as events of the queue.
use merge_bot.Base.{
  ℕ, ◌≡◌, refl, ap, ◌∙◌, Bool, true, false, List, [], ◌∷◌, ◌++◌, Text, All, All-append, Bool-cases,
  inl, inr, str_eq, ◌==◌, if◌then◌else◌,
}
use merge_bot.Queue.Types.{Phase, Manager, failed, needs_approvals}
use merge_bot.Queue.Manager.{requeue_parked}
use merge_bot.Queue.Recheck.{
  World, recheck_numbers, recheck_approvals, recheck_conflicts, recheck_parked, recheck_ticks,
  recheck_loop,
}
use merge_bot.Queue.System.{System, Event, rechecks, step, run}
use merge_bot.Queue.Recheck.Requeues.{IsParked, approvals, conflicting, failing}

-- A requeue from one of the three phases that are re-checked.
abbrev pub IsRecheck : Event → Type 0
IsRecheck (rechecks io n from message) = IsParked from
IsRecheck _ = ⊥

-- A change of the manager that some requeues of the re-check make.
abbrev pub ByRechecks : System → Manager → Type 0
ByRechecks s m = (es : List Event) × All IsRecheck es × (run s es ≡ record s { manager = m })

ByRechecks-refl : (s : System) → ByRechecks s s.manager
unfolding run
ByRechecks-refl s = ([], tt, refl)

run-run : (s : System) (es fs : List Event) → run s (es ++ fs) ≡ run (run s es) fs
unfolding run
run-run s [] fs = refl
run-run s (e ∷ es) fs = run-run (step s e) es fs

ByRechecks-trans :
    (s : System) (m n : Manager)
    → ByRechecks s m
    → ByRechecks (record s { manager = m }) n
    → ByRechecks s n
ByRechecks-trans s m n (es, first, p) (fs, then_, q) =
    (es ++ fs, All-append IsRecheck es fs first then_, run-run s es fs ∙ ap (λ x. run x fs) p ∙ q)

-- In a world without other goroutines.
module _ (w : World) (quiet : (n : ℕ) (m : Manager) → w.meanwhile n m ≡ m) where
  one-ByRechecks :
      (s : System) (clear : Bool) (from : Phase) (message : Text) (n : ℕ)
      → IsParked from
      → ByRechecks s (if clear then requeue_parked (w.io n) n from message s.manager else s.manager)
  unfolding run step
  one-ByRechecks s true from message n idle =
      (rechecks (w.io n) n from message ∷ [], (idle, tt), refl)
  one-ByRechecks s false from message n idle = ByRechecks-refl s

  recheck_numbers-ByRechecks :
      (s : System) (clear : ℕ → Bool) (from : Phase) (message : Text) (ns : List ℕ)
      → IsParked from
      → ByRechecks s (recheck_numbers w clear from message ns s.manager).0
  unfolding recheck_numbers
  recheck_numbers-ByRechecks s clear from message [] idle = ByRechecks-refl s
  recheck_numbers-ByRechecks s clear from message (n ∷ ns) idle =
      elim (Bool-cases (w.is_cancelled n)) [
        | inl stops ↦ rw stops (ByRechecks-refl s)
        | inr goes ↦
            let m' =
              if clear n then requeue_parked (w.io n) n from message s.manager else s.manager in
            rw (goes, quiet n s.manager)
              (ByRechecks-trans s m' _ (one-ByRechecks s (clear n) from message n idle)
                (recheck_numbers-ByRechecks (record s { manager = m' }) clear from message ns idle))
      ]

  recheck_parked-ByRechecks : (s : System) → ByRechecks s (recheck_parked w s.manager)
  unfolding recheck_parked
  recheck_parked-ByRechecks s =
      let m = s.manager in
      let m₁ = (recheck_approvals w m).0 in
      let m₂ = recheck_conflicts w m m₁ in
      let one : ByRechecks s m₁ = recheck_numbers-ByRechecks s _ needs_approvals _ _ approvals in
      let two : ByRechecks s m₂ = ByRechecks-trans s m₁ m₂ one (
        recheck_numbers-ByRechecks (record s { manager = m₁ }) _ Phase.conflicts _ _ conflicting) in
      elim (Bool-cases (recheck_approvals w m).1) [
        | inl stops ↦ rw stops one
        | inr goes ↦ elim (Bool-cases (str_eq m.cfg.merge_mode "merge-queue")) [
          | inl delegated ↦ rw (goes, delegated) two
          | inr self ↦
              rw (goes, self)
                (ByRechecks-trans s m₂ _ two
                  (recheck_numbers-ByRechecks (record s { manager = m₂ }) _ failed _ _ failing))
        ]
      ]

-- No other goroutine is at work while a tick is handled.
abbrev pub IsQuiet : World → Type 0
IsQuiet w = (n : ℕ) (m : Manager) → w.meanwhile n m ≡ m

recheck_ticks-ByRechecks :
    (s : System) (ticks : List World)
    → All IsQuiet ticks
    → ByRechecks s (recheck_ticks ticks s.manager)
unfolding recheck_ticks
recheck_ticks-ByRechecks s [] quiet = ByRechecks-refl s
recheck_ticks-ByRechecks s (w ∷ ticks) quiet =
    let m' = recheck_parked w s.manager in
    ByRechecks-trans s m' _ (recheck_parked-ByRechecks w quiet.0 s)
      (recheck_ticks-ByRechecks (record s { manager = m' }) ticks quiet.1)

-- If no other goroutine is at work while a tick is handled, what the loop does to the queue is what some
-- requeue events do, all of them from the phases of missing approvals, conflicts or failures.
pub recheck_loop-ByRechecks :
    (s : System) (ticks : List World)
    → All IsQuiet ticks
    → ByRechecks s (recheck_loop ticks s.manager)
unfolding recheck_loop
recheck_loop-ByRechecks s ticks quiet = elim (Bool-cases (s.manager.cfg.recheck_interval == 0)) [
  | inl off ↦ rw off (ByRechecks-refl s)
  | inr on ↦ rw on (recheck_ticks-ByRechecks s ticks quiet)
]
