-- ===== src/Merge/Runner/Loop.antt =====
-- How the polling loop of internal/merge/runner.go ends.
use merge_bot.Base.{
  ℕ, zero, suc, ◌+◌, ◌<◌, ◌≡◌, ◌≢◌, Option-cases, ◌⊎◌, inl, inr, refl, true, false, Option, none,
  some, List, arith,
}
use merge_bot.Merge.Github.{Call}
use merge_bot.Merge.Gate.{Runner, M, Verdict}
use native.Mathlib.Nat.{zero-add, add-zero}
use merge_bot.Merge.Runner.Done.{Merged, step_done}
use merge_bot.Merge.Runner.{Poll, Ending, after_calls, after_step, step, run_from, run}

after_calls-ne-none :
    (calls : List Call) (o : Option Ending) → o ≢ none → after_calls calls o ≢ none
after_calls-ne-none calls none h = absurd (h refl)
after_calls-ne-none calls (some x) h = ground arith

-- A round that meets a late clock ends the loop.
after_step_late :
    (r : Runner) (deadline : ℕ) (poll : Poll) (m : M Verdict) (rest : Option Ending)
    → deadline < poll.checked_at
    → after_step r deadline poll m rest ≢ none
unfolding after_step
after_step_late r deadline poll ((finished, some e), calls) rest late = ground arith
after_step_late r deadline poll ((finished, none), calls) rest late = ground arith

-- Any other round ends it or hands over to the rounds that follow.
after_step_rest :
    (r : Runner) (deadline : ℕ) (poll : Poll) (m : M Verdict) (rest : Option Ending)
    → rest ≢ none
    → after_step r deadline poll m rest ≢ none
unfolding after_step
after_step_rest r deadline poll ((finished, some e), calls) rest h = ground arith
after_step_rest r deadline poll ((finished, none), calls) rest h =
    ground (arith, after_calls-ne-none calls rest h)

run_from_ends :
    (late k fuel : ℕ) (r : Runner) (deadline : ℕ) (polls : ℕ → Poll)
    → deadline < (polls (late + k)).checked_at
    → late < fuel
    → run_from fuel r deadline polls k ≢ none
unfolding run_from
run_from_ends late k zero r deadline polls h f = elim f [ ]
run_from_ends zero k (suc fuel) r deadline polls h f =
    after_step_late r deadline (polls k) (step r (polls k).api)
      (run_from fuel r deadline polls (suc k)) (rw zero-add at h)
run_from_ends (suc late) k (suc fuel) r deadline polls h f =
    after_step_rest r deadline (polls k) (step r (polls k).api)
      (run_from fuel r deadline polls (suc k))
      (run_from_ends late (suc k) fuel r deadline polls (rw (add_suc_left late k) at h)
        (omega arith))
  where
    add_suc_left : (m n : ℕ) → suc m + n ≡ m + suc n
    add_suc_left m n = omega arith

-- The loop ends: if the clock is past the deadline in round `late`, then `late + 1` rounds of fuel
-- are enough, whatever GitHub answers.
pub run_ends :
    (r : Runner) (now late fuel : ℕ) (polls : ℕ → Poll)
    → now + r.timeout < (polls late).checked_at
    → late < fuel
    → (x : Ending) × (run fuel r now polls ≡ some x)
unfolding run
run_ends r now late fuel polls h f = elim (Option-cases (run fuel r now polls)) [
  | inl e ↦ absurd (run_from_ends late 0 fuel r (now + r.timeout) polls (rw add-zero h) f e)
  | inr found ↦ found
]

after_step_nil :
    (r : Runner) (deadline : ℕ) (poll : Poll) (m : M Verdict) (rest : Option Ending)
    {calls : List Call}
    → r.dry_run ≡ false
    → after_step r deadline poll m rest ≡ some (none, calls)
    → (m.0.0 ≡ true) ⊎ ((later : List Call) × (rest ≡ some (none, later)))
unfolding after_step
after_step_nil r deadline poll ((finished, some e), before) rest d h = absurd (ground arith)
after_step_nil r deadline poll ((finished, none), before) none d h = ground arith
after_step_nil r deadline poll ((finished, none), before) (some (none, later)) d h =
    inr (later, refl)
after_step_nil r deadline poll ((finished, none), before) (some (some e, later)) d h = ground arith

run_from_nil :
    (fuel k : ℕ) (r : Runner) (deadline : ℕ) (polls : ℕ → Poll) (calls : List Call)
    → r.dry_run ≡ false
    → run_from fuel r deadline polls k ≡ some (none, calls)
    → (round : ℕ) × (round < k + fuel) × Merged r (polls round).api
unfolding run_from
run_from_nil zero k r deadline polls calls d h = absurd (ground arith)
run_from_nil (suc fuel) k r deadline polls calls d h =
    let rest = run_from fuel r deadline polls (suc k) in
    elim (after_step_nil r deadline (polls k) (step r (polls k).api) rest d h) [
      | inl finished ↦ (k, omega arith, step_done r (polls k).api d finished)
      | inr (later, e) ↦
          let (round, b, merged) = run_from_nil fuel (suc k) r deadline polls later d e in
          (round, omega arith, merged)
    ]

-- Outside a dry run the loop ends with no error only if the pull request is merged: in one of its
-- rounds GitHub said so, or agreed to a merge that was asked for.
pub run_nil :
    (r : Runner) (now fuel : ℕ) (polls : ℕ → Poll) {calls : List Call}
    → r.dry_run ≡ false
    → run fuel r now polls ≡ some (none, calls)
    → (round : ℕ) × (round < fuel) × Merged r (polls round).api
unfolding run
run_nil r now fuel polls {calls} d h =
    let (round, b, merged) = run_from_nil fuel 0 r (now + r.timeout) polls calls d h in
    (round, omega arith, merged)
