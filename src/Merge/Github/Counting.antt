-- ===== src/Merge/Github/Counting.antt =====
-- The counts of `CountChecks` of internal/merge/runner.go, and the check runs.
use merge_bot.Base.{
  ℕ, suc, ◌+◌, ◌<◌, ◌≡◌, inl, inr, refl, Bool, true, false, not, List, [], ◌∷◌, arith, All, Any,
  Bool-cases, if◌then◌else◌,
}
use merge_bot.Merge.Github.{CheckRun, check_succeeded, count_checks_from, count_checks}

-- A run that is still queued or running, and one that ended badly.
abbrev pub IsPending : CheckRun → Type 0
IsPending run = run.completed ≡ false

abbrev pub HasFailed : CheckRun → Type 0
HasFailed run = (run.completed ≡ true) × (check_succeeded run.conclusion ≡ false)

-- How many of the runs pass a test.
abbrev pub count_if : (CheckRun → Bool) → List CheckRun → ℕ
count_if test [] = 0
count_if test (run ∷ runs) = let rest = count_if test runs in if test run then suc rest else rest

abbrev pub is_pending : CheckRun → Bool
is_pending run = not run.completed

abbrev pub has_failed : CheckRun → Bool
has_failed run = if run.completed then not (check_succeeded run.conclusion) else false

count_checks_from-count_if :
    (p f : ℕ) (runs : List CheckRun)
    → count_checks_from (p, f) runs ≡ (p + count_if is_pending runs, f + count_if has_failed runs)
unfolding count_checks_from
count_checks_from-count_if p f [] = ground arith
count_checks_from-count_if p f (run ∷ runs) = ground (
  arith,
  count_checks_from-count_if (p + 1) f runs,
  count_checks_from-count_if p (f + 1) runs,
  count_checks_from-count_if p f runs,
)

-- The loop over the check runs counts those that are not completed, and those that are completed and
-- did not succeed.
pub count_checks-count_if :
    (runs : List CheckRun)
    → count_checks runs ≡ (count_if is_pending runs, count_if has_failed runs)
unfolding count_checks
count_checks-count_if runs = ground (arith, count_checks_from-count_if 0 0 runs)

none_pending :
    (runs : List CheckRun) → All (λ run. run.completed ≡ true) runs → count_if is_pending runs ≡ 0
none_pending [] h = refl
none_pending (run ∷ runs) h = ground (arith, h.0, none_pending runs h.1)

some_pending : (runs : List CheckRun) → Any IsPending runs → 0 < count_if is_pending runs
some_pending [] h = elim h [ ]
some_pending (run ∷ runs) (inl h) = ground arith
some_pending (run ∷ runs) (inr h) = ground (arith, some_pending runs h)

some_failed : (runs : List CheckRun) → Any HasFailed runs → 0 < count_if has_failed runs
some_failed [] h = elim h [ ]
some_failed (run ∷ runs) (inl h) = ground arith
some_failed (run ∷ runs) (inr h) = ground (arith, some_failed runs h)

none_failed :
    (runs : List CheckRun)
    → All (λ run. check_succeeded run.conclusion ≡ true) runs
    → count_if has_failed runs ≡ 0
none_failed [] h = refl
none_failed (run ∷ runs) h = ground (arith, h.0, none_failed runs h.1)

-- With every run completed none counts as pending; a run that is not completed counts.
pub no_pending :
    (runs : List CheckRun) → All (λ run. run.completed ≡ true) runs → (count_checks runs).0 ≡ 0
no_pending runs h = rw (count_checks-count_if runs) (none_pending runs h)

pub a_pending : (runs : List CheckRun) → Any IsPending runs → 0 < (count_checks runs).0
a_pending runs h = rw (count_checks-count_if runs) (some_pending runs h)

pub a_failure : (runs : List CheckRun) → Any HasFailed runs → 0 < (count_checks runs).1
a_failure runs h = rw (count_checks-count_if runs) (some_failed runs h)

pub no_failure :
    (runs : List CheckRun)
    → All (λ run. check_succeeded run.conclusion ≡ true) runs
    → (count_checks runs).1 ≡ 0
no_failure runs h = rw (count_checks-count_if runs) (none_failed runs h)

-- Nothing counted as pending or failed: every run completed and succeeded.
pub count_checks_clear :
    (runs : List CheckRun)
    → (count_checks runs).0 ≡ 0
    → (count_checks runs).1 ≡ 0
    → All (λ run. run.completed ≡ true) runs
      × All (λ run. check_succeeded run.conclusion ≡ true) runs
count_checks_clear runs p f =
    clear_of_counts runs (ground (arith, count_checks-count_if runs))
      (ground (arith, count_checks-count_if runs))
  where
    clear_of_counts :
        (rs : List CheckRun)
        → count_if is_pending rs ≡ 0
        → count_if has_failed rs ≡ 0
        → All (λ run. run.completed ≡ true) rs
          × All (λ run. check_succeeded run.conclusion ≡ true) rs
    clear_of_counts [] p f = (tt, tt)
    clear_of_counts (run ∷ rs) p f = elim (Bool-cases run.completed) [
      | inl done ↦ elim (Bool-cases (check_succeeded run.conclusion)) [
        | inl good ↦
            let (c, s) = clear_of_counts rs (ground arith) (ground arith) in ((done, c), (good, s))
        | inr bad ↦ absurd (ground arith)
      ]
      | inr running ↦ absurd (ground arith)
    ]

-- Nothing counted as pending and something as failed: every run completed, and one did badly.
pub count_checks_failed :
    (runs : List CheckRun)
    → (count_checks runs).0 ≡ 0
    → 0 < (count_checks runs).1
    → All (λ run. run.completed ≡ true) runs × Any HasFailed runs
count_checks_failed runs p f =
    failed_of_counts runs (ground (arith, count_checks-count_if runs))
      (ground (arith, count_checks-count_if runs))
  where
    completed_of_counts :
        (rs : List CheckRun) → count_if is_pending rs ≡ 0 → All (λ run. run.completed ≡ true) rs
    completed_of_counts [] p = tt
    completed_of_counts (run ∷ rs) p = elim (Bool-cases run.completed) [
      | inl done ↦ (done, completed_of_counts rs (ground arith))
      | inr running ↦ absurd (ground arith)
    ]

    any_of_counts : (rs : List CheckRun) → 0 < count_if has_failed rs → Any HasFailed rs
    any_of_counts [] f = absurd (omega arith)
    any_of_counts (run ∷ rs) f = elim (Bool-cases (has_failed run)) [
      | inl bad ↦ inl (ground arith)
      | inr fine ↦ inr (any_of_counts rs (ground arith))
    ]

    failed_of_counts :
        (rs : List CheckRun)
        → count_if is_pending rs ≡ 0
        → 0 < count_if has_failed rs
        → All (λ run. run.completed ≡ true) rs × Any HasFailed rs
    failed_of_counts rs p f = (completed_of_counts rs p, any_of_counts rs f)
