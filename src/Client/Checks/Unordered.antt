-- ===== src/Client/Checks/Unordered.antt =====
-- The order in which Go visits the map of `CheckRuns` of internal/ghclient/client.go, and the counts of
-- `CountChecks` of internal/merge/runner.go.
use mathlib.Core.List.{Perm, Permᴰ}
use mathlib.Core.Logic.{∥∥₁_elim}
use native.Mathlib.Nat.{ℕ_set}
use merge_bot.Base.{ℕ, ◌≡◌, refl, ap, ◌∙◌, Bool, List, some, arith, String}
use merge_bot.Merge.Errors.{ok}
use merge_bot.Merge.Github.{CheckRun, count_checks}
use merge_bot.Merge.Github.Counting.{count_if, is_pending, has_failed, count_checks-count_if}
use merge_bot.Client.{Api}
use merge_bot.Client.Checks.{ByName, values, checks_by_name, check_runs}

module _ (test : CheckRun → Bool) where
  count_values : ByName → ℕ
  unfolding values
  count_values by_name = count_if test (values by_name)

  count_values-Permᴰ : (m n : ByName) → Permᴰ m n → count_values m ≡ count_values n
  unfolding count_values
  count_values-Permᴰ _ _ Permᴰ.nil = refl
  count_values-Permᴰ _ _ (Permᴰ.cons {a} {b} {l₁} {l₂} e d) =
      ground (arith, ap (λ x. test x.1) e, count_values-Permᴰ l₁ l₂ d)
  count_values-Permᴰ _ _ (Permᴰ.swap {a} {b} {a'} {b'} {l} e f) =
      ground (arith, ap (λ x. test x.1) e, ap (λ x. test x.1) f)
  count_values-Permᴰ _ _ (Permᴰ.trans {l₁} {l₂} {l₃} d e) =
      count_values-Permᴰ l₁ l₂ d ∙ count_values-Permᴰ l₂ l₃ e

  count_values-Perm : (m n : ByName) → Perm m n → count_values m ≡ count_values n
  count_values-Perm m n p = ∥∥₁_elim p (ℕ_set _ _) (count_values-Permᴰ m n)

pub values_counted : (m n : ByName) → Perm m n → count_checks (values m) ≡ count_checks (values n)
unfolding count_values
values_counted m n p =
    let pending = count_values-Perm is_pending m n p in
    let failed = count_values-Perm has_failed m n p in
    rw (count_checks-count_if (values m), count_checks-count_if (values n)) (cc (pending, failed))

-- In whatever order the map of the checks is visited, the list that `CheckRuns` returns has the same
-- number of pending and of failed checks as the map itself.
pub check_runs-Perm :
    (api : Api) (order : ByName → ByName) (fuel : ℕ) (ref : String) (by_name : ByName)
    → checks_by_name api fuel ref ≡ some (ok by_name)
    → Perm (order by_name) by_name
    → (runs : List CheckRun) × (check_runs api order fuel ref ≡ some (ok runs))
      × (count_checks runs ≡ count_checks (values by_name))
unfolding check_runs
check_runs-Perm api order fuel ref by_name filled p =
    (values (order by_name), simp (filled, check_runs), values_counted (order by_name) by_name p)
