-- ===== src/Client/Checks/Keyed.antt =====
-- The keys of the map that `CheckRuns` of internal/ghclient/client.go fills.
use merge_bot.Base.{
  ℕ, zero, suc, ◌≡◌, ◌≢◌, refl, subst, inl, inr, List, [], ◌∷◌, Option, none, some, arith, String,
  str_eq, str_eq_iff, Bool-cases, Option-cases, All, lookup, insert, ◌==◌,
}
use merge_bot.Merge.Errors.{Result, ok, err, Result-cases}
use merge_bot.Merge.Github.{CheckRun}
use merge_bot.Client.{Page, RunData, StatusData, Api, fold_items, fold_pages}
use merge_bot.Client.Checks.{
  ByName, run_of, outranked, add_run, run_of_status, add_status, add_legacy_statuses, with_statuses,
  checks_by_name,
}

-- No key stands twice, and every key is the name of its run.
abbrev pub Keyed : ByName → Type 0
Keyed [] = Unit
Keyed (e ∷ m) = (e.1.name ≡ e.0) × All (λ f. f.0 ≢ e.0) m × Keyed m

insert-All :
    (P : String × CheckRun → Type 0) (key : String) (run : CheckRun) (m : ByName)
    → P (key, run)
    → All P m
    → All P (insert key run m)
unfolding insert
insert-All P key run [] p h = (p, tt)
insert-All P key run (e ∷ m) p (q, h) = elim (Bool-cases (str_eq e.0 key)) [
  | inl same ↦ simp (same, insert) (p, h)
  | inr other ↦ simp (other, insert) (q, insert-All P key run m p h)
]

insert-Keyed :
    (key : String) (run : CheckRun) (m : ByName)
    → run.name ≡ key
    → Keyed m
    → Keyed (insert key run m)
unfolding insert
insert-Keyed key run [] named h = (named, tt, tt)
insert-Keyed key run (e ∷ m) named (q, differ, h) = elim (Bool-cases (str_eq e.0 key)) [
  | inl same ↦
      let eq : e.0 ≡ key = (str_eq_iff e.0 key).0 same in
      simp (same, insert) (named, subst (λ k. All (λ f. f.0 ≢ k) m) eq differ, h)
  | inr other ↦
      let apart : key ≢ e.0 = (λ eq. ground (arith, str_eq_iff e.0 key, eq, other)) in
      simp (other, insert)
        (q, insert-All (λ f. f.0 ≢ e.0) key run m apart differ, insert-Keyed key run m named h)
]

add_run-Keyed : (m : ByName) (run : RunData) → Keyed m → Keyed (add_run m run)
unfolding add_run run_of
add_run-Keyed m run h = elim (Bool-cases (outranked (lookup run.name m) (run_of run))) [
  | inl over ↦ simp (over, add_run) h
  | inr free ↦ simp (free, add_run) (insert-Keyed run.name (run_of run) m refl h)
]

add_status-Keyed : (m : ByName) (status : StatusData) → Keyed m → Keyed (add_status m status)
unfolding add_status run_of_status
add_status-Keyed m status h = elim (Option-cases (lookup status.context m)) [
  | inr (run, q) ↦ simp (q, add_status) h
  | inl q ↦ simp (q, add_status) (insert-Keyed status.context (run_of_status status) m refl h)
]

module _ {A : Type 0} (step : ByName → A → ByName) where
  fold_items-Keyed :
      ((m : ByName) (a : A) → Keyed m → Keyed (step m a))
      → (m : ByName) (items : List A) → Keyed m
      → Keyed (fold_items step m items)
  unfolding fold_items
  fold_items-Keyed keeps m [] h = h
  fold_items-Keyed keeps m (a ∷ items) h = fold_items-Keyed keeps (step m a) items (keeps m a h)

  fold_pages-Keyed :
      ((m : ByName) (a : A) → Keyed m → Keyed (step m a))
      → (fetch : ℕ → Result (Page A)) (fuel : ℕ) (m : ByName) (page : ℕ) (n : ByName)
      → fold_pages step fetch fuel m page ≡ some (ok n)
      → Keyed m
      → Keyed n
  unfolding fold_pages
  fold_pages-Keyed keeps fetch zero m page n h k = absurd (ground (arith, h))
  fold_pages-Keyed keeps fetch (suc fuel) m page n h k = elim (Result-cases (fetch page)) [
    | inr (e, q) ↦ absurd (ground (arith, h, q))
    | inl (answer, q) ↦
        let collected = fold_items-Keyed keeps m answer.items k in
        elim (Bool-cases (answer.next_page == 0)) [
          | inl last ↦
              let same : fold_items step m answer.items ≡ n = ground (arith, h, q, last) in
              subst Keyed same collected
          | inr more ↦
              fold_pages-Keyed keeps fetch fuel (fold_items step m answer.items) answer.next_page n
                (ground (arith, h, q, more)) collected
        ]
  ]

with_statuses-Keyed :
    (api : Api) (fuel : ℕ) (ref : String) (of_runs : Option (Result ByName)) (by_name : ByName)
    → ((m : ByName) → of_runs ≡ some (ok m) → Keyed m)
    → with_statuses api fuel ref of_runs ≡ some (ok by_name)
    → Keyed by_name
unfolding add_legacy_statuses
with_statuses-Keyed api fuel ref none by_name keyed h = absurd (ground (arith, h))
with_statuses-Keyed api fuel ref (some (err e)) by_name keyed h = absurd (ground (arith, h))
with_statuses-Keyed api fuel ref (some (ok m)) by_name keyed h =
    fold_pages-Keyed add_status add_status-Keyed (api.statuses_page ref) fuel m 0 by_name h
      (keyed m refl)

pub checks_by_name-Keyed :
    (api : Api) (fuel : ℕ) (ref : String) (by_name : ByName)
    → checks_by_name api fuel ref ≡ some (ok by_name)
    → Keyed by_name
unfolding checks_by_name
checks_by_name-Keyed api fuel ref by_name h =
    with_statuses-Keyed api fuel ref (fold_pages add_run (api.runs_page ref) fuel [] 0) by_name
      (λ m filled. fold_pages-Keyed add_run add_run-Keyed (api.runs_page ref) fuel [] 0 m filled tt)
      h
