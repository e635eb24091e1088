-- ===== src/Client/Checks/Latest.antt =====
-- What the map of `CheckRuns` of internal/ghclient/client.go holds for a name.
use merge_bot.Base.{
  ℕ, ◌≤◌, ◌≡◌, refl, sym, ap, ◌∙◌, Bool, true, false, ◌&&◌, List, [], ◌∷◌, Option, none, some,
  arith, String, str_eq, str_eq_iff, lookup, lookup-insert, Bool-cases, Option-cases, inl, inr,
  if◌then◌else◌,
}
use merge_bot.Merge.Errors.{ok}
use merge_bot.Merge.Github.{CheckRun}
use merge_bot.Client.{RunData, StatusData, Api, fold_items}
use merge_bot.Client.Pages.{Served, fold_pages-Served}
use merge_bot.Client.Checks.{
  ByName, run_of, outranked, add_run, run_of_status, add_status, add_legacy_statuses,
  checks_by_name,
}

abbrev pub or_else : Option CheckRun → Option CheckRun → Option CheckRun
or_else none b = b
or_else (some a) b = some a

-- The last run of a list that passes a test.
abbrev pub last_where : (CheckRun → Bool) → List RunData → Option CheckRun
last_where test [] = none
last_where test (run ∷ runs) =
    or_else (last_where test runs) (if test (run_of run) then some (run_of run) else none)

abbrev pub is_named : String → CheckRun → Bool
is_named name run = str_eq run.name name

abbrev pub is_completed : String → CheckRun → Bool
is_completed name run = str_eq run.name name && run.completed

-- The last completed run of a name, or, if none is completed, the last one.
abbrev pub latest_run : String → List RunData → Option CheckRun
latest_run name runs =
    or_else (last_where (is_completed name) runs) (last_where (is_named name) runs)

-- The first status of a name, as a check run.
abbrev pub first_status : String → List StatusData → Option CheckRun
first_status name [] = none
first_status name (status ∷ statuses) =
    let rest = first_status name statuses in
    if str_eq status.context name then some (run_of_status status) else rest

-- What a name holds after some runs, from what it held before.
abbrev held_after : Option CheckRun → Option CheckRun → Option CheckRun → Option CheckRun
held_after prev (some run) last = some run
held_after none none last = last
held_after (some prev) none last = if prev.completed then some prev else or_else last (some prev)

lookup-add_run :
    (name : String) (by_name : ByName) (run : RunData)
    → lookup name (add_run by_name run) ≡ (
        if str_eq run.name name
        then (if outranked (lookup name by_name) (run_of run)
            then lookup name by_name
            else some (run_of run))
        else lookup name by_name)
unfolding add_run
lookup-add_run name by_name run =
    elim (Bool-cases (outranked (lookup run.name by_name) (run_of run))) [
      | inl over ↦ elim (Bool-cases (str_eq run.name name)) [
        | inl same ↦
            let over_name : outranked (lookup name by_name) (run_of run) ≡ true =
              ap (λ n. outranked (lookup n by_name) (run_of run)) (sym ((str_eq_iff _ _).0 same))
              ∙ over in
            simp (over, over_name, same, add_run)
        | inr other ↦ simp (over, other, add_run)
      ]
      | inr free ↦ elim (Bool-cases (str_eq run.name name)) [
        | inl same ↦
            let free_name : outranked (lookup name by_name) (run_of run) ≡ false =
              ap (λ n. outranked (lookup n by_name) (run_of run)) (sym ((str_eq_iff _ _).0 same))
              ∙ free in
            simp (free, free_name, same, add_run)
              (lookup-insert name run.name (run_of run) by_name ∙ (simp same))
        | inr other ↦
            simp (free, other, add_run)
              (lookup-insert name run.name (run_of run) by_name ∙ (simp other))
      ]
    ]

held_after-named :
    (prev : Option CheckRun) (run : CheckRun) (c l : Option CheckRun)
    → held_after (if outranked prev run then prev else some run) c l
      ≡ held_after prev
          (or_else c (if run.completed then some run else none))
          (or_else l (some run))
held_after-named prev run (some r) l = refl
held_after-named none run none (some x) = ground arith
held_after-named none run none none = ground arith
held_after-named (some p) run none (some x) = ground arith
held_after-named (some p) run none none = ground arith

or_else-none : (a : Option CheckRun) → or_else a none ≡ a
or_else-none none = refl
or_else-none (some a) = refl

held_after-none : (c l : Option CheckRun) → held_after none c l ≡ or_else c l
held_after-none none l = refl
held_after-none (some c) l = refl

lookup-fold_runs :
    (name : String) (by_name : ByName) (runs : List RunData)
    → lookup name (fold_items add_run by_name runs)
      ≡ held_after
          (lookup name by_name)
          (last_where (is_completed name) runs)
          (last_where (is_named name) runs)
unfolding fold_items run_of
lookup-fold_runs name by_name [] = ground arith
lookup-fold_runs name by_name (run ∷ runs) = elim (Bool-cases (str_eq run.name name)) [
  | inl same ↦
      lookup-fold_runs name (add_run by_name run) runs
      ∙ rw (lookup-add_run name by_name run, same)
          (held_after-named (lookup name by_name) (run_of run) (last_where (is_completed name) runs)
            (last_where (is_named name) runs))
  | inr other ↦
      lookup-fold_runs name (add_run by_name run) runs
      ∙ rw (lookup-add_run name by_name run, other)
          (simp (
            or_else-none (last_where (is_completed name) runs),
            or_else-none (last_where (is_named name) runs),
          ))
]

lookup-add_status :
    (name : String) (by_name : ByName) (status : StatusData)
    → lookup name (add_status by_name status)
      ≡ or_else
          (lookup name by_name)
          (if str_eq status.context name then some (run_of_status status) else none)
unfolding add_status
lookup-add_status name by_name status = elim (Option-cases (lookup status.context by_name)) [
  | inr (held, q) ↦ elim (Bool-cases (str_eq status.context name)) [
    | inl same ↦
        let held_name : lookup name by_name ≡ some held =
          ap (λ n. lookup n by_name) (sym ((str_eq_iff _ _).0 same)) ∙ q in
        simp (q, held_name, add_status)
    | inr other ↦ simp (q, other, add_status) (sym (or_else-none (lookup name by_name)))
  ]
  | inl q ↦ elim (Bool-cases (str_eq status.context name)) [
    | inl same ↦
        let free_name : lookup name by_name ≡ none =
          ap (λ n. lookup n by_name) (sym ((str_eq_iff _ _).0 same)) ∙ q in
        simp (q, free_name, same, add_status)
          (lookup-insert name status.context (run_of_status status) by_name ∙ (simp same))
    | inr other ↦
        simp (q, other, add_status)
          (lookup-insert name status.context (run_of_status status) by_name
            ∙ (simp other)
            ∙ sym (or_else-none (lookup name by_name)))
  ]
]

or_else_assoc : (a b c : Option CheckRun) → or_else (or_else a b) c ≡ or_else a (or_else b c)
or_else_assoc none b c = refl
or_else_assoc (some a) b c = refl

first_status-cons :
    (name : String) (status : StatusData) (statuses : List StatusData)
    → first_status name (status ∷ statuses)
      ≡ or_else
          (if str_eq status.context name then some (run_of_status status) else none)
          (first_status name statuses)
first_status-cons name status statuses = ground arith

lookup-fold_statuses :
    (name : String) (by_name : ByName) (statuses : List StatusData)
    → lookup name (fold_items add_status by_name statuses)
      ≡ or_else (lookup name by_name) (first_status name statuses)
unfolding fold_items
lookup-fold_statuses name by_name [] = sym (or_else-none (lookup name by_name))
lookup-fold_statuses name by_name (status ∷ statuses) =
    lookup-fold_statuses name (add_status by_name status) statuses
    ∙ rw (lookup-add_status name by_name status, first_status-cons name status statuses)
        (or_else_assoc (lookup name by_name) _ _)

-- If the pages of a commit's check runs and of its legacy statuses end, then, with fuel for as many
-- rounds as there are pages, `CheckRuns` fills its map, and every name holds in it its last completed
-- check run; if none is completed, its last check run; if it has no check run, its first legacy status.
pub checks_by_name-Served :
    (api : Api) (fuel : ℕ) (ref : String)
    → (runs : List RunData) (run_pages : ℕ) → Served (api.runs_page ref) 0 runs run_pages
    → run_pages ≤ fuel
    → (statuses : List StatusData) (status_pages : ℕ)
    → Served (api.statuses_page ref) 0 statuses status_pages
    → status_pages ≤ fuel
    → (by_name : ByName) × (checks_by_name api fuel ref ≡ some (ok by_name))
      × ((name : String)
          → lookup name by_name ≡ or_else (latest_run name runs) (first_status name statuses))
unfolding checks_by_name add_legacy_statuses lookup
checks_by_name-Served api fuel ref runs run_pages served enough statuses status_pages posted
      enough_too =
    let of_runs : ByName = fold_items add_run [] runs in
    (
      fold_items add_status of_runs statuses,
      rw (fold_pages-Served add_run (api.runs_page ref) fuel 0 run_pages [] runs served enough) (
          fold_pages-Served add_status (api.statuses_page ref) fuel 0 status_pages of_runs statuses
            posted enough_too),
      (λ name.
          lookup-fold_statuses name of_runs statuses
          ∙ ap (λ held. or_else held (first_status name statuses))
              (lookup-fold_runs name [] runs
                ∙ held_after-none (last_where (is_completed name) runs)
                    (last_where (is_named name) runs))),
    )
