-- ===== src/Client/Checks/Required.antt =====
-- The checks of internal/ghclient/client.go in front of the required checks of
-- internal/merge/runner.go.
use mathlib.Core.List.{Permᴰ}
use merge_bot.Base.{
  ℕ, ◌≤◌, ◌≡◌, ◌≢◌, ◌↔◌, refl, sym, ap, ◌∙◌, subst, inl, inr, true, false, List, [], ◌∷◌, Option,
  none, some, arith, String, str_eq, str_eq_iff, Bool-cases, Option-cases, All, lookup,
  if◌then◌else◌,
}
use merge_bot.Merge.Errors.{ok}
use merge_bot.Merge.Github.{CheckRun}
use merge_bot.Merge.Unstable.Green.{latest, Green, Succeeds}
use merge_bot.Client.{RunData, StatusData, Api}
use merge_bot.Client.Pages.{Served}
use merge_bot.Client.Checks.{ByName, values, check_runs}
use merge_bot.Client.Checks.Latest.{or_else, latest_run, first_status, checks_by_name-Served}
use merge_bot.Client.Checks.Keyed.{Keyed, checks_by_name-Keyed}

absent : (name : String) (m : ByName) → All (λ f. f.0 ≢ name) m → lookup name m ≡ none
unfolding lookup
absent name [] h = refl
absent name (e ∷ m) (differs, h) = ground (arith, str_eq_iff e.0 name, differs, absent name m h)

latest-values : (name : String) (m : ByName) → Keyed m → latest name (values m) ≡ lookup name m
unfolding values lookup
latest-values name [] h = refl
latest-values name (e ∷ m) (named, differ, h) = elim (Bool-cases (str_eq e.0 name)) [
  | inl same ↦
      let eq : e.0 ≡ name = (str_eq_iff e.0 name).0 same in
      let gone : lookup name m ≡ none =
        absent name m (subst (λ k. All (λ f. f.0 ≢ k) m) eq differ) in
      let kept : latest name (values m) ≡ none = latest-values name m h ∙ gone in
      let own : str_eq e.1.name name ≡ true = ap (λ s. str_eq s name) named ∙ same in
      rw (kept, own, same) refl
  | inr other ↦
      let own : str_eq e.1.name name ≡ false = ap (λ s. str_eq s name) named ∙ other in
      elim (Option-cases (lookup name m)) [
        | inl gone ↦
            let kept : latest name (values m) ≡ none = latest-values name m h ∙ gone in
            rw (kept, own, other) (sym gone)
        | inr (run, found) ↦
            let kept : latest name (values m) ≡ some run = latest-values name m h ∙ found in
            rw (kept, other) (sym found)
      ]
]

All-Permᴰ : (P : String × CheckRun → Type 0) (m n : ByName) → Permᴰ m n → All P m → All P n
All-Permᴰ P _ _ Permᴰ.nil h = tt
All-Permᴰ P _ _ (Permᴰ.cons {a} {b} {l₁} {l₂} e d) (p, h) = (subst P e p, All-Permᴰ P l₁ l₂ d h)
All-Permᴰ P _ _ (Permᴰ.swap {a} {b} {a'} {b'} {l} e f) (p, (q, h)) = (subst P f q, (subst P e p, h))
All-Permᴰ P _ _ (Permᴰ.trans {l₁} {l₂} {l₃} d e) h = All-Permᴰ P l₂ l₃ e (All-Permᴰ P l₁ l₂ d h)

Keyed-Permᴰ : (m n : ByName) → Permᴰ m n → Keyed m → Keyed n
Keyed-Permᴰ _ _ Permᴰ.nil h = tt
Keyed-Permᴰ _ _ (Permᴰ.cons {a} {b} {l₁} {l₂} e d) (named, differ, h) = (
  subst (λ x. x.1.name ≡ x.0) e named,
  subst (λ x. All (λ f. f.0 ≢ x.0) l₂) e (All-Permᴰ (λ f. f.0 ≢ a.0) l₁ l₂ d differ),
  Keyed-Permᴰ l₁ l₂ d h,
)
Keyed-Permᴰ _ _ (Permᴰ.swap {a} {b} {a'} {b'} {l} e f)
      (named, (apart, differ), (also, further, h)) =
    (
      subst (λ x. x.1.name ≡ x.0) f also,
      (
        (λ k. apart (ap (λ x. x.0) f ∙ sym k ∙ sym (ap (λ x. x.0) e))),
        subst (λ x. All (λ g. g.0 ≢ x.0) l) f further,
      ),
      (subst (λ x. x.1.name ≡ x.0) e named, subst (λ x. All (λ g. g.0 ≢ x.0) l) e differ, h),
    )
Keyed-Permᴰ _ _ (Permᴰ.trans {l₁} {l₂} {l₃} d e) h = Keyed-Permᴰ l₂ l₃ e (Keyed-Permᴰ l₁ l₂ d h)

lookup_swapped :
    (name : String) (a b : String × CheckRun) (l : ByName)
    → b.0 ≢ a.0
    → lookup name (a ∷ b ∷ l) ≡ lookup name (b ∷ a ∷ l)
unfolding lookup
lookup_swapped name a b l apart = elim (Bool-cases (str_eq a.0 name)) [
  | inl first ↦ elim (Bool-cases (str_eq b.0 name)) [
    | inl second ↦
        absurd (apart ((str_eq_iff b.0 name).0 second ∙ sym ((str_eq_iff a.0 name).0 first)))
    | inr other ↦ rw (first, other) refl
  ]
  | inr other ↦ rw other refl
]

lookup-Permᴰ : (name : String) (m n : ByName) → Permᴰ m n → Keyed m → lookup name m ≡ lookup name n
unfolding lookup
lookup-Permᴰ name _ _ Permᴰ.nil h = refl
lookup-Permᴰ name _ _ (Permᴰ.cons {a} {b} {l₁} {l₂} e d) (named, differ, h) =
    ap (λ x. lookup name (x ∷ l₁)) e
    ∙ ap (λ rest. if str_eq b.0 name then some b.1 else rest) (lookup-Permᴰ name l₁ l₂ d h)
lookup-Permᴰ name _ _ (Permᴰ.swap {a} {b} {a'} {b'} {l} e f) (named, (apart, differ), rest) =
    lookup_swapped name a b l apart
    ∙ ap (λ x. lookup name (x ∷ a ∷ l)) f
    ∙ ap (λ y. lookup name (a' ∷ y ∷ l)) e
lookup-Permᴰ name _ _ (Permᴰ.trans {l₁} {l₂} {l₃} d e) h =
    lookup-Permᴰ name l₁ l₂ d h ∙ lookup-Permᴰ name l₂ l₃ e (Keyed-Permᴰ l₁ l₂ d h)

-- A check that has completed and succeeded.
abbrev pub Passes : Option CheckRun → Type 0
Passes check =
    (run : CheckRun) × (check ≡ some run) × (run.completed ≡ true) × Succeeds run.conclusion

-- If the pages of a commit's check runs and of its legacy statuses end, then, with fuel for as many
-- rounds as there are pages, `CheckRuns` returns a list, in whatever order it visits its map; and a
-- name is green for the runner's required checks if and only if its last completed check run succeeded,
-- or it has no check run and its first legacy status is a success.
pub check_runs-Green_iff :
    (api : Api) (order : ByName → ByName) (fuel : ℕ) (ref : String)
    → ((m : ByName) → Permᴰ m (order m))
    → (runs : List RunData) (run_pages : ℕ) → Served (api.runs_page ref) 0 runs run_pages
    → run_pages ≤ fuel
    → (statuses : List StatusData) (status_pages : ℕ)
    → Served (api.statuses_page ref) 0 statuses status_pages
    → status_pages ≤ fuel
    → (listed : List CheckRun) × (check_runs api order fuel ref ≡ some (ok listed))
      × ((name : String)
          → Green listed name
            ↔ Passes (or_else (latest_run name runs) (first_status name statuses)))
unfolding check_runs
check_runs-Green_iff api order fuel ref visits runs run_pages served enough statuses status_pages
      posted enough_too =
    let (by_name, filled, held) =
      checks_by_name-Served api fuel ref runs run_pages served enough statuses status_pages posted
        enough_too in
    let keyed = checks_by_name-Keyed api fuel ref by_name filled in
    let visited = Keyed-Permᴰ by_name (order by_name) (visits by_name) keyed in
    (
      values (order by_name),
      simp (filled, check_runs),
      (λ name.
          let same : latest name (values (order by_name))
              ≡ or_else (latest_run name runs) (first_status name statuses) =
            latest-values name (order by_name) visited
            ∙ sym (lookup-Permᴰ name by_name (order by_name) (visits by_name) keyed)
            ∙ held name in
          (subst Passes same, subst Passes (sym same))),
    )
