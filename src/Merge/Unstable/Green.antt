-- ===== src/Merge/Unstable/Green.antt =====
-- When the required-checks gate of internal/merge/runner.go lets an unstable pull request through.
use merge_bot.Base.{
  ◌≡◌, ◌⊎◌, inl, inr, refl, true, false, Option, none, some, List, [], ◌∷◌, arith, All,
  Any-append_cases, Any-append_right, ◌++◌, String, str_eq, str_eq_iff, Bool-cases, Option-cases,
  lookup, insert, lookup-insert, if◌then◌else◌,
}
use merge_bot.Merge.Errors.{ok, Result-cases}
use merge_bot.Merge.Github.{Github, PullRequest, CheckRun, check_succeeded}
use merge_bot.Merge.Gate.{Runner, try_merge}
use merge_bot.Merge.Gate.Clears.{Merges}
use merge_bot.Merge.Unstable.{
  Greens, by_name_from, required_green, required_checks_green, after_greens, try_merge_unstable,
}

-- The last run of a name, read from the end of the list.
abbrev pub latest : String → List CheckRun → Option CheckRun
latest name [] = none
latest name (run ∷ runs) = elim (latest name runs) [
  | some later ↦ some later
  | none ↦ if str_eq run.name name then some run else none
]

abbrev or_else : Option CheckRun → Option CheckRun → Option CheckRun
or_else none o = o
or_else (some run) o = some run

lookup-by_name_from :
    (name : String) (m : List (String × CheckRun)) (runs : List CheckRun)
    → lookup name (by_name_from m runs) ≡ or_else (latest name runs) (lookup name m)
unfolding by_name_from
lookup-by_name_from name m [] = refl
lookup-by_name_from name m (run ∷ runs) = ground (
  arith,
  lookup-by_name_from name (insert run.name run m) runs,
  lookup-insert name run.name run m,
)

-- The map that the code builds holds the last run of each name.
pub lookup-by_name :
    (name : String) (runs : List CheckRun) → lookup name (by_name_from [] runs) ≡ latest name runs
unfolding lookup
lookup-by_name name runs = ground (arith, lookup-by_name_from name [] runs)

abbrev pub Succeeds : String → Type 0
Succeeds conclusion = (conclusion ≡ "success") ⊎ (conclusion ≡ "skipped") ⊎ (conclusion ≡ "neutral")

-- The last run of the name has ended well.
abbrev pub Green : List CheckRun → String → Type 0
Green runs name =
    (run : CheckRun) × (latest name runs ≡ some run)
    × (run.completed ≡ true)
    × Succeeds run.conclusion

pub Succeeds-of_check : (s : String) → check_succeeded s ≡ true → Succeeds s
unfolding check_succeeded
Succeeds-of_check s h =
    ground (arith, str_eq_iff s "success", str_eq_iff s "skipped", str_eq_iff s "neutral")

pub check_succeeded-Succeeds : (s : String) → Succeeds s → check_succeeded s ≡ true
unfolding check_succeeded
check_succeeded-Succeeds s h =
    ground (arith, str_eq_iff s "success", str_eq_iff s "skipped", str_eq_iff s "neutral")

required_green-All :
    (runs : List CheckRun) (names : List String)
    → (required_green (by_name_from [] runs) names).0 ≡ true
    → All (Green runs) names
unfolding required_green
required_green-All runs [] h = tt
required_green-All runs (name ∷ names) h = elim (Option-cases (latest name runs)) [
  | inl e ↦ absurd (ground (arith, lookup-by_name name runs))
  | inr (run, e) ↦ (
    (
      run,
      e,
      ground (arith, lookup-by_name name runs),
      Succeeds-of_check run.conclusion (ground (arith, lookup-by_name name runs)),
    ),
    required_green-All runs names (ground (arith, lookup-by_name name runs)),
  )
]

All-required_green :
    (runs : List CheckRun) (names : List String)
    → All (Green runs) names
    → required_green (by_name_from [] runs) names ≡ (true, [], none)
unfolding required_green
All-required_green runs [] h = refl
All-required_green runs (name ∷ names) ((run, e, c, s), h) = ground (
  arith,
  lookup-by_name name runs,
  check_succeeded-Succeeds run.conclusion s,
  All-required_green runs names h,
)

-- No check is required, or the last run of every required check has ended well.
abbrev pub RequiredGreen : Github → PullRequest → Type 0
RequiredGreen c pr =
    (names : List String) × (c.required_checks pr.base_ref ≡ ok names)
    × ((names ≡ [])
        ⊎ ((runs : List CheckRun) × (c.check_runs pr.head_sha ≡ ok runs) × All (Green runs) names))

pub required_checks_green-RequiredGreen :
    (c : Github) (pr : PullRequest)
    → (required_checks_green c pr.base_ref pr.head_sha).0.0 ≡ true
    → RequiredGreen c pr
unfolding required_checks_green
required_checks_green-RequiredGreen c pr h = elim (Result-cases (c.required_checks pr.base_ref)) [
  | inl ([], e) ↦ ([], e, inl refl)
  | inl (name ∷ names, e) ↦ elim (Result-cases (c.check_runs pr.head_sha)) [
    | inl (runs, e') ↦
        (name ∷ names, e, inr (runs, e', required_green-All runs (name ∷ names) (ground arith)))
    | inr (x, e') ↦ absurd (ground arith)
  ]
  | inr (x, e) ↦ absurd (ground arith)
]

RequiredGreen-required_checks_green :
    (c : Github) (pr : PullRequest)
    → RequiredGreen c pr
    → (required_checks_green c pr.base_ref pr.head_sha).0 ≡ (true, [], none)
unfolding required_checks_green
RequiredGreen-required_checks_green c pr ([], e, h) = ground arith
RequiredGreen-required_checks_green c pr (name ∷ names, e, inl h) = absurd (cc)
RequiredGreen-required_checks_green c pr (name ∷ names, e, inr (runs, e', h)) =
    ground (arith, All-required_green runs (name ∷ names) h)

-- The required checks are not asked about, or they allow a merge.
abbrev pub ChecksClear : Runner → Github → PullRequest → Type 0
ChecksClear r c pr = (r.allow_unstable ≡ true) ⊎ RequiredGreen c pr

-- Looking at the required checks merges nothing.
not-Merges-required_checks_green :
    (r : Runner) (c : Github) (base head : String)
    → ¬ Merges r (required_checks_green c base head).1
unfolding required_checks_green
not-Merges-required_checks_green r c base head h = elim (Result-cases (c.required_checks base)) [
  | inl ([], e) ↦ ground arith
  | inl (name ∷ names, e) ↦ ground arith
  | inr (x, e) ↦ ground arith
]

after_greens-Merges :
    (r : Runner) (c : Github) (g : Greens)
    → Merges r (after_greens r c g).1
    → (g.0 ≡ true) × Merges r (try_merge r c).1
unfolding after_greens
after_greens-Merges r c (true, reason, none) h = (refl, h)
after_greens-Merges r c (false, reason, none) h = absurd h
after_greens-Merges r c (green, reason, some e) h = absurd (ground arith)

pub try_merge_unstable-Merges :
    (r : Runner) (c : Github) (pr : PullRequest)
    → Merges r (try_merge_unstable r c pr).1
    → ChecksClear r c pr × Merges r (try_merge r c).1
unfolding try_merge_unstable
try_merge_unstable-Merges r c pr h = elim (Bool-cases r.allow_unstable) [
  | inl off ↦ (inl off, simp off at h)
  | inr on ↦
      let gate = required_checks_green c pr.base_ref pr.head_sha in
      let h' : Merges r (gate.1 ++ (after_greens r c gate.0).1) = simp on at h in
      elim (Any-append_cases _ gate.1 _ h') [
        | inl k ↦ absurd (not-Merges-required_checks_green r c pr.base_ref pr.head_sha k)
        | inr k ↦
            let (green, merges) = after_greens-Merges r c gate.0 k in
            (inr (required_checks_green-RequiredGreen c pr green), merges)
      ]
]

pub Merges-try_merge_unstable :
    (r : Runner) (c : Github) (pr : PullRequest)
    → ChecksClear r c pr
    → Merges r (try_merge r c).1
    → Merges r (try_merge_unstable r c pr).1
unfolding try_merge_unstable
Merges-try_merge_unstable r c pr (inl off) h = simp off h
Merges-try_merge_unstable r c pr (inr green) h = elim (Bool-cases r.allow_unstable) [
  | inl off ↦ simp off h
  | inr on ↦
      simp (on, RequiredGreen-required_checks_green c pr green)
        (Any-append_right _ (required_checks_green c pr.base_ref pr.head_sha).1 _ h)
]
