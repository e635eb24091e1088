-- ===== src/Merge/Unstable.antt =====
-- internal/merge/runner.go: what the runner does about a pull request that GitHub reports as
-- unstable (`tryMergeUnstable`, `requiredChecksGreen`).
pub mod Green
use merge_bot.Base.{
  Bool, true, false, not, List, [], ◌∷◌, ◌++◌, Option, none, some, String, Text, codes, quote,
  lookup, insert, if◌then◌else◌,
}
use merge_bot.Merge.Errors.{Error, ok, err, wrap, sentinel, required_check_failed, errors_is}
use merge_bot.Merge.Github.{
  Github, PullRequest, CheckRun, required_call, runs_call, check_succeeded,
}
use merge_bot.Merge.Gate.{Runner, M, ◌>>=◌, pure, ask, Verdict, wait, fail, try_merge}

-- The loop that fills `byName`: a later run of a name replaces an earlier one.
unfoldable pub by_name_from : List (String × CheckRun) → List CheckRun → List (String × CheckRun)
by_name_from m [] = m
by_name_from m (run ∷ runs) = by_name_from (insert run.name run m) runs

-- What `requiredChecksGreen` returns: green, the reason to wait, the error.
abbrev pub Greens : Type 0
Greens = Bool × Text × Option Error

abbrev pub not_completed : String → Greens
not_completed name =
    (false, codes "required check " ++ quote name ++ codes " has not completed", none)

abbrev pub concluded_badly : String → CheckRun → Error
concluded_badly name run =
    wrap (codes "required check " ++ quote name ++ codes " concluded " ++ quote run.conclusion)
      (sentinel required_check_failed)

-- The loop over the required names.
unfoldable pub required_green : List (String × CheckRun) → List String → Greens
required_green by_name [] = (true, [], none)
required_green by_name (name ∷ names) =
    let rest = required_green by_name names in
    elim (lookup name by_name) [
      | none ↦ not_completed name
      | some run ↦
          if not run.completed
          then not_completed name
          else if not (check_succeeded run.conclusion)
          then (false, [], some (concluded_badly name run))
          else rest
    ]

-- With no required check configured the gate passes, and the runs are not read.
unfoldable pub green_among : Github → String → List String → M Greens
unfolding by_name_from required_green
green_among c head [] = pure (true, [], none)
green_among c head (name ∷ names) = do
  answer ← ask (c.check_runs head) (runs_call head)
  pure (elim answer [
    | err e ↦ (false, [], some e)
    | ok runs ↦ required_green (by_name_from [] runs) (name ∷ names)
  ])

unfoldable pub required_checks_green : Github → String → String → M Greens
unfolding green_among
required_checks_green c base head = do
  answer ← ask (c.required_checks base) (required_call base)
  elim answer [ err e ↦ pure (false, [], some e) | ok names ↦ green_among c head names ]

-- What `tryMergeUnstable` makes of the answer about the required checks.
unfoldable pub after_greens : Runner → Github → Greens → M Verdict
after_greens r c (green, reason, some e) =
    if errors_is e required_check_failed then pure (fail e) else pure wait
after_greens r c (green, reason, none) = if not green then pure wait else try_merge r c

unfoldable pub try_merge_unstable : Runner → Github → PullRequest → M Verdict
unfolding after_greens
try_merge_unstable r c pr =
    if r.allow_unstable
    then try_merge r c
    else (do answer ← required_checks_green c pr.base_ref pr.head_sha; after_greens r c answer)
