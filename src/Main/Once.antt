-- ===== src/Main/Once.antt =====
-- main.go: the process that drives one pull request, from its arguments to its exit code.
mod Examples
use merge_bot.Base.{
  ◌≡◌, ◌⊎◌, refl, sym, ap, ◌∙◌, subst, inl, inr, true, List, Option, none, some, String, Text, ℕ,
  ◌<◌, ◌+◌, ℤ, pos, negsuc, arith, Bool-cases,
}
use merge_bot.Merge.Errors.{Error, Result, ok, err}
use merge_bot.Merge.Github.{Call}
use merge_bot.Merge.Runner.{Ending, run}
use merge_bot.Merge.Runner.Done.{Merged}
use merge_bot.Merge.Runner.Loop.{run_nil, run_ends}
use merge_bot.Main.Chains.{bind-ok, guard-ok, ok_eq}
use merge_bot.Main.Settings.{InBounds, validate-InBounds_iff}
use merge_bot.Main.Commands.{
  OnceRun, runner_of, run_once, once_defaults, only_argument, number_argument, guard, once_with,
  command_of,
}
use merge_bot.Main.{validate, split_repo, token}
use merge_bot.Main.Program.{
  Machine, Ended, error_of, poll_number, once_end, started, run_command, run_program, Exit,
  output_of, exit_of, main,
}

-- What a process that exits with code 0 has done about the pull request.
abbrev pub Landed : ℕ → Machine → OnceRun → Type 0
Landed fuel m o =
    (n : ℕ) × (o.number ≡ pos n)
    × ((o.flags.dry_run ≡ true)
        ⊎ ((round : ℕ) × (round < fuel) × Merged (runner_of o n) (m.polls round).api))

exit_of-zero :
    (output : Text) (e : Ended) (x : Exit) → exit_of output e ≡ some x → x.code ≡ 0 → e ≡ some none
exit_of-zero output none x h zero_ = absurd (ground (arith, h))
exit_of-zero output (some none) x h zero_ = refl
exit_of-zero output (some (some e)) x h zero_ = absurd (ground (arith, h, zero_))

started-none :
    {A : Type 0} (r : Result A) (end_ : A → Ended)
    → started r end_ ≡ some none
    → (a : A) × (r ≡ ok a) × (end_ a ≡ some none)
started-none (ok a) end_ h = (a, refl, h)
started-none (err e) end_ h = absurd (ground (arith, h))

error_of-none :
    (ending : Option Ending)
    → error_of ending ≡ some none
    → (calls : List Call) × (ending ≡ some (none, calls))
error_of-none none h = absurd (ground (arith, h))
error_of-none (some (none, calls)) h = (calls, refl)
error_of-none (some (some e, calls)) h = absurd (ground (arith, h))

run-Landed :
    (fuel n : ℕ) (m : Machine) (o : OnceRun)
    → o.number ≡ pos n
    → error_of (run fuel (runner_of o n) m.now m.polls) ≡ some none
    → Landed fuel m o
run-Landed fuel n m o number h =
    let (calls, ends) = error_of-none (run fuel (runner_of o n) m.now m.polls) h in
    elim (Bool-cases o.flags.dry_run) [
      | inl dry ↦ (n, number, inl dry)
      | inr wet ↦ (n, number, inr (run_nil (runner_of o n) m.now fuel m.polls wet ends))
    ]

poll_number-Landed :
    (fuel : ℕ) (m : Machine) (o : OnceRun) (number : ℤ)
    → o.number ≡ number
    → poll_number fuel m o number ≡ some none
    → Landed fuel m o
poll_number-Landed fuel m o (pos n) p h = run-Landed fuel n m o p h
poll_number-Landed fuel m o (negsuc n) p h = absurd (ground (arith, h))

run_once-InBounds :
    (m : Machine) (arguments : List String) (o : OnceRun)
    → run_once m.env m.bad_number (m.parse_once arguments) ≡ ok o
    → InBounds o.flags.common
unfolding run_once
run_once-InBounds m arguments o h =
    let ((flags, others), parsed_, h1) =
      bind-ok (m.parse_once arguments (once_defaults m.env)) _ o h in
    let (u1, valid, h2) = bind-ok (guard (validate flags.common)) _ o h1 in
    let (argument, only, h3) = bind-ok (only_argument others) _ o h2 in
    let (number, read, h4) = bind-ok (number_argument m.bad_number argument) _ o h3 in
    let (repo, split, h5) = bind-ok (split_repo flags.common.repo) _ o h4 in
    let (tok, given, h6) = bind-ok (token m.env) _ o h5 in
    subst InBounds (ap (λ x. x.flags.common) (ok_eq _ o h6))
      ((validate-InBounds_iff flags.common).0 (guard-ok _ u1 valid))

run_command-Landed :
    (fuel : ℕ) (m : Machine) (arguments : List String)
    → run_command fuel m (once_with arguments) ≡ some none
    → (o : OnceRun) × (run_once m.env m.bad_number (m.parse_once arguments) ≡ ok o)
      × InBounds o.flags.common
      × Landed fuel m o
run_command-Landed fuel m arguments h =
    let (o, accepted, ends) =
      started-none (run_once m.env m.bad_number (m.parse_once arguments)) (once_end fuel m) h in
    (
      o,
      accepted,
      run_once-InBounds m arguments o accepted,
      poll_number-Landed fuel m o o.number refl ends,
    )

-- If the process that drives one pull request exits with code 0, the flags and the arguments were
-- accepted, with settings in bounds, and it was a dry run, or in one of the rounds GitHub said that the
-- pull request of the given number is merged, or agreed to a merge that was asked for.
pub main-Landed :
    (fuel : ℕ) (m : Machine) (arguments rest : List String) (x : Exit)
    → command_of arguments ≡ once_with rest
    → main fuel m arguments ≡ some x
    → x.code ≡ 0
    → (o : OnceRun) × (run_once m.env m.bad_number (m.parse_once rest) ≡ ok o)
      × InBounds o.flags.common
      × Landed fuel m o
unfolding main
main-Landed fuel m arguments rest x command h zero_ = run_command-Landed fuel m rest (
    ap (run_command fuel m) (sym command)
    ∙ exit_of-zero (output_of m (command_of arguments)) (run_program fuel m arguments) x h zero_)

exit_of-total :
    (output : Text) (e : Option Error) {ended : Ended}
    → ended ≡ some e
    → (x : Exit) × (exit_of output ended ≡ some x) × ((x.code ≡ 1) ⊎ (x.code ≡ 0))
exit_of-total output none p = (_, ap (exit_of output) p, inr refl)
exit_of-total output (some e) p = (_, ap (exit_of output) p, inl refl)

-- The process that drives one pull request ends once the clock is past the deadline in a round: if the
-- flags and the arguments were accepted and the number is not negative, it exits with code 1, or with code
-- 0; the settings are in bounds, and if the code is 0, it was a dry run, or in one of the rounds GitHub said
-- that the pull request of this number is merged, or agreed to a merge that was asked for.
pub main-Exits :
    (fuel late n : ℕ) (m : Machine) (arguments rest : List String) (o : OnceRun)
    → command_of arguments ≡ once_with rest
    → run_once m.env m.bad_number (m.parse_once rest) ≡ ok o
    → o.number ≡ pos n
    → m.now + (runner_of o n).timeout < (m.polls late).checked_at
    → late < fuel
    → InBounds o.flags.common
      × ((x : Exit) × (main fuel m arguments ≡ some x)
          × ((x.code ≡ 1) ⊎ ((x.code ≡ 0) × Landed fuel m o)))
unfolding main
main-Exits fuel late n m arguments rest o command accepted number past enough =
    let (ending, ends) = run_ends (runner_of o n) m.now late fuel m.polls past enough in
    let same : run_program fuel m arguments ≡ once_end fuel m o =
      ap (run_command fuel m) command ∙ ap (λ r. started r (once_end fuel m)) accepted in
    let result : run_program fuel m arguments ≡ some ending.0 =
      same ∙ ap (poll_number fuel m o) number ∙ ap error_of ends in
    let output = output_of m (command_of arguments) in
    let (x, exits, code) = exit_of-total output ending.0 result in
    (
      run_once-InBounds m rest o accepted,
      (
        x,
        exits,
        elim code [
          | inl bad ↦ inl bad
          | inr good ↦ inr (
            good,
            poll_number-Landed fuel m o o.number refl
                (sym same ∙ exit_of-zero output (run_program fuel m arguments) x exits good),
          )
        ],
      ),
    )
