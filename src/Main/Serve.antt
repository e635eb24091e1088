-- ===== src/Main/Serve.antt =====
-- The daemon that `runServe` of main.go starts.
use merge_bot.Base.{
  ◌≡◌, ◌⊎◌, refl, sym, subst, ap, ◌∙◌, Bool, true, false, not, ◌||◌, none, List, arith, Bool-cases,
  inl, inr, str_eq, str_eq_iff, pos, ◌≤ℤ◌, ltb_ℤ,
}
use merge_bot.Merge.Errors.{Result, ok}
use merge_bot.Queue.Types.{Item, FileRead, missing, unreadable, unparsable, parsed, content_of}
use merge_bot.Queue.Manager.{read_error, load_error}
use merge_bot.Queue.System.Start.{DistinctFile}
use merge_bot.Queue.System.Invariant.{SystemInv}
use merge_bot.Server.Daemon.{Act, acts, acts-SystemInv}
use merge_bot.Main.{Environment, validate, split_repo, token}
use merge_bot.Main.Commands.{
  guard, demand, ServeFlags, ServeRun, Files, serve_checks, serve_defaults, config_of, has_state,
  daemon_of, queue_failure, run_serve,
}
use merge_bot.Main.Chains.{bind-ok, guard-ok, demand-ok, ok_eq}
use merge_bot.Main.Settings.{InBounds, validate-InBounds_iff}

-- The flags that `runServe` accepts.
abbrev pub Servable : ServeFlags → Type 0
Servable flags =
    InBounds flags.common
    × (pos 1 ≤ℤ flags.concurrency)
    × (pos 0 ≤ℤ flags.recheck)
    × ((flags.merge_mode ≡ "self") ⊎ (flags.merge_mode ≡ "merge-queue"))

serve_checks-ok :
    (flags : ServeFlags) (u : Unit {0})
    → serve_checks flags ≡ ok u
    → (pos 1 ≤ℤ flags.concurrency)
      × (pos 0 ≤ℤ flags.recheck)
      × ((flags.merge_mode ≡ "self") ⊎ (flags.merge_mode ≡ "merge-queue"))
unfolding serve_checks
serve_checks-ok flags u h =
    let enough : Bool = not (ltb_ℤ flags.concurrency (pos 1)) in
    let sound : Bool = not (ltb_ℤ flags.recheck (pos 0)) in
    let (u1, concurrency, rest) = bind-ok (demand enough _) _ u h in
    let (u2, recheck, mode) = bind-ok (demand sound _) _ u rest in
    let one : enough ≡ true = demand-ok enough _ u1 concurrency in
    let none_negative : sound ≡ true = demand-ok sound _ u2 recheck in
    let known : str_eq flags.merge_mode "self" || str_eq flags.merge_mode "merge-queue" ≡ true =
      demand-ok _ _ u mode in
    (
      ground (arith, one),
      ground (arith, none_negative),
      ground (
        arith,
        known,
        str_eq_iff flags.merge_mode "self",
        str_eq_iff flags.merge_mode "merge-queue",
      ),
    )

-- The state file can be loaded: it has no path, is not there, or could be read and parsed.
abbrev pub Loadable : Files → ServeFlags → Type 0
Loadable files flags =
    (has_state flags ≡ false)
    ⊎ (files.queue_file ≡ missing)
    ⊎ ((items : List Item) × (files.queue_file ≡ parsed items))

Loadable-queue_failure :
    (files : Files) (flags : ServeFlags) → queue_failure files flags ≡ none → Loadable files flags
unfolding load_error
Loadable-queue_failure files flags h = elim (Bool-cases (has_state flags)) [
  | inr pathless ↦ inl pathless
  | inl path ↦ inr (read_cases files.queue_file (ground (arith, path, h)))
]
  where
    read_cases :
        (read : FileRead (List Item))
        → read_error read ≡ none
        → (read ≡ missing) ⊎ ((items : List Item) × (read ≡ parsed items))
    read_cases missing e = inl refl
    read_cases (unreadable x) e = absurd (ground (arith, e))
    read_cases (unparsable x) e = absurd (ground (arith, e))
    read_cases (parsed items) e = inr (items, refl)

run_serve-Servable :
    (env : Environment) (files : Files) (parse : ServeFlags → Result ServeFlags) (r : ServeRun)
    → run_serve env files parse ≡ ok r
    → Servable r.flags × Loadable files r.flags × (r.daemon ≡ daemon_of files r.flags)
unfolding run_serve
run_serve-Servable env files parse r h =
    let (flags, set_, h1) = bind-ok (parse (serve_defaults env)) _ r h in
    let (u1, valid, h2) = bind-ok (guard (validate flags.common)) _ r h1 in
    let (u2, checked, h3) = bind-ok (serve_checks flags) _ r h2 in
    let (repo, split, h4) = bind-ok (split_repo flags.common.repo) _ r h3 in
    let (tok, given, h5) = bind-ok (token env) _ r h4 in
    let (u3, loaded, h6) = bind-ok (guard (queue_failure files flags)) _ r h5 in
    let bounds = (validate-InBounds_iff flags.common).0 (guard-ok _ u1 valid) in
    let (enough, sound, known) = serve_checks-ok flags u2 checked in
    let made = ok_eq _ r h6 in
    (
      subst Servable (ap (λ x. x.flags) made) (bounds, enough, sound, known),
      subst (Loadable files) (ap (λ x. x.flags) made)
          (Loadable-queue_failure files flags (guard-ok _ u3 loaded)),
      sym (ap (λ x. x.daemon) made) ∙ ap (daemon_of files) (ap (λ x. x.flags) made),
    )

-- If `runServe` starts a daemon over a state file with distinct numbers, its settings are in bounds, it
-- has one worker at least and a known mode, and its state file has no path, is not there, or could be
-- read and parsed; and whatever requests arrive and however they interleave
-- with the goroutines, no number stands twice in its queue, every active item has a worker, and there are
-- at most as many workers as the concurrency allows.
pub run_serve-SystemInv :
    (env : Environment) (files : Files) (parse : ServeFlags → Result ServeFlags) (r : ServeRun)
    → DistinctFile (content_of files.queue_file)
    → run_serve env files parse ≡ ok r
    → Servable r.flags
      × Loadable files r.flags
      × ((served : List Act) → SystemInv (acts r.daemon served).system)
run_serve-SystemInv env files parse r distinct h =
    let (servable, loadable, made) = run_serve-Servable env files parse r h in
    (
      servable,
      loadable,
      (λ served.
          acts-SystemInv (config_of r.flags) (has_state r.flags) (content_of files.queue_file)
            r.daemon served distinct (ap (λ d. d.system) made)),
    )
