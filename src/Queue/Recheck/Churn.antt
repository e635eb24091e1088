-- ===== src/Queue/Recheck/Churn.antt =====
-- The background re-check of internal/queue/manager.go and the runner of internal/merge/runner.go on a pull
-- request that failed for a required check and is unstable.
use merge_bot.Base.{
  ℕ, suc, ◌≡◌, refl, ap, ◌∙◌, true, false, List, [], ◌∷◌, ◌++◌, some, All, arith, String, str_eq,
  codes,
}
use merge_bot.Merge.Errors.{Error, ok, errors_is}
use merge_bot.Merge.Github.{Github, PullRequest, CheckRun, check_succeeded}
use merge_bot.Merge.Gate.{Runner}
use merge_bot.Merge.Unstable.{
  by_name_from, required_green, required_checks_green, green_among, try_merge_unstable,
  concluded_badly, after_greens,
}
use merge_bot.Merge.Unstable.Green.{latest, Green, lookup-by_name, check_succeeded-Succeeds}
use merge_bot.Merge.Runner.{step, inspect, dispatch}
use merge_bot.Client.Backed.Declines.{settled-failed, drive_failed}
use merge_bot.Queue.Types.{queued, failed, Item, Manager}
use merge_bot.Queue.Manager.{requeued, claimed}
use merge_bot.Queue.Manager.Lookup.{item_of}
use merge_bot.Queue.Process.{Drive, drive, self_runner, settled}
use merge_bot.Queue.Recheck.{World, recheck_parked, checks_recovered}
use merge_bot.Queue.Recheck.Exact.{recheck_parked-failed}

-- Of the required checks, those before one are green, and its last run has completed without success.
pub record Red (runs : List CheckRun) (names : List String) : Type 0 where
  pub before : List String
  pub name : String
  pub later : List String
  pub listed : names ≡ before ++ name ∷ later
  pub greens : All (Green runs) before
  pub run : CheckRun
  pub last : latest name runs ≡ some run
  pub completed : run.completed ≡ true
  pub bad : check_succeeded run.conclusion ≡ false

required_green-Red :
    (runs : List CheckRun) (before later : List String) (name : String) (run : CheckRun)
    → All (Green runs) before
    → latest name runs ≡ some run
    → run.completed ≡ true
    → check_succeeded run.conclusion ≡ false
    → required_green (by_name_from [] runs) (before ++ name ∷ later)
      ≡ (false, [], some (concluded_badly name run))
unfolding required_green
required_green-Red runs [] later name run greens last done bad =
    ground (arith, lookup-by_name name runs, last, done, bad)
required_green-Red runs (x ∷ before) later name run ((green, e, c, s), greens) last done bad =
    ground (
      arith,
      lookup-by_name x runs,
      check_succeeded-Succeeds green.conclusion s,
      required_green-Red runs before later name run greens last done bad,
    )

-- What a worker meets in its first round: the open pull request is unstable, and a required check is red.
pub record Unstable (c : Github) (n : ℕ) (pr : PullRequest) : Type 0 where
  pub read : c.get_pull_request n ≡ ok pr
  pub state : pr.mergeable_state ≡ "unstable"
  pub not_merged : pr.merged ≡ false
  pub is_open : pr.state ≡ "open"
  pub not_draft : pr.draft ≡ false
  pub names : List String
  pub required : c.required_checks pr.base_ref ≡ ok names
  pub runs : List CheckRun
  pub checked : c.check_runs pr.head_sha ≡ ok runs
  pub red : Red runs names

module _ (r : Runner) (c : Github) (pr : PullRequest) (u : Unstable c r.number pr)
    (strict : r.allow_unstable ≡ false) where
  abbrev verdict : Error
  verdict = concluded_badly u.red.name u.red.run

  greens_red :
      (names : List String)
      → required_green (by_name_from [] u.runs) names ≡ (false, [], some verdict)
      → (green_among c pr.head_sha names).0 ≡ (false, [], some verdict)
  unfolding green_among required_green
  greens_red [] h = absurd (ground (arith, h))
  greens_red (x ∷ names) h = simp (u.checked) h

  required_red : (required_checks_green c pr.base_ref pr.head_sha).0 ≡ (false, [], some verdict)
  unfolding required_checks_green
  required_red = rw (u.required) (
      greens_red u.names (
        ap (required_green (by_name_from [] u.runs)) u.red.listed
        ∙ required_green-Red u.runs u.red.before u.red.later u.red.name u.red.run u.red.greens
            u.red.last u.red.completed u.red.bad))

  after_red : (after_greens r c (false, [], some verdict)).0.1 ≡ some verdict
  unfolding after_greens errors_is
  after_red = refl

  merge_red : (try_merge_unstable r c pr).0.1 ≡ some verdict
  unfolding try_merge_unstable
  merge_red = simp strict (ap (λ x. (after_greens r c x).0.1) required_red ∙ after_red)

  step_red : (step r c).0.1 ≡ some verdict
  unfolding step inspect dispatch
  step_red = simp (u.read, step, u.not_merged, u.is_open, u.not_draft, u.state) merge_red

-- A failed pull request is requeued by a re-check although it will fail again: in self mode and with
-- allow-unstable off, if a re-check, with its context alive and no other goroutine at work, reads it as
-- unstable, it puts it back into the queue; and if in the first round of the worker that takes it, it is
-- unstable, open and no draft, with the last run of a required check completed without success and those of
-- the required checks before it green, then `drive` returns an error for which it is recorded as failed
-- again.
pub recheck_parked-fails_again :
    (w : World) (m : Manager) (it : Item) (seen pr : PullRequest) (d : Drive)
    → ((n : ℕ) (x : Manager) → w.meanwhile n x ≡ x)
    → ((n : ℕ) → w.is_cancelled n ≡ false)
    → str_eq m.cfg.merge_mode "merge-queue" ≡ false
    → m.cfg.allow_unstable ≡ false
    → item_of it.number m ≡ some it
    → it.phase ≡ failed
    → w.get_pull_request it.number ≡ ok seen
    → seen.mergeable_state ≡ "unstable"
    → Unstable (d.polls 0).api it.number pr
    → (taken_at settled_at steps : ℕ)
    → (back : Item) × (item_of it.number (recheck_parked w m) ≡ some back)
      × (back.phase ≡ queued)
      × ((e : Error) × (drive (suc steps) m.cfg it.number d ≡ some (some e))
          × ((settled settled_at (some e) (claimed taken_at back)).phase ≡ failed))
unfolding checks_recovered self_runner errors_is
recheck_parked-fails_again w m it seen pr d quiet alive self strict h phased read state u taken_at
      settled_at steps =
    let message = codes "checks recovered; back in queue" in
    let back = requeued (w.io it.number).now message it in
    let r = self_runner m.cfg it.number in
    let e = concluded_badly u.red.name u.red.run in
    (
      back,
      recheck_parked-failed w quiet alive it.number m it h phased ∙ simp (self, read, state) refl,
      refl,
      (
        e,
        drive_failed m.cfg it.number steps d e self (step_red r (d.polls 0).api pr u strict),
        settled-failed settled_at e (claimed taken_at back) refl refl,
      ),
    )
