-- ===== src/Queue/Process/Outcomes.antt =====
-- What the queue records of a pull request that a worker drove: the runners of
-- internal/merge under `drive` and `process` of internal/queue/manager.go.
use merge_bot.Base.{ℕ, suc, ◌+◌, ◌≡◌, false, List, codes, ◌++◌, Option, none, some, arith}
use merge_bot.Merge.Errors.{Error, Sentinel, ok, errors_is, sentinel, wrap}
use merge_bot.Merge.Github.{PullRequest, Call}
use merge_bot.Merge.Gate.{Runner, M, Verdict, fail, pr_text}
use merge_bot.Merge.Runner.{dispatch, inspect, step, Poll, Ending, after_step, run_from, run}
use merge_bot.Queue.Types.{Phase, active, merged, Item, Config}
use merge_bot.Queue.Process.{settle_error, settled, self_runner}

-- A pull request that was read, is open, no draft and not merged, and conflicts with its base.
pub record IsDirty (r : Runner) (poll : Poll) : Type 0 where
  pub pr : PullRequest
  pub read : poll.api.get_pull_request r.number ≡ ok pr
  pub not_merged : pr.merged ≡ false
  pub is_open : pr.state ≡ "open"
  pub not_draft : pr.draft ≡ false
  pub conflicting : pr.mergeable_state ≡ "dirty"

abbrev conflict_error : Runner → Error
conflict_error r =
    wrap (pr_text r.number ++ codes " has merge conflicts; resolve them manually")
      (sentinel Sentinel.conflicts)

step_dirty :
    (r : Runner) (poll : Poll) → IsDirty r poll → (step r poll.api).0 ≡ fail (conflict_error r)
unfolding step inspect dispatch
step_dirty r poll h = simp (h.read, step, h.not_merged, h.is_open, h.not_draft, h.conflicting)

after_step_error :
    (r : Runner) (deadline : ℕ) (poll : Poll) (m : M Verdict) (rest : Option Ending) (e : Error)
    → m.0 ≡ fail e
    → after_step r deadline poll m rest ≡ some (some e, m.1)
unfolding after_step
after_step_error r deadline poll ((finished, some x), calls) rest e h = ground arith
after_step_error r deadline poll ((finished, none), calls) rest e h = absurd (ground arith)

settled-conflict_error :
    (r : Runner) (now : ℕ) (it : Item)
    → it.phase ≡ active
    → (settled now (some (conflict_error r)) it).phase ≡ Phase.conflicts
unfolding settled settle_error errors_is
settled-conflict_error r now it a = ground arith

-- If the pull request conflicts with its base when a worker first looks at it, its run ends in that
-- round with an error, for which the item, active until then, is parked for conflicts.
pub dirty_parks :
    (cfg : Config) (it : Item) (started now fuel : ℕ) (polls : ℕ → Poll)
    → it.phase ≡ active
    → IsDirty (self_runner cfg it.number) (polls 0)
    → (e : Error) × (calls : List Call) × (run (suc fuel) (self_runner cfg it.number) started polls
        ≡ some (some e, calls))
      × ((settled now (some e) it).phase ≡ Phase.conflicts)
unfolding run
dirty_parks cfg it started now fuel polls a h =
    let r = self_runner cfg it.number in
    (
      conflict_error r,
      (step r (polls 0).api).1,
      after_step_error r (started + r.timeout) (polls 0) (step r (polls 0).api)
          (run_from fuel r (started + r.timeout) polls 1) (conflict_error r)
          (step_dirty r (polls 0) h),
      settled-conflict_error r now it a,
    )
