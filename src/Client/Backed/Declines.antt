-- ===== src/Client/Backed/Declines.antt =====
-- One pull request on its way through the program: shown by the dashboard (internal/review/dashboard.go),
-- driven by a worker (internal/queue/manager.go) with the runner (internal/merge/runner.go), both over
-- the client of internal/ghclient/client.go.
use mathlib.Core.List.{Perm}
use mathlib.Core.Option.{some-injective}
use merge_bot.Base.{
  ℕ, suc, ◌+◌, ◌≡◌, refl, sym, ap, ◌∙◌, subst, inl, inr, true, false, List, Option, none, some,
  arith, String, str_eq, Text,
}
use merge_bot.Merge.Errors.{
  Error, Sentinel, Result, ok, errors_is, sentinel_eq, required_check_failed,
}
use merge_bot.Merge.Github.{Github, PullRequest, CheckRun, count_checks}
use merge_bot.Merge.Github.Counting.{no_pending, a_failure, count_checks_failed}
use merge_bot.Merge.Gate.{Runner, M, Verdict}
use merge_bot.Merge.Blocked.{handle_blocked}
use merge_bot.Merge.Blocked.Lanes.{
  UnderApproved, error_is, handle_blocked-Lands, approved, fresh_failure,
}
use merge_bot.Merge.Runner.{step, inspect, dispatch, Ending, Poll, after_step, run_from, run}
use merge_bot.Review.{Pull, failed, Fetcher, Dashboard, entry_for}
use merge_bot.Review.Dead.{Dead, Over, ShownIn, entry_for-Dead}
use merge_bot.Client.{Api, pull_state, get_pull_request, behind_by}
use merge_bot.Client.Checks.{ByName, values, checks_by_name, listed_runs, check_runs}
use merge_bot.Client.Checks.Unordered.{values_counted}
use merge_bot.Client.Backed.{Backs, Feeds}
use merge_bot.Client.Backed.Checked.{listed_ok}
use merge_bot.Queue.Types.{Phase, active, Item, Config}
use merge_bot.Queue.Process.{Drive, drive, self_runner, settled, settle, settle_error}

-- A chain of errors ends in one sentinel at most.
one_sentinel : (e : Error) (s t : Sentinel) → errors_is e s ≡ true → errors_is e t ≡ sentinel_eq s t
unfolding errors_is
one_sentinel (Error.sentinel x) s t h = ground arith
one_sentinel (Error.rate_limit m) s t h = absurd (ground arith)
one_sentinel (Error.abuse_rate_limit m) s t h = absurd (ground arith)
one_sentinel (Error.error_response c m) s t h = absurd (ground arith)
one_sentinel Error.accepted s t h = absurd (ground arith)
one_sentinel (Error.plain m) s t h = absurd (ground arith)
one_sentinel (Error.wrap m e) s t h = one_sentinel e s t h

pub settled-failed :
    (now : ℕ) (e : Error) (it : Item)
    → it.phase ≡ active
    → errors_is e required_check_failed ≡ true
    → (settled now (some e) it).phase ≡ Phase.failed
unfolding settled settle settle_error
settled-failed now e it a h = ground (
  arith,
  one_sentinel e required_check_failed Sentinel.canceled h,
  one_sentinel e required_check_failed Sentinel.conflicts h,
  one_sentinel e required_check_failed Sentinel.insufficient_approvals h,
)

ok_eq : (a b : List CheckRun) → ok a ≡ ok b → a ≡ b
ok_eq a b h = cc

-- The checks are over in whatever order they are listed from the map.
Over-listed :
    (order again : ByName → ByName)
    → ((m : ByName) → Perm (order m) m)
    → ((m : ByName) → Perm (again m) m)
    → (api : Api) (fuel : ℕ) (ref : String) (runs : List CheckRun) (x : Result (List CheckRun))
    → check_runs api order fuel ref ≡ some (ok runs)
    → check_runs api again fuel ref ≡ some x
    → Over runs
    → (others : List CheckRun) × (x ≡ ok others) × Over others
unfolding check_runs
Over-listed order again p q api fuel ref runs x one other over =
    let (m, filled) = listed_ok api order fuel ref (checks_by_name api fuel ref) runs one in
    let first : runs ≡ values (order m) =
      ok_eq runs (values (order m))
        (some-injective _ _ (sym one ∙ ap (listed_runs order) filled)) in
    let counted : count_checks (values (again m)) ≡ count_checks runs =
      values_counted (again m) m (q m)
      ∙ sym (values_counted (order m) m (p m))
      ∙ ap count_checks (sym first) in
    (
      values (again m),
      some-injective _ _ (sym other ∙ ap (listed_runs again) filled),
      count_checks_failed (values (again m)) (ap (λ n. n.0) counted ∙ no_pending runs over.0)
          (rw counted (a_failure runs over.1)),
    )

-- What a worker meets in its first round: an open pull request, answered by the client.
pub record FirstLook (api : Api) (order : ByName → ByName) (fuel : ℕ) (n : ℕ) (c : Github)
    : Type 0 where
  pub backs : Backs api order fuel c
  pub pr : PullRequest
  pub read : api.get_pull n ≡ ok pr
  pub not_merged : pr.merged ≡ false
  pub is_open : pr.state ≡ "open"
  pub not_draft : pr.draft ≡ false

-- What the dashboard found, as the runner finds it.
module _ (api : Api) (full_name : Text) (order again : ByName → ByName)
    (p : (m : ByName) → Perm (order m) m) (q : (m : ByName) → Perm (again m) m) (fuel n : ℕ)
    (d : Dashboard) (f : Fetcher) (feeds : Feeds api full_name order fuel f) (r : Runner)
    (c : Github) (numbered : r.number ≡ n) (bound : r.min_approvals ≡ d.min_approvals)
    (look : FirstLook api again fuel n c) (dead : Dead d f n) where
  -- The dashboard read the same pull request.
  same_pull :
      (look.pr.mergeable_state ≡ "blocked")
      × (dead.base ≡ look.pr.base_ref)
      × (dead.head ≡ look.pr.head_sha)
  unfolding pull_state
  same_pull = ground (arith, dead.stuck, feeds.states n, look.read)

  declined_again : error_is required_check_failed (handle_blocked r c look.pr).0.1 ≡ true
  unfolding behind_by
  declined_again =
      let (_, base, head) = same_pull in
      let (runs, listed, over) =
        Over-listed order again p q api fuel dead.head dead.runs (c.check_runs dead.head)
          (feeds.runs dead.head ∙ ap some dead.checked) (look.backs.runs dead.head) dead.over in
      let status_read : c.review_status r.number ≡ ok dead.status =
        ap c.review_status numbered
        ∙ look.backs.reviews n
        ∙ sym (feeds.reviews n)
        ∙ dead.reviewed in
      let behind_read : c.behind_by look.pr.base_ref look.pr.head_sha ≡ ok 0 =
        subst (λ b. c.behind_by b look.pr.head_sha ≡ ok 0) base
          (subst (λ h. c.behind_by dead.base h ≡ ok 0) head
            (look.backs.compared dead.base dead.head
              ∙ sym (feeds.compared dead.base dead.head)
              ∙ dead.current)) in
      let content : ¬ UnderApproved r dead.status = (λ u. elim u [
        | inl required ↦ dead.agreed.2 required
        | inr few ↦ absurd (omega (arith, few, dead.agreed.0, bound))
      ]) in
      handle_blocked-Lands r c look.pr (
        fresh_failure runs (approved dead.status status_read content)
          (subst (λ h. c.check_runs h ≡ ok runs) head listed) over.0 over.1 behind_read)

  step_declined : error_is required_check_failed (step r c).0.1 ≡ true
  unfolding step inspect dispatch get_pull_request
  step_declined =
      let read : c.get_pull_request r.number ≡ ok look.pr =
        ap c.get_pull_request numbered ∙ look.backs.pulls n ∙ look.read in
      simp (read, step, look.not_merged, look.is_open, look.not_draft, same_pull.0) declined_again

failed_with :
    (v : Option Error)
    → error_is required_check_failed v ≡ true
    → (e : Error) × (v ≡ some e) × (errors_is e required_check_failed ≡ true)
failed_with none h = absurd (ground arith)
failed_with (some e) h = (e, refl, h)

after_failed :
    (r : Runner) (deadline : ℕ) (poll : Poll) (m : M Verdict) (rest : Option Ending) (e : Error)
    → m.0.1 ≡ some e
    → after_step r deadline poll m rest ≡ some (some e, m.1)
unfolding after_step
after_failed r deadline poll ((finished, some x), calls) rest e h = ground arith
after_failed r deadline poll ((finished, none), calls) rest e h = absurd (ground arith)

pub drive_failed :
    (cfg : Config) (n steps : ℕ) (w : Drive) (e : Error)
    → str_eq cfg.merge_mode "merge-queue" ≡ false
    → (step (self_runner cfg n) (w.polls 0).api).0.1 ≡ some e
    → drive (suc steps) cfg n w ≡ some (some e)
unfolding drive run
drive_failed cfg n steps w e self failed_so =
    let r : Runner = self_runner cfg n in
    let deadline : ℕ = w.started + r.timeout in
    let ended =
      after_failed r deadline (w.polls 0) (step r (w.polls 0).api)
        (run_from steps r deadline w.polls 1) e failed_so in
    simp (self, ended)

-- If the dashboard shows a pull request as failed, and a worker of the self mode starts on it with the
-- same answers of the API (the pull request being open, no draft and not merged), then, in whatever
-- orders the two visit the map of the checks, the worker's first round is its last: `drive` returns an
-- error for which the item, active until then, is recorded as failed.
pub shown_failed-parks :
    (api : Api) (full_name : Text) (order again : ByName → ByName)
    → ((m : ByName) → Perm (order m) m)
    → ((m : ByName) → Perm (again m) m)
    → (fuel : ℕ) (d : Dashboard) (f : Fetcher) → Feeds api full_name order fuel f
    → (refreshed_at : ℕ) (pull : Pull) → ShownIn failed (entry_for d f refreshed_at pull)
    → (cfg : Config) (it : Item) (w : Drive) → cfg.min_approvals ≡ d.min_approvals
    → str_eq cfg.merge_mode "merge-queue" ≡ false
    → pull.number ≡ it.number
    → it.phase ≡ active
    → FirstLook api again fuel it.number (w.polls 0).api
    → (now steps : ℕ)
    → (e : Error) × (drive (suc steps) cfg it.number w ≡ some (some e))
      × ((settled now (some e) it).phase ≡ Phase.failed)
unfolding self_runner
shown_failed-parks api full_name order again p q fuel d f feeds refreshed_at pull shown cfg it w
      bound self same a look now steps =
    let dead : Dead d f it.number =
      subst (Dead d f) same (entry_for-Dead d f refreshed_at pull shown) in
    let declined =
      step_declined api full_name order again p q fuel it.number d f feeds
        (self_runner cfg it.number) (w.polls 0).api refl bound look dead in
    let (e, failed_so, kind) =
      failed_with (step (self_runner cfg it.number) (w.polls 0).api).0.1 declined in
    (e, drive_failed cfg it.number steps w e self failed_so, settled-failed now e it a kind)
