-- ===== src/Merge/Runner/Safety.antt =====
-- The merges that one inspection by internal/merge/runner.go asks for.
use merge_bot.Base.{◌≡◌, ◌↔◌, ◌⊎◌, inl, inr, false, arith, str_eq_iff}
use merge_bot.Merge.Errors.{ok, Result-cases}
use merge_bot.Merge.Github.{Github, PullRequest}
use merge_bot.Merge.Gate.{Runner, try_merge}
use merge_bot.Merge.Gate.Clears.{Merges, ReviewClears, try_merge-Merges, Merges-try_merge}
use merge_bot.Merge.Unstable.Green.{
  ChecksClear, try_merge_unstable-Merges, Merges-try_merge_unstable,
}
use merge_bot.Merge.Blocked.Reads.{not-Merges-update_and_wait, not-Merges-handle_blocked}
use merge_bot.Merge.Runner.{dispatch, inspect, step}

-- The mergeable_state allows a merge.
abbrev pub StateClears : Runner → Github → PullRequest → Type 0
StateClears r c pr =
    (pr.mergeable_state ≡ "clean")
    ⊎ (pr.mergeable_state ≡ "has_hooks")
    ⊎ ((pr.mergeable_state ≡ "unstable") × ChecksClear r c pr)

pub record MayMerge (r : Runner) (c : Github) : Type 0 where
  pub pr : PullRequest
  pub read : c.get_pull_request r.number ≡ ok pr
  pub not_merged : pr.merged ≡ false
  pub is_open : pr.state ≡ "open"
  pub not_draft : pr.draft ≡ false
  pub state_clears : StateClears r c pr
  pub review_clears : ReviewClears r c
  pub not_dry : r.dry_run ≡ false

dispatch-Merges :
    (r : Runner) (c : Github) (pr : PullRequest)
    → Merges r (dispatch r c pr).1
    → StateClears r c pr × Merges r (try_merge r c).1
unfolding dispatch
dispatch-Merges r c pr h = ground (
  arith,
  str_eq_iff pr.mergeable_state "clean",
  str_eq_iff pr.mergeable_state "has_hooks",
  str_eq_iff pr.mergeable_state "unstable",
  try_merge_unstable-Merges r c pr,
  not-Merges-update_and_wait r c pr.head_sha,
  not-Merges-handle_blocked r c pr,
)

Merges-dispatch :
    (r : Runner) (c : Github) (pr : PullRequest)
    → StateClears r c pr
    → Merges r (try_merge r c).1
    → Merges r (dispatch r c pr).1
unfolding dispatch
Merges-dispatch r c pr s h = ground (
  arith,
  str_eq_iff pr.mergeable_state "clean",
  str_eq_iff pr.mergeable_state "has_hooks",
  str_eq_iff pr.mergeable_state "unstable",
  Merges-try_merge_unstable r c pr,
)

inspect-Merges :
    (r : Runner) (c : Github) (pr : PullRequest)
    → Merges r (inspect r c pr).1
    → (pr.merged ≡ false) × (pr.state ≡ "open") × (pr.draft ≡ false) × Merges r (dispatch r c pr).1
unfolding inspect
inspect-Merges r c pr h = ground (arith, str_eq_iff pr.state "open")

Merges-inspect :
    (r : Runner) (c : Github) (pr : PullRequest)
    → pr.merged ≡ false
    → pr.state ≡ "open"
    → pr.draft ≡ false
    → Merges r (dispatch r c pr).1
    → Merges r (inspect r c pr).1
unfolding inspect
Merges-inspect r c pr m o d h = ground (arith, str_eq_iff pr.state "open")

step-MayMerge : (r : Runner) (c : Github) → Merges r (step r c).1 → MayMerge r c
unfolding step
step-MayMerge r c h = elim (Result-cases (c.get_pull_request r.number)) [
  | inl (pr, e) ↦
      let (m, o, d, k) = inspect-Merges r c pr (ground arith) in
      let (s, t) = dispatch-Merges r c pr k in
      let (dry, review) = try_merge-Merges r c t in
      record {
        pr = pr;
        read = e;
        not_merged = m;
        is_open = o;
        not_draft = d;
        state_clears = s;
        review_clears = review;
        not_dry = dry;
      }
  | inr (x, e) ↦ absurd (ground arith)
]

MayMerge-step : (r : Runner) (c : Github) → MayMerge r c → Merges r (step r c).1
unfolding step
MayMerge-step r c h =
    let t = Merges-try_merge r c h.not_dry h.review_clears in
    let d = Merges-dispatch r c h.pr h.state_clears t in
    rw (h.read, step) (inr (Merges-inspect r c h.pr h.not_merged h.is_open h.not_draft d))

-- An inspection asks GitHub for a merge if and only if the pull request was read, is open, not a
-- draft and not merged yet, its state is clean, has_hooks, or unstable with the last run of every
-- required check ended well (or unstable is allowed), the review gate is passed (or off), and it is
-- no dry run.
pub step-Merges_iff : (r : Runner) (c : Github) → Merges r (step r c).1 ↔ MayMerge r c
step-Merges_iff r c = (step-MayMerge r c, MayMerge-step r c)
