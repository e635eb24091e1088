-- ===== src/Merge/Runner/Done.antt =====
-- The inspections of internal/merge/runner.go that are done.
use merge_bot.Base.{
  ◌≡◌, ◌⊎◌, inl, inr, true, false, none, some, arith, str_eq_iff, Bool-cases, Option-cases,
}
use merge_bot.Merge.Errors.{ok, Result-cases}
use merge_bot.Merge.Github.{Github, PullRequest}
use merge_bot.Merge.Gate.{Runner, try_merge, update}
use merge_bot.Merge.Gate.Clears.{Merges, try_merge-Merges}
use merge_bot.Merge.Unstable.{Greens, required_checks_green, after_greens, try_merge_unstable}
use merge_bot.Merge.Unstable.Green.{ChecksClear, required_checks_green-RequiredGreen}
use merge_bot.Merge.Blocked.{blocked_by_failed, blocked_by_checks, handle_blocked}
use merge_bot.Merge.Runner.{dispatch, inspect, step}
use merge_bot.Merge.Runner.Safety.{StateClears, step-Merges_iff}

-- GitHub says that the pull request is merged, or it was asked to merge it and agreed.
abbrev pub Merged : Runner → Github → Type 0
Merged r c =
    ((pr : PullRequest) × (c.get_pull_request r.number ≡ ok pr) × (pr.merged ≡ true))
    ⊎ (Merges r (step r c).1 × (c.merge r.number r.merge_method ≡ none))

try_merge_done :
    (r : Runner) (c : Github)
    → r.dry_run ≡ false
    → (try_merge r c).0.0 ≡ true
    → Merges r (try_merge r c).1 × (c.merge r.number r.merge_method ≡ none)
unfolding try_merge
try_merge_done r c d h = elim (Option-cases (c.merge r.number r.merge_method)) [
  | inl agreed ↦ (ground arith, agreed)
  | inr (x, refused) ↦ absurd (ground arith)
]

not_done-handle_blocked :
    (r : Runner) (c : Github) (pr : PullRequest) → (handle_blocked r c pr).0.0 ≡ false
unfolding handle_blocked blocked_by_checks blocked_by_failed
not_done-handle_blocked r c pr = ground arith

after_greens_done :
    (r : Runner) (c : Github) (g : Greens)
    → (after_greens r c g).0.0 ≡ true
    → (g.0 ≡ true) × ((try_merge r c).0.0 ≡ true)
unfolding after_greens
after_greens_done r c (green, reason, none) h = ground arith
after_greens_done r c (green, reason, some e) h = absurd (ground arith)

try_merge_unstable_done :
    (r : Runner) (c : Github) (pr : PullRequest)
    → (try_merge_unstable r c pr).0.0 ≡ true
    → ChecksClear r c pr × ((try_merge r c).0.0 ≡ true)
unfolding try_merge_unstable
try_merge_unstable_done r c pr h = elim (Bool-cases r.allow_unstable) [
  | inl off ↦ (inl off, simp off at h)
  | inr on ↦
      let (green, finished) =
        after_greens_done r c (required_checks_green c pr.base_ref pr.head_sha).0 (simp on at h) in
      (inr (required_checks_green-RequiredGreen c pr green), finished)
]

dispatch_done :
    (r : Runner) (c : Github) (pr : PullRequest)
    → (dispatch r c pr).0.0 ≡ true
    → StateClears r c pr × ((try_merge r c).0.0 ≡ true)
unfolding dispatch update
dispatch_done r c pr h = ground (
  arith,
  str_eq_iff pr.mergeable_state "clean",
  str_eq_iff pr.mergeable_state "has_hooks",
  str_eq_iff pr.mergeable_state "unstable",
  try_merge_unstable_done r c pr,
  not_done-handle_blocked r c pr,
)

open_done :
    (r : Runner) (c : Github) (pr : PullRequest)
    → pr.merged ≡ false
    → (inspect r c pr).0.0 ≡ true
    → (pr.state ≡ "open") × (pr.draft ≡ false) × ((dispatch r c pr).0.0 ≡ true)
unfolding inspect
open_done r c pr m h = ground (arith, str_eq_iff pr.state "open")

-- Outside a dry run an inspection is done only if the pull request is merged.
pub step_done : (r : Runner) (c : Github) → r.dry_run ≡ false → (step r c).0.0 ≡ true → Merged r c
unfolding step
step_done r c d h = elim (Result-cases (c.get_pull_request r.number)) [
  | inl (pr, e) ↦ elim (Bool-cases pr.merged) [
    | inl m ↦ inl (pr, e, m)
    | inr m ↦
        let (o, n, k) = open_done r c pr m (ground arith) in
        let (s, t) = dispatch_done r c pr k in
        let (merges, agreed) = try_merge_done r c d t in
        inr (
          (step-Merges_iff r c).1 (record {
            pr = pr;
            read = e;
            not_merged = m;
            is_open = o;
            not_draft = n;
            state_clears = s;
            review_clears = (try_merge-Merges r c merges).1;
            not_dry = d;
          }),
          agreed,
        )
  ]
  | inr (x, e) ↦ absurd (ground arith)
]
