-- ===== src/Client/Backed/Merges.antt =====
-- The runner of internal/merge/runner.go over the client of internal/ghclient/client.go: the answers of
-- the API for which an inspection merges.
use mathlib.Core.List.{Permᴰ}
use merge_bot.Base.{
  ℕ, ◌≡◌, ◌⊎◌, ◌↔◌, refl, sym, ap, ◌∙◌, inl, inr, false, true, subst, some, List, [], String, All,
  All-mono,
}
use merge_bot.Merge.Errors.{ok}
use merge_bot.Merge.Github.{Github, PullRequest, CheckRun}
use merge_bot.Merge.Gate.{Runner}
use merge_bot.Merge.Gate.Clears.{Clears, Merges, ReviewClears}
use merge_bot.Merge.Unstable.Green.{RequiredGreen, Green}
use merge_bot.Merge.Runner.{step}
use merge_bot.Merge.Runner.Safety.{MayMerge, StateClears, step-Merges_iff}
use merge_bot.Client.{Api, ReviewData, decoded, names_of, required_checks, get_pull_request}
use merge_bot.Client.Checks.{ByName}
use merge_bot.Client.Graphql.{counted_status, review_status-counted}
use merge_bot.Client.Backed.{Backs}
use merge_bot.Client.Backed.Checked.{Commit, PassesIn, Commit-check_runs, check_runs-PassesIn}

-- The branch protection requires no check, or the pages of the commit's checks end and every required
-- one passes; a branch without protection requires none.
abbrev pub RequiredPass : Api → PullRequest → Type 0
RequiredPass api pr =
    (names : List String) × (names_of (api.required_status_checks pr.base_ref) ≡ ok names)
    × ((names ≡ []) ⊎ ((k : Commit api pr.head_sha) × All (PassesIn k) names))

abbrev pub StatePass : Runner → Api → PullRequest → Type 0
StatePass r api pr =
    (pr.mergeable_state ≡ "clean")
    ⊎ (pr.mergeable_state ≡ "has_hooks")
    ⊎ ((pr.mergeable_state ≡ "unstable") × ((r.allow_unstable ≡ true) ⊎ RequiredPass api pr))

-- The review gate is off, or the GraphQL answer could be decoded, names no error, and what it counts
-- is in order.
abbrev pub ReviewPass : Runner → Api → Type 0
ReviewPass r api =
    (r.allow_unresolved ≡ true)
    ⊎ ((data_ : ReviewData) × (api.graphql r.number ≡ decoded [] data_)
        × Clears r (counted_status data_))

-- What the API answers about a pull request that may be merged.
pub record Mergeable (r : Runner) (api : Api) : Type 0 where
  pub pr : PullRequest
  pub read : api.get_pull r.number ≡ ok pr
  pub not_merged : pr.merged ≡ false
  pub is_open : pr.state ≡ "open"
  pub not_draft : pr.draft ≡ false
  pub state_passes : StatePass r api pr
  pub review_passes : ReviewPass r api
  pub not_dry : r.dry_run ≡ false

ok_eq : (a b : List CheckRun) → ok a ≡ ok b → a ≡ b
ok_eq a b h = cc

module _ (api : Api) (order : ByName → ByName) (fuel : ℕ) (c : Github) (b : Backs api order fuel c)
    (visits : (m : ByName) → Permᴰ m (order m)) where
  required_of :
      (branch : String) → c.required_checks branch ≡ names_of (api.required_status_checks branch)
  unfolding required_checks
  required_of branch = b.required branch

  RequiredPass-RequiredGreen : (pr : PullRequest) → RequiredGreen c pr → RequiredPass api pr
  RequiredPass-RequiredGreen pr (names, answered, inl none_required) =
      (names, sym (required_of pr.base_ref) ∙ answered, inl none_required)
  RequiredPass-RequiredGreen pr (names, answered, inr (runs, listed, green)) =
      let returned = b.runs pr.head_sha ∙ ap some listed in
      let k : Commit api pr.head_sha = Commit-check_runs api order fuel pr.head_sha runs returned in
      let (runs', same, passes) =
        check_runs-PassesIn api order fuel pr.head_sha visits k (ok runs) returned in
      (
        names,
        sym (required_of pr.base_ref) ∙ answered,
        inr (
          k,
          All-mono (Green runs) (PassesIn k)
              (λ name g. (passes name).0 (subst (λ rs. Green rs name) (ok_eq runs runs' same) g))
              names green,
        ),
      )

  RequiredGreen-RequiredPass : (pr : PullRequest) → RequiredPass api pr → RequiredGreen c pr
  RequiredGreen-RequiredPass pr (names, answered, inl none_required) =
      (names, required_of pr.base_ref ∙ answered, inl none_required)
  RequiredGreen-RequiredPass pr (names, answered, inr (k, pass)) =
      let (runs, same, passes) =
        check_runs-PassesIn api order fuel pr.head_sha visits k (c.check_runs pr.head_sha)
          (b.runs pr.head_sha) in
      (
        names,
        required_of pr.base_ref ∙ answered,
        inr (runs, same, All-mono (PassesIn k) (Green runs) (λ name. (passes name).1) names pass),
      )

  ReviewPass-ReviewClears : (r : Runner) → ReviewClears r c → ReviewPass r api
  ReviewPass-ReviewClears r (inl off) = inl off
  ReviewPass-ReviewClears r (inr (s, answered, clears)) =
      let (data_, decoded_so, same) =
        (review_status-counted api r.number s).0 (sym (b.reviews r.number) ∙ answered) in
      inr (data_, decoded_so, subst (Clears r) same clears)

  ReviewClears-ReviewPass : (r : Runner) → ReviewPass r api → ReviewClears r c
  ReviewClears-ReviewPass r (inl off) = inl off
  ReviewClears-ReviewPass r (inr (data_, decoded_so, clears)) = inr (
    counted_status data_,
    b.reviews r.number
        ∙ (review_status-counted api r.number (counted_status data_)).1 (data_, decoded_so, refl),
    clears,
  )

  pull_of : (n : ℕ) → c.get_pull_request n ≡ api.get_pull n
  unfolding get_pull_request
  pull_of n = b.pulls n

  StatePass-StateClears : (r : Runner) (pr : PullRequest) → StateClears r c pr → StatePass r api pr
  StatePass-StateClears r pr (inl clean) = inl clean
  StatePass-StateClears r pr (inr (inl hooks)) = inr (inl hooks)
  StatePass-StateClears r pr (inr (inr (unstable, inl allowed))) = inr (inr (unstable, inl allowed))
  StatePass-StateClears r pr (inr (inr (unstable, inr green))) =
      inr (inr (unstable, inr (RequiredPass-RequiredGreen pr green)))

  StateClears-StatePass : (r : Runner) (pr : PullRequest) → StatePass r api pr → StateClears r c pr
  StateClears-StatePass r pr (inl clean) = inl clean
  StateClears-StatePass r pr (inr (inl hooks)) = inr (inl hooks)
  StateClears-StatePass r pr (inr (inr (unstable, inl allowed))) = inr (inr (unstable, inl allowed))
  StateClears-StatePass r pr (inr (inr (unstable, inr pass))) =
      inr (inr (unstable, inr (RequiredGreen-RequiredPass pr pass)))

  Mergeable-MayMerge : (r : Runner) → MayMerge r c → Mergeable r api
  Mergeable-MayMerge r h = record {
    pr = h.pr;
    read = sym (pull_of r.number) ∙ h.read;
    not_merged = h.not_merged;
    is_open = h.is_open;
    not_draft = h.not_draft;
    state_passes = StatePass-StateClears r h.pr h.state_clears;
    review_passes = ReviewPass-ReviewClears r h.review_clears;
    not_dry = h.not_dry;
  }

  MayMerge-Mergeable : (r : Runner) → Mergeable r api → MayMerge r c
  MayMerge-Mergeable r h = record {
    pr = h.pr;
    read = pull_of r.number ∙ h.read;
    not_merged = h.not_merged;
    is_open = h.is_open;
    not_draft = h.not_draft;
    state_clears = StateClears-StatePass r h.pr h.state_passes;
    review_clears = ReviewClears-ReviewPass r h.review_passes;
    not_dry = h.not_dry;
  }

  -- A runner whose interface the client stands behind, in whatever order it visits the map of the
  -- checks, asks for a merge if and only if the API says: the pull request could be read, is open, no
  -- draft and not merged; its state is clean, has_hooks, or unstable while it is allowed or no check
  -- is required or all required ones pass (the last completed check run of the name succeeded, or it
  -- has no check run and its first legacy status is a success); and, unless the review gate is off, the
  -- review query could be decoded without an error, with enough approving reviews, no unresolved thread
  -- and a decision that asks for nothing; and it is no dry run.
  pub step-Mergeable : (r : Runner) → Merges r (step r c).1 ↔ Mergeable r api
  step-Mergeable r = (
    (λ merges. Mergeable-MayMerge r ((step-Merges_iff r c).0 merges)),
    (λ may. (step-Merges_iff r c).1 (MayMerge-Mergeable r may)),
  )
