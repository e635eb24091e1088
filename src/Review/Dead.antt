-- ===== src/Review/Dead.antt =====
-- internal/review/dashboard.go: the lane of a pull request that cannot proceed without a repair.
use merge_bot.Base.{
  ℕ, ◌≤◌, ◌≡◌, ◌≢◌, ◌↔◌, inl, inr, refl, sym, ap, ◌∙◌, true, false, ◌||◌, List, Option, some,
  String, str_eq, str_eq_iff, arith, ltb, All, Any, Bool-cases,
}
use merge_bot.Merge.Errors.{ok, Result-cases}
use merge_bot.Merge.Github.{ReviewStatus, CheckRun, count_checks}
use merge_bot.Merge.Github.Counting.{HasFailed, no_pending, a_failure, count_checks_failed}
use merge_bot.Review.{
  Pull, Category, failed, Entry, Fetcher, Dashboard, placed, by_counts, by_checks, by_review,
  triage, bare_entry, entry_for,
}

-- Approved, and none of the reviewers objects.
abbrev pub Agreed : ℕ → ReviewStatus → Type 0
Agreed min_approvals status =
    (min_approvals ≤ status.approvals)
    × (status.review_decision ≢ "CHANGES_REQUESTED")
    × (status.review_decision ≢ "REVIEW_REQUIRED")

-- The checks of a head are over, and one of them failed.
abbrev pub Over : List CheckRun → Type 0
Over runs = All (λ run. run.completed ≡ true) runs × Any HasFailed runs

-- Blocked although it is approved and up to date, by checks that are over.
pub record Dead (d : Dashboard) (f : Fetcher) (number : ℕ) : Type 0 where
  pub base : String
  pub head : String
  pub status : ReviewStatus
  pub runs : List CheckRun
  pub stuck : f.pull_state number ≡ ok ("blocked", base, head)
  pub reviewed : f.review_status number ≡ ok status
  pub agreed : Agreed d.min_approvals status
  pub current : f.behind_by base head ≡ ok 0
  pub checked : f.check_runs head ≡ ok runs
  pub over : Over runs

-- The pull request has an entry, in a lane.
abbrev pub ShownIn : Category → Option Entry → Type 0
ShownIn lane shown = (e : Entry) × (shown ≡ some e) × (e.category ≡ lane)

str_eq-differs : (s t : String) → s ≢ t → str_eq s t ≡ false
str_eq-differs s t differ = elim (Bool-cases (str_eq s t)) [
  | inl same ↦ absurd (differ ((str_eq_iff s t).0 same))
  | inr other ↦ other
]

by_counts-failed :
    (behind : ℕ) (runs : List CheckRun) (e : Entry)
    → (by_counts behind runs e).category ≡ failed
    → (behind ≡ 0) × Over runs
unfolding by_counts
by_counts-failed behind runs e h = elim (Bool-cases (ltb 0 (count_checks runs).0)) [
  | inl pending ↦ absurd (ground arith)
  | inr settled ↦ elim (Bool-cases (ltb 0 behind)) [
    | inl late ↦ absurd (ground arith)
    | inr current ↦ elim (Bool-cases (ltb 0 (count_checks runs).1)) [
      | inl bad ↦ (ground arith, count_checks_failed runs (ground arith) (ground arith))
      | inr fine ↦ absurd (ground arith)
    ]
  ]
]

-- What `by_checks` has found out when the entry is in the failed lane.
abbrev FoundOver : Fetcher → String → String → Type 0
FoundOver f base head =
    (runs : List CheckRun) × (f.behind_by base head ≡ ok 0)
    × (f.check_runs head ≡ ok runs)
    × Over runs

by_checks-failed :
    (f : Fetcher) (base head : String) (e : Entry)
    → (by_checks f base head e).category ≡ failed
    → FoundOver f base head
unfolding by_checks
by_checks-failed f base head e h = elim (Result-cases (f.behind_by base head)) [
  | inr (x, q) ↦ absurd (ground arith)
  | inl (behind, q) ↦ elim (Result-cases (f.check_runs head)) [
    | inr (x, k) ↦ absurd (ground arith)
    | inl (runs, k) ↦
        let placed_failed : (by_counts behind runs e).category ≡ failed = ground arith in
        let (zero_behind, over) = by_counts-failed behind runs e placed_failed in
        (runs, q ∙ ap ok zero_behind, k, over)
  ]
]

by_review-failed :
    (d : Dashboard) (f : Fetcher) (base head : String) (status : ReviewStatus) (e : Entry)
    → (by_review d f base head status e).category ≡ failed
    → (e.state ≡ "blocked")
      × (d.min_approvals ≤ e.approvals)
      × (status.review_decision ≢ "CHANGES_REQUESTED")
      × (status.review_decision ≢ "REVIEW_REQUIRED")
      × FoundOver f base head
unfolding by_review
by_review-failed d f base head status e h =
    elim (Bool-cases (str_eq e.state "clean" || str_eq e.state "unstable")) [
      | inl ready ↦ absurd (ground arith)
      | inr unready ↦ elim (Bool-cases (str_eq e.state "blocked")) [
        | inr free ↦ elim (Bool-cases (str_eq e.state "behind")) [
          | inl late ↦ absurd (ground arith)
          | inr other ↦ absurd (ground arith)
        ]
        | inl stuck ↦ elim (Bool-cases (str_eq status.review_decision "CHANGES_REQUESTED")) [
          | inl objected ↦ absurd (ground arith)
          | inr fine ↦
              elim (Bool-cases (
                ltb e.approvals d.min_approvals
                || str_eq status.review_decision "REVIEW_REQUIRED")) [
                  | inl missing ↦ absurd (ground arith)
                  | inr agreed ↦
                      let left : (by_checks f base head e).category ≡ failed = ground arith in
                      (
                        (str_eq_iff e.state "blocked").0 stuck,
                        ground arith,
                        (λ k.
                            ground (arith, str_eq_iff status.review_decision "CHANGES_REQUESTED")),
                        (λ k. ground (arith, str_eq_iff status.review_decision "REVIEW_REQUIRED")),
                        by_checks-failed f base head e left,
                      )
                ]
        ]
      ]
    ]

triage-failed :
    (d : Dashboard) (f : Fetcher) (base head : String) (e : Entry)
    → ShownIn failed (triage d f base head e)
    → (status : ReviewStatus) × (f.review_status e.number ≡ ok status)
      × (e.state ≡ "blocked")
      × Agreed d.min_approvals status
      × FoundOver f base head
unfolding triage
triage-failed d f base head e (x, shown, lane) = elim (Bool-cases (str_eq e.state "dirty")) [
  | inl dirty ↦ absurd (ground arith)
  | inr other ↦ elim (Result-cases (f.review_status e.number)) [
    | inr (y, q) ↦ absurd (ground arith)
    | inl (status, q) ↦
        let left : (by_review d f base head status
              (record e { approvals = status.approvals })).category
            ≡ failed =
          ground arith in
        let (stuck, enough, fine, free, found) =
          by_review-failed d f base head status (record e { approvals = status.approvals }) left in
        (status, q, stuck, (enough, fine, free), found)
  ]
]

pub entry_for-Dead :
    (d : Dashboard) (f : Fetcher) (now : ℕ) (pr : Pull)
    → ShownIn failed (entry_for d f now pr)
    → Dead d f pr.number
unfolding entry_for
entry_for-Dead d f now pr shown = elim (Result-cases (f.pull_state pr.number)) [
  | inr (x, q) ↦ absurd (ground arith)
  | inl ((state, base, head), q) ↦
      let read : entry_for d f now pr ≡ triage d f base head (bare_entry d f now pr state) =
        simp (q, entry_for) in
      let (status, reviewed, stuck, agreed, (runs, current, checked, over)) =
        triage-failed d f base head (bare_entry d f now pr state)
          (shown.0, sym read ∙ shown.1, shown.2) in
      record {
        base = base;
        head = head;
        status = status;
        runs = runs;
        stuck = q ∙ ap (λ s. ok (s, base, head)) stuck;
        reviewed = reviewed;
        agreed = agreed;
        current = current;
        checked = checked;
        over = over;
      }
]

Dead-by_checks :
    (d : Dashboard) (f : Fetcher) (e : Entry) (number : ℕ) (dead : Dead d f number)
    → by_checks f dead.base dead.head e ≡ placed failed "required check failed" e
unfolding by_checks by_counts
Dead-by_checks d f e number dead =
    simp (dead.current, dead.checked, by_checks)
      (ground (arith, no_pending dead.runs dead.over.0, a_failure dead.runs dead.over.1))

Dead-by_review :
    (d : Dashboard) (f : Fetcher) (e : Entry) (number : ℕ) (dead : Dead d f number)
    → e.state ≡ "blocked"
    → e.approvals ≡ dead.status.approvals
    → by_review d f dead.base dead.head dead.status e ≡ placed failed "required check failed" e
unfolding by_review
Dead-by_review d f e number dead stuck same =
    let clean : str_eq e.state "clean" ≡ false = ap (λ s. str_eq s "clean") stuck in
    let unstable : str_eq e.state "unstable" ≡ false = ap (λ s. str_eq s "unstable") stuck in
    let blocked : str_eq e.state "blocked" ≡ true = ap (λ s. str_eq s "blocked") stuck in
    let (enough, fine, free) = dead.agreed in
    let objected : str_eq dead.status.review_decision "CHANGES_REQUESTED" ≡ false =
      str_eq-differs _ _ fine in
    let required : str_eq dead.status.review_decision "REVIEW_REQUIRED" ≡ false =
      str_eq-differs _ _ free in
    let few : ltb e.approvals d.min_approvals ≡ false = ground (arith, same) in
    simp (clean, unstable, blocked, objected, required, few, by_review)
      (Dead-by_checks d f e number dead)

Dead-entry_for :
    (d : Dashboard) (f : Fetcher) (now : ℕ) (pr : Pull)
    → Dead d f pr.number
    → ShownIn failed (entry_for d f now pr)
unfolding entry_for triage
Dead-entry_for d f now pr dead =
    let e : Entry = record (bare_entry d f now pr "blocked") {
      approvals = dead.status.approvals;
    } in
    (
      placed failed "required check failed" e,
      simp (dead.stuck, entry_for)
          (simp (dead.reviewed, triage) (ap some (Dead-by_review d f e pr.number dead refl refl))),
      refl,
    )

-- A pull request is shown as failed exactly if it is blocked, its review status could be read, it has
-- the approvals asked for and no reviewer's objection or missing review, it is not behind its base,
-- and its checks could be read, are all completed, and one of them did not succeed.
pub failed-Dead :
    (d : Dashboard) (f : Fetcher) (now : ℕ) (pr : Pull)
    → ShownIn failed (entry_for d f now pr) ↔ Dead d f pr.number
failed-Dead d f now pr = (entry_for-Dead d f now pr, Dead-entry_for d f now pr)
