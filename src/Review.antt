-- ===== src/Review.antt =====
-- internal/review/dashboard.go: the dashboard of the open pull requests of one author. The owner and
-- the repository, which every call passes on, and the log lines are left out.
pub mod Schedule
pub mod Dead
pub mod Declined
mod Examples
use merge_bot.Base.{
  ℕ, Bool, true, false, not, ◌||◌, List, [], ◌∷◌, Option, none, some, String, str_eq, ltb,
  get_elem?, set, replicate, length, if◌then◌else◌,
}
use merge_bot.Merge.Errors.{Error, Result, ok, err}
use merge_bot.Merge.Github.{ReviewStatus, CheckRun, count_checks}
use merge_bot.Merge.Signals.{Comment, Since, week_before, queued_from_comments}

pub record Pull : Type 0 where
  pub number : ℕ
  pub title : String

-- The constants of the source, and the empty string of an entry that is not placed yet.
pub data Category : Type 0 where
  unplaced mine conflict failed : Category

pub record Entry : Type 0 where
  pub number : ℕ
  pub title : String
  pub approvals : ℕ
  pub required : ℕ
  pub state : String
  pub category : Category
  pub hint : String
  pub queued : Bool

-- The GitHub subset that the dashboard needs, as what it answers during one refresh.
pub record Fetcher : Type 0 where
  pub current_user : Result String
  pub list_open_prs : String → Result (List Pull)
  pub pull_state : ℕ → Result (String × String × String)
  pub behind_by : String → String → Result ℕ
  pub check_runs : String → Result (List CheckRun)
  pub review_status : ℕ → Result ReviewStatus
  pub list_comments : ℕ → Since → Result (List Comment)

pub record Dashboard : Type 0 where
  pub min_approvals : ℕ
  pub team_queue : Bool
  pub poke : Bool  -- the channel `poke`, with its one place, holds a signal
  pub entries : List Entry
  pub author : String
  pub loaded : Bool

unfoldable pub new_dashboard : ℕ → String → Dashboard
new_dashboard min_approvals author = record {
  min_approvals = min_approvals;
  team_queue = false;
  poke = false;
  entries = [];
  author = author;
  loaded = false;
}

unfoldable pub with_team_queue : Dashboard → Dashboard
with_team_queue d = record d { team_queue = true }

unfoldable pub trigger_refresh : Dashboard → Dashboard
trigger_refresh d = record d { poke = true }

abbrev pub placed : Category → String → Entry → Entry
placed category hint e = record e { category = category; hint = hint }

-- A blocked pull request that is fully approved.
unfoldable pub by_counts : ℕ → List CheckRun → Entry → Entry
by_counts behind runs e =
    let (pending, bad) = count_checks runs in
    if ltb 0 pending
    then placed mine "checking…" e
    else if ltb 0 behind
    then placed mine "behind — update to re-run" e
    else if ltb 0 bad
    then placed failed "required check failed" e
    else placed mine "needs re-approval" e

unfoldable pub by_checks : Fetcher → String → String → Entry → Entry
unfolding by_counts
by_checks f base head e = elim (f.behind_by base head) [
  | err x ↦ placed mine "blocked" e
  | ok behind ↦ elim (f.check_runs head) [
    | err x ↦ placed mine "blocked" e
    | ok runs ↦ by_counts behind runs e
  ]
]

-- An entry whose review status was read and whose approvals are filled in.
unfoldable pub by_review : Dashboard → Fetcher → String → String → ReviewStatus → Entry → Entry
by_review d f base head status e =
    if str_eq e.state "clean" || str_eq e.state "unstable"
    then placed mine e.hint e
    else if not (str_eq e.state "blocked")
    then (if str_eq e.state "behind"
        then placed mine "behind base" e
        else placed mine "checking…" e)
    else if str_eq status.review_decision "CHANGES_REQUESTED"
    then placed mine "changes requested" e
    else if ltb e.approvals d.min_approvals || str_eq status.review_decision "REVIEW_REQUIRED"
    then placed mine "needs approvals" e
    else by_checks f base head e

-- An entry whose state was read.
unfoldable pub triage : Dashboard → Fetcher → String → String → Entry → Option Entry
unfolding by_review
triage d f base head e =
    if str_eq e.state "dirty"
    then some (placed conflict e.hint e)
    else elim (f.review_status e.number) [
      | err x ↦ none
      | ok status ↦
          some (by_review d f base head status (record e { approvals = status.approvals }))
    ]

abbrev pub queued_in : Result (List Comment) → Bool
queued_in (err x) = false
queued_in (ok comments) = queued_from_comments comments

abbrev pub bare_entry : Dashboard → Fetcher → ℕ → Pull → String → Entry
bare_entry d f now pr state = record {
  number = pr.number;
  title = pr.title;
  approvals = 0;
  required = d.min_approvals;
  state = state;
  category = unplaced;
  hint = "";
  queued = if d.team_queue then queued_in (f.list_comments pr.number (week_before now)) else false;
}

-- `none` for a pull request that is skipped.
unfoldable pub entry_for : Dashboard → Fetcher → ℕ → Pull → Option Entry
unfolding triage
entry_for d f now pr = elim (f.pull_state pr.number) [
  | err x ↦ none
  | ok (state, base, head) ↦ triage d f base head (bare_entry d f now pr state)
]

-- `built[i] = &entry`, by the goroutine that has pull request `i`.
unfoldable pub build_one :
    (Pull → Option Entry) → List Pull → ℕ → List (Option Entry) → List (Option Entry)
build_one entry prs i built = elim (get_elem? prs i) [
  | none ↦ built
  | some pr ↦ set built i (entry pr)
]

-- The goroutines, in the order in which they write.
unfoldable pub build_all :
    (Pull → Option Entry) → List Pull → List ℕ → List (Option Entry) → List (Option Entry)
unfolding build_one
build_all entry prs [] built = built
build_all entry prs (i ∷ is) built = build_all entry prs is (build_one entry prs i built)

-- The loop that keeps what is not nil.
unfoldable pub present : List (Option Entry) → List Entry
present [] = []
present (none ∷ es) = present es
present (some e ∷ es) = e ∷ present es

-- `ensureAuthor`
unfoldable pub ensure_author : Dashboard → Fetcher → Dashboard × Result String
ensure_author d f = if not (str_eq d.author "") then (d, ok d.author) else elim f.current_user [
  | err e ↦ (d, err e)
  | ok author ↦ (record d { author = author }, ok author)
]

-- What a refresh meets besides GitHub: the clock, the order in which the goroutines write, and the
-- error of the context if it is cancelled before all of them are started.
pub record Pass : Type 0 where
  pub now : ℕ
  pub order : List ℕ
  pub interrupted : Option Error

-- The part of `Refresh` behind the search.
unfoldable pub fill : Fetcher → Pass → List Pull → Dashboard → Dashboard × Option Error
unfolding build_all present
fill f w prs d = elim w.interrupted [
  | some e ↦ (d, some e)
  | none ↦ (
    record d {
      entries = present (build_all (entry_for d f w.now) prs w.order (replicate (length prs) none));
      loaded = true;
    },
    none,
  )
]

abbrev pub list_for : Fetcher → Dashboard × Result String → Dashboard × Result (List Pull)
list_for f (d, err e) = (d, err e)
list_for f (d, ok author) = (d, f.list_open_prs author)

abbrev pub fill_from : Fetcher → Pass → Dashboard × Result (List Pull) → Dashboard × Option Error
fill_from f w (d, err e) = (d, some e)
fill_from f w (d, ok prs) = fill f w prs d

unfoldable pub refresh : Fetcher → Pass → Dashboard → Dashboard × Option Error
unfolding ensure_author fill
refresh f w d = fill_from f w (list_for f (ensure_author d f))

-- What `RefreshLoop` waits for, besides the end of its context.
pub data Wake : Type 0 where
  tick poked : Wake

-- A signal that is not there cannot be received.
unfoldable pub on_wake : Wake → Fetcher → Pass → Dashboard → Dashboard
unfolding refresh
on_wake tick f w d = (refresh f w d).0
on_wake poked f w d = if d.poke then (refresh f w (record d { poke = false })).0 else d

-- The loop behind the first refresh, on what wakes it up until its context ends.
unfoldable pub refresh_wakes : Dashboard → List (Wake × Fetcher × Pass) → Dashboard
unfolding on_wake
refresh_wakes d [] = d
refresh_wakes d ((wake, f, w) ∷ wakes) = refresh_wakes (on_wake wake f w d) wakes

unfoldable pub refresh_loop : Fetcher → Pass → List (Wake × Fetcher × Pass) → Dashboard → Dashboard
unfolding refresh_wakes
refresh_loop f w wakes d = refresh_wakes (refresh f w d).0 wakes
