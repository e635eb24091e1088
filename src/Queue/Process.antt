-- ===== src/Queue/Process.antt =====
-- internal/queue/manager.go: what a worker does with its item (`process`, `itemLogger`, `drive`).
pub mod Outcomes
pub mod Settles
mod Examples
use merge_bot.Base.{
  not, quote, ℕ, ◌-◌, Bool, false, List, [], ◌∷◌, ◌++◌, Option, none, some, str_eq, Text, codes,
  ltb, ◌==◌, duration_text, round_second, if◌then◌else◌,
}
use merge_bot.Merge.Errors.{
  plain, Error, Sentinel, canceled, insufficient_approvals, required_check_failed, blocked,
  errors_is, error_text,
}
use merge_bot.Merge.Gate.{Runner}
use merge_bot.Merge.Runner.{Poll, run}
use merge_bot.Merge.Delegate.{QueueClient, QueueCall, comment_call, Round, delegate}
use merge_bot.Queue.Types.{
  Phase, queued, active, merged, failed, needs_approvals, stopped, phase_eq, Item, Config, Manager,
  Io,
}
use merge_bot.Queue.Cells.{find_ref, update_ref}
use merge_bot.Queue.Manager.{save, cancel_number}

-- now.Sub(added).Round(time.Second).String()
unfoldable pub elapsed_text : ℕ → ℕ → Text
elapsed_text added now =
    if ltb now added
    then (let d = round_second (added - now) in
        if d == 0 then codes "0s" else b'-' ∷ duration_text d)
    else duration_text (round_second (now - added))

abbrev pub as_failed : Text → Error → Item → Item
as_failed message e it = record it { phase = failed; message = message; error = error_text e }

-- The cases of the `switch` of `process` for an error.
unfoldable pub settle_error : Error → Item → Item
settle_error e it =
    if errors_is e canceled
    then record it { phase = queued; message = codes "interrupted; will resume" }
    else if errors_is e Sentinel.conflicts
    then record it {
      phase = Phase.conflicts;
      message = codes "merge conflicts";
      error = error_text e;
    }
    else if errors_is e insufficient_approvals
    then record it {
      phase = needs_approvals;
      message = codes "needs approvals";
      error = error_text e;
    }
    else if errors_is e required_check_failed
    then as_failed (codes "required check failed") e it
    else if errors_is e blocked
    then as_failed (codes "blocked by branch protection") e it
    else as_failed (codes "failed") e it

unfoldable pub settle : ℕ → Option Error → Item → Item
settle now none it = record it {
  phase = merged;
  message = codes "merged in " ++ elapsed_text it.added_at now;
  error = [];
  merged_at = some now;
}
settle now (some e) it = settle_error e it

-- The item after `process`: a stopped one is left as it is.
unfoldable pub settled : ℕ → Option Error → Item → Item
unfolding settle settle_error
settled now result it =
    let it' = if phase_eq it.phase stopped then it else settle now result it in
    record it' { updated_at = now }

-- The item at an address, in the queue or out of it.
abbrev pub item_at : ℕ → Manager → Option Item
item_at ref m = elim (find_ref ref m.items) [ some it ↦ some it | none ↦ find_ref ref m.detached ]

-- Whether `process` posts /dequeue for the item.
abbrev pub dequeues : Config → Item → Bool
dequeues cfg it = if phase_eq it.phase stopped then str_eq cfg.merge_mode "merge-queue" else false

-- The part of `process` behind `drive`, with the number for which /dequeue is posted. (An address
-- that was never given out has no item; then nothing happens.)
unfoldable pub finish : Io → ℕ → Option Error → Manager → Manager × Option ℕ
finish io ref result m = elim (item_at ref m) [
  | none ↦ (m, none)
  | some it ↦
      let m' = cancel_number it.number m in
      (
        save io (record m' {
          items = update_ref ref (settled io.now result) m'.items;
          detached = update_ref ref (settled io.now result) m'.detached;
        }),
        if dequeues m.cfg it then some it.number else none,
      )
]

-- `dequeue`, which a goroutine of its own runs: the comment that it posts, if the client can.
unfoldable pub dequeue : Bool → Option ℕ → List QueueCall
dequeue is_capable none = []
dequeue is_capable (some n) = if is_capable then comment_call n (codes "/dequeue") ∷ [] else []

abbrev pub logged : ℕ → Text → Item → Item
logged now message it =
    if phase_eq it.phase active then record it { message = message; updated_at = now } else it

-- A log line of the worker at an item shows as its message while it is active; nothing is saved.
unfoldable pub log_line : ℕ → ℕ → Text → Manager → Manager
log_line now ref message m = record m {
  items = update_ref ref (logged now message) m.items;
  detached = update_ref ref (logged now message) m.detached;
}

-- The runner that `drive` builds in self mode.
unfoldable pub self_runner : Config → ℕ → Runner
self_runner cfg n = record {
  number = n;
  interval = cfg.interval;
  timeout = cfg.timeout;
  merge_method = cfg.merge_method;
  min_approvals = cfg.min_approvals;
  allow_unstable = cfg.allow_unstable;
  allow_unresolved = cfg.allow_unresolved;
  dry_run = false;
}

-- What `drive` meets in either mode: the rounds of the loop, the look at the comments before it, and
-- the time; and whether the client can do what the external queue needs.
pub record Drive : Type 0 where
  pub polls : ℕ → Poll
  pub first : QueueClient
  pub rounds : ℕ → Round
  pub is_capable : Bool
  pub started : ℕ

abbrev pub incapable : Error
incapable =
    plain (
      codes "merge mode " ++ quote "merge-queue" ++ codes " requires a queue-capable GitHub client")

abbrev pub returned {ℓ} : {A : Type ℓ} → Option (Option Error × A) → Option (Option Error)
returned none = none
returned (some (error, calls)) = some error

-- The loop of the runner of the mode, on fuel; `none` says that it still runs.
unfoldable pub drive : ℕ → Config → ℕ → Drive → Option (Option Error)
unfolding self_runner
drive fuel cfg n w =
    if str_eq cfg.merge_mode "merge-queue"
    then (if not w.is_capable
        then some (some incapable)
        else returned (delegate fuel n w.first w.started w.rounds))
    else returned (run fuel (self_runner cfg n) w.started w.polls)
