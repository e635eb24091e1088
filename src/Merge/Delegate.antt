-- ===== src/Merge/Delegate.antt =====
-- internal/merge/delegate.go: the runner that hands a pull request to an external queue, which is
-- driven by comments, and watches it there. The number of the pull request is passed on; log lines,
-- and the last message, which only keeps a line from being logged twice, are left out.
pub mod Posts
pub mod Ends
mod Examples
use merge_bot.Base.{
  ℕ, zero, suc, Bool, true, false, not, List, [], ◌∷◌, ◌++◌, Option, none, some, String, str_eq,
  Text, codes, show, ltb, if◌then◌else◌,
}
use merge_bot.Merge.Errors.{Error, Result, ok, err, wrap, plain, sentinel, required_check_failed}
use merge_bot.Merge.Github.{PullRequest, CheckRun, count_checks}
use merge_bot.Merge.Gate.{pr_text}
use merge_bot.Merge.Signals.{
  Comment, QueueSignal, sig_queued, sig_rejected, sig_not_queued, sig_batch, Since, week_before,
  moment, newest_signal,
}

abbrev pub cmd_queue : Text
cmd_queue = codes "/queue"

-- The GitHub subset that the runner depends on, as what it answers during one round.
pub record QueueClient : Type 0 where
  pub get_pull_request : ℕ → Result PullRequest
  pub check_runs : String → Result (List CheckRun)
  pub create_comment : ℕ → Text → Option Error
  pub list_comments : ℕ → Since → Result (List Comment)

pub data QueueCall : Type 0 where
  pull_call list_call : ℕ → QueueCall
  runs_call : String → QueueCall
  comment_call : ℕ → Text → QueueCall

-- What one round of the loop of `Run` meets: the answers, the error of the context when the pull
-- request could not be read, the clock behind the post of /queue, and the error of the context, if
-- the wait ends by its cancellation.
pub record Round : Type 0 where
  pub client : QueueClient
  pub context_error : Option Error
  pub posted_at : ℕ
  pub interrupted : Option Error

-- The variables of the loop.
pub record Watch : Type 0 where
  pub asked : Bool
  pub watch_from : Since

-- A round returns from `Run`, or goes on to its `select`.
pub data Turn : Type 0 where
  returns : Option Error → Turn
  watches : Watch → Turn

abbrev pub latest_of : Since → Result (List Comment) → Option QueueSignal
latest_of since (err e) = none
latest_of since (ok comments) = newest_signal since comments

unfoldable pub latest_signal : ℕ → QueueClient → Since → Option QueueSignal
latest_signal n c since = latest_of since (c.list_comments n since)

-- The part of `Run` before the loop, called at the time `now`.
abbrev pub watch_of : ℕ → Option QueueSignal → Watch
watch_of now none = record { asked = false; watch_from = week_before now }
watch_of now (some s) = elim s.kind [
  | sig_queued ↦ record { asked = true; watch_from = moment s.at }
  | sig_rejected ↦ record { asked = false; watch_from = week_before now }
  | sig_not_queued ↦ record { asked = false; watch_from = week_before now }
  | sig_batch ↦ record { asked = false; watch_from = week_before now }
]

unfoldable pub begin : ℕ → QueueClient → ℕ → Watch
unfolding latest_signal
begin n c now = watch_of now (latest_signal n c (week_before now))

abbrev pub failed_checks : ℕ → ℕ → Error
failed_checks n failed =
    wrap
      (pr_text n
        ++ codes " has "
        ++ show failed
        ++ codes " failed check(s); the team queue would reject it")
      (sentinel required_check_failed)

-- What is made of the answer to the post of /queue.
abbrev pub posted : Round → Watch → Option Error → Turn
posted round w none = watches (record { asked = true; watch_from = moment round.posted_at })
posted round w (some e) = watches w

-- The case `!asked`, behind the list of check runs.
unfoldable pub ask_queue : ℕ → Round → Watch → List CheckRun → Turn × List QueueCall
ask_queue n round w runs =
    let (pending, failed) = count_checks runs in
    if ltb 0 pending
    then (watches w, [])
    else if ltb 0 failed
    then (returns (some (failed_checks n failed)), [])
    else (posted round w (round.client.create_comment n cmd_queue), comment_call n cmd_queue ∷ [])

unfoldable pub not_asked : ℕ → Round → Watch → PullRequest → Turn × List QueueCall
unfolding ask_queue
not_asked n round w pr = elim (round.client.check_runs pr.head_sha) [
  | err e ↦ (watches w, runs_call pr.head_sha ∷ [])
  | ok runs ↦ let (turn, calls) = ask_queue n round w runs in (turn, runs_call pr.head_sha ∷ calls)
]

-- The `default` case: what the newest signal says.
unfoldable pub heed : ℕ → Watch → Option QueueSignal → Turn
heed n w none = watches w
heed n w (some s) = elim s.kind [
  | sig_rejected ↦
      returns (some (plain (pr_text n ++ codes " rejected by the team queue: " ++ s.detail)))
  | sig_not_queued ↦
      returns (some (plain (pr_text n ++ codes " left the team queue without merging")))
  | sig_queued ↦ watches w
  | sig_batch ↦ watches w
]

abbrev pub delegate_not_open : ℕ → String → Error
delegate_not_open n state = plain (pr_text n ++ codes " is " ++ codes state ++ codes ", not open")

-- The `switch` behind a pull request that was read.
unfoldable pub look : ℕ → Round → Watch → PullRequest → Turn × List QueueCall
unfolding not_asked heed latest_signal
look n round w pr =
    if pr.merged
    then (returns none, [])
    else if not (str_eq pr.state "open")
    then (returns (some (delegate_not_open n pr.state)), [])
    else if not w.asked
    then not_asked n round w pr
    else (heed n w (latest_signal n round.client w.watch_from), list_call n ∷ [])

-- A pull request that cannot be read ends the loop only if the context is cancelled.
abbrev pub unread : Round → Watch → Turn
unread round w = elim round.context_error [ none ↦ watches w | some e ↦ returns (some e) ]

unfoldable pub poll_round : ℕ → Round → Watch → Turn × List QueueCall
unfolding look
poll_round n round w = elim (round.client.get_pull_request n) [
  | err e ↦ (unread round w, pull_call n ∷ [])
  | ok pr ↦ let (turn, calls) = look n round w pr in (turn, pull_call n ∷ calls)
]

-- How the loop ends: its error, with the calls of all rounds.
abbrev pub QueueEnding : Type 0
QueueEnding = Option Error × List QueueCall

abbrev pub after_queue_calls : List QueueCall → Option QueueEnding → Option QueueEnding
after_queue_calls calls none = none
after_queue_calls calls (some (error, later)) = some (error, calls ++ later)

-- The part of a round behind the `switch`; `later` is the rounds that follow.
unfoldable pub after_round :
    List QueueCall → Option Error → Turn → (Watch → Option QueueEnding) → Option QueueEnding
after_round calls interrupted (returns error) later = some (error, calls)
after_round calls none (watches w) later = after_queue_calls calls (later w)
after_round calls (some e) (watches w) later = some (some e, calls)

-- The rounds from round `k` on, as far as the fuel goes; `none` says that the loop still runs.
unfoldable pub watch_loop : ℕ → ℕ → (ℕ → Round) → ℕ → Watch → Option QueueEnding
unfolding poll_round after_round
watch_loop zero n rounds k w = none
watch_loop (suc fuel) n rounds k w =
    let (turn, calls) = poll_round n (rounds k) w in
    after_round calls (rounds k).interrupted turn (watch_loop fuel n rounds (suc k))

-- `DelegateRunner.Run`, called at the time `now`; `first` answers the look at the comments before
-- the loop.
unfoldable pub delegate : ℕ → ℕ → QueueClient → ℕ → (ℕ → Round) → Option QueueEnding
unfolding watch_loop begin
delegate fuel n first now rounds =
    after_queue_calls (list_call n ∷ []) (watch_loop fuel n rounds 0 (begin n first now))
