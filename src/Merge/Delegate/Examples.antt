-- ===== src/Merge/Delegate/Examples.antt =====
-- Pull request 7 in an external queue, for internal/merge/delegate.go.
use merge_bot.Base.{
  ℕ, zero, suc, ◌<◌, ◌≡◌, refl, inl, Bool, true, false, List, [], ◌∷◌, none, some, arith, Text,
  codes, contains,
}
use merge_bot.Merge.Errors.{ok}
use merge_bot.Merge.Github.{PullRequest, CheckRun, check_succeeded, count_checks}
use merge_bot.Merge.Signals.{
  Comment, QueueSignal, sig_queued, week_before, moment, is_after, newest_signal, newest_from,
  parse_queue_signal, queued_from_comments,
}
use merge_bot.Merge.Signals.Newest.{
  Newest, Standing, newest_signal-Newest, queued_from_comments-Standing,
}
use merge_bot.Merge.Delegate.{
  watches, watch_loop, QueueClient, QueueCall, Round, Watch, poll_round, QueueEnding, delegate,
  latest_signal,
}
use merge_bot.Merge.Delegate.Posts.{
  Posts, poll_round-Posts_iff, accepted-Posts, delegate_queued-Posts,
}
use merge_bot.Merge.Delegate.Ends.{SaysMerged, delegate_ends, delegate_nil}

abbrev comment : ℕ → Text → Comment
comment at body = record { author = codes "queue-bot"; body = body; created_at = at }

abbrev comments : List Comment
comments =
    comment 10 (codes "/queue")
    ∷ comment 11 (codes "PR #7 is `waiting at queue position 2`")
    ∷ comment 30 (codes "Validation batch 4 started")
    ∷ comment 20 (codes "Could not queue PR #7: checks failed")
    ∷ []

abbrev open_pull : Bool → PullRequest
open_pull merged = record {
  merged = merged;
  state = "open";
  draft = false;
  mergeable_state = "blocked";
  head_sha = "c0ffee";
  base_ref = "main";
}

abbrev green_run : CheckRun
green_run = record { name = "build"; completed = true; conclusion = "success" }

-- The bot has confirmed the pull request, if `confirmed`.
abbrev client : Bool → Bool → QueueClient
client merged confirmed = record {
  get_pull_request = λ n. ok (open_pull merged);
  check_runs = λ head. ok (green_run ∷ []);
  create_comment = λ n body. none;
  list_comments = λ n since. ok (elim confirmed [
    | true ↦ comment 11 (codes "waiting at queue position 2") ∷ []
    | false ↦ []
  ]);
}

abbrev merged_at : ℕ → Bool
merged_at zero = false
merged_at (suc k) = true

abbrev rounds : Bool → ℕ → Round
rounds confirmed k = record {
  client = client (merged_at k) confirmed;
  context_error = none;
  posted_at = 40;
  interrupted = none;
}

abbrev fresh : Watch
fresh = record { asked = false; watch_from = week_before 12 }

newest_signal-Newest_example :
    Newest (λ c. is_after (moment 10) c.created_at) comments (newest_signal (moment 10) comments)
newest_signal-Newest_example = newest_signal-Newest (moment 10) comments

queued_from_comments-Standing_example : Standing comments (queued_from_comments comments)
queued_from_comments-Standing_example = queued_from_comments-Standing comments

-- The batch is the newest signal, though it does not stand last.
is_queued : queued_from_comments comments ≡ true
unfolding queued_from_comments parse_queue_signal contains newest_from
is_queued = refl

poll_round-Posts_iff_example : Posts 7 (poll_round 7 (rounds false 0) fresh).1
unfolding check_succeeded
poll_round-Posts_iff_example = (poll_round-Posts_iff 7 (rounds false 0) fresh).1 (record {
  pr = open_pull false;
  read = refl;
  not_merged = refl;
  is_open = refl;
  first_time = refl;
  runs = green_run ∷ [];
  listed = refl;
  completed = (refl, tt);
  succeeded = (refl, tt);
})

delegate_ends_example :
    (x : QueueEnding) × (delegate 2 7 (client false false) 12 (rounds false) ≡ some x)
delegate_ends_example =
    delegate_ends 7 12 1 2 (client false false) (rounds false)
      (inl (open_pull true, refl, inl refl)) (omega arith)

ends_merged :
    (calls : List QueueCall) × (delegate 2 7 (client false true) 12 (rounds true)
      ≡ some (none, calls))
unfolding delegate newest_signal is_after parse_queue_signal contains
ends_merged = (_, refl)

delegate_nil_example : (round : ℕ) × (round < 2) × SaysMerged 7 (rounds true round)
delegate_nil_example = delegate_nil 7 12 2 (client false true) (rounds true) ends_merged.1

confirmed_signal :
    (s : QueueSignal) × (latest_signal 7 (client false true) (week_before 12) ≡ some s)
    × (s.kind ≡ sig_queued)
unfolding latest_signal newest_signal is_after parse_queue_signal contains
confirmed_signal = (_, refl, refl)

delegate_queued-Posts_example : ¬ Posts 7 ends_merged.0
delegate_queued-Posts_example =
    delegate_queued-Posts 7 12 2 (client false true) (rounds true) confirmed_signal.0 ends_merged.0
      confirmed_signal.1 confirmed_signal.2 ends_merged.1

abbrev accepted : Watch
accepted = record { asked = true; watch_from = moment 40 }

goes_on : (poll_round 7 (rounds false 0) fresh).0 ≡ watches accepted
unfolding poll_round check_succeeded count_checks
goes_on = refl

later_rounds :
    (calls : List QueueCall) × (watch_loop 1 7 (rounds false) 1 accepted ≡ some (none, calls))
unfolding watch_loop
later_rounds = (_, refl)

accepted-Posts_example : ¬ Posts 7 later_rounds.0
accepted-Posts_example =
    accepted-Posts 7 1 1 (rounds false 0) (rounds false) fresh accepted later_rounds.0
      poll_round-Posts_iff_example refl goes_on later_rounds.1
