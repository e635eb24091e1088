-- ===== src/Merge/Delegate/Posts.antt =====
-- When the delegate runner of internal/merge/delegate.go posts /queue.
use merge_bot.Base.{
  ℕ, zero, suc, subst, ◌≡◌, ◌↔◌, ◌⊎◌, inl, inr, refl, true, false, List, ◌∷◌, ◌++◌, Option, none,
  some, arith, All, Any, str_eq_iff, Option-cases, Any-append_cases,
}
use merge_bot.Merge.Errors.{Error, ok, Result-cases}
use merge_bot.Merge.Github.{PullRequest, CheckRun, check_succeeded, count_checks}
use merge_bot.Merge.Github.Counting.{no_pending, no_failure, count_checks_clear}
use merge_bot.Merge.Signals.{QueueSignal, sig_queued, week_before}
use merge_bot.Merge.Delegate.{
  cmd_queue, QueueClient, QueueCall, list_call, comment_call, Round, Watch, Turn, returns, watches,
  latest_signal, begin, ask_queue, not_asked, look, poll_round, QueueEnding, watch_loop, delegate,
  after_round, heed,
}

abbrev pub Posts : ℕ → List QueueCall → Type 0
Posts n = Any (λ call. call ≡ comment_call n cmd_queue)

-- The pull request is open and its checks are green, and the queue was not asked yet.
pub record MayPost (n : ℕ) (round : Round) (w : Watch) : Type 0 where
  pub pr : PullRequest
  pub read : round.client.get_pull_request n ≡ ok pr
  pub not_merged : pr.merged ≡ false
  pub is_open : pr.state ≡ "open"
  pub first_time : w.asked ≡ false
  pub runs : List CheckRun
  pub listed : round.client.check_runs pr.head_sha ≡ ok runs
  pub completed : All (λ run. run.completed ≡ true) runs
  pub succeeded : All (λ run. check_succeeded run.conclusion ≡ true) runs

ask_queue-Posts :
    (n : ℕ) (round : Round) (w : Watch) (runs : List CheckRun)
    → Posts n (ask_queue n round w runs).1
    → (count_checks runs).0 ≡ 0 × ((count_checks runs).1 ≡ 0)
unfolding ask_queue
ask_queue-Posts n round w runs h = ground arith

look-Posts :
    (n : ℕ) (round : Round) (w : Watch) (pr : PullRequest)
    → Posts n (look n round w pr).1
    → (pr.merged ≡ false)
      × (pr.state ≡ "open")
      × (w.asked ≡ false)
      × Posts n (not_asked n round w pr).1
unfolding look
look-Posts n round w pr h = ground (arith, str_eq_iff pr.state "open")

poll_round-MayPost :
    (n : ℕ) (round : Round) (w : Watch) → Posts n (poll_round n round w).1 → MayPost n round w
unfolding poll_round not_asked
poll_round-MayPost n round w h = elim (Result-cases (round.client.get_pull_request n)) [
  | inl (pr, e) ↦
      let (m, o, a, p) = look-Posts n round w pr (ground arith) in
      elim (Result-cases (round.client.check_runs pr.head_sha)) [
        | inl (runs, f) ↦
            let (pending, failed) = ask_queue-Posts n round w runs (ground arith) in
            let (completed, succeeded) = count_checks_clear runs pending failed in
            record {
              pr = pr;
              read = e;
              not_merged = m;
              is_open = o;
              first_time = a;
              runs = runs;
              listed = f;
              completed = completed;
              succeeded = succeeded;
            }
        | inr (x, f) ↦ absurd (ground arith)
      ]
  | inr (x, e) ↦ absurd (ground arith)
]

MayPost-poll_round :
    (n : ℕ) (round : Round) (w : Watch) → MayPost n round w → Posts n (poll_round n round w).1
unfolding poll_round look not_asked ask_queue
MayPost-poll_round n round w h = ground (
  arith,
  str_eq_iff h.pr.state "open",
  h.read,
  h.not_merged,
  h.is_open,
  h.first_time,
  h.listed,
  no_pending h.runs h.completed,
  no_failure h.runs h.succeeded,
)

-- A round posts /queue if and only if the pull request was read, is open and not merged, the queue was
-- not asked before, and the check runs were read and all completed and succeeded.
pub poll_round-Posts_iff :
    (n : ℕ) (round : Round) (w : Watch) → Posts n (poll_round n round w).1 ↔ MayPost n round w
poll_round-Posts_iff n round w = (poll_round-MayPost n round w, MayPost-poll_round n round w)

heed-same : (n : ℕ) (w w' : Watch) (o : Option QueueSignal) → heed n w o ≡ watches w' → w' ≡ w
unfolding heed
heed-same n w w' none h = ground arith
heed-same n w w' (some s) h = ground arith

-- Once the queue was asked, a round leaves it so.
watches-asked :
    (n : ℕ) (round : Round) (w w' : Watch)
    → w.asked ≡ true
    → (poll_round n round w).0 ≡ watches w'
    → w'.asked ≡ true
unfolding poll_round look
watches-asked n round w w' a h =
    ground (arith, heed-same n w w' (latest_signal n round.client w.watch_from))

after_round-Posts :
    (n : ℕ) (calls all : List QueueCall) (i : Option Error) (t : Turn)
    (later : Watch → Option QueueEnding) {error : Option Error}
    → after_round calls i t later ≡ some (error, all)
    → Posts n all
    → Posts n calls
      ⊎ ((w : Watch) × (rest : List QueueCall) × (t ≡ watches w)
          × (later w ≡ some (error, rest))
          × Posts n rest)
unfolding after_round
after_round-Posts n calls all i (returns x) later h p = inl (ground arith)
after_round-Posts n calls all none (watches w) later h p = elim (Option-cases (later w)) [
  | inl e ↦ absurd (ground arith)
  | inr ((x, rest), e) ↦
      let whole : all ≡ calls ++ rest = ground arith in
      elim (Any-append_cases _ calls rest (subst (Posts n) whole p)) [
        | inl q ↦ inl q
        | inr q ↦ inr (w, rest, refl, ground arith, q)
      ]
]
after_round-Posts n calls all (some e) (watches w) later h p = inl (ground arith)

watch_loop-asked :
    (fuel n : ℕ) (rounds : ℕ → Round) (k : ℕ) (w : Watch) {error : Option Error}
    (calls : List QueueCall)
    → w.asked ≡ true
    → watch_loop fuel n rounds k w ≡ some (error, calls)
    → ¬ Posts n calls
unfolding watch_loop
watch_loop-asked zero n rounds k w calls a h p = absurd (ground arith)
watch_loop-asked (suc fuel) n rounds k w calls a h p =
    elim (after_round-Posts n (poll_round n (rounds k) w).1 calls (rounds k).interrupted
      (poll_round n (rounds k) w).0 (watch_loop fuel n rounds (suc k)) h p) [
        | inl now ↦ ground (arith, (poll_round-MayPost n (rounds k) w now).first_time)
        | inr (w', rest, e, l, q) ↦
            watch_loop-asked fuel n rounds (suc k) w' rest (watches-asked n (rounds k) w w' a e) l q
      ]

asked-MayPost :
    (n : ℕ) (round : Round) (w w' : Watch)
    → MayPost n round w
    → round.client.create_comment n cmd_queue ≡ none
    → (poll_round n round w).0 ≡ watches w'
    → w'.asked ≡ true
unfolding poll_round look not_asked ask_queue
asked-MayPost n round w w' h c t = ground (
  arith,
  str_eq_iff h.pr.state "open",
  h.read,
  h.not_merged,
  h.is_open,
  h.first_time,
  h.listed,
  no_pending h.runs h.completed,
  no_failure h.runs h.succeeded,
)

-- Once a round has posted /queue and the post was accepted, no later round posts it again.
pub accepted-Posts :
    (n fuel k : ℕ) (round : Round) (rounds : ℕ → Round) (w w' : Watch) {error : Option Error}
    (later : List QueueCall)
    → Posts n (poll_round n round w).1
    → round.client.create_comment n cmd_queue ≡ none
    → (poll_round n round w).0 ≡ watches w'
    → watch_loop fuel n rounds k w' ≡ some (error, later)
    → ¬ Posts n later
accepted-Posts n fuel k round rounds w w' later p c t =
    watch_loop-asked fuel n rounds k w' later
      (asked-MayPost n round w w' (poll_round-MayPost n round w p) c t)

begin_asked :
    (n now : ℕ) (first : QueueClient) (s : QueueSignal)
    → latest_signal n first (week_before now) ≡ some s
    → s.kind ≡ sig_queued
    → (begin n first now).asked ≡ true
unfolding begin
begin_asked n now first s e q = simp (e, q)

-- If the newest signal of the last week, when the runner starts, is that the pull request waits in
-- the queue, then the runner never posts /queue.
pub delegate_queued-Posts :
    (n now fuel : ℕ) (first : QueueClient) (rounds : ℕ → Round) (s : QueueSignal)
    {error : Option Error} (calls : List QueueCall)
    → latest_signal n first (week_before now) ≡ some s
    → s.kind ≡ sig_queued
    → delegate fuel n first now rounds ≡ some (error, calls)
    → ¬ Posts n calls
unfolding delegate
delegate_queued-Posts n now fuel first rounds s calls e q h p =
    elim (Option-cases (watch_loop fuel n rounds 0 (begin n first now))) [
      | inl none_yet ↦ absurd (ground arith)
      | inr ((x, rest), found) ↦
          let whole : calls ≡ list_call n ∷ rest = ground arith in
          watch_loop-asked fuel n rounds 0 (begin n first now) rest (begin_asked n now first s e q)
            found (elim (subst (Posts n) whole p) [ inl k ↦ absurd (ground arith) | inr k ↦ k ])
    ]
