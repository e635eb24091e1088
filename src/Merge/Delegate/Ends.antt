-- ===== src/Merge/Delegate/Ends.antt =====
-- How the loop of the delegate runner of internal/merge/delegate.go ends.
use merge_bot.Base.{
  ℕ, zero, suc, ◌+◌, ◌<◌, ◌≡◌, ◌≢◌, ◌⊎◌, inl, inr, true, false, List, Option, none, some, arith,
  str_eq, Bool-cases, Option-cases,
}
use native.Mathlib.Nat.{zero-add, add-zero}
use merge_bot.Merge.Errors.{Error, ok, Result-cases}
use merge_bot.Merge.Github.{PullRequest}
use merge_bot.Merge.Signals.{QueueSignal}
use merge_bot.Merge.Delegate.{
  QueueClient, QueueCall, Round, Watch, Turn, returns, watches, begin, ask_queue, not_asked, look,
  poll_round, heed, QueueEnding, watch_loop, delegate, after_round, delegate_not_open,
  latest_signal,
}

-- GitHub said in this round that the pull request is merged.
abbrev pub SaysMerged : ℕ → Round → Type 0
SaysMerged n round =
    (pr : PullRequest) × (round.client.get_pull_request n ≡ ok pr) × (pr.merged ≡ true)

-- The pull request was read, and is merged or not open; or the wait behind the round is cancelled.
abbrev pub IsLast : ℕ → Round → Type 0
IsLast n round =
    ((pr : PullRequest) × (round.client.get_pull_request n ≡ ok pr)
      × ((pr.merged ≡ true) ⊎ (str_eq pr.state "open" ≡ false)))
    ⊎ ((e : Error) × (round.interrupted ≡ some e))

heed-ne-nil : (n : ℕ) (w : Watch) (o : Option QueueSignal) → heed n w o ≢ returns none
unfolding heed
heed-ne-nil n w none h = ground arith
heed-ne-nil n w (some s) h = ground arith

not_asked-ne-nil :
    (n : ℕ) (round : Round) (w : Watch) (pr : PullRequest)
    → (not_asked n round w pr).0 ≢ returns none
unfolding not_asked ask_queue
not_asked-ne-nil n round w pr h = ground arith

look-merged :
    (n : ℕ) (round : Round) (w : Watch) (pr : PullRequest)
    → (look n round w pr).0 ≡ returns none
    → pr.merged ≡ true
unfolding look
look-merged n round w pr h = ground (
  arith,
  not_asked-ne-nil n round w pr,
  heed-ne-nil n w (latest_signal n round.client w.watch_from),
)

poll_round-SaysMerged :
    (n : ℕ) (round : Round) (w : Watch)
    → (poll_round n round w).0 ≡ returns none
    → SaysMerged n round
unfolding poll_round
poll_round-SaysMerged n round w h = elim (Result-cases (round.client.get_pull_request n)) [
  | inl (pr, e) ↦ (pr, e, look-merged n round w pr (ground arith))
  | inr (x, e) ↦ absurd (ground arith)
]

-- A last round ends the loop.
poll_round-last :
    (n : ℕ) (round : Round) (w : Watch)
    → IsLast n round
    → ((error : Option Error) × ((poll_round n round w).0 ≡ returns error))
      ⊎ ((e : Error) × (round.interrupted ≡ some e))
unfolding poll_round look
poll_round-last n round w (inr h) = inr h
poll_round-last n round w (inl (pr, e, inl m)) = inl (none, ground arith)
poll_round-last n round w (inl (pr, e, inr c)) = elim (Bool-cases pr.merged) [
  | inl m ↦ inl (none, ground arith)
  | inr m ↦ inl (some (delegate_not_open n pr.state), ground (arith, e, m, c))
]

module _ (calls : List QueueCall) (later : Watch → Option QueueEnding) where
  after_round-nil :
      (i : Option Error) (t : Turn) {all : List QueueCall}
      → after_round calls i t later ≡ some (none, all)
      → (t ≡ returns none) ⊎ ((w : Watch) × (rest : List QueueCall) × (later w ≡ some (none, rest)))
  unfolding after_round
  after_round-nil i (returns error) h = inl (ground arith)
  after_round-nil none (watches w) h = elim (Option-cases (later w)) [
    | inl e ↦ absurd (ground arith)
    | inr ((none, rest), e) ↦ inr (w, rest, e)
    | inr ((some x, rest), e) ↦ absurd (ground arith)
  ]
  after_round-nil (some e) (watches w) h = absurd (ground arith)

  after_round-goes :
      (i : Option Error) (t : Turn)
      → ((w : Watch) → later w ≢ none)
      → after_round calls i t later ≢ none
  unfolding after_round
  after_round-goes i (returns error) h k = ground arith
  after_round-goes none (watches w) h k = ground (arith, h w)
  after_round-goes (some e) (watches w) h k = ground arith

  after_round-last :
      (i : Option Error) (t : Turn)
      → ((error : Option Error) × (t ≡ returns error)) ⊎ ((e : Error) × (i ≡ some e))
      → after_round calls i t later ≢ none
  unfolding after_round
  after_round-last i (returns error) h k = ground arith
  after_round-last none (watches w) (inl (error, e)) k = ground arith
  after_round-last none (watches w) (inr (x, e)) k = ground arith
  after_round-last (some e) (watches w) h k = ground arith

watch_loop-ends :
    (last k fuel n : ℕ) (rounds : ℕ → Round) (w : Watch)
    → IsLast n (rounds (last + k))
    → last < fuel
    → watch_loop fuel n rounds k w ≢ none
unfolding watch_loop
watch_loop-ends last k zero n rounds w h f = absurd (omega arith)
watch_loop-ends zero k (suc fuel) n rounds w h f =
    after_round-last _ _ _ _ (poll_round-last n (rounds k) w (rw zero-add at h))
watch_loop-ends (suc last) k (suc fuel) n rounds w h f = after_round-goes _ _ _ _ (λ w'.
    watch_loop-ends last (suc k) fuel n rounds w' (rw (add_suc_left last k) at h) (omega arith))
  where
    add_suc_left : (a b : ℕ) → suc a + b ≡ a + suc b
    add_suc_left a b = omega arith

-- The watch has no deadline, but it ends: if in round `last` the pull request is read as merged or as
-- not open, or the wait behind that round is cancelled, then `last + 1` rounds of fuel are enough.
pub delegate_ends :
    (n now last fuel : ℕ) (first : QueueClient) (rounds : ℕ → Round)
    → IsLast n (rounds last)
    → last < fuel
    → (x : QueueEnding) × (delegate fuel n first now rounds ≡ some x)
unfolding delegate
delegate_ends n now last fuel first rounds h f =
    elim (Option-cases (delegate fuel n first now rounds)) [
      | inl e ↦ absurd (
          watch_loop-ends last 0 fuel n rounds (begin n first now) (rw add-zero h) f (ground arith))
      | inr found ↦ found
    ]

watch_loop-nil :
    (fuel n : ℕ) (rounds : ℕ → Round) (k : ℕ) (w : Watch) (calls : List QueueCall)
    → watch_loop fuel n rounds k w ≡ some (none, calls)
    → (round : ℕ) × (round < k + fuel) × SaysMerged n (rounds round)
unfolding watch_loop
watch_loop-nil zero n rounds k w calls h = absurd (ground arith)
watch_loop-nil (suc fuel) n rounds k w calls h = elim (after_round-nil _ _ _ _ h) [
  | inl e ↦ (k, omega arith, poll_round-SaysMerged n (rounds k) w e)
  | inr (w', rest, e) ↦
      let (round, b, m) = watch_loop-nil fuel n rounds (suc k) w' rest e in (round, omega arith, m)
]

-- The delegate runner ends with no error only if GitHub said in one of its rounds that the pull
-- request is merged.
pub delegate_nil :
    (n now fuel : ℕ) (first : QueueClient) (rounds : ℕ → Round) {calls : List QueueCall}
    → delegate fuel n first now rounds ≡ some (none, calls)
    → (round : ℕ) × (round < fuel) × SaysMerged n (rounds round)
unfolding delegate
delegate_nil n now fuel first rounds {calls} h =
    elim (Option-cases (watch_loop fuel n rounds 0 (begin n first now))) [
      | inl e ↦ absurd (ground arith)
      | inr ((none, rest), e) ↦
          let (round, b, m) = watch_loop-nil fuel n rounds 0 (begin n first now) rest e in
          (round, omega arith, m)
      | inr ((some x, rest), e) ↦ absurd (ground arith)
    ]
