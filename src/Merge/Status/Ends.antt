-- ===== src/Merge/Status/Ends.antt =====
-- When the loop of `Probe` of internal/merge/status.go ends.
use merge_bot.Base.{
  ℕ, zero, suc, ◌+◌, ◌*◌, ◌<◌, ◌≡◌, ◌⊎◌, ◌↔◌, inl, inr, subst, true, List, [], ◌∷◌, none, some,
  arith, Text, ltb, ℤ, Any, Bool-cases, Option-cases, second,
}
use merge_bot.Merge.Errors.{Error, Result, ok, err, Result-cases}
use merge_bot.Merge.Signals.{Comment}
use merge_bot.Merge.Status.{
  Probing, or_default, is_reply, find_reply, no_reply, summarize_status, read_round, round, rounds,
  probe,
}

-- A reply of the queue bot stands among the comments.
abbrev pub Replied : Probing → List Comment → Type 0
Replied w comments = Any (λ c. is_reply w.asked c ≡ true) comments

-- The context is done in round `k`; or its comments could be read, and the reply stands among them, or
-- the deadline is over.
abbrev pub Closes : Probing → ℕ → ℕ → Type 0
Closes w wait k =
    ((e : Error) × (w.cancels k ≡ some e))
    ⊎ ((comments : List Comment) × (w.comments k ≡ ok comments)
        × (Replied w comments ⊎ (w.started + wait < w.clock k)))

find_reply-Any :
    (asked : ℕ) (comments : List Comment)
    → Any (λ c. is_reply asked c ≡ true) comments
    → (c : Comment) × (find_reply asked comments ≡ some c)
unfolding find_reply
find_reply-Any asked [] h = elim h [ ]
find_reply-Any asked (c ∷ cs) (inl h) = (c, simp (h, find_reply))
find_reply-Any asked (c ∷ cs) (inr h) = elim (Bool-cases (is_reply asked c)) [
  | inl reply ↦ (c, simp (reply, find_reply))
  | inr other ↦ let (d, found) = find_reply-Any asked cs h in (d, simp (other, find_reply) found)
]

Any-find_reply :
    (asked : ℕ) (comments : List Comment) (c : Comment)
    → find_reply asked comments ≡ some c
    → Any (λ d. is_reply asked d ≡ true) comments
unfolding find_reply
Any-find_reply asked [] c h = absurd (ground arith)
Any-find_reply asked (d ∷ ds) c h = elim (Bool-cases (is_reply asked d)) [
  | inl reply ↦ inl reply
  | inr other ↦ inr (Any-find_reply asked ds c (ground (arith, h)))
]

module _ (w : Probing) (wait : ℕ) where
  Closes-round : (k : ℕ) → Closes w wait k → (answer : Result Text) × (round w wait k ≡ some answer)
  unfolding round read_round
  Closes-round k (inl (e, q)) = (err e, simp (q, round))
  Closes-round k (inr (comments, read, why)) = elim (Option-cases (w.cancels k)) [
    | inr (e, q) ↦ (err e, simp (q, round))
    | inl free ↦ elim (Option-cases (find_reply w.asked comments)) [
      | inr (c, found) ↦
          (ok (summarize_status c.body), simp (free, read, round) (simp (found, read_round)))
      | inl silent ↦ elim why [
        | inl replied ↦
            let (c, found) = find_reply-Any w.asked comments replied in
            absurd (ground (arith, found, silent))
        | inr late ↦
            let over : ltb (w.started + wait) (w.clock k) ≡ true = ground (arith, late) in
            (err (no_reply wait), simp (free, read, round) (simp (silent, over, read_round)))
      ]
    ]
  ]

  read_round-Closes :
      (k : ℕ) (comments : List Comment) (answer : Result Text)
      → w.comments k ≡ ok comments
      → read_round w wait k comments ≡ some answer
      → Closes w wait k
  unfolding read_round
  read_round-Closes k comments answer read h = elim (Option-cases (find_reply w.asked comments)) [
    | inr (c, found) ↦ inr (comments, read, inl (Any-find_reply w.asked comments c found))
    | inl silent ↦ elim (Bool-cases (ltb (w.started + wait) (w.clock k))) [
      | inl over ↦ inr (comments, read, inr (ground (arith, over)))
      | inr early ↦ absurd (ground (arith, h, silent, early))
    ]
  ]

  round-Closes : (k : ℕ) (answer : Result Text) → round w wait k ≡ some answer → Closes w wait k
  unfolding round
  round-Closes k answer h = elim (Option-cases (w.cancels k)) [
    | inr (e, q) ↦ inl (e, q)
    | inl free ↦ elim (Result-cases (w.comments k)) [
      | inr (e, failed) ↦ absurd (ground (arith, h, free, failed))
      | inl (comments, read) ↦
          read_round-Closes k comments answer read (ground (arith, h, free, read))
    ]
  ]

  -- Enough fuel for a round that closes the loop, if no earlier one does.
  Closes-rounds :
      (n j k : ℕ)
      → k ≡ j + n
      → Closes w wait k
      → (answer : Result Text) × (rounds w wait (suc n) j ≡ some answer)
  unfolding rounds
  Closes-rounds zero j k same closes =
      let here : Closes w wait j = subst (Closes w wait) (omega (arith, same)) closes in
      let (answer, closed) = Closes-round j here in (answer, simp (closed, rounds))
  Closes-rounds (suc n) j k same closes = elim (Option-cases (round w wait j)) [
    | inr (answer, closed) ↦ (answer, simp (closed, rounds))
    | inl goes_on ↦
        let (answer, later) = Closes-rounds n (suc j) k (omega (arith, same)) closes in
        (answer, simp (goes_on, rounds) later)
  ]

  rounds-Closes :
      (fuel j : ℕ) (answer : Result Text)
      → rounds w wait fuel j ≡ some answer
      → (k : ℕ) × Closes w wait k
  unfolding rounds
  rounds-Closes zero j answer h = absurd (ground arith)
  rounds-Closes (suc fuel) j answer h = elim (Option-cases (round w wait j)) [
    | inr (closing, closed) ↦ (j, round-Closes j closing closed)
    | inl goes_on ↦ rounds-Closes fuel (suc j) answer (ground (arith, h, goes_on))
  ]

-- A probe whose comment was posted returns, with some fuel, if and only if in some round its context is
-- done, or the comments could be read and hold the reply, or could be read behind the deadline.
pub probe-Closes_iff :
    (w : Probing) (wait_for : ℤ)
    → w.posted ≡ none
    → ((fuel : ℕ) × (answer : Result Text) × (probe w wait_for fuel ≡ some answer))
      ↔ ((k : ℕ) × Closes w (or_default wait_for (20 * second)) k)
unfolding probe
probe-Closes_iff w wait_for posted =
    let wait : ℕ = or_default wait_for (20 * second) in
    (
      (λ (fuel, answer, h). rounds-Closes w wait fuel 0 answer (ground (arith, h, posted))),
      (λ (k, closes).
          let (answer, h) = Closes-rounds w wait k 0 k (omega arith) closes in
          (suc k, answer, simp (posted, probe) h)),
    )
