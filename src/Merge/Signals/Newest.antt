-- ===== src/Merge/Signals/Newest.antt =====
-- The newest signal among the comments, for the loops of internal/merge/delegate.go.
use merge_bot.Base.{
  ◌≤◌, ◌≡◌, ◌⊎◌, inl, inr, refl, All-mono, Bool, true, false, List, [], ◌∷◌, Option, none, some,
  arith, All, Any, Bool-cases, Option-cases, if◌then◌else◌, ltb,
}
use merge_bot.Merge.Signals.{
  Comment, QueueSignal, parse_queue_signal, newer, newest_from, Since, is_after, newest_signal,
  queued_from_comments, in_queue, SignalKind, sig_queued, sig_batch, sig_rejected, sig_not_queued,
}

-- What the loop makes of the newest signal so far, at one comment.
abbrev seen : (Comment → Bool) → Comment → Option QueueSignal → Option QueueSignal
seen test c latest = if test c then newer latest (parse_queue_signal c) else latest

module _ (test : Comment → Bool) where
  -- The comment counts, and says this.
  abbrev pub Says : Comment → QueueSignal → Type 0
  Says c s = (test c ≡ true) × (parse_queue_signal c ≡ some s)

  -- Nothing that the comment says is newer.
  abbrev pub UpTo : QueueSignal → Comment → Type 0
  UpTo s c = (t : QueueSignal) → Says c t → t.at ≤ s.at

  newer-none : (a b : Option QueueSignal) → newer a b ≡ none → (a ≡ none) × (b ≡ none)
  newer-none none none h = (refl, refl)
  newer-none none (some s) h = absurd (ground arith)
  newer-none (some l) none h = absurd (ground arith)
  newer-none (some l) (some s) h = absurd (ground arith)

  newer-left :
      (a b : Option QueueSignal) (l s : QueueSignal) → a ≡ some l → newer a b ≡ some s → l.at ≤ s.at
  newer-left none b l s e h = absurd (ground arith)
  newer-left (some k) none l s e h = ground arith
  newer-left (some k) (some t) l s e h = ground arith

  newer-right :
      (a b : Option QueueSignal) (t s : QueueSignal) → b ≡ some t → newer a b ≡ some s → t.at ≤ s.at
  newer-right a none t s e h = absurd (ground arith)
  newer-right none (some k) t s e h = ground arith
  newer-right (some l) (some k) t s e h = ground arith

  newer-cases :
      (a b : Option QueueSignal) (s : QueueSignal)
      → newer a b ≡ some s
      → (a ≡ some s) ⊎ (b ≡ some s)
  newer-cases none none s h = inl h
  newer-cases none (some k) s h = inr h
  newer-cases (some l) none s h = inl h
  newer-cases (some l) (some k) s h = elim (Bool-cases (ltb l.at k.at)) [
    | inl later ↦ inr (ground arith)
    | inr earlier ↦ inl (ground arith)
  ]

  seen-none :
      (c : Comment) (latest : Option QueueSignal)
      → seen test c latest ≡ none
      → (latest ≡ none) × (test c ≡ true → parse_queue_signal c ≡ none)
  seen-none c latest h = elim (Bool-cases (test c)) [
    | inl on ↦
        let both = newer-none latest (parse_queue_signal c) (simp on at h) in
        (both.0, (λ _. both.1))
    | inr off ↦ (simp off at h, (λ on. absurd (ground arith)))
  ]

  seen-upper :
      (c : Comment) (latest : Option QueueSignal) (s : QueueSignal)
      → seen test c latest ≡ some s
      → ((l : QueueSignal) → latest ≡ some l → l.at ≤ s.at) × UpTo s c
  seen-upper c latest s h = elim (Bool-cases (test c)) [
    | inl on ↦
        let k : newer latest (parse_queue_signal c) ≡ some s = simp on at h in
        (
          (λ l e. newer-left latest (parse_queue_signal c) l s e k),
          (λ t says. newer-right latest (parse_queue_signal c) t s says.1 k),
        )
    | inr off ↦
        let k : latest ≡ some s = simp off at h in
        ((λ l e. ground arith), (λ t says. absurd (ground arith)))
  ]

  seen-origin :
      (c : Comment) (latest : Option QueueSignal) (s : QueueSignal)
      → seen test c latest ≡ some s
      → (latest ≡ some s) ⊎ Says c s
  seen-origin c latest s h = elim (Bool-cases (test c)) [
    | inl on ↦ elim (newer-cases latest (parse_queue_signal c) s (simp on at h)) [
      | inl e ↦ inl e
      | inr e ↦ inr (on, e)
    ]
    | inr off ↦ inl (simp off at h)
  ]

  newest_from-none :
      (latest : Option QueueSignal) (cs : List Comment)
      → newest_from test latest cs ≡ none
      → (latest ≡ none) × All (λ c. test c ≡ true → parse_queue_signal c ≡ none) cs
  unfolding newest_from
  newest_from-none latest [] h = (h, tt)
  newest_from-none latest (c ∷ cs) h =
      let later = newest_from-none (seen test c latest) cs h in
      let now = seen-none c latest later.0 in (now.0, (now.1, later.1))

  newest_from-origin :
      (latest : Option QueueSignal) (cs : List Comment) (s : QueueSignal)
      → newest_from test latest cs ≡ some s
      → (latest ≡ some s) ⊎ Any (λ c. Says c s) cs
  unfolding newest_from
  newest_from-origin latest [] s h = inl h
  newest_from-origin latest (c ∷ cs) s h = elim (newest_from-origin (seen test c latest) cs s h) [
    | inl e ↦ elim (seen-origin c latest s e) [ inl old ↦ inl old | inr says ↦ inr (inl says) ]
    | inr later ↦ inr (inr later)
  ]

  newest_from-upper :
      (latest : Option QueueSignal) (cs : List Comment) (s : QueueSignal)
      → newest_from test latest cs ≡ some s
      → ((l : QueueSignal) → latest ≡ some l → l.at ≤ s.at) × All (UpTo s) cs
  unfolding newest_from
  newest_from-upper latest [] s h = ((λ l e. ground arith), tt)
  newest_from-upper latest (c ∷ cs) s h =
      let later = newest_from-upper (seen test c latest) cs s h in
      elim (Option-cases (seen test c latest)) [
        | inl e ↦
            let now = seen-none c latest e in
            (
              (λ l k. absurd (ground (arith, now.0))),
              ((λ t says. absurd (ground (arith, now.1 says.0, says.1))), later.1),
            )
        | inr (k, e) ↦
            let now = seen-upper c latest k e in
            (
              (λ l i. omega (arith, now.0 l i, later.0 k e)),
              ((λ t says. omega (arith, now.1 t says, later.0 k e)), later.1),
            )
      ]

-- No comment that counts has a signal; or the signal is that of one of them, and none of them has a
-- newer one.
pub data Newest (test : Comment → Bool) (cs : List Comment) : Option QueueSignal → Type 0 where
  silent : All (λ c. test c ≡ true → parse_queue_signal c ≡ none) cs → Newest test cs none
  latest :
      (s : QueueSignal)
      → Any (λ c. Says test c s) cs
      → All (UpTo test s) cs
      → Newest test cs (some s)

newest_from-Newest :
    (test : Comment → Bool) (cs : List Comment) → Newest test cs (newest_from test none cs)
newest_from-Newest test cs = elim (Option-cases (newest_from test none cs)) [
  | inl e ↦ rw e (silent (newest_from-none test none cs e).1)
  | inr (s, e) ↦ rw e (
      latest s
        (elim (newest_from-origin test none cs s e) [ inl h ↦ absurd (ground arith) | inr h ↦ h ])
        (newest_from-upper test none cs s e).1)
]

-- The signal that latestSignal makes of the comments that were read is the newest one after the
-- given time, and there is none only if no comment after that time has a signal.
pub newest_signal-Newest :
    (since : Since) (cs : List Comment)
    → Newest (λ c. is_after since c.created_at) cs (newest_signal since cs)
unfolding newest_signal
newest_signal-Newest since cs = newest_from-Newest (λ c. is_after since c.created_at) cs

-- What the comments say: no signal; or the newest one is that the pull request is queued or its
-- batch is validated; or the newest one is that it was rejected or is not queued.
pub data Standing (cs : List Comment) : Bool → Type 0 where
  unknown : All (λ c. parse_queue_signal c ≡ none) cs → Standing cs false
  inside :
      (s : QueueSignal)
      → Newest (λ c. true) cs (some s)
      → (s.kind ≡ sig_queued) ⊎ (s.kind ≡ sig_batch)
      → Standing cs true
  outside :
      (s : QueueSignal)
      → Newest (λ c. true) cs (some s)
      → (s.kind ≡ sig_rejected) ⊎ (s.kind ≡ sig_not_queued)
      → Standing cs false

in_queue-Standing :
    (cs : List Comment) (o : Option QueueSignal)
    → Newest (λ c. true) cs o
    → Standing cs (in_queue o)
in_queue-Standing cs none (silent h) = unknown (All-mono _ _ (λ c k. k refl) cs h)
in_queue-Standing cs (some s) h = elim (SignalKind-cases s.kind) [
  | inl (inl e) ↦ rw e (inside s h (inl e))
  | inl (inr e) ↦ rw e (inside s h (inr e))
  | inr (inl e) ↦ rw e (outside s h (inl e))
  | inr (inr e) ↦ rw e (outside s h (inr e))
]
  where
    SignalKind-cases :
        (k : SignalKind)
        → ((k ≡ sig_queued) ⊎ (k ≡ sig_batch)) ⊎ ((k ≡ sig_rejected) ⊎ (k ≡ sig_not_queued))
    SignalKind-cases sig_queued = inl (inl refl)
    SignalKind-cases sig_batch = inl (inr refl)
    SignalKind-cases sig_rejected = inr (inl refl)
    SignalKind-cases sig_not_queued = inr (inr refl)

-- A pull request counts as queued externally if the newest signal of all its comments says that it
-- is queued or its batch is validated, and not if that signal says otherwise or there is none.
pub queued_from_comments-Standing : (cs : List Comment) → Standing cs (queued_from_comments cs)
unfolding queued_from_comments
queued_from_comments-Standing cs =
    in_queue-Standing cs (newest_from (λ c. true) none cs) (newest_from-Newest (λ c. true) cs)
