-- ===== src/Client/RateLimit/Trips.antt =====
-- The loop of RoundTrip of internal/ghclient/ratelimit.go.
use merge_bot.Base.{
  ℕ, zero, suc, ◌-◌, ◌≤◌, ◌<◌, ◌≡◌, ◌⊎◌, inl, inr, true, false, [], ◌∷◌, Option, none, some, arith,
  Bool-cases, Option-cases, ℤ, pos, negsuc, ◌≤ℤ◌, pos_part, ltb_ℤ, All, length,
}
use merge_bot.Merge.Errors.{Error, ok, err, Result-cases}
use merge_bot.Client.RateLimit.{
  HttpResponse, Transport, Exchange, rate_limit_wait, replays, Trip, answered, round_trip,
}

-- Attempt `k` is answered by a rate limit whose delay is waited, and is followed by another.
abbrev pub Waited : Transport → Exchange → ℕ → ℤ → Type 0
Waited t x k delay =
    (resp : HttpResponse) × (x.answers k ≡ ok resp)
    × (rate_limit_wait (x.clock k) resp ≡ some delay)
    × (delay ≤ℤ t.max_wait)
    × (k < pos_part t.retries)
    × (replays x k ≡ true)

-- Why a response that reports a rate limit is passed on: the delay is too long, the attempts are used
-- up, or the body cannot be replayed.
abbrev pub GivenUp : Transport → Exchange → ℕ → ℤ → Type 0
GivenUp t x k delay =
    (ltb_ℤ t.max_wait delay ≡ true) ⊎ (pos_part t.retries ≤ k) ⊎ (replays x k ≡ false)

-- The loop from attempt `k` on, told from outside.
pub data Settled (t : Transport) (x : Exchange) : ℕ → Trip → Type 0 where
  failed :
      (k : ℕ) (e : Error)
      → x.answers k ≡ err e
      → Settled t x k (record { answer = err e; requests = 1; delays = [] })
  unlimited :
      (k : ℕ) (resp : HttpResponse)
      → x.answers k ≡ ok resp
      → rate_limit_wait (x.clock k) resp ≡ none
      → Settled t x k (record { answer = ok resp; requests = 1; delays = [] })
  given_up :
      (k : ℕ) (resp : HttpResponse) (delay : ℤ)
      → x.answers k ≡ ok resp
      → rate_limit_wait (x.clock k) resp ≡ some delay
      → GivenUp t x k delay
      → Settled t x k (record { answer = ok resp; requests = 1; delays = [] })
  interrupted :
      (k : ℕ) (delay : ℤ) (e : Error)
      → Waited t x k delay
      → x.interrupts k ≡ some e
      → Settled t x k (record { answer = err e; requests = 1; delays = delay ∷ [] })
  retried :
      (k : ℕ) (delay : ℤ) (trip : Trip)
      → Waited t x k delay
      → x.interrupts k ≡ none
      → Settled t x (suc k) trip
      → Settled t x k (record {
        answer = trip.answer;
        requests = suc trip.requests;
        delays = delay ∷ trip.delays;
      })

-- The loop ends, with fuel for the attempts that are left.
abbrev pub Ends : Transport → Exchange → ℕ → Option Trip → Type 0
Ends t x k result = (trip : Trip) × (result ≡ some trip) × Settled t x k trip

attempts_left : (k : ℕ) (r : ℤ) → ltb_ℤ (pos k) r ≡ true → k < pos_part r
attempts_left k (pos n) h = ground arith
attempts_left k (negsuc n) h = absurd (ground arith)

attempts_over : (k : ℕ) (r : ℤ) → ltb_ℤ (pos k) r ≡ false → pos_part r ≤ k
attempts_over k (pos n) h = ground arith
attempts_over k (negsuc n) h = omega arith

module _ (t : Transport) (x : Exchange) where
  limited-Ends :
      (k : ℕ) (resp : HttpResponse) (delay : ℤ) (rest : Option Trip)
      → x.answers k ≡ ok resp
      → rate_limit_wait (x.clock k) resp ≡ some delay
      → (k < pos_part t.retries → Ends t x (suc k) rest)
      → ltb_ℤ t.max_wait delay ≡ false
      → ltb_ℤ (pos k) t.retries ≡ true
      → Ends t x k (answered t x k resp rest)
  unfolding answered
  limited-Ends k resp delay rest q limited next short left = elim (Bool-cases (replays x k)) [
    | inr stuck ↦ (
      record { answer = ok resp; requests = 1; delays = [] },
      simp (limited, short, left, stuck, answered),
      given_up k resp delay q limited (inr (inr stuck)),
    )
    | inl replayed ↦
        let more : k < pos_part t.retries = attempts_left k t.retries left in
        let waited : Waited t x k delay =
          (resp, q, limited, ground (arith, short), more, replayed) in
        elim (Option-cases (x.interrupts k)) [
          | inr (e, i) ↦ (
            record { answer = err e; requests = 1; delays = delay ∷ [] },
            simp (limited, short, left, replayed, i, answered),
            interrupted k delay e waited i,
          )
          | inl i ↦
              let (trip, same, settled) = next more in
              (
                record {
                  answer = trip.answer;
                  requests = suc trip.requests;
                  delays = delay ∷ trip.delays;
                },
                simp (limited, short, left, replayed, i, same, answered),
                retried k delay trip waited i settled,
              )
        ]
  ]

  answered-Ends :
      (k : ℕ) (resp : HttpResponse) (rest : Option Trip)
      → x.answers k ≡ ok resp
      → (k < pos_part t.retries → Ends t x (suc k) rest)
      → Ends t x k (answered t x k resp rest)
  unfolding answered
  answered-Ends k resp rest q next = elim (Option-cases (rate_limit_wait (x.clock k) resp)) [
    | inl free ↦ (
      record { answer = ok resp; requests = 1; delays = [] },
      simp (free, answered),
      unlimited k resp q free,
    )
    | inr (delay, limited) ↦ elim (Bool-cases (ltb_ℤ t.max_wait delay)) [
      | inl long ↦ (
        record { answer = ok resp; requests = 1; delays = [] },
        simp (limited, long, answered),
        given_up k resp delay q limited (inl long),
      )
      | inr short ↦ elim (Bool-cases (ltb_ℤ (pos k) t.retries)) [
        | inr last ↦ (
          record { answer = ok resp; requests = 1; delays = [] },
          simp (limited, short, last, answered),
          given_up k resp delay q limited (inr (inl (attempts_over k t.retries last))),
        )
        | inl left ↦ limited-Ends k resp delay rest q limited next short left
      ]
    ]
  ]

  pub round_trip-Ends :
      (fuel k : ℕ) → pos_part t.retries - k < fuel → Ends t x k (round_trip t x fuel k)
  unfolding round_trip
  round_trip-Ends zero k enough = absurd (omega (arith, enough))
  round_trip-Ends (suc fuel) k enough = elim (Result-cases (x.answers k)) [
    | inr (e, q) ↦
        (record { answer = err e; requests = 1; delays = [] }, simp (q, round_trip), failed k e q)
    | inl (resp, q) ↦
        let (trip, same, settled) =
          answered-Ends k resp (round_trip t x fuel (suc k)) q
            (λ more. round_trip-Ends fuel (suc k) (omega (arith, enough, more))) in
        (trip, simp (q, round_trip) same, settled)
  ]

  pub Settled-Bounded :
      (k : ℕ) (trip : Trip)
      → Settled t x k trip
      → (trip.requests ≤ suc (pos_part t.retries - k))
        × (length trip.delays ≤ pos_part t.retries - k)
        × All (λ d. d ≤ℤ t.max_wait) trip.delays
  Settled-Bounded _ _ (failed k e q) = (omega arith, omega arith, tt)
  Settled-Bounded _ _ (unlimited k resp q free) = (omega arith, omega arith, tt)
  Settled-Bounded _ _ (given_up k resp delay q limited why) = (omega arith, omega arith, tt)
  Settled-Bounded _ _ (interrupted k delay e (resp, q, limited, short, more, replayed) i) =
      (omega arith, omega arith, (short, tt))
  Settled-Bounded _ _ (retried k delay trip (resp, q, limited, short, more, replayed) i settled) =
      let (sent, slept, within) = Settled-Bounded (suc k) trip settled in
      (omega arith, omega arith, (short, within))
