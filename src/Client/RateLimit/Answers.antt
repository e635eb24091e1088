-- ===== src/Client/RateLimit/Answers.antt =====
-- The response that RoundTrip of internal/ghclient/ratelimit.go hands out.
use merge_bot.Base.{
  ℕ, suc, ◌+◌, ◌≤◌, ◌<◌, ◌≡◌, inl, inr, refl, sym, subst, none, some, arith, Bool-cases, ◌==◌, ℤ,
  ◌≤ℤ◌, All, length, pos_part,
}
use merge_bot.Merge.Errors.{Error, Result, ok, err}
use merge_bot.Client.RateLimit.{
  HttpResponse, Transport, Exchange, rate_limit_wait, Trip, round_trip,
}
use merge_bot.Client.RateLimit.Trips.{
  Waited, GivenUp, Settled, failed, unlimited, given_up, interrupted, retried, Settled-Bounded,
  round_trip-Ends,
}

-- What attempt `last` hands out, as the last one.
pub data HandsOut (t : Transport) (x : Exchange) (last : ℕ) (answer : Result HttpResponse)
    : Type 0 where
  passed_on :
      answer ≡ x.answers last
      → ((resp : HttpResponse) (delay : ℤ)
          → x.answers last ≡ ok resp
          → rate_limit_wait (x.clock last) resp ≡ some delay
          → GivenUp t x last delay)
      → HandsOut t x last answer
  cut_short :
      (delay : ℤ) (e : Error)
      → Waited t x last delay
      → x.interrupts last ≡ some e
      → answer ≡ err e
      → HandsOut t x last answer

-- The attempts from `k` on, the last one aside, were all answered by limits and waited out.
abbrev pub AllWaited : Transport → Exchange → ℕ → ℕ → Type 0
AllWaited t x k last =
    (j : ℕ) → k ≤ j → j < last → ((delay : ℤ) × Waited t x j delay) × (x.interrupts j ≡ none)

module _ (t : Transport) (x : Exchange) where
  Settled-HandsOut :
      (k : ℕ) (trip : Trip)
      → Settled t x k trip
      → (last : ℕ) × (trip.requests + k ≡ suc last)
        × HandsOut t x last trip.answer
        × AllWaited t x k last
  Settled-HandsOut _ _ (failed k e q) = (
    k,
    omega arith,
    passed_on (sym q) (λ resp delay r. absurd (ground (arith, q, r))),
    (λ j from below. absurd (omega (arith, from, below))),
  )
  Settled-HandsOut _ _ (unlimited k resp q free) = (
    k,
    omega arith,
    passed_on (sym q) (λ other delay r limited. absurd (ground (arith, q, r, free, limited))),
    (λ j from below. absurd (omega (arith, from, below))),
  )
  Settled-HandsOut _ _ (given_up k resp delay q limited why) = (
    k,
    omega arith,
    passed_on (sym q)
        (λ other found r reported. let same : delay ≡ found = cc in subst (GivenUp t x k) same why),
    (λ j from below. absurd (omega (arith, from, below))),
  )
  Settled-HandsOut _ _ (interrupted k delay e waited i) = (
    k,
    omega arith,
    cut_short delay e waited i refl,
    (λ j from below. absurd (omega (arith, from, below))),
  )
  Settled-HandsOut _ _ (retried k delay trip waited i settled) =
      let (last, count, out, before) = Settled-HandsOut (suc k) trip settled in
      (
        last,
        omega (arith, count),
        out,
        (λ j from below. elim (Bool-cases (k == j)) [
          | inl same ↦
              let k_is_j : k ≡ j = ground arith in
              subst (λ n. ((d : ℤ) × Waited t x n d) × (x.interrupts n ≡ none)) k_is_j
                ((delay, waited), i)
          | inr other ↦ before j (ground (arith, from)) below
        ]),
      )

-- A request ends: with fuel for one attempt more than the retries, the loop returns. It has sent at most
-- one request more than the retries, has waited at most as often as there are retries, and no delay that
-- it waited is longer than the largest wait. It hands out the answer to its last request, or the error
-- that cut its last wait short; all requests before were answered by rate limits that were waited out;
-- and if the answer handed out reports a limit, its delay is too long, the retries are used up, or the
-- request's body cannot be replayed.
pub round_trip-HandsOut :
    (t : Transport) (x : Exchange)
    → (trip : Trip) × (round_trip t x (suc (pos_part t.retries)) 0 ≡ some trip)
      × (trip.requests ≤ suc (pos_part t.retries))
      × (length trip.delays ≤ pos_part t.retries)
      × All (λ d. d ≤ℤ t.max_wait) trip.delays
      × ((last : ℕ) × (trip.requests ≡ suc last)
          × HandsOut t x last trip.answer
          × AllWaited t x 0 last)
round_trip-HandsOut t x =
    let (trip, same, settled) = round_trip-Ends t x (suc (pos_part t.retries)) 0 (omega arith) in
    let (sent, slept, within) = Settled-Bounded t x 0 trip settled in
    let (last, count, out, before) = Settled-HandsOut t x 0 trip settled in
    (
      trip,
      same,
      omega (arith, sent),
      omega (arith, slept),
      within,
      (last, omega (arith, count), out, before),
    )
