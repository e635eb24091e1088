-- ===== src/Client/RateLimit/Examples.antt =====
-- Rate limits that internal/ghclient/ratelimit.go meets.
use merge_bot.Base.{
  ℕ, zero, suc, ◌+◌, ◌*◌, ◌≤◌, ◌≡◌, ◌⊎◌, inl, refl, true, [], ◌∷◌, none, some, arith, String, codes,
  length, ltb, if◌then◌else◌, All, pos, negsuc, ◌≤ℤ◌, ltb_ℤ, second, parse_int,
}
use merge_bot.Merge.Errors.{ok}
use merge_bot.Client.Options.{new_transport, client_timeout}
use merge_bot.Client.RateLimit.{
  HttpResponse, Transport, rewindable, Exchange, rate_limit_wait, Trip, round_trip, secondary,
}
use merge_bot.Client.RateLimit.Delays.{at_reset, rate_limit_wait-Due}
use merge_bot.Client.RateLimit.Answers.{HandsOut, AllWaited, round_trip-HandsOut}

abbrev limited : String → HttpResponse
limited seconds = record { status = 429; retry_after = seconds; remaining = ""; reset = "" }

-- The quota is used up until second 100 of the epoch.
abbrev exhausted : HttpResponse
exhausted = record { status = 403; retry_after = ""; remaining = "0"; reset = "100" }

abbrev fine : HttpResponse
fine = record { status = 200; retry_after = ""; remaining = "10"; reset = "100" }

abbrev transport : Transport
transport = record { max_wait = pos (60 * second); retries = pos 3 }

abbrev response_at : ℕ → HttpResponse
response_at zero = limited "5"
response_at (suc zero) = exhausted
response_at (suc (suc k)) = fine

-- Two limits, and then an answer.
abbrev exchange : Exchange
exchange = record {
  answers = λ k. ok (response_at k);
  clock = λ k. 90 * second;
  body = rewindable;
  rewinds = λ k. true;
  interrupts = λ k. none;
}

trip_waited :
    round_trip transport exchange 4 0
    ≡ some (record {
      answer = ok fine;
      requests = 3;
      delays = pos (5 * second) ∷ pos (10 * second) ∷ [];
    })
unfolding round_trip parse_int
trip_waited = refl

-- Two waits of 10 minutes, each below the 15 minutes of the default settings.
abbrev slow_exchange : Exchange
slow_exchange = record exchange { answers = λ k. ok (if ltb k 2 then limited "600" else fine) }

trip_slow :
    round_trip (new_transport []) slow_exchange 4 0
    ≡ some (record {
      answer = ok fine;
      requests = 3;
      delays = pos (600 * second) ∷ pos (600 * second) ∷ [];
    })
unfolding round_trip parse_int new_transport
trip_slow = refl

-- The client that the transport stands in does not wait for that long.
outlasted : ltb_ℤ (client_timeout []) (pos (600 * second + 600 * second)) ≡ true
unfolding client_timeout
outlasted = refl

reset_read : parse_int (codes "100") ≡ some (pos 100)
unfolding parse_int
reset_read = refl

empty_read : secondary (parse_int (codes "")) ≡ none
unfolding parse_int
empty_read = refl

rate_limit_wait-Due_example :
    (delay : ℕ) × (rate_limit_wait (90 * second) exhausted ≡ some (pos delay))
    × (100 * second ≤ 90 * second + delay)
    × ((90 * second + delay ≤ 100 * second) ⊎ (delay ≡ 0))
rate_limit_wait-Due_example =
    rate_limit_wait-Due (90 * second) exhausted (100 * second) (inl refl)
      (at_reset 100 empty_read refl reset_read (omega arith) (omega arith))

-- A limit of 292 years and a half is waited out at once: the delay is negative.
abbrev endless_exchange : Exchange
endless_exchange = record exchange {
  answers = λ k. ok (if ltb k 1 then limited "9223372037" else fine);
}

trip_overflows :
    round_trip transport endless_exchange 4 0
    ≡ some (record { answer = ok fine; requests = 2; delays = negsuc 9223372036709551615 ∷ [] })
unfolding round_trip parse_int
trip_overflows = refl

round_trip-HandsOut_example :
    (trip : Trip) × (round_trip transport exchange 4 0 ≡ some trip)
    × (trip.requests ≤ 4)
    × (length trip.delays ≤ 3)
    × All (λ d. d ≤ℤ pos (60 * second)) trip.delays
    × ((last : ℕ) × (trip.requests ≡ suc last)
        × HandsOut transport exchange last trip.answer
        × AllWaited transport exchange 0 last)
round_trip-HandsOut_example = round_trip-HandsOut transport exchange
