-- ===== src/Client/RateLimit.antt =====
-- internal/ghclient/ratelimit.go: the transport that waits out GitHub's rate limits. What it is put
-- on, the clock, the request's body and the timer are not part of the program: an `Exchange` is what
-- they answer for one request.
pub mod Delays
pub mod Trips
pub mod Answers
mod Examples
use merge_bot.Base.{
  ℕ, zero, suc, ◌-◌, ◌*◌, Bool, true, false, not, ◌&&◌, ◌||◌, List, [], ◌∷◌, Option, none, some,
  codes, ltb, ◌==◌, if◌then◌else◌, ℤ, pos, negsuc, ltb_ℤ, int64_half, wrap64, parse_int, second,
  String, str_eq,
}
use merge_bot.Merge.Errors.{Error, Result, ok, err}

-- What the transport reads of an `http.Response`: the status code, and the headers Retry-After,
-- X-RateLimit-Remaining and X-RateLimit-Reset, empty if they are missing.
pub record HttpResponse : Type 0 where
  pub status : ℕ
  pub retry_after : String
  pub remaining : String
  pub reset : String

pub record Transport : Type 0 where
  pub max_wait : ℤ
  pub retries : ℤ

-- `req.Body` and `req.GetBody`
pub data Body : Type 0 where
  absent fixed rewindable : Body

-- By the number of the attempt: what the base transport answers, the clock in nanoseconds since the
-- epoch, whether the body can be replayed, and the error that ends the wait early.
pub record Exchange : Type 0 where
  pub answers : ℕ → Result HttpResponse
  pub clock : ℕ → ℕ
  pub body : Body
  pub rewinds : ℕ → Bool
  pub interrupts : ℕ → Option Error

-- The last second that `time.Unix` takes without a wrap: beyond, the time lies in the past.
abbrev pub last_epoch : ℕ
last_epoch = 9223371974719179007

-- `time.Until(time.Unix(epoch, 0))`, 0 where it is negative, and at most the largest duration.
unfoldable pub until : ℕ → ℤ → ℤ
until now (negsuc n) = pos 0
until now (pos epoch) =
    let left = epoch * second - now in
    if ltb last_epoch epoch
    then pos 0
    else if ltb left int64_half
    then pos left
    else pos (int64_half - 1)

-- `time.Duration(secs) * time.Second` of a header that holds an int, not negative.
abbrev pub secondary : Option ℤ → Option ℤ
secondary (some (pos secs)) = some (wrap64 (secs * second))
secondary (some (negsuc n)) = none
secondary none = none

unfoldable pub primary : ℕ → HttpResponse → Option ℤ
unfolding until
primary now resp =
    if str_eq resp.remaining "0"
    then elim (parse_int (codes resp.reset)) [ none ↦ none | some epoch ↦ some (until now epoch) ]
    else none

-- `rateLimitWait`: the delay, if a rate limit is reported. An empty header holds no number.
unfoldable pub rate_limit_wait : ℕ → HttpResponse → Option ℤ
unfolding primary
rate_limit_wait now resp =
    if not (resp.status == 403) && not (resp.status == 429)
    then none
    else elim (secondary (parse_int (codes resp.retry_after))) [
      | some delay ↦ some delay
      | none ↦ primary now resp
    ]

unfoldable pub replays : Exchange → ℕ → Bool
replays x k = elim x.body [ absent ↦ true | fixed ↦ false | rewindable ↦ x.rewinds k ]

-- The answer, the number of requests sent, and the delays waited, in their order.
pub record Trip : Type 0 where
  pub answer : Result HttpResponse
  pub requests : ℕ
  pub delays : List ℤ

abbrev pub after : ℤ → Option Trip → Option Trip
after delay none = none
after delay (some trip) =
    some (record trip { requests = suc trip.requests; delays = delay ∷ trip.delays })

abbrev pub last_trip : Result HttpResponse → List ℤ → Option Trip
last_trip answer delays = some (record { answer = answer; requests = 1; delays = delays })

-- A response, and what the rest of the loop does if it is retried.
unfoldable pub answered : Transport → Exchange → ℕ → HttpResponse → Option Trip → Option Trip
unfolding rate_limit_wait replays
answered t x k resp rest = elim (rate_limit_wait (x.clock k) resp) [
  | none ↦ last_trip (ok resp) []
  | some delay ↦
      if ltb_ℤ t.max_wait delay || not (ltb_ℤ (pos k) t.retries)
      then last_trip (ok resp) []
      else if not (replays x k)
      then last_trip (ok resp) []
      else elim (x.interrupts k) [
        | some e ↦ last_trip (err e) (delay ∷ [])
        | none ↦ after delay rest
      ]
]

-- The loop of `RoundTrip` from attempt `k` on; `none` if the fuel does not suffice.
unfoldable pub round_trip : Transport → Exchange → ℕ → ℕ → Option Trip
unfolding answered
round_trip t x zero k = none
round_trip t x (suc fuel) k =
    let rest = round_trip t x fuel (suc k) in
    elim (x.answers k) [ err e ↦ last_trip (err e) [] | ok resp ↦ answered t x k resp rest ]
