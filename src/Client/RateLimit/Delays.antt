-- ===== src/Client/RateLimit/Delays.antt =====
-- The delay that `rateLimitWait` of internal/ghclient/ratelimit.go reads off a response.
use merge_bot.Base.{
  ℕ, suc, ◌+◌, ◌-◌, ◌*◌, ◌%◌, ◌≤◌, ◌<◌, ◌≡◌, ◌⊎◌, inl, ap, ◌∙◌, not, ◌&&◌, true, false, none, some,
  arith, codes, ltb, ◌==◌, ℤ, pos, int64_half, int64_mod, wrap64, parse_int, second, str_eq,
}
use merge_bot.Client.RateLimit.{
  HttpResponse, until, secondary, primary, rate_limit_wait, last_epoch,
}

-- A response whose status allows for a rate limit.
abbrev pub MayLimit : HttpResponse → Type 0
MayLimit resp = (resp.status ≡ 403) ⊎ (resp.status ≡ 429)

-- The header Retry-After holds a number of seconds.
abbrev pub Asks : HttpResponse → ℕ → Type 0
Asks resp secs = parse_int (codes resp.retry_after) ≡ some (pos secs)

-- When the limit that a response reports is over, in nanoseconds since the epoch: behind the seconds
-- that Retry-After asks for, or, without such a number, at X-RateLimit-Reset.
pub data Due (now : ℕ) (resp : HttpResponse) : ℕ → Type 0 where
  after_seconds :
      (secs : ℕ) → Asks resp secs → secs * second < int64_half → Due now resp (now + secs * second)
  at_reset :
      (epoch : ℕ)
      → secondary (parse_int (codes resp.retry_after)) ≡ none
      → resp.remaining ≡ "0"
      → parse_int (codes resp.reset) ≡ some (pos epoch)
      → epoch < suc last_epoch
      → epoch * second < now + int64_half
      → Due now resp (epoch * second)

wrap64-below : (n : ℕ) → n < int64_half → wrap64 n ≡ pos n
wrap64-below n h =
    let whole : n % int64_mod ≡ n = omega (arith, h) in
    let small : ltb n int64_half ≡ true = ground (arith, h) in simp (whole, small)

limit_tested :
    (resp : HttpResponse)
    → MayLimit resp
    → not (resp.status == 403) && not (resp.status == 429) ≡ false
limit_tested resp h = ground (arith, h)

rate_limit_wait-secondary :
    (now : ℕ) (resp : HttpResponse) (secs : ℕ)
    → MayLimit resp
    → Asks resp secs
    → rate_limit_wait now resp ≡ some (wrap64 (secs * second))
unfolding rate_limit_wait
rate_limit_wait-secondary now resp secs h asks = simp (limit_tested resp h, asks, rate_limit_wait)

rate_limit_wait-primary :
    (now : ℕ) (resp : HttpResponse) (epoch : ℤ)
    → MayLimit resp
    → secondary (parse_int (codes resp.retry_after)) ≡ none
    → resp.remaining ≡ "0"
    → parse_int (codes resp.reset) ≡ some epoch
    → rate_limit_wait now resp ≡ some (until now epoch)
unfolding rate_limit_wait
rate_limit_wait-primary now resp epoch h unasked exhausted reset =
    let empty : str_eq resp.remaining "0" ≡ true = ap (λ s. str_eq s "0") exhausted in
    simp (limit_tested resp h, unasked, rate_limit_wait) (simp (empty, reset, primary))

until-past :
    (now epoch : ℕ)
    → epoch < suc last_epoch
    → epoch * second < now + int64_half
    → until now (pos epoch) ≡ pos (epoch * second - now)
unfolding until
until-past now epoch h k =
    let near : ltb last_epoch epoch ≡ false = ground (arith, h) in
    let fits : ltb (epoch * second - now) int64_half ≡ true = ground (arith, k) in
    simp (near, fits, until)

-- If a response with status 403 or 429 says when its limit is over, and neither this nor the delay
-- overflows an int64, the delay lasts until then and no longer.
pub rate_limit_wait-Due :
    (now : ℕ) (resp : HttpResponse) (due : ℕ)
    → MayLimit resp
    → Due now resp due
    → (delay : ℕ) × (rate_limit_wait now resp ≡ some (pos delay))
      × (due ≤ now + delay)
      × ((now + delay ≤ due) ⊎ (delay ≡ 0))
rate_limit_wait-Due now resp due h (after_seconds secs asks fits) = (
  secs * second,
  rate_limit_wait-secondary now resp secs h asks ∙ ap some (wrap64-below (secs * second) fits),
  omega arith,
  inl (omega arith),
)
rate_limit_wait-Due now resp due h (at_reset epoch unasked exhausted reset near fits) = (
  epoch * second - now,
  rate_limit_wait-primary now resp (pos epoch) h unasked exhausted reset
      ∙ ap some (until-past now epoch near fits),
  omega arith,
  ground arith,
)
