-- ===== src/Merge/Errors.antt =====
-- Go's error values, as far as internal/merge, internal/queue and internal/ghclient tell them
-- apart: the sentinels of internal/merge/runner.go and of package context, the error types of
-- go-github that are looked for by `errors.As`, and `fmt.Errorf` with and without `%w`.
use merge_bot.Base.{
  ◌⊎◌, inl, inr, refl, ◌≡◌, Text, codes, Option, none, some, Bool, true, false, ◌++◌, ℕ, ◌==◌,
}

pub data Sentinel : Type 0 where
  conflicts required_check_failed insufficient_approvals blocked : Sentinel
  canceled deadline_exceeded : Sentinel

abbrev pub sentinel_eq : Sentinel → Sentinel → Bool
sentinel_eq conflicts conflicts = true
sentinel_eq required_check_failed required_check_failed = true
sentinel_eq insufficient_approvals insufficient_approvals = true
sentinel_eq blocked blocked = true
sentinel_eq canceled canceled = true
sentinel_eq deadline_exceeded deadline_exceeded = true
sentinel_eq _ _ = false

pub data Error : Type 0 where
  sentinel : Sentinel → Error
  -- *github.RateLimitError and *github.AbuseRateLimitError
  rate_limit abuse_rate_limit : Text → Error
  -- *github.ErrorResponse, with the status code of its Response, if it has one
  error_response : Option ℕ → Text → Error
  -- *github.AcceptedError: GitHub has answered 202
  accepted : Error
  -- any other error, by its text
  plain : Text → Error
  -- fmt.Errorf("text: %w", err)
  wrap : Text → Error → Error

pub data Result {ℓ} (A : Type ℓ) : Type ℓ where
  ok : A → Result A
  err : Error → Result A

pub Result-cases :
    {A : Type 0} (a : Result A) → ((x : A) × (a ≡ ok x)) ⊎ ((e : Error) × (a ≡ err e))
Result-cases (ok x) = inl (x, refl)
Result-cases (err e) = inr (e, refl)

-- `errors.Is(err, target)` for a sentinel: the chain of wrapped errors is searched.
unfoldable pub errors_is : Error → Sentinel → Bool
errors_is (sentinel s) t = sentinel_eq s t
errors_is (rate_limit m) t = false
errors_is (abuse_rate_limit m) t = false
errors_is (error_response c m) t = false
errors_is accepted t = false
errors_is (plain m) t = false
errors_is (wrap m e) t = errors_is e t

-- Whether a rate-limit error of go-github stands in the chain, primary or secondary.
unfoldable pub is_rate_limited : Error → Bool
is_rate_limited (sentinel s) = false
is_rate_limited (rate_limit m) = true
is_rate_limited (abuse_rate_limit m) = true
is_rate_limited (error_response c m) = false
is_rate_limited accepted = false
is_rate_limited (plain m) = false
is_rate_limited (wrap m e) = is_rate_limited e

abbrev pub is_unprocessable : Option ℕ → Bool
is_unprocessable none = false
is_unprocessable (some c) = c == 422

-- Whether the first *github.ErrorResponse of the chain has status 422.
unfoldable pub is_stale_head_update : Error → Bool
is_stale_head_update (sentinel s) = false
is_stale_head_update (rate_limit m) = false
is_stale_head_update (abuse_rate_limit m) = false
is_stale_head_update (error_response c m) = is_unprocessable c
is_stale_head_update accepted = false
is_stale_head_update (plain m) = false
is_stale_head_update (wrap m e) = is_stale_head_update e

abbrev sentinel_text : Sentinel → Text
sentinel_text conflicts = codes "merge conflicts"
sentinel_text required_check_failed = codes "required check failed"
sentinel_text insufficient_approvals = codes "insufficient approvals"
sentinel_text blocked = codes "blocked by branch protection"
sentinel_text canceled = codes "context canceled"
sentinel_text deadline_exceeded = codes "context deadline exceeded"

-- `err.Error()`
unfoldable pub error_text : Error → Text
error_text (sentinel s) = sentinel_text s
error_text (rate_limit m) = m
error_text (abuse_rate_limit m) = m
error_text (error_response c m) = m
error_text accepted = codes "job scheduled on GitHub side; try again later"
error_text (plain m) = m
error_text (wrap m e) = m ++ codes ": " ++ error_text e

-- Whether a *github.AcceptedError stands in the chain.
unfoldable pub is_accepted : Error → Bool
is_accepted (sentinel s) = false
is_accepted (rate_limit m) = false
is_accepted (abuse_rate_limit m) = false
is_accepted (error_response c m) = false
is_accepted accepted = true
is_accepted (plain m) = false
is_accepted (wrap m e) = is_accepted e
