-- ===== src/Main/Settings.antt =====
-- The bounds that `validate` of main.go puts on the settings.
use merge_bot.Base.{
  ◌≡◌, ◌⊎◌, ◌↔◌, Bool, true, ◌||◌, none, arith, String, str_eq, str_eq_iff, pos, ◌≤ℤ◌,
}
use merge_bot.Main.{CommonConfig, validate}

abbrev pub IsMethod : String → Type 0
IsMethod m = (m ≡ "squash") ⊎ (m ≡ "merge") ⊎ (m ≡ "rebase")

abbrev pub InBounds : CommonConfig → Type 0
InBounds c =
    (pos 1 ≤ℤ c.interval)
    × (pos 1 ≤ℤ c.timeout)
    × IsMethod c.merge_method
    × (pos 0 ≤ℤ c.min_approvals)
    × (pos 0 ≤ℤ c.rate_limit_wait)
    × (pos 0 ≤ℤ c.rate_limit_retries)

abbrev is_method : String → Bool
is_method m = str_eq m "squash" || str_eq m "merge" || str_eq m "rebase"

is_method-IsMethod : (m : String) → (is_method m ≡ true) ↔ IsMethod m
is_method-IsMethod m = (
  (λ h. ground (arith, h, str_eq_iff m "squash", str_eq_iff m "merge", str_eq_iff m "rebase")),
  (λ h. ground (arith, h, str_eq_iff m "squash", str_eq_iff m "merge", str_eq_iff m "rebase")),
)

accepted-InBounds : (c : CommonConfig) → validate c ≡ none → InBounds c
unfolding validate
accepted-InBounds c h =
    let method : IsMethod c.merge_method =
      (is_method-IsMethod c.merge_method).0 (ground (arith, h)) in
    (
      ground (arith, h),
      ground (arith, h),
      method,
      ground (arith, h),
      ground (arith, h),
      ground (arith, h),
    )

InBounds-accepted : (c : CommonConfig) → InBounds c → validate c ≡ none
unfolding validate
InBounds-accepted c (interval, timeout, method, approvals, wait, retries) =
    ground (arith, (is_method-IsMethod c.merge_method).1 method)

-- `validate` accepts the settings if and only if both durations of the polling are positive, the merge
-- method is one of GitHub's three, and the approvals, the wait and the retries are not negative.
pub validate-InBounds_iff : (c : CommonConfig) → (validate c ≡ none) ↔ InBounds c
validate-InBounds_iff c = (accepted-InBounds c, InBounds-accepted c)
