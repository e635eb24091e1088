-- ===== src/Merge/Status/Examples.antt =====
-- Probes of internal/merge/status.go.
use merge_bot.Base.{
  ℕ, zero, suc, ◌*◌, ◌≡◌, ◌↔◌, refl, List, [], ◌∷◌, none, some, Text, codes, second, pos,
  split_lines, without_backticks, trim_space, contains, to_lower, join,
}
use merge_bot.Merge.Errors.{Result, ok, err, plain}
use merge_bot.Merge.Signals.{Comment}
use merge_bot.Merge.Status.{Probing, probe}
use merge_bot.Merge.Status.Ends.{Closes, probe-Closes_iff}

abbrev reply_body : Text
reply_body = codes "## Merge Queue Status\n`Queue length:` 3\nbye"

abbrev reply : Comment
reply = record { author = codes "bot"; body = reply_body; created_at = 12 }

abbrev comments_at : ℕ → Result (List Comment)
comments_at zero = err (plain (codes "timeout"))
comments_at (suc k) = ok (reply ∷ [])

abbrev probing : Probing
probing = record {
  asked = 10;
  posted = none;
  started = 11;
  cancels = λ k. none;
  comments = comments_at;
  clock = λ k. 20;
}

-- The reply is read in the second round.
reply_summarized : probe probing (pos 0) 2 ≡ some (ok (codes "Queue length: 3"))
unfolding probe contains to_lower split_lines trim_space without_backticks join
reply_summarized = refl

probe-Closes_iff_example :
    ((fuel : ℕ) × (answer : Result Text) × (probe probing (pos 0) fuel ≡ some answer))
    ↔ ((k : ℕ) × Closes probing (20 * second) k)
probe-Closes_iff_example = probe-Closes_iff probing (pos 0) refl
