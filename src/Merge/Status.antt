-- ===== src/Merge/Status.antt =====
-- internal/merge/status.go: the prober, which asks the queue bot for a pull request's status.
pub mod Ends
mod Examples
use merge_bot.Base.{
  ℕ, zero, suc, ◌+◌, ◌*◌, ◌/◌, Bool, ◌&&◌, ◌||◌, List, [], ◌∷◌, ◌++◌, Option, none, some, Text,
  codes, ltb, if◌then◌else◌, ℤ, pos, negsuc, second, duration_text, split_lines, without_backticks,
  trim_space, starts_with, contains, join, to_lower,
}
use merge_bot.Merge.Errors.{Error, Result, ok, err, plain, wrap}
use merge_bot.Merge.Signals.{Comment}

-- What a probe meets: the clock when it asks, the answer to its comment, the clock behind that, and,
-- by the round of its loop, the error of the context if it is done, the comments since it asked, and
-- the clock.
pub record Probing : Type 0 where
  pub asked : ℕ
  pub posted : Option Error
  pub started : ℕ
  pub cancels : ℕ → Option Error
  pub comments : ℕ → Result (List Comment)
  pub clock : ℕ → ℕ

abbrev pub status_marker : Text
status_marker = codes "merge queue status"

-- A field that is not positive stands for its default.
abbrev pub or_default : ℤ → ℕ → ℕ
or_default (pos zero) default = default
or_default (pos (suc n)) default = suc n
or_default (negsuc n) default = default

-- A line that `summarizeStatus` keeps.
unfoldable pub informative : Text → Bool
informative line =
    starts_with (codes "Queue length:") line
    || starts_with (codes "Batch start threshold:") line
    || starts_with (codes "Next validation batch:") line
    || starts_with (codes "Batch wait window:") line
    || starts_with (codes "Validation batches:") line
    || starts_with (codes "This PR:") line
    || contains (codes "currently in the") line

-- The loop over the lines. An empty line is not informative.
unfoldable pub informative_lines : List Text → List Text
unfolding informative
informative_lines [] = []
informative_lines (line ∷ lines) =
    let shown = trim_space (without_backticks line) in
    let rest = informative_lines lines in if informative shown then shown ∷ rest else rest

abbrev pub or_trimmed : Text → List Text → Text
or_trimmed body [] = trim_space body
or_trimmed body (line ∷ lines) = join (codes "\n") (line ∷ lines)

unfoldable pub summarize_status : Text → Text
unfolding informative_lines
summarize_status body = or_trimmed body (informative_lines (split_lines body))

unfoldable pub is_reply : ℕ → Comment → Bool
is_reply asked c = ltb asked c.created_at && contains status_marker (to_lower c.body)

-- The first reply among the comments.
unfoldable pub find_reply : ℕ → List Comment → Option Comment
unfolding is_reply
find_reply asked [] = none
find_reply asked (c ∷ cs) =
    let rest = find_reply asked cs in if is_reply asked c then some c else rest

abbrev pub no_reply : ℕ → Error
no_reply wait = plain (codes "no /status reply from the queue bot within " ++ duration_text wait)

-- What a round behind its comments returns, if it does.
unfoldable pub read_round : Probing → ℕ → ℕ → List Comment → Option (Result Text)
unfolding find_reply summarize_status
read_round w wait k comments = elim (find_reply w.asked comments) [
  | some c ↦ some (ok (summarize_status c.body))
  | none ↦ if ltb (w.started + wait) (w.clock k) then some (err (no_reply wait)) else none
]

-- What round `k` returns; `none` if it goes on.
unfoldable pub round : Probing → ℕ → ℕ → Option (Result Text)
unfolding read_round
round w wait k = elim (w.cancels k) [
  | some e ↦ some (err e)
  | none ↦ elim (w.comments k) [ err e ↦ none | ok comments ↦ read_round w wait k comments ]
]

-- The loop from round `k` on; `none` if the fuel does not suffice.
unfoldable pub rounds : Probing → ℕ → ℕ → ℕ → Option (Result Text)
unfolding round
rounds w wait zero k = none
rounds w wait (suc fuel) k =
    let rest = rounds w wait fuel (suc k) in
    elim (round w wait k) [ some answer ↦ some answer | none ↦ rest ]

-- `Probe`, with the field `WaitFor`.
unfoldable pub probe : Probing → ℤ → ℕ → Option (Result Text)
unfolding rounds
probe w wait_for fuel = elim w.posted [
  | some e ↦ some (err (wrap (codes "post /status") e))
  | none ↦ rounds w (or_default wait_for (20 * second)) fuel 0
]
