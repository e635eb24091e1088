-- ===== src/Merge/Signals.antt =====
-- internal/merge/delegate.go: what the comments of the external queue's bot say.
pub mod Newest
use merge_bot.Base.{
  ℕ, ◌+◌, Bool, true, false, List, [], ◌∷◌, Option, none, some, Text, codes, ltb, contains,
  split_lines, without_backticks, trim_space, if◌then◌else◌,
}

pub record Comment : Type 0 where
  pub author : Text
  pub body : Text
  pub created_at : ℕ

pub data SignalKind : Type 0 where
  sig_queued sig_rejected sig_not_queued sig_batch : SignalKind

pub record QueueSignal : Type 0 where
  pub kind : SignalKind
  pub detail : Text
  pub at : ℕ

abbrev pub queued_marker : Text
queued_marker = codes "waiting at queue position"

abbrev pub rejection_marker : Text
rejection_marker = codes "Could not queue PR"

abbrev pub not_queued_marker : Text
not_queued_marker = codes "is not currently in the custom merge queue"

abbrev pub batch_marker : Text
batch_marker = codes "Validation batch"

-- The loop of `firstLineWith` over the lines.
unfoldable pub first_with_marker : List Text → Text → Text
first_with_marker [] marker = marker
first_with_marker (line ∷ lines) marker =
    let rest = first_with_marker lines marker in
    if contains marker line then trim_space (without_backticks line) else rest

unfoldable pub first_line_with : Text → Text → Text
unfolding first_with_marker
first_line_with body marker = first_with_marker (split_lines body) marker

abbrev pub signal : SignalKind → Text → Comment → Option QueueSignal
signal kind detail c = some (record { kind = kind; detail = detail; at = c.created_at })

unfoldable pub parse_queue_signal : Comment → Option QueueSignal
parse_queue_signal c =
    if contains rejection_marker c.body
    then signal sig_rejected (trim_space c.body) c
    else if contains queued_marker c.body
    then signal sig_queued (first_line_with c.body queued_marker) c
    else if contains not_queued_marker c.body
    then signal sig_not_queued [] c
    else if contains batch_marker c.body
    then signal sig_batch (first_line_with c.body batch_marker) c
    else none

-- `if latest == nil || sig.at.After(latest.at) { latest = sig }`
abbrev pub newer : Option QueueSignal → Option QueueSignal → Option QueueSignal
newer latest none = latest
newer none (some s) = some s
newer (some l) (some s) = if ltb l.at s.at then some s else some l

-- Both loops over comments: those that pass the test, from the newest signal found so far on.
unfoldable pub newest_from :
    (Comment → Bool) → Option QueueSignal → List Comment → Option QueueSignal
newest_from test latest [] = latest
newest_from test latest (c ∷ cs) =
    newest_from test (if test c then newer latest (parse_queue_signal c) else latest) cs

-- The time from which comments are read: seven days before a time, or a time.
pub data Since : Type 0 where
  week_before : ℕ → Since
  moment : ℕ → Since

abbrev pub week : ℕ
week = 604800000000000

-- `created.After(since)`
unfoldable pub is_after : Since → ℕ → Bool
is_after (week_before now) created = ltb now (created + week)
is_after (moment t) created = ltb t created

-- The loop of `latestSignal`.
unfoldable pub newest_signal : Since → List Comment → Option QueueSignal
unfolding newest_from
newest_signal since comments = newest_from (λ c. is_after since c.created_at) none comments

abbrev pub in_queue : Option QueueSignal → Bool
in_queue none = false
in_queue (some s) = elim s.kind [
  | sig_queued ↦ true
  | sig_batch ↦ true
  | sig_rejected ↦ false
  | sig_not_queued ↦ false
]

unfoldable pub queued_from_comments : List Comment → Bool
queued_from_comments comments = in_queue (newest_from (λ c. true) none comments)
