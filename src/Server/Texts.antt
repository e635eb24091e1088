-- ===== src/Server/Texts.antt =====
-- internal/server/server.go: what the handlers read out of texts: the number of a pull request in a
-- path, the length of the queue in a status, and the phases of a query.
use merge_bot.Base.{
  ℕ, zero, suc, Bool, ◌||◌, List, [], ◌∷◌, Option, none, some, Text, codes, ◌==◌, if◌then◌else◌, ℤ,
  pos, negsuc, parse_int, is_digit, starts_with, drop, length, text_eq, trim_space,
}
use merge_bot.Queue.Types.{
  Phase, queued, active, merged, failed, conflicts, needs_approvals, stopped, other,
}

-- A pull request's number in a path.
abbrev pub positive_number : Option ℤ → Option ℕ
positive_number none = none
positive_number (some (pos zero)) = none
positive_number (some (pos (suc n))) = some (suc n)
positive_number (some (negsuc n)) = none

unfoldable pub path_number : Text → Option ℕ
path_number text = positive_number (parse_int text)

-- The white space of `\s` in a pattern.
abbrev pub is_blank : ℕ → Bool
is_blank c = (c == 9) || (c == 10) || (c == 12) || (c == 13) || (c == 32)

unfoldable pub skip_blanks : Text → Text
skip_blanks [] = []
skip_blanks (c ∷ s) = let rest = skip_blanks s in if is_blank c then rest else c ∷ s

unfoldable pub leading_digits : Text → Text
leading_digits [] = []
leading_digits (c ∷ s) = let rest = leading_digits s in if is_digit c then c ∷ rest else []

abbrev pub queue_length_label : Text
queue_length_label = codes "Queue length:"

abbrev pub or_later : Text → Option Text → Option Text
or_later [] later = later
or_later (c ∷ digits) later = some (c ∷ digits)

-- The digits of the first match of `queueLengthRe`.
unfoldable pub queue_length : Text → Option Text
unfolding skip_blanks leading_digits
queue_length [] = none
queue_length (c ∷ s) =
    let later = queue_length s in
    if starts_with queue_length_label (c ∷ s)
    then or_later (leading_digits (skip_blanks (drop (length queue_length_label) (c ∷ s)))) later
    else later

-- The conversion of a text to `queue.Phase`.
unfoldable pub phase_of : Text → Phase
phase_of p =
    if text_eq p (codes "queued")
    then queued
    else if text_eq p (codes "active")
    then active
    else if text_eq p (codes "merged")
    then merged
    else if text_eq p (codes "failed")
    then failed
    else if text_eq p (codes "conflicts")
    then conflicts
    else if text_eq p (codes "needs_approvals")
    then needs_approvals
    else if text_eq p (codes "stopped")
    then stopped
    else other p

abbrev pub phase_named : Text → List Phase → List Phase
phase_named [] phases = phases
phase_named (c ∷ p) phases = phase_of (c ∷ p) ∷ phases

unfoldable pub phases_of : List Text → List Phase
unfolding phase_of
phases_of [] = []
phases_of (p ∷ ps) = phase_named (trim_space p) (phases_of ps)
