-- ===== src/Review/Schedule.antt =====
-- The parallel refresh of internal/review/dashboard.go and the order in which its goroutines write.
use merge_bot.Base.{
  ℕ, ◌<◌, ◌≡◌, Bool, true, false, ◌||◌, List, [], ◌∷◌, map, Option, none, some, String, ◌==◌,
}
use merge_bot.Merge.Errors.{Error, ok}
use merge_bot.Review.{Pull, Fetcher, Dashboard, entry_for, present, ensure_author, Pass}

abbrev pub has : ℕ → List ℕ → Bool
has i [] = false
has i (j ∷ js) = (j == i) || has i js

-- Every index below `n` stands in the order: every goroutine writes.
abbrev pub Covers : List ℕ → ℕ → Type 0
Covers order n = (i : ℕ) → i < n → has i order ≡ true

-- How a refresh ends: with the entries of the pull requests that were found, in the order of the
-- search and without those that are skipped; or with an error, and then nothing that is shown changes.
pub data Refreshed (f : Fetcher) (w : Pass) (d : Dashboard) (answer : Dashboard × Option Error)
    : Type 0 where
  rebuilt :
      (author : String) (prs : List Pull)
      → f.list_open_prs author ≡ ok prs
      → answer.0.entries ≡ present (map (entry_for (ensure_author d f).0 f w.now) prs)
      → answer.0.loaded ≡ true
      → answer.1 ≡ none
      → Refreshed f w d answer
  kept :
      (e : Error)
      → answer.0.entries ≡ d.entries
      → answer.0.loaded ≡ d.loaded
      → answer.1 ≡ some e
      → Refreshed f w d answer
