-- ===== src/Stats/Examples.antt =====
-- A collector with two samples, for internal/queuestats/collector.go.
use merge_bot.Base.{◌≡◌, refl, Bool, List, true, false, [], ◌∷◌, ◌++◌, none}
use merge_bot.Stats.{Snapshot, Collector, new_collector, load_history, record_all}
use merge_bot.Stats.Recent.{
  recent, samples, history-record_all, last_written, load_history-record_all,
}

abbrev first : Snapshot
first = record { at = 10; waiting = 3 }

abbrev second : Snapshot
second = record { at = 20; waiting = 1 }

abbrev collector : Collector
collector = record { persistent = true; history = first ∷ []; disk = none }

history-record_all_example :
    (record_all ((true, second) ∷ (false, first) ∷ []) collector).history
    ≡ recent ((first ∷ []) ++ second ∷ samples ((false, first) ∷ []))
history-record_all_example = history-record_all true second ((false, first) ∷ []) collector

-- The last write fails.
abbrev sampled : List (Bool × Snapshot)
sampled = (false, first) ∷ (true, second) ∷ (false, first) ∷ []

load_history-record_all_example :
    (load_history (new_collector true (record_all sampled collector).disk)).history
    ≡ recent ((first ∷ []) ++ first ∷ second ∷ [])
load_history-record_all_example =
    load_history-record_all sampled (first ∷ second ∷ []) collector refl
      (last_written ((false, first) ∷ []) ((false, first) ∷ []) second (refl, tt))
