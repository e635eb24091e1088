-- ===== src/Stats.antt =====
-- internal/queuestats/collector.go: the history of samples of the external queue's depth.
pub mod Recent
mod Examples
use merge_bot.Base.{
  ℕ, ◌-◌, Bool, not, ◌&&◌, List, [], ◌∷◌, ◌++◌, Option, none, some, ltb, length, drop,
  if◌then◌else◌,
}

pub record Snapshot : Type 0 where
  pub at : ℕ
  pub waiting : ℕ

abbrev pub max_history : ℕ
max_history = 288

-- The collector, with the content of its file.
pub record Collector : Type 0 where
  pub persistent : Bool  -- the path of the file is not empty
  pub history : List Snapshot
  pub disk : Option (List Snapshot)

-- New, over a file.
unfoldable pub new_collector : Bool → Option (List Snapshot) → Collector
new_collector persistent disk = record { persistent = persistent; history = []; disk = disk }

-- `Load` of a file that is missing, or that can be read and parsed.
unfoldable pub load_history : Collector → Collector
load_history c =
    if not c.persistent
    then c
    else elim c.disk [ none ↦ c | some history ↦ record c { history = history } ]

-- `save`, where the file can be written or not: it is replaced as a whole, or stays as it was.
unfoldable pub save_history : Bool → Collector → Collector
save_history writable c = if c.persistent && writable then record c { disk = some c.history } else c

-- The bound on the history.
unfoldable pub bounded : List Snapshot → List Snapshot
bounded history =
    if ltb max_history (length history)
    then drop (length history - max_history) history
    else history

-- `Record` of a sample.
unfoldable pub record_sample : Bool → Snapshot → Collector → Collector
unfolding bounded save_history
record_sample writable s c =
    save_history writable (record c { history = bounded (c.history ++ s ∷ []) })

-- One sample after the other.
unfoldable pub record_all : List (Bool × Snapshot) → Collector → Collector
record_all [] c = c
record_all ((writable, s) ∷ rest) c = record_all rest (record_sample writable s c)
