-- ===== src/Queue/Types.antt =====
-- internal/queue/manager.go: the data of the queue. Times are numbers of nanoseconds.
use merge_bot.Base.{ℕ, Bool, true, false, List, Option, none, some, String, Text, text_eq}
use merge_bot.Merge.Errors.{Error}

-- `Phase` is a string type; `other` stands for the texts that no constant of the source has.
pub data Phase : Type 0 where
  queued active merged failed conflicts needs_approvals stopped : Phase
  other : Text → Phase

-- `==` on phases.
abbrev pub phase_eq : Phase → Phase → Bool
phase_eq queued queued = true
phase_eq active active = true
phase_eq merged merged = true
phase_eq failed failed = true
phase_eq conflicts conflicts = true
phase_eq needs_approvals needs_approvals = true
phase_eq stopped stopped = true
phase_eq (other s) (other t) = text_eq s t
phase_eq _ _ = false

pub record Item : Type 0 where
  pub number : ℕ
  pub phase : Phase
  pub message : Text
  pub error : Text
  pub added_at : ℕ
  pub updated_at : ℕ
  pub merged_at : Option ℕ

-- An `*Item`: the item, with its address. A worker keeps the address while it runs.
pub record Cell : Type 0 where
  pub ref : ℕ
  pub item : Item

pub record Config : Type 0 where
  pub interval : ℕ
  pub timeout : ℕ
  pub recheck_interval : ℕ
  pub merge_method : String
  pub min_approvals : ℕ
  pub concurrency : ℕ
  pub merge_mode : String
  pub allow_unstable : Bool
  pub allow_unresolved : Bool

-- What `os.ReadFile` and `json.Unmarshal` make of a file: it does not exist, it cannot be read, it cannot
-- be parsed, or it holds this.
pub data FileRead (A : Type 0) : Type 0 where
  missing : FileRead A
  unreadable unparsable : Error → FileRead A
  parsed : A → FileRead A

abbrev pub content_of : {A : Type 0} → FileRead A → Option A
content_of missing = none
content_of (unreadable e) = none
content_of (unparsable e) = none
content_of (parsed a) = some a

-- The manager, with what it shares with the world: the contexts that were cancelled and the content
-- of the state file. `detached` holds the items that left the queue, which a worker may still hold.
pub record Manager : Type 0 where
  pub cfg : Config
  pub persistent : Bool  -- the path of the state file is not empty
  pub items : List Cell
  pub detached : List Cell
  pub cancels : List (ℕ × ℕ)  -- the number of a pull request in flight, and its context
  pub cancelled : List ℕ
  pub wake : Bool  -- the channel `wake`, with its one place, holds a signal
  pub disk : Option (List Item)  -- the content of the state file, if there is one
  pub next_ref : ℕ
  pub next_context : ℕ

-- What an operation meets: the clock, and whether the state file can be written.
pub record Io : Type 0 where
  pub now : ℕ
  pub writable : Bool
