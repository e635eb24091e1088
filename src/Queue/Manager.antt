-- ===== src/Queue/Manager.antt =====
-- internal/queue/manager.go: the operations of the queue under its lock.
pub mod Saves
pub mod Fixed
pub mod Synced
pub mod Claim
pub mod Lookup
pub mod Clear
use merge_bot.Base.{
  ℕ, suc, Bool, true, false, not, ◌&&◌, ◌||◌, List, [], ◌∷◌, ◌++◌, map, Option, none, some, str_eq,
  Text, codes, ltb, ◌==◌, if◌then◌else◌,
}
use merge_bot.Queue.Types.{
  Phase, queued, active, conflicts, needs_approvals, stopped, phase_eq, Item, Cell, Config, Manager,
  Io, FileRead, missing, unreadable, unparsable, parsed,
}
use merge_bot.Merge.Errors.{Error, wrap}
use merge_bot.Queue.Cells.{find_first, update_first, keep_cells, lookup_cancel, delete_cancel}

abbrev pub contents : List Cell → List Item
contents = map (λ c. c.item)

-- New of a manager over a state file.
unfoldable pub new : Config → Bool → Option (List Item) → Manager
new cfg persistent disk = record {
  cfg = cfg;
  persistent = persistent;
  items = [];
  detached = [];
  cancels = [];
  cancelled = [];
  wake = false;
  disk = disk;
  next_ref = 0;
  next_context = 0;
}

-- `save`: the file is replaced as a whole, or stays as it was.
unfoldable pub save : Io → Manager → Manager
save io m = if m.persistent && io.writable then record m { disk = some (contents m.items) } else m

unfoldable pub notify : Manager → Manager
notify m = record m { wake = true }

-- What `Load` makes of an item of the file.
unfoldable pub restored : Item → Item
restored it =
    if phase_eq it.phase active
    then record it { phase = queued; message = codes "re-queued after restart" }
    else it

unfoldable pub allocate : ℕ → List Item → List Cell
allocate ref [] = []
allocate ref (it ∷ its) = record { ref = ref; item = it } ∷ allocate (suc ref) its

abbrev pub allocated : ℕ → List Item → ℕ
allocated ref [] = ref
allocated ref (it ∷ its) = allocated (suc ref) its

-- `Load` of a file that is missing, or that can be read and parsed.
unfoldable pub load : Manager → Manager
unfolding restored allocate
load m = if not m.persistent then m else elim m.disk [
  | none ↦ m
  | some items ↦ record m {
    items = allocate m.next_ref (map restored items);
    next_ref = allocated m.next_ref (map restored items);
  }
]

-- The error of `Load`; with an empty path nothing is read.
abbrev pub read_error : FileRead (List Item) → Option Error
read_error missing = none
read_error (unreadable e) = some (wrap (codes "read state") e)
read_error (unparsable e) = some (wrap (codes "parse state") e)
read_error (parsed items) = none

unfoldable pub load_error : Bool → FileRead (List Item) → Option Error
load_error persistent read = if not persistent then none else read_error read

unfoldable pub list : Manager → List Item
list m = contents m.items

abbrev pub has_number : ℕ → Item → Bool
has_number n it = it.number == n

abbrev pub is_live : Phase → Bool
is_live phase = phase_eq phase queued || phase_eq phase active

abbrev pub re_added : ℕ → Item → Item
re_added now it = record it {
  phase = queued;
  message = codes "re-queued";
  error = [];
  added_at = now;
  updated_at = now;
  merged_at = none;
}

abbrev pub new_item : ℕ → ℕ → Item
new_item now n = record {
  number = n;
  phase = queued;
  message = codes "queued";
  error = [];
  added_at = now;
  updated_at = now;
  merged_at = none;
}

unfoldable pub add : Io → ℕ → Manager → Manager
unfolding notify
add io n m = elim (find_first (has_number n) m.items) [
  | none ↦ notify (
      save io (record m {
        items = m.items ++ record { ref = m.next_ref; item = new_item io.now n } ∷ [];
        next_ref = suc m.next_ref;
      }))
  | some c ↦
      if is_live c.item.phase
      then m
      else notify
          (save io (record m { items = update_first (has_number n) (re_added io.now) m.items }))
]

-- Cancels the context registered for a number and forgets it; nothing if there is none.
unfoldable pub cancel_number : ℕ → Manager → Manager
cancel_number n m = elim (lookup_cancel n m.cancels) [
  | none ↦ m
  | some context ↦ record m {
    cancels = delete_cancel n m.cancels;
    cancelled = context ∷ m.cancelled;
  }
]

abbrev pub stop : ℕ → Item → Item
stop now it = record it { phase = stopped; message = codes "stopped"; updated_at = now }

unfoldable pub remove : Io → ℕ → Manager → Manager
remove io n m = elim (find_first (has_number n) m.items) [
  | none ↦ m
  | some c ↦
      if is_live c.item.phase
      then (let m' = cancel_number n m in
          save io (record m' { items = update_first (has_number n) (stop io.now) m'.items }))
      else m
]

-- The phases that `Clear` drops: those asked for, but never queued and active.
unfoldable pub wanted : List Phase → List Phase
wanted [] = []
wanted (p ∷ ps) = let rest = wanted ps in if is_live p then rest else p ∷ rest

unfoldable pub in_phases : List Phase → Phase → Bool
in_phases [] p = false
in_phases (q ∷ qs) p = phase_eq q p || in_phases qs p

-- The loop of `Clear`, for phases that may be dropped.
unfoldable pub drop_phases : Io → List Phase → Manager → Manager
drop_phases io phases m = save io (record m {
  items = keep_cells (λ it. not (in_phases phases it.phase)) m.items;
  detached = keep_cells (λ it. in_phases phases it.phase) m.items ++ m.detached;
})

unfoldable pub clear : Io → List Phase → Manager → Manager
clear io phases m = elim (wanted phases) [ [] ↦ m | p ∷ ps ↦ drop_phases io (p ∷ ps) m ]

abbrev pub requeued : ℕ → Text → Item → Item
requeued now message it = record it {
  phase = queued;
  message = message;
  error = [];
  updated_at = now;
}

abbrev pub is_parked : Phase → Bool
is_parked phase = phase_eq phase conflicts || phase_eq phase needs_approvals

-- `Requeue`, with whether the pull request was parked.
unfoldable pub requeue : Io → ℕ → Manager → Manager × Bool
unfolding notify
requeue io n m = elim (find_first (has_number n) m.items) [
  | none ↦ (m, false)
  | some c ↦
      if is_parked c.item.phase
      then (
        notify (
            save io (record m {
              items = update_first (has_number n) (requeued io.now (codes "re-checking")) m.items;
            })),
        true,
      )
      else (m, false)
]

-- `requeueParked`: the signal is sent also if no item was found.
abbrev pub parked_as : ℕ → Phase → Item → Bool
parked_as n from it = it.number == n && phase_eq it.phase from

unfoldable pub requeue_parked : Io → ℕ → Phase → Text → Manager → Manager
unfolding notify
requeue_parked io n from message m = elim (find_first (parked_as n from) m.items) [
  | none ↦ notify m
  | some c ↦ notify (
      save io
        (record m { items = update_first (parked_as n from) (requeued io.now message) m.items }))
]

abbrev pub is_queued : Item → Bool
is_queued it = phase_eq it.phase queued

abbrev pub claimed : ℕ → Item → Item
claimed now it = record it { phase = active; message = codes "processing"; updated_at = now }

-- `claim`, with the address of the claimed item and its new context.
unfoldable pub claim : Io → Manager → Manager × Option (ℕ × ℕ)
claim io m = elim (find_first is_queued m.items) [
  | none ↦ (m, none)
  | some c ↦ (
    save io (record m {
      items = update_first is_queued (claimed io.now) m.items;
      cancels = (c.item.number, m.next_context) ∷ delete_cancel c.item.number m.cancels;
      next_context = suc m.next_context;
    }),
    some (c.ref, m.next_context),
  )
]

abbrev pub merge_queue_workers : ℕ
merge_queue_workers = 100

unfoldable pub effective_concurrency : Config → ℕ
effective_concurrency cfg =
    if str_eq cfg.merge_mode "merge-queue"
    then merge_queue_workers
    else if ltb cfg.concurrency 1
    then 1
    else cfg.concurrency
