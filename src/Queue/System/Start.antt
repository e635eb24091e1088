-- ===== src/Queue/System/Start.antt =====
-- The daemon's queue (internal/queue/manager.go) from its start on.
use merge_bot.Base.{
  ℕ, suc, ◌≤◌, ◌<◌, ◌≡◌, ◌≢◌, refl, ap, Bool, true, false, List, [], ◌∷◌, map, Option, none, some,
  arith, Distinct, All, All-mono,
}
use merge_bot.Queue.Types.{active, Item, Config}
use merge_bot.Queue.Cells.Updates.{All-map}
use merge_bot.Queue.Manager.{new, load, allocate, allocated, restored}
use merge_bot.Queue.System.{Event, run, start}
use merge_bot.Queue.System.Owned.{Inv}
use merge_bot.Queue.System.Invariant.{SystemInv, run-SystemInv}

le-allocated : (ref : ℕ) (its : List Item) → ref ≤ allocated ref its
le-allocated ref [] = omega arith
le-allocated ref (it ∷ its) = omega (arith, le-allocated (suc ref) its)

allocate_range :
    (ref : ℕ) (its : List Item)
    → All (λ c. (ref ≤ c.ref) × (c.ref < allocated ref its)) (allocate ref its)
unfolding allocate
allocate_range ref [] = tt
allocate_range ref (it ∷ its) = (
  (omega arith, omega (arith, le-allocated (suc ref) its)),
  All-mono _ _ (λ c h. (omega arith, h.1)) (allocate (suc ref) its) (allocate_range (suc ref) its),
)

refs-allocate : (ref : ℕ) (its : List Item) → Distinct (map (λ c. c.ref) (allocate ref its))
unfolding allocate
refs-allocate ref [] = tt
refs-allocate ref (it ∷ its) = (
  (All-map (λ c. c.ref) (λ k. k ≢ ref) (allocate (suc ref) its)).1
      (All-mono _ _ (λ c h. omega arith) (allocate (suc ref) its) (allocate_range (suc ref) its)),
  refs-allocate (suc ref) its,
)

pub map-allocate {ℓ} :
    {B : Type ℓ} (f : Item → B) (ref : ℕ) (its : List Item)
    → map (λ c. f c.item) (allocate ref its) ≡ map f its
unfolding allocate
map-allocate f ref [] = refl
map-allocate f ref (it ∷ its) = ap (λ xs. f it ∷ xs) (map-allocate f (suc ref) its)

restored-number :
    (its : List Item) → map (λ it. it.number) (map restored its) ≡ map (λ it. it.number) its
unfolding restored
restored-number [] = refl
restored-number (it ∷ its) = ground (arith, restored-number its)

idle_restored :
    (ref : ℕ) (its : List Item) → All (λ c. c.item.phase ≢ active) (allocate ref (map restored its))
unfolding allocate restored
idle_restored ref [] = tt
idle_restored ref (it ∷ its) = (ground arith, idle_restored (suc ref) its)

-- The numbers of a state file are distinct.
abbrev pub DistinctFile : Option (List Item) → Type 0
DistinctFile none = Unit
DistinctFile (some its) = Distinct (map (λ it. it.number) its)

load-Inv :
    (ref : ℕ) (its : List Item)
    → Distinct (map (λ it. it.number) its)
    → Inv (allocate ref (map restored its)) (allocated ref (map restored its)) []
load-Inv ref its d = record {
  refs = refs-allocate ref (map restored its);
  fresh =
      All-mono _ _ (λ c h. h.1) (allocate ref (map restored its))
        (allocate_range ref (map restored its));
  numbers = rw (map-allocate (λ it. it.number) ref (map restored its), restored-number its) d;
  owned =
      All-mono _ _ (λ c h a. absurd (h a)) (allocate ref (map restored its))
        (idle_restored ref its);
}

pub start-SystemInv :
    (cfg : Config) (persistent : Bool) (disk : Option (List Item))
    → DistinctFile disk
    → SystemInv (start (new cfg persistent disk))
unfolding start new load
start-SystemInv cfg false disk d = omega arith
start-SystemInv cfg true none d = omega arith
start-SystemInv cfg true (some its) d = record { owned = load-Inv 0 its d; bounded = omega arith }

-- After any interleaving of the dispatcher, the workers, the HTTP handlers and the background
-- re-check, started over a state file with distinct numbers: no number stands twice in the queue, every
-- active item has a worker, and there are at most as many workers as the concurrency allows.
pub run-start-SystemInv :
    (cfg : Config) (persistent : Bool) (disk : Option (List Item)) (es : List Event)
    → DistinctFile disk
    → SystemInv (run (start (new cfg persistent disk)) es)
run-start-SystemInv cfg persistent disk es d =
    run-SystemInv (start (new cfg persistent disk)) es (start-SystemInv cfg persistent disk d)
