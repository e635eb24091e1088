-- ===== src/Queue/System/Exclusive.antt =====
-- Which worker has which pull request, in the queue of internal/queue/manager.go: no two workers have
-- the same one, as long as nobody adds a stopped one again whose worker still runs.
pub mod Hits
pub mod Operations
pub mod Workers
pub mod Ends
pub mod Calm
use mathlib.Core.Option
use merge_bot.Base.{
  ℕ, ◌≤◌, ◌<◌, ◌≡◌, ◌≢◌, refl, sym, ap, ◌∙◌, Bool, true, ◌||◌, List, [], ◌∷◌, Option, some, arith,
  All, All-zip,
}
use merge_bot.Queue.Types.{Phase, active, stopped, phase_eq, Item, Manager}
use merge_bot.Queue.Cells.{find_ref, lookup_cancel}
use merge_bot.Queue.Process.{item_at}
use merge_bot.Queue.System.{Worker}

-- The phases of an item whose worker runs.
abbrev pub is_held : Phase → Bool
is_held phase = phase_eq phase active || phase_eq phase stopped

abbrev pub number_at : ℕ → Manager → Option ℕ
number_at ref m = Option.map (λ it. it.number) (item_at ref m)

-- The item of a worker: it is active or stopped. If it is active, it is in the queue, and the context
-- registered for its number is the worker's. No other item of the queue has its number.
pub record Holds (m : Manager) (w : Worker) : Type 0 where
  pub it : Item
  pub found : item_at w.0 m ≡ some it
  pub held : is_held it.phase ≡ true
  pub placed : it.phase ≡ active → find_ref w.0 m.items ≡ some it
  pub registered : it.phase ≡ active → lookup_cancel it.number m.cancels ≡ some w.1
  pub sole : All (λ c. c.item.number ≡ it.number → c.ref ≡ w.0) m.items
  pub known : w.0 < m.next_ref

-- The items of the workers have distinct numbers.
abbrev pub Apart : Manager → List Worker → Type 0
Apart m [] = Unit
Apart m (w ∷ ws) = All (λ v. number_at v.0 m ≢ number_at w.0 m) ws × Apart m ws

pub record Exclusive (m : Manager) (workers : List Worker) : Type 0 where
  pub holds : All (Holds m) workers
  pub apart : Apart m workers

-- A worker keeps its item through a change of the manager.
pub record Kept (m m' : Manager) (w : Worker) : Type 0 where
  pub same : number_at w.0 m' ≡ number_at w.0 m
  pub still : Holds m' w

pub Apart-Kept : (m m' : Manager) (ws : List Worker) → All (Kept m m') ws → Apart m ws → Apart m' ws
Apart-Kept m m' [] k a = tt
Apart-Kept m m' (w ∷ ws) k a = (
  All-zip _ _ _ (λ v kept apart e. apart (sym kept.same ∙ e ∙ k.0.same)) ws k.1 a.0,
  Apart-Kept m m' ws k.1 a.1,
)

pub All-still : (m m' : Manager) (ws : List Worker) → All (Kept m m') ws → All (Holds m') ws
All-still m m' [] k = tt
All-still m m' (w ∷ ws) k = (k.0.still, All-still m m' ws k.1)

All-Kept :
    (m m' : Manager) (ws : List Worker)
    → ((w : Worker) → Holds m w → Kept m m' w)
    → All (Holds m) ws
    → All (Kept m m') ws
All-Kept m m' [] keep h = tt
All-Kept m m' (w ∷ ws) keep h = (keep w h.0, All-Kept m m' ws keep h.1)

-- A change that lets every worker keep its item keeps the workers apart.
pub Exclusive-Kept :
    (m m' : Manager) (ws : List Worker)
    → ((w : Worker) → Holds m w → Kept m m' w)
    → Exclusive m ws
    → Exclusive m' ws
Exclusive-Kept m m' ws keep x =
    let kept : All (Kept m m') ws = All-Kept m m' ws keep x.holds in
    record { holds = All-still m m' ws kept; apart = Apart-Kept m m' ws kept x.apart }

-- A change that leaves the item of a worker as it is.
pub Kept-untouched :
    (m m' : Manager) (w : Worker) (h : Holds m w)
    → item_at w.0 m' ≡ item_at w.0 m
    → (h.it.phase ≡ active → find_ref w.0 m'.items ≡ find_ref w.0 m.items)
    → (h.it.phase ≡ active
        → lookup_cancel h.it.number m'.cancels ≡ lookup_cancel h.it.number m.cancels)
    → All (λ c. c.item.number ≡ h.it.number → c.ref ≡ w.0) m'.items
    → m.next_ref ≤ m'.next_ref
    → Kept m m' w
Kept-untouched m m' w h at in_queue context sole next = record {
  same = ap (λ x. Option.map (λ it. it.number) x) at;
  still = record {
    it = h.it;
    found = at ∙ h.found;
    held = h.held;
    placed = λ a. in_queue a ∙ h.placed a;
    registered = λ a. context a ∙ h.registered a;
    sole = sole;
    known = omega (arith, h.known, next);
  };
}

-- The signal to the dispatcher is no part of what a worker has.
pub Kept-wake :
    (m : Manager) (b : Bool) (w : Worker) (h : Holds m w) → Kept m (record m { wake = b }) w
Kept-wake m b w h =
    Kept-untouched m (record m { wake = b }) w h refl (λ a. refl) (λ a. refl) h.sole (omega arith)
