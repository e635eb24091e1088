-- ===== src/Queue/System/Progress.antt =====
-- The dispatcher of internal/queue/manager.go sleeps only while no pull request is queued, and with a
-- free slot it starts the first one that is.
pub mod Contexts
pub mod Signals
pub mod Wakeups
pub mod Starts
use merge_bot.Base.{
  ℕ, ◌<◌, ◌≡◌, ◌≢◌, ◌⊎◌, Bool, true, false, List, [], ◌∷◌, Option, none, some, All, Any,
}
use merge_bot.Merge.Errors.{Error, errors_is, canceled}
use merge_bot.Queue.Types.{Manager}
use merge_bot.Queue.Cells.{lookup_cancel}
use merge_bot.Queue.Manager.{is_queued}
use merge_bot.Queue.System.{System, Event, finishes, step}

-- The contexts that are registered belong to one number each, and none of them is cancelled; a new
-- context is new.
pub record Registry (m : Manager) : Type 0 where
  pub injective :
      (a b c : ℕ) → lookup_cancel a m.cancels ≡ some c → lookup_cancel b m.cancels ≡ some c → a ≡ b
  pub below : (a c : ℕ) → lookup_cancel a m.cancels ≡ some c → c < m.next_context
  pub cancelled_below : All (λ k. k < m.next_context) m.cancelled
  pub uncancelled : (a c : ℕ) → lookup_cancel a m.cancels ≡ some c → All (λ k. k ≢ c) m.cancelled

abbrev pub is_canceled : Option Error → Bool
is_canceled none = false
is_canceled (some e) = errors_is e canceled

-- `drive` returns `context.Canceled` only if the context of its worker is cancelled, on its own or with
-- that of the daemon.
abbrev pub Honest : System → Event → Type 0
Honest s (finishes io w result) =
    is_canceled result ≡ true → Any (λ k. k ≡ w.1) s.manager.cancelled ⊎ (s.ended ≡ true)
Honest s _ = Unit

abbrev pub HonestRun : System → List Event → Type 0
HonestRun s [] = Unit
HonestRun s (e ∷ es) = Honest s e × HonestRun (step s e) es

-- The dispatcher has ended, or it does not wait, or it waits with the signal sent, or nothing is queued.
abbrev pub Awake : System → Type 0
Awake s =
    s.ended ≡ false
    → s.waiting ≡ true
    → s.manager.wake ≡ false
    → All (λ c. is_queued c.item ≡ false) s.manager.items
