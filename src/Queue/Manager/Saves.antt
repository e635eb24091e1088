-- ===== src/Queue/Manager/Saves.antt =====
-- The manager of internal/queue/manager.go under saving, signalling and cancelling, field by field.
use merge_bot.Base.{◌≡◌, arith, ℕ}
use merge_bot.Queue.Types.{Manager, Io}
use merge_bot.Queue.Manager.{save, cancel_number}

pub save-items : (io : Io) (m : Manager) → (save io m).items ≡ m.items
unfolding save
save-items io m = ground arith

pub save-detached : (io : Io) (m : Manager) → (save io m).detached ≡ m.detached
unfolding save
save-detached io m = ground arith

pub save-next_ref : (io : Io) (m : Manager) → (save io m).next_ref ≡ m.next_ref
unfolding save
save-next_ref io m = ground arith

pub save-cfg : (io : Io) (m : Manager) → (save io m).cfg ≡ m.cfg
unfolding save
save-cfg io m = ground arith

pub save-wake : (io : Io) (m : Manager) → (save io m).wake ≡ m.wake
unfolding save
save-wake io m = ground arith

pub save-cancels : (io : Io) (m : Manager) → (save io m).cancels ≡ m.cancels
unfolding save
save-cancels io m = ground arith

pub save-cancelled : (io : Io) (m : Manager) → (save io m).cancelled ≡ m.cancelled
unfolding save
save-cancelled io m = ground arith

pub save-persistent : (io : Io) (m : Manager) → (save io m).persistent ≡ m.persistent
unfolding save
save-persistent io m = ground arith

pub cancel_number-items : (n : ℕ) (m : Manager) → (cancel_number n m).items ≡ m.items
unfolding cancel_number
cancel_number-items n m = ground arith

pub cancel_number-detached : (n : ℕ) (m : Manager) → (cancel_number n m).detached ≡ m.detached
unfolding cancel_number
cancel_number-detached n m = ground arith

pub cancel_number-next_ref : (n : ℕ) (m : Manager) → (cancel_number n m).next_ref ≡ m.next_ref
unfolding cancel_number
cancel_number-next_ref n m = ground arith

pub cancel_number-cfg : (n : ℕ) (m : Manager) → (cancel_number n m).cfg ≡ m.cfg
unfolding cancel_number
cancel_number-cfg n m = ground arith

pub cancel_number-wake : (n : ℕ) (m : Manager) → (cancel_number n m).wake ≡ m.wake
unfolding cancel_number
cancel_number-wake n m = ground arith

pub cancel_number-persistent : (n : ℕ) (m : Manager) → (cancel_number n m).persistent ≡ m.persistent
unfolding cancel_number
cancel_number-persistent n m = ground arith

pub cancel_number-disk : (n : ℕ) (m : Manager) → (cancel_number n m).disk ≡ m.disk
unfolding cancel_number
cancel_number-disk n m = ground arith

pub ruleset saving = (
  save-items, save-detached, save-next_ref, save-cfg, save-wake, save-cancels, save-cancelled,
  save-persistent, cancel_number-items, cancel_number-detached, cancel_number-next_ref,
  cancel_number-cfg, cancel_number-wake, cancel_number-persistent, cancel_number-disk,
)
