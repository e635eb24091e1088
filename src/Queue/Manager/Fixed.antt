-- ===== src/Queue/Manager/Fixed.antt =====
-- The settings of the manager of internal/queue/manager.go under its operations.
use merge_bot.Base.{ℕ, ◌≡◌, refl, Bool, List, Option, Text, arith}
use merge_bot.Merge.Errors.{Error}
use merge_bot.Queue.Types.{Phase, Manager, Io, Config}
use merge_bot.Queue.Manager.{
  add, remove, clear, drop_phases, requeue, requeue_parked, claim, save, cancel_number,
}
use merge_bot.Queue.Process.{finish, log_line}

-- The part of a manager that stays as it was made.
abbrev pub fixed : Manager → Config × Bool
fixed m = (m.cfg, m.persistent)

pub fixed-add : (io : Io) (n : ℕ) (m : Manager) → fixed (add io n m) ≡ fixed m
unfolding add save
fixed-add io n m = ground arith

pub fixed-remove : (io : Io) (n : ℕ) (m : Manager) → fixed (remove io n m) ≡ fixed m
unfolding remove save cancel_number
fixed-remove io n m = ground arith

pub fixed-clear :
    (io : Io) (phases : List Phase) (m : Manager) → fixed (clear io phases m) ≡ fixed m
unfolding clear drop_phases save
fixed-clear io phases m = ground arith

pub fixed-requeue : (io : Io) (n : ℕ) (m : Manager) → fixed (requeue io n m).0 ≡ fixed m
unfolding requeue save
fixed-requeue io n m = ground arith

pub fixed-requeue_parked :
    (io : Io) (n : ℕ) (from : Phase) (message : Text) (m : Manager)
    → fixed (requeue_parked io n from message m) ≡ fixed m
unfolding requeue_parked save
fixed-requeue_parked io n from message m = ground arith

pub fixed-claim : (io : Io) (m : Manager) → fixed (claim io m).0 ≡ fixed m
unfolding claim save
fixed-claim io m = ground arith

pub fixed-finish :
    (io : Io) (ref : ℕ) (result : Option Error) (m : Manager)
    → fixed (finish io ref result m).0 ≡ fixed m
unfolding finish save cancel_number
fixed-finish io ref result m = ground arith

pub fixed-log_line :
    (now ref : ℕ) (message : Text) (m : Manager) → fixed (log_line now ref message m) ≡ fixed m
unfolding log_line
fixed-log_line now ref message m = refl
