-- ===== src/Server/Examples.antt =====
-- Requests to internal/server/server.go.
use merge_bot.Base.{
  ◌≡◌, refl, inr, true, false, List, [], ◌∷◌, none, some, arith, codes, pos, parse_int, starts_with,
  split_commas, trim_space,
}
use merge_bot.Merge.Errors.{ok}
use merge_bot.Queue.Types.{failed, merged, other, Item, Config, Io}
use merge_bot.Queue.Cells.{find_first}
use merge_bot.Queue.Manager.{new, load, requeue}
use merge_bot.Queue.System.{dispatches, start}
use merge_bot.Server.{get_items, post_item, delete_items, post_requeue, Visit, handle}
use merge_bot.Server.Texts.{phases_of, queue_length}
use merge_bot.Server.Changes.{handle-Kept}
use merge_bot.Server.Daemon.{Daemon, server_of, Act, goroutine, request}

abbrev config : Config
config = record {
  interval = 30;
  timeout = 3600;
  recheck_interval = 300;
  merge_method = "squash";
  min_approvals = 1;
  concurrency = 2;
  merge_mode = "self";
  allow_unstable = false;
  allow_unresolved = false;
}

abbrev file : List Item
file =
    record {
      number = 4;
      phase = failed;
      message = [];
      error = [];
      added_at = 5;
      updated_at = 5;
      merged_at = none;
    }
    ∷ []

abbrev io : Io
io = record { now = 10; writable = true }

abbrev visit : Visit
visit = record {
  io = io;
  writable = true;
  probed = λ n. ok (codes "Queue length: 3");
  page = ok [];
}

abbrev daemon : Daemon
daemon = record {
  system = start (new config true (some file));
  reviewer = none;
  stats = none;
  has_prober = false;
  repo = codes "o/r";
  mode = "self";
}

abbrev visits : List Act
visits =
    request visit (post_item (some (pos 7)))
    ∷ goroutine (dispatches io)
    ∷ request visit (post_requeue (codes "4"))
    ∷ request visit (delete_items (codes "failed, merged"))
    ∷ request visit get_items
    ∷ []

length_found : queue_length (codes "at Queue length:  12, ") ≡ some (codes "12")
unfolding queue_length starts_with
length_found = refl

phases_read :
    phases_of (split_commas (codes "failed, merged,x")) ≡ failed ∷ merged ∷ other (codes "x") ∷ []
unfolding phases_of split_commas trim_space
phases_read = refl

-- Pull request 4 is not parked.
requeue_conflicts : (handle visit (post_requeue (codes "4")) (server_of daemon)).1.0 ≡ 409
unfolding handle parse_int start new load requeue find_first
requeue_conflicts = refl

handle-Kept_example :
    (handle visit (post_requeue (codes "4")) (server_of daemon)).0 ≡ server_of daemon
handle-Kept_example =
    handle-Kept visit (post_requeue (codes "4")) (server_of daemon)
      (inr (omega (arith, requeue_conflicts)))
