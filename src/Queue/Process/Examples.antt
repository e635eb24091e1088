-- ===== src/Queue/Process/Examples.antt =====
-- A worker's run on pull request 7, for internal/queue/manager.go.
use merge_bot.Base.{
  if◌then◌else◌, ◌∷◌, ◌==◌, String, ℕ, ◌*◌, ◌≡◌, refl, true, false, [], none, some, codes,
}
use merge_bot.Merge.Errors.{ok}
use merge_bot.Merge.Github.{PullRequest}
use merge_bot.Merge.Runner.{Poll}
use merge_bot.Queue.Types.{active, merged, Item, Config}
use merge_bot.Merge.Delegate.{QueueClient}
use merge_bot.Queue.Process.{Drive, settled}
use merge_bot.Queue.Types.{queued, Manager, Io}
use merge_bot.Queue.Cells.{find_ref, lookup_cancel}
use merge_bot.Queue.Process.{finish}
use merge_bot.Queue.Process.Settles.{finish-settled}

abbrev config : Config
config = record {
  interval = 30;
  timeout = 3600;
  recheck_interval = 300;
  merge_method = "squash";
  min_approvals = 1;
  concurrency = 3;
  merge_mode = "self";
  allow_unstable = false;
  allow_unresolved = true;
}

abbrev working : Item
working = record {
  number = 7;
  phase = active;
  message = codes "processing";
  error = [];
  added_at = 5;
  updated_at = 8;
  merged_at = none;
}

abbrev pull_in : String → PullRequest
pull_in state = record {
  merged = false;
  state = "open";
  draft = false;
  mergeable_state = state;
  head_sha = "c0ffee";
  base_ref = "main";
}

abbrev polls : String → ℕ → Poll
polls state k = record {
  api = record {
    get_pull_request = λ n. ok (pull_in state);
    update_branch = λ n head. none;
    merge = λ n method. none;
    check_summary = λ head. ok [];
    review_status = λ n. ok (record {
      unresolved_threads = 0;
      more_threads = false;
      review_decision = "";
      approvals = 0;
    });
    required_checks = λ base. ok [];
    check_runs = λ head. ok [];
    behind_by = λ base head. ok 0;
  };
  checked_at = 30 * k;
  interrupted = none;
}

abbrev client : QueueClient
client = record {
  get_pull_request = λ n. ok (pull_in "clean");
  check_runs = λ head. ok [];
  create_comment = λ n body. none;
  list_comments = λ n since. ok [];
}

abbrev driving : Drive
driving = record {
  polls = polls "clean";
  first = client;
  rounds =
      λ k. record { client = client; context_error = none; posted_at = 30; interrupted = none };
  is_capable = true;
  started = 10;
}

-- The worker at address 1, of three items in the queue.
abbrev waiting_item : ℕ → Item
waiting_item n = record working { number = n; phase = queued }

abbrev busy : Manager
busy = record {
  cfg = config;
  persistent = true;
  items =
      record { ref = 0; item = waiting_item 4 }
      ∷ record { ref = 1; item = working }
      ∷ record { ref = 2; item = waiting_item 9 }
      ∷ [];
  detached = [];
  cancels = (7, 0) ∷ [];
  cancelled = [];
  wake = false;
  disk = none;
  next_ref = 3;
  next_context = 1;
}

abbrev clock : Io
clock = record { now = 12; writable = true }

at_address : find_ref 1 busy.items ≡ some working
unfolding find_ref
at_address = refl

finish-settled_example :
    (find_ref 1 (finish clock 1 none busy).0.items
      ≡ (if 1 == 1 then some (settled 12 none working) else find_ref 1 busy.items))
    × (lookup_cancel 7 (finish clock 1 none busy).0.cancels ≡ none)
finish-settled_example = finish-settled clock 1 1 none busy working at_address
