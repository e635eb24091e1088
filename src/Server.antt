-- ===== src/Server.antt =====
-- internal/server/server.go: the handlers of the HTTP server over the queue, the dashboard and the
-- statistics. The router, encoding/json and the embedded page are not part of the program: a `Request`
-- is a route with what the handler reads of it, and a `Visit` is what the handler meets besides.
pub mod Changes
pub mod Daemon
pub mod Texts
mod Examples
use merge_bot.Base.{
  ℕ, Bool, true, false, not, List, [], ◌∷◌, Option, none, some, String, Text, codes, if◌then◌else◌,
  ℤ, pos, negsuc, parse_int, text_eq, split_commas,
}
use merge_bot.Merge.Errors.{Result, ok, err, error_text}
use merge_bot.Queue.Types.{Item, Manager, Io}
use merge_bot.Queue.Manager.{list, add, remove, requeue, clear}
use merge_bot.Server.Texts.{positive_number, path_number, queue_length, phases_of}
use merge_bot.Stats.{Snapshot, Collector, record_sample}
use merge_bot.Review.{Entry, Dashboard, trigger_refresh}

-- The server with what its handlers reach. A missing dashboard or collector is a nil interface.
pub record Server : Type 0 where
  pub manager : Manager
  pub reviewer : Option Dashboard
  pub stats : Option Collector
  pub has_prober : Bool
  pub repo : Text
  pub mode : String

-- The routes. The body of an added item is what the decoder makes of it: its number, 0 if it names
-- none, or nothing if it is no JSON of this form.
pub data Request : Type 0 where
  get_index : Text → Request
  get_config get_ready post_refresh get_items get_stats : Request
  post_item : Option ℤ → Request
  delete_items : Text → Request
  delete_item post_requeue post_status : Text → Request

pub record Visit : Type 0 where
  pub io : Io
  pub writable : Bool  -- the file of the statistics can be written
  pub probed : ℕ → Result Text
  pub page : Result Text

pub data Reply : Type 0 where
  page_reply : Text → Reply
  config_reply : Text → String → Reply
  ready_reply : Bool → List Entry → Reply
  items_reply : List Item → Reply
  history_reply : List Snapshot → Reply
  status_reply : Text → Reply
  done_reply : Reply
  error_reply : Text → Reply

abbrev pub Answer : Type 0
Answer = ℕ × Reply

abbrev pub fails : ℕ → String → Answer
fails status text = (status, error_reply (codes text))

abbrev pub depth_of : Option Text → Option ℤ
depth_of none = none
depth_of (some digits) = parse_int digits

-- The sample that a status gives, at its time. Digits have no sign.
abbrev pub sampled : Visit → Option ℤ → Collector → Collector
sampled v none c = c
sampled v (some (negsuc n)) c = c
sampled v (some (pos n)) c = record_sample v.writable (record { at = v.io.now; waiting = n }) c

abbrev pub with_sample : Visit → Text → Option Collector → Option Collector
with_sample v status none = none
with_sample v status (some c) = some (sampled v (depth_of (queue_length status)) c)

abbrev pub Handled : Type 0
Handled = Server × Answer

unfoldable pub probe_status : Visit → Option ℕ → Server → Handled
unfolding queue_length
probe_status v number s =
    if not s.has_prober
    then (s, fails 501 "status probing is only available in merge-queue mode")
    else elim number [
      | none ↦ (s, fails 400 "invalid PR number")
      | some n ↦ elim (v.probed n) [
        | err e ↦ (s, (502, error_reply (error_text e)))
        | ok status ↦
            (record s { stats = with_sample v status s.stats }, (200, status_reply status))
      ]
    ]

abbrev pub history_of : Option Collector → List Snapshot
history_of none = []
history_of (some c) = c.history

abbrev pub ready_of : Option Dashboard → Reply
ready_of none = ready_reply true []
ready_of (some d) = ready_reply d.loaded d.entries

abbrev pub refreshed : Option Dashboard → Option Dashboard
refreshed none = none
refreshed (some d) = some (trigger_refresh d)

unfoldable pub index : Visit → Text → Answer
index v path =
    if not (text_eq path (codes "/")) then fails 404 "404 page not found" else elim v.page [
      | err e ↦ (500, error_reply (error_text e))
      | ok data_ ↦ (200, page_reply data_)
    ]

abbrev pub done : Answer
done = (202, done_reply)

unfoldable pub add_item : Visit → Option ℤ → Server → Handled
add_item v none s = (s, fails 400 "invalid JSON body")
add_item v (some number) s = elim (positive_number (some number)) [
  | none ↦ (s, fails 400 "number must be a positive integer")
  | some n ↦ (record s { manager = add v.io n s.manager }, done)
]

unfoldable pub clear_items : Visit → Text → Server → Handled
unfolding phases_of
clear_items v [] s = (s, fails 400 "phase query parameter is required")
clear_items v (c ∷ raw) s =
    (record s { manager = clear v.io (phases_of (split_commas (c ∷ raw))) s.manager }, done)

unfoldable pub remove_item : Visit → Option ℕ → Server → Handled
remove_item v none s = (s, fails 400 "invalid PR number")
remove_item v (some n) s = (record s { manager = remove v.io n s.manager }, done)

abbrev pub requeued_answer : Server → Manager × Bool → Handled
requeued_answer s (m, false) = (record s { manager = m }, fails 409 "PR is not parked")
requeued_answer s (m, true) = (record s { manager = m }, done)

unfoldable pub requeue_item : Visit → Option ℕ → Server → Handled
requeue_item v none s = (s, fails 400 "invalid PR number")
requeue_item v (some n) s = requeued_answer s (requeue v.io n s.manager)

-- The handlers that only read, and the one that asks for a refresh.
abbrev pub config : Server → Answer
config s = (200, config_reply s.repo s.mode)

abbrev pub ready_for_review : Server → Answer
ready_for_review s = (200, ready_of s.reviewer)

abbrev pub refresh_ready : Server → Handled
refresh_ready s = (record s { reviewer = refreshed s.reviewer }, done)

abbrev pub list_items : Server → Answer
list_items s = (200, items_reply (list s.manager))

abbrev pub queue_stats : Server → Answer
queue_stats s = (200, history_reply (history_of s.stats))

-- `Handler`: what each route runs.
unfoldable pub handle : Visit → Request → Server → Handled
unfolding index probe_status add_item clear_items remove_item requeue_item path_number
handle v (get_index path) s = (s, index v path)
handle v get_config s = (s, config s)
handle v get_ready s = (s, ready_for_review s)
handle v post_refresh s = refresh_ready s
handle v get_items s = (s, list_items s)
handle v get_stats s = (s, queue_stats s)
handle v (post_item number) s = add_item v number s
handle v (delete_items raw) s = clear_items v raw s
handle v (delete_item number) s = remove_item v (path_number number) s
handle v (post_requeue number) s = requeue_item v (path_number number) s
handle v (post_status number) s = probe_status v (path_number number) s
