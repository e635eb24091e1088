-- ===== src/Server/Changes.antt =====
-- What a request to internal/server/server.go may change.
use merge_bot.Base.{
  ℕ, ◌≤◌, ◌≡◌, ◌⊎◌, inl, inr, refl, ap, Bool, true, false, [], ◌∷◌, Option, none, some, arith,
  Bool-cases, Option-cases, Text, ℤ,
}
use merge_bot.Merge.Errors.{Result-cases}
use merge_bot.Queue.Types.{Manager, Io}
use merge_bot.Queue.Cells.{find_first}
use merge_bot.Queue.Manager.{requeue, has_number, is_parked}
use merge_bot.Server.{
  Server, Request, get_index, get_config, get_ready, post_refresh, get_items, get_stats, post_item,
  delete_items, delete_item, post_requeue, post_status, Visit, Handled, probe_status, add_item,
  clear_items, remove_item, requeue_item, requeued_answer, handle,
}
use merge_bot.Server.Texts.{positive_number, path_number}

-- The requests that only read.
abbrev pub reads : Request → Bool
reads (get_index path) = true
reads get_config = true
reads get_ready = true
reads get_items = true
reads get_stats = true
reads post_refresh = false
reads (post_item number) = false
reads (delete_items raw) = false
reads (delete_item number) = false
reads (post_requeue number) = false
reads (post_status number) = false

-- The state is as it was.
abbrev Kept : Server → Handled → Type 0
Kept s served = 400 ≤ served.1.0 → served.0 ≡ s

requeue_refused :
    (io : Io) (n : ℕ) (m : Manager) → (requeue io n m).1 ≡ false → (requeue io n m).0 ≡ m
unfolding requeue
requeue_refused io n m h = elim (Option-cases (find_first (has_number n) m.items)) [
  | inl missing ↦ simp (missing, requeue)
  | inr (c, found) ↦ elim (Bool-cases (is_parked c.item.phase)) [
    | inl parked ↦ absurd (ground (arith, h, found, parked))
    | inr free ↦ simp (found, free, requeue)
  ]
]

module _ (v : Visit) (s : Server) where
  probe_status-Kept : (number : Option ℕ) → Kept s (probe_status v number s)
  unfolding probe_status
  probe_status-Kept number h = elim (Bool-cases s.has_prober) [
    | inr off ↦ simp (off, probe_status)
    | inl on ↦ elim (Option-cases number) [
      | inl missing ↦ simp (on, missing, probe_status)
      | inr (n, named) ↦ elim (Result-cases (v.probed n)) [
        | inr (e, failed) ↦ simp (on, named, failed, probe_status)
        | inl (status, answered) ↦
            absurd (omega (arith, simp (on, named, answered, probe_status) at h))
      ]
    ]
  ]

  add_item-Kept : (number : Option ℤ) → Kept s (add_item v number s)
  unfolding add_item
  add_item-Kept none h = refl
  add_item-Kept (some number) h = elim (Option-cases (positive_number (some number))) [
    | inl rejected ↦ simp (rejected, add_item)
    | inr (n, named) ↦ absurd (omega (arith, simp (named, add_item) at h))
  ]

  requeued_answer-Kept :
      (answer : Manager × Bool)
      → (answer.1 ≡ false → answer.0 ≡ s.manager)
      → Kept s (requeued_answer s answer)
  requeued_answer-Kept (m, false) same h = ap (λ n. record s { manager = n }) (same refl)
  requeued_answer-Kept (m, true) same h = absurd (omega (arith, h))

  clear_items-Kept : (raw : Text) → Kept s (clear_items v raw s)
  unfolding clear_items
  clear_items-Kept [] h = refl
  clear_items-Kept (c ∷ raw) h = absurd (omega (arith, h))

  remove_item-Kept : (number : Option ℕ) → Kept s (remove_item v number s)
  unfolding remove_item
  remove_item-Kept none h = refl
  remove_item-Kept (some n) h = absurd (omega (arith, h))

  requeue_item-Kept : (number : Option ℕ) → Kept s (requeue_item v number s)
  unfolding requeue_item
  requeue_item-Kept none h = refl
  requeue_item-Kept (some n) h =
      requeued_answer-Kept (requeue v.io n s.manager) (requeue_refused v.io n s.manager) h

-- A request that only reads, or that is answered by an error status, changes nothing: not the queue,
-- not the dashboard, not the statistics.
pub handle-Kept :
    (v : Visit) (request : Request) (s : Server)
    → (reads request ≡ true) ⊎ (400 ≤ (handle v request s).1.0)
    → (handle v request s).0 ≡ s
unfolding handle
handle-Kept v (get_index path) s h = refl
handle-Kept v get_config s h = refl
handle-Kept v get_ready s h = refl
handle-Kept v get_items s h = refl
handle-Kept v get_stats s h = refl
handle-Kept v post_refresh s (inl h) = absurd (ground arith)
handle-Kept v post_refresh s (inr h) = absurd (omega (arith, h))
handle-Kept v (post_item number) s (inl h) = absurd (ground arith)
handle-Kept v (post_item number) s (inr h) = add_item-Kept v s number h
handle-Kept v (delete_items raw) s (inl h) = absurd (ground arith)
handle-Kept v (delete_items raw) s (inr h) = clear_items-Kept v s raw h
handle-Kept v (delete_item number) s (inl h) = absurd (ground arith)
handle-Kept v (delete_item number) s (inr h) = remove_item-Kept v s (path_number number) h
handle-Kept v (post_requeue number) s (inl h) = absurd (ground arith)
handle-Kept v (post_requeue number) s (inr h) = requeue_item-Kept v s (path_number number) h
handle-Kept v (post_status number) s (inl h) = absurd (ground arith)
handle-Kept v (post_status number) s (inr h) = probe_status-Kept v s (path_number number) h
