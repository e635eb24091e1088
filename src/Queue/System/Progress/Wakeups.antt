-- ===== src/Queue/System/Progress/Wakeups.antt =====
-- No signal to the dispatcher of internal/queue/manager.go is lost.
use mathlib.Core.Option.{some-injective}
use merge_bot.Base.{
  ℕ, ◌≡◌, ◌≢◌, ◌⊎◌, refl, sym, ap, ◌∙◌, subst, true, false, not, ◌&&◌, ◌||◌, List, [], ◌∷◌, Option,
  none, some, arith, All, Any, All-mono, All-zip, Bool-cases, Option-cases, inl, inr, Text, map,
  Distinct,
}
use merge_bot.Merge.Errors.{Error}
use merge_bot.Queue.Types.{active, phase_eq, Item, Cell, Manager, Io}
use merge_bot.Queue.Cells.{find_ref}
use merge_bot.Queue.Cells.Updates.{All-map, All-update_ref}
use merge_bot.Queue.Manager.{add, remove, clear, requeue, requeue_parked, claim, is_queued}
use merge_bot.Queue.Manager.Saves.{saving}
use merge_bot.Queue.Process.{finish, item_at, log_line, logged, settled, settle, settle_error}
use merge_bot.Queue.System.{
  System, Event, Worker, adds, removes, requeues, clears, rechecks, dispatches, wakes, ends,
  finishes, logs, step, same_worker, has_worker, dispatched, has_slot,
}
use merge_bot.Queue.System.Owned.{ManagerInv}
use merge_bot.Queue.System.Invariant.{SystemInv}
use merge_bot.Queue.System.Exclusive.{is_held, Holds, Exclusive}
use merge_bot.Queue.System.Diagram.Operations.{item_at-found}
use merge_bot.Queue.System.Progress.{Registry, is_canceled, Honest, Awake}
use merge_bot.Queue.System.Progress.Signals.{
  NoneQueued, add_wakes, requeue_wakes, requeue_parked_wakes, remove_quiet, clear_quiet,
  claim_quiet, finish_wake, log_line_wake,
}

-- A worker's item that is settled by a result that is no cancellation is not queued.
settled_quiet :
    (now : ℕ) (result : Option Error) (it : Item)
    → ((it.phase ≡ active) → is_canceled result ≡ false)
    → is_held it.phase ≡ true
    → is_queued (settled now result it) ≡ false
unfolding settled settle settle_error
settled_quiet now none it honest held = ground arith
settled_quiet now (some e) it honest held = elim (Bool-cases (phase_eq it.phase active)) [
  | inl works ↦ ground (arith, honest (ground arith))
  | inr idle ↦ ground arith
]

cells_found :
    (cs : List Cell)
    → Distinct (map (λ c. c.ref) cs)
    → All (λ c. find_ref c.ref cs ≡ some c.item) cs
unfolding find_ref
cells_found [] d = tt
cells_found (c ∷ cs) d = (
  ground arith,
  All-zip (λ x. x.ref ≢ c.ref) (λ x. find_ref x.ref cs ≡ some x.item)
      (λ x. find_ref x.ref (c ∷ cs) ≡ some x.item) (λ x other found. ground (arith, other, found))
      cs ((All-map (λ x. x.ref) (λ k. k ≢ c.ref) cs).0 d.0) (cells_found cs d.1),
)

same_pair : (x w : Worker) → same_worker x w ≡ true → x ≡ w
same_pair (ref, context) (ref', context') h =
    let one : ref ≡ ref' = ground arith in
    let two : context ≡ context' = ground arith in cc (one, two)

running-Holds :
    (m : Manager) (w : Worker) (ws : List Worker)
    → has_worker w ws ≡ true
    → All (Holds m) ws
    → Holds m w
unfolding has_worker
running-Holds m w [] runs h = absurd (ground arith)
running-Holds m w (x ∷ xs) runs h = elim (Bool-cases (same_worker x w)) [
  | inl is ↦ subst (Holds m) (same_pair x w is) h.0
  | inr other ↦ running-Holds m w xs (ground arith) h.1
]

not_both : (k : ℕ) (ks : List ℕ) → All (λ j. j ≢ k) ks → ¬ Any (λ j. j ≡ k) ks
not_both k [] a h = h
not_both k (j ∷ js) a (inl h) = a.0 h
not_both k (j ∷ js) a (inr h) = not_both k js a.1 h

module _ (s : System) (v : ManagerInv s.manager s.workers) (x : Exclusive s.manager s.workers)
    (g : Registry s.manager) where
  -- An active item is not settled by a cancellation, but at the daemon's end.
  not_canceled :
      (io : Io) (w : Worker) (result : Option Error) (h : Holds s.manager w)
      → Honest s (finishes io w result)
      → s.ended ≡ false
      → h.it.phase ≡ active
      → is_canceled result ≡ false
  not_canceled io w result h honest open_ a = elim (Bool-cases (is_canceled result)) [
    | inr fine ↦ fine
    | inl cancelled ↦ elim (honest cancelled) [
      | inl hit ↦
          absurd
            (not_both w.1 s.manager.cancelled (g.uncancelled h.it.number w.1 (h.registered a)) hit)
      | inr over ↦ absurd (ground (arith, open_, over))
    ]
  ]

  finish_quiet :
      (io : Io) (w : Worker) (result : Option Error)
      → has_worker w s.workers ≡ true
      → Honest s (finishes io w result)
      → s.ended ≡ false
      → NoneQueued s.manager.items
      → NoneQueued (finish io w.0 result s.manager).0.items
  unfolding finish
  finish_quiet io w result runs honest open_ none_queued =
      let h : Holds s.manager w = running-Holds s.manager w s.workers runs x.holds in
      let own : All (λ c. c.ref ≡ w.0 → h.it ≡ c.item) s.manager.items =
        All-mono _ _
          (λ c found at. some-injective h.it c.item (
            sym h.found
            ∙ item_at-found w.0 s.manager c.item
                (subst (λ k. find_ref k s.manager.items ≡ some c.item) at found)))
          s.manager.items (cells_found s.manager.items v.refs) in
      elim (Option-cases (item_at w.0 s.manager)) [
        | inl e ↦ simp (e, finish) none_queued
        | inr (it, e) ↦
            simp (e, finish, saving)
              (All-update_ref w.0 (settled io.now result)
                (λ c. (is_queued c.item ≡ false) × (c.ref ≡ w.0 → h.it ≡ c.item))
                (λ c. is_queued c.item ≡ false)
                (λ c p at.
                  subst (λ i. is_queued (settled io.now result i) ≡ false) (p.1 at)
                    (settled_quiet io.now result h.it (not_canceled io w result h honest open_)
                      h.held))
                (λ c p away. p.0) s.manager.items v.refs
                (All-zip _ _ _ (λ c a b. (a, b)) s.manager.items none_queued own))
      ]

  log_line_quiet :
      (now ref : ℕ) (message : Text)
      → NoneQueued s.manager.items
      → NoneQueued (log_line now ref message s.manager).items
  unfolding log_line
  log_line_quiet now ref message =
      All-update_ref ref (logged now message) _ _ (λ c p at. ground (arith, p)) (λ c p away. p)
        s.manager.items v.refs

dispatched-Awake :
    (s : System) (answer : Manager × Option Worker)
    → s.waiting ≡ false
    → (answer.1 ≡ none → NoneQueued answer.0.items)
    → Awake (dispatched s answer)
unfolding dispatched
dispatched-Awake s (m, none) busy h open_ waits quiet = h refl
dispatched-Awake s (m, some w) busy h open_ waits quiet = absurd (ground (arith, busy, waits))

abbrev on_manager-Awake : (s : System) (m : Manager) → Type 0
on_manager-Awake s m = Awake (record s { manager = m })

woken_or_same :
    (s : System) (m : Manager) → (m.wake ≡ true) ⊎ (m ≡ s.manager) → Awake s → on_manager-Awake s m
woken_or_same s m (inl woken) h open_ waits quiet = absurd (ground (arith, woken, quiet))
woken_or_same s m (inr same) h open_ waits quiet =
    subst (λ n. NoneQueued n.items) (sym same) (h open_ waits (ap (λ n. n.wake) (sym same) ∙ quiet))

quiet_still :
    (s : System) (m : Manager)
    → m.wake ≡ s.manager.wake
    → (NoneQueued s.manager.items → NoneQueued m.items)
    → Awake s
    → on_manager-Awake s m
quiet_still s m same keeps h open_ waits quiet = keeps (h open_ waits (sym same ∙ quiet))

pub step-Awake :
    (s : System) (e : Event)
    → SystemInv s
    → Exclusive s.manager s.workers
    → Registry s.manager
    → Honest s e
    → Awake s
    → Awake (step s e)
unfolding step
step-Awake s (adds io n) i x g honest h =
    woken_or_same s (add io n s.manager) (add_wakes io s.manager n) h
step-Awake s (removes io n) i x g honest h =
    let (same, keeps) = remove_quiet io s.manager n in
    quiet_still s (remove io n s.manager) same keeps h
step-Awake s (requeues io n) i x g honest h =
    woken_or_same s (requeue io n s.manager).0 (requeue_wakes io s.manager n) h
step-Awake s (clears io phases) i x g honest h =
    let (same, keeps) = clear_quiet io s.manager phases in
    quiet_still s (clear io phases s.manager) same keeps h
step-Awake s (rechecks io n from message) i x g honest h =
    woken_or_same s (requeue_parked io n from message s.manager)
      (inl (requeue_parked_wakes io s.manager n from message)) h
step-Awake s (dispatches io) i x g honest h =
    elim (Bool-cases (s.ended || s.waiting || not (has_slot s))) [
      | inl shut ↦ simp shut h
      | inr free ↦
          simp free
            (dispatched-Awake s (claim io s.manager) (ground arith) (claim_quiet io s.manager))
    ]
step-Awake s wakes i x g honest h = elim (Bool-cases (not s.ended && s.waiting && s.manager.wake)) [
  | inl woken ↦ simp woken (λ open_ waits. absurd (ground arith))
  | inr asleep ↦ simp asleep h
]
step-Awake s ends i x g honest h = λ open_. absurd (ground arith)
step-Awake s (finishes io w result) i x g honest h = elim (Bool-cases (has_worker w s.workers)) [
  | inl runs ↦ simp runs (λ open_ waits quiet.
      finish_quiet s i.owned x g io w result runs honest open_
        (h open_ waits (sym (finish_wake io w.0 result s.manager) ∙ quiet)))
  | inr gone ↦ simp gone h
]
step-Awake s (logs now w message) i x g honest h = elim (Bool-cases (has_worker w s.workers)) [
  | inl runs ↦ simp runs (
      quiet_still s (log_line now w.0 message s.manager) (log_line_wake now w.0 message s.manager)
        (log_line_quiet s i.owned x g now w.0 message) h)
  | inr gone ↦ simp gone h
]
