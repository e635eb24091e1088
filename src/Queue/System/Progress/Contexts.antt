-- ===== src/Queue/System/Progress/Contexts.antt =====
-- The contexts of the workers of internal/queue/manager.go, under the events of the queue.
use merge_bot.Base.{
  ℕ, suc, ◌<◌, ◌≡◌, ◌≢◌, ◌⊎◌, refl, sym, ap, ◌∙◌, subst, not, ◌&&◌, ◌||◌, List, [], ◌∷◌, Option,
  none, some, arith, All, All-mono, Bool-cases, Option-cases, inl, inr, ◌==◌, Text,
}
use merge_bot.Merge.Errors.{Error}
use merge_bot.Queue.Types.{Phase, Manager, Io}
use merge_bot.Queue.Cells.{find_first, lookup_cancel, delete_cancel}
use merge_bot.Queue.Manager.{
  add, remove, clear, requeue, requeue_parked, claim, cancel_number, has_number, is_live, is_queued,
  drop_phases,
}
use merge_bot.Queue.Process.{finish, item_at, log_line}
use merge_bot.Queue.System.{
  System, Event, Worker, adds, removes, requeues, clears, rechecks, dispatches, wakes, ends,
  finishes, logs, step, has_worker, dispatched, has_slot,
}
use merge_bot.Queue.System.Progress.{Registry}

-- What `Contexts` reads of a manager.
abbrev pub contexts_of : Manager → List (ℕ × ℕ) × List ℕ × ℕ
contexts_of m = (m.cancels, m.cancelled, m.next_context)

pub Registry-same : (m m' : Manager) → contexts_of m' ≡ contexts_of m → Registry m → Registry m'
Registry-same m m' e h = record {
  injective = λ a b c p q.
      h.injective a b c (subst (λ x. lookup_cancel a x.0 ≡ some c) e p)
        (subst (λ x. lookup_cancel b x.0 ≡ some c) e q);
  below = λ a c p.
      subst (λ x. c < x.2) (sym e) (h.below a c (subst (λ x. lookup_cancel a x.0 ≡ some c) e p));
  cancelled_below = subst (λ x. All (λ k. k < x.2) x.1) (sym e) h.cancelled_below;
  uncancelled = λ a c p.
      subst (λ x. All (λ k. k ≢ c) x.1) (sym e)
        (h.uncancelled a c (subst (λ x. lookup_cancel a x.0 ≡ some c) e p));
}

-- What stays registered when a number is forgotten.
lookup_cancel_left :
    (n a c : ℕ) (cancels : List (ℕ × ℕ))
    → lookup_cancel a (delete_cancel n cancels) ≡ some c
    → (a ≢ n) × (lookup_cancel a cancels ≡ some c)
unfolding lookup_cancel delete_cancel
lookup_cancel_left n a c [] h = absurd (ground arith)
lookup_cancel_left n a c ((k, x) ∷ rest) h = elim (Bool-cases (k == n)) [
  | inl hit ↦
      let (other, left) = lookup_cancel_left n a c rest (ground arith) in
      (other, ground (arith, other, left))
  | inr away ↦ elim (Bool-cases (k == a)) [
    | inl here ↦ (ground arith, ground arith)
    | inr later ↦
        let (other, left) = lookup_cancel_left n a c rest (ground arith) in
        (other, ground (arith, left))
  ]
]

cancel_number-Registry : (n : ℕ) (m : Manager) → Registry m → Registry (cancel_number n m)
unfolding cancel_number
cancel_number-Registry n m h = elim (Option-cases (lookup_cancel n m.cancels)) [
  | inl e ↦ simp (e, cancel_number) h
  | inr (x, e) ↦
      simp (e, cancel_number)
        (record {
          injective = λ a b c p q.
              h.injective a b c (lookup_cancel_left n a c m.cancels p).1
                (lookup_cancel_left n b c m.cancels q).1;
          below = λ a c p. h.below a c (lookup_cancel_left n a c m.cancels p).1;
          cancelled_below = (h.below n x e, h.cancelled_below);
          uncancelled = λ a c p.
              let (other, left) = lookup_cancel_left n a c m.cancels p in
              ((λ same. other (h.injective a n c left (e ∙ ap some same))), h.uncancelled a c left);
        })
]

-- What is registered once a new context is.
registered :
    (n x a c : ℕ) (cancels : List (ℕ × ℕ))
    → lookup_cancel a ((n, x) ∷ delete_cancel n cancels) ≡ some c
    → ((a ≡ n) × (c ≡ x)) ⊎ ((a ≢ n) × (lookup_cancel a cancels ≡ some c))
unfolding lookup_cancel
registered n x a c cancels h = elim (Bool-cases (n == a)) [
  | inl here ↦ inl (ground arith, ground arith)
  | inr later ↦ inr (lookup_cancel_left n a c cancels (ground arith))
]

claimed-Registry :
    (n : ℕ) (m m' : Manager)
    → contexts_of m'
      ≡ ((n, m.next_context) ∷ delete_cancel n m.cancels, m.cancelled, suc m.next_context)
    → Registry m
    → Registry m'
claimed-Registry n m m' e h =
    Registry-same
      (record m {
        cancels = (n, m.next_context) ∷ delete_cancel n m.cancels;
        next_context = suc m.next_context;
      })
      m' e
      (record {
        injective = λ a b c p q. elim (registered n m.next_context a c m.cancels p) [
          | inl (here, new) ↦ elim (registered n m.next_context b c m.cancels q) [
            | inl (here_too, _) ↦ here ∙ sym here_too
            | inr (_, left) ↦ absurd (omega (arith, h.below b c left, new))
          ]
          | inr (_, left) ↦ elim (registered n m.next_context b c m.cancels q) [
            | inl (_, new) ↦ absurd (omega (arith, h.below a c left, new))
            | inr (_, left_too) ↦ h.injective a b c left left_too
          ]
        ];
        below = λ a c p. elim (registered n m.next_context a c m.cancels p) [
          | inl (_, new) ↦ omega (arith, new)
          | inr (_, left) ↦ omega (arith, h.below a c left)
        ];
        cancelled_below = All-mono _ _ (λ k b. omega (arith, b)) m.cancelled h.cancelled_below;
        uncancelled = λ a c p. elim (registered n m.next_context a c m.cancels p) [
          | inl (_, new) ↦
              All-mono _ _ (λ k b same. absurd (omega (arith, b, new, same))) m.cancelled
                h.cancelled_below
          | inr (_, left) ↦ h.uncancelled a c left
        ];
      })

module _ (io : Io) (m : Manager) where
  add-contexts : (n : ℕ) → contexts_of (add io n m) ≡ contexts_of m
  unfolding add merge_bot.Queue.Manager.save
  add-contexts n = ground arith

  requeue-contexts : (n : ℕ) → contexts_of (requeue io n m).0 ≡ contexts_of m
  unfolding requeue merge_bot.Queue.Manager.save
  requeue-contexts n = ground arith

  requeue_parked-contexts :
      (n : ℕ) (from : Phase) (message : Text)
      → contexts_of (requeue_parked io n from message m) ≡ contexts_of m
  unfolding requeue_parked merge_bot.Queue.Manager.save
  requeue_parked-contexts n from message = ground arith

  clear-contexts : (phases : List Phase) → contexts_of (clear io phases m) ≡ contexts_of m
  unfolding clear drop_phases merge_bot.Queue.Manager.save
  clear-contexts phases = ground arith

  -- `Remove` cancels the context of its number, or none.
  remove-contexts :
      (n : ℕ)
      → (contexts_of (remove io n m) ≡ contexts_of m)
        ⊎ (contexts_of (remove io n m) ≡ contexts_of (cancel_number n m))
  unfolding remove merge_bot.Queue.Manager.save
  remove-contexts n = elim (Option-cases (find_first (has_number n) m.items)) [
    | inl e ↦ inl (simp (e, remove))
    | inr (c, e) ↦ elim (Bool-cases (is_live c.item.phase)) [
      | inl live ↦ inr (ground arith)
      | inr settled ↦ inl (simp (e, remove, settled))
    ]
  ]

  finish-contexts :
      (ref : ℕ) (result : Option Error)
      → (contexts_of (finish io ref result m).0 ≡ contexts_of m)
        ⊎ ((n : ℕ) × (contexts_of (finish io ref result m).0 ≡ contexts_of (cancel_number n m)))
  unfolding finish merge_bot.Queue.Manager.save
  finish-contexts ref result = elim (Option-cases (item_at ref m)) [
    | inl e ↦ inl (simp (e, finish))
    | inr (it, e) ↦ inr (it.number, ground arith)
  ]

  claim-contexts :
      (contexts_of (claim io m).0 ≡ contexts_of m)
      ⊎ ((n : ℕ) × (contexts_of (claim io m).0
            ≡ ((n, m.next_context) ∷ delete_cancel n m.cancels, m.cancelled, suc m.next_context)))
  unfolding claim merge_bot.Queue.Manager.save
  claim-contexts = elim (Option-cases (find_first is_queued m.items)) [
    | inl e ↦ inl (simp (e, claim))
    | inr (c, e) ↦ inr (c.item.number, ground arith)
  ]

dispatched-contexts :
    (s : System) (answer : Manager × Option Worker)
    → contexts_of (dispatched s answer).manager ≡ contexts_of answer.0
unfolding dispatched
dispatched-contexts s (m, none) = refl
dispatched-contexts s (m, some w) = refl

pub step-Registry : (s : System) (e : Event) → Registry s.manager → Registry (step s e).manager
unfolding step log_line
step-Registry s (adds io n) h = Registry-same s.manager _ (add-contexts io s.manager n) h
step-Registry s (removes io n) h = elim (remove-contexts io s.manager n) [
  | inl kept ↦ Registry-same s.manager _ kept h
  | inr cancelled ↦
      Registry-same (cancel_number n s.manager) _ cancelled (cancel_number-Registry n s.manager h)
]
step-Registry s (requeues io n) h = Registry-same s.manager _ (requeue-contexts io s.manager n) h
step-Registry s (clears io phases) h =
    Registry-same s.manager _ (clear-contexts io s.manager phases) h
step-Registry s (rechecks io n from message) h =
    Registry-same s.manager _ (requeue_parked-contexts io s.manager n from message) h
step-Registry s (dispatches io) h = elim (Bool-cases (s.ended || s.waiting || not (has_slot s))) [
  | inl shut ↦ simp shut h
  | inr free ↦ simp free (elim (claim-contexts io s.manager) [
    | inl kept ↦ Registry-same s.manager _ (dispatched-contexts s (claim io s.manager) ∙ kept) h
    | inr (n, claimed) ↦
        claimed-Registry n s.manager _ (dispatched-contexts s (claim io s.manager) ∙ claimed) h
  ])
]
step-Registry s wakes h = elim (Bool-cases (not s.ended && s.waiting && s.manager.wake)) [
  | inl woken ↦ simp woken (Registry-same s.manager _ refl h)
  | inr asleep ↦ simp asleep h
]
step-Registry s ends h = h
step-Registry s (finishes io w result) h = elim (Bool-cases (has_worker w s.workers)) [
  | inl runs ↦ simp runs (elim (finish-contexts io s.manager w.0 result) [
    | inl kept ↦ Registry-same s.manager _ kept h
    | inr (n, cancelled) ↦
        Registry-same (cancel_number n s.manager) _ cancelled (cancel_number-Registry n s.manager h)
  ])
  | inr gone ↦ simp gone h
]
step-Registry s (logs now w message) h = elim (Bool-cases (has_worker w s.workers)) [
  | inl runs ↦ simp runs (Registry-same s.manager _ refl h)
  | inr gone ↦ simp gone h
]
