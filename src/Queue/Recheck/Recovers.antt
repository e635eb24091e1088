-- ===== src/Queue/Recheck/Recovers.antt =====
-- The background re-check of internal/queue/manager.go: which items it requeues.
use merge_bot.Base.{
  ℕ, ◌≤◌, ◌≡◌, ◌↔◌, if◌then◌else◌, refl, not, ◌&&◌, ◌≢◌, ◌⊎◌, inl, inr, sym, ◌∙◌, subst, Bool, true,
  false, Option, some, arith, Bool-cases, str_eq, str_eq_iff,
}
use merge_bot.Merge.Errors.{ok, Result-cases}
use merge_bot.Merge.Github.{PullRequest, ReviewStatus, approvals_met}
use merge_bot.Queue.Types.{Phase, queued, failed, needs_approvals, phase_eq, Item, Manager}
use merge_bot.Queue.Manager.Lookup.{item_of}
use merge_bot.Queue.Recheck.{
  World, checks_recovered, conflict_resolved, is_approved, is_ready, recheck_parked,
  recheck_approvals, recheck_conflicts,
}
use merge_bot.Queue.Recheck.Exact.{
  recheck_parked-failed, recheck_parked-unapproved, recheck_parked-conflicting,
}
use merge_bot.Queue.Recheck.Requeues.{
  IsParked, Requeues, approvals, conflicting, failing, recheck_numbers-Requeues,
}

-- What GitHub has to answer for a parked pull request to go back into the queue. For a failed one it is the
-- mergeable_state alone, which may be unstable while a required check is still red.
pub data Admitted (w : World) (m : Manager) (n : ℕ) : Phase → Type 0 where
  approved :
      (s : ReviewStatus)
      → w.review_status n ≡ ok s
      → s.review_decision ≢ "REVIEW_REQUIRED"
      → s.review_decision ≢ "CHANGES_REQUESTED"
      → m.cfg.min_approvals ≤ s.approvals
      → Admitted w m n needs_approvals
  resolved :
      (pr : PullRequest)
      → w.get_pull_request n ≡ ok pr
      → pr.mergeable_state ≢ "dirty"
      → pr.mergeable_state ≢ ""
      → pr.mergeable_state ≢ "unknown"
      → Admitted w m n Phase.conflicts
  mergeable :
      (pr : PullRequest)
      → m.cfg.merge_mode ≢ "merge-queue"
      → w.get_pull_request n ≡ ok pr
      → (pr.mergeable_state ≡ "clean")
        ⊎ (pr.mergeable_state ≡ "unstable")
        ⊎ (pr.mergeable_state ≡ "behind")
        ⊎ (pr.mergeable_state ≡ "has_hooks")
      → Admitted w m n failed

-- The item is as it was, or it was in a phase with `Q` and is queued now.
abbrev pub Moves : (Phase → Type 0) → Option Item → Option Item → Type 0
Moves Q a b =
    (a ≡ b)
    ⊎ ((it : Item) × (it' : Item) × (a ≡ some it)
        × Q it.phase
        × (b ≡ some it')
        × (it'.phase ≡ queued))

Moves-trans : (Q : Phase → Type 0) (a b c : Option Item) → Moves Q a b → Moves Q b c → Moves Q a c
Moves-trans Q a b c (inl e) (inl f) = inl (e ∙ f)
Moves-trans Q a b c (inl e) (inr (it, it', x, p, y, q)) = inr (it, it', e ∙ x, p, y, q)
Moves-trans Q a b c (inr (it, it', x, p, y, q)) (inl f) = inr (it, it', x, p, sym f ∙ y, q)
Moves-trans Q a b c (inr (it, _, x, p, _, _)) (inr (_, it', _, _, y, q)) = inr (it, it', x, p, y, q)

Moves-of_Requeues :
    (Q : Phase → Type 0) (from : Phase) (clear : Bool) (a b : Option Item)
    → (clear ≡ true → Q from)
    → Requeues from clear a b
    → Moves Q a b
Moves-of_Requeues Q from clear a b why (inl e) = inl e
Moves-of_Requeues Q from clear a b why (inr (it, it', x, p, h, y, q)) =
    inr (it, it', x, subst Q (sym p) (why h), y, q)

module _ (w : World) (m : Manager) (n : ℕ) where
  Admitted-approvals :
      is_approved (w.review_status n) m.cfg.min_approvals ≡ true → Admitted w m n needs_approvals
  unfolding approvals_met
  Admitted-approvals h = elim (Result-cases (w.review_status n)) [
    | inl (s, e) ↦
        approved s e (ground (arith, str_eq_iff s.review_decision "REVIEW_REQUIRED"))
          (ground (arith, str_eq_iff s.review_decision "CHANGES_REQUESTED")) (ground arith)
    | inr (x, e) ↦ absurd (ground arith)
  ]

  Admitted-conflict :
      is_ready conflict_resolved (w.get_pull_request n) ≡ true → Admitted w m n Phase.conflicts
  unfolding conflict_resolved
  Admitted-conflict h = elim (Result-cases (w.get_pull_request n)) [
    | inl (pr, e) ↦
        resolved pr e (ground (arith, str_eq_iff pr.mergeable_state "dirty"))
          (ground (arith, str_eq_iff pr.mergeable_state ""))
          (ground (arith, str_eq_iff pr.mergeable_state "unknown"))
    | inr (x, e) ↦ absurd (ground arith)
  ]

  Admitted-failed :
      str_eq m.cfg.merge_mode "merge-queue" ≡ false
      → is_ready checks_recovered (w.get_pull_request n) ≡ true
      → Admitted w m n failed
  unfolding checks_recovered
  Admitted-failed self h = elim (Result-cases (w.get_pull_request n)) [
    | inl (pr, e) ↦ mergeable pr (ground (arith, str_eq_iff m.cfg.merge_mode "merge-queue")) e (
        ground (
          arith,
          str_eq_iff pr.mergeable_state "clean",
          str_eq_iff pr.mergeable_state "unstable",
          str_eq_iff pr.mergeable_state "behind",
          str_eq_iff pr.mergeable_state "has_hooks",
        ))
    | inr (x, e) ↦ absurd (ground arith)
  ]

-- With no other goroutine at work, a re-check leaves an item as it is or moves it from its parked phase
-- into the queue; and it moves an item only if GitHub answered: for missing approvals, a review status
-- with enough approvals and neither a missing review nor an objection; for a conflict, a mergeable_state
-- that is known and not dirty; for a failure, and in self mode only, one of clean, unstable, behind and
-- has_hooks.
pub recheck_parked-Moves :
    (w : World) (m : Manager) (k : ℕ)
    → ((n : ℕ) (x : Manager) → w.meanwhile n x ≡ x)
    → Moves (Admitted w m k) (item_of k m) (item_of k (recheck_parked w m))
unfolding recheck_parked
recheck_parked-Moves w m k quiet =
    let Q = Admitted w m k in
    let m₁ = (recheck_approvals w m).0 in
    let m₂ = recheck_conflicts w m m₁ in
    let one : Moves Q (item_of k m) (item_of k m₁) =
      Moves-of_Requeues Q needs_approvals _ _ _ (Admitted-approvals w m k)
        (recheck_numbers-Requeues w quiet _ needs_approvals _ _ k m approvals) in
    let two : Moves Q (item_of k m) (item_of k m₂) = Moves-trans Q _ _ _ one (
      Moves-of_Requeues Q Phase.conflicts _ _ _ (Admitted-conflict w m k)
        (recheck_numbers-Requeues w quiet _ Phase.conflicts _ _ k m₁ conflicting)) in
    elim (Bool-cases (recheck_approvals w m).1) [
      | inl stops ↦ rw stops one
      | inr goes ↦ elim (Bool-cases (str_eq m.cfg.merge_mode "merge-queue")) [
        | inl delegated ↦ rw (goes, delegated) two
        | inr self ↦
            rw (goes, self)
              (Moves-trans Q _ _ _ two (
                Moves-of_Requeues Q failed _ _ _ (Admitted-failed w m k self)
                  (recheck_numbers-Requeues w quiet _ failed _ _ k m₂ failing)))
      ]
    ]

-- The item is queued.
abbrev pub Queued : Option Item → Type 0
Queued o = (back : Item) × (o ≡ some back) × (back.phase ≡ queued)

Queued-iff :
    {A : Type 0} (o : Option Item) (clear : Bool) (it back : Item)
    → o ≡ some (if clear then back else it)
    → back.phase ≡ queued
    → phase_eq it.phase queued ≡ false
    → (A ↔ (clear ≡ true))
    → (Queued o ↔ A)
Queued-iff o true it back e q away (to, from) = ((λ found. from refl), (λ a. (back, e, q)))
Queued-iff o false it back e q away (to, from) =
    ((λ (x, f, p). absurd (ground (arith, e, f, p, away))), (λ a. absurd (ground (arith, to a))))

module _ (w : World) (quiet : (n : ℕ) (m : Manager) → w.meanwhile n m ≡ m)
    (alive : (n : ℕ) → w.is_cancelled n ≡ false) (m : Manager) (k : ℕ) where
  approvals-clear :
      Admitted w m k needs_approvals → is_approved (w.review_status k) m.cfg.min_approvals ≡ true
  unfolding approvals_met
  approvals-clear (approved s e required objected enough) = ground (
    arith,
    e,
    required,
    objected,
    enough,
    str_eq_iff s.review_decision "REVIEW_REQUIRED",
    str_eq_iff s.review_decision "CHANGES_REQUESTED",
  )

  conflict-clear :
      Admitted w m k Phase.conflicts → is_ready conflict_resolved (w.get_pull_request k) ≡ true
  unfolding conflict_resolved
  conflict-clear (resolved pr e dirty blank unknown) = ground (
    arith,
    e,
    dirty,
    blank,
    unknown,
    str_eq_iff pr.mergeable_state "dirty",
    str_eq_iff pr.mergeable_state "",
    str_eq_iff pr.mergeable_state "unknown",
  )

  failed-clear :
      Admitted w m k failed
      → not (str_eq m.cfg.merge_mode "merge-queue")
          && is_ready checks_recovered (w.get_pull_request k)
        ≡ true
  unfolding checks_recovered
  failed-clear (mergeable pr self e state) = ground (
    arith,
    e,
    self,
    state,
    str_eq_iff m.cfg.merge_mode "merge-queue",
    str_eq_iff pr.mergeable_state "clean",
    str_eq_iff pr.mergeable_state "unstable",
    str_eq_iff pr.mergeable_state "behind",
    str_eq_iff pr.mergeable_state "has_hooks",
  )

  requeued_iff :
      (p : Phase) (it : Item)
      → item_of k m ≡ some it
      → it.phase ≡ p
      → IsParked p
      → Queued (item_of k (recheck_parked w m)) ↔ Admitted w m k p
  requeued_iff _ it h e approvals =
      Queued-iff _ (is_approved (w.review_status k) m.cfg.min_approvals) it _
        (recheck_parked-unapproved w quiet alive k m it h e) refl (ground (arith, e))
        (approvals-clear, Admitted-approvals w m k)
  requeued_iff _ it h e conflicting =
      Queued-iff _ (is_ready conflict_resolved (w.get_pull_request k)) it _
        (recheck_parked-conflicting w quiet alive k m it h e) refl (ground (arith, e))
        (conflict-clear, Admitted-conflict w m k)
  requeued_iff _ it h e failing =
      Queued-iff _
        (not (str_eq m.cfg.merge_mode "merge-queue")
          && is_ready checks_recovered (w.get_pull_request k))
        it _ (recheck_parked-failed w quiet alive k m it h e) refl (ground (arith, e))
        (
          failed-clear,
          (λ both. Admitted-failed w m k (ground (arith, both)) (ground (arith, both))),
        )

-- With no other goroutine at work and its context alive, a re-check requeues a pull request with missing
-- approvals, a conflict or a failure if and only if GitHub answered: for missing approvals, a review status
-- with enough approvals and neither a missing review nor an objection; for a conflict, a mergeable_state
-- that is known and not dirty; for a failure, and in self mode only, one of clean, unstable, behind and
-- has_hooks.
pub recheck_parked-Queued_iff :
    (w : World) (m : Manager) (k : ℕ) (it : Item)
    → ((n : ℕ) (x : Manager) → w.meanwhile n x ≡ x)
    → ((n : ℕ) → w.is_cancelled n ≡ false)
    → item_of k m ≡ some it
    → IsParked it.phase
    → Queued (item_of k (recheck_parked w m)) ↔ Admitted w m k it.phase
recheck_parked-Queued_iff w m k it quiet alive h parked =
    requeued_iff w quiet alive m k it.phase it h refl parked
