-- ===== src/Queue/Recheck/Requeues.antt =====
-- The loops of the background re-check in internal/queue/manager.go, one number at a time.
use merge_bot.Base.{
  ℕ, ◌≡◌, ◌⊎◌, inl, inr, refl, sym, ◌∙◌, subst, Bool, true, List, [], ◌∷◌, Option, none, some,
  arith, Bool-cases, ◌==◌, Text, if◌then◌else◌,
}
use merge_bot.Queue.Types.{Phase, queued, failed, needs_approvals, phase_eq, Item, Manager}
use merge_bot.Queue.Manager.{requeue_parked, requeued}
use merge_bot.Queue.Manager.Lookup.{item_of}
use merge_bot.Queue.Manager.Clear.{unparked_from, item_of-requeue_parked}
use merge_bot.Queue.Recheck.{World, recheck_numbers}

-- The item is as it was, or it was parked in `from`, the number is clear, and it is queued now.
abbrev pub Requeues : Phase → Bool → Option Item → Option Item → Type 0
Requeues from clear a b =
    (a ≡ b)
    ⊎ ((it : Item) × (it' : Item) × (a ≡ some it)
        × (it.phase ≡ from)
        × (clear ≡ true)
        × (b ≡ some it')
        × (it'.phase ≡ queued))

Requeues-trans :
    (from : Phase) (clear : Bool) (a b c : Option Item)
    → Requeues from clear a b
    → Requeues from clear b c
    → Requeues from clear a c
Requeues-trans from clear a b c (inl e) (inl f) = inl (e ∙ f)
Requeues-trans from clear a b c (inl e) (inr (it, it', x, p, h, y, q)) =
    inr (it, it', e ∙ x, p, h, y, q)
Requeues-trans from clear a b c (inr (it, it', x, p, h, y, q)) (inl f) =
    inr (it, it', x, p, h, sym f ∙ y, q)
Requeues-trans from clear a b c (inr (it, _, x, p, h, _, _)) (inr (_, it', _, _, _, y, q)) =
    inr (it, it', x, p, h, y, q)

-- The phases that are re-checked.
pub data IsParked : Phase → Type 0 where
  approvals : IsParked needs_approvals
  conflicting : IsParked Phase.conflicts
  failing : IsParked failed

pub eq_of_parked : {from : Phase} (p : Phase) → IsParked from → phase_eq p from ≡ true → p ≡ from
eq_of_parked p approvals h = ground arith
eq_of_parked p conflicting h = ground arith
eq_of_parked p failing h = ground arith

unparked-Requeues :
    (from : Phase) (now : ℕ) (message : Text) (o : Option Item)
    → IsParked from
    → Requeues from true o (unparked_from now from message o)
unparked-Requeues from now message none i = inl refl
unparked-Requeues from now message (some it) i = elim (Bool-cases (phase_eq it.phase from)) [
  | inl hit ↦
      inr (it, requeued now message it, refl, eq_of_parked it.phase i hit, refl, rw hit, refl)
  | inr miss ↦ inl (rw miss)
]

module _ (w : World) (quiet : (n : ℕ) (m : Manager) → w.meanwhile n m ≡ m) where
  one-Requeues :
      (clear : ℕ → Bool) (from : Phase) (message : Text) (n k : ℕ) (m : Manager)
      → IsParked from
      → Requeues from
          (clear k)
          (item_of k m)
          (item_of k (if clear n then requeue_parked (w.io n) n from message m else m))
  one-Requeues clear from message n k m i = elim (Bool-cases (clear n)) [
    | inl hit ↦
        rw (hit, item_of-requeue_parked (w.io n) n k from message m)
          (elim (Bool-cases (n == k)) [
            | inl same ↦
                let e : n ≡ k = ground arith in
                rw same (
                  subst
                    (λ j.
                      Requeues from (clear j) (item_of j m)
                        (unparked_from (w.io n).now from message (item_of n m)))
                    e (rw hit (unparked-Requeues from (w.io n).now message (item_of n m) i)))
            | inr differs ↦ rw differs (inl refl)
          ])
    | inr miss ↦ rw miss (inl refl)
  ]

  pub recheck_numbers-Requeues :
      (clear : ℕ → Bool) (from : Phase) (message : Text) (ns : List ℕ) (k : ℕ) (m : Manager)
      → IsParked from
      → Requeues from
          (clear k)
          (item_of k m)
          (item_of k (recheck_numbers w clear from message ns m).0)
  unfolding recheck_numbers
  recheck_numbers-Requeues clear from message [] k m i = inl refl
  recheck_numbers-Requeues clear from message (n ∷ ns) k m i =
      elim (Bool-cases (w.is_cancelled n)) [
        | inl stops ↦ rw stops (inl refl)
        | inr goes ↦
            let m' = if clear n then requeue_parked (w.io n) n from message m else m in
            rw (goes, quiet n m)
              (Requeues-trans from (clear k) (item_of k m) (item_of k m') _
                (one-Requeues clear from message n k m i)
                (recheck_numbers-Requeues clear from message ns k m' i))
      ]
