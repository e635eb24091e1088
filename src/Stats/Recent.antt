-- ===== src/Stats/Recent.antt =====
-- What the collector of internal/queuestats/collector.go keeps.
use merge_bot.Base.{
  ◌-◌, ◌≡◌, refl, sym, ◌∙◌, ap, Bool, true, false, All, List, [], ◌∷◌, ◌++◌, map, arith, length,
  length-append, drop, drop-append, drop-drop, length-drop, append_assoc, inl, inr, Bool-cases, ltb,
}
use merge_bot.Stats.{
  Snapshot, Collector, max_history, bounded, record_sample, record_all, load_history, new_collector,
  save_history,
}

-- The last 288 samples.
abbrev pub recent : List Snapshot → List Snapshot
recent xs = drop (length xs - max_history) xs

bounded-recent : (xs : List Snapshot) → bounded xs ≡ recent xs
unfolding bounded
bounded-recent xs = elim (Bool-cases (ltb max_history (length xs))) [
  | inl long ↦ rw long refl
  | inr short ↦
      let none_dropped : 0 ≡ length xs - max_history = ground arith in
      rw short (ap (λ k. drop k xs) none_dropped)
]

recent-append : (xs ys : List Snapshot) → recent (recent xs ++ ys) ≡ recent (xs ++ ys)
recent-append xs ys =
    let k = length xs - max_history in
    let whole : recent xs ++ ys ≡ drop k (xs ++ ys) = sym (drop-append k xs ys (omega arith)) in
    ap recent whole
    ∙ drop-drop (length (drop k (xs ++ ys)) - max_history) k (xs ++ ys)
    ∙ ap (λ j. drop j (xs ++ ys)) (omega (arith, length-drop k (xs ++ ys), length-append xs ys))

history-record_sample :
    (writable : Bool) (s : Snapshot) (c : Collector)
    → (record_sample writable s c).history ≡ recent (c.history ++ s ∷ [])
unfolding record_sample
history-record_sample writable s c = ground (arith, bounded-recent (c.history ++ s ∷ []))

-- The samples of a run.
abbrev pub samples : List (Bool × Snapshot) → List Snapshot
samples = map (λ e. e.1)

-- After any samples, at least one, the history is the last 288 of what was there before with the
-- samples behind, in their order.
pub history-record_all :
    (writable : Bool) (s : Snapshot) (rest : List (Bool × Snapshot)) (c : Collector)
    → (record_all ((writable, s) ∷ rest) c).history ≡ recent (c.history ++ s ∷ samples rest)
unfolding record_all
history-record_all writable s [] c = history-record_sample writable s c
history-record_all writable s ((w, t) ∷ rest) c =
    let c' = record_sample writable s c in
    history-record_all w t rest c'
    ∙ ap (λ h. recent (h ++ t ∷ samples rest)) (history-record_sample writable s c)
    ∙ recent-append (c.history ++ s ∷ []) (t ∷ samples rest)
    ∙ ap recent (append_assoc (c.history) (s ∷ []) (t ∷ samples rest))

-- The samples up to the last one at which the file could be written.
pub data Written : List (Bool × Snapshot) → List Snapshot → Type 0 where
  last_written :
      (before after : List (Bool × Snapshot)) (s : Snapshot)
      → All (λ e. e.0 ≡ false) after
      → Written (before ++ (true, s) ∷ after) (samples before ++ s ∷ [])

record_all-append :
    (es fs : List (Bool × Snapshot)) (c : Collector)
    → record_all (es ++ fs) c ≡ record_all fs (record_all es c)
unfolding record_all
record_all-append [] fs c = refl
record_all-append ((w, s) ∷ es) fs c = record_all-append es fs (record_sample w s c)

-- Samples that are not written leave the file as it is.
disk-record_all :
    (es : List (Bool × Snapshot)) (c : Collector)
    → All (λ e. e.0 ≡ false) es
    → (record_all es c).disk ≡ c.disk
unfolding record_all record_sample save_history
disk-record_all [] c h = refl
disk-record_all ((w, s) ∷ es) c (lost, h) =
    disk-record_all es (record_sample w s c) h ∙ ground (arith, lost)

persistent-record_all :
    (es : List (Bool × Snapshot)) (c : Collector) → (record_all es c).persistent ≡ c.persistent
unfolding record_all record_sample save_history
persistent-record_all [] c = refl
persistent-record_all ((w, s) ∷ es) c =
    persistent-record_all es (record_sample w s c) ∙ ground arith

history-record_after :
    (es : List (Bool × Snapshot)) (s : Snapshot) (c : Collector)
    → (record_sample true s (record_all es c)).history
      ≡ recent (c.history ++ (samples es ++ s ∷ []))
unfolding record_all
history-record_after [] s c = history-record_sample true s c
history-record_after ((w, t) ∷ es) s c =
    history-record_sample true s (record_all ((w, t) ∷ es) c)
    ∙ ap (λ h. recent (h ++ s ∷ [])) (history-record_all w t es c)
    ∙ recent-append (c.history ++ t ∷ samples es) (s ∷ [])
    ∙ ap recent (append_assoc c.history (t ∷ samples es) (s ∷ []))

load_history-record_sample :
    (s : Snapshot) (c : Collector)
    → c.persistent ≡ true
    → let c' = record_sample true s c in
      ((load_history (new_collector true c'.disk)).history ≡ c'.history)
unfolding record_sample load_history new_collector
load_history-record_sample s c p = ground arith

-- After any samples, of which the file could be written at one at least, a collector that is loaded from
-- the file has the last 288 of the history before and the samples up to the last one that was written:
-- the samples behind it, whose writes failed, are lost, and all others are kept in their order.
pub load_history-record_all :
    (es : List (Bool × Snapshot)) (kept : List Snapshot) (c : Collector)
    → c.persistent ≡ true
    → Written es kept
    → (load_history (new_collector true (record_all es c).disk)).history
      ≡ recent (c.history ++ kept)
unfolding record_all
load_history-record_all _ _ c p (last_written before after s lost) =
    let d = record_all before c in
    let c' = record_sample true s d in
    ap (λ x. (load_history (new_collector true x.disk)).history)
      (record_all-append before ((true, s) ∷ after) c)
    ∙ ap (λ x. (load_history (new_collector true x)).history) (disk-record_all after c' lost)
    ∙ load_history-record_sample s d (persistent-record_all before c ∙ p)
    ∙ history-record_after before s c
