-- ===== src/Queue/Cells/Updates.antt =====
-- Predicates and maps over the items under the loops of internal/queue/manager.go.
use merge_bot.Base.{
  ℕ, ◌≡◌, ◌≢◌, ◌↔◌, inl, inr, refl, Bool, true, false, List, [], ◌∷◌, map, none, arith, All,
  All-zip, All-mono, subst, none, some, ◌∙◌, sym, Distinct, Bool-cases, ◌==◌, ap,
}
use mathlib.Core.Option.{some-injective}
use merge_bot.Queue.Types.{Item, Cell}
use merge_bot.Queue.Cells.{find_ref, find_first, update_first, update_ref, keep_cells}

abbrev pub changed : (Item → Item) → Cell → Cell
changed change c = record c { item = change c.item }

module _ (test : Item → Bool) (change : Item → Item) where
  -- A property of every cell survives an update that keeps it at a cell that passes the test.
  pub All-update_first :
      (P : Cell → Type 0)
      → ((c : Cell) → P c → test c.item ≡ true → P (changed change c))
      → (cs : List Cell) → All P cs
      → All P (update_first test change cs)
  unfolding update_first
  All-update_first P keep [] h = tt
  All-update_first P keep (c ∷ cs) h = elim (Bool-cases (test c.item)) [
    | inl hit ↦ rw hit (keep c h.0 hit, h.1)
    | inr miss ↦ rw miss (h.0, All-update_first P keep cs h.1)
  ]

  -- What the change leaves alone is left alone in the list.
  pub map-update_first {ℓ} :
      {B : Type ℓ} (f : Cell → B)
      → ((c : Cell) → f (changed change c) ≡ f c)
      → (cs : List Cell) → map f (update_first test change cs) ≡ map f cs
  unfolding update_first
  map-update_first f same [] = refl
  map-update_first f same (c ∷ cs) = elim (Bool-cases (test c.item)) [
    | inl hit ↦ rw hit (ap (λ x. x ∷ map f cs) (same c))
    | inr miss ↦ rw miss (ap (λ xs. f c ∷ xs) (map-update_first f same cs))
  ]

pub All-map :
    {B : Type 0} (f : Cell → B) (P : B → Type 0) (cs : List Cell)
    → All P (map f cs) ↔ All (λ c. P (f c)) cs
All-map f P [] = (λ h. h, λ h. h)
All-map f P (c ∷ cs) = (λ h. (h.0, (All-map f P cs).0 h.1), λ h. (h.0, (All-map f P cs).1 h.1))

-- A search that fails says that every item fails the test.
pub find_first-none :
    (test : Item → Bool) (cs : List Cell)
    → find_first test cs ≡ none
    → All (λ c. test c.item ≡ false) cs
unfolding find_first
find_first-none test [] h = tt
find_first-none test (c ∷ cs) h = elim (Bool-cases (test c.item)) [
  | inl hit ↦ absurd (ground arith)
  | inr miss ↦ (miss, find_first-none test cs (ground arith))
]

module _ (ref : ℕ) (change : Item → Item) where
  pub map-update_ref {ℓ} :
      {B : Type ℓ} (f : Cell → B)
      → ((c : Cell) → f (changed change c) ≡ f c)
      → (cs : List Cell) → map f (update_ref ref change cs) ≡ map f cs
  unfolding update_ref
  map-update_ref f same [] = refl
  map-update_ref f same (c ∷ cs) = elim (Bool-cases (c.ref == ref)) [
    | inl hit ↦ simp hit (ap (λ x. x ∷ map f cs) (same c))
    | inr miss ↦ simp miss (ap (λ xs. f c ∷ xs) (map-update_ref f same cs))
  ]

  -- With distinct addresses exactly the cell at the address is changed.
  pub All-update_ref :
      (P Q : Cell → Type 0)
      → ((c : Cell) → P c → c.ref ≡ ref → Q (changed change c))
      → ((c : Cell) → P c → c.ref ≢ ref → Q c)
      → (cs : List Cell) → Distinct (map (λ c. c.ref) cs)
      → All P cs
      → All Q (update_ref ref change cs)
  unfolding update_ref
  All-update_ref P Q at away [] d h = tt
  All-update_ref P Q at away (c ∷ cs) d h = elim (Bool-cases (c.ref == ref)) [
    | inl hit ↦
        let e : c.ref ≡ ref = ground arith in
        simp hit (
          at c h.0 e,
          All-zip P (λ x. x.ref ≢ c.ref) Q (λ x p n. away x p (λ q. n (q ∙ sym e))) cs h.1
              ((All-map (λ x. x.ref) (λ k. k ≢ c.ref) cs).0 d.0),
        )
    | inr miss ↦ simp miss (away c h.0 (ground arith), All-update_ref P Q at away cs d.1 h.1)
  ]

-- The cells that are kept have what all had.
pub All-keep_cells :
    (test : Item → Bool) (P : Cell → Type 0) (cs : List Cell)
    → All P cs
    → All P (keep_cells test cs)
unfolding keep_cells
All-keep_cells test P [] h = tt
All-keep_cells test P (c ∷ cs) h = elim (Bool-cases (test c.item)) [
  | inl hit ↦ rw hit (h.0, All-keep_cells test P cs h.1)
  | inr miss ↦ rw miss (All-keep_cells test P cs h.1)
]

pub Distinct-keep_cells :
    (test : Item → Bool) (f : Cell → ℕ) (cs : List Cell)
    → Distinct (map f cs)
    → Distinct (map f (keep_cells test cs))
unfolding keep_cells
Distinct-keep_cells test f [] d = tt
Distinct-keep_cells test f (c ∷ cs) d = elim (Bool-cases (test c.item)) [
  | inl hit ↦ rw hit (
    (All-map f (λ k. k ≢ f c) (keep_cells test cs)).1
        (All-keep_cells test (λ x. f x ≢ f c) cs ((All-map f (λ k. k ≢ f c) cs).0 d.0)),
    Distinct-keep_cells test f cs d.1,
  )
  | inr miss ↦ rw miss (Distinct-keep_cells test f cs d.1)
]

-- An update at the first hit, where the hit is known.
pub All-update_found :
    (test : Item → Bool) (change : Item → Item) (P Q : Cell → Type 0) (found : Cell)
    → (P found → Q (changed change found))
    → ((c : Cell) → P c → Q c)
    → (cs : List Cell) → find_first test cs ≡ some found
    → All P cs
    → All Q (update_first test change cs)
unfolding update_first find_first
All-update_found test change P Q found at away [] e h = tt
All-update_found test change P Q found at away (c ∷ cs) e h = elim (Bool-cases (test c.item)) [
  | inl hit ↦
      let same : c ≡ found = some-injective c found (rw (hit, find_first) at e) in
      rw hit (
        subst (λ x. Q (changed change x)) (sym same) (at (subst P same h.0)),
        All-mono P Q away cs h.1,
      )
  | inr miss ↦ rw miss (
    away c h.0,
    All-update_found test change P Q found at away cs (rw (miss, find_first) at e) h.1,
  )
]

-- A look through an address that fails says that no cell has the address.
pub find_ref-none : (ref : ℕ) (cs : List Cell) → find_ref ref cs ≡ none → All (λ c. c.ref ≢ ref) cs
unfolding find_ref
find_ref-none ref [] h = tt
find_ref-none ref (c ∷ cs) h = elim (Bool-cases (c.ref == ref)) [
  | inl hit ↦ absurd (ground arith)
  | inr miss ↦ (ground arith, find_ref-none ref cs (ground arith))
]
