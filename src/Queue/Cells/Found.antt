-- ===== src/Queue/Cells/Found.antt =====
-- The cell that a loop over the items of internal/queue/manager.go changes, as an address.
use mathlib.Core.Option
use mathlib.Core.Option.{some-injective}
use merge_bot.Base.{
  ℕ, ◌≡◌, ◌≢◌, refl, subst, Bool, true, List, [], ◌∷◌, ◌++◌, map, Option, none, some, arith, All,
  Distinct, Bool-cases, ◌==◌, if◌then◌else◌, inl, inr,
}
use merge_bot.Queue.Types.{Item, Cell}
use merge_bot.Queue.Cells.{find_first, update_first, find_ref, update_ref, keep_cells}
use merge_bot.Queue.Cells.Updates.{All-map}

pub find_ref-away : (ref : ℕ) (cs : List Cell) → All (λ c. c.ref ≢ ref) cs → find_ref ref cs ≡ none
unfolding find_ref
find_ref-away ref [] h = refl
find_ref-away ref (c ∷ cs) h = ground (arith, find_ref-away ref cs h.1)

-- The cell that a search finds passes its test.
pub find_first-passes :
    (test : Item → Bool) (cs : List Cell) (c : Cell)
    → find_first test cs ≡ some c
    → test c.item ≡ true
unfolding find_first
find_first-passes test [] c h = absurd (ground arith)
find_first-passes test (x ∷ xs) c h = elim (Bool-cases (test x.item)) [
  | inl hit ↦ subst (λ y. test y.item ≡ true) (some-injective x c (rw (hit, find_first) at h)) hit
  | inr miss ↦ find_first-passes test xs c (rw (miss, find_first) at h)
]

-- What holds of every cell holds of the one that is found.
pub find_first-All :
    (P : Cell → Type 0) (test : Item → Bool) (cs : List Cell) (c : Cell)
    → All P cs
    → find_first test cs ≡ some c
    → P c
unfolding find_first
find_first-All P test [] c all h = absurd (ground arith)
find_first-All P test (x ∷ xs) c all h = elim (Bool-cases (test x.item)) [
  | inl hit ↦ subst P (some-injective x c (rw (hit, find_first) at h)) all.0
  | inr miss ↦ find_first-All P test xs c all.1 (rw (miss, find_first) at h)
]

-- With distinct addresses the cell that is found is the one at its address.
pub find_ref-found :
    (test : Item → Bool) (cs : List Cell) (c : Cell)
    → Distinct (map (λ x. x.ref) cs)
    → find_first test cs ≡ some c
    → find_ref c.ref cs ≡ some c.item
unfolding find_first find_ref
find_ref-found test [] c d h = absurd (ground arith)
find_ref-found test (x ∷ xs) c d h = elim (Bool-cases (test x.item)) [
  | inl hit ↦
      let same : x ≡ c = some-injective x c (rw (hit, find_first) at h) in
      subst (λ y. find_ref y.ref (x ∷ xs) ≡ some y.item) same (ground arith)
  | inr miss ↦
      let later : find_first test xs ≡ some c = rw (miss, find_first) at h in
      let apart : c.ref ≢ x.ref =
        find_first-All (λ y. y.ref ≢ x.ref) test xs c
          ((All-map (λ y. y.ref) (λ k. k ≢ x.ref) xs).0 d.0) later in
      ground (arith, find_ref-found test xs c d.1 later)
]

-- An update of the cell that is found, seen through the addresses.
pub find_ref-update_first :
    (test : Item → Bool) (change : Item → Item) (k : ℕ) (cs : List Cell) (c : Cell)
    → Distinct (map (λ x. x.ref) cs)
    → find_first test cs ≡ some c
    → find_ref k (update_first test change cs)
      ≡ (if c.ref == k then some (change c.item) else find_ref k cs)
unfolding find_first find_ref update_first
find_ref-update_first test change k [] c d h = absurd (ground arith)
find_ref-update_first test change k (x ∷ xs) c d h = elim (Bool-cases (test x.item)) [
  | inl hit ↦
      let same : x ≡ c = some-injective x c (rw (hit, find_first) at h) in
      rw hit (
        subst
          (λ y.
            find_ref k (record x { item = change x.item } ∷ xs)
            ≡ (if y.ref == k then some (change y.item) else find_ref k (x ∷ xs)))
          same (ground arith))
  | inr miss ↦
      let later : find_first test xs ≡ some c = rw (miss, find_first) at h in
      let apart : c.ref ≢ x.ref =
        find_first-All (λ y. y.ref ≢ x.ref) test xs c
          ((All-map (λ y. y.ref) (λ j. j ≢ x.ref) xs).0 d.0) later in
      rw miss (ground (arith, find_ref-update_first test change k xs c d.1 later))
]

-- A write through an address.
pub find_ref-update_ref :
    (ref k : ℕ) (change : Item → Item) (cs : List Cell)
    → find_ref k (update_ref ref change cs)
      ≡ (if ref == k then Option.map change (find_ref k cs) else find_ref k cs)
unfolding find_ref update_ref
find_ref-update_ref ref k change [] = ground arith
find_ref-update_ref ref k change (c ∷ cs) = ground (arith, find_ref-update_ref ref k change cs)

-- Cells that are kept and cells that are dropped, behind one another: every address has the item
-- that it had, if the addresses are distinct.
abbrev pub or_in : Option Item → ℕ → List Cell → Option Item
or_in none k cs = find_ref k cs
or_in (some it) k cs = some it

pub find_ref-append :
    (k : ℕ) (xs ys : List Cell) → find_ref k (xs ++ ys) ≡ or_in (find_ref k xs) k ys
unfolding find_ref
find_ref-append k [] ys = refl
find_ref-append k (x ∷ xs) ys = ground (arith, find_ref-append k xs ys)

-- The item at an address among the cells that pass a test.
abbrev pub passing : (Item → Bool) → Option Item → Option Item
passing test none = none
passing test (some it) = if test it then some it else none

pub find_ref-keep_cells :
    (test : Item → Bool) (k : ℕ) (cs : List Cell)
    → Distinct (map (λ c. c.ref) cs)
    → find_ref k (keep_cells test cs) ≡ passing test (find_ref k cs)
unfolding find_ref keep_cells
find_ref-keep_cells test k [] d = refl
find_ref-keep_cells test k (c ∷ cs) d = elim (Bool-cases (c.ref == k)) [
  | inl at ↦
      let gone : find_ref k cs ≡ none = find_ref-away k cs (
        subst (λ j. All (λ x. x.ref ≢ j) cs) (ground arith)
          ((All-map (λ x. x.ref) (λ j. j ≢ c.ref) cs).0 d.0)) in
      ground (arith, find_ref-keep_cells test k cs d.1)
  | inr away ↦ ground (arith, find_ref-keep_cells test k cs d.1)
]

-- A cell at another address, put behind.
pub find_ref-append_other :
    (k : ℕ) (cs : List Cell) (c : Cell) → c.ref ≢ k → find_ref k (cs ++ c ∷ []) ≡ find_ref k cs
unfolding find_ref
find_ref-append_other k [] c away = ground (arith, away)
find_ref-append_other k (x ∷ xs) c away = ground (arith, find_ref-append_other k xs c away)

-- What holds of the items of all cells holds of the one at an address.
pub find_ref-All :
    (P : Item → Type 0) (k : ℕ) (cs : List Cell) (it : Item)
    → All (λ c. P c.item) cs
    → find_ref k cs ≡ some it
    → P it
unfolding find_ref
find_ref-All P k [] it all h = absurd (ground arith)
find_ref-All P k (c ∷ cs) it all h = elim (Bool-cases (c.ref == k)) [
  | inl at ↦ subst P (some-injective c.item it (rw (at, find_ref) at h)) all.0
  | inr away ↦ find_ref-All P k cs it all.1 (rw (away, find_ref) at h)
]
