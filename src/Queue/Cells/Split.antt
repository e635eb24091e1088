-- ===== src/Queue/Cells/Split.antt =====
-- A successful search among the items, for the loops of internal/queue/manager.go.
use mathlib.Core.Option.{some-injective}
use merge_bot.Base.{
  ◌≡◌, ap, subst, Bool, true, false, List, [], ◌∷◌, ◌++◌, some, arith, All, Bool-cases, inl, inr,
}
use merge_bot.Queue.Types.{Item, Cell}
use merge_bot.Queue.Cells.{find_first, update_first}
use merge_bot.Queue.Cells.Updates.{changed}

-- The first cell that passes the test, what stands before it, and what an update at it makes.
pub record Split (test : Item → Bool) (cs : List Cell) (c : Cell) : Type 0 where
  pub before : List Cell
  pub after : List Cell
  pub whole : cs ≡ before ++ c ∷ after
  pub passed : test c.item ≡ true
  pub skipped : All (λ x. test x.item ≡ false) before
  pub update :
      (change : Item → Item) → update_first test change cs ≡ before ++ changed change c ∷ after

pub find_first-Split :
    (test : Item → Bool) (cs : List Cell) (c : Cell) → find_first test cs ≡ some c → Split test cs c
unfolding find_first update_first
find_first-Split test [] c h = absurd (ground arith)
find_first-Split test (x ∷ xs) c h = elim (Bool-cases (test x.item)) [
  | inl hit ↦
      let same : x ≡ c = some-injective x c (rw (hit, find_first) at h) in
      record {
        before = [];
        after = xs;
        whole = ap (λ y. y ∷ xs) same;
        passed = subst (λ y. test y.item ≡ true) same hit;
        skipped = tt;
        update = λ change. rw hit (ap (λ y. changed change y ∷ xs) same);
      }
  | inr miss ↦
      let rest = find_first-Split test xs c (rw (miss, find_first) at h) in
      record {
        before = x ∷ rest.before;
        after = rest.after;
        whole = ap (λ ys. x ∷ ys) rest.whole;
        passed = rest.passed;
        skipped = (miss, rest.skipped);
        update = λ change. rw miss (ap (λ ys. x ∷ ys) (rest.update change));
      }
]
