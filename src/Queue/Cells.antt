-- ===== src/Queue/Cells.antt =====
-- The loops of internal/queue/manager.go over the items of the queue.
pub mod Updates
pub mod Split
pub mod Found
use merge_bot.Base.{ℕ, Bool, List, [], ◌∷◌, Option, none, some, ◌==◌, if◌then◌else◌}
use merge_bot.Queue.Types.{Item, Cell}

-- `for _, it := range m.items { if test(it) { … } }` that stops at the first hit: the item found,
-- and the list after the item was changed in place.
unfoldable pub find_first : (Item → Bool) → List Cell → Option Cell
find_first test [] = none
find_first test (c ∷ cs) = if test c.item then some c else find_first test cs

unfoldable pub update_first : (Item → Bool) → (Item → Item) → List Cell → List Cell
update_first test change [] = []
update_first test change (c ∷ cs) =
    if test c.item then record c { item = change c.item } ∷ cs else c ∷ update_first test change cs

-- Through a pointer: the item at an address, and a write to it.
unfoldable pub find_ref : ℕ → List Cell → Option Item
find_ref ref [] = none
find_ref ref (c ∷ cs) = if c.ref == ref then some c.item else find_ref ref cs

unfoldable pub update_ref : ℕ → (Item → Item) → List Cell → List Cell
update_ref ref change [] = []
update_ref ref change (c ∷ cs) =
    if c.ref == ref then record c { item = change c.item } ∷ cs else c ∷ update_ref ref change cs

-- The cells whose items fail or pass a test.
unfoldable pub keep_cells : (Item → Bool) → List Cell → List Cell
keep_cells test [] = []
keep_cells test (c ∷ cs) = let rest = keep_cells test cs in if test c.item then c ∷ rest else rest

-- Go's `map[int]CancelFunc`.
unfoldable pub lookup_cancel : ℕ → List (ℕ × ℕ) → Option ℕ
lookup_cancel n [] = none
lookup_cancel n ((k, context) ∷ rest) = if k == n then some context else lookup_cancel n rest

unfoldable pub delete_cancel : ℕ → List (ℕ × ℕ) → List (ℕ × ℕ)
delete_cancel n [] = []
delete_cancel n ((k, context) ∷ rest) =
    let others = delete_cancel n rest in if k == n then others else (k, context) ∷ others
