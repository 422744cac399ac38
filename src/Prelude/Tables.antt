-- ===== src/Prelude/Tables.antt =====
-- Tables as lists of rows: the SQL statements of the store, over a test of the rows.
use mathlib.Core.Bool.{Bool}
use mathlib.Core.Option.{Option, none, some}
use mathlib.Core.List.{List, [], ◌∷◌}
use bot_trading.Prelude.Tests.{if◌then◌else◌}

module _ {ℓ} {A : Type ℓ} where
  -- `SELECT ... WHERE p`, the first row.
  abbrev pub find_row : (A → Bool) → List A → Option A
  find_row p [] = none
  find_row p (x ∷ xs) = if p x then some x else find_row p xs

  -- `UPDATE ... SET f WHERE p`.
  abbrev pub update_rows : (A → Bool) → (A → A) → List A → List A
  update_rows p f [] = []
  update_rows p f (x ∷ xs) = (if p x then f x else x) ∷ update_rows p f xs

  -- `DELETE ... WHERE p`.
  abbrev pub delete_rows : (A → Bool) → List A → List A
  delete_rows p [] = []
  delete_rows p (x ∷ xs) = if p x then delete_rows p xs else x ∷ delete_rows p xs

  -- `INSERT ... ON CONFLICT DO UPDATE`: the conflicting row is overwritten in its place.
  abbrev pub upsert : (A → Bool) → A → List A → List A
  upsert p y [] = y ∷ []
  upsert p y (x ∷ xs) = if p x then y ∷ xs else x ∷ upsert p y xs

  -- The same in a table that is kept in an order: `before x` says that the row `x` stands before.
  abbrev pub upsert_ordered : (A → Bool) → (A → Bool) → A → List A → List A
  upsert_ordered p before y [] = y ∷ []
  upsert_ordered p before y (x ∷ xs) =
      if p x then y ∷ xs else (if before x then x ∷ upsert_ordered p before y xs else y ∷ x ∷ xs)

  -- Python's list comprehension with a condition.
  abbrev pub select : (A → Bool) → List A → List A
  select p [] = []
  select p (x ∷ xs) = if p x then x ∷ select p xs else select p xs
