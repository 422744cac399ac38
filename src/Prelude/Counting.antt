-- ===== src/Prelude/Counting.antt =====
-- How many items of a list pass a test, and what the writes of a table do to that number.
use Prim.Native.Nat.{ℕ, ◌+◌, ◌≤◌}
use mathlib.Core.Path.{◌≡◌, refl}
use mathlib.Core.Bool.{Bool, true, false}
use mathlib.Core.Option.{some}
use mathlib.Core.List.{List, [], ◌∷◌, ◌++◌}
use native.Mathlib.Omega.{arith}
use bot_trading.Prelude.Sorting.{insert_by, sort_by}
use bot_trading.Prelude.Tables.{find_row, delete_rows, upsert}

abbrev pub one_if : Bool → ℕ
one_if true = 1
one_if false = 0

module _ {A : Type 0} (q : A → Bool) where
  abbrev pub count : List A → ℕ
  count [] = 0
  count (x ∷ xs) = one_if (q x) + count xs

  pub count-append : (l m : List A) → count (l ++ m) ≡ count l + count m
  count-append [] m = ground arith
  count-append (x ∷ l) m = ground (arith, count-append l m)

  pub count-upsert :
      (p : A → Bool) (y : A) (l : List A) → count (upsert p y l) ≤ one_if (q y) + count l
  count-upsert p y [] = ground arith
  count-upsert p y (x ∷ l) = ground (arith, count-upsert p y l)

  pub count-delete_rows : (p : A → Bool) (l : List A) → count (delete_rows p l) ≤ count l
  count-delete_rows p [] = ground arith
  count-delete_rows p (x ∷ l) = ground (arith, count-delete_rows p l)

  -- What is found is deleted.
  pub count-delete_rows_found :
      (p : A → Bool) (l : List A) {x : A}
      → find_row p l ≡ some x
      → one_if (q x) + count (delete_rows p l) ≤ count l
  count-delete_rows_found p [] h = absurd (ground arith)
  count-delete_rows_found p (y ∷ l) {x} h =
      ground (arith, count-delete_rows p l, count-delete_rows_found p l {x = x})

  -- What is found is overwritten.
  pub count-upsert_found :
      (p : A → Bool) (y : A) (l : List A) {x : A}
      → find_row p l ≡ some x
      → one_if (q x) + count (upsert p y l) ≡ one_if (q y) + count l
  count-upsert_found p y [] h = absurd (ground arith)
  count-upsert_found p y (z ∷ l) {x} h = ground (arith, count-upsert_found p y l {x = x})

  count-insert_by :
      (before : A → A → Bool) (x : A) (l : List A)
      → count (insert_by before x l) ≡ one_if (q x) + count l
  count-insert_by before x [] = refl
  count-insert_by before x (y ∷ l) = ground (arith, count-insert_by before x l)

  -- Sorting keeps every item.
  pub count-sort_by : (before : A → A → Bool) (l : List A) → count (sort_by before l) ≡ count l
  count-sort_by before [] = refl
  count-sort_by before (x ∷ l) =
      ground (arith, count-insert_by before x (sort_by before l), count-sort_by before l)
