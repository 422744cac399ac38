-- ===== src/Prelude/TableLaws.antt =====
-- How the reads of a table meet its writes.
use mathlib.Core.Path.{◌≡◌, refl}
use mathlib.Core.Bool.{Bool, true, false}
use mathlib.Core.Option
use mathlib.Core.Option.{Option, none, some}
use mathlib.Core.List.{List, [], ◌∷◌}
use native.Mathlib.Omega.{arith}
use bot_trading.Prelude.Tables.{find_row, update_rows, delete_rows, upsert}

module _ {ℓ} {A : Type ℓ} (p : A → Bool) where
  -- What is found passes the test.
  pub find_row_test : (xs : List A) {x : A} → find_row p xs ≡ some x → p x ≡ true
  find_row_test [] h = cc
  find_row_test (y ∷ xs) {x} h = ground (arith, find_row_test xs {x = x})

  pub find_row-update_rows :
      (f : A → A) (keep : (x : A) → p x ≡ true → p (f x) ≡ true) (xs : List A)
      → find_row p (update_rows p f xs) ≡ Option.map f (find_row p xs)
  find_row-update_rows f keep [] = refl
  find_row-update_rows f keep (x ∷ xs) = ground (arith, keep x, find_row-update_rows f keep xs)

  -- An update of other rows does not change what is found.
  pub find_row-update_rows_other :
      (q : A → Bool) (f : A → A) (miss : (x : A) → p x ≡ true → q x ≡ false)
      (still : (x : A) → p x ≡ true → q (f x) ≡ false) (xs : List A)
      → find_row q (update_rows p f xs) ≡ find_row q xs
  find_row-update_rows_other q f miss still [] = refl
  find_row-update_rows_other q f miss still (x ∷ xs) =
      ground (arith, miss x, still x, find_row-update_rows_other q f miss still xs)

  pub update_rows_twice :
      (f : A → A) (keep : (x : A) → p x ≡ true → p (f x) ≡ true) (idem : (x : A) → f (f x) ≡ f x)
      (xs : List A)
      → update_rows p f (update_rows p f xs) ≡ update_rows p f xs
  update_rows_twice f keep idem [] = refl
  update_rows_twice f keep idem (x ∷ xs) =
      ground (arith, keep x, idem x, update_rows_twice f keep idem xs)

  pub find_row-upsert : (y : A) (xs : List A) → p y ≡ true → find_row p (upsert p y xs) ≡ some y
  find_row-upsert y [] h = ground arith
  find_row-upsert y (x ∷ xs) h = ground (arith, find_row-upsert y xs h)

  pub find_row-upsert_other :
      (q : A → Bool) (y : A) (miss : (x : A) → p x ≡ true → q x ≡ false) (xs : List A)
      → q y ≡ false
      → find_row q (upsert p y xs) ≡ find_row q xs
  find_row-upsert_other q y miss [] h = ground arith
  find_row-upsert_other q y miss (x ∷ xs) h =
      ground (arith, miss x, find_row-upsert_other q y miss xs h)

  pub upsert_twice : (y : A) (xs : List A) → p y ≡ true → upsert p y (upsert p y xs) ≡ upsert p y xs
  upsert_twice y [] h = ground arith
  upsert_twice y (x ∷ xs) h = ground (arith, upsert_twice y xs h)

  pub delete_rows_twice : (xs : List A) → delete_rows p (delete_rows p xs) ≡ delete_rows p xs
  delete_rows_twice [] = refl
  delete_rows_twice (x ∷ xs) = ground (arith, delete_rows_twice xs)

  pub find_row-delete_rows : (xs : List A) → find_row p (delete_rows p xs) ≡ none
  find_row-delete_rows [] = refl
  find_row-delete_rows (x ∷ xs) = ground (arith, find_row-delete_rows xs)

  pub find_row-delete_rows_other :
      (q : A → Bool) (miss : (x : A) → p x ≡ true → q x ≡ false) (xs : List A)
      → find_row q (delete_rows p xs) ≡ find_row q xs
  find_row-delete_rows_other q miss [] = refl
  find_row-delete_rows_other q miss (x ∷ xs) =
      ground (arith, miss x, find_row-delete_rows_other q miss xs)
