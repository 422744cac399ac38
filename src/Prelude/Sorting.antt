-- ===== src/Prelude/Sorting.antt =====
-- Python's `sorted`, which is stable, and how it meets a filter and a search.
use mathlib.Core.Path.{◌≡◌, refl}
use mathlib.Core.Bool.{Bool, true, false, not, ◌&&◌}
use mathlib.Core.Option.{Option, none, some}
use mathlib.Core.List.{List, [], ◌∷◌}
use native.Mathlib.Omega.{arith}
use bot_trading.Prelude.Tests.{if◌then◌else◌}
use bot_trading.Prelude.Tables.{find_row, select}
use bot_trading.Prelude.Lists.{all}

module _ {ℓ} {A : Type ℓ} (before : A → A → Bool) where
  -- An item goes in front of the first one that is not strictly before it.
  abbrev pub insert_by : A → List A → List A
  insert_by x [] = x ∷ []
  insert_by x (y ∷ ys) = if before y x then y ∷ insert_by x ys else x ∷ y ∷ ys

  abbrev pub sort_by : List A → List A
  sort_by [] = []
  sort_by (x ∷ xs) = insert_by x (sort_by xs)

  -- No later item is strictly before an earlier one.
  abbrev pub is_sorted : List A → Bool
  is_sorted [] = true
  is_sorted (x ∷ xs) = all (λ y. not (before y x)) xs && is_sorted xs

  all-insert_by :
      (p : A → Bool) (x : A) (l : List A)
      → p x ≡ true
      → all p l ≡ true
      → all p (insert_by x l) ≡ true
  all-insert_by p x [] h k = ground arith
  all-insert_by p x (y ∷ l) h k = ground (arith, all-insert_by p x l)

-- A strict order whose incomparable items are equivalent.
pub record IsOrder {ℓ} {A : Type ℓ} (before : A → A → Bool) : Type ℓ where
  pub asym : (x y : A) → before x y ≡ true → before y x ≡ false
  pub cotrans : (x y z : A) → before x z ≡ true → before x y ≡ false → before y z ≡ true

module _ {ℓ} {A : Type ℓ} (before : A → A → Bool) (order : IsOrder before) where
  not-before_trans :
      (x y : A) (l : List A)
      → before y x ≡ false
      → all (λ z. not (before z y)) l ≡ true
      → all (λ z. not (before z x)) l ≡ true
  not-before_trans x y [] h k = refl
  not-before_trans x y (z ∷ l) h k = ground (arith, order.cotrans z y x, not-before_trans x y l h)

  insert_by_sorted :
      (x : A) (l : List A)
      → is_sorted before l ≡ true
      → is_sorted before (insert_by before x l) ≡ true
  insert_by_sorted x [] h = refl
  insert_by_sorted x (y ∷ l) h = ground (
    arith,
    insert_by_sorted x l,
    order.asym y x,
    all-insert_by before (λ z. not (before z y)) x l,
    not-before_trans x y l,
  )

  pub sort_by_sorted : (l : List A) → is_sorted before (sort_by before l) ≡ true
  sort_by_sorted [] = refl
  sort_by_sorted (x ∷ l) = insert_by_sorted x (sort_by before l) (sort_by_sorted l)

-- A list that is sorted by an order is sorted by a coarser one.
module _ {ℓ} {A : Type ℓ} (before weak : A → A → Bool) (order : IsOrder weak)
    (after : (x y : A) → before y x ≡ true → weak x y ≡ false)
    (up_to : (x y : A) → before y x ≡ false → weak y x ≡ false) where
  insert_by_coarser :
      (x : A) (l : List A) → is_sorted weak l ≡ true → is_sorted weak (insert_by before x l) ≡ true
  insert_by_coarser x [] h = refl
  insert_by_coarser x (y ∷ l) h = ground (
    arith,
    insert_by_coarser x l,
    after x y,
    up_to x y,
    all-insert_by before (λ z. not (weak z y)) x l,
    not-before_trans weak order x y l,
  )

  pub sort_by_coarser : (l : List A) → is_sorted weak (sort_by before l) ≡ true
  sort_by_coarser [] = refl
  sort_by_coarser (x ∷ l) = insert_by_coarser x (sort_by before l) (sort_by_coarser l)

abbrev pub keep {ℓ} : {A : Type ℓ} → (A → Bool) → Option A → Option A
keep q none = none
keep q (some x) = if q x then some x else none

-- A test that holds of all that stands before a passing item cuts a sorted list in two.
module _ {ℓ} {A : Type ℓ} (before : A → A → Bool) (order : IsOrder before) (q : A → Bool)
    (down : (x y : A) → before y x ≡ false → q y ≡ true → q x ≡ true) where
  none_later :
      (y : A) (l : List A) → q y ≡ false → all (λ z. not (before z y)) l ≡ true → select q l ≡ []
  none_later y [] h k = refl
  none_later y (z ∷ l) h k = ground (arith, down y z, none_later y l h)

  select-insert_by :
      (x : A) (l : List A)
      → is_sorted before l ≡ true
      → select q (insert_by before x l)
        ≡ (if q x then insert_by before x (select q l) else select q l)
  select-insert_by x [] h = ground arith
  select-insert_by x (y ∷ l) h =
      ground (arith, select-insert_by x l, order.asym y x, down y x, none_later y l)

  -- To sort what passes is to take what passes of the sorted list.
  pub sort_by-select : (l : List A) → sort_by before (select q l) ≡ select q (sort_by before l)
  sort_by-select [] = refl
  sort_by-select (x ∷ l) = ground (
    arith,
    sort_by-select l,
    select-insert_by x (sort_by before l) (sort_by_sorted before order l),
  )

  -- A search among what passes finds the first item of the whole list, if that passes.
  pub find_row-select :
      (p : A → Bool) (l : List A)
      → is_sorted before l ≡ true
      → find_row p (select q l) ≡ keep q (find_row p l)
  find_row-select p [] h = refl
  find_row-select p (z ∷ l) h = ground (arith, find_row-select p l, none_later z l)
