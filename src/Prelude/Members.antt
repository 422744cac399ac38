-- ===== src/Prelude/Members.antt =====
-- Membership in a list and what holds of all its items, and how sorting and filtering keep them.
use mathlib.Core.Path.{◌≡◌, subst}
use mathlib.Core.Logic.{◌⊎◌, inl, inr}
use mathlib.Core.Bool.{Bool, true}
use mathlib.Core.Option.{some, some-injective}
use mathlib.Core.List.{List, [], ◌∷◌, ◌++◌}
use native.Mathlib.Omega.{arith}
use bot_trading.Prelude.Tests.{Bool-cases}
use bot_trading.Prelude.Tables.{find_row, delete_rows, upsert, select}
use bot_trading.Prelude.Sorting.{insert_by, sort_by}

module _ {A : Type 0} where
  abbrev pub In : A → List A → Type 0
  In x [] = ⊥
  In x (y ∷ l) = (x ≡ y) ⊎ In x l

  pub In-append_right : (x : A) (l m : List A) → In x m → In x (l ++ m)
  In-append_right x [] m h = h
  In-append_right x (y ∷ l) m h = inr (In-append_right x l m h)

  pub In-append_left : (x : A) (l m : List A) → In x l → In x (l ++ m)
  In-append_left x [] m h = absurd h
  In-append_left x (y ∷ l) m (inl e) = inl e
  In-append_left x (y ∷ l) m (inr h) = inr (In-append_left x l m h)

  pub In-select : (q : A → Bool) (x : A) (l : List A) → In x (select q l) → In x l × (q x ≡ true)
  In-select q x [] h = absurd h
  In-select q x (y ∷ l) h = elim (Bool-cases (q y)) [
    | inl passes ↦ elim (rw passes at h) [
      | inl e ↦ (inl e, cc)
      | inr later ↦ let (m, t) = In-select q x l later in (inr m, t)
    ]
    | inr fails ↦ let (m, t) = In-select q x l (rw fails at h) in (inr m, t)
  ]

module _ {A : Type 0} (before : A → A → Bool) where
  In-insert_by : (x y : A) (l : List A) → In x (insert_by before y l) → (x ≡ y) ⊎ In x l
  In-insert_by x y [] h = h
  In-insert_by x y (z ∷ l) h = elim (Bool-cases (before z y)) [
    | inr stops ↦ rw stops at h
    | inl goes ↦ elim (rw goes at h) [
      | inl e ↦ inr (inl e)
      | inr later ↦ elim (In-insert_by x y l later) [ inl e ↦ inl e | inr m ↦ inr (inr m) ]
    ]
  ]

  -- Sorting brings no new item in.
  pub In-sort_by : (x : A) (l : List A) → In x (sort_by before l) → In x l
  In-sort_by x [] h = h
  In-sort_by x (y ∷ l) h = elim (In-insert_by x y (sort_by before l) h) [
    | inl e ↦ inl e
    | inr m ↦ inr (In-sort_by x l m)
  ]

abbrev pub All {ℓ κ} : {A : Type ℓ} → (A → Type κ) → List A → Type κ
All P [] = Unit
All P (x ∷ xs) = P x × All P xs

module _ {ℓ κ} {A : Type ℓ} (P : A → Type κ) where
  pub All-append : (l m : List A) → All P l → All P m → All P (l ++ m)
  All-append [] m h k = k
  All-append (x ∷ l) m (p, h) k = (p, All-append l m h k)

  All-insert_by :
      (before : A → A → Bool) (x : A) (l : List A) → P x → All P l → All P (insert_by before x l)
  All-insert_by before x [] p h = (p, tt)
  All-insert_by before x (y ∷ l) p (q, h) = elim (Bool-cases (before y x)) [
    | inl goes ↦ rw goes (q, All-insert_by before x l p h)
    | inr stops ↦ rw stops (p, (q, h))
  ]

  -- Sorting keeps what holds of all items.
  pub All-sort_by : (before : A → A → Bool) (l : List A) → All P l → All P (sort_by before l)
  All-sort_by before [] h = tt
  All-sort_by before (x ∷ l) (p, h) =
      All-insert_by before x (sort_by before l) p (All-sort_by before l h)

  -- What the writes of a table keep, and what is found in it.
  pub All-upsert : (p : A → Bool) (y : A) (l : List A) → P y → All P l → All P (upsert p y l)
  All-upsert p y [] h k = (h, tt)
  All-upsert p y (x ∷ l) h (q, k) = elim (Bool-cases (p x)) [
    | inl hit ↦ rw hit (h, k)
    | inr miss ↦ rw miss (q, All-upsert p y l h k)
  ]

  pub All-delete_rows : (p : A → Bool) (l : List A) → All P l → All P (delete_rows p l)
  All-delete_rows p [] h = tt
  All-delete_rows p (x ∷ l) (q, h) = elim (Bool-cases (p x)) [
    | inl hit ↦ rw hit (All-delete_rows p l h)
    | inr miss ↦ rw miss (q, All-delete_rows p l h)
  ]

  pub All-find_row : (p : A → Bool) (l : List A) {x : A} → All P l → find_row p l ≡ some x → P x
  All-find_row p [] h k = absurd (ground arith)
  All-find_row p (y ∷ l) {x} (q, h) k = elim (Bool-cases (p y)) [
    | inl hit ↦ subst P (some-injective y x (rw hit at k)) q
    | inr miss ↦ All-find_row p l h (rw miss at k)
  ]
