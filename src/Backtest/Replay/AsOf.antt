-- ===== src/Backtest/Replay/AsOf.antt =====
-- A view of a replay shows what had been published by its clock: no less and no more.
use mathlib.Core.List.{append-nil, append_assoc}
use mathlib.Core.Path.{subst}
use bot_trading.Prelude.{
  ◌≡◌, refl, ap, sym, ◌∙◌, Bool, true, false, not, Option, none, some, List, [], ◌∷◌, ◌++◌, map,
  all, length, select, inl, inr, Bool-cases, arith,
}
use bot_trading.Prelude.Sorting.{is_sorted, IsOrder}
use bot_trading.Decimal.{Decimals}
use bot_trading.Risk.Types.{Stamp}
use bot_trading.Exec.{ok, for_each, is_ok, Result-cases}
use bot_trading.Domain.{earlier, Bar}
use bot_trading.Market.{DataBundle}
use bot_trading.Backtest.Replay.{ReplayRecord, Replay, validate}
use bot_trading.Backtest.Replay.Views.{
  visible, slice, projection, project, unseen, rewinds, bundle_of, view,
}

module _ ⦃dec : Decimals⦄ where
  abbrev pub sooner : ReplayRecord → ReplayRecord → Bool
  sooner a b = earlier a.available_at b.available_at

  -- Published by the clock.
  abbrev pub is_public : Stamp → ReplayRecord → Bool
  is_public clock r = not (earlier clock r.available_at)

  none_public :
      (clock : Stamp) (r : ReplayRecord) (l : List ReplayRecord)
      → is_public clock r ≡ false
      → all (λ z. not (sooner z r)) l ≡ true
      → select (is_public clock) l ≡ []
  none_public clock r [] h k = refl
  none_public clock r (x ∷ l) h k = ground (arith, none_public clock r l)

  slice_public :
      (clock : Stamp) (l : List ReplayRecord)
      → is_sorted sooner l ≡ true
      → slice 0 (visible clock l) l ≡ select (is_public clock) l
  slice_public clock [] h = refl
  slice_public clock (r ∷ l) h = elim (Bool-cases (earlier clock r.available_at)) [
    | inl later ↦ ground (arith, none_public clock r l)
    | inr past ↦ ground (arith, slice_public clock l)
  ]

  slice_fresh :
      (before clock : Stamp) (l : List ReplayRecord)
      → is_sorted sooner l ≡ true
      → earlier clock before ≡ false
      → select (is_public before) l
          ++ slice (length (map projection (select (is_public before) l))) (visible clock l) l
        ≡ select (is_public clock) l
  slice_fresh before clock [] h k = refl
  slice_fresh before clock (r ∷ l) h k = elim (Bool-cases (earlier before r.available_at)) [
    | inl later ↦ ground (arith, none_public before r l, slice_public clock (r ∷ l))
    | inr past ↦ ground (arith, slice_fresh before clock l)
  ]

  -- The state between two views: the records stand in the order of their publication, and what is
  -- projected is what the clock shows.
  abbrev shown : Option Stamp → List ReplayRecord → List Bar
  shown none l = []
  shown (some clock) l = map projection (select (is_public clock) l)

  pub record IsSynced (r : Replay) : Type 0 where
    pub ordered : is_sorted sooner r.records ≡ true
    pub projected_is_shown : r.projected ≡ shown r.clock r.records

  -- What the loop over the fresh records adds.
  for_each-project :
      (l : List ReplayRecord) (r : Replay)
      → is_ok (for_each l project r).0 ≡ true
      → (for_each l project r).1 ≡ record r { projected = r.projected ++ map projection l }
  unfolding for_each
  for_each-project [] r h = cc (append-nil r.projected)
  for_each-project (k ∷ l) r h = elim (Result-cases (validate (projection k))) [
    | inr (e, bad) ↦ absurd (ground arith)
    | inl (t, good) ↦
        let added = record r { projected = r.projected ++ projection k ∷ [] } in
        let rest = for_each-project l added (rw good at h) in
        let assoc = append_assoc r.projected (projection k ∷ []) (map projection l) in
        rw good (rest ∙ ap (λ bars. record r { projected = bars }) assoc)
  ]

  map-append : {A B : Type 0} (f : A → B) (l m : List A) → map f (l ++ m) ≡ map f l ++ map f m
  map-append f [] m = refl
  map-append f (x ∷ l) m = cc (map-append f l m)

  shown_fresh :
      (clock : Stamp) (set : Option Stamp) (l : List ReplayRecord)
      → is_sorted sooner l ≡ true
      → rewinds clock set ≡ false
      → shown set l ++ map projection (slice (length (shown set l)) (visible clock l) l)
        ≡ map projection (select (is_public clock) l)
  shown_fresh clock none l h k = ap (map projection) (slice_public clock l h)
  shown_fresh clock (some before) l h k =
      sym (map-append projection (select (is_public before) l) _)
      ∙ ap (map projection) (slice_fresh before clock l h k)

  total_shown :
      (clock : Stamp) (r : Replay)
      → IsSynced r
      → rewinds clock r.clock ≡ false
      → r.projected ++ map projection (unseen clock r)
        ≡ map projection (select (is_public clock) r.records)
  total_shown clock r synced forth =
      subst
        (λ p.
          p ++ map projection (slice (length p) (visible clock r.records) r.records)
          ≡ map projection (select (is_public clock) r.records))
        (sym synced.projected_is_shown) (shown_fresh clock r.clock r.records synced.ordered forth)

  abbrev pub showing : Stamp → Replay → Replay
  showing clock r = record r {
    clock = some clock;
    projected = map projection (select (is_public clock) r.records);
  }

  -- A view that is not refused, as one equation.
  view-showing :
      (clock : Stamp) (r : Replay) {bundle : DataBundle}
      → IsSynced r
      → (view clock r).0 ≡ ok bundle
      → view clock r ≡ (ok (bundle_of (showing clock r)), showing clock r)
  unfolding view
  view-showing clock r {bundle} synced h = elim (Bool-cases clock.aware) [
    | inr naive ↦ absurd (ground arith)
    | inl aware ↦ elim (Bool-cases (rewinds clock r.clock)) [
      | inl back ↦ absurd (ground arith)
      | inr forth ↦
          let set = record r { clock = some clock } in
          elim (Result-cases (for_each (unseen clock r) project set).0) [
            | inr (e, bad) ↦ absurd (ground arith)
            | inl (t, good) ↦
                let added = for_each-project (unseen clock r) set (ground arith) in
                let total = total_shown clock r synced forth in ground arith
          ]
    ]
  ]

  -- A view of a synchronized replay that is not refused shows the projections of exactly the
  -- records that its clock makes public, in the order of their publication, and leaves the replay
  -- synchronized at that clock, with the same records.
  pub view_shows_public :
      (clock : Stamp) (r : Replay) {bundle : DataBundle}
      → IsSynced r
      → (view clock r).0 ≡ ok bundle
      → (bundle.bars ≡ map projection (select (is_public clock) r.records))
        × IsSynced (view clock r).1
        × ((view clock r).1.records ≡ r.records)
        × ((view clock r).1.clock ≡ some clock)
  view_shows_public clock r {bundle} synced h =
      let seen = view-showing clock r {bundle = bundle} synced h in
      (
        ground arith,
        subst (λ v. IsSynced v.1) (sym seen)
            (record { ordered = synced.ordered; projected_is_shown = refl }),
        ap (λ v. v.1.records) seen,
        ap (λ v. v.1.clock) seen,
      )

  pub sooner-IsOrder : IsOrder sooner
  sooner-IsOrder = record { asym = λ x y h. ground arith; cotrans = λ x y z h k. ground arith }
