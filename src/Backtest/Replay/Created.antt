-- ===== src/Backtest/Replay/Created.antt =====
-- What the constructor of a replay starts from.
use mathlib.Core.Path.{subst}
use bot_trading.Prelude.{
  ◌+◌, ◌≡◌, refl, ap, sym, ◌∙◌, Bool, false, none, List, [], ◌∷◌, inl, inr, arith,
}
use bot_trading.Prelude.Sorting.{sort_by, sort_by_coarser}
use bot_trading.Prelude.Counting.{count, one_if, count-sort_by}
use bot_trading.Prelude.Members.{All, All-sort_by}
use bot_trading.Decimal.{Decimals}
use bot_trading.Exec.{ok, Result-cases}
use bot_trading.Domain.{earlier, end_time, Bar, Instrument}
use bot_trading.Market.{DataBundle}
use bot_trading.Backtest.Replay.{
  ReplayRecord, Replay, Publication, Semantics, by_publication, create, record_of, records_of,
}
use bot_trading.Backtest.Replay.AsOf.{sooner, sooner-IsOrder, IsSynced}

module _ ⦃dec : Decimals⦄ where
  -- No record is published before its bar has ended.
  abbrev pub EndsFirst : ReplayRecord → Type 0
  EndsFirst k = earlier k.available_at (end_time k.original) ≡ false

  record_of-original :
      (semantics : Semantics) (explicit : List Publication) (instruments : List Instrument)
      (seen : List Bar) (b : Bar) {k : ReplayRecord}
      → record_of semantics explicit instruments seen b ≡ ok k
      → (k.original ≡ b) × EndsFirst k
  unfolding record_of
  record_of-original semantics explicit instruments seen b {k} h = ground arith

  -- Each round of the loop keeps its bar.
  records_of-kept :
      (q : Bar → Bool) (semantics : Semantics) (explicit : List Publication)
      (instruments : List Instrument) (seen bars : List Bar) {l : List ReplayRecord}
      → records_of semantics explicit instruments seen bars ≡ ok l
      → (count (λ (k : ReplayRecord). q k.original) l ≡ count q bars) × All EndsFirst l
  unfolding records_of
  records_of-kept q semantics explicit instruments seen [] {l} h =
      let e : [] ≡ l = cc in
      subst (λ m. (count (λ (k : ReplayRecord). q k.original) m ≡ 0) × All EndsFirst m) e (refl, tt)
  records_of-kept q semantics explicit instruments seen (b ∷ bars) {l} h =
      elim (Result-cases (record_of semantics explicit instruments seen b)) [
        | inr (e, bad) ↦ absurd (ground arith)
        | inl (k, good) ↦
            elim (Result-cases (records_of semantics explicit instruments (b ∷ seen) bars)) [
              | inr (e, bad) ↦ absurd (ground arith)
              | inl (rest, more) ↦
                  let (own, ends) =
                    record_of-original semantics explicit instruments seen b {k = k} good in
                  let (kept, all_end) =
                    records_of-kept q semantics explicit instruments (b ∷ seen) bars {l = rest}
                      more in
                  let e : k ∷ rest ≡ l = ground arith in
                  subst
                    (λ m.
                      (count (λ (x : ReplayRecord). q x.original) m ≡ one_if (q b) + count q bars)
                      × All EndsFirst m)
                    e
                    (
                      ap (λ x. one_if (q x) + count (λ (y : ReplayRecord). q y.original) rest) own
                          ∙ ap (λ n. one_if (q b) + n) kept,
                      (ends, all_end),
                    )
            ]
      ]

  -- What the constructor builds is synchronized: its records are in the order of their
  -- publication, and nothing is shown; no clock is set; it is over the given bundle; of the bars
  -- that pass a test, whatever the test is, it has as many records as the bundle has bars; and no
  -- record is published before its bar has ended.
  pub create-IsSynced :
      (q : Bar → Bool) (bundle : DataBundle) (semantics : Semantics) (explicit : List Publication)
      {r : Replay}
      → create bundle semantics explicit ≡ ok r
      → IsSynced r
        × (r.clock ≡ none)
        × (r.projected ≡ [])
        × (r.original ≡ bundle)
        × (count (λ (k : ReplayRecord). q k.original) r.records ≡ count q bundle.bars)
        × All EndsFirst r.records
  unfolding create
  create-IsSynced q bundle semantics explicit {r} h =
      elim (Result-cases (records_of semantics explicit bundle.instruments [] bundle.bars)) [
        | inr (e, bad) ↦ absurd (ground arith)
        | inl (records, good) ↦
            let ordered =
              sort_by_coarser by_publication sooner sooner-IsOrder (λ x y h. ground arith)
                (λ x y h. ground arith) records in
            let (kept, ends) =
              records_of-kept q semantics explicit bundle.instruments [] bundle.bars {l = records}
                good in
            let sorted : r.records ≡ sort_by by_publication records = ground arith in
            (
              record { ordered = ground arith; projected_is_shown = ground arith },
              ground arith,
              ground arith,
              ground arith,
              ap (count (λ (k : ReplayRecord). q k.original)) sorted
                  ∙ count-sort_by (λ (k : ReplayRecord). q k.original) by_publication records
                  ∙ kept,
              subst (All EndsFirst) (sym sorted)
                  (All-sort_by EndsFirst by_publication records ends),
            )
      ]
