-- ===== src/Strategy/PointInTime.antt =====
-- The selection of a session is taken at a point in time: what arrives after the cutoff does not
-- change it.
use mathlib.Core.Path.{fun_ext, sym, ap, ◌∙◌}
use bot_trading.Prelude.{
  ℕ, ◌==◌, String, ◌≡◌, refl, Bool, true, false, ◌&&◌, List, [], ◌∷◌, find_row, inl, inr, select,
  arith, str_eq,
}
use bot_trading.Prelude.Sorting.{
  IsOrder, sort_by, sort_by_sorted, keep, sort_by-select, find_row-select,
}
use bot_trading.Decimal.{Decimals}
use bot_trading.Risk.Types.{Stamp}
use bot_trading.Exec.{ok, Result-cases}
use bot_trading.Domain.{Bar}
use bot_trading.Market.{Calendar, Session, session, DataBundle}
use bot_trading.Strategy.Config.{StrategyConfig}
use bot_trading.Strategy.Screen.{arrives_before, group, is_timely}
use bot_trading.Strategy.Session.{
  SessionDecision, Screening, cutoff_of, timely, select_candidates, select_ranked, signal_all,
  process_session,
}

module _ {ℓ} {A : Type ℓ} where
  find_row-select_and :
      (p q : A → Bool) (l : List A) → find_row p (select q l) ≡ find_row (λ x. q x && p x) l
  find_row-select_and p q [] = refl
  find_row-select_and p q (x ∷ l) = ground (arith, find_row-select_and p q l)

module _ ⦃dec : Decimals⦄ where
  arrives_before-IsOrder : IsOrder arrives_before
  arrives_before-IsOrder = record {
    asym = λ x y h. ground arith;
    cotrans = λ x y z h k. ground arith;
  }

  is_timely_down :
      (cutoff : Stamp) (x y : Bar)
      → arrives_before y x ≡ false
      → is_timely cutoff y ≡ true
      → is_timely cutoff x ≡ true
  is_timely_down cutoff x y h k = ground arith

module _ ⦃dec : Decimals⦄ (config : StrategyConfig) where
  -- What has arrived by the cutoff of the selection.
  abbrev pub arrived : Session → List Bar → List Bar
  arrived market = select (is_timely (cutoff_of config market))

  -- A lookup that is limited to the cutoff is one among what had arrived.
  timely_find :
      (market : Session) (p : Bar → Bool) (bars : List Bar)
      → keep (is_timely (cutoff_of config market)) (find_row p (group bars))
        ≡ find_row
            (λ b. (b.final && b.revision == 0) && p b)
            (sort_by arrives_before (arrived market bars))
  unfolding group
  timely_find market p bars =
      let cutoff = cutoff_of config market in
      let first = λ (b : Bar). b.final && b.revision == 0 in
      let sorted = sort_by arrives_before bars in
      rw (find_row-select_and p first sorted) (
        rw
          (sort_by-select arrives_before arrives_before-IsOrder (is_timely cutoff)
            (is_timely_down cutoff) bars)
          (sym (
            find_row-select arrives_before arrives_before-IsOrder (is_timely cutoff)
              (is_timely_down cutoff) (λ b. first b && p b) sorted
              (sort_by_sorted arrives_before arrives_before-IsOrder bars))))

module _ ⦃dec : Decimals⦄ (calendar : Calendar) (config : StrategyConfig) where
  timely_same :
      (market : Session) (a b : List Bar)
      → arrived config market a ≡ arrived config market b
      → timely calendar config market (group a) ≡ timely calendar config market (group b)
  timely_same market a b h = fun_ext (λ symbol. fun_ext (λ day. fun_ext (λ t.
      let p = λ (x : Bar).
        str_eq x.instrument.symbol symbol
        && calendar.day_of x.event_time == day
        && x.event_time.micros == t.micros in
      timely_find config market p a
      ∙ ap
          (λ l.
            find_row (λ (x : Bar). (x.final && x.revision == 0) && p x) (sort_by arrives_before l))
          h
      ∙ sym (timely_find config market p b))))

module _ ⦃dec : Decimals⦄ (calendar : Calendar) (signal_id : String → ℕ → String → String)
    (config : StrategyConfig) where
  -- What a decision's selection comes from.
  IsScreened : DataBundle → Session → SessionDecision → Type 0
  IsScreened bundle market d =
      (s : Screening) × (select_candidates calendar config bundle.manifest bundle.instruments
          (timely calendar config market (group bundle.bars)) market
        ≡ ok s)
      × (d.selection ≡ select_ranked config s.candidates)
      × (d.evaluable_symbols ≡ s.evaluable)

  process_session-IsScreened :
      (bundle : DataBundle) (day : ℕ) (market : Session) {d : SessionDecision}
      → session calendar day ≡ ok market
      → process_session calendar signal_id config bundle day ≡ ok d
      → IsScreened bundle market d
  unfolding process_session IsScreened
  process_session-IsScreened bundle day market {d} e h =
      let grouped = group bundle.bars in
      let screened =
        select_candidates calendar config bundle.manifest bundle.instruments
          (timely calendar config market grouped) market in
      elim (Result-cases screened) [
        | inr (x, failed) ↦ absurd (ground arith)
        | inl (s, done) ↦
            let selected = select_ranked config s.candidates in
            elim (Result-cases (
              signal_all calendar signal_id config bundle.instruments grouped market selected
                ([], s.rejects))) [
                  | inr (x, failed) ↦ absurd (ground arith)
                  | inl (found, more) ↦ (s, done, ground arith, ground arith)
                ]
      ]

  -- The selection is a point in time: two sets of data with the same manifest and instruments
  -- whose bars are the same up to the cutoff give the same selection and the same evaluated
  -- symbols, whatever arrives later.
  pub process_session_point_in_time :
      (a b : DataBundle) (day : ℕ) (market : Session) {d d' : SessionDecision}
      → session calendar day ≡ ok market
      → a.manifest ≡ b.manifest
      → a.instruments ≡ b.instruments
      → arrived config market a.bars ≡ arrived config market b.bars
      → process_session calendar signal_id config a day ≡ ok d
      → process_session calendar signal_id config b day ≡ ok d'
      → (d.selection ≡ d'.selection) × (d.evaluable_symbols ≡ d'.evaluable_symbols)
  unfolding IsScreened
  process_session_point_in_time a b day market {d} {d'} e m i h p q =
      let (s, screened, selected, evaluable) = process_session-IsScreened a day market e p in
      let (s', screened', selected', evaluable') = process_session-IsScreened b day market e q in
      let same : s ≡ s' = cc (timely_same calendar config market a.bars b.bars h) in (cc, cc)
