-- ===== src/Strategy/Signals.antt =====
-- Where each signal of a session comes from.
use mathlib.Core.Path.{subst, sym, ap, ◌∙◌}
use bot_trading.Prelude.{
  ℕ, ◌+◌, ◌*◌, ◌==◌, String, ◌≡◌, refl, true, false, ◌&&◌, List, [], ◌∷◌, select, inl, inr,
  Bool-cases, str_eq, arith,
}
use bot_trading.Prelude.Sorting.{sort_by}
use bot_trading.Prelude.Members.{In, All, In-select, In-sort_by, All-append, All-sort_by}
use bot_trading.Decimal.{Decimals, ◌<D◌}
use bot_trading.Exec.{ok, Result-cases}
use bot_trading.Domain.{earlier, after_seconds, Instrument, Bar, Signal}
use bot_trading.Market.{Calendar, Session, session, DataBundle}
use bot_trading.Strategy.Config.{StrategyConfig, version_text}
use bot_trading.Strategy.Screen.{Candidate, arrives_before, group}
use bot_trading.Strategy.Session.{
  Rejection, SessionDecision, Outcome, silent, barred, signalled, first_of, first_bars, by_arrival,
  by_signal, breaks_out, signal_of, day_bars, judge_breakout, scan, search_signal, signal_all,
  settle, timely, select_candidates, select_ranked, process_session,
}

module _ ⦃dec : Decimals⦄ where
  In-first_bars : (b : Bar) (seen l : List Bar) → In b (first_bars seen l) → In b l
  In-first_bars b seen [] h = h
  In-first_bars b seen (c ∷ l) h = elim (Bool-cases (first_of seen c)) [
    | inl new ↦ elim (rw new at h) [
      | inl e ↦ inl e
      | inr later ↦ inr (In-first_bars b (c ∷ seen) l later)
    ]
    | inr old ↦ inr (In-first_bars b seen l (rw old at h))
  ]

module _ ⦃dec : Decimals⦄ (calendar : Calendar) (signal_id : String → ℕ → String → String)
    (config : StrategyConfig) where
  -- A signal comes from a selected candidate with a rising opening range, and from a final first
  -- version of a bar of that symbol and day: the bar began when the opening range had ended, it was
  -- available no sooner than the selection and within the entry window, and it closed above the
  -- range. The signal has that bar's time and close, and that candidate's low and rank.
  pub record IsSourced (bars : List Bar) (selection : List Candidate) (market : Session)
      (s : Signal) : Type 0 where
    pub candidate : Candidate
    pub bar : Bar
    pub chosen : In candidate selection
    pub listed : In bar bars
    pub is_final : bar.final ≡ true
    pub is_first : (bar.revision == 0) ≡ true
    pub same_symbol : str_eq bar.instrument.symbol candidate.instrument.symbol ≡ true
    pub same_day : (calendar.day_of bar.event_time == market.day) ≡ true
    pub rising : (candidate.or_open <D candidate.or_close) ≡ true
    pub after_range : earlier bar.event_time (after_seconds market.open_at 300) ≡ false
    pub after_selection :
        earlier bar.available_at
          (after_seconds market.open_at (300 + config.selection_wait_seconds))
        ≡ false
    pub within_window :
        earlier bar.available_at (after_seconds market.open_at (config.entry_window_minutes * 60))
        ≡ true
    pub above_range : (candidate.or_high <D bar.close) ≡ true
    pub own_id :
        s.signal_id ≡ signal_id (version_text config.version) market.day candidate.instrument.symbol
    pub own_version : s.strategy_version ≡ version_text config.version
    pub own_day : s.session_date ≡ market.day
    pub own_instrument : s.instrument ≡ candidate.instrument
    pub time : s.available_at ≡ bar.available_at
    pub expiry : s.expires_at ≡ after_seconds bar.available_at config.signal_ttl_seconds
    pub price : s.reference_price ≡ bar.close
    pub stop : s.stop_price ≡ candidate.or_low
    pub own_rank : s.rank ≡ candidate.rank
    pub own_rvol : s.rvol ≡ candidate.rvol

  judge_breakout_signal :
      (instruments : List Instrument) (grouped : List Bar) (market : Session) (c : Candidate)
      (b : Bar) {s : Signal}
      → judge_breakout calendar signal_id config instruments grouped market c b ≡ ok (signalled s)
      → s ≡ signal_of calendar signal_id config market c b
  unfolding judge_breakout
  judge_breakout_signal instruments grouped market c b {s} h = ground arith

  abbrev FromBar : Session → Candidate → List Bar → Signal → Type 0
  FromBar market c bars s =
      (b : Bar) × In b bars
      × (breaks_out config market c b ≡ true)
      × (s ≡ signal_of calendar signal_id config market c b)

  scan_signal :
      (instruments : List Instrument) (grouped : List Bar) (market : Session) (c : Candidate)
      (bars : List Bar) {s : Signal}
      → scan calendar signal_id config instruments grouped market c bars ≡ ok (signalled s)
      → FromBar market c bars s
  unfolding scan
  scan_signal instruments grouped market c [] {s} h = absurd (ground arith)
  scan_signal instruments grouped market c (b ∷ bars) {s} h =
      elim (Bool-cases (breaks_out config market c b)) [
        | inl breaks ↦ (
          b,
          inl refl,
          breaks,
          judge_breakout_signal instruments grouped market c b {s = s} (ground arith),
        )
        | inr quiet ↦
            let (b', m, breaks, built) =
              scan_signal instruments grouped market c bars {s = s} (ground arith) in
            (b', inr m, breaks, built)
      ]

  search_signal_rising :
      (instruments : List Instrument) (grouped : List Bar) (market : Session) (c : Candidate)
      {s : Signal}
      → search_signal calendar signal_id config instruments grouped market c ≡ ok (signalled s)
      → ((c.or_open <D c.or_close) ≡ true)
        × (scan calendar signal_id config instruments grouped market c
              (day_bars calendar grouped c.instrument.symbol market.day)
            ≡ ok (signalled s))
  unfolding search_signal
  search_signal_rising instruments grouped market c {s} h = ground arith

  search_signal-IsSourced :
      (instruments : List Instrument) (bars : List Bar) (market : Session) (c : Candidate)
      (selection : List Candidate) {s : Signal}
      → In c selection
      → search_signal calendar signal_id config instruments (group bars) market c ≡ ok (signalled s)
      → IsSourced bars selection market s
  unfolding group breaks_out signal_of
  search_signal-IsSourced instruments bars market c selection {s} m h =
      let (rising, scanned) = search_signal_rising instruments (group bars) market c {s = s} h in
      let (b, found, breaks, built) =
        scan_signal instruments (group bars) market c
          (day_bars calendar (group bars) c.instrument.symbol market.day) {s = s} scanned in
      let ofday = λ (x : Bar).
        str_eq x.instrument.symbol c.instrument.symbol
        && calendar.day_of x.event_time == market.day in
      let rows = select ofday (group bars) in
      let (kept, own) =
        In-select ofday b (group bars)
          (In-first_bars b [] rows (In-sort_by by_arrival b (first_bars [] rows) found)) in
      let (arrived, final) =
        In-select (λ (x : Bar). x.final && x.revision == 0) b (sort_by arrives_before bars) kept in
      record {
        candidate = c;
        bar = b;
        chosen = m;
        listed = In-sort_by arrives_before b bars arrived;
        is_final = ground arith;
        is_first = ground arith;
        same_symbol = ground arith;
        same_day = ground arith;
        rising = rising;
        after_range = ground arith;
        after_selection = ground arith;
        within_window = ground arith;
        above_range = ground arith;
        own_id = ap (λ (x : Signal). x.signal_id) built;
        own_version = ap (λ (x : Signal). x.strategy_version) built;
        own_day = ap (λ (x : Signal). x.session_date) built;
        own_instrument = ap (λ (x : Signal). x.instrument) built;
        time = ap (λ (x : Signal). x.available_at) built;
        expiry = ap (λ (x : Signal). x.expires_at) built;
        price = ap (λ (x : Signal). x.reference_price) built;
        stop = ap (λ (x : Signal). x.stop_price) built;
        own_rank = ap (λ (x : Signal). x.rank) built;
        own_rvol = ap (λ (x : Signal). x.rvol) built;
      }

  settle-IsSourced :
      (bars : List Bar) (selection : List Candidate) (market : Session) (symbol : String)
      (o : Outcome) (signals : List Signal) (rejects : List Rejection)
      → ((s : Signal) → o ≡ signalled s → IsSourced bars selection market s)
      → All (IsSourced bars selection market) signals
      → All (IsSourced bars selection market) (settle symbol o (signals, rejects)).0
  settle-IsSourced bars selection market symbol silent signals rejects h k = k
  settle-IsSourced bars selection market symbol (barred reason at) signals rejects h k = k
  settle-IsSourced bars selection market symbol (signalled s) signals rejects h k =
      All-append (IsSourced bars selection market) signals (s ∷ []) k (h s refl, tt)

  signal_all-IsSourced :
      (instruments : List Instrument) (bars : List Bar) (market : Session)
      (selection selected : List Candidate) (signals : List Signal) (rejects : List Rejection)
      (r : List Signal × List Rejection)
      → ((c : Candidate) → In c selected → In c selection)
      → All (IsSourced bars selection market) signals
      → signal_all calendar signal_id config instruments
          (group bars)
          market
          selected
          (signals, rejects)
        ≡ ok r
      → All (IsSourced bars selection market) r.0
  unfolding signal_all
  signal_all-IsSourced instruments bars market selection [] signals rejects r sub k h =
      let e : (signals, rejects) ≡ r = cc in
      subst (λ (x : List Signal × List Rejection). All (IsSourced bars selection market) x.0) e k
  signal_all-IsSourced instruments bars market selection (c ∷ selected) signals rejects r sub k h =
      let found = search_signal calendar signal_id config instruments (group bars) market c in
      elim (Result-cases found) [
        | inr (x, failed) ↦ absurd (ground arith)
        | inl (o, done) ↦
            signal_all-IsSourced instruments bars market selection selected
              (settle c.instrument.symbol o (signals, rejects)).0
              (settle c.instrument.symbol o (signals, rejects)).1 r (λ x m. sub x (inr m))
              (settle-IsSourced bars selection market c.instrument.symbol o signals rejects
                (λ s e.
                  search_signal-IsSourced instruments bars market c selection {s = s}
                    (sub c (inl refl)) (done ∙ ap ok e))
                k)
              (ground arith)
      ]

  -- Every signal of a session's decision comes from a candidate of its selection whose opening
  -- range rose, and from a final first version of a bar of that symbol and day. The bar began when
  -- the first five minutes were over, was available no sooner than the selection and before the
  -- entry window ended, and closed above the range. The signal's time is when the bar was
  -- available, its price is the bar's close, its stop is the low of the range, and its rank and
  -- relative volume are the candidate's.
  pub process_session-IsSourced :
      (bundle : DataBundle) (day : ℕ) (market : Session) {d : SessionDecision}
      → session calendar day ≡ ok market
      → process_session calendar signal_id config bundle day ≡ ok d
      → All (IsSourced bundle.bars d.selection market) d.signals
  unfolding process_session
  process_session-IsSourced bundle day market {d} e h =
      let grouped = group bundle.bars in
      let screened =
        select_candidates calendar config bundle.manifest bundle.instruments
          (timely calendar config market grouped) market in
      elim (Result-cases screened) [
        | inr (x, failed) ↦ absurd (ground arith)
        | inl (s, done) ↦
            let selected = select_ranked config s.candidates in
            elim (Result-cases (
              signal_all calendar signal_id config bundle.instruments grouped market selected
                ([], s.rejects))) [
                  | inr (x, failed) ↦ absurd (ground arith)
                  | inl (found, more) ↦
                      let same : d.selection ≡ selected = ground arith in
                      let sorted : d.signals ≡ sort_by by_signal found.0 = ground arith in
                      subst (λ l. All (IsSourced bundle.bars l market) d.signals) (sym same)
                        (subst (All (IsSourced bundle.bars selected market)) (sym sorted) (
                          All-sort_by (IsSourced bundle.bars selected market) by_signal found.0 (
                            signal_all-IsSourced bundle.instruments bundle.bars market selected
                              selected [] s.rejects found (λ c m. m) tt more)))
                ]
      ]
