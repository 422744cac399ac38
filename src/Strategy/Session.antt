-- ===== src/Strategy/Session.antt =====
-- The second half of `ORBStrategy.process_session` of strategies/orb.py: the ranking, the signals
-- and the decision of a session.
use bot_trading.Prelude.{
  ℕ, ◌+◌, ◌*◌, ◌-◌, ◌==◌, String, Bool, not, ◌&&◌, ◌||◌, Option, none, some, List, [], ◌∷◌, ◌++◌,
  any, length, select, str_eq, ltb, zero, suc, if◌then◌else◌,
}
use bot_trading.Prelude.Sorting.{sort_by, keep}
use bot_trading.Decimal.{Decimals, ◌≤D◌, ◌<D◌, ◌=D◌}
use bot_trading.Risk.Types.{Stamp}
use bot_trading.Exec.{key_error, Result, ok}
use bot_trading.Exec.Results.{◌>>=◌, or_raise}
use bot_trading.Domain.{Instrument, earlier, after_seconds, Bar, DataManifest, Signal}
use bot_trading.Market.{Calendar, Session, session, sessions, DataBundle}
use bot_trading.Store.Tables.{text_before}
use bot_trading.Strategy.{bar_at, rs_reason}
use bot_trading.Strategy.Config.{StrategyConfig, version_text, is_base}
use bot_trading.Strategy.Screen.{
  Candidate, Verdict, refused, quiet, fit, Reading, group, is_timely, screen,
}

module _ ⦃dec : Decimals⦄ where
  pub record Rejection : Type 0 where
    pub symbol : String
    pub reason : String
    pub at : Stamp

  pub record SessionDecision : Type 0 where
    pub session_date : ℕ
    pub selection_at : Stamp
    pub evaluable_symbols : List String
    pub selection : List Candidate
    pub signals : List Signal
    pub rejections : List Rejection

  -- The lists that the loop over the instruments grows.
  pub record Screening : Type 0 where
    pub evaluable : List String
    pub candidates : List Candidate
    pub rejects : List Rejection

  abbrev pub reject : String → String → Stamp → List Rejection → List Rejection
  reject symbol reason at l = l ++ record { symbol = symbol; reason = reason; at = at } ∷ []

  abbrev pub note : Stamp → String → Verdict → Screening → Screening
  note cutoff symbol (refused reason) s = record s {
    rejects = reject symbol reason cutoff s.rejects;
  }
  note cutoff symbol quiet s = record s {
    evaluable = s.evaluable ++ symbol ∷ [];
    rejects = reject symbol "RVOL_BELOW_THRESHOLD" cutoff s.rejects;
  }
  note cutoff symbol (fit c) s = record s {
    evaluable = s.evaluable ++ symbol ∷ [];
    candidates = s.candidates ++ c ∷ [];
  }

  abbrev by_symbol : Instrument → Instrument → Bool
  by_symbol a b = text_before a.symbol b.symbol

  abbrev drop : ℕ → List ℕ → List ℕ
  drop zero l = l
  drop (suc n) [] = []
  drop (suc n) (x ∷ l) = drop n l

  -- `l[-20:]`
  abbrev pub last_twenty : List ℕ → List ℕ
  last_twenty l = drop (length l - 20) l

  abbrev pub enumerate : ℕ → ℕ → List Candidate → List Candidate
  enumerate rank zero l = []
  enumerate rank (suc n) [] = []
  enumerate rank (suc n) (c ∷ l) = record c { rank = rank } ∷ enumerate (rank + 1) n l

  abbrev pub first_of : List Bar → Bar → Bool
  first_of seen b = not (any (λ (s : Bar). s.event_time.micros == b.event_time.micros) seen)

  -- The values of a dictionary over the minutes: the first bar of each.
  abbrev pub first_bars : List Bar → List Bar → List Bar
  first_bars seen [] = []
  first_bars seen (b ∷ bars) =
      if first_of seen b then b ∷ first_bars (b ∷ seen) bars else first_bars seen bars

  abbrev pub by_arrival : Bar → Bar → Bool
  by_arrival a b =
      earlier a.available_at b.available_at
      || (a.available_at.micros == b.available_at.micros && earlier a.event_time b.event_time)

  abbrev pub by_signal : Signal → Signal → Bool
  by_signal a b =
      earlier a.available_at b.available_at
      || (a.available_at.micros == b.available_at.micros
          && (ltb a.rank b.rank
              || (a.rank == b.rank && text_before a.instrument.symbol b.instrument.symbol)))

  -- What the first breakout comes to.
  pub data Outcome : Type 0 where
    silent : Outcome
    barred : String → Stamp → Outcome
    signalled : Signal → Outcome

  abbrev pub settle : String → Outcome → List Signal × List Rejection → List Signal × List Rejection
  settle symbol silent (signals, rejects) = (signals, rejects)
  settle symbol (barred reason at) (signals, rejects) = (signals, reject symbol reason at rejects)
  settle symbol (signalled s) (signals, rejects) = (signals ++ s ∷ [], rejects)

module _ ⦃dec : Decimals⦄ (config : StrategyConfig) where
  -- The higher volume first, unless the base comparison leaves it out, then the higher liquidity.
  abbrev pub ranks_before : Candidate → Candidate → Bool
  ranks_before a b =
      let level = is_base config.version || a.rvol =D b.rvol in
      (not (is_base config.version) && b.rvol <D a.rvol)
      || (level
          && (b.average_dollar_volume <D a.average_dollar_volume
              || (a.average_dollar_volume =D b.average_dollar_volume
                  && text_before a.instrument.symbol b.instrument.symbol)))

  unfoldable pub select_ranked : List Candidate → List Candidate
  select_ranked candidates = enumerate 1 config.max_selected (sort_by ranks_before candidates)

  abbrev pub cutoff_of : Session → Stamp
  cutoff_of market = after_seconds market.open_at (300 + config.selection_wait_seconds)

  abbrev pub end_of : Session → Stamp
  end_of market = after_seconds market.open_at (config.entry_window_minutes * 60)

  -- A breakout: after the opening range, in the entry window, above the range's high.
  unfoldable pub breaks_out : Session → Candidate → Bar → Bool
  breaks_out market c b =
      not (earlier b.event_time (after_seconds market.open_at 300))
      && not (earlier b.available_at (cutoff_of market))
      && earlier b.available_at (end_of market)
      && c.or_high <D b.close

module _ ⦃dec : Decimals⦄ (calendar : Calendar) where
  abbrev pub day_bars : List Bar → String → ℕ → List Bar
  day_bars grouped symbol day = sort_by by_arrival (
      first_bars [] (
        select
          (λ (b : Bar). str_eq b.instrument.symbol symbol && calendar.day_of b.event_time == day)
          grouped))

module _ ⦃dec : Decimals⦄ (calendar : Calendar) (config : StrategyConfig) where
  unfoldable pub screen_all :
      DataManifest
      → Reading
      → Session
      → List ℕ
      → Stamp
      → List Instrument
      → Screening
      → Result Screening
  screen_all manifest look market previous cutoff [] s = ok s
  screen_all manifest look market previous cutoff (i ∷ instruments) s =
      let rest = λ (v : Verdict).
        screen_all manifest look market previous cutoff instruments (note cutoff i.symbol v s) in
      screen calendar config manifest look market previous i >>= rest

  -- The selection, from what had arrived.
  unfoldable pub select_candidates :
      DataManifest → List Instrument → Reading → Session → Result Screening
  select_candidates manifest instruments look market =
      screen_all manifest look market
        (last_twenty (sessions calendar (market.day - 60) (market.day - 1)))
        (cutoff_of config market) (sort_by by_symbol instruments)
        (record { evaluable = []; candidates = []; rejects = [] })

  -- `bars.get(...)` limited to what is available at the cutoff.
  abbrev pub timely : Session → List Bar → Reading
  timely market grouped symbol day t =
      keep (is_timely (cutoff_of config market)) (bar_at calendar symbol day t grouped)

-- `signal_id` is the digest of the version, the day and the symbol.
module _ ⦃dec : Decimals⦄ (calendar : Calendar) (signal_id : String → ℕ → String → String)
    (config : StrategyConfig) where
  unfoldable pub signal_of : Session → Candidate → Bar → Signal
  signal_of market c b = record {
    signal_id = signal_id (version_text config.version) market.day c.instrument.symbol;
    session_date = market.day;
    instrument = c.instrument;
    available_at = b.available_at;
    expires_at = after_seconds b.available_at config.signal_ttl_seconds;
    reference_price = b.close;
    stop_price = c.or_low;
    rank = c.rank;
    rvol = c.rvol;
    strategy_version = version_text config.version;
  }

  abbrev strength_outcome : Session → Candidate → Bar → Option String → Outcome
  strength_outcome market c b none = signalled (signal_of market c b)
  strength_outcome market c b (some reason) = barred reason b.available_at

  unfoldable pub judge_breakout :
      List Instrument → List Bar → Session → Candidate → Bar → Result Outcome
  judge_breakout instruments grouped market c b =
      if config.relative_strength_enabled
      then (do
        stock_open ←
            or_raise (key_error "market.open")
              (bar_at calendar c.instrument.symbol market.day market.open_at grouped)
        reason ← rs_reason calendar instruments grouped stock_open b
        ok (strength_outcome market c b reason))
      else ok (signalled (signal_of market c b))

  -- The loop over the day's bars, which ends at the first breakout.
  unfoldable pub scan : List Instrument → List Bar → Session → Candidate → List Bar → Result Outcome
  scan instruments grouped market c [] = ok silent
  scan instruments grouped market c (b ∷ bars) =
      let rest = scan instruments grouped market c bars in
      if breaks_out config market c b then judge_breakout instruments grouped market c b else rest

  unfoldable pub search_signal : List Instrument → List Bar → Session → Candidate → Result Outcome
  search_signal instruments grouped market c =
      if c.or_close ≤D c.or_open
      then ok (barred "OPENING_RANGE_NOT_BULLISH" (cutoff_of config market))
      else scan instruments grouped market c
          (day_bars calendar grouped c.instrument.symbol market.day)

  unfoldable pub signal_all :
      List Instrument
      → List Bar
      → Session
      → List Candidate
      → List Signal × List Rejection
      → Result (List Signal × List Rejection)
  signal_all instruments grouped market [] so_far = ok so_far
  signal_all instruments grouped market (c ∷ selected) so_far =
      let rest = λ (o : Outcome).
        signal_all instruments grouped market selected (settle c.instrument.symbol o so_far) in
      search_signal instruments grouped market c >>= rest

  abbrev decision_of :
      Session → Screening → List Candidate → List Signal × List Rejection → SessionDecision
  decision_of market s selected (signals, rejects) = record {
    session_date = market.day;
    selection_at = cutoff_of config market;
    evaluable_symbols = s.evaluable;
    selection = selected;
    signals = sort_by by_signal signals;
    rejections = rejects;
  }

  unfoldable pub process_session : DataBundle → ℕ → Result SessionDecision
  process_session bundle day = do
    market ← session calendar day
    let grouped = group bundle.bars
    s ←
        select_candidates calendar config bundle.manifest bundle.instruments
          (timely calendar config market grouped) market
    let selected = select_ranked config s.candidates
    found ← signal_all bundle.instruments grouped market selected ([], s.rejects)
    ok (decision_of market s selected found)
