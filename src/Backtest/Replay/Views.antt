-- ===== src/Backtest/Replay/Views.antt =====
-- `view` and `process_session` of `ReplayAsOf`: what a logical clock shows, and a session that is
-- processed again at each arrival.
use bot_trading.Prelude.{
  ℕ, ◌==◌, String, Bool, true, false, not, ◌&&◌, ◌||◌, Option, none, some, List, [], ◌∷◌, ◌++◌, map,
  any, all, length, select, upsert, zero, suc, str_eq, if◌then◌else◌,
}
use bot_trading.Prelude.Sorting.{sort_by}
use bot_trading.Decimal.{Decimals, ◌=D◌}
use bot_trading.Risk.Types.{Stamp}
use bot_trading.Exec.{
  value_error, Result, ok, err, Exec, pure, gets, lift, modify, raise_if, for_each, ◌>>=◌, ◌>>◌,
}
use bot_trading.Domain.{Instrument, instrument_eq, earlier, Bar, AvailabilityKind, Signal}
use bot_trading.Market.{Calendar, session, DataBundle}
use bot_trading.Store.Tables.{text_before}
use bot_trading.Strategy.Config.{StrategyConfig}
use bot_trading.Strategy.Screen.{Candidate}
use bot_trading.Strategy.Session.{
  Rejection, SessionDecision, cutoff_of, end_of, by_signal, process_session,
}
use bot_trading.Backtest.Replay.{ReplayRecord, Replay, validate}

module _ ⦃dec : Decimals⦄ where
  -- `bisect_right` over the ordered times: how many are not later.
  abbrev pub visible : Stamp → List ReplayRecord → ℕ
  visible clock [] = 0
  visible clock (r ∷ records) =
      if earlier clock r.available_at then 0 else suc (visible clock records)

  -- `records[from:to]`
  abbrev pub slice : ℕ → ℕ → List ReplayRecord → List ReplayRecord
  slice from zero records = []
  slice from (suc to) [] = []
  slice zero (suc to) (r ∷ records) = r ∷ slice zero to records
  slice (suc from) (suc to) (r ∷ records) = slice from to records

  -- The observed projection of a record: it is received when it becomes available.
  abbrev pub projection : ReplayRecord → Bar
  projection r = record r.original { received_at = r.available_at; available_at = r.available_at }

  abbrev pub rewinds : Stamp → Option Stamp → Bool
  rewinds at none = false
  rewinds at (some clock) = earlier at clock

  abbrev pub project : ReplayRecord → Exec Replay (Unit {0})
  project record_of_bar = do
    lift (validate (projection record_of_bar))
    modify (λ (r : Replay). record r { projected = r.projected ++ projection record_of_bar ∷ [] })

  abbrev pub bundle_of : Replay → DataBundle
  bundle_of r = record {
    instruments =
        sort_by (λ (a : Instrument) (b : Instrument). text_before a.symbol b.symbol)
          r.original.instruments;
    bars = r.projected;
    manifest = record r.original.manifest { availability_kind = AvailabilityKind.observed };
    evaluation_sessions = r.original.evaluation_sessions;
  }

  abbrev pub unseen : Stamp → Replay → List ReplayRecord
  unseen clock r = slice (length r.projected) (visible clock r.records) r.records

  unfoldable pub view : Stamp → Exec Replay DataBundle
  view clock = do
    before ← gets (λ (r : Replay). r.clock)
    raise_if (not clock.aware) (value_error "REPLAY_CLOCK_TIMEZONE_REQUIRED")
    raise_if (rewinds clock before) (value_error "REPLAY_CLOCK_CANNOT_REWIND")
    modify (λ (r : Replay). record r { clock = some clock })
    fresh ← gets (unseen clock)
    for_each fresh project
    gets bundle_of

  abbrev candidate_eq : Candidate → Candidate → Bool
  candidate_eq a b =
      instrument_eq a.instrument b.instrument
      && a.rank == b.rank
      && a.rvol =D b.rvol
      && a.average_dollar_volume =D b.average_dollar_volume
      && a.or_high =D b.or_high
      && a.or_low =D b.or_low
      && a.or_open =D b.or_open
      && a.or_close =D b.or_close
      && a.opening_volume =D b.opening_volume
      && a.historical_opening_volume =D b.historical_opening_volume

  abbrev same_list : {A : Type 0} → (A → A → Bool) → List A → List A → Bool
  same_list eq [] [] = true
  same_list eq (x ∷ l) (y ∷ m) = eq x y && same_list eq l m
  same_list eq _ _ = false

  -- The dictionary of signals, the rejections and the set of symbols that are settled.
  pub record Found : Type 0 where
    pub signals : List Signal
    pub rejections : List Rejection
    pub terminal : List String

  abbrev is_terminal : Found → String → Bool
  is_terminal f symbol = any (str_eq symbol) f.terminal

  abbrev add_signal : Signal → Found → Found
  add_signal s f = record f {
    signals = upsert (λ (t : Signal). str_eq t.instrument.symbol s.instrument.symbol) s f.signals;
    terminal = s.instrument.symbol ∷ f.terminal;
  }

  unfoldable pub take_signals : Stamp → List Signal → Found → Result Found
  take_signals clock [] f = ok f
  take_signals clock (s ∷ signals) f =
      let rest = λ (g : Found). take_signals clock signals g in
      if is_terminal f s.instrument.symbol
      then rest f
      else (if s.available_at.micros == clock.micros
          then rest (add_signal s f)
          else err (value_error "REPLAY_RETROACTIVE_SIGNAL_BLOCKED"))

  abbrev take_rejections : List Rejection → Found → Found
  take_rejections [] f = f
  take_rejections (r ∷ rejections) f = take_rejections rejections (
      if is_terminal f r.symbol
      then f
      else record f { rejections = f.rejections ++ r ∷ []; terminal = r.symbol ∷ f.terminal })

  abbrev add_signals : List Signal → Found → Found
  add_signals [] f = f
  add_signals (s ∷ signals) f = add_signals signals (add_signal s f)

  -- What the decision at the cutoff settles.
  abbrev found_at_cutoff : SessionDecision → Found
  found_at_cutoff d =
      record (add_signals d.signals (record { signals = []; rejections = []; terminal = [] })) {
        rejections = d.rejections;
        terminal =
            map (λ (s : Signal). s.instrument.symbol) d.signals
            ++ map (λ (r : Rejection). r.symbol) d.rejections;
      }

  abbrev is_settled : SessionDecision → Found → Bool
  is_settled initial f =
      all (λ (c : Candidate). is_terminal f c.instrument.symbol) initial.selection

  abbrev distinct : List Stamp → List Stamp
  distinct [] = []
  distinct (t ∷ l) =
      if any (λ (u : Stamp). u.micros == t.micros) l then distinct l else t ∷ distinct l

  -- The instants between the cutoff and the end at which something arrives.
  abbrev arrivals : Stamp → Stamp → List ReplayRecord → List Stamp
  arrivals cutoff end records = sort_by earlier (
      distinct (
        select (λ (t : Stamp). earlier cutoff t && earlier t end)
          (map (λ (r : ReplayRecord). r.available_at) records)))

module _ ⦃dec : Decimals⦄ (calendar : Calendar) (signal_id : String → ℕ → String → String)
    (config : StrategyConfig) where
  unfoldable pub at_arrival : SessionDecision → ℕ → Stamp → Found → Exec Replay Found
  at_arrival initial day clock f = do
    bundle ← view clock
    d ← lift (process_session calendar signal_id config bundle day)
    raise_if
        (not (same_list candidate_eq d.selection initial.selection)
          || not (same_list str_eq d.evaluable_symbols initial.evaluable_symbols))
        (value_error "REPLAY_SELECTION_CHANGED_AFTER_CUTOFF")
    g ← lift (take_signals clock d.signals f)
    pure (take_rejections d.rejections g)

  -- The loop over the arrivals, which ends when all that was selected is settled.
  unfoldable pub replay_arrivals : SessionDecision → ℕ → List Stamp → Found → Exec Replay Found
  replay_arrivals initial day [] f = pure f
  replay_arrivals initial day (clock ∷ clocks) f =
      let rest = λ (g : Found). replay_arrivals initial day clocks g in
      if is_settled initial f then pure f else at_arrival initial day clock f >>= rest

  unfoldable pub replay_session : ℕ → Exec Replay SessionDecision
  replay_session day = do
    market ← lift (session calendar day)
    bundle ← view (cutoff_of config market)
    initial ← lift (process_session calendar signal_id config bundle day)
    times ←
        gets (λ (r : Replay). arrivals (cutoff_of config market) (end_of config market) r.records)
    f ← replay_arrivals initial day times (found_at_cutoff initial)
    pure (record initial { signals = sort_by by_signal f.signals; rejections = f.rejections })
