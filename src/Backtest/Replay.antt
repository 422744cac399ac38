-- ===== src/Backtest/Replay.antt =====
-- `ReplayAsOf` of backtesting/replay.py: the records of a downloaded data set with the instants at
-- which they became available. The metadata, a report with digests, is left out.
pub mod Views
pub mod AsOf
pub mod Created
use bot_trading.Prelude.{
  ℕ, ◌==◌, String, Bool, true, false, not, ◌&&◌, ◌||◌, Option, none, some, List, [], ◌∷◌, ◌++◌, any,
  all, length, find_row, ltb, str_eq, if◌then◌else◌,
}
use bot_trading.Prelude.Sorting.{sort_by}
use bot_trading.Decimal.{Decimals}
use bot_trading.Risk.Types.{Stamp}
use bot_trading.Exec.{key_error, value_error, Result, ok, err}
use bot_trading.Exec.Results.{◌>>=◌, ◌>>◌, raise_if, or_raise}
use bot_trading.Domain.{
  Instrument, instrument_eq, earlier, Bar, end_time, valid_amounts, valid_bar, AvailabilityKind,
  DataManifest,
}
use bot_trading.Market.{DataBundle}
use bot_trading.Store.Tables.{text_before}

-- The basis of a record's availability.
pub data Basis : Type 0 where
  explicit_publication documented_bar_close : Basis

-- `bar_close_semantics`: not given, the supported one, or another.
pub data Semantics : Type 0 where
  undeclared interval_start_plus_60s other : Semantics

-- An item of the dictionary `publication_times`.
pub record Publication : Type 0 where
  pub symbol : String
  pub event_time : Stamp
  pub published_at : Stamp

module _ ⦃dec : Decimals⦄ where
  pub record ReplayRecord : Type 0 where
    pub original : Bar
    pub available_at : Stamp
    pub availability_basis : Basis

  -- What an instance keeps: `_times` and `_availability` are read off the records.
  pub record Replay : Type 0 where
    pub original : DataBundle
    pub records : List ReplayRecord
    pub projected : List Bar
    pub clock : Option Stamp

  abbrev pub same_key : Bar → Bar → Bool
  same_key a b =
      str_eq a.instrument.symbol b.instrument.symbol && a.event_time.micros == b.event_time.micros

  abbrev is_about : Bar → Publication → Bool
  is_about b p = str_eq p.symbol b.instrument.symbol && p.event_time.micros == b.event_time.micros

  -- When a bar became available, and why.
  unfoldable pub availability : Semantics → Bar → Option Publication → Result (Stamp × Basis)
  availability semantics b (some p) =
      if p.published_at.aware
      then ok (p.published_at, Basis.explicit_publication)
      else err (value_error "REPLAY_PUBLICATION_TIMEZONE_REQUIRED")
  availability Semantics.interval_start_plus_60s b none =
      ok (end_time b, Basis.documented_bar_close)
  availability _ b none = err (value_error "REPLAY_AVAILABILITY_CONTRACT_MISSING")

  -- `Bar.model_validate`.
  unfoldable pub validate : Bar → Result (Unit {0})
  validate b = if valid_amounts b then valid_bar b else err (value_error "BAR_FIELD_INVALID")

  abbrev is_listed : List Instrument → Bar → Bool
  is_listed instruments b =
      elim (find_row (λ (i : Instrument). str_eq i.symbol b.instrument.symbol) instruments) [
        | none ↦ false
        | some i ↦ instrument_eq i b.instrument
      ]

  abbrev record_from : Bar → Stamp × Basis → Result ReplayRecord
  record_from b (at, basis) =
      if earlier at (end_time b)
      then err (value_error "REPLAY_PUBLICATION_BEFORE_BAR_CLOSE")
      else ok (record { original = b; available_at = at; availability_basis = basis })

  -- One round of the loop over the bars; `seen` holds the bars of the earlier rounds.
  unfoldable pub record_of :
      Semantics → List Publication → List Instrument → List Bar → Bar → Result ReplayRecord
  record_of semantics explicit instruments seen b = do
    validate b
    raise_if (any (same_key b) seen || not (b.revision == 0) || not b.final)
        (value_error "REPLAY_DUPLICATE_OR_REVISION_UNSUPPORTED")
    raise_if (not (is_listed instruments b)) (value_error "REPLAY_INSTRUMENT_IDENTITY_MISMATCH")
    known ← availability semantics b (find_row (is_about b) explicit)
    record_from b known

  unfoldable pub records_of :
      Semantics
      → List Publication
      → List Instrument
      → List Bar
      → List Bar
      → Result (List ReplayRecord)
  records_of semantics explicit instruments seen [] = ok []
  records_of semantics explicit instruments seen (b ∷ bars) = do
    r ← record_of semantics explicit instruments seen b
    rest ← records_of semantics explicit instruments (b ∷ seen) bars
    ok (r ∷ rest)

  -- By availability, then by the minute, then by the symbol.
  abbrev pub by_publication : ReplayRecord → ReplayRecord → Bool
  by_publication a b =
      earlier a.available_at b.available_at
      || (a.available_at.micros == b.available_at.micros
          && (earlier a.original.event_time b.original.event_time
              || (a.original.event_time.micros == b.original.event_time.micros
                  && text_before a.original.instrument.symbol b.original.instrument.symbol)))

  abbrev increasing : List ℕ → Bool
  increasing [] = true
  increasing (d ∷ []) = true
  increasing (d ∷ e ∷ days) = ltb d e && increasing (e ∷ days)

  abbrev distinct_symbols : List Instrument → Bool
  distinct_symbols [] = true
  distinct_symbols (i ∷ l) =
      not (any (λ (j : Instrument). str_eq j.symbol i.symbol) l) && distinct_symbols l

  abbrev is_download : AvailabilityKind → Bool
  is_download AvailabilityKind.historical_download = true
  is_download _ = false

  abbrev is_other : Semantics → Bool
  is_other Semantics.other = true
  is_other _ = false

  abbrev is_empty : List Bar → Bool
  is_empty [] = true
  is_empty (b ∷ bars) = false

  -- `__init__`.
  unfoldable pub create : DataBundle → Semantics → List Publication → Result Replay
  create bundle semantics explicit = do
    raise_if (bundle.manifest.is_synthetic || not (is_download bundle.manifest.availability_kind))
        (value_error "REPLAY_REQUIRES_HISTORICAL_PROVENANCE")
    raise_if (is_other semantics) (value_error "REPLAY_TEMPORAL_SEMANTICS_UNSUPPORTED")
    raise_if (not (increasing bundle.evaluation_sessions))
        (value_error "REPLAY_SESSION_ORDER_INVALID")
    raise_if (not (distinct_symbols bundle.instruments) || is_empty bundle.bars)
        (value_error "REPLAY_AMBIGUOUS_OR_EMPTY_DATA")
    records ← records_of semantics explicit bundle.instruments [] bundle.bars
    raise_if (not (all (λ (p : Publication). any (λ (b : Bar). is_about b p) bundle.bars) explicit))
        (value_error "REPLAY_UNKNOWN_PUBLICATION_RECORD")
    ok (record {
      original = bundle;
      records = sort_by by_publication records;
      projected = [];
      clock = none;
    })

  -- `available_at`.
  unfoldable pub available_at : Replay → Bar → Result Stamp
  available_at r b = do
    known ←
        or_raise (key_error b.instrument.symbol)
          (find_row (λ (k : ReplayRecord). same_key b k.original) r.records)
    ok known.available_at
