-- ===== src/Domain.antt =====
-- The market records of domain/models.py: instruments, bars and the manifest of a data set, with
-- what pydantic checks when they are built.
use bot_trading.Prelude.{
  ℕ, ◌+◌, ◌*◌, ◌%◌, ◌==◌, String, Bool, true, false, not, ◌&&◌, Option, none, some, ltb, str_eq,
  if◌then◌else◌,
}
use bot_trading.Decimal.{Decimals, Decimal, ◌≤D◌, ◌<D◌, zero_D, min_D, max_D}
use bot_trading.Risk.Types.{Stamp}
use bot_trading.Exec.{value_error, Result, ok, err}

pub data AssetClass : Type 0 where
  common_stock etf adr other : AssetClass

abbrev asset_tag : AssetClass → ℕ
asset_tag AssetClass.common_stock = 0
asset_tag AssetClass.etf = 1
asset_tag AssetClass.adr = 2
asset_tag AssetClass.other = 3

abbrev pub asset_eq : AssetClass → AssetClass → Bool
asset_eq a b = asset_tag a == asset_tag b

pub record Instrument : Type 0 where
  pub symbol : String
  pub exchange : String
  pub currency : String
  pub asset_class : AssetClass
  pub stable_id : Option String
  pub broker_id : Option ℕ

abbrev same_text : Option String → Option String → Bool
same_text none none = true
same_text (some a) (some b) = str_eq a b
same_text _ _ = false

abbrev same_number : Option ℕ → Option ℕ → Bool
same_number none none = true
same_number (some a) (some b) = a == b
same_number _ _ = false

-- The equality of the frozen model: field by field.
abbrev pub instrument_eq : Instrument → Instrument → Bool
instrument_eq a b =
    str_eq a.symbol b.symbol
    && str_eq a.exchange b.exchange
    && str_eq a.currency b.currency
    && asset_eq a.asset_class b.asset_class
    && same_text a.stable_id b.stable_id
    && same_number a.broker_id b.broker_id

-- Comparisons of instants that carry a time zone.
abbrev pub earlier : Stamp → Stamp → Bool
earlier a b = ltb a.micros b.micros

-- So many seconds later.
abbrev pub after_seconds : Stamp → ℕ → Stamp
after_seconds t s = record t { micros = t.micros + s * 1_000_000 }

-- So many milliseconds later.
abbrev pub after_millis : Stamp → ℕ → Stamp
after_millis t ms = record t { micros = t.micros + ms * 1000 }

module _ ⦃dec : Decimals⦄ where
  pub record Bar : Type 0 where
    pub instrument : Instrument
    pub event_time : Stamp
    pub received_at : Stamp
    pub available_at : Stamp
    pub open_price : Decimal
    pub high : Decimal
    pub low : Decimal
    pub close : Decimal
    pub volume : Decimal
    pub source : String
    pub final : Bool
    pub revision : ℕ

  -- `interval_seconds` is always 60.
  abbrev pub end_time : Bar → Stamp
  end_time b = after_seconds b.event_time 60

  -- The fields' own bounds: prices are positive, the volume is not negative, all are finite.
  unfoldable pub valid_amounts : Bar → Bool
  valid_amounts b =
      dec.is_finite b.open_price
      && zero_D <D b.open_price
      && dec.is_finite b.high
      && zero_D <D b.high
      && dec.is_finite b.low
      && zero_D <D b.low
      && dec.is_finite b.close
      && zero_D <D b.close
      && dec.is_finite b.volume
      && zero_D ≤D b.volume
      && not (str_eq b.source "")

  unfoldable pub valid_bar : Bar → Result (Unit {0})
  valid_bar b =
      if b.high <D max_D (max_D b.open_price b.close) b.low
      then err (value_error "OHLC high invalid")
      else (if min_D b.open_price b.close <D b.low
          then err (value_error "OHLC low invalid")
          else (if not (b.event_time.micros % 60_000_000 == 0)
              then err (value_error "bar must start on a minute boundary")
              else (if earlier b.available_at b.received_at
                  then err (value_error "available_at precedes received_at")
                  else (if b.final && earlier b.received_at (end_time b)
                      then err (value_error "complete bar received before interval end")
                      else ok tt))))

module _ ⦃dec : Decimals⦄ where
  pub record Signal : Type 0 where
    pub signal_id : String
    pub session_date : ℕ
    pub instrument : Instrument
    pub available_at : Stamp
    pub expires_at : Stamp
    pub reference_price : Decimal
    pub stop_price : Decimal
    pub rank : ℕ
    pub rvol : Decimal
    pub strategy_version : String

pub data VolumeKind : Type 0 where
  synthetic_shares consolidated_shares venue_shares unknown : VolumeKind

pub data AvailabilityKind : Type 0 where
  synthetic observed historical_download unknown : AvailabilityKind

pub data Adjustments : Type 0 where
  unadjusted split_adjusted unknown : Adjustments

-- The fields of `DataManifest` that its validator and the strategy read.
pub record DataManifest : Type 0 where
  pub is_synthetic : Bool
  pub volume_kind : VolumeKind
  pub adjustments : Adjustments
  pub coverage_start : Stamp
  pub coverage_end : Stamp
  pub availability_kind : AvailabilityKind
  pub acquired_at : Option Stamp

abbrev is_synthetic_volume : VolumeKind → Bool
is_synthetic_volume VolumeKind.synthetic_shares = true
is_synthetic_volume _ = false

abbrev same_bool : Bool → Bool → Bool
same_bool true b = b
same_bool false b = not b

abbrev check_availability : AvailabilityKind → DataManifest → Result (Unit {0})
check_availability AvailabilityKind.synthetic m =
    if not m.is_synthetic then err (value_error "REAL_DATA_WITH_SYNTHETIC_AVAILABILITY") else ok tt
check_availability AvailabilityKind.historical_download m = elim m.acquired_at [
  | none ↦ err (value_error "HISTORICAL_DOWNLOAD_TIME_REQUIRED")
  | some t ↦ ok tt
]
check_availability _ m = ok tt

unfoldable pub consistent_evidence : DataManifest → Result (Unit {0})
consistent_evidence m =
    if not (earlier m.coverage_start m.coverage_end)
    then err (value_error "MANIFEST_COVERAGE_INVALID")
    else (if not (same_bool (is_synthetic_volume m.volume_kind) m.is_synthetic)
        then err (value_error "SYNTHETIC_VOLUME_LABEL_MISMATCH")
        else check_availability m.availability_kind m)
