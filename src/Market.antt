-- ===== src/Market.antt =====
-- `Session` and `session` of data/calendar.py over the exchange's calendar, which is a library, and
-- `DataBundle` of data/providers.py.
use bot_trading.Prelude.{ℕ, ◌-◌, ◌/◌, Bool, List, if◌then◌else◌}
use bot_trading.Decimal.{Decimals}
use bot_trading.Risk.Types.{Stamp}
use bot_trading.Exec.{value_error, Result, ok, err}
use bot_trading.Domain.{Instrument, Bar, DataManifest}

-- What the exchange's calendar and the time zone say. A date is its ordinal number.
pub record Calendar : Type 0 where
  pub day_of : Stamp → ℕ
  pub is_session : ℕ → Bool
  pub open_of : ℕ → Stamp
  pub close_of : ℕ → Stamp
  pub sessions_in_range : ℕ → ℕ → List ℕ

pub record Session : Type 0 where
  pub day : ℕ
  pub open_at : Stamp
  pub close_at : Stamp

unfoldable pub flatten_at : Session → Stamp
flatten_at s = record s.close_at { micros = s.close_at.micros - 300_000_000 }

unfoldable pub minutes : Session → ℕ
minutes s = (s.close_at.micros - s.open_at.micros) / 60_000_000

module _ (calendar : Calendar) where
  unfoldable pub session : ℕ → Result Session
  session day =
      if calendar.is_session day
      then ok
          (record { day = day; open_at = calendar.open_of day; close_at = calendar.close_of day })
      else err (value_error "NOT_TRADING_SESSION")

  unfoldable pub sessions : ℕ → ℕ → List ℕ
  sessions start end = calendar.sessions_in_range start end

module _ ⦃dec : Decimals⦄ where
  pub record DataBundle : Type 0 where
    pub instruments : List Instrument
    pub bars : List Bar
    pub manifest : DataManifest
    pub evaluation_sessions : List ℕ
