-- ===== src/Backtest/Tests.antt =====
-- A backtest of one session with one trade, and a replay of three bars.
use bot_trading.Prelude.{
  ℕ, ◌≤◌, ◌≡◌, ◌⊎◌, refl, String, true, false, none, some, [], ◌∷◌, map, select,
}
use bot_trading.Decimal.Fixed.{fixed, milli}
use bot_trading.Decimal.{◌≤D◌}
use bot_trading.Prelude.Counting.{count}
use bot_trading.Prelude.Members.{All}
use bot_trading.Risk.Types.{at_second}
use bot_trading.Risk.Tests.{engine, rules, request, account}
use bot_trading.Risk.Guards.{all_finite, reject_market, reject_rules, reject_reason}
use bot_trading.Risk.Costs.{commission, estimate}
use bot_trading.Risk.Engine.{
  bisect, feasible, steps, decide, size, assess, risk_budget, cash_budget, post_fill_risk,
}
use bot_trading.Exec.{for_each, ok}
use bot_trading.Domain.{earlier, Bar, AvailabilityKind, end_time, valid_amounts, valid_bar}
use bot_trading.Market.{session, sessions, minutes, flatten_at, DataBundle}
use bot_trading.Strategy.Opening.{opening_metrics}
use bot_trading.Strategy.Screen.{
  group, universe_reason, daily_bars, liquidity, judge_metrics, judge_opening, judge_history,
  judge_warmup, screen,
}
use bot_trading.Strategy.Session.{
  screen_all, select_ranked, select_candidates, breaks_out, signal_of, judge_breakout, scan,
  search_signal, signal_all, process_session,
}
use bot_trading.Strategy.SessionTests.{
  calendar, config as strategy, minute, data_of, name_of, breakout, market, chosen, manifest,
}
use bot_trading.Backtest.{BacktestConfig, Position, Trade, Books, fee, executable}
use bot_trading.Backtest.Orders.{
  position_at, set_position, trade_of, close, fill_pending, on_open, on_close,
}
use bot_trading.Backtest.Events.{bar_events, session_events}
use bot_trading.Backtest.Handlers.{portfolio_of, on_signal, on_event}
use bot_trading.Backtest.Run.{
  end_session, run_session, decide_all, guards, run_checked, run_backtest, opening_books,
}
use bot_trading.Backtest.Replay.{
  ReplayRecord, Replay, Basis, Semantics, create, records_of, record_of, validate, availability,
}
use bot_trading.Backtest.Replay.Views.{projection, bundle_of, view}
use bot_trading.Backtest.Replay.AsOf.{IsSynced, is_public, showing, view_shows_public}
use bot_trading.Backtest.Replay.Created.{EndsFirst, create-IsSynced}
use bot_trading.Backtest.Stops.{IsStopped, on_close_touched}
use bot_trading.Backtest.Once.{uses}
use bot_trading.Backtest.Intents.{run_backtest_once}
use bot_trading.Backtest.Causal.{IsCausal}
use bot_trading.Backtest.Knowledge.{run_backtest-IsCausal}

abbrev config : BacktestConfig ⦃dec = fixed⦄
config = record {
  starting_capital = milli 10_000_000;
  latency_ms = 250;
  spread_bps = milli 2000;
  slippage_bps = milli 1000;
  seed = 42;
  bootstrap_samples = 200;
  bootstrap_block_sessions = 2;
}

abbrev day_text : ℕ → String
day_text day = "day"

-- After the breakout, one bar in which it is filled and one in which it is sold.
abbrev bundle : DataBundle ⦃dec = fixed⦄
bundle = data_of (breakout ∷ minute 100 7 102_000 102_500 ∷ minute 100 8 103_000 103_500 ∷ [])

abbrev ended : Books ⦃dec = fixed⦄
ended = (run_backtest calendar name_of rules day_text config engine strategy bundle none true).1

one_trade : map (λ (t : Trade ⦃dec = fixed⦄). t.exit_reason) ended.trades ≡ "SCHEDULED_CLOSE" ∷ []
unfolding process_session session sessions minutes group select_candidates screen_all screen
    universe_reason daily_bars judge_warmup judge_history judge_opening judge_metrics liquidity
    opening_metrics select_ranked signal_all search_signal scan breaks_out judge_breakout signal_of
    flatten_at for_each fee executable trade_of close fill_pending on_open on_close bar_events
    session_events portfolio_of on_signal on_event end_session run_session decide_all guards
    run_checked assess reject_reason reject_rules reject_market all_finite size steps bisect
    feasible estimate commission decide risk_budget cash_budget post_fill_risk
one_trade = refl

run_backtest_once_example : uses "AAPL" ended ≤ 1
run_backtest_once_example =
    run_backtest_once calendar name_of config engine strategy rules day_text "AAPL" bundle none true

run_backtest-IsCausal_example : IsCausal config engine strategy rules day_text ended
run_backtest-IsCausal_example =
    run_backtest-IsCausal calendar name_of config engine strategy rules day_text bundle none true

abbrev held_position : Position ⦃dec = fixed⦄
held_position = record {
  pending = record {
    signal = signal_of calendar name_of strategy market chosen breakout;
    sent_at = at_second 8_640_962;
    decision = assess engine request account;
  };
  filled_at = at_second 8_641_020;
  entry = milli 102_000;
  entry_fee = milli 1;
  mark = milli 102_000;
  friction = milli 0;
}

abbrev held_books : Books ⦃dec = fixed⦄
held_books = set_position "AAPL" held_position (opening_books (milli 9_000_000))

-- A minute that falls from 103 to 95: the stop stands at 99.8.
abbrev falling : Bar ⦃dec = fixed⦄
falling = record (minute 100 8 103_000 95_000) { low = milli 94_000 }

on_close_touched_example :
    let (r, ended) = on_close config engine "AAPL" falling (end_time falling) held_books in
    (r ≡ ok tt)
    × (((earlier falling.event_time held_position.filled_at ≡ true) × (ended ≡ held_books))
        ⊎ ((earlier falling.event_time held_position.filled_at ≡ false)
            × ((falling.low ≤D held_position.pending.signal.stop_price) ≡ false)
            × (position_at "AAPL" ended ≡ some (record held_position { mark = falling.close }))
            × (ended.trades ≡ held_books.trades)
            × (ended.cash ≡ held_books.cash))
        ⊎ ((earlier falling.event_time held_position.filled_at ≡ false)
            × ((falling.low ≤D held_position.pending.signal.stop_price) ≡ true)
            × ((t : Trade ⦃dec = fixed⦄) × IsStopped config engine "AAPL" falling
                  (end_time falling)
                  held_position
                  held_books
                  t
                  ended)))
on_close_touched_example =
    on_close_touched config engine "AAPL" falling (end_time falling) held_books held_position refl

-- A downloaded data set, its replay, and what the clock shows after the second bar.
abbrev downloaded : DataBundle ⦃dec = fixed⦄
downloaded = record (data_of (breakout ∷ [])) {
  bars = minute 100 1 100_500 100_800 ∷ minute 100 0 100_000 100_500 ∷ breakout ∷ [];
  manifest = record manifest {
    is_synthetic = false;
    availability_kind = AvailabilityKind.historical_download;
    acquired_at = some (at_second 9_000_000);
  };
}

abbrev entry_of : Bar ⦃dec = fixed⦄ → ReplayRecord ⦃dec = fixed⦄
entry_of b = record {
  original = b;
  available_at = end_time b;
  availability_basis = Basis.documented_bar_close;
}

abbrev replay : Replay ⦃dec = fixed⦄
replay = record {
  original = downloaded;
  records =
      entry_of (minute 100 0 100_000 100_500)
      ∷ entry_of (minute 100 1 100_500 100_800)
      ∷ entry_of breakout
      ∷ [];
  projected = [];
  clock = none;
}

created_replay : create downloaded Semantics.interval_start_plus_60s [] ≡ ok replay
unfolding create records_of record_of validate valid_amounts valid_bar availability
created_replay = refl

create-IsSynced_example :
    IsSynced replay
    × (replay.clock ≡ none)
    × (replay.projected ≡ [])
    × (replay.original ≡ downloaded)
    × (count (λ (k : ReplayRecord ⦃dec = fixed⦄). k.original.close ≤D milli 100_800) replay.records
        ≡ count (λ (b : Bar ⦃dec = fixed⦄). b.close ≤D milli 100_800) downloaded.bars)
    × All EndsFirst replay.records
create-IsSynced_example =
    create-IsSynced (λ b. b.close ≤D milli 100_800) downloaded Semantics.interval_start_plus_60s []
      {r = replay} created_replay

replay-IsSynced : IsSynced replay
replay-IsSynced = record { ordered = refl; projected_is_shown = refl }

abbrev shown_at_noon : DataBundle ⦃dec = fixed⦄
shown_at_noon = bundle_of (showing (at_second 8_640_720) replay)

seen_at_noon : (view (at_second 8_640_720) replay).0 ≡ ok shown_at_noon
unfolding view for_each validate valid_amounts valid_bar
seen_at_noon = refl

view_shows_public_example :
    (shown_at_noon.bars ≡ map projection (select (is_public (at_second 8_640_720)) replay.records))
    × IsSynced (view (at_second 8_640_720) replay).1
    × ((view (at_second 8_640_720) replay).1.records ≡ replay.records)
    × ((view (at_second 8_640_720) replay).1.clock ≡ some (at_second 8_640_720))
view_shows_public_example =
    view_shows_public (at_second 8_640_720) replay {bundle = shown_at_noon} replay-IsSynced
      seen_at_noon
