-- ===== src/Lib.antt =====
-- A model of the core of the trading bot: the code that decides whether and how much to buy, that
-- keeps the orders and the money, and that talks to a broker's reports.
--
-- Parts and files. `Risk` is src/intraday_etoro_lab/risk/engine.py: `Risk.Types` its records with
-- the checks of pydantic, `Risk.Costs` `CostConfig.estimate`, `Risk.Guards` `_reject_reason`,
-- `Risk.Engine` `assess` and `post_fill_risk`. `Order` is
-- src/intraday_etoro_lab/execution/models.py: `Order.State` the states and `TRANSITIONS`,
-- `Order.Types` the records. `Store` is src/intraday_etoro_lab/persistence/store.py: `Store.Tables`
-- the tables as a record of lists, `Store.Access` the single-statement methods, `Store.Intents`
-- `create_intent`, `Store.Fills` `_apply_fill` and `_observe_remaining`, `Store.Booking`
-- `apply_broker_order`, `Store.Portfolio` `portfolio`, which is the input of `assess`, and
-- `Store.Commands` the simulator's orders and the command queue. `Exec` is the state and exception
-- monad in which the store's methods are written, with its transactions.
--
-- `Executor` is src/intraday_etoro_lab/execution/engine.py: `Executor.World` what it works on, the
-- broker interface and the process lock as two flags; `Executor.Orders` `_reject_pre_send`,
-- `_send`, `_apply` and `cancel_pending_entries`; `Executor.Closing` `close_owned`;
-- `Executor.Entry` `submit_entry`; `Executor.Control` the other methods. `Simulator` is
-- src/intraday_etoro_lab/brokers/simulator.py, as a value of the broker interface. A broker is a
-- parameter of the executor: each call may change the store, in which the simulator keeps its
-- orders, and a state of its own, and may raise. The executor calls itself through an incident:
-- `_apply` cancels and closes, which applies further reports. `apply_with` takes what an incident
-- does as an argument, and one level is enough, since the code's flag stops a second one.
--
-- `Domain` is src/intraday_etoro_lab/domain/models.py. `Market` is data/calendar.py there, with the
-- calendar of the exchange as a parameter, and `DataBundle` of data/providers.py. `Strategy` is
-- src/intraday_etoro_lab/strategies: `features.py` and, of `orb.py`, the test of relative strength;
-- `Strategy.Opening` the opening metrics, `Strategy.Config` the configuration, `Strategy.Screen`
-- what `process_session` does with one instrument up to the cutoff, `Strategy.Session` the whole of
-- it. The dictionary of dictionaries of the bars is one list in the order of arrival, and a key is
-- looked up by its first row. The digest of a signal is a parameter.
--
-- `Backtest` is src/intraday_etoro_lab/backtesting. Of `engine.py`: `Backtest` the configuration,
-- the books (the variables of `run_backtest` that its events change) and the prices,
-- `Backtest.Orders` what the events of a bar do, `Backtest.Events` the events and their order,
-- `Backtest.Handlers` the event of a signal, which asks `RiskEngine.assess`, and `Backtest.Run` the
-- guards, the decisions and the loops. `Backtest.Replay` is `ReplayAsOf` of `replay.py`, and
-- `Backtest.Replay.Views` its views and its sessions. That a replay is one of the same bundle, an
-- identity of objects, is a flag. The digests, the labels and the metrics are left out.
--
-- `Transport` is src/intraday_etoro_lab/brokers/transport.py and identity.py: `Transport.Routes` the
-- allowlist, with a pattern as a list of the parts of a path, `Transport.Quota` the quota budget,
-- whose times are microseconds, `Transport.Json` the documents, `Transport.Payload` their text,
-- `Transport.Identity` and `Transport.Portfolio` identity.py, `Transport.Request` the state of
-- `GuardedTransport` and the network as a parameter, `Transport.Loop` the attempts of a request and
-- `Transport.Guards` what precedes them. A mutation reads the identity by two further requests:
-- `request_with` takes what is observed as an argument, and one level is enough, since those two are
-- no mutations. `Transport.Recording` makes of any network one that keeps what it receives.
--
-- `Authorization` is src/intraday_etoro_lab/brokers/authorization.py.
--
-- Conventions. `Decimal` is an interface, `Decimal.Decimals`: a type with the operations that the
-- program uses. Theorems that need arithmetic take `Decimal.Laws.IsOrdered`: a total order, and
-- operations that are monotone, as correctly rounded ones are; exactness is not assumed. NaN is no
-- value of the interface: the program tests amounts by `is_finite` before it compares them, and a
-- NaN fails that test as an infinity does. `Decimal.Fixed` is a value with six decimal places, by
-- which the tests run. A `datetime` is an instant in microseconds with a mark for its time zone.
-- An exception is a value of `Exec.Exn`; a transaction that raises returns the store it began
-- with. A row's JSON payload is the record itself; the time of an audit row is left out, and the
-- key of a fill is the pair of the broker's order and the filled total of which its text is made.
-- The bisection takes as much fuel as the highest step count, and each round halves the interval.
--
-- Not modelled: files, locks between processes, SQLite itself, the network, and the parts of the
-- program that are listed so in the manifest.
pub mod Transport
pub mod Market
pub mod Backtest
pub mod Prelude
pub mod Decimal
pub mod Risk
pub mod Exec
pub mod Order
pub mod Store
pub mod Executor
pub mod Simulator
pub mod Domain
pub mod Strategy
pub mod Authorization
