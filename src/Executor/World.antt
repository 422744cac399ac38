-- ===== src/Executor/World.antt =====
-- What the executor works on: the store, the broker, and its own flags; and `ExecutorLock` of
-- persistence/store.py.
use bot_trading.Prelude.{String, Bool, true, false, not, ◌||◌, Option}
use bot_trading.Decimal.{Decimals, Decimal}
use bot_trading.Risk.Types.{Stamp, RiskEngine}
use bot_trading.Exec.{Exec, runtime_error, gets, ◌>>=◌, ◌>>◌, modify, raise_if}
use bot_trading.Order.Types.{OrderIntent, BrokerOrder}
use bot_trading.Store.Tables.{Store}
use bot_trading.Store.Access.{pause}

module _ ⦃dec : Decimals⦄ where
  -- What a broker can touch: the store, in which the simulator keeps its orders, and a state of
  -- its own.
  pub record Shared (B : Type 0) : Type 0 where
    pub store : Store
    pub outside : B

  -- `PreparedSubmission`, its metadata already written as text.
  pub record PreparedSubmission (B : Type 0) : Type 0 where
    pub send : OrderIntent → Exec (Shared B) BrokerOrder
    pub metadata : String

  -- `ExecutionBroker`, with `prepare` for a `PreparingBroker`, and the clock.
  pub record Broker (B : Type 0) : Type 0 where
    pub submit : OrderIntent → Exec (Shared B) BrokerOrder
    pub query : String → Exec (Shared B) (Option BrokerOrder)
    pub cancel : OrderIntent → Exec (Shared B) BrokerOrder
    pub close : OrderIntent → Exec (Shared B) BrokerOrder
    pub protect : String → Decimal → Exec (Shared B) Bool
    pub prepare : Option (OrderIntent → Exec (Shared B) (PreparedSubmission B))
    pub clock : Exec (Shared B) Stamp

  -- The fixed parts of an `Executor`; `uuid5` is the library's name-based identifier.
  pub record Executor (B : Type 0) : Type 0 where
    pub broker : Broker B
    pub risk : RiskEngine
    pub session_id : String
    pub uuid5 : String → String

  -- Its changing parts, the lock's handle, and whether another process holds the lock.
  pub record World (B : Type 0) : Type 0 where
    pub store : Store
    pub outside : B
    pub started : Bool
    pub incident_management : Bool
    pub lock_handle : Bool
    pub lock_taken : Bool

  module _ {B : Type 0} where
    abbrev pub on_store : {A : Type 0} → Exec Store A → Exec (World B) A
    on_store m w = let (r, s) = m w.store in (r, record w { store = s })

    abbrev pub on_broker : {A : Type 0} → Exec (Shared B) A → Exec (World B) A
    on_broker m w =
        let (r, s) = m (record { store = w.store; outside = w.outside }) in
        (r, record w { store = s.store; outside = s.outside })

    unfoldable pub acquire : Exec (World B) (Unit {0})
    acquire = do
      held ← gets (λ w. w.lock_handle)
      raise_if held (runtime_error "Executor lock already acquired")
      taken ← gets (λ w. w.lock_taken)
      raise_if taken (runtime_error "BLOCKED: another executor owns this database")
      modify (λ w. record w { lock_handle = true })

    -- Releasing a lock that is not held does nothing.
    abbrev pub release : World B → World B
    release w = record w { lock_handle = false }

    unfoldable pub require_started : Exec (World B) (Unit {0})
    require_started w =
        raise_if (not w.started || not w.lock_handle)
          (runtime_error "BLOCKED: command must run through the owning executor") w

    unfoldable pub pause_entries : Executor B → Exec (World B) (Unit {0})
    pause_entries x = do require_started; on_store (pause x.session_id true)
