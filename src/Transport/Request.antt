-- ===== src/Transport/Request.antt =====
-- `GuardedTransport` of brokers/transport.py: the guards of a request, and the loop that sends it.
use bot_trading.Prelude.{ℕ, String, Bool, not, Option, none, some, List}
use bot_trading.Prelude.Int.{ℤ, pos, sub_ℕ}
use bot_trading.Decimal.{Decimals, Decimal}
use bot_trading.Risk.Types.{Stamp}
use bot_trading.Exec.{Result, ok, Exec, raise, modify, raise_if}
use bot_trading.Authorization.{MutationPermit, Authorization, blocked, check}
use bot_trading.Transport.Routes.{Route, Parameter}
use bot_trading.Transport.Quota.{QuotaBudget, take}
use bot_trading.Transport.Payload.{Printers}
use bot_trading.Transport.Json.{Json, Fields}

pub record HttpRequest : Type 0 where
  pub method : String
  pub path : String
  pub params : List Parameter
  pub payload : Option String
  pub reference : String
  pub pinned : Bool

-- The request id and the text of a body.
pub record Prepared : Type 0 where
  pub reference : String
  pub payload : Option String

pub record Response : Type 0 where
  pub status : ℕ
  pub content : String
  pub retry_after : Option String

module _ ⦃dec : Decimals⦄ where
  pub record GuardedTransport : Type 0 where
    pub fingerprint : String
    pub mode : String
    pub session_id : String
    pub config_hash : String
    pub authorization : Option Authorization
    pub quota : QuotaBudget
    pub preflight_only : Bool
    pub preflight_reads : List String
    pub preflight_http_statuses : List ℕ
    pub mutation_attempts : ℕ
    pub response_received_at : Option Stamp
    pub is_contract : Bool

  -- What is not the program's: the HTTP client, where no response is a transport error, the two
  -- clocks, sleep with its jitter, the environment, uuid4 and UUID, and the parsers of texts; and
  -- the text of `ETORO_HTTP_` with a status.
  pub record Network (N : Type 0) : Type 0 where
    pub exchange : HttpRequest → N → Option Response × N
    pub now : N → Stamp
    pub ticks : N → ℕ
    pub sleep : ℕ → Bool → N → N
    pub is_ci : N → Bool
    pub fresh_uuid : N → String
    pub is_uuid : String → Bool
    pub parse_json : String → Option Json
    pub parse_decimal : String → Option Decimal
    pub parse_float : String → Option (Option ℤ)
    pub parse_date : String → Option Stamp
    pub status_text : ℕ → String
    pub printers : Printers

  pub record Line (N : Type 0) : Type 0 where
    pub transport : GuardedTransport
    pub net : N

  -- The arguments of `request`.
  pub record Call : Type 0 where
    pub method : String
    pub path : String
    pub params : List Parameter
    pub body : Option Fields
    pub permit : Option MutationPermit
    pub request_id : Option String
    pub priority : Bool
    pub demo_preview : Bool

  pub data Outcome : Type 0 where
    again : Outcome
    received : Fields → Outcome

module _ ⦃dec : Decimals⦄ {N : Type 0} (network : Network N) where
  abbrev pub set : (GuardedTransport → GuardedTransport) → Exec (Line N) (Unit {0})
  set f = modify (λ w. record w { transport = f w.transport })

  abbrev pub require_contract_transport : Exec (Line N) (Unit {0})
  require_contract_transport w =
      raise_if (not w.transport.is_contract) (blocked "EXTERNAL_MUTATIONS_DISABLED_PHASE2") w

  abbrev put_authorization : {A : Type 0} → Result A × Authorization → Exec (Line N) A
  put_authorization (r, a) w =
      (r, record w { transport = record w.transport { authorization = some a } })

  abbrev with_authorization :
      {A : Type 0} → Exec Authorization A → Option Authorization → Exec (Line N) A
  with_authorization m none = raise (blocked "MUTATION_AUTHORIZATION_REQUIRED")
  with_authorization m (some a) = put_authorization (m a)

  -- A method of the authorization that the transport holds.
  abbrev pub on_authorization : {A : Type 0} → Exec Authorization A → Exec (Line N) A
  on_authorization m w = with_authorization m w.transport.authorization w

  abbrev pub check_permit : MutationPermit → Exec (Line N) (Unit {0})
  check_permit p w =
      on_authorization
        (check p w.transport.session_id w.transport.config_hash w.transport.fingerprint
          (network.now w.net) (network.fresh_uuid w.net))
        w

  -- `_retry_after`, in microseconds.
  abbrev bounded : Option ℤ → ℕ
  bounded (some (pos n)) = n
  bounded _ = 60_000_000

  abbrev until_date : Stamp → Option Stamp → ℕ
  until_date now none = 60_000_000
  until_date now (some t) = bounded (some (sub_ℕ t.micros now.micros))

  abbrev delay_of : Stamp → String → Option (Option ℤ) → ℕ
  delay_of now value (some seconds) = bounded seconds
  delay_of now value none = until_date now (network.parse_date value)

  unfoldable pub retry_after : Response → N → ℕ
  retry_after r n = elim r.retry_after [
    | none ↦ 60_000_000
    | some value ↦ delay_of (network.now n) value (network.parse_float value)
  ]

  abbrev pub sleep : ℕ → Bool → Exec (Line N) (Unit {0})
  sleep micros jitter = modify (λ w. record w { net = network.sleep micros jitter w.net })

  abbrev put_quota : Result (Unit {0}) × QuotaBudget → Exec (Line N) (Unit {0})
  put_quota (r, q) w = (r, record w { transport = record w.transport { quota = q } })

  abbrev pub take_quota : Route → Bool → Exec (Line N) (Unit {0})
  take_quota route priority w =
      put_quota (take (network.ticks w.net) route priority w.transport.quota) w

  abbrev answer : {A : Type 0} → A × N → Exec (Line N) A
  answer (a, n) w = (ok a, record w { net = n })

  abbrev pub exchange : HttpRequest → Exec (Line N) (Option Response)
  exchange r w = answer (network.exchange r w.net) w
