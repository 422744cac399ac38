-- ===== src/Authorization.antt =====
-- `DemoAuthorization` of brokers/authorization.py: the lease under which a broker adapter may
-- mutate. A result of `uuid4` is an argument of the operation that asks for one.
pub mod Leases
pub mod Tests
use Prim.Native.String.{len, count, slice, find}
use bot_trading.Prelude.{
  ℕ, ◌+◌, ◌-◌, ◌*◌, ◌==◌, String, Bool, true, false, not, ◌&&◌, ◌||◌, Option, none, some, List, [],
  ◌∷◌, any, str_eq, ltb, leb, if◌then◌else◌,
}
use bot_trading.Prelude.Int.{ℤ, pos, leb_ℤ}
use bot_trading.Decimal.{Decimals, Decimal, ◌≤D◌, ◌<D◌, zero_D}
use bot_trading.Risk.Types.{Stamp}
use bot_trading.Exec.{
  Exec, Exn, runtime_error, pure, raise, gets, modify, raise_if, ◌>>=◌, ◌>>◌, skip, when,
}
use bot_trading.Domain.{after_seconds}

pub data Purpose : Type 0 where
  entry management : Purpose

abbrev pub is_entry : Purpose → Bool
is_entry Purpose.entry = true
is_entry Purpose.management = false

pub record MutationPermit : Type 0 where
  pub nonce : String
  pub purpose : Purpose

pub record ActivationGates : Type 0 where
  pub data_verified : Bool
  pub calendar_verified : Bool
  pub risk_verified : Bool
  pub reconciliation_verified : Bool
  pub native_stop_verified : Bool
  pub eligibility_verified : Bool
  pub persistence_verified : Bool

unfoldable pub ready : ActivationGates → Bool
ready g =
    g.data_verified && g.calendar_verified && g.risk_verified && g.reconciliation_verified
    && g.native_stop_verified && g.eligibility_verified && g.persistence_verified

-- `BrokerBlocked`, a `RuntimeError`.
abbrev pub blocked : String → Exn
blocked = runtime_error

abbrev write_scopes : List String
write_scopes = "etoro-public:demo:write" ∷ "etoro-public:trade.demo:write" ∷ []

-- `"real" in scope or scope.endswith(":*")`
unfoldable pub beyond_demo : String → Bool
beyond_demo scope =
    leb (find scope "real") (len scope)
    || (leb 2 (len scope) && str_eq (slice scope (len scope - 2) (len scope)) ":*")

module _ ⦃dec : Decimals⦄ where
  pub record PreflightEvidence : Type 0 where
    pub account_id : ℤ
    pub scopes : List String
    pub available_cash : Decimal
    pub verified_at : Stamp
    pub credential_fingerprint : String

  pub record Authorization : Type 0 where
    pub session_id : String
    pub config_hash : String
    pub nonce : String
    pub evidence : Option PreflightEvidence
    pub entry_expiry : Option Stamp
    pub management_expiry : Option Stamp
    pub budget : Decimal

  unfoldable pub new_authorization : String → String → String → Exec (Unit {0}) Authorization
  new_authorization session_id config_hash fresh = do
    raise_if (str_eq session_id "" || not (count config_hash == 64))
        (blocked "INVALID_SESSION_OR_CONFIG_HASH")
    pure (record {
      session_id = session_id;
      config_hash = config_hash;
      nonce = fresh;
      evidence = none;
      entry_expiry = none;
      management_expiry = none;
      budget = zero_D;
    })

  unfoldable pub pause_lease : Exec Authorization (Unit {0})
  pause_lease = modify (λ a. record a { entry_expiry = none })

  unfoldable pub invalidate : String → Exec Authorization (Unit {0})
  invalidate fresh = do
    pause_lease
    modify (λ a. record a { management_expiry = none; evidence = none; nonce = fresh })

  unfoldable pub permit : Purpose → Authorization → MutationPermit
  permit purpose a = record { nonce = a.nonce; purpose = purpose }

  -- At most a minute old, and not from the future.
  abbrev pub is_recent : Stamp → Stamp → Bool
  is_recent now verified =
      leb verified.micros now.micros && leb now.micros (after_seconds verified 60).micros

  unfoldable pub check_evidence :
      PreflightEvidence → Decimal → Stamp → Exec Authorization (Unit {0})
  check_evidence evidence accepted_budget now = do
    raise_if (not now.aware || not evidence.verified_at.aware) (blocked "TIMEZONE_REQUIRED")
    raise_if (not (is_recent now evidence.verified_at)) (blocked "PREFLIGHT_STALE")
    raise_if
        (not (leb_ℤ (pos 1) evidence.account_id)
          || not (any (λ scope. any (str_eq scope) write_scopes) evidence.scopes))
        (blocked "DEMO_WRITE_SCOPE_UNVERIFIED")
    raise_if (any beyond_demo evidence.scopes) (blocked "NON_DEMO_SCOPE_DETECTED")
    raise_if
        (not (dec.is_finite accepted_budget)
          || not (zero_D <D accepted_budget && accepted_budget ≤D evidence.available_cash))
        (blocked "VIRTUAL_BUDGET_INVALID")

  unfoldable pub activate :
      PreflightEvidence
      → ActivationGates
      → Decimal
      → Bool
      → Bool
      → Stamp
      → ℕ
      → ℕ
      → String
      → Exec Authorization (Unit {0})
  activate evidence gates accepted_budget confirmed enabled now entry_seconds management_seconds
        fresh =
      do
        pause_lease
        raise_if (not confirmed || not enabled || not (ready gates))
            (blocked "DEMO_ACTIVATION_GATES_INCOMPLETE")
        raise_if
            (not (leb 1 entry_seconds && leb entry_seconds 900)
              || not (leb entry_seconds management_seconds && leb management_seconds 86_400))
            (blocked "INVALID_AUTHORIZATION_DURATION")
        check_evidence evidence accepted_budget now
        modify (λ a. record a {
          evidence = some evidence;
          budget = accepted_budget;
          entry_expiry = some (after_seconds now entry_seconds);
          management_expiry = some (after_seconds now management_seconds);
          nonce = fresh;
        })

  abbrev lapsed : Stamp → Option Stamp → Bool
  lapsed now none = true
  lapsed now (some expiry) = not now.aware || leb expiry.micros now.micros

  -- The last tests, for the evidence that is held.
  unfoldable pub check_armed :
      MutationPermit
      → String
      → Stamp
      → String
      → Option PreflightEvidence
      → Exec Authorization (Unit {0})
  check_armed p credential_fingerprint now fresh none = raise (blocked "DEMO_NOT_ARMED")
  check_armed p credential_fingerprint now fresh (some evidence) = do
    nonce ← gets (λ a. a.nonce)
    raise_if (not (str_eq p.nonce nonce)) (blocked "DEMO_NOT_ARMED")
    when (not (str_eq credential_fingerprint evidence.credential_fingerprint))
        (invalidate fresh >> raise (blocked "CREDENTIALS_CHANGED"))
    expiry ← gets (λ a. if is_entry p.purpose then a.entry_expiry else a.management_expiry)
    raise_if (lapsed now expiry) (blocked "DEMO_AUTHORIZATION_EXPIRED_OR_PAUSED")

  unfoldable pub check :
      MutationPermit → String → String → String → Stamp → String → Exec Authorization (Unit {0})
  check p session_id config_hash credential_fingerprint now fresh = do
    own_session ← gets (λ a. a.session_id)
    when (not (str_eq session_id own_session))
        (pause_lease >> raise (blocked "AUTHORIZATION_BINDING_CHANGED"))
    own_hash ← gets (λ a. a.config_hash)
    when (not (str_eq config_hash own_hash))
        (pause_lease >> raise_if (is_entry p.purpose) (blocked "AUTHORIZATION_BINDING_CHANGED"))
    held ← gets (λ a. a.evidence)
    check_armed p credential_fingerprint now fresh held
