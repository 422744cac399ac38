-- ===== src/Transport/Guards.antt =====
-- The guards of `GuardedTransport.request` and the identity that a mutation needs. A mutation reads
-- the identity by two further requests, which are no mutations: what a request observes is an
-- argument of `request_with`, and one level is enough.
use bot_trading.Prelude.{
  String, Bool, true, false, not, ◌&&◌, ◌||◌, Option, none, some, List, [], ◌∷◌, any, str_eq,
  is_some, if◌then◌else◌,
}
use bot_trading.Prelude.Int.{ℤ}
use bot_trading.Decimal.{Decimals, Decimal}
use bot_trading.Exec.{
  Exn, runtime_error, assertion_error, Result, ok, err, Exec, pure, raise, gets, lift, raise_if,
  when, catch, ◌>>=◌, ◌>>◌,
}
use bot_trading.Authorization.{
  Purpose, is_entry, MutationPermit, PreflightEvidence, Authorization, blocked, invalidate,
}
use bot_trading.Transport.Routes.{
  Route, me, portfolio_path, instruments, costs_path, eligibility, allowed_route,
}
use bot_trading.Transport.Json.{Fields, object}
use bot_trading.Transport.Identity.{same_ℤ, meets, require_demo}
use bot_trading.Transport.Portfolio.{portfolio_cash}
use bot_trading.Transport.Payload.{json_bytes}
use bot_trading.Transport.Request.{
  Prepared, GuardedTransport, Network, Line, Call, set, require_contract_transport, check_permit,
  on_authorization,
}
use bot_trading.Transport.Loop.{attempts_of, send_loop}

module _ ⦃dec : Decimals⦄ {N : Type 0} (network : Network N) where
  abbrev pub preflight_paths : List String
  preflight_paths = me ∷ portfolio_path ∷ instruments ∷ []

  abbrev is_purpose : MutationPermit → Route → Bool
  is_purpose p route = elim route.purpose [
    | none ↦ false
    | some Purpose.entry ↦ is_entry p.purpose
    | some Purpose.management ↦ not (is_entry p.purpose)
  ]

  abbrev permitted : Option MutationPermit → Route → Option Authorization → Result MutationPermit
  permitted (some p) route (some a) =
      if is_purpose p route then ok p else err (blocked "MUTATION_AUTHORIZATION_REQUIRED")
  permitted _ route _ = err (blocked "MUTATION_AUTHORIZATION_REQUIRED")

  unfoldable pub mutation_permit : Call → Route → Bool → GuardedTransport → Result MutationPermit
  mutation_permit call route ci t =
      if not t.is_contract
      then err (blocked "EXTERNAL_MUTATIONS_DISABLED_PHASE2")
      else (if not (str_eq t.mode "etoro_demo") || ci
          then err (blocked "MUTATION_DISABLED_IN_THIS_MODE")
          else permitted call.permit route t.authorization)

  abbrev pub read_permit : Call → Route → Exec (Line N) MutationPermit
  read_permit call route w = (mutation_permit call route (network.is_ci w.net) w.transport, w)

  -- The first guards of a mutation.
  unfoldable pub guard_mutation : Call → Route → Exec (Line N) (Unit {0})
  guard_mutation call route = do
    p ← read_permit call route
    check_permit network p
    raise_if (not (is_some call.request_id)) (blocked "PERSISTED_REQUEST_ID_REQUIRED")

  abbrev pub reference_of : Call → Exec (Line N) String
  reference_of call w = (ok_text call.request_id, w)
    where
      ok_text : Option String → Result String
      ok_text none = ok (network.fresh_uuid w.net)
      ok_text (some t) = ok (if str_eq t "" then network.fresh_uuid w.net else t)

  abbrev write_scopes : List String
  write_scopes = "etoro-public:demo:write" ∷ "etoro-public:trade.demo:write" ∷ []

  abbrev evidence_account : Option Authorization → Option ℤ
  evidence_account none = none
  evidence_account (some a) = elim a.evidence [ none ↦ none | some e ↦ some e.account_id ]

  abbrev same_account : ℤ → Option ℤ → Bool
  same_account account none = false
  same_account account (some own) = same_ℤ account own

  abbrev weigh : PreflightEvidence → Option ℤ → Result (Unit {0})
  weigh evidence none = err (blocked "PREFLIGHT_REQUIRED")
  weigh evidence (some account) =
      if not (same_ℤ evidence.account_id account)
      then err (blocked "DEMO_IDENTITY_BINDING_CHANGED")
      else (if meets evidence.scopes write_scopes
          then ok tt
          else err (blocked "DEMO_WRITE_SCOPE_UNVERIFIED"))

  abbrev pub weigh_evidence : PreflightEvidence → Exec (Line N) (Unit {0})
  weigh_evidence evidence w = (weigh evidence (evidence_account w.transport.authorization), w)

  abbrev pub verify_steps :
      Exec (Line N) PreflightEvidence → MutationPermit → Exec (Line N) (Unit {0})
  verify_steps observe p = do
    check_permit network p
    evidence ← observe
    weigh_evidence evidence
    check_permit network p

  -- `except BrokerBlocked: authorization.invalidate(); raise`
  abbrev pub invalidated : Exn → Exec (Line N) (Unit {0})
  invalidated (runtime_error reason) = do
    nonce ← gets (λ w. network.fresh_uuid w.net)
    on_authorization network (invalidate nonce)
    raise (runtime_error reason)
  invalidated e = raise e

  abbrev pub require_authorization : Exec (Line N) (Unit {0})
  require_authorization w =
      raise_if (not (is_some w.transport.authorization)) (blocked "MUTATION_AUTHORIZATION_REQUIRED")
        w

  unfoldable pub verify_mutation_identity :
      Exec (Line N) PreflightEvidence → MutationPermit → Exec (Line N) (Unit {0})
  verify_mutation_identity observe p = do
    require_contract_transport network
    require_authorization
    catch (verify_steps observe p) invalidated

  abbrev pub verify_permit :
      Exec (Line N) PreflightEvidence → Option MutationPermit → Exec (Line N) (Unit {0})
  verify_permit observe none = raise assertion_error
  verify_permit observe (some p) = verify_mutation_identity observe p

  abbrev pub preview : Exec (Line N) PreflightEvidence → Call → Exec (Line N) (Unit {0})
  preview observe call = do
    raise_if
        (not (str_eq call.method "POST")
          || not (str_eq call.path costs_path || str_eq call.path eligibility))
        (blocked "DEMO_PREVIEW_ROUTE_REQUIRED")
    observe >>= λ _. pure tt

  abbrev pub payload_of : Option Fields → Result (Option String)
  payload_of none = ok none
  payload_of (some fields) = elim (json_bytes network.printers (object fields)) [
    | err e ↦ err e
    | ok t ↦ ok (some t)
  ]

  -- The reference of a request, and the identity behind a mutation.
  unfoldable pub prepare_late :
      Exec (Line N) PreflightEvidence → Call → Route → Exec (Line N) Prepared
  prepare_late observe call route = do
    reference ← reference_of call
    raise_if (not (network.is_uuid reference)) (blocked "REQUEST_ID_MUST_BE_UUID")
    payload ← lift (payload_of call.body)
    when route.mutation (verify_permit observe call.permit)
    when (str_eq call.method "POST" && not route.mutation && not call.demo_preview)
        (require_contract_transport network)
    pure (record { reference = reference; payload = payload })

  -- What precedes the loop of a request on a route.
  unfoldable pub prepare : Exec (Line N) PreflightEvidence → Call → Route → Exec (Line N) Prepared
  prepare observe call route = do
    when call.demo_preview (preview observe call)
    raise_if (str_eq call.method "GET" && is_some call.body) (blocked "GET_BODY_FORBIDDEN")
    when route.mutation (guard_mutation call route)
    prepare_late observe call route

  unfoldable pub request_with : Exec (Line N) PreflightEvidence → Call → Exec (Line N) Fields
  request_with observe call = do
    set network (λ t. record t { response_received_at = none })
    restricted ← gets (λ w. w.transport.preflight_only)
    raise_if
        (restricted
          && (not (str_eq call.method "GET") || not (any (str_eq call.path) preflight_paths)))
        (blocked "PREFLIGHT_READ_ONLY_ROUTE_REQUIRED")
    route ← lift (allowed_route call.method call.path call.params)
    sending ← prepare observe call route
    send_loop network call route sending (attempts_of route)

  abbrev pub read_call : String → Call
  read_call path = record {
    method = "GET";
    path = path;
    params = [];
    body = none;
    permit = none;
    request_id = none;
    priority = true;
    demo_preview = false;
  }

  -- `self.request("GET", path, priority=True)`, which observes nothing.
  abbrev pub read_document : String → Exec (Line N) Fields
  read_document path = request_with (raise assertion_error) (read_call path)

  -- The evidence, unless the credentials changed meanwhile.
  unfoldable pub seal : String → List String → ℤ → Decimal → Exec (Line N) PreflightEvidence
  seal fingerprint scopes account cash w =
      if str_eq fingerprint w.transport.fingerprint
      then (
        ok (record {
          account_id = account;
          scopes = scopes;
          available_cash = cash;
          verified_at = network.now w.net;
          credential_fingerprint = fingerprint;
        }),
        w,
      )
      else (err (blocked "CREDENTIALS_CHANGED"), w)

  abbrev pub observe_cash : String → List String → Option ℤ → Exec (Line N) PreflightEvidence
  observe_cash fingerprint scopes none = raise assertion_error
  observe_cash fingerprint scopes (some account) = do
    portfolio ← read_document portfolio_path
    cash ← lift (portfolio_cash network.parse_decimal account portfolio)
    seal fingerprint scopes account cash

  abbrev pub observe_from : String → Exec (Line N) PreflightEvidence
  observe_from fingerprint = do
    identity ← read_document me
    observed ← lift (require_demo identity)
    observe_cash fingerprint observed.scopes observed.account_id

  unfoldable pub observe_demo : Exec (Line N) PreflightEvidence
  observe_demo = do fingerprint ← gets (λ w. w.transport.fingerprint); observe_from fingerprint

  abbrev pub request : Call → Exec (Line N) Fields
  request call = request_with observe_demo call
