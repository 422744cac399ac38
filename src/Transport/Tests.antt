-- ===== src/Transport/Tests.antt =====
-- A budget that grants a request, and an order that is sent over the pinned mock.
use bot_trading.Prelude.{
  ℕ, ◌+◌, ◌≤◌, String, ◌≡◌, refl, true, false, Option, none, some, [], ◌∷◌, ◌⊎◌, str_eq, is_some,
  if◌then◌else◌,
}
use bot_trading.Prelude.Int.{pos}
use bot_trading.Prelude.Counting.{count}
use bot_trading.Decimal.Fixed.{fixed, milli}
use bot_trading.Risk.Types.{at_second}
use bot_trading.Exec.{ok, err}
use bot_trading.Authorization.{Purpose, blocked, permit, check, check_armed}
use bot_trading.Authorization.Tests.{armed}
use bot_trading.Transport.Routes.{
  Route, me, portfolio_path, orders, read_route, fixed as fixed_path, allowed_route, matches,
}
use bot_trading.Transport.Quota.{QuotaBudget, admit, take}
use bot_trading.Transport.Rolling.{is_live, Reach, fresh, granted, Reach-within_quota}
use bot_trading.Transport.Json.{
  Json, Fields, integer, decimal, text, array, object, empty, element, no_field, field,
}
use bot_trading.Transport.Payload.{json_bytes, elements_bytes, fields_bytes}
use bot_trading.Transport.Identity.{identity_reason, classify_identity, require_demo}
use bot_trading.Transport.Portfolio.{portfolio_cash}
use bot_trading.Transport.Request.{HttpRequest, Network, Line, Call, retry_after}
use bot_trading.Transport.Recording.{Logged, recorded, sent}
use bot_trading.Transport.Loop.{
  accept_response, judge_status, receive, dispatch, admit_attempt, attempt_once, send_loop,
}
use bot_trading.Transport.Guards.{
  mutation_permit, guard_mutation, verify_mutation_identity, prepare_late, prepare, request_with,
  seal, observe_demo, request,
}
use bot_trading.Transport.Safety.{request_mutates_once}

abbrev me_route : Route
me_route = read_route (fixed_path me) "default" []

abbrev unused : QuotaBudget
unused = record { pools = []; blocked_until = 0 }

abbrev chain : Reach (take 5 me_route false unused).1 (5 ∷ []) 5
unfolding take admit
chain = granted me_route false (fresh 5) refl refl

Reach-within_quota_example : count (is_live 5) (5 ∷ []) ≤ 60
Reach-within_quota_example = Reach-within_quota (take 5 me_route false unused).1 (5 ∷ []) 5 chain

known_route : allowed_route "GET" me [] ≡ ok me_route
unfolding allowed_route matches
known_route = refl

blocked_route : allowed_route "GET" "/api/v1/me/../orders" [] ≡ err (blocked "AMBIGUOUS_PATH")
unfolding allowed_route matches
blocked_route = refl

abbrev identity : Fields ⦃dec = fixed⦄
identity =
    field "demoCid" (integer (pos 7))
      (field "scopes" (array (element (text "etoro-public:demo:write") empty)) no_field)

abbrev mixed : Fields ⦃dec = fixed⦄
mixed = field "demoCid" (integer (pos 7)) (
    field "realCid" (integer (pos 8)) (
      field "scopes"
        (array (
          element (text "etoro-public:demo:write")
            (element (text "etoro-public:Real:write") empty)))
        no_field))

-- A scope of a real account is found whatever the case of its letters.
denied_identity : require_demo mixed ≡ err (blocked "NON_DEMO_SCOPE_DETECTED")
unfolding require_demo classify_identity identity_reason
denied_identity = refl

abbrev client : Fields ⦃dec = fixed⦄
client = field "credit" (decimal (milli 5_000_000)) (
    field "positions" (array empty) (
      field "orders" (array empty) (
        field "mirrors" (array empty)
          (field "ordersForOpen" (array empty) (field "ordersForClose" (array empty) no_field)))))

abbrev parse : String → Option (Json ⦃dec = fixed⦄)
parse s =
    if str_eq s me
    then some (object identity)
    else (if str_eq s portfolio_path
        then some (object (field "clientPortfolio" (object client) no_field))
        else some (object no_field))

-- A network that answers each path with its own text and counts what it was asked.
abbrev network : Network ⦃dec = fixed⦄ ℕ
network = record {
  exchange = λ r n. (some (record { status = 200; content = r.path; retry_after = none }), n + 1);
  now = λ n. at_second 1000;
  ticks = λ n. 5;
  sleep = λ micros jitter n. n;
  is_ci = λ n. false;
  fresh_uuid = λ n. "uuid";
  is_uuid = λ s. true;
  parse_json = parse;
  parse_decimal = λ s. none;
  parse_float = λ s. none;
  parse_date = λ s. none;
  status_text = λ n. "ETORO_HTTP";
  printers = record { dumps = λ s. s; dumps_number = λ n. "1"; plain = λ d. "1.000" };
}

abbrev line : Line ⦃dec = fixed⦄ ℕ
line = record {
  transport = record {
    fingerprint = "key";
    mode = "etoro_demo";
    session_id = "day";
    config_hash = "hash";
    authorization = some armed;
    quota = unused;
    preflight_only = false;
    preflight_reads = [];
    preflight_http_statuses = [];
    mutation_attempts = 0;
    response_received_at = none;
    is_contract = true;
  };
  net = 0;
}

abbrev order_call : Call ⦃dec = fixed⦄
order_call = record {
  method = "POST";
  path = orders;
  params = [];
  body = some (field "amount" (decimal (milli 1000)) no_field);
  permit = some (permit Purpose.entry armed);
  request_id = some "uuid";
  priority = false;
  demo_preview = false;
}

-- The order is sent, after the two reads of the identity.
sent_order :
    ((request network order_call line).0 ≡ ok no_field)
    × ((request network order_call line).1.transport.mutation_attempts ≡ 1)
    × ((request network order_call line).1.net ≡ 3)
unfolding json_bytes elements_bytes fields_bytes request_with allowed_route matches prepare
    guard_mutation mutation_permit check check_armed permit prepare_late verify_mutation_identity
    observe_demo seal require_demo classify_identity identity_reason portfolio_cash send_loop
    attempt_once admit_attempt take admit dispatch receive retry_after judge_status accept_response
sent_order = (refl, refl, refl)

-- The same line, over the network that keeps its requests.
abbrev fresh_line : Line ⦃dec = fixed⦄ (Logged ℕ)
fresh_line = record { transport = line.transport; net = (0, []) }

request_mutates_once_example :
    let after = (request (recorded network) order_call fresh_line).1 in
    ((sent network after ≡ sent network fresh_line) × (after.transport.mutation_attempts ≡ 0))
    ⊎ (((r : HttpRequest) × (sent network after ≡ r ∷ sent network fresh_line)
          × (r.method ≡ "POST")
          × (r.path ≡ orders)
          × (r.pinned ≡ true))
        × (after.transport.mutation_attempts ≡ 1)
        × (true ≡ true)
        × (str_eq "etoro_demo" "etoro_demo" ≡ true)
        × (is_some (some (permit Purpose.entry armed)) ≡ true))
request_mutates_once_example = request_mutates_once network order_call fresh_line
