-- ===== src/Transport/Routes.antt =====
-- The routes of brokers/transport.py and `allowed_route`. A pattern is a list of the parts of a
-- path between its slashes.
use Prim.Native.String.{find}
use bot_trading.Prelude.{
  ℕ, ◌==◌, String, Bool, true, false, not, ◌&&◌, ◌||◌, Option, none, some, List, [], ◌∷◌, ◌++◌, all,
  any, str_eq, if◌then◌else◌,
}
use bot_trading.Exec.{Result, ok, err}
use bot_trading.Exec.Results.{◌>>◌, raise_if}
use bot_trading.Authorization.{Purpose, blocked}
use bot_trading.Transport.Text.{contains, split, is_number}

-- A part of a pattern: a text, an identifier, one of some texts, or a count of candles.
pub data Part : Type 0 where
  exactly : String → Part
  identifier : Part
  one_of : List String → Part
  candle_count : Part

pub record Route : Type 0 where
  pub method : String
  pub pattern : List Part
  pub pool : String
  pub quota : ℕ
  pub query : List String
  pub mutation : Bool
  pub purpose : Option Purpose

-- A parameter of a query, with its value if that is a text.
pub record Parameter : Type 0 where
  pub key : String
  pub value : Option String

-- `ME`, `PORTFOLIO` and so on.
abbrev pub me : String
me = "/api/v1/me"

abbrev pub portfolio_path : String
portfolio_path = "/api/v1/trading/info/demo/portfolio"

abbrev pub instruments : String
instruments = "/api/v2/market-data/instruments"

abbrev pub rates : String
rates = "/api/v2/market-data/rates"

abbrev pub orders : String
orders = "/api/v2/trading/execution/demo/orders"

abbrev pub lookup : String
lookup = "/api/v2/trading/info/demo/orders:lookup"

abbrev pub costs_path : String
costs_path = "/api/v2/trading/info/demo/costs"

abbrev pub eligibility : String
eligibility = "/api/v2/trading/info/demo/eligibility"

-- The parts of a fixed path.
abbrev pub fixed : String → List Part
fixed path = go (split 47 path)
  where
    go : List String → List Part
    go [] = []
    go (s ∷ l) = exactly s ∷ go l

abbrev pub read_route : List Part → String → List String → Route
read_route pattern pool query = record {
  method = "GET";
  pattern = pattern;
  pool = pool;
  quota = 60;
  query = query;
  mutation = false;
  purpose = none;
}

abbrev preview_route : String → String → Route
preview_route path pool = record {
  method = "POST";
  pattern = fixed path;
  pool = pool;
  quota = 20;
  query = [];
  mutation = false;
  purpose = none;
}

abbrev mutation_route : String → List Part → String → ℕ → Purpose → Route
mutation_route method pattern pool quota purpose = record {
  method = method;
  pattern = pattern;
  pool = pool;
  quota = quota;
  query = [];
  mutation = true;
  purpose = some purpose;
}

-- `ROUTES`
abbrev pub routes : List Route
routes =
    read_route (fixed me) "default" []
    ∷ read_route (fixed portfolio_path) "portfolio" []
    ∷ read_route (fixed instruments) "market"
        ("instrumentsIds" ∷ "symbols" ∷ "pageSize" ∷ "pageToken" ∷ "exchangeId" ∷ "type" ∷ [])
    ∷ read_route (fixed rates) "market" ("instrumentIds" ∷ [])
    ∷ read_route
        (fixed "/api/v1/market-data/instruments"
          ++ identifier
            ∷ exactly "history"
            ∷ exactly "candles"
            ∷ one_of ("asc" ∷ "desc" ∷ [])
            ∷ one_of ("OneMinute" ∷ "OneDay" ∷ [])
            ∷ candle_count
            ∷ [])
        "market" []
    ∷ read_route (fixed lookup) "lookup" ("orderId" ∷ "referenceId" ∷ [])
    ∷ read_route (fixed "/api/v1/trading/info/demo/close-orders" ++ identifier ∷ []) "lookup" []
    ∷ preview_route costs_path "costs"
    ∷ preview_route eligibility "eligibility"
    ∷ mutation_route "POST" (fixed orders) "execution" 20 Purpose.entry
    ∷ mutation_route "DELETE" (fixed orders ++ identifier ∷ []) "execution" 20 Purpose.management
    ∷ mutation_route "PATCH" (fixed "/api/v2/trading/demo/positions" ++ identifier ∷ []) "default"
        60 Purpose.management
    ∷ mutation_route "POST"
        (fixed "/api/v1/trading/execution/demo/market-close-orders/positions" ++ identifier ∷ [])
        "execution" 20 Purpose.management
    ∷ []

abbrev fits : Part → String → Bool
fits (exactly t) s = str_eq t s
fits identifier s = is_number 18 s
fits (one_of options) s = any (str_eq s) options
fits candle_count s = is_number 2 s || str_eq s "1000"

-- `re.fullmatch(route.pattern, path)`
unfoldable pub matches : List Part → List String → Bool
matches [] [] = true
matches (p ∷ pattern) (s ∷ parts) = fits p s && matches pattern parts
matches _ _ = false

abbrev known_key : Route → Parameter → Bool
known_key r p = any (str_eq p.key) r.query

abbrev one_identifier : List Parameter → Bool
one_identifier (p ∷ []) = elim p.value [ none ↦ false | some t ↦ not (str_eq t "") ]
one_identifier _ = false

abbrev check_query : String → List Parameter → Route → Result Route
check_query path params route = do
  raise_if (not (all (known_key route) params)) (blocked "UNDOCUMENTED_QUERY_PARAMETER")
  raise_if (str_eq path lookup && not (one_identifier params))
      (blocked "LOOKUP_REQUIRES_EXACTLY_ONE_IDENTIFIER")
  ok route

abbrev pub first_route : String → String → List Parameter → List Route → Result Route
first_route method path params [] = err (blocked "ROUTE_NOT_ALLOWED")
first_route method path params (route ∷ later) =
    let rest = first_route method path params later in
    if str_eq method route.method && matches route.pattern (split 47 path)
    then check_query path params route
    else rest

unfoldable pub allowed_route : String → String → List Parameter → Result Route
allowed_route method path params = do
  raise_if (not (find path "/api/" == 0) || any (contains path) ("%" ∷ "\\" ∷ "?" ∷ "#" ∷ []))
      (blocked "ROUTE_NOT_ALLOWED")
  raise_if (contains path "//" || any (λ part. str_eq part "." || str_eq part "..") (split 47 path))
      (blocked "AMBIGUOUS_PATH")
  first_route method path params routes
