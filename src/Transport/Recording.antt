-- ===== src/Transport/Recording.antt =====
-- What a network receives from `GuardedTransport.request`: a network that keeps its requests, and
-- the mutations among them.
use mathlib.Core.Path.{subst}
use bot_trading.Prelude.{
  not, ◌||◌, ◌&&◌, false, some, [], find_row, str_eq, eq_iff, inl, inr, Bool-cases, arith, ℕ, ◌+◌,
  String, ◌≡◌, ap, sym, ◌∙◌, Bool, true, List, ◌∷◌, select,
}
use bot_trading.Decimal.{Decimals}
use bot_trading.Exec.{ok}
use bot_trading.Transport.Text.{split}
use bot_trading.Transport.Routes.{
  Route, Parameter, fixed, costs_path, eligibility, routes, matches, first_route, allowed_route,
}
use bot_trading.Transport.Request.{HttpRequest, Network, Line, Call}

-- The state of a network that keeps what it was asked, the newest request first.
abbrev pub Logged : Type 0 → Type 0
Logged N = N × List HttpRequest

-- A request that reads: a GET, or a POST to one of the two previews, that of the costs and that of
-- the eligibility. Every other request may change something at the broker.
unfoldable pub mutates : HttpRequest → Bool
mutates r =
    let parts = split 47 r.path in
    not (
      str_eq r.method "GET"
      || (str_eq r.method "POST"
          && (matches (fixed costs_path) parts || matches (fixed eligibility) parts)))

abbrev fitting : String → String → Route → Bool
fitting method path route = str_eq method route.method && matches route.pattern (split 47 path)

-- The allowlist gives the first route that fits.
first_route-find_row :
    (method path : String) (params : List Parameter) (l : List Route) {route : Route}
    → first_route method path params l ≡ ok route
    → find_row (fitting method path) l ≡ some route
first_route-find_row method path params [] {route} h = absurd (ground arith)
first_route-find_row method path params (r ∷ l) {route} h =
    ground (arith, first_route-find_row method path params l {route = route})

get_reads :
    (path : String) {route : Route}
    → find_row (fitting "GET" path) routes ≡ some route
    → route.mutation ≡ false
get_reads path {route} h = ground arith

post_mutates :
    (path : String) {route : Route}
    → find_row (fitting "POST" path) routes ≡ some route
    → let parts = split 47 path in
      route.mutation ≡ not (matches (fixed costs_path) parts || matches (fixed eligibility) parts)
post_mutates path {route} h = ground arith

other_mutates :
    (method path : String) {route : Route}
    → str_eq method "GET" ≡ false
    → str_eq method "POST" ≡ false
    → find_row (fitting method path) routes ≡ some route
    → route.mutation ≡ true
other_mutates method path {route} get post h = ground arith

allowed_route-find_row :
    (method path : String) (params : List Parameter) {route : Route}
    → allowed_route method path params ≡ ok route
    → find_row (fitting method path) routes ≡ some route
unfolding allowed_route
allowed_route-find_row method path params {route} h =
    ground (arith, first_route-find_row method path params routes {route = route})

-- The flag of the route that the allowlist gives agrees with this.
pub mutates-route :
    (r : HttpRequest) (route : Route)
    → allowed_route r.method r.path r.params ≡ ok route
    → mutates r ≡ route.mutation
unfolding mutates
mutates-route r route known =
    let found = allowed_route-find_row r.method r.path r.params {route = route} known in
    elim (Bool-cases (str_eq r.method "GET")) [
      | inl get ↦
          let same = (eq_iff r.method "GET").0 get in
          let reads =
            get_reads r.path {route = route}
              (subst (λ m. find_row (fitting m r.path) routes ≡ some route) same found) in
          ground arith
      | inr other ↦ elim (Bool-cases (str_eq r.method "POST")) [
        | inl post ↦
            let same = (eq_iff r.method "POST").0 post in
            let changes =
              post_mutates r.path {route = route}
                (subst (λ m. find_row (fitting m r.path) routes ≡ some route) same found) in
            ground arith
        | inr rest ↦
            let changes = other_mutates r.method r.path {route = route} other rest found in
            ground arith
      ]
    ]

-- A network that answers as another one does, and keeps the requests it receives.
abbrev pub recorded : ⦃dec : Decimals⦄ {N : Type 0} → Network N → Network (Logged N)
recorded network = record {
  exchange = λ r n. let (a, m) = network.exchange r n.0 in (a, (m, r ∷ n.1));
  now = λ n. network.now n.0;
  ticks = λ n. network.ticks n.0;
  sleep = λ micros jitter n. (network.sleep micros jitter n.0, n.1);
  is_ci = λ n. network.is_ci n.0;
  fresh_uuid = λ n. network.fresh_uuid n.0;
  is_uuid = network.is_uuid;
  parse_json = network.parse_json;
  parse_decimal = network.parse_decimal;
  parse_float = network.parse_float;
  parse_date = network.parse_date;
  status_text = network.status_text;
  printers = network.printers;
}

module _ ⦃dec : Decimals⦄ {N : Type 0} (base : Network N) where
  -- The mutations that the network received.
  abbrev pub sent : Line (Logged N) → List HttpRequest
  sent w = select mutates w.net.1

  -- They, the mode, whether the transport is the pinned mock, and the program's own count.
  abbrev pub facts : Line (Logged N) → List HttpRequest × String × Bool × ℕ
  facts w = (sent w, w.transport.mode, w.transport.is_contract, w.transport.mutation_attempts)

  -- A mutation that was sent: one more request, over the pinned mock, and counted.
  pub record Sent (call : Call) (w w' : Line (Logged N)) : Type 0 where
    pub request : HttpRequest
    pub own_method : request.method ≡ call.method
    pub own_path : request.path ≡ call.path
    pub over_mock : request.pinned ≡ true
    pub contract : w.transport.is_contract ≡ true
    pub after : facts w' ≡ (
      request ∷ sent w,
      w.transport.mode,
      w.transport.is_contract,
      w.transport.mutation_attempts + 1,
    )

  -- Only the facts of the two ends matter.
  pub Sent-moved :
      (call : Call) (v w v' w' : Line (Logged N))
      → facts w ≡ facts v
      → facts w' ≡ facts v'
      → Sent call w w'
      → Sent call v v'
  Sent-moved call v w v' w' first last m = record {
    request = m.request;
    own_method = m.own_method;
    own_path = m.own_path;
    over_mock = m.over_mock;
    contract = sym (ap (λ f. f.2) first) ∙ m.contract;
    after =
        sym last
        ∙ m.after
        ∙ ap (λ (f : List HttpRequest × String × Bool × ℕ). (m.request ∷ f.0, f.1, f.2, f.3 + 1))
            first;
  }
