-- ===== src/Transport/Loop.antt =====
-- The loop of `GuardedTransport.request`: one attempt, and what its response comes to.
use bot_trading.Prelude.{
  ℕ, ◌+◌, ◌*◌, ◌^◌, ◌==◌, String, Bool, true, false, not, ◌&&◌, ◌||◌, Option, none, some, List, [],
  ◌∷◌, ◌++◌, ltb, leb, str_eq, if◌then◌else◌,
}
use bot_trading.Decimal.{Decimals}
use bot_trading.Exec.{
  runtime_error, assertion_error, Exec, pure, raise, gets, raise_if, when, ◌>>=◌, ◌>>◌,
}
use bot_trading.Authorization.{is_entry, MutationPermit, blocked}
use bot_trading.Transport.Routes.{Route, me, portfolio_path}
use bot_trading.Transport.Json.{Json, Fields, object}
use bot_trading.Transport.Request.{
  Prepared, Response, GuardedTransport, Network, Line, Call, Outcome, again, received, set, sleep,
  take_quota, exchange, retry_after,
}

abbrev pub attempts_of : Route → List ℕ
attempts_of route = if route.mutation then 0 ∷ [] else 0 ∷ 1 ∷ 2 ∷ []

abbrev pub is_management : Option MutationPermit → Bool
is_management none = false
is_management (some p) = not (is_entry p.purpose)

abbrev is_watched : String → Bool
is_watched path = str_eq path me || str_eq path portfolio_path

module _ ⦃dec : Decimals⦄ where
  abbrev hold_off : ℕ → ℕ → GuardedTransport → GuardedTransport
  hold_off ticks delay t = record t {
    quota = record t.quota {
      blocked_until =
          if ltb t.quota.blocked_until (ticks + delay)
          then ticks + delay
          else t.quota.blocked_until;
    };
  }

  abbrev pub count_mutation : GuardedTransport → GuardedTransport
  count_mutation t = record t { mutation_attempts = t.mutation_attempts + 1 }

module _ ⦃dec : Decimals⦄ {N : Type 0} (network : Network N) where
  abbrev document : Option Json → Exec (Line N) Outcome
  document (some (object fields)) = pure (received fields)
  document _ = raise (blocked "INVALID_ETORO_RESPONSE")

  -- A response that is not retried.
  unfoldable pub accept_response : Call → Response → Exec (Line N) Outcome
  accept_response call r = do
    raise_if (leb 400 r.status) (runtime_error (network.status_text r.status))
    restricted ← gets (λ w. w.transport.preflight_only)
    raise_if ((restricted || is_watched call.path) && not (r.status == 200))
        (blocked "PREFLIGHT_UNEXPECTED_HTTP_STATUS")
    document (network.parse_json r.content)

  abbrev pub back_off : ℕ → Exec (Line N) Outcome
  back_off attempt = do sleep network (250_000 * 2 ^ attempt) true; pure again

  unfoldable pub rate_limited : Call → Route → ℕ → Response → ℕ → Exec (Line N) Outcome
  rate_limited call route attempt r delay = do
    ticks ← gets (λ w. network.ticks w.net)
    set network (hold_off ticks delay)
    (if not route.mutation && leb delay 10_000_000 && ltb attempt 2
        then (do sleep network delay false; pure again)
        else accept_response call r)

  unfoldable pub judge_status : Call → Route → ℕ → Response → ℕ → Exec (Line N) Outcome
  judge_status call route attempt r delay =
      if r.status == 429
      then rate_limited call route attempt r delay
      else (if leb 500 r.status && not route.mutation && ltb attempt 2
          then back_off attempt
          else accept_response call r)

  unfoldable pub receive : Call → Route → ℕ → Response → Exec (Line N) Outcome
  receive call route attempt r = do
    now ← gets (λ w. network.now w.net)
    set network (λ t. record t { response_received_at = some now })
    restricted ← gets (λ w. w.transport.preflight_only)
    when restricted (
        set network
          (λ t. record t { preflight_http_statuses = t.preflight_http_statuses ++ r.status ∷ [] }))
    raise_if (leb 300 r.status && ltb r.status 400) (blocked "AUTHENTICATED_REDIRECT_BLOCKED")
    delay ← gets (λ w. retry_after network r w.net)
    judge_status call route attempt r delay

  -- `httpx.TransportError`
  unfoldable pub lost : Route → ℕ → Exec (Line N) Outcome
  lost route attempt =
      if route.mutation
      then raise (blocked "SUBMISSION_UNKNOWN_RECONCILE_NO_RETRY")
      else (if attempt == 2 then raise (blocked "ETORO_READ_UNAVAILABLE") else back_off attempt)

  -- To the pinned mock, or through the client.
  unfoldable pub dispatch : Call → Route → Prepared → Exec (Line N) (Option Response)
  dispatch call route sending =
      if route.mutation || (str_eq call.method "POST" && not call.demo_preview)
      then (do
        pinned ← gets (λ w. w.transport.is_contract)
        raise_if (not pinned) assertion_error
        when route.mutation (set network count_mutation)
        exchange network (record {
          method = call.method;
          path = call.path;
          params = call.params;
          payload = sending.payload;
          reference = sending.reference;
          pinned = true;
        }))
      else exchange network (record {
        method = call.method;
        path = call.path;
        params = call.params;
        payload = sending.payload;
        reference = sending.reference;
        pinned = false;
      })

  abbrev pub after_dispatch : Call → Route → ℕ → Option Response → Exec (Line N) Outcome
  after_dispatch call route attempt none = lost route attempt
  after_dispatch call route attempt (some r) = receive call route attempt r

  unfoldable pub admit_attempt : Call → Route → Exec (Line N) (Unit {0})
  admit_attempt call route = do
    take_quota network route (call.priority || is_management call.permit)
    restricted ← gets (λ w. w.transport.preflight_only)
    when restricted
        (set network (λ t. record t { preflight_reads = t.preflight_reads ++ call.path ∷ [] }))

  unfoldable pub attempt_once : Call → Route → Prepared → ℕ → Exec (Line N) Outcome
  attempt_once call route sending attempt = do
    admit_attempt call route
    response ← dispatch call route sending
    after_dispatch call route attempt response

  unfoldable pub send_loop : Call → Route → Prepared → List ℕ → Exec (Line N) Fields
  send_loop call route sending [] = raise (blocked "ETORO_READ_UNAVAILABLE")
  send_loop call route sending (attempt ∷ later) =
      let rest = send_loop call route sending later in
      attempt_once call route sending attempt >>= λ outcome. elim outcome [
        | again ↦ rest
        | received fields ↦ pure fields
      ]
