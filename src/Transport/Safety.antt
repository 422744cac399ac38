-- ===== src/Transport/Safety.antt =====
-- However a request ends, it sent at most one mutation, and one only past its guards.
use mathlib.Core.Path.{subst}
use bot_trading.Prelude.{
  ◌+◌, String, ◌≡◌, refl, ap, ◌∙◌, Bool, true, false, not, ◌&&◌, ◌||◌, Option, none, some, List, [],
  ◌∷◌, any, str_eq, is_some, ◌⊎◌, inl, inr, Bool-cases, arith,
}
use bot_trading.Prelude.Int.{ℤ}
use bot_trading.Decimal.{Decimals, Decimal}
use bot_trading.Exec.{assertion_error, ok, Exec, raise, when, lift, ◌>>=◌, Result-cases}
use bot_trading.Authorization.{PreflightEvidence}
use bot_trading.Transport.Routes.{Route, me, portfolio_path, allowed_route, matches}
use bot_trading.Transport.Identity.{require_demo}
use bot_trading.Transport.Portfolio.{portfolio_cash}
use bot_trading.Transport.Request.{HttpRequest, Prepared, Network, Line, Call}
use bot_trading.Transport.Loop.{attempts_of}
use bot_trading.Transport.Guards.{
  guard_mutation, preview, prepare, request_with, seal, observe_cash, observe_demo, request,
  read_call, read_document, preflight_paths,
}
use bot_trading.Transport.Recording.{Logged, recorded, sent, facts, Sent, Sent-moved}
use bot_trading.Transport.Mutations.{send_loop_read, send_loop_mutation}
use bot_trading.Transport.Once.{
  Silent, bind-Silent, preview_facts, when-Silent, guard_mutation_mode, prepare_facts,
}

module _ ⦃dec : Decimals⦄ {N : Type 0} (base : Network N)
    (observe : Exec (Line (Logged N)) PreflightEvidence) (silent : Silent base observe) where
  -- Past the guards of a mutation there is a permit, and the mode is the Demo mode.
  prepare_mode :
      (call : Call) (route : Route) (w : Line (Logged N)) {sending : Prepared}
      → route.mutation ≡ true
      → (prepare (recorded base) observe call route w).0 ≡ ok sending
      → (str_eq w.transport.mode "etoro_demo" ≡ true) × (is_some call.permit ≡ true)
  unfolding prepare
  prepare_mode call route w {sending} h done =
      let previewed =
        when-Silent base call.demo_preview (preview (recorded base) observe call)
          (preview_facts base observe silent call) w in
      elim (Result-cases (when call.demo_preview (preview (recorded base) observe call) w).0) [
        | inr (e, failed) ↦ absurd (ground arith)
        | inl (t, seen) ↦ elim (Bool-cases (str_eq call.method "GET" && is_some call.body)) [
          | inl odd ↦ absurd (ground arith)
          | inr plain ↦
              let w1 = (when call.demo_preview (preview (recorded base) observe call) w).1 in
              elim (Result-cases (guard_mutation (recorded base) call route w1).0) [
                | inr (e, refused) ↦ absurd (ground arith)
                | inl (u, given) ↦
                    let (demo, permit) = guard_mutation_mode base call route w1 given in
                    (
                      subst (λ m. str_eq m "etoro_demo" ≡ true) (ap (λ f. f.1) previewed) demo,
                      permit,
                    )
              ]
        ]
      ]

  abbrev restricted : Call → Line (Logged N) → Bool
  restricted call w =
      w.transport.preflight_only
      && (not (str_eq call.method "GET")
          || not (any (str_eq call.path) (preflight_paths (recorded base))))

  abbrev started : Line (Logged N) → Line (Logged N)
  started w = record w { transport = record w.transport { response_received_at = none } }

  -- A request on a route that is no mutation.
  request_with_read :
      (call : Call)
      → ((route : Route)
          → allowed_route call.method call.path call.params ≡ ok route
          → route.mutation ≡ false)
      → Silent base (request_with (recorded base) observe call)
  unfolding request_with
  request_with_read call reads w = elim (Bool-cases (restricted call w)) [
    | inl refused ↦ rw refused refl
    | inr free ↦ elim (Result-cases (allowed_route call.method call.path call.params)) [
      | inr (e, unknown) ↦ rw (free, unknown) refl
      | inl (route, known) ↦
          let prepared = prepare_facts base observe silent call route (started w) in
          elim (Result-cases (prepare (recorded base) observe call route (started w)).0) [
            | inr (e, failed) ↦ rw (free, known, failed) prepared
            | inl (sending, done) ↦
                rw (free, known, done)
                  (send_loop_read base call route sending (attempts_of route) _ known
                      (reads route known)
                    ∙ prepared)
          ]
    ]
  ]

  -- A request on any route.
  request_with_once :
      (call : Call) (w : Line (Logged N))
      → (facts base (request_with (recorded base) observe call w).1 ≡ facts base w)
        ⊎ (Sent base call w (request_with (recorded base) observe call w).1
            × (str_eq w.transport.mode "etoro_demo" ≡ true)
            × (is_some call.permit ≡ true))
  unfolding request_with
  request_with_once call w = elim (Bool-cases (restricted call w)) [
    | inl refused ↦ inl (rw refused refl)
    | inr free ↦ elim (Result-cases (allowed_route call.method call.path call.params)) [
      | inr (e, unknown) ↦ inl (rw (free, unknown) refl)
      | inl (route, known) ↦
          let prepared = prepare_facts base observe silent call route (started w) in
          elim (Result-cases (prepare (recorded base) observe call route (started w)).0) [
            | inr (e, failed) ↦ inl (rw (free, known, failed) prepared)
            | inl (sending, done) ↦
                let w1 = (prepare (recorded base) observe call route (started w)).1 in
                elim (Bool-cases route.mutation) [
                  | inr read ↦ inl (
                      rw (free, known, done)
                        (send_loop_read base call route sending (attempts_of route) w1 known read
                          ∙ prepared))
                  | inl mutates ↦
                      let (demo, permit) = prepare_mode call route (started w) mutates done in
                      elim (send_loop_mutation base call route sending w1 known mutates) [
                        | inl kept ↦ inl (rw (free, known, done) (kept ∙ prepared))
                        | inr more ↦ inr (
                          Sent-moved base call w w1 _ _ prepared (rw (free, known, done) refl) more,
                          demo,
                          permit,
                        )
                      ]
                ]
          ]
    ]
  ]

module _ ⦃dec : Decimals⦄ {N : Type 0} (base : Network N) where
  -- The two reads of the identity are no mutations.
  read_document-Silent :
      (path : String)
      → ((route : Route) → allowed_route "GET" path [] ≡ ok route → route.mutation ≡ false)
      → Silent base (read_document (recorded base) path)
  read_document-Silent path =
      request_with_read base (raise assertion_error) (λ w. refl) (read_call (recorded base) path)

  me_reads : (route : Route) → allowed_route "GET" me [] ≡ ok route → route.mutation ≡ false
  unfolding allowed_route matches
  me_reads route h = ground arith

  portfolio_reads :
      (route : Route) → allowed_route "GET" portfolio_path [] ≡ ok route → route.mutation ≡ false
  unfolding allowed_route matches
  portfolio_reads route h = ground arith

  seal-Silent :
      (fingerprint : String) (scopes : List String) (account : ℤ) (cash : Decimal)
      → Silent base (seal (recorded base) fingerprint scopes account cash)
  unfolding seal
  seal-Silent fingerprint scopes account cash w =
      elim (Bool-cases (str_eq fingerprint w.transport.fingerprint)) [
        | inl same ↦ rw same refl
        | inr changed ↦ rw changed refl
      ]

  observe_cash-Silent :
      (fingerprint : String) (scopes : List String) (account : Option ℤ)
      → Silent base (observe_cash (recorded base) fingerprint scopes account)
  observe_cash-Silent fingerprint scopes none = λ w. refl
  observe_cash-Silent fingerprint scopes (some account) =
      bind-Silent base (read_document (recorded base) portfolio_path) _
        (read_document-Silent portfolio_path portfolio_reads)
        (λ portfolio.
          bind-Silent base (lift (portfolio_cash (recorded base).parse_decimal account portfolio))
            (seal (recorded base) fingerprint scopes account) (λ w. refl)
            (seal-Silent fingerprint scopes account))

  observe_demo-Silent : Silent base (observe_demo (recorded base))
  unfolding observe_demo
  observe_demo-Silent w =
      bind-Silent base (read_document (recorded base) me)
        (λ identity. lift (require_demo identity) >>= λ observed.
          observe_cash (recorded base) w.transport.fingerprint observed.scopes observed.account_id)
        (read_document-Silent me me_reads)
        (λ identity.
          bind-Silent base (lift (require_demo identity))
            (λ observed.
              observe_cash (recorded base) w.transport.fingerprint observed.scopes
                observed.account_id)
            (λ v. refl)
            (λ observed.
              observe_cash-Silent w.transport.fingerprint observed.scopes observed.account_id))
        w

  -- However a request ends, of what the network received in its course: either nothing was a
  -- mutation, and the count is as it was; or exactly one request was, with the method and the path
  -- of the call, over the pinned mock transport, in the Demo mode and with a permit, and the count
  -- is one more. Every request is a mutation here but a GET and a POST to one of the two previews,
  -- whatever the allowlist says of it. The network is any one, made to keep its requests.
  pub request_mutates_once :
      (call : Call) (w : Line (Logged N))
      → let after = (request (recorded base) call w).1 in
        ((sent base after ≡ sent base w)
          × (after.transport.mutation_attempts ≡ w.transport.mutation_attempts))
        ⊎ (((r : HttpRequest) × (sent base after ≡ r ∷ sent base w)
              × (r.method ≡ call.method)
              × (r.path ≡ call.path)
              × (r.pinned ≡ true))
            × (after.transport.mutation_attempts ≡ w.transport.mutation_attempts + 1)
            × (w.transport.is_contract ≡ true)
            × (str_eq w.transport.mode "etoro_demo" ≡ true)
            × (is_some call.permit ≡ true))
  request_mutates_once call w =
      elim (request_with_once base (observe_demo (recorded base)) observe_demo-Silent call w) [
        | inl kept ↦ inl (ap (λ f. f.0) kept, ap (λ f. f.3) kept)
        | inr (one, demo, permit) ↦ inr (
          (one.request, ap (λ f. f.0) one.after, one.own_method, one.own_path, one.over_mock),
          ap (λ f. f.3) one.after,
          one.contract,
          demo,
          permit,
        )
      ]
