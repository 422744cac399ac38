-- ===== src/Transport/Mutations.antt =====
-- A request sends at most one mutation, and only past its guards.
use mathlib.Core.Path.{subst}
use bot_trading.Prelude.{
  ℕ, ◌≡◌, refl, ap, sym, ◌∙◌, ◌||◌, ◌&&◌, ltb, leb, ◌==◌, Bool, true, false, not, Option, none,
  some, List, [], ◌∷◌, str_eq, ◌⊎◌, inl, inr, Bool-cases, arith,
}
use bot_trading.Decimal.{Decimals}
use bot_trading.Exec.{ok, Exec, ◌>>=◌, Result-cases}
use bot_trading.Transport.Quota.{take}
use bot_trading.Transport.Routes.{Route, allowed_route}
use bot_trading.Transport.Recording.{Logged, recorded, facts, mutates-route, Sent, Sent-moved}
use bot_trading.Transport.Request.{
  HttpRequest, Prepared, Network, Line, Call, Response, again, received,
}
use bot_trading.Transport.Loop.{
  accept_response, rate_limited, judge_status, receive, lost, dispatch, after_dispatch,
  admit_attempt, attempt_once, send_loop, is_management, attempts_of,
}

module _ ⦃dec : Decimals⦄ {N : Type 0} (base : Network N) where
  accept_response_same :
      (call : Call) (r : Response) (w : Line (Logged N))
      → (accept_response (recorded base) call r w).1 ≡ w
  unfolding accept_response
  accept_response_same call r w = ground arith

  facts-rate_limited :
      (call : Call) (route : Route) (attempt : ℕ) (r : Response) (delay : ℕ) (w : Line (Logged N))
      → facts base (rate_limited (recorded base) call route attempt r delay w).1 ≡ facts base w
  unfolding rate_limited
  facts-rate_limited call route attempt r delay w =
      elim (Bool-cases (not route.mutation && leb delay 10_000_000 && ltb attempt 2)) [
        | inl retried ↦ rw retried refl
        | inr final ↦ rw final (ap (facts base) (accept_response_same call r _))
      ]

  facts-judge_status :
      (call : Call) (route : Route) (attempt : ℕ) (r : Response) (delay : ℕ) (w : Line (Logged N))
      → facts base (judge_status (recorded base) call route attempt r delay w).1 ≡ facts base w
  unfolding judge_status
  facts-judge_status call route attempt r delay w = elim (Bool-cases (r.status == 429)) [
    | inl limited ↦ rw limited (facts-rate_limited call route attempt r delay w)
    | inr other ↦ elim (Bool-cases (leb 500 r.status && not route.mutation && ltb attempt 2)) [
      | inl retried ↦ rw (other, retried) refl
      | inr final ↦ rw (other, final) (ap (facts base) (accept_response_same call r w))
    ]
  ]

  facts-receive :
      (call : Call) (route : Route) (attempt : ℕ) (r : Response) (w : Line (Logged N))
      → facts base (receive (recorded base) call route attempt r w).1 ≡ facts base w
  unfolding receive
  facts-receive call route attempt r w = elim (Bool-cases w.transport.preflight_only) [
    | inl watched ↦ elim (Bool-cases (leb 300 r.status && ltb r.status 400)) [
      | inl redirect ↦ rw (watched, redirect) refl
      | inr other ↦ rw (watched, other) (facts-judge_status call route attempt r _ _)
    ]
    | inr free ↦ elim (Bool-cases (leb 300 r.status && ltb r.status 400)) [
      | inl redirect ↦ rw (free, redirect) refl
      | inr other ↦ rw (free, other) (facts-judge_status call route attempt r _ _)
    ]
  ]

  facts-after_dispatch :
      (call : Call) (route : Route) (attempt : ℕ) (r : Option Response) (w : Line (Logged N))
      → facts base (after_dispatch (recorded base) call route attempt r w).1 ≡ facts base w
  unfolding lost
  facts-after_dispatch call route attempt none w = ground arith
  facts-after_dispatch call route attempt (some r) w = facts-receive call route attempt r w

  -- What `dispatch` hands to the network.
  abbrev handed : Call → Prepared → Bool → HttpRequest
  handed call sending pinned = record {
    method = call.method;
    path = call.path;
    params = call.params;
    payload = sending.payload;
    reference = sending.reference;
    pinned = pinned;
  }

  dispatch_read :
      (call : Call) (route : Route) (sending : Prepared) (w : Line (Logged N))
      → allowed_route call.method call.path call.params ≡ ok route
      → route.mutation ≡ false
      → facts base (dispatch (recorded base) call route sending w).1 ≡ facts base w
  unfolding dispatch
  dispatch_read call route sending w known h =
      let told = λ (pinned : Bool). mutates-route (handed call sending pinned) route known ∙ h in
      elim (Bool-cases (str_eq call.method "POST" && not call.demo_preview)) [
        | inl posted ↦ elim (Bool-cases w.transport.is_contract) [
          | inl pinned ↦ rw (h, posted, pinned, told true) refl
          | inr free ↦ rw (h, posted, free) refl
        ]
        | inr read ↦ rw (h, read, told false) refl
      ]

  dispatch_mutation :
      (call : Call) (route : Route) (sending : Prepared) (w : Line (Logged N))
      → allowed_route call.method call.path call.params ≡ ok route
      → route.mutation ≡ true
      → (facts base (dispatch (recorded base) call route sending w).1 ≡ facts base w)
        ⊎ Sent base call w (dispatch (recorded base) call route sending w).1
  unfolding dispatch
  dispatch_mutation call route sending w known h = elim (Bool-cases w.transport.is_contract) [
    | inl pinned ↦ inr (record {
      request = handed call sending true;
      own_method = refl;
      own_path = refl;
      over_mock = refl;
      contract = pinned;
      after = rw (h, pinned, mutates-route (handed call sending true) route known ∙ h) refl;
    })
    | inr free ↦ inl (rw (h, free) refl)
  ]

  facts-admit_attempt :
      (call : Call) (route : Route) (w : Line (Logged N))
      → facts base (admit_attempt (recorded base) call route w).1 ≡ facts base w
  unfolding admit_attempt
  facts-admit_attempt call route w =
      elim (Result-cases
        (take ((recorded base).ticks w.net) route (call.priority || is_management call.permit)
          w.transport.quota).0) [
            | inr (e, full) ↦ rw full refl
            | inl (t, admitted) ↦ elim (Bool-cases w.transport.preflight_only) [
              | inl watched ↦ rw (admitted, watched) refl
              | inr free ↦ rw (admitted, free) refl
            ]
          ]

  pub bind_facts :
      {A B : Type 0} (m : Exec (Line (Logged N)) A) (f : A → Exec (Line (Logged N)) B)
      → ((a : A) (w : Line (Logged N)) → facts base (f a w).1 ≡ facts base w)
      → (w : Line (Logged N)) → facts base ((m >>= f) w).1 ≡ facts base (m w).1
  bind_facts m f same w = elim (Result-cases (m w).0) [
    | inl (a, done) ↦ rw done (same a (m w).1)
    | inr (e, raised) ↦ rw raised refl
  ]

  -- One attempt of a request that is no mutation, and one of a mutation.
  attempt_once_read :
      (call : Call) (route : Route) (sending : Prepared) (attempt : ℕ) (w : Line (Logged N))
      → allowed_route call.method call.path call.params ≡ ok route
      → route.mutation ≡ false
      → facts base (attempt_once (recorded base) call route sending attempt w).1 ≡ facts base w
  unfolding attempt_once
  attempt_once_read call route sending attempt w known h =
      let w1 = (admit_attempt (recorded base) call route w).1 in
      let admission = facts-admit_attempt call route w in
      elim (Result-cases (admit_attempt (recorded base) call route w).0) [
        | inr (e, refused) ↦ rw refused admission
        | inl (t, admitted) ↦ rw admitted (
            bind_facts (dispatch (recorded base) call route sending)
              (after_dispatch (recorded base) call route attempt)
              (facts-after_dispatch call route attempt) w1
            ∙ dispatch_read call route sending w1 known h
            ∙ admission)
      ]

  attempt_once_mutation :
      (call : Call) (route : Route) (sending : Prepared) (attempt : ℕ) (w : Line (Logged N))
      → allowed_route call.method call.path call.params ≡ ok route
      → route.mutation ≡ true
      → (facts base (attempt_once (recorded base) call route sending attempt w).1 ≡ facts base w)
        ⊎ Sent base call w (attempt_once (recorded base) call route sending attempt w).1
  unfolding attempt_once
  attempt_once_mutation call route sending attempt w known h =
      let w1 = (admit_attempt (recorded base) call route w).1 in
      let admission = facts-admit_attempt call route w in
      elim (Result-cases (admit_attempt (recorded base) call route w).0) [
        | inr (e, refused) ↦ inl (rw refused admission)
        | inl (t, admitted) ↦
            let answered =
              bind_facts (dispatch (recorded base) call route sending)
                (after_dispatch (recorded base) call route attempt)
                (facts-after_dispatch call route attempt) w1 in
            elim (dispatch_mutation call route sending w1 known h) [
              | inl kept ↦ inl (rw admitted (answered ∙ kept ∙ admission))
              | inr more ↦
                  inr (Sent-moved base call w w1 _ _ admission (rw admitted (sym answered)) more)
            ]
      ]

  pub send_loop_read :
      (call : Call) (route : Route) (sending : Prepared) (attempts : List ℕ) (w : Line (Logged N))
      → allowed_route call.method call.path call.params ≡ ok route
      → route.mutation ≡ false
      → facts base (send_loop (recorded base) call route sending attempts w).1 ≡ facts base w
  unfolding send_loop
  send_loop_read call route sending [] w known h = refl
  send_loop_read call route sending (attempt ∷ later) w known h =
      let first = attempt_once_read call route sending attempt w known h in
      elim (Result-cases (attempt_once (recorded base) call route sending attempt w).0) [
        | inr (e, failed) ↦ rw failed first
        | inl (again, retried) ↦
            rw retried (send_loop_read call route sending later _ known h ∙ first)
        | inl (received fields, done) ↦ rw done first
      ]

  send_loop_single :
      (call : Call) (route : Route) (sending : Prepared) (w : Line (Logged N))
      → allowed_route call.method call.path call.params ≡ ok route
      → route.mutation ≡ true
      → (facts base (send_loop (recorded base) call route sending (0 ∷ []) w).1 ≡ facts base w)
        ⊎ Sent base call w (send_loop (recorded base) call route sending (0 ∷ []) w).1
  unfolding send_loop
  send_loop_single call route sending w known h =
      let first = attempt_once_mutation call route sending 0 w known h in
      elim (Result-cases (attempt_once (recorded base) call route sending 0 w).0) [
        | inr (e, failed) ↦ rw failed first
        | inl (again, retried) ↦ rw retried first
        | inl (received fields, done) ↦ rw done first
      ]

  single_attempt : (route : Route) → route.mutation ≡ true → attempts_of route ≡ 0 ∷ []
  single_attempt route h = ground arith

  pub send_loop_mutation :
      (call : Call) (route : Route) (sending : Prepared) (w : Line (Logged N))
      → allowed_route call.method call.path call.params ≡ ok route
      → route.mutation ≡ true
      → (facts base (send_loop (recorded base) call route sending (attempts_of route) w).1
          ≡ facts base w)
        ⊎ Sent base call w (send_loop (recorded base) call route sending (attempts_of route) w).1
  send_loop_mutation call route sending w known h =
      subst
        (λ l.
          (facts base (send_loop (recorded base) call route sending l w).1 ≡ facts base w)
          ⊎ Sent base call w (send_loop (recorded base) call route sending l w).1)
        (sym (single_attempt route h)) (send_loop_single call route sending w known h)
