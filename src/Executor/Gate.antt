-- ===== src/Executor/Gate.antt =====
-- What stands between a request and the broker in `submit_entry`.
use bot_trading.Prelude.{
  String, ◌≡◌, Bool, true, false, Option, none, some, find_row, ◌≢◌, ◌⊎◌, inl, inr, Bool-cases,
  Option-cases, eq_iff, arith,
}
use bot_trading.Decimal.{Decimals}
use bot_trading.Risk.Types.{EntryRequest, RiskDecision, RiskPortfolio, refusal}
use bot_trading.Risk.Engine.{assess}
use bot_trading.Exec.{Exec, rejected_before_send, Result, ok, err, Result-cases}
use bot_trading.Order.Types.{Mode, mode_eq, OrderIntent}
use bot_trading.Store.Tables.{Store}
use bot_trading.Store.Access.{audit, intents, session, set_meta}
use bot_trading.Store.Intents.{
  uniqueness_key, register, check_close, claim, claim_keyed, create_intent,
}
use bot_trading.Store.Portfolio.{portfolio}
use bot_trading.Store.Frame.{position_same}
use bot_trading.Executor.World.{PreparedSubmission, Shared, Executor, World, require_started}
use bot_trading.Executor.Orders.{validated}
use bot_trading.Executor.Entry.{
  SubmissionResult, same_entry, entry_intent, send_entry, prepared_entry, after_prepare,
  prepare_entry, submit_approved, submit_decided, submit_assessed, submit_new, submit_entry,
}

module _ ⦃dec : Decimals⦄ {B : Type 0} (x : Executor B) where
  send_entry_decision :
      (i : OrderIntent) (r : EntryRequest) (d : RiskDecision) (p : Option _) (w w' : World B)
      {res : SubmissionResult}
      → send_entry x i r d p w ≡ (ok res, w')
      → res.decision ≡ d
  unfolding send_entry
  send_entry_decision i r d p w w' h = ground arith

  prepared_entry_decision :
      (i : OrderIntent) (r : EntryRequest) (d : RiskDecision) (p : PreparedSubmission B)
      (w w' : World B) {res : SubmissionResult}
      → prepared_entry x i r d p w ≡ (ok res, w')
      → res.decision ≡ d
  unfolding prepared_entry set_meta audit
  prepared_entry_decision i r d p w w' {res} h =
      send_entry_decision i r d (some p) _ w' {res = res} h

  after_prepare_decision :
      (i : OrderIntent) (r : EntryRequest) (d : RiskDecision) (p : Result (PreparedSubmission B))
      (w w' : World B) {res : SubmissionResult}
      → after_prepare x i r d p w ≡ (ok res, w')
      → res.decision ≡ d
  unfolding after_prepare
  after_prepare_decision i r d (ok p) w w' {res} h =
      prepared_entry_decision i r d p w w' {res = res} h
  after_prepare_decision i r d (err (rejected_before_send text)) w w' h = ground arith
  after_prepare_decision i r d (err e) w w' h = ground arith

  prepare_entry_decision :
      (i : OrderIntent) (r : EntryRequest) (d : RiskDecision)
      (p : Option (OrderIntent → Exec (Shared B) (PreparedSubmission B))) (w w' : World B)
      {res : SubmissionResult}
      → prepare_entry x i r d p w ≡ (ok res, w')
      → res.decision ≡ d
  unfolding prepare_entry
  prepare_entry_decision i r d none w w' {res} h = send_entry_decision i r d none w w' {res = res} h
  prepare_entry_decision i r d (some prepare) w w' {res} h =
      after_prepare_decision i r d _ _ w' {res = res} h

module _ ⦃dec : Decimals⦄ where
  check_close_same : (i : OrderIntent) (key : String) (s : Store) → (check_close i key s).1 ≡ s
  unfolding check_close
  check_close_same i key s = ground (arith, position_same key s)

  register_fresh :
      (i : OrderIntent) (key : String) (s : Store) {k : OrderIntent} {fresh : Bool}
      → (register i key s).0 ≡ ok (k, fresh)
      → fresh ≡ true
  unfolding register
  register_fresh i key s h = ground arith

  -- An intent that existed before is returned, and nothing is written.
  claim_stale :
      (i : OrderIntent) (key : String) (s s' : Store) {k : OrderIntent}
      → claim i key s ≡ (ok (k, false), s')
      → s' ≡ s
  unfolding claim
  claim_stale i key s s' {k} h =
      ground (arith, check_close_same i key s, register_fresh i key s {k = k} {fresh = false})

  claim_keyed_stale :
      (i : OrderIntent) (key : Option String) (s s' : Store) {k : OrderIntent}
      → claim_keyed i key s ≡ (ok (k, false), s')
      → s' ≡ s
  unfolding claim_keyed
  claim_keyed_stale i none s s' h = ground arith
  claim_keyed_stale i (some key) s s' {k} h = elim (Result-cases (claim i key s).0) [
    | inl (kept, e) ↦ ground (arith, claim_stale i key s (claim i key s).1 {k = k})
    | inr (e, failed) ↦ ground arith
  ]

  create_intent_stale :
      (i : OrderIntent) (s s' : Store) {k : OrderIntent}
      → create_intent i s ≡ (ok (k, false), s')
      → s' ≡ s
  unfolding create_intent
  create_intent_stale i s s' {k} h =
      ground (arith, claim_keyed_stale i (uniqueness_key i) s s' {k = k})

module _ ⦃dec : Decimals⦄ {B : Type 0} (x : Executor B) where
  -- The result of a request without anything being sent: the store's audit may have grown.
  pub record IsRefused (w w' : World B) : Type 0 where
    pub outside_same : w'.outside ≡ w.outside
    pub intents_same : w'.store.intents ≡ w.store.intents
    pub reservations_same : w'.store.reservations ≡ w.store.reservations
    pub positions_same : w'.store.positions ≡ w.store.positions
    pub sessions_same : w'.store.sessions ≡ w.store.sessions
    pub fills_same : w'.store.fills ≡ w.store.fills

  validated_same : (i : OrderIntent) (w : World B) → (validated x i w).1 ≡ w
  unfolding validated
  validated_same i w = ground arith

  submit_approved_cases :
      (r : EntryRequest) (d : RiskDecision) (w w' : World B) {res : SubmissionResult}
      → submit_approved x r d w ≡ (ok res, w')
      → (res.decision ≡ d) ⊎ ((res.decision ≡ refusal "DUPLICATE_INTENT") × (w' ≡ w))
  unfolding submit_approved
  submit_approved_cases r d w w' {res} h =
      let built = entry_intent x w.store.mode r d in
      elim (Result-cases (validated x built w).0) [
        | inr (e, failed) ↦ absurd (ground arith)
        | inl (i, valid) ↦ elim (Result-cases (create_intent i w.store).0) [
          | inr (e, failed) ↦ absurd (ground (arith, validated_same built w))
          | inl ((kept, false), e) ↦ ground (
            arith,
            validated_same built w,
            create_intent_stale i w.store (create_intent i w.store).1 {k = kept},
          )
          | inl ((kept, true), e) ↦ inl (
              prepare_entry_decision x kept r d x.broker.prepare
                (record w { store = (create_intent i w.store).1 }) w' {res = res}
                (ground (arith, validated_same built w)))
        ]
      ]

  IsRefused-refl : (w : World B) → IsRefused w w
  IsRefused-refl w = ground arith

  submit_decided_cases :
      (r : EntryRequest) (d : RiskDecision) (w w' : World B) {res : SubmissionResult}
      → submit_decided x r d w ≡ (ok res, w')
      → ((res.decision ≡ d) × (d.approved ≡ true))
        ⊎ ((res.decision.approved ≡ false) × IsRefused w w')
  unfolding submit_decided audit intents
  submit_decided_cases r d w w' {res} h = elim (Bool-cases d.approved) [
    | inl granted ↦ ground (arith, submit_approved_cases r d w w' {res = res}, IsRefused-refl w)
    | inr denied ↦ ground arith
  ]

  portfolio_same : (sid : String) (s : Store) → (portfolio sid s).1 ≡ s
  unfolding portfolio session
  portfolio_same sid s = ground arith

  -- The decision rests on the account that the store shows before the request.
  pub record IsJudged (r : EntryRequest) (d : RiskDecision) (w : World B) : Type 0 where
    pub account : RiskPortfolio
    pub read : portfolio x.session_id w.store ≡ (ok account, w.store)
    pub decided : d ≡ assess x.risk r account
    pub passed : d.approved ≡ true

  submit_assessed_cases :
      (r : EntryRequest) (w w' : World B) {res : SubmissionResult}
      → submit_assessed x r w ≡ (ok res, w')
      → IsJudged r res.decision w ⊎ ((res.decision.approved ≡ false) × IsRefused w w')
  unfolding submit_assessed
  submit_assessed_cases r w w' {res} h = elim (Result-cases (portfolio x.session_id w.store).0) [
    | inr (e, failed) ↦ absurd (ground arith)
    | inl (account, e) ↦
        let d = assess x.risk r account in
        elim (submit_decided_cases r d w w' {res = res}
          (ground (arith, portfolio_same x.session_id w.store))) [
            | inr refused ↦ inr refused
            | inl (same, granted) ↦ inl (record {
              account = account;
              read = ground (arith, portfolio_same x.session_id w.store);
              decided = same;
              passed = ground arith;
            })
          ]
  ]

  submit_new_cases :
      (r : EntryRequest) (w w' : World B) {res : SubmissionResult}
      → submit_new x r w ≡ (ok res, w')
      → ((w.store.mode ≢ Mode.shadow) × IsJudged r res.decision w)
        ⊎ ((res.decision.approved ≡ false) × IsRefused w w')
  unfolding submit_new
  submit_new_cases r w w' {res} h = elim (Bool-cases (mode_eq w.store.mode Mode.shadow)) [
    | inl shadowed ↦ ground (arith, IsRefused-refl w)
    | inr live ↦ elim (submit_assessed_cases r w w' {res = res} (ground arith)) [
      | inl judged ↦ inl (λ e. ground arith, judged)
      | inr refused ↦ inr refused
    ]
  ]

  -- A request that `submit_entry` answers was made on a started executor that holds the lock, for
  -- its own session. Either its decision is approved, and then the mode is not shadow, no entry of
  -- the strategy, version, session and symbol existed before, and the decision is the one the risk
  -- engine draws from the account in the store; or it is not approved, and then neither the
  -- broker's own state nor the intents, reservations, positions, sessions and fills have changed.
  pub submit_entry_gated :
      (r : EntryRequest) (w w' : World B) {res : SubmissionResult}
      → submit_entry x r w ≡ (ok res, w')
      → (w.started ≡ true)
        × (w.lock_handle ≡ true)
        × (r.session_id ≡ x.session_id)
        × (((w.store.mode ≢ Mode.shadow)
              × (find_row (same_entry r) (intents w.store) ≡ none)
              × IsJudged r res.decision w)
            ⊎ ((res.decision.approved ≡ false) × IsRefused w w'))
  unfolding submit_entry require_started
  submit_entry_gated r w w' {res} h =
      let held : r.session_id ≡ x.session_id = ground (arith, eq_iff r.session_id x.session_id) in
      elim (Option-cases (find_row (same_entry r) (intents w.store))) [
        | inr (old, found) ↦
            (ground arith, ground arith, held, inr (ground (arith, IsRefused-refl w)))
        | inl fresh ↦ (
          ground arith,
          ground arith,
          held,
          elim (submit_new_cases r w w' {res = res} (ground arith)) [
            | inl (live, judged) ↦ inl (live, fresh, judged)
            | inr refused ↦ inr refused
          ],
        )
      ]
