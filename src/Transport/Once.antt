-- ===== src/Transport/Once.antt =====
-- A request sends at most one mutation, and only past its guards.
use bot_trading.Prelude.{
  ◌≡◌, refl, ◌∙◌, Bool, true, false, not, Option, none, some, str_eq, is_some, inl, inr,
  Option-cases, arith,
}
use bot_trading.Decimal.{Decimals}
use bot_trading.Exec.{
  Exn, lifecycle_error, value_error, key_error, runtime_error, rejected_before_send,
  integrity_error, assertion_error, other_error, ok, Exec, pure, raise, raise_if, when, lift, catch,
  ◌>>=◌, Result-cases,
}
use bot_trading.Authorization.{
  MutationPermit, PreflightEvidence, Authorization, check, invalidate, blocked,
}
use bot_trading.Transport.Routes.{Route}
use bot_trading.Transport.Request.{
  Network, Line, Call, require_contract_transport, check_permit, on_authorization,
}
use bot_trading.Transport.Guards.{
  weigh_evidence, require_authorization, mutation_permit, guard_mutation, verify_mutation_identity,
  verify_permit, verify_steps, invalidated, preview, reference_of, payload_of, prepare_late,
  prepare,
}
use bot_trading.Transport.Recording.{Logged, recorded, facts}
use bot_trading.Transport.Mutations.{bind_facts}

module _ ⦃dec : Decimals⦄ {N : Type 0} (base : Network N) where
  abbrev pub Silent : {A : Type 0} → Exec (Line (Logged N)) A → Type 0
  Silent m = (w : Line (Logged N)) → facts base (m w).1 ≡ facts base w

  on_authorization_facts :
      {A : Type 0} (m : Exec Authorization A) → Silent (on_authorization (recorded base) m)
  on_authorization_facts m w = elim (Option-cases w.transport.authorization) [
    | inl missing ↦ rw missing refl
    | inr (a, held) ↦ rw held refl
  ]

  check_permit_facts : (p : MutationPermit) → Silent (check_permit (recorded base) p)
  check_permit_facts p w =
      on_authorization_facts
        (check p w.transport.session_id w.transport.config_hash w.transport.fingerprint
          ((recorded base).now w.net) ((recorded base).fresh_uuid w.net))
        w

  raise_if_facts : (t : Bool) (e : Exn) → Silent (raise_if t e)
  raise_if_facts true e w = refl
  raise_if_facts false e w = refl

  pub bind-Silent :
      {A B : Type 0} (m : Exec (Line (Logged N)) A) (f : A → Exec (Line (Logged N)) B)
      → Silent m
      → ((a : A) → Silent (f a))
      → Silent (m >>= f)
  bind-Silent m f hm hf w = bind_facts base m f hf w ∙ hm w

  catch-Silent :
      {A : Type 0} (m : Exec (Line (Logged N)) A) (handler : Exn → Exec (Line (Logged N)) A)
      → Silent m
      → ((e : Exn) → Silent (handler e))
      → Silent (catch m handler)
  catch-Silent m handler hm hh w = elim (Result-cases (m w).0) [
    | inl (a, done) ↦ rw done (hm w)
    | inr (e, failed) ↦ rw failed (hh e (m w).1 ∙ hm w)
  ]

  pub when-Silent :
      (t : Bool) (m : Exec (Line (Logged N)) (Unit {0})) → Silent m → Silent (when t m)
  when-Silent true m h = h
  when-Silent false m h = λ w. refl

  invalidated_facts : (e : Exn) → Silent (invalidated (recorded base) e)
  invalidated_facts (runtime_error reason) w =
      bind-Silent (on_authorization (recorded base) (invalidate ((recorded base).fresh_uuid w.net)))
        (λ _. raise (runtime_error reason))
        (on_authorization_facts (invalidate ((recorded base).fresh_uuid w.net))) (λ _ v. refl) w
  invalidated_facts (lifecycle_error m) w = refl
  invalidated_facts (value_error m) w = refl
  invalidated_facts (key_error m) w = refl
  invalidated_facts (rejected_before_send m) w = refl
  invalidated_facts integrity_error w = refl
  invalidated_facts assertion_error w = refl
  invalidated_facts other_error w = refl

  pub guard_mutation_facts :
      (call : Call) (route : Route) → Silent (guard_mutation (recorded base) call route)
  unfolding guard_mutation
  guard_mutation_facts call route w =
      elim (Result-cases
        (mutation_permit (recorded base) call route ((recorded base).is_ci w.net) w.transport)) [
          | inr (e, refused) ↦ rw refused refl
          | inl (p, given) ↦ rw given (
              bind-Silent (check_permit (recorded base) p)
                (λ _.
                  raise_if (not (is_some call.request_id))
                    (blocked "PERSISTED_REQUEST_ID_REQUIRED"))
                (check_permit_facts p)
                (λ _.
                  raise_if_facts (not (is_some call.request_id))
                    (blocked "PERSISTED_REQUEST_ID_REQUIRED"))
                w)
        ]

  -- Past the first guards of a mutation there is a permit, and the mode is the Demo mode.
  pub guard_mutation_mode :
      (call : Call) (route : Route) (w : Line (Logged N))
      → (guard_mutation (recorded base) call route w).0 ≡ ok tt
      → (str_eq w.transport.mode "etoro_demo" ≡ true) × (is_some call.permit ≡ true)
  unfolding guard_mutation mutation_permit
  guard_mutation_mode call route w h = ground arith

  -- What is asked of the evidence, where reading it sends no mutation.
  module _ (observe : Exec (Line (Logged N)) PreflightEvidence) (silent : Silent observe) where
    verify_steps_facts : (p : MutationPermit) → Silent (verify_steps (recorded base) observe p)
    verify_steps_facts p =
        bind-Silent (check_permit (recorded base) p) _ (check_permit_facts p) (λ _.
          bind-Silent observe _ silent (λ evidence.
            bind-Silent (weigh_evidence (recorded base) evidence)
              (λ _. check_permit (recorded base) p) (λ w. refl) (λ _. check_permit_facts p)))

    verify_mutation_identity_facts :
        (p : MutationPermit) → Silent (verify_mutation_identity (recorded base) observe p)
    unfolding verify_mutation_identity
    verify_mutation_identity_facts p =
        bind-Silent (require_contract_transport (recorded base))
          (λ _ w.
            (require_authorization (recorded base) >>= λ _.
            catch (verify_steps (recorded base) observe p) (invalidated (recorded base)))
              w)
          (λ w. raise_if_facts (not w.transport.is_contract) _ w)
          (λ _.
            bind-Silent (require_authorization (recorded base))
              (λ _. catch (verify_steps (recorded base) observe p) (invalidated (recorded base)))
              (λ w. raise_if_facts (not (is_some w.transport.authorization)) _ w)
              (λ _.
                catch-Silent (verify_steps (recorded base) observe p) (invalidated (recorded base))
                  (verify_steps_facts p) invalidated_facts))

    verify_permit_facts :
        (p : Option MutationPermit) → Silent (verify_permit (recorded base) observe p)
    verify_permit_facts none = λ w. refl
    verify_permit_facts (some p) = verify_mutation_identity_facts p

    pub preview_facts : (call : Call) → Silent (preview (recorded base) observe call)
    preview_facts call =
        bind-Silent (raise_if _ _) _ (raise_if_facts _ _)
          (λ _. bind-Silent observe (λ _. pure tt) silent (λ _ w. refl))

    prepare_late_facts :
        (call : Call) (route : Route) → Silent (prepare_late (recorded base) observe call route)
    unfolding prepare_late
    prepare_late_facts call route =
        bind-Silent (reference_of (recorded base) call) _ (λ w. refl)
          (λ reference. bind-Silent (raise_if _ _) _ (raise_if_facts _ _) (λ _.
            bind-Silent (lift (payload_of (recorded base) call.body)) _ (λ w. refl)
              (λ payload.
                bind-Silent
                  (when route.mutation (verify_permit (recorded base) observe call.permit)) _
                  (when-Silent route.mutation _ (verify_permit_facts call.permit))
                  (λ _.
                    bind-Silent (when _ (require_contract_transport (recorded base)))
                      (λ _. pure (record { reference = reference; payload = payload }))
                      (when-Silent _ (require_contract_transport (recorded base))
                        (λ w. raise_if_facts (not w.transport.is_contract) _ w))
                      (λ _ w. refl)))))

    pub prepare_facts :
        (call : Call) (route : Route) → Silent (prepare (recorded base) observe call route)
    unfolding prepare
    prepare_facts call route =
        bind-Silent (when call.demo_preview (preview (recorded base) observe call)) _
          (when-Silent call.demo_preview _ (preview_facts call))
          (λ _. bind-Silent (raise_if _ _) _ (raise_if_facts _ _) (λ _.
            bind-Silent (when route.mutation (guard_mutation (recorded base) call route)) _
              (when-Silent route.mutation _ (guard_mutation_facts call route))
              (λ _. prepare_late_facts call route)))
