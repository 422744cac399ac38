-- ===== src/Authorization/Leases.antt =====
-- What a lease allows: who passes `check`, what `activate` asks for, and that a failure revokes.
use bot_trading.Prelude.{
  ℕ, ◌≤◌, ◌<◌, ◌≡◌, refl, String, Bool, true, false, none, some, any, eq_iff, ◌⊎◌, inl, inr,
  Option-cases, arith,
}
use bot_trading.Decimal.{Decimals, Decimal, ◌≤D◌, ◌<D◌, zero_D}
use bot_trading.Risk.Types.{Stamp}
use bot_trading.Exec.{ok, is_ok}
use bot_trading.Domain.{after_seconds}
use bot_trading.Authorization.{
  Purpose, MutationPermit, ActivationGates, ready, beyond_demo, PreflightEvidence, Authorization,
  pause_lease, invalidate, check_evidence, activate, check_armed, check,
}

module _ ⦃dec : Decimals⦄ where
  -- The bindings of an entry permit and its lease, at an instant.
  pub record IsLeased (p : MutationPermit) (session_id config_hash fingerprint : String)
      (now : Stamp) (a : Authorization) : Type 0 where
    pub same_session : session_id ≡ a.session_id
    pub same_hash : config_hash ≡ a.config_hash
    pub same_nonce : p.nonce ≡ a.nonce
    pub evidence : PreflightEvidence
    pub armed : a.evidence ≡ some evidence
    pub same_fingerprint : fingerprint ≡ evidence.credential_fingerprint
    pub expiry : Stamp
    pub lease : a.entry_expiry ≡ some expiry
    pub in_time : now.micros < expiry.micros

  -- A check of an entry permit passes only within the lease: the session, the configuration, the
  -- nonce and the credentials are those of the activation, and the lease has not run out; passing
  -- changes nothing.
  pub check-IsLeased :
      (p : MutationPermit) (session_id config_hash fingerprint : String) (now : Stamp)
      (fresh : String) (a a' : Authorization)
      → p.purpose ≡ Purpose.entry
      → check p session_id config_hash fingerprint now fresh a ≡ (ok tt, a')
      → IsLeased p session_id config_hash fingerprint now a × (a' ≡ a)
  unfolding check check_armed pause_lease invalidate
  check-IsLeased p session_id config_hash fingerprint now fresh a a' k h =
      elim (Option-cases a.evidence) [
        | inl missing ↦ absurd (ground arith)
        | inr (evidence, armed) ↦ elim (Option-cases a.entry_expiry) [
          | inl paused ↦ absurd (ground arith)
          | inr (expiry, lease) ↦ (
            record {
              same_session = ground (arith, eq_iff session_id a.session_id);
              same_hash = ground (arith, eq_iff config_hash a.config_hash);
              same_nonce = ground (arith, eq_iff p.nonce a.nonce);
              evidence = evidence;
              armed = armed;
              same_fingerprint = ground (arith, eq_iff fingerprint evidence.credential_fingerprint);
              expiry = expiry;
              lease = lease;
              in_time = ground arith;
            },
            ground arith,
          )
        ]
      ]

  -- An activation that raises leaves the entries without a lease. One that succeeds was confirmed
  -- and enabled with every gate ready; the budget is positive and no more than the cash that the
  -- broker reported; no scope goes beyond the demo; and the lease runs for at most 15 minutes.
  pub activate_guarded :
      (evidence : PreflightEvidence) (gates : ActivationGates) (budget : Decimal)
      (confirmed enabled : Bool) (now : Stamp) (entry_seconds management_seconds : ℕ)
      (fresh : String) (a : Authorization)
      → (let (r, a') =
            activate evidence gates budget confirmed enabled now entry_seconds management_seconds
              fresh a in
          ((is_ok r ≡ false) × (a'.entry_expiry ≡ none))
          ⊎ ((is_ok r ≡ true)
              × (confirmed ≡ true)
              × (enabled ≡ true)
              × (ready gates ≡ true)
              × ((zero_D <D budget) ≡ true)
              × ((budget ≤D evidence.available_cash) ≡ true)
              × (any beyond_demo evidence.scopes ≡ false)
              × (entry_seconds ≤ 900)
              × (a'.entry_expiry ≡ some (after_seconds now entry_seconds))))
  unfolding activate check_evidence pause_lease
  activate_guarded evidence gates budget confirmed enabled now entry_seconds management_seconds
        fresh a =
      ground arith

  -- What may happen to an authorization without a new activation: checks, also failing ones,
  -- pauses, invalidations, and activations that raise.
  pub data Idle (start : Authorization) : Authorization → Type 0 where
    unchanged : Idle start start
    checked :
        {a : Authorization} (p : MutationPermit) (session_id config_hash fingerprint : String)
        (now : Stamp) (fresh : String)
        → Idle start a
        → Idle start (check p session_id config_hash fingerprint now fresh a).1
    paused : {a : Authorization} → Idle start a → Idle start (pause_lease a).1
    revoked :
        {a : Authorization} (fresh : String) → Idle start a → Idle start (invalidate fresh a).1
    refused :
        {a : Authorization} (evidence : PreflightEvidence) (gates : ActivationGates)
        (budget : Decimal) (confirmed enabled : Bool) (now : Stamp)
        (entry_seconds management_seconds : ℕ) (fresh : String)
        → Idle start a
        → is_ok
            (activate evidence gates budget confirmed enabled now entry_seconds management_seconds
              fresh a).0
          ≡ false
        → Idle start
            (activate evidence gates budget confirmed enabled now entry_seconds management_seconds
              fresh a).1

  evidence-check :
      (p : MutationPermit) (session_id config_hash fingerprint : String) (now : Stamp)
      (fresh : String) (a : Authorization)
      → a.evidence ≡ none
      → (is_ok (check p session_id config_hash fingerprint now fresh a).0 ≡ false)
        × ((check p session_id config_hash fingerprint now fresh a).1.evidence ≡ none)
  unfolding check check_armed pause_lease invalidate
  evidence-check p session_id config_hash fingerprint now fresh a h = ground arith

  evidence-activate :
      (evidence : PreflightEvidence) (gates : ActivationGates) (budget : Decimal)
      (confirmed enabled : Bool) (now : Stamp) (entry_seconds management_seconds : ℕ)
      (fresh : String) (a : Authorization)
      → a.evidence ≡ none
      → is_ok
          (activate evidence gates budget confirmed enabled now entry_seconds management_seconds
            fresh a).0
        ≡ false
      → (activate evidence gates budget confirmed enabled now entry_seconds management_seconds fresh
          a).1.evidence
        ≡ none
  unfolding activate check_evidence pause_lease
  evidence-activate evidence gates budget confirmed enabled now entry_seconds management_seconds
        fresh a h k =
      ground arith

  -- Without evidence at the start there is none until an activation succeeds.
  Idle-evidence :
      {start a : Authorization} → start.evidence ≡ none → Idle start a → a.evidence ≡ none
  unfolding pause_lease invalidate
  Idle-evidence h unchanged = h
  Idle-evidence h (checked {a} p session_id config_hash fingerprint now fresh before) =
      (evidence-check p session_id config_hash fingerprint now fresh a (Idle-evidence h before)).1
  Idle-evidence h (paused before) = Idle-evidence h before
  Idle-evidence h (revoked fresh before) = refl
  Idle-evidence h
        (refused {a} evidence gates budget confirmed enabled now entry_seconds management_seconds
          fresh before raised) =
      evidence-activate evidence gates budget confirmed enabled now entry_seconds management_seconds
        fresh a (Idle-evidence h before) raised

  -- Once the authorization is invalidated, no check passes, for an entry or for management, after
  -- any chain of checks, pauses, invalidations and activations that raise: that is, until an
  -- activation succeeds.
  pub check-invalidate :
      (p : MutationPermit) (session_id config_hash fingerprint : String) (now : Stamp)
      (fresh other : String) (a b : Authorization)
      → Idle (invalidate fresh a).1 b
      → is_ok (check p session_id config_hash fingerprint now other b).0 ≡ false
  unfolding invalidate pause_lease
  check-invalidate p session_id config_hash fingerprint now fresh other a b chain =
      (evidence-check p session_id config_hash fingerprint now other b (Idle-evidence refl chain)).0
