-- ===== src/Authorization/Tests.antt =====
-- An activation and a check at concrete values.
use bot_trading.Prelude.{◌≡◌, refl, ◌≤◌, true, false, none, some, [], ◌∷◌, any, ◌⊎◌}
use bot_trading.Prelude.Int.{pos}
use bot_trading.Decimal.{◌≤D◌, ◌<D◌, zero_D}
use bot_trading.Decimal.Fixed.{fixed, milli}
use bot_trading.Risk.Types.{at_second}
use bot_trading.Exec.{is_ok}
use bot_trading.Domain.{after_seconds}
use bot_trading.Authorization.{
  Purpose, ActivationGates, ready, beyond_demo, PreflightEvidence, Authorization, pause_lease,
  invalidate, permit, activate, check_armed, check,
}
use bot_trading.Authorization.Leases.{
  IsLeased, check-IsLeased, activate_guarded, Idle, unchanged, checked, paused, refused,
  check-invalidate,
}

abbrev pub evidence : PreflightEvidence ⦃dec = fixed⦄
evidence = record {
  account_id = pos 7;
  scopes = "etoro-public:demo:write" ∷ [];
  available_cash = milli 5_000_000;
  verified_at = at_second 990;
  credential_fingerprint = "key";
}

abbrev gates : ActivationGates
gates = record {
  data_verified = true;
  calendar_verified = true;
  risk_verified = true;
  reconciliation_verified = true;
  native_stop_verified = true;
  eligibility_verified = true;
  persistence_verified = true;
}

abbrev idle : Authorization ⦃dec = fixed⦄
idle = record {
  session_id = "day";
  config_hash = "hash";
  nonce = "n0";
  evidence = none;
  entry_expiry = none;
  management_expiry = none;
  budget = milli 0;
}

abbrev pub armed : Authorization ⦃dec = fixed⦄
armed = record idle {
  evidence = some evidence;
  nonce = "n1";
  entry_expiry = some (at_second 1300);
  management_expiry = some (at_second 4600);
  budget = milli 1_000_000;
}

check-IsLeased_example :
    IsLeased (permit Purpose.entry armed) "day" "hash" "key" (at_second 1299) armed
    × (armed ≡ armed)
unfolding check check_armed permit
check-IsLeased_example =
    check-IsLeased (permit Purpose.entry armed) "day" "hash" "key" (at_second 1299) "n2" armed armed
      refl refl

activate_guarded_example :
    ((is_ok
          (activate evidence gates
            (milli 1_000_000)
            true
            true
            (at_second 1000)
            300
            3600
            "n1"
            idle).0
        ≡ false)
      × ((activate evidence gates
            (milli 1_000_000)
            true
            true
            (at_second 1000)
            300
            3600
            "n1"
            idle).1.entry_expiry
          ≡ none))
    ⊎ ((is_ok
            (activate evidence gates
              (milli 1_000_000)
              true
              true
              (at_second 1000)
              300
              3600
              "n1"
              idle).0
          ≡ true)
        × (true ≡ true)
        × (true ≡ true)
        × (ready gates ≡ true)
        × ((zero_D <D milli 1_000_000) ≡ true)
        × ((milli 1_000_000 ≤D evidence.available_cash) ≡ true)
        × (any beyond_demo evidence.scopes ≡ false)
        × (300 ≤ 900)
        × ((activate evidence gates
              (milli 1_000_000)
              true
              true
              (at_second 1000)
              300
              3600
              "n1"
              idle).1.entry_expiry
            ≡ some (after_seconds (at_second 1000) 300)))
activate_guarded_example =
    activate_guarded evidence gates (milli 1_000_000) true true (at_second 1000) 300 3600 "n1" idle

-- After the invalidation: a check that fails, a pause, and an activation that is not confirmed.
abbrev later : Authorization ⦃dec = fixed⦄
later =
    (activate evidence gates (milli 1_000_000) false true (at_second 1000) 300 3600 "n4"
      (pause_lease
        (check (permit Purpose.entry armed) "day" "hash" "key" (at_second 1100) "n3"
          (invalidate "n2" armed).1).1).1).1

abbrev idle_chain : Idle (invalidate "n2" armed).1 later
unfolding activate pause_lease
idle_chain =
    refused evidence gates (milli 1_000_000) false true (at_second 1000) 300 3600 "n4"
      (paused
        (checked (permit Purpose.entry armed) "day" "hash" "key" (at_second 1100) "n3" unchanged))
      refl

check-invalidate_example :
    is_ok (check (permit Purpose.management armed) "day" "hash" "key" (at_second 1200) "n3" later).0
    ≡ false
check-invalidate_example =
    check-invalidate (permit Purpose.management armed) "day" "hash" "key" (at_second 1200) "n2" "n3"
      armed later idle_chain
