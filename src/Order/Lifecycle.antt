-- ===== src/Order/Lifecycle.antt =====
-- The order lifecycle: which states can follow one another, however long the chain.
use bot_trading.Prelude.{ℕ, ◌<◌, ◌≡◌, refl, ◌⊎◌, ◌≢◌, false, arith}
use bot_trading.Exec.{ok}
use bot_trading.Order.State.{
  OrderState, created, approved, submitting, partially_filled, filled, cancelled, rejected, expired,
  is_active, validate_transition,
}

-- A chain of transitions that `validate_transition` lets through.
pub data Reach (s : OrderState) : OrderState → Type 0 where
  here : Reach s s
  next : {t u : OrderState} → Reach s t → validate_transition t u ≡ ok tt → Reach s u

-- How far an order is from being sent: it was created, approved, handed to the broker, or its
-- fate is the broker's.
abbrev pub phase : OrderState → ℕ
phase created = 0
phase approved = 1
phase submitting = 2
phase _ = 3

-- The same state, a strictly later phase, or both with the broker.
abbrev IsOnce : OrderState → OrderState → Type 0
IsOnce s t = (s ≡ t) ⊎ (phase s < phase t) ⊎ (phase s ≡ 3)

step_final :
    (s t : OrderState) → (s ≡ filled) ⊎ (s ≡ rejected) → validate_transition s t ≡ ok tt → t ≡ s
unfolding validate_transition
step_final s t f h = ground arith

-- A filled order and a rejected one stay what they are.
pub Reach-final : {s t : OrderState} → (s ≡ filled) ⊎ (s ≡ rejected) → Reach s t → t ≡ s
Reach-final f here = refl
Reach-final {s} f (next {t} {u} chain step) =
    let same : t ≡ s = Reach-final f chain in ground (arith, step_final s u f (rw same at step))

-- A transition leaves an inactive state only by a late fill of a cancelled or expired order.
pub inactive_step :
    (s t : OrderState)
    → is_active s ≡ false
    → validate_transition s t ≡ ok tt
    → (t ≡ s) ⊎ (((s ≡ cancelled) ⊎ (s ≡ expired)) × ((t ≡ partially_filled) ⊎ (t ≡ filled)))
unfolding validate_transition
inactive_step s t h v = ground arith

-- Every order that is not rejected can still be filled.
pub Reach-filled : (s : OrderState) → s ≢ rejected → Reach s filled
unfolding validate_transition
Reach-filled created h =
    next {t = submitting} (next {t = approved} (next {t = created} here refl) refl) refl
Reach-filled approved h = next {t = submitting} (next {t = approved} here refl) refl
Reach-filled rejected h = absurd (h refl)
Reach-filled filled h = here
Reach-filled s h = next here refl
