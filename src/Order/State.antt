-- ===== src/Order/State.antt =====
-- `OrderState`, `ACTIVE_STATES`, `TRANSITIONS` and `validate_transition` of execution/models.py.
use bot_trading.Prelude.{ℕ, ◌==◌, Bool, not, ◌&&◌, List, [], ◌∷◌, any, String, if◌then◌else◌}
use bot_trading.Exec.{Result, ok, err, lifecycle_error}

pub data OrderState : Type 0 where
  created approved submitting acknowledged partially_filled filled : OrderState
  cancel_pending cancelled rejected expired unknown : OrderState

-- A number for each state, by which states are compared, and its text.
abbrev pub tag : OrderState → ℕ
tag created = 0
tag approved = 1
tag submitting = 2
tag acknowledged = 3
tag partially_filled = 4
tag filled = 5
tag cancel_pending = 6
tag cancelled = 7
tag rejected = 8
tag expired = 9
tag unknown = 10

abbrev pub state_eq : OrderState → OrderState → Bool
state_eq s t = tag s == tag t

-- `state in states`.
abbrev pub state_in : OrderState → List OrderState → Bool
state_in s = any (state_eq s)

abbrev pub active_states : List OrderState
active_states =
    created ∷ approved ∷ submitting ∷ acknowledged ∷ partially_filled ∷ cancel_pending ∷ unknown
    ∷ []

abbrev pub is_active : OrderState → Bool
is_active s = state_in s active_states

unfoldable pub transitions : OrderState → List OrderState
transitions created = approved ∷ rejected ∷ expired ∷ []
transitions approved = submitting ∷ expired ∷ cancelled ∷ rejected ∷ []
transitions submitting =
    acknowledged ∷ partially_filled ∷ filled ∷ rejected ∷ unknown ∷ cancel_pending ∷ []
transitions acknowledged =
    partially_filled ∷ filled ∷ cancel_pending ∷ cancelled ∷ rejected ∷ expired ∷ unknown ∷ []
transitions partially_filled = filled ∷ cancel_pending ∷ cancelled ∷ expired ∷ unknown ∷ []
transitions cancel_pending = cancelled ∷ partially_filled ∷ filled ∷ unknown ∷ acknowledged ∷ []
transitions unknown =
    acknowledged ∷ partially_filled ∷ filled ∷ cancel_pending ∷ cancelled ∷ rejected ∷ expired ∷ []
transitions cancelled = partially_filled ∷ filled ∷ []
transitions expired = partially_filled ∷ filled ∷ []
transitions rejected = []
transitions filled = []

unfoldable pub validate_transition : OrderState → OrderState → Result (Unit {0})
unfolding transitions
validate_transition old new =
    if not (state_eq new old) && not (state_in new (transitions old))
    then err (lifecycle_error "Invalid order transition")
    else ok tt

abbrev pub state_name : OrderState → String
state_name created = "CREATED"
state_name approved = "APPROVED"
state_name submitting = "SUBMITTING"
state_name acknowledged = "ACKNOWLEDGED"
state_name partially_filled = "PARTIALLY_FILLED"
state_name filled = "FILLED"
state_name cancel_pending = "CANCEL_PENDING"
state_name cancelled = "CANCELLED"
state_name rejected = "REJECTED"
state_name expired = "EXPIRED"
state_name unknown = "UNKNOWN"
