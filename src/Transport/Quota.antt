-- ===== src/Transport/Quota.antt =====
-- `QuotaBudget` of brokers/transport.py. A reading of the monotonic clock is a number of
-- microseconds and an argument.
use bot_trading.Prelude.{
  ℕ, ◌+◌, ◌-◌, String, Bool, none, some, List, [], ◌∷◌, ◌++◌, find_row, upsert, length, ltb, leb,
  str_eq, if◌then◌else◌,
}
use bot_trading.Exec.{Exec, modify, gets, raise_if, ◌>>=◌, ◌>>◌}
use bot_trading.Authorization.{blocked}
use bot_trading.Transport.Routes.{Route}

-- An item of the dictionary of deques.
pub record Pool : Type 0 where
  pub name : String
  pub uses : List ℕ

pub record QuotaBudget : Type 0 where
  pub pools : List Pool
  pub blocked_until : ℕ

abbrev pub minute : ℕ
minute = 60_000_000

-- `self._uses[name]`, of a `defaultdict`.
abbrev pub uses_of : String → QuotaBudget → List ℕ
uses_of name q = elim (find_row (λ (p : Pool). str_eq p.name name) q.pools) [
  | none ↦ []
  | some p ↦ p.uses
]

abbrev pub set_uses : String → List ℕ → QuotaBudget → QuotaBudget
set_uses name uses q = record q {
  pools = upsert (λ (p : Pool). str_eq p.name name) (record { name = name; uses = uses }) q.pools;
}

-- `while uses and uses[0] <= now - 60: uses.popleft()`
abbrev pub expire : ℕ → List ℕ → List ℕ
expire now [] = []
expire now (t ∷ uses) =
    let rest = expire now uses in if leb (t + minute) now then rest else t ∷ uses

abbrev pub limit : Bool → ℕ → ℕ
limit priority maximum = if priority then maximum else maximum - 5

-- One round of the first loop.
unfoldable pub admit : ℕ → Bool → String → ℕ → Exec QuotaBudget (Unit {0})
admit now priority name maximum = do
  modify (λ q. set_uses name (expire now (uses_of name q)) q)
  uses ← gets (uses_of name)
  raise_if (leb (limit priority maximum) (length uses)) (blocked "RATE_LIMIT_RESERVED_CAPACITY")

abbrev pub append_use : ℕ → String → QuotaBudget → QuotaBudget
append_use now name q = set_uses name (uses_of name q ++ now ∷ []) q

unfoldable pub take : ℕ → Route → Bool → Exec QuotaBudget (Unit {0})
take now route priority = do
  until ← gets (λ q. q.blocked_until)
  raise_if (ltb now until) (blocked "RATE_LIMIT_RETRY_AFTER_PENDING")
  admit now priority "_all" 60
  admit now priority route.pool route.quota
  modify (append_use now "_all")
  modify (append_use now route.pool)
