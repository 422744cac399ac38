-- ===== src/Transport/Portfolio.antt =====
-- `portfolio_cash` of brokers/identity.py. The decimal of a text is a parameter.
use bot_trading.Prelude.{
  String, Bool, true, false, not, ◌&&◌, Option, none, some, List, [], ◌∷◌, all, if◌then◌else◌,
}
use bot_trading.Prelude.Int.{ℤ}
use bot_trading.Decimal.{Decimals, Decimal, ◌<D◌, zero_D}
use bot_trading.Exec.{Result, ok, err}
use bot_trading.Authorization.{blocked}
use bot_trading.Transport.Json.{Json, Fields, integer, decimal, text, array, object, get, elements}
use bot_trading.Transport.Identity.{of_ℤ, same_ℤ}

module _ ⦃dec : Decimals⦄ (parse_decimal : String → Option Decimal) (account : ℤ) where
  -- `"CID" in row` and it is not the account.
  abbrev is_foreign : Option Json → Bool
  is_foreign none = false
  is_foreign (some (integer n)) = not (same_ℤ n account)
  is_foreign (some _) = true

  abbrev row_is_own : Json → Bool
  row_is_own (object row) = not (is_foreign (get "CID" row))
  row_is_own _ = false

  abbrev rows_are_own : Option Json → Bool
  rows_are_own (some (array rows)) = all row_is_own (elements rows)
  rows_are_own _ = false

  abbrev tables : List String
  tables = "positions" ∷ "orders" ∷ "mirrors" ∷ "ordersForOpen" ∷ "ordersForClose" ∷ []

  -- `Decimal(str(value))`
  abbrev amount : Option Json → Option Decimal
  amount (some (integer n)) = some (of_ℤ n)
  amount (some (decimal d)) = some d
  amount (some (text t)) = parse_decimal t
  amount _ = none

  abbrev is_amount : Decimal → Bool
  is_amount cash = dec.is_finite cash && not (cash <D zero_D)

  abbrev client_cash : Fields → Option Decimal → Result Decimal
  client_cash client none = err (blocked "DEMO_PORTFOLIO_UNVERIFIED")
  client_cash client (some cash) =
      if not (is_foreign (get "CID" client))
        && is_amount cash
        && all (λ name. rows_are_own (get name client)) tables
      then ok cash
      else err (blocked "DEMO_PORTFOLIO_UNVERIFIED")

  abbrev cash_of : Option Json → Result Decimal
  cash_of (some (object client)) = client_cash client (amount (get "credit" client))
  cash_of _ = err (blocked "DEMO_PORTFOLIO_UNVERIFIED")

  unfoldable pub portfolio_cash : Fields → Result Decimal
  portfolio_cash portfolio = cash_of (get "clientPortfolio" portfolio)
