-- ===== src/Transport/Identity.antt =====
-- brokers/identity.py: what an identity document shows of the account, and the cash of a portfolio.
use bot_trading.Prelude.{
  String, ◌+◌, Bool, true, false, not, ◌&&◌, ◌||◌, Option, none, some, List, [], ◌∷◌, all, any,
  str_eq, if◌then◌else◌,
}
use bot_trading.Prelude.Int.{ℤ, pos, negsuc, leb_ℤ}
use bot_trading.Decimal.{Decimals, Decimal, ◌=D◌, neg_D, of_ℕ}
use bot_trading.Exec.{Result, ok, err}
use bot_trading.Authorization.{blocked}
use bot_trading.Transport.Text.{contains, split, is_name, mentions_real}
use bot_trading.Transport.Json.{Json, Fields, boolean, integer, decimal, text, array, get, elements}

pub data AccountType : Type 0 where
  demo_account real_account unknown_account : AccountType

pub record ObservedIdentity : Type 0 where
  pub account_type : AccountType
  pub reason : String
  pub account_id : Option ℤ
  pub scopes : List String

abbrev pub same_ℤ : ℤ → ℤ → Bool
same_ℤ a b = leb_ℤ a b && leb_ℤ b a

abbrev pub demo_scopes : List String
demo_scopes =
    "etoro-public:demo:read" ∷ "etoro-public:demo:write" ∷ "etoro-public:trade.demo:read"
    ∷ "etoro-public:trade.demo:write" ∷ []

abbrev pub real_scopes : List String
real_scopes =
    "etoro-public:real:read" ∷ "etoro-public:real:write" ∷ "etoro-public:trade.real:read"
    ∷ "etoro-public:trade.real:write" ∷ []

-- Two sets meet.
abbrev pub meets : List String → List String → Bool
meets a b = any (λ s. any (str_eq s) b) a

abbrev is_scope : List String → Bool
is_scope (owner ∷ name ∷ access ∷ []) =
    str_eq owner "etoro-public" && is_name name && (str_eq access "read" || str_eq access "write")
is_scope _ = false

-- The regular expression of a scope.
abbrev pub well_formed : String → Bool
well_formed s = is_scope (split 58 s)

module _ ⦃dec : Decimals⦄ where
  abbrev pub of_ℤ : ℤ → Decimal
  of_ℤ (pos n) = of_ℕ n
  of_ℤ (negsuc n) = neg_D (of_ℕ (n + 1))

  -- `value == account`, where Python compares numbers and truth values.
  abbrev equals : ℤ → Option Json → Bool
  equals account (some (integer n)) = same_ℤ n account
  equals account (some (decimal d)) = d =D of_ℤ account
  equals account (some (boolean b)) = same_ℤ (if b then pos 1 else pos 0) account
  equals account _ = false

  -- `"realCid" in identity and (type is not int or it is negative)`
  abbrev malformed : Option Json → Bool
  malformed none = false
  malformed (some (integer n)) = not (leb_ℤ (pos 0) n)
  malformed (some _) = true

  abbrev texts : List Json → Option (List String)
  texts [] = some []
  texts (text s ∷ l) = elim (texts l) [ none ↦ none | some r ↦ some (s ∷ r) ]
  texts (_ ∷ l) = none

  abbrev scope_reason : List String → String
  scope_reason [] = "DEMO_SCOPE_UNVERIFIED_FOR_KEYS"
  scope_reason scopes =
      if any (λ s. mentions_real s || contains s "*") scopes
      then "NON_DEMO_SCOPE_DETECTED"
      else (if not (all well_formed scopes)
          then "DEMO_SCOPE_UNVERIFIED_FOR_KEYS"
          else (if meets scopes demo_scopes then "" else "DEMO_SCOPE_INSUFFICIENT"))

  -- The reason against an account with these scopes; the empty text is none.
  unfoldable pub identity_reason : ℤ → Option Json → Option (List String) → String
  identity_reason account real scopes =
      if not (leb_ℤ (pos 1) account)
      then "DEMO_IDENTITY_OR_SCOPES_UNVERIFIED"
      else (if equals account real || malformed real
          then "DEMO_IDENTITY_AMBIGUOUS"
          else elim scopes [ none ↦ "DEMO_SCOPE_UNVERIFIED_FOR_KEYS" | some l ↦ scope_reason l ])

  abbrev is_real : Option Json → Option (List String) → String → Bool
  is_real (some (integer n)) (some scopes) reason =
      leb_ℤ (pos 1) n && meets scopes real_scopes && not (str_eq reason "DEMO_IDENTITY_AMBIGUOUS")
  is_real _ _ reason = false

  abbrev denied : Option Json → Option (List String) → String → ObservedIdentity
  denied real scopes reason = record {
    account_type =
        if is_real real scopes reason
        then AccountType.real_account
        else AccountType.unknown_account;
    reason = reason;
    account_id = none;
    scopes = [];
  }

  abbrev granted : ℤ → List String → ObservedIdentity
  granted account scopes = record {
    account_type = AccountType.demo_account;
    reason = "DEMO_ACCESS_OBSERVED";
    account_id = some account;
    scopes = scopes;
  }

  abbrev classify_listed : ℤ → Option Json → Option (List String) → ObservedIdentity
  classify_listed account real none = denied real none (identity_reason account real none)
  classify_listed account real (some scopes) =
      let reason = identity_reason account real (some scopes) in
      if str_eq reason "" then granted account scopes else denied real (some scopes) reason

  abbrev listed_texts : Option Json → Option (List String)
  listed_texts (some (array l)) = texts (elements l)
  listed_texts _ = none

  abbrev classify_with : Option Json → Option Json → Option Json → ObservedIdentity
  classify_with (some (integer account)) real (some (array l)) =
      classify_listed account real (texts (elements l))
  classify_with _ real scopes =
      denied real (listed_texts scopes) "DEMO_IDENTITY_OR_SCOPES_UNVERIFIED"

  unfoldable pub classify_identity : Fields → ObservedIdentity
  classify_identity identity =
      classify_with (get "demoCid" identity) (get "realCid" identity) (get "scopes" identity)

  abbrev is_demo : AccountType → Bool
  is_demo AccountType.demo_account = true
  is_demo _ = false

  unfoldable pub require_demo : Fields → Result ObservedIdentity
  require_demo identity =
      let observed = classify_identity identity in
      if is_demo observed.account_type then ok observed else err (blocked observed.reason)
