-- ===== src/Transport/Payload.antt =====
-- `_json_bytes` of brokers/transport.py: the text of a document, with finite decimals only.
use Prim.Native.String.{◌++◌ as append}
use bot_trading.Prelude.{String, Bool, true, false, str_eq, if◌then◌else◌}
use bot_trading.Prelude.Int.{ℤ}
use bot_trading.Decimal.{Decimals, Decimal}
use bot_trading.Exec.{Result, ok, err}
use bot_trading.Exec.Results.{◌>>=◌}
use bot_trading.Authorization.{blocked}
use bot_trading.Transport.Json.{
  Json, Elements, Fields, null, boolean, integer, decimal, text, array, object, empty, element,
  no_field, field,
}

module _ ⦃dec : Decimals⦄ where
  -- `json.dumps` of a text and of a number, and `format(value, "f")`.
  pub record Printers : Type 0 where
    pub dumps : String → String
    pub dumps_number : ℤ → String
    pub plain : Decimal → String

module _ ⦃dec : Decimals⦄ (print : Printers) where
  abbrev joined : String → String → String
  joined first rest = if str_eq rest "" then first else append first (append "," rest)

  abbrev boolean_text : Bool → String
  boolean_text true = "true"
  boolean_text false = "false"

  abbrev enclosed : String → Result String → String → Result String
  enclosed before inner after = inner >>= λ t. ok (append before (append t after))

  unfoldable mutual
    pub json_bytes : Json → Result String
    json_bytes null = ok "null"
    json_bytes (boolean b) = ok (boolean_text b)
    json_bytes (integer n) = ok (print.dumps_number n)
    json_bytes (decimal d) =
        if dec.is_finite d then ok (print.plain d) else err (blocked "NONFINITE_PAYLOAD")
    json_bytes (text t) = ok (print.dumps t)
    json_bytes (array l) = enclosed "[" (elements_bytes l) "]"
    json_bytes (object f) = enclosed "{" (fields_bytes f) "}"

    pub elements_bytes : Elements → Result String
    elements_bytes empty = ok ""
    elements_bytes (element x l) = do
      first ← json_bytes x
      rest ← elements_bytes l
      ok (joined first rest)

    pub fields_bytes : Fields → Result String
    fields_bytes no_field = ok ""
    fields_bytes (field key x f) = do
      first ← json_bytes x
      rest ← fields_bytes f
      ok (joined (append (print.dumps key) (append ":" first)) rest)
