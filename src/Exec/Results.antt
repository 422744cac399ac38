-- ===== src/Exec/Results.antt =====
-- Code that may raise and changes no state: `do` blocks over `Result`.
use bot_trading.Prelude.{Bool, true, false, Option, none, some}
use bot_trading.Exec.{Exn, Result, ok, err}

infixl 5 ◌>>=◌ ◌>>◌
abbrev pub ◌>>=◌ : {A B : Type 0} → Result A → (A → Result B) → Result B
ok a >>= f = f a
err e >>= f = err e

abbrev pub ◌>>◌ : {B : Type 0} → Result (Unit {0}) → Result B → Result B
m >> k = m >>= λ _. k

abbrev pub raise_if : Bool → Exn → Result (Unit {0})
raise_if true e = err e
raise_if false e = ok tt

abbrev pub or_raise : {A : Type 0} → Exn → Option A → Result A
or_raise e none = err e
or_raise e (some a) = ok a
