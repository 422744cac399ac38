-- ===== src/Exec.antt =====
-- Methods that change state and may raise, as functions of the state. What was written before a
-- raise stays written, unless a transaction rolls it back.
pub mod Results
use mathlib.Core.Path.{◌≡◌, refl}
use mathlib.Core.Logic.{◌⊎◌, inl, inr}
use bot_trading.Prelude.{String, Bool, true, false, ◌&&◌, Option, none, some, List, [], ◌∷◌}

-- The exceptions of the program, by class and message; `other_error` stands for any further
-- exception of a broker.
pub data Exn : Type 0 where
  lifecycle_error value_error key_error runtime_error : String → Exn
  rejected_before_send : String → Exn
  integrity_error assertion_error other_error : Exn

pub data Result (A : Type 0) : Type 0 where
  ok : A → Result A
  err : Exn → Result A

abbrev pub Exec : Type 0 → Type 0 → Type 0
Exec S A = S → Result A × S

abbrev pub is_ok : {A : Type 0} → Result A → Bool
is_ok (ok _) = true
is_ok (err _) = false

module _ {S A : Type 0} where
  abbrev pub pure : A → Exec S A
  pure a s = (ok a, s)

  abbrev pub raise : Exn → Exec S A
  raise e s = (err e, s)

  abbrev pub gets : (S → A) → Exec S A
  gets f s = (ok (f s), s)

  abbrev pub lift : Result A → Exec S A
  lift r s = (r, s)

  abbrev pub or_raise : Exn → Option A → Exec S A
  or_raise e none = raise e
  or_raise e (some a) = pure a

  abbrev settle : S → Result A → S → Result A × S
  settle s (ok a) s' = (ok a, s')
  settle s (err e) s' = (err e, s)

  -- `with self.transaction()`: a raise rolls back to the state at the start.
  abbrev pub transaction : Exec S A → Exec S A
  transaction m s = let (r, s') = m s in settle s r s'

module _ {S A B : Type 0} where
  abbrev continue : Result A → (A → Exec S B) → Exec S B
  continue (ok a) f s = f a s
  continue (err e) f s = (err e, s)

  infixl 5 ◌>>=◌ ◌>>◌
  abbrev pub ◌>>=◌ : Exec S A → (A → Exec S B) → Exec S B
  ◌>>=◌ m f s = let (r, s') = m s in continue r f s'

  abbrev pub ◌>>◌ : Exec S A → Exec S B → Exec S B
  m >> k = m >>= λ _. k

module _ {S : Type 0} where
  abbrev pub skip : Exec S (Unit {0})
  skip = pure tt

  abbrev pub modify : (S → S) → Exec S (Unit {0})
  modify f s = (ok tt, f s)

  abbrev pub raise_if : Bool → Exn → Exec S (Unit {0})
  raise_if true e s = (err e, s)
  raise_if false e s = (ok tt, s)

  abbrev pub when : Bool → Exec S (Unit {0}) → Exec S (Unit {0})
  when true m = m
  when false m = skip

-- To split on a result and keep the equation.
pub Result-cases : {A : Type 0} (r : Result A) → ((a : A) × (r ≡ ok a)) ⊎ ((e : Exn) × (r ≡ err e))
Result-cases (ok a) = inl (a, refl)
Result-cases (err e) = inr (e, refl)

module _ {S A : Type 0} where
  abbrev handle : (Exn → Exec S A) → Result A → Exec S A
  handle handler (ok a) = pure a
  handle handler (err e) = handler e

  -- `try ... except`: the handler goes on from the state at the raise.
  abbrev pub catch : Exec S A → (Exn → Exec S A) → Exec S A
  catch m handler s = let (r, s') = m s in handle handler r s'

  -- `try ... finally`, with a last step that does not raise.
  abbrev pub finally : Exec S A → (S → S) → Exec S A
  finally m last s = let (r, s') = m s in (r, last s')

module _ {S A : Type 0} where
  -- `for x in l:`
  unfoldable pub for_each : List A → (A → Exec S (Unit {0})) → Exec S (Unit {0})
  for_each [] body = skip
  for_each (x ∷ xs) body = let rest = for_each xs body in body x >> rest

  -- A loop that keeps a flag, which any round can lower.
  unfoldable pub all_clean : List A → (A → Exec S Bool) → Bool → Exec S Bool
  all_clean [] body clean = pure clean
  all_clean (x ∷ xs) body clean =
      let rest = λ (c : Bool). all_clean xs body c in body x >>= λ fine. rest (clean && fine)

-- What a computation keeps, also where it raises.
module _ {S : Type 0} (P : S → Type 0) where
  abbrev pub Keeps : {A : Type 0} → Exec S A → Type 0
  Keeps m = (s : S) → P s → P (m s).1

  pub Keeps-bind :
      {A B : Type 0} (m : Exec S A) (f : A → Exec S B)
      → Keeps m
      → ((a : A) → Keeps (f a))
      → Keeps (m >>= f)
  Keeps-bind m f hm hf s p = elim (Result-cases (m s).0) [
    | inl (a, done) ↦ rw done (hf a (m s).1 (hm s p))
    | inr (e, raised) ↦ rw raised (hm s p)
  ]

  pub Keeps-for_each :
      {A : Type 0} (l : List A) (body : A → Exec S (Unit {0}))
      → ((x : A) → Keeps (body x))
      → Keeps (for_each l body)
  unfolding for_each
  Keeps-for_each [] body h = λ s p. p
  Keeps-for_each (x ∷ l) body h =
      Keeps-bind (body x) (λ _. for_each l body) (h x) (λ _. Keeps-for_each l body h)

  pub Keeps-when : (t : Bool) (m : Exec S (Unit {0})) → Keeps m → Keeps (when t m)
  Keeps-when true m h = h
  Keeps-when false m h = λ s p. p

  pub Keeps-raise_if : (t : Bool) (e : Exn) → Keeps (raise_if t e)
  Keeps-raise_if true e s p = p
  Keeps-raise_if false e s p = p
