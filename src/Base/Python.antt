-- ===== src/Base/Python.antt =====
-- What a Python call ends in, and `decimal.Decimal` values.
use mathlib.Core.Bool.{Bool, true, false}
use mathlib.Core.Path.{◌≡◌, refl}
use mathlib.Core.Logic.{◌⊎◌, inl, inr}
use signalsync_be.Base.Tests.{if◌then◌else◌}
use signalsync_be.Base.Int.{ℤ, leb_ℤ}

-- A call returns a value or raises an exception.
pub data Outcome (E A : Type 0) : Type 0 where
  returned : A → Outcome E A
  raised : E → Outcome E A

infixl 5 ◌>>=◌ ◌>>◌
abbrev pub ◌>>=◌ : {E A B : Type 0} → Outcome E A → (A → Outcome E B) → Outcome E B
returned a >>= f = f a
raised e >>= f = raised e

abbrev pub ◌>>◌ : {E B : Type 0} → Outcome E (Unit {0}) → Outcome E B → Outcome E B
m >> k = m >>= λ _. k

-- `if test: raise e`
abbrev pub raise_if : {E : Type 0} → Bool → E → Outcome E (Unit {0})
raise_if true e = raised e
raise_if false e = returned tt

-- A `Decimal`. A finite one is a whole number of a common small unit, so that comparisons, sums and
-- differences are exact; `infinite` carries the sign, true for minus.
pub data Decimal : Type 0 where
  finite : ℤ → Decimal
  infinite : Bool → Decimal
  nan : Decimal

-- `value.is_finite()`
abbrev pub is_finite : Decimal → Bool
is_finite (finite _) = true
is_finite (infinite _) = false
is_finite nan = false

-- `a <= b`. The code compares only what has passed `is_finite`, so the answer on `nan`, where Python
-- raises, is never used.
abbrev pub decimal_le : Decimal → Decimal → Bool
decimal_le (finite a) (finite b) = leb_ℤ a b
decimal_le (finite a) (infinite minus) = if minus then false else true
decimal_le (infinite minus) (finite b) = minus
decimal_le (infinite true) (infinite b) = true
decimal_le (infinite false) (infinite minus) = if minus then false else true
decimal_le nan b = false
decimal_le a nan = false

pub Outcome-cases :
    {E A : Type 0} (o : Outcome E A) → ((a : A) × (o ≡ returned a)) ⊎ ((e : E) × (o ≡ raised e))
Outcome-cases (returned a) = inl (a, refl)
Outcome-cases (raised e) = inr (e, refl)

-- Where a call returns, what it returns has a property.
pub record Gives {E A : Type 0} (P : A → Type 0) (result : Outcome E A) : Type 0 where
  pub given : (a : A) → result ≡ returned a → P a

module _ {E B : Type 0} (P : B → Type 0) where
  pub Gives-returned : (b : B) → P b → Gives {E = E} P (returned b)
  Gives-returned b h = record { given = λ found same. rw (← value_eq found same) h }
    where
      value_eq : (found : B) → ◌≡◌ {A = Outcome E B} (returned b) (returned found) → b ≡ found
      value_eq found same = cc

  pub Gives-raised : (e : E) → Gives P (raised e)
  Gives-raised e = record { given = λ found same. absurd (cc same) }

  pub Gives-bind :
      {A : Type 0} (call : Outcome E A) {next : A → Outcome E B}
      → ((a : A) → call ≡ returned a → Gives P (next a))
      → Gives P (call >>= next)
  Gives-bind (returned a) h = h a refl
  Gives-bind (raised e) h = Gives-raised e

  pub Gives-if :
      (test : Bool) {on_true on_false : Outcome E B}
      → Gives P on_true
      → Gives P on_false
      → Gives P (if test then on_true else on_false)
  Gives-if true h k = h
  Gives-if false h k = k
