-- ===== src/Base/Lists.antt =====
-- Lists measured by native numbers, comprehensions, and predicates on lists.
use Prim.Native.Nat.{ℕ, suc, ◌+◌}
use mathlib.Core.Path.{◌≡◌, refl, ap}
use mathlib.Core.Logic.{◌⊎◌, inl, inr}
use mathlib.Core.Bool.{Bool, true, false, ◌||◌}
use mathlib.Core.Option.{Option, none, some}
use mathlib.Core.List.{List, [], ◌∷◌, ◌++◌}
use native.Mathlib.Omega.{arith}
use signalsync_be.Base.Tests.{if◌then◌else◌, Bool-cases}

module _ {ℓ} {A : Type ℓ} where
  abbrev pub length : List A → ℕ
  length [] = 0
  length (x ∷ xs) = suc (length xs)

  -- `not xs`
  abbrev pub is_empty : List A → Bool
  is_empty [] = true
  is_empty (x ∷ xs) = false

  -- `any(test(x) for x in xs)`
  abbrev pub any : (A → Bool) → List A → Bool
  any test [] = false
  any test (x ∷ xs) = test x || any test xs

  -- `[x for x in xs if test(x)]`
  abbrev pub select : (A → Bool) → List A → List A
  select test [] = []
  select test (x ∷ xs) = let rest = select test xs in if test x then x ∷ rest else rest

  -- `next((x for x in xs if test(x)), None)`
  abbrev pub find_first : (A → Bool) → List A → Option A
  find_first test [] = none
  find_first test (x ∷ xs) = let rest = find_first test xs in if test x then some x else rest

  pub length-append : (xs ys : List A) → length (xs ++ ys) ≡ length xs + length ys
  length-append [] ys = omega arith
  length-append (x ∷ xs) ys = omega (arith, length-append xs ys)

module _ {A : Type 0} where
  -- Membership by recursion, with the position kept.
  abbrev pub IsIn : A → List A → Type 0
  IsIn a [] = ⊥
  IsIn a (x ∷ xs) = (a ≡ x) ⊎ IsIn a xs

  abbrev pub All : (A → Type 0) → List A → Type 0
  All P [] = Unit
  All P (x ∷ xs) = P x × All P xs

  pub IsIn-select :
      (test : A → Bool) (xs : List A) {a : A}
      → IsIn a (select test xs)
      → IsIn a xs × (test a ≡ true)
  IsIn-select test [] h = elim h [ ]
  IsIn-select test (x ∷ xs) h = elim (Bool-cases (test x)) [
    | inl e ↦ elim (rw e at h) [
      | inl p ↦ (inl p, rw p e)
      | inr q ↦ let (m, t) = IsIn-select test xs q in (inr m, t)
    ]
    | inr e ↦ let (m, t) = IsIn-select test xs (rw e at h) in (inr m, t)
  ]

  pub All-select : (test : A → Bool) (xs : List A) → All (λ a. test a ≡ true) (select test xs)
  All-select test [] = tt
  All-select test (x ∷ xs) = elim (Bool-cases (test x)) [
    | inl e ↦ rw e (e, All-select test xs)
    | inr e ↦ rw e (All-select test xs)
  ]

-- A row that a query found, between the rows before and after it. Code that changes the object a
-- query returned changes this row.
pub record FoundRow (A : Type 0) : Type 0 where
  pub before : List A
  pub item : A
  pub after : List A

module _ {A : Type 0} where
  abbrev pub behind : A → Option (FoundRow A) → Option (FoundRow A)
  behind a none = none
  behind a (some row) = some (record row { before = a ∷ row.before })

  -- The first row that passes a test.
  unfoldable pub locate : (A → Bool) → List A → Option (FoundRow A)
  locate test [] = none
  locate test (a ∷ rows) =
      let rest = locate test rows in
      if test a then some (record { before = []; item = a; after = rows }) else behind a rest

  -- The rows with another one in its place.
  abbrev pub put_back : FoundRow A → A → List A
  put_back row a = row.before ++ a ∷ row.after

  abbrev pub IsRowOf : List A → Option (FoundRow A) → Type 0
  IsRowOf rows none = Unit
  IsRowOf rows (some row) = rows ≡ row.before ++ row.item ∷ row.after

  behind-IsRowOf :
      (a : A) (rows : List A) (found : Option (FoundRow A))
      → IsRowOf rows found
      → IsRowOf (a ∷ rows) (behind a found)
  behind-IsRowOf a rows none h = tt
  behind-IsRowOf a rows (some row) h = ap (λ others. a ∷ others) h

  pub locate-IsRowOf : (test : A → Bool) (rows : List A) → IsRowOf rows (locate test rows)
  unfolding locate
  locate-IsRowOf test [] = tt
  locate-IsRowOf test (a ∷ rows) = elim (Bool-cases (test a)) [
    | inl e ↦ rw e refl
    | inr e ↦ rw e (behind-IsRowOf a rows (locate test rows) (locate-IsRowOf test rows))
  ]

  pub All-split :
      (P : A → Type 0) (xs : List A) {x : A} (ys : List A)
      → All P (xs ++ x ∷ ys)
      → All P xs × P x × All P ys
  All-split P [] ys h = (tt, h.0, h.1)
  All-split P (a ∷ xs) ys h =
      let (before, x, after) = All-split P xs ys h.1 in ((h.0, before), x, after)

  pub All-join :
      (P : A → Type 0) (xs : List A) {x : A} (ys : List A)
      → All P xs
      → P x
      → All P ys
      → All P (xs ++ x ∷ ys)
  All-join P [] ys h k l = (k, l)
  All-join P (a ∷ xs) ys h k l = (h.0, All-join P xs ys h.1 k l)
