-- ===== src/Base/Lists.antt =====
-- Lists measured by native numbers, and predicates on their entries.
use Prim.Native.Nat.{ℕ, suc, ◌+◌}
use mathlib.Core.Path.{◌≡◌, refl, ap, subst}
use mathlib.Core.Bool.{Bool, true, false, ◌||◌}
use mathlib.Core.Logic.{◌⊎◌, inl, inr}
use mathlib.Core.Option.{Option, none, some}
use mathlib.Core.List.{List, [], ◌∷◌, ◌++◌}
use native.Mathlib.Omega.{arith}
use one_mail.Base.Tests.{Key, Bool-cases, ◌===◌, if◌then◌else◌}

-- The type with no value, at any level.
pub data Void {ℓ} : Type ℓ where

module _ {ℓ} {A : Type ℓ} where
  abbrev pub length : List A → ℕ
  length [] = 0
  length (x ∷ xs) = suc (length xs)

  pub length-append : (xs ys : List A) → length (xs ++ ys) ≡ length xs + length ys
  length-append [] ys = omega arith
  length-append (x ∷ xs) ys = omega (arith, length-append xs ys)

  -- `xs.some(p)`
  abbrev pub any : (A → Bool) → List A → Bool
  any p [] = false
  any p (x ∷ xs) = p x || any p xs

  -- `xs.find(p)`
  abbrev pub find : (A → Bool) → List A → Option A
  find p [] = none
  find p (x ∷ xs) = if p x then some x else find p xs

  -- Every entry has the property.
  abbrev pub All {κ} : (A → Type κ) → List A → Type κ
  All P [] = Unit
  All P (x ∷ xs) = P x × All P xs

  -- `xs.includes(a)`
  abbrev pub includes : ⦃k : Key A⦄ → List A → A → Bool
  includes ⦃k⦄ xs a = any (λ x. x === a) xs

  -- The value stands in the list.
  abbrev pub In : A → List A → Type ℓ
  In a [] = Void
  In a (x ∷ xs) = (x ≡ a) ⊎ In a xs

module _ {ℓ} {A : Type ℓ} where
  pub any-In : (p : A → Bool) (xs : List A) (x : A) → In x xs → p x ≡ true → any p xs ≡ true
  any-In p [] x i h = elim i [ ]
  any-In p (y ∷ xs) x (inl e) h = ground (arith, ap p e)
  any-In p (y ∷ xs) x (inr i) h = ground (arith, any-In p xs x i h)

  pub any-witness :
      (p : A → Bool) (xs : List A) → any p xs ≡ true → (x : A) × In x xs × (p x ≡ true)
  any-witness p [] h = cc
  any-witness p (x ∷ xs) h = elim (Bool-cases (p x)) [
    | inl e ↦ (x, inl refl, e)
    | inr e ↦ let (y, i, q) = any-witness p xs (ground arith) in (y, inr i, q)
  ]

  pub In-append : (xs ys : List A) (x : A) → In x (xs ++ ys) → In x xs ⊎ In x ys
  In-append [] ys x h = inr h
  In-append (y ∷ xs) ys x (inl e) = inl (inl e)
  In-append (y ∷ xs) ys x (inr i) = elim (In-append xs ys x i) [
    | inl j ↦ inl (inr j)
    | inr j ↦ inr j
  ]

  pub All-In {κ} : (P : A → Type κ) (xs : List A) (x : A) → All P xs → In x xs → P x
  All-In P [] x h i = elim i [ ]
  All-In P (y ∷ xs) x h (inl e) = subst P e h.0
  All-In P (y ∷ xs) x h (inr i) = All-In P xs x h.1 i
