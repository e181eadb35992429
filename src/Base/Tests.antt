-- ===== src/Base/Tests.antt =====
-- Boolean tests on numbers and texts, decisions on keys, and the split on a computed value.
use Prim.Native.Nat.{ℕ, compare, Ordering}
use Prim.Native.String.{String}
use mathlib.Core.Path.{◌≡◌, refl}
use mathlib.Core.Logic.{◌≢◌, ◌↔◌, ◌⊎◌, inl, inr}
use mathlib.Core.Bool.{Bool, true, false}
use mathlib.Core.Option.{Option, none, some}
use native.Mathlib.Decide.{ℕ_discrete}
use text.Mathlib.Text.{◌==◌ as str_eq}
use text.Mathlib.TextEquality.{eq_iff}

abbrev pub ltb : ℕ → ℕ → Bool
ltb a b = elim (compare a b) [ Ordering.lt ↦ true | _ ↦ false ]

abbrev pub leb : ℕ → ℕ → Bool
leb a b = elim (compare a b) [ Ordering.gt ↦ false | _ ↦ true ]

infix 50 ◌==◌
abbrev pub ◌==◌ : ℕ → ℕ → Bool
a == b = elim (compare a b) [ Ordering.eq ↦ true | _ ↦ false ]

infix 1 if◌then◌else◌
abbrev pub if◌then◌else◌ {ℓ} : {A : Type ℓ} → Bool → A → A → A
if true then x else y = x
if false then x else y = y

pub Bool-cases : (b : Bool) → (b ≡ true) ⊎ (b ≡ false)
Bool-cases true = inl refl
Bool-cases false = inr refl

pub Option-cases {ℓ} : {A : Type ℓ} (o : Option A) → (o ≡ none) ⊎ ((a : A) × (o ≡ some a))
Option-cases none = inl refl
Option-cases (some a) = inr (a, refl)

-- A type whose values are compared for equality, as `===` compares texts and numbers.
pub record Key {ℓ} (K : Type ℓ) : Type ℓ where
  pub same : Discrete K

dec_of_test {ℓ} : {P : Type ℓ} (b : Bool) → (b ≡ true) ↔ P → Dec P
dec_of_test true e = yes (e.0 refl)
dec_of_test false e = no (λ p. cc (e.1 p))

unfoldable pub text_dec : Discrete String
unfolding dec_of_test
text_dec s t = dec_of_test (str_eq s t) (eq_iff s t)

instance abbrev pub text_key : Key String
text_key = record { same = text_dec }

instance abbrev pub nat_key : Key ℕ
nat_key = record { same = ℕ_discrete }

-- `===` as a test.
abbrev pub is_yes {ℓ} : {P : Type ℓ} → Dec P → Bool
is_yes (yes p) = true
is_yes (no n) = false

infix 50 ◌===◌
abbrev pub ◌===◌ {ℓ} : {K : Type ℓ} ⦃k : Key K⦄ → K → K → Bool
◌===◌ ⦃k⦄ a b = is_yes (k.same a b)

yes_of {ℓ} : {P : Type ℓ} (d : Dec P) → is_yes d ≡ false → P → ⊥
yes_of (yes p) h q = cc
yes_of (no n) h q = n q

-- A test that fails tells two values apart.
pub same-ne {ℓ} : {K : Type ℓ} ⦃k : Key K⦄ (a b : K) → (a === b) ≡ false → a ≢ b
same-ne ⦃k⦄ a b h e = yes_of (k.same a b) h e

yes_to {ℓ} : {P : Type ℓ} (d : Dec P) → is_yes d ≡ true → P
yes_to (yes p) h = p
yes_to (no n) h = cc

-- A test that holds tells that two values are one.
pub same-eq {ℓ} : {K : Type ℓ} ⦃k : Key K⦄ (a b : K) → (a === b) ≡ true → a ≡ b
same-eq ⦃k⦄ a b h = yes_to (k.same a b) h

yes_from {ℓ} : {P : Type ℓ} (d : Dec P) → P → is_yes d ≡ true
yes_from (yes p) h = refl
yes_from (no n) h = absurd (n h)

pub same-yes {ℓ} : {K : Type ℓ} ⦃k : Key K⦄ (a b : K) → a ≡ b → (a === b) ≡ true
same-yes ⦃k⦄ a b h = yes_from (k.same a b) h

no_from {ℓ} : {P : Type ℓ} (d : Dec P) → (P → ⊥) → is_yes d ≡ false
no_from (yes p) n = absurd (n p)
no_from (no m) n = refl

pub same-no {ℓ} : {K : Type ℓ} ⦃k : Key K⦄ (a b : K) → a ≢ b → (a === b) ≡ false
same-no ⦃k⦄ a b n = no_from (k.same a b) n
