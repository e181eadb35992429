-- ===== src/Base/Assoc.antt =====
-- A `Map`, a JSON object used as an index, or the keys of a storage that share a prefix: the
-- entries in the order in which their keys first came.
use Prim.Native.Nat.{ℕ, ◌+◌}
use mathlib.Core.Path.{◌≡◌, refl, subst}
use mathlib.Core.Logic.{◌⊎◌, inl, inr, ite, if_pos, if_neg}
use mathlib.Core.Option.{Option, none, some}
use mathlib.Core.List.{List, [], ◌∷◌}
use native.Mathlib.Omega.{arith}
use one_mail.Base.Tests.{Key}
use one_mail.Base.Lists.{In}

abbrev pub Dict {ℓ} : Type ℓ → Type ℓ → Type ℓ
Dict K V = List (K × V)

-- The sum of a measure over the entries.
unfoldable pub total {ℓ} : {K V : Type ℓ} → (V → ℕ) → Dict K V → ℕ
total f [] = 0
total f ((j, v) ∷ d) = f v + total f d

-- The measure of what a key holds.
abbrev pub held {ℓ} : {V : Type ℓ} → (V → ℕ) → Option V → ℕ
held f none = 0
held f (some v) = f v

-- Every value has the property.
abbrev pub EveryValue {ℓ} : {K V : Type ℓ} → (V → Type 0) → Dict K V → Type 0
EveryValue P [] = Unit
EveryValue P ((k, v) ∷ d) = P v × EveryValue P d

pub EveryValue-mono {ℓ} :
    {K V : Type ℓ} (P Q : V → Type 0) (d : Dict K V)
    → ((v : V) → P v → Q v)
    → EveryValue P d
    → EveryValue Q d
EveryValue-mono P Q [] f h = tt
EveryValue-mono P Q ((k, v) ∷ d) f h = (f v h.0, EveryValue-mono P Q d f h.1)

module _ {ℓ} {K V : Type ℓ} ⦃key : Key K⦄ where
  -- `d.get(k)`, `d[k]`
  unfoldable pub get : Dict K V → K → Option V
  get [] k = none
  get ((j, v) ∷ d) k = ite (key.same j k) (some v) (get d k)

  -- `d.set(k, v)`, `d[k] = v`: a key that is there keeps its place.
  unfoldable pub put : Dict K V → K → V → Dict K V
  put [] k v = (k, v) ∷ []
  put ((j, w) ∷ d) k v = ite (key.same j k) ((j, v) ∷ d) ((j, w) ∷ put d k v)

  -- `d.delete(k)`, `delete d[k]`
  unfoldable pub delete : Dict K V → K → Dict K V
  delete [] k = []
  delete ((j, w) ∷ d) k = ite (key.same j k) (delete d k) ((j, w) ∷ delete d k)

  pub get-put :
      (d : Dict K V) (k j : K) (v : V) → get (put d k v) j ≡ ite (key.same k j) (some v) (get d j)
  unfolding get put
  get-put [] k j v = refl
  get-put ((i, w) ∷ d) k j v = ground (arith, get-put d k j v)

  pub get-delete : (d : Dict K V) (k j : K) → get (delete d k) j ≡ ite (key.same k j) none (get d j)
  unfolding get delete
  get-delete [] k j = ground arith
  get-delete ((i, w) ∷ d) k j = ground (arith, get-delete d k j)

  pub get-put_self : (d : Dict K V) (k : K) (v : V) → get (put d k v) k ≡ some v
  get-put_self d k v = ground (arith, get-put d k k v)

  -- A write takes the old value out of the sum and brings the new one in.
  pub total-put :
      (f : V → ℕ) (d : Dict K V) (k : K) (v : V)
      → total f (put d k v) + held f (get d k) ≡ total f d + f v
  unfolding get put total
  total-put f [] k v = omega arith
  total-put f ((j, w) ∷ d) k v = ground (arith, total-put f d k v)

module _ {ℓ} {K V : Type ℓ} ⦃key : Key K⦄ where
  -- `new Map(values.map(v => [of(v), v]))`, onto what is there.
  unfoldable pub put_all : (V → K) → Dict K V → List V → Dict K V
  put_all of d [] = d
  put_all of d (v ∷ vs) = put_all of (put d (of v) v) vs

  pub get-put_all :
      (of : V → K) (d : Dict K V) (vs : List V) (k : K) (v : V)
      → get (put_all of d vs) k ≡ some v
      → (get d k ≡ some v) ⊎ ((of v ≡ k) × In v vs)
  unfolding put_all
  get-put_all of d [] k v h = inl h
  get-put_all of d (w ∷ vs) k v h = elim (get-put_all of (put d (of w) w) vs k v h) [
    | inr (e, i) ↦ inr (e, inr i)
    | inl g ↦ elim (key.same (of w) k) [
      | yes y ↦
          inr (ground (arith, get-put d (of w) k w), inl (ground (arith, get-put d (of w) k w)))
      | no n ↦ inl (ground (arith, get-put d (of w) k w))
    ]
  ]

  pub EveryValue-put :
      (P : V → Type 0) (d : Dict K V) (k : K) (v : V)
      → EveryValue P d
      → P v
      → EveryValue P (put d k v)
  unfolding put
  EveryValue-put P [] k v h p = (p, tt)
  EveryValue-put P ((j, w) ∷ d) k v h p = elim (key.same j k) [
    | yes y ↦ rw (if_pos _ y) (p, h.1)
    | no n ↦ rw (if_neg _ n) (h.0, EveryValue-put P d k v h.1 p)
  ]

  pub EveryValue-delete :
      (P : V → Type 0) (d : Dict K V) (k : K) → EveryValue P d → EveryValue P (delete d k)
  unfolding delete
  EveryValue-delete P [] k h = tt
  EveryValue-delete P ((j, w) ∷ d) k h = elim (key.same j k) [
    | yes y ↦ rw (if_pos _ y) (EveryValue-delete P d k h.1)
    | no n ↦ rw (if_neg _ n) (h.0, EveryValue-delete P d k h.1)
  ]

  pub EveryValue-get :
      (P : V → Type 0) (d : Dict K V) (k : K) (v : V) → EveryValue P d → get d k ≡ some v → P v
  unfolding get
  EveryValue-get P [] k v h e = cc
  EveryValue-get P ((j, w) ∷ d) k v h e = elim (key.same j k) [
    | yes y ↦ let f : w ≡ v = ground arith in subst P f h.0
    | no n ↦ EveryValue-get P d k v h.1 (ground arith)
  ]
