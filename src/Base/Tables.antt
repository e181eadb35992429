-- ===== src/Base/Tables.antt =====
-- A table of the database is the list of its rows in the order of their rowid. Selections, updates
-- and ordered, limited queries on it.
use Prim.Native.Nat.{ℕ, zero, suc, ◌≤◌}
use mathlib.Core.Path.{◌≡◌, refl, ap, ◌∙◌, subst}
use mathlib.Core.Logic.{◌⊎◌, inl, inr}
use mathlib.Core.Bool.{Bool, true, false}
use native.Mathlib.Omega.{arith}
use mathlib.Core.List.{List, [], ◌∷◌, ◌++◌, map}
use one_mail.Base.Tests.{Bool-cases, if◌then◌else◌}
use one_mail.Base.Lists.{In, any, length}

module _ {ℓ} {R : Type ℓ} where
  -- `SELECT … WHERE p`, and what `DELETE … WHERE` leaves
  abbrev pub select : (R → Bool) → List R → List R
  select p [] = []
  select p (r ∷ rows) = let rest = select p rows in if p r then r ∷ rest else rest

  -- `UPDATE … SET f WHERE p`: the condition is read before any row changes.
  abbrev pub updated : (R → Bool) → (R → R) → List R → List R
  updated p f rows = map (λ r. if p r then f r else r) rows

  unfoldable pub insert_by : (R → R → Bool) → R → List R → List R
  insert_by before r [] = r ∷ []
  insert_by before r (s ∷ rows) =
      let rest = insert_by before r rows in if before r s then r ∷ s ∷ rows else s ∷ rest

  -- `ORDER BY`
  unfoldable pub order_by : (R → R → Bool) → List R → List R
  unfolding insert_by
  order_by before [] = []
  order_by before (r ∷ rows) = insert_by before r (order_by before rows)

  -- `LIMIT`
  abbrev pub limit_to : ℕ → List R → List R
  limit_to zero rows = []
  limit_to (suc n) [] = []
  limit_to (suc n) (r ∷ rows) = r ∷ limit_to n rows

module _ {ℓ} {R : Type ℓ} where
  pub In-select :
      (p : R → Bool) (rows : List R) (r : R) → In r rows → p r ≡ true → In r (select p rows)
  In-select p [] r i h = elim i [ ]
  In-select p (s ∷ rows) r (inl e) h = rw (ap p e) (rw h (inl e))
  In-select p (s ∷ rows) r (inr i) h = elim (Bool-cases (p s)) [
    | inl e ↦ rw e (inr (In-select p rows r i h))
    | inr e ↦ rw e (In-select p rows r i h)
  ]

  pub In-select_inv :
      (p : R → Bool) (rows : List R) (r : R) → In r (select p rows) → In r rows × (p r ≡ true)
  In-select_inv p [] r i = elim i [ ]
  In-select_inv p (s ∷ rows) r i = elim (Bool-cases (p s)) [
    | inl e ↦ elim (rw e at i) [
      | inl q ↦ (inl q, subst (λ x. p x ≡ true) q e)
      | inr j ↦ let (k, h) = In-select_inv p rows r j in (inr k, h)
    ]
    | inr e ↦ let (k, h) = In-select_inv p rows r (rw e at i) in (inr k, h)
  ]

  In-insert_by :
      (before : R → R → Bool) (s : R) (rows : List R) (r : R)
      → In r (insert_by before s rows)
      → (s ≡ r) ⊎ In r rows
  unfolding insert_by
  In-insert_by before s [] r (inl e) = inl e
  In-insert_by before s [] r (inr i) = inr i
  In-insert_by before s (t ∷ rows) r i = elim (Bool-cases (before s t)) [
    | inl e ↦ elim (rw e at i) [ inl q ↦ inl q | inr j ↦ inr j ]
    | inr e ↦ elim (rw e at i) [
      | inl q ↦ inr (inl q)
      | inr j ↦ elim (In-insert_by before s rows r j) [ inl q ↦ inl q | inr k ↦ inr (inr k) ]
    ]
  ]

  pub In-order_by :
      (before : R → R → Bool) (rows : List R) (r : R) → In r (order_by before rows) → In r rows
  unfolding order_by
  In-order_by before [] r i = i
  In-order_by before (s ∷ rows) r i = elim (In-insert_by before s (order_by before rows) r i) [
    | inl e ↦ inl e
    | inr j ↦ inr (In-order_by before rows r j)
  ]

  pub In-limit_to : (n : ℕ) (rows : List R) (r : R) → In r (limit_to n rows) → In r rows
  In-limit_to zero rows r i = elim i [ ]
  In-limit_to (suc n) [] r i = i
  In-limit_to (suc n) (s ∷ rows) r (inl e) = inl e
  In-limit_to (suc n) (s ∷ rows) r (inr i) = inr (In-limit_to n rows r i)

  pub In-updated :
      (p : R → Bool) (f : R → R) (rows : List R) (r : R)
      → In r rows
      → In (if p r then f r else r) (updated p f rows)
  In-updated p f [] r i = elim i [ ]
  In-updated p f (s ∷ rows) r (inl e) = inl (ap (λ x. if p x then f x else x) e)
  In-updated p f (s ∷ rows) r (inr i) = inr (In-updated p f rows r i)

  pub In-updated_inv :
      (p : R → Bool) (f : R → R) (rows : List R) (s : R)
      → In s (updated p f rows)
      → (r : R) × In r rows × ((if p r then f r else r) ≡ s)
  In-updated_inv p f [] s i = elim i [ ]
  In-updated_inv p f (t ∷ rows) s (inl e) = (t, inl refl, e)
  In-updated_inv p f (t ∷ rows) s (inr i) =
      let (r, j, e) = In-updated_inv p f rows s i in (r, inr j, e)

  pub In-first : (rows more : List R) (r : R) → In r rows → In r (rows ++ more)
  In-first [] more r i = elim i [ ]
  In-first (s ∷ rows) more r (inl e) = inl e
  In-first (s ∷ rows) more r (inr i) = inr (In-first rows more r i)

-- A map brings in what it makes of the entries.
pub In-map_inv {ℓ} :
    {A B : Type ℓ} (f : A → B) (xs : List A) (b : B)
    → In b (map f xs)
    → (a : A) × In a xs × (f a ≡ b)
In-map_inv f [] b i = elim i [ ]
In-map_inv f (x ∷ xs) b (inl e) = (x, inl refl, e)
In-map_inv f (x ∷ xs) b (inr i) = let (a, j, e) = In-map_inv f xs b i in (a, inr j, e)

module _ {ℓ} {R : Type ℓ} where
  -- A condition that no row satisfies changes and selects nothing.
  pub updated-none :
      (p : R → Bool) (f : R → R) (rows : List R)
      → any p rows ≡ false
      → (updated p f rows ≡ rows) × (select p rows ≡ [])
  updated-none p f [] h = (refl, refl)
  updated-none p f (r ∷ rows) h =
      let e : p r ≡ false = ground arith in
      let (a, b) = updated-none p f rows (ground arith) in rw e (ap (◌∷◌ r) a, b)

  -- A condition that no row of the table satisfies, and two that agree on its rows.
  pub updated-same :
      (p : R → Bool) (f : R → R) (rows : List R)
      → ((r : R) → In r rows → p r ≡ false)
      → updated p f rows ≡ rows
  updated-same p f [] h = refl
  updated-same p f (r ∷ rows) h =
      let e = h r (inl refl) in rw e (ap (◌∷◌ r) (updated-same p f rows (λ s i. h s (inr i))))

  pub updated-cong :
      (p q : R → Bool) (f : R → R) (rows : List R)
      → ((r : R) → In r rows → p r ≡ q r)
      → updated p f rows ≡ updated q f rows
  updated-cong p q f [] h = refl
  updated-cong p q f (r ∷ rows) h =
      let e = h r (inl refl) in
      rw e (ap (◌∷◌ (if q r then f r else r)) (updated-cong p q f rows (λ s i. h s (inr i))))

  pub select-cong :
      (p q : R → Bool) (rows : List R)
      → ((r : R) → In r rows → p r ≡ q r)
      → select p rows ≡ select q rows
  select-cong p q [] h = refl
  select-cong p q (r ∷ rows) h =
      let e = h r (inl refl) in
      let t = select-cong p q rows (λ s i. h s (inr i)) in
      rw e (ap (λ rest. if q r then r ∷ rest else rest) t)

  pub any-none : (p : R → Bool) (rows : List R) → ((r : R) → p r ≡ false) → any p rows ≡ false
  any-none p [] h = refl
  any-none p (r ∷ rows) h = ground (arith, h r, any-none p rows h)

-- Nothing is lost by an order, nor by a limit that is not reached.
module _ {ℓ} {R : Type ℓ} where
  In-insert_here :
      (before : R → R → Bool) (s : R) (rows : List R) (r : R)
      → (s ≡ r) ⊎ In r rows
      → In r (insert_by before s rows)
  unfolding insert_by
  In-insert_here before s [] r (inl e) = inl e
  In-insert_here before s [] r (inr i) = elim i [ ]
  In-insert_here before s (t ∷ rows) r h = elim (Bool-cases (before s t)) [
    | inl e ↦ rw e h
    | inr e ↦ rw e (elim h [
      | inl q ↦ inr (In-insert_here before s rows r (inl q))
      | inr i ↦ elim i [ inl q ↦ inl q | inr j ↦ inr (In-insert_here before s rows r (inr j)) ]
    ])
  ]

  pub In-ordered :
      (before : R → R → Bool) (rows : List R) (r : R) → In r rows → In r (order_by before rows)
  unfolding order_by
  In-ordered before [] r i = i
  In-ordered before (s ∷ rows) r (inl e) = In-insert_here before s (order_by before rows) r (inl e)
  In-ordered before (s ∷ rows) r (inr i) =
      In-insert_here before s (order_by before rows) r (inr (In-ordered before rows r i))

  length-insert_by :
      (before : R → R → Bool) (s : R) (rows : List R)
      → length (insert_by before s rows) ≡ suc (length rows)
  unfolding insert_by
  length-insert_by before s [] = refl
  length-insert_by before s (t ∷ rows) = elim (Bool-cases (before s t)) [
    | inl e ↦ rw e refl
    | inr e ↦ rw e (ap suc (length-insert_by before s rows))
  ]

  pub length-order_by :
      (before : R → R → Bool) (rows : List R) → length (order_by before rows) ≡ length rows
  unfolding order_by
  length-order_by before [] = refl
  length-order_by before (s ∷ rows) =
      length-insert_by before s (order_by before rows) ∙ ap suc (length-order_by before rows)

  pub limit_to-all : (n : ℕ) (rows : List R) → length rows ≤ n → limit_to n rows ≡ rows
  limit_to-all zero [] h = refl
  limit_to-all zero (r ∷ rows) h = absurd (omega arith)
  limit_to-all (suc n) [] h = refl
  limit_to-all (suc n) (r ∷ rows) h = ap (◌∷◌ r) (limit_to-all n rows (omega arith))

pub In-map {ℓ} : {A B : Type ℓ} (f : A → B) (xs : List A) (a : A) → In a xs → In (f a) (map f xs)
In-map f [] a i = elim i [ ]
In-map f (x ∷ xs) a (inl e) = inl (ap f e)
In-map f (x ∷ xs) a (inr i) = inr (In-map f xs a i)
