-- ===== src/Fleet/Placement/Scores.antt =====
-- worker/src/fleet/placement.ts: ratios are ordered by cross products, and `maximumScore` is one.
use native.Mathlib.Nat.{
  le_of_mul-le-mul_right, lt_of_mul-lt-mul_right, mul-le-mul_right, mul-lt-mul_of_pos_right,
}
use one_mail.Base.{
  ◌*◌, ◌≤◌, ◌<◌, ◌⊎◌, ap, sym, subst, List, [], ◌∷◌, Bool, All, arith, Bool-cases, inl, inr,
  if◌then◌else◌,
}
use one_mail.Fleet.Placement.{Score, less, maximum_from}

-- `compare(a, b) <= 0`
abbrev pub Le : Score → Score → Type 0
Le a b = a.used * b.limit ≤ b.used * a.limit

pub Le-trans : (a b c : Score) → 0 < b.limit → Le a b → Le b c → Le a c
Le-trans a b c p h k =
    le_of_mul-le-mul_right (grind (arith, mul-le-mul_right c.limit h, mul-le-mul_right a.limit k)) p

pub Le-total : (a b : Score) → Le a b ⊎ Le b a
Le-total a b = omega arith

-- What a maximum over the ratios is.
abbrev pub IsMaximum : Score → List Score → Score → Type 0
IsMaximum m ss r = (0 < r.limit) × Le m r × All (λ s. Le s r) ss

pub maximum_from-IsMaximum :
    (m : Score) (ss : List Score)
    → 0 < m.limit
    → All (λ s. 0 < s.limit) ss
    → IsMaximum m ss (maximum_from m ss)
unfolding maximum_from
maximum_from-IsMaximum m [] p ps = (p, omega arith, tt)
maximum_from-IsMaximum m (s ∷ ss) p ps = elim (Bool-cases (less m s)) [
  | inl e ↦
      let (q, l, ls) = maximum_from-IsMaximum s ss ps.0 ps.1 in
      subst (IsMaximum m (s ∷ ss)) (ap (λ (b : Bool). maximum_from (if b then s else m) ss) (sym e))
        (q, Le-trans m s (maximum_from s ss) ps.0 (ground arith) l, (l, ls))
  | inr e ↦
      let (q, l, ls) = maximum_from-IsMaximum m ss p ps.1 in
      subst (IsMaximum m (s ∷ ss)) (ap (λ (b : Bool). maximum_from (if b then s else m) ss) (sym e))
        (q, l, (Le-trans s m (maximum_from m ss) p (ground arith) l, ls))
]

-- Below seven tenths, and so is what is not above it.
pub below_of_Le :
    (s m : Score)
    → 0 < m.limit
    → 0 < s.limit
    → Le s m
    → m.used * 10 < m.limit * 7
    → s.used * 10 < s.limit * 7
below_of_Le s m p q l h =
    lt_of_mul-lt-mul_right m.limit (grind (arith, mul-lt-mul_of_pos_right h q))
