-- ===== src/Unified/Pages/Arrays.antt =====
-- worker/src/unified/shard_merge.ts: reads, writes and counts of a heap as a list.
use one_mail.Base.{
  ℕ, zero, suc, ◌+◌, ◌<◌, ◌≡◌, refl, ap, ◌⊎◌, inl, inr, List, [], ◌∷◌, Bool, true, ◌==◌,
  if◌then◌else◌, length, In, arith, Bool-cases,
}
use one_mail.Unified.Pages.{Head, head_at, set}

abbrev pub count : (Head → Bool) → List Head → ℕ
count p [] = 0
count p (h ∷ heap) = (if p h then 1 else 0) + count p heap

pub length-set : (heap : List Head) (i : ℕ) (v : Head) → length (set heap i v) ≡ length heap
length-set [] i v = refl
length-set (h ∷ heap) zero v = refl
length-set (h ∷ heap) (suc i) v = ap suc (length-set heap i v)

pub head_at-set :
    (heap : List Head) (i j : ℕ) (v : Head)
    → i < length heap
    → head_at (set heap i v) j ≡ (if i == j then v else head_at heap j)
unfolding head_at
head_at-set [] i j v h = absurd (omega arith)
head_at-set (x ∷ heap) zero zero v h = refl
head_at-set (x ∷ heap) (suc i) (suc j) v h = ground (arith, head_at-set heap i j v)
head_at-set (x ∷ heap) zero (suc j) v h = ground arith
head_at-set (x ∷ heap) (suc i) zero v h = ground arith

pub set-same : (heap : List Head) (i : ℕ) → set heap i (head_at heap i) ≡ heap
unfolding head_at
set-same [] i = refl
set-same (h ∷ heap) zero = refl
set-same (h ∷ heap) (suc i) = ap (◌∷◌ h) (set-same heap i)

pub set-set : (heap : List Head) (i : ℕ) (v w : Head) → set (set heap i v) i w ≡ set heap i w
set-set [] i v w = refl
set-set (h ∷ heap) zero v w = refl
set-set (h ∷ heap) (suc i) v w = ap (◌∷◌ h) (set-set heap i v w)

pub count-set :
    (p : Head → Bool) (heap : List Head) (i : ℕ) (v : Head)
    → i < length heap
    → count p (set heap i v) + (if p (head_at heap i) then 1 else 0)
      ≡ count p heap + (if p v then 1 else 0)
unfolding head_at
count-set p [] i v h = absurd (omega arith)
count-set p (x ∷ heap) zero v h = omega arith
count-set p (x ∷ heap) (suc i) v h = omega (arith, count-set p heap i v (omega arith))

pub In-set : (heap : List Head) (i : ℕ) (v h : Head) → In h (set heap i v) → (v ≡ h) ⊎ In h heap
In-set [] i v h m = inr m
In-set (x ∷ heap) zero v h (inl e) = inl e
In-set (x ∷ heap) zero v h (inr m) = inr (inr m)
In-set (x ∷ heap) (suc i) v h (inl e) = inr (inl e)
In-set (x ∷ heap) (suc i) v h (inr m) = elim (In-set heap i v h m) [
  | inl e ↦ inl e
  | inr n ↦ inr (inr n)
]

pub In-head_at : (heap : List Head) (i : ℕ) → i < length heap → In (head_at heap i) heap
unfolding head_at
In-head_at [] i h = absurd (omega arith)
In-head_at (x ∷ heap) zero h = inl refl
In-head_at (x ∷ heap) (suc i) h = inr (In-head_at heap i (omega arith))

pub In-index :
    (heap : List Head) (h : Head) → In h heap → (i : ℕ) × (i < length heap) × (head_at heap i ≡ h)
unfolding head_at
In-index [] h m = elim m [ ]
In-index (x ∷ heap) h (inl e) = (0, omega arith, e)
In-index (x ∷ heap) h (inr m) = let (i, l, e) = In-index heap h m in (suc i, omega arith, e)

pub count-In :
    (p : Head → Bool) (heap : List Head) (h : Head) → In h heap → p h ≡ true → 0 < count p heap
count-In p [] h m e = elim m [ ]
count-In p (x ∷ heap) h (inl q) e = let r = ap p q in ground arith
count-In p (x ∷ heap) h (inr m) e = omega (arith, count-In p heap h m e)

pub count-found :
    (p : Head → Bool) (heap : List Head) → 0 < count p heap → (h : Head) × In h heap × (p h ≡ true)
count-found p [] l = absurd (omega arith)
count-found p (x ∷ heap) l = elim (Bool-cases (p x)) [
  | inl e ↦ (x, inl refl, e)
  | inr e ↦ let (h, m, q) = count-found p heap (ground arith) in (h, inr m, q)
]

pub length-count : (heap : List Head) → count (λ h. true) heap ≡ length heap
length-count [] = refl
length-count (x ∷ heap) = omega (arith, length-count heap)
