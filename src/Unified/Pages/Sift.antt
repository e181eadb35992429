-- ===== src/Unified/Pages/Sift.antt =====
-- worker/src/unified/shard_merge.ts: `siftDown` makes a heap of the same heads.
use one_mail.Base.{
  ℕ, zero, suc, ◌+◌, ◌-◌, ◌*◌, ◌/◌, ◌≤◌, ◌<◌, ◌≡◌, ◌≢◌, refl, sym, ap, ◌∙◌, subst, ◌⊎◌, inl, inr,
  List, Bool, true, ◌&&◌, ltb, ◌==◌, if◌then◌else◌, length, In, arith, Bool-cases,
}
use one_mail.Unified.Pages.{
  Head, head_at, set, compare, is_less, is_at_most, child_of, sift_from, sift_down, heapify,
}
use one_mail.Unified.Pages.Order.{at_most, compare-flip, at_most-total, at_most_refl, at_most_trans}
use one_mail.Unified.Pages.Arrays.{
  count, length-set, head_at-set, set-same, count-set, In-head_at, In-index, length-count,
}

abbrev pub parent_of : ℕ → ℕ
parent_of c = (c - 1) / 2

-- Every edge whose parent is at `lo` or later is in order.
abbrev pub HeapFrom : ℕ → List Head → Type 0
HeapFrom lo a =
    (c : ℕ)
    → 0 < c
    → c < length a
    → lo ≤ parent_of c
    → at_most (head_at a (parent_of c)) (head_at a c) ≡ true

-- Only the edges below `i` may be out of order.
record Open (lo : ℕ) (a : List Head) (i : ℕ) : Type 0 where
  edges :
      (c : ℕ)
      → 0 < c
      → c < length a
      → lo ≤ parent_of c
      → parent_of c ≢ i
      → at_most (head_at a (parent_of c)) (head_at a c) ≡ true
  bridged :
      (c : ℕ)
      → 0 < c
      → c < length a
      → parent_of c ≡ i
      → 0 < i
      → lo ≤ parent_of i
      → at_most (head_at a (parent_of i)) (head_at a c) ≡ true

-- The heads of one heap are those of another.
pub record Same (a b : List Head) : Type 0 where
  pub counts : (p : Head → Bool) → count p b ≡ count p a
  pub inside : (h : Head) → In h b → In h a

pub Same-self : (a : List Head) → Same a a
Same-self a = record { counts = λ p. refl; inside = λ h i. i }

pub Same-then : (a b c : List Head) → Same a b → Same b c → Same a c
Same-then a b c x y = record {
  counts = λ p. y.counts p ∙ x.counts p;
  inside = λ h i. x.inside h (y.inside h i);
}

pub Same-length : (a b : List Head) → Same a b → length b ≡ length a
Same-length a b s = sym (length-count b) ∙ s.counts (λ h. true) ∙ length-count a

-- The child that `siftDown` looks at comes first of the two.
record FirstChild (a : List Head) (i m : ℕ) : Type 0 where
  first :
      (c : ℕ) → parent_of c ≡ i → 0 < c → c < length a → at_most (head_at a m) (head_at a c) ≡ true
  in_heap : m < length a
  is_child : (m ≡ i * 2 + 1) ⊎ (m ≡ i * 2 + 1 + 1)

child_cases : (c i : ℕ) → 0 < c → parent_of c ≡ i → (c ≡ i * 2 + 1) ⊎ (c ≡ i * 2 + 1 + 1)
child_cases c i p e = elim (Bool-cases (c == i * 2 + 1)) [
  | inl q ↦ inl (ground arith)
  | inr q ↦ inr (ground arith)
]

child_of-FirstChild : (a : List Head) (i : ℕ) → i * 2 + 1 < length a → FirstChild a i (child_of a i)
unfolding child_of
child_of-FirstChild a i h =
    let l = i * 2 + 1 in
    let f = compare-flip (head_at a (l + 1)) (head_at a l) in
    elim (Bool-cases
      (ltb (l + 1) (length a) && is_less (compare (head_at a (l + 1)) (head_at a l)))) [
        | inl e ↦ rw e (record {
          in_heap = ground arith;
          is_child = inr (omega arith);
          first = λ c r p q. elim (child_cases c i p r) [
            | inl t ↦ rw t (at_most-total (head_at a l) (head_at a (l + 1)) (ground arith))
            | inr t ↦ rw t (at_most_refl (head_at a (l + 1)))
          ];
        })
        | inr e ↦ rw e (record {
          in_heap = h;
          is_child = inl (omega arith);
          first = λ c r p q. elim (child_cases c i p r) [
            | inl t ↦ rw t (at_most_refl (head_at a l))
            | inr t ↦ rw t (ground arith)
          ];
        })
      ]

-- One round: the child takes the place of the hole, and the head would take the child's.
module _ (heap : List Head) (head : Head) (i m : ℕ) (hi : i < length heap) (hm : m < length heap)
    (ne : i ≢ m) where
  abbrev old : List Head
  old = set heap i head

  abbrev hole : List Head
  hole = set heap i (head_at heap m)

  abbrev new : List Head
  new = set hole m head

  new-at :
      (j : ℕ)
      → head_at new j
        ≡ (if m == j then head_at old i else if i == j then head_at old m else head_at old j)
  new-at j =
      let a = head_at-set hole m j head (omega (arith, length-set heap i (head_at heap m))) in
      let b = head_at-set heap i j (head_at heap m) hi in
      let c = head_at-set heap i i head hi in
      let d = head_at-set heap i m head hi in
      let e = head_at-set heap i j head hi in ground (arith, a, b, c, d, e)

  lengths : (length new ≡ length heap) × (length old ≡ length heap)
  lengths = (length-set hole m head ∙ length-set heap i (head_at heap m), length-set heap i head)

  new-Same : Same old new
  new-Same = record {
    counts = λ p.
        let a = count-set p hole m head (omega (arith, length-set heap i (head_at heap m))) in
        let b = count-set p heap i (head_at heap m) hi in
        let c = count-set p heap i head hi in
        let d : head_at hole m ≡ head_at heap m =
          ground (arith, head_at-set heap i m (head_at heap m) hi) in
        let e = ap p d in ground (arith, a, b, c, e);
    inside = λ h x.
        let (j, l, e) = In-index new h x in
        let (u, v) = lengths in
        let f = new-at j in
        elim (Bool-cases (m == j)) [
          | inl q ↦
              let g : head_at old i ≡ h = ground (arith, f, e) in
              subst (λ z. In z old) g (In-head_at old i (omega arith))
          | inr q ↦ elim (Bool-cases (i == j)) [
            | inl r ↦
                let g : head_at old m ≡ h = ground (arith, f, e) in
                subst (λ z. In z old) g (In-head_at old m (omega arith))
            | inr r ↦
                let g : head_at old j ≡ h = ground (arith, f, e) in
                subst (λ z. In z old) g (In-head_at old j (omega arith))
          ]
        ];
  }

  new-Open :
      (lo : ℕ)
      → Open lo old i
      → FirstChild old i m
      → at_most (head_at old m) (head_at old i) ≡ true
      → Open lo new m
  new-Open lo v s below =
      let (u, w) = lengths in
      record {
        edges = λ c p q r t. ground (
          arith,
          new-at c,
          new-at (parent_of c),
          v.edges c,
          v.bridged m,
          s.first c,
          s.is_child,
          u,
          w,
        );
        bridged = λ c p q r t x.
            ground (arith, new-at c, new-at (parent_of m), v.edges c, s.is_child, u, w);
      }

child_of-set :
    (heap : List Head) (i : ℕ) (head : Head)
    → i < length heap
    → child_of (set heap i head) i ≡ child_of heap i
unfolding child_of
child_of-set heap i head h =
    let a : head_at (set heap i head) (i * 2 + 1 + 1) ≡ head_at heap (i * 2 + 1 + 1) =
      ground (arith, head_at-set heap i (i * 2 + 1 + 1) head h) in
    let b : head_at (set heap i head) (i * 2 + 1) ≡ head_at heap (i * 2 + 1) =
      ground (arith, head_at-set heap i (i * 2 + 1) head h) in
    rw (a, b, length-set heap i head) refl

-- What a sift makes of a heap that is in order below `lo`.
abbrev pub Sifted : ℕ → List Head → List Head → Type 0
Sifted lo a b = HeapFrom lo b × Same a b

-- The head stays where it is.
settled :
    (lo : ℕ) (a : List Head) (i : ℕ)
    → Open lo a i
    → ((c : ℕ)
        → 0 < c
        → c < length a
        → parent_of c ≡ i
        → at_most (head_at a i) (head_at a c) ≡ true)
    → Sifted lo a a
settled lo a i v h = (
  (λ c p q r. elim (Bool-cases (parent_of c == i)) [
    | inl e ↦ let t : parent_of c ≡ i = ground arith in rw t (h c p q t)
    | inr e ↦ v.edges c p q r (ground arith)
  ]),
  Same-self a,
)

sift_from-Sifted :
    (fuel lo : ℕ) (head : Head) (heap : List Head) (i : ℕ)
    → i < length heap
    → length heap < i + fuel
    → Open lo (set heap i head) i
    → Sifted lo (set heap i head) (sift_from fuel head heap i)
unfolding sift_from
sift_from-Sifted zero lo head heap i h f v = absurd (omega arith)
sift_from-Sifted (suc fuel) lo head heap i h f v =
    let a = set heap i head in
    let n : length a ≡ length heap = length-set heap i head in
    let m = child_of heap i in
    elim (Bool-cases (ltb (i * 2 + 1) (length heap))) [
      | inr e ↦ rw e (
          settled lo a i v (λ c p q r.
            absurd (elim (child_cases c i p r) [ inl t ↦ ground arith | inr t ↦ ground arith ])))
      | inl e ↦
          let s : FirstChild a i m =
            subst (FirstChild a i) (child_of-set heap i head h)
              (child_of-FirstChild a i (ground arith)) in
          let hm : m < length heap = omega (arith, s.in_heap) in
          let ne : i ≢ m = omega (arith, s.is_child) in
          let x : head_at a i ≡ head = ground (arith, head_at-set heap i i head h) in
          let y : head_at a m ≡ head_at heap m = ground (arith, head_at-set heap i m head h) in
          elim (Bool-cases (is_at_most (compare head (head_at heap m)))) [
            | inl k ↦
                rw (e, k)
                  (settled lo a i v (λ c p q r.
                    at_most_trans (head_at a i) (head_at a m) (head_at a c) (rw (x, y) k)
                      (s.first c r p q)))
            | inr k ↦
                let b = at_most-total head (head_at heap m) k in
                let moved = set heap i (head_at heap m) in
                let z = length-set heap i (head_at heap m) in
                let (o, t) =
                  sift_from-Sifted fuel lo head moved m (omega arith) (omega (arith, s.is_child))
                    (new-Open heap head i m h hm ne lo v s (rw (x, y) b)) in
                rw (e, k) (o, Same-then a _ _ (new-Same heap head i m h hm ne) t)
          ]
    ]

-- A sift from `i` orders the edges from `i` on, when those after it are in order.
pub sift_down-Sifted :
    (a : List Head) (i : ℕ) → i < length a → HeapFrom (suc i) a → Sifted i a (sift_down a i)
unfolding sift_down
sift_down-Sifted a i h f =
    let e = set-same a i in
    subst (λ x. Sifted i x (sift_from (length a + 1) (head_at a i) a i)) e
      (sift_from-Sifted (length a + 1) i (head_at a i) a i h (omega arith) (
        subst (λ x. Open i x i) (sym e)
          (record {
            edges = λ c p q r n. f c p q (omega arith);
            bridged = λ c p q r x y. absurd (omega arith);
          })))

pub heapify-Sifted :
    (i : ℕ) (a : List Head) → i ≤ length a → HeapFrom i a → Sifted 0 a (heapify i a)
unfolding heapify
heapify-Sifted zero a h f = (f, Same-self a)
heapify-Sifted (suc i) a h f =
    let (g, s) = sift_down-Sifted a i h f in
    let (k, t) =
      heapify-Sifted i (sift_down a i) (omega (arith, Same-length a (sift_down a i) s)) g in
    (k, Same-then a _ _ s t)

-- The root of a heap comes first.
root-first_below :
    (k : ℕ) (a : List Head) (i : ℕ)
    → HeapFrom 0 a
    → i < k
    → i < length a
    → at_most (head_at a 0) (head_at a i) ≡ true
root-first_below zero a i h f p = absurd (omega arith)
root-first_below (suc k) a i h f p = elim (Bool-cases (i == 0)) [
  | inl e ↦ let t : i ≡ 0 = ground arith in rw t (at_most_refl (head_at a 0))
  | inr e ↦
      at_most_trans (head_at a 0) (head_at a (parent_of i)) (head_at a i)
        (root-first_below k a (parent_of i) h (ground arith) (ground arith))
        (h i (ground arith) p (omega arith))
]

pub root-first : (a : List Head) (g : Head) → HeapFrom 0 a → In g a → at_most (head_at a 0) g ≡ true
root-first a g h x =
    let (i, l, e) = In-index a g x in
    subst (λ z. at_most (head_at a 0) z ≡ true) e (root-first_below (suc i) a i h (omega arith) l)
