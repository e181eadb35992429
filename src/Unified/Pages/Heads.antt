-- ===== src/Unified/Pages/Heads.antt =====
-- worker/src/unified/shard_merge.ts: the heads of the pages, and a heap that loses its first head.
use one_mail.Base.{
  ℕ, zero, suc, ◌+◌, ◌≤◌, ◌<◌, ◌≡◌, refl, sym, ap, subst, inl, inr, Option, none, some, List, [],
  ◌∷◌, Bool, true, ◌==◌, if◌then◌else◌, length, In, arith,
}
use one_mail.Unified.Merge.{take_first, drop_first}
use one_mail.Unified.Pages.{Row, Head, head_at, get_elem?, page_at, heads, shrink}
use one_mail.Unified.Pages.Order.{at_most}
use one_mail.Unified.Pages.Arrays.{count, In-head_at}
use one_mail.Unified.Pages.Sift.{parent_of, HeapFrom, Same, Same-self}

-- Whether rows are left in a page.
abbrev pub filled : List Row → ℕ
filled [] = 0
filled (_ ∷ _) = 1

-- The page of a head.
abbrev pub of_page : ℕ → Head → Bool
of_page q h = h.page == q

heads-later :
    (page : ℕ) (pages : List (List Row)) (q : ℕ)
    → q < page
    → count (of_page q) (heads page pages) ≡ 0
unfolding heads
heads-later page [] q l = refl
heads-later page ([] ∷ pages) q l = heads-later (suc page) pages q (omega arith)
heads-later page ((x ∷ xs) ∷ pages) q l =
    let r = heads-later (suc page) pages q (omega arith) in ground arith

pub heads-counted :
    (page : ℕ) (pages : List (List Row)) (k : ℕ)
    → count (of_page (page + k)) (heads page pages) ≡ filled (page_at pages k)
unfolding heads
heads-counted page [] k = refl
heads-counted page ([] ∷ pages) zero = heads-later (suc page) pages (page + 0) (omega arith)
heads-counted page ([] ∷ pages) (suc k) =
    let e : page + suc k ≡ suc page + k = omega arith in rw e (heads-counted (suc page) pages k)
heads-counted page ((x ∷ xs) ∷ pages) zero =
    let r = heads-later (suc page) pages (page + 0) (omega arith) in ground arith
heads-counted page ((x ∷ xs) ∷ pages) (suc k) =
    let e : page + suc k ≡ suc page + k = omega arith in
    let r =
      subst (λ z. count (of_page z) (heads (suc page) pages) ≡ filled (page_at pages k)) (sym e)
        (heads-counted (suc page) pages k) in
    ground arith

-- A head shows the row at its index, and the rows after it are still to come.
abbrev pub Shows : List Row → Head → List Row → Type 0
Shows whole h rest = rest ≡ h.row ∷ drop_first (suc h.index) whole

pub heads-Shows :
    (page : ℕ) (pages : List (List Row)) (h : Head)
    → In h (heads page pages)
    → (k : ℕ) × (h.page ≡ page + k) × Shows (page_at pages k) h (page_at pages k)
unfolding heads
heads-Shows page [] h i = elim i [ ]
heads-Shows page ([] ∷ pages) h i =
    let (k, e, s) = heads-Shows (suc page) pages h i in (suc k, omega arith, s)
heads-Shows page ((x ∷ xs) ∷ pages) h (inl e) =
    subst
      (λ (g : Head).
        (k : ℕ) × (g.page ≡ page + k)
        × Shows (page_at ((x ∷ xs) ∷ pages) k) g (page_at ((x ∷ xs) ∷ pages) k))
      e (0, omega arith, refl)
heads-Shows page ((x ∷ xs) ∷ pages) h (inr i) =
    let (k, e, s) = heads-Shows (suc page) pages h i in (suc k, omega arith, s)

-- The rows after the last, and the next row of a page.
pub drop-end : (rows : List Row) (i : ℕ) → get_elem? rows i ≡ none → drop_first i rows ≡ []
drop-end [] zero h = refl
drop-end [] (suc i) h = refl
drop-end (x ∷ xs) zero h = cc
drop-end (x ∷ xs) (suc i) h = drop-end xs i h

abbrev row_or : Row → Option Row → Row
row_or d none = d
row_or d (some r) = r

pub drop-next :
    (rows : List Row) (i : ℕ) (r : Row)
    → get_elem? rows i ≡ some r
    → drop_first i rows ≡ r ∷ drop_first (suc i) rows
drop-next [] i r h = cc
drop-next (x ∷ xs) zero r h = ap (λ o. row_or x o ∷ xs) h
drop-next (x ∷ xs) (suc i) r h = drop-next xs i r h

-- A heap without its last entry.
take-count :
    (p : Head → Bool) (n : ℕ) (a : List Head)
    → length a ≡ suc n
    → (if p (head_at a n) then 1 else 0) + count p (take_first n a) ≡ count p a
unfolding head_at
take-count p n [] h = absurd (omega arith)
take-count p zero (x ∷ []) h = refl
take-count p zero (x ∷ y ∷ a) h = absurd (omega arith)
take-count p (suc n) (x ∷ a) h = omega (arith, take-count p n a (omega arith))

take-In : (n : ℕ) (a : List Head) (h : Head) → In h (take_first n a) → In h a
take-In zero a h i = elim i [ ]
take-In (suc n) [] h i = i
take-In (suc n) (x ∷ a) h (inl e) = inl e
take-In (suc n) (x ∷ a) h (inr i) = inr (take-In n a h i)

take-length : (n : ℕ) (a : List Head) → n ≤ length a → length (take_first n a) ≡ n
take-length zero a h = refl
take-length (suc n) [] h = absurd (omega arith)
take-length (suc n) (x ∷ a) h = ap suc (take-length n a (omega arith))

take-at : (n : ℕ) (a : List Head) (j : ℕ) → j < n → head_at (take_first n a) j ≡ head_at a j
unfolding head_at
take-at zero a j h = absurd (omega arith)
take-at (suc n) [] j h = refl
take-at (suc n) (x ∷ a) zero h = refl
take-at (suc n) (x ∷ a) (suc j) h = take-at n a j (omega arith)

-- The heap is in order below an entry that is not its root, when the rest of the root's entries stay.
new_root :
    (h g : Head) (a b : List Head)
    → length b ≤ length a
    → ((j : ℕ) → j < length b → head_at b j ≡ head_at a j)
    → HeapFrom 0 (h ∷ a)
    → HeapFrom 1 (g ∷ b)
unfolding head_at
new_root h g a b l e f zero p q r = absurd (omega arith)
new_root h g a b l e f (suc c) p q r = go (parent_of (suc c)) refl
  where
    go :
        (d : ℕ)
        → parent_of (suc c) ≡ d
        → at_most (head_at (g ∷ b) (parent_of (suc c))) (head_at (g ∷ b) (suc c)) ≡ true
    go zero t = absurd (omega arith)
    go (suc d) t =
        rw (t, e d (omega arith), e c (omega arith))
          (subst (λ z. at_most (head_at (h ∷ a) z) (head_at a c) ≡ true) t
            (f (suc c) p (omega arith) (omega arith)))

pub replaced-HeapFrom : (h g : Head) (a : List Head) → HeapFrom 0 (h ∷ a) → HeapFrom 1 (g ∷ a)
replaced-HeapFrom h g a f = new_root h g a a (omega arith) (λ j l. refl) f

pub shrink-Same : (h : Head) (a : List Head) → Same a (shrink (h ∷ a))
unfolding shrink
shrink-Same h [] = Same-self []
shrink-Same h (g ∷ a) = record {
  counts = λ p. take-count p (length a) (g ∷ a) refl;
  inside = λ k i. elim i [
    | inl e ↦ subst (λ z. In z (g ∷ a)) e (In-head_at (g ∷ a) (length a) (omega arith))
    | inr j ↦ take-In (length a) (g ∷ a) k j
  ];
}

pub shrink-HeapFrom : (h : Head) (a : List Head) → HeapFrom 0 (h ∷ a) → HeapFrom 1 (shrink (h ∷ a))
unfolding shrink
shrink-HeapFrom h [] f = λ c p q r. absurd (omega arith)
shrink-HeapFrom h (g ∷ a) f =
    let n = take-length (length a) (g ∷ a) (omega arith) in
    new_root h _ (g ∷ a) (take_first (length a) (g ∷ a)) (omega arith)
      (λ j l. take-at (length a) (g ∷ a) j (omega arith)) f
