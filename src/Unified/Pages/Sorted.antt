-- ===== src/Unified/Pages/Sorted.antt =====
-- worker/src/unified/shard_merge.ts: sorted pages give a sorted list, which leaves out no row.
use one_mail.Base.{
  ℕ, zero, suc, ◌+◌, ◌-◌, ◌≡◌, refl, sym, ap, ◌∙◌, subst, inl, inr, none, List, [], ◌∷◌, Bool, true,
  false, ltb, ◌==◌, if◌then◌else◌, length, In, arith, Bool-cases, Option-cases,
}
use one_mail.Unified.Merge.{drop_first}
use one_mail.Unified.Pages.{
  Row, compare_email_order, compare, is_at_most, page_at, merge_sorted_email_pages,
}
use one_mail.Unified.Pages.Order.{at_most, at_most-total, at_most_refl, at_most_trans}
use one_mail.Unified.Pages.Reference.{
  next_row, tail, drop_front, merged_rows, page_at-drop_front, front, found, the_row,
  next_row-front, merged_rows-end, merged_rows-next,
}
use one_mail.Unified.Pages.Merged.{merge_sorted_email_pages-merged_rows}

-- `compareEmailOrder(a, b) <= 0`
abbrev pub row_at_most : Row → Row → Bool
row_at_most a b = is_at_most (compare_email_order a b)

-- Every row comes before those after it.
abbrev pub Sorted : List Row → Type 0
Sorted [] = Unit
Sorted (x ∷ xs) = ((y : Row) → In y xs → row_at_most x y ≡ true) × Sorted xs

on_one_page : (a b : Row) → at_most (front 0 a) (front 0 b) ≡ row_at_most a b
unfolding compare
on_one_page a b = ground arith

row_at_most_refl : (a : Row) → row_at_most a a ≡ true
row_at_most_refl a = sym (on_one_page a a) ∙ at_most_refl (front 0 a)

row_at_most-total : (a b : Row) → row_at_most a b ≡ false → row_at_most b a ≡ true
row_at_most-total a b h =
    sym (on_one_page b a) ∙ at_most-total (front 0 a) (front 0 b) (on_one_page a b ∙ h)

row_at_most_trans :
    (a b c : Row) → row_at_most a b ≡ true → row_at_most b c ≡ true → row_at_most a c ≡ true
row_at_most_trans a b c h k =
    sym (on_one_page a c)
    ∙ at_most_trans (front 0 a) (front 0 b) (front 0 c) (on_one_page a b ∙ h) (on_one_page b c ∙ k)

-- Where nothing is found no page has a row.
next_row-empty :
    (page : ℕ) (rests : List (List Row))
    → next_row page rests ≡ none
    → (q : ℕ) → page_at rests q ≡ []
unfolding next_row
next_row-empty page [] h q = refl
next_row-empty page ([] ∷ rests) h zero = refl
next_row-empty page ([] ∷ rests) h (suc q) = next_row-empty (suc page) rests h q
next_row-empty page ((x ∷ xs) ∷ rests) h q = elim (Option-cases (next_row (suc page) rests)) [
  | inl n ↦ let e : found page x ≡ none = rw n at h in cc
  | inr ((o, l), n) ↦ elim (Bool-cases (is_at_most (compare_email_order x l))) [
    | inl b ↦ let e : found page x ≡ none = rw b at (rw n at h) in cc
    | inr b ↦ let e : found o l ≡ none = rw b at (rw n at h) in cc
  ]
]

abbrev first_or : Row → List Row → Row
first_or d [] = d
first_or d (x ∷ xs) = x

-- A row before the front rows of all pages.
abbrev First : Row → List (List Row) → Type 0
First r rests = (q : ℕ) (s : Row) (u : List Row) → page_at rests q ≡ s ∷ u → row_at_most r s ≡ true

First-cons :
    (y x : Row) (xs : List Row) (rests : List (List Row))
    → row_at_most y x ≡ true
    → First y rests
    → First y ((x ∷ xs) ∷ rests)
First-cons y x xs rests h f zero s u i = subst (λ z. row_at_most y z ≡ true) (ap (first_or x) i) h
First-cons y x xs rests h f (suc q) s u i = f q s u i

First-skip : (y : Row) (rests : List (List Row)) → First y rests → First y ([] ∷ rests)
First-skip y rests f zero s u i = cc
First-skip y rests f (suc q) s u i = f q s u i

-- What is found comes before the front row of every page.
next_row-First :
    (page : ℕ) (rests : List (List Row)) (p : ℕ) (r : Row)
    → next_row page rests ≡ found p r
    → First r rests
unfolding next_row
next_row-First page [] p r h = cc
next_row-First page ([] ∷ rests) p r h = First-skip r rests (next_row-First (suc page) rests p r h)
next_row-First page ((x ∷ xs) ∷ rests) p r h = elim (Option-cases (next_row (suc page) rests)) [
  | inl n ↦
      let e : found page x ≡ found p r = rw n at h in
      subst (λ z. First z ((x ∷ xs) ∷ rests)) (the_row e)
        (First-cons x x xs rests (row_at_most_refl x)
          (λ q s u i. let t = next_row-empty (suc page) rests n q in cc))
  | inr ((o, l), n) ↦
      let f = next_row-First (suc page) rests o l n in
      elim (Bool-cases (is_at_most (compare_email_order x l))) [
        | inl b ↦
            let e : found page x ≡ found p r = rw b at (rw n at h) in
            subst (λ z. First z ((x ∷ xs) ∷ rests)) (the_row e)
              (First-cons x x xs rests (row_at_most_refl x)
                (λ q s u i. row_at_most_trans x l s b (f q s u i)))
        | inr b ↦
            let e : found o l ≡ found p r = rw b at (rw n at h) in
            subst (λ z. First z ((x ∷ xs) ∷ rests)) (the_row e)
              (First-cons l x xs rests (row_at_most-total x l b) f)
      ]
]

-- Every page is sorted.
abbrev pub AllSorted : List (List Row) → Type 0
AllSorted rests = (q : ℕ) → Sorted (page_at rests q)

tail-Sorted : (rows : List Row) → Sorted rows → Sorted (tail rows)
tail-Sorted [] h = tt
tail-Sorted (x ∷ xs) h = h.1

drop_front-AllSorted :
    (rests : List (List Row)) (p : ℕ) → AllSorted rests → AllSorted (drop_front rests p)
drop_front-AllSorted rests p h q = elim (Bool-cases (p == q)) [
  | inl e ↦ rw (page_at-drop_front rests p q, e) (tail-Sorted (page_at rests q) (h q))
  | inr e ↦ rw (page_at-drop_front rests p q, e) (h q)
]

In-tail : (rows : List Row) (y : Row) → In y (tail rows) → In y rows
In-tail [] y i = i
In-tail (x ∷ xs) y i = inr i

In-drop_front :
    (rests : List (List Row)) (p q : ℕ) (y : Row)
    → In y (page_at (drop_front rests p) q)
    → In y (page_at rests q)
In-drop_front rests p q y i = elim (Bool-cases (p == q)) [
  | inl e ↦ In-tail (page_at rests q) y (rw (page_at-drop_front rests p q, e) at i)
  | inr e ↦ rw (page_at-drop_front rests p q, e) at i
]

-- A row that is merged is of a page.
merged_rows-In :
    (n : ℕ) (rests : List (List Row)) (y : Row)
    → In y (merged_rows n rests)
    → (q : ℕ) × In y (page_at rests q)
unfolding merged_rows
merged_rows-In zero rests y i = elim i [ ]
merged_rows-In (suc n) rests y i = elim (Option-cases (next_row 0 rests)) [
  | inl e ↦ elim (rw (merged_rows-end n rests e) at i) [ ]
  | inr ((p, r), e) ↦ elim (rw (merged_rows-next n rests p r e) at i) [
    | inl t ↦ let (k, a, u, b) = next_row-front 0 rests p r e in (k, subst (In y) (sym b) (inl t))
    | inr j ↦
        let (q, m) = merged_rows-In n (drop_front rests p) y j in (q, In-drop_front rests p q y m)
  ]
]

-- A row before the front of a sorted page is before all its rows.
First-In :
    (r : Row) (rows : List Row) (y : Row)
    → ((s : Row) (u : List Row) → rows ≡ s ∷ u → row_at_most r s ≡ true)
    → Sorted rows
    → In y rows
    → row_at_most r y ≡ true
First-In r [] y f h i = elim i [ ]
First-In r (x ∷ xs) y f h (inl e) = subst (λ z. row_at_most r z ≡ true) e (f x xs refl)
First-In r (x ∷ xs) y f h (inr i) = row_at_most_trans r x y (f x xs refl) (h.0 y i)

merged_rows-Sorted :
    (n : ℕ) (rests : List (List Row)) → AllSorted rests → Sorted (merged_rows n rests)
unfolding merged_rows
merged_rows-Sorted zero rests h = tt
merged_rows-Sorted (suc n) rests h = elim (Option-cases (next_row 0 rests)) [
  | inl e ↦ rw (merged_rows-end n rests e) tt
  | inr ((p, r), e) ↦
      let f = next_row-First 0 rests p r e in
      rw (merged_rows-next n rests p r e) (
        (λ y i.
            let (q, m) = merged_rows-In n (drop_front rests p) y i in
            First-In r (page_at rests q) y (f q) (h q) (In-drop_front rests p q y m)),
        merged_rows-Sorted n (drop_front rests p) (drop_front-AllSorted rests p h),
      )
]

drop-Sorted : (n : ℕ) (rows : List Row) → Sorted rows → Sorted (drop_first n rows)
drop-Sorted zero rows h = h
drop-Sorted (suc n) [] h = tt
drop-Sorted (suc n) (x ∷ xs) h = drop-Sorted n xs h.1

-- The number of rows in all pages.
abbrev pub total : List (List Row) → ℕ
total [] = 0
total (rows ∷ rests) = length rows + total rests

total-drop_front :
    (rests : List (List Row)) (p : ℕ) (r : Row) (t : List Row)
    → page_at rests p ≡ r ∷ t
    → total rests ≡ suc (total (drop_front rests p))
total-drop_front [] p r t h = cc
total-drop_front ([] ∷ rests) zero r t h = cc
total-drop_front ((x ∷ xs) ∷ rests) zero r t h = omega arith
total-drop_front (rows ∷ rests) (suc p) r t h = omega (arith, total-drop_front rests p r t h)

total-empty : (rests : List (List Row)) → ((q : ℕ) → page_at rests q ≡ []) → total rests ≡ 0
total-empty [] h = refl
total-empty (rows ∷ rests) h =
    let l : length rows ≡ 0 = ap length (h 0) in omega (arith, total-empty rests (λ q. h (suc q)))

abbrev pub smaller : ℕ → ℕ → ℕ
smaller a b = if ltb a b then a else b

merged_rows-total :
    (n : ℕ) (rests : List (List Row)) → length (merged_rows n rests) ≡ smaller n (total rests)
unfolding merged_rows
merged_rows-total zero rests = ground arith
merged_rows-total (suc n) rests = elim (Option-cases (next_row 0 rests)) [
  | inl e ↦
      let t = total-empty rests (next_row-empty 0 rests e) in
      rw (merged_rows-end n rests e, t) (ground arith)
  | inr ((p, r), e) ↦
      let (k, a, u, b) = next_row-front 0 rests p r e in
      let z : k ≡ p = omega arith in
      let t = total-drop_front rests p r u (subst (λ x. page_at rests x ≡ r ∷ u) z b) in
      let m = merged_rows-total n (drop_front rests p) in
      rw (merged_rows-next n rests p r e) (ground arith)
]

length-drop_first : (n : ℕ) (rows : List Row) → length (drop_first n rows) ≡ length rows - n
length-drop_first zero rows = omega arith
length-drop_first (suc n) [] = omega arith
length-drop_first (suc n) (x ∷ xs) = omega (arith, length-drop_first n xs)

-- The merge of sorted pages is sorted, and it is as long as it can be: it ends after `out_limit` rows or
-- with the last row of the pages, whichever comes first.
pub merge_sorted_email_pages-Sorted :
    (pages : List (List Row)) (out_limit skip : ℕ)
    → AllSorted pages
    → Sorted (merge_sorted_email_pages pages out_limit skip)
      × (length (merge_sorted_email_pages pages out_limit skip)
          ≡ smaller out_limit (total pages - skip))
merge_sorted_email_pages-Sorted pages out_limit skip h =
    let e = merge_sorted_email_pages-merged_rows pages out_limit skip in
    let n = merged_rows-total (skip + out_limit) pages in
    let d = length-drop_first skip (merged_rows (skip + out_limit) pages) in
    rw e (drop-Sorted skip _ (merged_rows-Sorted (skip + out_limit) pages h), ground (arith, n, d))
