-- ===== src/Unified/Pages/Reference.antt =====
-- worker/src/unified/shard_merge.ts: a merge of pages without a heap, which looks at every page for
-- the row that comes next.
use one_mail.Base.{
  ℕ, zero, suc, ◌+◌, ◌<◌, ◌≡◌, refl, sym, ap, ◌∙◌, subst, inl, inr, Option, none, some, List, [],
  ◌∷◌, true, false, not, ◌==◌, if◌then◌else◌, arith, Bool-cases, Option-cases,
}
use one_mail.Unified.Pages.{Row, Head, compare_email_order, compare, is_at_most, page_at}
use one_mail.Unified.Pages.Order.{at_most, compare-flip}

-- The first of the rows that stand first in the pages, with its page: the earlier page where two
-- rows have one place in the order.
unfoldable pub next_row : ℕ → List (List Row) → Option (ℕ × Row)
next_row page [] = none
next_row page ([] ∷ rests) = next_row (suc page) rests
next_row page ((row ∷ _) ∷ rests) = elim (next_row (suc page) rests) [
  | none ↦ some (page, row)
  | some (other, later) ↦
      if is_at_most (compare_email_order row later) then some (page, row) else some (other, later)
]

abbrev pub tail : List Row → List Row
tail [] = []
tail (_ ∷ rows) = rows

-- The pages without the first row of one of them.
abbrev pub drop_front : List (List Row) → ℕ → List (List Row)
drop_front [] p = []
drop_front (rest ∷ rests) zero = tail rest ∷ rests
drop_front (rest ∷ rests) (suc p) = rest ∷ drop_front rests p

-- The first rows of all pages, in their order.
unfoldable pub merged_rows : ℕ → List (List Row) → List Row
unfolding next_row
merged_rows zero rests = []
merged_rows (suc n) rests = elim (next_row 0 rests) [
  | none ↦ []
  | some (page, row) ↦ row ∷ merged_rows n (drop_front rests page)
]

pub page_at-drop_front :
    (rests : List (List Row)) (p q : ℕ)
    → page_at (drop_front rests p) q ≡ (if p == q then tail (page_at rests q) else page_at rests q)
page_at-drop_front [] p q = ground arith
page_at-drop_front (rest ∷ rests) zero zero = refl
page_at-drop_front (rest ∷ rests) zero (suc q) = ground arith
page_at-drop_front (rest ∷ rests) (suc p) zero = ground arith
page_at-drop_front (rest ∷ rests) (suc p) (suc q) = ground (arith, page_at-drop_front rests p q)

-- A row at the front of a page, as a head.
abbrev pub front : ℕ → Row → Head
front page row = record { page = page; index = 0; row = row }

abbrev pub found : ℕ → Row → Option (ℕ × Row)
found page row = some (page, row)

abbrev pair_of : ℕ × Row → Option (ℕ × Row) → ℕ × Row
pair_of d none = d
pair_of d (some x) = x

the_page : {a b : ℕ} {x y : Row} → found a x ≡ found b y → a ≡ b
the_page {a} {b} {x} {y} e = ap (λ o. (pair_of (a, x) o).0) e

pub the_row : {a b : ℕ} {x y : Row} → found a x ≡ found b y → x ≡ y
the_row {a} {b} {x} {y} e = ap (λ o. (pair_of (a, x) o).1) e

-- What is found stands at the front of a page.
pub next_row-front :
    (page : ℕ) (rests : List (List Row)) (p : ℕ) (r : Row)
    → next_row page rests ≡ some (p, r)
    → (k : ℕ) × (p ≡ page + k) × (t : List Row) × (page_at rests k ≡ r ∷ t)
unfolding next_row
next_row-front page [] p r h = cc
next_row-front page ([] ∷ rests) p r h =
    let (k, e, t, q) = next_row-front (suc page) rests p r h in (suc k, omega arith, t, q)
next_row-front page ((x ∷ xs) ∷ rests) p r h = elim (Option-cases (next_row (suc page) rests)) [
  | inl n ↦
      let e : found page x ≡ found p r = rw n at h in
      (0, omega (arith, the_page e), xs, ap (λ y. y ∷ xs) (the_row e))
  | inr ((o, l), n) ↦ elim (Bool-cases (is_at_most (compare_email_order x l))) [
    | inl b ↦
        let e : found page x ≡ found p r = rw b at (rw n at h) in
        (0, omega (arith, the_page e), xs, ap (λ y. y ∷ xs) (the_row e))
    | inr b ↦
        let e : found o l ≡ found p r = rw b at (rw n at h) in
        let (k, u, t, q) = next_row-front (suc page) rests o l n in
        (suc k, omega (arith, u, the_page e), t, q ∙ ap (λ y. y ∷ t) (the_row e))
  ]
]

-- Between two pages the order of heads is the order of messages.
front-earlier :
    (p q : ℕ) (r s : Row)
    → p < q
    → (at_most (front p r) (front q s) ≡ is_at_most (compare_email_order r s))
      × (at_most (front q s) (front p r) ≡ not (is_at_most (compare_email_order r s)))
unfolding compare
front-earlier p q r s l =
    let f = compare-flip (front p r) (front q s) in (ground arith, ground (arith, f))

abbrev first_row : Row → List Row → Row
first_row d [] = d
first_row d (x ∷ xs) = x

-- Before the rows of later pages: the front row of this page is found, or that of a later one.
module _ (page : ℕ) (x : Row) (xs : List Row) (rests : List (List Row)) where
  here-least :
      ((q : ℕ) (s : Row) (u : List Row)
        → page_at rests q ≡ s ∷ u
        → at_most (front page x) (front (suc page + q) s) ≡ true)
      → next_row page ((x ∷ xs) ∷ rests) ≡ found page x
  unfolding next_row
  here-least l = elim (Option-cases (next_row (suc page) rests)) [
    | inl n ↦ rw n refl
    | inr ((o, s), n) ↦
        let (k, e, u, i) = next_row-front (suc page) rests o s n in
        let a = front-earlier page (suc page + k) x s (omega arith) in
        let b : is_at_most (compare_email_order x s) ≡ true = sym a.0 ∙ l k s u i in rw (n, b) refl
  ]

  later-least :
      (p : ℕ) (r : Row)
      → page < p
      → next_row (suc page) rests ≡ found p r
      → at_most (front p r) (front page x) ≡ true
      → next_row page ((x ∷ xs) ∷ rests) ≡ found p r
  unfolding next_row
  later-least p r l n h =
      let a = (front-earlier page p x r l).1 in
      let b : is_at_most (compare_email_order x r) ≡ false = ground arith in rw (n, b) refl

abbrev tail_of : List (List Row) → List (List Row)
tail_of [] = []
tail_of (_ ∷ rests) = rests

-- A front row that is at most every other is so among the later pages.
in_rest :
    (page : ℕ) (rests : List (List Row)) (k : ℕ) (r : Row)
    → ((q : ℕ) (s : Row) (u : List Row)
        → page_at rests q ≡ s ∷ u
        → at_most (front (page + suc k) r) (front (page + q) s) ≡ true)
    → (q : ℕ) (s : Row) (u : List Row) → page_at (tail_of rests) q ≡ s ∷ u
    → at_most (front (suc page + k) r) (front (suc page + q) s) ≡ true
in_rest page [] k r l q s u i = cc
in_rest page (x ∷ rests) k r l q s u i =
    let e : (j : ℕ) → page + suc j ≡ suc page + j = λ j. omega arith in
    subst (λ x. at_most (front x r) (front (suc page + q) s) ≡ true) (e k)
      (subst (λ x. at_most (front (page + suc k) r) (front x s) ≡ true) (e q) (l (suc q) s u i))

-- The front row that is at most every other is the one that is found.
pub next_row-least :
    (page : ℕ) (rests : List (List Row)) (k : ℕ) (r : Row) (t : List Row)
    → page_at rests k ≡ r ∷ t
    → ((q : ℕ) (s : Row) (u : List Row)
        → page_at rests q ≡ s ∷ u
        → at_most (front (page + k) r) (front (page + q) s) ≡ true)
    → next_row page rests ≡ some (page + k, r)
unfolding next_row
next_row-least page [] k r t h l = cc
next_row-least page ([] ∷ rests) zero r t h l = cc
next_row-least page ([] ∷ rests) (suc k) r t h l =
    let e : page + suc k ≡ suc page + k = omega arith in
    rw e (next_row-least (suc page) rests k r t h (in_rest page ([] ∷ rests) k r l))
next_row-least page ((x ∷ xs) ∷ rests) zero r t h l =
    let e : page + 0 ≡ page = omega arith in
    let y : x ≡ r = ap (first_row x) h in
    let f : (j : ℕ) → page + suc j ≡ suc page + j = λ j. omega arith in
    rw (e, sym y)
      (here-least page x xs rests (λ q s u i.
        subst (λ z. at_most (front page z) (front (suc page + q) s) ≡ true) (sym y)
          (subst (λ z. at_most (front z r) (front (suc page + q) s) ≡ true) e
            (subst (λ z. at_most (front (page + 0) r) (front z s) ≡ true) (f q)
              (l (suc q) s u i)))))
next_row-least page ((x ∷ xs) ∷ rests) (suc k) r t h l =
    let e : page + suc k ≡ suc page + k = omega arith in
    let z : page + 0 ≡ page = omega arith in
    let n = next_row-least (suc page) rests k r t h (in_rest page ((x ∷ xs) ∷ rests) k r l) in
    later-least page x xs rests (page + suc k) r (omega arith) (rw e n)
      (subst (λ w. at_most (front (page + suc k) r) (front w x) ≡ true) z (l 0 x xs refl))

-- Nothing is found in pages without rows.
pub next_row-none :
    (page : ℕ) (rests : List (List Row))
    → ((q : ℕ) → page_at rests q ≡ [])
    → next_row page rests ≡ none
unfolding next_row
next_row-none page [] h = refl
next_row-none page ([] ∷ rests) h = next_row-none (suc page) rests (λ q. h (suc q))
next_row-none page ((x ∷ xs) ∷ rests) h = let e = h 0 in cc

-- A round of the reference.
pub merged_rows-end :
    (n : ℕ) (rests : List (List Row)) → next_row 0 rests ≡ none → merged_rows (suc n) rests ≡ []
unfolding merged_rows
merged_rows-end n rests e = rw (merged_rows, e) refl

pub merged_rows-next :
    (n : ℕ) (rests : List (List Row)) (page : ℕ) (row : Row)
    → next_row 0 rests ≡ found page row
    → merged_rows (suc n) rests ≡ row ∷ merged_rows n (drop_front rests page)
unfolding merged_rows
merged_rows-next n rests page row e = rw (merged_rows, e) refl
