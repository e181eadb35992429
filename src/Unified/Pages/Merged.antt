-- ===== src/Unified/Pages/Merged.antt =====
-- worker/src/unified/shard_merge.ts: the merge on the heap against the merge that looks at every page.
use one_mail.Base.{
  ℕ, zero, suc, ◌+◌, ◌-◌, ◌/◌, ◌≤◌, ◌≡◌, refl, sym, ap, ◌∙◌, subst, inl, inr, none, some, List, [],
  ◌∷◌, true, false, ltb, leb, ◌==◌, if◌then◌else◌, length, In, arith, Bool-cases, Option-cases,
}
use one_mail.Unified.Merge.{drop_first}
use one_mail.Unified.Pages.{
  Row, Head, head_at, get_elem?, page_at, compare, heads, shrink, sift_down, advance, merge_loop,
  merge_sorted_email_pages,
}
use one_mail.Unified.Pages.Order.{at_most}
use one_mail.Unified.Pages.Arrays.{count, count-In, count-found}
use one_mail.Unified.Pages.Sift.{HeapFrom, Same, sift_down-Sifted, heapify-Sifted, root-first}
use one_mail.Unified.Pages.Reference.{
  next_row, tail, drop_front, merged_rows, page_at-drop_front, front, found, next_row-least,
  next_row-none, merged_rows-end, merged_rows-next,
}
use one_mail.Unified.Pages.Heads.{
  filled, of_page, heads-counted, Shows, heads-Shows, drop-end, drop-next, replaced-HeapFrom,
  shrink-Same, shrink-HeapFrom,
}

-- The heap holds one head for each page with rows left, and it shows the first of them.
record Covers (pages : List (List Row)) (heap : List Head) (rests : List (List Row)) : Type 0 where
  shows : (h : Head) → In h heap → Shows (page_at pages h.page) h (page_at rests h.page)
  counted : (q : ℕ) → count (of_page q) heap ≡ filled (page_at rests q)

Same-Covers :
    (pages rests : List (List Row)) (a b : List Head)
    → Same a b
    → Covers pages a rests
    → Covers pages b rests
Same-Covers pages rests a b s v = record {
  shows = λ h i. v.shows h (s.inside h i);
  counted = λ q. s.counts (of_page q) ∙ v.counted q;
}

heads-Covers : (pages : List (List Row)) → Covers pages (heads 0 pages) pages
heads-Covers pages = record {
  shows = λ h i.
      let (k, e, s) = heads-Shows 0 pages h i in
      let p : k ≡ h.page = omega arith in
      subst (λ z. Shows (page_at pages z) h (page_at pages z)) p s;
  counted = λ q.
      let e : 0 + q ≡ q = omega arith in
      subst (λ z. count (of_page z) (heads 0 pages) ≡ filled (page_at pages q)) e
        (heads-counted 0 pages q);
}

filled_one : (rows : List Row) (r : Row) (t : List Row) → rows ≡ r ∷ t → filled rows ≡ 1
filled_one rows r t e = ap filled e

empty_page : (rows : List Row) → filled rows ≡ 0 → rows ≡ []
empty_page [] h = refl
empty_page (x ∷ xs) h = absurd (omega arith)

row_of : Row → List Row → Row
row_of d [] = d
row_of d (x ∷ xs) = x

-- The root of the heap is the row that comes next.
module _ (pages rests : List (List Row)) (h : Head) (heap : List Head) (f : HeapFrom 0 (h ∷ heap))
    (v : Covers pages (h ∷ heap) rests) where
  root-at_most :
      (q : ℕ) (s : Row) (u : List Row)
      → page_at rests q ≡ s ∷ u
      → at_most (front h.page h.row) (front q s) ≡ true
  unfolding compare head_at row_of
  root-at_most q s u e =
      let n = filled_one (page_at rests q) s u e in
      let (g, i, p) = count-found (of_page q) (h ∷ heap) (omega (arith, v.counted q)) in
      let a : g.page ≡ q = ground arith in
      let b : g.row ≡ s =
        ap (row_of s) (sym (v.shows g i) ∙ subst (λ z. page_at rests z ≡ s ∷ u) (sym a) e) in
      subst (λ z. at_most (front h.page h.row) (front q z) ≡ true) b
        (subst (λ z. at_most (front h.page h.row) (front z g.row) ≡ true) a
          (root-first (h ∷ heap) g f i))

  root-next_row : next_row 0 rests ≡ found h.page h.row
  root-next_row =
      let e : (q : ℕ) → 0 + q ≡ q = λ q. omega arith in
      subst (λ z. next_row 0 rests ≡ found z h.row) (e h.page)
        (next_row-least 0 rests h.page h.row _ (v.shows h (inl refl)) (λ q s u i.
          subst (λ z. at_most (front z h.row) (front (0 + q) s) ≡ true) (sym (e h.page))
            (subst (λ z. at_most (front h.page h.row) (front z s) ≡ true) (sym (e q))
              (root-at_most q s u i))))

  -- The other heads are of other pages.
  other_page : (g : Head) → In g heap → (h.page == g.page) ≡ false
  other_page g i = elim (Bool-cases (h.page == g.page)) [
    | inr e ↦ e
    | inl e ↦
        let a = v.counted h.page in
        let b = filled_one (page_at rests h.page) h.row _ (v.shows h (inl refl)) in
        let c = count-In (of_page h.page) heap g i (ground arith) in absurd (ground arith)
  ]

  other-Shows :
      (g : Head)
      → In g heap
      → Shows (page_at pages g.page) g (page_at (drop_front rests h.page) g.page)
  other-Shows g i =
      let e = other_page g i in rw (page_at-drop_front rests h.page g.page, e) (v.shows g (inr i))

  rest-page :
      page_at (drop_front rests h.page) h.page ≡ drop_first (h.index + 1) (page_at pages h.page)
  rest-page =
      let e : (h.page == h.page) ≡ true = ground arith in
      let i : h.index + 1 ≡ suc h.index = omega arith in
      rw (page_at-drop_front rests h.page h.page, e, i) (ap tail (v.shows h (inl refl)))

  rest-filled :
      (q : ℕ)
      → (h.page == q) ≡ false
      → filled (page_at (drop_front rests h.page) q) ≡ filled (page_at rests q)
  rest-filled q e = rw (page_at-drop_front rests h.page q, e) refl

  next-Covers :
      (row : Row)
      → get_elem? (page_at pages h.page) (h.index + 1) ≡ some row
      → Covers pages
          (record { page = h.page; index = h.index + 1; row = row } ∷ heap)
          (drop_front rests h.page)
  next-Covers row e =
      let d = rest-page ∙ drop-next (page_at pages h.page) (h.index + 1) row e in
      record {
        shows = λ g i. elim i [
          | inl q ↦
              subst
                (λ (z : Head).
                  Shows (page_at pages z.page) z (page_at (drop_front rests h.page) z.page))
                q d
          | inr j ↦ other-Shows g j
        ];
        counted = λ q. elim (Bool-cases (h.page == q)) [
          | inl p ↦
              let s : h.page ≡ q = ground arith in
              let a = filled_one (page_at (drop_front rests h.page) h.page) row _ d in
              let b = filled_one (page_at rests h.page) h.row _ (v.shows h (inl refl)) in
              subst
                (λ z. count (of_page z) (h ∷ heap) ≡ filled (page_at (drop_front rests h.page) z)) s
                (v.counted h.page ∙ b ∙ sym a)
          | inr p ↦ v.counted q ∙ sym (rest-filled q p)
        ];
      }

  end-Covers :
      get_elem? (page_at pages h.page) (h.index + 1) ≡ none
      → Covers pages heap (drop_front rests h.page)
  end-Covers e =
      let d = rest-page ∙ drop-end (page_at pages h.page) (h.index + 1) e in
      record {
        shows = other-Shows;
        counted = λ q. elim (Bool-cases (h.page == q)) [
          | inl p ↦
              let s : h.page ≡ q = ground arith in
              let b = filled_one (page_at rests h.page) h.row _ (v.shows h (inl refl)) in
              let c = v.counted h.page in
              let n : count (of_page h.page) heap ≡ 0 = ground arith in
              subst (λ z. count (of_page z) heap ≡ filled (page_at (drop_front rests h.page) z)) s
                (n ∙ sym (ap filled d))
          | inr p ↦
              let c = v.counted q in
              let n : count (of_page q) heap ≡ filled (page_at rests q) = ground arith in
              n ∙ sym (rest-filled q p)
        ];
      }

  -- A heap whose root may be out of place is put in order.
  ordered :
      (moved : List Head)
      → HeapFrom 1 moved
      → Covers pages moved (drop_front rests h.page)
      → HeapFrom 0 (if ltb 0 (length moved) then sift_down moved 0 else moved)
        × Covers pages
            (if ltb 0 (length moved) then sift_down moved 0 else moved)
            (drop_front rests h.page)
  ordered moved g w = elim (Bool-cases (ltb 0 (length moved))) [
    | inl e ↦
        let (o, s) = sift_down-Sifted moved 0 (ground arith) g in
        rw e (o, Same-Covers pages _ moved _ s w)
    | inr e ↦ rw e ((λ c p q r. absurd (ground arith)), w)
  ]

  advance-Covers :
      HeapFrom 0 (advance pages h heap)
      × Covers pages (advance pages h heap) (drop_front rests h.page)
  unfolding advance
  advance-Covers = elim (Option-cases (get_elem? (page_at pages h.page) (h.index + 1))) [
    | inl e ↦ rw e (
        ordered (shrink (h ∷ heap)) (shrink-HeapFrom h heap f)
          (Same-Covers pages _ heap _ (shrink-Same h heap) (end-Covers e)))
    | inr (row, e) ↦ rw e (ordered _ (replaced-HeapFrom h _ heap f) (next-Covers row e))
  ]

drop-nil : (n : ℕ) → drop_first {A = Row} n [] ≡ []
drop-nil zero = refl
drop-nil (suc n) = refl

-- The loop of the merge gives the rows of the reference, from the first that is not skipped.
merge_loop-merged_rows :
    (pages : List (List Row)) (skip left consumed : ℕ) (heap : List Head) (rests : List (List Row))
    → HeapFrom 0 heap
    → Covers pages heap rests
    → merge_loop pages skip left consumed heap
      ≡ drop_first (skip - consumed) (merged_rows left rests)
unfolding merge_loop merged_rows
merge_loop-merged_rows pages skip zero consumed heap rests f v = sym (drop-nil (skip - consumed))
merge_loop-merged_rows pages skip (suc left) consumed [] rests f v =
    let e = next_row-none 0 rests (λ q. empty_page _ (sym (v.counted q))) in
    rw (merged_rows-end left rests e) (sym (drop-nil (skip - consumed)))
merge_loop-merged_rows pages skip (suc left) consumed (h ∷ heap) rests f v =
    let (g, w) = advance-Covers pages rests h heap f v in
    let e = root-next_row pages rests h heap f v in
    let r =
      merge_loop-merged_rows pages skip left (consumed + 1) (advance pages h heap)
        (drop_front rests h.page) g w in
    rw (merged_rows-next left rests h.page h.row e) (elim (Bool-cases (leb skip consumed)) [
      | inl b ↦
          let z : skip - consumed ≡ 0 = ground arith in
          let y : skip - (consumed + 1) ≡ 0 = ground arith in rw (b, z) (ap (◌∷◌ h.row) (rw y at r))
      | inr b ↦ let z : skip - consumed ≡ suc (skip - (consumed + 1)) = ground arith in rw (b, z) r
    ])

length-merged_rows : (n : ℕ) (rests : List (List Row)) → length (merged_rows n rests) ≤ n
unfolding merged_rows
length-merged_rows zero rests = omega arith
length-merged_rows (suc n) rests = elim (Option-cases (next_row 0 rests)) [
  | inl e ↦ rw (merged_rows-end n rests e) (omega arith)
  | inr ((p, r), e) ↦
      rw (merged_rows-next n rests p r e) (omega (arith, length-merged_rows n (drop_front rests p)))
]

drop-all : (n : ℕ) (rows : List Row) → length rows ≤ n → drop_first n rows ≡ []
drop-all n [] h = drop-nil n
drop-all zero (x ∷ xs) h = absurd (omega arith)
drop-all (suc n) (x ∷ xs) h = drop-all n xs (omega arith)

-- The merge on a heap gives what a merge gives that looks at the front row of every page for each row:
-- of the first `skip + out_limit` rows that come next, all but the first `skip`, whatever the pages hold.
pub merge_sorted_email_pages-merged_rows :
    (pages : List (List Row)) (out_limit skip : ℕ)
    → merge_sorted_email_pages pages out_limit skip
      ≡ drop_first skip (merged_rows (skip + out_limit) pages)
unfolding merge_sorted_email_pages
merge_sorted_email_pages-merged_rows pages out_limit skip = elim (Bool-cases (out_limit == 0)) [
  | inl e ↦ rw e (
      sym (
        drop-all skip (merged_rows (skip + out_limit) pages)
          (let l = length-merged_rows (skip + out_limit) pages in ground arith)))
  | inr e ↦
      let all = heads 0 pages in
      let (f, s) =
        heapify-Sifted (length all / 2) all (omega arith) (λ c p q r. absurd (omega arith)) in
      let z : skip - 0 ≡ skip = omega arith in
      let m =
        merge_loop-merged_rows pages skip (skip + out_limit) 0 _ pages f
          (Same-Covers pages pages all _ s (heads-Covers pages)) in
      rw e (rw z at m)
]
