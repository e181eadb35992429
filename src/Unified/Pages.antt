-- ===== src/Unified/Pages.antt =====
-- worker/src/unified/shard_merge.ts: the order of messages, and the merge of sorted pages on a heap.
pub mod Order
pub mod Arrays
pub mod Sift
pub mod Reference
pub mod Heads
pub mod Merged
pub mod Sorted
use Prim.Native.Char.{code}
use one_mail.Base.{
  ℕ, zero, suc, ◌+◌, ◌-◌, ◌*◌, ◌/◌, String, Option, none, some, List, [], ◌∷◌, Bool, true, false,
  not, ◌&&◌, ◌||◌, Dict, ltb, leb, ◌==◌, ◌===◌, if◌then◌else◌, length, text_key,
}
use one_mail.Unified.Merge.{take_first, drop_first}

-- `MergeEmailRow`
pub record Row : Type 0 where
  pub id : String
  pub received_at : ℕ
  pub fields : Dict String String

-- The entry of a heap: a page, the index of a row in it, and the row.
pub record Head : Type 0 where
  pub page : ℕ
  pub index : ℕ
  pub row : Row

-- The sign of a comparison.
pub data Sign : Type 0 where
  less equal greater : Sign

-- How two characters compare by their UTF-16 units: those above U+FFFF start with a unit below
-- U+E000.
abbrev pub unit_class : ℕ → ℕ
unit_class c = if leb 65536 c then 1 else if leb 57344 c then 2 else 0

abbrev pub unit_before : ℕ → ℕ → Bool
unit_before c d = ltb (unit_class c) (unit_class d) || (unit_class c == unit_class d && ltb c d)

-- `s < t` on texts
unfoldable pub text_before : String → String → Bool
text_before String.[] String.[] = false
text_before String.[] (String.◌∷◌ d t) = true
text_before (String.◌∷◌ c s) String.[] = false
text_before (String.◌∷◌ c s) (String.◌∷◌ d t) =
    let rest = text_before s t in if code c == code d then rest else unit_before (code c) (code d)

-- The sign of `a - b`
abbrev pub difference : ℕ → ℕ → Sign
difference a b = if ltb a b then less else if a == b then equal else greater

-- `compareEmailOrder`
unfoldable pub compare_email_order : Row → Row → Sign
unfolding text_before
compare_email_order a b =
    if not (a.received_at == b.received_at)
    then difference b.received_at a.received_at
    else if a.id === b.id
    then equal
    else if text_before a.id b.id
    then greater
    else less

-- `||` on signs
abbrev pub or_next : Sign → Sign → Sign
or_next equal s = s
or_next less s = less
or_next greater s = greater

unfoldable pub compare : Head → Head → Sign
unfolding compare_email_order
compare a b = or_next (compare_email_order a.row b.row) (difference a.page b.page)

-- `compare(a, b) < 0` and `compare(a, b) <= 0`
abbrev pub is_less : Sign → Bool
is_less less = true
is_less _ = false

abbrev pub is_at_most : Sign → Bool
is_at_most greater = false
is_at_most _ = true

abbrev pub get_elem? {ℓ} : {A : Type ℓ} → List A → ℕ → Option A
get_elem? [] i = none
get_elem? (x ∷ xs) zero = some x
get_elem? (x ∷ xs) (suc i) = get_elem? xs i

-- `heap[i]`, with a head that no index out of range is asked for.
abbrev pub no_head : Head
no_head = record { page = 0; index = 0; row = record { id = ""; received_at = 0; fields = [] } }

unfoldable pub head_at : List Head → ℕ → Head
head_at [] i = no_head
head_at (h ∷ heap) zero = h
head_at (h ∷ heap) (suc i) = head_at heap i

-- `heap[i] = head`
abbrev pub set {ℓ} : {A : Type ℓ} → List A → ℕ → A → List A
set [] i v = []
set (x ∷ xs) zero v = v ∷ xs
set (x ∷ xs) (suc i) v = x ∷ set xs i v

-- The child of a parent that has one, the earlier of two.
unfoldable pub child_of : List Head → ℕ → ℕ
unfolding compare head_at
child_of heap parent =
    let child = parent * 2 + 1 in
    if ltb (child + 1) (length heap)
      && is_less (compare (head_at heap (child + 1)) (head_at heap child))
    then child + 1
    else child

-- The loop of `siftDown`, whose parent grows in every round: as many rounds as the heap has entries
-- are enough.
unfoldable pub sift_from : ℕ → Head → List Head → ℕ → List Head
unfolding child_of compare head_at
sift_from zero head heap parent = heap
sift_from (suc fuel) head heap parent =
    let child = child_of heap parent in
    let rest = sift_from fuel head (set heap parent (head_at heap child)) child in
    if ltb (parent * 2 + 1) (length heap)
    then if is_at_most (compare head (head_at heap child)) then set heap parent head else rest
    else set heap parent head

unfoldable pub sift_down : List Head → ℕ → List Head
unfolding sift_from head_at
sift_down heap start = sift_from (length heap + 1) (head_at heap start) heap start

-- The heads of the pages that are not empty.
unfoldable pub heads : ℕ → List (List Row) → List Head
heads page [] = []
heads page ([] ∷ pages) = heads (suc page) pages
heads page ((row ∷ _) ∷ pages) =
    record { page = page; index = 0; row = row } ∷ heads (suc page) pages

-- The loop that makes the heap, for the parents below a number from the last to the first.
unfoldable pub heapify : ℕ → List Head → List Head
unfolding sift_down
heapify zero heap = heap
heapify (suc parent) heap = heapify parent (sift_down heap parent)

-- `pages[page]`
abbrev pub page_at : List (List Row) → ℕ → List Row
page_at [] i = []
page_at (p ∷ pages) zero = p
page_at (p ∷ pages) (suc i) = page_at pages i

-- The last entry takes the place of the first.
unfoldable pub shrink : List Head → List Head
unfolding head_at
shrink [] = []
shrink (h ∷ []) = []
shrink (h ∷ g ∷ heap) = head_at (g ∷ heap) (length heap) ∷ take_first (length heap) (g ∷ heap)

-- The heap after its first row is consumed: the next row of the page, or one head less.
unfoldable pub advance : List (List Row) → Head → List Head → List Head
unfolding shrink sift_down
advance pages head heap =
    let moved : List Head = elim (get_elem? (page_at pages head.page) (head.index + 1)) [
      | none ↦ shrink (head ∷ heap)
      | some row ↦ record { page = head.page; index = head.index + 1; row = row } ∷ heap
    ] in
    if ltb 0 (length moved) then sift_down moved 0 else moved

-- The loop of the merge, for the rounds that are left.
unfoldable pub merge_loop : List (List Row) → ℕ → ℕ → ℕ → List Head → List Row
unfolding advance
merge_loop pages skip zero consumed heap = []
merge_loop pages skip (suc left) consumed [] = []
merge_loop pages skip (suc left) consumed (head ∷ heap) =
    let rest = merge_loop pages skip left (consumed + 1) (advance pages head heap) in
    if leb skip consumed then head.row ∷ rest else rest

-- `mergeSortedEmailPages`
unfoldable pub merge_sorted_email_pages : List (List Row) → ℕ → ℕ → List Row
unfolding merge_loop heads heapify
merge_sorted_email_pages pages out_limit skip =
    let all = heads 0 pages in
    if out_limit == 0
    then []
    else merge_loop pages skip (skip + out_limit) 0 (heapify (length all / 2) all)
