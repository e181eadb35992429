-- ===== src/Unified/Merge.antt =====
-- worker/src/unified/shard_merge.ts: the helpers that merge counts and texts of shards and cut
-- lists into chunks.
use one_mail.Base.{
  ℕ, zero, suc, ◌+◌, ◌≤◌, ◌<◌, ◌≡◌, ◌⊎◌, refl, ap, ◌∙◌, subst, String, Option, none, some, List, [],
  ◌∷◌, ◌++◌, Bool, true, false, ◌||◌, includes, leb, ◌==◌, ◌===◌, if◌then◌else◌, length,
  length-append, text_key, All, arith, Bool-cases, inl, inr,
}
use one_mail.Unified.ShardMap.{trim}

-- A count of a shard: `null` or missing, no count, or a count.
pub data ShardCount : Type 0 where
  missing unusable : ShardCount
  count : ℕ → ShardCount

abbrev plus : Option ℕ → ℕ → Option ℕ
plus none n = some n
plus (some sum) n = some (sum + n)

unfoldable merge_counts_from : Option ℕ → List ShardCount → Option ℕ
merge_counts_from sum [] = sum
merge_counts_from sum (count n ∷ cs) = merge_counts_from (plus sum n) cs
merge_counts_from sum (_ ∷ cs) = merge_counts_from sum cs

unfoldable pub merge_counts : List ShardCount → Option ℕ
unfolding merge_counts_from
merge_counts cs = merge_counts_from none cs

-- The set `seen` holds what `out` holds. The flag tells that the cap was reached.
unfoldable pub add_group : ℕ → List String → List String → Bool × List String
add_group cap out [] = (false, out)
add_group cap out (item ∷ items) =
    let skipped = add_group cap out items in
    let out' = out ++ (item ∷ []) in
    let rest = add_group cap out' items in
    if item === "" || includes out item
    then skipped
    else if leb cap (length out')
    then (true, out')
    else rest

unfoldable merge_from : ℕ → List String → List (Option (List String)) → List String
merge_from cap out [] = out
merge_from cap out (none ∷ gs) = merge_from cap out gs
merge_from cap out (some g ∷ gs) =
    let (full, out') = add_group cap out g in
    let rest = merge_from cap out' gs in if full then out' else rest

unfoldable pub merge_string_sets : List (Option (List String)) → ℕ → List String
unfolding merge_from
merge_string_sets groups cap = merge_from cap [] groups

abbrev pub take_first {ℓ} : {A : Type ℓ} → ℕ → List A → List A
take_first zero xs = []
take_first (suc n) [] = []
take_first (suc n) (x ∷ xs) = x ∷ take_first n xs

abbrev pub drop_first {ℓ} : {A : Type ℓ} → ℕ → List A → List A
drop_first zero xs = xs
drop_first (suc n) [] = []
drop_first (suc n) (x ∷ xs) = drop_first n xs

-- The loop of `chunkValues`, which runs at most once for each value.
unfoldable chunk_from {ℓ} : {A : Type ℓ} → ℕ → ℕ → List A → List (List A)
chunk_from fuel size [] = []
chunk_from zero size (x ∷ xs) = []
chunk_from (suc fuel) size (x ∷ xs) =
    take_first size (x ∷ xs) ∷ chunk_from fuel size (drop_first size (x ∷ xs))

unfoldable pub chunk_values {ℓ} : {A : Type ℓ} → List A → ℕ → List (List A)
unfolding chunk_from
chunk_values values size = if size == 0 then values ∷ [] else chunk_from (length values) size values

unfoldable unique_from : List String → List String → List String
unique_from out [] = out
unique_from out (v ∷ vs) =
    let t = trim v in
    let kept = unique_from out vs in
    let added = unique_from (out ++ (t ∷ [])) vs in
    if t === "" || includes out t then kept else added

unfoldable pub unique_strings : List String → List String
unfolding unique_from
unique_strings vs = unique_from [] vs

abbrev pub concat {ℓ} : {A : Type ℓ} → List (List A) → List A
concat [] = []
concat (xs ∷ xss) = xs ++ concat xss

module _ {ℓ} {A : Type ℓ} where
  take-drop : (n : ℕ) (xs : List A) → take_first n xs ++ drop_first n xs ≡ xs
  take-drop zero xs = refl
  take-drop (suc n) [] = refl
  take-drop (suc n) (x ∷ xs) = ap (λ ys. x ∷ ys) (take-drop n xs)

  length-take : (n : ℕ) (xs : List A) → length (take_first n xs) ≤ n
  length-take zero xs = omega arith
  length-take (suc n) [] = omega arith
  length-take (suc n) (x ∷ xs) = omega (arith, length-take n xs)

  length-drop : (n : ℕ) (xs : List A) → length (drop_first n xs) ≤ length xs
  length-drop zero xs = omega arith
  length-drop (suc n) [] = omega arith
  length-drop (suc n) (x ∷ xs) = omega (arith, length-drop n xs)

  -- Each chunk has from one value to as many as fit.
  abbrev pub Sized : ℕ → List (List A) → Type 0
  Sized n xss = All (λ xs. (0 < length xs) × (length xs ≤ n)) xss

  chunk_from-concat :
      (fuel size : ℕ) (xs : List A)
      → length xs ≤ fuel
      → (concat (chunk_from fuel (suc size) xs) ≡ xs)
        × Sized (suc size) (chunk_from fuel (suc size) xs)
  unfolding chunk_from
  chunk_from-concat fuel size [] h = (refl, tt)
  chunk_from-concat zero size (x ∷ xs) h = let e : ⊥ = omega arith in elim e [ ]
  chunk_from-concat (suc fuel) size (x ∷ xs) h =
      let (e, s) =
        chunk_from-concat fuel size (drop_first size xs) (omega (arith, length-drop size xs)) in
      (
        ap (λ ys. x ∷ (take_first size xs ++ ys)) e ∙ ap (λ ys. x ∷ ys) (take-drop size xs),
        ((omega arith, omega (arith, length-take size xs)), s),
      )

  -- Cutting loses nothing: the chunks, put together, are the values in their order, and each has
  -- from one value to the given size, where that size is positive.
  pub chunk_values-concat :
      (xs : List A) (size : ℕ)
      → 0 < size
      → (concat (chunk_values xs size) ≡ xs) × Sized size (chunk_values xs size)
  unfolding chunk_values
  chunk_values-concat xs zero h = let e : ⊥ = omega arith in elim e [ ]
  chunk_values-concat xs (suc n) h =
      let u : chunk_from (length xs) (suc n) xs ≡ chunk_values xs (suc n) = ground arith in
      subst (λ c. (concat c ≡ xs) × Sized (suc n) c) u
        (chunk_from-concat (length xs) n xs (omega arith))

-- No text stands twice, and none is empty.
abbrev pub Distinct : List String → Type 0
Distinct [] = Unit
Distinct (x ∷ xs) = ((x === "") ≡ false) × (includes xs x ≡ false) × Distinct xs

includes-append :
    (xs : List String) (x y : String) → includes (xs ++ (y ∷ [])) x ≡ (includes xs x || (y === x))
includes-append [] x y = ground arith
includes-append (z ∷ xs) x y = ground (arith, includes-append xs x y)

append-Distinct :
    (xs : List String) (y : String)
    → Distinct xs
    → (y === "") ≡ false
    → includes xs y ≡ false
    → Distinct (xs ++ (y ∷ []))
append-Distinct [] y d e n = (e, refl, tt)
append-Distinct (x ∷ xs) y (a, b, c) e n =
    (a, ground (arith, includes-append xs x y), append-Distinct xs y c e (ground arith))

-- What is kept of a merge: distinct texts, no more than the cap.
abbrev pub Kept : ℕ → List String → Type 0
Kept cap out = Distinct out × ((length out ≤ cap) ⊎ (length out ≤ 1))

add_group-Kept :
    (cap : ℕ) (out items : List String)
    → Distinct out
    → (length out < cap) ⊎ (length out ≡ 0)
    → Kept cap (add_group cap out items).1
      × (((add_group cap out items).0 ≡ true)
          ⊎ ((length (add_group cap out items).1 < cap) ⊎ (length (add_group cap out items).1 ≡ 0)))
unfolding add_group
add_group-Kept cap out [] d l =
    ((d, elim l [ inl a ↦ inl (omega arith) | inr a ↦ inr (omega arith) ]), inr l)
add_group-Kept cap out (item ∷ items) d l = elim (Bool-cases (item === "" || includes out item)) [
  | inl e ↦
      let u : add_group cap out items ≡ add_group cap out (item ∷ items) = ground arith in
      subst Fine u (add_group-Kept cap out items d l)
  | inr e ↦
      let d' : Distinct (out ++ (item ∷ [])) =
        append-Distinct out item d (ground arith) (ground arith) in
      let n : length (out ++ (item ∷ [])) ≡ length out + 1 = length-append out (item ∷ []) in
      elim (Bool-cases (leb cap (length (out ++ (item ∷ []))))) [
        | inl f ↦
            let u : (true, out ++ (item ∷ [])) ≡ add_group cap out (item ∷ items) = ground arith in
            subst Fine u
              ((d', elim l [ inl a ↦ inl (omega arith) | inr a ↦ inr (omega arith) ]), inl refl)
        | inr f ↦
            let u : add_group cap (out ++ (item ∷ [])) items ≡ add_group cap out (item ∷ items) =
              ground arith in
            subst Fine u (add_group-Kept cap (out ++ (item ∷ [])) items d' (inl (ground arith)))
      ]
]
  where
    Fine : Bool × List String → Type 0
    Fine r = Kept cap r.1 × ((r.0 ≡ true) ⊎ ((length r.1 < cap) ⊎ (length r.1 ≡ 0)))

merge_from-Kept :
    (cap : ℕ) (out : List String) (gs : List (Option (List String)))
    → Distinct out
    → (length out < cap) ⊎ (length out ≡ 0)
    → Kept cap (merge_from cap out gs)
unfolding merge_from
merge_from-Kept cap out [] d l =
    (d, elim l [ inl a ↦ inl (omega arith) | inr a ↦ inr (omega arith) ])
merge_from-Kept cap out (none ∷ gs) d l = merge_from-Kept cap out gs d l
merge_from-Kept cap out (some g ∷ gs) d l = elim (Bool-cases (add_group cap out g).0) [
  | inl e ↦
      let u : (add_group cap out g).1 ≡ merge_from cap out (some g ∷ gs) = ground arith in
      subst (Kept cap) u (add_group-Kept cap out g d l).0
  | inr e ↦
      let u : merge_from cap (add_group cap out g).1 gs ≡ merge_from cap out (some g ∷ gs) =
        ground arith in
      subst (Kept cap) u (
        merge_from-Kept cap (add_group cap out g).1 gs (add_group-Kept cap out g d l).0.0
          (elim (add_group-Kept cap out g d l).1 [ inl t ↦ absurd t e | inr k ↦ k ]))
]
  where
    absurd :
        (add_group cap out g).0 ≡ true
        → (add_group cap out g).0 ≡ false
        → (length (add_group cap out g).1 < cap) ⊎ (length (add_group cap out g).1 ≡ 0)
    absurd t e = let x : ⊥ = cc in elim x [ ]

-- A merge of the texts of shards holds no empty text and none twice, and no more texts than the
-- cap, except that a cap of zero still lets one text pass.
pub merge_string_sets-Kept :
    (groups : List (Option (List String))) (cap : ℕ) → Kept cap (merge_string_sets groups cap)
unfolding merge_string_sets
merge_string_sets-Kept groups cap = merge_from-Kept cap [] groups tt (inr refl)
