-- ===== src/Unified/Pages/Order.antt =====
-- worker/src/unified/shard_merge.ts: the order of messages is total, and transitive.
use Prim.Native.Char.{code}
use text.Mathlib.TextEquality.{Char-path}
use one_mail.Base.{
  ◌≡◌, ◌≢◌, refl, sym, ap, ◌∙◌, inl, inr, String, Bool, true, false, not, ◌==◌, ◌===◌, same-yes,
  same-no, text_key, arith, Bool-cases,
}
use one_mail.Unified.Pages.{Head, text_before, compare_email_order, compare, is_less, is_at_most}

text_before-total : (s t : String) → s ≢ t → text_before t s ≡ not (text_before s t)
unfolding text_before
text_before-total String.[] String.[] n = absurd (n refl)
text_before-total String.[] (String.◌∷◌ d t) n = refl
text_before-total (String.◌∷◌ c s) String.[] n = refl
text_before-total (String.◌∷◌ c s) (String.◌∷◌ d t) n = elim (Bool-cases (code c == code d)) [
  | inr e ↦ ground arith
  | inl e ↦
      let q = Char-path c d (ground arith) in
      let r =
        text_before-total s t (λ p. n (ap (λ x. String.◌∷◌ c x) p ∙ ap (λ x. String.◌∷◌ x t) q)) in
      ground (arith, r)
]

text_before_trans :
    (s t u : String) → text_before s t ≡ true → text_before t u ≡ true → text_before s u ≡ true
unfolding text_before
text_before_trans String.[] String.[] u h k = cc
text_before_trans String.[] (String.◌∷◌ d t) String.[] h k = cc
text_before_trans String.[] (String.◌∷◌ d t) (String.◌∷◌ e u) h k = refl
text_before_trans (String.◌∷◌ c s) String.[] u h k = cc
text_before_trans (String.◌∷◌ c s) (String.◌∷◌ d t) String.[] h k = cc
text_before_trans (String.◌∷◌ c s) (String.◌∷◌ d t) (String.◌∷◌ e u) h k =
    ground (arith, text_before_trans s t u)

-- `compare(a, b) <= 0`
abbrev pub at_most : Head → Head → Bool
at_most a b = is_at_most (compare a b)

-- The two tests are of one total order.
pub compare-flip : (a b : Head) → is_less (compare a b) ≡ not (at_most b a)
unfolding compare compare_email_order
compare-flip a b = elim (text_key.same a.row.id b.row.id) [
  | yes e ↦
      let q = same-yes a.row.id b.row.id e in
      let r = same-yes b.row.id a.row.id (sym e) in ground (arith, q, r)
  | no n ↦
      let q = same-no a.row.id b.row.id n in
      let r = same-no b.row.id a.row.id (λ e. n (sym e)) in
      ground (arith, q, r, text_before-total a.row.id b.row.id n)
]

pub at_most-total : (a b : Head) → at_most a b ≡ false → at_most b a ≡ true
at_most-total a b h = ground (arith, compare-flip b a)

pub at_most_refl : (a : Head) → at_most a a ≡ true
unfolding compare compare_email_order
at_most_refl a = ground (arith, same-yes a.row.id a.row.id refl)

module _ (a b c : Head) where
  same_first : a.row.id ≡ b.row.id → at_most a b ≡ true → at_most b c ≡ true → at_most a c ≡ true
  unfolding compare compare_email_order
  same_first e h k =
      let q = same-yes a.row.id b.row.id e in
      let r : (a.row.id === c.row.id) ≡ (b.row.id === c.row.id) = ap (λ x. x === c.row.id) e in
      let t : text_before a.row.id c.row.id ≡ text_before b.row.id c.row.id =
        ap (λ x. text_before x c.row.id) e in
      ground (arith, q, r, t)

  same_last : b.row.id ≡ c.row.id → at_most a b ≡ true → at_most b c ≡ true → at_most a c ≡ true
  unfolding compare compare_email_order
  same_last e h k =
      let q = same-yes b.row.id c.row.id e in
      let r : (a.row.id === b.row.id) ≡ (a.row.id === c.row.id) = ap (λ x. a.row.id === x) e in
      let t : text_before a.row.id b.row.id ≡ text_before a.row.id c.row.id =
        ap (λ x. text_before a.row.id x) e in
      ground (arith, q, r, t)

  all_different :
      a.row.id ≢ b.row.id
      → b.row.id ≢ c.row.id
      → at_most a b ≡ true
      → at_most b c ≡ true
      → at_most a c ≡ true
  unfolding compare compare_email_order
  all_different m n h k =
      let q = same-no a.row.id b.row.id m in
      let r = same-no b.row.id c.row.id n in
      let x = text_before-total a.row.id b.row.id m in
      let y = text_before-total b.row.id c.row.id n in
      let z = text_before_trans c.row.id b.row.id a.row.id in
      elim (text_key.same a.row.id c.row.id) [
        | yes e ↦
            let w : text_before b.row.id a.row.id ≡ text_before b.row.id c.row.id =
              ap (λ v. text_before b.row.id v) e in
            ground (arith, q, r, x, y, w, same-yes a.row.id c.row.id e)
        | no o ↦ ground (
          arith,
          q,
          r,
          x,
          y,
          z,
          same-no a.row.id c.row.id o,
          text_before-total a.row.id c.row.id o,
        )
      ]

  pub at_most_trans : at_most a b ≡ true → at_most b c ≡ true → at_most a c ≡ true
  at_most_trans h k = elim (text_key.same a.row.id b.row.id) [
    | yes e ↦ same_first e h k
    | no m ↦ elim (text_key.same b.row.id c.row.id) [
      | yes e ↦ same_last e h k
      | no n ↦ all_different m n h k
    ]
  ]
