-- ===== src/Send/Rows.antt =====
-- worker/src/mails_api/send_mail_limit_utils.ts: rows under selections and updates, and the
-- uniqueness of ids and idempotency keys.
use one_mail.Base.{
  select, In-select_inv, In-order_by, In-limit_to, ℕ, ◌≡◌, inl, inr, refl, sym, ◌∙◌, subst, String,
  List, [], ◌∷◌, ◌++◌, map, Bool, true, false, ◌||◌, any, includes, In, In-append, ◌===◌, same-ne,
  text_key, arith, Bool-cases,
}
use one_mail.Send.{Reservation, select_ids, row_before}
use one_mail.Send.Writes.{same_key}

includes-ids :
    (rows : List Reservation) (id : String)
    → includes (map (λ r. r.id) rows) id ≡ true
    → (r : Reservation) × In r rows × (r.id ≡ id)
includes-ids [] id h = cc
includes-ids (r ∷ rows) id h = elim (text_key.same r.id id) [
  | yes e ↦ (r, inl refl, e)
  | no n ↦ let (s, i, e) = includes-ids rows id (ground arith) in (s, inr i, e)
]

-- Two rows that the primary key or the unique index keeps apart.
abbrev pub clashes : Reservation → Reservation → Bool
clashes r s = r.id === s.id || same_key r.idempotency_key s.idempotency_key

abbrev pub Distinct : List Reservation → Type 0
Distinct [] = Unit
Distinct (r ∷ rows) = ((s : Reservation) → In s rows → clashes r s ≡ false) × Distinct rows

Distinct-ids :
    (rows : List Reservation) (r s : Reservation)
    → Distinct rows
    → In r rows
    → In s rows
    → r.id ≡ s.id
    → r ≡ s
Distinct-ids [] r s d i j e = elim i [ ]
Distinct-ids (t ∷ rows) r s d (inl p) (inl q) e = sym p ∙ q
Distinct-ids (t ∷ rows) r s d (inl p) (inr j) e =
    let c : clashes r s ≡ false = subst (λ x. clashes x s ≡ false) p (d.0 s j) in
    absurd (same-ne r.id s.id (ground arith) e)
Distinct-ids (t ∷ rows) r s d (inr i) (inl q) e =
    let c : clashes s r ≡ false = subst (λ x. clashes x r ≡ false) q (d.0 r i) in
    absurd (same-ne s.id r.id (ground arith) (sym e))
Distinct-ids (t ∷ rows) r s d (inr i) (inr j) e = Distinct-ids rows r s d.1 i j e

-- A row whose id was selected satisfies the condition of the selection.
pub select_ids-holds :
    (p : Reservation → Bool) (time : Reservation → ℕ) (n : ℕ) (rows : List Reservation)
    → Distinct rows
    → (r : Reservation) → In r rows
    → includes (select_ids p time n rows) r.id ≡ true
    → p r ≡ true
unfolding select_ids
select_ids-holds p time n rows d r i h =
    let (s, j, e) = includes-ids _ r.id h in
    let (k, q) = In-select_inv p rows s (In-order_by (row_before time) _ s (In-limit_to n _ s j)) in
    subst (λ x. p x ≡ true) (Distinct-ids rows s r d k i e) q

pub Distinct-select :
    (p : Reservation → Bool) (rows : List Reservation) → Distinct rows → Distinct (select p rows)
Distinct-select p [] d = tt
Distinct-select p (r ∷ rows) d =
    let rest = Distinct-select p rows d.1 in
    elim (Bool-cases (p r)) [
      | inl e ↦ rw e ((λ s i. d.0 s (In-select_inv p rows s i).0), rest)
      | inr e ↦ rw e rest
    ]

pub Distinct-append :
    (rows : List Reservation) (q : Reservation)
    → Distinct rows
    → any (λ r. clashes r q) rows ≡ false
    → Distinct (rows ++ (q ∷ []))
Distinct-append [] q d h = ((λ s i. elim i [ ]), tt)
Distinct-append (r ∷ rows) q d h = (
  (λ s i. elim (In-append rows (q ∷ []) s i) [
    | inl j ↦ d.0 s j
    | inr (inl e) ↦ subst (λ x. clashes r x ≡ false) e (ground arith)
    | inr (inr j) ↦ elim j [ ]
  ]),
  Distinct-append rows q d.1 (ground arith),
)
