-- ===== src/Fleet/Validation.antt =====
-- worker/src/fleet/validation.ts: the checked arithmetic on counters and epochs.
use one_mail.Base.{
  ◌≡◌, leb, arith, ℕ, ◌+◌, ◌-◌, List, [], ◌∷◌, false, ◌||◌, ltb, ◌==◌, if◌then◌else◌,
}
use one_mail.Fleet.Contracts.{counter_overflow, invalid_request, Result, ok, fail}

abbrev pub max_safe_integer : ℕ
max_safe_integer = 9007199254740991

abbrev pub max_epoch : ℕ
max_epoch = 18446744073709551615

abbrev pub max_mailboxes_limit : ℕ
max_mailboxes_limit = 1000

-- `safeAdd(...values)` from a running total.
safe_add_from : ℕ → List ℕ → Result ℕ
safe_add_from total [] = ok total
safe_add_from total (v ∷ vs) =
    let rest = safe_add_from (total + v) vs in
    if ltb max_safe_integer v || ltb (max_safe_integer - v) total
    then fail counter_overflow 409 false
    else rest

unfoldable pub safe_add : List ℕ → Result ℕ
unfolding safe_add_from
safe_add vs = safe_add_from 0 vs

-- `nextEpoch`, with the range test of `epoch`.
unfoldable pub next_epoch : ℕ → Result ℕ
next_epoch value =
    if ltb max_epoch value
    then fail invalid_request 400 false
    else if value == max_epoch
    then fail counter_overflow 409 false
    else ok (value + 1)

-- A sum is exact, and refused when it leaves the safe range.
pub safe_add-two :
    (a b : ℕ)
    → safe_add (a ∷ b ∷ [])
      ≡ (if leb (a + b) max_safe_integer then ok (a + b) else fail counter_overflow 409 false)
unfolding safe_add
safe_add-two a b = ground arith

pub safe_add-three :
    (a b c : ℕ)
    → safe_add (a ∷ b ∷ c ∷ []) ≡ (
        if leb (a + b + c) max_safe_integer
        then ok (a + b + c)
        else fail counter_overflow 409 false)
unfolding safe_add
safe_add-three a b c = ground arith
