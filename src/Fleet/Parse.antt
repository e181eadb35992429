-- ===== src/Fleet/Parse.antt =====
-- worker/src/fleet/validation.ts: the readers of single values of a request body.
-- A body is what `JSON.parse` gives, with the last of two fields of one name; `none` is `undefined`.
pub mod Calendar
pub mod Config
pub mod Requests
pub mod WellFormed
pub mod Snapshot
mod Tests
use Prim.Native.Char.{code}
use one_mail.Base.{
  ℕ, suc, ◌+◌, ◌-◌, ◌*◌, String, Option, none, some, List, [], ◌∷◌, Bool, true, false, not, ◌&&◌,
  ◌||◌, Dict, get, any, includes, ltb, leb, ◌==◌, ◌===◌, if◌then◌else◌, length, text_key,
}
use one_mail.Fleet.Contracts.{
  ShardState, RouteState, Confidence, Source, invalid_request, Result, ok, fail, raise_if, ◌>>=◌,
  ◌>>◌,
}
use one_mail.Fleet.Validation.{max_safe_integer, max_epoch}

mutual
  pub data Json : Type 0 where
    null : Json
    bool : Bool → Json
    -- A number: one from 0 on without a fraction, or another.
    num : Option ℕ → Json
    str : String → Json
    arr : Items → Json
    obj : Fields → Json

  pub data Items : Type 0 where
    no_items : Items
    item : Json → Items → Items

  pub data Fields : Type 0 where
    no_fields : Fields
    field : String → Json → Fields → Fields

abbrev pub items_of : Items → List Json
items_of no_items = []
items_of (item v vs) = v ∷ items_of vs

abbrev pub fields_of : Fields → Dict String Json
fields_of no_fields = []
fields_of (field k v fs) = (k, v) ∷ fields_of fs

-- A value, `undefined` included.
abbrev pub Value : Type 0
Value = Option Json

abbrev pub invalid {ℓ} : {A : Type ℓ} → Result A
invalid = fail invalid_request 400 false

abbrev pub valid_if : Bool → Result (Unit {0})
valid_if test = raise_if (not test) invalid_request 400 false

-- `record(value)`
unfoldable pub any_record : Value → Result (Dict String Json)
any_record (some (obj fs)) = ok (fields_of fs)
any_record _ = invalid

-- `record(value, keys)`
unfoldable pub record_of : List String → Value → Result (Dict String Json)
record_of keys v = do
  fs ← any_record v
  valid_if (not (any (λ e. not (includes keys e.0)) fs))
  ok fs

abbrev pub codes : String → List ℕ
codes String.[] = []
codes (String.◌∷◌ c s) = code c ∷ codes s

-- The length of a text, which counts a character above U+FFFF as two.
abbrev pub units : List ℕ → ℕ
units [] = 0
units (c ∷ cs) = (if leb 65536 c then 2 else 1) + units cs

abbrev pub is_digit : ℕ → Bool
is_digit c = leb 48 c && leb c 57

abbrev is_alphanumeric : ℕ → Bool
is_alphanumeric c = is_digit c || (leb 65 c && leb c 90) || (leb 97 c && leb c 122)

-- `_`, `.`, `:`, `@` and `-` beside the letters and digits
abbrev is_id_code : ℕ → Bool
is_id_code c = is_alphanumeric c || c == 95 || c == 46 || c == 58 || c == 64 || c == 45

abbrev is_id : List ℕ → Bool
is_id [] = false
is_id (c ∷ cs) = is_alphanumeric c && not (any (λ d. not (is_id_code d)) cs) && leb (length cs) 127

unfoldable pub id : Value → Result String
id (some (str s)) = if is_id (codes s) then ok s else invalid
id _ = invalid

abbrev at_least_one : Bool → ℕ
at_least_one true = 1
at_least_one false = 0

unfoldable pub counter : Bool → Value → Result ℕ
counter positive (some (num (some n))) =
    if leb n max_safe_integer && leb (at_least_one positive) n then ok n else invalid
counter positive _ = invalid

unfoldable pub decimal_from : ℕ → List ℕ → Option ℕ
decimal_from n [] = some n
decimal_from n (c ∷ cs) =
    let rest = decimal_from (n * 10 + (c - 48)) cs in if is_digit c then rest else none

-- A canonical decimal of no more than twenty digits.
unfoldable pub decimal : List ℕ → Option ℕ
decimal [] = none
decimal (c ∷ cs) =
    if c == 48 && not (length cs == 0)
    then none
    else if leb (length cs) 19
    then decimal_from 0 (c ∷ cs)
    else none

-- `epoch`
unfoldable pub epoch : Value → Result ℕ
epoch (some (str s)) = elim (decimal (codes s)) [
  | none ↦ invalid
  | some n ↦ if leb n max_epoch then ok n else invalid
]
epoch _ = invalid

unfoldable pub enumeration {ℓ} : {A : Type ℓ} → List (String × A) → Value → Result A
enumeration [] v = invalid
enumeration ((s, a) ∷ es) (some (str t)) =
    let rest = enumeration es (some (str t)) in if s === t then ok a else rest
enumeration (e ∷ es) _ = invalid

unfoldable pub flag : Value → Result Bool
flag (some (bool b)) = ok b
flag _ = invalid

unfoldable pub items : ℕ → Value → Result (List Json)
items maximum (some (arr vs)) =
    if leb (length (items_of vs)) maximum then ok (items_of vs) else invalid
items maximum _ = invalid

-- `values.map(read)`, up to the first exception.
unfoldable pub map_result {ℓ κ} :
    {A : Type ℓ} {B : Type κ} → (A → Result B) → List A → Result (List B)
map_result read [] = ok []
map_result read (a ∷ as') = read a >>= λ b. map_result read as' >>= λ bs. ok (b ∷ bs)

-- `new Set(values).size === values.length`
unfoldable pub distinct : List String → Bool
distinct [] = true
distinct (v ∷ vs) = not (includes vs v) && distinct vs

abbrev pub states : List (String × ShardState)
states =
    ("prepared", ShardState.prepared)
    ∷ ("healthy", ShardState.healthy)
    ∷ ("draining", ShardState.draining)
    ∷ ("degraded", ShardState.degraded)
    ∷ ("exhausted", ShardState.exhausted)
    ∷ ("disabled", ShardState.disabled)
    ∷ []

abbrev pub route_states : List (String × RouteState)
route_states =
    ("active", RouteState.active)
    ∷ ("frozen", RouteState.frozen)
    ∷ ("deleting", RouteState.deleting)
    ∷ []

abbrev pub sources : List (String × Source)
sources =
    ("cloudflare_graphql", Source.cloudflare_graphql)
    ∷ ("application_meta", Source.application_meta)
    ∷ ("reconciled", Source.reconciled)
    ∷ []

abbrev pub confidences : List (String × Confidence)
confidences =
    ("authoritative", Confidence.authoritative)
    ∷ ("partial", Confidence.partial)
    ∷ ("stale", Confidence.stale)
    ∷ []
