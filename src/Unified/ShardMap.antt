-- ===== src/Unified/ShardMap.antt =====
-- worker/src/unified/shard_map.ts: the static registry of accounts and shards, as it is parsed and
-- loaded. No value stands for the exception ShardMapError; `parse_url` is the platform's URL parser.
pub mod Load
pub mod Owned
use Prim.Native.Char.{code}
use one_mail.Base.{
  ℕ, suc, ◌+◌, String, Option, none, some, List, [], ◌∷◌, ◌++◌, map, Bool, true, false, not, ◌&&◌,
  ◌||◌, Dict, get, put, any, find, includes, ltb, leb, ◌==◌, ◌===◌, if◌then◌else◌, length, text_key,
  nat_key,
}
use one_mail.Fleet.Parse.{
  Json, null, bool, num, str, arr, obj, Value, items_of, fields_of, codes, units,
}
use one_mail.Fleet.Parse.Config.{Url}
use one_mail.Fleet.Validation.{max_safe_integer}

pub record ShardEndpoint : Type 0 where
  pub id : String
  pub name : String
  pub base_url : String
  pub token : String

pub record ShardMap : Type 0 where
  pub generation : Option ℕ
  pub shards : List ShardEndpoint
  pub accounts : Dict String String

abbrev pub empty_map : ShardMap
empty_map = record { generation = none; shards = []; accounts = [] }

-- What the namespace holds under the key: nothing, a text that is no JSON, or one that is.
pub data MapText : Type 0 where
  absent broken : MapText
  parsed : Json → MapText

-- The white space that `trim` takes off.
abbrev is_space : ℕ → Bool
is_space c =
    (leb 9 c && leb c 13)
    || (leb 8192 c && leb c 8202)
    || includes (32 ∷ 160 ∷ 5760 ∷ 8232 ∷ 8233 ∷ 8239 ∷ 8287 ∷ 12288 ∷ 65279 ∷ []) c

unfoldable trim_start : String → String
trim_start String.[] = String.[]
trim_start (String.◌∷◌ c s) =
    let rest = trim_start s in if is_space (code c) then rest else String.◌∷◌ c s

abbrev push : Bool → (whole rest : String) → String
push true whole String.[] = String.[]
push _ whole rest = whole

unfoldable trim_end : String → String
trim_end String.[] = String.[]
trim_end (String.◌∷◌ c s) =
    let rest = trim_end s in push (is_space (code c)) (String.◌∷◌ c rest) rest

unfoldable pub trim : String → String
unfolding trim_start trim_end
trim s = trim_end (trim_start s)

infixl 5 ◌>>=◌ ◌>>◌
abbrev pub ◌>>=◌ {κ μ} : {T : Type κ} {S : Type μ} → Option T → (T → Option S) → Option S
start >>= rest = elim start [ none ↦ none | some value ↦ rest value ]

abbrev pub ◌>>◌ {μ} : {S : Type μ} → Option (Unit {0}) → Option S → Option S
check >> rest = check >>= (λ _. rest)

abbrev pub require : Bool → Option (Unit {0})
require true = some tt
require false = none

abbrev pub text_of : Value → Option String
text_of (some (str s)) = some s
text_of _ = none

abbrev pub object_of : Value → Option (Dict String Json)
object_of (some (obj fs)) = some (fields_of fs)
object_of _ = none

abbrev pub array_of : Value → Option (List Json)
array_of (some (arr vs)) = some (items_of vs)
array_of _ = none

-- `parsed.generation`: missing, null, or a positive safe integer.
abbrev generation_of : Value → Option (Option ℕ)
generation_of none = some none
generation_of (some null) = some none
generation_of (some (num (some n))) =
    if leb 1 n && leb n max_safe_integer then some (some n) else none
generation_of _ = none

-- An optional name: missing, or a text that is not blank and not too long.
abbrev name_of : String → Value → Option String
name_of id none = some id
name_of id (some (str s)) =
    if not (trim s === "") && leb (units (codes (trim s))) 64 then some (trim s) else none
name_of id _ = none

abbrev is_origin : Url → Bool
is_origin u =
    u.protocol === "https:"
    && u.username === ""
    && u.password === ""
    && u.search === ""
    && u.hash === ""
    && u.pathname === "/"

abbrev is_token : List ℕ → Bool
is_token cs = leb 32 (length cs) && leb (length cs) 512 && not (any (λ c. ltb c 33 || ltb 126 c) cs)

-- The owners, with the account ids that came before.
unfoldable pub read_accounts :
    List ShardEndpoint → List String → Dict String Json → Option (Dict String String)
read_accounts shards seen [] = some []
read_accounts shards seen ((raw_id, v) ∷ es) =
    let id = trim raw_id in
    require (not (id === "") && not (includes seen id)) >>= λ _. text_of (some v) >>= λ owner.
    require (any (λ s. s.id === owner) shards) >>= λ _.
    read_accounts shards (id ∷ seen) es >>= λ rest. some ((id, owner) ∷ rest)

module _ (parse_url : String → Option Url) where
  -- A shard, with the ids that came before it.
  unfoldable pub read_endpoint : List String → Json → Option ShardEndpoint
  read_endpoint seen v = do
    r ← object_of (some v)
    raw_id ← text_of (get r "id")
    base_url ← text_of (get r "base_url")
    token ← text_of (get r "token")
    let id = trim raw_id
    require (not (id === "") && not (id === "primary") && not (includes seen id))
    name ← name_of id (get r "name")
    url ← parse_url base_url
    require (is_origin url)
    require (is_token (codes token))
    some (record { id = id; name = name; base_url = url.origin; token = token })

  unfoldable pub read_endpoints : List String → List Json → Option (List ShardEndpoint)
  read_endpoints seen [] = some []
  read_endpoints seen (v ∷ vs) =
      read_endpoint seen v >>= λ e. read_endpoints (e.id ∷ seen) vs >>= λ es. some (e ∷ es)

  abbrev is_one : Value → Bool
  is_one (some (num (some n))) = n == 1
  is_one _ = false

  unfoldable pub parse_shard_map : MapText → Option ShardMap
  parse_shard_map absent = some empty_map
  parse_shard_map broken = none
  parse_shard_map (parsed v) = do
    r ← object_of (some v)
    require (is_one (get r "v"))
    shard_values ← array_of (get r "shards")
    account_values ← object_of (get r "accounts")
    generation ← generation_of (get r "generation")
    shards ← read_endpoints [] shard_values
    accounts ← read_accounts shards [] account_values
    some (record { generation = generation; shards = shards; accounts = accounts })

abbrev pub has_remote_shards : ShardMap → Bool
has_remote_shards m = elim m.shards [ [] ↦ false | s ∷ ss ↦ true ]

unfoldable pub shard_by_id : ShardMap → String → Option ShardEndpoint
shard_by_id m shard = find (λ s. s.id === shard) m.shards

unfoldable pub accounts_on : Dict String String → String → List String
accounts_on [] shard = []
accounts_on ((id, owner) ∷ es) shard =
    let rest = accounts_on es shard in if owner === shard then id ∷ rest else rest

unfoldable pub accounts_on_shard : ShardMap → String → List String
accounts_on_shard m shard = accounts_on m.accounts shard

abbrev pub remote_account_set : ShardMap → List String
remote_account_set m = map (λ e. e.0) m.accounts

abbrev add_to : Dict String (List String) → String → String → Dict String (List String)
add_to grouped shard id = elim (get grouped shard) [
  | none ↦ put grouped shard (id ∷ [])
  | some ids ↦ put grouped shard (ids ++ (id ∷ []))
]

unfoldable group_from :
    ShardMap → Dict String (List String) → List String → Dict String (List String)
group_from m grouped [] = grouped
group_from m grouped (id ∷ ids) = elim (get m.accounts id) [
  | none ↦ group_from m grouped ids
  | some shard ↦ group_from m (add_to grouped shard id) ids
]

unfoldable pub group_accounts_by_shard : ShardMap → List String → Dict String (List String)
unfolding group_from
group_accounts_by_shard m ids = group_from m [] ids
