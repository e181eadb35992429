-- ===== src/Unified/Tests.antt =====
-- The modules of worker/src/unified on small inputs.
use one_mail.Base.{
  ◌+◌, ◌<◌, ℕ, ◌≡◌, ◌⊎◌, refl, String, Option, none, some, List, [], ◌∷◌, true, false, get,
  text_dec, arith, ℕ_discrete, zero, suc, inl, inr, subst, length,
}
use one_mail.Fleet.Parse.{Json, num, str, arr, obj, no_items, item, no_fields, field}
use one_mail.Fleet.Parse.Config.{Url}
use one_mail.Unified.ShardMap.{
  ShardMap, MapText, parsed, trim, read_endpoint, read_endpoints, read_accounts, parse_shard_map,
}
use one_mail.Unified.ShardMap.Load.{
  Namespace, throws, gives, RegistryEnv, accept, load_shard_map, cache_ms, requiring, load_all,
  PublishedAt, load_all-Publishes,
}
use one_mail.Unified.ShardMap.Owned.{Routed, parse_shard_map-Routed}
use one_mail.Quota.Coordinator.{marker_dec}
use one_mail.Unified.Lockout.{
  holding, AdminAuthCheckInput, relay, refuse, rate_limit, locks, Attempt, fails, attempt_all,
  get_admin_fail_count, decide_admin_auth, decide_admin_auth-relay, decide_admin_auth-locked,
}
use one_mail.Unified.Pages.{
  Row, compare, compare_email_order, text_before, head_at, child_of, sift_from, sift_down, heads,
  heapify, shrink, advance, merge_loop, merge_sorted_email_pages,
}
use one_mail.Unified.Pages.Reference.{merged_rows}
use one_mail.Unified.Pages.Merged.{merge_sorted_email_pages-merged_rows}
use one_mail.Unified.Pages.Sorted.{AllSorted, Sorted, row_at_most, merge_sorted_email_pages-Sorted}
use one_mail.Unified.Merge.{
  drop_first, chunk_values, concat, Sized, chunk_values-concat, Kept, merge_string_sets,
  merge_string_sets-Kept,
}

abbrev parse_url : String → Option Url
parse_url s = some (record {
  protocol = "https:";
  username = "";
  password = "";
  search = "";
  hash = "";
  pathname = "/";
  port = "";
  origin = s;
})

abbrev endpoint : Json
endpoint = obj (
    field "id" (str " s ") (
      field "base_url" (str "https://s")
        (field "token" (str "0123456789abcdef0123456789abcdef") no_fields)))

abbrev text : MapText
text = parsed (
    obj (
      field "v" (num (some 1)) (
        field "shards" (arr (item endpoint no_items)) (
          field "accounts" (obj (field "m" (str "s") no_fields))
            (field "generation" (num (some 3)) no_fields)))))

abbrev map_read : ShardMap
map_read = record {
  generation = some 3;
  shards =
      record {
        id = "s";
        name = "s";
        base_url = "https://s";
        token = "0123456789abcdef0123456789abcdef";
      }
      ∷ [];
  accounts = ("m", "s") ∷ [];
}

text_read : parse_shard_map parse_url text ≡ some map_read
unfolding parse_shard_map read_endpoints read_endpoint read_accounts trim get text_dec ℕ_discrete
text_read = refl

parse_shard_map-Routed_example : Routed map_read
parse_shard_map-Routed_example = parse_shard_map-Routed parse_url text map_read text_read

abbrev env : RegistryEnv
env = record { kv = gives "kv" text; required = true; min_generation = 2 }

loads : (load_shard_map parse_url none env 7).1 ≡ some map_read
unfolding load_shard_map accept parse_shard_map read_endpoints read_endpoint read_accounts trim get
    text_dec ℕ_discrete
loads = refl

-- The first load reads the text, and the namespace throws at the second, a few seconds later.
abbrev first_load : List (Namespace × ℕ)
first_load = (env.kv, 7) ∷ []

from_cache_loads :
    (load_shard_map parse_url
      (load_all parse_url 2 none first_load)
      (requiring (throws "kv") 2)
      5000).1
    ≡ some map_read
unfolding load_all load_shard_map accept parse_shard_map read_endpoints read_endpoint read_accounts
    trim get text_dec ℕ_discrete
from_cache_loads = refl

load_all-Publishes_example :
    (at : ℕ) × (5000 < at + cache_ms)
    × PublishedAt parse_url 2 ((throws "kv", 5000) ∷ first_load) map_read at (some "kv")
load_all-Publishes_example =
    load_all-Publishes parse_url 2 first_load (throws "kv") 5000 map_read from_cache_loads

abbrev input : AdminAuthCheckInput
input = record {
  has_admin_auth = true;
  has_access_token = false;
  admin_auth_valid = true;
  admin_fail_count = some 3;
  admin_user_role = none;
  disable_admin_password_check = false;
  access_token_payload = none;
}

input_passes : decide_admin_auth input 1000 ≡ relay
unfolding decide_admin_auth
input_passes = refl

decide_admin_auth-relay_example :
    ((true ≡ true) ⊎ (false ≡ true))
    × ((locks (some 3) ≡ false) ⊎ ((true ≡ false) × (false ≡ false)))
decide_admin_auth-relay_example = decide_admin_auth-relay input 1000 input_passes

-- Ten failures that are recorded, while another address fails, and one that an outage loses.
abbrev failing : ℕ → List Attempt
failing zero = fails false true [] 1000 "ip" ∷ []
failing (suc n) = fails true true (((0, "other"), 1) ∷ []) 1000 "ip" ∷ failing n

abbrev tried : AdminAuthCheckInput
tried = record input {
  admin_fail_count = get_admin_fail_count true (attempt_all (holding []) (failing 10)) 2000 "ip";
}

decide_admin_auth-locked_example : decide_admin_auth tried 2000 ≡ refuse 429 false rate_limit
unfolding get text_dec ℕ_discrete marker_dec
decide_admin_auth-locked_example =
    decide_admin_auth-locked (holding []) (failing 10) 2000 "ip" true tried refl (omega arith) refl
      refl

abbrev values : List ℕ
values = 1 ∷ 2 ∷ 3 ∷ []

chunk_values-concat_example :
    (concat (chunk_values values 2) ≡ values) × Sized 2 (chunk_values values 2)
chunk_values-concat_example = chunk_values-concat values 2 (omega arith)

merge_string_sets-Kept_example :
    Kept 2 (merge_string_sets (some ("a" ∷ "a" ∷ []) ∷ none ∷ some ("b" ∷ "c" ∷ []) ∷ []) 2)
merge_string_sets-Kept_example =
    merge_string_sets-Kept (some ("a" ∷ "a" ∷ []) ∷ none ∷ some ("b" ∷ "c" ∷ []) ∷ []) 2

-- Two pages with messages of one time, and an empty one.
abbrev message : String → ℕ → Row
message id at = record { id = id; received_at = at; fields = [] }

abbrev three_pages : List (List Row)
three_pages =
    (message "b" 30 ∷ message "a" 10 ∷ []) ∷ [] ∷ (message "c" 30 ∷ message "a" 20 ∷ []) ∷ []

merge_sorted_email_pages-merged_rows_example :
    merge_sorted_email_pages three_pages 2 1 ≡ drop_first 1 (merged_rows 3 three_pages)
merge_sorted_email_pages-merged_rows_example = merge_sorted_email_pages-merged_rows three_pages 2 1

-- The second and the third message of the three pages.
merged_example : merge_sorted_email_pages three_pages 2 1 ≡ message "b" 30 ∷ message "a" 20 ∷ []
unfolding merge_sorted_email_pages merge_loop advance shrink heapify sift_down sift_from child_of
    heads head_at compare compare_email_order text_before text_dec
merged_example = refl

three_pages-AllSorted : AllSorted three_pages
unfolding compare_email_order
three_pages-AllSorted zero = (
  (λ y i. elim i [
    | inl e ↦ subst (λ z. row_at_most (message "b" 30) z ≡ true) e refl
    | inr j ↦ elim j [ ]
  ]),
  ((λ y i. elim i [ ]), tt),
)
three_pages-AllSorted (suc zero) = tt
three_pages-AllSorted (suc (suc zero)) = (
  (λ y i. elim i [
    | inl e ↦ subst (λ z. row_at_most (message "c" 30) z ≡ true) e refl
    | inr j ↦ elim j [ ]
  ]),
  ((λ y i. elim i [ ]), tt),
)
three_pages-AllSorted (suc (suc (suc q))) = tt

merge_sorted_email_pages-Sorted_example :
    Sorted (merge_sorted_email_pages three_pages 2 1)
    × (length (merge_sorted_email_pages three_pages 2 1) ≡ 2)
merge_sorted_email_pages-Sorted_example =
    merge_sorted_email_pages-Sorted three_pages 2 1 three_pages-AllSorted
