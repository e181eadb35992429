-- ===== src/Fleet/Parse/WellFormed.antt =====
-- worker/src/fleet/validation.ts: what a configuration that was read satisfies.
use one_mail.Base.{
  ℕ, ◌≤◌, ◌<◌, ◌≡◌, sym, subst, String, Option, none, some, List, [], ◌∷◌, map, true, false, not,
  Dict, get, delete, any, includes, text_key, All, arith, inl, inr, ◌⊎◌,
}
use one_mail.Fleet.Contracts.{
  Shard, CloudAccount, FleetConfig, FleetError, Result, ok, err, ◌>>=◌, >>=-eq-ok, Result-cases,
}
use one_mail.Fleet.Placement.Chosen.{HasAllLimits}
use one_mail.Fleet.Registry.{is_owner}
use one_mail.Fleet.Parse.{
  Json, null, bool, num, str, arr, obj, Value, counter, items, map_result, distinct, record_of,
  any_record,
}
use one_mail.Fleet.Parse.Config.{
  Url, account_fields, cloud_account, shard, public_shard_of, is_consistent, is_missing,
  config_fields, config_accounts, config_shards, config_with, fleet_config,
}

-- What the placement and the registry count on.
pub record WellFormed (c : FleetConfig) : Type 0 where
  pub limits : HasAllLimits c
  pub primary : is_owner c c.primary_shard_id ≡ true
  pub accounts_exist :
      All (λ s. includes (map (λ a. a.account_key) c.accounts) s.account_key ≡ true) c.shards
  pub shards_distinct : distinct (map (λ s. s.shard_id) c.shards) ≡ true
  pub accounts_distinct : distinct (map (λ a. a.account_key) c.accounts) ≡ true
  pub some_mailbox : 0 < c.max_mailboxes
  pub mailbox_limit : c.max_mailboxes ≤ 1000
  pub some_budget : is_missing c.allocation_budget ≡ false

pub map_result-All {ℓ κ} :
    {A : Type ℓ} {B : Type κ} (P : B → Type 0) (read : A → Result B)
    → ((a : A) (b : B) → read a ≡ ok b → P b)
    → (xs : List A) {ys : List B} → map_result read xs ≡ ok ys
    → All P ys
unfolding map_result
map_result-All P read f [] {ys} h = let e : [] ≡ ys = ground arith in subst (All P) e tt
map_result-All P read f (x ∷ xs) {ys} h =
    let (y, e, h₁) = >>=-eq-ok (read x) (λ b. map_result read xs >>= λ bs. ok (b ∷ bs)) h in
    let (zs, g, h₂) = >>=-eq-ok (map_result read xs) (λ bs. ok (y ∷ bs)) h₁ in
    let u : (y ∷ zs) ≡ ys = ground arith in subst (All P) u (f x y e, map_result-All P read f xs g)

counter-positive : (v : Value) (n : ℕ) → counter true v ≡ ok n → 0 < n
unfolding counter
counter-positive none n h = cc
counter-positive (some (num none)) n h = cc
counter-positive (some (num (some m))) n h = ground arith
counter-positive (some null) n h = cc
counter-positive (some (bool b)) n h = cc
counter-positive (some (str s)) n h = cc
counter-positive (some (arr vs)) n h = cc
counter-positive (some (obj fs)) n h = cc

counter-cases :
    (v : Value)
    → ((n : ℕ) × (counter true v ≡ ok n) × (0 < n)) ⊎ ((e : FleetError) × (counter true v ≡ err e))
counter-cases v = elim (Result-cases (counter true v)) [
  | inl (n, e) ↦ inl (n, e, counter-positive v n e)
  | inr e ↦ inr e
]

cloud_account-limits :
    (v : Json) (a : CloudAccount)
    → cloud_account v ≡ ok a
    → (0 < a.daily_read_limit) × (0 < a.daily_write_limit) × (0 < a.worker_request_limit)
unfolding cloud_account
cloud_account-limits v a h = elim (Result-cases (record_of account_fields (some v))) [
  | inr (e, g) ↦ ground arith
  | inl (r, g) ↦ ground (
    arith,
    counter-cases (get r "daily_read_limit"),
    counter-cases (get r "daily_write_limit"),
    counter-cases (get r "worker_request_limit"),
  )
]

shard-limits :
    (parse_url : String → Option Url) (v : Json) (x : Shard)
    → shard parse_url v ≡ ok x
    → 0 < x.storage_limit_bytes
unfolding shard public_shard_of
shard-limits parse_url v x h = elim (Result-cases (any_record (some v))) [
  | inr (e, g) ↦ ground arith
  | inl (r, g) ↦ ground (
    arith,
    counter-cases (get (delete (delete r "database_id") "credential_ref") "storage_limit_bytes"),
  )
]

-- The facts of the last stage.
config_with-facts :
    (r : Dict String Json) (as' : List CloudAccount) (ss : List Shard) (c : FleetConfig)
    → config_with r as' ss ≡ ok c
    → (c.accounts ≡ as')
      × (c.shards ≡ ss)
      × (is_consistent as' ss ≡ true)
      × (is_owner c c.primary_shard_id ≡ true)
      × (0 < c.max_mailboxes)
      × (c.max_mailboxes ≤ 1000)
      × (is_missing c.allocation_budget ≡ false)
unfolding config_with
config_with-facts r as' ss c h = ground (arith, counter-cases (get r "max_mailboxes"))

includes-All :
    (keys : List String) (ss : List Shard)
    → any (λ s. not (includes keys s.account_key)) ss ≡ false
    → All (λ s. includes keys s.account_key ≡ true) ss
includes-All keys [] h = tt
includes-All keys (s ∷ ss) h = (ground arith, includes-All keys ss (ground arith))

-- A configuration that a request carries is read only if it is well formed: every limit is
-- positive, the primary shard is one of its shards, every shard names one of its accounts, the
-- names of shards and accounts are distinct, a mailbox costs something of every resource, and the
-- number of mailboxes is from 1 to 1000.
pub fleet_config-WellFormed :
    (parse_url : String → Option Url) (v : Value) (c : FleetConfig)
    → fleet_config parse_url v ≡ ok c
    → WellFormed c
unfolding fleet_config config_accounts config_shards is_consistent
fleet_config-WellFormed parse_url v c h =
    let (r, _, h₁) =
      >>=-eq-ok (record_of config_fields v)
        (λ r. config_accounts r >>= λ as'. config_shards parse_url r >>= λ ss. config_with r as' ss)
        h in
    let (as', a, h₂) =
      >>=-eq-ok (config_accounts r)
        (λ as'. config_shards parse_url r >>= λ ss. config_with r as' ss) h₁ in
    let (ss, s, h₃) = >>=-eq-ok (config_shards parse_url r) (λ ss. config_with r as' ss) h₂ in
    let (vs, _, a₁) =
      >>=-eq-ok (items 12 (get r "accounts")) (λ vs. map_result cloud_account vs) a in
    let (ws, _, s₁) =
      >>=-eq-ok (items 12 (get r "shards")) (λ vs. map_result (shard parse_url) vs) s in
    let (ea, es, k, p, m, n, b) = config_with-facts r as' ss c h₃ in
    let kc : is_consistent c.accounts c.shards ≡ true = ground arith in
    record {
      limits = record {
        accounts =
            subst (All _) (sym ea) (map_result-All _ cloud_account cloud_account-limits vs a₁);
        shards =
            subst (All _) (sym es)
              (map_result-All _ (shard parse_url) (shard-limits parse_url) ws s₁);
      };
      primary = p;
      accounts_exist =
          includes-All (map (λ a. a.account_key) c.accounts) c.shards
            (consistent-facts c.accounts c.shards kc).0;
      shards_distinct = (consistent-facts c.accounts c.shards kc).1;
      accounts_distinct = (consistent-facts c.accounts c.shards kc).2;
      some_mailbox = m;
      mailbox_limit = n;
      some_budget = b;
    }
  where
    consistent-facts :
        (as' : List CloudAccount) (ss : List Shard)
        → is_consistent as' ss ≡ true
        → (any (λ s. not (includes (map (λ a. a.account_key) as') s.account_key)) ss ≡ false)
          × (distinct (map (λ s. s.shard_id) ss) ≡ true)
          × (distinct (map (λ a. a.account_key) as') ≡ true)
    consistent-facts as' ss k = ground arith
