-- ===== src/Fleet/Registry/Configure.antt =====
-- worker/src/fleet/registry_do.ts: `configure` and `metrics`, which write the configuration.
use one_mail.Base.{
  ℕ, String, Option, none, some, List, [], ◌∷◌, ◌++◌, map, Bool, true, false, not, ◌&&◌, ◌||◌, Dict,
  get, put, put_all, delete, any, includes, ltb, ◌==◌, ◌===◌, if◌then◌else◌, text_key,
}
use one_mail.Fleet.Contracts.{
  Shard, CloudAccount, MetricReport, MetricSeries, FleetConfig, config_conflict, invalid_request,
  registry_unavailable, Result, ok, fail, raise_if, or_else, ◌>>=◌, ◌>>◌,
}
use one_mail.Fleet.Metrics.{update_metric_series}
use one_mail.Fleet.Registry.{Store, Txn, Response, configured, sampled, require_config}

abbrev pub shard_index : List Shard → Dict String Shard
shard_index = put_all (λ s. s.shard_id) []

abbrev pub account_index : List CloudAccount → Dict String CloudAccount
account_index = put_all (λ a. a.account_key) []

abbrev values {ℓ} : {V : Type ℓ} → List (String × V) → List V
values d = map (λ e. e.1) d

-- `a?.field === b?.field` on texts
abbrev same_field {ℓ} : {A : Type ℓ} → (A → String) → Option A → Option A → Bool
same_field f none none = true
same_field f (some a) (some b) = f a === f b
same_field f _ _ = false

abbrev pub configured_shards : Option FleetConfig → List Shard
configured_shards none = []
configured_shards (some c) = c.shards

abbrev pub configured_accounts : Option FleetConfig → List CloudAccount
configured_accounts none = []
configured_accounts (some c) = c.accounts

-- The test on a shard that holds mailboxes: `!` on a missing old account is an exception.
unfoldable pub keeps_shard :
    FleetConfig → Dict String CloudAccount → Shard → Option Shard → Result (Unit {0})
keeps_shard config previous_accounts previous none = fail config_conflict 409 false
keeps_shard config previous_accounts previous (some replacement) =
    let old_account = get previous_accounts previous.account_key in
    if not (replacement.account_key === previous.account_key)
      || not (replacement.database_id === previous.database_id)
      || not (replacement.base_url === previous.base_url)
    then fail config_conflict 409 false
    else elim old_account [
      | none ↦ fail registry_unavailable 503 true
      | some old ↦
          raise_if
            (not (
              same_field (λ a. a.provider_account_id)
                (get (account_index config.accounts) previous.account_key) (some old)))
            config_conflict 409 false
    ]

unfoldable pub keeps_used_shards :
    Store → FleetConfig → Dict String CloudAccount → List Shard → Result (Unit {0})
unfolding keeps_shard
keeps_used_shards s config previous_accounts [] = ok tt
keeps_used_shards s config previous_accounts (shard ∷ shards) =
    let rest = keeps_used_shards s config previous_accounts shards in
    if or_else (get s.usage shard.shard_id) 0 == 0
    then rest
    else keeps_shard config previous_accounts shard (get (shard_index config.shards) shard.shard_id)
      >> rest

-- The accounts whose provider changes.
changed_accounts :
    Dict String CloudAccount → Dict String CloudAccount → List CloudAccount → List String
changed_accounts previous next [] = []
changed_accounts previous next (a ∷ as') =
    let rest = changed_accounts previous next as' in
    if same_field (λ b. b.provider_account_id) (get previous a.account_key) (get next a.account_key)
    then rest
    else a.account_key ∷ rest

abbrev account_keys : Option Shard → List String
account_keys none = []
account_keys (some s) = s.account_key ∷ []

-- The accounts that gain or lose a database.
moved_accounts : Dict String Shard → Dict String Shard → List Shard → List String
moved_accounts previous next [] = []
moved_accounts previous next (s ∷ ss) =
    let p = get previous s.shard_id in
    let n = get next s.shard_id in
    let rest = moved_accounts previous next ss in
    if same_field (λ t. t.account_key) p n && same_field (λ t. t.database_id) p n
    then rest
    else account_keys p ++ (account_keys n ++ rest)

unfoldable pub invalidated_accounts : Option FleetConfig → FleetConfig → List String
unfolding changed_accounts moved_accounts
invalidated_accounts old config =
    let previous_accounts = account_index (configured_accounts old) in
    let next_accounts = account_index config.accounts in
    let previous_shards = shard_index (configured_shards old) in
    let next_shards = shard_index config.shards in
    changed_accounts previous_accounts next_accounts
      (values previous_accounts ++ values next_accounts)
    ++ moved_accounts previous_shards next_shards (values previous_shards ++ values next_shards)

unfoldable pub delete_metrics : Dict String MetricSeries → List String → Dict String MetricSeries
delete_metrics metrics [] = metrics
delete_metrics metrics (k ∷ ks) = delete_metrics (delete metrics k) ks

abbrev primary_changes : Option FleetConfig → FleetConfig → Bool
primary_changes none config = false
primary_changes (some old) config = not (old.primary_shard_id === config.primary_shard_id)

unfoldable pub configure : Txn → FleetConfig → Result (Txn × Response)
unfolding invalidated_accounts delete_metrics
configure t config =
    let old = t.meta.config in
    let invalidated = invalidated_accounts old config in
    do
      raise_if (ltb config.max_mailboxes t.meta.mailbox_count) config_conflict 409 false
      raise_if (primary_changes old config) config_conflict 409 false
      keeps_used_shards t.store config (account_index (configured_accounts old))
          (configured_shards old)
      ok (
        record {
          store = record t.store { metrics = delete_metrics t.store.metrics invalidated };
          meta = record t.meta {
            config = some (record config {
              accounts =
                  map
                    (λ a.
                      if includes invalidated a.account_key
                      then record a { metrics_observed_at = none }
                      else a)
                    config.accounts;
            });
          };
        },
        configured,
      )

abbrev foreign_size : FleetConfig → MetricReport → Bool
foreign_size config report =
    any
      (λ e. not (
        any (λ s. s.account_key === report.snapshot.account_key && s.shard_id === e.0)
          config.shards))
      report.snapshot.shard_sizes

-- The configuration after a sample that counts.
unfoldable pub observe_sizes : FleetConfig → MetricReport → FleetConfig
observe_sizes config report = record config {
  accounts =
      map
        (λ a.
          if a.account_key === report.snapshot.account_key
          then record a { metrics_observed_at = some report.snapshot.observed_at }
          else a)
        config.accounts;
  shards =
      map
        (λ s. elim (get report.snapshot.shard_sizes s.shard_id) [
          | none ↦ s
          | some size ↦ record s { observed_size_bytes = size }
        ])
        config.shards;
}

unfoldable pub metrics : Txn → MetricReport → ℕ → Result (Txn × Response)
unfolding observe_sizes
metrics t report now = do
  config ← require_config t.meta
  let key = report.snapshot.account_key
  raise_if (not (any (λ a. a.account_key === key) config.accounts)) invalid_request 400 false
  raise_if (foreign_size config report) invalid_request 400 false
  let series = update_metric_series (get t.store.metrics key) report now
  ok (
    record {
      store = record t.store { metrics = put t.store.metrics key series };
      meta = record t.meta {
        config = some (
            if ltb 0 series.consecutive_valid_samples then observe_sizes config report else config);
      };
    },
    sampled series.consecutive_valid_samples,
  )
