-- ===== src/Fleet/Registry/Capacity.antt =====
-- worker/src/fleet/registry_do.ts: the count of mailboxes and the configured limit.
use one_mail.Base.{
  ℕ, suc, ◌+◌, ◌≤◌, ◌≡◌, refl, String, Option, none, some, List, [], ◌∷◌, true, get, put, total,
  held, total-put, length, arith, if◌then◌else◌, text_key,
}
use one_mail.Fleet.Contracts.{
  FleetConfig, ImportEntry, Gate, FleetMode, MetricReport, Action, Command, configures, imports,
  allocates, confirms, measures, tombstones, ok, >>=-eq-ok,
}
use one_mail.Fleet.Registry.{
  MailboxRecord, Store, Txn, Response, require_config, increment_usage, add_affinity,
  remove_affinity,
}
use one_mail.Fleet.Registry.Configure.{configure, metrics}
use one_mail.Fleet.Registry.Import.{import_entry, import_entries, import_routes}
use one_mail.Fleet.Registry.Allocate.{allocate, allocate_new, reserve, confirm}
use one_mail.Fleet.Registry.Tombstone.{tombstone}
use one_mail.Fleet.Registry.Service.{execute, serve_all}
use one_mail.Fleet.Registry.History.{begin, initial, serve_all-Holds}

-- 1 for a mailbox that is not deleted.
abbrev pub is_live : MailboxRecord → ℕ
is_live m = if m.deleted then 0 else 1

abbrev pub live : Store → ℕ
live s = total is_live s.mailboxes

abbrev pub Fits : Option FleetConfig → ℕ → Type 0
Fits none n = n ≡ 0
Fits (some c) n = n ≤ c.max_mailboxes

pub record Bounded (t : Txn) : Type 0 where
  pub counted : live t.store ≤ t.meta.mailbox_count
  pub limited : Fits t.meta.config t.meta.mailbox_count

pub configure-Bounded :
    (t : Txn) (c : FleetConfig) {t' : Txn} {r : Response}
    → configure t c ≡ ok (t', r)
    → Bounded t
    → Bounded t'
unfolding configure
configure-Bounded t c h b = ground arith

pub metrics-Bounded :
    (t : Txn) (m : MetricReport) (now : ℕ) {t' : Txn} {r : Response}
    → metrics t m now ≡ ok (t', r)
    → Bounded t
    → Bounded t'
unfolding metrics require_config
metrics-Bounded t m now h b = ground arith

-- A live mailbox stays one, whatever its route becomes.
live-put_same :
    (s : Store) (k : String) (m m' : MailboxRecord)
    → get s.mailboxes k ≡ some m
    → m'.deleted ≡ m.deleted
    → total is_live (put s.mailboxes k m') ≡ live s
live-put_same s k m m' e d = ground (arith, total-put is_live s.mailboxes k m')

live-put-le :
    (s : Store) (k : String) (m' : MailboxRecord)
    → total is_live (put s.mailboxes k m') ≤ suc (live s)
live-put-le s k m' = ground (arith, total-put is_live s.mailboxes k m')

live-put_gone :
    (s : Store) (k : String) (m' : MailboxRecord)
    → m'.deleted ≡ true
    → total is_live (put s.mailboxes k m') + held is_live (get s.mailboxes k) ≡ live s
live-put_gone s k m' d = ground (arith, total-put is_live s.mailboxes k m')

confirm-Bounded :
    (t : Txn) (k o : String) (g : Gate) (now : ℕ) (mode : FleetMode) {t' : Txn} {r : Response}
    → confirm t k o g now mode ≡ ok (t', r)
    → Bounded t
    → Bounded t'
unfolding confirm require_config
confirm-Bounded t k o g now mode h b = grind (arith, live-put_same)

tombstone-Bounded :
    (t : Txn) (k : String) (now : ℕ) {t' : Txn} {r : Response}
    → tombstone t k now ≡ ok (t', r)
    → Bounded t
    → Bounded t'
unfolding tombstone remove_affinity
tombstone-Bounded t k now h b = grind (arith, live-put_gone)

live-import_entry :
    (c : FleetConfig) (s : Store) (e : ImportEntry) {s' : Store}
    → import_entry c s e ≡ ok s'
    → live s' ≤ suc (live s)
unfolding import_entry increment_usage add_affinity
live-import_entry c s e h = grind (arith, live-put-le)

live-import_entries :
    (c : FleetConfig) (s : Store) (es : List ImportEntry) {s' : Store}
    → import_entries c s es ≡ ok s'
    → live s' ≤ live s + length es
unfolding import_entries
live-import_entries c s [] h = ground arith
live-import_entries c s (e ∷ es) h =
    let (s₁, h₁, h₂) = >>=-eq-ok (import_entry c s e) (λ x. import_entries c x es) h in
    omega (arith, live-import_entry c s e h₁, live-import_entries c s₁ es h₂)

import_routes-Bounded :
    (t : Txn) (es : List ImportEntry) {t' : Txn} {r : Response}
    → import_routes t es ≡ ok (t', r)
    → Bounded t
    → Bounded t'
unfolding import_routes require_config
import_routes-Bounded t es h b = grind (arith, live-import_entries)

reserve-Bounded :
    (t : Txn) (c : FleetConfig) (k u o sh a : String) (now : ℕ) {t' : Txn} {r : Response}
    → reserve t c k u o sh a now ≡ ok (t', r)
    → t.meta.config ≡ some c
    → t.meta.mailbox_count + 1 ≤ c.max_mailboxes
    → Bounded t
    → Bounded t'
unfolding reserve increment_usage add_affinity
reserve-Bounded t c k u o sh a now h e l b = grind (arith, live-put-le)

allocate_new-Bounded :
    (t : Txn) (c : FleetConfig) (k u o : String) (now : ℕ) {t' : Txn} {r : Response}
    → allocate_new t c k u o now ≡ ok (t', r)
    → t.meta.config ≡ some c
    → Bounded t
    → Bounded t'
unfolding allocate_new
allocate_new-Bounded t c k u o now h e b = grind (arith, reserve-Bounded)

allocate-Bounded :
    (t : Txn) (k u o : String) (now : ℕ) (mode : FleetMode) {t' : Txn} {r : Response}
    → allocate t k u o now mode ≡ ok (t', r)
    → Bounded t
    → Bounded t'
unfolding allocate require_config
allocate-Bounded t k u o now mode h b = grind (arith, allocate_new-Bounded)

execute-Bounded :
    (t : Txn) (key : String) (a : Action) (now : ℕ) (mode : FleetMode) {t' : Txn} {r : Response}
    → execute t key a now mode ≡ ok (t', r)
    → Bounded t
    → Bounded t'
unfolding execute
execute-Bounded t key (configures c) now mode h b = configure-Bounded t c h b
execute-Bounded t key (imports es) now mode h b = import_routes-Bounded t es h b
execute-Bounded t key (measures m) now mode h b = metrics-Bounded t m now h b
execute-Bounded t key (allocates k u) now mode h b = allocate-Bounded t k u key now mode h b
execute-Bounded t key (confirms k o g) now mode h b = confirm-Bounded t k o g now mode h b
execute-Bounded t key (tombstones k) now mode h b = tombstone-Bounded t k now h b

-- After any history of commands, the live mailboxes are at most the counted ones, and those at
-- most the limit of the configuration; without a configuration nothing is counted.
pub serve_all-Bounded :
    (digest : Command → String) (cs : List (Command × ℕ × FleetMode))
    → Bounded (begin (serve_all digest initial cs) 0)
unfolding total
serve_all-Bounded digest cs =
    serve_all-Holds Bounded (λ t u b e. record { counted = ground arith; limited = ground arith })
      (λ t key a now mode t' r h b. execute-Bounded t key a now mode h b) digest initial cs
      (record { counted = omega arith; limited = refl })
