-- ===== src/Fleet/Registry/Permanence.antt =====
-- worker/src/fleet/registry_do.ts: what no later command undoes.
use one_mail.Base.{ℕ, ◌≡◌, refl, ap, ◌∙◌, String, Option, some, List, true, get, arith, text_key}
use one_mail.Fleet.Contracts.{MailboxRoute, FleetMode, Command}
use one_mail.Fleet.Registry.{MailboxRecord, Txn, Registry}
use one_mail.Fleet.Registry.Tombstone.{owner_of}
use one_mail.Fleet.Registry.Service.{serve_all}
use one_mail.Fleet.Registry.History.{Kept, serve_all-Holds}
use one_mail.Fleet.Registry.Lifecycle.{
  Becomes, unchanged, confirmed, buried, allocated, execute-Advances,
}

-- A life of any length.
pub data Life (m : MailboxRecord) (r : Option MailboxRoute)
    : MailboxRecord → Option MailboxRoute → Type 0 where
  born : Life m r m r
  step :
      {m₁ m₂ : MailboxRecord} {r₁ r₂ : Option MailboxRoute}
      → Life m r m₁ r₁
      → Becomes m₁ r₁ m₂ r₂
      → Life m r m₂ r₂

abbrev pub Lives : String → MailboxRecord → Option MailboxRoute → Txn → Type 0
Lives k m r t =
    (m' : MailboxRecord) × (get t.store.mailboxes k ≡ some m') × Life m r m' (get t.store.routes k)

execute-Lives : (k : String) (m : MailboxRecord) (r : Option MailboxRoute) → Kept (Lives k m r)
execute-Lives k m r t key a now mode t' reply h (m₁, g, l) =
    let (m₂, g', b) = execute-Advances k m₁ t key a now mode h g in (m₂, g', step l b)

-- Through any history of commands, a mailbox that the registry knows stays known, and its record
-- and published route go through a chain of the steps of `Becomes`.
pub serve_all-Life :
    (digest : Command → String) (r : Registry) (cs : List (Command × ℕ × FleetMode)) (k : String)
    (m : MailboxRecord)
    → get r.store.mailboxes k ≡ some m
    → (m' : MailboxRecord) × (get (serve_all digest r cs).store.mailboxes k ≡ some m')
      × Life m (get r.store.routes k) m' (get (serve_all digest r cs).store.routes k)
serve_all-Life digest r cs k m g =
    serve_all-Holds (Lives k m (get r.store.routes k))
      (λ t u (m', g', l) e. (m', ground arith, rw (ap (λ (x : Txn). get x.store.routes k) e) l))
      (execute-Lives k m (get r.store.routes k)) digest r cs (m, g, born)

Becomes-owner :
    (owner : String) {m m' : MailboxRecord} {r r' : Option MailboxRoute}
    → Becomes m r m' r'
    → owner_of m ≡ some owner
    → owner_of m' ≡ some owner
Becomes-owner owner (unchanged e _) o = ground arith
Becomes-owner owner (confirmed p route d f q eo _ e _) o = ground arith
Becomes-owner owner (buried d e _) o = ground arith
Becomes-owner owner (allocated d n _ _) o = ground arith

Becomes-deleted :
    {m m' : MailboxRecord} {r r' : Option MailboxRoute}
    → Becomes m r m' r'
    → m.deleted ≡ true
    → (m' ≡ m) × (r' ≡ r)
Becomes-deleted (unchanged e f) o = (e, f)
Becomes-deleted (confirmed p route d f q eo _ e _) o = ground arith
Becomes-deleted (buried d e _) o = ground arith
Becomes-deleted (allocated d n _ _) o = ground arith

Life-owner :
    (owner : String) {m : MailboxRecord} {r : Option MailboxRoute} {m' : MailboxRecord}
    {r' : Option MailboxRoute}
    → Life m r m' r'
    → owner_of m ≡ some owner
    → owner_of m' ≡ some owner
Life-owner owner born o = o
Life-owner owner (step l b) o = Becomes-owner owner b (Life-owner owner l o)

Life-deleted :
    {m : MailboxRecord} {r : Option MailboxRoute} {m' : MailboxRecord} {r' : Option MailboxRoute}
    → Life m r m' r'
    → m.deleted ≡ true
    → (m' ≡ m) × (r' ≡ r)
Life-deleted born o = (refl, refl)
Life-deleted {m} (step {m₁} {r₁ = r₁} l b) o =
    let (e, f) = Life-deleted l o in
    let (e', f') = Becomes-deleted b (ap (λ (x : MailboxRecord). x.deleted) e ∙ o) in
    (e' ∙ e, f' ∙ f)

-- A mailbox never moves: once it has an owner, by a route or a pending allocation, every later
-- history leaves it that owner.
pub serve_all-owner :
    (digest : Command → String) (r : Registry) (cs : List (Command × ℕ × FleetMode))
    (k owner : String) (m : MailboxRecord)
    → get r.store.mailboxes k ≡ some m
    → owner_of m ≡ some owner
    → (m' : MailboxRecord) × (get (serve_all digest r cs).store.mailboxes k ≡ some m')
      × (owner_of m' ≡ some owner)
serve_all-owner digest r cs k owner m g o =
    let (m', g', l) = serve_all-Life digest r cs k m g in (m', g', Life-owner owner l o)

-- A deleted mailbox stays deleted: its record, with its epoch, and what is published of it are the
-- same after every later history.
pub serve_all-deleted :
    (digest : Command → String) (r : Registry) (cs : List (Command × ℕ × FleetMode)) (k : String)
    (m : MailboxRecord)
    → get r.store.mailboxes k ≡ some m
    → m.deleted ≡ true
    → (get (serve_all digest r cs).store.mailboxes k ≡ some m)
      × (get (serve_all digest r cs).store.routes k ≡ get r.store.routes k)
serve_all-deleted digest r cs k m g d =
    let (m', g', l) = serve_all-Life digest r cs k m g in
    let (e, f) = Life-deleted l d in (g' ∙ ap some e, f)
