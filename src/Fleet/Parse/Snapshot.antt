-- ===== src/Fleet/Parse/Snapshot.antt =====
-- worker/src/fleet/validation.ts: what a published snapshot that was read satisfies.
use one_mail.Base.{
  ◌≡◌, sym, subst, String, Option, some, true, ◌&&◌, Dict, get, leb, ◌===◌, length, text_key, All,
  arith, inl, inr,
}
use one_mail.Fleet.Contracts.{MailboxRoute, Result, ok, ◌>>=◌, >>=-eq-ok, Result-cases}
use one_mail.Fleet.Validation.{max_mailboxes_limit}
use one_mail.Fleet.Parse.{Json, Value, valid_if, map_result, record_of, any_record}
use one_mail.Fleet.Parse.Config.{Url, PublicShard, route}
use one_mail.Fleet.Parse.Requests.{
  FleetSnapshot, named_shard, named_route, snapshot_fields, snapshot_with, is_two, fleet_snapshot,
  has,
}
use one_mail.Fleet.Parse.WellFormed.{map_result-All}

named_route-owned :
    (shards : Dict String PublicShard) (e : String × Json) (f : String × MailboxRoute)
    → named_route shards e ≡ ok f
    → ((f.0 === f.1.mail_account_id) ≡ true) × (has shards f.1.owner_shard_id ≡ true)
named_route-owned shards (k, v) f h = elim (Result-cases (route (some v))) [
  | inl (r, e) ↦ ground arith
  | inr (x, e) ↦ ground arith
]

-- A published snapshot is read only if each of its routes stands under its own mailbox and belongs
-- to one of its shards.
pub fleet_snapshot-owned :
    (parse_url : String → Option Url) (v : Value) (s : FleetSnapshot)
    → fleet_snapshot parse_url v ≡ ok s
    → All
        (λ e. ((e.0 === e.1.mail_account_id) ≡ true) × (has s.shards e.1.owner_shard_id ≡ true))
        s.mailbox_routes
unfolding fleet_snapshot
fleet_snapshot-owned parse_url v s h =
    let (r, _, h₁) =
      >>=-eq-ok (record_of snapshot_fields v) (λ r. valid_if (is_two (get r "v")) >>= λ _. two r)
        h in
    let (_, _, h₂) = >>=-eq-ok (valid_if (is_two (get r "v"))) (λ _. two r) h₁ in
    let (shards, _, h₃) =
      >>=-eq-ok (any_record (get r "shards"))
        (λ x. any_record (get r "mailbox_routes") >>= three r x) h₂ in
    let (routes, _, h₄) = >>=-eq-ok (any_record (get r "mailbox_routes")) (three r shards) h₃ in
    let (_, _, h₅) =
      >>=-eq-ok (valid_if (leb (length shards) 12 && leb (length routes) max_mailboxes_limit))
        (λ _. four r shards routes) h₄ in
    let (ps, _, h₆) =
      >>=-eq-ok (map_result (named_shard parse_url) shards)
        (λ ps. map_result (named_route ps) routes >>= λ rs. snapshot_with r ps rs) h₅ in
    let (rs, m, h₇) =
      >>=-eq-ok (map_result (named_route ps) routes) (λ rs. snapshot_with r ps rs) h₆ in
    close ps rs (ground arith) (ground arith)
      (map_result-All _ (named_route ps) (named_route-owned ps) routes {ys = rs} m)
  where
    four : Dict String Json → Dict String Json → Dict String Json → Result FleetSnapshot
    four r shards routes = map_result (named_shard parse_url) shards >>= λ ps.
        map_result (named_route ps) routes >>= λ rs. snapshot_with r ps rs

    three : Dict String Json → Dict String Json → Dict String Json → Result FleetSnapshot
    three r shards routes =
        valid_if (leb (length shards) 12 && leb (length routes) max_mailboxes_limit) >>= λ _.
        four r shards routes

    two : Dict String Json → Result FleetSnapshot
    two r = any_record (get r "shards") >>= λ x. any_record (get r "mailbox_routes") >>= three r x

    Good : Dict String PublicShard → Dict String MailboxRoute → Type 0
    Good d rs =
        All (λ e. ((e.0 === e.1.mail_account_id) ≡ true) × (has d e.1.owner_shard_id ≡ true)) rs

    close :
        (ps : Dict String PublicShard) (rs : Dict String MailboxRoute)
        → s.shards ≡ ps
        → s.mailbox_routes ≡ rs
        → Good ps rs
        → Good s.shards s.mailbox_routes
    close ps rs e f g = subst (λ d. Good d s.mailbox_routes) (sym e) (subst (Good ps) (sym f) g)
