-- ===== src/Send/Balance.antt =====
-- worker/src/mails_api/send_balance.ts, and `refundResolvedSendMailBalance` of
-- send_mail_limit_utils.ts: the balance of a sender.
use one_mail.Base.{
  ℕ, ◌+◌, ◌-◌, String, Option, none, some, Bool, true, false, not, ◌&&◌, ◌||◌, List, get, put, any,
  includes, ltb, ◌==◌, ◌===◌, if◌then◌else◌, text_key,
}
use one_mail.Send.{is_released, Reservation, Database, update_rows}
use one_mail.Send.Writes.{same_key}

-- `ensureDefaultSendBalance`; a default that is not positive is 0 here.
unfoldable pub ensure_default_send_balance : ℕ → String → Database → Database
ensure_default_send_balance default address db =
    if address === "" || default == 0 then db else elim (get db.senders address) [
      | none ↦ record db {
        senders = put db.senders address (record { balance = default; enabled = true });
      }
      | some s ↦ db
    ]

-- `getEnabledSendBalance`
unfoldable pub get_enabled_send_balance : Database → String → Option ℕ
get_enabled_send_balance db address = elim (get db.senders address) [
  | none ↦ none
  | some s ↦ if s.enabled then some s.balance else none
]

-- `reserveSendBalance`
unfoldable pub reserve_send_balance : String → Database → Database × Bool
reserve_send_balance address db = elim (get db.senders address) [
  | none ↦ (db, false)
  | some s ↦
      if s.enabled && ltb 0 s.balance
      then (
        record db { senders = put db.senders address (record s { balance = s.balance - 1 }) },
        true,
      )
      else (db, false)
]

-- `refundSendBalance`
unfoldable pub refund_send_balance : String → Database → Database
refund_send_balance address db = elim (get db.senders address) [
  | none ↦ db
  | some s ↦ record db { senders = put db.senders address (record s { balance = s.balance + 1 }) }
]

-- What a request says of its sender.
pub record SenderContext : Type 0 where
  pub user_role : Option String
  pub admin_user_role : Option String
  pub no_limit_roles : List String
  pub no_limit_addresses : List String
  pub is_admin_option : Bool
  pub is_admin : Bool
  pub default_balance : ℕ
  pub initializes : Bool

pub record BalanceState : Type 0 where
  pub is_no_limit_sender : Bool
  pub need_check_balance : Bool
  pub balance_left : Option ℕ

abbrev pub has_no_limit_role : SenderContext → Bool
has_no_limit_role c = elim c.user_role [ none ↦ false | some r ↦ includes c.no_limit_roles r ]

abbrev pub is_admin_role : SenderContext → Bool
is_admin_role c = elim c.admin_user_role [
  | none ↦ false
  | some r ↦ not (r === "") && same_key c.user_role (some r)
]

-- `getSendBalanceState`
unfoldable pub get_send_balance_state : SenderContext → String → Database → Database × BalanceState
unfolding ensure_default_send_balance get_enabled_send_balance
get_send_balance_state c address db =
    let unlimited =
      has_no_limit_role c
      || includes c.no_limit_addresses address
      || (c.is_admin_option || c.is_admin || is_admin_role c) in
    let db₁ =
      if not unlimited && c.initializes
      then ensure_default_send_balance c.default_balance address db
      else db in
    (
      db₁,
      (if unlimited
          then (record {
            is_no_limit_sender = true;
            need_check_balance = false;
            balance_left = some 99999;
          })
          else (record {
            is_no_limit_sender = false;
            need_check_balance = true;
            balance_left = get_enabled_send_balance db₁ address;
          })),
    )

pub data Access : Type 0 where
  access_ok already_requested : Access

-- `requestSendMailAccess`, with the database at hand.
unfoldable pub request_send_mail_access : SenderContext → String → Database → Database × Access
unfolding ensure_default_send_balance get_send_balance_state
request_send_mail_access c address db =
    if ltb 0 c.default_balance
    then (let db₁ = ensure_default_send_balance c.default_balance address db in
        let (db₂, state) =
          get_send_balance_state (record c { initializes = false; is_admin_option = false }) address
            db₁ in
        (
          db₂,
          elim state.balance_left [
            | none ↦ already_requested
            | some n ↦ if ltb 0 n then access_ok else already_requested
          ],
        ))
    else elim (get db.senders address) [
      | some s ↦ (db, already_requested)
      | none ↦ (
        record db { senders = put db.senders address (record { balance = 0; enabled = false }) },
        access_ok,
      )
    ]

-- A row whose balance may be refunded: the condition of both statements.
abbrev pub is_refundable : String → String → Reservation → Bool
is_refundable id address_id r =
    r.id === id
    && same_key r.sender_address_id (some address_id)
    && is_released r.status
    && r.balance_reserved
    && not r.balance_refunded

-- `JOIN address a ON a.id = r.sender_address_id AND a.name = r.sender_address`
abbrev pub is_joined : Database → Reservation → Bool
is_joined db r = elim r.sender_address_id [
  | none ↦ false
  | some i ↦ same_key (get db.addresses i) r.sender_address
]

abbrev pub has_sender : Database → String → Bool
has_sender db address = elim (get db.senders address) [ none ↦ false | some s ↦ true ]

-- The condition of the second statement. The last value that is bound, to the name of the address,
-- is its id.
abbrev pub is_marked : String → String → String → Database → Reservation → Bool
is_marked id address address_id db r =
    is_refundable id address_id r
    && same_key r.sender_address (some address)
    && has_sender db address
    && same_key (get db.addresses address_id) (some address_id)

abbrev pub as_refunded : ℕ → Reservation → Reservation
as_refunded now r = record r { balance_refunded = true; updated_at = now }

-- The first statement of `refundResolvedSendMailBalance`.
unfoldable pub refund_joined : String → String → String → Database → Database
unfolding refund_send_balance
refund_joined id address address_id db =
    if any (λ r. is_refundable id address_id r && is_joined db r) db.reservations
    then refund_send_balance address db
    else db

-- `refundResolvedSendMailBalance`
unfoldable pub refund_resolved : String → String → String → ℕ → Database → Database × Bool
unfolding refund_joined
refund_resolved id address address_id now db =
    let db₁ = refund_joined id address address_id db in
    let (db₂, n) = update_rows (is_marked id address address_id db₁) (as_refunded now) db₁ in
    (db₂, n == 1)
