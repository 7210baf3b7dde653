-- ===== src/Sessions/Grants/Record.antt =====
-- `record_spend_authorization_grant` and `_require_authorizable` of domains/sessions/service.py.
pub mod Exclusive
use livepeer_open_clearingho.Base.{
  ℕ, String, Option, none, some, List, [], ◌∷◌, ◌++◌, Bool, true, false, not, ◌&&◌, ◌||◌, ◌==◌,
  str_eq, bytes_eq, ltb, is_some, or_else, if◌then◌else◌,
}
use livepeer_open_clearingho.Base.Time.{Datetime}
use livepeer_open_clearingho.Base.Result.{Result, ok, err}
use livepeer_open_clearingho.Base.Action.{pure, raise, gets, modify, raise_if, ◌>>=◌, ◌>>◌}
use livepeer_open_clearingho.Settlement.Diagnostics.{joined}
use livepeer_open_clearingho.Settlement.Hex.{to_hex}
use livepeer_open_clearingho.Sessions.Rows
use livepeer_open_clearingho.Sessions.Rows.{
  Snapshot, PaymentSession, SpendAuthorizationGrant, Db, Error, Sessions, find_session,
  write_session, find_grant, or_raise,
}
use livepeer_open_clearingho.Sessions.States.{is_open}
use livepeer_open_clearingho.Sessions.Engagement.{text_eq, has_snapshot}

-- The fields of the request and of the response that are read; the payee, the price and the broker's
-- address come from the route. `engagement_name` is `str(engagement_id)`.
pub record Authorization : Type 0 where
  pub engagement_id : ℕ
  pub engagement_name : String
  pub user_id : ℕ
  pub route : Snapshot
  pub settlement_domain_id : String
  pub authorization_id : String
  pub request_id : String
  pub session_id : String
  pub protocol : String
  pub max_debit_wei : ℕ
  pub max_total_units : ℕ
  pub not_before : Datetime
  pub expires_at : Datetime
  pub request_digest : List ℕ
  pub caller_public_key : List ℕ
  pub revision : ℕ
  pub predecessor_authorization_id : String
  pub chain_id : ℕ
  pub request_domain_id : String
  pub wholesale_account_id : String
  pub denomination : String
  pub signed_authorization_id : String
  pub authorization_bytes : List ℕ
  pub payer : List ℕ

-- `text or None`
abbrev pub or_none : String → Option String
or_none s = if str_eq s "" then none else some s

abbrev pub new_grant : Authorization → SpendAuthorizationGrant
new_grant a = record {
  session_id = a.engagement_id;
  authorization_id = a.authorization_id;
  revision = a.revision;
  predecessor_authorization_id = or_none a.predecessor_authorization_id;
  request_id = a.request_id;
  request_digest = to_hex a.request_digest;
  caller_public_key = to_hex a.caller_public_key;
  authorization_bytes = a.authorization_bytes;
  protocol = a.protocol;
  route_snapshot = a.route;
  payer_eth_address = joined "0x" (to_hex a.payer);
  chain_id = a.chain_id;
  wholesale_account_id = a.wholesale_account_id;
  settlement_domain_id = a.settlement_domain_id;
  denomination = a.denomination;
  max_debit_wei = a.max_debit_wei;
  max_total_units = a.max_total_units;
  not_before = a.not_before;
  expires_at = a.expires_at;
  state = "issued";
  retired_at = none;
}

-- The grant that a retry finds has the scope of the request. Addresses are stored with their prefix,
-- so that comparing them without it is comparing them with it.
abbrev pub same_grant : SpendAuthorizationGrant → SpendAuthorizationGrant → Bool
same_grant g h =
    str_eq g.authorization_id h.authorization_id
    && text_eq g.predecessor_authorization_id h.predecessor_authorization_id
    && str_eq g.request_id h.request_id
    && str_eq g.request_digest h.request_digest
    && str_eq g.caller_public_key h.caller_public_key
    && bytes_eq g.authorization_bytes h.authorization_bytes
    && str_eq g.protocol h.protocol
    && str_eq g.payer_eth_address h.payer_eth_address
    && g.chain_id == h.chain_id
    && str_eq g.settlement_domain_id h.settlement_domain_id
    && str_eq g.wholesale_account_id h.wholesale_account_id
    && str_eq g.denomination h.denomination
    && g.max_debit_wei == h.max_debit_wei
    && g.max_total_units == h.max_total_units
    && g.not_before.micros == h.not_before.micros
    && g.expires_at.micros == h.expires_at.micros

abbrev pub find_revision : ℕ → ℕ → List SpendAuthorizationGrant → Option SpendAuthorizationGrant
find_revision i revision [] = none
find_revision i revision (g ∷ rest) =
    if i == g.session_id && revision == g.revision then some g else find_revision i revision rest

abbrev pub owned : ℕ → Option PaymentSession → Option PaymentSession
owned user_id none = none
owned user_id (some s) = if s.user_id == user_id then some s else none

abbrev pub refuse_if : Bool → String → Sessions (Unit {0})
refuse_if test message = raise_if test (Rows.invalid_session_request message)

-- `_require_authorizable`
unfoldable pub require_authorizable : PaymentSession → ℕ → Sessions (Unit {0})
require_authorizable engagement revision = do
  refuse_if (not (str_eq engagement.accounting_mode "wholesale_account"))
      "legacy engagement cannot record an authorization"
  raise_if (revision == 0 && not (is_open engagement.state)) Rows.engagement_closed

-- The checks of the request against the engagement.
unfoldable pub require_scope : Authorization → PaymentSession → Sessions (Unit {0})
require_scope a engagement = do
  refuse_if (str_eq a.settlement_domain_id "") "authorization settlement domain is required"
  refuse_if
      (not (str_eq a.settlement_domain_id a.route.settlement_domain_id)
        || not (str_eq a.settlement_domain_id a.request_domain_id))
      "authorization settlement domain changed"
  refuse_if (not (has_snapshot engagement.route_snapshot a.route))
      "authorization route differs from locked engagement"
  refuse_if (not (str_eq a.signed_authorization_id a.authorization_id))
      "authorization signer changed identity"
  refuse_if
      (not (
        str_eq a.session_id
          (if str_eq a.protocol "paid-session/v1" then a.engagement_name else "")))
      "authorization session identity changed"
  refuse_if (a.revision == 0 && not (text_eq engagement.broker_request_id (some a.request_id)))
      "authorization request identity changed"

abbrev pub other_account : Option SpendAuthorizationGrant → String → Bool
other_account none account = false
other_account (some g) account = not (str_eq g.wholesale_account_id account)

-- The predecessor of a revision.
unfoldable pub require_predecessor : Authorization → Sessions (Unit {0})
require_predecessor a = do
  predecessor ← gets (λ db. find_grant a.engagement_id a.predecessor_authorization_id db.grants)
  refuse_if (ltb 0 a.revision && other_account predecessor a.wholesale_account_id)
      "authorization revision changed wholesale account"
  refuse_if (ltb 0 a.revision && not (is_some predecessor))
      "authorization predecessor is not retained"

abbrev pub authorized : PaymentSession → String → PaymentSession
authorized s authorization_id = record s {
  authorization_id = some authorization_id;
  work_id = authorization_id;
}

unfoldable pub replay_or_record :
    Option SpendAuthorizationGrant
    → Authorization
    → PaymentSession
    → Sessions SpendAuthorizationGrant
replay_or_record (some existing) a engagement = do
  refuse_if (not (same_grant existing (new_grant a))) "authorization revision replay changed scope"
  pure existing
replay_or_record none a engagement = do
  require_predecessor a
  modify (λ db. record db {
    grants = db.grants ++ new_grant a ∷ [];
    sessions = write_session (authorized engagement a.authorization_id) db.sessions;
  })
  pure (new_grant a)

unfoldable pub record_spend_authorization_grant : Authorization → Sessions SpendAuthorizationGrant
record_spend_authorization_grant a = do
  found ← gets (λ db. owned a.user_id (find_session a.engagement_id db.sessions))
  engagement ← or_raise found Rows.session_not_found
  require_authorizable engagement a.revision
  require_scope a engagement
  existing ← gets (λ db. find_revision a.engagement_id a.revision db.grants)
  replay_or_record existing a engagement
