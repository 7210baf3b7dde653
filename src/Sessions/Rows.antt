-- ===== src/Sessions/Rows.antt =====
-- The tables of domains/sessions/repo.py with the billing tables beside them, and the exceptions of
-- domains/sessions/service.py and domains/jobs/service.py.
use livepeer_open_clearingho.Base.{
  ℕ, String, Option, none, some, List, [], ◌∷◌, Bool, ◌&&◌, ◌==◌, str_eq, if◌then◌else◌,
}
use livepeer_open_clearingho.Base.Int.{ℤ}
use livepeer_open_clearingho.Base.Json.{Fields}
use livepeer_open_clearingho.Base.Time.{Datetime}
use livepeer_open_clearingho.Base.Result.{Result, ok, err}
use livepeer_open_clearingho.Base.Action
use livepeer_open_clearingho.Base.Action.{Action}
use livepeer_open_clearingho.Billing.Rows
use livepeer_open_clearingho.Billing.Pricing.{CustomerPricingSnapshot, PricingError}
use livepeer_open_clearingho.Settlement.Records.{QuoteRef}
use livepeer_open_clearingho.Settlement.Keys.{Delegation}

-- What `route.snapshot()` wrote. The axes, the estimator and `extra` are only compared: their JSON
-- text is `declaration`. Every field is there and well-formed, as `snapshot()` writes it: a row whose
-- JSON lacks one, or holds text that is no number, which the services refuse, is not modelled.
pub record Snapshot : Type 0 where
  pub broker_url : String
  pub eth_address : String
  pub capability : String
  pub offering : String
  pub protocol : String
  pub work_unit : String
  pub price_per_work_unit_wei : ℕ
  pub units_per_price : ℕ
  pub quote : QuoteRef
  pub settlement_domain_id : String
  pub settlement_keys : List Delegation
  pub declaration : String

pub record PaymentSession : Type 0 where
  pub id : ℕ
  pub user_id : ℕ
  pub api_key_id : ℕ
  pub work_id : String
  pub capability : String
  pub offering : String
  pub protocol : String
  pub accounting_mode : String
  pub customer_pricing : Option CustomerPricingSnapshot
  pub customer_max_debit_wei : Option ℤ
  pub authorization_id : Option String
  pub route_snapshot : Option Snapshot
  pub broker_request_id : Option String
  pub state : String
  pub estimated_units : ℕ
  pub max_total_units : ℕ
  pub funded_value_wei : ℕ
  pub billed_value_wei : Option ℤ
  pub actual_units : Option ℕ
  pub outcome : Option String
  pub opened_at : Datetime
  pub closed_at : Option Datetime
  pub rotation_generation : ℕ
  pub predecessor_work_id : Option String
  pub broker_session_id : Option String
  pub last_settlement_seq : ℕ

pub record PaymentSettlement : Type 0 where
  pub session_id : ℕ
  pub recorded_at : Datetime
  pub event_type : String
  pub actual_units : Option ℕ
  pub billed_value_wei : Option ℤ
  pub outcome : Option String
  pub raw_record : Option Fields

pub record SpendAuthorizationGrant : Type 0 where
  pub session_id : ℕ
  pub authorization_id : String
  pub revision : ℕ
  pub predecessor_authorization_id : Option String
  pub request_id : String
  pub request_digest : String
  pub caller_public_key : String
  pub authorization_bytes : List ℕ
  pub protocol : String
  pub route_snapshot : Snapshot
  pub payer_eth_address : String
  pub chain_id : ℕ
  pub wholesale_account_id : String
  pub settlement_domain_id : String
  pub denomination : String
  pub max_debit_wei : ℕ
  pub max_total_units : ℕ
  pub not_before : Datetime
  pub expires_at : Datetime
  pub state : String
  pub retired_at : Option Datetime

pub record Db : Type 0 where
  pub billing : Rows.Db
  pub sessions : List PaymentSession
  pub grants : List SpendAuthorizationGrant
  pub settlements : List PaymentSettlement
  pub next_session_id : ℕ

pub data Error : Type 0 where
  billing_error : Rows.Error → Error
  pricing_error : PricingError → Error
  invalid_session_state invalid_session_transition session_not_found : Error
  session_not_open : String → Error
  settlement_failed : String → Error
  successor_unresolved : String → Error
  invalid_session_request : String → Error
  engagement_closed : Error
  job_not_found : Error
  job_already_settled : String → Error
  work_unit_mismatch : Error
  integrity_error : Error

abbrev pub Sessions : Type 0 → Type 0
Sessions A = Action Error Db A

-- `session.get(PaymentSession, id)`
abbrev pub find_session : ℕ → List PaymentSession → Option PaymentSession
find_session i [] = none
find_session i (s ∷ rest) = if i == s.id then some s else find_session i rest

abbrev pub write_session : PaymentSession → List PaymentSession → List PaymentSession
write_session s [] = []
write_session s (t ∷ rest) = if s.id == t.id then s ∷ rest else t ∷ write_session s rest

-- The grant of a session with an authorization id, which is unique.
abbrev pub is_grant : ℕ → String → SpendAuthorizationGrant → Bool
is_grant i authorization_id g = i == g.session_id && str_eq g.authorization_id authorization_id

abbrev pub find_grant : ℕ → String → List SpendAuthorizationGrant → Option SpendAuthorizationGrant
find_grant i authorization_id [] = none
find_grant i authorization_id (g ∷ rest) =
    if is_grant i authorization_id g then some g else find_grant i authorization_id rest

abbrev pub write_grant :
    SpendAuthorizationGrant → List SpendAuthorizationGrant → List SpendAuthorizationGrant
write_grant g [] = []
write_grant g (h ∷ rest) =
    if is_grant g.session_id g.authorization_id h then g ∷ rest else h ∷ write_grant g rest

-- A call of the billing service: it works on the billing tables.
abbrev pub in_billing : {A : Type 0} → Result Rows.Error A → Result Error A
in_billing (ok a) = ok a
in_billing (err e) = err (billing_error e)

abbrev pub billing : {A : Type 0} → Action Rows.Error Rows.Db A → Sessions A
billing m db = let (r, b) = m db.billing in (in_billing r, record db { billing = b })

abbrev pub or_raise : {A : Type 0} → Option A → Error → Sessions A
or_raise none e = Action.raise e
or_raise (some a) e = Action.pure a
