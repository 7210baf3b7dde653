-- ===== src/Sessions/Engagement.antt =====
-- `claim_wholesale_engagement`, `create_session` and `release_unauthorized_engagement` of
-- domains/sessions/service.py.
pub mod Claims
pub mod Returned
use livepeer_open_clearingho.Base.{
  ℕ, ◌+◌, String, Option, none, some, List, [], ◌∷◌, ◌++◌, Bool, true, false, not, ◌&&◌, ◌||◌, ◌==◌,
  str_eq, bytes_eq, is_some, if◌then◌else◌, or_else,
}
use livepeer_open_clearingho.Base.Int.{ℤ, pos, leb_ℤ}
use livepeer_open_clearingho.Base.Time.{Datetime}
use livepeer_open_clearingho.Base.Decimal.{Decimal}
use livepeer_open_clearingho.Base.Result.{Result, ok, err}
use livepeer_open_clearingho.Base.Action.{pure, raise, gets, lift, modify, raise_if, ◌>>=◌, ◌>>◌}
use livepeer_open_clearingho.Billing.Engagements
use livepeer_open_clearingho.Billing.Engagements.{ℤ_eq}
use livepeer_open_clearingho.Billing.Pricing.{
  CustomerPricingSnapshot, validate, wholesale_pass_through, is_unit_price, is_cost_plus,
}
use livepeer_open_clearingho.Settlement.Records.{quote_matches}
use livepeer_open_clearingho.Settlement.Keys.{Delegation}
use livepeer_open_clearingho.Sessions.Rows
use livepeer_open_clearingho.Sessions.Rows.{
  Snapshot, PaymentSession, Db, Error, Sessions, find_session, billing,
}
use livepeer_open_clearingho.Sessions.Charge.{pricing_result}
use livepeer_open_clearingho.Sessions.States.{is_open, put_session}

abbrev pub text_eq : Option String → Option String → Bool
text_eq none none = true
text_eq none (some t) = false
text_eq (some s) none = false
text_eq (some s) (some t) = str_eq s t

abbrev pub delegation_eq : Delegation → Delegation → Bool
delegation_eq d e =
    text_eq d.public_key e.public_key
    && text_eq d.not_before e.not_before
    && text_eq d.expires_at e.expires_at

abbrev pub delegations_eq : List Delegation → List Delegation → Bool
delegations_eq [] [] = true
delegations_eq [] (e ∷ es) = false
delegations_eq (d ∷ ds) [] = false
delegations_eq (d ∷ ds) (e ∷ es) = delegation_eq d e && delegations_eq ds es

-- Equality of two snapshots as JSON.
abbrev pub snapshot_eq : Snapshot → Snapshot → Bool
snapshot_eq s t =
    str_eq s.broker_url t.broker_url
    && str_eq s.eth_address t.eth_address
    && str_eq s.capability t.capability
    && str_eq s.offering t.offering
    && str_eq s.protocol t.protocol
    && str_eq s.work_unit t.work_unit
    && s.price_per_work_unit_wei == t.price_per_work_unit_wei
    && s.units_per_price == t.units_per_price
    && quote_matches s.quote t.quote
    && str_eq s.settlement_domain_id t.settlement_domain_id
    && delegations_eq s.settlement_keys t.settlement_keys
    && str_eq s.declaration t.declaration

abbrev pub has_snapshot : Option Snapshot → Snapshot → Bool
has_snapshot none t = false
has_snapshot (some s) t = snapshot_eq s t

-- The pricing that a claim asks for: `CustomerPricingSnapshot(plan_id="wholesale-pass-through", ...)`.
abbrev pub pass_through : Snapshot → CustomerPricingSnapshot
pass_through route = record {
  schema_version = "customer-pricing/v1";
  plan_id = "wholesale-pass-through";
  kind = wholesale_pass_through;
  denomination = "wei";
  work_unit = route.work_unit;
  price_per_unit_wei = none;
  units_per_price = none;
  fee_basis_points = none;
}

-- Whether a recorded pricing is the pass-through one.
abbrev pub is_pass_through : Option CustomerPricingSnapshot → Snapshot → Bool
is_pass_through none route = false
is_pass_through (some p) route =
    str_eq p.schema_version "customer-pricing/v1"
    && str_eq p.denomination "wei"
    && str_eq p.plan_id "wholesale-pass-through"
    && str_eq p.work_unit route.work_unit
    && not (is_unit_price p.kind)
    && not (is_cost_plus p.kind)
    && not (is_some p.price_per_unit_wei)
    && not (is_some p.units_per_price)
    && not (is_some p.fee_basis_points)

abbrev pub has_debit : Option ℤ → ℕ → Bool
has_debit none x = false
has_debit (some y) x = ℤ_eq y (pos x)

-- The arguments of a claim. Of the route it reads only what the snapshot holds.
pub record Claim : Type 0 where
  pub user_id : ℕ
  pub api_key_id : ℕ
  pub route : Snapshot
  pub broker_request_id : String
  pub estimated_units : ℕ
  pub max_total_units : ℕ
  pub max_debit_wei : ℕ
  pub gateway_session_id : Option ℕ

abbrev pub is_claimed_by : ℕ → String → PaymentSession → Bool
is_claimed_by u request s =
    u == s.user_id
    && text_eq s.broker_request_id (some request)
    && str_eq s.accounting_mode "wholesale_account"

abbrev pub find_claimed : ℕ → String → List PaymentSession → Option PaymentSession
find_claimed u request [] = none
find_claimed u request (s ∷ rest) =
    if is_claimed_by u request s then some s else find_claimed u request rest

abbrev pub same_scope : PaymentSession → Claim → Bool
same_scope s c =
    s.api_key_id == c.api_key_id
    && str_eq s.capability c.route.capability
    && str_eq s.offering c.route.offering
    && str_eq s.protocol c.route.protocol
    && has_snapshot s.route_snapshot c.route
    && s.estimated_units == c.estimated_units
    && s.max_total_units == c.max_total_units
    && has_debit s.customer_max_debit_wei c.max_debit_wei
    && is_pass_through s.customer_pricing c.route

-- The gateway's session id belongs to another engagement.
abbrev pub is_taken : Option ℕ → Claim → List PaymentSession → Bool
is_taken none c sessions = false
is_taken (some i) c sessions = owned (find_session i sessions)
  where
    owned : Option PaymentSession → Bool
    owned none = false
    owned (some s) =
        not (s.user_id == c.user_id) || not (text_eq s.broker_request_id (some c.broker_request_id))

-- `create_session` with the arguments of a claim.
abbrev pub new_session : ℕ → Claim → Datetime → PaymentSession
new_session id c now = record {
  id = id;
  user_id = c.user_id;
  api_key_id = c.api_key_id;
  work_id = "";
  capability = c.route.capability;
  offering = c.route.offering;
  protocol = c.route.protocol;
  accounting_mode = "wholesale_account";
  customer_pricing = some (pass_through c.route);
  customer_max_debit_wei = some (pos c.max_debit_wei);
  authorization_id = none;
  route_snapshot = some c.route;
  broker_request_id = some c.broker_request_id;
  state = "open";
  estimated_units = c.estimated_units;
  max_total_units = c.max_total_units;
  funded_value_wei = c.max_debit_wei;
  billed_value_wei = none;
  actual_units = none;
  outcome = none;
  opened_at = now;
  closed_at = none;
  rotation_generation = 0;
  predecessor_work_id = none;
  broker_session_id = none;
  last_settlement_seq = 0;
}

-- The primary key, or `uq_payment_session_user_broker_request`, refuses the row.
abbrev pub violates : ℕ → Claim → List PaymentSession → Bool
violates id c [] = false
violates id c (s ∷ rest) =
    id == s.id
    || (c.user_id == s.user_id && text_eq s.broker_request_id (some c.broker_request_id))
    || violates id c rest

-- `uuid4()` is the next number. The flush raises where a constraint refuses the row.
unfoldable pub create_session : Claim → Datetime → Sessions PaymentSession
create_session c now = do
  id ← gets (λ db. or_else c.gateway_session_id db.next_session_id)
  clash ← gets (λ db. violates id c db.sessions)
  raise_if clash Rows.integrity_error
  let row = new_session id c now
  modify (λ db. record db {
    sessions = db.sessions ++ row ∷ [];
    next_session_id = db.next_session_id + 1;
  })
  pure row

unfoldable pub claim_or_replay :
    Option PaymentSession → Claim → Datetime → ℕ → ℤ → Sessions PaymentSession
claim_or_replay (some existing) c now period_seconds cap_wei =
    if not (same_scope existing c)
    then raise (Rows.invalid_session_request "wholesale engagement replay changed scope")
    else pure existing
claim_or_replay none c now period_seconds cap_wei = do
  engagement ← create_session c now
  billing (
      Engagements.encumber_customer_engagement c.user_id engagement.id (pos c.max_debit_wei) now
        period_seconds cap_wei)
  pure engagement

-- The commit succeeds, since the flush has checked the constraints: claims of one request id are steps
-- one after the other here, and the later one reads what the earlier one has committed.
unfoldable pub claim_wholesale_engagement : Claim → Datetime → ℕ → ℤ → Sessions PaymentSession
claim_wholesale_engagement c now period_seconds cap_wei = do
  taken ← gets (λ db. is_taken c.gateway_session_id c db.sessions)
  raise_if taken (Rows.invalid_session_request "gateway_session_id is already in use")
  existing ← gets (λ db. find_claimed c.user_id c.broker_request_id db.sessions)
  lift (pricing_result (validate (pass_through c.route)))
  claim_or_replay existing c now period_seconds cap_wei

abbrev pub released_session : PaymentSession → Datetime → PaymentSession
released_session s now = record s {
  state = "closed";
  closed_at = some now;
  actual_units = some 0;
  billed_value_wei = some (pos 0);
  outcome = some "NOT_ADMITTED";
}

abbrev pub with_hold : PaymentSession → Option ℤ → Option (PaymentSession × ℤ)
with_hold s none = none
with_hold s (some hold) = some (s, hold)

-- The hold to release, of an engagement that may be released.
abbrev pub releasable : Option PaymentSession → Option (PaymentSession × ℤ)
releasable none = none
releasable (some s) =
    if not (str_eq s.accounting_mode "wholesale_account")
      || not (is_open s.state)
      || is_some s.authorization_id
    then none
    else with_hold s s.customer_max_debit_wei

abbrev pub release_hold : Option (PaymentSession × ℤ) → Datetime → Sessions Bool
release_hold none now = pure false
release_hold (some (s, hold)) now = do
  billing (Engagements.release_customer_engagement s.user_id s.id hold)
  modify (put_session (released_session s now))
  pure true

unfoldable pub release_unauthorized_engagement : ℕ → Datetime → Sessions Bool
release_unauthorized_engagement engagement_id now = do
  engagement ← gets (λ db. find_session engagement_id db.sessions)
  release_hold (releasable engagement) now
