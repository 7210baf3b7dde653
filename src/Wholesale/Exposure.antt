-- ===== src/Wholesale/Exposure.antt =====
-- domains/wholesale/service.py: which accounts count, and the exposure that they add up to.
use livepeer_open_clearingho.Base.{
  ℕ, String, Option, none, some, List, [], ◌∷◌, Bool, true, false, not, ◌==◌, ◌&&◌, ◌||◌, str_eq,
  if◌then◌else◌,
}
use livepeer_open_clearingho.Base.Int.{ℤ, pos, ◌+ℤ◌, ◌-ℤ◌}
use livepeer_open_clearingho.Base.Action.{raise_if}
use livepeer_open_clearingho.Wholesale.Rows
use livepeer_open_clearingho.Wholesale.Rows.{
  WholesaleAccountObservation, WholesaleFundingLimits, WholesaleFundingPlan, WholesaleAccount,
  WholesaleFunding, Route, Db, Error, Wholesale, claimed, is_claimed, is_acknowledged, ℤ_eq,
  find_funding, find_account, write_account,
}

-- COMPAT_SETTLEMENT_DOMAIN_ID
abbrev pub compat_settlement_domain_id : String
compat_settlement_domain_id = "loc.compat.wholesale-account/1.1.0-draft"

-- `_require_settlement_domain_id`
abbrev pub require_settlement_domain_id : String → Wholesale (Unit {0})
require_settlement_domain_id value = raise_if (str_eq value "") Rows.domain_required

-- `_require_observation_domain`
abbrev pub require_observation_domain : WholesaleAccountObservation → String → Wholesale (Unit {0})
require_observation_domain observation value =
    raise_if (not (str_eq observation.settlement_domain_id value)) Rows.observation_changed_domain

abbrev pub is_active : WholesaleAccount → Bool
is_active a = not (str_eq a.settlement_domain_id compat_settlement_domain_id)

-- `_load_active_accounts`
abbrev pub load_active_accounts : List WholesaleAccount → List WholesaleAccount
load_active_accounts [] = []
load_active_accounts (a ∷ rest) =
    if is_active a then a ∷ load_active_accounts rest else load_active_accounts rest

abbrev pub is_payee_account : WholesaleAccountObservation → WholesaleAccount → Bool
is_payee_account o a =
    a.chain_id == o.chain_id
    && str_eq a.payer_eth_address o.payer
    && str_eq a.payee_eth_address o.payee
    && str_eq a.denomination o.denomination

-- `_matching_payee_accounts`
abbrev pub matching_payee_accounts :
    List WholesaleAccount → WholesaleAccountObservation → List WholesaleAccount
matching_payee_accounts [] o = []
matching_payee_accounts (a ∷ rest) o =
    if is_payee_account o a
    then a ∷ matching_payee_accounts rest o
    else matching_payee_accounts rest o

-- The generator of the `next(..., None)`: the account of this domain and id.
abbrev pub next_account : String → String → List WholesaleAccount → Option WholesaleAccount
next_account domain account_id [] = none
next_account domain account_id (a ∷ rest) =
    if str_eq a.settlement_domain_id domain && str_eq a.wholesale_account_id account_id
    then some a
    else next_account domain account_id rest

-- `_account_matches`
abbrev pub account_matches : WholesaleAccount → WholesaleAccountObservation → String → Bool
account_matches a o domain =
    a.chain_id == o.chain_id
    && str_eq a.payer_eth_address o.payer
    && str_eq a.payee_eth_address o.payee
    && str_eq o.settlement_domain_id domain
    && str_eq a.settlement_domain_id domain
    && str_eq a.wholesale_account_id o.wholesale_account_id
    && str_eq a.denomination o.denomination

abbrev pub has_id : ℕ → List WholesaleAccount → Bool
has_id i [] = false
has_id i (a ∷ rest) = i == a.id || has_id i rest

abbrev pub available_sum : List WholesaleAccount → ℤ
available_sum [] = pos 0
available_sum (a ∷ rest) = a.available_value_wei +ℤ available_sum rest

-- `_pending_account_funding`: the sum of the claims of these accounts not yet acknowledged.
abbrev pub pending_account_funding : List WholesaleAccount → List WholesaleFunding → ℤ
pending_account_funding accounts [] = pos 0
pending_account_funding accounts (f ∷ fs) =
    (if has_id f.account_id accounts && not (is_acknowledged f.status)
      then f.requested_shortfall_wei
      else pos 0)
    +ℤ pending_account_funding accounts fs

abbrev pub prior_available : Option WholesaleAccount → ℤ
prior_available none = pos 0
prior_available (some a) = a.available_value_wei

-- `_synchronized_exposure` of the accounts in the list: the aggregate or the payee figure.
abbrev pub synchronized_exposure :
    List WholesaleAccount
    → Option WholesaleAccount
    → WholesaleAccountObservation
    → List WholesaleFunding
    → ℤ
synchronized_exposure accounts account o fundings =
    available_sum accounts
    +ℤ pending_account_funding accounts fundings
    +ℤ (o.available_value_wei -ℤ prior_available account)

-- `locked_plan != plan` compares every field.
abbrev pub plan_eq : WholesaleFundingPlan → WholesaleFundingPlan → Bool
plan_eq p q =
    ℤ_eq p.target_available_wei q.target_available_wei
    && ℤ_eq p.observed_available_wei q.observed_available_wei
    && ℤ_eq p.shortfall_wei q.shortfall_wei
    && ℤ_eq p.projected_payee_available_wei q.projected_payee_available_wei
    && ℤ_eq p.projected_aggregate_available_wei q.projected_aggregate_available_wei

abbrev pub option_str_eq : Option String → Option String → Bool
option_str_eq none none = true
option_str_eq none (some t) = false
option_str_eq (some s) none = false
option_str_eq (some s) (some t) = str_eq s t
