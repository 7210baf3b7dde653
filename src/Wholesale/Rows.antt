-- ===== src/Wholesale/Rows.antt =====
-- The tables of domains/wholesale/repo.py, the values of domains/wholesale/types.py and the broker's
-- view of an account in providers/broker_settlement.py. Wei amounts are whole and signed.
use livepeer_open_clearingho.Base.{
  ℕ, String, Option, none, some, List, [], ◌∷◌, Bool, true, false, ◌==◌, ◌&&◌, str_eq,
  if◌then◌else◌,
}
use livepeer_open_clearingho.Base.Int.{ℤ, leb_ℤ, ltb_ℤ}
use livepeer_open_clearingho.Base.Action.{Action}

pub record WholesaleAccountObservation : Type 0 where
  pub payer : String
  pub payee : String
  pub wholesale_account_id : String
  pub settlement_domain_id : String
  pub chain_id : ℕ
  pub denomination : String
  pub credited_value_wei : ℤ
  pub reserved_value_wei : ℤ
  pub debited_value_wei : ℤ
  pub available_value_wei : ℤ
  pub version : ℕ
  pub observed_at : ℕ

pub record WholesaleFundingResult : Type 0 where
  pub payer : String
  pub payee : String
  pub wholesale_account_id : String
  pub settlement_domain_id : String
  pub credited_value_wei : ℤ
  pub available_value_wei : ℤ
  pub account_version : ℕ
  pub funding_id : String

pub record WholesaleFundingLimits : Type 0 where
  pub target_available_wei : ℤ
  pub replenish_below_wei : ℤ
  pub max_available_per_payee_wei : ℤ
  pub max_aggregate_available_wei : ℤ
  pub max_single_funding_wei : ℤ

pub record WholesaleFundingPlan : Type 0 where
  pub target_available_wei : ℤ
  pub observed_available_wei : ℤ
  pub shortfall_wei : ℤ
  pub projected_payee_available_wei : ℤ
  pub projected_aggregate_available_wei : ℤ

pub record WholesaleAccount : Type 0 where
  pub id : ℕ
  pub chain_id : ℕ
  pub payer_eth_address : String
  pub payee_eth_address : String
  pub wholesale_account_id : String
  pub settlement_domain_id : String
  pub denomination : String
  pub protocol_version : String
  pub broker_url : String
  pub credited_value_wei : ℤ
  pub reserved_value_wei : ℤ
  pub debited_value_wei : ℤ
  pub available_value_wei : ℤ
  pub remote_version : ℕ
  pub observed_at : ℕ

pub data Status : Type 0 where
  claimed minted acknowledged : Status

abbrev pub is_claimed : Status → Bool
is_claimed claimed = true
is_claimed s = false

abbrev pub is_acknowledged : Status → Bool
is_acknowledged acknowledged = true
is_acknowledged s = false

-- `route_snapshot` is the JSON of the selected route.
pub record WholesaleFunding : Type 0 where
  pub account_id : ℕ
  pub mint_request_id : String
  pub correlation_id : Option String
  pub target_available_wei : ℤ
  pub observed_available_wei : ℤ
  pub requested_shortfall_wei : ℤ
  pub route_snapshot : String
  pub payment_bytes : Option (List ℕ)
  pub minted_expected_value_wei : ℤ
  pub credited_value_wei : Option ℤ
  pub work_id : Option String
  pub account_version : Option ℕ
  pub status : Status
  pub acknowledged_at : Option ℕ

-- The selected route, as far as funding records it: the broker and `route.snapshot()`.
pub record Route : Type 0 where
  pub worker_url : String
  pub snapshot : String

-- `budget` is the row `global` of the exposure budget; a new account takes `next_id`.
pub record Db : Type 0 where
  pub accounts : List WholesaleAccount
  pub budget : Option ℤ
  pub fundings : List WholesaleFunding
  pub next_id : ℕ

-- One constructor for each message of `WholesaleFundingPolicyError`.
pub data Error : Type 0 where
  invalid_required_reservation reservation_exceeds_payee_limit : Error
  reservation_exceeds_aggregate_limit : Error
  aggregate_below_observed payee_below_observed : Error
  shortfall_exceeds_single_funding exceeds_payee_limit exceeds_aggregate_limit : Error
  session_not_clean replay_changed_account replay_changed_scope replay_changed_state : Error
  budget_not_initialized plan_changed observation_moved_backwards : Error
  domain_required observation_changed_domain : Error
  mint_does_not_match_claim mint_replay_changed_bytes : Error
  no_minted_claim account_missing acknowledgement_changed_account : Error
  acknowledgement_disagrees receipt_of_another_payment credit_differs_from_minted : Error
  broker_under_credited credit_exceeds_account broker_changed_receipt : Error

abbrev pub Wholesale : Type 0 → Type 0
Wholesale A = Action Error Db A

abbrev pub ℤ_eq : ℤ → ℤ → Bool
ℤ_eq a b = leb_ℤ a b && leb_ℤ b a

-- `max(a, b)`
abbrev pub max_ℤ : ℤ → ℤ → ℤ
max_ℤ a b = if ltb_ℤ a b then b else a

abbrev pub find_funding : String → List WholesaleFunding → Option WholesaleFunding
find_funding m [] = none
find_funding m (f ∷ fs) = if str_eq f.mint_request_id m then some f else find_funding m fs

-- The columns of a funding are written to the row with its `mint_request_id`, which is unique.
abbrev pub write_funding : WholesaleFunding → List WholesaleFunding → List WholesaleFunding
write_funding f [] = []
write_funding f (g ∷ gs) =
    if str_eq g.mint_request_id f.mint_request_id then f ∷ gs else g ∷ write_funding f gs

abbrev pub find_account : ℕ → List WholesaleAccount → Option WholesaleAccount
find_account i [] = none
find_account i (a ∷ rest) = if i == a.id then some a else find_account i rest

abbrev pub write_account : WholesaleAccount → List WholesaleAccount → List WholesaleAccount
write_account a [] = []
write_account a (b ∷ bs) = if a.id == b.id then a ∷ bs else b ∷ write_account a bs
