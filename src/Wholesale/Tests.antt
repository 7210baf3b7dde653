-- ===== src/Wholesale/Tests.antt =====
-- The theorems of wholesale funding at concrete accounts.
use livepeer_open_clearingho.Base.{
  ℕ, String, ◌≡◌, ◌⊎◌, refl, none, some, List, [], ◌∷◌, true, arith,
}
use livepeer_open_clearingho.Base.Int.{pos, ◌+ℤ◌, ◌-ℤ◌, ◌≤ℤ◌, int_laws}
use livepeer_open_clearingho.Base.Result.{ok, err}
use livepeer_open_clearingho.Wholesale.Rows.{
  WholesaleAccountObservation, WholesaleFundingResult, WholesaleFundingLimits, WholesaleFundingPlan,
  WholesaleAccount, WholesaleFunding, Route, Db, Error, minted,
}
use livepeer_open_clearingho.Wholesale.Plan.{
  finite, plan_of, admission_funding_limits, plan_account_shortfall,
}
use livepeer_open_clearingho.Wholesale.Plan.Bounds.{
  AreLimits, IsPlannable, admission_funding_limits_lem, plan_account_shortfall-decides,
  admission-covered,
}
use livepeer_open_clearingho.Wholesale.Claim.{claim_account_funding}
use livepeer_open_clearingho.Wholesale.Acknowledge.{acknowledge_account_funding}
use livepeer_open_clearingho.Wholesale.Budget.Sums.{exposure}
use livepeer_open_clearingho.Wholesale.Budget.Claims.{IsSound, ClaimOutcome}
use livepeer_open_clearingho.Wholesale.Budget.Outcome.{
  Replayed, claim_account_funding-new, claim_account_funding-replay,
}
use livepeer_open_clearingho.Wholesale.Budget.Receipts.{acknowledge-tracks}

abbrev observation : WholesaleAccountObservation
observation = record {
  payer = "0xaa";
  payee = "0xbb";
  wholesale_account_id = "acct";
  settlement_domain_id = "domain";
  chain_id = 42161;
  denomination = "wei";
  credited_value_wei = pos 50;
  reserved_value_wei = pos 0;
  debited_value_wei = pos 30;
  available_value_wei = pos 20;
  version = 3;
  observed_at = 9;
}

abbrev limits : WholesaleFundingLimits
limits = record {
  target_available_wei = pos 100;
  replenish_below_wei = pos 40;
  max_available_per_payee_wei = pos 500;
  max_aggregate_available_wei = pos 900;
  max_single_funding_wei = pos 300;
}

abbrev raised_limits : WholesaleFundingLimits
raised_limits = record limits { target_available_wei = pos 120; replenish_below_wei = pos 120 }

abbrev plan : WholesaleFundingPlan
plan = record {
  target_available_wei = pos 100;
  observed_available_wei = pos 20;
  shortfall_wei = pos 80;
  projected_payee_available_wei = pos 100;
  projected_aggregate_available_wei = pos 100;
}

abbrev raised_plan : WholesaleFundingPlan
raised_plan = record {
  target_available_wei = pos 120;
  observed_available_wei = pos 20;
  shortfall_wei = pos 100;
  projected_payee_available_wei = pos 120;
  projected_aggregate_available_wei = pos 120;
}

abbrev account : WholesaleAccount
account = record {
  id = 0;
  chain_id = 42161;
  payer_eth_address = "0xaa";
  payee_eth_address = "0xbb";
  wholesale_account_id = "acct";
  settlement_domain_id = "domain";
  denomination = "wei";
  protocol_version = "1";
  broker_url = "https://broker";
  credited_value_wei = pos 50;
  reserved_value_wei = pos 0;
  debited_value_wei = pos 25;
  available_value_wei = pos 25;
  remote_version = 2;
  observed_at = 5;
}

abbrev tables : Db
tables = record { accounts = account ∷ []; budget = some (pos 25); fundings = []; next_id = 1 }

abbrev route : Route
route = record { worker_url = "https://broker"; snapshot = "route" }

are_limits : AreLimits limits
are_limits = record {
  target_positive = omega int_laws;
  replenish_positive = omega int_laws;
  replenish_fits = omega int_laws;
  payee_fits = omega int_laws;
  aggregate_fits = omega int_laws;
}

raised_for_admission : admission_funding_limits limits (finite (pos 120)) ≡ ok raised_limits
unfolding admission_funding_limits
raised_for_admission = refl

planned_for_admission :
    plan_account_shortfall observation (pos 20) none raised_limits ≡ ok raised_plan
unfolding plan_account_shortfall ◌+ℤ◌ ◌-ℤ◌
planned_for_admission = refl

sound : IsSound tables
sound = record { keyed = (omega arith, refl, tt); linked = tt }

abbrev funding : WholesaleFunding
funding = record {
  account_id = 0;
  mint_request_id = "mint";
  correlation_id = some "job";
  target_available_wei = pos 100;
  observed_available_wei = pos 20;
  requested_shortfall_wei = pos 80;
  route_snapshot = "route";
  payment_bytes = some (1 ∷ 2 ∷ []);
  minted_expected_value_wei = pos 80;
  credited_value_wei = none;
  work_id = some "work";
  account_version = none;
  status = minted;
  acknowledged_at = none;
}

-- The broker's credit of 80 has arrived.
abbrev credited : WholesaleAccountObservation
credited = record observation {
  credited_value_wei = pos 130;
  available_value_wei = pos 100;
  version = 4;
}

abbrev receipt : WholesaleFundingResult
receipt = record {
  payer = "0xaa";
  payee = "0xbb";
  wholesale_account_id = "acct";
  settlement_domain_id = "domain";
  credited_value_wei = pos 80;
  available_value_wei = pos 100;
  account_version = 4;
  funding_id = "digest";
}

abbrev claimed_tables : Db
claimed_tables = record {
  accounts = account ∷ [];
  budget = some (pos 105);
  fundings = funding ∷ [];
  next_id = 1;
}

abbrev digest : List ℕ → String
digest bytes = "digest"

tracked : claimed_tables.budget ≡ some (exposure claimed_tables)
unfolding ◌+ℤ◌
tracked = refl

claim_account_funding-new_example : ClaimOutcome limits tables (
    claim_account_funding true route observation "domain" plan limits "mint"
      (some "job")
      "1"
      tables)
claim_account_funding-new_example =
    claim_account_funding-new route observation "domain" plan limits "mint" (some "job") "1" tables
      true sound refl refl

claim_account_funding-replay_example : Replayed claimed_tables funding (
    claim_account_funding true route observation "domain" plan limits "mint"
      (some "job")
      "1"
      claimed_tables)
claim_account_funding-replay_example =
    claim_account_funding-replay route observation "domain" plan limits "mint" (some "job") "1"
      claimed_tables true funding refl

acknowledge-tracks_example :
    let db' =
      (acknowledge_account_funding digest "mint" receipt credited "domain" 11 claimed_tables).1 in
    db'.budget ≡ some (exposure db')
acknowledge-tracks_example =
    acknowledge-tracks digest "mint" receipt credited "domain" 11 claimed_tables refl tracked

plan_account_shortfall-decides_example :
    let res = plan_account_shortfall observation (pos 20) none limits in
    (IsPlannable observation (pos 20) (pos 20) limits
      × (res ≡ ok (plan_of observation (pos 20) (pos 20) limits)))
    ⊎ ((¬ (IsPlannable observation (pos 20) (pos 20) limits)) × ((e : Error) × (res ≡ err e)))
plan_account_shortfall-decides_example =
    plan_account_shortfall-decides observation (pos 20) none limits

admission-covered_example : pos 120 ≤ℤ observation.available_value_wei +ℤ raised_plan.shortfall_wei
admission-covered_example =
    admission-covered limits raised_limits (pos 120) observation (pos 20) none raised_plan
      raised_for_admission planned_for_admission

admission_funding_limits_lem_example :
    AreLimits raised_limits
    × (pos 120 ≤ℤ raised_limits.replenish_below_wei)
    × (pos 120 ≤ℤ raised_limits.target_available_wei)
    × (raised_limits.max_available_per_payee_wei ≡ limits.max_available_per_payee_wei)
    × (raised_limits.max_aggregate_available_wei ≡ limits.max_aggregate_available_wei)
    × (raised_limits.max_single_funding_wei ≡ limits.max_single_funding_wei)
admission_funding_limits_lem_example =
    admission_funding_limits_lem limits raised_limits (pos 120) are_limits raised_for_admission
