-- ===== src/Wholesale/Plan.antt =====
-- domains/wholesale/service.py: the refill floor of an admission and the bounded shortfall.
pub mod Bounds
use livepeer_open_clearingho.Base.{
  Option, none, some, Bool, true, false, not, ◌||◌, ◌&&◌, if◌then◌else◌,
}
use livepeer_open_clearingho.Base.Int.{ℤ, pos, ◌+ℤ◌, ◌-ℤ◌, ltb_ℤ}
use livepeer_open_clearingho.Base.Result.{Result, ok, err, refuse, ◌>>=◌, ◌>>◌}
use livepeer_open_clearingho.Wholesale.Rows
use livepeer_open_clearingho.Wholesale.Rows.{
  Error, WholesaleAccountObservation, WholesaleFundingLimits, WholesaleFundingPlan, max_ℤ, ℤ_eq,
}

-- A `Decimal` argument that may be an infinity or not a number.
pub data Amount : Type 0 where
  not_finite : Amount
  finite : ℤ → Amount

-- The limits with the floor raised; `model_copy` validates nothing.
abbrev pub raised : WholesaleFundingLimits → ℤ → WholesaleFundingLimits
raised limits required = record limits {
  target_available_wei = max_ℤ limits.target_available_wei required;
  replenish_below_wei = max_ℤ limits.replenish_below_wei required;
}

unfoldable pub admission_funding_limits :
    WholesaleFundingLimits → Amount → Result Error WholesaleFundingLimits
admission_funding_limits limits not_finite = err Rows.invalid_required_reservation
admission_funding_limits limits (finite required) = do
  refuse (ltb_ℤ required (pos 0)) Rows.invalid_required_reservation
  let target = max_ℤ limits.target_available_wei required
  refuse (ltb_ℤ limits.max_available_per_payee_wei target) Rows.reservation_exceeds_payee_limit
  refuse (ltb_ℤ limits.max_aggregate_available_wei target) Rows.reservation_exceeds_aggregate_limit
  ok (raised limits required)

-- The shortfall of an observed account under the limits.
abbrev pub shortfall_of : WholesaleAccountObservation → WholesaleFundingLimits → ℤ
shortfall_of observation limits =
    if ltb_ℤ observation.available_value_wei limits.replenish_below_wei
    then max_ℤ (pos 0) (limits.target_available_wei -ℤ observation.available_value_wei)
    else pos 0

abbrev pub plan_of :
    WholesaleAccountObservation → ℤ → ℤ → WholesaleFundingLimits → WholesaleFundingPlan
plan_of observation aggregate payee limits =
    let shortfall = shortfall_of observation limits in
    record {
      target_available_wei = limits.target_available_wei;
      observed_available_wei = observation.available_value_wei;
      shortfall_wei = shortfall;
      projected_payee_available_wei = payee +ℤ shortfall;
      projected_aggregate_available_wei = aggregate +ℤ shortfall;
    }

abbrev pub payee_or_observed : Option ℤ → WholesaleAccountObservation → ℤ
payee_or_observed none observation = observation.available_value_wei
payee_or_observed (some payee) observation = payee

unfoldable pub plan_account_shortfall :
    WholesaleAccountObservation
    → ℤ
    → Option ℤ
    → WholesaleFundingLimits
    → Result Error WholesaleFundingPlan
plan_account_shortfall observation aggregate payee_available limits = do
  refuse (ltb_ℤ aggregate observation.available_value_wei) Rows.aggregate_below_observed
  let payee = payee_or_observed payee_available observation
  refuse (ltb_ℤ payee observation.available_value_wei) Rows.payee_below_observed
  let shortfall = shortfall_of observation limits
  let projected_payee = payee +ℤ shortfall
  let projected_aggregate = aggregate +ℤ shortfall
  if ℤ_eq shortfall (pos 0) then ok (plan_of observation aggregate payee limits) else (do
    refuse (ltb_ℤ limits.max_single_funding_wei shortfall) Rows.shortfall_exceeds_single_funding
    refuse (ltb_ℤ limits.max_available_per_payee_wei projected_payee) Rows.exceeds_payee_limit
    refuse (ltb_ℤ limits.max_aggregate_available_wei projected_aggregate)
        Rows.exceeds_aggregate_limit
    ok (plan_of observation aggregate payee limits))
