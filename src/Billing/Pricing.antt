-- ===== src/Billing/Pricing.antt =====
-- The retail price of an engagement: `CustomerPricingSnapshot` of domains/billing/types.py and
-- `calculate_customer_charge` of domains/billing/service.py.
pub mod Exact
use livepeer_open_clearingho.Base.{
  ℕ, zero, ◌+◌, ◌*◌, ◌^◌, String, str_eq, Option, none, some, Bool, true, false, not, ◌&&◌, ◌||◌,
  ◌==◌, is_some, if◌then◌else◌,
}
use livepeer_open_clearingho.Base.Int.{ℤ, pos, pos_part, ltb_ℤ}
use livepeer_open_clearingho.Base.Decimal.{Decimal, is_whole, quotient_ceiling}
use livepeer_open_clearingho.Base.Result.{Result, ok, err, refuse, ◌>>=◌, ◌>>◌}

pub data Kind : Type 0 where
  wholesale_pass_through cost_plus unit_price : Kind

-- A `kind` that is not one of the three, and a field that the class does not have, are refused when
-- the JSON is read, before there is a value of this type.
pub record CustomerPricingSnapshot : Type 0 where
  pub schema_version : String
  pub plan_id : String
  pub kind : Kind
  pub denomination : String
  pub work_unit : String
  pub price_per_unit_wei : Option Decimal
  pub units_per_price : Option ℕ
  pub fee_basis_points : Option ℕ

pub data PricingError : Type 0 where
  not_literal field_too_short field_not_positive : PricingError
  price_not_whole : PricingError
  unit_price_incomplete : PricingError
  unexpected_unit_price : PricingError
  cost_plus_without_fee : PricingError
  unexpected_fee : PricingError
  negative_usage : PricingError
  assertion_failed : PricingError
  zero_division : PricingError

abbrev pub is_unit_price : Kind → Bool
is_unit_price unit_price = true
is_unit_price k = false

abbrev pub is_cost_plus : Kind → Bool
is_cost_plus cost_plus = true
is_cost_plus k = false

abbrev pub is_fraction : Option Decimal → Bool
is_fraction none = false
is_fraction (some price) = not (is_whole price)

-- `Field(gt=0)` on `units_per_price`.
abbrev pub is_zero : Option ℕ → Bool
is_zero none = false
is_zero (some n) = n == 0

-- The field constraints and then `fields_match_policy`, in the order of its tests.
unfoldable pub validate : CustomerPricingSnapshot → Result PricingError (Unit {0})
validate self = do
  refuse
      (not (str_eq self.schema_version "customer-pricing/v1")
        || not (str_eq self.denomination "wei"))
      not_literal
  refuse (str_eq self.plan_id "" || str_eq self.work_unit "") field_too_short
  refuse (is_zero self.units_per_price) field_not_positive
  refuse (is_fraction self.price_per_unit_wei) price_not_whole
  let has_unit_price = is_some self.price_per_unit_wei || is_some self.units_per_price
  refuse
      (is_unit_price self.kind
        && (not (is_some self.price_per_unit_wei) || not (is_some self.units_per_price)))
      unit_price_incomplete
  refuse (not (is_unit_price self.kind) && has_unit_price) unexpected_unit_price
  refuse (is_cost_plus self.kind && not (is_some self.fee_basis_points)) cost_plus_without_fee
  refuse (not (is_cost_plus self.kind) && is_some self.fee_basis_points) unexpected_fee

-- The charge for a policy by its kind, of amounts that are not negative.
abbrev pub charge_for : Kind → Option Decimal → Option ℕ → Option ℕ → ℕ → ℕ → Result PricingError ℕ
charge_for wholesale_pass_through price per fee units debit = ok debit
charge_for cost_plus price per none units debit = err assertion_failed
charge_for cost_plus price per (some fee) units debit =
    ok (quotient_ceiling (debit * (10000 + fee)) 10000)
charge_for unit_price none per fee units debit = err assertion_failed
charge_for unit_price (some price) none fee units debit = err assertion_failed
charge_for unit_price (some price) (some per) fee units debit =
    if per == 0
    then err zero_division
    else ok (quotient_ceiling (units * price.coefficient) (10 ^ price.places * per))

-- `calculate_customer_charge`, over whole wei below 10 ^ 28, where products of `Decimal` are exact.
unfoldable pub calculate_customer_charge : CustomerPricingSnapshot → ℤ → ℤ → Result PricingError ℕ
calculate_customer_charge policy actual_units wholesale_debit_wei =
    if ltb_ℤ actual_units (pos 0) || ltb_ℤ wholesale_debit_wei (pos 0)
    then err negative_usage
    else charge_for policy.kind policy.price_per_unit_wei policy.units_per_price
        policy.fee_basis_points (pos_part actual_units) (pos_part wholesale_debit_wei)
