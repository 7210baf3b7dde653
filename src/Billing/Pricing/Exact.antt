-- ===== src/Billing/Pricing/Exact.antt =====
-- `calculate_customer_charge` (domains/billing/service.py) is total on validated policies, and its
-- rounding through `Decimal` is the exact price rounded up.
use livepeer_open_clearingho.Base.{
  ℕ, zero, suc, ◌+◌, ◌*◌, ◌^◌, ◌/◌, ◌≤◌, ◌<◌, ◌≡◌, refl, ap, Option, none, some, false, ◌==◌, arith,
  inl, inr, Bool-cases,
}
use livepeer_open_clearingho.Base.Int.{pos, ltb_ℤ}
use native.Mathlib.Nat.{pow-suc}
use livepeer_open_clearingho.Base.Division.{ceil_div}
use livepeer_open_clearingho.Base.Decimal.{
  Decimal, precision_limit, places_fuel, quotient_ceiling-exact,
}
use livepeer_open_clearingho.Base.Result.{ok}
use livepeer_open_clearingho.Billing.Pricing.{
  Kind, wholesale_pass_through, cost_plus, unit_price, CustomerPricingSnapshot, validate,
  charge_for, calculate_customer_charge,
}

-- The price of the policy as an exact fraction of whole numbers, rounded up.
abbrev pub exact_charge : Kind → Option Decimal → Option ℕ → Option ℕ → ℕ → ℕ → ℕ
exact_charge wholesale_pass_through price per fee units debit = debit
exact_charge cost_plus price per none units debit = debit
exact_charge cost_plus price per (some fee) units debit = ceil_div (debit * (10000 + fee)) 10000
exact_charge unit_price (some price) (some per) fee units debit =
    ceil_div (units * price.coefficient) (10 ^ price.places * per)
exact_charge unit_price price per fee units debit = 0

-- The size of the amounts: the product of a cost-plus charge is below 10 ^ 28, and 28 digits hold
-- the quotient of a unit price with as many decimal places as its denominator has digits.
abbrev pub IsSmall : Kind → Option Decimal → Option ℕ → Option ℕ → ℕ → ℕ → Type 0
IsSmall cost_plus price per (some fee) units debit = debit * (10000 + fee) < precision_limit
IsSmall unit_price (some price) (some per) fee units debit =
    (k : ℕ) × (10 ^ price.places * per ≤ 10 ^ k)
    × (k ≤ places_fuel)
    × (units * price.coefficient * 10 ^ k / (10 ^ price.places * per) < precision_limit)
IsSmall kind price per fee units debit = Unit

pow10-pos : (k : ℕ) → 1 ≤ 10 ^ k
pow10-pos zero = omega arith
pow10-pos (suc k) = simp pow-suc (omega (arith, pow10-pos k))

charge_for-exact :
    (p : CustomerPricingSnapshot) (kind : Kind) (price : Option Decimal) (per fee : Option ℕ)
    (units debit : ℕ)
    → kind ≡ p.kind
    → price ≡ p.price_per_unit_wei
    → per ≡ p.units_per_price
    → fee ≡ p.fee_basis_points
    → validate p ≡ ok tt
    → IsSmall kind price per fee units debit
    → charge_for kind price per fee units debit ≡ ok (exact_charge kind price per fee units debit)
unfolding validate
charge_for-exact p wholesale_pass_through price per fee units debit a b c d v s = refl
charge_for-exact p cost_plus price per none units debit a b c d v s = ground arith
charge_for-exact p cost_plus price per (some fee) units debit a b c d v s = ap ok (
    quotient_ceiling-exact (debit * (10000 + fee)) 10000 4 (omega arith) (omega arith) (omega arith)
      (omega arith))
charge_for-exact p unit_price none per fee units debit a b c d v s = ground arith
charge_for-exact p unit_price (some price) none fee units debit a b c d v s = ground arith
charge_for-exact p unit_price (some price) (some per) fee units debit a b c d v (k, fits, le, lt) =
    elim (Bool-cases (per == 0)) [
      | inl none_per ↦ absurd (ground arith)
      | inr some_per ↦ rw some_per (
          ap ok (
            quotient_ceiling-exact (units * price.coefficient) (10 ^ price.places * per) k
              (grind (arith, pow10-pos price.places)) fits le lt))
    ]

-- A validated policy prices units and a wholesale debit that are not negative and are of the stated
-- size (`IsSmall`, which bounds nothing for a pass-through policy) with no assertion or division that
-- fails: the charge is the exact price of the policy (the debit itself, the debit with the fee, or
-- the price of the units) rounded up to a whole wei. Nothing is stated of larger amounts.
pub calculate-exact :
    (p : CustomerPricingSnapshot) (units debit : ℕ)
    → validate p ≡ ok tt
    → IsSmall p.kind p.price_per_unit_wei p.units_per_price p.fee_basis_points units debit
    → calculate_customer_charge p (pos units) (pos debit)
      ≡ ok (
          exact_charge p.kind p.price_per_unit_wei p.units_per_price p.fee_basis_points units debit)
unfolding calculate_customer_charge
calculate-exact p units debit v s =
    rw (not_negative units, not_negative debit)
      (charge_for-exact p p.kind p.price_per_unit_wei p.units_per_price p.fee_basis_points units
        debit refl refl refl refl v s)
  where
    not_negative : (n : ℕ) → ltb_ℤ (pos n) (pos 0) ≡ false
    not_negative n = ground arith
