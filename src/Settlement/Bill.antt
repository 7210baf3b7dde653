-- ===== src/Settlement/Bill.antt =====
-- `_bill` and `_job_normative_bill` of settlement_verification.py: the price of units on a curve.
pub mod Curve
use livepeer_open_clearingho.Base.{
  ℕ, ◌+◌, ◌-◌, ◌*◌, ◌/◌, Option, none, some, Bool, not, is_some, ltb, ◌==◌, if◌then◌else◌,
}
use livepeer_open_clearingho.Base.Result.{Result, ok, err, refuse, ◌>>=◌, ◌>>◌}
use livepeer_open_clearingho.Settlement.Records.{
  Checked, rejected, SettlementRecord, JobSettlementExpectation,
}

-- Units and prices are unsigned, so of the tests only that of `per_units` can fail.
unfoldable pub bill : ℕ → ℕ → ℕ → Checked ℕ
bill units amount_wei per_units =
    if per_units == 0
    then err (rejected "invalid_pricing")
    else ok ((units * amount_wei + per_units - 1) / per_units)

unfoldable pub job_normative_bill : SettlementRecord → JobSettlementExpectation → Checked ℕ
unfolding bill
job_normative_bill record' expected =
    let cumulative_units = record'.payment_cumulative_units in
    if is_some expected.authorization_id
    then (do
      refuse (not (cumulative_units == 0)) (rejected "payment_curve_invalid")
      bill record'.debited_units expected.amount_wei expected.per_units)
    else (do
      refuse (ltb cumulative_units record'.debited_units) (rejected "payment_curve_invalid")
      total ← bill cumulative_units expected.amount_wei expected.per_units
      before ←
          bill (cumulative_units - record'.debited_units) expected.amount_wei expected.per_units
      ok (total - before))
