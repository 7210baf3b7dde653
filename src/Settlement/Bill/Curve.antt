-- ===== src/Settlement/Bill/Curve.antt =====
-- The bill of settlement_verification.py as a curve, and jobs that follow one another on it.
use livepeer_open_clearingho.Base.{
  ℕ, ◌+◌, ◌-◌, ◌*◌, ltb, ◌≤◌, ◌<◌, ◌≡◌, ap, ◌∙◌, sym, List, [], ◌∷◌, none, arith, false,
}
use livepeer_open_clearingho.Base.Division.{
  ceil_div, ceil_div_mono, ceil_div-ge, ceil_div-lt, ceil_div_unique,
}
use livepeer_open_clearingho.Base.Result.{Result, ok, ◌>>=◌}
use livepeer_open_clearingho.Settlement.Records.{Error, SettlementRecord, JobSettlementExpectation}
use livepeer_open_clearingho.Settlement.Bill.{bill, job_normative_bill}

-- The price of units, rounded up to a whole wei.
abbrev pub price : ℕ → ℕ → ℕ → ℕ
price amount per units = ceil_div (units * amount) per

-- With a positive `per_units` the bill of units is the least number of wei that pays for them, and
-- more units never cost less.
pub bill_lem :
    (amount per : ℕ)
    → 0 < per
    → ((units : ℕ)
        → (bill units amount per ≡ ok (price amount per units))
          × (units * amount ≤ price amount per units * per)
          × (price amount per units * per < units * amount + per))
      × ((a b : ℕ) → a ≤ b → price amount per a ≤ price amount per b)
unfolding bill
bill_lem amount per h = (
  (λ units. (ground arith, ceil_div-ge (units * amount) per h, ceil_div-lt (units * amount) per h)),
  λ a b le. ceil_div_mono (a * amount) (b * amount) per h (grind arith),
)

-- The ledger position and the debit of a job.
abbrev pub at_position : SettlementRecord → ℕ → ℕ → SettlementRecord
at_position r position debited = record r {
  payment_cumulative_units = position;
  debited_units = debited;
}

abbrev pub total_units : List ℕ → ℕ
total_units [] = 0
total_units (u ∷ us) = u + total_units us

-- What the jobs are billed that debit these units one after the other, from a position on the
-- curve: each at the position that its debit reaches.
unfoldable pub billed_sum :
    SettlementRecord → JobSettlementExpectation → ℕ → List ℕ → Result Error ℕ
billed_sum r e position [] = ok 0
billed_sum r e position (u ∷ us) = do
  one ← job_normative_bill (at_position r (position + u) u) e
  rest ← billed_sum r e (position + u) us
  ok (one + rest)

-- The bill of a ticket-funded job is the rise of the curve over its debit.
job_normative_bill-rise :
    (r : SettlementRecord) (e : JobSettlementExpectation) (position u : ℕ)
    → e.authorization_id ≡ none
    → 0 < e.per_units
    → job_normative_bill (at_position r (position + u) u) e
      ≡ ok (price e.amount_wei e.per_units (position + u) - price e.amount_wei e.per_units position)
unfolding job_normative_bill
job_normative_bill-rise r e position u legacy h =
    let bills = (bill_lem e.amount_wei e.per_units h).0 in
    let total = (bills (position + u)).0 in
    let before = (bills position).0 in
    let back : position + u - u ≡ position = omega arith in
    let inside : ltb (position + u) u ≡ false = ground arith in
    rw (legacy, inside, back, total, before)

rise_add : (a b c : ℕ) → a ≤ b → b ≤ c → b - a + (c - b) ≡ c - a
rise_add a b c h g = omega arith

billed_sum-rise :
    (r : SettlementRecord) (e : JobSettlementExpectation)
    → e.authorization_id ≡ none
    → 0 < e.per_units
    → (position : ℕ) (us : List ℕ)
    → billed_sum r e position us
      ≡ ok (
          price e.amount_wei e.per_units (position + total_units us)
          - price e.amount_wei e.per_units position)
unfolding billed_sum
billed_sum-rise r e legacy h position [] =
    let same : position + total_units [] ≡ position = omega arith in ap ok (rw same (omega arith))
billed_sum-rise r e legacy h position (u ∷ us) =
    let first = job_normative_bill-rise r e position u legacy h in
    let others = billed_sum-rise r e legacy h (position + u) us in
    let mono = (bill_lem e.amount_wei e.per_units h).1 in
    let near = mono position (position + u) (omega arith) in
    let far = mono (position + u) (position + u + total_units us) (omega arith) in
    let shift : position + (u + total_units us) ≡ position + u + total_units us = omega arith in
    rw (first, others)
      (ap ok (
        rise_add _ _ _ near far
        ∙ ap (λ n. price e.amount_wei e.per_units n - price e.amount_wei e.per_units position)
            (sym shift)))

-- With a positive `per_units` and no authorization, jobs that follow one another from the start of a
-- payment curve are billed, together, exactly the bill of all their units.
pub job_bills_telescope :
    (r : SettlementRecord) (e : JobSettlementExpectation) (us : List ℕ)
    → e.authorization_id ≡ none
    → 0 < e.per_units
    → billed_sum r e 0 us ≡ bill (total_units us) e.amount_wei e.per_units
unfolding bill billed_sum
job_bills_telescope r e us legacy h =
    let start : price e.amount_wei e.per_units 0 ≡ 0 =
      ceil_div_unique _ _ 0 h (omega arith) (omega arith) in
    let whole = ((bill_lem e.amount_wei e.per_units h).0 (total_units us)).0 in
    billed_sum-rise r e legacy h 0 us ∙ (ap ok (grind (arith, start)) ∙ sym whole)
