-- ===== src/Wholesale/Plan/Bounds.antt =====
-- The funding plan of domains/wholesale/service.py stays within the operator's limits and covers
-- the admission that it was made for.
use livepeer_open_clearingho.Base.{
  ◌≡◌, refl, sym, ap, ◌∙◌, Option, ◌⊎◌, inl, inr, arith, Bool-cases,
}
use livepeer_open_clearingho.Base.Int.{ℤ, pos, ◌+ℤ◌, ◌≤ℤ◌, ◌<ℤ◌, ltb_ℤ, int_laws}
use livepeer_open_clearingho.Base.Result.{Result, ok, err, ok-injective, refuse, ◌>>◌}
use livepeer_open_clearingho.Wholesale.Rows
use livepeer_open_clearingho.Wholesale.Rows.{
  Error, WholesaleAccountObservation, WholesaleFundingLimits, WholesaleFundingPlan, max_ℤ, ℤ_eq,
}
use livepeer_open_clearingho.Wholesale.Plan.{
  finite, admission_funding_limits, shortfall_of, plan_of, payee_or_observed,
  plan_account_shortfall,
}

-- What `target_fits_hard_limits` and the field constraints of `WholesaleFundingLimits` demand.
pub record AreLimits (l : WholesaleFundingLimits) : Type 0 where
  pub target_positive : pos 0 <ℤ l.target_available_wei
  pub replenish_positive : pos 0 <ℤ l.replenish_below_wei
  pub replenish_fits : l.replenish_below_wei ≤ℤ l.target_available_wei
  pub payee_fits : l.target_available_wei ≤ℤ l.max_available_per_payee_wei
  pub aggregate_fits : l.target_available_wei ≤ℤ l.max_aggregate_available_wei

-- The limits of an admission still satisfy the validator, which `model_copy` does not run; their
-- floor and their target cover the reservation, and no exposure limit has moved.
pub admission_funding_limits_lem :
    (l l' : WholesaleFundingLimits) (required : ℤ)
    → AreLimits l
    → admission_funding_limits l (finite required) ≡ ok l'
    → AreLimits l'
      × (required ≤ℤ l'.replenish_below_wei)
      × (required ≤ℤ l'.target_available_wei)
      × (l'.max_available_per_payee_wei ≡ l.max_available_per_payee_wei)
      × (l'.max_aggregate_available_wei ≡ l.max_aggregate_available_wei)
      × (l'.max_single_funding_wei ≡ l.max_single_funding_wei)
unfolding admission_funding_limits
admission_funding_limits_lem l l' required v h = ground arith

-- The conditions under which an aggregate snapshot is planned for.
pub record IsPlannable (o : WholesaleAccountObservation) (aggregate payee : ℤ)
    (l : WholesaleFundingLimits) : Type 0 where
  pub aggregate_covers : o.available_value_wei ≤ℤ aggregate
  pub payee_covers : o.available_value_wei ≤ℤ payee
  pub bounded :
      pos 0 <ℤ shortfall_of o l
      → (shortfall_of o l ≤ℤ l.max_single_funding_wei)
        × (payee +ℤ shortfall_of o l ≤ℤ l.max_available_per_payee_wei)
        × (aggregate +ℤ shortfall_of o l ≤ℤ l.max_aggregate_available_wei)

pub shortfall_nonneg :
    (o : WholesaleAccountObservation) (l : WholesaleFundingLimits) → pos 0 ≤ℤ shortfall_of o l
shortfall_nonneg o l = ground arith

-- The three limit tests of a shortfall that is not zero.
limits_decide :
    (o : WholesaleAccountObservation) (aggregate payee : ℤ) (l : WholesaleFundingLimits)
    → o.available_value_wei ≤ℤ aggregate
    → o.available_value_wei ≤ℤ payee
    → pos 0 <ℤ shortfall_of o l
    → let plan = plan_of o aggregate payee l in
      let short = shortfall_of o l in
      let res : Result Error WholesaleFundingPlan = (do
        refuse (ltb_ℤ l.max_single_funding_wei short) Rows.shortfall_exceeds_single_funding
        refuse (ltb_ℤ l.max_available_per_payee_wei (payee +ℤ short)) Rows.exceeds_payee_limit
        refuse
            (ltb_ℤ l.max_aggregate_available_wei (aggregate +ℤ short))
            Rows.exceeds_aggregate_limit
        ok plan) in
      (IsPlannable o aggregate payee l × (res ≡ ok plan))
      ⊎ ((¬ (IsPlannable o aggregate payee l)) × ((e : Error) × (res ≡ err e)))
limits_decide o aggregate payee l agg pay some_short =
    let short = shortfall_of o l in
    elim (Bool-cases (ltb_ℤ l.max_single_funding_wei short)) [
      | inl bad ↦ rw bad (
          inr (
            (λ p. ground (arith, (p.bounded some_short).0)),
            (Rows.shortfall_exceeds_single_funding, refl),
          ))
      | inr one ↦ elim (Bool-cases (ltb_ℤ l.max_available_per_payee_wei (payee +ℤ short))) [
        | inl bad ↦
            rw (one, bad)
              (inr
                ((λ p. ground (arith, (p.bounded some_short).1)), (Rows.exceeds_payee_limit, refl)))
        | inr two ↦ elim (Bool-cases (ltb_ℤ l.max_aggregate_available_wei (aggregate +ℤ short))) [
          | inl bad ↦
              rw (one, two, bad)
                (inr (
                  (λ p. ground (arith, (p.bounded some_short).2)),
                  (Rows.exceeds_aggregate_limit, refl),
                ))
          | inr three ↦
              rw (one, two, three)
                (inl (
                  record {
                    aggregate_covers = agg;
                    payee_covers = pay;
                    bounded = λ p. (ground arith, ground arith, ground arith);
                  },
                  refl,
                ))
        ]
      ]
    ]

-- A plan is made exactly if the snapshot covers the observed account and a shortfall that is not
-- zero fits the single-funding, the per-payee and the aggregate limit; it is then the plan of that
-- shortfall, and otherwise an error.
pub plan_account_shortfall-decides :
    (o : WholesaleAccountObservation) (aggregate : ℤ) (payee_available : Option ℤ)
    (l : WholesaleFundingLimits)
    → let payee = payee_or_observed payee_available o in
      let res = plan_account_shortfall o aggregate payee_available l in
      (IsPlannable o aggregate payee l × (res ≡ ok (plan_of o aggregate payee l)))
      ⊎ ((¬ (IsPlannable o aggregate payee l)) × ((e : Error) × (res ≡ err e)))
unfolding plan_account_shortfall
plan_account_shortfall-decides o aggregate payee_available l =
    let payee = payee_or_observed payee_available o in
    let short = shortfall_of o l in
    let nonneg = shortfall_nonneg o l in
    elim (Bool-cases (ltb_ℤ aggregate o.available_value_wei)) [
      | inl bad ↦
          rw bad
            (inr ((λ p. ground (arith, p.aggregate_covers)), (Rows.aggregate_below_observed, refl)))
      | inr agg ↦ elim (Bool-cases (ltb_ℤ payee o.available_value_wei)) [
        | inl bad ↦
            rw (agg, bad)
              (inr ((λ p. ground (arith, p.payee_covers)), (Rows.payee_below_observed, refl)))
        | inr pay ↦ elim (Bool-cases (ℤ_eq short (pos 0))) [
          | inl none_short ↦
              rw (agg, pay, none_short)
                (inl (
                  record {
                    aggregate_covers = ground arith;
                    payee_covers = ground arith;
                    bounded = λ p. absurd (ground arith);
                  },
                  refl,
                ))
          | inr some_short ↦
              rw (agg, pay, some_short)
                (limits_decide o aggregate payee l (ground arith) (ground arith) (ground arith))
        ]
      ]
    ]

-- A plan carries the shortfall of its account.
pub planned_shortfall :
    (o : WholesaleAccountObservation) (aggregate : ℤ) (payee : Option ℤ)
    (l : WholesaleFundingLimits) (plan : WholesaleFundingPlan)
    → plan_account_shortfall o aggregate payee l ≡ ok plan
    → plan.shortfall_wei ≡ shortfall_of o l
planned_shortfall o aggregate payee l plan h =
    elim (plan_account_shortfall-decides o aggregate payee l) [
      | inl (good, made) ↦
          ap (λ (p : WholesaleFundingPlan). p.shortfall_wei) (ok-injective (sym h ∙ made))
      | inr (bad, (e, refused)) ↦ cc
    ]

shortfall_covers :
    (o : WholesaleAccountObservation) (l : WholesaleFundingLimits) (required : ℤ)
    → required ≤ℤ l.replenish_below_wei
    → required ≤ℤ l.target_available_wei
    → required ≤ℤ o.available_value_wei +ℤ shortfall_of o l
shortfall_covers o l required floor target = grind int_laws

raised_covers :
    (l l' : WholesaleFundingLimits) (required : ℤ)
    → admission_funding_limits l (finite required) ≡ ok l'
    → (required ≤ℤ l'.replenish_below_wei) × (required ≤ℤ l'.target_available_wei)
unfolding admission_funding_limits
raised_covers l l' required h = ground arith

-- If the limits were raised for an admission and a plan was made under them, then the account
-- holds the reservation of the admission once the planned shortfall is credited.
pub admission-covered :
    (l l' : WholesaleFundingLimits) (required : ℤ) (o : WholesaleAccountObservation) (aggregate : ℤ)
    (payee : Option ℤ) (plan : WholesaleFundingPlan)
    → admission_funding_limits l (finite required) ≡ ok l'
    → plan_account_shortfall o aggregate payee l' ≡ ok plan
    → required ≤ℤ o.available_value_wei +ℤ plan.shortfall_wei
admission-covered l l' required o aggregate payee plan hl hp =
    let floors = raised_covers l l' required hl in
    rw (planned_shortfall o aggregate payee l' plan hp)
      (shortfall_covers o l' required floors.0 floors.1)
