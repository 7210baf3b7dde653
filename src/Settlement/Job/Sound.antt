-- ===== src/Settlement/Job/Sound.antt =====
-- What an accepted job settlement (`verify_job_settlement` of settlement_verification.py) guarantees.
use livepeer_open_clearingho.Base.{
  ◌≤◌, ◌≡◌, refl, sym, ◌∙◌, ap, ◌⊎◌, Bool-cases, String, arith, true, false, ltb, ◌==◌, ◌||◌, ◌&&◌,
  not, is_some, str_eq, eq_iff,
}
use livepeer_open_clearingho.Base.Time.{Datetime}
use livepeer_open_clearingho.Base.Result.{
  Result, ok, err, >>=-eq-ok, refuse->>-eq-ok, >>-eq-ok, ok-injective,
}
use livepeer_open_clearingho.Settlement.Records.{
  Error, SettlementRecord, JobSettlementExpectation, VerifiedJobSettlement, is_debit_failed,
  is_unrecognized, wei,
}
use livepeer_open_clearingho.Settlement.Bill.{job_normative_bill}
use livepeer_open_clearingho.Settlement.Accounting.{
  reject_failed_debit, verify_wholesale_account, verify_settlement_domain,
}
use livepeer_open_clearingho.Settlement.Accounting.Limits.{
  WithinAuthorization, verify_authorization_accounting-decides,
}
use livepeer_open_clearingho.Settlement.Job.{
  verify_job_identity, verify_job_value, verify_job_settlement,
}

-- The signed units and scope are LOC's.
abbrev pub IsThisJob : SettlementRecord → JobSettlementExpectation → Type 0
IsThisJob r e =
    (r.request_id ≡ e.request_id)
    × (r.job_id ≡ e.job_id)
    × (r.work_id ≡ e.work_id)
    × (r.actual_units ≡ e.actual_units)
    × (r.billed_units ≡ e.actual_units)
    × (r.debited_units ≡ e.actual_units)
    × (r.actual_units ≤ e.max_total_units)

verify_job_identity_sound :
    (r : SettlementRecord) (e : JobSettlementExpectation)
    → verify_job_identity r e ≡ ok tt
    → IsThisJob r e
unfolding verify_job_identity
verify_job_identity_sound r e h =
    ground (
      arith,
      eq_iff r.request_id e.request_id,
      eq_iff r.job_id e.job_id,
      eq_iff r.work_id e.work_id,
    )

-- The signed bill is the normative one; without an authorization it is within LOC's funding, and
-- with one the accounting fits it.
abbrev pub IsBilled : SettlementRecord → JobSettlementExpectation → Type 0
IsBilled r e =
    (job_normative_bill r e ≡ ok (wei r.billed_value_wei))
    × ((is_some e.authorization_id ≡ true) ⊎ (wei r.billed_value_wei ≤ e.funded_value_wei))
    × WithinAuthorization r e.authorization_id e.authorized_value_wei (wei r.billed_value_wei)

verify_job_value_sound :
    (r : SettlementRecord) (e : JobSettlementExpectation)
    → verify_job_value r e ≡ ok tt
    → IsBilled r e
unfolding verify_job_value
verify_job_value_sound r e h =
    let billed = >>=-eq-ok (job_normative_bill r e) _ h in
    let same = refuse->>-eq-ok (not (wei r.billed_value_wei == billed.0)) _ _ billed.2 in
    let funded =
      refuse->>-eq-ok
        (not (is_some e.authorization_id) && ltb e.funded_value_wei (wei r.billed_value_wei)) _ _
        same.1 in
    (
      billed.1 ∙ ap ok (ground (arith, same.0)),
      ground (arith, funded.0, Bool-cases (is_some e.authorization_id)),
      (verify_authorization_accounting-decides r e.authorization_id e.authorized_value_wei
            (wei r.billed_value_wei)).0
          funded.1,
    )

-- A job settlement that is accepted comes from an envelope whose signature was accepted; its record
-- reports no failed debit and carries the account, the settlement domain, the request, the job, the
-- work and the units that LOC expects, at most the funded ceiling of units; its bill is the
-- normative one, within LOC's funding or, with an authorization, within the authorized value
-- together with what is released. What is returned is the expected units, the signed bill, the
-- signed outcome, which has a name, and the time and the key of the envelope.
pub verify_job_settlement_sound :
    (envelope : Result Error (SettlementRecord × Datetime × String)) (e : JobSettlementExpectation)
    (v : VerifiedJobSettlement)
    → verify_job_settlement envelope e ≡ ok v
    → (r : SettlementRecord) × (issued_at : Datetime) × (key : String) × (envelope
        ≡ ok (r, issued_at, key))
      × (is_debit_failed r.outcome ≡ false)
      × (r.wholesale_account_id ≡ e.wholesale_account_id)
      × (r.settlement_domain_id ≡ e.settlement_domain_id)
      × IsThisJob r e
      × IsBilled r e
      × (v.actual_units ≡ e.actual_units)
      × (v.billed_value_wei ≡ wei r.billed_value_wei)
      × (v.issued_at ≡ issued_at)
      × (v.signing_public_key ≡ key)
      × (v.outcome ≡ r.outcome)
      × (is_unrecognized r.outcome ≡ false)
unfolding verify_job_settlement reject_failed_debit verify_wholesale_account
    verify_settlement_domain
verify_job_settlement_sound (err x) e v h = cc
verify_job_settlement_sound (ok (r, issued_at, key)) e v h =
    let debit = refuse->>-eq-ok (is_debit_failed r.outcome) _ _ h in
    let account =
      refuse->>-eq-ok
        (str_eq e.wholesale_account_id ""
          || not (str_eq r.wholesale_account_id e.wholesale_account_id))
        _ _ debit.1 in
    let domain =
      refuse->>-eq-ok
        (str_eq e.settlement_domain_id ""
          || not (str_eq r.settlement_domain_id e.settlement_domain_id))
        _ _ account.1 in
    let identity = >>-eq-ok (verify_job_identity r e) _ domain.1 in
    let value = >>-eq-ok (verify_job_value r e) _ identity.1 in
    let named = refuse->>-eq-ok (is_unrecognized r.outcome) _ _ value.1 in
    let v_is = ok-injective named.1 in
    let this = verify_job_identity_sound r e identity.0.1 in
    (
      r,
      issued_at,
      key,
      refl,
      debit.0,
      ground (arith, account.0, eq_iff r.wholesale_account_id e.wholesale_account_id),
      ground (arith, domain.0, eq_iff r.settlement_domain_id e.settlement_domain_id),
      this,
      verify_job_value_sound r e value.0.1,
      sym (ap (λ (x : VerifiedJobSettlement). x.actual_units) v_is) ∙ this.3,
      sym (ap (λ (x : VerifiedJobSettlement). x.billed_value_wei) v_is),
      sym (ap (λ (x : VerifiedJobSettlement). x.issued_at) v_is),
      sym (ap (λ (x : VerifiedJobSettlement). x.signing_public_key) v_is),
      sym (ap (λ (x : VerifiedJobSettlement). x.outcome) v_is),
      named.0,
    )
