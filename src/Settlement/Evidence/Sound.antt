-- ===== src/Settlement/Evidence/Sound.antt =====
-- What an accepted session settlement (`verify_session_settlement` of settlement_verification.py)
-- guarantees.
use livepeer_open_clearingho.Base.{
  ◌≤◌, ◌<◌, ◌≡◌, refl, sym, ap, String, Option, arith, false, ◌||◌, not, str_eq, eq_iff,
}
use livepeer_open_clearingho.Base.Time.{Datetime}
use livepeer_open_clearingho.Base.Result.{
  Result, ok, err, >>=-eq-ok, refuse->>-eq-ok, >>-eq-ok, ok-injective,
}
use livepeer_open_clearingho.Settlement.Records.{
  Error, SettlementRecord, SessionSettlementExpectation, is_debit_failed, is_unrecognized,
  breakdown_get, wei,
}
use livepeer_open_clearingho.Settlement.Accounting.{
  reject_failed_debit, verify_wholesale_account, verify_settlement_domain,
}
use livepeer_open_clearingho.Settlement.Session.{
  forked, verify_session_identity, verify_session_accounting,
}
use livepeer_open_clearingho.Settlement.Session.Sound.{IsProgress, verify_session_accounting_sound}
use livepeer_open_clearingho.Settlement.Diagnostics.{
  is_unsafe, is_unknown_state, parse_since, Diagnostics, nonempty, verify_session_diagnostics,
}
use livepeer_open_clearingho.Settlement.Evidence.{
  VerifiedSessionSettlement, verify_session_settlement,
}

-- The record names LOC's session, work and rotation, and no job.
abbrev pub IsThisSession : SettlementRecord → SessionSettlementExpectation → Type 0
IsThisSession r e =
    (r.gateway_session_id ≡ e.gateway_session_id)
    × (str_eq r.session_id "" ≡ false)
    × (forked e.broker_session_id r.session_id ≡ false)
    × (r.job_id ≡ "")
    × (r.work_id ≡ e.work_id)
    × (r.predecessor_work_id ≡ e.predecessor_work_id)
    × (r.rotation_generation ≡ e.rotation_generation)

verify_session_identity_sound :
    (r : SettlementRecord) (e : SessionSettlementExpectation)
    → verify_session_identity r e ≡ ok tt
    → IsThisSession r e
unfolding verify_session_identity
verify_session_identity_sound r e h = ground (
  arith,
  eq_iff r.gateway_session_id e.gateway_session_id,
  eq_iff r.job_id "",
  eq_iff r.work_id e.work_id,
  eq_iff r.predecessor_work_id e.predecessor_work_id,
)

-- The codes that LOC stores of a session are safe.
verify_session_diagnostics_sound :
    (iso : String → Option Datetime) (r : SettlementRecord) (d : Diagnostics)
    → verify_session_diagnostics iso r ≡ ok d
    → (is_unsafe d.termination_reason ≡ false) × (is_unsafe d.last_failure_code ≡ false)
unfolding verify_session_diagnostics
verify_session_diagnostics_sound iso r d h =
    let reason = nonempty (breakdown_get "termination_reason" r.breakdown) in
    let failure = nonempty (breakdown_get "last_failure_code" r.breakdown) in
    let safe = refuse->>-eq-ok (is_unsafe reason) _ _ h in
    let known =
      refuse->>-eq-ok (is_unknown_state (nonempty (breakdown_get "output_state" r.breakdown))) _ _
        safe.1 in
    let (since, parsed, h₁) =
      >>=-eq-ok (parse_since iso (nonempty (breakdown_get "output_state_since" r.breakdown))) _
        known.1 in
    let coded = refuse->>-eq-ok (is_unsafe failure) _ _ h₁ in
    let d_is = ok-injective coded.1 in (rw (← d_is) (safe.0), rw (← d_is) (coded.0))

-- What is returned of a record: its progress, its bill and its outcome, which has a name, and who
-- signed it when.
abbrev pub IsReported : SettlementRecord → Datetime → String → VerifiedSessionSettlement → Type 0
IsReported r issued_at key v =
    (v.work_id ≡ r.work_id)
    × (v.predecessor_work_id ≡ r.predecessor_work_id)
    × (v.rotation_generation ≡ r.rotation_generation)
    × (v.settlement_seq ≡ r.settlement_seq)
    × (v.state ≡ r.state)
    × (v.claimed_units ≡ r.claimed_units)
    × (v.debited_units ≡ r.debited_units)
    × (v.billed_value_wei ≡ wei r.billed_value_wei)
    × (v.outcome ≡ r.outcome)
    × (v.issued_at ≡ issued_at)
    × (v.signing_public_key ≡ key)
    × (is_unrecognized r.outcome ≡ false)

-- A session settlement that is accepted comes from an envelope whose signature was accepted; its
-- record reports no failed debit, carries LOC's account, settlement domain, session, work and
-- rotation and no job, and is newer than the last one seen; its bill is what is returned, within
-- LOC's funding; the reason and the failure code that are returned are safe codes; and, but for the
-- diagnostics, all that is returned is the record's, whose outcome has a name, with the time and the
-- key of the envelope.
pub verify_session_settlement_sound :
    (iso : String → Option Datetime)
    (envelope : Result Error (SettlementRecord × Datetime × String))
    (e : SessionSettlementExpectation) (v : VerifiedSessionSettlement)
    → verify_session_settlement iso envelope e ≡ ok v
    → (r : SettlementRecord) × (issued_at : Datetime) × (key : String) × (envelope
        ≡ ok (r, issued_at, key))
      × (is_debit_failed r.outcome ≡ false)
      × (r.wholesale_account_id ≡ e.wholesale_account_id)
      × (r.settlement_domain_id ≡ e.settlement_domain_id)
      × IsThisSession r e
      × IsProgress r e
      × (v.broker_session_id ≡ r.session_id)
      × (e.last_settlement_seq < v.settlement_seq)
      × (v.billed_value_wei ≤ e.funded_value_wei)
      × (is_unsafe v.diagnostics.termination_reason ≡ false)
      × (is_unsafe v.diagnostics.last_failure_code ≡ false)
      × IsReported r issued_at key v
unfolding verify_session_settlement reject_failed_debit verify_wholesale_account
    verify_settlement_domain
verify_session_settlement_sound iso (err x) e v h = cc
verify_session_settlement_sound iso (ok (r, issued_at, key)) e v h =
    let debit = refuse->>-eq-ok (is_debit_failed r.outcome) _ _ h in
    let account =
      refuse->>-eq-ok
        (str_eq e.wholesale_account_id ""
          || not (str_eq r.wholesale_account_id e.wholesale_account_id))
        _ _ debit.1 in
    let domain =
      refuse->>-eq-ok
        (str_eq e.settlement_domain_id ""
          || not (str_eq r.settlement_domain_id e.settlement_domain_id))
        _ _ account.1 in
    let identity = >>-eq-ok (verify_session_identity r e) _ domain.1 in
    let (billed, accounted, h₁) = >>=-eq-ok (verify_session_accounting r e) _ identity.1 in
    let (diagnostics, diagnosed, h₂) = >>=-eq-ok (verify_session_diagnostics iso r) _ h₁ in
    let named = refuse->>-eq-ok (is_unrecognized r.outcome) _ _ h₂ in
    let v_is = ok-injective named.1 in
    let money = verify_session_accounting_sound r e billed accounted in
    let safe = verify_session_diagnostics_sound iso r diagnostics diagnosed in
    (
      r,
      issued_at,
      key,
      refl,
      debit.0,
      ground (arith, account.0, eq_iff r.wholesale_account_id e.wholesale_account_id),
      ground (arith, domain.0, eq_iff r.settlement_domain_id e.settlement_domain_id),
      verify_session_identity_sound r e identity.0.1,
      money.1,
      sym (ap (λ (x : VerifiedSessionSettlement). x.broker_session_id) v_is),
      rw (← v_is) (money.1.2),
      rw (← v_is) (rw (money.0) (money.3)),
      rw (← v_is) (safe.0),
      rw (← v_is) (safe.1),
      rw (← v_is) (refl, refl, refl, refl, refl, refl, refl, money.0, refl, refl, refl, named.0),
    )
