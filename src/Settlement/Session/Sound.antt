-- ===== src/Settlement/Session/Sound.antt =====
-- What an accepted session settlement (`_verify_session_accounting` of settlement_verification.py)
-- guarantees about money and progress.
use livepeer_open_clearingho.Base.{
  ℕ, ◌≤◌, ◌<◌, ◌≡◌, refl, sym, ◌∙◌, ap, ◌⊎◌, inl, inr, arith, Bool, true, false, ltb, ◌==◌, ◌||◌,
  not, eq_iff, Bool-cases,
}
use livepeer_open_clearingho.Base.Result.{
  ok, refuse, >>=-eq-ok, refuse->>-eq-ok, >>-eq-ok, ok-injective,
}
use livepeer_open_clearingho.Settlement.Records.{
  SettlementRecord, SessionSettlementExpectation, wei,
}
use livepeer_open_clearingho.Settlement.Bill.{bill}
use livepeer_open_clearingho.Settlement.Accounting.{verify_authorization_accounting}
use livepeer_open_clearingho.Settlement.Accounting.Limits.{
  WithinAuthorization, verify_authorization_accounting-decides,
}
use livepeer_open_clearingho.Settlement.Session.{
  exhausted, verify_exhausted, verify_session_units, verify_session_accounting,
}

-- The units are priced as agreed, newer than what LOC has seen, and all debited: a claim beyond the
-- debit is accepted of an exhausted authorization only.
abbrev pub IsProgress : SettlementRecord → SessionSettlementExpectation → Type 0
IsProgress r e =
    (wei r.amount_wei ≡ e.amount_wei)
    × (r.per_units ≡ e.per_units)
    × (e.last_settlement_seq < r.settlement_seq)
    × ((e.require_terminal ≡ false) ⊎ (r.state ≡ "closed"))
    × ((r.claimed_units ≡ r.debited_units) ⊎ (exhausted r e ≡ true))
    × (r.actual_units ≡ r.debited_units)
    × (r.billed_units ≡ r.debited_units)
    × (r.generation_debited_units ≤ r.debited_units)

verify_session_units_sound :
    (r : SettlementRecord) (e : SessionSettlementExpectation)
    → verify_session_units r e ≡ ok tt
    → IsProgress r e
unfolding verify_session_units
verify_session_units_sound r e h =
    ground (arith, Bool-cases (exhausted r e), eq_iff r.state "closed")

-- The bill of an exhausted session is the price of the debited units, and nothing stays reserved.
abbrev pub IsSpent : SettlementRecord → SessionSettlementExpectation → Type 0
IsSpent r e =
    (bill r.debited_units e.amount_wei e.per_units ≡ ok (wei r.billed_value_wei))
    × (wei r.reserved_value_wei ≡ 0)

verify_exhausted_sound :
    (r : SettlementRecord) (e : SessionSettlementExpectation) (spent : Bool)
    → verify_exhausted r e spent ≡ ok tt
    → (spent ≡ false) ⊎ IsSpent r e
unfolding verify_exhausted
verify_exhausted_sound r e false h = inl refl
verify_exhausted_sound r e true h =
    let due = >>=-eq-ok (bill r.debited_units e.amount_wei e.per_units) _ h in
    let same : refuse (not (wei r.billed_value_wei == due.0) || not (wei r.reserved_value_wei == 0))
          _
        ≡ ok tt =
      due.2 in
    inr (due.1 ∙ ap ok (ground (arith, same)), ground (arith, same))

-- Session accounting that is accepted returns the signed bill. The record is priced as agreed, newer
-- than the last one seen, closed where LOC requires it, and its actual and billed units are the
-- debited ones; claimed units are the debited ones too, save for an exhausted authorization, which
-- is billed exactly the price of the debited units and reserves nothing. The bill and the
-- signed funding stay within LOC's funding, and the accounting fits the authorization.
pub verify_session_accounting_sound :
    (r : SettlementRecord) (e : SessionSettlementExpectation) (billed : ℕ)
    → verify_session_accounting r e ≡ ok billed
    → (billed ≡ wei r.billed_value_wei)
      × IsProgress r e
      × ((exhausted r e ≡ false) ⊎ IsSpent r e)
      × (wei r.billed_value_wei ≤ e.funded_value_wei)
      × (wei r.funded_value_wei ≤ e.funded_value_wei)
      × (wei r.generation_billed_value_wei ≤ wei r.billed_value_wei)
      × WithinAuthorization r e.authorization_id e.authorized_value_wei (wei r.billed_value_wei)
unfolding verify_session_accounting
verify_session_accounting_sound r e billed h =
    let units = >>-eq-ok (verify_session_units r e) _ h in
    let spent = >>-eq-ok (verify_exhausted r e (exhausted r e)) _ units.1 in
    let cap =
      refuse->>-eq-ok
        (ltb e.funded_value_wei (wei r.billed_value_wei)
          || ltb e.funded_value_wei (wei r.funded_value_wei))
        _ _ spent.1 in
    let generation =
      refuse->>-eq-ok (ltb (wei r.billed_value_wei) (wei r.generation_billed_value_wei)) _ _
        cap.1 in
    let account =
      >>-eq-ok
        (verify_authorization_accounting r e.authorization_id e.authorized_value_wei
          (wei r.billed_value_wei))
        _ generation.1 in
    (
      sym (ok-injective account.1),
      verify_session_units_sound r e units.0.1,
      verify_exhausted_sound r e (exhausted r e) spent.0.1,
      ground (arith, cap.0),
      ground (arith, cap.0),
      ground (arith, generation.0),
      (verify_authorization_accounting-decides r e.authorization_id e.authorized_value_wei
            (wei r.billed_value_wei)).0
          account.0.1,
    )
