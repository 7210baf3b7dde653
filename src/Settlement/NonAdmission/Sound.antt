-- ===== src/Settlement/NonAdmission/Sound.antt =====
-- What an accepted statement of non-admission says (settlement_verification.py).
use livepeer_open_clearingho.Base.{
  ◌≤◌, ◌≡◌, refl, subst, String, Option, some, List, Bool, true, false, not, ◌||◌, str_eq, eq_iff,
  bytes_eq, bytes_eq_iff, ltb, arith,
}
use livepeer_open_clearingho.Base.Json.{Fields}
use livepeer_open_clearingho.Base.Time.{Datetime}
use livepeer_open_clearingho.Base.Result.{
  ok, >>=-eq-ok, >>-eq-ok, refuse-eq-ok, refuse->>-eq-ok, ok-injective,
}
use livepeer_open_clearingho.Settlement.Records.{quote_matches}
use livepeer_open_clearingho.Settlement.Keys.{Delegation, authorize_key}
use livepeer_open_clearingho.Settlement.Keys.Sound.{AnyDelegates, authorize_key-AnyDelegates}
use livepeer_open_clearingho.Settlement.Diagnostics.{parse_timestamp}
use livepeer_open_clearingho.Settlement.Envelope.{Codec, or_reject, signed_payload}
use livepeer_open_clearingho.Settlement.Envelope.Sound.{
  IsSigned, signed_payload-IsSigned, or_reject-eq-ok, parse_timestamp-aware,
}
use livepeer_open_clearingho.Settlement.NonAdmission.{
  NonAdmissionRecord, NonAdmissionExpectation, VerifiedNonAdmission, is_not_admitted,
  verify_non_admission_scope, verify_coverage, verify_non_admission,
}

-- The record says that this job was not admitted.
abbrev pub IsThisJob : (String → String) → NonAdmissionRecord → NonAdmissionExpectation → Type 0
IsThisJob lower r e =
    (r.settlement_domain_id ≡ e.settlement_domain_id)
    × (r.wholesale_account_id ≡ e.wholesale_account_id)
    × (is_not_admitted r.outcome ≡ true)
    × (r.protocol ≡ e.protocol)
    × (r.request_id ≡ e.request_id)
    × (r.work_id ≡ e.work_id)
    × (r.sender ≡ e.sender)
    × (r.recipient ≡ e.recipient)
    × (quote_matches r.accepted_quote_ref e.quote ≡ true)
    × (lower r.broker_eth_address ≡ lower e.broker_eth_address)

passed : (b : Bool) → not b ≡ false → b ≡ true
passed true h = refl
passed false h = cc

named :
    (expected actual : String)
    → str_eq expected "" || not (str_eq actual expected) ≡ false
    → actual ≡ expected
named expected actual h = ground (arith, h, eq_iff actual expected)

verify_non_admission_scope-IsThisJob :
    (lower : String → String) (r : NonAdmissionRecord) (e : NonAdmissionExpectation)
    → verify_non_admission_scope lower r e ≡ ok tt
    → IsThisJob lower r e
unfolding verify_non_admission_scope
verify_non_admission_scope-IsThisJob lower r e h =
    let domain =
      refuse->>-eq-ok
        (str_eq e.settlement_domain_id ""
          || not (str_eq r.settlement_domain_id e.settlement_domain_id))
        _ _ h in
    let account =
      refuse->>-eq-ok
        (str_eq e.wholesale_account_id ""
          || not (str_eq r.wholesale_account_id e.wholesale_account_id))
        _ _ domain.1 in
    let outcome = refuse->>-eq-ok (not (is_not_admitted r.outcome)) _ _ account.1 in
    let protocol = refuse->>-eq-ok (not (str_eq r.protocol e.protocol)) _ _ outcome.1 in
    let request = refuse->>-eq-ok (not (str_eq r.request_id e.request_id)) _ _ protocol.1 in
    let work = refuse->>-eq-ok (not (str_eq r.work_id e.work_id)) _ _ request.1 in
    let sender = refuse->>-eq-ok (not (bytes_eq r.sender e.sender)) _ _ work.1 in
    let recipient = refuse->>-eq-ok (not (bytes_eq r.recipient e.recipient)) _ _ sender.1 in
    let quoted =
      refuse->>-eq-ok (not (quote_matches r.accepted_quote_ref e.quote)) _ _ recipient.1 in
    let broker =
      refuse-eq-ok (not (str_eq (lower r.broker_eth_address) (lower e.broker_eth_address))) _
        quoted.1 in
    (
      named e.settlement_domain_id r.settlement_domain_id domain.0,
      named e.wholesale_account_id r.wholesale_account_id account.0,
      passed _ outcome.0,
      (eq_iff r.protocol e.protocol).0 (passed _ protocol.0),
      (eq_iff r.request_id e.request_id).0 (passed _ request.0),
      (eq_iff r.work_id e.work_id).0 (passed _ work.0),
      (bytes_eq_iff r.sender e.sender).0 (passed _ sender.0),
      (bytes_eq_iff r.recipient e.recipient).0 (passed _ recipient.0),
      passed _ quoted.0,
      (eq_iff (lower r.broker_eth_address) (lower e.broker_eth_address)).0 (passed _ broker),
    )

verify_coverage-order :
    (started issued observed : Datetime)
    → verify_coverage started issued observed ≡ ok tt
    → (issued.aware ≡ true) × (started.micros ≤ issued.micros) × (issued.micros ≤ observed.micros)
unfolding verify_coverage
verify_coverage-order started issued observed h =
    let aware = refuse->>-eq-ok (not issued.aware) _ _ h in
    let gap = refuse->>-eq-ok (ltb issued.micros started.micros) _ _ aware.1 in
    let seen = refuse->>-eq-ok (ltb observed.micros issued.micros) _ _ gap.1 in
    (passed _ aware.0, ground (arith, gap.0), ground (arith, seen.0))

-- An accepted statement.
abbrev pub IsStatement :
    Codec
    → (Fields → Option NonAdmissionRecord)
    → (String → String)
    → Fields
    → List Delegation
    → NonAdmissionExpectation
    → VerifiedNonAdmission
    → Type 0
IsStatement codec parse lower envelope keys e v =
    (payload : Fields) × (r : NonAdmissionRecord) × IsSigned codec envelope
      (payload, v.signing_public_key)
    × (parse payload ≡ some r)
    × IsThisJob lower r e
    × AnyDelegates codec.fromisoformat v.signing_public_key v.observed_at keys
    × (v.observed_at.aware ≡ true)
    × (v.coverage_started_at.aware ≡ true)
    × (e.job_issued_at.aware ≡ true)
    × (v.coverage_started_at.micros ≤ e.job_issued_at.micros)
    × (e.job_issued_at.micros ≤ v.observed_at.micros)

-- A statement of non-admission that is accepted is signed by a key that a pinned delegation of the
-- time of observation names; its record says that this job, of this account, settlement domain,
-- request, parties, quote and broker, was not admitted; and the broker's coverage starts at the
-- issuance of the job or before, and its observation is made at the issuance or after.
pub verify_non_admission_sound :
    (codec : Codec) (parse : Fields → Option NonAdmissionRecord) (lower : String → String)
    (envelope : Fields) (keys : List Delegation) (e : NonAdmissionExpectation)
    (v : VerifiedNonAdmission)
    → verify_non_admission codec parse lower envelope keys e ≡ ok v
    → IsStatement codec parse lower envelope keys e v
unfolding verify_non_admission
verify_non_admission_sound codec parse lower envelope keys e v h =
    let (signed, has_signed, h₁) = >>=-eq-ok (signed_payload codec envelope) _ h in
    let (r, parsed, h₂) = >>=-eq-ok (or_reject (parse (signed.0)) "malformed_payload") _ h₁ in
    let (observed, seen, h₃) =
      >>=-eq-ok (parse_timestamp codec.fromisoformat (some r.observed_at) "observed_at") _ h₂ in
    let (started, covered, h₄) =
      >>=-eq-ok
        (parse_timestamp codec.fromisoformat (some r.coverage_started_at) "coverage_started_at") _
        h₃ in
    let delegated = >>-eq-ok (authorize_key codec.fromisoformat (signed.1) observed keys) _ h₄ in
    let scope = >>-eq-ok (verify_non_admission_scope lower r e) _ delegated.1 in
    let times = >>-eq-ok (verify_coverage started e.job_issued_at observed) _ scope.1 in
    let (aware, before, after) = verify_coverage-order started e.job_issued_at observed times.0.1 in
    subst (IsStatement codec parse lower envelope keys e) (ok-injective times.1) (
      signed.0,
      r,
      signed_payload-IsSigned codec envelope signed has_signed,
      or_reject-eq-ok _ _ parsed,
      verify_non_admission_scope-IsThisJob lower r e scope.0.1,
      authorize_key-AnyDelegates codec.fromisoformat (signed.1) observed keys delegated.0.1,
      parse_timestamp-aware codec (some r.observed_at) "observed_at" observed seen,
      parse_timestamp-aware codec (some r.coverage_started_at) "coverage_started_at" started
          covered,
      aware,
      before,
      after,
    )
