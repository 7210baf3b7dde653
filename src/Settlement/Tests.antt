-- ===== src/Settlement/Tests.antt =====
-- The theorems of settlement verification at concrete records.
use livepeer_open_clearingho.Base.{if◌then◌else◌, str_eq}
use livepeer_open_clearingho.Base.{
  String, ◌≤◌, ◌≡◌, ◌⊎◌, ◌↔◌, refl, none, some, [], ◌∷◌, true, false, arith,
}
use livepeer_open_clearingho.Base.Time.{Datetime, from_seconds}
use livepeer_open_clearingho.Base.Result.{Result, ok}
use livepeer_open_clearingho.Settlement.Records.{
  SettlementRecord, JobSettlementExpectation, SessionSettlementExpectation, VerifiedJobSettlement,
  Error, exact, is_debit_failed, is_unrecognized, wei,
}
use livepeer_open_clearingho.Settlement.Example.{
  quote, signed, noon, session_record, codec, envelope, keys,
}
use livepeer_open_clearingho.Settlement.Hex.{from_hex, to_hex}
use livepeer_open_clearingho.Settlement.Envelope.{
  signed_payload, recover_public_key, verify_envelope,
}
use livepeer_open_clearingho.Settlement.Envelope.Sound.{IsVerified, verify_envelope_sound}
use livepeer_open_clearingho.Settlement.Bill.{bill, job_normative_bill}
use livepeer_open_clearingho.Settlement.Bill.Curve.{billed_sum, total_units, job_bills_telescope}
use livepeer_open_clearingho.Settlement.Accounting.{
  reject_failed_debit, verify_wholesale_account, verify_settlement_domain,
  verify_authorization_accounting,
}
use livepeer_open_clearingho.Settlement.Accounting.Limits.{
  WithinAuthorization, verify_authorization_accounting-decides,
}
use livepeer_open_clearingho.Settlement.Job.{
  verify_job_settlement, verify_job_identity, verify_job_value,
}
use livepeer_open_clearingho.Settlement.Job.Sound.{IsThisJob, IsBilled, verify_job_settlement_sound}
use livepeer_open_clearingho.Settlement.Session.{
  verify_session_accounting, verify_session_units, verify_exhausted, exhausted,
}
use livepeer_open_clearingho.Settlement.Session.Sound.{
  IsProgress, IsSpent, verify_session_accounting_sound,
}
use livepeer_open_clearingho.Base.{◌<◌}
use livepeer_open_clearingho.Settlement.Session.{verify_session_identity}
use livepeer_open_clearingho.Settlement.NonAdmission.{
  NonAdmissionRecord, not_admitted, NonAdmissionExpectation, VerifiedNonAdmission,
  verify_non_admission_scope, verify_coverage, verify_non_admission,
}
use livepeer_open_clearingho.Settlement.NonAdmission.Sound.{IsStatement, verify_non_admission_sound}
use livepeer_open_clearingho.Settlement.Keys.{covers, authorize_key}
use livepeer_open_clearingho.Settlement.Keys.Sound.{AnyDelegates, authorize_key-AnyDelegates}
use livepeer_open_clearingho.Settlement.Diagnostics.{is_unsafe, verify_session_diagnostics}
use livepeer_open_clearingho.Settlement.Evidence.{
  VerifiedSessionSettlement, verify_session_settlement,
}
use livepeer_open_clearingho.Settlement.Evidence.Sound.{
  IsThisSession, IsReported, verify_session_settlement_sound,
}

abbrev expected_job : JobSettlementExpectation
expected_job = record {
  wholesale_account_id = "acct";
  settlement_domain_id = "domain";
  request_id = "request";
  job_id = "job";
  work_id = "auth";
  work_unit = "unit";
  actual_units = 7;
  max_total_units = 10;
  funded_value_wei = 400;
  amount_wei = 100;
  per_units = 3;
  quote = quote;
  authorization_id = some "auth";
  authorized_value_wei = some 300;
}

abbrev expected_session : SessionSettlementExpectation
expected_session = record {
  wholesale_account_id = "acct";
  settlement_domain_id = "domain";
  gateway_session_id = "gateway";
  broker_session_id = some "session";
  work_id = "auth";
  predecessor_work_id = "";
  rotation_generation = 0;
  work_unit = "unit";
  amount_wei = 100;
  per_units = 3;
  quote = quote;
  funded_value_wei = 400;
  last_settlement_seq = 3;
  authorization_id = some "auth";
  authorized_value_wei = some 300;
  require_terminal = true;
}

abbrev verified : VerifiedJobSettlement
verified = record {
  actual_units = 7;
  billed_value_wei = 234;
  outcome = exact;
  issued_at = noon;
  signing_public_key = "0x04";
}

accepted : verify_job_settlement (ok (signed, noon, "0x04")) expected_job ≡ ok verified
unfolding verify_job_settlement verify_job_identity verify_job_value reject_failed_debit
    verify_wholesale_account verify_settlement_domain verify_authorization_accounting
    job_normative_bill bill
accepted = refl

verify_job_settlement_sound_example :
    (r : SettlementRecord) × (issued_at : Datetime) × (key : String) × (◌≡◌
      {A = Result Error (SettlementRecord × Datetime × String)}
      (ok (signed, noon, "0x04"))
      (ok (r, issued_at, key)))
    × (is_debit_failed r.outcome ≡ false)
    × (r.wholesale_account_id ≡ "acct")
    × (r.settlement_domain_id ≡ "domain")
    × IsThisJob r expected_job
    × IsBilled r expected_job
    × (verified.actual_units ≡ 7)
    × (verified.billed_value_wei ≡ wei r.billed_value_wei)
    × (verified.issued_at ≡ issued_at)
    × (verified.signing_public_key ≡ key)
    × (verified.outcome ≡ r.outcome)
    × (is_unrecognized r.outcome ≡ false)
verify_job_settlement_sound_example =
    verify_job_settlement_sound (ok (signed, noon, "0x04")) expected_job verified accepted

accounted : verify_session_accounting signed expected_session ≡ ok 234
unfolding verify_session_accounting verify_session_units verify_exhausted exhausted
    verify_authorization_accounting bill
accounted = refl

verify_session_accounting_sound_example :
    (234 ≡ wei signed.billed_value_wei)
    × IsProgress signed expected_session
    × ((exhausted signed expected_session ≡ false) ⊎ IsSpent signed expected_session)
    × (wei signed.billed_value_wei ≤ 400)
    × (wei signed.funded_value_wei ≤ 400)
    × (wei signed.generation_billed_value_wei ≤ wei signed.billed_value_wei)
    × WithinAuthorization signed (some "auth") (some 300) (wei signed.billed_value_wei)
verify_session_accounting_sound_example =
    verify_session_accounting_sound signed expected_session 234 accounted

verify_authorization_accounting-decides_example :
    (verify_authorization_accounting signed (some "auth") (some 300) 234 ≡ ok tt)
    ↔ WithinAuthorization signed (some "auth") (some 300) 234
verify_authorization_accounting-decides_example =
    verify_authorization_accounting-decides signed (some "auth") (some 300) 234

-- The same price without an authorization.
abbrev legacy : JobSettlementExpectation
legacy = record expected_job { authorization_id = none; authorized_value_wei = none }

job_bills_telescope_example :
    billed_sum signed legacy 0 (1 ∷ 1 ∷ 2 ∷ []) ≡ bill (total_units (1 ∷ 1 ∷ 2 ∷ [])) 100 3
job_bills_telescope_example = job_bills_telescope signed legacy (1 ∷ 1 ∷ 2 ∷ []) refl (omega arith)

-- The key of the example is delegated for the day.
authorized : authorize_key codec.fromisoformat "0x04" noon keys ≡ ok tt
unfolding authorize_key covers
authorized = refl

authorize_key-AnyDelegates_example : AnyDelegates codec.fromisoformat "0x04" noon keys
authorize_key-AnyDelegates_example =
    authorize_key-AnyDelegates codec.fromisoformat "0x04" noon keys authorized

abbrev session_result : VerifiedSessionSettlement
session_result = record {
  broker_session_id = "session";
  work_id = "auth";
  predecessor_work_id = "";
  rotation_generation = 0;
  settlement_seq = 4;
  state = "closed";
  claimed_units = 9;
  debited_units = 7;
  billed_value_wei = 234;
  outcome = exact;
  issued_at = noon;
  signing_public_key = "0x04";
  diagnostics = record {
    termination_reason = some "authorization_exhausted";
    output_state = none;
    output_state_since = none;
    last_failure_code = none;
  };
}

session_accepted :
    verify_session_settlement codec.fromisoformat
      (ok (session_record, noon, "0x04"))
      expected_session
    ≡ ok session_result
unfolding verify_session_settlement verify_session_identity verify_session_accounting
    verify_session_units verify_exhausted exhausted verify_session_diagnostics reject_failed_debit
    verify_wholesale_account verify_settlement_domain verify_authorization_accounting bill
session_accepted = refl

verify_session_settlement_sound_example :
    (r : SettlementRecord) × (issued_at : Datetime) × (key : String) × (◌≡◌
      {A = Result Error (SettlementRecord × Datetime × String)}
      (ok (session_record, noon, "0x04"))
      (ok (r, issued_at, key)))
    × (is_debit_failed r.outcome ≡ false)
    × (r.wholesale_account_id ≡ "acct")
    × (r.settlement_domain_id ≡ "domain")
    × IsThisSession r expected_session
    × IsProgress r expected_session
    × (session_result.broker_session_id ≡ r.session_id)
    × (3 < session_result.settlement_seq)
    × (session_result.billed_value_wei ≤ 400)
    × (is_unsafe session_result.diagnostics.termination_reason ≡ false)
    × (is_unsafe session_result.diagnostics.last_failure_code ≡ false)
    × IsReported r issued_at key session_result
verify_session_settlement_sound_example =
    verify_session_settlement_sound codec.fromisoformat (ok (session_record, noon, "0x04"))
      expected_session session_result session_accepted

enveloped : verify_envelope codec envelope keys ≡ ok (signed, noon, "0x04")
unfolding verify_envelope signed_payload recover_public_key authorize_key covers from_hex to_hex
enveloped = refl

verify_envelope_sound_example : IsVerified codec envelope keys (signed, noon, "0x04")
verify_envelope_sound_example =
    verify_envelope_sound codec envelope keys (signed, noon, "0x04") enveloped

abbrev statement : NonAdmissionRecord
statement = record {
  wholesale_account_id = "acct";
  settlement_domain_id = "domain";
  protocol = "job";
  request_id = "request";
  work_id = "auth";
  sender = 1 ∷ [];
  recipient = 2 ∷ [];
  accepted_quote_ref = quote;
  broker_eth_address = "0x0A";
  observed_at = "noon";
  coverage_started_at = "start";
  outcome = not_admitted;
}

abbrev unadmitted : NonAdmissionExpectation
unadmitted = record {
  wholesale_account_id = "acct";
  settlement_domain_id = "domain";
  protocol = "job";
  request_id = "request";
  work_id = "auth";
  sender = 1 ∷ [];
  recipient = 2 ∷ [];
  quote = quote;
  broker_eth_address = "0x0a";
  job_issued_at = from_seconds 43000;
}

abbrev lower_case : String → String
lower_case s = if str_eq s "0x0A" then "0x0a" else s

abbrev observed : VerifiedNonAdmission
observed = record {
  observed_at = noon;
  coverage_started_at = from_seconds 0;
  signing_public_key = "0x04";
}

unadmitted_accepted :
    verify_non_admission codec (λ payload. some statement) lower_case envelope keys unadmitted
    ≡ ok observed
unfolding verify_non_admission verify_non_admission_scope verify_coverage signed_payload
    recover_public_key authorize_key covers from_hex to_hex
unadmitted_accepted = refl

verify_non_admission_sound_example :
    IsStatement codec (λ payload. some statement) lower_case envelope keys unadmitted observed
verify_non_admission_sound_example =
    verify_non_admission_sound codec (λ payload. some statement) lower_case envelope keys unadmitted
      observed unadmitted_accepted
