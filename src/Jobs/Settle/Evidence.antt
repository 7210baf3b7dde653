-- ===== src/Jobs/Settle/Evidence.antt =====
-- A job that is settled is settled by signed evidence (domains/jobs/service.py, `settle_job`).
use livepeer_open_clearingho.Base.{
  ℕ, ◌≡◌, sym, ap, subst, ◌∙◌, String, Option, none, some, false, not, ◌&&◌, str_eq, is_some,
  or_else, arith,
}
use livepeer_open_clearingho.Base.Int.{ℤ, pos, ◌-ℤ◌}
use livepeer_open_clearingho.Base.Time.{Datetime}
use livepeer_open_clearingho.Base.Json.{get, is_present}
use livepeer_open_clearingho.Base.Result.{ok, err}
use livepeer_open_clearingho.Base.Action.{lift, bind-eq-ok, raise_if-eq-ok, returned-eq, lift-eq-ok}
use livepeer_open_clearingho.Billing.Rows
use livepeer_open_clearingho.Billing.Rows.{find_engagement_row}
use livepeer_open_clearingho.Settlement.Records.{
  SettlementRecord, VerifiedJobSettlement, Checked, wei, is_debit_failed, is_unrecognized,
}
use livepeer_open_clearingho.Settlement.Envelope.{Codec, verify_envelope}
use livepeer_open_clearingho.Settlement.Envelope.Sound.{IsVerified, verify_envelope_sound}
use livepeer_open_clearingho.Settlement.Job.{verify_job_settlement}
use livepeer_open_clearingho.Settlement.Job.Sound.{IsThisJob, IsBilled, verify_job_settlement_sound}
use livepeer_open_clearingho.Sessions.Rows.{Snapshot, PaymentSession, SpendAuthorizationGrant, Db}
use livepeer_open_clearingho.Sessions.States.Machine.{find_session-id}
use livepeer_open_clearingho.Sessions.Charge.{customer_charge}
use livepeer_open_clearingho.Sessions.Charge.Refund.{IsCharge, customer_charge-IsCharge}
use livepeer_open_clearingho.Sessions.Charge.Stored.{IsClosed}
use livepeer_open_clearingho.Jobs.Settle.{
  SettleJob, nonempty_request, pinned, checked, expectation, open_job_row, verified_usage,
  finish_job, settle_job, expected_work_unit, outcome_name,
}
use livepeer_open_clearingho.Jobs.Settle.Money.{
  IsJob, outcome_value, outcome_value-outcome_name, open_job_row-IsJob, final_row, close_event,
  finish_job-IsClosed,
}

pub checked-eq-ok : {A : Type 0} (r : Checked A) {a : A} → checked r ≡ ok a → r ≡ ok a
checked-eq-ok (ok b) h = cc
checked-eq-ok (err e) h = cc

pub pinned-eq-ok : (o : Option Snapshot) (s : Snapshot) → pinned o ≡ ok s → o ≡ some s
pinned-eq-ok none s h = cc
pinned-eq-ok (some t) s h = ground arith

nonempty_request-eq-ok : (o : Option String) (s : String) → nonempty_request o ≡ ok s → o ≡ some s
nonempty_request-eq-ok none s h = cc
nonempty_request-eq-ok (some t) s h = ground arith

-- The evidence of a settlement: an envelope that a delegated key signed, whose record is about this
-- job, its units and its price; the units are those of the request, and the bill and the outcome
-- are the signed ones, and the outcome has a name.
abbrev pub IsEvidence :
    Codec → SettleJob → PaymentSession → SpendAuthorizationGrant → VerifiedJobSettlement → Type 0
IsEvidence codec request row grant v =
    (snapshot : Snapshot) × (request_id : String) × (r : SettlementRecord) × (issued_at : Datetime)
    × (key : String) × (row.route_snapshot ≡ some snapshot)
    × (row.broker_request_id ≡ some request_id)
    × IsVerified codec request.settlement snapshot.settlement_keys (r, issued_at, key)
    × IsThisJob r (expectation request row snapshot grant request_id)
    × IsBilled r (expectation request row snapshot grant request_id)
    × (is_debit_failed r.outcome ≡ false)
    × (v.actual_units ≡ request.actual_units)
    × (v.billed_value_wei ≡ wei r.billed_value_wei)
    × (v.outcome ≡ r.outcome)
    × (is_unrecognized r.outcome ≡ false)

accepted-IsEvidence :
    (codec : Codec) (request : SettleJob) (row : PaymentSession) (grant : SpendAuthorizationGrant)
    (snapshot : Snapshot) (request_id : String) (v : VerifiedJobSettlement)
    → row.route_snapshot ≡ some snapshot
    → row.broker_request_id ≡ some request_id
    → verify_job_settlement
        (verify_envelope codec request.settlement snapshot.settlement_keys)
        (expectation request row snapshot grant request_id)
      ≡ ok v
    → IsEvidence codec request row grant v
accepted-IsEvidence codec request row grant snapshot request_id v routed requested h =
    let (
      r, issued_at, key, enveloped, debit, account, domain, this, billed, units, value, at, signer,
      outcome, named,
    ) =
      verify_job_settlement_sound
        (verify_envelope codec request.settlement snapshot.settlement_keys)
        (expectation request row snapshot grant request_id) v h in
    (
      snapshot,
      request_id,
      r,
      issued_at,
      key,
      routed,
      requested,
      verify_envelope_sound codec request.settlement snapshot.settlement_keys (r, issued_at, key)
          enveloped,
      this,
      billed,
      debit,
      units,
      value,
      outcome,
      named,
    )

verified_usage-IsEvidence :
    (codec : Codec) (request : SettleJob) (row : PaymentSession) (grant : SpendAuthorizationGrant)
    (db : Db) (v : VerifiedJobSettlement) (db' : Db)
    → verified_usage codec request row grant db ≡ (ok v, db')
    → IsEvidence codec request row grant v × (db' ≡ db)
unfolding verified_usage
verified_usage-IsEvidence codec request row grant db v db' h =
    let unit =
      raise_if-eq-ok (not (str_eq request.work_unit (expected_work_unit row.route_snapshot))) _ _ db
        h in
    let (request_id, db₁, requested, h₁) =
      bind-eq-ok (lift (nonempty_request row.broker_request_id)) _ db unit.1 in
    let signed =
      raise_if-eq-ok (not (is_present (get "signature" request.settlement))) _ _ db₁ h₁ in
    let (snapshot, db₂, routed, h₂) =
      bind-eq-ok (lift (pinned row.route_snapshot)) _ db₁ signed.1 in
    let (w, db₃, accepted, h₃) =
      bind-eq-ok
        (lift (
          checked (
            verify_job_settlement
              (verify_envelope codec request.settlement snapshot.settlement_keys)
              (expectation request row snapshot grant request_id))))
        _ db₂ h₂ in
    let outcome =
      raise_if-eq-ok
        (is_some request.outcome
          && not (str_eq (or_else request.outcome "") (outcome_name w.outcome)))
        _ _ db₃ h₃ in
    let done = returned-eq outcome.1 in
    let (requested', at₁) = lift-eq-ok (nonempty_request row.broker_request_id) db db₁ requested in
    let (routed', at₂) = lift-eq-ok (pinned row.route_snapshot) db₁ db₂ routed in
    let (accepted', at₃) = lift-eq-ok _ db₂ db₃ accepted in
    (
      subst (IsEvidence codec request row grant) (done.0) (
          accepted-IsEvidence codec request row grant snapshot request_id w
            (pinned-eq-ok row.route_snapshot snapshot routed')
            (nonempty_request-eq-ok row.broker_request_id request_id requested')
            (checked-eq-ok _ accepted')),
      sym (done.1) ∙ (at₃ ∙ (at₂ ∙ at₁)),
    )

-- What a settlement that returns has done to the job.
pub record IsSettled (codec : Codec) (request : SettleJob) (now : Datetime) (db : Db)
    (final : PaymentSession) (db' : Db) : Type 0 where
  pub row : PaymentSession
  pub grant : SpendAuthorizationGrant
  pub usage : VerifiedJobSettlement
  pub hold : ℤ
  pub billed : ℕ
  pub job : IsJob request db (row, grant)
  pub evidence : IsEvidence codec request row grant usage
  pub charge : IsCharge row usage.actual_units usage.billed_value_wei (hold, billed)
  pub named : outcome_value (outcome_name usage.outcome) ≡ some usage.outcome
  pub closed :
      IsClosed row
        (hold -ℤ pos billed)
        (final_row request row billed usage.outcome now)
        (close_event request billed usage.outcome now)
        db
        final
        db'

-- A settlement of a job that returns, of a job of which no hold was released before: the job is the
-- user's, is not closed and has a grant; the signed evidence is about this job and the reported
-- units; the charge is the price of the recorded policy for the evidence, within the hold; the job is
-- closed with these units, this charge and the name of the signed outcome; the user's balance gets exactly the
-- hold less the charge, no other balance changes; and one close event is appended.
pub settle_job_settles :
    (codec : Codec) (request : SettleJob) (now : Datetime) (db : Db) (final : PaymentSession)
    (db' : Db)
    → find_engagement_row request.job_id Rows.engagement_release db.billing.ledger ≡ none
    → settle_job codec request now db ≡ (ok final, db')
    → IsSettled codec request now db final db'
unfolding settle_job
settle_job_settles codec request now db final db' fresh h =
    let (opened, db₁, open_ok, h₁) = bind-eq-ok (open_job_row request) _ db h in
    let (verified, db₂, verified_ok, h₂) =
      bind-eq-ok (verified_usage codec request (opened.0) (opened.1)) _ db₁ h₁ in
    let (charge, db₃, charged, h₃) =
      bind-eq-ok (customer_charge (opened.0) verified.actual_units verified.billed_value_wei) _ db₂
        h₂ in
    let (job, at₁) = open_job_row-IsJob request db opened db₁ open_ok in
    let (evidence, at₂) =
      verified_usage-IsEvidence codec request (opened.0) (opened.1) db₁ verified db₂ verified_ok in
    let (is_charge, at₃) =
      customer_charge-IsCharge (opened.0) verified.actual_units verified.billed_value_wei db₂ charge
        db₃ charged in
    charged_once request (opened.0) (opened.1) (charge.0) (charge.1) now db db₃ final db' verified
      fresh job evidence is_charge (at₃ ∙ (at₂ ∙ at₁)) h₃
  where
    named :
        (codec : Codec) (request : SettleJob) (row : PaymentSession)
        (grant : SpendAuthorizationGrant) (v : VerifiedJobSettlement)
        → IsEvidence codec request row grant v
        → outcome_value (outcome_name v.outcome) ≡ some v.outcome
    named codec request row grant v
          (
            snapshot, request_id, r, issued_at, key, routed, requested, verified, this, billed,
            debit, units, value, outcome, known,
          ) =
        outcome_value-outcome_name v.outcome (ap is_unrecognized outcome ∙ known)

    charged_once :
        (request : SettleJob) (row : PaymentSession) (grant : SpendAuthorizationGrant) (hold : ℤ)
        (billed : ℕ) (now : Datetime) (db db₃ : Db) (final : PaymentSession) (db' : Db)
        (v : VerifiedJobSettlement)
        → find_engagement_row request.job_id Rows.engagement_release db.billing.ledger ≡ none
        → IsJob request db (row, grant)
        → IsEvidence codec request row grant v
        → IsCharge row v.actual_units v.billed_value_wei (hold, billed)
        → db₃ ≡ db
        → finish_job request row hold billed v.outcome now db₃ ≡ (ok final, db')
        → IsSettled codec request now db final db'
    charged_once request row grant hold billed now db db₃ final db' v fresh
          (found, owner, still, account, granted) evidence
          (pricing, priced, capped, valid, amount, within) at h =
        record {
          row = row;
          grant = grant;
          usage = v;
          hold = hold;
          billed = billed;
          job = (found, owner, still, account, granted);
          evidence = evidence;
          named = named codec request row grant v evidence;
          charge = (pricing, priced, capped, valid, amount, within);
          closed =
              finish_job-IsClosed request row hold billed v.outcome now db final db' found within
                (ap (λ i. find_engagement_row i Rows.engagement_release db.billing.ledger)
                    (find_session-id request.job_id db.sessions row found)
                  ∙ fresh)
                (ap (finish_job request row hold billed v.outcome now) (sym at) ∙ h);
        }
