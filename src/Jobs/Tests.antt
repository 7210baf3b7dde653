-- ===== src/Jobs/Tests.antt =====
-- The theorems of jobs at a concrete engagement.
use livepeer_open_clearingho.Base.{ℕ, ◌≤◌, ◌≡◌, refl, none, some, [], ◌∷◌, true}
use livepeer_open_clearingho.Base.Int.{pos, neg, ◌+ℤ◌, ◌-ℤ◌}
use livepeer_open_clearingho.Base.Result.{ok, err}
use livepeer_open_clearingho.Billing.Rows as BillingRows
use livepeer_open_clearingho.Billing.Rows.{find_engagement_row}
use livepeer_open_clearingho.Billing.Consistency.Views.{balance_of}
use livepeer_open_clearingho.Billing.Releases.{Credits}
use livepeer_open_clearingho.Billing.Ledger.{ensure_balance_row, apply_delta, post_delta}
use livepeer_open_clearingho.Billing.Pricing.{validate, calculate_customer_charge}
use livepeer_open_clearingho.Base.Decimal.{kept_places, quotient_ceiling, round_half_even}
use livepeer_open_clearingho.Sessions.Charge.{customer_charge, release_unused, store_close}
use livepeer_open_clearingho.Sessions.Grants.{mark_spend_authorization_settled}
use livepeer_open_clearingho.Billing.Spend.{enforce_and_record_spend}
use livepeer_open_clearingho.Billing.Engagements.{
  release_customer_engagement, encumber_customer_engagement,
}
use livepeer_open_clearingho.Settlement.Example.{codec, envelope, noon}
use livepeer_open_clearingho.Settlement.Records.{exact}
use livepeer_open_clearingho.Settlement.Bill.{bill, job_normative_bill}
use livepeer_open_clearingho.Settlement.Accounting.{
  reject_failed_debit, verify_wholesale_account, verify_settlement_domain,
  verify_authorization_accounting,
}
use livepeer_open_clearingho.Settlement.Job.{
  verify_job_settlement, verify_job_identity, verify_job_value,
}
use livepeer_open_clearingho.Settlement.Envelope.{
  signed_payload, recover_public_key, verify_envelope,
}
use livepeer_open_clearingho.Settlement.Hex.{from_hex, to_hex}
use livepeer_open_clearingho.Settlement.Keys.{covers, authorize_key}
use livepeer_open_clearingho.Sessions.States.{moved, transition_state, record_settlement}
use livepeer_open_clearingho.Sessions.Rows
use livepeer_open_clearingho.Sessions.Rows.{PaymentSession, Db}
use livepeer_open_clearingho.Sessions.Example.{later, claim, funded, grant, authorized}
use livepeer_open_clearingho.Sessions.Engagement.{
  create_session, new_session, claim_or_replay, claim_wholesale_engagement,
  release_unauthorized_engagement,
}
use livepeer_open_clearingho.Jobs.Settle.{
  SettleJob, open_job_row, verified_usage, settled_row, finish_job, settle_job,
}
use livepeer_open_clearingho.Jobs.Settle.Evidence.{IsSettled, settle_job_settles}
use livepeer_open_clearingho.Jobs.Settle.Once.{settle_job_once}
use livepeer_open_clearingho.Jobs.Whole.{claim_then_return, claim_then_settle}

abbrev claimed_db : Db
claimed_db = (claim_wholesale_engagement claim noon 3600 (pos 0) funded).1

claimed :
    claim_wholesale_engagement claim noon 3600 (pos 0) funded
    ≡ (ok (new_session 5 claim noon), claimed_db)
unfolding claim_wholesale_engagement claim_or_replay create_session encumber_customer_engagement
    ensure_balance_row enforce_and_record_spend apply_delta post_delta ◌+ℤ◌ ◌-ℤ◌ validate
claimed = refl

abbrev returned_db : Db
returned_db = (release_unauthorized_engagement 5 later claimed_db).1

returned : release_unauthorized_engagement 5 later claimed_db ≡ (ok true, returned_db)
unfolding release_unauthorized_engagement claim_wholesale_engagement claim_or_replay create_session
    encumber_customer_engagement ensure_balance_row enforce_and_record_spend apply_delta post_delta
    release_customer_engagement ◌+ℤ◌ ◌-ℤ◌ validate
returned = refl

unreleased : find_engagement_row 5 BillingRows.engagement_release claimed_db.billing.ledger ≡ none
unfolding claim_wholesale_engagement claim_or_replay create_session encumber_customer_engagement
    ensure_balance_row enforce_and_record_spend apply_delta post_delta ◌+ℤ◌ ◌-ℤ◌ validate
unreleased = refl

claim_then_return_example : balance_of 1 returned_db.billing ≡ pos 1000
claim_then_return_example =
    claim_then_return claim noon later 3600 (pos 0) funded (new_session 5 claim noon) claimed_db
      returned_db refl refl refl unreleased claimed returned 1

-- The tables once an authorization was granted.
abbrev authorized_db : Db
authorized_db = record claimed_db { sessions = authorized ∷ []; grants = grant ∷ [] }

abbrev settlement : SettleJob
settlement = record {
  job_id = 5;
  user_id = 1;
  actual_units = 7;
  broker_job_id = "job";
  work_unit = "unit";
  outcome = some "EXACT";
  settlement = envelope;
}

abbrev settled_db : Db
settled_db = (settle_job codec settlement later authorized_db).1

abbrev final : PaymentSession
final = settled_row (moved authorized "closed" later) 7 234 exact

settled : settle_job codec settlement later authorized_db ≡ (ok final, settled_db)
unfolding settle_job open_job_row verified_usage finish_job verify_job_settlement verify_envelope
    signed_payload recover_public_key from_hex authorize_key to_hex covers reject_failed_debit
    verify_wholesale_account verify_settlement_domain verify_job_identity verify_job_value
    job_normative_bill verify_authorization_accounting customer_charge validate
    release_customer_engagement calculate_customer_charge release_unused store_close
    mark_spend_authorization_settled record_settlement transition_state bill kept_places
    quotient_ceiling round_half_even claim_wholesale_engagement claim_or_replay create_session
    encumber_customer_engagement ensure_balance_row enforce_and_record_spend apply_delta post_delta
    ◌+ℤ◌ ◌-ℤ◌
settled = refl

settle_job_settles_example : IsSettled codec settlement later authorized_db final settled_db
settle_job_settles_example =
    settle_job_settles codec settlement later authorized_db final settled_db unreleased settled

settle_job_once_example :
    settle_job codec settlement later settled_db
    ≡ (err (Rows.job_already_settled "closed"), settled_db)
settle_job_once_example =
    settle_job_once codec settlement settlement later later authorized_db final settled_db
      unreleased settled refl refl

claim_then_settle_example :
    (billed : ℕ) × (final.billed_value_wei ≡ some (pos billed))
    × (billed ≤ 400)
    × Credits 1 (neg (pos billed)) funded.billing settled_db.billing
claim_then_settle_example =
    claim_then_settle claim noon later 3600 (pos 0) codec settlement funded
      (new_session 5 claim noon) authorized claimed_db authorized_db final settled_db refl refl
      claimed refl refl refl refl unreleased settled
