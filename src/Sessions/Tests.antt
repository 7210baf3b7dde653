-- ===== src/Sessions/Tests.antt =====
-- The theorems of sessions at a concrete engagement.
use livepeer_open_clearingho.Base.{
  ℕ, ◌≡◌, ◌⊎◌, inl, refl, none, some, [], ◌∷◌, All, Bool, true, false,
}
use livepeer_open_clearingho.Base.Int.{pos, ◌+ℤ◌, ◌-ℤ◌}
use livepeer_open_clearingho.Base.Json.{Fields}
use livepeer_open_clearingho.Base.Result.{ok, err}
use livepeer_open_clearingho.Base.Decimal.{kept_places, quotient_ceiling, round_half_even}
use livepeer_open_clearingho.Billing.Rows as BillingRows
use livepeer_open_clearingho.Billing.Rows.{find_engagement_row}
use livepeer_open_clearingho.Billing.Ledger.{ensure_balance_row, apply_delta, post_delta}
use livepeer_open_clearingho.Billing.Spend.{enforce_and_record_spend}
use livepeer_open_clearingho.Billing.Engagements.{
  release_customer_engagement, encumber_customer_engagement,
}
use livepeer_open_clearingho.Billing.Pricing.{validate, calculate_customer_charge}
use livepeer_open_clearingho.Settlement.Example.{session_record, codec, envelope, noon}
use livepeer_open_clearingho.Settlement.Bill.{bill}
use livepeer_open_clearingho.Settlement.Accounting.{
  reject_failed_debit, verify_wholesale_account, verify_settlement_domain,
  verify_authorization_accounting,
}
use livepeer_open_clearingho.Settlement.Session.{
  verify_session_identity, verify_session_accounting, verify_session_units, verify_exhausted,
  exhausted,
}
use livepeer_open_clearingho.Settlement.Diagnostics.{verify_session_diagnostics}
use livepeer_open_clearingho.Settlement.Evidence.{verify_session_settlement}
use livepeer_open_clearingho.Settlement.Envelope.{
  Codec, signed_payload, recover_public_key, verify_envelope,
}
use livepeer_open_clearingho.Settlement.Hex.{from_hex, to_hex}
use livepeer_open_clearingho.Settlement.Keys.{covers, authorize_key}
use livepeer_open_clearingho.Sessions.Rows
use livepeer_open_clearingho.Sessions.Rows.{
  PaymentSession, SpendAuthorizationGrant, Db, Error, find_session, find_grant,
}
use livepeer_open_clearingho.Sessions.States.{is_closed, moved, transition_state, record_settlement}
use livepeer_open_clearingho.Sessions.States.Machine.{transition_state-closes}
use livepeer_open_clearingho.Sessions.Grants.{
  mark_spend_authorization_settled, mark_spend_authorization_operator_resolved,
}
use livepeer_open_clearingho.Sessions.Grants.Resolved.{
  IsResolved, conflict, operator_resolution_cases, canceled_grant_blocks_resolution,
}
use livepeer_open_clearingho.Sessions.Grants.Record.{
  Authorization, new_grant, require_authorizable, require_scope, require_predecessor,
  replay_or_record, record_spend_authorization_grant,
}
use livepeer_open_clearingho.Sessions.Grants.Record.Exclusive.{release_excludes_grant}
use livepeer_open_clearingho.Sessions.Engagement.{
  create_session, new_session, claim_or_replay, claim_wholesale_engagement,
  release_unauthorized_engagement,
}
use livepeer_open_clearingho.Sessions.Engagement.Claims.{IsClaimed, claim-IsClaimed}
use livepeer_open_clearingho.Sessions.Engagement.Returned.{
  IsReturned, release_unauthorized-IsReturned,
}
use livepeer_open_clearingho.Sessions.Charge.{customer_charge, release_unused, store_close}
use livepeer_open_clearingho.Sessions.Close.{
  CloseSession, verify_close_settlement, require_retired_successors, finish_session,
  close_open_session, close_session,
}
use livepeer_open_clearingho.Sessions.Close.Settled.{IsSettled}
use livepeer_open_clearingho.Sessions.Close.Once.{
  IsReplay, IsReleased, close_session_settles, close_session_again,
}
use livepeer_open_clearingho.Sessions.Example.{later, claim, funded, grant, authorized}

abbrev claimed_db : Db
claimed_db = (claim_wholesale_engagement claim noon 3600 (pos 0) funded).1

claimed :
    claim_wholesale_engagement claim noon 3600 (pos 0) funded
    ≡ (ok (new_session 5 claim noon), claimed_db)
unfolding claim_wholesale_engagement claim_or_replay create_session encumber_customer_engagement
    ensure_balance_row enforce_and_record_spend apply_delta post_delta ◌+ℤ◌ ◌-ℤ◌ validate
claimed = refl

claim-IsClaimed_example : IsClaimed claim noon funded (new_session 5 claim noon) claimed_db
claim-IsClaimed_example =
    claim-IsClaimed claim noon 3600 (pos 0) funded (new_session 5 claim noon) claimed_db refl refl
      claimed

unreleased : find_engagement_row 5 BillingRows.engagement_release claimed_db.billing.ledger ≡ none
unfolding claim_wholesale_engagement claim_or_replay create_session encumber_customer_engagement
    ensure_balance_row enforce_and_record_spend apply_delta post_delta ◌+ℤ◌ ◌-ℤ◌ validate
unreleased = refl

abbrev returned_db : Db
returned_db = (release_unauthorized_engagement 5 later claimed_db).1

returned : release_unauthorized_engagement 5 later claimed_db ≡ (ok true, returned_db)
unfolding release_unauthorized_engagement release_customer_engagement claim_wholesale_engagement
    claim_or_replay create_session encumber_customer_engagement ensure_balance_row
    enforce_and_record_spend apply_delta post_delta ◌+ℤ◌ ◌-ℤ◌ validate
returned = refl

release_unauthorized-IsReturned_example : IsReturned 5 later claimed_db returned_db
release_unauthorized-IsReturned_example =
    release_unauthorized-IsReturned 5 later claimed_db returned_db unreleased returned

-- A session whose predecessor's authorization is settled, and then closed.
abbrev authorized_db : Db
authorized_db = record claimed_db {
  sessions = authorized ∷ [];
  grants = grant ∷ [];
  settlements = [];
}

abbrev session_codec : Codec
session_codec = record codec { parse_dict = λ payload. some session_record }

abbrev any_json : Fields → Fields → Bool
any_json s t = true

abbrev close : CloseSession
close = record {
  session_id = 5;
  session_name = "gateway";
  user_id = 1;
  actual_units = 7;
  outcome = none;
  settlement = some envelope;
}

abbrev final : PaymentSession
final = record (moved authorized "closed" later) {
  actual_units = some 7;
  billed_value_wei = some (pos 234);
  outcome = some "EXACT";
  broker_session_id = some "session";
  last_settlement_seq = 4;
}

abbrev closed_db : Db
closed_db = (close_session any_json session_codec close later authorized_db).1

closed : close_session any_json session_codec close later authorized_db ≡ (ok final, closed_db)
unfolding close_session close_open_session verify_close_settlement require_retired_successors
    finish_session verify_session_settlement verify_session_identity verify_session_accounting
    verify_session_units verify_exhausted exhausted verify_session_diagnostics verify_envelope
    signed_payload recover_public_key from_hex authorize_key to_hex covers reject_failed_debit
    verify_wholesale_account verify_settlement_domain verify_authorization_accounting
    customer_charge validate release_customer_engagement calculate_customer_charge release_unused
    store_close mark_spend_authorization_settled record_settlement transition_state bill kept_places
    quotient_ceiling round_half_even claim_wholesale_engagement claim_or_replay create_session
    encumber_customer_engagement ensure_balance_row enforce_and_record_spend apply_delta post_delta
    ◌+ℤ◌ ◌-ℤ◌
closed = refl

close_session_settles_example :
    (row : PaymentSession) × (find_session 5 authorized_db.sessions ≡ some row)
    × (row.user_id ≡ 1)
    × (((is_closed row.state ≡ true)
          × IsReplay any_json close row authorized_db
          × (final ≡ row)
          × (closed_db ≡ authorized_db))
        ⊎ ((is_closed row.state ≡ false)
            × (IsReleased 5 authorized_db
                ⊎ IsSettled session_codec close row later authorized_db final closed_db)))
close_session_settles_example =
    close_session_settles any_json session_codec close later authorized_db final closed_db closed

close_session_again_example :
    close_session any_json session_codec close later closed_db ≡ (ok final, closed_db)
close_session_again_example =
    close_session_again any_json (λ s. refl) session_codec close later later authorized_db final
      closed_db unreleased refl closed

operator_resolution_cases_example :
    ((mark_spend_authorization_operator_resolved 5 "auth" later authorized_db).0
      ≡ err (Rows.settlement_failed "missing_authorization"))
    ⊎ (((mark_spend_authorization_operator_resolved 5 "auth" later authorized_db).0 ≡ err conflict)
        ⊎ ((g : SpendAuthorizationGrant) × ((mark_spend_authorization_operator_resolved 5 "auth"
                later authorized_db).0
              ≡ ok g)
            × (find_grant 5 "auth"
                  (mark_spend_authorization_operator_resolved 5 "auth" later authorized_db).1.grants
                ≡ some g)
            × All
                (IsResolved 5)
                (mark_spend_authorization_operator_resolved 5 "auth" later authorized_db).1.grants))
operator_resolution_cases_example = operator_resolution_cases 5 "auth" later authorized_db

-- The successor of the grant was canceled.
abbrev canceled : SpendAuthorizationGrant
canceled = record grant {
  authorization_id = "auth-2";
  revision = 1;
  state = "canceled_unused";
  retired_at = some noon;
}

abbrev canceled_db : Db
canceled_db = record authorized_db { grants = grant ∷ canceled ∷ [] }

canceled_grant_blocks_resolution_example :
    (mark_spend_authorization_operator_resolved 5 "auth" later canceled_db).0 ≡ err conflict
canceled_grant_blocks_resolution_example =
    canceled_grant_blocks_resolution 5 "auth" later canceled_db grant canceled (grant ∷ []) [] refl
      refl refl refl

transition_state-closes_example :
    (row' : PaymentSession) × (db' : Db) × (transition_state 5 "open" "closed" later authorized_db
      ≡ (ok row', db'))
    × (row' ≡ record authorized { state = "closed"; closed_at = some later })
    × (db' ≡ record authorized_db { sessions = db'.sessions })
    × (find_session 5 db'.sessions ≡ some row')
    × ((◌≡◌ {A = ℕ} 6 5) ⊎ (find_session 6 db'.sessions ≡ find_session 6 authorized_db.sessions))
transition_state-closes_example =
    transition_state-closes 5 6 later authorized_db authorized refl (inl refl)

-- The first authorization of the claimed engagement.
abbrev authorization : Authorization
authorization = record {
  engagement_id = 5;
  engagement_name = "gateway";
  user_id = 1;
  route = claim.route;
  settlement_domain_id = "domain";
  authorization_id = "auth";
  request_id = "request";
  session_id = "";
  protocol = "job";
  max_debit_wei = 300;
  max_total_units = 10;
  not_before = noon;
  expires_at = later;
  request_digest = 1 ∷ [];
  caller_public_key = 4 ∷ [];
  revision = 0;
  predecessor_authorization_id = "";
  chain_id = 1;
  request_domain_id = "domain";
  wholesale_account_id = "acct";
  denomination = "wei";
  signed_authorization_id = "auth";
  authorization_bytes = [];
  payer = 11 ∷ [];
}

stored : find_session 5 claimed_db.sessions ≡ some (new_session 5 claim noon)
unfolding claim_wholesale_engagement claim_or_replay create_session encumber_customer_engagement
    ensure_balance_row enforce_and_record_spend apply_delta post_delta ◌+ℤ◌ ◌-ℤ◌ validate
stored = refl

release_excludes_grant_example :
    record_spend_authorization_grant authorization returned_db
    ≡ (err Rows.engagement_closed, returned_db)
release_excludes_grant_example =
    release_excludes_grant authorization later claimed_db returned_db (new_session 5 claim noon)
      stored refl refl unreleased returned

-- Without the return the same request is granted.
granted :
    (record_spend_authorization_grant authorization claimed_db).0 ≡ ok (new_grant authorization)
unfolding record_spend_authorization_grant require_authorizable require_scope require_predecessor
    replay_or_record claim_wholesale_engagement claim_or_replay create_session
    encumber_customer_engagement ensure_balance_row enforce_and_record_spend apply_delta post_delta
    ◌+ℤ◌ ◌-ℤ◌ validate
granted = refl
