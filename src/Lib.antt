-- ===== src/Lib.antt =====
-- The money core of the Livepeer open clearinghouse (src/livepeer_open_clearinghouse): retail
-- credit, wholesale funding, and the verification of broker-signed settlements.
--
-- Billing (domains/billing) keeps a balance and an append-only ledger for each user, spend windows
-- with a cap, top-ups, and per-user configuration. Wholesale funding (domains/wholesale) keeps the
-- accounts that the clearinghouse holds with its payees, one exposure budget, and the fundings that
-- are claimed, minted and acknowledged. Settlement verification
-- (providers/settlement_verification.py) decides which broker evidence may move money. The services
-- for sessions and jobs (domains/sessions, domains/jobs) call all three: an engagement claims a hold,
-- is granted spend authorizations, and ends with a signed settlement, which charges and refunds.
-- The endpoints that create one claim an idempotency key first (domains/payments).
--
-- Base: the shared types. Base.Action is the monad of stateful code that may raise: a raise keeps
--   the state reached so far, as a session does until its caller rolls it back. Base.Result is
--   fallible code without state. Base.Int has signed integers over the native numbers. Base.Decimal
--   has the quotients of Python's Decimal with 28 digits and ROUND_CEILING. Base.Time has datetime
--   and time zones.
-- Billing.Rows: the tables of domains/billing/repo.py.
-- Billing.Ledger: _ensure_balance_row, _apply_delta, grant_initial_credit, topup, get_balance.
-- Billing.Spend: window_bounds_for, _get_or_create_spend_window, enforce_and_record_spend,
--   remaining_window_room.
-- Billing.Charges: charge_payment, refund_payment, encumber_for_session,
--   release_session_encumbrance.
-- Billing.Engagements: encumber_customer_engagement, increase_customer_engagement_cap,
--   release_customer_engagement.
-- Billing.Config: resolve_billing_config, upsert_billing_config, run_auto_replenish.
-- Billing.Pricing: CustomerPricingSnapshot of domains/billing/types.py, calculate_customer_charge.
-- Billing.Requests: a history of requests, each in a transaction.
-- Billing.Consistency, Billing.Transfers, Billing.SpendCaps, Billing.SpendTotals, Billing.SpendRoom,
--   Billing.Replays, Billing.Replenish and Billing.Pricing.Exact hold the theorems on these.
-- Wholesale.Rows: the tables and values of domains/wholesale/repo.py, domains/wholesale/types.py and
--   providers/broker_settlement.py.
-- Wholesale.Plan: admission_funding_limits, plan_account_shortfall.
-- Wholesale.Exposure: the private helpers of domains/wholesale/service.py.
-- Wholesale.Claim: claim_account_funding, plan_observed_account_shortfall.
-- Wholesale.Receipt, Wholesale.Acknowledge: record_minted_funding, acknowledge_account_funding,
--   _acknowledged_credit.
-- Wholesale.Plan.Bounds and Wholesale.Budget hold the theorems on these.
-- Settlement.Records: the fields of SettlementRecord that are read, and the expectations.
-- Settlement.Bill: _bill, _job_normative_bill.
-- Settlement.Accounting: the checks that job and session settlements share.
-- Settlement.Keys: _authorize_key.
-- Settlement.Hex, Settlement.Envelope: _verify_envelope, _canonicalize, _recover_public_key, with the
--   third-party code in a record Codec.
-- Settlement.Job: the checks of verify_job_settlement.
-- Settlement.Session, Settlement.Diagnostics: _verify_session_identity, _verify_session_accounting,
--   _verify_session_diagnostics and _parse_timestamp.
-- Settlement.Evidence: verify_session_settlement. Settlement.NonAdmission: verify_non_admission.
-- Settlement.Bill.Curve, Settlement.Accounting.Limits and the Sound modules of Settlement hold the
--   theorems on these.
-- Sessions.Rows: the tables of domains/sessions/repo.py with the billing tables beside them, and the
--   route snapshot of providers/registry_daemon/client.py.
-- Sessions.States: transition_state, record_settlement of domains/sessions/service.py.
-- Sessions.Engagement: claim_wholesale_engagement, create_session, release_unauthorized_engagement.
-- Sessions.Grants: mark_spend_authorization_settled, mark_spend_authorization_operator_resolved.
-- Sessions.Grants.Record: record_spend_authorization_grant, _require_authorizable.
-- Sessions.Charge: the charge, the refund and the last writes that close_session and settle_job
--   share.
-- Sessions.Close: close_session, _verify_close_settlement, _require_retired_successors,
--   _replay_closed_session, _infer_close_outcome.
-- Jobs.Settle: settle_job of domains/jobs/service.py.
-- Payments.Rows: the idempotency table of domains/payments/repo.py.
-- Payments.Claims: claim_create_request, complete_create_request, fail_create_request and
--   _claim_from_existing of domains/payments/service.py. claim_from takes the row that a claim read
--   beside the tables of the moment when it writes, so that other requests may come in between.
-- Payments.Upkeep: release_failed_session_preparation, expire_stale_idempotency_keys.
-- Payments.Tombstones, the children of Payments.Claims, Billing.Releases, Sessions.States.Machine,
--   Sessions.Engagement.Claims, Sessions.Engagement.Returned, Sessions.Grants.Resolved,
--   Sessions.Grants.Record.Exclusive,
--   Sessions.Charge.Refund, Sessions.Charge.Stored, the children of Sessions.Close and Jobs.Settle,
--   and Jobs.Whole hold the theorems on these.
-- Settlement.Example and Sessions.Example hold the data of the tests.
--
-- State. A table is a list of rows, a look-up by primary key finds the first row with the key, and a
-- row that is written takes the place of the one with its key. Row locks serialise the requests on
-- a row, so that a request is one step here. A uuid4 is drawn from a counter. The clock is in UTC, as
-- DefaultClock of providers/clock is; window_bounds_in has the zone as an argument. The clock, the
-- settings, the digest of hashlib.sha256, the parse of a timestamp, and the cryptography and codecs
-- of a signed envelope are arguments.
--
-- Numbers. Amounts are whole wei, as Decimal(int) builds them. Sums and differences of Decimal are
-- exact below 10 ^ 28 wei, and are taken to be so. The units and prices of the evidence are natural
-- numbers, so that the test of _bill for negative ones is not there. The quotient of a unit price is computed with
-- the rounding of 28 digits; its loop over the decimal places runs on a fuel of 56 places, which
-- the sizes that the theorem on charges asks for never exhaust.
--
-- Not modelled: the JSON of route snapshots and pricing policies that lacks a field or holds one of
-- another form; the unique and foreign keys but those of a new session; list_ledger and the response views; the ids and times of ledger rows; metrics, logs
-- and telemetry events; the breakdown and sdk_identity columns of a session; the network part of
-- wholesale funding (complete_account_funding, create_account_funding_request,
-- verify_admission_funding_readiness); the opening, rotation and reconciliation of sessions and jobs, which call the payment daemon and the brokers;
-- the deposit snapshots; the domains of usage, accounts, keys, discovery and notifications, and the
-- other providers.
pub mod Base
pub mod Billing
pub mod Wholesale
pub mod Settlement
pub mod Sessions
pub mod Jobs
pub mod Payments
