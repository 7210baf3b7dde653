-- ===== src/Jobs/Settle/Money.antt =====
-- What a settlement of a job that returns has done (domains/jobs/service.py, `settle_job`).
use livepeer_open_clearingho.Base.{
  ℕ, ◌≡◌, refl, sym, ap, subst, ◌∙◌, String, Option, none, some, List, false, not, str_eq, eq_iff,
  is_some, or_else, arith, if◌then◌else◌,
}
use livepeer_open_clearingho.Base.Int.{ℤ, pos, ◌-ℤ◌, ◌≤ℤ◌}
use livepeer_open_clearingho.Base.Time.{Datetime}
use livepeer_open_clearingho.Base.Result.{ok}
use livepeer_open_clearingho.Base.Action.{bind-eq-ok, raise_if-eq-ok, returned-eq}
use livepeer_open_clearingho.Billing.Rows
use livepeer_open_clearingho.Billing.Rows.{find_engagement_row}
use livepeer_open_clearingho.Settlement.Records.{
  Outcome, unspecified, exact, underfunded, overfunded, stopped_at_budget, topped_up, debit_failed,
  unrecognized, is_unrecognized,
}
use livepeer_open_clearingho.Sessions.Rows.{
  PaymentSession, PaymentSettlement, SpendAuthorizationGrant, Db, find_session, find_grant,
  or_raise,
}
use livepeer_open_clearingho.Sessions.States.{is_closed, transition_state}
use livepeer_open_clearingho.Sessions.States.Machine.{or_raise-eq-ok, not-false}
use livepeer_open_clearingho.Sessions.Charge.{release_unused}
use livepeer_open_clearingho.Sessions.Charge.Stored.{refund_within, IsClosed, stored-IsClosed}
use livepeer_open_clearingho.Jobs.Settle.{
  SettleJob, owned_by, open_job_row, settled_row, finish_job, outcome_name, raw_record,
}

-- The row that the settlement of a job must leave: the row before, closed now, with the units of the
-- request, the charge and the name of the outcome, and otherwise unchanged.
abbrev pub final_row : SettleJob → PaymentSession → ℕ → Outcome → Datetime → PaymentSession
final_row request row billed outcome now = record row {
  state = "closed";
  closed_at = some now;
  actual_units = some request.actual_units;
  billed_value_wei = some (pos billed);
  outcome = some (outcome_name outcome);
}

-- The number of a name in `enum SettlementOutcome`.
abbrev pub outcome_value : String → Option Outcome
outcome_value s =
    if str_eq s "SETTLEMENT_OUTCOME_UNSPECIFIED"
    then some unspecified
    else if str_eq s "EXACT"
    then some exact
    else if str_eq s "UNDERFUNDED"
    then some underfunded
    else if str_eq s "OVERFUNDED"
    then some overfunded
    else if str_eq s "STOPPED_AT_BUDGET"
    then some stopped_at_budget
    else if str_eq s "TOPPED_UP"
    then some topped_up
    else if str_eq s "DEBIT_FAILED"
    then some debit_failed
    else none

-- An outcome with a name can be read back from it.
pub outcome_value-outcome_name :
    (o : Outcome) → is_unrecognized o ≡ false → outcome_value (outcome_name o) ≡ some o
outcome_value-outcome_name unspecified h = refl
outcome_value-outcome_name exact h = refl
outcome_value-outcome_name underfunded h = refl
outcome_value-outcome_name overfunded h = refl
outcome_value-outcome_name stopped_at_budget h = refl
outcome_value-outcome_name topped_up h = refl
outcome_value-outcome_name debit_failed h = refl
outcome_value-outcome_name (unrecognized n) h = cc

-- The event that it must append.
abbrev pub close_event : SettleJob → ℕ → Outcome → Datetime → PaymentSettlement
close_event request billed outcome now = record {
  session_id = request.job_id;
  recorded_at = now;
  event_type = "close";
  actual_units = some request.actual_units;
  billed_value_wei = some (pos billed);
  outcome = some (outcome_name outcome);
  raw_record = some (raw_record request);
}

pub finish_job-IsClosed :
    (request : SettleJob) (row : PaymentSession) (hold : ℤ) (billed : ℕ) (outcome : Outcome)
    (now : Datetime) (db : Db) (final : PaymentSession) (db' : Db)
    → find_session request.job_id db.sessions ≡ some row
    → pos billed ≤ℤ hold
    → find_engagement_row row.id Rows.engagement_release db.billing.ledger ≡ none
    → finish_job request row hold billed outcome now db ≡ (ok final, db')
    → IsClosed row
        (hold -ℤ pos billed)
        (final_row request row billed outcome now)
        (close_event request billed outcome now)
        db
        final
        db'
unfolding finish_job
finish_job-IsClosed request row hold billed outcome now db final db' found within fresh h =
    let (closed, db₁, transition, h₁) =
      bind-eq-ok (transition_state request.job_id row.state "closed" now) _ db h in
    let (u, db₂, released, h₂) = bind-eq-ok (release_unused row (hold -ℤ pos billed)) _ db₁ h₁ in
    stored-IsClosed request.job_id row (hold -ℤ pos billed)
      (λ closed. settled_row closed request.actual_units billed outcome)
      (or_else row.authorization_id "") (close_event request billed outcome now) now db closed db₁
      db₂ final db' found (refund_within hold billed within) fresh transition released refl h₂

pub owned_by-eq-some :
    (u : ℕ) (found : Option PaymentSession) (row : PaymentSession)
    → owned_by u found ≡ some row
    → (found ≡ some row) × (row.user_id ≡ u)
owned_by-eq-some u none row h = cc
owned_by-eq-some u (some s) row h = ground arith

-- The job and the grant that a settlement is about.
abbrev pub IsJob : SettleJob → Db → PaymentSession × SpendAuthorizationGrant → Type 0
IsJob request db (row, grant) =
    (find_session request.job_id db.sessions ≡ some row)
    × (row.user_id ≡ request.user_id)
    × (is_closed row.state ≡ false)
    × (row.accounting_mode ≡ "wholesale_account")
    × ((authorization_id : String) × (row.authorization_id ≡ some authorization_id)
        × (find_grant request.job_id authorization_id db.grants ≡ some grant))

granted_of :
    (i : ℕ) (a : Option String) (grants : List SpendAuthorizationGrant)
    (g : SpendAuthorizationGrant)
    → (if is_some a then find_grant i (or_else a "") grants else none) ≡ some g
    → (authorization_id : String) × (a ≡ some authorization_id)
      × (find_grant i authorization_id grants ≡ some g)
granted_of i none grants g h = cc
granted_of i (some a) grants g h = (a, refl, h)

pub open_job_row-IsJob :
    (request : SettleJob) (db : Db) (opened : PaymentSession × SpendAuthorizationGrant) (db' : Db)
    → open_job_row request db ≡ (ok opened, db')
    → IsJob request db opened × (db' ≡ db)
unfolding open_job_row
open_job_row-IsJob request db opened db' h =
    let (row, db₁, found, h₁) =
      bind-eq-ok (or_raise (owned_by request.user_id (find_session request.job_id db.sessions)) _) _
        db h in
    let (there, at₁) =
      or_raise-eq-ok (owned_by request.user_id (find_session request.job_id db.sessions)) _ db db₁
        found in
    let owned =
      owned_by-eq-some request.user_id (find_session request.job_id db.sessions) row there in
    let still = raise_if-eq-ok (is_closed row.state) _ _ db₁ h₁ in
    let account =
      raise_if-eq-ok (not (str_eq row.accounting_mode "wholesale_account")) _ _ db₁ still.1 in
    let (grant, db₂, granted, h₂) =
      bind-eq-ok
        (or_raise
          (if is_some row.authorization_id
            then find_grant request.job_id (or_else row.authorization_id "") db₁.grants
            else none)
          _)
        _ db₁ account.1 in
    let (one, at₂) =
      or_raise-eq-ok
        (if is_some row.authorization_id
          then find_grant request.job_id (or_else row.authorization_id "") db₁.grants
          else none)
        _ db₁ db₂ granted in
    let done = returned-eq h₂ in
    (
      subst (IsJob request db) (done.0) (
        owned.0,
        owned.1,
        still.0,
        (eq_iff row.accounting_mode "wholesale_account").0 (not-false _ account.0),
        granted_of request.job_id row.authorization_id db.grants grant (
            grants_at at₁
              (λ gs.
                if is_some row.authorization_id
                then find_grant request.job_id (or_else row.authorization_id "") gs
                else none)
              one),
      ),
      sym (done.1) ∙ (at₂ ∙ at₁),
    )
  where
    grants_at :
        {B : Type 0} {db db₁ : Db} {b : B}
        → db₁ ≡ db
        → (f : List SpendAuthorizationGrant → B) → f db₁.grants ≡ b
        → f db.grants ≡ b
    grants_at at f e = sym (ap (λ d. f d.grants) at) ∙ e
