-- ===== src/Jobs/Settle/Once.antt =====
-- A job is settled at most once (domains/jobs/service.py, `settle_job`).
use livepeer_open_clearingho.Base.{ℕ, ◌≡◌, sym, ap, ◌∙◌, Option, none, some, arith}
use livepeer_open_clearingho.Base.Time.{Datetime}
use livepeer_open_clearingho.Base.Result.{ok, err}
use livepeer_open_clearingho.Billing.Rows as BillingRows
use livepeer_open_clearingho.Billing.Rows.{find_engagement_row}
use livepeer_open_clearingho.Settlement.Envelope.{Codec}
use livepeer_open_clearingho.Sessions.Rows
use livepeer_open_clearingho.Sessions.Rows.{PaymentSession, Db, find_session}
use livepeer_open_clearingho.Sessions.States.Machine.{find_session-id}
use livepeer_open_clearingho.Jobs.Settle.{SettleJob, owned_by, open_job_row, settle_job}
use livepeer_open_clearingho.Jobs.Settle.Evidence.{settle_job_settles}

closed_job_raises :
    (codec : Codec) (request : SettleJob) (now : Datetime) (db : Db) (row : PaymentSession)
    → owned_by request.user_id (find_session request.job_id db.sessions) ≡ some row
    → row.state ≡ "closed"
    → settle_job codec request now db ≡ (err (Rows.job_already_settled "closed"), db)
unfolding settle_job open_job_row
closed_job_raises codec request now db row owned closed = rw (owned, closed)

pub owned_is :
    (u : ℕ) (s : PaymentSession) (o : Option PaymentSession)
    → o ≡ some s
    → s.user_id ≡ u
    → owned_by u o ≡ some s
owned_is u s o found owner = rw found (ground (arith, owner))

-- After a settlement that returns, of a job of which no hold was released before, every further
-- settlement of the job by its owner, whatever its evidence, raises that the job is settled and
-- changes no table.
pub settle_job_once :
    (codec : Codec) (request again : SettleJob) (now later : Datetime) (db : Db)
    (final : PaymentSession) (db' : Db)
    → find_engagement_row request.job_id BillingRows.engagement_release db.billing.ledger ≡ none
    → settle_job codec request now db ≡ (ok final, db')
    → again.job_id ≡ request.job_id
    → again.user_id ≡ request.user_id
    → settle_job codec again later db' ≡ (err (Rows.job_already_settled "closed"), db')
settle_job_once codec request again now later db final db' fresh h same_job same_user =
    let settled = settle_job_settles codec request now db final db' fresh h in
    let row_id = find_session-id request.job_id db.sessions settled.row (settled.job.0) in
    let found : find_session again.job_id db'.sessions ≡ some final =
      ap (λ i. find_session i db'.sessions) (same_job ∙ sym row_id) ∙ settled.closed.found in
    let owner : final.user_id ≡ again.user_id =
      ap (λ (r : PaymentSession). r.user_id) settled.closed.final_is
      ∙ (settled.job.1 ∙ sym same_user) in
    closed_job_raises codec again later db' final (owned_is again.user_id final _ found owner)
      (ap (λ (r : PaymentSession). r.state) settled.closed.final_is)
