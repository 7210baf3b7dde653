-- ===== src/Sessions/Grants/Record/Exclusive.antt =====
-- A released engagement is not authorized afterwards (domains/sessions/service.py).
use livepeer_open_clearingho.Base.{◌≡◌, refl, sym, ap, ◌∙◌, Option, none, some, true, ◌==◌, arith}
use livepeer_open_clearingho.Base.Time.{Datetime}
use livepeer_open_clearingho.Base.Result.{ok, err}
use livepeer_open_clearingho.Billing.Rows as BillingRows
use livepeer_open_clearingho.Billing.Rows.{find_engagement_row}
use livepeer_open_clearingho.Sessions.Rows
use livepeer_open_clearingho.Sessions.Rows.{PaymentSession, Db, find_session, write_session}
use livepeer_open_clearingho.Sessions.States.Machine.{find_session-id, find_session-write}
use livepeer_open_clearingho.Sessions.Engagement.{released_session, release_unauthorized_engagement}
use livepeer_open_clearingho.Sessions.Engagement.Returned.{release_unauthorized-IsReturned}
use livepeer_open_clearingho.Sessions.Grants.Record.{
  Authorization, require_authorizable, record_spend_authorization_grant,
}

closed_refuses :
    (a : Authorization) (db : Db) (s : PaymentSession)
    → find_session a.engagement_id db.sessions ≡ some s
    → s.user_id ≡ a.user_id
    → s.accounting_mode ≡ "wholesale_account"
    → s.state ≡ "closed"
    → a.revision ≡ 0
    → record_spend_authorization_grant a db ≡ (err Rows.engagement_closed, db)
unfolding record_spend_authorization_grant require_authorizable
closed_refuses a db s found owner mode closed first = rw (found, own, mode, first, closed)
  where
    own : s.user_id == a.user_id ≡ true
    own = ground (arith, owner)

-- A hold that was returned is not spent: after the return of a hold that returned true, of an
-- engagement of which none was released before, the recording of a first authorization by its user
-- raises that the engagement is closed and changes no table.
pub release_excludes_grant :
    (a : Authorization) (now : Datetime) (db db' : Db) (s : PaymentSession)
    → find_session a.engagement_id db.sessions ≡ some s
    → s.user_id ≡ a.user_id
    → a.revision ≡ 0
    → find_engagement_row a.engagement_id BillingRows.engagement_release db.billing.ledger ≡ none
    → release_unauthorized_engagement a.engagement_id now db ≡ (ok true, db')
    → record_spend_authorization_grant a db' ≡ (err Rows.engagement_closed, db')
release_excludes_grant a now db db' s found owner first fresh released =
    let (t, hold, found', held, credited, written, closed) =
      release_unauthorized-IsReturned a.engagement_id now db db' fresh released in
    let t_is : t ≡ s = one found' found in
    let t_id = find_session-id a.engagement_id db.sessions t found' in
    closed_refuses a db' (released_session t now)
      (ap (λ d. find_session a.engagement_id d.sessions) written
        ∙ (ap (λ i. find_session i (write_session (released_session t now) db.sessions)) (sym t_id)
            ∙ find_session-write (released_session t now) db.sessions t
                (ap (λ i. find_session i db.sessions) t_id ∙ found')))
      (ap (λ (r : PaymentSession). r.user_id) t_is ∙ owner) (held.0) refl first
  where
    one : {A : Type 0} {o : Option A} {x y : A} → o ≡ some x → o ≡ some y → x ≡ y
    one h g = cc
