-- ===== src/Sessions/Charge/Stored.antt =====
-- What the last writes of a close store (domains/sessions/service.py).
use livepeer_open_clearingho.Base.{
  ℕ, ◌≡◌, sym, ap, subst, ◌∙◌, String, Option, none, some, List, [], ◌∷◌, ◌++◌, not,
}
use livepeer_open_clearingho.Base.Time.{Datetime}
use livepeer_open_clearingho.Base.Result.{ok}
use livepeer_open_clearingho.Base.Action.{bind-eq-ok, raise_if-eq-ok, returned-eq}
use livepeer_open_clearingho.Sessions.Rows.{
  PaymentSession, PaymentSettlement, SpendAuthorizationGrant, Db, find_session, write_session,
  find_grant, or_raise,
}
use livepeer_open_clearingho.Sessions.States.{
  moved, put_session, transition_state, record_settlement,
}
use livepeer_open_clearingho.Sessions.States.Machine.{
  Step, transition_state-moves, or_raise-eq-ok, find_session-id, find_session-write,
}
use livepeer_open_clearingho.Sessions.Grants.{
  is_spendable, retired, put_grant, mark_spend_authorization_settled,
}
use livepeer_open_clearingho.Sessions.Charge.{release_unused, store_close}
use livepeer_open_clearingho.Sessions.Charge.Refund.{release_unused-Refunds}
use livepeer_open_clearingho.Billing.Rows
use livepeer_open_clearingho.Billing.Rows.{find_engagement_row}
use livepeer_open_clearingho.Billing.Releases.{Credits}
use livepeer_open_clearingho.Base.Int.{ℤ, pos, ◌-ℤ◌, ◌≤ℤ◌, int_laws}

-- The grant that a settlement retires, and the one write that it makes.
pub mark_settled-eq-ok :
    (i : ℕ) (a : String) (now : Datetime) (db : Db) (g' : SpendAuthorizationGrant) (db' : Db)
    → mark_spend_authorization_settled i a now db ≡ (ok g', db')
    → (g : SpendAuthorizationGrant) × (find_grant i a db.grants ≡ some g)
      × (g' ≡ retired g "settled" now)
      × (db' ≡ put_grant (retired g "settled" now) db)
unfolding mark_spend_authorization_settled
mark_settled-eq-ok i a now db g' db' h =
    let (g, db₁, found, h₁) = bind-eq-ok (or_raise (find_grant i a db.grants) _) _ db h in
    let there = or_raise-eq-ok (find_grant i a db.grants) _ db db₁ found in
    let spendable = raise_if-eq-ok (not (is_spendable g.state)) _ _ db₁ h₁ in
    let stored = returned-eq spendable.1 in
    (
      g,
      there.0,
      sym (stored.0),
      sym (stored.1) ∙ ap (put_grant (retired g "settled" now)) (there.1),
    )

abbrev pub with_event : PaymentSettlement → Db → Db
with_event event db = record db { settlements = db.settlements ++ event ∷ [] }

-- The tables after the writes.
abbrev pub written : PaymentSession → SpendAuthorizationGrant → PaymentSettlement → Db → Db
written final g event db = with_event event (put_grant g (put_session final db))

-- A close that stores its rows returns the row it was given, retires the grant, which was spendable,
-- and writes nothing else.
pub store_close-eq-ok :
    (final : PaymentSession) (a : String) (event : PaymentSettlement) (now : Datetime) (db : Db)
    (final' : PaymentSession) (db' : Db)
    → store_close final a event now db ≡ (ok final', db')
    → (final' ≡ final)
      × (g : SpendAuthorizationGrant) × (find_grant final.id a db.grants ≡ some g)
      × (db' ≡ written final (retired g "settled" now) event db)
unfolding store_close record_settlement
store_close-eq-ok final a event now db final' db' h =
    let (g', db₁, marked, h₁) =
      bind-eq-ok (mark_spend_authorization_settled final.id a now) _ (put_session final db) h in
    let (g, found, g_is, db₁_is) =
      mark_settled-eq-ok final.id a now (put_session final db) g' db₁ marked in
    let done = returned-eq h₁ in
    (sym (done.0), g, found, sym (done.1) ∙ ap (with_event event) db₁_is)

pub find_session-write_at :
    (i : ℕ) (s : PaymentSession) (xs : List PaymentSession) (t : PaymentSession)
    → s.id ≡ i
    → find_session i xs ≡ some t
    → find_session i (write_session s xs) ≡ some s
find_session-write_at i s xs t e =
    subst (λ j. find_session j xs ≡ some t → find_session j (write_session s xs) ≡ some s) e
      (find_session-write s xs t)

-- The last writes of a close, after the transition and the release.
pub stored_close :
    (final : PaymentSession) (a : String) (event : PaymentSettlement) (now : Datetime)
    (closed t : PaymentSession) (db db₁ db₂ : Db) (final' : PaymentSession) (db' : Db)
    → final.id ≡ closed.id
    → find_session closed.id db.sessions ≡ some t
    → db₁ ≡ put_session closed db
    → db₂ ≡ record db₁ { billing = db₂.billing }
    → store_close final a event now db₂ ≡ (ok final', db')
    → (final' ≡ final)
      × (find_session closed.id db'.sessions ≡ some final)
      × (db'.billing ≡ db₂.billing)
      × (db'.settlements ≡ db.settlements ++ event ∷ [])
stored_close final a event now closed t db db₁ db₂ final' db' same found at₁ at₂ h =
    let (final_is, g, granted, db'_is) = store_close-eq-ok final a event now db₂ final' db' h in
    let sessions₂ : db₂.sessions ≡ write_session closed db.sessions =
      ap (λ d. d.sessions) at₂ ∙ ap (λ d. d.sessions) at₁ in
    (
      final_is,
      ap (λ d. find_session closed.id d.sessions) db'_is
          ∙ find_session-write_at closed.id final db₂.sessions closed same (
              ap (find_session closed.id) sessions₂
              ∙ find_session-write closed db.sessions t found),
      ap (λ d. d.billing) db'_is,
      ap (λ d. d.settlements) db'_is
          ∙ ap (λ x. x ++ event ∷ []) (ap (λ d. d.settlements) at₂ ∙ ap (λ d. d.settlements) at₁),
    )

pub same_some : {A : Type 0} {o : Option A} {a b : A} → o ≡ some a → o ≡ some b → a ≡ b
same_some h g = cc

pub refund_within : (hold : ℤ) (billed : ℕ) → pos billed ≤ℤ hold → pos 0 ≤ℤ hold -ℤ pos billed
refund_within hold billed h = omega int_laws

-- A close: the engagement was not closed; the row that is returned is the one that is stored; the
-- refund is credited; the event is the last one; and no other balance has changed.
pub record IsClosed (row : PaymentSession) (refund_wei : ℤ) (last : PaymentSession)
    (event : PaymentSettlement) (db : Db) (final : PaymentSession) (db' : Db) : Type 0 where
  pub step : Step row.state "closed"
  pub final_is : final ≡ last
  pub found : find_session row.id db'.sessions ≡ some final
  pub refund : Credits row.user_id refund_wei db.billing db'.billing
  pub settlements : db'.settlements ≡ db.settlements ++ event ∷ []

pub stored-IsClosed :
    (i : ℕ) (row : PaymentSession) (x : ℤ) (set : PaymentSession → PaymentSession) (a : String)
    (event : PaymentSettlement) (now : Datetime) (db : Db) (closed : PaymentSession) (db₁ db₂ : Db)
    (final : PaymentSession) (db' : Db)
    → find_session i db.sessions ≡ some row
    → pos 0 ≤ℤ x
    → find_engagement_row row.id Rows.engagement_release db.billing.ledger ≡ none
    → transition_state i row.state "closed" now db ≡ (ok closed, db₁)
    → release_unused row x db₁ ≡ (ok tt, db₂)
    → (set closed).id ≡ closed.id
    → store_close (set closed) a event now db₂ ≡ (ok final, db')
    → IsClosed row x (set (moved row "closed" now)) event db final db'
stored-IsClosed i row x set a event now db closed db₁ db₂ final db' found positive fresh transition
      released same h =
    let (before, found', at, step, closed_is, at₁) =
      transition_state-moves i row.state "closed" now db closed db₁ transition in
    let row_is : before ≡ row = same_some found' found in
    let moved_is : closed ≡ moved row "closed" now =
      closed_is ∙ ap (λ r. moved r "closed" now) row_is in
    let same_billing : db₁.billing ≡ db.billing = ap (λ d. d.billing) at₁ in
    let (refunded, at₂) =
      release_unused-Refunds row x db₁ db₂ positive
        (ap (λ b. find_engagement_row row.id Rows.engagement_release b.ledger) same_billing ∙ fresh)
        released in
    let closed_id : closed.id ≡ row.id = ap (λ r. r.id) moved_is in
    let there : find_session closed.id db.sessions ≡ some row =
      ap (λ k. find_session k db.sessions) (closed_id ∙ find_session-id i db.sessions row found)
      ∙ found in
    let (final_is, stored, kept, last) =
      stored_close (set closed) a event now closed row db db₁ db₂ final db' same there at₁ at₂ h in
    record {
      step = step;
      final_is = final_is ∙ ap set moved_is;
      found =
          ap (λ k. find_session k db'.sessions) (sym closed_id) ∙ (stored ∙ ap some (sym final_is));
      refund =
          subst (λ b. Credits row.user_id x b db'.billing) same_billing
            (subst (λ b. Credits row.user_id x db₁.billing b) (sym kept) refunded);
      settlements = last;
    }
