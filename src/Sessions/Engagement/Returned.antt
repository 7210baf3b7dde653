-- ===== src/Sessions/Engagement/Returned.antt =====
-- The return of a hold that was claimed and never authorized (domains/sessions/service.py,
-- `release_unauthorized_engagement`).
use livepeer_open_clearingho.Base.{
  ℕ, ◌≡◌, inl, inr, refl, sym, ap, subst, ◌∙◌, Option, none, some, Bool, true, false, not, ◌||◌,
  str_eq, eq_iff, is_some, arith, Bool-cases,
}
use livepeer_open_clearingho.Base.Int.{ℤ, pos, ◌+ℤ◌, +ℤ_assoc}
use livepeer_open_clearingho.Base.Time.{Datetime}
use livepeer_open_clearingho.Base.Result.{ok}
use livepeer_open_clearingho.Base.Action.{bind-eq-ok, returned-eq}
use livepeer_open_clearingho.Billing.Rows
use livepeer_open_clearingho.Billing.Rows.{find_engagement_row}
use livepeer_open_clearingho.Billing.Engagements.{release_customer_engagement}
use livepeer_open_clearingho.Billing.Consistency.Views.{balance_of}
use livepeer_open_clearingho.Billing.Releases.{Credits, release-Credits}
use livepeer_open_clearingho.Sessions.Rows.{PaymentSession, Db, find_session, billing}
use livepeer_open_clearingho.Sessions.States.{put_session, is_open}
use livepeer_open_clearingho.Sessions.States.Machine.{find_session-id}
use livepeer_open_clearingho.Sessions.Charge.Refund.{billing-eq-ok}
use livepeer_open_clearingho.Sessions.Charge.Stored.{find_session-write_at}
use livepeer_open_clearingho.Sessions.Engagement.{
  released_session, with_hold, releasable, release_hold, release_unauthorized_engagement,
}

-- Two movements of one user's balance are one movement of the sum.
pub Credits-then :
    (u : ℕ) (x y : ℤ) (a b c : Rows.Db) → Credits u x a b → Credits u y b c → Credits u (x +ℤ y) a c
Credits-then u x y a b c first second v =
    ground (arith, first v, first u, second v, +ℤ_assoc (balance_of u a) x y)

-- An engagement that may be released, with its hold.
abbrev pub IsHeld : PaymentSession → ℤ → Type 0
IsHeld s hold =
    (s.accounting_mode ≡ "wholesale_account")
    × (s.state ≡ "open")
    × (s.authorization_id ≡ none)
    × (s.customer_max_debit_wei ≡ some hold)

no_text : {A : Type 0} (o : Option A) → is_some o ≡ false → o ≡ none
no_text none h = refl
no_text (some a) h = cc

releasable-IsHeld :
    (o : Option PaymentSession) (s : PaymentSession) (hold : ℤ)
    → releasable o ≡ some (s, hold)
    → (o ≡ some s) × IsHeld s hold
releasable-IsHeld none s hold h = cc
releasable-IsHeld (some t) s hold h =
    elim (Bool-cases (
      not (str_eq t.accounting_mode "wholesale_account")
      || not (is_open t.state)
      || is_some t.authorization_id)) [
        | inl kept ↦ cc (rw kept at h)
        | inr free ↦
            let (t_is, held) = with_hold-eq t s hold t.customer_max_debit_wei (rw free at h) in
            let (mode, state, unauthorized) = passed _ _ _ free in
            (
              ap some t_is,
              subst (λ r. IsHeld r hold) t_is
                  (
                    (eq_iff t.accounting_mode "wholesale_account").0 mode,
                    (eq_iff t.state "open").0 state,
                    no_text t.authorization_id unauthorized,
                    held,
                  ),
            )
      ]
  where
    with_hold-eq :
        (t s : PaymentSession) (hold : ℤ) (o : Option ℤ)
        → with_hold t o ≡ some (s, hold)
        → (t ≡ s) × (o ≡ some hold)
    with_hold-eq t s hold none h = cc
    with_hold-eq t s hold (some a) h = (cc, cc)

    passed : (a b c : Bool) → not a || not b || c ≡ false → (a ≡ true) × (b ≡ true) × (c ≡ false)
    passed a b c h = (ground arith, ground arith, ground arith)

-- The row that the return must leave: closed as not admitted, with nothing used and nothing charged.
abbrev pub not_admitted : PaymentSession → Datetime → PaymentSession
not_admitted s now = record s {
  state = "closed";
  closed_at = some now;
  actual_units = some 0;
  billed_value_wei = some (pos 0);
  outcome = some "NOT_ADMITTED";
}

-- What the return of a hold has done.
abbrev pub IsReturned : ℕ → Datetime → Db → Db → Type 0
IsReturned i now db db' =
    (s : PaymentSession) × (hold : ℤ) × (find_session i db.sessions ≡ some s)
    × IsHeld s hold
    × Credits s.user_id hold db.billing db'.billing
    × (db' ≡ put_session (released_session s now) (record db { billing = db'.billing }))
    × (find_session i db'.sessions ≡ some (not_admitted s now))

released :
    (i : ℕ) (now : Datetime) (o : Option (PaymentSession × ℤ)) (db db' : Db)
    → find_engagement_row i Rows.engagement_release db.billing.ledger ≡ none
    → releasable (find_session i db.sessions) ≡ o
    → release_hold o now db ≡ (ok true, db')
    → IsReturned i now db db'
released i now none db db' fresh h g = cc
released i now (some (s, hold)) db db' fresh h g =
    let (found, held) = releasable-IsHeld (find_session i db.sessions) s hold h in
    let s_id = find_session-id i db.sessions s found in
    let (b, db₁, moved, g₁) =
      bind-eq-ok (billing (release_customer_engagement s.user_id s.id hold)) _ db g in
    let (b', credited, stored) =
      billing-eq-ok (release_customer_engagement s.user_id s.id hold) db db₁ moved in
    let db'_is : db' ≡ put_session (released_session s now) (record db { billing = b' }) =
      sym ((returned-eq g₁).1) ∙ ap (put_session (released_session s now)) stored in
    let same : db'.billing ≡ b' = ap (λ d. d.billing) db'_is in
    (
      s,
      hold,
      found,
      held,
      subst (Credits s.user_id hold db.billing) (sym same) (
          release-Credits s.user_id s.id hold db.billing b b'
            (ap (λ j. find_engagement_row j Rows.engagement_release db.billing.ledger) s_id ∙ fresh)
            credited),
      db'_is
          ∙ ap (λ x. put_session (released_session s now) (record db { billing = x })) (sym same),
      ap (λ d. find_session i d.sessions) db'_is
          ∙ find_session-write_at i (not_admitted s now) db.sessions s s_id found,
    )

-- The return of a hold, if it returns true and none was released of the engagement before: the
-- engagement was open and no authorization was recorded of it; its user is credited exactly the hold,
-- and no other balance changes; its row is stored as closed now, with the outcome NOT_ADMITTED, no
-- units and no charge, and otherwise unchanged; and only billing's tables and that row are written.
pub release_unauthorized-IsReturned :
    (i : ℕ) (now : Datetime) (db db' : Db)
    → find_engagement_row i Rows.engagement_release db.billing.ledger ≡ none
    → release_unauthorized_engagement i now db ≡ (ok true, db')
    → IsReturned i now db db'
unfolding release_unauthorized_engagement
release_unauthorized-IsReturned i now db db' fresh h =
    released i now (releasable (find_session i db.sessions)) db db' fresh refl h
