-- ===== src/Billing/Releases.antt =====
-- The first release of an engagement (domains/billing/service.py) moves exactly its amount.
use livepeer_open_clearingho.Base.{ℕ, ◌≡◌, none, ◌==◌, if◌then◌else◌}
use livepeer_open_clearingho.Base.Int.{ℤ, ◌+ℤ◌, neg}
use livepeer_open_clearingho.Base.Time.{Datetime}
use livepeer_open_clearingho.Base.Result.{ok}
use livepeer_open_clearingho.Base.Action.{◌>>◌, bind-eq-ok}
use livepeer_open_clearingho.Billing.Rows
use livepeer_open_clearingho.Billing.Rows.{CreditBalance, Reason, Db, Error, find_engagement_row}
use livepeer_open_clearingho.Billing.Ledger.{apply_delta}
use livepeer_open_clearingho.Billing.Spend.{enforce_and_record_spend}
use livepeer_open_clearingho.Billing.Engagements.{
  for_engagement, release_customer_engagement, encumber_customer_engagement,
}
use livepeer_open_clearingho.Billing.Consistency.Views.{balance_of}
use livepeer_open_clearingho.Billing.Consistency.Delta.{ensured_db, ensure-eq, ensure-Ensured}
use livepeer_open_clearingho.Billing.Transfers.{apply_delta-Moves, spend-balances}

-- An amount is added to one user's balance, and every other balance stays.
abbrev pub Credits : ℕ → ℤ → Db → Db → Type 0
Credits u x db db' =
    (v : ℕ) → balance_of v db' ≡ (if v == u then balance_of u db +ℤ x else balance_of v db)

delta-Credits :
    (u : ℕ) (x : ℤ) (r : Reason) (e : ℕ) (db : Db) (b : CreditBalance) (db' : Db)
    → apply_delta u x r (for_engagement e) db ≡ (ok b, db')
    → Credits u x db db'
delta-Credits u x r e db b db' h =
    (rw h at (apply_delta-Moves u x r (for_engagement e) db)).1.amounts

-- The same after the balance row was made sure of.
ensured-Credits :
    (u : ℕ) (x : ℤ) (db db' : Db) → Credits u x (ensured_db u db) db' → Credits u x db db'
ensured-Credits u x db db' c =
    λ v. rw (← (ensure-Ensured u db).amounts v, ← (ensure-Ensured u db).amounts u) (c v)

release_fresh :
    (u e : ℕ) (x : ℤ) (db : Db)
    → find_engagement_row e Rows.engagement_release db.ledger ≡ none
    → release_customer_engagement u e x db
      ≡ apply_delta u x Rows.engagement_release (for_engagement e) (ensured_db u db)
unfolding release_customer_engagement
release_fresh u e x db fresh = rw (ensure-eq u db, (ensure-Ensured u db).ledger_kept, fresh)

encumber_fresh :
    (u e : ℕ) (x : ℤ) (now : Datetime) (p : ℕ) (cap_wei : ℤ) (db : Db)
    → find_engagement_row e Rows.engagement_encumbrance db.ledger ≡ none
    → encumber_customer_engagement u e x now p cap_wei db
      ≡ (do
        enforce_and_record_spend u x now p cap_wei
        apply_delta u (neg x) Rows.engagement_encumbrance (for_engagement e))
          (ensured_db u db)
unfolding encumber_customer_engagement
encumber_fresh u e x now p cap_wei db fresh =
    rw (ensure-eq u db, (ensure-Ensured u db).ledger_kept, fresh)

-- The first release of an engagement, if it returns, credits exactly its amount.
pub release-Credits :
    (u e : ℕ) (x : ℤ) (db : Db) (b : CreditBalance) (db' : Db)
    → find_engagement_row e Rows.engagement_release db.ledger ≡ none
    → release_customer_engagement u e x db ≡ (ok b, db')
    → Credits u x db db'
release-Credits u e x db b db' fresh h = ensured-Credits u x db db' (
    delta-Credits u x Rows.engagement_release e (ensured_db u db) b db'
      (rw (release_fresh u e x db fresh) at h))

-- The first encumbrance of an engagement, if it returns, debits exactly its amount.
pub encumber-Credits :
    (u e : ℕ) (x : ℤ) (now : Datetime) (p : ℕ) (cap_wei : ℤ) (db : Db) (b : CreditBalance)
    (db' : Db)
    → find_engagement_row e Rows.engagement_encumbrance db.ledger ≡ none
    → encumber_customer_engagement u e x now p cap_wei db ≡ (ok b, db')
    → Credits u (neg x) db db'
encumber-Credits u e x now p cap_wei db b db' fresh h =
    let en = ensured_db u db in
    let (a, db₁, spent, h₁) =
      bind-eq-ok (enforce_and_record_spend u x now p cap_wei) _ en
        (rw (encumber_fresh u e x now p cap_wei db fresh) at h) in
    let kept = (spend-balances u x now p cap_wei en).1 in
    ensured-Credits u (neg x) db db' (
      same_balances u (neg x) en db₁ db' (rw spent at kept)
        (delta-Credits u (neg x) Rows.engagement_encumbrance e db₁ b db' h₁))
  where
    same_balances :
        (u : ℕ) (x : ℤ) (db db₁ db' : Db)
        → db₁.balances ≡ db.balances
        → Credits u x db₁ db'
        → Credits u x db db'
    same_balances u x db db₁ db' same c = λ v. rw same at (c v)
