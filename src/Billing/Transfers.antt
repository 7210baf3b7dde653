-- ===== src/Billing/Transfers.antt =====
-- What the charges, refunds and releases of domains/billing/service.py do to the balances.
use livepeer_open_clearingho.Base.{
  ℕ, ◌≡◌, ◌∙◌, inl, inr, refl, ap, List, [], ◌∷◌, ◌++◌, arith, Bool-cases,
}
use livepeer_open_clearingho.Base.Int.{ℤ, pos, ◌+ℤ◌, ◌≤ℤ◌, ◌<ℤ◌, neg, ltb_ℤ, int_laws}
use livepeer_open_clearingho.Base.Time.{Datetime}
use livepeer_open_clearingho.Base.Result.{Result, ok, err}
use livepeer_open_clearingho.Base.Action.{continue}
use livepeer_open_clearingho.Billing.Rows
use livepeer_open_clearingho.Billing.Rows.{
  CreditBalance, CreditLedger, Reason, Related, Error, Db, Billing, find_balance,
}
use livepeer_open_clearingho.Billing.Ledger.{apply_delta, post_delta}
use livepeer_open_clearingho.Billing.Spend.{enforce_and_record_spend, get_or_create_spend_window}
use livepeer_open_clearingho.Billing.Charges.{charge_payment, refund_payment, for_payment}
use livepeer_open_clearingho.Billing.Consistency.Views.{balance_of}
use livepeer_open_clearingho.Billing.Consistency.Delta.{
  Posted, ensure-Ensured, apply_delta-eq, post-Posted, entry,
}

-- What a call that moves `δ` to a user has done, by how it ended.
abbrev pub Moves : ℕ → ℤ → Reason → Related → Db → Result Error CreditBalance × Db → Type 0
Moves u δ r rel db (ok b, db') = (pos 0 ≤ℤ balance_of u db +ℤ δ) × Posted u δ r rel db db'
Moves u δ r rel db (err e, db') =
    (e ≡ Rows.insufficient_credit (balance_of u db) (neg δ))
    × (balance_of u db +ℤ δ <ℤ pos 0)
    × (db'.ledger ≡ db.ledger)
    × ((v : ℕ) → balance_of v db' ≡ balance_of v db)

-- `_apply_delta` either posts the delta (the user's balance moves by it, every other balance
-- stays, the user's version goes up by one, and the ledger gets that one row) or, exactly if the
-- balance would become negative, raises with the balance and the amount asked for and changes no
-- balance and no ledger row.
pub apply_delta-Moves :
    (u : ℕ) (δ : ℤ) (r : Reason) (rel : Related) (db : Db)
    → Moves u δ r rel db (apply_delta u δ r rel db)
unfolding post_delta
apply_delta-Moves u δ r rel db =
    let en = ensure-Ensured u db in
    rw (apply_delta-eq u δ r rel db) (elim (Bool-cases (ltb_ℤ (balance_of u db +ℤ δ) (pos 0))) [
      | inl short ↦ rw short (refl, ground arith, en.ledger_kept, en.amounts)
      | inr covered ↦ rw covered (ground arith, post-Posted u δ r rel db)
    ])

-- Recording a spend moves no money.
pub spend-balances :
    (u : ℕ) (x : ℤ) (now : Datetime) (p : ℕ) (cap : ℤ) (db : Db)
    → let db' = (enforce_and_record_spend u x now p cap db).1 in
      (db'.ledger ≡ db.ledger) × (db'.balances ≡ db.balances)
unfolding enforce_and_record_spend get_or_create_spend_window
spend-balances u x now p cap db = ground arith

Moves-after :
    (u : ℕ) (δ : ℤ) (r : Reason) (rel : Related) (db db₁ db' : Db) (b : CreditBalance)
    → db₁.ledger ≡ db.ledger
    → db₁.balances ≡ db.balances
    → Moves u δ r rel db₁ (ok b, db')
    → Moves u δ r rel db (ok b, db')
Moves-after u δ r rel db db₁ db' b l bal (covered, posted) = (
  rw bal at covered,
  record {
    amounts = λ v. rw bal at (posted.amounts v);
    bumped = λ v. rw bal at (posted.bumped v);
    appended = rw l at posted.appended;
  },
)

-- A charge that returns has posted minus its amount.
pub charge_payment-Posted :
    (u : ℕ) (x : ℤ) (payment : ℕ) (now : Datetime) (p : ℕ) (cap : ℤ) (db : Db) (b : CreditBalance)
    → (charge_payment u x payment now p cap db).0 ≡ ok b
    → Posted u
        (neg x)
        Rows.payment_charge
        (for_payment payment)
        db
        (charge_payment u x payment now p cap db).1
unfolding charge_payment
charge_payment-Posted u x payment now p cap db b =
    let s = enforce_and_record_spend u x now p cap db in
    go s.0 s.1 (spend-balances u x now p cap db)
  where
    charged : Billing CreditBalance
    charged = apply_delta u (neg x) Rows.payment_charge (for_payment payment)

    posted :
        (db₁ : Db) (res : Result Error CreditBalance × Db)
        → (db₁.ledger ≡ db.ledger) × (db₁.balances ≡ db.balances)
        → Moves u (neg x) Rows.payment_charge (for_payment payment) db₁ res
        → res.0 ≡ ok b
        → Posted u (neg x) Rows.payment_charge (for_payment payment) db res.1
    posted db₁ (ok c, db') (l, bal) m h =
        (Moves-after u (neg x) Rows.payment_charge (for_payment payment) db db₁ db' c l bal m).1
    posted db₁ (err e, db') f m h = cc

    go :
        (r : Result Error (Unit {0})) (db₁ : Db)
        → (db₁.ledger ≡ db.ledger) × (db₁.balances ≡ db.balances)
        → (continue r (λ _. charged) db₁).0 ≡ ok b
        → Posted u
            (neg x)
            Rows.payment_charge
            (for_payment payment)
            db
            (continue r (λ _. charged) db₁).1
    go (ok t) db₁ f h =
        posted db₁ (charged db₁) f
          (apply_delta-Moves u (neg x) Rows.payment_charge (for_payment payment) db₁) h
    go (err e) db₁ f h = cc

-- From a balance that is not negative, if a charge returned, a refund of what it took succeeds and
-- restores the balance of every user; the ledger keeps both rows.
pub charge_then_refund :
    (u : ℕ) (x : ℤ) (payment : ℕ) (now : Datetime) (p : ℕ) (cap : ℤ) (db : Db) (b : CreditBalance)
    → pos 0 ≤ℤ balance_of u db
    → (charge_payment u x payment now p cap db).0 ≡ ok b
    → let db₁ = (charge_payment u x payment now p cap db).1 in
      let (res₂, db₂) = refund_payment u x payment db₁ in
      ((c : CreditBalance) × (res₂ ≡ ok c))
      × ((v : ℕ) → balance_of v db₂ ≡ balance_of v db)
      × (db₂.ledger
          ≡ (db.ledger ++ entry u (neg x) Rows.payment_charge (for_payment payment) ∷ [])
            ++ entry u x Rows.payment_refund (for_payment payment) ∷ [])
unfolding refund_payment
charge_then_refund u x payment now p cap db b enough h =
    let db₁ = (charge_payment u x payment now p cap db).1 in
    go db₁ (apply_delta u x Rows.payment_refund (for_payment payment) db₁)
      (charge_payment-Posted u x payment now p cap db b h)
      (apply_delta-Moves u x Rows.payment_refund (for_payment payment) db₁)
  where
    go :
        (db₁ : Db) (res : Result Error CreditBalance × Db)
        → Posted u (neg x) Rows.payment_charge (for_payment payment) db db₁
        → Moves u x Rows.payment_refund (for_payment payment) db₁ res
        → ((c : CreditBalance) × (res.0 ≡ ok c))
          × ((v : ℕ) → balance_of v res.1 ≡ balance_of v db)
          × (res.1.ledger
              ≡ (db.ledger ++ entry u (neg x) Rows.payment_charge (for_payment payment) ∷ [])
                ++ entry u x Rows.payment_refund (for_payment payment) ∷ [])
    go db₁ (ok c, db₂) charge (covered, refund) = (
      (c, refl),
      (λ v. grind (int_laws, charge.amounts v, charge.amounts u, refund.amounts v)),
      refund.appended
          ∙ ap
              (λ (l : List CreditLedger).
                l ++ entry u x Rows.payment_refund (for_payment payment) ∷ [])
              charge.appended,
    )
    go db₁ (err e, db₂) charge (why, short, l, same) = absurd (grind (int_laws, charge.amounts u))
