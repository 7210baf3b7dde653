-- ===== src/Sessions/Charge/Refund.antt =====
-- The customer's charge and the release of the unused hold (domains/sessions/service.py).
use livepeer_open_clearingho.Base.{
  ℕ, ◌≡◌, inl, inr, refl, sym, ap, ◌∙◌, none, some, Bool-cases, arith, subst,
}
use livepeer_open_clearingho.Base.Int.{ℤ, pos, ◌+ℤ◌, ◌≤ℤ◌, leb_ℤ, ltb_ℤ, eq_of_parts, +ℤ_zero}
use livepeer_open_clearingho.Base.Result.{Result, ok, err}
use livepeer_open_clearingho.Base.Action.{
  Action, lift, lift-eq-ok, bind-eq-ok, raise_if-eq-ok, returned-eq,
}
use livepeer_open_clearingho.Billing.Rows
use livepeer_open_clearingho.Billing.Rows.{find_engagement_row}
use livepeer_open_clearingho.Billing.Engagements.{release_customer_engagement}
use livepeer_open_clearingho.Billing.Pricing.{
  CustomerPricingSnapshot, validate, calculate_customer_charge, PricingError,
}
use livepeer_open_clearingho.Billing.Consistency.Views.{balance_of}
use livepeer_open_clearingho.Billing.Releases.{Credits, release-Credits}
use livepeer_open_clearingho.Sessions.Rows.{
  PaymentSession, Db, Error, billing, in_billing, or_raise,
}
use livepeer_open_clearingho.Sessions.States.Machine.{or_raise-eq-ok}
use livepeer_open_clearingho.Sessions.Charge.{pricing_result, customer_charge, release_unused}

pricing_result-eq-ok :
    {A : Type 0} (r : Result PricingError A) {a : A} → pricing_result r ≡ ok a → r ≡ ok a
pricing_result-eq-ok (ok b) h = cc
pricing_result-eq-ok (err e) h = cc

-- The charge is the price of the recorded policy, which is valid, and is within the hold.
abbrev pub IsCharge : PaymentSession → ℕ → ℕ → ℤ × ℕ → Type 0
IsCharge row units debit (hold, billed) =
    (pricing : CustomerPricingSnapshot) × (row.customer_pricing ≡ some pricing)
    × (row.customer_max_debit_wei ≡ some hold)
    × (validate pricing ≡ ok tt)
    × (calculate_customer_charge pricing (pos units) (pos debit) ≡ ok billed)
    × (pos billed ≤ℤ hold)

pub customer_charge-IsCharge :
    (row : PaymentSession) (units debit : ℕ) (db : Db) (charge : ℤ × ℕ) (db' : Db)
    → customer_charge row units debit db ≡ (ok charge, db')
    → IsCharge row units debit charge × (db' ≡ db)
unfolding customer_charge
customer_charge-IsCharge row units debit db charge db' h =
    let (pricing, db₁, p, h₁) = bind-eq-ok (or_raise row.customer_pricing _) _ db h in
    let (hold, db₂, m, h₂) = bind-eq-ok (or_raise row.customer_max_debit_wei _) _ db₁ h₁ in
    let (u, db₃, v, h₃) = bind-eq-ok (lift (pricing_result (validate pricing))) _ db₂ h₂ in
    let (billed, db₄, c, h₄) =
      bind-eq-ok (lift (pricing_result (calculate_customer_charge pricing (pos units) (pos debit))))
        _ db₃ h₃ in
    let within = raise_if-eq-ok (ltb_ℤ hold (pos billed)) _ _ db₄ h₄ in
    let done = returned-eq within.1 in
    let p' = or_raise-eq-ok row.customer_pricing _ db db₁ p in
    let m' = or_raise-eq-ok row.customer_max_debit_wei _ db₁ db₂ m in
    let v' = lift-eq-ok _ db₂ db₃ v in
    let c' = lift-eq-ok _ db₃ db₄ c in
    (
      subst (IsCharge row units debit) (done.0) (
        pricing,
        p'.0,
        m'.0,
        pricing_result-eq-ok _ (v'.0),
        pricing_result-eq-ok _ (c'.0),
        ground (arith, within.0),
      ),
      sym (done.1) ∙ (c'.1 ∙ (v'.1 ∙ (m'.1 ∙ p'.1))),
    )

pub billing-eq-ok :
    {A : Type 0} (m : Action Rows.Error Rows.Db A) (db db' : Db) {a : A}
    → billing m db ≡ (ok a, db')
    → (b : Rows.Db) × (m db.billing ≡ (ok a, b)) × (db' ≡ record db { billing = b })
billing-eq-ok {A = A} m db db' {a} h = run (m db.billing) h
  where
    run :
        (r : Result Rows.Error A × Rows.Db)
        → ◌≡◌ {A = Result Error A × Db} (in_billing r.0, record db { billing = r.1 }) (ok a, db')
        → (b : Rows.Db) × (r ≡ (ok a, b)) × (db' ≡ record db { billing = b })
    run (ok x, b) h = let e = returned-eq h in (b, ap (λ y. (ok y, b)) (e.0), sym (e.1))
    run (err e, b) h = cc

-- The refund of the engagement's user, and nothing outside the billing tables.
abbrev pub Refunds : PaymentSession → ℤ → Db → Db → Type 0
Refunds row x db db' =
    Credits row.user_id x db.billing db'.billing × (db' ≡ record db { billing = db'.billing })

no_amount-Credits : (u : ℕ) (x : ℤ) (db : Rows.Db) → x ≡ pos 0 → Credits u x db db
no_amount-Credits u x db h v =
    ground (arith, ap (λ y. balance_of u db +ℤ y) h, +ℤ_zero (balance_of u db))

-- Releasing an unused hold that is not negative, when none was released before, refunds exactly it.
pub release_unused-Refunds :
    (row : PaymentSession) (x : ℤ) (db db' : Db)
    → pos 0 ≤ℤ x
    → find_engagement_row row.id Rows.engagement_release db.billing.ledger ≡ none
    → release_unused row x db ≡ (ok tt, db')
    → Refunds row x db db'
unfolding release_unused
release_unused-Refunds row x db db' positive fresh h = elim (Bool-cases (leb_ℤ x (pos 0))) [
  | inl empty ↦
      let same = returned-eq (rw empty at h) in
      subst (Refunds row x db) (same.1) (
        no_amount-Credits row.user_id x db.billing (ground (arith, empty, eq_of_parts x (pos 0))),
        refl,
      )
  | inr some_left ↦
      let (balance, mid, released, ended) =
        bind-eq-ok (billing (release_customer_engagement row.user_id row.id x)) _ db
          (rw some_left at h) in
      let (b, moved, stored) =
        billing-eq-ok (release_customer_engagement row.user_id row.id x) db mid released in
      subst (Refunds row x db) ((returned-eq ended).1) (
        subst (Refunds row x db) (sym stored)
          (release-Credits row.user_id row.id x db.billing balance b fresh moved, refl))
]
