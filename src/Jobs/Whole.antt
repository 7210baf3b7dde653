-- ===== src/Jobs/Whole.antt =====
-- The money of an engagement from its claim (domains/sessions/service.py) to its end, which is the
-- settlement of its job (domains/jobs/service.py) or the return of its hold.
use livepeer_open_clearingho.Base.{
  ℕ, ◌≤◌, ◌≡◌, sym, ap, subst, ◌∙◌, none, some, List, [], ◌∷◌, ◌++◌, true, ◌==◌, arith,
  if◌then◌else◌,
}
use livepeer_open_clearingho.Base.Int.{ℤ, pos, neg, ◌+ℤ◌, ◌-ℤ◌, ◌≤ℤ◌, +ℤ_zero, int_laws}
use livepeer_open_clearingho.Base.Time.{Datetime}
use livepeer_open_clearingho.Base.Result.{ok}
use livepeer_open_clearingho.Billing.Rows
use livepeer_open_clearingho.Billing.Rows.{find_engagement_row}
use livepeer_open_clearingho.Billing.Consistency.Views.{balance_of}
use livepeer_open_clearingho.Billing.Releases.{Credits}
use livepeer_open_clearingho.Settlement.Envelope.{Codec}
use livepeer_open_clearingho.Sessions.Rows.{PaymentSession, Db, find_session}
use livepeer_open_clearingho.Sessions.Charge.Stored.{same_some}
use livepeer_open_clearingho.Sessions.Engagement.{
  Claim, new_session, find_claimed, claim_wholesale_engagement, release_unauthorized_engagement,
}
use livepeer_open_clearingho.Sessions.Engagement.Claims.{claimed_id, claim-IsClaimed}
use livepeer_open_clearingho.Sessions.Engagement.Returned.{
  Credits-then, release_unauthorized-IsReturned,
}
use livepeer_open_clearingho.Jobs.Settle.{SettleJob, settle_job}
use livepeer_open_clearingho.Jobs.Settle.Evidence.{settle_job_settles}

find_session-append :
    (i : ℕ) (xs : List PaymentSession) (s : PaymentSession)
    → find_session i xs ≡ none
    → i ≡ s.id
    → find_session i (xs ++ s ∷ []) ≡ some s
find_session-append i [] s h same = ground (arith, same)
find_session-append i (x ∷ xs) s h same = ground (arith, h, find_session-append i xs s _ same)

neg-cancels : (x : ℤ) → neg x +ℤ x ≡ pos 0
neg-cancels x = omega int_laws

-- A hold that is claimed and then returned, of an engagement and a request id that are new, leaves
-- every balance as it was.
pub claim_then_return :
    (c : Claim) (now later : Datetime) (period_seconds : ℕ) (cap_wei : ℤ) (db : Db)
    (row : PaymentSession) (db₁ db₂ : Db)
    → find_claimed c.user_id c.broker_request_id db.sessions ≡ none
    → find_session (claimed_id c db) db.sessions ≡ none
    → find_engagement_row (claimed_id c db) Rows.engagement_encumbrance db.billing.ledger ≡ none
    → find_engagement_row (claimed_id c db) Rows.engagement_release db₁.billing.ledger ≡ none
    → claim_wholesale_engagement c now period_seconds cap_wei db ≡ (ok row, db₁)
    → release_unauthorized_engagement (claimed_id c db) later db₁ ≡ (ok true, db₂)
    → (v : ℕ) → balance_of v db₂.billing ≡ balance_of v db.billing
claim_then_return c now later period_seconds cap_wei db row db₁ db₂ unclaimed unused fresh
      unreleased claimed returned v =
    let (row_is, found, stored, debited, id_is, opened) =
      claim-IsClaimed c now period_seconds cap_wei db row db₁ unclaimed fresh claimed in
    let (s, hold, found', held, credited, written, closed) =
      release_unauthorized-IsReturned (claimed_id c db) later db₁ db₂ unreleased returned in
    let own : find_session (claimed_id c db) db₁.sessions ≡ some row =
      ap (find_session (claimed_id c db)) stored
      ∙ find_session-append (claimed_id c db) db.sessions row unused
          (sym (ap (λ (r : PaymentSession). r.id) row_is)) in
    let s_is : s ≡ new_session (claimed_id c db) c now = same_some found' own ∙ row_is in
    let hold_is : hold ≡ pos c.max_debit_wei =
      same_some (held.3) (ap (λ (r : PaymentSession). r.customer_max_debit_wei) s_is) in
    let user_is : s.user_id ≡ c.user_id = ap (λ (r : PaymentSession). r.user_id) s_is in
    let back : Credits c.user_id (pos c.max_debit_wei) db₁.billing db₂.billing =
      subst (λ u. Credits u (pos c.max_debit_wei) db₁.billing db₂.billing) user_is
        (subst (λ x. Credits s.user_id x db₁.billing db₂.billing) hold_is credited) in
    nothing v (
      Credits-then c.user_id (neg (pos c.max_debit_wei)) (pos c.max_debit_wei) db.billing
        db₁.billing db₂.billing debited back v)
  where
    nothing :
        (v : ℕ)
        → balance_of v db₂.billing ≡ (
            if v == c.user_id
            then balance_of c.user_id db.billing
              +ℤ (neg (pos c.max_debit_wei) +ℤ pos c.max_debit_wei)
            else balance_of v db.billing)
        → balance_of v db₂.billing ≡ balance_of v db.billing
    nothing v h = ground (
      arith,
      h,
      +ℤ_zero (balance_of c.user_id db.billing),
      ap (λ x. balance_of c.user_id db.billing +ℤ x) (neg-cancels (pos c.max_debit_wei)),
    )

pay : (h b : ℤ) → neg h +ℤ (h -ℤ b) ≡ neg b
pay h b = omega int_laws

-- An engagement that is claimed and whose job is settled costs its user the charge: when the job's
-- row carries the claim's user and hold, and no balance moved between the claim and the settlement,
-- the user's balance falls by exactly the charge that the settled row reports, which is at most the
-- hold, and every other balance is as it was before the claim.
pub claim_then_settle :
    (c : Claim) (now later : Datetime) (period_seconds : ℕ) (cap_wei : ℤ) (codec : Codec)
    (request : SettleJob) (db : Db) (row job : PaymentSession) (db₁ db₂ : Db)
    (final : PaymentSession) (db₃ : Db)
    → find_claimed c.user_id c.broker_request_id db.sessions ≡ none
    → find_engagement_row (claimed_id c db) Rows.engagement_encumbrance db.billing.ledger ≡ none
    → claim_wholesale_engagement c now period_seconds cap_wei db ≡ (ok row, db₁)
    → db₂.billing ≡ db₁.billing
    → find_session request.job_id db₂.sessions ≡ some job
    → job.user_id ≡ c.user_id
    → job.customer_max_debit_wei ≡ some (pos c.max_debit_wei)
    → find_engagement_row request.job_id Rows.engagement_release db₂.billing.ledger ≡ none
    → settle_job codec request later db₂ ≡ (ok final, db₃)
    → (billed : ℕ) × (final.billed_value_wei ≡ some (pos billed))
      × (billed ≤ c.max_debit_wei)
      × Credits c.user_id (neg (pos billed)) db.billing db₃.billing
claim_then_settle c now later period_seconds cap_wei codec request db row job db₁ db₂ final db₃
      unclaimed fresh claimed same found owner capped unreleased done =
    let (row_is, claimed_row, stored, debited, id_is, opened) =
      claim-IsClaimed c now period_seconds cap_wei db row db₁ unclaimed fresh claimed in
    let settled = settle_job_settles codec request later db₂ final db₃ unreleased done in
    let job_is : settled.row ≡ job = same_some (settled.job.0) found in
    let hold_is : settled.hold ≡ pos c.max_debit_wei =
      same_some (settled.charge.2)
        (ap (λ (r : PaymentSession). r.customer_max_debit_wei) job_is ∙ capped) in
    let user_is : settled.row.user_id ≡ c.user_id =
      ap (λ (r : PaymentSession). r.user_id) job_is ∙ owner in
    let refunded : Credits c.user_id (pos c.max_debit_wei -ℤ pos settled.billed) db₁.billing
        db₃.billing =
      subst (λ b. Credits c.user_id (pos c.max_debit_wei -ℤ pos settled.billed) b db₃.billing) same
        (subst (λ u. Credits u (pos c.max_debit_wei -ℤ pos settled.billed) db₂.billing db₃.billing)
          user_is
          (subst
            (λ h. Credits settled.row.user_id (h -ℤ pos settled.billed) db₂.billing db₃.billing)
            hold_is settled.closed.refund)) in
    (
      settled.billed,
      ap (λ (r : PaymentSession). r.billed_value_wei) settled.closed.final_is,
      within settled.billed c.max_debit_wei
          (subst (λ h. pos settled.billed ≤ℤ h) hold_is (settled.charge.5)),
      subst (λ x. Credits c.user_id x db.billing db₃.billing)
          (pay (pos c.max_debit_wei) (pos settled.billed))
          (Credits-then c.user_id (neg (pos c.max_debit_wei))
            (pos c.max_debit_wei -ℤ pos settled.billed) db.billing db₁.billing db₃.billing debited
            refunded),
    )
  where
    within : (b m : ℕ) → pos b ≤ℤ pos m → b ≤ m
    within b m h = omega arith
