-- ===== src/Sessions/Engagement/Claims.antt =====
-- Claims of wholesale engagements and their money (domains/sessions/service.py).
use livepeer_open_clearingho.Base.{
  ℕ, ◌+◌, ◌≡◌, inl, inr, refl, sym, ap, subst, ◌∙◌, String, Option, none, some, List, [], ◌∷◌, ◌++◌,
  true, false, eq_iff, or_else, arith, if◌then◌else◌, Bool-cases,
}
use livepeer_open_clearingho.Base.Int.{ℤ, pos, neg}
use livepeer_open_clearingho.Base.Time.{Datetime}
use livepeer_open_clearingho.Base.Result.{ok, err}
use livepeer_open_clearingho.Base.Action.{
  bind-eq-ok, raise_if-eq-ok, returned-eq, lift-eq-ok, pure, ◌>>◌, lift,
}
use livepeer_open_clearingho.Billing.Rows as BillingRows
use livepeer_open_clearingho.Billing.Rows.{find_engagement_row}
use livepeer_open_clearingho.Billing.Engagements.{encumber_customer_engagement}
use livepeer_open_clearingho.Billing.Releases.{Credits, encumber-Credits}
use livepeer_open_clearingho.Sessions.Rows
use livepeer_open_clearingho.Sessions.Rows.{
  PaymentSession, Db, Error, find_session, billing, Sessions,
}
use livepeer_open_clearingho.Sessions.Charge.Refund.{billing-eq-ok}
use livepeer_open_clearingho.Sessions.Engagement.{
  Claim, text_eq, is_claimed_by, find_claimed, same_scope, is_taken, new_session, create_session,
  claim_or_replay, claim_wholesale_engagement, violates, pass_through,
}
use livepeer_open_clearingho.Billing.Pricing.{validate}
use livepeer_open_clearingho.Sessions.Charge.{pricing_result}

-- The engagement id that a new claim gets.
abbrev pub claimed_id : Claim → Db → ℕ
claimed_id c db = or_else c.gateway_session_id db.next_session_id

-- The claim, of a route whose work unit has a name, of a request id that was claimed before changes nothing: it answers the engagement of
-- that request, or raises that its scope changed.
pub claim_replays :
    (c : Claim) (now : Datetime) (period_seconds : ℕ) (cap_wei : ℤ) (db : Db)
    (existing : PaymentSession)
    → find_claimed c.user_id c.broker_request_id db.sessions ≡ some existing
    → is_taken c.gateway_session_id c db.sessions ≡ false
    → validate (pass_through c.route) ≡ ok tt
    → claim_wholesale_engagement c now period_seconds cap_wei db ≡ (
      if same_scope existing c
          then ok existing
          else err (Rows.invalid_session_request "wholesale engagement replay changed scope"),
      db,
    )
unfolding claim_wholesale_engagement claim_or_replay
claim_replays c now period_seconds cap_wei db existing found untaken valid =
    elim (Bool-cases (same_scope existing c)) [
      | inl same ↦ rw (untaken, found, valid, same)
      | inr changed ↦ rw (untaken, found, valid, changed)
    ]

text_eq_refl : (o : Option String) → text_eq o o ≡ true
text_eq_refl none = refl
text_eq_refl (some s) = (eq_iff s s).1 refl

find_claimed-append :
    (u : ℕ) (request : String) (xs : List PaymentSession) (s : PaymentSession)
    → find_claimed u request xs ≡ none
    → is_claimed_by u request s ≡ true
    → find_claimed u request (xs ++ s ∷ []) ≡ some s
find_claimed-append u request [] s h claimed = rw claimed
find_claimed-append u request (x ∷ xs) s h claimed = elim (Bool-cases (is_claimed_by u request x)) [
  | inl taken ↦ absurd (cc (rw taken at h))
  | inr other ↦ rw other (find_claimed-append u request xs s (rw other at h) claimed)
]

-- The tables with the new engagement.
abbrev pub created : PaymentSession → Db → Db
created s db = record db {
  sessions = db.sessions ++ s ∷ [];
  next_session_id = db.next_session_id + 1;
}

-- The row that a claim must open: the claimed scope, ceilings and hold, nothing used, and no
-- authorization yet.
pub record IsOpened (c : Claim) (now : Datetime) (row : PaymentSession) : Type 0 where
  pub user_id : row.user_id ≡ c.user_id
  pub api_key_id : row.api_key_id ≡ c.api_key_id
  pub state : row.state ≡ "open"
  pub opened_at : row.opened_at ≡ now
  pub closed_at : row.closed_at ≡ none
  pub capability : row.capability ≡ c.route.capability
  pub offering : row.offering ≡ c.route.offering
  pub protocol : row.protocol ≡ c.route.protocol
  pub route_snapshot : row.route_snapshot ≡ some c.route
  pub broker_request_id : row.broker_request_id ≡ some c.broker_request_id
  pub accounting_mode : row.accounting_mode ≡ "wholesale_account"
  pub estimated_units : row.estimated_units ≡ c.estimated_units
  pub max_total_units : row.max_total_units ≡ c.max_total_units
  pub funded_value_wei : row.funded_value_wei ≡ c.max_debit_wei
  pub customer_max_debit_wei : row.customer_max_debit_wei ≡ some (pos c.max_debit_wei)
  pub authorization_id : row.authorization_id ≡ none
  pub actual_units : row.actual_units ≡ none
  pub billed_value_wei : row.billed_value_wei ≡ none
  pub outcome : row.outcome ≡ none
  pub customer_pricing : row.customer_pricing ≡ some (pass_through c.route)
  pub work_id : row.work_id ≡ ""
  pub broker_session_id : row.broker_session_id ≡ none
  pub predecessor_work_id : row.predecessor_work_id ≡ none
  pub rotation_generation : row.rotation_generation ≡ 0
  pub last_settlement_seq : row.last_settlement_seq ≡ 0

new_session-IsOpened : (i : ℕ) (c : Claim) (now : Datetime) → IsOpened c now (new_session i c now)
new_session-IsOpened i c now = record {
  user_id = refl;
  api_key_id = refl;
  state = refl;
  opened_at = refl;
  closed_at = refl;
  capability = refl;
  offering = refl;
  protocol = refl;
  route_snapshot = refl;
  broker_request_id = refl;
  accounting_mode = refl;
  estimated_units = refl;
  max_total_units = refl;
  funded_value_wei = refl;
  customer_max_debit_wei = refl;
  authorization_id = refl;
  actual_units = refl;
  billed_value_wei = refl;
  outcome = refl;
  customer_pricing = refl;
  work_id = refl;
  broker_session_id = refl;
  predecessor_work_id = refl;
  rotation_generation = refl;
  last_settlement_seq = refl;
}

-- A row that is created is the new one, appended to the table.
create_session-eq-ok :
    (c : Claim) (now : Datetime) (db : Db) (s : PaymentSession) (db' : Db)
    → create_session c now db ≡ (ok s, db')
    → (s ≡ new_session (claimed_id c db) c now)
      × (db' ≡ created (new_session (claimed_id c db) c now) db)
unfolding create_session
create_session-eq-ok c now db s db' h =
    let free = raise_if-eq-ok (violates (claimed_id c db) c db.sessions) _ _ db h in
    let done = returned-eq free.1 in (sym (done.0), sym (done.1))

-- What a new claim has done.
abbrev pub IsClaimed : Claim → Datetime → Db → PaymentSession → Db → Type 0
IsClaimed c now db row db' =
    (row ≡ new_session (claimed_id c db) c now)
    × (find_claimed c.user_id c.broker_request_id db'.sessions ≡ some row)
    × (db'.sessions ≡ db.sessions ++ row ∷ [])
    × Credits c.user_id (neg (pos c.max_debit_wei)) db.billing db'.billing
    × (row.id ≡ claimed_id c db)
    × IsOpened c now row

new_is_claimed :
    (i : ℕ) (c : Claim) (now : Datetime)
    → is_claimed_by c.user_id c.broker_request_id (new_session i c now) ≡ true
new_is_claimed i c now = ground (arith, eq_iff c.broker_request_id c.broker_request_id)

-- What follows the creation of the row.
abbrev held_for : Claim → Datetime → ℕ → ℤ → PaymentSession → Sessions PaymentSession
held_for c now period_seconds cap_wei s =
    billing
      (encumber_customer_engagement c.user_id s.id (pos c.max_debit_wei) now period_seconds cap_wei)
    >> pure s

held_for-made :
    (c : Claim) (now : Datetime) (period_seconds : ℕ) (cap_wei : ℤ) (s made : PaymentSession)
    (db₃ db : Db) (row : PaymentSession) (db' : Db)
    → s ≡ made
    → db₃ ≡ db
    → held_for c now period_seconds cap_wei s db₃ ≡ (ok row, db')
    → held_for c now period_seconds cap_wei made db ≡ (ok row, db')
held_for-made c now period_seconds cap_wei s made db₃ db row db' e at h =
    sym (
      ap (λ x. held_for c now period_seconds cap_wei x db₃) e
      ∙ ap (held_for c now period_seconds cap_wei made) at)
    ∙ h

first_claim-IsClaimed :
    (c : Claim) (now : Datetime) (period_seconds : ℕ) (cap_wei : ℤ) (db : Db) (row : PaymentSession)
    (db' : Db)
    → find_claimed c.user_id c.broker_request_id db.sessions ≡ none
    → find_engagement_row (claimed_id c db) BillingRows.engagement_encumbrance db.billing.ledger
      ≡ none
    → claim_or_replay none c now period_seconds cap_wei db ≡ (ok row, db')
    → IsClaimed c now db row db'
unfolding claim_or_replay
first_claim-IsClaimed c now period_seconds cap_wei db row db' unclaimed fresh h =
    let made = new_session (claimed_id c db) c now in
    let (s, db₃, made_ok, h₃) = bind-eq-ok (create_session c now) _ db h in
    let (s_is, db₃_is) = create_session-eq-ok c now db s db₃ made_ok in
    let (b, db₁, held, h₁) =
      bind-eq-ok
        (billing (
          encumber_customer_engagement c.user_id (claimed_id c db) (pos c.max_debit_wei) now
            period_seconds cap_wei))
        _ (created made db)
        (held_for-made c now period_seconds cap_wei s made db₃ (created made db) row db' s_is db₃_is
          h₃) in
    let (b', moved, stored) =
      billing-eq-ok
        (encumber_customer_engagement c.user_id (claimed_id c db) (pos c.max_debit_wei) now
          period_seconds cap_wei)
        (created made db) db₁ held in
    let done = returned-eq h₁ in
    let row_is : row ≡ made = sym (done.0) in
    let db'_is : db' ≡ record (created made db) { billing = b' } = sym (done.1) ∙ stored in
    let sessions_are : db'.sessions ≡ db.sessions ++ row ∷ [] =
      ap (λ d. d.sessions) db'_is ∙ ap (λ r. db.sessions ++ r ∷ []) (sym row_is) in
    (
      row_is,
      ap (find_claimed c.user_id c.broker_request_id) sessions_are
          ∙ find_claimed-append c.user_id c.broker_request_id db.sessions row unclaimed (
              ap (is_claimed_by c.user_id c.broker_request_id) row_is
              ∙ new_is_claimed (claimed_id c db) c now),
      sessions_are,
      subst (Credits c.user_id (neg (pos c.max_debit_wei)) db.billing)
          (sym (ap (λ d. d.billing) db'_is))
          (encumber-Credits c.user_id (claimed_id c db) (pos c.max_debit_wei) now period_seconds
            cap_wei db.billing b b' fresh moved),
      ap (λ (r : PaymentSession). r.id) row_is,
      subst (IsOpened c now) (sym row_is) (new_session-IsOpened (claimed_id c db) c now),
    )

-- The first claim of a request id, if it returns, of an engagement id of which no hold was taken
-- before: the engagement is open, with the claimed user, route, request id, units and hold, and with
-- no authorization; it is appended to the table under its id, and found by its request id; the user's
-- balance is debited exactly the hold, and no other balance changes.
pub claim-IsClaimed :
    (c : Claim) (now : Datetime) (period_seconds : ℕ) (cap_wei : ℤ) (db : Db) (row : PaymentSession)
    (db' : Db)
    → find_claimed c.user_id c.broker_request_id db.sessions ≡ none
    → find_engagement_row (claimed_id c db) BillingRows.engagement_encumbrance db.billing.ledger
      ≡ none
    → claim_wholesale_engagement c now period_seconds cap_wei db ≡ (ok row, db')
    → IsClaimed c now db row db'
unfolding claim_wholesale_engagement
claim-IsClaimed c now period_seconds cap_wei db row db' unclaimed fresh h =
    let untaken = raise_if-eq-ok (is_taken c.gateway_session_id c db.sessions) _ _ db h in
    let (u, db₂, valid, h₂) =
      bind-eq-ok (lift (pricing_result (validate (pass_through c.route)))) _ db untaken.1 in
    let (priced, same_db) =
      lift-eq-ok (pricing_result (validate (pass_through c.route))) db db₂ valid in
    first_claim-IsClaimed c now period_seconds cap_wei db row db' unclaimed fresh (
      sym (
        ap (λ o. claim_or_replay o c now period_seconds cap_wei db₂) unclaimed
        ∙ ap (claim_or_replay none c now period_seconds cap_wei) same_db)
      ∙ h₂)
