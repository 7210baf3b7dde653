-- ===== src/Sessions/Close/Once.antt =====
-- A close, and the same close again (domains/sessions/service.py, `close_session`).
use livepeer_open_clearingho.Base.{
  ℕ, ◌≡◌, ◌⊎◌, inl, inr, refl, sym, ap, ◌∙◌, String, Option, none, some, List, [], ◌∷◌, ◌++◌, Bool,
  true, false, not, ◌||◌, eq_iff, arith, if◌then◌else◌, Bool-cases, Option-cases,
}
use livepeer_open_clearingho.Base.Time.{Datetime}
use livepeer_open_clearingho.Base.Json.{Fields}
use livepeer_open_clearingho.Base.Result.{ok}
use livepeer_open_clearingho.Base.Action.{bind-eq-ok, raise_if-eq-ok, returned-eq}
use livepeer_open_clearingho.Billing.Rows as BillingRows
use livepeer_open_clearingho.Billing.Rows.{find_engagement_row}
use livepeer_open_clearingho.Settlement.Envelope.{Codec}
use livepeer_open_clearingho.Sessions.Rows.{
  PaymentSession, PaymentSettlement, Db, find_session, or_raise,
}
use livepeer_open_clearingho.Sessions.States.{is_closed}
use livepeer_open_clearingho.Sessions.States.Machine.{or_raise-eq-ok, find_session-id}
use livepeer_open_clearingho.Jobs.Settle.{owned_by}
use livepeer_open_clearingho.Jobs.Settle.Money.{owned_by-eq-some}
use livepeer_open_clearingho.Sessions.Close.{
  CloseSession, find_close, is_recorded, units_match, outcome_match, replay_closed_session,
  close_open_session, close_session,
}
use livepeer_open_clearingho.Jobs.Settle.Once.{owned_is}
use livepeer_open_clearingho.Sessions.Close.Settled.{IsSettled, close_open_session-IsSettled}

-- A release of the hold is recorded in the ledger.
abbrev pub IsReleased : ℕ → Db → Type 0
IsReleased i db =
    (e : BillingRows.CreditLedger) × (find_engagement_row i BillingRows.engagement_release
        db.billing.ledger
      ≡ some e)

-- `same` compares two JSON objects.
module _ (same : Fields → Fields → Bool) where
  -- A replay that is answered: the recorded close agrees with the request.
  abbrev pub IsReplay : CloseSession → PaymentSession → Db → Type 0
  IsReplay request row db =
      (is_recorded same (find_close row.id db.settlements) request.settlement ≡ true)
      × (units_match same request.actual_units row.actual_units ≡ true)
      × (outcome_match same request.outcome row.outcome ≡ true)

  replayed_close :
      (request : CloseSession) (row : PaymentSession) (db : Db) (final : PaymentSession) (db' : Db)
      → replay_closed_session same request row db ≡ (ok final, db')
      → IsReplay request row db × (final ≡ row) × (db' ≡ db)
  unfolding replay_closed_session
  replayed_close request row db final db' h =
      let agreed =
        raise_if-eq-ok
          (not (is_recorded same (find_close row.id db.settlements) request.settlement)
            || not (units_match same request.actual_units row.actual_units)
            || not (outcome_match same request.outcome row.outcome))
          _ _ db h in
      let done = returned-eq agreed.1 in
      let (first, second, third) = all_true _ _ _ (agreed.0) in
      ((first, second, third), sym (done.0), sym (done.1))
    where
      all_true :
          (a b c : Bool) → not a || not b || not c ≡ false → (a ≡ true) × (b ≡ true) × (c ≡ true)
      all_true a b c h = (ground arith, ground arith, ground arith)

  -- A close that returns is of a session of the user. If the session was closed it is a replay: the
  -- request agrees with the recorded close, the row of the session is the answer, and no table
  -- changes. If it was not, then either a release of its hold is recorded already, or the session is
  -- settled: the evidence is signed by a delegated key and is about this session, and no successor of
  -- its grant is unresolved; the bill, the units and the outcome that are used are those of its
  -- record; the charge is the price of the recorded policy, within the hold; the row is closed with
  -- the units, the charge and the signed outcome, or, where that is unspecified, the one that the
  -- comparison of the charge with the funding gives; the user's balance gets exactly the hold less
  -- the charge, no other balance changes; and one close event is appended.
  pub close_session_settles :
      (codec : Codec) (request : CloseSession) (now : Datetime) (db : Db) (final : PaymentSession)
      (db' : Db)
      → close_session same codec request now db ≡ (ok final, db')
      → (row : PaymentSession) × (find_session request.session_id db.sessions ≡ some row)
        × (row.user_id ≡ request.user_id)
        × (((is_closed row.state ≡ true) × IsReplay request row db × (final ≡ row) × (db' ≡ db))
            ⊎ ((is_closed row.state ≡ false)
                × (IsReleased request.session_id db
                    ⊎ IsSettled codec request row now db final db')))
  unfolding close_session
  close_session_settles codec request now db final db' h =
      let (row, db₁, found, h₁) =
        bind-eq-ok
          (or_raise (owned_by request.user_id (find_session request.session_id db.sessions)) _) _ db
          h in
      let (there, at₁) =
        or_raise-eq-ok (owned_by request.user_id (find_session request.session_id db.sessions)) _ db
          db₁ found in
      let (present, owner) =
        owned_by-eq-some request.user_id (find_session request.session_id db.sessions) row there in
      (
        row,
        present,
        owner,
        either request row now db final db' present (Bool-cases (is_closed row.state)) (
            ap
              (if is_closed row.state
                then replay_closed_session same request row
                else close_open_session codec request row now)
              (sym at₁)
            ∙ h₁),
      )
    where
      either :
          (request : CloseSession) (row : PaymentSession) (now : Datetime) (db : Db)
          (final : PaymentSession) (db' : Db)
          → find_session request.session_id db.sessions ≡ some row
          → (is_closed row.state ≡ true) ⊎ (is_closed row.state ≡ false)
          → (if is_closed row.state
                then replay_closed_session same request row
                else close_open_session codec request row now)
              db
            ≡ (ok final, db')
          → ((is_closed row.state ≡ true) × IsReplay request row db × (final ≡ row) × (db' ≡ db))
            ⊎ ((is_closed row.state ≡ false)
                × (IsReleased request.session_id db ⊎ IsSettled codec request row now db final db'))
      either request row now db final db' present (inl closed) h =
          let (agreed, same_row, same_db) =
            replayed_close request row db final db' (rw closed at h) in
          inl (closed, agreed, same_row, same_db)
      either request row now db final db' present (inr opened) h =
          let release =
            find_engagement_row request.session_id BillingRows.engagement_release
              db.billing.ledger in
          inr (
            opened,
            elim (Option-cases release) [
              | inl fresh ↦ inr (
                  close_open_session-IsSettled codec request row now db final db' present fresh
                    (rw opened at h))
              | inr (e, recorded) ↦ inl (e, recorded)
            ],
          )

  replay_returns :
      (codec : Codec) (request : CloseSession) (now : Datetime) (db : Db) (row : PaymentSession)
      → owned_by request.user_id (find_session request.session_id db.sessions) ≡ some row
      → is_closed row.state ≡ true
      → IsReplay request row db
      → close_session same codec request now db ≡ (ok row, db)
  unfolding close_session replay_closed_session
  replay_returns codec request now db row owned closed (recorded, units, outcome) =
      rw (owned, closed, recorded, units, outcome)

  find_close-append :
      (i : ℕ) (xs : List PaymentSettlement) (e : PaymentSettlement)
      → find_close i xs ≡ none
      → i ≡ e.session_id
      → e.event_type ≡ "close"
      → find_close i (xs ++ e ∷ []) ≡ some e
  find_close-append i [] e h same_id is_close = ground (arith, same_id, eq_iff e.event_type "close")
  find_close-append i (x ∷ xs) e h same_id is_close =
      ground (arith, h, find_close-append i xs e _ same_id is_close)

  -- What a settled close has left is what a replay of its request compares.
  settled-IsReplay :
      (reflexive : (s : Fields) → same s s ≡ true) (codec : Codec) (request : CloseSession)
      (row : PaymentSession) (now : Datetime) (db : Db) (final : PaymentSession) (db' : Db)
      → row.id ≡ request.session_id
      → find_close request.session_id db.settlements ≡ none
      → IsSettled codec request row now db final db'
      → IsReplay request final db'
  settled-IsReplay reflexive codec request row now db final db' row_id unclosed s = (
    recorded_is reflexive final.id db'.settlements request.settlement _ s.settlement
        (ap (find_close final.id) s.closed.settlements
          ∙ find_close-append final.id db.settlements _
              (ap (λ i. find_close i db.settlements) final_id ∙ unclosed) final_id refl)
        (s.evidence.7) refl,
    units_is request.actual_units s.usage.debited_units final.actual_units
        (ap (λ (r : PaymentSession). r.actual_units) s.closed.final_is) s.units,
    outcome_is request.outcome final.outcome _
        (ap (λ (r : PaymentSession). r.outcome) s.closed.final_is) s.agreed,
  )
    where
      final_id : final.id ≡ request.session_id
      final_id = ap (λ (r : PaymentSession). r.id) s.closed.final_is ∙ row_id

      recorded_is :
          (reflexive : (s : Fields) → same s s ≡ true) (i : ℕ) (xs : List PaymentSettlement)
          (o : Option Fields) (e : PaymentSettlement) (t : Fields)
          → find_close i xs ≡ some e
          → o ≡ some t
          → e.raw_record ≡ some t
          → is_recorded same (find_close i xs) o ≡ true
      recorded_is reflexive i xs o e t found given raw = rw (found, given, raw) (reflexive t)

      units_is : (n m : ℕ) (o : Option ℕ) → o ≡ some m → n ≡ m → units_match same n o ≡ true
      units_is n m o h g = rw (h, g) (ground arith)

      outcome_is :
          (o p : Option String) (t : String)
          → p ≡ some t
          → (o ≡ none) ⊎ (o ≡ some t)
          → outcome_match same o p ≡ true
      outcome_is o p t h (inl e) = rw e refl
      outcome_is o p t h (inr e) = rw (e, h) ((eq_iff t t).1 refl)

  -- When the comparison of JSON objects is reflexive, a close that returns can be sent again: the
  -- same request, of a session of which no close event and no release was recorded before, answers
  -- the same row and changes no table.
  pub close_session_again :
      (reflexive : (s : Fields) → same s s ≡ true) (codec : Codec) (request : CloseSession)
      (now later : Datetime) (db : Db) (final : PaymentSession) (db' : Db)
      → find_engagement_row request.session_id BillingRows.engagement_release db.billing.ledger
        ≡ none
      → find_close request.session_id db.settlements ≡ none
      → close_session same codec request now db ≡ (ok final, db')
      → close_session same codec request later db' ≡ (ok final, db')
  close_session_again reflexive codec request now later db final db' fresh unclosed h =
      let (row, found, owner, done) = close_session_settles codec request now db final db' h in
      let row_id = find_session-id request.session_id db.sessions row found in
      elim done [
        | inl (closed, agreed, same_row, same_db) ↦ absurd (
            unrecorded row request.settlement db.settlements
              (ap (λ i. find_close i db.settlements) row_id ∙ unclosed) (agreed.0))
        | inr (opened, inl (e, recorded)) ↦ absurd (unreleased _ e fresh recorded)
        | inr (opened, inr s) ↦
            replay_returns codec request later db' final
              (owned_is request.user_id final _
                (ap (λ i. find_session i db'.sessions) (sym row_id) ∙ s.closed.found)
                (ap (λ (r : PaymentSession). r.user_id) s.closed.final_is ∙ owner))
              (ap (λ (r : PaymentSession). is_closed r.state) s.closed.final_is)
              (settled-IsReplay reflexive codec request row now db final db' row_id unclosed s)
      ]
    where
      unreleased :
          (o : Option BillingRows.CreditLedger) (e : BillingRows.CreditLedger)
          → o ≡ none
          → ¬ (o ≡ some e)
      unreleased o e h g = cc

      unrecorded :
          (row : PaymentSession) (o : Option Fields) (xs : List PaymentSettlement)
          → find_close row.id xs ≡ none
          → ¬ (is_recorded same (find_close row.id xs) o ≡ true)
      unrecorded row o xs h g = cc
