-- ===== src/Sessions/Close/Settled.antt =====
-- What a close of a session that returns has done (domains/sessions/service.py, `close_session`).
use livepeer_open_clearingho.Base.{
  ℕ, ◌<◌, ltb, Bool-cases, ◌≡◌, ◌⊎◌, inl, inr, refl, sym, ap, subst, ◌∙◌, String, Option, none,
  some, true, false, not, ◌==◌, ◌&&◌, str_eq, eq_iff, is_some, or_else, arith,
}
use livepeer_open_clearingho.Base.Int.{ℤ, pos, ◌-ℤ◌, ◌≤ℤ◌}
use livepeer_open_clearingho.Base.Time.{Datetime}
use livepeer_open_clearingho.Base.Json.{Fields}
use livepeer_open_clearingho.Base.Result.{ok}
use livepeer_open_clearingho.Base.Action.{bind-eq-ok, raise_if-eq-ok, returned-eq}
use livepeer_open_clearingho.Billing.Rows
use livepeer_open_clearingho.Billing.Rows.{find_engagement_row}
use livepeer_open_clearingho.Settlement.Envelope.{Codec}
use livepeer_open_clearingho.Settlement.Records.{
  Outcome, unspecified, exact, underfunded, overfunded, stopped_at_budget, topped_up, debit_failed,
  unrecognized,
}
use livepeer_open_clearingho.Jobs.Settle.{outcome_name}
use livepeer_open_clearingho.Settlement.Evidence.{VerifiedSessionSettlement}
use livepeer_open_clearingho.Sessions.Rows.{
  PaymentSession, PaymentSettlement, SpendAuthorizationGrant, Db, find_session, find_grant,
  or_raise,
}
use livepeer_open_clearingho.Sessions.States.{transition_state}
use livepeer_open_clearingho.Sessions.States.Machine.{or_raise-eq-ok, find_session-id, not-false}
use livepeer_open_clearingho.Sessions.Charge.{customer_charge, release_unused}
use livepeer_open_clearingho.Sessions.Charge.Refund.{IsCharge, customer_charge-IsCharge}
use livepeer_open_clearingho.Sessions.Charge.Stored.{refund_within, IsClosed, stored-IsClosed}
use livepeer_open_clearingho.Sessions.Close.{
  CloseSession, authorization_hint, closed_row, finish_session, first_unresolved, raise_unresolved,
  require_retired_successors, verify_close_settlement, signed_outcome, infer_close_outcome,
  close_open_session,
}
use livepeer_open_clearingho.Sessions.Close.Evidence.{
  IsEvidence, verify_close_settlement-IsEvidence,
}

-- The event that a close must append.
abbrev pub close_event :
    CloseSession → VerifiedSessionSettlement → Fields → ℕ → String → Datetime → PaymentSettlement
close_event request v settlement billed outcome now = record {
  session_id = request.session_id;
  recorded_at = now;
  event_type = "close";
  actual_units = some v.debited_units;
  billed_value_wei = some (pos billed);
  outcome = some outcome;
  raw_record = some settlement;
}

-- The row that a close must leave: the row before, closed now, with the units, the charge, the
-- outcome, the broker session and the sequence of the evidence, under the authorization that the
-- evidence names, and otherwise unchanged.
abbrev pub final_row :
    PaymentSession → VerifiedSessionSettlement → ℕ → String → String → Datetime → PaymentSession
final_row row v billed outcome authorization_id now = record row {
  state = "closed";
  closed_at = some now;
  actual_units = some v.debited_units;
  billed_value_wei = some (pos billed);
  outcome = some outcome;
  broker_session_id = some v.broker_session_id;
  last_settlement_seq = v.settlement_seq;
  authorization_id = some authorization_id;
  work_id = authorization_id;
}

finish_session-IsClosed :
    (request : CloseSession) (row : PaymentSession) (v : VerifiedSessionSettlement)
    (settlement : Fields) (hold : ℤ) (billed : ℕ) (outcome : String) (now : Datetime) (db : Db)
    (final : PaymentSession) (db' : Db)
    → find_session request.session_id db.sessions ≡ some row
    → pos billed ≤ℤ hold
    → find_engagement_row row.id Rows.engagement_release db.billing.ledger ≡ none
    → finish_session request row v settlement hold billed outcome now db ≡ (ok final, db')
    → (a : String) × (authorization_hint settlement ≡ some a)
      × IsClosed row
          (hold -ℤ pos billed)
          (final_row row v billed outcome a now)
          (close_event request v settlement billed outcome now)
          db
          final
          db'
unfolding finish_session
finish_session-IsClosed request row v settlement hold billed outcome now db final db' found within
      fresh h =
    let (closed, db₁, transition, h₁) =
      bind-eq-ok (transition_state request.session_id row.state "closed" now) _ db h in
    let (u, db₂, released, h₂) = bind-eq-ok (release_unused row (hold -ℤ pos billed)) _ db₁ h₁ in
    let (a, db₃, hinted, h₃) = bind-eq-ok (or_raise (authorization_hint settlement) _) _ db₂ h₂ in
    let (hinted', at₃) = or_raise-eq-ok (authorization_hint settlement) _ db₂ db₃ hinted in
    (
      a,
      hinted',
      stored-IsClosed request.session_id row (hold -ℤ pos billed)
          (λ closed. closed_row closed v billed outcome a) a
          (close_event request v settlement billed outcome now) now db closed db₁ db₃ final db'
          found (refund_within hold billed within) fresh transition
          (released ∙ ap (λ d. (ok tt, d)) (sym at₃)) refl h₃,
    )

-- No grant after the settled one may still be spent.
abbrev pub AreRetired : PaymentSession → String → Db → Type 0
AreRetired row authorization_id db =
    (settled : SpendAuthorizationGrant) × (find_grant row.id authorization_id db.grants
      ≡ some settled)
    × (first_unresolved row.id settled.revision db.grants ≡ none)

require_retired_successors-AreRetired :
    (row : PaymentSession) (a : String) (db db' : Db)
    → require_retired_successors row a db ≡ (ok tt, db')
    → AreRetired row a db × (db' ≡ db)
unfolding require_retired_successors
require_retired_successors-AreRetired row a db db' h =
    let (settled, db₁, granted, h₁) =
      bind-eq-ok (or_raise (find_grant row.id a db.grants) _) _ db h in
    let (granted', at₁) = or_raise-eq-ok (find_grant row.id a db.grants) _ db db₁ granted in
    let (nobody, at₂) = resolved (first_unresolved row.id settled.revision db₁.grants) db₁ db' h₁ in
    (
      (
        settled,
        granted',
        sym (ap (λ d. first_unresolved row.id settled.revision d.grants) at₁) ∙ nobody,
      ),
      at₂ ∙ at₁,
    )
  where
    resolved :
        (o : Option SpendAuthorizationGrant) (db db' : Db)
        → raise_unresolved o db ≡ (ok tt, db')
        → (o ≡ none) × (db' ≡ db)
    resolved none db db' h = (refl, sym ((returned-eq h).1))
    resolved (some g) db db' h = cc

-- The outcome that a close must record.
abbrev pub IsOutcome : Outcome → ℕ → ℕ → String → Type 0
IsOutcome unspecified funded billed s =
    ((funded < billed) × (s ≡ "UNDERFUNDED"))
    ⊎ (((billed < funded) × (s ≡ "OVERFUNDED")) ⊎ ((billed ≡ funded) × (s ≡ "EXACT")))
IsOutcome o funded billed s = s ≡ outcome_name o

signed_outcome-IsOutcome :
    (o : Outcome) (funded billed : ℕ) → IsOutcome o funded billed (signed_outcome o funded billed)
signed_outcome-IsOutcome unspecified funded billed = inferred
  where
    inferred : IsOutcome unspecified funded billed (infer_close_outcome funded billed)
    inferred = elim (Bool-cases (ltb funded billed)) [
      | inl under ↦ inl (ground (arith, under), rw under refl)
      | inr enough ↦ elim (Bool-cases (ltb billed funded)) [
        | inl over ↦ inr (inl (ground (arith, over), rw (enough, over) refl))
        | inr level ↦ inr (inr (ground (arith, enough, level), rw (enough, level) refl))
      ]
    ]
signed_outcome-IsOutcome exact funded billed = refl
signed_outcome-IsOutcome underfunded funded billed = refl
signed_outcome-IsOutcome overfunded funded billed = refl
signed_outcome-IsOutcome stopped_at_budget funded billed = refl
signed_outcome-IsOutcome topped_up funded billed = refl
signed_outcome-IsOutcome debit_failed funded billed = refl
signed_outcome-IsOutcome (unrecognized n) funded billed = refl

-- What a close of a session that was not closed has done.
pub record IsSettled (codec : Codec) (request : CloseSession) (row : PaymentSession)
    (now : Datetime) (db : Db) (final : PaymentSession) (db' : Db) : Type 0 where
  pub usage : VerifiedSessionSettlement
  pub settlement : Fields
  pub authorization_id : String
  pub hold : ℤ
  pub billed : ℕ
  pub evidence : IsEvidence codec request row true db.grants (usage, settlement)
  pub units : request.actual_units ≡ usage.debited_units
  pub retired : AreRetired row usage.work_id db
  pub charge : IsCharge row usage.debited_units usage.billed_value_wei (hold, billed)
  pub agreed :
      (request.outcome ≡ none)
      ⊎ (request.outcome ≡ some (signed_outcome usage.outcome row.funded_value_wei billed))
  pub outcome :
      IsOutcome usage.outcome row.funded_value_wei billed
        (signed_outcome usage.outcome row.funded_value_wei billed)
  pub closed :
      IsClosed row
        (hold -ℤ pos billed)
        (final_row row usage billed
          (signed_outcome usage.outcome row.funded_value_wei billed)
          authorization_id
          now)
        (close_event request usage settlement billed
          (signed_outcome usage.outcome row.funded_value_wei billed)
          now)
        db
        final
        db'

charged_once :
    (codec : Codec) (request : CloseSession) (row : PaymentSession) (v : VerifiedSessionSettlement)
    (settlement : Fields) (hold : ℤ) (billed : ℕ) (now : Datetime) (db db₁ : Db)
    (final : PaymentSession) (db' : Db)
    → find_session request.session_id db.sessions ≡ some row
    → find_engagement_row request.session_id Rows.engagement_release db.billing.ledger ≡ none
    → IsEvidence codec request row true db.grants (v, settlement)
    → request.actual_units ≡ v.debited_units
    → AreRetired row v.work_id db
    → IsCharge row v.debited_units v.billed_value_wei (hold, billed)
    → (request.outcome ≡ none)
      ⊎ (request.outcome ≡ some (signed_outcome v.outcome row.funded_value_wei billed))
    → db₁ ≡ db
    → finish_session request row v settlement hold billed
        (signed_outcome v.outcome row.funded_value_wei billed)
        now
        db₁
      ≡ (ok final, db')
    → IsSettled codec request row now db final db'
charged_once codec request row v settlement hold billed now db db₁ final db' found fresh evidence
      units retired (pricing, priced, capped, valid, amount, within) agreed at h =
    let outcome = signed_outcome v.outcome row.funded_value_wei billed in
    let (a, hinted, closed) =
      finish_session-IsClosed request row v settlement hold billed outcome now db final db' found
        within
        (ap (λ i. find_engagement_row i Rows.engagement_release db.billing.ledger)
            (find_session-id request.session_id db.sessions row found)
          ∙ fresh)
        (ap (finish_session request row v settlement hold billed outcome now) (sym at) ∙ h) in
    record {
      usage = v;
      settlement = settlement;
      authorization_id = a;
      hold = hold;
      billed = billed;
      evidence = evidence;
      units = units;
      retired = retired;
      charge = (pricing, priced, capped, valid, amount, within);
      agreed = agreed;
      outcome = signed_outcome-IsOutcome v.outcome row.funded_value_wei billed;
      closed = closed;
    }

pub close_open_session-IsSettled :
    (codec : Codec) (request : CloseSession) (row : PaymentSession) (now : Datetime) (db : Db)
    (final : PaymentSession) (db' : Db)
    → find_session request.session_id db.sessions ≡ some row
    → find_engagement_row request.session_id Rows.engagement_release db.billing.ledger ≡ none
    → close_open_session codec request row now db ≡ (ok final, db')
    → IsSettled codec request row now db final db'
unfolding close_open_session
close_open_session-IsSettled codec request row now db final db' found fresh h =
    let account = raise_if-eq-ok (not (str_eq row.accounting_mode "wholesale_account")) _ _ db h in
    let (evidence, db₁, verified, h₁) =
      bind-eq-ok (verify_close_settlement codec request row true) _ db account.1 in
    let v = evidence.0 in
    let units = raise_if-eq-ok (not (request.actual_units == v.debited_units)) _ _ db₁ h₁ in
    let (u, db₂, resolved, h₂) =
      bind-eq-ok (require_retired_successors row v.work_id) _ db₁ units.1 in
    let (charge, db₃, charged, h₃) =
      bind-eq-ok (customer_charge row v.debited_units v.billed_value_wei) _ db₂ h₂ in
    let outcome =
      raise_if-eq-ok
        (is_some request.outcome
          && not (
              str_eq (or_else request.outcome "")
                (signed_outcome v.outcome row.funded_value_wei (charge.1))))
        _ _ db₃ h₃ in
    let (is_evidence, at₁) =
      verify_close_settlement-IsEvidence codec request row true db evidence db₁ verified in
    let (retired, at₂) = require_retired_successors-AreRetired row v.work_id db₁ db₂ resolved in
    let (is_charge, at₃) =
      customer_charge-IsCharge row v.debited_units v.billed_value_wei db₂ charge db₃ charged in
    charged_once codec request row v (evidence.1) (charge.0) (charge.1) now db db₃ final db' found
      fresh is_evidence (equal_units request.actual_units v.debited_units (units.0))
      (subst (AreRetired row v.work_id) at₁ retired) is_charge
      (agreement request.outcome _ (outcome.0)) (at₃ ∙ (at₂ ∙ at₁)) (outcome.1)
  where
    equal_units : (m n : ℕ) → not (m == n) ≡ false → m ≡ n
    equal_units m n h = ground (arith, h)

    agreement :
        (o : Option String) (signed : String)
        → is_some o && not (str_eq (or_else o "") signed) ≡ false
        → (o ≡ none) ⊎ (o ≡ some signed)
    agreement none signed h = inl refl
    agreement (some t) signed h = inr (ap some ((eq_iff t signed).0 (not-false _ h)))
