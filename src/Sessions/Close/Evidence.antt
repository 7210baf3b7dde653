-- ===== src/Sessions/Close/Evidence.antt =====
-- What `_verify_close_settlement` of domains/sessions/service.py accepts.
use livepeer_open_clearingho.Base.{
  ◌<◌, ◌≤◌, ◌≡◌, sym, ap, subst, ◌∙◌, String, Option, none, some, List, Bool, false, not,
}
use livepeer_open_clearingho.Base.Time.{Datetime}
use livepeer_open_clearingho.Base.Json.{Fields, get, is_present}
use livepeer_open_clearingho.Base.Result.{ok}
use livepeer_open_clearingho.Base.Action.{lift, bind-eq-ok, raise_if-eq-ok, returned-eq, lift-eq-ok}
use livepeer_open_clearingho.Settlement.Records.{SettlementRecord, is_debit_failed}
use livepeer_open_clearingho.Settlement.Envelope.{Codec, verify_envelope}
use livepeer_open_clearingho.Settlement.Envelope.Sound.{IsVerified, verify_envelope_sound}
use livepeer_open_clearingho.Settlement.Evidence.{
  VerifiedSessionSettlement, verify_session_settlement,
}
use livepeer_open_clearingho.Settlement.Evidence.Sound.{
  IsThisSession, IsReported, verify_session_settlement_sound,
}
use livepeer_open_clearingho.Settlement.Session.Sound.{IsProgress}
use livepeer_open_clearingho.Sessions.Rows.{
  Snapshot, PaymentSession, SpendAuthorizationGrant, Db, find_grant, or_raise,
}
use livepeer_open_clearingho.Sessions.States.Machine.{or_raise-eq-ok}
use livepeer_open_clearingho.Jobs.Settle.{checked}
use livepeer_open_clearingho.Jobs.Settle.Evidence.{checked-eq-ok, pinned-eq-ok}
use livepeer_open_clearingho.Sessions.Close.{
  CloseSession, delegating, predecessor, authorization_hint, expectation, verify_close_settlement,
}

delegating-eq-ok : (o : Option Snapshot) (s : Snapshot) → delegating o ≡ ok s → o ≡ some s
delegating-eq-ok none s h = cc
delegating-eq-ok (some t) s h = pinned-eq-ok (some t) s h

-- The evidence of a close: an envelope that a delegated key signed, which names a grant of the
-- session, and whose record is about this session and its progress under that grant; what is
-- verified is what that record says.
abbrev pub IsEvidence :
    Codec
    → CloseSession
    → PaymentSession
    → Bool
    → List SpendAuthorizationGrant
    → VerifiedSessionSettlement × Fields
    → Type 0
IsEvidence codec request row require_terminal grants (v, settlement) =
    (snapshot : Snapshot) × (before : String) × (hint : String) × (grant : SpendAuthorizationGrant)
    × (r : SettlementRecord) × (issued_at : Datetime) × (key : String) × (request.settlement
        ≡ some settlement)
    × (row.route_snapshot ≡ some snapshot)
    × (predecessor row ≡ ok before)
    × (authorization_hint settlement ≡ some hint)
    × (find_grant row.id hint grants ≡ some grant)
    × IsVerified codec settlement snapshot.settlement_keys (r, issued_at, key)
    × (is_debit_failed r.outcome ≡ false)
    × IsThisSession r (expectation request row snapshot grant before require_terminal)
    × IsProgress r (expectation request row snapshot grant before require_terminal)
    × (row.last_settlement_seq < v.settlement_seq)
    × (v.billed_value_wei ≤ row.funded_value_wei)
    × (v.broker_session_id ≡ r.session_id)
    × IsReported r issued_at key v

accepted-IsEvidence :
    (codec : Codec) (request : CloseSession) (row : PaymentSession) (terminal : Bool)
    (grants : List SpendAuthorizationGrant) (settlement : Fields) (snapshot : Snapshot)
    (before hint : String) (grant : SpendAuthorizationGrant) (v : VerifiedSessionSettlement)
    → request.settlement ≡ some settlement
    → row.route_snapshot ≡ some snapshot
    → predecessor row ≡ ok before
    → authorization_hint settlement ≡ some hint
    → find_grant row.id hint grants ≡ some grant
    → verify_session_settlement codec.fromisoformat
        (verify_envelope codec settlement snapshot.settlement_keys)
        (expectation request row snapshot grant before terminal)
      ≡ ok v
    → IsEvidence codec request row terminal grants (v, settlement)
accepted-IsEvidence codec request row terminal grants settlement snapshot before hint grant v given
      routed preceded hinted granted h =
    let (
      r, issued_at, key, enveloped, debit, account, domain, this, progress, broker, seq, funded,
      safe, safe', reported,
    ) =
      verify_session_settlement_sound codec.fromisoformat
        (verify_envelope codec settlement snapshot.settlement_keys)
        (expectation request row snapshot grant before terminal) v h in
    (
      snapshot,
      before,
      hint,
      grant,
      r,
      issued_at,
      key,
      given,
      routed,
      preceded,
      hinted,
      granted,
      verify_envelope_sound codec settlement snapshot.settlement_keys (r, issued_at, key) enveloped,
      debit,
      this,
      progress,
      seq,
      funded,
      broker,
      reported,
    )

-- The verification of a close that returns has accepted such evidence and has changed nothing.
pub verify_close_settlement-IsEvidence :
    (codec : Codec) (request : CloseSession) (row : PaymentSession) (terminal : Bool) (db : Db)
    (evidence : VerifiedSessionSettlement × Fields) (db' : Db)
    → verify_close_settlement codec request row terminal db ≡ (ok evidence, db')
    → IsEvidence codec request row terminal db.grants evidence × (db' ≡ db)
unfolding verify_close_settlement
verify_close_settlement-IsEvidence codec request row terminal db evidence db' h =
    let (settlement, db₁, given, h₁) = bind-eq-ok (or_raise request.settlement _) _ db h in
    let signed = raise_if-eq-ok (not (is_present (get "signature" settlement))) _ _ db₁ h₁ in
    let (snapshot, db₂, routed, h₂) =
      bind-eq-ok (lift (delegating row.route_snapshot)) _ db₁ signed.1 in
    let (before, db₃, preceded, h₃) = bind-eq-ok (lift (predecessor row)) _ db₂ h₂ in
    let (hint, db₄, hinted, h₄) =
      bind-eq-ok (or_raise (authorization_hint settlement) _) _ db₃ h₃ in
    let (grant, db₅, granted, h₅) =
      bind-eq-ok (or_raise (find_grant row.id hint db₄.grants) _) _ db₄ h₄ in
    let (v, db₆, accepted, h₆) =
      bind-eq-ok
        (lift (
          checked (
            verify_session_settlement codec.fromisoformat
              (verify_envelope codec settlement snapshot.settlement_keys)
              (expectation request row snapshot grant before terminal))))
        _ db₅ h₅ in
    let (given', at₁) = or_raise-eq-ok request.settlement _ db db₁ given in
    let (routed', at₂) = lift-eq-ok (delegating row.route_snapshot) db₁ db₂ routed in
    let (preceded', at₃) = lift-eq-ok (predecessor row) db₂ db₃ preceded in
    let (hinted', at₄) = or_raise-eq-ok (authorization_hint settlement) _ db₃ db₄ hinted in
    let (granted', at₅) = or_raise-eq-ok (find_grant row.id hint db₄.grants) _ db₄ db₅ granted in
    let (accepted', at₆) = lift-eq-ok _ db₅ db₆ accepted in
    let still : db₄ ≡ db = at₄ ∙ (at₃ ∙ (at₂ ∙ at₁)) in
    let done = returned-eq h₆ in
    (
      subst (IsEvidence codec request row terminal db.grants) (done.0) (
          accepted-IsEvidence codec request row terminal db.grants settlement snapshot before hint
            grant v given' (delegating-eq-ok row.route_snapshot snapshot routed') preceded' hinted'
            (sym (ap (λ d. find_grant row.id hint d.grants) still) ∙ granted')
            (checked-eq-ok _ accepted')),
      sym (done.1) ∙ (at₆ ∙ (at₅ ∙ still)),
    )
