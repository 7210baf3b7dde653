-- ===== src/Sessions/Grants.antt =====
-- The spend authorization grants of domains/sessions/service.py: their retirement.
pub mod Resolved
pub mod Record
use livepeer_open_clearingho.Base.{
  ℕ, ◌≤◌, String, Option, none, some, List, [], ◌∷◌, Bool, true, false, not, ◌&&◌, ◌||◌, ◌==◌,
  str_eq, leb, is_some, or_else, if◌then◌else◌,
}
use livepeer_open_clearingho.Base.Time.{Datetime}
use livepeer_open_clearingho.Base.Result.{Result, ok, err}
use livepeer_open_clearingho.Base.Action.{pure, raise, gets, lift, modify, raise_if, ◌>>=◌, ◌>>◌}
use livepeer_open_clearingho.Sessions.Rows
use livepeer_open_clearingho.Sessions.Rows.{
  SpendAuthorizationGrant, Db, Error, Sessions, find_grant, write_grant, or_raise,
}

abbrev pub is_spendable : String → Bool
is_spendable s = str_eq s "issued" || str_eq s "admitted" || str_eq s "settled"

-- `grant.retired_at or clock.now()`
abbrev pub retired : SpendAuthorizationGrant → String → Datetime → SpendAuthorizationGrant
retired grant state now = record grant {
  state = state;
  retired_at = some (or_else grant.retired_at now);
}

abbrev pub put_grant : SpendAuthorizationGrant → Db → Db
put_grant grant db = record db { grants = write_grant grant db.grants }

unfoldable pub mark_spend_authorization_settled :
    ℕ → String → Datetime → Sessions SpendAuthorizationGrant
mark_spend_authorization_settled engagement_id authorization_id now = do
  found ← gets (λ db. find_grant engagement_id authorization_id db.grants)
  grant ← or_raise found (Rows.settlement_failed "missing_authorization")
  raise_if (not (is_spendable grant.state)) (Rows.settlement_failed "authorization_state_conflict")
  modify (put_grant (retired grant "settled" now))
  pure (retired grant "settled" now)

-- The local `terminal_states` and `active_states`.
abbrev pub is_terminal : String → Bool
is_terminal s =
    str_eq s "settled"
    || str_eq s "expired_unused"
    || str_eq s "superseded"
    || str_eq s "operator_resolved"

abbrev pub is_active : String → Bool
is_active s = str_eq s "issued" || str_eq s "admitted" || str_eq s "outcome_unknown"

-- The body of the loop for one grant of the engagement.
abbrev pub resolve_grant : SpendAuthorizationGrant → Datetime → Result Error SpendAuthorizationGrant
resolve_grant grant now =
    if is_terminal grant.state
    then ok (retired grant grant.state now)
    else if is_some grant.retired_at || not (is_active grant.state)
    then err (Rows.settlement_failed "authorization_state_conflict")
    else ok (record grant { state = "operator_resolved"; retired_at = some now })

-- The loop over the grants of the engagement, which the table holds in the order of their revisions.
-- The grants before one that raises are already written.
unfoldable pub resolve_grants :
    ℕ
    → Datetime
    → List SpendAuthorizationGrant
    → Result Error (Unit {0}) × List SpendAuthorizationGrant
resolve_grants engagement_id now [] = (ok tt, [])
resolve_grants engagement_id now (grant ∷ rest) =
    let one = if engagement_id == grant.session_id then resolve_grant grant now else ok grant in
    let others = resolve_grants engagement_id now rest in together one others
  where
    together :
        Result Error SpendAuthorizationGrant
        → Result Error (Unit {0}) × List SpendAuthorizationGrant
        → Result Error (Unit {0}) × List SpendAuthorizationGrant
    together (err e) others = (err e, grant ∷ rest)
    together (ok g) (result, gs) = (result, g ∷ gs)

abbrev pub resolve_all : ℕ → Datetime → Sessions (Unit {0})
resolve_all engagement_id now db =
    let (result, grants) = resolve_grants engagement_id now db.grants in
    (result, record db { grants = grants })

-- `current` is the row of the session, which the loop has changed.
unfoldable pub mark_spend_authorization_operator_resolved :
    ℕ → String → Datetime → Sessions SpendAuthorizationGrant
mark_spend_authorization_operator_resolved engagement_id authorization_id now = do
  found ← gets (λ db. find_grant engagement_id authorization_id db.grants)
  current ← or_raise found (Rows.settlement_failed "missing_authorization")
  resolve_all engagement_id now
  gets (λ db. or_else (find_grant engagement_id authorization_id db.grants) current)
