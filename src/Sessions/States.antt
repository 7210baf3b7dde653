-- ===== src/Sessions/States.antt =====
-- `transition_state` and `record_settlement` of domains/sessions/service.py: the life of an
-- engagement.
pub mod Machine
use livepeer_open_clearingho.Base.{
  ℕ, String, Option, none, some, List, [], ◌∷◌, ◌++◌, Bool, true, false, not, ◌&&◌, ◌||◌, str_eq,
  if◌then◌else◌,
}
use livepeer_open_clearingho.Base.Int.{ℤ}
use livepeer_open_clearingho.Base.Json.{Fields}
use livepeer_open_clearingho.Base.Time.{Datetime}
use livepeer_open_clearingho.Base.Action.{pure, gets, modify, raise_if, ◌>>=◌, ◌>>◌}
use livepeer_open_clearingho.Sessions.Rows
use livepeer_open_clearingho.Sessions.Rows.{
  PaymentSession, PaymentSettlement, Db, Error, Sessions, find_session, write_session, or_raise,
}

abbrev pub is_open : String → Bool
is_open s = str_eq s "open"

abbrev pub is_closed : String → Bool
is_closed s = str_eq s "closed"

-- SESSION_STATES
abbrev pub is_state : String → Bool
is_state s = str_eq s "open" || str_eq s "draining" || str_eq s "closed"

-- _ALLOWED_TRANSITIONS
abbrev pub is_allowed : String → String → Bool
is_allowed from_state to_state =
    str_eq from_state "open" && (str_eq to_state "draining" || str_eq to_state "closed")
    || str_eq from_state "draining" && str_eq to_state "closed"

abbrev pub moved : PaymentSession → String → Datetime → PaymentSession
moved row to_state now = record row {
  state = to_state;
  closed_at = if is_closed to_state then some now else row.closed_at;
}

abbrev pub put_session : PaymentSession → Db → Db
put_session row db = record db { sessions = write_session row db.sessions }

-- `now` is what the clock returns.
unfoldable pub transition_state : ℕ → String → String → Datetime → Sessions PaymentSession
transition_state session_id from_state to_state now = do
  raise_if (not (is_state from_state) || not (is_state to_state)) Rows.invalid_session_state
  raise_if (not (is_allowed from_state to_state)) Rows.invalid_session_transition
  found ← gets (λ db. find_session session_id db.sessions)
  row ← or_raise found Rows.session_not_found
  raise_if (not (str_eq row.state from_state)) Rows.invalid_session_transition
  let row' = moved row to_state now
  modify (put_session row')
  pure row'

abbrev pub settlement_event :
    ℕ → String → Datetime → Option ℕ → Option ℤ → Option String → Option Fields → PaymentSettlement
settlement_event session_id event_type now actual_units billed_value_wei outcome raw_record =
    record {
      session_id = session_id;
      recorded_at = now;
      event_type = event_type;
      actual_units = actual_units;
      billed_value_wei = billed_value_wei;
      outcome = outcome;
      raw_record = raw_record;
    }

unfoldable pub record_settlement : PaymentSettlement → Sessions (Unit {0})
record_settlement row = modify (λ db. record db { settlements = db.settlements ++ row ∷ [] })
