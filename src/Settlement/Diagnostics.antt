-- ===== src/Settlement/Diagnostics.antt =====
-- `_parse_timestamp` and `_verify_session_diagnostics` of settlement_verification.py.
use Prim.Native.Char.{code}
use livepeer_open_clearingho.Base.{
  ℕ, String, Option, none, some, List, [], ◌∷◌, Bool, true, false, not, ◌&&◌, ◌||◌, ◌==◌, str_eq,
  leb, length, if◌then◌else◌,
}
use livepeer_open_clearingho.Base.Time.{Datetime}
use livepeer_open_clearingho.Base.Result.{ok, err, refuse, ◌>>=◌, ◌>>◌}
use livepeer_open_clearingho.Settlement.Records.{Checked, rejected, SettlementRecord, breakdown_get}

abbrev pub codes : String → List ℕ
codes String.[] = []
codes (String.◌∷◌ c s) = code c ∷ codes s

-- The f-string of a prefix and a field name.
abbrev pub joined : String → String → String
joined String.[] field = field
joined (String.◌∷◌ c s) field = String.◌∷◌ c (joined s field)

abbrev pub is_lower : ℕ → Bool
is_lower c = leb 97 c && leb c 122

-- `[a-z0-9_]`
abbrev pub is_code_char : ℕ → Bool
is_code_char c = is_lower c || leb 48 c && leb c 57 || c == 95

abbrev pub all_code_chars : List ℕ → Bool
all_code_chars [] = true
all_code_chars (c ∷ cs) = is_code_char c && all_code_chars cs

abbrev pub is_safe_text : List ℕ → Bool
is_safe_text [] = false
is_safe_text (c ∷ cs) = is_lower c && all_code_chars cs && leb (length cs) 63

-- `_SAFE_CODE.fullmatch(value) is not None`
abbrev pub is_safe_code : String → Bool
is_safe_code value = is_safe_text (codes value)

-- `value is not None and _SAFE_CODE.fullmatch(value) is None`
abbrev pub is_unsafe : Option String → Bool
is_unsafe none = false
is_unsafe (some value) = not (is_safe_code value)

abbrev pub is_output_state : String → Bool
is_output_state s =
    str_eq s "unknown" || str_eq s "waiting" || str_eq s "producing" || str_eq s "stalled"

abbrev pub is_unknown_state : Option String → Bool
is_unknown_state none = false
is_unknown_state (some s) = not (is_output_state s)

-- `breakdown.get(key) or None`
abbrev pub nonempty : Option String → Option String
nonempty none = none
nonempty (some value) = if str_eq value "" then none else some value

pub record Diagnostics : Type 0 where
  pub termination_reason : Option String
  pub output_state : Option String
  pub output_state_since : Option Datetime
  pub last_failure_code : Option String

-- `iso text` is `datetime.fromisoformat(text.replace("Z", "+00:00"))`, or none where that raises
-- `ValueError`.
module _ (iso : String → Option Datetime) where
  abbrev pub require_aware : String → Option Datetime → Checked Datetime
  require_aware field none = err (rejected (joined "invalid_" field))
  require_aware field (some parsed) =
      if parsed.aware then ok parsed else err (rejected (joined "invalid_" field))

  -- A value that is no text is none.
  abbrev pub parse_timestamp : Option String → String → Checked Datetime
  parse_timestamp none field = err (rejected (joined "missing_" field))
  parse_timestamp (some value) field =
      if str_eq value ""
      then err (rejected (joined "missing_" field))
      else require_aware field (iso value)

  abbrev pub parse_since : Option String → Checked (Option Datetime)
  parse_since none = ok none
  parse_since (some raw) = do
    since ← parse_timestamp (some raw) "output_state_since"
    ok (some since)

  unfoldable pub verify_session_diagnostics : SettlementRecord → Checked Diagnostics
  verify_session_diagnostics record' = do
    let breakdown = record'.breakdown
    let termination_reason = nonempty (breakdown_get "termination_reason" breakdown)
    let output_state = nonempty (breakdown_get "output_state" breakdown)
    let last_failure_code = nonempty (breakdown_get "last_failure_code" breakdown)
    refuse (is_unsafe termination_reason) (rejected "termination_reason_invalid")
    refuse (is_unknown_state output_state) (rejected "output_state_invalid")
    since ← parse_since (nonempty (breakdown_get "output_state_since" breakdown))
    refuse (is_unsafe last_failure_code) (rejected "last_failure_code_invalid")
    ok (record {
      termination_reason = termination_reason;
      output_state = output_state;
      output_state_since = since;
      last_failure_code = last_failure_code;
    })
