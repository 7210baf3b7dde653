-- ===== src/Settlement/Keys.antt =====
-- `_authorize_key` of settlement_verification.py: whether the pinned delegations cover a signature.
pub mod Sound
use livepeer_open_clearingho.Base.{
  String, Option, none, some, List, [], ◌∷◌, Bool, true, false, not, ◌&&◌, ◌||◌, str_eq, leb,
  if◌then◌else◌,
}
use livepeer_open_clearingho.Base.Time.{Datetime}
use livepeer_open_clearingho.Base.Result.{Result, ok, err, refuse, ◌>>=◌, ◌>>◌}
use livepeer_open_clearingho.Settlement.Records.{Checked, rejected, type_error}

-- One pinned key of the registry; its fields may be missing.
pub record Delegation : Type 0 where
  pub public_key : Option String
  pub not_before : Option String
  pub expires_at : Option String

-- `a <= b` on two `datetime`s raises where one is naive and the other is aware.
abbrev pub le : Datetime → Datetime → Checked Bool
le a b =
    if a.aware && b.aware || not a.aware && not b.aware
    then ok (leb a.micros b.micros)
    else err type_error

abbrev pub is_key : Option String → String → Bool
is_key none public_key = false
is_key (some key) public_key = str_eq key public_key

-- `iso text` is `datetime.fromisoformat(text.replace("Z", "+00:00"))`, or none where that raises
-- `ValueError`.
module _ (iso : String → Option Datetime) where
  abbrev pub delegated_time : Option String → Checked Datetime
  delegated_time none = err (rejected "invalid_delegation")
  delegated_time (some text) = parsed (iso text)
    where
      parsed : Option Datetime → Checked Datetime
      parsed none = err (rejected "invalid_delegation")
      parsed (some t) = ok t

  -- `not_before <= issued_at <= expires_at`; the second test is made if the first one holds.
  abbrev pub upper : Datetime → Datetime → Bool → Checked Bool
  upper issued_at expires_at true = le issued_at expires_at
  upper issued_at expires_at false = ok false

  unfoldable pub covers : Delegation → Datetime → Checked Bool
  covers delegation issued_at = do
    not_before ← delegated_time delegation.not_before
    expires_at ← delegated_time delegation.expires_at
    started ← le not_before issued_at
    upper issued_at expires_at started

  unfoldable pub authorize_key : String → Datetime → List Delegation → Checked (Unit {0})
  authorize_key public_key issued_at [] = err (rejected "unauthorized_signing_key")
  authorize_key public_key issued_at (delegation ∷ rest) =
      let others = authorize_key public_key issued_at rest in
      if is_key delegation.public_key public_key
      then (do inside ← covers delegation issued_at; if inside then ok tt else others)
      else others
