-- ===== src/Billing/Rows.antt =====
-- The tables of domains/billing/repo.py, the exceptions that billing raises, and the look-ups by
-- primary key. Wei amounts are whole numbers, as `Decimal(int)` builds them; Python's `int` and
-- `Decimal` are signed, so they are integers here. A `uuid4` is a number drawn from `next_id`.
use livepeer_open_clearingho.Base.{
  ℕ, ◌+◌, String, Option, none, some, List, [], ◌∷◌, Bool, false, ◌==◌, ◌&&◌, if◌then◌else◌,
}
use livepeer_open_clearingho.Base.Int.{ℤ}
use livepeer_open_clearingho.Base.Time.{Datetime}
use livepeer_open_clearingho.Base.Action.{Action}

pub record CreditBalance : Type 0 where
  pub user_id : ℕ
  pub amount_wei : ℤ
  pub version : ℕ

-- The texts of `credit_ledger.reason`; the f-string of a cap revision carries its number.
pub data Reason : Type 0 where
  topup auto_replenish payment_charge payment_refund : Reason
  session_encumbrance session_release engagement_encumbrance engagement_release : Reason
  engagement_cap_revision : ℕ → Reason

-- Equality of two reasons is equality of these codes.
abbrev pub reason_code : Reason → ℕ
reason_code topup = 0
reason_code auto_replenish = 1
reason_code payment_charge = 2
reason_code payment_refund = 3
reason_code session_encumbrance = 4
reason_code session_release = 5
reason_code engagement_encumbrance = 6
reason_code engagement_release = 7
reason_code (engagement_cap_revision r) = 8 + r

-- The four foreign keys of a ledger row.
pub record Related : Type 0 where
  pub payment : Option ℕ
  pub engagement : Option ℕ
  pub topup_row : Option ℕ
  pub operator : Option ℕ

abbrev pub unrelated : Related
unrelated = record { payment = none; engagement = none; topup_row = none; operator = none }

pub record CreditLedger : Type 0 where
  pub user_id : ℕ
  pub delta_wei : ℤ
  pub reason : Reason
  pub related : Related

pub record CreditTopup : Type 0 where
  pub id : ℕ
  pub user_id : ℕ
  pub amount_wei : ℤ
  pub topup_kind : String
  pub operator_id : Option ℕ

pub record SpendWindow : Type 0 where
  pub user_id : ℕ
  pub window_start : Datetime
  pub window_end : Datetime
  pub spent_wei : ℤ
  pub cap_wei : ℤ

pub record UserBillingConfig : Type 0 where
  pub user_id : ℕ
  pub spend_period_seconds : Option ℕ
  pub spend_period_cap_wei : Option ℤ
  pub auto_replenish_increment_wei : Option ℤ
  pub auto_replenish_threshold_wei : Option ℤ
  pub updated_by_operator_id : Option ℕ

pub record Db : Type 0 where
  pub balances : List CreditBalance
  pub ledger : List CreditLedger
  pub topups : List CreditTopup
  pub windows : List SpendWindow
  pub configs : List UserBillingConfig
  pub next_id : ℕ

pub data Error : Type 0 where
  insufficient_credit : (available_wei required_wei : ℤ) → Error
  spend_cap_exceeded : (cap_wei would_be_spent_wei : ℤ) → Error
  naive_clock : Error
  zero_division : Error
  engagement_replay_changed_amount : Error
  cap_revision_not_positive : Error
  cap_revision_replay_changed_amount : Error
  release_replay_changed_amount : Error
  negative_usage : Error
  missing_price : Error

abbrev pub Billing : Type 0 → Type 0
Billing A = Action Error Db A

-- `select(CreditBalance).where(CreditBalance.user_id == user_id)`
abbrev pub find_balance : ℕ → List CreditBalance → Option CreditBalance
find_balance u [] = none
find_balance u (row ∷ rows) = if u == row.user_id then some row else find_balance u rows

-- The row with the primary key of `row` takes its columns; where there is none, it is added.
abbrev pub write_balance : CreditBalance → List CreditBalance → List CreditBalance
write_balance row [] = row ∷ []
write_balance row (r ∷ rows) =
    if row.user_id == r.user_id then row ∷ rows else r ∷ write_balance row rows

-- `datetime` equality on aware times is equality of the instants.
abbrev pub window_key_eq : ℕ → Datetime → SpendWindow → Bool
window_key_eq u start w = u == w.user_id && start.micros == w.window_start.micros

abbrev pub find_window : ℕ → Datetime → List SpendWindow → Option SpendWindow
find_window u start [] = none
find_window u start (w ∷ ws) = if window_key_eq u start w then some w else find_window u start ws

abbrev pub write_window : SpendWindow → List SpendWindow → List SpendWindow
write_window w [] = w ∷ []
write_window w (v ∷ vs) =
    if window_key_eq w.user_id w.window_start v then w ∷ vs else v ∷ write_window w vs

abbrev pub find_config : ℕ → List UserBillingConfig → Option UserBillingConfig
find_config u [] = none
find_config u (c ∷ cs) = if u == c.user_id then some c else find_config u cs

abbrev pub write_config : UserBillingConfig → List UserBillingConfig → List UserBillingConfig
write_config c [] = c ∷ []
write_config c (d ∷ ds) = if c.user_id == d.user_id then c ∷ ds else d ∷ write_config c ds

abbrev pub option_eq : Option ℕ → ℕ → Bool
option_eq none k = false
option_eq (some j) k = j == k

-- The ledger row of one engagement with one reason.
abbrev pub find_engagement_row : ℕ → Reason → List CreditLedger → Option CreditLedger
find_engagement_row e reason [] = none
find_engagement_row e reason (l ∷ ls) =
    if option_eq l.related.engagement e && reason_code l.reason == reason_code reason
    then some l
    else find_engagement_row e reason ls
