-- ===== src/Billing/Requests.antt =====
-- A history of requests to the billing service. Each runs in a transaction of its own: a return is
-- committed, and an exception rolls back all that the request had pending.
use livepeer_open_clearingho.Base.{ℕ, String, Option, List, [], ◌∷◌}
use livepeer_open_clearingho.Base.Int.{ℤ}
use livepeer_open_clearingho.Base.Time.{Datetime}
use livepeer_open_clearingho.Base.Result.{Result, ok, err}
use livepeer_open_clearingho.Base.Action.{pure, ◌>>◌}
use livepeer_open_clearingho.Billing.Rows.{Error, Db, Billing}
use livepeer_open_clearingho.Billing.Ledger
use livepeer_open_clearingho.Billing.Charges
use livepeer_open_clearingho.Billing.Engagements
use livepeer_open_clearingho.Billing.Config
use livepeer_open_clearingho.Billing.Config.{Settings}

-- One constructor for each operation of the service that may write, with its arguments.
pub data Op : Type 0 where
  grant_initial : ℕ → ℤ → ℕ → Op
  topup : ℕ → ℤ → String → Option ℕ → Op
  charge : ℕ → ℤ → ℕ → Datetime → ℕ → ℤ → Op
  refund : ℕ → ℤ → ℕ → Op
  encumber_session : ℕ → ℕ → ℤ → Datetime → ℕ → ℤ → Op
  release_session : ℕ → ℕ → ℤ → Op
  encumber_engagement : ℕ → ℕ → ℤ → Datetime → ℕ → ℤ → Op
  increase_cap : ℕ → ℕ → ℕ → ℤ → Datetime → ℕ → ℤ → Op
  release_engagement : ℕ → ℕ → ℤ → Op
  read_balance : ℕ → Op
  override : ℕ → ℕ → Option ℕ → Option ℤ → Option ℤ → Option ℤ → Op
  replenish : Settings → Op

unfoldable pub perform : Op → Billing (Unit {0})
perform (Op.grant_initial u x o) = Ledger.grant_initial_credit u x o >> pure tt
perform (Op.topup u x k o) = Ledger.topup u x k o >> pure tt
perform (Op.charge u x p now period cap) = Charges.charge_payment u x p now period cap >> pure tt
perform (Op.refund u x p) = Charges.refund_payment u x p >> pure tt
perform (Op.encumber_session u p x now period cap) =
    Charges.encumber_for_session u p x now period cap >> pure tt
perform (Op.release_session u p x) = Charges.release_session_encumbrance u p x >> pure tt
perform (Op.encumber_engagement u e x now period cap) =
    Engagements.encumber_customer_engagement u e x now period cap >> pure tt
perform (Op.increase_cap u e r x now period cap) =
    Engagements.increase_customer_engagement_cap u e r x now period cap >> pure tt
perform (Op.release_engagement u e x) = Engagements.release_customer_engagement u e x >> pure tt
perform (Op.read_balance u) = Ledger.get_balance u >> pure tt
perform (Op.override u o period cap increment threshold) =
    Config.upsert_billing_config u o period cap increment threshold >> pure tt
perform (Op.replenish settings) = Config.run_auto_replenish settings >> pure tt

-- Commit or roll back.
abbrev pub settle : Db → Result Error (Unit {0}) × Db → Db
settle db (ok a, db') = db'
settle db (err e, db') = db

unfoldable pub serve : List Op → Db → Db
serve [] db = db
serve (op ∷ ops) db = serve ops (settle db (perform op db))

abbrev pub empty : Db
empty = record { balances = []; ledger = []; topups = []; windows = []; configs = []; next_id = 0 }
