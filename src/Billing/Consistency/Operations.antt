-- ===== src/Billing/Consistency/Operations.antt =====
-- The billing operations on consistent tables, whether they return or raise.
use livepeer_open_clearingho.Base.{
  ℕ, ◌+◌, String, ◌≡◌, refl, Option, none, some, List, [], ◌∷◌, Bool, true, false, arith,
}
use livepeer_open_clearingho.Base.Int.{ℤ, pos, ◌≤ℤ◌}
use livepeer_open_clearingho.Base.Time.{Datetime}
use livepeer_open_clearingho.Base.Action.{
  Keeps, Keeps-pure, Keeps-raise, Keeps-lift, Keeps-gets, Keeps-if, Keeps-bind, raise_if, modify,
}
use livepeer_open_clearingho.Billing.Rows.{
  CreditBalance, CreditLedger, Error, Db, Billing, find_balance,
}
use livepeer_open_clearingho.Billing.Ledger.{
  ensure_balance_row, add_topup, grant_initial_credit, topup, get_balance,
}
use livepeer_open_clearingho.Billing.Spend.{enforce_and_record_spend, get_or_create_spend_window}
use livepeer_open_clearingho.Billing.Charges.{
  charge_payment, refund_payment, encumber_for_session, release_session_encumbrance,
}
use livepeer_open_clearingho.Billing.Engagements.{
  replay_or, encumber_customer_engagement, increase_customer_engagement_cap,
  release_customer_engagement,
}
use livepeer_open_clearingho.Billing.Config.{
  Settings, replenish_user, replenish_users, run_auto_replenish, upsert_billing_config,
}
use livepeer_open_clearingho.Billing.Requests.{Op, perform, settle, serve, empty}
use livepeer_open_clearingho.Billing.Consistency.Views.{
  IsConsistent, balance_of, version_of, ledger_sum, ledger_count,
}
use livepeer_open_clearingho.Base.Result.{Result, ok, err}
use livepeer_open_clearingho.Billing.Consistency.Delta.{ensure-Keeps, apply_delta-Keeps}

-- A change of the other tables.
same_books :
    {db db' : Db}
    → db'.balances ≡ db.balances
    → db'.ledger ≡ db.ledger
    → IsConsistent db
    → IsConsistent db'
same_books b l c = record {
  sums = λ u. rw (b, l) (c.sums u);
  nonneg = λ u. rw b (c.nonneg u);
  versions = λ u. rw (b, l) (c.versions u);
}

add_topup-Keeps :
    (u : ℕ) (x : ℤ) (kind : String) (o : Option ℕ) → Keeps IsConsistent (add_topup u x kind o)
unfolding add_topup
add_topup-Keeps u x kind o = record { after = λ db c. same_books refl refl c }

pub window-Keeps :
    (u : ℕ) (s e : Datetime) (cap : ℤ) → Keeps IsConsistent (get_or_create_spend_window u s e cap)
unfolding get_or_create_spend_window
window-Keeps u s e cap = record { after = λ db c. same_books (ground arith) (ground arith) c }

modify-Keeps :
    (f : Db → Db)
    → ((db : Db) → (f db).balances ≡ db.balances)
    → ((db : Db) → (f db).ledger ≡ db.ledger)
    → Keeps {E = Error} IsConsistent (modify f)
modify-Keeps f b l = record { after = λ db c. same_books (b db) (l db) c }

raise_if-Keeps : (b : Bool) (e : Error) → Keeps IsConsistent (raise_if b e)
raise_if-Keeps true e = record { after = λ db c. c }
raise_if-Keeps false e = record { after = λ db c. c }

replay_or-Keeps :
    (row : Option CreditLedger) (δ : ℤ) (e : Error) (b : CreditBalance)
    (rest : Billing CreditBalance)
    → Keeps IsConsistent rest
    → Keeps IsConsistent (replay_or row δ e b rest)
replay_or-Keeps none δ e b rest k = k
replay_or-Keeps (some row) δ e b rest k = search (Keeps-if, Keeps-raise, Keeps-pure)

ruleset keeps_rules = (
  Keeps-pure, Keeps-raise, Keeps-lift, Keeps-gets, Keeps-if, Keeps-bind, ensure-Keeps,
  apply_delta-Keeps, add_topup-Keeps, window-Keeps, raise_if-Keeps, replay_or-Keeps,
)

spend-Keeps :
    (u : ℕ) (x : ℤ) (now : Datetime) (period : ℕ) (cap : ℤ)
    → Keeps IsConsistent (enforce_and_record_spend u x now period cap)
unfolding enforce_and_record_spend
spend-Keeps u x now period cap = Keeps-if _ _ _ (Keeps-pure tt) (
    Keeps-bind _ _ (Keeps-lift _) λ bounds.
      Keeps-bind _ _ (window-Keeps u bounds.0 bounds.1 cap)
        λ w. Keeps-bind _ _ (raise_if-Keeps _ _) λ _. modify-Keeps _ (λ db. refl) (λ db. refl))

topup-Keeps : (u : ℕ) (x : ℤ) (kind : String) (o : Option ℕ) → Keeps IsConsistent (topup u x kind o)
unfolding topup
topup-Keeps u x kind o = search keeps_rules

replenish_user-Keeps : (s : Settings) (u : ℕ) → Keeps IsConsistent (replenish_user s u)
unfolding replenish_user
replenish_user-Keeps s u = search (keeps_rules, topup-Keeps) depth 9

replenish_users-Keeps : (s : Settings) (us : List ℕ) → Keeps IsConsistent (replenish_users s us)
unfolding replenish_users
replenish_users-Keeps s [] = Keeps-pure 0
replenish_users-Keeps s (u ∷ us) =
    Keeps-bind _ _ (replenish_user-Keeps s u)
      λ a. Keeps-bind _ _ (replenish_users-Keeps s us) λ b. Keeps-pure (a + b)

upsert-Keeps :
    (u o : ℕ) (period : Option ℕ) (cap increment threshold : Option ℤ)
    → Keeps IsConsistent (upsert_billing_config u o period cap increment threshold)
unfolding upsert_billing_config
upsert-Keeps u o period cap increment threshold = record { after = λ db c. same_books refl refl c }

-- Whatever the operation and its arguments.
pub perform-Keeps : (op : Op) → Keeps IsConsistent (perform op)
unfolding perform grant_initial_credit get_balance charge_payment refund_payment
    encumber_for_session release_session_encumbrance encumber_customer_engagement
    increase_customer_engagement_cap release_customer_engagement run_auto_replenish
    ensure_balance_row
perform-Keeps (Op.grant_initial u x o) = search keeps_rules depth 8
perform-Keeps (Op.topup u x k o) = search (keeps_rules, topup-Keeps)
perform-Keeps (Op.charge u x p now period cap) = search (keeps_rules, spend-Keeps)
perform-Keeps (Op.refund u x p) = search keeps_rules
perform-Keeps (Op.encumber_session u p x now period cap) = search (keeps_rules, spend-Keeps)
perform-Keeps (Op.release_session u p x) = search keeps_rules
perform-Keeps (Op.encumber_engagement u e x now period cap) =
    search (keeps_rules, spend-Keeps) depth 9
perform-Keeps (Op.increase_cap u e r x now period cap) = search (keeps_rules, spend-Keeps) depth 9
perform-Keeps (Op.release_engagement u e x) = search keeps_rules depth 9
perform-Keeps (Op.read_balance u) = search keeps_rules
perform-Keeps (Op.override u o period cap increment threshold) = search (keeps_rules, upsert-Keeps)
perform-Keeps (Op.replenish s) =
    Keeps-bind _ _ (Keeps-bind _ _ (Keeps-gets _) (replenish_users-Keeps s)) λ n. Keeps-pure tt

-- After any history of requests the ledger and the balances agree, and nobody owes.
pub serve-IsConsistent : (ops : List Op) (db : Db) → IsConsistent db → IsConsistent (serve ops db)
unfolding serve
serve-IsConsistent [] db c = c
serve-IsConsistent (op ∷ ops) db c =
    serve-IsConsistent ops (settle db (perform op db))
      (settle-IsConsistent db (perform op db) c ((perform-Keeps op).after db c))
  where
    settle-IsConsistent :
        (db : Db) (r : Result Error (Unit {0}) × Db)
        → IsConsistent db
        → IsConsistent r.1
        → IsConsistent (settle db r)
    settle-IsConsistent db (ok a, db') c c' = c'
    settle-IsConsistent db (err e, db') c c' = c

pub empty-IsConsistent : IsConsistent empty
empty-IsConsistent = record { sums = λ u. refl; nonneg = λ u. omega arith; versions = λ u. refl }

-- From an empty database, whatever requests are served, each user's ledger rows add up to the
-- user's balance, the balance is not negative, and its version counts the user's ledger rows.
pub ledger_is_source_of_truth :
    (ops : List Op) (u : ℕ)
    → let db = serve ops empty in
      (ledger_sum u db.ledger ≡ balance_of u db)
      × (pos 0 ≤ℤ balance_of u db)
      × (ledger_count u db.ledger ≡ version_of (find_balance u db.balances))
ledger_is_source_of_truth ops u =
    let c = serve-IsConsistent ops empty empty-IsConsistent in (c.sums u, c.nonneg u, c.versions u)
