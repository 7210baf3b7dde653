-- ===== src/Billing/Ledger.antt =====
-- domains/billing/service.py: the balance row, `_apply_delta`, and the top-ups.
use livepeer_open_clearingho.Base.{
  ℕ, ◌+◌, String, Option, none, some, [], ◌∷◌, ◌++◌, str_eq, if◌then◌else◌,
}
use livepeer_open_clearingho.Base.Int.{ℤ, pos, ◌+ℤ◌, neg, ltb_ℤ, leb_ℤ}
use livepeer_open_clearingho.Base.Action.{pure, raise, gets, ◌>>=◌, ◌>>◌}
use livepeer_open_clearingho.Billing.Rows
use livepeer_open_clearingho.Billing.Rows.{
  CreditBalance, CreditTopup, Reason, Related, unrelated, Db, Billing, find_balance, write_balance,
}

-- `if row is None: session.add(CreditBalance(...)); flush; re-fetch`
unfoldable pub or_create_balance : ℕ → Option CreditBalance → Billing CreditBalance
or_create_balance u (some row) db = pure row db
or_create_balance u none db =
    let row : CreditBalance = record { user_id = u; amount_wei = pos 0; version = 0 } in
    pure row (record db { balances = db.balances ++ row ∷ [] })

-- `_ensure_balance_row`
unfoldable pub ensure_balance_row : ℕ → Billing CreditBalance
unfolding or_create_balance
ensure_balance_row u = do row ← gets (λ db. find_balance u db.balances); or_create_balance u row

-- The writes of `_apply_delta` once the amount is known not to be negative.
unfoldable pub post_delta : CreditBalance → ℤ → ℕ → ℤ → Reason → Related → Billing CreditBalance
post_delta balance new_amount u delta_wei reason related db =
    let row : CreditBalance = record balance {
      amount_wei = new_amount;
      version = balance.version + 1;
    } in
    pure row (record db {
      balances = write_balance row db.balances;
      ledger =
          db.ledger
          ++ record { user_id = u; delta_wei = delta_wei; reason = reason; related = related } ∷ [];
    })

-- `_apply_delta`
unfoldable pub apply_delta : ℕ → ℤ → Reason → Related → Billing CreditBalance
unfolding ensure_balance_row post_delta
apply_delta u delta_wei reason related = do
  balance ← ensure_balance_row u
  let new_amount = balance.amount_wei +ℤ delta_wei
  if ltb_ℤ new_amount (pos 0)
      then raise (Rows.insufficient_credit balance.amount_wei (neg delta_wei))
      else post_delta balance new_amount u delta_wei reason related

-- `session.add(CreditTopup(...)); flush`: the row with its new id.
unfoldable pub add_topup : ℕ → ℤ → String → Option ℕ → Billing CreditTopup
add_topup u amount_wei kind operator_id db =
    let row : CreditTopup = record {
      id = db.next_id;
      user_id = u;
      amount_wei = amount_wei;
      topup_kind = kind;
      operator_id = operator_id;
    } in
    pure row (record db { topups = db.topups ++ row ∷ []; next_id = db.next_id + 1 })

unfoldable pub grant_initial_credit : ℕ → ℤ → ℕ → Billing (Option CreditTopup)
unfolding add_topup
grant_initial_credit u amount_wei operator_id = if leb_ℤ amount_wei (pos 0) then pure none else (do
  row ← add_topup u amount_wei "initial" (some operator_id)
  apply_delta u amount_wei Rows.topup
      (record unrelated { topup_row = some row.id; operator = some operator_id })
  pure (some row))

-- `"topup" if kind != "auto_replenish" else "auto_replenish"`
abbrev pub topup_reason : String → Reason
topup_reason kind = if str_eq kind "auto_replenish" then Rows.auto_replenish else Rows.topup

unfoldable pub topup : ℕ → ℤ → String → Option ℕ → Billing (CreditTopup × CreditBalance)
unfolding add_topup
topup u amount_wei kind operator_id = do
  row ← add_topup u amount_wei kind operator_id
  balance ←
      apply_delta u amount_wei (topup_reason kind)
        (record unrelated { topup_row = some row.id; operator = operator_id })
  pure (row, balance)

-- `get_balance`: the row, created lazily.
unfoldable pub get_balance : ℕ → Billing CreditBalance
unfolding or_create_balance
get_balance u = do row ← gets (λ db. find_balance u db.balances); or_create_balance u row
