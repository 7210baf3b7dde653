-- ===== src/Billing/Tests.antt =====
-- The theorems of billing at concrete requests, and runs of the service.
use livepeer_open_clearingho.Base.{
  ℕ, ◌+◌, ◌-◌, ◌*◌, ◌≡◌, ◌≤◌, ◌<◌, ◌⊎◌, refl, none, some, List, [], ◌∷◌, ◌++◌, true, arith, is_some,
  if◌then◌else◌,
}
use livepeer_open_clearingho.Base.Int.{ℤ, pos, neg, ◌+ℤ◌, ◌-ℤ◌, ◌≤ℤ◌, ◌<ℤ◌, int_laws}
use livepeer_open_clearingho.Base.Time.{Zone, Datetime, from_seconds}
use livepeer_open_clearingho.Base.Result.{ok, err}
use livepeer_open_clearingho.Billing.Rows
use livepeer_open_clearingho.Billing.Rows.{
  CreditBalance, Db, Related, unrelated, find_balance, Error,
}
use livepeer_open_clearingho.Billing.Ledger.{apply_delta, post_delta, topup, ensure_balance_row}
use livepeer_open_clearingho.Billing.Charges.{charge_payment, refund_payment, for_payment}
use livepeer_open_clearingho.Billing.Engagements.{
  encumber_customer_engagement, increase_customer_engagement_cap, release_customer_engagement,
}
use livepeer_open_clearingho.Billing.Config.{
  Settings, run_auto_replenish, balance_users, upsert_billing_config,
}
use livepeer_open_clearingho.Billing.Spend.{
  window_bounds_in, window_bounds_for, enforce_and_record_spend, get_or_create_spend_window,
  spent_in,
}
use livepeer_open_clearingho.Billing.Pricing.{
  CustomerPricingSnapshot, unit_price, validate, calculate_customer_charge,
}
use livepeer_open_clearingho.Billing.Pricing.Exact.{calculate-exact, exact_charge}
use livepeer_open_clearingho.Billing.Requests.{Op, serve, empty, perform}
use livepeer_open_clearingho.Billing.Consistency.Views.{
  balance_of, version_of, ledger_sum, ledger_count,
}
use livepeer_open_clearingho.Billing.Consistency.Delta.{entry}
use livepeer_open_clearingho.Billing.Consistency.Operations.{
  ledger_is_source_of_truth, serve-IsConsistent, empty-IsConsistent,
}
use livepeer_open_clearingho.Billing.Transfers.{Moves, apply_delta-Moves, charge_then_refund}
use livepeer_open_clearingho.Billing.SpendCaps.{
  window_at, cap_in, window_bounds-contain, enforce-decides,
}
use livepeer_open_clearingho.Billing.SpendTotals.{Spend, Holds, spends-le-cap, spend_run}
use livepeer_open_clearingho.Billing.Replays.{Replays, encumber_engagement_replay}
use livepeer_open_clearingho.Billing.Replenish.{count_due, replenished, member, IsDistinct}
use livepeer_open_clearingho.Billing.Replenish.Loop.{run_auto_replenish_lem}
use livepeer_open_clearingho.Base.{◌↔◌}
use livepeer_open_clearingho.Billing.Spend.{finite, remaining_window_room}
use livepeer_open_clearingho.Billing.SpendRoom.{remaining_window_room-decides}

abbrev noon : Datetime
noon = from_seconds 43205

-- A grant, a charge, a charge beyond the balance, and a second user who only reads the balance.
abbrev history : List Op
history =
    Op.grant_initial 1 (pos 100) 9
    ∷ Op.charge 1 (pos 30) 7 noon 3600 (pos 50)
    ∷ Op.charge 1 (pos 90) 8 noon 3600 (pos 0)
    ∷ Op.read_balance 2
    ∷ []

abbrev tables : Db
tables = record {
  balances =
      record { user_id = 1; amount_wei = pos 100; version = 1 }
      ∷ record { user_id = 2; amount_wei = pos 5; version = 1 }
      ∷ [];
  ledger = [];
  topups = [];
  windows = [];
  configs = [];
  next_id = 4;
}

ledger_is_source_of_truth_example :
    (ledger_sum 1 (serve history empty).ledger ≡ balance_of 1 (serve history empty))
    × (pos 0 ≤ℤ balance_of 1 (serve history empty))
    × (ledger_count 1 (serve history empty).ledger
        ≡ version_of (find_balance 1 (serve history empty).balances))
ledger_is_source_of_truth_example = ledger_is_source_of_truth history 1

apply_delta-Moves_example :
    Moves 1
      (neg (pos 30))
      Rows.payment_charge
      (for_payment 7)
      tables
      (apply_delta 1 (neg (pos 30)) Rows.payment_charge (for_payment 7) tables)
apply_delta-Moves_example =
    apply_delta-Moves 1 (neg (pos 30)) Rows.payment_charge (for_payment 7) tables

charged :
    (charge_payment 1 (pos 30) 7 noon 3600 (pos 50) tables).0
    ≡ ok (record { user_id = 1; amount_wei = pos 70; version = 2 })
unfolding charge_payment enforce_and_record_spend get_or_create_spend_window window_bounds_for
    apply_delta post_delta ◌+ℤ◌ ◌-ℤ◌
charged = refl

charge_then_refund_example :
    let db₁ = (charge_payment 1 (pos 30) 7 noon 3600 (pos 50) tables).1 in
    let (res₂, db₂) = refund_payment 1 (pos 30) 7 db₁ in
    ((c : CreditBalance) × (res₂ ≡ ok c))
    × ((v : ℕ) → balance_of v db₂ ≡ balance_of v tables)
    × (db₂.ledger
        ≡ ([] ++ entry 1 (neg (pos 30)) Rows.payment_charge (for_payment 7) ∷ [])
          ++ entry 1 (pos 30) Rows.payment_refund (for_payment 7) ∷ [])
charge_then_refund_example =
    charge_then_refund 1 (pos 30) 7 noon 3600 (pos 50) tables
      (record { user_id = 1; amount_wei = pos 70; version = 2 }) (omega int_laws) charged

-- Two hours ahead of UTC.
abbrev summer : Zone
summer = record { wall = λ t. t + 7200000000; instant = λ w. w - 7200000000 }

window_bounds-contain_example :
    (start : Datetime) × (end : Datetime) × (window_bounds_in summer noon 3600 ≡ ok (start, end))
    × (start.micros ≤ noon.micros)
    × (noon.micros < end.micros)
    × (end.micros ≡ start.micros + 3600 * 1000000)
window_bounds-contain_example =
    window_bounds-contain summer noon 3600 (λ t d. omega arith) refl (omega arith)

hour : window_bounds_for noon 3600 ≡ ok (from_seconds 43200, from_seconds 46800)
unfolding window_bounds_for
hour = refl

enforce-decides_example :
    let before = window_at 1 (from_seconds 43200) tables in
    let after = spent_in before +ℤ pos 30 in
    let (r, db') = enforce_and_record_spend 1 (pos 30) noon 3600 (pos 50) tables in
    ((r ≡ err (Rows.spend_cap_exceeded (cap_in (pos 50) before) after))
      × (cap_in (pos 50) before <ℤ after))
    ⊎ ((r ≡ ok tt)
        × (after ≤ℤ cap_in (pos 50) before)
        × (is_some (window_at 1 (from_seconds 43200) db') ≡ true)
        × (spent_in (window_at 1 (from_seconds 43200) db') ≡ after)
        × (cap_in (pos 50) (window_at 1 (from_seconds 43200) db') ≡ cap_in (pos 50) before))
enforce-decides_example =
    enforce-decides 1 (pos 30) noon 3600 (pos 50) tables (from_seconds 43200) (from_seconds 46800)
      (omega int_laws) hour

-- The window of the hour, with 20 of 50 spent.
abbrev opened : Db
opened = record tables {
  windows =
      record {
        user_id = 1;
        window_start = from_seconds 43200;
        window_end = from_seconds 46800;
        spent_wei = pos 20;
        cap_wei = pos 50;
      }
      ∷ [];
}

-- The second spend would pass the cap.
abbrev spends : List Spend
spends = (pos 25, noon, pos 50) ∷ (pos 10, noon, pos 90) ∷ []

spends-le-cap_example :
    let (total, db') = spend_run 1 3600 spends opened in
    Holds 1 3600 (from_seconds 43200) (from_seconds 46800) (pos 20 +ℤ total) (pos 50) db'
    × (pos 20 +ℤ total ≤ℤ pos 50)
spends-le-cap_example =
    spends-le-cap 1 3600 (from_seconds 43200) (from_seconds 46800) spends (pos 20) (pos 50) opened
      ((hour, omega int_laws), ((hour, omega int_laws), tt))
      (
        record {
          user_id = 1;
          window_start = from_seconds 43200;
          window_end = from_seconds 46800;
          spent_wei = pos 20;
          cap_wei = pos 50;
        },
        refl,
        refl,
        refl,
      )
      (omega int_laws)

abbrev row_after : ℕ → ℕ → CreditBalance
row_after amount version = record { user_id = 1; amount_wei = pos amount; version = version }

held : (encumber_customer_engagement 1 6 (pos 40) noon 3600 (pos 50) tables).0 ≡ ok (row_after 60 2)
unfolding encumber_customer_engagement enforce_and_record_spend get_or_create_spend_window
    window_bounds_for apply_delta post_delta ensure_balance_row ◌+ℤ◌ ◌-ℤ◌
held = refl

encumber_engagement_replay_example :
    let db' = (encumber_customer_engagement 1 6 (pos 40) noon 3600 (pos 50) tables).1 in
    Replays 1 6 Rows.engagement_encumbrance
      (neg (pos 40))
      (neg (pos 41))
      Rows.engagement_replay_changed_amount
      db'
      (encumber_customer_engagement 1 6 (pos 41) noon 60 (pos 0) db')
encumber_engagement_replay_example =
    encumber_engagement_replay 1 6 (pos 40) (pos 41) tables (row_after 60 2) noon noon 3600 60
      (pos 50) (pos 0) held

released : (release_customer_engagement 1 6 (pos 40) tables).0 ≡ ok (row_after 140 2)
unfolding release_customer_engagement apply_delta post_delta ensure_balance_row ◌+ℤ◌ ◌-ℤ◌
released = refl

increased :
    (increase_customer_engagement_cap 1 6 2 (pos 10) noon 3600 (pos 50) tables).0
    ≡ ok (row_after 90 2)
unfolding increase_customer_engagement_cap enforce_and_record_spend get_or_create_spend_window
    window_bounds_for apply_delta post_delta ensure_balance_row ◌+ℤ◌ ◌-ℤ◌
increased = refl

-- Two users with a balance, the second one with an override that makes it due.
abbrev armed : List Op
armed =
    Op.topup 1 (pos 100) "manual" none
    ∷ Op.topup 2 (pos 5) "manual" none
    ∷ Op.override 2 9 none none (some (pos 50)) (some (pos 20))
    ∷ []

abbrev settings : Settings
settings = record {
  default_spend_period_seconds = 3600;
  default_spend_period_cap_wei = pos 50;
  auto_replenish_increment_wei = pos 0;
}

distinct : IsDistinct (balance_users (serve armed empty).balances)
unfolding serve perform topup upsert_billing_config apply_delta post_delta ◌+ℤ◌ ◌-ℤ◌
distinct = (refl, (refl, tt))

run_auto_replenish_lem_example :
    let db = serve armed empty in
    let (res, db') = run_auto_replenish settings db in
    (res ≡ ok (count_due settings db (balance_users db.balances)))
    × ((v : ℕ)
        → balance_of v db' ≡ (
            if member v (balance_users db.balances)
            then replenished settings db v
            else balance_of v db))
run_auto_replenish_lem_example =
    run_auto_replenish_lem settings (serve armed empty)
      (serve-IsConsistent armed empty empty-IsConsistent) distinct

-- 15 wei for 10 units.
abbrev price : CustomerPricingSnapshot
price = record {
  schema_version = "customer-pricing/v1";
  plan_id = "retail";
  kind = unit_price;
  denomination = "wei";
  work_unit = "token";
  price_per_unit_wei = some (record { coefficient = 15; places = 0 });
  units_per_price = some 10;
  fee_basis_points = none;
}

valid_price : validate price ≡ ok tt
unfolding validate
valid_price = refl

calculate-exact_example :
    calculate_customer_charge price (pos 7) (pos 3)
    ≡ ok (exact_charge unit_price price.price_per_unit_wei (some 10) none 7 3)
calculate-exact_example =
    calculate-exact price 7 3 valid_price (1, omega arith, omega arith, omega arith)

remaining_window_room-decides_example :
    (room : ℤ) × (remaining_window_room 1 noon 3600 (pos 50) opened ≡ (ok (finite room), opened))
    × (pos 30 ≤ℤ room ↔ ((enforce_and_record_spend 1 (pos 30) noon 3600 (pos 50) opened).0 ≡ ok tt))
remaining_window_room-decides_example =
    remaining_window_room-decides 1 (pos 30) noon 3600 (pos 50) opened (from_seconds 43200)
      (from_seconds 46800) (omega int_laws) hour refl
