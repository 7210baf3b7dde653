-- ===== src/Billing/Config.antt =====
-- domains/billing/service.py: the per-user billing configuration and the proactive replenishment.
use livepeer_open_clearingho.Base.{
  ℕ, ◌+◌, Option, none, some, List, [], ◌∷◌, Bool, true, false, or_else, if◌then◌else◌,
}
use livepeer_open_clearingho.Base.Int.{ℤ, pos, leb_ℤ}
use livepeer_open_clearingho.Base.Action.{pure, gets, ◌>>=◌, ◌>>◌}
use livepeer_open_clearingho.Billing.Rows.{
  CreditBalance, UserBillingConfig, Db, Billing, find_config, write_config,
}
use livepeer_open_clearingho.Billing.Ledger.{ensure_balance_row, topup}

-- The settings that billing reads.
pub record Settings : Type 0 where
  pub default_spend_period_seconds : ℕ
  pub default_spend_period_cap_wei : ℤ
  pub auto_replenish_increment_wei : ℤ

pub record ResolvedBillingConfig : Type 0 where
  pub spend_period_seconds : ℕ
  pub spend_period_cap_wei : ℤ
  pub auto_replenish_increment_wei : ℤ
  pub auto_replenish_threshold_wei : ℤ

-- `get_billing_config`
abbrev pub get_billing_config : ℕ → Db → Option UserBillingConfig
get_billing_config u db = find_config u db.configs

abbrev pub resolve : Settings → Option UserBillingConfig → ResolvedBillingConfig
resolve settings none = record {
  spend_period_seconds = settings.default_spend_period_seconds;
  spend_period_cap_wei = settings.default_spend_period_cap_wei;
  auto_replenish_increment_wei = settings.auto_replenish_increment_wei;
  auto_replenish_threshold_wei = pos 0;
}
resolve settings (some row) = record {
  spend_period_seconds = or_else row.spend_period_seconds settings.default_spend_period_seconds;
  spend_period_cap_wei = or_else row.spend_period_cap_wei settings.default_spend_period_cap_wei;
  auto_replenish_increment_wei =
      or_else row.auto_replenish_increment_wei settings.auto_replenish_increment_wei;
  auto_replenish_threshold_wei = or_else row.auto_replenish_threshold_wei (pos 0);
}

-- A pure read.
unfoldable pub resolve_billing_config : ℕ → Settings → Db → ResolvedBillingConfig
resolve_billing_config u settings db = resolve settings (get_billing_config u db)

-- Every column of the override is written; `none` clears it.
unfoldable pub upsert_billing_config :
    ℕ → ℕ → Option ℕ → Option ℤ → Option ℤ → Option ℤ → Billing UserBillingConfig
upsert_billing_config u operator_id period cap increment threshold db =
    let row : UserBillingConfig = record {
      user_id = u;
      spend_period_seconds = period;
      spend_period_cap_wei = cap;
      auto_replenish_increment_wei = increment;
      auto_replenish_threshold_wei = threshold;
      updated_by_operator_id = some operator_id;
    } in
    pure row (record db { configs = write_config row db.configs })

-- Both knobs must be positive for the proactive path to fire.
abbrev pub is_armed : ResolvedBillingConfig → Bool
is_armed c =
    if leb_ℤ c.auto_replenish_increment_wei (pos 0)
    then false
    else if leb_ℤ c.auto_replenish_threshold_wei (pos 0)
    then false
    else true

-- One round of the loop over the users; the result is what the round adds to `count`.
unfoldable pub replenish_user : Settings → ℕ → Billing ℕ
replenish_user settings u = do
  resolved ← gets (resolve_billing_config u settings)
  if is_armed resolved
      then (do
        balance ← ensure_balance_row u
        if leb_ℤ resolved.auto_replenish_threshold_wei balance.amount_wei
            then pure 0
            else (do topup u resolved.auto_replenish_increment_wei "auto_replenish" none; pure 1))
      else pure 0

unfoldable pub replenish_users : Settings → List ℕ → Billing ℕ
replenish_users settings [] = pure 0
replenish_users settings (u ∷ us) = do
  added ← replenish_user settings u
  count ← replenish_users settings us
  pure (added + count)

abbrev pub balance_users : List CreditBalance → List ℕ
balance_users [] = []
balance_users (row ∷ rows) = row.user_id ∷ balance_users rows

-- The metric that counts the top-ups is not part of the state.
unfoldable pub run_auto_replenish : Settings → Billing ℕ
unfolding replenish_users replenish_user
run_auto_replenish settings = do
  user_ids ← gets (λ db. balance_users db.balances)
  replenish_users settings user_ids
