-- ===== src/Wholesale/Claim.antt =====
-- domains/wholesale/service.py: `claim_account_funding` and `plan_observed_account_shortfall`.
-- A raise inside the claim leaves the session as it was when the claim began.
use livepeer_open_clearingho.Base.{
  ℕ, ◌+◌, String, Option, none, some, [], ◌∷◌, ◌++◌, Bool, true, false, not, ◌&&◌, str_eq, ltb,
  if◌then◌else◌,
}
use livepeer_open_clearingho.Base.Int.{pos}
use livepeer_open_clearingho.Base.Action.{pure, raise, gets, lift, modify, raise_if, ◌>>=◌, ◌>>◌}
use livepeer_open_clearingho.Wholesale.Rows
use livepeer_open_clearingho.Wholesale.Rows.{
  WholesaleAccountObservation, WholesaleFundingLimits, WholesaleFundingPlan, WholesaleAccount,
  WholesaleFunding, Route, Db, Error, Wholesale, claimed, is_claimed, ℤ_eq, find_funding,
  find_account, write_account,
}
use livepeer_open_clearingho.Wholesale.Plan.{plan_account_shortfall}
use livepeer_open_clearingho.Wholesale.Exposure.{
  require_settlement_domain_id, require_observation_domain, load_active_accounts,
  matching_payee_accounts, next_account, account_matches, synchronized_exposure, plan_eq,
  option_str_eq,
}

-- The columns that follow an observation.
abbrev pub observed_account : WholesaleAccount → WholesaleAccountObservation → WholesaleAccount
observed_account account o = record account {
  credited_value_wei = o.credited_value_wei;
  reserved_value_wei = o.reserved_value_wei;
  debited_value_wei = o.debited_value_wei;
  available_value_wei = o.available_value_wei;
  remote_version = o.version;
  observed_at = o.observed_at;
}

abbrev pub new_account :
    ℕ → Route → WholesaleAccountObservation → String → String → WholesaleAccount
new_account id route o domain protocol_version = record {
  id = id;
  chain_id = o.chain_id;
  payer_eth_address = o.payer;
  payee_eth_address = o.payee;
  wholesale_account_id = o.wholesale_account_id;
  settlement_domain_id = domain;
  denomination = o.denomination;
  protocol_version = protocol_version;
  broker_url = route.worker_url;
  credited_value_wei = o.credited_value_wei;
  reserved_value_wei = o.reserved_value_wei;
  debited_value_wei = o.debited_value_wei;
  available_value_wei = o.available_value_wei;
  remote_version = o.version;
  observed_at = o.observed_at;
}

-- Insert the account, or write the newer observation to it.
unfoldable pub store_account :
    Option WholesaleAccount
    → Route
    → WholesaleAccountObservation
    → String
    → String
    → Wholesale WholesaleAccount
store_account none route o domain protocol_version db =
    let account = new_account db.next_id route o domain protocol_version in
    pure account (record db { accounts = db.accounts ++ account ∷ []; next_id = db.next_id + 1 })
store_account (some account) route o domain protocol_version db =
    if ltb o.version account.remote_version
    then raise Rows.observation_moved_backwards db
    else (let account' : WholesaleAccount = record (observed_account account o) {
      protocol_version = protocol_version;
      broker_url = route.worker_url;
    } in
        pure account' (record db { accounts = write_account account' db.accounts }))

abbrev pub new_funding :
    ℕ → String → Option String → WholesaleFundingPlan → Route → WholesaleFunding
new_funding account_id mint_request_id correlation_id plan route = record {
  account_id = account_id;
  mint_request_id = mint_request_id;
  correlation_id = correlation_id;
  target_available_wei = plan.target_available_wei;
  observed_available_wei = plan.observed_available_wei;
  requested_shortfall_wei = plan.shortfall_wei;
  route_snapshot = route.snapshot;
  payment_bytes = none;
  minted_expected_value_wei = pos 0;
  credited_value_wei = none;
  work_id = none;
  account_version = none;
  status = claimed;
  acknowledged_at = none;
}

abbrev pub matches_some : Option WholesaleAccount → WholesaleAccountObservation → String → Bool
matches_some none o domain = false
matches_some (some a) o domain = account_matches a o domain

-- A claim that is already recorded under this `mint_request_id`.
unfoldable pub replay_claim :
    WholesaleFunding
    → Route
    → WholesaleAccountObservation
    → String
    → WholesaleFundingPlan
    → Option String
    → Wholesale (Option WholesaleFunding)
replay_claim existing route o domain plan correlation_id = do
  account ← gets (λ db. find_account existing.account_id db.accounts)
  raise_if (not (matches_some account o domain)) Rows.replay_changed_account
  raise_if
      (not (
        ℤ_eq existing.target_available_wei plan.target_available_wei
        && str_eq existing.route_snapshot route.snapshot
        && option_str_eq existing.correlation_id correlation_id))
      Rows.replay_changed_scope
  raise_if
      (is_claimed existing.status
        && not (
            ℤ_eq existing.observed_available_wei plan.observed_available_wei
            && ℤ_eq existing.requested_shortfall_wei plan.shortfall_wei))
      Rows.replay_changed_state
  pure (some existing)

-- The plan under the figures that the tables hold, with this observation in place of the last.
unfoldable pub plan_from_tables :
    WholesaleAccountObservation
    → String
    → WholesaleFundingLimits
    → Wholesale (Option WholesaleAccount × WholesaleFundingPlan)
plan_from_tables o domain limits = do
  active_accounts ← gets (λ db. load_active_accounts db.accounts)
  let payee_accounts = matching_payee_accounts active_accounts o
  let account = next_account domain o.wholesale_account_id payee_accounts
  aggregate ← gets (λ db. synchronized_exposure active_accounts account o db.fundings)
  payee ← gets (λ db. synchronized_exposure payee_accounts account o db.fundings)
  plan ← lift (plan_account_shortfall o aggregate (some payee) limits)
  pure (account, plan)

abbrev pub is_none {ℓ} : {A : Type ℓ} → Option A → Bool
is_none none = true
is_none (some a) = false

-- The rest of the claim, once the plan has been made again under the lock.
unfoldable pub commit_claim :
    Route
    → WholesaleAccountObservation
    → String
    → WholesaleFundingPlan
    → String
    → Option String
    → String
    → Option WholesaleAccount
    → WholesaleFundingPlan
    → Wholesale (Option WholesaleFunding)
commit_claim route o domain plan mint_request_id correlation_id protocol_version found locked_plan =
    do
      raise_if (not (plan_eq locked_plan plan)) Rows.plan_changed
      account ← store_account found route o domain protocol_version
      modify (λ db. record db { budget = some locked_plan.projected_aggregate_available_wei })
      if ℤ_eq plan.shortfall_wei (pos 0) then pure none else (do
        let funding = new_funding account.id mint_request_id correlation_id plan route
        modify (λ db. record db { fundings = db.fundings ++ funding ∷ [] })
        pure (some funding))

-- The claim of a new `mint_request_id`.
unfoldable pub fresh_claim :
    Route
    → WholesaleAccountObservation
    → String
    → WholesaleFundingPlan
    → WholesaleFundingLimits
    → String
    → Option String
    → String
    → Wholesale (Option WholesaleFunding)
fresh_claim route o domain plan limits mint_request_id correlation_id protocol_version = do
  budget ← gets (λ db. db.budget)
  raise_if (is_none budget) Rows.budget_not_initialized
  found ← plan_from_tables o domain limits
  commit_claim route o domain plan mint_request_id correlation_id protocol_version found.0 found.1

abbrev pub replay_or_claim :
    Option WholesaleFunding
    → Route
    → WholesaleAccountObservation
    → String
    → WholesaleFundingPlan
    → WholesaleFundingLimits
    → String
    → Option String
    → String
    → Wholesale (Option WholesaleFunding)
replay_or_claim none route o domain plan limits mint correlation protocol =
    fresh_claim route o domain plan limits mint correlation protocol
replay_or_claim (some existing) route o domain plan limits mint correlation protocol =
    replay_claim existing route o domain plan correlation

-- `claim_account_funding`; `is_clean` says that the session has nothing pending.
unfoldable pub claim_account_funding :
    Bool
    → Route
    → WholesaleAccountObservation
    → String
    → WholesaleFundingPlan
    → WholesaleFundingLimits
    → String
    → Option String
    → String
    → Wholesale (Option WholesaleFunding)
claim_account_funding is_clean route o domain plan limits mint correlation protocol = do
  require_settlement_domain_id domain
  require_observation_domain o domain
  raise_if (not is_clean) Rows.session_not_clean
  existing ← gets (λ db. find_funding mint db.fundings)
  replay_or_claim existing route o domain plan limits mint correlation protocol

-- `plan_observed_account_shortfall`: the same calculation before the lock, with no write.
unfoldable pub plan_observed_account_shortfall :
    WholesaleAccountObservation → String → WholesaleFundingLimits → Wholesale WholesaleFundingPlan
plan_observed_account_shortfall o domain limits = do
  require_settlement_domain_id domain
  require_observation_domain o domain
  budget ← gets (λ db. db.budget)
  raise_if (is_none budget) Rows.budget_not_initialized
  found ← plan_from_tables o domain limits
  pure found.1
