-- ===== src/Wholesale/Acknowledge.antt =====
-- domains/wholesale/service.py: the minted envelope, and its acknowledgement by the broker. The
-- digest of `hashlib.sha256(...).hexdigest()` is a parameter.
use livepeer_open_clearingho.Base.{
  ℕ, String, Option, none, some, List, Bool, false, not, ◌==◌, ◌&&◌, ◌||◌, str_eq, ltb, bytes_eq,
  if◌then◌else◌,
}
use livepeer_open_clearingho.Base.Int.{ℤ, ◌+ℤ◌, ◌-ℤ◌}
use livepeer_open_clearingho.Base.Action.{pure, raise, gets, lift, modify, raise_if, ◌>>=◌, ◌>>◌}
use livepeer_open_clearingho.Wholesale.Rows
use livepeer_open_clearingho.Wholesale.Rows.{
  WholesaleAccountObservation, WholesaleFundingResult, WholesaleAccount, WholesaleFunding, Db,
  Error, Wholesale, Status, minted, acknowledged, is_acknowledged, ℤ_eq, find_funding,
  write_funding, find_account, write_account,
}
use livepeer_open_clearingho.Wholesale.Exposure.{
  require_settlement_domain_id, require_observation_domain, account_matches,
}
use livepeer_open_clearingho.Wholesale.Claim.{observed_account, is_none}
use livepeer_open_clearingho.Wholesale.Receipt.{acknowledged_credit}

-- The fields of the daemon's `CreatePaymentResponse` that are recorded.
pub record CreatePaymentResponse : Type 0 where
  pub payment_bytes : List ℕ
  pub expected_value : ℤ
  pub work_id : String

abbrev pub or_raise : {A : Type 0} → Option A → Error → Wholesale A
or_raise none e = raise e
or_raise (some a) e = pure a

-- `payment_bytes is not None and payment_bytes != new`
abbrev pub changes_bytes : Option (List ℕ) → List ℕ → Bool
changes_bytes none new = false
changes_bytes (some old) new = not (bytes_eq old new)

abbrev pub minted_status : Status → Status
minted_status s = if is_acknowledged s then s else minted

abbrev pub minted_funding : WholesaleFunding → CreatePaymentResponse → WholesaleFunding
minted_funding funding response = record funding {
  payment_bytes = some response.payment_bytes;
  minted_expected_value_wei = response.expected_value;
  work_id = if str_eq response.work_id "" then none else some response.work_id;
  status = minted_status funding.status;
}

unfoldable pub record_minted_funding : String → CreatePaymentResponse → Wholesale WholesaleFunding
record_minted_funding mint_request_id response = do
  found ← gets (λ db. find_funding mint_request_id db.fundings)
  funding ← or_raise found Rows.mint_does_not_match_claim
  raise_if (not (ℤ_eq response.expected_value funding.requested_shortfall_wei))
      Rows.mint_does_not_match_claim
  raise_if (changes_bytes funding.payment_bytes response.payment_bytes)
      Rows.mint_replay_changed_bytes
  modify
      (λ db. record db { fundings = write_funding (minted_funding funding response) db.fundings })
  pure (minted_funding funding response)

-- The tests on the acknowledgement and the observation, up to the receipt.
abbrev pub changes_account :
    WholesaleFundingResult → WholesaleAccount → WholesaleAccountObservation → String → Bool
changes_account result account o domain =
    not (str_eq result.payer account.payer_eth_address)
    || not (str_eq result.payee account.payee_eth_address)
    || not (str_eq result.settlement_domain_id domain)
    || not (str_eq result.wholesale_account_id account.wholesale_account_id)
    || not (account_matches account o domain)

-- What the account was counted with in the budget: its last observation, and the shortfall of this
-- funding until it is acknowledged.
abbrev pub projected_for : WholesaleAccount → WholesaleFunding → ℤ
projected_for account funding =
    if is_acknowledged funding.status
    then account.available_value_wei
    else account.available_value_wei +ℤ funding.requested_shortfall_wei

abbrev pub budget_after :
    Option ℤ → WholesaleAccount → WholesaleFunding → WholesaleAccountObservation → Option ℤ
budget_after none account funding o = none
budget_after (some budget) account funding o =
    some (budget -ℤ projected_for account funding +ℤ o.available_value_wei)

abbrev pub acknowledged_funding :
    WholesaleFunding → ℤ → WholesaleFundingResult → ℕ → WholesaleFunding
acknowledged_funding funding credit result acknowledged_at = record funding {
  credited_value_wei = some credit;
  account_version = some result.account_version;
  status = acknowledged;
  acknowledged_at = some acknowledged_at;
}

-- The writes of an acknowledgement that passed every test.
abbrev pub converge :
    WholesaleAccount → WholesaleFunding → WholesaleFunding → WholesaleAccountObservation → Db → Db
converge account funding funding' o db = record db {
  budget = budget_after db.budget account funding o;
  accounts = write_account (observed_account account o) db.accounts;
  fundings = write_funding funding' db.fundings;
}

-- The tests on the acknowledgement of a funding and its account, and the writes.
unfoldable pub accept :
    (List ℕ → String)
    → WholesaleFundingResult
    → WholesaleAccountObservation
    → String
    → ℕ
    → WholesaleFunding
    → WholesaleAccount
    → Wholesale WholesaleFunding
accept sha256_hex result o domain acknowledged_at funding account = do
  budget ← gets (λ db. db.budget)
  raise_if (is_none budget) Rows.budget_not_initialized
  require_settlement_domain_id domain
  require_observation_domain o domain
  raise_if (changes_account result account o domain) Rows.acknowledgement_changed_account
  raise_if (ltb o.version result.account_version) Rows.acknowledgement_disagrees
  raise_if
      (result.account_version == o.version
        && not (ℤ_eq result.available_value_wei o.available_value_wei))
      Rows.acknowledgement_disagrees
  raise_if (ltb o.version account.remote_version) Rows.observation_moved_backwards
  credit ← lift (acknowledged_credit sha256_hex result o funding)
  let funding' = acknowledged_funding funding credit result acknowledged_at
  modify (converge account funding funding' o)
  pure funding'

unfoldable pub acknowledge_account_funding :
    (List ℕ → String)
    → String
    → WholesaleFundingResult
    → WholesaleAccountObservation
    → String
    → ℕ
    → Wholesale WholesaleFunding
acknowledge_account_funding sha256_hex mint_request_id result o domain acknowledged_at = do
  found ← gets (λ db. find_funding mint_request_id db.fundings)
  funding ← or_raise found Rows.no_minted_claim
  raise_if (is_none funding.payment_bytes) Rows.no_minted_claim
  found_account ← gets (λ db. find_account funding.account_id db.accounts)
  account ← or_raise found_account Rows.account_missing
  accept sha256_hex result o domain acknowledged_at funding account
