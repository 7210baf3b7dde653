-- ===== src/Wholesale/Budget/Outcome.antt =====
-- `claim_account_funding` of domains/wholesale/service.py as a whole: a new claim and a replay.
use livepeer_open_clearingho.Base.{
  String, ◌≡◌, inl, inr, refl, Option, none, some, Bool, false, not, str_eq, ◌&&◌, Bool-cases,
}
use livepeer_open_clearingho.Base.Result.{Result, ok, err, Result-cases}
use livepeer_open_clearingho.Wholesale.Rows.{
  WholesaleFunding, WholesaleFundingPlan, WholesaleFundingLimits, WholesaleAccountObservation, Db,
  Error, Route, ℤ_eq, is_claimed, find_account, find_funding,
}
use livepeer_open_clearingho.Wholesale.Plan.{plan_account_shortfall}
use livepeer_open_clearingho.Wholesale.Exposure.{
  load_active_accounts, matching_payee_accounts, synchronized_exposure, compat_settlement_domain_id,
  option_str_eq,
}
use livepeer_open_clearingho.Wholesale.Claim.{
  fresh_claim, plan_from_tables, replay_claim, claim_account_funding, is_none, matches_some,
}
use livepeer_open_clearingho.Wholesale.Budget.Claims.{
  IsSound, ClaimOutcome, account_for, aggregate_for, commit-Outcome,
}

fresh-Outcome :
    (route : Route) (o : WholesaleAccountObservation) (domain : String)
    (plan : WholesaleFundingPlan) (limits : WholesaleFundingLimits) (mint : String)
    (correlation : Option String) (protocol : String) (db : Db)
    → IsSound db
    → str_eq domain compat_settlement_domain_id ≡ false
    → ClaimOutcome limits db (fresh_claim route o domain plan limits mint correlation protocol db)
unfolding fresh_claim plan_from_tables
fresh-Outcome route o domain plan limits mint correlation protocol db sound live =
    let payee =
      synchronized_exposure (matching_payee_accounts (load_active_accounts db.accounts) o)
        (account_for o domain db) o db.fundings in
    elim (Bool-cases (is_none db.budget)) [
      | inl missing ↦ rw missing refl
      | inr budgeted ↦
          elim (Result-cases
            (plan_account_shortfall o (aggregate_for o domain db) (some payee) limits)) [
              | inl (locked, made) ↦
                  rw (budgeted, made)
                    (commit-Outcome route o domain plan locked limits payee mint correlation
                      protocol db sound live made)
              | inr (e, refused) ↦ rw (budgeted, refused) refl
            ]
    ]

-- What a claim answers if its `mint_request_id` is recorded: that very funding, or an error.
abbrev pub Replayed : Db → WholesaleFunding → Result Error (Option WholesaleFunding) × Db → Type 0
Replayed db existing (ok res, db') = (res ≡ some existing) × (db' ≡ db)
Replayed db existing (err e, db') = db' ≡ db

replay-Replayed :
    (existing : WholesaleFunding) (route : Route) (o : WholesaleAccountObservation)
    (domain : String) (plan : WholesaleFundingPlan) (correlation : Option String) (db : Db)
    → Replayed db existing (replay_claim existing route o domain plan correlation db)
unfolding replay_claim
replay-Replayed existing route o domain plan correlation db =
    elim (Bool-cases (not (matches_some (find_account existing.account_id db.accounts) o domain))) [
      | inl bad ↦ rw (bad) refl
      | inr other ↦
          elim (Bool-cases (
            not (
              ℤ_eq existing.target_available_wei plan.target_available_wei
              && str_eq existing.route_snapshot route.snapshot
              && option_str_eq existing.correlation_id correlation))) [
                | inl bad ↦ rw (other, bad) refl
                | inr scope ↦
                    elim (Bool-cases (
                      is_claimed existing.status
                      && not (
                          ℤ_eq existing.observed_available_wei plan.observed_available_wei
                          && ℤ_eq existing.requested_shortfall_wei plan.shortfall_wei))) [
                            | inl bad ↦ rw (other, scope, bad) refl
                            | inr state ↦ rw (other, scope, state) (refl, refl)
                          ]
              ]
    ]

module _ (route : Route) (o : WholesaleAccountObservation) (domain : String)
    (plan : WholesaleFundingPlan) (limits : WholesaleFundingLimits) (mint : String)
    (correlation : Option String) (protocol : String) (db : Db) (is_clean : Bool) where
  -- A claim under a new `mint_request_id`, on an active settlement domain and sound tables, raises
  -- and changes nothing, or sets the budget to the exposure of the tables after it (what the active
  -- accounts hold, plus what is claimed for them); if it hands out a funding, its shortfall is
  -- positive and that exposure, the funding included, is within the aggregate limit.
  pub claim_account_funding-new :
      IsSound db
      → str_eq domain compat_settlement_domain_id ≡ false
      → find_funding mint db.fundings ≡ none
      → ClaimOutcome limits db
          (claim_account_funding is_clean route o domain plan limits mint correlation protocol db)
  unfolding claim_account_funding
  claim_account_funding-new sound live new = elim (Bool-cases (str_eq domain "")) [
    | inl bad ↦ rw bad refl
    | inr named ↦ elim (Bool-cases (not (str_eq o.settlement_domain_id domain))) [
      | inl bad ↦ rw (named, bad) refl
      | inr observed ↦ elim (Bool-cases (not is_clean)) [
        | inl bad ↦ rw (named, observed, bad) refl
        | inr clean ↦
            rw (named, observed, clean, new)
              (fresh-Outcome route o domain plan limits mint correlation protocol db sound live)
      ]
    ]
  ]

  -- A claim whose `mint_request_id` is recorded answers with the recorded funding or raises, and
  -- changes nothing.
  pub claim_account_funding-replay :
      (existing : WholesaleFunding)
      → find_funding mint db.fundings ≡ some existing
      → Replayed db existing
          (claim_account_funding is_clean route o domain plan limits mint correlation protocol db)
  unfolding claim_account_funding
  claim_account_funding-replay existing recorded = elim (Bool-cases (str_eq domain "")) [
    | inl bad ↦ rw (bad) refl
    | inr named ↦ elim (Bool-cases (not (str_eq o.settlement_domain_id domain))) [
      | inl bad ↦ rw (named, bad) refl
      | inr observed ↦ elim (Bool-cases (not is_clean)) [
        | inl bad ↦ rw (named, observed, bad) refl
        | inr clean ↦
            rw (named, observed, clean, recorded)
              (replay-Replayed existing route o domain plan correlation db)
      ]
    ]
  ]
