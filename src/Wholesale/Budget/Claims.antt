-- ===== src/Wholesale/Budget/Claims.antt =====
-- `claim_account_funding` of domains/wholesale/service.py sets the budget to the exposure, within
-- the aggregate limit.
use livepeer_open_clearingho.Base.{
  ◌+◌, String, ◌≡◌, inl, inr, refl, sym, ap, subst, ◌∙◌, Option, none, some, [], ◌∷◌, ◌++◌, true,
  false, str_eq, ltb, arith, if◌then◌else◌, Bool-cases, Option-cases,
}
use livepeer_open_clearingho.Base.Int.{
  ℤ, pos, pos_part, neg_part, ◌+ℤ◌, ◌-ℤ◌, ◌≤ℤ◌, ◌<ℤ◌, int_laws, +ℤ_zero, +ℤ_assoc, eq_of_parts,
}
use livepeer_open_clearingho.Base.Result.{Result, ok, err, ok-injective}
use livepeer_open_clearingho.Wholesale.Rows.{
  WholesaleAccount, WholesaleFunding, WholesaleFundingPlan, WholesaleFundingLimits,
  WholesaleAccountObservation, Db, Error, Route, Wholesale, ℤ_eq, find_account, write_account,
}
use livepeer_open_clearingho.Base.Action.{pure, modify, continue, ◌>>◌}
use livepeer_open_clearingho.Wholesale.Plan.{plan_account_shortfall}
use livepeer_open_clearingho.Wholesale.Plan.Bounds.{
  plan_account_shortfall-decides, shortfall_nonneg,
}
use livepeer_open_clearingho.Wholesale.Exposure.{
  is_active, load_active_accounts, matching_payee_accounts, next_account, has_id, available_sum,
  pending_account_funding, synchronized_exposure, plan_eq, compat_settlement_domain_id,
}
use livepeer_open_clearingho.Wholesale.Claim.{
  observed_account, new_account, store_account, new_funding, commit_claim,
}
use livepeer_open_clearingho.Wholesale.Budget.Sums.{
  exposure, AreKeyed, AreLinked, next-find, has_id-write, available_sum-write, has_id-find,
  pending-cong, active-append, available_sum-append, pending-append_account, pending-append_funding,
  has_id-append,
}

-- The active account that an observation belongs to.
abbrev pub account_for : WholesaleAccountObservation → String → Db → Option WholesaleAccount
account_for o domain db =
    next_account domain o.wholesale_account_id
      (matching_payee_accounts (load_active_accounts db.accounts) o)

abbrev pub aggregate_for : WholesaleAccountObservation → String → Db → ℤ
aggregate_for o domain db =
    synchronized_exposure (load_active_accounts db.accounts) (account_for o domain db) o db.fundings

-- Storing the observation turns the exposure of the tables into the synchronized one, and the
-- stored account is an active row.
record Stored (o : WholesaleAccountObservation) (domain : String) (db : Db)
    (account : WholesaleAccount) (db' : Db) : Type 0 where
  exposed : exposure db' ≡ aggregate_for o domain db
  listed : has_id account.id (load_active_accounts db'.accounts) ≡ true
  fundings_kept : db'.fundings ≡ db.fundings

-- What storing has done: a raise changes nothing.
abbrev StoreOutcome :
    WholesaleAccountObservation → String → Db → Result Error WholesaleAccount × Db → Type 0
StoreOutcome o domain db (err e, db') = db' ≡ db
StoreOutcome o domain db (ok account, db') = Stored o domain db account db'

-- The tables have keys, and fundings refer to accounts that are there.
pub record IsSound (db : Db) : Type 0 where
  pub keyed : AreKeyed db.next_id db.accounts
  pub linked : AreLinked db.next_id db.fundings

replaced : (s s' p old now : ℤ) → s' +ℤ old ≡ s +ℤ now → s' +ℤ p ≡ s +ℤ p +ℤ (now -ℤ old)
replaced s s' p old now h = omega (int_laws, ap pos_part h, ap neg_part h)

added : (s p now : ℤ) → s +ℤ now +ℤ p ≡ s +ℤ p +ℤ (now -ℤ pos 0)
added s p now = omega int_laws

new_Stored :
    (route : Route) (o : WholesaleAccountObservation) (domain protocol : String) (db : Db)
    → IsSound db
    → str_eq domain compat_settlement_domain_id ≡ false
    → account_for o domain db ≡ none
    → let account = new_account db.next_id route o domain protocol in
      Stored o domain db account
        (record db { accounts = db.accounts ++ account ∷ []; next_id = db.next_id + 1 })
new_Stored route o domain protocol db sound live new =
    let account = new_account db.next_id route o domain protocol in
    let act : is_active account ≡ true = rw live in
    let xs = load_active_accounts db.accounts in
    record {
      exposed =
          rw
            (
              active-append account db.accounts act,
              available_sum-append account xs,
              pending-append_account db.next_id account xs db.fundings sound.linked refl,
              new,
            )
            (added (available_sum xs) (pending_account_funding xs db.fundings)
              o.available_value_wei);
      listed =
          rw (active-append account db.accounts act, has_id-append db.next_id account xs)
            (ground arith);
      fundings_kept = refl;
    }

old_Stored :
    (route : Route) (o : WholesaleAccountObservation) (domain protocol : String) (db : Db)
    (account : WholesaleAccount)
    → account_for o domain db ≡ some account
    → find_account account.id db.accounts ≡ some account
    → is_active account ≡ true
    → let account' : WholesaleAccount = record (observed_account account o) {
      protocol_version = protocol;
      broker_url = route.worker_url;
    } in
      Stored o domain db account' (record db { accounts = write_account account' db.accounts })
old_Stored route o domain protocol db account found row act =
    let account' : WholesaleAccount = record (observed_account account o) {
      protocol_version = protocol;
      broker_url = route.worker_url;
    } in
    let xs = load_active_accounts db.accounts in
    let ys = load_active_accounts (write_account account' db.accounts) in
    let same =
      pending-cong ys xs db.fundings
        (λ i. has_id-write account account' refl refl i db.accounts row) in
    record {
      exposed =
          rw (same, found)
            (replaced (available_sum xs) (available_sum ys) (pending_account_funding xs db.fundings)
              account.available_value_wei o.available_value_wei
              (available_sum-write account account' refl refl db.accounts row act));
      listed =
          rw (has_id-write account account' refl refl account.id db.accounts row)
            (has_id-find account.id account db.accounts row act);
      fundings_kept = refl;
    }

store-Outcome :
    (route : Route) (o : WholesaleAccountObservation) (domain protocol : String) (db : Db)
    → IsSound db
    → str_eq domain compat_settlement_domain_id ≡ false
    → StoreOutcome o domain db (store_account (account_for o domain db) route o domain protocol db)
unfolding store_account
store-Outcome route o domain protocol db sound live =
    elim (Option-cases (account_for o domain db)) [
      | inl new ↦ rw new (new_Stored route o domain protocol db sound live new)
      | inr (account, found) ↦
          let (row, act) =
            next-find db.next_id domain o.wholesale_account_id o account db.accounts sound.keyed
              found in
          elim (Bool-cases (ltb o.version account.remote_version)) [
            | inl old ↦ rw (found, old) refl
            | inr newer ↦
                rw (found, newer) (old_Stored route o domain protocol db account found row act)
          ]
    ]

-- The writes of a claim after its account is stored.
abbrev recorded :
    Route
    → WholesaleFundingPlan
    → WholesaleFundingPlan
    → String
    → Option String
    → WholesaleAccount
    → Wholesale (Option WholesaleFunding)
recorded route plan locked mint correlation account = do
  modify (λ db. record db { budget = some locked.projected_aggregate_available_wei })
  if ℤ_eq plan.shortfall_wei (pos 0) then pure none else (do
    let funding = new_funding account.id mint correlation plan route
    modify (λ db. record db { fundings = db.fundings ++ funding ∷ [] })
    pure (some funding))

-- What a claim has done. A raise changes nothing. A return has set the budget to the exposure of
-- the tables; a funding that it hands out is for a positive shortfall, and the exposure with it is
-- within the aggregate limit.
abbrev pub ClaimOutcome :
    WholesaleFundingLimits → Db → Result Error (Option WholesaleFunding) × Db → Type 0
ClaimOutcome limits db (err e, db') = db' ≡ db
ClaimOutcome limits db (ok none, db') = db'.budget ≡ some (exposure db')
ClaimOutcome limits db (ok (some funding), db') =
    (db'.budget ≡ some (exposure db'))
    × (pos 0 <ℤ funding.requested_shortfall_wei)
    × (exposure db' ≤ℤ limits.max_aggregate_available_wei)

-- What the locked plan says of the aggregate.
record Locked (o : WholesaleAccountObservation) (aggregate : ℤ) (limits : WholesaleFundingLimits)
    (locked : WholesaleFundingPlan) : Type 0 where
  projected : locked.projected_aggregate_available_wei ≡ aggregate +ℤ locked.shortfall_wei
  nonneg : pos 0 ≤ℤ locked.shortfall_wei
  within :
      pos 0 <ℤ locked.shortfall_wei
      → aggregate +ℤ locked.shortfall_wei ≤ℤ limits.max_aggregate_available_wei

plan-Locked :
    (o : WholesaleAccountObservation) (aggregate payee : ℤ) (limits : WholesaleFundingLimits)
    (locked : WholesaleFundingPlan)
    → plan_account_shortfall o aggregate (some payee) limits ≡ ok locked
    → Locked o aggregate limits locked
plan-Locked o aggregate payee limits locked made =
    elim (plan_account_shortfall-decides o aggregate (some payee) limits) [
      | inl (good, planned) ↦
          subst (Locked o aggregate limits) (ok-injective (sym planned ∙ made)) (record {
            projected = refl;
            nonneg = shortfall_nonneg o limits;
            within = λ positive. (good.bounded positive).2;
          })
      | inr (bad, (e, refused)) ↦ cc
    ]

ℤ_eq-eq : (a b : ℤ) → ℤ_eq a b ≡ true → a ≡ b
ℤ_eq-eq a b h = eq_of_parts a b (ground arith)

plan_eq-shortfall :
    (p q : WholesaleFundingPlan) → plan_eq p q ≡ true → p.shortfall_wei ≡ q.shortfall_wei
plan_eq-shortfall p q h = ℤ_eq-eq p.shortfall_wei q.shortfall_wei (ground arith)

positive_of : (a : ℤ) → pos 0 ≤ℤ a → ℤ_eq a (pos 0) ≡ false → pos 0 <ℤ a
positive_of a h n = ground arith

-- The claims of the tables with one more funding.
exposed_with :
    (db : Db) (account : WholesaleAccount) (plan : WholesaleFundingPlan) (mint : String)
    (correlation : Option String) (route : Route)
    → has_id account.id (load_active_accounts db.accounts) ≡ true
    → let funding = new_funding account.id mint correlation plan route in
      exposure (record db { fundings = db.fundings ++ funding ∷ [] })
      ≡ exposure db +ℤ plan.shortfall_wei
exposed_with db account plan mint correlation route listed =
    let xs = load_active_accounts db.accounts in
    let funding = new_funding account.id mint correlation plan route in
    rw (pending-append_funding xs db.fundings funding, listed)
      (sym
        (+ℤ_assoc (available_sum xs) (pending_account_funding xs db.fundings) plan.shortfall_wei))

record-Outcome :
    (route : Route) (o : WholesaleAccountObservation) (domain : String)
    (plan locked : WholesaleFundingPlan) (limits : WholesaleFundingLimits) (mint : String)
    (correlation : Option String) (account : WholesaleAccount) (db db' : Db)
    → Locked o (aggregate_for o domain db) limits locked
    → locked.shortfall_wei ≡ plan.shortfall_wei
    → Stored o domain db account db'
    → ClaimOutcome limits db (recorded route plan locked mint correlation account db')
record-Outcome route o domain plan locked limits mint correlation account db db' l same s =
    let budgeted : Db = record db' { budget = some locked.projected_aggregate_available_wei } in
    elim (Bool-cases (ℤ_eq plan.shortfall_wei (pos 0))) [
      | inl enough ↦
          let zero_short = same ∙ ℤ_eq-eq plan.shortfall_wei (pos 0) enough in
          rw enough (
            ap some (
              l.projected
              ∙ ap (λ (t : ℤ). aggregate_for o domain db +ℤ t) zero_short
              ∙ +ℤ_zero (aggregate_for o domain db)
              ∙ sym s.exposed))
      | inr short ↦
          let positive : pos 0 <ℤ plan.shortfall_wei =
            positive_of plan.shortfall_wei (rw same at l.nonneg) short in
          let total =
            exposed_with budgeted account plan mint correlation route s.listed
            ∙ ap (λ (t : ℤ). t +ℤ plan.shortfall_wei) s.exposed in
          rw short (
            ap some (l.projected ∙ ap (λ (t : ℤ). aggregate_for o domain db +ℤ t) same ∙ sym total),
            positive,
            rw total (rw same at (l.within (rw (← same) at positive))),
          )
    ]

pub commit-Outcome :
    (route : Route) (o : WholesaleAccountObservation) (domain : String)
    (plan locked : WholesaleFundingPlan) (limits : WholesaleFundingLimits) (payee : ℤ)
    (mint : String) (correlation : Option String) (protocol : String) (db : Db)
    → IsSound db
    → str_eq domain compat_settlement_domain_id ≡ false
    → plan_account_shortfall o (aggregate_for o domain db) (some payee) limits ≡ ok locked
    → ClaimOutcome limits db (
        commit_claim route o domain plan mint correlation protocol
          (account_for o domain db)
          locked
          db)
unfolding commit_claim
commit-Outcome route o domain plan locked limits payee mint correlation protocol db sound live
      made =
    elim (Bool-cases (plan_eq locked plan)) [
      | inl equal ↦ rw equal (
          stored equal (store_account (account_for o domain db) route o domain protocol db)
            (store-Outcome route o domain protocol db sound live))
      | inr changed ↦ rw changed refl
    ]
  where
    sealed : Locked o (aggregate_for o domain db) limits locked
    sealed = plan-Locked o (aggregate_for o domain db) payee limits locked made

    stored :
        plan_eq locked plan ≡ true
        → (res : Result Error WholesaleAccount × Db) → StoreOutcome o domain db res
        → ClaimOutcome limits db
            (continue res.0 (λ account. recorded route plan locked mint correlation account) res.1)
    stored equal (err e, db') same = same
    stored equal (ok account, db') s =
        record-Outcome route o domain plan locked limits mint correlation account db db' sealed
          (plan_eq-shortfall locked plan equal) s
