-- ===== src/Wholesale/Budget/Receipts.antt =====
-- `acknowledge_account_funding` of domains/wholesale/service.py, and the exposure budget.
use livepeer_open_clearingho.Base.{
  ℕ, String, ◌≡◌, inl, inr, refl, sym, ap, ◌∙◌, some, List, [], ◌∷◌, Bool, true, false, not, ◌==◌,
  ◌&&◌, str_eq, eq_iff, ltb, arith, if◌then◌else◌, Bool-cases, Option-cases,
}
use livepeer_open_clearingho.Base.Int.{ℤ, pos, pos_part, neg_part, ◌+ℤ◌, ◌-ℤ◌, int_laws, +ℤ_zero}
use livepeer_open_clearingho.Base.Result.{Result, ok, err, Result-cases}
use livepeer_open_clearingho.Wholesale.Receipt.{acknowledged_credit}
use livepeer_open_clearingho.Wholesale.Rows.{
  WholesaleAccount, WholesaleFunding, WholesaleFundingResult, WholesaleAccountObservation, Db,
  Error, is_acknowledged, ℤ_eq, find_account, write_account, find_funding, write_funding,
}
use livepeer_open_clearingho.Wholesale.Exposure.{
  is_active, load_active_accounts, has_id, available_sum, pending_account_funding, account_matches,
  compat_settlement_domain_id,
}
use livepeer_open_clearingho.Wholesale.Claim.{observed_account, is_none}
use livepeer_open_clearingho.Wholesale.Acknowledge.{
  accept, acknowledge_account_funding, converge, acknowledged_funding, changes_account,
}
use livepeer_open_clearingho.Wholesale.Budget.Sums.{
  exposure, has_id-write, available_sum-write, has_id-find, pending-cong, pending_of,
  pending-write_funding,
}

sum_step :
    (b s s' p p' av off rq : ℤ)
    → b ≡ s +ℤ p
    → s' +ℤ av ≡ s +ℤ off
    → p' +ℤ rq ≡ p +ℤ pos 0
    → b -ℤ (av +ℤ rq) +ℤ off ≡ s' +ℤ p'
sum_step b s s' p p' av off rq e f g =
    rw e (omega (int_laws, ap pos_part f, ap neg_part f, ap pos_part g, ap neg_part g))

In-id :
    (i : ℕ) (a : WholesaleAccount) (xs : List WholesaleAccount)
    → find_account i xs ≡ some a
    → a.id ≡ i
In-id i a [] h = cc
In-id i a (x ∷ xs) h = elim (Bool-cases (i == x.id)) [
  | inl here ↦
      let e : x ≡ a = ground (arith, here, h) in
      sym (ap (λ (y : WholesaleAccount). y.id) e) ∙ ground arith
  | inr there ↦ In-id i a xs (rw there at h)
]

-- The sums of an acknowledgement: what the account holds now replaces what it was counted with.
tracks :
    (is_done held : Bool) (rq b s s' p p' av off : ℤ)
    → held ≡ true
    → b ≡ s +ℤ p
    → s' +ℤ av ≡ s +ℤ off
    → p' +ℤ (if held && not is_done then rq else pos 0) ≡ p +ℤ pos 0
    → b -ℤ (if is_done then av else av +ℤ rq) +ℤ off ≡ s' +ℤ p'
tracks true held rq b s s' p p' av off h e f g =
    rw (sym (+ℤ_zero av)) (sum_step b s s' p p' av off (pos 0) e f (ground (arith, g, h)))
tracks false held rq b s s' p p' av off h e f g =
    sum_step b s s' p p' av off rq e f (ground (arith, g, h))

matched :
    (result : WholesaleFundingResult) (account : WholesaleAccount) (o : WholesaleAccountObservation)
    (domain : String)
    → changes_account result account o domain ≡ false
    → account_matches account o domain ≡ true
matched result account o domain h = ground arith

-- Converging keeps a budget that tracks the exposure on it.
pub converge-tracks :
    (account : WholesaleAccount) (funding funding' : WholesaleFunding)
    (o : WholesaleAccountObservation) (m : String) (db : Db)
    → find_funding m db.fundings ≡ some funding
    → find_account funding.account_id db.accounts ≡ some account
    → is_active account ≡ true
    → funding'.mint_request_id ≡ funding.mint_request_id
    → is_acknowledged funding'.status ≡ true
    → db.budget ≡ some (exposure db)
    → let db' = converge account funding funding' o db in db'.budget ≡ some (exposure db')
converge-tracks account funding funding' o m db hf ha act em ack b =
    let xs = load_active_accounts db.accounts in
    let account' = observed_account account o in
    let ids = In-id funding.account_id account db.accounts ha in
    let found : find_account account.id db.accounts ≡ some account =
      ap (λ (k : ℕ). find_account k db.accounts) ids ∙ ha in
    let held = has_id-find funding.account_id account db.accounts ha act in
    let sums = available_sum-write account account' refl refl db.accounts found act in
    let same =
      pending-cong (load_active_accounts (write_account account' db.accounts)) xs
        (write_funding funding' db.fundings)
        (λ i. has_id-write account account' refl refl i db.accounts found) in
    let claims = pending-write_funding xs db.fundings m funding funding' hf em in
    let done : pending_of xs funding' ≡ pos 0 = rw ack (ground arith) in
    rw (b, same)
      (ap some (
        tracks (is_acknowledged funding.status) (has_id funding.account_id xs)
          funding.requested_shortfall_wei (exposure db) (available_sum xs)
          (available_sum (load_active_accounts (write_account account' db.accounts)))
          (pending_account_funding xs db.fundings)
          (pending_account_funding xs (write_funding funding' db.fundings))
          account.available_value_wei o.available_value_wei held refl sums
          (claims ∙ ap (λ (t : ℤ). pending_account_funding xs db.fundings +ℤ t) done)))

-- What a call on this funding and account has done. A raise changes nothing. A return has found the
-- observation to match the account and to be no older than the last one, the receipt has passed
-- its tests, and the tables have converged on the observation.
abbrev pub Accepted :
    (List ℕ → String)
    → WholesaleFundingResult
    → WholesaleAccountObservation
    → String
    → ℕ
    → WholesaleFunding
    → WholesaleAccount
    → Db
    → Result Error WholesaleFunding × Db
    → Type 0
Accepted sha result o domain t funding account db (err e, db') = db' ≡ db
Accepted sha result o domain t funding account db (ok f', db') =
    (credit : ℤ) × (account_matches account o domain ≡ true)
    × (ltb o.version account.remote_version ≡ false)
    × (acknowledged_credit sha result o funding ≡ ok credit)
    × (f' ≡ acknowledged_funding funding credit result t)
    × (db' ≡ converge account funding f' o db)

accept-Accepted :
    (sha : List ℕ → String) (result : WholesaleFundingResult) (o : WholesaleAccountObservation)
    (domain : String) (t : ℕ) (funding : WholesaleFunding) (account : WholesaleAccount) (db : Db)
    → Accepted sha result o domain t funding account db
        (accept sha result o domain t funding account db)
unfolding accept
accept-Accepted sha result o domain t funding account db = elim (Bool-cases (is_none db.budget)) [
  | inl bad ↦ rw (bad) refl
  | inr budgeted ↦ elim (Bool-cases (str_eq domain "")) [
    | inl bad ↦ rw (budgeted, bad) refl
    | inr named ↦ elim (Bool-cases (not (str_eq o.settlement_domain_id domain))) [
      | inl bad ↦ rw (budgeted, named, bad) refl
      | inr observed ↦ elim (Bool-cases (changes_account result account o domain)) [
        | inl bad ↦ rw (budgeted, named, observed, bad) refl
        | inr same ↦ elim (Bool-cases (ltb o.version result.account_version)) [
          | inl bad ↦ rw (budgeted, named, observed, same, bad) refl
          | inr ordered ↦
              elim (Bool-cases (
                result.account_version == o.version
                && not (ℤ_eq result.available_value_wei o.available_value_wei))) [
                  | inl bad ↦ rw (budgeted, named, observed, same, ordered, bad) refl
                  | inr agrees ↦ elim (Bool-cases (ltb o.version account.remote_version)) [
                    | inl bad ↦ rw (budgeted, named, observed, same, ordered, agrees, bad) refl
                    | inr newer ↦ elim (Result-cases (acknowledged_credit sha result o funding)) [
                      | inl (credit, hc) ↦
                          rw (budgeted, named, observed, same, ordered, agrees, newer, hc)
                            (credit, matched result account o domain same, newer, hc, refl, refl)
                      | inr (e, hc) ↦
                          rw (budgeted, named, observed, same, ordered, agrees, newer, hc) refl
                    ]
                  ]
                ]
        ]
      ]
    ]
  ]
]

-- Whatever the broker sends, a budget that tracks the exposure of the active accounts still tracks
-- it after an acknowledgement on an active settlement domain, accepted or refused.
pub acknowledge-tracks :
    (sha : List ℕ → String) (m : String) (result : WholesaleFundingResult)
    (o : WholesaleAccountObservation) (domain : String) (t : ℕ) (db : Db)
    → str_eq domain compat_settlement_domain_id ≡ false
    → db.budget ≡ some (exposure db)
    → let db' = (acknowledge_account_funding sha m result o domain t db).1 in
      db'.budget ≡ some (exposure db')
unfolding acknowledge_account_funding
acknowledge-tracks sha m result o domain t db live b =
    elim (Option-cases (find_funding m db.fundings)) [
      | inl missing ↦ rw missing b
      | inr (funding, hf) ↦ elim (Bool-cases (is_none funding.payment_bytes)) [
        | inl unpaid ↦ rw (hf, unpaid) b
        | inr paid ↦ elim (Option-cases (find_account funding.account_id db.accounts)) [
          | inl missing ↦ rw (hf, paid, missing) b
          | inr (account, ha) ↦
              rw (hf, paid, ha)
                (after funding account hf ha (accept sha result o domain t funding account db)
                  (accept-Accepted sha result o domain t funding account db))
        ]
      ]
    ]
  where
    active :
        (account : WholesaleAccount)
        → account_matches account o domain ≡ true
        → is_active account ≡ true
    active account h =
        let e : str_eq account.settlement_domain_id domain ≡ true = ground arith in
        rw ((eq_iff account.settlement_domain_id domain).0 e, live)

    after :
        (funding : WholesaleFunding) (account : WholesaleAccount)
        → find_funding m db.fundings ≡ some funding
        → find_account funding.account_id db.accounts ≡ some account
        → (res : Result Error WholesaleFunding × Db)
        → Accepted sha result o domain t funding account db res
        → res.1.budget ≡ some (exposure res.1)
    after funding account hf ha (err e, db') same = rw same b
    after funding account hf ha (ok f', db') (credit, matches, newer, hc, new, moved) =
        rw (moved, new)
          (converge-tracks account funding (acknowledged_funding funding credit result t) o m db hf
            ha (active account matches) refl refl b)
