-- ===== src/Settlement/Accounting/Limits.antt =====
-- What `_verify_authorization_accounting` of settlement_verification.py accepts.
use livepeer_open_clearingho.Base.{ℕ, ◌+◌, ◌≤◌, ◌≡◌, ◌↔◌, String, Option, none, some, arith, eq_iff}
use livepeer_open_clearingho.Base.Result.{ok}
use livepeer_open_clearingho.Settlement.Records.{SettlementRecord, wei}
use livepeer_open_clearingho.Settlement.Accounting.{verify_authorization_accounting}

-- The record's accounting fits the authorization: none is claimed where LOC has none; otherwise it
-- names LOC's authorization and its ceiling, which covers the bill with the release, and the reserve.
abbrev pub WithinAuthorization : SettlementRecord → Option String → Option ℕ → ℕ → Type 0
WithinAuthorization r none ceiling billed = r.authorization_id ≡ ""
WithinAuthorization r (some a) ceiling billed =
    (r.authorization_id ≡ a)
    × (r.work_id ≡ a)
    × (ceiling ≡ some (wei r.authorized_value_wei))
    × (billed + wei r.released_value_wei ≤ wei r.authorized_value_wei)
    × (wei r.reserved_value_wei ≤ wei r.authorized_value_wei)

-- The accounting check accepts exactly the records that fit the authorization: with no authorization
-- those that name none; otherwise those that name LOC's authorization, as authorization and as work,
-- and LOC's ceiling, with the reserve, and the bill together with the release, within the ceiling.
pub verify_authorization_accounting-decides :
    (r : SettlementRecord) (authorization : Option String) (ceiling : Option ℕ) (billed : ℕ)
    → (verify_authorization_accounting r authorization ceiling billed ≡ ok tt)
      ↔ WithinAuthorization r authorization ceiling billed
unfolding verify_authorization_accounting
verify_authorization_accounting-decides r none ceiling billed =
    ground (arith, eq_iff r.authorization_id "")
verify_authorization_accounting-decides r (some a) none billed =
    ground (arith, eq_iff r.authorization_id a, eq_iff r.work_id a)
verify_authorization_accounting-decides r (some a) (some c) billed =
    ground (arith, eq_iff r.authorization_id a, eq_iff r.work_id a)
