-- ===== src/Billing/Consistency/Delta.antt =====
-- `_ensure_balance_row` and `_apply_delta`, seen through the balance of every user.
use livepeer_open_clearingho.Base.{
  ℕ, ◌+◌, ◌≡◌, none, some, [], ◌∷◌, ◌++◌, Option-cases, Bool-cases, inl, inr, arith, ◌==◌,
  if◌then◌else◌,
}
use livepeer_open_clearingho.Base.Int.{ℤ, pos, ◌+ℤ◌, ◌≤ℤ◌, neg, ltb_ℤ, int_laws}
use livepeer_open_clearingho.Base.Result.{ok, err}
use livepeer_open_clearingho.Base.Action.{Keeps}
use livepeer_open_clearingho.Billing.Rows
use livepeer_open_clearingho.Billing.Rows.{
  CreditBalance, CreditLedger, Reason, Related, Error, Db, Billing, find_balance, write_balance,
}
use livepeer_open_clearingho.Billing.Ledger.{ensure_balance_row, apply_delta, post_delta}
use livepeer_open_clearingho.Billing.Consistency.Views.{
  balance_of, version_of, ledger_sum-append, ledger_count-append, find_balance-user,
  find_balance-write, find_balance-append, IsConsistent,
}

-- The row that `_ensure_balance_row` returns: it carries the user's balance and version, and it is
-- in the table afterwards. The other tables stay.
pub record Ensured (u : ℕ) (db : Db) (row : CreditBalance) (db' : Db) : Type 0 where
  pub user : row.user_id ≡ u
  pub amount : row.amount_wei ≡ balance_of u db
  pub found : find_balance u db'.balances ≡ some row
  pub version : row.version ≡ version_of (find_balance u db.balances)
  pub amounts : (v : ℕ) → balance_of v db' ≡ balance_of v db
  pub version_kept :
      (v : ℕ) → version_of (find_balance v db'.balances) ≡ version_of (find_balance v db.balances)
  pub ledger_kept : db'.ledger ≡ db.ledger
  pub configs_kept : db'.configs ≡ db.configs

fresh_row : ℕ → CreditBalance
fresh_row u = record { user_id = u; amount_wei = pos 0; version = 0 }

pub ensured_row : ℕ → Db → CreditBalance
unfolding ensure_balance_row fresh_row
ensured_row u db = elim (find_balance u db.balances) [ none ↦ fresh_row u | some row ↦ row ]

pub ensured_db : ℕ → Db → Db
unfolding ensure_balance_row
ensured_db u db = (ensure_balance_row u db).1

-- The call never raises.
pub ensure-eq :
    (u : ℕ) (db : Db) → ensure_balance_row u db ≡ (ok (ensured_row u db), ensured_db u db)
unfolding ensure_balance_row ensured_row ensured_db
ensure-eq u db = ground arith

pub ensure-Ensured : (u : ℕ) (db : Db) → Ensured u db (ensured_row u db) (ensured_db u db)
unfolding ensured_row ensured_db
ensure-Ensured u db = elim (Option-cases (find_balance u db.balances)) [
  | inl new ↦ record {
    user = ground arith;
    amount = ground arith;
    found = ground (arith, find_balance-append u (fresh_row u) db.balances);
    version = ground arith;
    amounts = λ v. ground (arith, find_balance-append v (fresh_row u) db.balances);
    version_kept = λ v. ground (arith, find_balance-append v (fresh_row u) db.balances);
    ledger_kept = ground arith;
    configs_kept = ground arith;
  }
  | inr (row, e) ↦ record {
    user = ground (arith, find_balance-user u db.balances row e);
    amount = ground arith;
    found = ground arith;
    version = ground arith;
    amounts = λ v. ground arith;
    version_kept = λ v. ground arith;
    ledger_kept = ground arith;
    configs_kept = ground arith;
  }
]

-- `_apply_delta`, once the balance row is there.
pub apply_delta-eq :
    (u : ℕ) (δ : ℤ) (r : Reason) (rel : Related) (db : Db)
    → apply_delta u δ r rel db ≡ (
        if ltb_ℤ (balance_of u db +ℤ δ) (pos 0)
        then (err (Rows.insufficient_credit (balance_of u db) (neg δ)), ensured_db u db)
        else post_delta (ensured_row u db) (balance_of u db +ℤ δ) u δ r rel (ensured_db u db))
unfolding apply_delta
apply_delta-eq u δ r rel db =
    rw (ensure-eq u db, (ensure-Ensured u db).amount)
      (elim (Bool-cases (ltb_ℤ (balance_of u db +ℤ δ) (pos 0))) [
        | inl short ↦ rw short
        | inr covered ↦ rw covered
      ])

abbrev pub entry : ℕ → ℤ → Reason → Related → CreditLedger
entry u δ r rel = record { user_id = u; delta_wei = δ; reason = r; related = rel }

-- What a posted delta leaves behind.
pub record Posted (u : ℕ) (δ : ℤ) (r : Reason) (rel : Related) (db db' : Db) : Type 0 where
  pub amounts :
      (v : ℕ) → balance_of v db' ≡ (if v == u then balance_of u db +ℤ δ else balance_of v db)
  pub bumped :
      (v : ℕ)
      → version_of (find_balance v db'.balances)
        ≡ version_of (find_balance v db.balances) + (if v == u then 1 else 0)
  pub appended : db'.ledger ≡ db.ledger ++ entry u δ r rel ∷ []

pub post-Posted :
    (u : ℕ) (δ : ℤ) (r : Reason) (rel : Related) (db : Db)
    → Posted u δ r rel db
        (post_delta (ensured_row u db) (balance_of u db +ℤ δ) u δ r rel (ensured_db u db)).1
unfolding post_delta
post-Posted u δ r rel db =
    let e = ensure-Ensured u db in
    record {
      amounts = λ v.
          rw (find_balance-write v _ (ensured_db u db).balances, e.user)
            (ground (arith, e.amounts v));
      bumped = λ v.
          rw (find_balance-write v _ (ensured_db u db).balances, e.user)
            (ground (arith, e.version_kept v, e.version));
      appended = rw e.ledger_kept;
    }

Ensured-IsConsistent :
    (u : ℕ) (row : CreditBalance) (db db' : Db)
    → Ensured u db row db'
    → IsConsistent db
    → IsConsistent db'
Ensured-IsConsistent u row db db' e c = record {
  sums = λ v. rw (e.ledger_kept, e.amounts v) (c.sums v);
  nonneg = λ v. rw (e.amounts v) (c.nonneg v);
  versions = λ v. rw (e.ledger_kept, e.version_kept v) (c.versions v);
}

Posted-IsConsistent :
    (u : ℕ) (δ : ℤ) (r : Reason) (rel : Related) (db db' : Db)
    → Posted u δ r rel db db'
    → pos 0 ≤ℤ balance_of u db +ℤ δ
    → IsConsistent db
    → IsConsistent db'
Posted-IsConsistent u δ r rel db db' p covered c = record {
  sums = λ v.
      rw (p.appended, ledger_sum-append v db.ledger (entry u δ r rel), p.amounts v)
        (grind (int_laws, c.sums v));
  nonneg = λ v. rw (p.amounts v) (grind (arith, c.nonneg v));
  versions = λ v.
      rw (p.appended, ledger_count-append v db.ledger (entry u δ r rel), p.bumped v)
        (ground (arith, c.versions v));
}

pub ensure-Keeps : (u : ℕ) → Keeps IsConsistent (ensure_balance_row u)
ensure-Keeps u = record {
  after = λ db c.
      rw (ensure-eq u db)
        (Ensured-IsConsistent u (ensured_row u db) db (ensured_db u db) (ensure-Ensured u db) c);
}

-- A delta is posted with its ledger row, or refused; both keep the tables consistent.
pub apply_delta-Keeps :
    (u : ℕ) (δ : ℤ) (r : Reason) (rel : Related) → Keeps IsConsistent (apply_delta u δ r rel)
apply_delta-Keeps u δ r rel = record {
  after = λ db c.
      rw (apply_delta-eq u δ r rel db) (elim (Bool-cases (ltb_ℤ (balance_of u db +ℤ δ) (pos 0))) [
        | inl short ↦
            rw short (
              Ensured-IsConsistent u (ensured_row u db) db (ensured_db u db) (ensure-Ensured u db)
                c)
        | inr covered ↦ rw covered (
            Posted-IsConsistent u δ r rel db
              (post_delta (ensured_row u db) (balance_of u db +ℤ δ) u δ r rel (ensured_db u db)).1
              (post-Posted u δ r rel db) (ground arith) c)
      ]);
}
