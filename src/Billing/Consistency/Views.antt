-- ===== src/Billing/Consistency/Views.antt =====
-- What the tables say of one user, and how the writes of a balance row change it.
use livepeer_open_clearingho.Base.{
  ℕ, ◌+◌, ◌≡◌, refl, Option, none, some, List, [], ◌∷◌, ◌++◌, arith, ◌==◌, if◌then◌else◌,
}
use livepeer_open_clearingho.Base.Int.{ℤ, pos, ◌+ℤ◌, ◌≤ℤ◌, int_laws}
use livepeer_open_clearingho.Billing.Rows.{
  CreditBalance, CreditLedger, Db, find_balance, write_balance,
}

abbrev pub amount_of : Option CreditBalance → ℤ
amount_of none = pos 0
amount_of (some row) = row.amount_wei

abbrev pub version_of : Option CreditBalance → ℕ
version_of none = 0
version_of (some row) = row.version

-- The balance of a user; a user with no row has none.
abbrev pub balance_of : ℕ → Db → ℤ
balance_of u db = amount_of (find_balance u db.balances)

abbrev pub ledger_sum : ℕ → List CreditLedger → ℤ
ledger_sum u [] = pos 0
ledger_sum u (l ∷ ls) = (if u == l.user_id then l.delta_wei else pos 0) +ℤ ledger_sum u ls

abbrev pub ledger_count : ℕ → List CreditLedger → ℕ
ledger_count u [] = 0
ledger_count u (l ∷ ls) = (if u == l.user_id then 1 else 0) + ledger_count u ls

pub ledger_sum-append :
    (u : ℕ) (ls : List CreditLedger) (l : CreditLedger)
    → ledger_sum u (ls ++ l ∷ [])
      ≡ ledger_sum u ls +ℤ (if u == l.user_id then l.delta_wei else pos 0)
ledger_sum-append u [] l = omega int_laws
ledger_sum-append u (k ∷ ls) l = rw (ledger_sum-append u ls l) (omega int_laws)

pub ledger_count-append :
    (u : ℕ) (ls : List CreditLedger) (l : CreditLedger)
    → ledger_count u (ls ++ l ∷ []) ≡ ledger_count u ls + (if u == l.user_id then 1 else 0)
ledger_count-append u [] l = omega arith
ledger_count-append u (k ∷ ls) l = omega (arith, ledger_count-append u ls l)

pub find_balance-user :
    (u : ℕ) (rows : List CreditBalance) (row : CreditBalance)
    → find_balance u rows ≡ some row
    → row.user_id ≡ u
find_balance-user u [] row h = cc
find_balance-user u (r ∷ rows) row h = ground (arith, find_balance-user u rows row)

pub find_balance-write :
    (v : ℕ) (row : CreditBalance) (rows : List CreditBalance)
    → find_balance v (write_balance row rows)
      ≡ (if v == row.user_id then some row else find_balance v rows)
find_balance-write v row [] = refl
find_balance-write v row (r ∷ rows) = ground (arith, find_balance-write v row rows)

pub find_balance-append :
    (v : ℕ) (row : CreditBalance) (rows : List CreditBalance)
    → find_balance row.user_id rows ≡ none
    → find_balance v (rows ++ row ∷ [])
      ≡ (if v == row.user_id then some row else find_balance v rows)
find_balance-append v row [] h = refl
find_balance-append v row (r ∷ rows) h = ground (arith, find_balance-append v row rows)

-- The ledger and the balance table agree for every user, and nobody owes.
pub record IsConsistent (db : Db) : Type 0 where
  pub sums : (u : ℕ) → ledger_sum u db.ledger ≡ balance_of u db
  pub nonneg : (u : ℕ) → pos 0 ≤ℤ balance_of u db
  pub versions : (u : ℕ) → ledger_count u db.ledger ≡ version_of (find_balance u db.balances)
