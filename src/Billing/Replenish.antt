-- ===== src/Billing/Replenish.antt =====
-- The scheduled job `run_auto_replenish` of domains/billing/service.py against its specification.
pub mod Loop
use livepeer_open_clearingho.Base.{
  ℕ, zero, ◌+◌, String, ◌≡◌, ◌∙◌, ◌≢◌, ◌⊎◌, inl, inr, refl, sym, ap, Option, none, some, List, [],
  ◌∷◌, ◌++◌, Bool, true, false, not, ◌&&◌, ◌||◌, ◌==◌, arith, if◌then◌else◌, Option-cases,
  Bool-cases, All,
}
use livepeer_open_clearingho.Base.Int.{ℤ, pos, ◌+ℤ◌, ◌≤ℤ◌, ◌<ℤ◌, neg, leb_ℤ, ltb_ℤ, int_laws}
use livepeer_open_clearingho.Base.Result.{Result, ok, err}
use livepeer_open_clearingho.Base.Action.{Action, continue, pure}
use livepeer_open_clearingho.Billing.Rows
use livepeer_open_clearingho.Billing.Rows.{
  CreditBalance, Reason, Related, unrelated, Error, Db, Billing, find_balance,
}
use livepeer_open_clearingho.Billing.Ledger.{
  apply_delta, post_delta, ensure_balance_row, topup, add_topup, topup_reason,
}
use livepeer_open_clearingho.Billing.Config.{
  Settings, ResolvedBillingConfig, resolve, resolve_billing_config, is_armed, replenish_user,
  replenish_users, run_auto_replenish, balance_users,
}
use livepeer_open_clearingho.Billing.Consistency.Views.{balance_of, IsConsistent}
use livepeer_open_clearingho.Billing.Consistency.Delta.{
  ensured_row, ensured_db, ensure-eq, ensure-Ensured, apply_delta-eq,
}
use livepeer_open_clearingho.Billing.Transfers.{Moves, apply_delta-Moves}

-- The user is to be topped up: both knobs are positive and the balance is below the threshold.
abbrev pub is_due : Settings → Db → ℕ → Bool
is_due settings db u =
    let c = resolve_billing_config u settings db in
    is_armed c && not (leb_ℤ c.auto_replenish_threshold_wei (balance_of u db))

abbrev pub increment : Settings → Db → ℕ → ℤ
increment settings db u = (resolve_billing_config u settings db).auto_replenish_increment_wei

-- The balance after the job.
abbrev pub replenished : Settings → Db → ℕ → ℤ
replenished settings db u =
    if is_due settings db u then balance_of u db +ℤ increment settings db u else balance_of u db

abbrev pub count_due : Settings → Db → List ℕ → ℕ
count_due settings db [] = 0
count_due settings db (u ∷ us) = (if is_due settings db u then 1 else 0) + count_due settings db us

abbrev pub member : ℕ → List ℕ → Bool
member v [] = false
member v (u ∷ us) = v == u || member v us

abbrev pub IsDistinct : List ℕ → Type 0
IsDistinct [] = Unit
IsDistinct (u ∷ us) = (member u us ≡ false) × IsDistinct us

-- What the job's round for one user leaves.
pub record Round (settings : Settings) (u : ℕ) (db : Db) (res : Result Error ℕ × Db) : Type 0 where
  pub result : res.0 ≡ ok (if is_due settings db u then 1 else 0)
  pub amounts :
      (v : ℕ) → balance_of v res.1 ≡ (if v == u then replenished settings db u else balance_of v db)
  pub configs : res.1.configs ≡ db.configs

-- A top-up of a positive amount to a user who does not owe goes through.
record Topped (u : ℕ) (x : ℤ) (db : Db) (res : Result Error (Rows.CreditTopup × CreditBalance) × Db)
    : Type 0 where
  result : (row : Rows.CreditTopup × CreditBalance) × (res.0 ≡ ok row)
  amounts :
      (v : ℕ) → balance_of v res.1 ≡ (if v == u then balance_of u db +ℤ x else balance_of v db)
  configs : res.1.configs ≡ db.configs

configs-apply_delta :
    (u : ℕ) (δ : ℤ) (r : Reason) (rel : Related) (db : Db)
    → (apply_delta u δ r rel db).1.configs ≡ db.configs
unfolding post_delta
configs-apply_delta u δ r rel db =
    rw (apply_delta-eq u δ r rel db) (elim (Bool-cases (ltb_ℤ (balance_of u db +ℤ δ) (pos 0))) [
      | inl short ↦ rw short ((ensure-Ensured u db).configs_kept)
      | inr covered ↦ rw covered ((ensure-Ensured u db).configs_kept)
    ])

topup-Topped :
    (u : ℕ) (x : ℤ) (kind : String) (o : Option ℕ) (db : Db)
    → pos 0 ≤ℤ balance_of u db +ℤ x
    → Topped u x db (topup u x kind o db)
unfolding topup
topup-Topped u x kind o db covered =
    go db.next_id
      (record db {
        topups =
            db.topups
            ++ record {
              id = db.next_id;
              user_id = u;
              amount_wei = x;
              topup_kind = kind;
              operator_id = o;
            }
              ∷ [];
        next_id = db.next_id + 1;
      })
      refl refl
  where
    row_of : ℕ → Rows.CreditTopup
    row_of id = record { id = id; user_id = u; amount_wei = x; topup_kind = kind; operator_id = o }

    rel : ℕ → Related
    rel id = record unrelated { topup_row = some id; operator = o }

    posted :
        (id : ℕ) (db₀ : Db) (res : Result Error CreditBalance × Db)
        → db₀.balances ≡ db.balances
        → db₀.configs ≡ db.configs
        → res.1.configs ≡ db₀.configs
        → Moves u x (topup_reason kind) (rel id) db₀ res
        → Topped u x db (continue res.0 (λ b. pure (row_of id, b)) res.1)
    posted id db₀ (ok b, db') bal conf conf' (cov, p) = record {
      result = ((row_of id, b), refl);
      amounts = λ v. rw bal at (p.amounts v);
      configs = conf' ∙ conf;
    }
    posted id db₀ (err e, db') bal conf conf' (why, short, rest, more) =
        absurd (ground (arith, short, bal, covered))

    go :
        (id : ℕ) (db₀ : Db)
        → db₀.balances ≡ db.balances
        → db₀.configs ≡ db.configs
        → Topped u x db (
            continue
              (apply_delta u x (topup_reason kind) (rel id) db₀).0
              (λ b. pure (row_of id, b))
              (apply_delta u x (topup_reason kind) (rel id) db₀).1)
    go id db₀ bal conf =
        posted id db₀ (apply_delta u x (topup_reason kind) (rel id) db₀) bal conf
          (configs-apply_delta u x (topup_reason kind) (rel id) db₀)
          (apply_delta-Moves u x (topup_reason kind) (rel id) db₀)

Topped-Round :
    (settings : Settings) (u : ℕ) (db₁ : Db)
    (res : Result Error (Rows.CreditTopup × CreditBalance) × Db) (db : Db)
    → is_due settings db u ≡ true
    → ((v : ℕ) → balance_of v db₁ ≡ balance_of v db)
    → db₁.configs ≡ db.configs
    → Topped u (increment settings db u) db₁ res
    → Round settings u db (continue res.0 (λ x. pure 1) res.1)
Topped-Round settings u db₁ (ok r, db') db due same conf t = record {
  result = rw due;
  amounts = λ v. ground (arith, t.amounts v, same v, same u, due);
  configs = t.configs ∙ conf;
}
Topped-Round settings u db₁ (err e, db') db due same conf t = absurd (cc (t.result.1))

armed_covers :
    (c : ResolvedBillingConfig) (b : ℤ)
    → is_armed c ≡ true
    → pos 0 ≤ℤ b
    → pos 0 ≤ℤ b +ℤ c.auto_replenish_increment_wei
armed_covers c b armed h = grind (int_laws, armed)

pub replenish_user-Round :
    (settings : Settings) (u : ℕ) (db : Db)
    → pos 0 ≤ℤ balance_of u db
    → Round settings u db (replenish_user settings u db)
unfolding replenish_user
replenish_user-Round settings u db owes_not =
    let c = resolve_billing_config u settings db in
    let en = ensure-Ensured u db in
    elim (Bool-cases (is_armed c)) [
      | inl armed ↦ elim (Bool-cases (leb_ℤ c.auto_replenish_threshold_wei (balance_of u db))) [
        | inl above ↦
            rw (armed, ensure-eq u db, en.amount, above)
              (record {
                result = rw (armed, above);
                amounts = λ v. rw (armed, above) (ground (arith, en.amounts v));
                configs = en.configs_kept;
              })
        | inr below ↦
            rw (armed, ensure-eq u db, en.amount, below)
              (Topped-Round settings u (ensured_db u db)
                (topup u c.auto_replenish_increment_wei "auto_replenish" none (ensured_db u db)) db
                (rw (armed, below)) en.amounts en.configs_kept
                (topup-Topped u c.auto_replenish_increment_wei "auto_replenish" none
                  (ensured_db u db)
                  (rw (en.amounts u) (armed_covers c (balance_of u db) armed owes_not))))
      ]
      | inr idle ↦
          rw idle
            (record { result = rw idle; amounts = λ v. rw idle (ground arith); configs = refl })
    ]
