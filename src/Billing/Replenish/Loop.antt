-- ===== src/Billing/Replenish/Loop.antt =====
-- The loop of `run_auto_replenish` over all users (domains/billing/service.py).
use livepeer_open_clearingho.Base.{
  ℕ, ◌+◌, ◌≡◌, inl, inr, refl, List, [], ◌∷◌, false, ◌==◌, arith, if◌then◌else◌, Bool-cases,
}
use livepeer_open_clearingho.Base.Int.{pos, ◌≤ℤ◌, int_laws}
use livepeer_open_clearingho.Base.Result.{Result, ok, err}
use livepeer_open_clearingho.Base.Action.{continue, pure}
use livepeer_open_clearingho.Billing.Rows.{Error, Db}
use livepeer_open_clearingho.Billing.Config.{
  Settings, resolve_billing_config, replenish_user, replenish_users, run_auto_replenish,
  balance_users,
}
use livepeer_open_clearingho.Billing.Consistency.Views.{balance_of, IsConsistent}
use livepeer_open_clearingho.Billing.Replenish.{
  is_due, increment, replenished, count_due, member, IsDistinct, Round, replenish_user-Round,
}

record Rounds (settings : Settings) (us : List ℕ) (db : Db) (res : Result Error ℕ × Db)
    : Type 0 where
  result : res.0 ≡ ok (count_due settings db us)
  amounts :
      (v : ℕ)
      → balance_of v res.1 ≡ (if member v us then replenished settings db v else balance_of v db)

-- A round for one user leaves the others due as they were.
due-frame :
    (settings : Settings) (v : ℕ) (db db' : Db)
    → db'.configs ≡ db.configs
    → balance_of v db' ≡ balance_of v db
    → (is_due settings db' v ≡ is_due settings db v)
      × (increment settings db' v ≡ increment settings db v)
unfolding resolve_billing_config
due-frame settings v db db' c b = (rw (c, b), rw c)

count-frame :
    (settings : Settings) (us : List ℕ) (u : ℕ) (db db' : Db)
    → member u us ≡ false
    → db'.configs ≡ db.configs
    → ((v : ℕ) → (v == u) ≡ false → balance_of v db' ≡ balance_of v db)
    → count_due settings db' us ≡ count_due settings db us
count-frame settings [] u db db' out c same = refl
count-frame settings (v ∷ us) u db db' out c same = rw (
  (due-frame settings v db db' c (same v (ground arith))).0,
  count-frame settings us u db db' (ground arith) c same,
)

covers :
    (settings : Settings) (u : ℕ) (db : Db)
    → pos 0 ≤ℤ balance_of u db
    → pos 0 ≤ℤ replenished settings db u
covers settings u db h = grind int_laws

after-Rounds :
    (settings : Settings) (u : ℕ) (us : List ℕ) (db db₁ : Db) (a : ℕ) (res : Result Error ℕ × Db)
    → member u us ≡ false
    → Round settings u db (ok a, db₁)
    → Rounds settings us db₁ res
    → Rounds settings (u ∷ us) db (continue res.0 (λ n. pure (a + n)) res.1)
after-Rounds settings u us db db₁ a (err e, db') out r rs = absurd (cc (rs.result))
after-Rounds settings u us db db₁ a (ok n, db') out r rs = record {
  result =
      let same =
        count-frame settings us u db db₁ out r.configs (λ v ne. ground (arith, r.amounts v)) in
      ground (arith, r.result, rs.result, same);
  amounts = λ v. elim (Bool-cases (v == u)) [
    | inl here ↦ ground (arith, rs.amounts v, r.amounts v, out)
    | inr there ↦
        let b : balance_of v db₁ ≡ balance_of v db = ground (arith, r.amounts v) in
        let f = due-frame settings v db db₁ r.configs b in rw (rs.amounts v, there, f.0, f.1, b)
  ];
}

round_covers :
    (settings : Settings) (u v : ℕ) (db : Db)
    → pos 0 ≤ℤ balance_of u db
    → pos 0 ≤ℤ balance_of v db
    → pos 0 ≤ℤ (if v == u then replenished settings db u else balance_of v db)
round_covers settings u v db hu hv = elim (Bool-cases (v == u)) [
  | inl here ↦ rw here (covers settings u db hu)
  | inr there ↦ rw there hv
]

first-Rounds :
    (settings : Settings) (u : ℕ) (us : List ℕ) (db : Db) (res : Result Error ℕ × Db)
    → member u us ≡ false
    → Round settings u db res
    → Rounds settings us res.1 (replenish_users settings us res.1)
    → Rounds settings (u ∷ us) db (
        continue res.0
          (λ a s.
            continue
              (replenish_users settings us s).0
              (λ n. pure (a + n))
              (replenish_users settings us s).1)
          res.1)
first-Rounds settings u us db (ok a, db₁) out r rs =
    after-Rounds settings u us db db₁ a (replenish_users settings us db₁) out r rs
first-Rounds settings u us db (err e, db₁) out r rs = absurd (cc (r.result))

replenish_users-Rounds :
    (settings : Settings) (us : List ℕ) (db : Db)
    → IsDistinct us
    → ((v : ℕ) → pos 0 ≤ℤ balance_of v db)
    → Rounds settings us db (replenish_users settings us db)
unfolding replenish_users
replenish_users-Rounds settings [] db d nonneg = record { result = refl; amounts = λ v. refl }
replenish_users-Rounds settings (u ∷ us) db (out, d) nonneg =
    let r = replenish_user-Round settings u db (nonneg u) in
    first-Rounds settings u us db (replenish_user settings u db) out r (
      replenish_users-Rounds settings us (replenish_user settings u db).1 d
        (λ v. rw (r.amounts v) (round_covers settings u v db (nonneg u) (nonneg v))))

-- From consistent tables, in which each user has one balance row, the job never raises. It counts
-- the users that are due: those with a positive increment and a balance below their positive
-- threshold. Each of them has the increment more afterwards, and every other balance stays.
pub run_auto_replenish_lem :
    (settings : Settings) (db : Db)
    → IsConsistent db
    → IsDistinct (balance_users db.balances)
    → let (res, db') = run_auto_replenish settings db in
      (res ≡ ok (count_due settings db (balance_users db.balances)))
      × ((v : ℕ)
          → balance_of v db' ≡ (
              if member v (balance_users db.balances)
              then replenished settings db v
              else balance_of v db))
unfolding run_auto_replenish
run_auto_replenish_lem settings db c d =
    let r = replenish_users-Rounds settings (balance_users db.balances) db d c.nonneg in
    (r.result, r.amounts)
