-- ===== src/Billing/SpendTotals.antt =====
-- A whole spend window of domains/billing/service.py: many spends, one after the other.
use livepeer_open_clearingho.Base.{
  ℕ, ◌≡◌, inl, inr, refl, Option, none, some, List, [], ◌∷◌, All, is_some, true, arith,
}
use livepeer_open_clearingho.Base.Int.{ℤ, pos, ◌+ℤ◌, ◌≤ℤ◌, ◌<ℤ◌, int_laws, +ℤ_assoc}
use livepeer_open_clearingho.Base.Time.{Datetime}
use livepeer_open_clearingho.Base.Result.{Result, ok, err}
use livepeer_open_clearingho.Billing.Rows.{SpendWindow, Error, Db}
use livepeer_open_clearingho.Billing.Requests.{settle}
use livepeer_open_clearingho.Billing.Spend.{window_bounds_for, enforce_and_record_spend, spent_in}
use livepeer_open_clearingho.Billing.SpendCaps.{window_at, cap_in, enforce-decides}

-- An amount, the time of its request, and the cap configured at that time.
abbrev pub Spend : Type 0
Spend = ℤ × Datetime × ℤ

abbrev pub accepted : ℤ → Result Error (Unit {0}) → ℤ
accepted x (ok a) = x
accepted x (err e) = pos 0

-- Spends one after the other, each in a transaction: the sum of those recorded, and the tables.
pub spend_run : ℕ → ℕ → List Spend → Db → ℤ × Db
spend_run u p [] db = (pos 0, db)
spend_run u p ((x, now, cap) ∷ rest) db =
    let r = enforce_and_record_spend u x now p cap db in
    let (total, db') = spend_run u p rest (settle db r) in (accepted x r.0 +ℤ total, db')

module _ (u p : ℕ) (start end : Datetime) where
  abbrev pub InWindow : Spend → Type 0
  InWindow (x, now, cap) = (window_bounds_for now p ≡ ok (start, end)) × (pos 0 <ℤ cap)

  -- What the window holds: a tally and the cap that it was created with.
  abbrev pub Holds : ℤ → ℤ → Db → Type 0
  Holds spent cap db =
      (w : SpendWindow) × (window_at u start db ≡ some w)
      × (w.spent_wei ≡ spent)
      × (w.cap_wei ≡ cap)

  pub Holds-some :
      (o : Option SpendWindow) (spent cap : ℤ) (given : ℤ)
      → is_some o ≡ true
      → spent_in o ≡ spent
      → cap_in given o ≡ cap
      → (w : SpendWindow) × (o ≡ some w) × (w.spent_wei ≡ spent) × (w.cap_wei ≡ cap)
  Holds-some none spent cap given h s c = cc
  Holds-some (some w) spent cap given h s c = (w, refl, s, c)

  one_spend :
      (x : ℤ) (now : Datetime) (cap : ℤ) (spent opened : ℤ) (db : Db)
      → InWindow (x, now, cap)
      → Holds spent opened db
      → spent ≤ℤ opened
      → let r = enforce_and_record_spend u x now p cap db in
        Holds (spent +ℤ accepted x r.0) opened (settle db r) × (spent +ℤ accepted x r.0 ≤ℤ opened)
  one_spend x now cap spent opened db (b, pc) (w, e, s, c) le =
      elim (enforce-decides u x now p cap db start end pc b) [
        | inl (refused, over) ↦ rw refused ((w, e, rw s (omega int_laws), c), omega int_laws)
        | inr (recorded, within, there, spent', cap') ↦ rw recorded (
          Holds-some (window_at u start (enforce_and_record_spend u x now p cap db).1) (spent +ℤ x)
              opened cap there (ground (arith, spent', e, s)) (ground (arith, cap', e, c)),
          ground (arith, within, e, s, c),
        )
      ]

  -- If the window's row holds a tally within its cap, then after any spends in that window, with
  -- whatever positive caps are configured meanwhile, the row holds the tally plus all that was recorded,
  -- under the same cap, and is still within it.
  pub spends-le-cap :
      (spends : List Spend) (spent opened : ℤ) (db : Db)
      → All InWindow spends
      → Holds spent opened db
      → spent ≤ℤ opened
      → let (total, db') = spend_run u p spends db in
        Holds (spent +ℤ total) opened db' × (spent +ℤ total ≤ℤ opened)
  unfolding spend_run
  spends-le-cap [] spent opened db inside (w, e, s, c) le =
      ((w, e, rw s (omega int_laws), c), omega int_laws)
  spends-le-cap ((x, now, cap) ∷ rest) spent opened db (here, inside) h le =
      let r = enforce_and_record_spend u x now p cap db in
      let step = one_spend x now cap spent opened db here h le in
      let all =
        spends-le-cap rest (spent +ℤ accepted x r.0) opened (settle db r) inside step.0 step.1 in
      rw (← +ℤ_assoc) all
