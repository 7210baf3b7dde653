-- ===== src/Billing/SpendRoom.antt =====
-- `remaining_window_room` of domains/billing/service.py against the enforcement of the cap.
use livepeer_open_clearingho.Base.{ℕ, ◌≡◌, ◌↔◌, inl, inr, arith, false}
use livepeer_open_clearingho.Base.Int.{ℤ, pos, ◌+ℤ◌, ◌-ℤ◌, ◌≤ℤ◌, ◌<ℤ◌, leb_ℤ, int_laws}
use livepeer_open_clearingho.Base.Time.{Datetime}
use livepeer_open_clearingho.Base.Result.{ok}
use livepeer_open_clearingho.Billing.Rows.{Db}
use livepeer_open_clearingho.Billing.Spend.{
  window_bounds_for, finite, spent_in, remaining_window_room, enforce_and_record_spend,
}
use livepeer_open_clearingho.Billing.SpendCaps.{window_at, cap_in, enforce-decides}

room-eq :
    (u : ℕ) (now : Datetime) (p : ℕ) (cap_wei : ℤ) (db : Db) (start end : Datetime)
    → pos 0 <ℤ cap_wei
    → window_bounds_for now p ≡ ok (start, end)
    → remaining_window_room u now p cap_wei db
      ≡ (ok (finite (cap_wei -ℤ spent_in (window_at u start db))), db)
unfolding remaining_window_room
room-eq u now p cap_wei db start end h bounds =
    let capped : leb_ℤ cap_wei (pos 0) ≡ false = ground arith in rw (capped, bounds)

within : (cap_wei spent x : ℤ) → spent +ℤ x ≤ℤ cap_wei → x ≤ℤ cap_wei -ℤ spent
within cap_wei spent x h = omega int_laws

beyond : (cap_wei spent x : ℤ) → cap_wei <ℤ spent +ℤ x → ¬ (x ≤ℤ cap_wei -ℤ spent)
beyond cap_wei spent x over h = omega int_laws

-- With a cap, and a window that is not open yet or was opened with that cap, the reported room is
-- exact: a spend is recorded exactly if it is at most the room. The report changes nothing.
pub remaining_window_room-decides :
    (u : ℕ) (x : ℤ) (now : Datetime) (p : ℕ) (cap_wei : ℤ) (db : Db) (start end : Datetime)
    → pos 0 <ℤ cap_wei
    → window_bounds_for now p ≡ ok (start, end)
    → cap_in cap_wei (window_at u start db) ≡ cap_wei
    → (room : ℤ) × (remaining_window_room u now p cap_wei db ≡ (ok (finite room), db))
      × (x ≤ℤ room ↔ ((enforce_and_record_spend u x now p cap_wei db).0 ≡ ok tt))
remaining_window_room-decides u x now p cap_wei db start end h bounds same = (
  cap_wei -ℤ spent_in (window_at u start db),
  room-eq u now p cap_wei db start end h bounds,
  elim (enforce-decides u x now p cap_wei db start end h bounds) [
    | inl (refused, over) ↦ (
      (λ fits. absurd (beyond cap_wei _ x (rw same at over) fits)),
      (λ done. absurd (cc (done, refused))),
    )
    | inr (recorded, fits, held, spent, kept) ↦
        ((λ le. recorded), (λ done. within cap_wei _ x (rw same at fits)))
  ],
)
