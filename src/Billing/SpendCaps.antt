-- ===== src/Billing/SpendCaps.antt =====
-- The spend window of domains/billing/service.py: its bounds, and what a recorded spend leaves.
use livepeer_open_clearingho.Base.{
  ℕ, ◌+◌, ◌*◌, ◌/◌, ◌≤◌, ◌<◌, ◌≡◌, ◌⊎◌, inl, inr, refl, sym, subst, Option, none, some, List, [],
  ◌∷◌, ◌++◌, true, arith, if◌then◌else◌, Option-cases, is_some,
}
use livepeer_open_clearingho.Base.Int.{ℤ, pos, ◌+ℤ◌, ◌≤ℤ◌, ◌<ℤ◌}
use livepeer_open_clearingho.Base.Time.{Zone, Datetime, IsFixed, add_seconds, add_wall_seconds}
use livepeer_open_clearingho.Base.Result.{ok, err}
use livepeer_open_clearingho.Billing.Rows
use livepeer_open_clearingho.Billing.Rows.{
  SpendWindow, Error, Db, find_window, write_window, window_key_eq,
}
use livepeer_open_clearingho.Billing.Spend.{
  window_bounds_in, window_bounds_for, bucket_start, get_or_create_spend_window,
  enforce_and_record_spend, spent_in, new_window,
}

bucket_bounds :
    (m p : ℕ)
    → 0 < p
    → (m / 1000000 / p * p * 1000000 ≤ m) × (m < m / 1000000 / p * p * 1000000 + p * 1000000)
bucket_bounds m p h = omega arith

same_bucket :
    (m n p : ℕ)
    → 0 < p
    → m / 1000000 / p * p * 1000000 ≤ n
    → n < m / 1000000 / p * p * 1000000 + p * 1000000
    → n / 1000000 / p ≡ m / 1000000 / p
same_bucket m n p h lo hi = grind arith

-- For an aware time in a zone of fixed offset, such as UTC, and a positive period the window contains
-- the time and is one period long.
pub window_bounds-contain :
    (zone : Zone) (now : Datetime) (p : ℕ)
    → IsFixed zone
    → now.aware ≡ true
    → 0 < p
    → (start : Datetime) × (end : Datetime) × (window_bounds_in zone now p ≡ ok (start, end))
      × (start.micros ≤ now.micros)
      × (now.micros < end.micros)
      × (end.micros ≡ start.micros + p * 1000000)
window_bounds-contain zone now p fixed aware h =
    let b = bucket_bounds now.micros p h in
    let length = fixed (bucket_start now p).micros (p * 1000000) in
    (
      bucket_start now p,
      add_wall_seconds zone (bucket_start now p) p,
      ground arith,
      b.0,
      subst (λ e. now.micros < e) (sym length) (b.1),
      length,
    )

-- With a positive period, every aware time in the window of an aware time has that same window.
pub window_bounds-stable :
    (now t : Datetime) (p : ℕ)
    → now.aware ≡ true
    → t.aware ≡ true
    → 0 < p
    → let start = bucket_start now p in
      let end = add_seconds start p in
      start.micros ≤ t.micros
      → t.micros < end.micros
      → (window_bounds_for now p ≡ ok (start, end)) × (window_bounds_for t p ≡ ok (start, end))
unfolding window_bounds_for
window_bounds-stable now t p aware ta h lo hi =
    (ground arith, ground (arith, same_bucket now.micros t.micros p h lo hi))

find_window-write :
    (u : ℕ) (s : Datetime) (w : SpendWindow) (ws : List SpendWindow)
    → find_window u s (write_window w ws)
      ≡ (if window_key_eq u s w then some w else find_window u s ws)
find_window-write u s w [] = refl
find_window-write u s w (v ∷ ws) = ground (arith, find_window-write u s w ws)

find_window-append :
    (u : ℕ) (s : Datetime) (w : SpendWindow) (ws : List SpendWindow)
    → find_window w.user_id w.window_start ws ≡ none
    → find_window u s (ws ++ w ∷ []) ≡ (if window_key_eq u s w then some w else find_window u s ws)
find_window-append u s w [] h = refl
find_window-append u s w (v ∷ ws) h = ground (arith, find_window-append u s w ws)

find_window-key :
    (u : ℕ) (s : Datetime) (ws : List SpendWindow) (w : SpendWindow)
    → find_window u s ws ≡ some w
    → window_key_eq u s w ≡ true
find_window-key u s [] w h = cc
find_window-key u s (v ∷ ws) w h = ground (arith, find_window-key u s ws w)

-- The cap that counts: the one that an open window was created with, or the one now configured.
abbrev pub cap_in : ℤ → Option SpendWindow → ℤ
cap_in cap_wei none = cap_wei
cap_in cap_wei (some w) = w.cap_wei

abbrev pub window_at : ℕ → Datetime → Db → Option SpendWindow
window_at u start db = find_window u start db.windows

-- With a cap and a window, a spend is refused exactly if it would pass the cap of the window. If
-- it is recorded, there is a row for the window, whose tally has grown by the amount and
-- is within that cap, and the cap stays.
pub enforce-decides :
    (u : ℕ) (x : ℤ) (now : Datetime) (p : ℕ) (cap : ℤ) (db : Db) (start end : Datetime)
    → pos 0 <ℤ cap
    → window_bounds_for now p ≡ ok (start, end)
    → let before = window_at u start db in
      let after = spent_in before +ℤ x in
      let (r, db') = enforce_and_record_spend u x now p cap db in
      ((r ≡ err (Rows.spend_cap_exceeded (cap_in cap before) after)) × (cap_in cap before <ℤ after))
      ⊎ ((r ≡ ok tt)
          × (after ≤ℤ cap_in cap before)
          × (is_some (window_at u start db') ≡ true)
          × (spent_in (window_at u start db') ≡ after)
          × (cap_in cap (window_at u start db') ≡ cap_in cap before))
unfolding enforce_and_record_spend get_or_create_spend_window
enforce-decides u x now p cap db start end pc bounds = elim (Option-cases (window_at u start db)) [
  | inl new ↦ ground (
    arith,
    find_window-append u start (new_window u start end cap) db.windows,
    find_window-write u start (record (new_window u start end cap) { spent_wei = pos 0 +ℤ x })
        (db.windows ++ new_window u start end cap ∷ []),
  )
  | inr (w, e) ↦ ground (
    arith,
    find_window-key u start db.windows w e,
    find_window-write u start (record w { spent_wei = w.spent_wei +ℤ x }) db.windows,
  )
]
