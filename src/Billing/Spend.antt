-- ===== src/Billing/Spend.antt =====
-- domains/billing/service.py: the spend window of a user and the cap on it.
use livepeer_open_clearingho.Base.{
  ℕ, ◌*◌, ◌/◌, Option, none, some, ◌∷◌, [], ◌++◌, not, ◌==◌, if◌then◌else◌,
}
use livepeer_open_clearingho.Base.Int.{ℤ, pos, ◌+ℤ◌, ◌-ℤ◌, ltb_ℤ, leb_ℤ}
use livepeer_open_clearingho.Base.Time.{Datetime, Zone, utc, epoch_seconds, add_wall_seconds}
use livepeer_open_clearingho.Base.Result.{Result, ok, err}
use livepeer_open_clearingho.Base.Action.{pure, gets, lift, modify, raise_if, ◌>>=◌, ◌>>◌}
use livepeer_open_clearingho.Billing.Rows
use livepeer_open_clearingho.Billing.Rows.{
  SpendWindow, Error, Db, Billing, find_window, write_window,
}

-- `datetime.fromtimestamp(bucket, tz=now.tzinfo)`
abbrev pub bucket_start : Datetime → ℕ → Datetime
bucket_start now period_seconds = record now {
  micros = epoch_seconds now / period_seconds * period_seconds * 1000000;
}

-- `zone` is `now.tzinfo`. Division by a period of zero raises.
abbrev pub window_bounds_in : Zone → Datetime → ℕ → Result Error (Datetime × Datetime)
window_bounds_in zone now period_seconds =
    if not now.aware
    then err Rows.naive_clock
    else if period_seconds == 0
    then err Rows.zero_division
    else (let start = bucket_start now period_seconds in
        ok (start, add_wall_seconds zone start period_seconds))

-- At the time of the clock, `DefaultClock` of providers/clock, which is in UTC.
unfoldable pub window_bounds_for : Datetime → ℕ → Result Error (Datetime × Datetime)
window_bounds_for now period_seconds = window_bounds_in utc now period_seconds

abbrev pub new_window : ℕ → Datetime → Datetime → ℤ → SpendWindow
new_window u start end cap_wei = record {
  user_id = u;
  window_start = start;
  window_end = end;
  spent_wei = pos 0;
  cap_wei = cap_wei;
}

unfoldable pub or_create_window :
    ℕ → Datetime → Datetime → ℤ → Option SpendWindow → Billing SpendWindow
or_create_window u start end cap_wei (some w) db = pure w db
or_create_window u start end cap_wei none db =
    let w = new_window u start end cap_wei in pure w (record db { windows = db.windows ++ w ∷ [] })

-- `_get_or_create_spend_window`
unfoldable pub get_or_create_spend_window : ℕ → Datetime → Datetime → ℤ → Billing SpendWindow
unfolding or_create_window
get_or_create_spend_window u start end cap_wei = do
  row ← gets (λ db. find_window u start db.windows)
  or_create_window u start end cap_wei row

-- `window.spent_wei = after`
abbrev pub set_spent : SpendWindow → ℤ → Db → Db
set_spent w after db = record db {
  windows = write_window (record w { spent_wei = after }) db.windows;
}

-- `now` is what the clock returns.
unfoldable pub enforce_and_record_spend : ℕ → ℤ → Datetime → ℕ → ℤ → Billing (Unit {0})
unfolding get_or_create_spend_window
enforce_and_record_spend u amount_wei now period_seconds cap_wei =
    if leb_ℤ cap_wei (pos 0) then pure tt else (do
      bounds ← lift (window_bounds_for now period_seconds)
      w ← get_or_create_spend_window u bounds.0 bounds.1 cap_wei
      let after = w.spent_wei +ℤ amount_wei
      raise_if (ltb_ℤ w.cap_wei after) (Rows.spend_cap_exceeded w.cap_wei after)
      modify (set_spent w after))

-- `Decimal("Infinity")`, or a finite number of wei.
pub data Room : Type 0 where
  infinity : Room
  finite : ℤ → Room

abbrev pub spent_in : Option SpendWindow → ℤ
spent_in none = pos 0
spent_in (some w) = w.spent_wei

unfoldable pub remaining_window_room : ℕ → Datetime → ℕ → ℤ → Billing Room
remaining_window_room u now period_seconds cap_wei =
    if leb_ℤ cap_wei (pos 0) then pure infinity else (do
      bounds ← lift (window_bounds_for now period_seconds)
      row ← gets (λ db. find_window u bounds.0 db.windows)
      pure (finite (cap_wei -ℤ spent_in row)))
