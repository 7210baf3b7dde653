-- ===== src/Base/Decimal.antt =====
-- Python's `decimal` as the source uses it: a non-negative number with decimal places, and a
-- quotient under the default context (28 significant digits, ties to even) that is then rounded up
-- to an integer by `to_integral_value(rounding=ROUND_CEILING)`.
use Prim.Native.Nat.{ℕ, zero, suc, ◌+◌, ◌*◌, ◌/◌, ◌%◌, ◌^◌, ◌≤◌, ◌<◌}
use mathlib.Core.Path.{◌≡◌, sym, ap, ◌∙◌}
use mathlib.Core.Bool.{Bool}
use mathlib.Core.Logic.{◌⊎◌, inl, inr}
use native.Mathlib.Omega.{arith}
use native.Mathlib.Nat.{pow-suc, pow-le-pow_right, le_trans}
use livepeer_open_clearingho.Base.Tests.{ltb, ◌==◌, if◌then◌else◌, Bool-cases}
use livepeer_open_clearingho.Base.Division.{ceil_div, ceil_div_unique}

-- The number coefficient / 10 ^ places.
pub record Decimal : Type 0 where
  pub coefficient : ℕ
  pub places : ℕ

-- `d == d.to_integral_value()`
abbrev pub is_whole : Decimal → Bool
is_whole d = d.coefficient % 10 ^ d.places == 0

-- 10 ^ 28: a coefficient of the context is below it.
abbrev pub precision_limit : ℕ
precision_limit = 10 ^ 28

-- The quotient, rounded to the nearest integer, a tie to the even one.
unfoldable pub round_half_even : ℕ → ℕ → ℕ
round_half_even n d =
    let q = n / d in
    let r = n % d in
    if ltb (r + r) d then q else if ltb d (r + r) then q + 1 else if q % 2 == 0 then q else q + 1

-- The decimal places that the context keeps of the quotient n / d, at most as many as the fuel.
unfoldable pub kept_places : ℕ → ℕ → ℕ → ℕ
kept_places zero n d = 0
kept_places (suc f) n d =
    let more = suc (kept_places f (n * 10) d) in
    if ltb (n * 10 / d) precision_limit then more else 0

-- 56 places are enough for a numerator of at least 1 over a denominator below 10 ^ 28; the
-- quotient of 0 is 0 at any number of places.
abbrev pub places_fuel : ℕ
places_fuel = 56

-- `(Decimal(n) / Decimal(d)).to_integral_value(rounding=ROUND_CEILING)` for a quotient below
-- 10 ^ 28 and d not 0.
unfoldable pub quotient_ceiling : ℕ → ℕ → ℕ
unfolding round_half_even kept_places
quotient_ceiling n d =
    let scale = 10 ^ kept_places places_fuel n d in ceil_div (round_half_even (n * scale) d) scale

round_half_even-ge : (n d a : ℕ) → 0 < d → a * d ≤ n → a ≤ round_half_even n d
unfolding round_half_even
round_half_even-ge n d a h le = grind arith

quotient-cases : (n d b : ℕ) → 0 < d → n ≤ b * d → (n / d < b) ⊎ ((n / d ≡ b) × (n % d ≡ 0))
quotient-cases n d b h le = elim (Bool-cases (ltb (n / d) b)) [
  | inl below ↦ inl (ground arith)
  | inr reached ↦
      let ge : b ≤ n / d = ground arith in
      let up : b * d ≤ n / d * d = grind arith in
      let eq : n / d ≡ b = grind arith in inr (eq, omega arith)
]

round_half_even-le : (n d b : ℕ) → 0 < d → n ≤ b * d → round_half_even n d ≤ b
unfolding round_half_even
round_half_even-le n d b h le = ground (arith, quotient-cases n d b h le)

pow10-pos : (k : ℕ) → 1 ≤ 10 ^ k
pow10-pos zero = omega arith
pow10-pos (suc k) = simp pow-suc (omega (arith, pow10-pos k))

div-le : (a b d : ℕ) → 0 < d → a ≤ b → a / d ≤ b / d
div-le a b d h le = grind arith

kept_places-ge :
    (f k n d : ℕ) → 0 < d → k ≤ f → n * 10 ^ k / d < precision_limit → k ≤ kept_places f n d
unfolding kept_places
kept_places-ge zero k n d h le lt = omega arith
kept_places-ge (suc f) zero n d h le lt = omega arith
kept_places-ge (suc f) (suc k) n d h le lt =
    let shift : n * 10 ^ suc k ≡ n * 10 * 10 ^ k = simp (pow-suc) (omega arith) in
    let lt' : n * 10 * 10 ^ k / d < precision_limit = rw (← shift) lt in
    let first : n * 10 / d ≤ n * 10 * 10 ^ k / d =
      div-le (n * 10) (n * 10 * 10 ^ k) d h (grind (arith, pow10-pos k)) in
    ground (arith, kept_places-ge f k (n * 10) d h (omega arith) lt', first, lt')

-- With at least as many decimal places kept as the denominator has digits, the rounding of the
-- context is lost in the rounding up: the result is the exact quotient, rounded up.
scaled_ceiling :
    (n d scale : ℕ)
    → 0 < d
    → d ≤ scale
    → ceil_div (round_half_even (n * scale) d) scale ≡ ceil_div n d
scaled_ceiling n d scale h fits =
    let q = n / d in
    let r = n % d in
    let m = round_half_even (n * scale) d in
    let split : n ≡ q * d + r = omega arith in
    let small : r < d = omega arith in
    let times : n * scale ≡ (q * d + r) * scale = ap (λ (t : ℕ). t * scale) split in
    let rest : r * scale ≤ d * scale = grind arith in
    let lower = round_half_even-ge (n * scale) d (q * scale) h (omega (arith, times)) in
    elim (Bool-cases (r == 0)) [
      | inl exact ↦
          let none_left : r ≡ 0 = ground arith in
          let upper =
            round_half_even-le (n * scale) d (q * scale) h
              (omega (arith, times, ap (λ (t : ℕ). t * scale) none_left)) in
          ceil_div_unique m scale q (omega arith) upper (omega arith)
          ∙ sym (ceil_div_unique n d q h (omega arith) (omega arith))
      | inr inexact ↦
          let some_left : 0 < r = ground arith in
          let up : d ≤ r * scale = grind arith in
          let above : (q * scale + 1) * d ≤ n * scale = omega (arith, times, up) in
          let lower' = round_half_even-ge (n * scale) d (q * scale + 1) h above in
          let below : n * scale ≤ (q + 1) * scale * d = omega (arith, times, rest) in
          let upper = round_half_even-le (n * scale) d ((q + 1) * scale) h below in
          ceil_div_unique m scale (q + 1) (omega arith) upper (omega arith)
          ∙ sym (ceil_div_unique n d (q + 1) h (omega arith) (omega arith))
    ]

-- The context's rounding never changes the result where the kept places can hold the denominator.
pub quotient_ceiling-exact :
    (n d k : ℕ)
    → 0 < d
    → d ≤ 10 ^ k
    → k ≤ places_fuel
    → n * 10 ^ k / d < precision_limit
    → quotient_ceiling n d ≡ ceil_div n d
unfolding quotient_ceiling
quotient_ceiling-exact n d k h fits le lt =
    scaled_ceiling n d (10 ^ kept_places places_fuel n d) h (
      le_trans fits
        (pow-le-pow_right {n = 10} (omega arith) (kept_places-ge places_fuel k n d h le lt)))
