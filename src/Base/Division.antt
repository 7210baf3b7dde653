-- ===== src/Base/Division.antt =====
-- Division rounded up, and the bounds that identify a quotient.
use Prim.Native.Nat.{ℕ, ◌+◌, ◌-◌, ◌*◌, ◌/◌, ◌≤◌, ◌<◌}
use mathlib.Core.Path.{◌≡◌}
use native.Mathlib.Omega.{arith}

-- The least q with a ≤ q * b.
abbrev pub ceil_div : ℕ → ℕ → ℕ
ceil_div a b = (a + b - 1) / b

pub div_unique : (a b q : ℕ) → 0 < b → q * b ≤ a → a < q * b + b → a / b ≡ q
div_unique a b q h lo hi = grind arith

pub div-mul-le : (a b : ℕ) → a / b * b ≤ a
div-mul-le a b = omega arith

pub lt-div-mul : (a b : ℕ) → 0 < b → a < a / b * b + b
lt-div-mul a b h = omega arith

pub ceil_div-ge : (a b : ℕ) → 0 < b → a ≤ ceil_div a b * b
ceil_div-ge a b h = omega arith

pub ceil_div-lt : (a b : ℕ) → 0 < b → ceil_div a b * b < a + b
ceil_div-lt a b h = omega arith

pub ceil_div_unique : (a b q : ℕ) → 0 < b → a ≤ q * b → q * b < a + b → ceil_div a b ≡ q
ceil_div_unique a b q h lo hi = div_unique (a + b - 1) b q h (omega arith) (omega arith)

pub ceil_div_mono : (a c b : ℕ) → 0 < b → a ≤ c → ceil_div a b ≤ ceil_div c b
ceil_div_mono a c b h le = grind (arith, ceil_div-ge, ceil_div-lt)
