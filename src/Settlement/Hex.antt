-- ===== src/Settlement/Hex.antt =====
-- The hexadecimal and decimal texts that settlement_verification.py reads and writes.
use livepeer_open_clearingho.Base.{
  ℕ, zero, suc, ◌+◌, ◌-◌, ◌*◌, ◌/◌, ◌%◌, String, Option, none, some, List, [], ◌∷◌, ◌++◌, Bool,
  ◌&&◌, ◌||◌, ◌==◌, leb, ltb, if◌then◌else◌,
}
use livepeer_open_clearingho.Settlement.Diagnostics.{joined}

-- `" \t\n\r\v\f"`, which `bytearray.fromhex` skips before a byte.
abbrev pub is_space : ℕ → Bool
is_space c = c == 32 || leb 9 c && leb c 13

abbrev pub digit_value : ℕ → Option ℕ
digit_value c =
    if leb 48 c && leb c 57
    then some (c - 48)
    else if leb 97 c && leb c 102
    then some (c - 87)
    else if leb 65 c && leb c 70
    then some (c - 55)
    else none

abbrev pub joined_byte : Option ℕ → Option ℕ → Option (List ℕ) → Option (List ℕ)
joined_byte (some high) (some low) (some rest) = some ((high * 16 + low) ∷ rest)
joined_byte high low rest = none

-- `bytearray.fromhex(text)` on the code points of the text; none where it raises `ValueError`.
unfoldable pub from_hex : List ℕ → Option (List ℕ)
from_hex [] = some []
from_hex (c ∷ []) = if is_space c then some [] else none
from_hex (c ∷ d ∷ rest) =
    let skipped = from_hex (d ∷ rest) in
    let others = from_hex rest in
    if is_space c then skipped else joined_byte (digit_value c) (digit_value d) others

abbrev pub hex_digit : ℕ → String
hex_digit n =
    if n == 0
    then "0"
    else if n == 1
    then "1"
    else if n == 2
    then "2"
    else if n == 3
    then "3"
    else if n == 4
    then "4"
    else if n == 5
    then "5"
    else if n == 6
    then "6"
    else if n == 7
    then "7"
    else if n == 8
    then "8"
    else if n == 9
    then "9"
    else if n == 10
    then "a"
    else if n == 11
    then "b"
    else if n == 12
    then "c"
    else if n == 13
    then "d"
    else if n == 14
    then "e"
    else "f"

-- `raw.hex()`
unfoldable pub to_hex : List ℕ → String
to_hex [] = ""
to_hex (b ∷ bytes) = joined (hex_digit (b / 16)) (joined (hex_digit (b % 16)) (to_hex bytes))

-- The decimal digits of a number; a number has fewer of them than its fuel, one more than it.
abbrev pub digits : ℕ → ℕ → List ℕ
digits zero n = []
digits (suc fuel) n =
    let last = (48 + n % 10) ∷ [] in
    let front = digits fuel (n / 10) in if ltb n 10 then last else front ++ last

-- `str(n)`, as code points.
abbrev pub decimal : ℕ → List ℕ
decimal n = digits (n + 1) n
