-- ===== src/Prelude/Decimal.antt =====
-- Numbers printed in decimal and in hexadecimal digits, as ASCII bytes.
use lp_700_server.Prelude.{
  ℕ, zero, suc, ◌+◌, ◌-◌, ◌/◌, ◌%◌, List, [], ◌∷◌, ◌++◌, if◌then◌else◌, ltb, length, replicate,
}

-- The digits of a number of at most `k` digits, without leading zeros.
unfoldable pub print_upto : ℕ → ℕ → List ℕ
print_upto zero n = []
print_upto (suc k) n =
    let front = print_upto k (n / 10) in
    if ltb n 10 then (b'0' + n) ∷ [] else front ++ (b'0' + n % 10) ∷ []

-- A `uint64` has at most 20 decimal digits.
abbrev pub print_decimal : ℕ → List ℕ
print_decimal n = print_upto 20 n

-- A verb such as `%5d`: spaces on the left up to a width.
abbrev pub pad_left : ℕ → List ℕ → List ℕ
pad_left width s = replicate (width - length s) b' ' ++ s

abbrev pub hex_digit : ℕ → ℕ
hex_digit n = if ltb n 10 then b'0' + n else b'a' + (n - 10)

-- Two hexadecimal digits for each byte: `hex.EncodeToString`.
unfoldable pub hex_text : List ℕ → List ℕ
hex_text [] = []
hex_text (b ∷ bs) = hex_digit (b / 16) ∷ hex_digit (b % 16) ∷ hex_text bs
