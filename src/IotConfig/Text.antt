-- ===== src/IotConfig/Text.antt =====
-- iot_config/src/lora_field.rs: a field as text. A string is the list of its bytes.
use oracles.Prelude.{
  ℕ, zero, suc, ◌+◌, ◌-◌, ◌*◌, ◌/◌, ◌%◌, ◌^◌, Bool, false, Option, none, some, List, [], ◌∷◌, ◌++◌,
  ◌||◌, ltb, leb, ◌==◌, if◌then◌else◌, length, replicate,
}
use oracles.Prelude.Results.{Result, ok, err, ◌>>=◌}
pub mod RoundTrip

-- The kinds of a `ParseIntError` that `u64::from_str_radix` ends with.
pub data ParseIntError : Type 0 where
  empty invalid_digit pos_overflow : ParseIntError

pub data ParseError : Type 0 where
  length_mismatch : ℕ → ℕ → ParseError
  parse_int : ParseIntError → ParseError

-- The bytes '*', '+', '-' and '0'.
abbrev pub star : ℕ
star = 42

abbrev pub plus_sign : ℕ
plus_sign = 43

abbrev pub minus_sign : ℕ
minus_sign = 45

abbrev pub zero_digit : ℕ
zero_digit = 48

-- A hex digit of the format X, and the digit of a byte, upper or lower case.
unfoldable pub hex_digit : ℕ → ℕ
hex_digit d = if ltb d 10 then 48 + d else 55 + d

unfoldable pub digit_of : ℕ → Option ℕ
digit_of b =
    if ltb b 48
    then none
    else if ltb b 58
    then some (b - 48)
    else if ltb b 65
    then none
    else if ltb b 71
    then some (b - 55)
    else if ltb b 97
    then none
    else if ltb b 103
    then some (b - 87)
    else none

-- The digits of x in front of the ones in `acc`; a u64 has 16 at most.
unfoldable pub hex_digits : ℕ → ℕ → List ℕ → List ℕ
hex_digits zero x acc = acc
hex_digits (suc n) x acc =
    let rest = hex_digits n (x / 16) (hex_digit (x % 16) ∷ acc) in
    if leb 16 x then rest else hex_digit (x % 16) ∷ acc

-- `{:0>width$X}`.
unfoldable pub display : ℕ → ℕ → List ℕ
display width x =
    let digits = hex_digits 16 x [] in replicate (width - length digits) zero_digit ++ digits

unfoldable pub parse_digits : ℕ → List ℕ → Result ParseError ℕ
parse_digits acc [] = ok acc
parse_digits acc (b ∷ bs) = elim (digit_of b) [
  | none ↦ err (parse_int invalid_digit)
  | some d ↦
      let rest = parse_digits (acc * 16 + d) bs in
      if ltb (acc * 16 + d) (2 ^ 64) then rest else err (parse_int pos_overflow)
]

-- `u64::from_str_radix(s, 16)`: a sign alone is no number, and a `+` before the digits is passed over.
unfoldable pub from_hex : List ℕ → Result ParseError ℕ
from_hex [] = err (parse_int empty)
from_hex (b ∷ []) =
    if (b == plus_sign) || (b == minus_sign)
    then err (parse_int invalid_digit)
    else parse_digits 0 (b ∷ [])
from_hex (b ∷ c ∷ bs) =
    if b == plus_sign then parse_digits 0 (c ∷ bs) else parse_digits 0 (b ∷ c ∷ bs)

unfoldable pub verify_len : List ℕ → ℕ → Result ParseError (Unit {0})
verify_len input expected_len =
    if length input == expected_len
    then ok tt
    else err (length_mismatch (length input) expected_len)

abbrev pub is_star : List ℕ → Bool
is_star [] = false
is_star (b ∷ []) = b == star
is_star (b ∷ c ∷ bs) = false

unfoldable pub from_str : ℕ → List ℕ → Result ParseError ℕ
from_str width s = if is_star s then ok 0 else (verify_len s width >>= λ u. from_hex s)
