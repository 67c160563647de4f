-- ===== src/IotConfig/Text/RoundTrip.antt =====
-- iot_config/src/lora_field.rs: a field that is printed is parsed again.
use oracles.Prelude.{
  ℕ, zero, suc, ◌+◌, ◌-◌, ◌*◌, ◌/◌, ◌%◌, ◌^◌, ◌≤◌, ◌<◌, ◌≡◌, refl, sym, ap, ◌∙◌, arith, none, some,
  List, [], ◌∷◌, ◌++◌, ltb, leb, lt→ltb, leb→le, leb→gt, if-split, if◌then◌else◌, length, replicate,
  length-append, length-replicate,
}
use oracles.Prelude.Results.{ok, err}
use oracles.IotConfig.Text.{
  hex_digit, digit_of, hex_digits, display, parse_digits, from_hex, verify_len, from_str,
  zero_digit, invalid_digit, parse_int, pos_overflow,
}

abbrev pub pow16 : ℕ → ℕ
pow16 zero = 1
pow16 (suc n) = 16 * pow16 n

digit_of-hex_digit : (d : ℕ) → d < 16 → digit_of (hex_digit d) ≡ some d
unfolding digit_of hex_digit
digit_of-hex_digit d h = ground arith

parse-hex_digit :
    (acc d : ℕ) (bs : List ℕ)
    → d < 16
    → acc * 16 + d < 2 ^ 64
    → parse_digits acc (hex_digit d ∷ bs) ≡ parse_digits (acc * 16 + d) bs
unfolding parse_digits
parse-hex_digit acc d bs h l =
    ap
      (λ o. elim o [
        | none ↦ err (parse_int invalid_digit)
        | some d ↦
            if ltb (acc * 16 + d) (2 ^ 64)
            then parse_digits (acc * 16 + d) bs
            else err (parse_int pos_overflow)
      ])
      (digit_of-hex_digit d h)
    ∙ ap (λ b. if b then parse_digits (acc * 16 + d) bs else err (parse_int pos_overflow))
        (lt→ltb _ _ l)

parse-hex_digits :
    (n x : ℕ) (acc : List ℕ)
    → x < pow16 n
    → x < 2 ^ 64
    → parse_digits 0 (hex_digits n x acc) ≡ parse_digits x acc
unfolding hex_digits
parse-hex_digits zero x acc h l = ap (λ y. parse_digits y acc) (omega arith)
parse-hex_digits (suc n) x acc h l =
    if-split (λ s. parse_digits 0 s ≡ parse_digits x acc) (leb 16 x)
      (λ b.
        parse-hex_digits n (x / 16) (hex_digit (x % 16) ∷ acc) (omega arith) (omega arith)
        ∙ parse-hex_digit (x / 16) (x % 16) acc (omega arith) (omega arith)
        ∙ ap (λ y. parse_digits y acc) {x = x / 16 * 16 + x % 16} {y = x} (omega arith))
      (λ b.
        let small = leb→gt 16 x b in
        parse-hex_digit 0 (x % 16) acc (omega arith) (omega arith)
        ∙ ap (λ y. parse_digits y acc) {x = 0 * 16 + x % 16} {y = x} (omega arith))

parse-zeros :
    (k : ℕ) (bs : List ℕ) → parse_digits 0 (replicate k zero_digit ++ bs) ≡ parse_digits 0 bs
unfolding parse_digits digit_of
parse-zeros zero bs = refl
parse-zeros (suc k) bs = parse-zeros k bs

length-hex_digits :
    (n w x : ℕ) (acc : List ℕ)
    → x < pow16 (suc w)
    → length (hex_digits n x acc) ≤ suc w + length acc
unfolding hex_digits
length-hex_digits zero w x acc h = omega arith
length-hex_digits (suc n) zero x acc h =
    if-split (λ s. length s ≤ 1 + length acc) (leb 16 x) {y = hex_digit (x % 16) ∷ acc}
      (λ b. absurd (omega (arith, leb→le _ _ b))) (λ b. omega arith)
length-hex_digits (suc n) (suc w) x acc h =
    if-split (λ s. length s ≤ suc (suc w) + length acc) (leb 16 x)
      {x = hex_digits n (x / 16) (hex_digit (x % 16) ∷ acc)} {y = hex_digit (x % 16) ∷ acc}
      (λ b. omega (arith, length-hex_digits n w (x / 16) (hex_digit (x % 16) ∷ acc) (omega arith)))
      (λ b. omega arith)

-- A text that starts with a hex digit.
record Starts (s : List ℕ) : Type 0 where
  digit : ℕ
  rest : List ℕ
  digit-lt : digit < 16
  parts : s ≡ hex_digit digit ∷ rest

of_digit : (d : ℕ) (rest : List ℕ) → d < 16 → Starts (hex_digit d ∷ rest)
of_digit d rest h = record { digit = d; rest = rest; digit-lt = h; parts = refl }

hex_digits-Starts : (n x : ℕ) (acc : List ℕ) → Starts acc → Starts (hex_digits n x acc)
unfolding hex_digits
hex_digits-Starts zero x acc h = h
hex_digits-Starts (suc n) x acc h =
    if-split Starts (leb 16 x)
      (λ b.
        hex_digits-Starts n (x / 16) (hex_digit (x % 16) ∷ acc)
          (of_digit (x % 16) acc (omega arith)))
      (λ b. of_digit (x % 16) acc (omega arith))

digits-Starts : (n x : ℕ) → Starts (hex_digits (suc n) x [])
unfolding hex_digits
digits-Starts n x =
    if-split Starts (leb 16 x)
      (λ b.
        hex_digits-Starts n (x / 16) (hex_digit (x % 16) ∷ []) (of_digit (x % 16) [] (omega arith)))
      (λ b. of_digit (x % 16) [] (omega arith))

padded-Starts : (k : ℕ) (s : List ℕ) → Starts s → Starts (replicate k zero_digit ++ s)
unfolding hex_digit
padded-Starts zero s h = h
padded-Starts (suc k) s h = of_digit 0 _ (omega arith)

hex_digit-ge : (d : ℕ) → 48 ≤ hex_digit d
unfolding hex_digit
hex_digit-ge d = ground arith

-- Such a text is no `*`, and no sign stands before its digits.
from_str-digits :
    (width b : ℕ) (rest : List ℕ)
    → 48 ≤ b
    → suc (length rest) ≡ width
    → from_str width (b ∷ rest) ≡ parse_digits 0 (b ∷ rest)
unfolding from_str from_hex verify_len
from_str-digits width b [] h l = grind arith
from_str-digits width b (c ∷ bs) h l = grind arith

from_str-Starts :
    (width : ℕ) (s : List ℕ) → Starts s → length s ≡ width → from_str width s ≡ parse_digits 0 s
from_str-Starts width s h l =
    ap (from_str width) h.parts
    ∙ from_str-digits width (hex_digit h.digit) h.rest (hex_digit-ge h.digit)
        (sym (ap length h.parts) ∙ l)
    ∙ ap (parse_digits 0) (sym h.parts)

length-display : (w x : ℕ) → x < pow16 (suc w) → length (display (suc w) x) ≡ suc w
unfolding display
length-display w x h =
    let digits = hex_digits 16 x [] in
    omega (
      arith,
      length-append (replicate (suc w - length digits) zero_digit) digits,
      length-replicate (suc w - length digits) zero_digit,
      length-hex_digits 16 w x [] h,
    )

pow16_mono : (w n : ℕ) → w ≤ n → pow16 w ≤ pow16 n
pow16_mono zero zero h = omega arith
pow16_mono zero (suc n) h = omega (arith, pow16_mono zero n (omega arith))
pow16_mono (suc w) zero h = absurd (omega arith)
pow16_mono (suc w) (suc n) h = omega (arith, pow16_mono w n (omega arith))

-- For a width from 1 to 16 and a number below 16 ^ width: the text that it is displayed as, in upper
-- case and padded with zeros, has `width` bytes, and `from_str` of that text is the number.
pub from_str-display :
    (w x : ℕ)
    → suc w ≤ 16
    → x < pow16 (suc w)
    → (length (display (suc w) x) ≡ suc w) × (from_str (suc w) (display (suc w) x) ≡ ok x)
unfolding display parse_digits
from_str-display w x hw hx =
    let digits = hex_digits 16 x [] in
    let small = pow16_mono (suc w) 16 hw in
    (
      length-display w x hx,
      from_str-Starts (suc w) _ (padded-Starts (suc w - length digits) digits (digits-Starts 15 x))
            (length-display w x hx)
          ∙ parse-zeros (suc w - length digits) digits
          ∙ parse-hex_digits 16 x [] (omega arith) (omega arith)
          ∙ parsed x,
    )
  where
    parsed : (x : ℕ) → parse_digits x [] ≡ ok x
    parsed x = refl
