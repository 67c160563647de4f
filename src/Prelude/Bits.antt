-- ===== src/Prelude/Bits.antt =====
-- The bit operations on native numbers where a mask or an operand is a block of ones: `&` with such a
-- mask cuts the block out, and `|` of two numbers that share no bit adds them.
use Prim.Native.Nat.{
  ℕ, zero, suc, ◌+◌, ◌-◌, ◌*◌, ◌/◌, ◌%◌, ◌≤◌, ◌<◌, min, max, bit_and, bit_or, digits,
  bit_and-bitwise, bit_or-bitwise,
}
use mathlib.Core.Path.{◌≡◌, refl, ap, ◌∙◌}
use native.Mathlib.Omega.{arith}
use oracles.Prelude.Tests.{ltb, if◌then◌else◌}

abbrev and_digits : ℕ → ℕ → ℕ → ℕ
and_digits n a b = digits (λ b. zero) min n a b

and_digits-enough : (n m a b : ℕ) → a ≤ n → a ≤ m → and_digits n a b ≡ and_digits m a b
and_digits-enough zero zero a b p q = refl
and_digits-enough zero (suc m) zero b p q = refl
and_digits-enough zero (suc m) (suc a) b p q = absurd (omega arith)
and_digits-enough (suc n) zero zero b p q = refl
and_digits-enough (suc n) zero (suc a) b p q = absurd (omega arith)
and_digits-enough (suc n) (suc m) zero b p q = refl
and_digits-enough (suc n) (suc m) (suc a) b p q =
    omega (arith, and_digits-enough n m (suc a / 2) (b / 2) (omega arith) (omega arith))

zero-bit_and : (b : ℕ) → bit_and 0 b ≡ 0
zero-bit_and b = bit_and-bitwise 0 b

bit_and_halves : (a b : ℕ) → bit_and a b ≡ bit_and (a / 2) (b / 2) * 2 + min (a % 2) (b % 2)
bit_and_halves zero b = omega (arith, zero-bit_and b, zero-bit_and (b / 2))
bit_and_halves (suc a) b = omega (
  arith,
  bit_and-bitwise (suc a) b,
  bit_and-bitwise (suc a / 2) (b / 2),
  and_digits-enough a (suc a / 2) (suc a / 2) (b / 2) (omega arith) (omega arith),
)

abbrev or_digits : ℕ → ℕ → ℕ → ℕ
or_digits n a b = digits (λ b. b) max n a b

or_digits-enough : (n m a b : ℕ) → a ≤ n → a ≤ m → or_digits n a b ≡ or_digits m a b
or_digits-enough zero zero a b p q = refl
or_digits-enough zero (suc m) zero b p q = refl
or_digits-enough zero (suc m) (suc a) b p q = absurd (omega arith)
or_digits-enough (suc n) zero zero b p q = refl
or_digits-enough (suc n) zero (suc a) b p q = absurd (omega arith)
or_digits-enough (suc n) (suc m) zero b p q = refl
or_digits-enough (suc n) (suc m) (suc a) b p q =
    omega (arith, or_digits-enough n m (suc a / 2) (b / 2) (omega arith) (omega arith))

pub zero-bit_or : (b : ℕ) → bit_or 0 b ≡ b
zero-bit_or b = bit_or-bitwise 0 b

bit_or_halves : (a b : ℕ) → bit_or a b ≡ bit_or (a / 2) (b / 2) * 2 + max (a % 2) (b % 2)
bit_or_halves zero b = omega (arith, zero-bit_or b, zero-bit_or (b / 2))
bit_or_halves (suc a) b = omega (
  arith,
  bit_or-bitwise (suc a) b,
  bit_or-bitwise (suc a / 2) (b / 2),
  or_digits-enough a (suc a / 2) (suc a / 2) (b / 2) (omega arith) (omega arith),
)

bit_or-zero : (n a : ℕ) → a ≤ n → bit_or a 0 ≡ a
bit_or-zero n zero h = zero-bit_or 0
bit_or-zero zero (suc a) h = absurd (omega arith)
bit_or-zero (suc n) (suc a) h =
    omega (arith, bit_or_halves (suc a) 0, bit_or-zero n (suc a / 2) (omega arith))

-- 2 ^ k, and the number of k ones.
abbrev pub pow2 : ℕ → ℕ
pow2 zero = 1
pow2 (suc k) = 2 * pow2 k

abbrev pub ones : ℕ → ℕ
ones zero = 0
ones (suc k) = 2 * ones k + 1

pub pow2_pos : (k : ℕ) → 0 < pow2 k
pow2_pos zero = omega arith
pow2_pos (suc k) = omega (arith, pow2_pos k)

mod_double : (a p : ℕ) → 0 < p → a % (2 * p) ≡ (a / 2 % p) * 2 + a % 2
mod_double a p h = grind arith

bit_and-zero : (n a : ℕ) → a ≤ n → bit_and a 0 ≡ 0
bit_and-zero n zero h = zero-bit_and 0
bit_and-zero zero (suc a) h = absurd (omega arith)
bit_and-zero (suc n) (suc a) h =
    omega (arith, bit_and_halves (suc a) 0, bit_and-zero n (suc a / 2) (omega arith))

bit_and-ones : (k a : ℕ) → bit_and a (ones k) ≡ a % pow2 k
bit_and-ones zero a = omega (arith, bit_and-zero a a (omega arith))
bit_and-ones (suc k) a = omega (
  arith,
  bit_and_halves a (2 * ones k + 1),
  ap (bit_and (a / 2)) (half (ones k)),
  bit_and-ones k (a / 2),
  mod_double a (pow2 k) (pow2_pos k),
)
  where
    half : (m : ℕ) → (2 * m + 1) / 2 ≡ m
    half m = omega arith

-- k ones above l zeros.
abbrev pub block : ℕ → ℕ → ℕ
block zero k = ones k
block (suc l) k = 2 * block l k

div_double : (a p : ℕ) → 0 < p → a / (2 * p) ≡ a / 2 / p
div_double a p h = grind arith

pub bit_and-block : (l k a : ℕ) → bit_and a (block l k) ≡ (a / pow2 l % pow2 k) * pow2 l
bit_and-block zero k a = omega (arith, bit_and-ones k a, ap (λ x. x % pow2 k) (over_one a))
  where
    over_one : (a : ℕ) → a ≡ a / 1
    over_one a = omega arith
bit_and-block (suc l) k a = omega (
  arith,
  bit_and_halves a (2 * block l k),
  ap (bit_and (a / 2)) (halves (block l k)),
  bit_and-block l k (a / 2),
  ap (λ x. x % pow2 k * pow2 l) (div_double a (pow2 l) (pow2_pos l)),
  assoc (a / (2 * pow2 l) % pow2 k) (pow2 l),
)
  where
    halves : (m : ℕ) → (2 * m) / 2 ≡ m
    halves m = omega arith

    assoc : (x p : ℕ) → x * (2 * p) ≡ x * p * 2
    assoc x p = grind arith

-- A number whose k lowest bits are clear, and one of k bits.
pub bit_or-disjoint : (k a b : ℕ) → b < pow2 k → bit_or (a * pow2 k) b ≡ a * pow2 k + b
bit_or-disjoint zero a zero h = omega (arith, bit_or-zero (a * 1) (a * 1) (omega arith))
bit_or-disjoint zero a (suc b) h = absurd (omega arith)
bit_or-disjoint (suc k) a b h = omega (
  arith,
  bit_or_halves (a * (2 * pow2 k)) b,
  ap (λ x. bit_or x (b / 2)) (halves a (pow2 k)),
  even a (pow2 k),
  bit_or-disjoint k a (b / 2) (omega arith),
)
  where
    even : (a p : ℕ) → a * (2 * p) ≡ 2 * (a * p)
    even a p = grind arith

    twice : (m : ℕ) → (2 * m) / 2 ≡ m
    twice m = omega arith

    halves : (a p : ℕ) → (a * (2 * p)) / 2 ≡ a * p
    halves a p = ap (λ x. x / 2) (even a p) ∙ twice (a * p)

bit_or_comm : (n a b : ℕ) → a ≤ n → bit_or a b ≡ bit_or b a
bit_or_comm n zero b h = omega (arith, zero-bit_or b, bit_or-zero b b (omega arith))
bit_or_comm zero (suc a) b h = absurd (omega arith)
bit_or_comm (suc n) (suc a) b h = omega (
  arith,
  bit_or_halves (suc a) b,
  bit_or_halves b (suc a),
  bit_or_comm n (suc a / 2) (b / 2) (omega arith),
)

pub bit_or-disjoint_flip : (k a b : ℕ) → b < pow2 k → bit_or b (a * pow2 k) ≡ a * pow2 k + b
bit_or-disjoint_flip k a b h = bit_or_comm b b (a * pow2 k) (omega arith) ∙ bit_or-disjoint k a b h

-- The number of ones that an n-bit number starts with.
unfoldable pub leading_ones : ℕ → ℕ → ℕ
leading_ones zero x = 0
leading_ones (suc k) x = if ltb x (pow2 k) then 0 else suc (leading_ones k (x - pow2 k))

pow2_split : (n t j : ℕ) → n ≡ t + suc j → pow2 n ≡ (ones t + 1) * (2 * pow2 j)
pow2_split zero t j e = absurd (omega arith)
pow2_split (suc n) zero j e = omega (arith, ap pow2 {x = n} {y = j} (omega arith))
pow2_split (suc n) (suc t) j e = grind (arith, pow2_split n t j (omega arith))

pub leading_ones_step :
    (n x y v : ℕ) → x ≡ pow2 n + y → leading_ones n y ≡ v → leading_ones (suc n) x ≡ suc v
unfolding leading_ones
leading_ones_step n x y v e h =
    ground (arith, ap (leading_ones n) {x = x - pow2 n} {y = y} (omega arith), h)

-- t ones, a zero, and j more bits.
pub leading_ones-prefix :
    (n t j r : ℕ) → n ≡ t + suc j → r < pow2 j → leading_ones n (ones t * (2 * pow2 j) + r) ≡ t
unfolding leading_ones
leading_ones-prefix zero t j r e h = absurd (omega arith)
leading_ones-prefix (suc n) zero j r e h = ground (arith, ap pow2 {x = n} {y = j} (omega arith), h)
leading_ones-prefix (suc n) (suc t) j r e h =
    leading_ones_step n _ (ones t * (2 * pow2 j) + r) t
      (split (ones t) (pow2 n) (pow2 j) r (pow2_split n t j (omega arith)))
      (leading_ones-prefix n t j r (omega arith) h)
  where
    split :
        (o q p r : ℕ) → q ≡ (o + 1) * (2 * p) → (2 * o + 1) * (2 * p) + r ≡ q + (o * (2 * p) + r)
    split o q p r e = grind arith

-- The field of m bits above the k lowest.
pub bit_and-field :
    (k m x id r : ℕ)
    → r < pow2 k
    → id < pow2 m
    → bit_and ((x * pow2 m + id) * pow2 k + r) (block k m) / pow2 k ≡ id
bit_and-field k m x id r hr hid =
    ap (λ y. y / pow2 k) (bit_and-block k m ((x * pow2 m + id) * pow2 k + r))
    ∙ field (pow2 k) (pow2 m) (x * pow2 m + id) id hr (low x (pow2 m) hid)
  where
    low : (x q : ℕ) → id < q → (x * q + id) % q ≡ id
    low x q h = grind arith

    quot : (p y : ℕ) → r < p → (y * p + r) / p ≡ y
    quot p y h = grind arith

    exact : (p y : ℕ) → 0 < p → y * p / p ≡ y
    exact p y h = grind arith

    field : (p q y id : ℕ) → r < p → y % q ≡ id → ((y * p + r) / p % q) * p / p ≡ id
    field p q y id h e = ap (λ z. (z % q) * p / p) (quot p y h) ∙ exact p (y % q) (omega arith) ∙ e
