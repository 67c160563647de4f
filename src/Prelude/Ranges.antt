-- ===== src/Prelude/Ranges.antt =====
-- Ranges of numbers, membership and filters: what `start..=end`, `contains` and `filter` of the source
-- compute.
use Prim.Native.Nat.{ℕ, zero, suc, ◌+◌, ◌-◌, ◌≤◌}
use mathlib.Core.Path.{◌≡◌, refl, ap, ◌∙◌}
use mathlib.Core.Bool.{Bool, true, false, ◌&&◌, ◌||◌}
use mathlib.Core.Option.{some}
use mathlib.Core.List.{List, [], ◌∷◌, ◌++◌}
use native.Mathlib.Omega.{arith}
use oracles.Prelude.Tests.{ltb, leb, ◌==◌, if◌then◌else◌}
use oracles.Prelude.Lists.{length, take, get_elem?}

abbrev pub contains : List ℕ → ℕ → Bool
contains [] a = false
contains (x ∷ xs) a = (x == a) || contains xs a

pub contains-++ :
    (xs ys : List ℕ) (a : ℕ) → contains (xs ++ ys) a ≡ (contains xs a || contains ys a)
contains-++ [] ys a = refl
contains-++ (x ∷ xs) ys a = let ih = contains-++ xs ys a in grind arith

abbrev pub filter {ℓ} : {A : Type ℓ} → (A → Bool) → List A → List A
filter p [] = []
filter p (x ∷ xs) = let rest = filter p xs in if p x then x ∷ rest else rest

pub filter-++ {ℓ} :
    {A : Type ℓ} (p : A → Bool) (xs ys : List A) → filter p (xs ++ ys) ≡ filter p xs ++ filter p ys
filter-++ p [] ys = refl
filter-++ p (x ∷ xs) ys = ground (arith, filter-++ p xs ys)

-- start, start + 1, ..., n numbers; and `start..=end`.
abbrev pub range : ℕ → ℕ → List ℕ
range start zero = []
range start (suc n) = start ∷ range (start + 1) n

abbrev pub inclusive : ℕ → ℕ → List ℕ
inclusive start end = range start (end + 1 - start)

range-ap : {s t m n : ℕ} → s ≡ t → m ≡ n → range s m ≡ range t n
range-ap p q = cc

pub range-++ : (s m n k : ℕ) → k ≡ m + n → range s k ≡ range s m ++ range (s + m) n
range-++ s zero n k e = range-ap (omega arith) (omega arith)
range-++ s (suc m) n zero e = absurd (omega arith)
range-++ s (suc m) n (suc k) e =
    ap (λ r. s ∷ r)
      (range-++ (s + 1) m n k (omega arith)
        ∙ ap (λ r. range (s + 1) m ++ r)
            (range-ap {s = s + 1 + m} {t = s + suc m} (omega arith) refl))

pub length-range : (s n : ℕ) → length (range s n) ≡ n
length-range s zero = refl
length-range s (suc n) = ap suc (length-range (s + 1) n)

pub contains-range : (s n a : ℕ) → contains (range s n) a ≡ (leb s a && ltb a (s + n))
contains-range s zero a = grind arith
contains-range s (suc n) a = let ih = contains-range (s + 1) n a in grind arith

pub take-all {ℓ} : {A : Type ℓ} (n : ℕ) (xs : List A) → length xs ≤ n → take n xs ≡ xs
take-all zero [] h = refl
take-all zero (x ∷ xs) h = absurd (omega arith)
take-all (suc n) [] h = refl
take-all (suc n) (x ∷ xs) h = ap (λ r. x ∷ r) (take-all n xs (omega arith))

-- The first n of two lists, by whether the first of them has so many.
pub take-short {ℓ} :
    {A : Type ℓ} (n : ℕ) (xs ys : List A) → n ≤ length xs → take n (xs ++ ys) ≡ take n xs
take-short zero xs ys h = refl
take-short (suc n) [] ys h = absurd (omega arith)
take-short (suc n) (x ∷ xs) ys h = ap (λ r. x ∷ r) (take-short n xs ys (omega arith))

pub take-long {ℓ} :
    {A : Type ℓ} (m : ℕ) (xs ys : List A) → take (length xs + m) (xs ++ ys) ≡ xs ++ take m ys
take-long m [] ys = ap (λ n. take n ys) (omega arith)
take-long m (x ∷ xs) ys =
    ap (λ n. take n (x ∷ (xs ++ ys))) {x = suc (length xs) + m} {y = suc (length xs + m)}
      (omega arith)
    ∙ ap (λ r. x ∷ r) (take-long m xs ys)

pub take-range : (s n k : ℕ) → n ≤ k → take n (range s k) ≡ range s n
take-range s zero k h = refl
take-range s (suc n) zero h = absurd (omega arith)
take-range s (suc n) (suc k) h = ap (λ r. s ∷ r) (take-range (s + 1) n k (omega arith))

pub filter-all {ℓ} :
    {A : Type ℓ} (p : A → Bool) (xs : List A)
    → ((i : ℕ) (a : A) → get_elem? xs i ≡ some a → p a ≡ true)
    → filter p xs ≡ xs
filter-all p [] h = refl
filter-all p (x ∷ xs) h =
    ap (λ b. if b then x ∷ filter p xs else filter p xs) (h 0 x refl)
    ∙ ap (λ r. x ∷ r) (filter-all p xs (λ i a e. h (suc i) a e))

pub get_elem?-range : (s n i a : ℕ) → get_elem? (range s n) i ≡ some a → a ≡ s + i
get_elem?-range s zero i a h = absurd (cc h)
get_elem?-range s (suc n) zero a h = grind arith
get_elem?-range s (suc n) (suc i) a h = omega (arith, get_elem?-range (s + 1) n i a h)
