-- ===== src/Prelude/Sorted.antt =====
-- Lists in an order, given by a test whether one value does not come after another.
use Prim.Native.Nat.{ℕ, zero, suc}
use mathlib.Core.Path.{◌≡◌, refl, ap}
use mathlib.Core.Logic.{◌⊎◌, inl, inr}
use mathlib.Core.Bool.{Bool, true}
use mathlib.Core.List.{List, [], ◌∷◌}
use oracles.Prelude.Lists.{length, take, drop}

module _ {A : Type 0} (le : A → A → Bool) where
  -- x comes before each of a list, and each of a list before each of another.
  abbrev pub BeforeAll : A → List A → Type 0
  BeforeAll x [] = Unit {0}
  BeforeAll x (y ∷ ys) = (le x y ≡ true) × BeforeAll x ys

  abbrev pub AllBefore : List A → List A → Type 0
  AllBefore [] ys = Unit {0}
  AllBefore (x ∷ xs) ys = BeforeAll x ys × AllBefore xs ys

  abbrev pub Ordered : List A → Type 0
  Ordered [] = Unit {0}
  Ordered (x ∷ xs) = BeforeAll x xs × Ordered xs

  pub BeforeAll-drop : (n : ℕ) (x : A) (ys : List A) → BeforeAll x ys → BeforeAll x (drop n ys)
  BeforeAll-drop zero x ys h = h
  BeforeAll-drop (suc n) x [] h = h
  BeforeAll-drop (suc n) x (y ∷ ys) h = BeforeAll-drop n x ys h.1

  pub BeforeAll-take : (n : ℕ) (x : A) (ys : List A) → BeforeAll x ys → BeforeAll x (take n ys)
  BeforeAll-take zero x ys h = tt
  BeforeAll-take (suc n) x [] h = h
  BeforeAll-take (suc n) x (y ∷ ys) h = (h.0, BeforeAll-take n x ys h.1)

  pub take-Ordered : (n : ℕ) (xs : List A) → Ordered xs → Ordered (take n xs)
  take-Ordered zero xs h = tt
  take-Ordered (suc n) [] h = h
  take-Ordered (suc n) (x ∷ xs) h = (BeforeAll-take n x xs h.0, take-Ordered n xs h.1)

  pub take-AllBefore : (n : ℕ) (xs : List A) → Ordered xs → AllBefore (take n xs) (drop n xs)
  take-AllBefore zero xs h = tt
  take-AllBefore (suc n) [] h = tt
  take-AllBefore (suc n) (x ∷ xs) h = (BeforeAll-drop n x xs h.0, take-AllBefore n xs h.1)

  pub take-count : (n : ℕ) (xs : List A) → (length (take n xs) ≡ n) ⊎ (drop n xs ≡ [])
  take-count zero xs = inl refl
  take-count (suc n) [] = inr refl
  take-count (suc n) (x ∷ xs) = elim (take-count n xs) [ inl e ↦ inl (ap suc e) | inr e ↦ inr e ]
