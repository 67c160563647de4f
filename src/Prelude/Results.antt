-- ===== src/Prelude/Results.antt =====
-- A Rust `Result`, and `?` as the bind of a do block.
pub data Result {ℓ κ} (E : Type ℓ) (A : Type κ) : Type (ℓ ⊔ κ) where
  ok : A → Result E A
  err : E → Result E A

infixl 5 ◌>>=◌
abbrev pub ◌>>=◌ {ℓ κ λ'} :
    {E : Type ℓ} {A : Type κ} {B : Type λ'} → Result E A → (A → Result E B) → Result E B
ok a >>= f = f a
err e >>= f = err e
