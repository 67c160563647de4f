-- ===== src/Prelude/Dicts.antt =====
-- A `HashMap` keyed by numbers, and a table with a key column, as an association list.
use Prim.Native.Nat.{ℕ}
use mathlib.Core.Path.{◌≡◌, refl}
use mathlib.Core.Option
use mathlib.Core.Option.{Option, none, some}
use mathlib.Core.List.{List, [], ◌∷◌}
use native.Mathlib.Omega.{arith}
use oracles.Prelude.Tests.{◌==◌, if◌then◌else◌}

abbrev pub Dict {ℓ} : Type ℓ → Type ℓ
Dict V = List (ℕ × V)

module _ {ℓ} {V : Type ℓ} where
  unfoldable pub lookup : ℕ → Dict V → Option V
  lookup k [] = none
  lookup k (e ∷ d) = if e.0 == k then some e.1 else lookup k d

  -- The first entry of the key is overwritten; a new key goes to the end.
  unfoldable pub insert : ℕ → V → Dict V → Dict V
  insert k v [] = (k, v) ∷ []
  insert k v (e ∷ d) = if e.0 == k then (k, v) ∷ d else e ∷ insert k v d

  pub lookup-insert :
      (k j : ℕ) (v : V) (d : Dict V)
      → lookup j (insert k v d) ≡ (if k == j then some v else lookup j d)
  unfolding lookup insert
  lookup-insert k j v [] = refl
  lookup-insert k j v (e ∷ d) = ground (arith, lookup-insert k j v d)

  -- Changes the value of a key, if it is there: an `update` statement with the key in its `where`.
  unfoldable pub update : ℕ → (V → V) → Dict V → Dict V
  update k f [] = []
  update k f (e ∷ d) = if e.0 == k then (e.0, f e.1) ∷ d else e ∷ update k f d

  pub lookup-update :
      (k j : ℕ) (f : V → V) (d : Dict V)
      → lookup j (update k f d) ≡ (if k == j then Option.map f (lookup j d) else lookup j d)
  unfolding lookup update
  lookup-update k j f [] = ground arith
  lookup-update k j f (e ∷ d) = ground (arith, lookup-update k j f d)

  -- No key stands twice, as in a map or under a primary key.
  abbrev pub Keyed : Dict V → Type ℓ
  Keyed [] = Unit {ℓ}
  Keyed (e ∷ d) = (lookup e.0 d ≡ none) × Keyed d

  pub update-Keyed : (k : ℕ) (f : V → V) (d : Dict V) → Keyed d → Keyed (update k f d)
  unfolding update
  update-Keyed k f [] h = h
  update-Keyed k f (e ∷ d) h = ground (arith, update-Keyed k f d h.1, lookup-update k e.0 f d)

  pub insert-Keyed : (k : ℕ) (v : V) (d : Dict V) → Keyed d → Keyed (insert k v d)
  unfolding lookup insert
  insert-Keyed k v [] h = (refl, tt)
  insert-Keyed k v (e ∷ d) h = ground (arith, insert-Keyed k v d h.1, lookup-insert k e.0 v d)
