-- ===== src/IotConfig/Constraints/Rebuilt.antt =====
-- iot_config/src/helium_netids.rs: `constraints_from_addrs` finds the constraints again of which it is
-- given the addresses.
use mathlib.Core.List.{append_assoc}
use oracles.Prelude.{
  ℕ, zero, suc, ◌+◌, ◌-◌, ◌<◌, ◌≡◌, refl, ap, ◌∙◌, arith, some, none, List, [], ◌∷◌, ◌++◌, range,
  inclusive, ltb, ◌==◌, if◌then◌else◌,
}
use oracles.Prelude.Results.{ok, err, ◌>>=◌}
use oracles.IotConfig.Fields.{DevAddrConstraint, new_constraint}
use oracles.IotConfig.Constraints.{
  Building, Built, end_addr, push_new, add_addr, add_addrs, last_constraint, constraints_from_addrs,
}

-- The addresses of constraints, one after the other.
abbrev pub addrs_of : DevAddrConstraint → List ℕ
addrs_of c = inclusive c.start_addr c.end_addr

abbrev pub all_addrs : List DevAddrConstraint → List ℕ
all_addrs [] = []
all_addrs (c ∷ cs) = addrs_of c ++ all_addrs cs

-- `DevAddrConstraint::new` makes it.
abbrev pub IsValid : DevAddrConstraint → Type 0
IsValid c = new_constraint c.start_addr c.end_addr ≡ ok c

-- Each is valid, and at least one address stands between two that follow each other.
abbrev pub Separated : DevAddrConstraint → List DevAddrConstraint → Type 0
Separated c [] = IsValid c
Separated c (d ∷ ds) = (IsValid c) × (c.end_addr + 1 < d.start_addr) × (Separated d ds)

Separated-IsValid :
    (c : DevAddrConstraint) (cs : List DevAddrConstraint) → Separated c cs → IsValid c
Separated-IsValid c [] h = h
Separated-IsValid c (d ∷ ds) h = h.0

IsValid-lt : (c : DevAddrConstraint) → IsValid c → c.start_addr < c.end_addr
unfolding new_constraint
IsValid-lt c h = ground (arith, h)

abbrev at : List DevAddrConstraint → ℕ → ℕ → Building
at acc s e = record { constraints = acc; start = some s; end = some e }

add_addrs-++ :
    (xs ys : List ℕ) (b : Building) → add_addrs (xs ++ ys) b ≡ (add_addrs xs b >>= add_addrs ys)
unfolding add_addrs
add_addrs-++ [] ys b = refl
add_addrs-++ (x ∷ xs) ys b = then_rest (add_addrs-++ xs ys) (add_addr x b.start b.end b.constraints)
  where
    then_rest :
        ((b : Building) → add_addrs (xs ++ ys) b ≡ (add_addrs xs b >>= add_addrs ys))
        → (r : Built Building)
        → (r >>= add_addrs (xs ++ ys)) ≡ ((r >>= add_addrs xs) >>= add_addrs ys)
    then_rest ih (ok b') = ih b'
    then_rest ih (err e) = refl

add_addr-next :
    (s e : ℕ) (acc : List DevAddrConstraint)
    → add_addr (e + 1) (some s) (some e) acc ≡ ok (at acc s (e + 1))
unfolding add_addr
add_addr-next s e acc = ground arith

add_addr-gap :
    (p q s : ℕ) (acc : List DevAddrConstraint) (c : DevAddrConstraint)
    → q + 1 < s
    → new_constraint p q ≡ ok c
    → add_addr s (some p) (some q) acc
      ≡ ok (record { constraints = acc ++ (c ∷ []); start = some s; end = none })
unfolding add_addr
add_addr-gap p q s acc c h v =
    test (ok (at acc p s))
      (push_new acc (new_constraint p q) >>= λ cs.
        ok (record { constraints = cs; start = some s; end = none }))
      (err end_addr) s (q + 1) h
    ∙ ap
        (λ r. push_new acc r >>= λ cs. ok (record { constraints = cs; start = some s; end = none }))
        v
  where
    test :
        {A : Type 0} (x y z : A) (a b : ℕ)
        → b < a
        → (if a == b then x else if ltb b a then y else z) ≡ y
    test x y z a b h = ground arith

-- A run goes on.
add_addrs-run :
    (n s e : ℕ) (acc : List DevAddrConstraint)
    → add_addrs (range (e + 1) n) (at acc s e) ≡ ok (at acc s (e + n))
unfolding add_addrs add_addr
add_addrs-run zero s e acc = ap (λ x. ok (at acc s x)) (omega arith)
add_addrs-run (suc n) s e acc =
    ap (λ r. r >>= add_addrs (range (e + 1 + 1) n)) (add_addr-next s e acc)
    ∙ add_addrs-run n s (e + 1) acc
    ∙ ap (λ x. ok (at acc s x)) (omega arith)

-- The first block, and a block after a gap.
add_addrs-first :
    (n s : ℕ)
    → add_addrs (range s (suc (suc n))) (record { constraints = []; start = none; end = none })
      ≡ ok (at [] s (s + 1 + n))
unfolding add_addrs add_addr
add_addrs-first n s = add_addrs-run n s (s + 1) []

add_addrs-next :
    (n p q s : ℕ) (acc : List DevAddrConstraint) (c : DevAddrConstraint)
    → q + 1 < s
    → new_constraint p q ≡ ok c
    → add_addrs (range s (suc (suc n))) (at acc p q) ≡ ok (at (acc ++ (c ∷ [])) s (s + 1 + n))
unfolding add_addrs add_addr
add_addrs-next n p q s acc c h v =
    ap (λ r. r >>= add_addrs (range (s + 1) (suc n))) (add_addr-gap p q s acc c h v)
    ∙ add_addrs-run n s (s + 1) (acc ++ (c ∷ []))

-- The block of a constraint has two addresses at least.
addrs_of_lem :
    (c : DevAddrConstraint)
    → c.start_addr < c.end_addr
    → (n : ℕ) × (addrs_of c ≡ range c.start_addr (suc (suc n)))
      × (c.start_addr + 1 + n ≡ c.end_addr)
addrs_of_lem c h = (
  c.end_addr - c.start_addr - 1,
  ap (range c.start_addr) {y = suc (suc (c.end_addr - c.start_addr - 1))} (omega arith),
  omega arith,
)

in_run : DevAddrConstraint → List DevAddrConstraint → Building
in_run c acc = at acc c.start_addr c.end_addr

add_addrs-first_block :
    (c : DevAddrConstraint)
    → IsValid c
    → add_addrs (addrs_of c) (record { constraints = []; start = none; end = none })
      ≡ ok (in_run c [])
unfolding in_run
add_addrs-first_block c v =
    let (n, e, l) = addrs_of_lem c (IsValid-lt c v) in
    ap (λ a. add_addrs a (record { constraints = []; start = none; end = none })) e
    ∙ add_addrs-first n c.start_addr
    ∙ ap (λ x. ok (at [] c.start_addr x)) l

add_addrs-block :
    (c d : DevAddrConstraint) (acc : List DevAddrConstraint)
    → IsValid c
    → IsValid d
    → c.end_addr + 1 < d.start_addr
    → add_addrs (addrs_of d) (in_run c acc) ≡ ok (in_run d (acc ++ (c ∷ [])))
unfolding in_run
add_addrs-block c d acc v w h =
    let (n, e, l) = addrs_of_lem d (IsValid-lt d w) in
    ap (λ a. add_addrs a (at acc c.start_addr c.end_addr)) e
    ∙ add_addrs-next n c.start_addr c.end_addr d.start_addr acc c h v
    ∙ ap (λ x. ok (at (acc ++ (c ∷ [])) d.start_addr x)) l

finish : Building → Built (List DevAddrConstraint)
finish b = last_constraint b.start b.end b.constraints

add_addrs-blocks :
    (c : DevAddrConstraint) (cs acc : List DevAddrConstraint)
    → Separated c cs
    → (add_addrs (all_addrs cs) (in_run c acc) >>= finish) ≡ ok (acc ++ (c ∷ cs))
unfolding in_run add_addrs finish last_constraint
add_addrs-blocks c [] acc h = ap (push_new acc) h
add_addrs-blocks c (d ∷ ds) acc h =
    ap (λ r. r >>= finish)
      (add_addrs-++ (addrs_of d) (all_addrs ds) (in_run c acc)
        ∙ ap (λ r. r >>= add_addrs (all_addrs ds))
            (add_addrs-block c d acc h.0 (Separated-IsValid d ds h.2) h.1))
    ∙ add_addrs-blocks d ds (acc ++ (c ∷ [])) h.2
    ∙ ap ok (append_assoc acc (c ∷ []) (d ∷ ds))

-- For one or more constraints, each of them accepted by `DevAddrConstraint::new`, and each starting at
-- least two above the end of the one before: `constraints_from_addrs` of their addresses, in order,
-- returns these constraints.
pub constraints_from_addrs-all_addrs :
    (c : DevAddrConstraint) (cs : List DevAddrConstraint)
    → Separated c cs
    → constraints_from_addrs (all_addrs (c ∷ cs)) ≡ ok (c ∷ cs)
unfolding constraints_from_addrs finish
constraints_from_addrs-all_addrs c cs h =
    ap (λ r. r >>= finish)
      (add_addrs-++ (addrs_of c) (all_addrs cs) _
        ∙ ap (λ r. r >>= add_addrs (all_addrs cs))
            (add_addrs-first_block c (Separated-IsValid c cs h)))
    ∙ add_addrs-blocks c cs [] h
