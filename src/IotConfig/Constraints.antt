-- ===== src/IotConfig/Constraints.antt =====
-- iot_config/src/helium_netids.rs: the constraints made of the addresses that were claimed.
use oracles.Prelude.{ℕ, ◌+◌, Option, none, some, List, [], ◌∷◌, ◌++◌, ltb, ◌==◌, if◌then◌else◌}
use oracles.Prelude.Results.{Result, ok, err, ◌>>=◌}
use oracles.IotConfig.Fields.{DevAddrConstraint, DevAddrRangeError, new_constraint}
pub mod Rebuilt

pub data ConstraintsBuildError : Type 0 where
  start_addr end_addr : ConstraintsBuildError
  invalid_constraint : DevAddrRangeError → ConstraintsBuildError

-- The locals of the loop of `constraints_from_addrs`.
pub record Building : Type 0 where
  pub constraints : List DevAddrConstraint
  pub start : Option ℕ
  pub end : Option ℕ

abbrev pub Built : Type 0 → Type 0
Built A = Result ConstraintsBuildError A

-- `constraints.push(DevAddrConstraint::new(..)?)`.
abbrev pub push_new :
    List DevAddrConstraint
    → Result DevAddrRangeError DevAddrConstraint
    → Built (List DevAddrConstraint)
push_new cs (ok c) = ok (cs ++ (c ∷ []))
push_new cs (err e) = err (invalid_constraint e)

-- The body of the loop, by the two options. No address is 2 ^ 32 - 1 here, above which `next_addr + 1`
-- would leave the u32s.
unfoldable pub add_addr : ℕ → Option ℕ → Option ℕ → List DevAddrConstraint → Built Building
add_addr addr none none cs = ok (record { constraints = cs; start = some addr; end = none })
add_addr addr (some s) none cs = ok (record { constraints = cs; start = some s; end = some addr })
add_addr addr (some prev) (some next) cs =
    if addr == next + 1
    then ok (record { constraints = cs; start = some prev; end = some addr })
    else if ltb (next + 1) addr
    then (do
      cs' ← push_new cs (new_constraint prev next)
      ok (record { constraints = cs'; start = some addr; end = none }))
    else err end_addr
add_addr addr none (some next) cs = err start_addr

unfoldable pub add_addrs : List ℕ → Building → Built Building
add_addrs [] b = ok b
add_addrs (addr ∷ addrs) b = add_addr addr b.start b.end b.constraints >>= add_addrs addrs

-- What is left after the loop.
unfoldable pub last_constraint :
    Option ℕ → Option ℕ → List DevAddrConstraint → Built (List DevAddrConstraint)
last_constraint (some s) (some e) cs = push_new cs (new_constraint s e)
last_constraint (some s) none cs = err end_addr
last_constraint none e cs = err end_addr

unfoldable pub constraints_from_addrs : List ℕ → Built (List DevAddrConstraint)
constraints_from_addrs addrs =
    add_addrs addrs (record { constraints = []; start = none; end = none }) >>= λ b.
    last_constraint b.start b.end b.constraints
