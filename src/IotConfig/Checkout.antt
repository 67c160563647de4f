-- ===== src/IotConfig/Checkout.antt =====
-- iot_config/src/helium_netids.rs: the checkout of addresses. The store of addresses, the trait
-- `AddressStore`, is a parameter; the rows of Postgres are one, and the map of the tests is another.
use oracles.Prelude.{
  ℕ, zero, suc, ◌+◌, ◌-◌, ◌%◌, ◌^◌, Bool, true, false, not, Option, none, some, List, [], ◌∷◌, ◌++◌,
  length, ◌||◌, take, inclusive, contains, filter, leb, if◌then◌else◌, Outcome, ok, err, Action,
  Call, pure, raise, of_reply, ◌>>=◌, ◌>>◌,
}
use oracles.Prelude.Results
use oracles.Prelude.Results.{Result}
use oracles.IotConfig.Fields.{DevAddrConstraint, to_u32}
use oracles.IotConfig.Helium.{HeliumNetId, addr_range}
use oracles.IotConfig.Constraints.{ConstraintsBuildError, constraints_from_addrs}
pub mod Lowest
pub mod Claims

-- The message of the last lists the addresses that were asked for.
pub data DevAddrConstraintsError (E : Type 0) : Type 0 where
  address_store : E → DevAddrConstraintsError E
  no_available_addrs : DevAddrConstraintsError E
  invalid_constraint : ConstraintsBuildError → DevAddrConstraintsError E
  constraint_addr_in_use : List ℕ → DevAddrConstraintsError E

pub record AddressStore (S E : Type 0) : Type 0 where
  pub get_used_addrs : HeliumNetId → Call S E (List ℕ)
  pub claim_addrs : HeliumNetId → List ℕ → Call S E (Unit {0})
  pub release_addrs : HeliumNetId → List ℕ → Call S E (Unit {0})

-- A call of the store, with its error under `AddressStore`.
abbrev pub of_store : {S E A : Type 0} → Call S E A → Action S (DevAddrConstraintsError E) A
of_store call s = let (r, s') = call s in (of_reply address_store r, s')

abbrev pub of_built :
    {S E A : Type 0} → Result ConstraintsBuildError A → Action S (DevAddrConstraintsError E) A
of_built (Results.ok a) = pure a
of_built (Results.err e) = raise (invalid_constraint e)

abbrev pub last_or : ℕ → List ℕ → ℕ
last_or d [] = d
last_or d (x ∷ xs) = last_or x xs

-- `used_range.difference(&used_addrs)`, sorted: the numbers of the range, in order, that are not used.
unfoldable pub available_diff : ℕ → List ℕ → List ℕ
available_diff range_start used =
    filter (λ a. not (contains used a)) (inclusive range_start (last_or range_start used))

-- The `while` loop, with `missing` addresses still to claim.
unfoldable pub fill : ℕ → ℕ → ℕ → List ℕ → Option (List ℕ)
fill zero range_end next_addr claimed = some claimed
fill (suc missing) range_end next_addr claimed =
    let rest = fill missing range_end (next_addr + 1) (claimed ++ (next_addr ∷ [])) in
    if leb next_addr range_end then rest else none

-- The addresses to claim; none is `NoAvailableAddrs`.
unfoldable pub choose_addrs : ℕ → ℕ → ℕ → List ℕ → Option (List ℕ)
choose_addrs count range_start range_end used =
    let claimed = take count (available_diff range_start used) in
    fill (count - length claimed) range_end (to_u32 (last_or range_start used + 1)) claimed

abbrev pub any_in : List ℕ → List ℕ → Bool
any_in used [] = false
any_in used (a ∷ addrs) = contains used a || any_in used addrs

module _ {S E : Type 0} (addr_store : AddressStore S E) where
  abbrev pub claim :
      HeliumNetId → Option (List ℕ) → Action S (DevAddrConstraintsError E) (List DevAddrConstraint)
  claim net_id none = raise no_available_addrs
  claim net_id (some claimed) =
      of_store (addr_store.claim_addrs net_id claimed) >> of_built (constraints_from_addrs claimed)

  -- What follows the call for the used addresses, in each checkout.
  unfoldable pub claim_chosen :
      ℕ → HeliumNetId → List ℕ → Action S (DevAddrConstraintsError E) (List DevAddrConstraint)
  claim_chosen count net_id used =
      claim net_id (choose_addrs count (addr_range net_id).start (addr_range net_id).end used)

  unfoldable pub checkout_devaddr_constraints :
      ℕ → HeliumNetId → Action S (DevAddrConstraintsError E) (List DevAddrConstraint)
  checkout_devaddr_constraints count net_id =
      of_store (addr_store.get_used_addrs net_id) >>= claim_chosen count net_id

  unfoldable pub claim_requested :
      HeliumNetId → List ℕ → List ℕ → Action S (DevAddrConstraintsError E) (Unit {0})
  claim_requested net_id request_addrs used =
      if any_in used request_addrs
      then raise (constraint_addr_in_use request_addrs)
      else of_store (addr_store.claim_addrs net_id request_addrs)

  unfoldable pub checkout_specified_devaddr_constraint :
      HeliumNetId → DevAddrConstraint → Action S (DevAddrConstraintsError E) (Unit {0})
  checkout_specified_devaddr_constraint net_id requested =
      of_store (addr_store.get_used_addrs net_id)
      >>= claim_requested net_id
          (inclusive (to_u32 requested.start_addr) (to_u32 requested.end_addr))
