-- ===== src/IotConfig/Checkout/Claims.antt =====
-- iot_config/src/helium_netids.rs: what the checkouts do with the store.
use Prim.Native.Nat.{min}
use oracles.Prelude.{
  ℕ, zero, suc, ◌+◌, ◌-◌, ◌^◌, ◌≤◌, ◌<◌, ◌≡◌, refl, sym, ap, ◌∙◌, arith, ltb, leb, leb→le, Bool,
  true, false, not, Bool-cases, ◌⊎◌, inl, inr, some, none, List, [], ◌∷◌, if◌then◌else◌, ◌&&◌,
  length, length-take, take, inclusive, contains, filter, contains-range, Outcome, ok, err, ◌>>◌,
  subst, Reply, failed, Action, Call, ◌>>=◌, raise, done,
}
use oracles.IotConfig.Fields.{DevAddrConstraint, to_u32}
use oracles.IotConfig.Helium.{
  HeliumNetId, type0_0x00003c, type3_0x60002d, type6_0xc00053, addr_range,
}
use oracles.IotConfig.Checkout.{
  DevAddrConstraintsError, AddressStore, last_or, choose_addrs, claim, claim_chosen,
  claim_requested, checkout_devaddr_constraints, checkout_specified_devaddr_constraint,
  constraint_addr_in_use, of_store, of_built, address_store, no_available_addrs, invalid_constraint,
  any_in,
}
use oracles.IotConfig.Constraints.{ConstraintsBuildError, constraints_from_addrs}
use oracles.Prelude.Results
use oracles.Prelude.Results.{Result}
use oracles.IotConfig.Checkout.Lowest.{Ascending, free, lowest, choose_addrs-lowest}

-- The used addresses of a net id as the store lists them: in ascending order, and in its range.
pub record AreUsed (net_id : HeliumNetId) (used : List ℕ) : Type 0 where
  pub ordered : Ascending (addr_range net_id).start used
  pub inside : last_or (addr_range net_id).start used ≤ (addr_range net_id).end

abbrev pub free_addrs : HeliumNetId → List ℕ → List ℕ
free_addrs net_id used = free (addr_range net_id).start (addr_range net_id).end used

range-small : (net_id : HeliumNetId) → (addr_range net_id).end + 1 < 2 ^ 32
unfolding addr_range
range-small type0_0x00003c = omega arith
range-small type3_0x60002d = omega arith
range-small type6_0xc00053 = omega arith

choose-lowest :
    (count : ℕ) (net_id : HeliumNetId) (used : List ℕ)
    → AreUsed net_id used
    → choose_addrs count (addr_range net_id).start (addr_range net_id).end used
      ≡ lowest count (free_addrs net_id used)
choose-lowest count net_id used u =
    choose_addrs-lowest count (addr_range net_id).start (addr_range net_id).end used u.ordered
      u.inside (range-small net_id)

contains-take : (n : ℕ) (xs : List ℕ) (a : ℕ) → contains (take n xs) a ≡ true → contains xs a ≡ true
contains-take zero xs a h = absurd (cc h)
contains-take (suc n) [] a h = absurd (cc h)
contains-take (suc n) (x ∷ xs) a h = let ih = contains-take n xs a in grind arith

contains-filter :
    (p : ℕ → Bool) (xs : List ℕ) (a : ℕ)
    → contains (filter p xs) a ≡ true
    → (p a ≡ true) × (contains xs a ≡ true)
contains-filter p [] a h = absurd (cc h)
contains-filter p (x ∷ xs) a h = let ih = contains-filter p xs a in grind arith

-- An address that a checkout may hand out.
pub record IsFree (net_id : HeliumNetId) (used : List ℕ) (a : ℕ) : Type 0 where
  pub unused : contains used a ≡ false
  pub above : (addr_range net_id).start ≤ a
  pub below : a ≤ (addr_range net_id).end

free_addrs-IsFree :
    (net_id : HeliumNetId) (used : List ℕ) (a : ℕ)
    → contains (free_addrs net_id used) a ≡ true
    → IsFree net_id used a
free_addrs-IsFree net_id used a h =
    let r = addr_range net_id in
    let n = r.end + 1 - r.start in
    let (u, b) = contains-filter (λ a. not (contains used a)) (inclusive r.start r.end) a h in
    let c = sym (contains-range r.start n a) ∙ b in
    record {
      unused = not_true (contains used a) u;
      above = low r.start a (r.start + n) c;
      below = high r.start r.end a c;
    }
  where
    not_true : (b : Bool) → not b ≡ true → b ≡ false
    not_true b h = ground arith

    low : (s a e : ℕ) → (leb s a && ltb a e) ≡ true → s ≤ a
    low s a e h = ground arith

    high : (s e a : ℕ) → (leb s a && ltb a (s + (e + 1 - s))) ≡ true → a ≤ e
    high s e a h = ground arith

lowest-some :
    (count : ℕ) (addrs claimed : List ℕ)
    → lowest count addrs ≡ some claimed
    → (claimed ≡ take count addrs) × (length claimed ≡ count)
unfolding lowest
lowest-some count addrs claimed h = elim (Bool-cases (leb count (length addrs))) [
  | inl b ↦ let e = taken b h in (e, ap length e ∙ length-take count addrs ∙ least (leb→le _ _ b))
  | inr b ↦ absurd (grind arith)
]
  where
    taken :
        leb count (length addrs) ≡ true
        → (if leb count (length addrs) then some (take count addrs) else none) ≡ some claimed
        → claimed ≡ take count addrs
    taken b h = grind arith

    least : {a b : ℕ} → a ≤ b → min a b ≡ a
    least h = omega arith

-- When the used addresses are listed in ascending order and lie in the net id's range, and a checkout
-- finds `count` addresses to claim: it claims exactly `count`, and any address that it claims is in the
-- net id's range and not in use.
pub choose_addrs-IsFree :
    (count : ℕ) (net_id : HeliumNetId) (used claimed : List ℕ) (a : ℕ)
    → AreUsed net_id used
    → choose_addrs count (addr_range net_id).start (addr_range net_id).end used ≡ some claimed
    → contains claimed a ≡ true
    → (length claimed ≡ count) × IsFree net_id used a
choose_addrs-IsFree count net_id used claimed a u h c =
    let free = free_addrs net_id used in
    let (e, n) = lowest-some count free claimed (sym (choose-lowest count net_id used u) ∙ h) in
    (
      n,
      free_addrs-IsFree net_id used a
          (contains-take count free a (ap (λ l. contains l a) (sym e) ∙ c)),
    )

-- Whether some requested address is used, with the address.
any_in-used :
    (used addrs : List ℕ)
    → ((a : ℕ) × (any_in used addrs ≡ true) × (contains addrs a ≡ true) × (contains used a ≡ true))
      ⊎ ((any_in used addrs ≡ false)
          × ((a : ℕ) → contains addrs a ≡ true → contains used a ≡ false))
any_in-used used [] = inr (refl, λ a h. absurd (cc h))
any_in-used used (x ∷ xs) = elim (Bool-cases (contains used x)) [
  | inl b ↦ inl (x, grind (arith, b), grind arith, b)
  | inr b ↦ elim (any_in-used used xs) [
    | inl (a, t, i, u) ↦ inl (a, grind (arith, b, t), grind (arith, i), u)
    | inr (f, n) ↦ inr (grind (arith, b, f), λ a h. let m = n a in grind (arith, b, h))
  ]
]

pub record Between (start end a : ℕ) : Type 0 where
  pub from : start ≤ a
  pub to : a ≤ end

within : (s e a : ℕ) → contains (inclusive s e) a ≡ true → Between s e a
within s e a h = let c = contains-range s (e + 1 - s) a in ground arith

within_back : (s e a : ℕ) → Between s e a → contains (inclusive s e) a ≡ true
within_back s e a h = let c = contains-range s (e + 1 - s) a in ground arith

module _ {S E : Type 0} (addr_store : AddressStore S E) where
  from_store :
      {A B : Type 0} (call : Call S E A) (f : A → Action S (DevAddrConstraintsError E) B) (s : S)
      {a : A} {s' : S}
      → call s ≡ (done a, s')
      → (of_store call >>= f) s ≡ f a s'
  from_store call f s h = ap (λ r. (of_store (λ _. r) >>= f) s) h

  -- The two answers to a request for the addresses from `start` to `end`.
  abbrev pub IsAnswered :
      HeliumNetId → ℕ → ℕ → List ℕ → S → Outcome (DevAddrConstraintsError E) (Unit {0}) × S → Type 0
  IsAnswered net_id start end used s' answer =
      ((a : ℕ) × (contains used a ≡ true)
        × (Between start end a)
        × (answer ≡ (err (constraint_addr_in_use (inclusive start end)), s')))
      ⊎ (((a : ℕ) → Between start end a → contains used a ≡ false)
          × (answer ≡ of_store (addr_store.claim_addrs net_id (inclusive start end)) s'))

  -- The answer to a claim whose constraints are built or not, by what the store answers.
  abbrev pub claimed_answer :
      Result ConstraintsBuildError (List DevAddrConstraint)
      → Reply E (Unit {0}) × S
      → Outcome (DevAddrConstraintsError E) (List DevAddrConstraint) × S
  claimed_answer built (failed e, s) = (err (address_store e), s)
  claimed_answer (Results.ok cs) (done _, s) = (ok cs, s)
  claimed_answer (Results.err e) (done _, s) = (err (invalid_constraint e), s)

  -- The two answers to a request for `count` of the free addresses.
  abbrev pub IsCheckedOut :
      ℕ
      → HeliumNetId
      → List ℕ
      → S
      → Outcome (DevAddrConstraintsError E) (List DevAddrConstraint) × S
      → Type 0
  IsCheckedOut count net_id addrs s answer =
      ((length addrs < count) × (answer ≡ (err no_available_addrs, s)))
      ⊎ ((count ≤ length addrs)
          × (answer
              ≡ claimed_answer (constraints_from_addrs (take count addrs))
                  (addr_store.claim_addrs net_id (take count addrs) s)))

  claim-IsCheckedOut :
      (count : ℕ) (net_id : HeliumNetId) (addrs : List ℕ) (s : S)
      → IsCheckedOut count net_id addrs s (claim addr_store net_id (lowest count addrs) s)
  unfolding lowest
  claim-IsCheckedOut count net_id addrs s = elim (Bool-cases (leb count (length addrs))) [
    | inl b ↦ inr (
      leb→le _ _ b,
      rw b (
          claimed (constraints_from_addrs (take count addrs))
            (addr_store.claim_addrs net_id (take count addrs)) s),
    )
    | inr b ↦ inl (ground arith, rw b refl)
  ]
    where
      claimed :
          (built : Result ConstraintsBuildError (List DevAddrConstraint))
          (call : Call S E (Unit {0})) (s : S)
          → (of_store call >> of_built built) s ≡ claimed_answer built (call s)
      claimed built call s = by_reply built (call s)
        where
          by_reply :
              (built : Result ConstraintsBuildError (List DevAddrConstraint))
              (r : Reply E (Unit {0}) × S)
              → (of_store (λ _. r) >> of_built built) s ≡ claimed_answer built r
          by_reply (Results.ok cs) (done _, t) = refl
          by_reply (Results.err e) (done _, t) = refl
          by_reply built (failed e, t) = refl

  -- For any store that answers the call for the used addresses with a list in ascending order and in
  -- the net id's range: a checkout of `count` addresses then claims the `count` lowest addresses of the
  -- range that are not used, with one call of the store, and returns the constraints made of them, or
  -- the error of that call or of the making of the constraints; where fewer than `count` are free it
  -- makes no other call of the store and fails with `NoAvailableAddrs`.
  pub checkout-lowest :
      (count : ℕ) (net_id : HeliumNetId) (s s' : S) (used : List ℕ)
      → addr_store.get_used_addrs net_id s ≡ (done used, s')
      → AreUsed net_id used
      → IsCheckedOut count net_id
          (free_addrs net_id used)
          s'
          (checkout_devaddr_constraints addr_store count net_id s)
  unfolding checkout_devaddr_constraints claim_chosen
  checkout-lowest count net_id s s' used h u =
      subst (IsCheckedOut count net_id (free_addrs net_id used) s')
        (sym (
          from_store (addr_store.get_used_addrs net_id) (claim_chosen addr_store count net_id) s h
          ∙ ap (λ o. claim addr_store net_id o s') (choose-lowest count net_id used u)))
        (claim-IsCheckedOut count net_id (free_addrs net_id used) s')

  -- For any store that answers the call for the used addresses: the checkout of a specified constraint
  -- fails, with the requested addresses and with no other call of the store, where some address from the
  -- constraint's start to its end is used, and where none is used it claims those addresses. A start and
  -- an end are taken as u32s.
  pub checkout_specified-IsAnswered :
      (net_id : HeliumNetId) (requested : DevAddrConstraint) (s s' : S) (used : List ℕ)
      → addr_store.get_used_addrs net_id s ≡ (done used, s')
      → IsAnswered net_id
          (to_u32 requested.start_addr)
          (to_u32 requested.end_addr)
          used
          s'
          (checkout_specified_devaddr_constraint addr_store net_id requested s)
  unfolding checkout_specified_devaddr_constraint claim_requested
  checkout_specified-IsAnswered net_id requested s s' used h =
      let addrs = inclusive (to_u32 requested.start_addr) (to_u32 requested.end_addr) in
      elim (any_in-used used addrs) [
        | inl (a, t, i, u) ↦ inl (
          a,
          u,
          within _ _ a i,
          from_store (addr_store.get_used_addrs net_id) (claim_requested addr_store net_id addrs) s
                h
              ∙ ap
                  (λ b.
                    (if b
                        then raise (constraint_addr_in_use addrs)
                        else of_store (addr_store.claim_addrs net_id addrs))
                      s')
                  t,
        )
        | inr (f, n) ↦ inr (
          (λ a l. n a (within_back _ _ a l)),
          from_store (addr_store.get_used_addrs net_id) (claim_requested addr_store net_id addrs) s
                h
              ∙ ap
                  (λ b.
                    (if b
                        then raise (constraint_addr_in_use addrs)
                        else of_store (addr_store.claim_addrs net_id addrs))
                      s')
                  f,
        )
      ]
