-- ===== src/IotConfig/NetIds/Blocks.antt =====
-- iot_config/src/lora_field.rs: the addresses of a net id and the net id of an address agree.
use Prim.Native.Nat.{◌-◌}
use oracles.Prelude.{ℕ, ◌+◌, ◌^◌, ◌≤◌, ◌<◌, ◌≡◌, sym, ap, subst, ◌∙◌, arith}
use oracles.Prelude.Bits.{pow2, pow2_pos}
use oracles.Prelude.Results.{Result, ok}
use oracles.IotConfig.Fields.{DevAddrConstraint, new_constraint}
use oracles.IotConfig.NetIds.{full_range, to_net_id}
use oracles.IotConfig.NetIds.Layout.{
  by_type, address, id_bits, addr_bits, ids, net_id_of, block_of, ids-lt, full_range_lem,
}
use oracles.IotConfig.NetIds.Layout.Arms.{to_net_id-address}

ok_injective : {E A : Type 0} {a b : A} → ◌≡◌ {A = Result E A} (ok a) (ok b) → a ≡ b
ok_injective h = cc

ids-le : (t id : ℕ) → id < ids t → id < pow2 (id_bits t)
ids-le t id h =
    by_type (λ t. id < ids t → id < pow2 (id_bits t)) (λ h. h) (λ h. h) (λ h. h) (λ h. h) (λ h. h)
      (λ h. h) (λ h. h) (λ h. omega arith) t (ids-lt t id h) h

in_block :
    (t id a : ℕ)
    → id < ids t
    → address t id 0 ≤ a
    → a ≤ address t id (pow2 (addr_bits t) - 1)
    → to_net_id a ≡ ok (net_id_of t id)
in_block t id a h l u =
    ap to_net_id {x = a} {y = address t id (a - address t id 0)} (omega arith)
    ∙ to_net_id-address t id (a - address t id 0) (ids-lt t id h) (ids-le t id h)
        (omega (arith, pow2_pos (addr_bits t)))

-- For each type t from 0 to 7 and each id below the number of ids of the type (64, 64, 512, 2048,
-- 4096, 8192, 32768, and 65536 for type 7, which is half of its 17 bits): when `full_range` of the net
-- id made of t and id is the constraint c, `to_net_id` of every address from c's start to c's end is
-- that net id.
pub full_range-to_net_id :
    (t id a : ℕ) (c : DevAddrConstraint)
    → id < ids t
    → full_range (net_id_of t id) ≡ ok c
    → c.start_addr ≤ a
    → a ≤ c.end_addr
    → to_net_id a ≡ ok (net_id_of t id)
full_range-to_net_id t id a c h e l u =
    let b = ok_injective (sym e ∙ full_range_lem t id h) in
    in_block t id a h (subst (λ c. c.start_addr ≤ a) b l) (subst (λ c. a ≤ c.end_addr) b u)

-- A valid constraint of 2 ^ k addresses, all of them u32s.
pub record IsBlock (c : DevAddrConstraint) (k : ℕ) : Type 0 where
  pub valid : new_constraint c.start_addr c.end_addr ≡ ok c
  pub size : c.end_addr + 1 ≡ c.start_addr + pow2 k
  pub fits : c.end_addr < 2 ^ 32

block_of-IsBlock : (t : ℕ) → t < 8 → (id : ℕ) → id < ids t → IsBlock (block_of t id) (addr_bits t)
unfolding new_constraint
block_of-IsBlock =
    by_type _ (λ id h. ground arith) (λ id h. ground arith) (λ id h. ground arith)
      (λ id h. ground arith) (λ id h. ground arith) (λ id h. ground arith) (λ id h. ground arith)
      (λ id h. ground arith)

-- For each type t from 0 to 7 and each id below the number of ids of the type (half of them for type
-- 7): `full_range` of the net id is a constraint that `DevAddrConstraint::new` accepts, it has 2 ^ k
-- addresses, where k is 25, 24, 20, 17, 15, 13, 10 and 7 for the types in order, and its end fits u32.
pub full_range-IsBlock :
    (t id : ℕ)
    → id < ids t
    → (c : DevAddrConstraint) × (full_range (net_id_of t id) ≡ ok c) × IsBlock c (addr_bits t)
full_range-IsBlock t id h =
    (block_of t id, full_range_lem t id h, block_of-IsBlock t (ids-lt t id h) id h)
