-- ===== src/IotConfig/NetIds/Layout/Arms.antt =====
-- iot_config/src/lora_field.rs: `to_net_id` on an address that is given by its fields.
use Prim.Native.Nat.{bit_and, bit_or}
use oracles.Prelude.{ℕ, suc, ◌+◌, ◌*◌, ◌/◌, ◌^◌, ◌<◌, ◌≡◌, refl, ap, ◌∙◌, arith, some, get_elem?}
use oracles.Prelude.Bits.{
  pow2, ones, block, leading_ones, bit_or-disjoint_flip, leading_ones-prefix, bit_and-field,
}
use oracles.Prelude.Results.{ok}
use oracles.IotConfig.Fields.{to_u32}
use oracles.IotConfig.NetIds.{net_id_arms, to_net_id}
use oracles.IotConfig.NetIds.Layout.{by_type, address, id_bits, addr_bits, net_id_of}

-- The arms of `to_net_id` cut the id out and put the type before it.
arms :
    (t : ℕ)
    → t < 8
    → (id r : ℕ) → id < pow2 (id_bits t)
    → r < pow2 (addr_bits t)
    → get_elem? (net_id_arms (address t id r)) t ≡ some (net_id_of t id)
unfolding net_id_arms
arms =
    by_type _ (λ id r h k. ap some (omega (arith, bit_and-field 25 6 0 id r k h)))
      (λ id r h k. ap some (arm 24 6 2 id r 1 h k (omega arith)))
      (λ id r h k. ap some (arm 20 9 6 id r 2 h k (omega arith)))
      (λ id r h k. ap some (arm 17 11 14 id r 3 h k (omega arith)))
      (λ id r h k. ap some (arm 15 12 30 id r 4 h k (omega arith)))
      (λ id r h k. ap some (arm 13 13 62 id r 5 h k (omega arith)))
      (λ id r h k. ap some (arm 10 15 126 id r 6 h k (omega arith)))
      (λ id r h k. ap some (arm 7 17 254 id r 7 h k (omega arith)))
  where
    arm :
        (k m x id r t : ℕ)
        → id < pow2 m
        → r < pow2 k
        → id < pow2 21
        → bit_or (bit_and ((x * pow2 m + id) * pow2 k + r) (block k m) / pow2 k) (t * pow2 21)
          ≡ t * pow2 21 + id
    arm k m x id r t h k' l =
        ap (λ y. bit_or y (t * pow2 21)) (bit_and-field k m x id r k' h)
        ∙ bit_or-disjoint_flip 21 t id l

leading_ones-address :
    (t : ℕ)
    → t < 8
    → (id r : ℕ) → id < pow2 (id_bits t)
    → r < pow2 (addr_bits t)
    → leading_ones 32 (to_u32 (address t id r)) ≡ t
leading_ones-address =
    by_type _ (λ id r h k. starts 0 31 (id * 2 ^ 25 + r) (omega arith) (omega arith) refl)
      (λ id r h k. starts 1 30 (id * 2 ^ 24 + r) (omega arith) (omega arith) refl)
      (λ id r h k. starts 2 29 (id * 2 ^ 20 + r) (omega arith) (omega arith) refl)
      (λ id r h k. starts 3 28 (id * 2 ^ 17 + r) (omega arith) (omega arith) refl)
      (λ id r h k. starts 4 27 (id * 2 ^ 15 + r) (omega arith) (omega arith) refl)
      (λ id r h k. starts 5 26 (id * 2 ^ 13 + r) (omega arith) (omega arith) refl)
      (λ id r h k. starts 6 25 (id * 2 ^ 10 + r) (omega arith) (omega arith) refl)
      (λ id r h k. starts 7 24 (id * 2 ^ 7 + r) (omega arith) (omega arith) refl)
  where
    starts :
        (t j y : ℕ) {a : ℕ}
        → a ≡ ones t * (2 * pow2 j) + y
        → y < pow2 j
        → 32 ≡ t + suc j
        → leading_ones 32 a ≡ t
    starts t j y e h n = ap (leading_ones 32) e ∙ leading_ones-prefix 32 t j y n h

address-small :
    (t : ℕ)
    → t < 8
    → (id r : ℕ) → id < pow2 (id_bits t)
    → r < pow2 (addr_bits t)
    → to_u32 (address t id r) ≡ address t id r
address-small =
    by_type _ (λ id r h k. omega arith) (λ id r h k. omega arith) (λ id r h k. omega arith)
      (λ id r h k. omega arith) (λ id r h k. omega arith) (λ id r h k. omega arith)
      (λ id r h k. omega arith) (λ id r h k. omega arith)

-- The net id of an address is that of the network that it is laid out for.
pub to_net_id-address :
    (t id r : ℕ)
    → t < 8
    → id < pow2 (id_bits t)
    → r < pow2 (addr_bits t)
    → to_net_id (address t id r) ≡ ok (net_id_of t id)
unfolding to_net_id
to_net_id-address t id r l h k =
    rw (leading_ones-address t l id r h k, address-small t l id r h k, arms t l id r h k)
