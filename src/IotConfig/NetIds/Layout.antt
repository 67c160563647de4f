-- ===== src/IotConfig/NetIds/Layout.antt =====
-- iot_config/src/lora_field.rs: an address as its fields. An address of type t starts with t ones and a
-- zero, then stands the id of the network, then the address within it.
use Prim.Native.Nat.{bit_and, bit_or}
use oracles.Prelude.{
  ℕ, zero, suc, ◌+◌, ◌-◌, ◌*◌, ◌/◌, ◌%◌, ◌^◌, ◌≤◌, ◌<◌, ◌≡◌, refl, ap, ◌∙◌, arith, some, [], ◌∷◌,
  get_elem?, get_or,
}
use oracles.Prelude.Bits.{
  pow2, ones, block, pow2_pos, leading_ones, bit_or-disjoint, bit_or-disjoint_flip,
  leading_ones-prefix, bit_and-field,
}
use oracles.Prelude.Results.{ok}
use oracles.IotConfig.Fields.{DevAddrConstraint, to_u32, shl, shr, devaddr}
use oracles.IotConfig.NetIds.{
  net_id_type, nwk_id, devaddr_type_bits, nwk_id_bits, max_nwk_addr_bit, net_id_arms, full_range,
  to_net_id, range_start, range_end,
}
pub mod Arms

-- The bits of a network's id and of an address within the network, by type.
abbrev pub id_bits : ℕ → ℕ
id_bits t = get_or (6 ∷ 6 ∷ 9 ∷ 11 ∷ 12 ∷ 13 ∷ 15 ∷ 17 ∷ []) t 0

abbrev pub addr_bits : ℕ → ℕ
addr_bits t = get_or (25 ∷ 24 ∷ 20 ∷ 17 ∷ 15 ∷ 13 ∷ 10 ∷ 7 ∷ []) t 0

-- The number of ids of a type; of type 7 the half that `nwk_id` keeps apart.
abbrev pub ids : ℕ → ℕ
ids t = get_or (64 ∷ 64 ∷ 512 ∷ 2048 ∷ 4096 ∷ 8192 ∷ 32768 ∷ 65536 ∷ []) t 0

abbrev pub net_id_of : ℕ → ℕ → ℕ
net_id_of t id = t * 2 ^ 21 + id

-- The prefix and the id of the network, and the whole address.
abbrev pub head_of : ℕ → ℕ → ℕ
head_of t id = (ones t * 2) * pow2 (id_bits t) + id

abbrev pub address : ℕ → ℕ → ℕ → ℕ
address t id r = head_of t id * pow2 (addr_bits t) + r

abbrev pub block_of : ℕ → ℕ → DevAddrConstraint
block_of t id = record {
  start_addr = address t id 0;
  end_addr = address t id (pow2 (addr_bits t) - 1);
}

-- An id that exists is of one of the eight types.
pub by_type :
    (P : ℕ → Type 0) → P 0 → P 1 → P 2 → P 3 → P 4 → P 5 → P 6 → P 7 → (t : ℕ) → t < 8 → P t
by_type P a b c d e f g h zero l = a
by_type P a b c d e f g h (suc zero) l = b
by_type P a b c d e f g h (suc (suc zero)) l = c
by_type P a b c d e f g h (suc (suc (suc zero))) l = d
by_type P a b c d e f g h (suc (suc (suc (suc zero)))) l = e
by_type P a b c d e f g h (suc (suc (suc (suc (suc zero))))) l = f
by_type P a b c d e f g h (suc (suc (suc (suc (suc (suc zero)))))) l = g
by_type P a b c d e f g h (suc (suc (suc (suc (suc (suc (suc zero))))))) l = h
by_type P a b c d e f g h (suc (suc (suc (suc (suc (suc (suc (suc t)))))))) l = absurd (omega arith)

pub ids-lt : (t id : ℕ) → id < ids t → t < 8
ids-lt zero id l = omega arith
ids-lt (suc zero) id l = omega arith
ids-lt (suc (suc zero)) id l = omega arith
ids-lt (suc (suc (suc zero))) id l = omega arith
ids-lt (suc (suc (suc (suc zero)))) id l = omega arith
ids-lt (suc (suc (suc (suc (suc zero))))) id l = omega arith
ids-lt (suc (suc (suc (suc (suc (suc zero)))))) id l = omega arith
ids-lt (suc (suc (suc (suc (suc (suc (suc zero))))))) id l = omega arith
ids-lt (suc (suc (suc (suc (suc (suc (suc (suc t)))))))) id l = absurd (omega arith)

-- `nwk_id`, with the type of the net id given.
abbrev nwk_id_of : ℕ → ℕ → ℕ
nwk_id_of t n = shr (shl (to_u32 n) (t + 1 + 8)) (t + 1 + 8)

left_bits : (t : ℕ) → t < 8 → devaddr_type_bits t ≡ ok ((ones t * 2) * pow2 (31 - t))
unfolding devaddr_type_bits
left_bits = by_type _ refl refl refl refl refl refl refl refl

middle_bits :
    (t : ℕ)
    → t < 8
    → (id : ℕ) → id < ids t
    → nwk_id_bits t (nwk_id_of t (net_id_of t id)) ≡ ok (id * pow2 (addr_bits t))
unfolding nwk_id_bits
middle_bits =
    by_type _ (λ id h. ap ok (omega arith)) (λ id h. ap ok (omega arith))
      (λ id h. ap ok (omega arith)) (λ id h. ap ok (omega arith)) (λ id h. ap ok (omega arith))
      (λ id h. ap ok (omega arith)) (λ id h. ap ok (omega arith)) (λ id h. ap ok (omega arith))

right_bits : (t : ℕ) → t < 8 → max_nwk_addr_bit t ≡ ok (pow2 (addr_bits t) - 1)
unfolding max_nwk_addr_bit
right_bits = by_type _ refl refl refl refl refl refl refl refl

-- The left part and the id, and then the right part, share no bit.
left_middle :
    (t : ℕ)
    → t < 8
    → (id : ℕ) → id < ids t
    → bit_or ((ones t * 2) * pow2 (31 - t)) (id * pow2 (addr_bits t)) ≡ address t id 0
left_middle =
    by_type _ (λ id h. bit_or-disjoint 31 0 (id * 2 ^ 25) (omega arith) ∙ omega arith)
      (λ id h. bit_or-disjoint 30 2 (id * 2 ^ 24) (omega arith) ∙ omega arith)
      (λ id h. bit_or-disjoint 29 6 (id * 2 ^ 20) (omega arith) ∙ omega arith)
      (λ id h. bit_or-disjoint 28 14 (id * 2 ^ 17) (omega arith) ∙ omega arith)
      (λ id h. bit_or-disjoint 27 30 (id * 2 ^ 15) (omega arith) ∙ omega arith)
      (λ id h. bit_or-disjoint 26 62 (id * 2 ^ 13) (omega arith) ∙ omega arith)
      (λ id h. bit_or-disjoint 25 126 (id * 2 ^ 10) (omega arith) ∙ omega arith)
      (λ id h. bit_or-disjoint 24 254 (id * 2 ^ 7) (omega arith) ∙ omega arith)

and_right :
    (t id : ℕ)
    → bit_or (address t id 0) (pow2 (addr_bits t) - 1) ≡ address t id (pow2 (addr_bits t) - 1)
and_right t id =
    ap (λ x. bit_or x (pow2 (addr_bits t) - 1)) (plus_zero (head_of t id * pow2 (addr_bits t)))
    ∙ bit_or-disjoint (addr_bits t) (head_of t id) (pow2 (addr_bits t) - 1) (below (addr_bits t))
  where
    plus_zero : (x : ℕ) → x + 0 ≡ x
    plus_zero x = omega arith

    below : (k : ℕ) → pow2 k - 1 < pow2 k
    below k = omega (arith, pow2_pos k)

pub net_id_type_lem : (t id : ℕ) → t < 8 → id < 2 ^ 21 → net_id_type (net_id_of t id) ≡ t
unfolding net_id_type
net_id_type_lem t id ht hid = omega arith

ids-small : (t id : ℕ) → id < ids t → id < 2 ^ 21
ids-small t id h =
    by_type (λ t. id < ids t → id < 2 ^ 21) (λ h. omega arith) (λ h. omega arith) (λ h. omega arith)
      (λ h. omega arith) (λ h. omega arith) (λ h. omega arith) (λ h. omega arith) (λ h. omega arith)
      t (ids-lt t id h) h

pub full_range_lem : (t id : ℕ) → id < ids t → full_range (net_id_of t id) ≡ ok (block_of t id)
unfolding full_range range_start range_end nwk_id devaddr
full_range_lem t id h = rw (
  net_id_type_lem t id (ids-lt t id h) (ids-small t id h),
  left_bits t (ids-lt t id h),
  middle_bits t (ids-lt t id h) id h,
  right_bits t (ids-lt t id h),
  left_middle t (ids-lt t id h) id h,
  and_right t id,
)
