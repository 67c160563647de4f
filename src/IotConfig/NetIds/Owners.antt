-- ===== src/IotConfig/NetIds/Owners.antt =====
-- iot_config/src/lora_field.rs: which addresses have a net id, and that they lie in its range.
use oracles.Prelude.{
  ℕ, zero, suc, ◌+◌, ◌-◌, ◌/◌, ◌%◌, ◌^◌, ◌≤◌, ◌<◌, ◌≡◌, refl, sym, ap, subst, ◌∙◌, arith, ltb,
  ltb→lt, Bool-cases, false, ◌⊎◌, inl, inr,
}
use oracles.Prelude.Bits.{pow2, leading_ones, leading_ones_step}
use oracles.Prelude.Results.{Result, ok, err}
use oracles.IotConfig.Fields.{DevAddrField, DevAddrConstraint, to_u32}
use oracles.IotConfig.NetIds.{
  NetIdField, InvalidNetId, net_id_arms, full_range, to_net_id, invalid_net_id,
}
use oracles.IotConfig.NetIds.Layout.{
  by_type, address, id_bits, addr_bits, ids, net_id_of, block_of, full_range_lem,
}
use oracles.IotConfig.NetIds.Layout.Arms.{to_net_id-address}

-- The fields of an address.
record Fields (a : ℕ) : Type 0 where
  kind : ℕ
  id : ℕ
  rest : ℕ
  kind-lt : kind < 8
  id-lt : id < pow2 (id_bits kind)
  rest-lt : rest < pow2 (addr_bits kind)
  split : a ≡ address kind id rest

cut : (a t m k : ℕ) → ℕ × ℕ
cut a t m k = (a / pow2 k % pow2 m, a % pow2 k)

-- An address that starts with t ones and a zero.
cut_at :
    (t : ℕ) → t < 8 → (a : ℕ) → pow2 32 - pow2 (32 - t) ≤ a → a < pow2 32 - pow2 (31 - t) → Fields a
cut_at =
    by_type _
      (λ a l u. record {
        kind = 0;
        id = a / 2 ^ 25 % 2 ^ 6;
        rest = a % 2 ^ 25;
        kind-lt = omega arith;
        id-lt = omega arith;
        rest-lt = omega arith;
        split = omega arith;
      })
      (λ a l u. record {
        kind = 1;
        id = a / 2 ^ 24 % 2 ^ 6;
        rest = a % 2 ^ 24;
        kind-lt = omega arith;
        id-lt = omega arith;
        rest-lt = omega arith;
        split = omega arith;
      })
      (λ a l u. record {
        kind = 2;
        id = a / 2 ^ 20 % 2 ^ 9;
        rest = a % 2 ^ 20;
        kind-lt = omega arith;
        id-lt = omega arith;
        rest-lt = omega arith;
        split = omega arith;
      })
      (λ a l u. record {
        kind = 3;
        id = a / 2 ^ 17 % 2 ^ 11;
        rest = a % 2 ^ 17;
        kind-lt = omega arith;
        id-lt = omega arith;
        rest-lt = omega arith;
        split = omega arith;
      })
      (λ a l u. record {
        kind = 4;
        id = a / 2 ^ 15 % 2 ^ 12;
        rest = a % 2 ^ 15;
        kind-lt = omega arith;
        id-lt = omega arith;
        rest-lt = omega arith;
        split = omega arith;
      })
      (λ a l u. record {
        kind = 5;
        id = a / 2 ^ 13 % 2 ^ 13;
        rest = a % 2 ^ 13;
        kind-lt = omega arith;
        id-lt = omega arith;
        rest-lt = omega arith;
        split = omega arith;
      })
      (λ a l u. record {
        kind = 6;
        id = a / 2 ^ 10 % 2 ^ 15;
        rest = a % 2 ^ 10;
        kind-lt = omega arith;
        id-lt = omega arith;
        rest-lt = omega arith;
        split = omega arith;
      })
      (λ a l u. record {
        kind = 7;
        id = a / 2 ^ 7 % 2 ^ 17;
        rest = a % 2 ^ 7;
        kind-lt = omega arith;
        id-lt = omega arith;
        rest-lt = omega arith;
        split = omega arith;
      })

not_below : (a b : ℕ) → ltb a b ≡ false → b ≤ a
not_below a b h = ground arith

-- Below 0xff00_0000 an address starts with at most seven ones: s of them were seen, and at most n more
-- stand before the zero.
seek : (n s a : ℕ) → s + n ≡ 7 → pow2 32 - pow2 (32 - s) ≤ a → a < 0xff00_0000 → Fields a
seek zero s a e l h =
    cut_at s (omega arith) a l
      (omega (arith, ap (λ k. pow2 (31 - k)) {x = s} {y = 7} (omega arith)))
seek (suc n) s a e l h = elim (Bool-cases (ltb a (pow2 32 - pow2 (31 - s)))) [
  | inl b ↦ cut_at s (omega arith) a l (ltb→lt _ _ b)
  | inr b ↦
      seek n (suc s) a (omega arith)
        (omega (arith, not_below a _ b, ap pow2 {x = 32 - suc s} {y = 31 - s} (omega arith))) h
]

fields : (a : ℕ) → a < 0xff00_0000 → Fields a
fields a h = seek 7 0 a refl (omega arith) h

-- The net id n of the address a: its type and its id, which with an address within the network make up a,
-- and a range with a in it, unless the type is 7 and the id has its highest bit set.
pub record Owned (a : DevAddrField) (n : NetIdField) : Type 0 where
  pub kind : ℕ
  pub id : ℕ
  pub rest : ℕ
  pub kind-lt : kind < 8
  pub id-lt : id < pow2 (id_bits kind)
  pub rest-lt : rest < pow2 (addr_bits kind)
  pub split : a ≡ address kind id rest
  pub parts : n ≡ net_id_of kind id
  pub range :
      ((c : DevAddrConstraint) × (full_range n ≡ ok c) × (c.start_addr ≤ a) × (a ≤ c.end_addr))
      ⊎ ((kind ≡ 7) × (2 ^ 16 ≤ id))

unfoldable pub Owner : DevAddrField → Result InvalidNetId NetIdField → Type 0
Owner a (ok n) = Owned a n
Owner a (err e) =
    (e ≡ invalid_net_id (leading_ones 32 a)) × (8 ≤ leading_ones 32 a) × (0xff00_0000 ≤ a)

few : (t : ℕ) → t < 8 → (id : ℕ) → id < pow2 (id_bits t) → (id < ids t) ⊎ ((t ≡ 7) × (2 ^ 16 ≤ id))
few =
    by_type _ (λ id h. inl h) (λ id h. inl h) (λ id h. inl h) (λ id h. inl h) (λ id h. inl h)
      (λ id h. inl h) (λ id h. inl h)
      (λ id h. elim (Bool-cases (ltb id (2 ^ 16))) [
        | inl b ↦ inl (ltb→lt _ _ b)
        | inr b ↦ inr (refl, not_below _ _ b)
      ])

owned : (a : ℕ) (f : Fields a) → Owned a (net_id_of f.kind f.id)
owned a f = record {
  kind = f.kind;
  id = f.id;
  rest = f.rest;
  kind-lt = f.kind-lt;
  id-lt = f.id-lt;
  rest-lt = f.rest-lt;
  split = f.split;
  parts = refl;
  range = elim (few f.kind f.kind-lt f.id f.id-lt) [
    | inl h ↦ inl (
      block_of f.kind f.id,
      full_range_lem f.kind f.id h,
      omega (arith, f.split),
      omega (arith, f.split, f.rest-lt),
    )
    | inr h ↦ inr h
  ];
}

unfoldable pub eight_more : ℕ → ℕ
eight_more n = suc (suc (suc (suc (suc (suc (suc (suc n)))))))

all_ones :
    (a : ℕ)
    → 0xff00_0000 ≤ a
    → a < 2 ^ 32
    → leading_ones 32 a ≡ eight_more (leading_ones 24 (a - 0xff00_0000))
unfolding eight_more
all_ones a l h = leading_ones_step 31 _ (a - 0x80000000) _ (omega arith) (
    leading_ones_step 30 _ (a - 0xc0000000) _ (omega arith) (
      leading_ones_step 29 _ (a - 0xe0000000) _ (omega arith) (
        leading_ones_step 28 _ (a - 0xf0000000) _ (omega arith) (
          leading_ones_step 27 _ (a - 0xf8000000) _ (omega arith) (
            leading_ones_step 26 _ (a - 0xfc000000) _ (omega arith) (
              leading_ones_step 25 _ (a - 0xfe000000) _ (omega arith)
                (leading_ones_step 24 _ (a - 0xff000000) _ (omega arith) refl)))))))

no_owner :
    (a : ℕ)
    → 0xff00_0000 ≤ a
    → a < 2 ^ 32
    → to_net_id a ≡ err (invalid_net_id (eight_more (leading_ones 24 (a - 0xff00_0000))))
unfolding to_net_id net_id_arms eight_more
no_owner a l h = rw (fits, all_ones a l h)
  where
    fits : to_u32 a ≡ a
    fits = omega arith

-- `to_net_id` of every u32 address a, of which nothing else is asked. It fails only where a is at least
-- 0xff000000, with `InvalidNetId` of the number of leading ones, which is eight or more. Where it
-- returns n, n is made of a type below 8 and an id, such that a is made of as many ones, a zero, this id
-- and an address in their widths for the type, and `full_range` of n is a constraint with a in it,
-- unless the type is 7 and the id is at least 2 ^ 16.
pub to_net_id-Owner : (a : ℕ) → a < 2 ^ 32 → Owner a (to_net_id a)
unfolding Owner eight_more
to_net_id-Owner a h = elim (Bool-cases (ltb a 0xff00_0000)) [
  | inl b ↦ below (fields a (ltb→lt _ _ b))
  | inr b ↦ above (not_below _ _ b)
]
  where
    below : Fields a → Owner a (to_net_id a)
    below f =
        subst (Owner a)
          (sym (
            ap to_net_id f.split
            ∙ to_net_id-address f.kind f.id f.rest f.kind-lt f.id-lt f.rest-lt))
          (owned a f)

    above : 0xff00_0000 ≤ a → Owner a (to_net_id a)
    above l =
        let k = all_ones a l h in
        subst (Owner a) (sym (no_owner a l h))
          (ap invalid_net_id (sym k), subst (λ n. 8 ≤ n) (sym k) (omega arith), l)
