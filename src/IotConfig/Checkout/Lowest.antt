-- ===== src/IotConfig/Checkout/Lowest.antt =====
-- iot_config/src/helium_netids.rs: which addresses a checkout claims.
use mathlib.Core.List.{append_assoc, append-nil}
use mathlib.Core.Bool.{false, not}
use oracles.Prelude.{
  ℕ, zero, suc, ◌+◌, ◌-◌, ◌^◌, ◌≤◌, ◌<◌, ◌≡◌, refl, sym, ap, ◌∙◌, arith, leb, leb→le, Bool-cases,
  inl, inr, Option, some, none, List, [], ◌∷◌, ◌++◌, if◌then◌else◌, length, length-take, take,
  range, inclusive, contains, filter, filter-++, filter-all, get_elem?-range, range-++,
  length-range, take-range, take-all, take-short, take-long, length-append,
}
use oracles.IotConfig.Fields.{to_u32}
use oracles.IotConfig.Checkout.{last_or, available_diff, fill, choose_addrs}

-- In ascending order, and none below the first number.
abbrev pub Ascending : ℕ → List ℕ → Type 0
Ascending lo [] = Unit {0}
Ascending lo (x ∷ xs) = (lo ≤ x) × Ascending x xs

-- The addresses of a range that are not used, in ascending order.
abbrev pub free : ℕ → ℕ → List ℕ → List ℕ
free start end used = filter (λ a. not (contains used a)) (inclusive start end)

last_or-le : (lo : ℕ) (used : List ℕ) → Ascending lo used → lo ≤ last_or lo used
last_or-le lo [] h = omega arith
last_or-le lo (x ∷ xs) h = omega (arith, h.0, last_or-le x xs h.1)

not_used_above :
    (lo : ℕ) (used : List ℕ)
    → Ascending lo used
    → (a : ℕ) → last_or lo used < a
    → contains used a ≡ false
not_used_above lo [] h a l = refl
not_used_above lo (x ∷ xs) h a l = ground (arith, not_used_above x xs h.1 a l, last_or-le x xs h.1)

fill_lem :
    (n end next : ℕ) (claimed : List ℕ)
    → fill n end next claimed
      ≡ (if leb n (end + 1 - next) then some (claimed ++ range next n) else none)
unfolding fill
fill_lem zero end next claimed = ground (arith, append-nil claimed)
fill_lem (suc n) end next claimed = ground (
  arith,
  fill_lem n end (next + 1) (claimed ++ (next ∷ [])),
  append_assoc claimed (next ∷ []) (range (next + 1) n),
)

free_split :
    (start end : ℕ) (used : List ℕ)
    → Ascending start used
    → last_or start used ≤ end
    → free start end used
      ≡ available_diff start used ++ range (last_or start used + 1) (end - last_or start used)
unfolding available_diff
free_split start end used h l =
    let last = last_or start used in
    let le = last_or-le start used h in
    ap (filter (λ a. not (contains used a)))
      (range-++ start (last + 1 - start) (end - last) (end + 1 - start) (omega arith))
    ∙ filter-++ (λ a. not (contains used a)) (inclusive start last) _
    ∙ ap (λ r. available_diff start used ++ r)
        (ap (λ s. filter (λ a. not (contains used a)) (range s (end - last)))
            {x = start + (last + 1 - start)} {y = last + 1} (omega arith)
          ∙ filter-all (λ a. not (contains used a)) (range (last + 1) (end - last))
              (λ i a e. ap not (
                not_used_above start used h a
                  (omega (arith, get_elem?-range (last + 1) (end - last) i a e)))))

-- The reference: of the free addresses in order, the first `count`, if there are so many.
unfoldable pub lowest : ℕ → List ℕ → Option (List ℕ)
lowest count addrs = if leb count (length addrs) then some (take count addrs) else none

-- Where the range in use has enough free addresses.
within :
    (count next end : ℕ) (avail : List ℕ)
    → count ≤ length avail
    → fill (count - length (take count avail)) end next (take count avail)
      ≡ lowest count (avail ++ range next (end + 1 - next))
unfolding lowest fill
within count next end avail h =
    ap (λ n. fill n end next (take count avail)) {x = count - length (take count avail)} {y = 0}
      (omega (arith, length-take count avail))
    ∙ ground (
      arith,
      take-short count avail (range next (end + 1 - next)) h,
      length-append avail (range next (end + 1 - next)),
      h,
    )

-- Where all of them and the next ones are taken.
take_on :
    (count next k : ℕ) (avail : List ℕ)
    → length avail < count
    → count - length avail ≤ k
    → take count (avail ++ range next k) ≡ avail ++ range next (count - length avail)
take_on count next k avail h l =
    ap (λ n. take n (avail ++ range next k)) {x = count} {y = length avail + (count - length avail)}
      (omega arith)
    ∙ take-long (count - length avail) avail (range next k)
    ∙ ap (λ r. avail ++ r) (take-range next (count - length avail) k l)

beyond :
    (count next end : ℕ) (avail : List ℕ)
    → length avail < count
    → fill (count - length avail) end next avail
      ≡ lowest count (avail ++ range next (end + 1 - next))
unfolding lowest
beyond count next end avail h =
    let n = end + 1 - next in
    let len = length-append avail (range next n) in
    fill_lem (count - length avail) end next avail
    ∙ elim (Bool-cases (leb (count - length avail) n)) [
      | inl b ↦
          ground (arith, b, len, length-range next n, take_on count next n avail h (leb→le _ _ b))
      | inr b ↦ ground (arith, b, len, length-range next n)
    ]

chosen :
    (count next end : ℕ) (avail : List ℕ)
    → fill (count - length (take count avail)) end next (take count avail)
      ≡ lowest count (avail ++ range next (end + 1 - next))
chosen count next end avail = elim (Bool-cases (leb count (length avail))) [
  | inl b ↦ within count next end avail (leb→le _ _ b)
  | inr b ↦
      ap (λ c. fill (count - length c) end next c) (take-all count avail (omega (arith, not_leb b)))
      ∙ beyond count next end avail (not_leb b)
]
  where
    not_leb : {a b : ℕ} → leb a b ≡ false → b < a
    not_leb h = ground arith

-- With the used addresses in ascending order, none of them below the start of the range or above its
-- end, and an end below the largest u32: the addresses that a checkout chooses are the first `count` of
-- the free addresses of the range, the lowest first, and it chooses none exactly where fewer are free.
pub choose_addrs-lowest :
    (count start end : ℕ) (used : List ℕ)
    → Ascending start used
    → last_or start used ≤ end
    → end + 1 < 2 ^ 32
    → choose_addrs count start end used ≡ lowest count (free start end used)
unfolding choose_addrs
choose_addrs-lowest count start end used h l small =
    ap (λ n. fill (count - length (take count a)) end n (take count a))
      (next (last_or start used) l)
    ∙ chosen count (last_or start used + 1) end a
    ∙ ap (λ n. lowest count (a ++ range (last_or start used + 1) n))
        {x = end + 1 - (last_or start used + 1)} {y = end - last_or start used} (omega arith)
    ∙ ap (lowest count) (sym (free_split start end used h l))
  where
    a : List ℕ
    a = available_diff start used

    next : (x : ℕ) → x ≤ end → to_u32 (x + 1) ≡ x + 1
    next x h = omega arith
