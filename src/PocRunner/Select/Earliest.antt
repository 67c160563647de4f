-- ===== src/PocRunner/Select/Earliest.antt =====
-- iot_verifier/src/runner.rs: the selected witnesses are the earliest ones, and no witness is lost.
use mathlib.Core.List.{Perm}
use mathlib.Core.List.Perm
use oracles.Prelude.{
  ℕ, ◌≡◌, refl, sym, ap, subst, ◌∙◌, arith, Bool, true, false, not, inl, inr, List, [], ◌∷◌, ◌++◌,
  filter, length, drop, take-append-drop, length-take, leb, leb→le, Bool-cases,
}
use Prim.Native.Nat.{min}
use mathlib.Core.List.{append-nil}
use oracles.Prelude.Sorted.{BeforeAll, AllBefore, Ordered, take-AllBefore}
use oracles.Poc.Types.{VerifiedWitness, InvalidReason, reason_none, self_witness}
use oracles.PocRunner.Select.{
  filter_witness, is_included, is_valid, filter_witnesses, insert_witness, sort_witnesses,
  sort_and_split_witnesses, select,
}

-- Not received after.
abbrev pub earlier : VerifiedWitness → VerifiedWitness → Bool
earlier a b = leb a.received_timestamp b.received_timestamp

insert_witness-perm :
    (w : VerifiedWitness) (xs : List VerifiedWitness) → Perm (insert_witness w xs) (w ∷ xs)
unfolding insert_witness
insert_witness-perm w [] = Perm.refl (w ∷ [])
insert_witness-perm w (x ∷ xs) = elim (Bool-cases (earlier w x)) [
  | inl e ↦ rw e (Perm.refl (w ∷ x ∷ xs))
  | inr e ↦ rw e (Perm.trans (Perm.cons x (insert_witness-perm w xs)) (Perm.swap w x xs))
]

sort_witnesses-perm : (ws : List VerifiedWitness) → Perm (sort_witnesses ws) ws
unfolding sort_witnesses
sort_witnesses-perm [] = Perm.refl []
sort_witnesses-perm (w ∷ ws) =
    Perm.trans (insert_witness-perm w (sort_witnesses ws)) (Perm.cons w (sort_witnesses-perm ws))

BeforeAll-insert :
    (y w : VerifiedWitness) (xs : List VerifiedWitness)
    → earlier y w ≡ true
    → BeforeAll earlier y xs
    → BeforeAll earlier y (insert_witness w xs)
unfolding insert_witness
BeforeAll-insert y w [] e h = (e, tt)
BeforeAll-insert y w (x ∷ xs) e h = elim (Bool-cases (earlier w x)) [
  | inl q ↦ rw q (e, h)
  | inr q ↦ rw q (h.0, BeforeAll-insert y w xs e h.1)
]

BeforeAll-earlier :
    (w x : VerifiedWitness) (xs : List VerifiedWitness)
    → earlier w x ≡ true
    → BeforeAll earlier x xs
    → BeforeAll earlier w xs
BeforeAll-earlier w x [] e h = tt
BeforeAll-earlier w x (y ∷ ys) e h = (ground arith, BeforeAll-earlier w x ys e h.1)

insert_witness-Ordered :
    (w : VerifiedWitness) (xs : List VerifiedWitness)
    → Ordered earlier xs
    → Ordered earlier (insert_witness w xs)
unfolding insert_witness
insert_witness-Ordered w [] h = (tt, tt)
insert_witness-Ordered w (x ∷ xs) h = elim (Bool-cases (earlier w x)) [
  | inl e ↦ rw e ((e, BeforeAll-earlier w x xs e h.0), h)
  | inr e ↦ rw e (BeforeAll-insert x w xs (ground arith) h.0, insert_witness-Ordered w xs h.1)
]

sort_witnesses-Ordered : (ws : List VerifiedWitness) → Ordered earlier (sort_witnesses ws)
unfolding sort_witnesses
sort_witnesses-Ordered [] = tt
sort_witnesses-Ordered (w ∷ ws) =
    insert_witness-Ordered w (sort_witnesses ws) (sort_witnesses-Ordered ws)

filter-split :
    {A : Type 0} (p q : A → Bool) (xs : List A) → ((x : A) → p x ≡ q x) → filter p xs ≡ filter q xs
filter-split p q [] h = refl
filter-split p q (x ∷ xs) h = let ih = filter-split p q xs h in let k = h x in grind arith

-- A report of another reason than that the beaconer is its own witness.
abbrev pub not_self : InvalidReason → Bool
not_self reason = elim reason [ self_witness ↦ false | _ ↦ true ]

filter_witness-not_self :
    (w : VerifiedWitness) (reason : InvalidReason)
    → w.invalid_reason ≡ reason
    → is_included w ≡ not_self reason
unfolding filter_witness
filter_witness-not_self w reason_none e = rw e refl
filter_witness-not_self w reason e = rw e refl

-- What is selected of the witnesses `ws`.
pub record IsSelection (max_count : ℕ) (ws selected unselected : List VerifiedWitness)
    : Type 0 where
  pub late : List VerifiedWitness
  pub valids :
      Perm (selected ++ late) (filter is_valid (filter (λ w. not_self w.invalid_reason) ws))
  pub rest :
      unselected
      ≡ late ++ filter (λ w. not (is_valid w)) (filter (λ w. not_self w.invalid_reason) ws)
  pub count : length selected ≡ min max_count (length (selected ++ late))
  pub earliest : AllBefore earlier selected late

AllBefore-none : (xs : List VerifiedWitness) → AllBefore earlier xs []
AllBefore-none [] = tt
AllBefore-none (x ∷ xs) = (tt, AllBefore-none xs)

split-IsSelection :
    (max_count : ℕ) (ws valids invalids : List VerifiedWitness)
    → valids ≡ filter is_valid (filter (λ w. not_self w.invalid_reason) ws)
    → invalids ≡ filter (λ w. not (is_valid w)) (filter (λ w. not_self w.invalid_reason) ws)
    → IsSelection max_count ws
        (sort_and_split_witnesses valids max_count).0
        ((sort_and_split_witnesses valids max_count).1 ++ invalids)
unfolding sort_and_split_witnesses
split-IsSelection max_count ws valids invalids e f =
    elim (Bool-cases (leb (length valids) max_count)) [
      | inl h ↦ rw h (record {
        late = [];
        valids = subst (Perm (valids ++ [])) (append-nil valids ∙ e) (Perm.refl (valids ++ []));
        rest = f;
        count = omega (arith, ap length (append-nil valids), leb→le _ _ h);
        earliest = AllBefore-none valids;
      })
      | inr h ↦
          let sorted = sort_witnesses valids in
          rw h (record {
            late = drop max_count sorted;
            valids =
                subst (λ l. Perm l (filter is_valid (filter (λ w. not_self w.invalid_reason) ws)))
                  (sym (take-append-drop max_count sorted))
                  (subst (Perm sorted) e (sort_witnesses-perm valids));
            rest = ap (λ l. drop max_count sorted ++ l) f;
            count =
                length-take max_count sorted
                ∙ ap (λ (l : List VerifiedWitness). min max_count (length l))
                    (sym (take-append-drop max_count sorted));
            earliest = take-AllBefore earlier max_count sorted (sort_witnesses-Ordered valids);
          })
    ]

-- For any verified witnesses and any maximum: the selected witnesses are valid ones that are no
-- self-witnesses, as many as there are or the maximum, if this is less, and none of them was received
-- after a valid one that is not selected. The unselected witnesses are these and the invalid ones
-- that are no self-witnesses: no other is lost.
pub select-IsSelection :
    (max_count : ℕ) (ws : List VerifiedWitness)
    → IsSelection max_count ws (select ws max_count).0 (select ws max_count).1
unfolding select filter_witnesses
select-IsSelection max_count ws =
    let e =
      filter-split is_included (λ w. not_self w.invalid_reason) ws
        (λ w. filter_witness-not_self w w.invalid_reason refl) in
    split-IsSelection max_count ws (filter is_valid (filter is_included ws))
      (filter (λ w. not (is_valid w)) (filter is_included ws)) (ap (filter is_valid) e)
      (ap (filter (λ w. not (is_valid w))) e)
