-- ===== src/MobilePacketVerifier/Accumulate/Table.antt =====
-- mobile_packet_verifier/src/accumulate.rs: what the upsert does to the row of each key.
use oracles.Prelude.{
  ℕ, ◌≡◌, refl, sym, ap, ◌∙◌, arith, true, false, List, [], ◌∷◌, Option, none, some, if◌then◌else◌,
  Bool-cases, Option-cases, inl, inr,
}
use oracles.MobilePacketVerifier.Accumulate.{DataTransferSession, merge, has_key, upsert, in_range}

-- The row of a gateway and a payer.
abbrev pub find_session : ℕ → ℕ → List DataTransferSession → Option DataTransferSession
find_session k p [] = none
find_session k p (s ∷ ss) = if has_key k p s then some s else find_session k p ss

abbrev pub merged : Option DataTransferSession → DataTransferSession → DataTransferSession
merged none new = new
merged (some s) new = merge s new

-- The keys and the stored row.
keys_of :
    (k p : ℕ) (new s : DataTransferSession)
    → has_key new.pub_key new.payer s ≡ true
    → has_key k p s ≡ has_key k p new
keys_of k p new s h = ground arith

merge-key : (k p : ℕ) (s new : DataTransferSession) → has_key k p (merge s new) ≡ has_key k p s
unfolding merge
merge-key k p s new = refl

put_in_front :
    (k p : ℕ) (new s : DataTransferSession) (ss : List DataTransferSession)
    → has_key new.pub_key new.payer s ≡ true
    → find_session k p (merge s new ∷ ss) ≡ (
        if has_key k p new
        then some (merged (find_session k p (s ∷ ss)) new)
        else find_session k p (s ∷ ss))
put_in_front k p new s ss h = elim (Bool-cases (has_key k p s)) [
  | inl e ↦ rw (merge-key k p s new, e, sym (keys_of k p new s h), e) refl
  | inr e ↦ rw (merge-key k p s new, e, sym (keys_of k p new s h), e) refl
]

other_key :
    (k p : ℕ) (new s : DataTransferSession)
    → has_key new.pub_key new.payer s ≡ false
    → has_key k p new ≡ true
    → has_key k p s ≡ false
other_key k p new s h e = ground arith

none-ne-some : {A : Type 0} {a : A} → none ≡ some a → ⊥
none-ne-some h = cc

some-inj : {A : Type 0} {a b : A} → some a ≡ some b → a ≡ b
some-inj h = cc

behind :
    (k p : ℕ) (new s : DataTransferSession) (ss r : List DataTransferSession)
    → has_key new.pub_key new.payer s ≡ false
    → find_session k p r
      ≡ (if has_key k p new then some (merged (find_session k p ss) new) else find_session k p ss)
    → find_session k p (s ∷ r) ≡ (
        if has_key k p new
        then some (merged (find_session k p (s ∷ ss)) new)
        else find_session k p (s ∷ ss))
behind k p new s ss r h ih = elim (Bool-cases (has_key k p new)) [
  | inl e ↦ rw (other_key k p new s h e, e) (ih ∙ rw e refl)
  | inr e ↦ rw e (ap (λ o. if has_key k p s then some s else o) (ih ∙ rw e refl))
]

-- An upsert that does not fail merges the new row into that of its key and changes no other.
pub find-upsert :
    (k p : ℕ) (new : DataTransferSession) (ss ss' : List DataTransferSession)
    → upsert new ss ≡ some ss'
    → find_session k p ss'
      ≡ (if has_key k p new then some (merged (find_session k p ss) new) else find_session k p ss)
unfolding upsert
find-upsert k p new [] ss' h = rw (sym (some-inj h)) refl
find-upsert k p new (s ∷ ss) ss' h = elim (Bool-cases (has_key new.pub_key new.payer s)) [
  | inl e ↦ elim (Bool-cases (in_range (merge s new))) [
    | inl f ↦ rw (sym (some-inj (rw (e, f) at h))) (put_in_front k p new s ss e)
    | inr f ↦ absurd (none-ne-some (rw (e, f) at h))
  ]
  | inr e ↦ elim (Option-cases (upsert new ss)) [
    | inl f ↦ absurd (none-ne-some (rw (e, f) at h))
    | inr (r, f) ↦
        rw (sym (some-inj (rw (e, f) at h))) (behind k p new s ss r e (find-upsert k p new ss r f))
  ]
]
