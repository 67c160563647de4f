-- ===== src/MobilePacketVerifier/Burner/Totals.antt =====
-- mobile_packet_verifier/src/burner.rs: the sessions grouped by their payers.
use mathlib.Core.List.{append-nil, append_assoc}
use oracles.Prelude.{
  ℕ, ◌+◌, ◌≡◌, refl, sym, ap, ◌∙◌, arith, true, false, List, [], ◌∷◌, ◌++◌, Option, some, Dict,
  lookup, lookup-insert, insert, insert-Keyed, Keyed, filter, ◌==◌, ==_iff, Bool-cases, inl, inr,
  ◌⊎◌, subst, filter-++, if◌then◌else◌,
}
use oracles.PacketVerifier.Balances.{u64}
use oracles.MobilePacketVerifier.Accumulate.{DataTransferSession}
use oracles.MobilePacketVerifier.Burner.{
  session_dcs, PayerTotals, totals_or_default, push_sess, group_by_payer,
}

-- The sessions of a payer, and what they cost.
abbrev pub of_payer : ℕ → List DataTransferSession → List DataTransferSession
of_payer payer = filter (λ s. s.payer == payer)

abbrev pub cost : List DataTransferSession → ℕ
cost [] = 0
cost (s ∷ ss) = session_dcs s + cost ss

pub cost-++ : (xs ys : List DataTransferSession) → cost (xs ++ ys) ≡ cost xs + cost ys
cost-++ [] ys = omega arith
cost-++ (s ∷ ss) ys = omega (arith, cost-++ ss ys)

-- A payer's entry is that of the sessions `ss`.
pub record IsTotal (ss : List DataTransferSession) (o : Option PayerTotals) : Type 0 where
  pub sessions : (totals_or_default o).sessions ≡ ss
  pub total_dcs : (totals_or_default o).total_dcs ≡ u64 (cost ss)

IsTotal-push :
    (s : DataTransferSession) (ss : List DataTransferSession) (o : Option PayerTotals)
    → IsTotal ss o
    → IsTotal (ss ++ (s ∷ [])) (some (push_sess s (totals_or_default o)))
unfolding push_sess
IsTotal-push s ss o h = record {
  sessions = ap (λ l. l ++ (s ∷ [])) h.sessions;
  total_dcs = ap (λ n. u64 (n + session_dcs s)) h.total_dcs ∙ omega (arith, cost-++ ss (s ∷ []));
}

other_payer :
    (p : ℕ) (s : DataTransferSession) (ss : List DataTransferSession)
    → of_payer p (ss ++ (s ∷ []))
      ≡ (if s.payer == p then of_payer p ss ++ (s ∷ []) else of_payer p ss)
other_payer p s ss = filter-++ (λ x. x.payer == p) ss (s ∷ []) ∙ last (Bool-cases (s.payer == p))
  where
    last :
        ((s.payer == p) ≡ true) ⊎ ((s.payer == p) ≡ false)
        → of_payer p ss ++ of_payer p (s ∷ [])
          ≡ (if s.payer == p then of_payer p ss ++ (s ∷ []) else of_payer p ss)
    last (inl e) = rw e refl
    last (inr e) = rw e (append-nil _)

-- The entries of all payers.
abbrev pub AreTotals : List DataTransferSession → Dict PayerTotals → Type 0
AreTotals ss d = (p : ℕ) → IsTotal (of_payer p ss) (lookup p d)

insert-AreTotals :
    (s : DataTransferSession) (ss : List DataTransferSession) (d : Dict PayerTotals)
    → AreTotals ss d
    → AreTotals
        (ss ++ (s ∷ []))
        (insert s.payer (push_sess s (totals_or_default (lookup s.payer d))) d)
insert-AreTotals s ss d h p =
    let entry = push_sess s (totals_or_default (lookup s.payer d)) in
    rw (lookup-insert s.payer p entry d, other_payer p s ss)
      (elim (Bool-cases (s.payer == p)) [
        | inl e ↦
            rw (e, sym ((==_iff s.payer p).0 e))
              (IsTotal-push s (of_payer s.payer ss) _ (h s.payer))
        | inr e ↦ rw e (h p)
      ])

group_by_payer-from :
    (done todo : List DataTransferSession) (d : Dict PayerTotals)
    → AreTotals done d
    → AreTotals (done ++ todo) (group_by_payer todo d)
unfolding group_by_payer
group_by_payer-from done [] d h = subst (λ l. AreTotals l d) (sym (append-nil done)) h
group_by_payer-from done (s ∷ ss) d h =
    subst (λ l. AreTotals l (group_by_payer (s ∷ ss) d)) (append_assoc done (s ∷ []) ss)
      (group_by_payer-from (done ++ (s ∷ [])) ss _ (insert-AreTotals s done d h))

-- Each payer's entry has its sessions, in their order, and the sum of what they cost, as a u64.
pub group_by_payer-AreTotals : (ss : List DataTransferSession) → AreTotals ss (group_by_payer ss [])
unfolding lookup
group_by_payer-AreTotals ss =
    group_by_payer-from [] ss [] (λ p. record { sessions = refl; total_dcs = refl })

pub group_by_payer-Keyed :
    (ss : List DataTransferSession) (d : Dict PayerTotals) → Keyed d → Keyed (group_by_payer ss d)
unfolding group_by_payer
group_by_payer-Keyed [] d h = h
group_by_payer-Keyed (s ∷ ss) d h = group_by_payer-Keyed ss _ (insert-Keyed s.payer _ d h)
