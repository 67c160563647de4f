-- ===== src/MobilePacketVerifier/Burner/Entries.antt =====
-- mobile_packet_verifier/src/burner.rs: the entries of the payers, by the sessions in the table.
use oracles.Prelude.{
  contains, lookup, Keyed, filter, ==_iff, ◌⊎◌, ap, ℕ, ◌≡◌, refl, sym, ◌∙◌, arith, Bool, true,
  false, not, ◌&&◌, List, [], ◌∷◌, ◌++◌, map, none, some, Dict, ◌==◌, if◌then◌else◌, Bool-cases,
  inl, inr,
}
use oracles.PacketVerifier.Balances.{u64}
use oracles.MobilePacketVerifier.Accumulate.{DataTransferSession}
use oracles.MobilePacketVerifier.Burner.{
  PayerTotals, ValidDataTransferSession, valid_session, without_payer,
}
use oracles.MobilePacketVerifier.Burner.Totals.{of_payer, cost, IsTotal}
use oracles.MobilePacketVerifier.Burner.Loop.{payers, chosen, without_all, all_written, all_paid}

abbrev pub NoRepeat : List ℕ → Type 0
NoRepeat [] = Unit {0}
NoRepeat (p ∷ ps) = (contains ps p ≡ false) × NoRepeat ps

-- What is written for payers, whose sessions stand among `ss`.
abbrev pub written_for : List ℕ → List DataTransferSession → List ValidDataTransferSession
written_for [] ss = []
written_for (p ∷ ps) ss = map valid_session (of_payer p ss) ++ written_for ps ss

none-payers : (k : ℕ) (d : Dict PayerTotals) → lookup k d ≡ none → contains (payers d) k ≡ false
unfolding lookup
none-payers k [] h = refl
none-payers k (e ∷ es) h = ground (arith, none-payers k es)

chosen-none :
    (k : ℕ) (bs : List Bool) (es : Dict PayerTotals)
    → lookup k es ≡ none
    → lookup k (chosen bs es) ≡ none
unfolding lookup
chosen-none k [] es h = refl
chosen-none k (b ∷ bs) [] h = refl
chosen-none k (true ∷ bs) (e ∷ es) h = ground (arith, chosen-none k bs es)
chosen-none k (false ∷ bs) (e ∷ es) h = chosen-none k bs es (ground arith)

pub chosen-Keyed : (bs : List Bool) (es : Dict PayerTotals) → Keyed es → Keyed (chosen bs es)
unfolding lookup
chosen-Keyed [] es h = tt
chosen-Keyed (b ∷ bs) [] h = tt
chosen-Keyed (true ∷ bs) (e ∷ es) h = (chosen-none e.0 bs es h.0, chosen-Keyed bs es h.1)
chosen-Keyed (false ∷ bs) (e ∷ es) h = chosen-Keyed bs es h.1

pub Keyed-NoRepeat : (d : Dict PayerTotals) → Keyed d → NoRepeat (payers d)
Keyed-NoRepeat [] h = tt
Keyed-NoRepeat (e ∷ es) h = (none-payers e.0 es h.0, Keyed-NoRepeat es h.1)

filter-and :
    {A : Type 0} (p q r : A → Bool) (xs : List A)
    → ((x : A) → r x ≡ (q x && p x))
    → filter p (filter q xs) ≡ filter r xs
filter-and p q r [] h = refl
filter-and p q r (x ∷ xs) h = let k = h x in ground (arith, filter-and p q r xs h)

pub without_all-filter :
    (d : Dict PayerTotals) (ss : List DataTransferSession)
    → without_all d ss ≡ filter (λ s. not (contains (payers d) s.payer)) ss
without_all-filter [] ss = sym (all ss)
  where
    all : (ss : List DataTransferSession) → filter (λ s. true) ss ≡ ss
    all [] = refl
    all (s ∷ ss) = ap (λ l. s ∷ l) (all ss)
without_all-filter (e ∷ es) ss =
    without_all-filter es (without_payer e.0 ss)
    ∙ filter-and (λ s. not (contains (payers es) s.payer)) (λ s. not (s.payer == e.0))
        (λ s. not (contains (payers (e ∷ es)) s.payer)) ss (λ s. ground arith)

-- Each entry is that of its payer's sessions.
abbrev pub AllTotals : List DataTransferSession → Dict PayerTotals → Type 0
AllTotals ss [] = Unit {0}
AllTotals ss (e ∷ es) = IsTotal (of_payer e.0 ss) (some e.1) × AllTotals ss es

pub chosen-AllTotals :
    (ss : List DataTransferSession) (bs : List Bool) (es : Dict PayerTotals)
    → AllTotals ss es
    → AllTotals ss (chosen bs es)
chosen-AllTotals ss [] es h = tt
chosen-AllTotals ss (b ∷ bs) [] h = tt
chosen-AllTotals ss (true ∷ bs) (e ∷ es) h = (h.0, chosen-AllTotals ss bs es h.1)
chosen-AllTotals ss (false ∷ bs) (e ∷ es) h = chosen-AllTotals ss bs es h.1

pub entries-AllTotals :
    (ss : List DataTransferSession) (es : Dict PayerTotals)
    → Keyed es
    → ((k : ℕ) (t : PayerTotals) → lookup k es ≡ some t → IsTotal (of_payer k ss) (some t))
    → AllTotals ss es
unfolding lookup
entries-AllTotals ss [] h k = tt
entries-AllTotals ss (e ∷ es) h k = (
  k e.0 e.1 (ground arith),
  entries-AllTotals ss es h.1 (λ j t x. k j t (behind j t x (Bool-cases (e.0 == j)))),
)
  where
    behind :
        (j : ℕ) (t : PayerTotals)
        → lookup j es ≡ some t
        → ((e.0 == j) ≡ true) ⊎ ((e.0 == j) ≡ false)
        → lookup j (e ∷ es) ≡ some t
    behind j t x (inl q) = absurd (cc (h.0, (==_iff e.0 j).0 q, x))
    behind j t x (inr q) = rw q x

pub all_written-for :
    (ss : List DataTransferSession) (d : Dict PayerTotals)
    → AllTotals ss d
    → all_written d ≡ written_for (payers d) ss
all_written-for ss [] h = refl
all_written-for ss (e ∷ es) h =
    ap (λ l. map valid_session l ++ all_written es) h.0.sessions
    ∙ ap (λ l. map valid_session (of_payer e.0 ss) ++ l) (all_written-for ss es h.1)

all_paid-none : (q : ℕ) (d : Dict PayerTotals) → lookup q d ≡ none → all_paid q d ≡ 0
unfolding lookup
all_paid-none q [] h = refl
all_paid-none q (e ∷ es) h = ground (arith, all_paid-none q es)

pub all_paid-cost :
    (ss : List DataTransferSession) (q : ℕ) (d : Dict PayerTotals)
    → Keyed d
    → AllTotals ss d
    → all_paid q d ≡ (if contains (payers d) q then u64 (cost (of_payer q ss)) else 0)
all_paid-cost ss q [] h a = refl
all_paid-cost ss q (e ∷ es) h a = elim (Bool-cases (e.0 == q)) [
  | inl x ↦
      let y = (==_iff e.0 q).0 x in
      let z = all_paid-none q es (ap (λ k. lookup k es) (sym y) ∙ h.0) in
      let c = a.0.total_dcs ∙ ap (λ k. u64 (cost (of_payer k ss))) y in rw (x, z, c) (omega arith)
  | inr x ↦ rw (x, all_paid-cost ss q es h.1 a.1) (omega arith)
]
