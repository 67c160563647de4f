-- ===== src/MobileVerifier/Coverage/Aggregated.antt =====
-- mobile_verifier/src/coverage.rs: what the aggregation of a stream of hexes leaves at each hex.
use mathlib.Core.List.{append_assoc, append-nil}
use oracles.Prelude.{
  ℕ, ◌-◌, ◌^◌, ◌≡◌, refl, sym, ap, subst, ◌∙◌, arith, Bool-cases, inl, inr, ◌⊎◌, true, false, not,
  ◌&&◌, Option, none, some, List, [], ◌∷◌, ◌++◌, map, ◌==◌, if◌then◌else◌, Dict, lookup, insert,
  lookup-insert, if-split, Outcome, ok, panic, Reply, done,
}
use oracles.MobileVerifier.Coverage.{
  HexCoverage, CoveredHexes, IndoorCoverageLevel, OutdoorCoverageLevel, level_rank, or_default,
  push_at, flat_map, indoor_level, outdoor_level, add_hex, aggregate_coverage, less_300,
  OwnedKeyType, cbrs, wifi, is_wifi,
}
use oracles.Prelude.Int.{ℤ, pos, negsuc, ◌+ℤ◌, ◌-ℤ◌, leb_ℤ}

-- A hex of the stream and its cell.
abbrev pub Item : Type 0
Item = HexCoverage × ℕ

abbrev pub stream : {E : Type 0} → List Item → List (Reply E HexCoverage)
stream items = map (λ i. done i.0) items

-- The heap of the outdoor radios at a cell, and that of the indoor radios at a cell and a level.
abbrev pub outdoor_heap : CoveredHexes → ℕ → List OutdoorCoverageLevel
outdoor_heap hexes cell = or_default (lookup cell hexes.outdoor)

abbrev pub indoor_heap : CoveredHexes → ℕ → ℕ → List IndoorCoverageLevel
indoor_heap hexes cell level = or_default (lookup level (or_default (lookup cell hexes.indoor)))

-- The radio of an outdoor hex: the signal of one on Wi-Fi counts as 300 less, as an i32.
abbrev minus_300 : ℤ → ℤ
minus_300 power =
    if leb_ℤ (negsuc (2 ^ 31 - 1)) (power -ℤ pos 300)
    then power -ℤ pos 300
    else power -ℤ pos 300 +ℤ pos (2 ^ 32)

abbrev pub adjusted : OwnedKeyType → ℤ → ℤ
adjusted (cbrs id) power = power
adjusted (wifi key) power = minus_300 power

abbrev pub outdoor_radio : ℕ → HexCoverage → OutdoorCoverageLevel
outdoor_radio hotspot c = record {
  radio_key = c.radio_key;
  seniority_timestamp = c.coverage_claim_time;
  hotspot = hotspot;
  signal_power = adjusted c.radio_key c.signal_power;
  signal_level = c.signal_level;
}

less_300-minus : (power : ℤ) → less_300 power ≡ minus_300 power
less_300-minus power = ground arith

outdoor_level-radio :
    (hotspot : ℕ) (c : HexCoverage) → outdoor_level hotspot c ≡ outdoor_radio hotspot c
unfolding outdoor_level
outdoor_level-radio hotspot c = λ i. record {
  radio_key = c.radio_key;
  seniority_timestamp = c.coverage_claim_time;
  hotspot = hotspot;
  signal_power = of_key c.radio_key i;
  signal_level = c.signal_level;
}
  where
    of_key :
        (k : OwnedKeyType)
        → (if is_wifi k then less_300 c.signal_power else c.signal_power)
          ≡ adjusted k c.signal_power
    of_key (cbrs id) = refl
    of_key (wifi key) = less_300-minus c.signal_power

-- What one hex adds to a heap, and what a stream adds, in its order.
abbrev pub outdoor_of : ℕ → ℕ → Item → List OutdoorCoverageLevel
outdoor_of hotspot cell i =
    if not i.0.indoor && (i.1 == cell) then outdoor_radio hotspot i.0 ∷ [] else []

abbrev pub indoor_of : ℕ → ℕ → ℕ → Item → List IndoorCoverageLevel
indoor_of hotspot cell level i =
    if i.0.indoor && ((i.1 == cell) && (level_rank i.0.signal_level == level))
    then indoor_level hotspot i.0 ∷ []
    else []

abbrev pub outdoor_at : ℕ → ℕ → List Item → List OutdoorCoverageLevel
outdoor_at hotspot cell = flat_map (outdoor_of hotspot cell)

abbrev pub indoor_at : ℕ → ℕ → ℕ → List Item → List IndoorCoverageLevel
indoor_at hotspot cell level = flat_map (indoor_of hotspot cell level)

-- One hex after the other is added to what was there.
pub record Aggregated (hotspot : ℕ) (before : CoveredHexes) (items : List Item)
    (after : CoveredHexes) : Type 0 where
  pub outdoor :
      (cell : ℕ)
      → outdoor_heap after cell ≡ outdoor_heap before cell ++ outdoor_at hotspot cell items
  pub indoor :
      (cell level : ℕ)
      → indoor_heap after cell level
        ≡ indoor_heap before cell level ++ indoor_at hotspot cell level items

lookup-push_at :
    {A : Type 0} (k j : ℕ) (a : A) (d : Dict (List A))
    → or_default (lookup j (push_at k a d))
      ≡ or_default (lookup j d) ++ (if k == j then a ∷ [] else [])
lookup-push_at k j a d =
    ap or_default (lookup-insert k j (or_default (lookup k d) ++ (a ∷ [])) d)
    ∙ cases (Bool-cases (k == j))
  where
    cases :
        ((k == j) ≡ true) ⊎ ((k == j) ≡ false)
        → or_default (if k == j then some (or_default (lookup k d) ++ (a ∷ [])) else lookup j d)
          ≡ or_default (lookup j d) ++ (if k == j then a ∷ [] else [])
    cases (inl b) = grind (arith, b)
    cases (inr b) = grind (arith, b, append-nil (or_default (lookup j d)))

lookup-push_inner :
    {A : Type 0} (k l j m : ℕ) (a : A) (d : Dict (Dict (List A)))
    → or_default
        (lookup m (or_default (lookup j (insert k (push_at l a (or_default (lookup k d))) d))))
      ≡ or_default (lookup m (or_default (lookup j d)))
        ++ (if (k == j) && (l == m) then a ∷ [] else [])
lookup-push_inner k l j m a d =
    ap (λ o. or_default (lookup m (or_default o)))
      (lookup-insert k j (push_at l a (or_default (lookup k d))) d)
    ∙ cases (Bool-cases (k == j))
  where
    cases :
        ((k == j) ≡ true) ⊎ ((k == j) ≡ false)
        → or_default (
            lookup m (
              or_default
                (if k == j then some (push_at l a (or_default (lookup k d))) else lookup j d)))
          ≡ or_default (lookup m (or_default (lookup j d)))
            ++ (if (k == j) && (l == m) then a ∷ [] else [])
    cases (inl b) = grind (arith, b, lookup-push_at l m a (or_default (lookup k d)))
    cases (inr b) = grind (arith, b, append-nil (or_default (lookup m (or_default (lookup j d)))))

outdoor_heap-add_hex :
    (hotspot cell : ℕ) (i : Item) (hexes : CoveredHexes)
    → outdoor_heap (add_hex hotspot i.0 i.1 hexes) cell
      ≡ outdoor_heap hexes cell ++ outdoor_of hotspot cell i
unfolding add_hex
outdoor_heap-add_hex hotspot cell (c, k) hexes =
    if-split (λ h. outdoor_heap h cell ≡ outdoor_heap hexes cell ++ outdoor_of hotspot cell (c, k))
      c.indoor (λ b. grind (arith, b, append-nil (outdoor_heap hexes cell)))
      (λ b.
        rw (outdoor_level-radio hotspot c)
          (grind (arith, b, lookup-push_at k cell (outdoor_radio hotspot c) hexes.outdoor)))

indoor_heap-add_hex :
    (hotspot cell level : ℕ) (i : Item) (hexes : CoveredHexes)
    → indoor_heap (add_hex hotspot i.0 i.1 hexes) cell level
      ≡ indoor_heap hexes cell level ++ indoor_of hotspot cell level i
unfolding add_hex
indoor_heap-add_hex hotspot cell level (c, k) hexes =
    if-split
      (λ h.
        indoor_heap h cell level
        ≡ indoor_heap hexes cell level ++ indoor_of hotspot cell level (c, k))
      c.indoor
      (λ b. grind (
        arith,
        b,
        lookup-push_inner k (level_rank c.signal_level) cell level (indoor_level hotspot c)
            hexes.indoor,
      ))
      (λ b. grind (arith, b, append-nil (indoor_heap hexes cell level)))

-- Every hex of the stream is a cell.
abbrev pub AreCells : (ℕ → Option ℕ) → List Item → Type 0
AreCells try_from [] = Unit {0}
AreCells try_from (i ∷ items) = (try_from i.0.hex ≡ some i.1) × AreCells try_from items

then_rest :
    (hotspot : ℕ) (i : Item) (items : List Item) (hexes after : CoveredHexes)
    → Aggregated hotspot (add_hex hotspot i.0 i.1 hexes) items after
    → Aggregated hotspot hexes (i ∷ items) after
then_rest hotspot i items hexes after a = record {
  outdoor = λ cell.
      a.outdoor cell
      ∙ ap (λ h. h ++ outdoor_at hotspot cell items) (outdoor_heap-add_hex hotspot cell i hexes)
      ∙ append_assoc (outdoor_heap hexes cell) (outdoor_of hotspot cell i)
          (outdoor_at hotspot cell items);
  indoor = λ cell level.
      a.indoor cell level
      ∙ ap (λ h. h ++ indoor_at hotspot cell level items)
          (indoor_heap-add_hex hotspot cell level i hexes)
      ∙ append_assoc (indoor_heap hexes cell level) (indoor_of hotspot cell level i)
          (indoor_at hotspot cell level items);
}

-- For a stream of hexes without an error, each of them a cell: the aggregation returns without an error
-- or a panic. At every cell the heap of the outdoor radios, and at every cell and signal level that of
-- the indoor radios, then holds what it held before and the hexes of the stream that belong there, each
-- of them once, the signal power of an outdoor Wi-Fi radio being 300 less than in the stream, as an i32.
pub aggregate_coverage-Aggregated :
    {E : Type 0} (try_from : ℕ → Option ℕ) (hotspot : ℕ) (items : List Item) (hexes : CoveredHexes)
    → AreCells try_from items
    → ((aggregate_coverage {E = E} try_from hotspot (stream items) hexes).0 ≡ ok tt)
      × Aggregated hotspot hexes items
          (aggregate_coverage {E = E} try_from hotspot (stream items) hexes).1
unfolding aggregate_coverage
aggregate_coverage-Aggregated try_from hotspot [] hexes h = (
  refl,
  record { outdoor = λ cell. sym (append-nil _); indoor = λ cell level. sym (append-nil _) },
)
aggregate_coverage-Aggregated {E = E} try_from hotspot (i ∷ items) hexes h =
    let (e, a) =
      aggregate_coverage-Aggregated {E = E} try_from hotspot items (add_hex hotspot i.0 i.1 hexes)
        h.1 in
    subst (λ r. (r.0 ≡ ok tt) × Aggregated hotspot hexes (i ∷ items) r.1) (sym (ap step h.0))
      (e, then_rest hotspot i items hexes _ a)
  where
    step : Option ℕ → Outcome E (Unit {0}) × CoveredHexes
    step o = elim o [
      | none ↦ (panic, hexes)
      | some cell ↦
          aggregate_coverage try_from hotspot (stream items) (add_hex hotspot i.0 cell hexes)
    ]
