-- ===== src/MobileVerifier/Coverage/Ranked.antt =====
-- mobile_verifier/src/coverage.rs: which radios of a hex are rewarded.
use mathlib.Core.List.{Perm}
use oracles.Prelude.{
  ℕ, ◌*◌, ◌≤◌, ◌≡◌, refl, sym, ap, subst, arith, Bool, not, ◌||◌, ◌&&◌, Bool-cases, Option, none,
  some, ◌⊎◌, inl, inr, List, [], ◌∷◌, ◌++◌, map, length, take, drop, take-append-drop, Dict, ltb,
  leb, if◌then◌else◌,
}
use oracles.Prelude.Int.{ltb_ℤ}
use oracles.Prelude.Sorted.{Ordered, AllBefore, take-Ordered, take-AllBefore, take-count}
use oracles.MobileVerifier.Coverage.{
  SignalLevel, no_signal, low, medium, high, CoverageReward, IndoorCoverageLevel,
  OutdoorCoverageLevel, outdoor_le, indoor_le, weighted, outdoor_rewards, indoor_rewards,
  indoor_reward, pop_last, outdoor_points, indoor_points,
}

module _ {A : Type 0} (le : A → A → Bool) where
  -- What `into_sorted_vec` of the heap of these radios promises.
  pub record IsSorted (radios sorted : List A) : Type 0 where
    pub same : Perm sorted radios
    pub ordered : Ordered le sorted

  -- The best n of the radios, in order, and the rest: with fewer than n all of them are the best.
  pub record IsBest (n : ℕ) (radios best rest : List A) : Type 0 where
    pub parts : Perm (best ++ rest) radios
    pub count : (length best ≡ n) ⊎ (rest ≡ [])
    pub inner : Ordered le best
    pub outer : AllBefore le best rest

  take-IsBest :
      (n : ℕ) (radios sorted : List A)
      → IsSorted radios sorted
      → IsBest n radios (take n sorted) (drop n sorted)
  take-IsBest n radios sorted h = record {
    parts = subst (λ l. Perm l radios) (sym (take-append-drop n sorted)) h.same;
    count = take-count le n sorted;
    inner = take-Ordered le n sorted h.ordered;
    outer = take-AllBefore le n sorted h.ordered;
  }

-- Who is rewarded first: outdoors the stronger signal, and of two that are as strong the older claim;
-- indoors the older claim.
abbrev pub outdoor_first : OutdoorCoverageLevel → OutdoorCoverageLevel → Bool
outdoor_first a b =
    ltb_ℤ b.signal_power a.signal_power
    || (not (ltb_ℤ a.signal_power b.signal_power)
        && leb a.seniority_timestamp b.seniority_timestamp)

abbrev pub indoor_first : IndoorCoverageLevel → IndoorCoverageLevel → Bool
indoor_first a b = leb a.seniority_timestamp b.seniority_timestamp

outdoor_le-first : (a b : OutdoorCoverageLevel) → outdoor_le a b ≡ outdoor_first a b
unfolding outdoor_le
outdoor_le-first a b = ground arith

indoor_le-first : (a b : IndoorCoverageLevel) → indoor_le a b ≡ indoor_first a b
unfolding indoor_le
indoor_le-first a b = refl

-- The points of a signal level.
abbrev outdoor_worth : SignalLevel → ℕ
outdoor_worth high = 16
outdoor_worth medium = 8
outdoor_worth low = 4
outdoor_worth no_signal = 0

abbrev indoor_worth : SignalLevel → ℕ
indoor_worth high = 400
indoor_worth medium = 0
indoor_worth low = 100
indoor_worth no_signal = 0

abbrev outdoor_reward_of : OutdoorCoverageLevel → ℕ → CoverageReward
outdoor_reward_of r weight = record {
  radio_key = r.radio_key;
  points = outdoor_worth r.signal_level * weight;
  hotspot = r.hotspot;
}

-- The weights 1, 0.75 and 0.25, in hundredths.
abbrev pub by_rank : List OutdoorCoverageLevel → List CoverageReward
by_rank [] = []
by_rank (a ∷ []) = outdoor_reward_of a 100 ∷ []
by_rank (a ∷ b ∷ []) = outdoor_reward_of a 100 ∷ outdoor_reward_of b 75 ∷ []
by_rank (a ∷ b ∷ c ∷ rest) =
    outdoor_reward_of a 100 ∷ outdoor_reward_of b 75 ∷ outdoor_reward_of c 25 ∷ []

abbrev pub indoor_reward_of : IndoorCoverageLevel → CoverageReward
indoor_reward_of r = record {
  radio_key = r.radio_key;
  points = indoor_worth r.signal_level * 100;
  hotspot = r.hotspot;
}

outdoor_points-worth : (l : SignalLevel) → outdoor_points l ≡ outdoor_worth l
unfolding outdoor_points
outdoor_points-worth no_signal = refl
outdoor_points-worth low = refl
outdoor_points-worth medium = refl
outdoor_points-worth high = refl

indoor_points-worth : (l : SignalLevel) → indoor_points l ≡ indoor_worth l
unfolding indoor_points
indoor_points-worth no_signal = refl
indoor_points-worth low = refl
indoor_points-worth medium = refl
indoor_points-worth high = refl

weighted-by_rank :
    (best : List OutdoorCoverageLevel) → weighted best (100 ∷ 75 ∷ 25 ∷ []) ≡ by_rank best
unfolding weighted
weighted-by_rank [] = refl
weighted-by_rank (a ∷ []) = rw (outdoor_points-worth a.signal_level) refl
weighted-by_rank (a ∷ b ∷ []) =
    rw (outdoor_points-worth a.signal_level, outdoor_points-worth b.signal_level) refl
weighted-by_rank (a ∷ b ∷ c ∷ []) =
    rw
      (
        outdoor_points-worth a.signal_level,
        outdoor_points-worth b.signal_level,
        outdoor_points-worth c.signal_level,
      )
      refl
weighted-by_rank (a ∷ b ∷ c ∷ d ∷ rest) =
    rw
      (
        outdoor_points-worth a.signal_level,
        outdoor_points-worth b.signal_level,
        outdoor_points-worth c.signal_level,
      )
      refl

indoor_reward-of : (r : IndoorCoverageLevel) → indoor_reward r ≡ indoor_reward_of r
indoor_reward-of r = rw (indoor_points-worth r.signal_level) refl

module _ {V : Type 0} where
  abbrev AtMost : ℕ → Dict V → Type 0
  AtMost top [] = Unit {0}
  AtMost top (e ∷ d) = (e.0 ≤ top) × AtMost top d

  -- An entry that no other exceeds.
  pub record IsHighest (d : Dict V) (e : ℕ × V) : Type 0 where
    pub before : Dict V
    pub after : Dict V
    pub found : d ≡ before ++ e ∷ after
    pub highest : AtMost e.0 d

  AtMost-mono : (m n : ℕ) (d : Dict V) → m ≤ n → AtMost m d → AtMost n d
  AtMost-mono m n [] h k = tt
  AtMost-mono m n (e ∷ d) h k = (let a = k.0 in omega arith, AtMost-mono m n d h k.1)

  abbrev Popped : Dict V → Option (ℕ × V) → Type 0
  Popped d none = d ≡ []
  Popped d (some e) = IsHighest d e

  pop_last-Popped : (d : Dict V) → Popped d (pop_last d)
  unfolding pop_last
  pop_last-Popped [] = refl
  pop_last-Popped (e ∷ d) = of_rest (pop_last d) (pop_last-Popped d)
    where
      of_rest :
          (o : Option (ℕ × V))
          → Popped d o
          → Popped
              (e ∷ d)
              (elim o [ none ↦ some e | some b ↦ if ltb e.0 b.0 then some b else some e ])
      of_rest none h = record {
        before = [];
        after = d;
        found = refl;
        highest = (omega arith, subst (AtMost e.0) (sym h) tt);
      }
      of_rest (some b) h = elim (Bool-cases (ltb e.0 b.0)) [
        | inl k ↦ rw k (record {
          before = e ∷ h.before;
          after = h.after;
          found = ap (λ l. e ∷ l) h.found;
          highest = (ground arith, h.highest);
        })
        | inr k ↦ rw k (record {
          before = [];
          after = d;
          found = refl;
          highest = (omega arith, AtMost-mono b.0 e.0 d (ground arith) h.highest);
        })
      ]

module _ (sorted_outdoor : List OutdoorCoverageLevel → List OutdoorCoverageLevel)
    (sorted_indoor : List IndoorCoverageLevel → List IndoorCoverageLevel) where
  -- The rewards of a hex go to the best radios outdoors, and to the best of its highest level indoors.
  abbrev pub OutdoorRewarded : ℕ → List OutdoorCoverageLevel → Type 0
  OutdoorRewarded cell radios =
      (best : List OutdoorCoverageLevel) × (rest : List OutdoorCoverageLevel) × IsBest outdoor_first
        3 radios best rest
      × (outdoor_rewards sorted_outdoor sorted_indoor (cell, radios) ≡ by_rank best)

  abbrev pub IndoorRewarded : ℕ → Dict (List IndoorCoverageLevel) → Type 0
  IndoorRewarded cell levels =
      ((levels ≡ []) × (indoor_rewards sorted_outdoor sorted_indoor (cell, levels) ≡ []))
      ⊎ ((level : ℕ) × (radios : List IndoorCoverageLevel) × (best : List IndoorCoverageLevel)
          × (rest : List IndoorCoverageLevel) × IsHighest levels (level, radios)
          × IsBest indoor_first 5 radios best rest
          × (indoor_rewards sorted_outdoor sorted_indoor (cell, levels)
              ≡ map indoor_reward_of best))

  -- The heap of each level sorts its radios.
  abbrev pub EachSorted : Dict (List IndoorCoverageLevel) → Type 0
  EachSorted [] = Unit {0}
  EachSorted ((level, radios) ∷ levels) =
      IsSorted indoor_le radios (sorted_indoor radios) × EachSorted levels

  EachSorted-at :
      (before after : Dict (List IndoorCoverageLevel)) (level : ℕ)
      (radios : List IndoorCoverageLevel)
      → EachSorted (before ++ (level, radios) ∷ after)
      → IsSorted indoor_le radios (sorted_indoor radios)
  EachSorted-at [] after level radios h = h.0
  EachSorted-at (e ∷ before) after level radios h = EachSorted-at before after level radios h.1

  -- Where the heap of the outdoor radios of a hex sorts them, and the heap of each of its levels the indoor
  -- radios of that level, by the orders of the radios: the outdoor rewards of a hex go to its best three
  -- radios, with the points of their signal levels and the weights 1, 0.75 and 0.25 in their order. The
  -- indoor rewards go to the best five radios of the highest signal level at the hex, with the points of
  -- their signal levels, and there are none where there is no level. With fewer radios they go to all.
  -- No other radio of the hex, or of the level, comes before one of them: it has no stronger signal
  -- outdoors, nor as strong a one with an older claim, and no older claim indoors.
  pub outdoor_rewards-IsBest :
      (cell : ℕ) (radios : List OutdoorCoverageLevel) (levels : Dict (List IndoorCoverageLevel))
      → IsSorted outdoor_le radios (sorted_outdoor radios)
      → EachSorted levels
      → OutdoorRewarded cell radios × IndoorRewarded cell levels
  unfolding outdoor_rewards indoor_rewards
  outdoor_rewards-IsBest cell radios levels h k = (
    (
      take 3 (sorted_outdoor radios),
      drop 3 (sorted_outdoor radios),
      subst
          (λ le.
            IsBest le 3 radios (take 3 (sorted_outdoor radios)) (drop 3 (sorted_outdoor radios)))
          (λ i a b. outdoor_le-first a b i)
          (take-IsBest outdoor_le 3 radios (sorted_outdoor radios) h),
      weighted-by_rank (take 3 (sorted_outdoor radios)),
    ),
    of_highest (pop_last levels) (pop_last-Popped levels) refl,
  )
    where
      of_highest :
          (o : Option (ℕ × List IndoorCoverageLevel))
          → Popped levels o
          → pop_last levels ≡ o
          → IndoorRewarded cell levels
      of_highest none p e = inl (p, rw (e, indoor_rewards) refl)
      of_highest (some (level, indoor)) p e = inr (
        level,
        indoor,
        take 5 (sorted_indoor indoor),
        drop 5 (sorted_indoor indoor),
        p,
        subst
            (λ le.
              IsBest le 5 indoor (take 5 (sorted_indoor indoor)) (drop 5 (sorted_indoor indoor)))
            (λ i a b. indoor_le-first a b i)
            (take-IsBest indoor_le 5 indoor (sorted_indoor indoor)
              (EachSorted-at p.before p.after level indoor (subst EachSorted p.found k))),
        rw (e, indoor_rewards)
            (λ i. map (λ r. indoor_reward-of r i) (take 5 (sorted_indoor indoor))),
      )
