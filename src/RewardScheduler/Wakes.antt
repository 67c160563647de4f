-- ===== src/RewardScheduler/Wakes.antt =====
-- reward_scheduler/src/lib.rs: a sleep of the length that the scheduler gives ends when rewards are due.
use oracles.Prelude.{
  ℕ, ◌≤◌, ◌<◌, ◌≡◌, refl, sym, ap, subst, arith, true, false, if-split, leb, leb→le,
}
use oracles.Prelude.Int.{
  ℤ, pos, negsuc, pos_part, neg_part, ◌+ℤ◌, ◌-ℤ◌, ltb_ℤ, leb_ℤ, +ℤ_parts, -ℤ_parts,
}
use oracles.Prelude.Results.{Result, ok}
use oracles.RewardScheduler.{
  Scheduler, OutOfRangeError, new_scheduler, should_reward, next_reward_period, to_std,
  sleep_duration,
}

-- The scheduler of the period that follows.
abbrev pub following : Scheduler → Scheduler
following s =
    new_scheduler s.reward_period_length (next_reward_period s).start (next_reward_period s).end
      s.reward_offset

-- A sleep from `now` on: where the period is not over it ends exactly when its rewards fall due, and
-- otherwise the rewards of the following period are due at its end.
pub data Wakes (s : Scheduler) (now : ℤ) : Result OutOfRangeError ℕ → Type 0 where
  this_period :
      (d : ℕ)
      → should_reward s now ≡ false
      → should_reward s (now +ℤ pos d) ≡ true
      → ((e : ℕ) → e < d → should_reward s (now +ℤ pos e) ≡ false)
      → Wakes s now (ok d)
  following_period :
      (d : ℕ)
      → should_reward s now ≡ true
      → should_reward (following s) (now +ℤ pos d) ≡ true
      → Wakes s now (ok d)

le→leb : (a b : ℕ) → a ≤ b → leb a b ≡ true
le→leb a b h = ground arith

lt→leb : (a b : ℕ) → b < a → leb a b ≡ false
lt→leb a b h = ground arith

due_after : (a now : ℤ) (d : ℕ) → a -ℤ now ≡ pos d → leb_ℤ a (now +ℤ pos d) ≡ true
due_after a now d h =
    let p = -ℤ_parts a now in
    let q = +ℤ_parts now (pos d) in le→leb _ _ (omega (arith, p, q, ap pos_part h, ap neg_part h))

not_due_before : (a now : ℤ) (d e : ℕ) → a -ℤ now ≡ pos d → e < d → leb_ℤ a (now +ℤ pos e) ≡ false
not_due_before a now d e h l =
    let p = -ℤ_parts a now in
    let q = +ℤ_parts now (pos e) in lt→leb _ _ (omega (arith, p, q, ap pos_part h, ap neg_part h))

no_neg : (a b : ℤ) → leb_ℤ b a ≡ true → neg_part (a -ℤ b) ≡ 0
unfolding ◌-ℤ◌
no_neg a b h = ground arith

before : (a b : ℤ) → ltb_ℤ a b ≡ true → (leb_ℤ b a ≡ false) × (leb_ℤ a b ≡ true)
before a b h = ground arith

not_before : (a b : ℤ) → ltb_ℤ a b ≡ false → leb_ℤ b a ≡ true
not_before a b h = ground arith

not_after : (a b : ℤ) → leb_ℤ a b ≡ false → leb_ℤ b a ≡ true
not_after a b h = ground arith

due_still : (a now : ℤ) → leb_ℤ a now ≡ true → leb_ℤ a (now +ℤ pos 0) ≡ true
due_still a now h = let q = +ℤ_parts now (pos 0) in le→leb _ _ (omega (arith, q, leb→le _ _ h))

-- A difference of times that is not negative is the number of its units.
difference : (a b : ℤ) → leb_ℤ b a ≡ true → (d : ℕ) × (a -ℤ b ≡ pos d)
difference a b h = natural (a -ℤ b) (no_neg a b h)
  where
    natural : (x : ℤ) → neg_part x ≡ 0 → (d : ℕ) × (x ≡ pos d)
    natural (pos d) h = (d, refl)
    natural (negsuc n) h = absurd (omega (arith, h))

-- For any scheduler and any time `now`, of which nothing is asked: `sleep_duration` returns, never with
-- an `OutOfRangeError`. Where the rewards of the period are not due at `now`, they are due after a sleep
-- of the duration, and at no time before its end. Where they are due, those of the following period are
-- due after the sleep.
pub sleep_duration-Wakes : (s : Scheduler) (now : ℤ) → Wakes s now (sleep_duration s now)
unfolding sleep_duration should_reward next_reward_period new_scheduler to_std
sleep_duration-Wakes s now =
    let due = s.reward_period.end +ℤ s.reward_offset in
    let next = s.reward_period.end +ℤ s.reward_period_length +ℤ s.reward_offset in
    if-split (λ z. Wakes s now (to_std z)) (ltb_ℤ now due)
      (λ b.
        let (d, e) = difference due now (before now due b).1 in
        subst (λ z. Wakes s now (to_std z)) (sym e)
          (this_period d (before now due b).0 (due_after due now d e)
            (λ k l. not_due_before due now d k e l)))
      (λ b.
        if-split (λ z. Wakes s now (to_std z)) (leb_ℤ next now)
          (λ c. following_period 0 (not_before now due b) (due_still next now c))
          (λ c.
            let (d, e) = difference next now (not_after next now c) in
            subst (λ z. Wakes s now (to_std z)) (sym e)
              (following_period d (not_before now due b) (due_after next now d e))))
