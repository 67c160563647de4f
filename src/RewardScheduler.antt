-- ===== src/RewardScheduler.antt =====
-- reward_scheduler/src/lib.rs: when the next rewards are due. A time and a duration are integers of one
-- unit; chrono's panics on times out of its range have no counterpart.
use oracles.Prelude.{ℕ, Bool, if◌then◌else◌}
use oracles.Prelude.Int.{ℤ, pos, negsuc, ◌+ℤ◌, ◌-ℤ◌, ltb_ℤ, leb_ℤ}
use oracles.Prelude.Results.{Result, ok, err}
pub mod Wakes
mod Tests

-- A `Range<DateTime<Utc>>`.
pub record Period : Type 0 where
  pub start : ℤ
  pub end : ℤ

pub record Scheduler : Type 0 where
  pub reward_period_length : ℤ
  pub reward_period : Period
  pub reward_offset : ℤ

pub data OutOfRangeError : Type 0 where
  out_of_range : OutOfRangeError

unfoldable pub new_scheduler : ℤ → ℤ → ℤ → ℤ → Scheduler
new_scheduler reward_period_length last_rewarded_end_time next_rewarded_end_time reward_offset =
    record {
      reward_period_length = reward_period_length;
      reward_period = record { start = last_rewarded_end_time; end = next_rewarded_end_time };
      reward_offset = reward_offset;
    }

unfoldable pub should_reward : Scheduler → ℤ → Bool
should_reward s now = leb_ℤ (s.reward_period.end +ℤ s.reward_offset) now

unfoldable pub next_reward_period : Scheduler → Period
next_reward_period s = record {
  start = s.reward_period.end;
  end = s.reward_period.end +ℤ s.reward_period_length;
}

-- `Duration::to_std`, which refuses a negative duration.
unfoldable pub to_std : ℤ → Result OutOfRangeError ℕ
to_std (pos n) = ok n
to_std (negsuc n) = err out_of_range

unfoldable pub sleep_duration : Scheduler → ℤ → Result OutOfRangeError ℕ
sleep_duration s now =
    let next = next_reward_period s in
    to_std (
      if ltb_ℤ now (s.reward_period.end +ℤ s.reward_offset)
      then s.reward_period.end +ℤ s.reward_offset -ℤ now
      else if leb_ℤ (next.end +ℤ s.reward_offset) now
      then pos 0
      else next.end +ℤ s.reward_offset -ℤ now)
