-- ===== src/RewardScheduler/Tests.antt =====
-- Runs of the model of reward_scheduler/src/lib.rs, in minutes.
use oracles.Prelude.{◌≡◌, refl, true, false}
use oracles.Prelude.Int.{◌+ℤ◌, ◌-ℤ◌, pos}
use oracles.Prelude.Results.{ok}
use oracles.RewardScheduler.{next_reward_period, to_std, Scheduler, should_reward, sleep_duration}
use oracles.RewardScheduler.Wakes.{Wakes, sleep_duration-Wakes}

-- Days of 1440 minutes, the second of them, and an offset of half an hour.
abbrev pub daily : Scheduler
daily = record {
  reward_period_length = pos 1440;
  reward_period = record { start = pos 1440; end = pos 2880 };
  reward_offset = pos 30;
}

-- The tests of the source: in mid period, after it, and after it but before the offset.
sleeps :
    (sleep_duration daily (pos 1500) ≡ ok 1410)
    × (sleep_duration daily (pos 2910) ≡ ok 1440)
    × (sleep_duration daily (pos 2895) ≡ ok 15)
    × (should_reward daily (pos 2910) ≡ true)
    × (should_reward daily (pos 2895) ≡ false)
unfolding sleep_duration to_std ◌+ℤ◌ ◌-ℤ◌ next_reward_period should_reward
sleeps = (refl, refl, refl, refl, refl)

sleep_duration-Wakes_example : Wakes daily (pos 1500) (sleep_duration daily (pos 1500))
sleep_duration-Wakes_example = sleep_duration-Wakes daily (pos 1500)
