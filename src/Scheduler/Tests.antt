-- ===== src/Scheduler/Tests.antt =====
-- The theorems on backend/scheduler/scheduler.go at concrete schedules.
use realmrunner.Common.{◌≡◌, ◌==◌, ◌%◌, ◌&&◌, refl, [], ◌∷◌, ◌++◌, arith}
use realmrunner.Common.Text.{codes, value, value_from}
use realmrunner.Scheduler.{should_restart}
use realmrunner.Scheduler.Schedules.{two_digits, should_restart-daily, should_restart-interval}

should_restart-daily_example :
    should_restart (two_digits 4 ++ b':' ∷ two_digits 30) 4 30 ≡ (4 == 4 && 30 == 30)
should_restart-daily_example = should_restart-daily 4 30 4 30 (omega arith) (omega arith)

should_restart-interval_example :
    should_restart (codes "interval:" ++ (b'5' ∷ []) ++ b'h' ∷ []) 20 0 ≡ (0 == 0 && (20 % 5) == 0)
unfolding value value_from
should_restart-interval_example =
    should_restart-interval b'5' [] 4 20 0 refl refl refl (omega arith)

-- Four hours after the restart at 20:00, `interval:5h` is due again.
midnight :
    should_restart (codes "interval:" ++ (b'5' ∷ []) ++ b'h' ∷ []) 0 0 ≡ (0 == 0 && (0 % 5) == 0)
unfolding value value_from
midnight = should_restart-interval b'5' [] 4 0 0 refl refl refl (omega arith)
