-- ===== src/Timer/Tests.antt =====
-- A timer of a clock of 1000 ticks a second.
use dev_can_linux.Base.{◌+◌, ◌≡◌, refl, true, false, none, [], ◌∷◌, arith, ltb, if◌then◌else◌}
use dev_can_linux.Timer.{Timer, create, setup_timer, schedule_delayed_work, timer_pulse}
use dev_can_linux.Timer.Laws.{schedule_delayed_work-fires}

abbrev ready : Timer
ready = record { created = true; chid = 3; threads = 3 ∷ []; armed = none; fired = 0 }

setup_ready :
    setup_timer 3 (record { created = false; chid = 0; threads = []; armed = none; fired = 0 })
    ≡ ready
unfolding setup_timer create
setup_ready = refl

-- A restart time of two seconds never comes.
schedule_delayed_work-fires_example :
    (timer_pulse (timer_pulse (schedule_delayed_work 1000 4 2000 ready))).fired
    ≡ (if ltb 2000 1000 then 0 + 1 else 0)
schedule_delayed_work-fires_example =
    schedule_delayed_work-fires 1000 2000 (omega arith) 4 ready (omega arith) (omega arith) refl
