-- ===== src/Timer.antt =====
-- src/timer.c: the timer of a device for its recovery from bus-off, with its thread `timer_loop`.
pub mod Laws
mod Tests
use dev_can_linux.Base.{
  ℕ, zero, suc, ◌+◌, ◌*◌, ◌/◌, Bool, true, false, Option, none, some, List, [], ◌∷◌, ltb, ◌==◌,
  if◌then◌else◌,
}

-- `timer_record_t` and what the system keeps of it. `chid` is the channel, with which the timer's id
-- and the thread are made; `threads` is the channels on which a thread `timer_loop` receives;
-- `armed` is the time in nanoseconds after which the timer sends its pulse; `fired` counts the calls
-- of `callback` with `data`.
pub record Timer : Type 0 where
  pub created : Bool
  pub chid : ℕ
  pub threads : List ℕ
  pub armed : Option ℕ
  pub fired : ℕ

abbrev pub without : (chid : ℕ) → List ℕ → List ℕ
without chid [] = []
without chid (c ∷ cs) = let rest = without chid cs in if c == chid then rest else c ∷ rest

-- `create`, where the calls of the system succeed: `new` is the channel that ChannelCreate returns.
-- The thread has set `started` when the function returns.
unfoldable pub create : (new : ℕ) → Timer → Timer
create new t =
    if t.created
    then t
    else record t { created = true; chid = new; threads = new ∷ t.threads; armed = none }

-- `destroy`: the thread gets a pulse that ends it, and the timer is deleted.
unfoldable pub destroy : Timer → Timer
destroy t =
    if t.created
    then record t { created = false; threads = without t.chid t.threads; armed = none }
    else t

unfoldable pub setup_timer : (new : ℕ) → Timer → Timer
setup_timer new t = create new (record t { created = false })

unfoldable pub cancel_delayed_work_sync : Timer → Timer
cancel_delayed_work_sync t = destroy t

-- `timer_settime` with `tv_sec` zero: a time of a second or more is refused, and zero disarms.
unfoldable pub timer_settime : (nsec : ℕ) → Timer → Timer
timer_settime nsec t =
    if ltb nsec 1000000000
    then (if nsec == 0 then record t { armed = none } else record t { armed = some nsec })
    else t

-- The time is `TIMER_INTERVAL_NS * ticks`, with TIMER_INTERVAL_NS the quotient of 1e9 by `hz`.
unfoldable pub schedule_delayed_work : (hz new ticks : ℕ) → Timer → Timer
schedule_delayed_work hz new ticks t =
    record (timer_settime (1000000000 * ticks / hz) (create new t)) { created = true }

-- The time has passed: the pulse comes once, and the thread calls the callback.
unfoldable pub timer_pulse : Timer → Timer
timer_pulse t = elim t.armed [ none ↦ t | some n ↦ record t { armed = none; fired = t.fired + 1 } ]

-- The calls of the drivers on a timer, and its pulse. The channels are fresh numbers.
pub data Event : Type 0 where
  schedule : (new ticks : ℕ) → Event
  cancel pulse : Event

abbrev pub handle : (hz : ℕ) → Event → Timer → Timer
handle hz (schedule new ticks) t = schedule_delayed_work hz new ticks t
handle hz cancel t = cancel_delayed_work_sync t
handle hz pulse t = timer_pulse t

unfoldable pub handle_all : (hz : ℕ) → List Event → Timer → Timer
handle_all hz [] t = t
handle_all hz (e ∷ es) t = handle_all hz es (handle hz e t)
