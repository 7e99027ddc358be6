-- ===== src/Timer/Laws.antt =====
-- The thread of a timer, and when its callback is called.
use dev_can_linux.Base.{
  ℕ, ◌+◌, ◌*◌, ◌/◌, ◌≤◌, ◌<◌, ◌≡◌, refl, inl, inr, Bool-cases, true, false, none, List, [], ◌∷◌,
  arith, ltb, ltb→lt, lt→ltb, ◌∙◌, if◌then◌else◌,
}
use native.Mathlib.Nat.{div-lt_iff_lt-mul, le-div_iff_mul-le}
use dev_can_linux.Timer.{
  Timer, create, destroy, cancel_delayed_work_sync, timer_settime, schedule_delayed_work,
  timer_pulse, Event, schedule, cancel, pulse, handle, handle_all,
}

-- Exactly one thread runs, that of the timer, if it is created, and otherwise none does and nothing is
-- armed.
pub record IsSingle (t : Timer) : Type 0 where
  pub threads : t.threads ≡ (if t.created then t.chid ∷ [] else [])
  pub disarmed : t.created ≡ false → t.armed ≡ none

handle-IsSingle : (hz : ℕ) (e : Event) (t : Timer) → IsSingle t → IsSingle (handle hz e t)
unfolding create destroy cancel_delayed_work_sync timer_settime schedule_delayed_work timer_pulse
handle-IsSingle hz (schedule new ticks) t v = ground arith
handle-IsSingle hz cancel t v = ground arith
handle-IsSingle hz pulse t v = ground arith

-- After any calls on a timer, each with its pulses in between: one thread runs if it is created, and
-- none if it is not, so that no thread is left behind by a cancel.
pub handle_all-IsSingle :
    (hz : ℕ) (es : List Event) (t : Timer) → IsSingle t → IsSingle (handle_all hz es t)
unfolding handle_all
handle_all-IsSingle hz [] t v = v
handle_all-IsSingle hz (e ∷ es) t v =
    handle_all-IsSingle hz es (handle hz e t) (handle-IsSingle hz e t v)

-- Two pulses behind a time of `n` nanoseconds.
timer_settime-fires :
    (n new : ℕ) (t : Timer)
    → 1 ≤ n
    → t.armed ≡ none
    → (timer_pulse (timer_pulse (record (timer_settime n (create new t)) { created = true }))).fired
      ≡ (if ltb n 1000000000 then t.fired + 1 else t.fired)
unfolding timer_settime create timer_pulse
timer_settime-fires n new t p a = ground arith

module _ (hz ticks : ℕ) (some_hz : 0 < hz) where
  -- The time in nanoseconds.
  abbrev nsec : ℕ
  nsec = 1000000000 * ticks / hz

  nsec-lt : ticks < hz → nsec < 1000000000
  nsec-lt l = (div-lt_iff_lt-mul {x = 1000000000 * ticks} {y = 1000000000} some_hz).1 (omega arith)

  nsec-pos : 0 < ticks → hz ≤ 1000000000 → 1 ≤ nsec
  nsec-pos p l = (le-div_iff_mul-le {x = 1} {y = 1000000000 * ticks} some_hz).1 (omega arith)

  nsec-late : hz ≤ ticks → 1000000000 ≤ nsec
  nsec-late l =
      (le-div_iff_mul-le {x = 1000000000} {y = 1000000000 * ticks} some_hz).1 (omega arith)

  -- A timer that is not armed and is scheduled for some ticks, of a clock of at most a billion ticks a
  -- second: of the pulses that may follow, one calls the callback if the ticks are less than a second,
  -- and none does if they are a second or more.
  pub schedule_delayed_work-fires :
      (new : ℕ) (t : Timer)
      → 0 < ticks
      → hz ≤ 1000000000
      → t.armed ≡ none
      → (timer_pulse (timer_pulse (schedule_delayed_work hz new ticks t))).fired
        ≡ (if ltb ticks hz then t.fired + 1 else t.fired)
  unfolding schedule_delayed_work
  schedule_delayed_work-fires new t p l a = elim (Bool-cases (ltb ticks hz)) [
    | inl soon ↦
        let below : ltb nsec 1000000000 ≡ true = lt→ltb _ _ (nsec-lt (ltb→lt _ _ soon)) in
        rw soon (timer_settime-fires nsec new t (nsec-pos p l) a ∙ rw below refl)
    | inr late ↦
        let far = nsec-late (ground arith) in
        let beyond : ltb nsec 1000000000 ≡ false = ground arith in
        rw late (timer_settime-fires nsec new t (omega arith) a ∙ rw beyond refl)
  ]
