-- ===== src/Resmgr/Devctl/Settings.antt =====
-- The settings of a channel, and the timing of its device.
use dev_can_linux.Base.{
  subst, ℕ, ◌≡◌, ◌≢◌, refl, sym, ap, ◌∙◌, Bool, true, false, Option, none, some, arith, ◌==◌, errno,
  ◌⊎◌, inl, inr, Bool-cases, Option-cases,
}
use dev_can_linux.Queue.{
  Queue, Outcome, slot, null, retry, wait, fault, message_at, dequeue_noblock,
}
use dev_can_linux.Resmgr.{ChannelType, Resmgr, rx_channel, tx_channel}
use dev_can_linux.Resmgr.Timing.{Timing, UserDevSetup, create_user_dev_setup}
use dev_can_linux.Resmgr.Devctl.Frame.{read_frame_lem, read_frame-tx}
use dev_can_linux.Resmgr.Devctl.{
  Reach, CanDevice, Command, Reply, Call, failed, done, nothing, word, set_latency_limit_ms,
  get_mid, set_mid, get_mfilter, set_mfilter, get_prio, set_prio, get_timestamp, set_timestamp_to,
  read_canmsg_ext, write_canmsg_ext, get_error, debug_info, debug_info2, stats, info, set_timing,
  rx_frame_raw_noblock, rx_frame_raw_block, tx_frame_raw, unknown, with_clients, frame_dequeued,
  read_frame, write_frame, change_timing, change_link, asked_timing, with_device, io_devctl,
}

-- The four commands that write to the members of the resource manager.
abbrev pub sets : Command → Bool
sets (set_latency_limit_ms x) = true
sets (set_mid x) = true
sets (set_mfilter x) = true
sets (set_prio x) = true
sets _ = false

abbrev the_result {ℓ} : {A : Type ℓ} → A → Option A → A
the_result a none = a
the_result a (some b) = b

-- The resource manager after a call: as before, where the call does not come back.
abbrev pub resmgr_after : Resmgr → Option (Reply × Reach) → Resmgr
resmgr_after r none = r
resmgr_after r (some (out, s)) = s.resmgr

frame_dequeued-keeps :
    (b : Bool) (rcvid : ℕ) (o : Outcome) (q : Queue) (s : Reach)
    → resmgr_after s.resmgr (frame_dequeued b rcvid (o, q) s) ≡ s.resmgr
unfolding frame_dequeued with_clients
frame_dequeued-keeps b rcvid (slot i) q s = elim (Option-cases (message_at q i)) [
  | inl at ↦ rw (frame_dequeued, at) refl
  | inr (m, at) ↦ rw (frame_dequeued, at) refl
]
frame_dequeued-keeps true rcvid null q s = refl
frame_dequeued-keeps false rcvid null q s = refl
frame_dequeued-keeps b rcvid retry q s = refl
frame_dequeued-keeps b rcvid wait q s = refl
frame_dequeued-keeps b rcvid fault q s = refl

ChannelType-cases : (c : ChannelType) → (c ≡ rx_channel) ⊎ (c ≡ tx_channel)
ChannelType-cases rx_channel = inl refl
ChannelType-cases tx_channel = inr refl

read_frame-keeps :
    (fuel : ℕ) (clock : ℕ → ℕ) (b : Bool) (rcvid : ℕ) (s : Reach)
    → resmgr_after s.resmgr (read_frame fuel clock b rcvid s) ≡ s.resmgr
read_frame-keeps fuel clock b rcvid s =
    let outcome = dequeue_noblock fuel s.resmgr.latency_limit_ms clock s.rx.rx_queue in
    elim (ChannelType-cases s.resmgr.channel_type) [
      | inl rx ↦
          ap (resmgr_after s.resmgr) (read_frame_lem fuel clock b rcvid s rx)
          ∙ frame_dequeued-keeps b rcvid outcome.0 outcome.1 s
      | inr tx ↦ ap (resmgr_after s.resmgr) (read_frame-tx fuel clock b rcvid s tx)
    ]

write_frame-keeps : (m : _) (s : Reach) → (write_frame m s).1.resmgr ≡ s.resmgr
unfolding write_frame
write_frame-keeps m s = elim (ChannelType-cases s.resmgr.channel_type) [
  | inl rx ↦ rw rx refl
  | inr tx ↦ rw tx refl
]

with_device-keeps :
    (s : Reach) (o : Option (Reply × CanDevice))
    → resmgr_after s.resmgr (with_device s o) ≡ s.resmgr
with_device-keeps s none = refl
with_device-keeps s (some (out, d)) = refl

-- No other command changes the members that select, mark and filter messages.
pub io_devctl-keeps :
    (c : Call) (k : Command) (s : Reach)
    → sets k ≡ false
    → resmgr_after s.resmgr (io_devctl c k s) ≡ s.resmgr
unfolding io_devctl
io_devctl-keeps c (set_latency_limit_ms x) s h = cc
io_devctl-keeps c (set_mid x) s h = cc
io_devctl-keeps c (set_mfilter x) s h = cc
io_devctl-keeps c (set_prio x) s h = cc
io_devctl-keeps c get_mid s h = refl
io_devctl-keeps c get_mfilter s h = refl
io_devctl-keeps c get_prio s h = refl
io_devctl-keeps c get_timestamp s h = refl
io_devctl-keeps c (set_timestamp_to x) s h = refl
io_devctl-keeps c read_canmsg_ext s h = read_frame-keeps c.fuel c.clock true c.rcvid s
io_devctl-keeps c (write_canmsg_ext m) s h = write_frame-keeps m s
io_devctl-keeps c get_error s h = refl
io_devctl-keeps c debug_info s h = refl
io_devctl-keeps c (debug_info2 x) s h = refl
io_devctl-keeps c stats s h = refl
io_devctl-keeps c info s h = refl
io_devctl-keeps c (set_timing t) s h =
    with_device-keeps s (change_timing c.changelink c.wrapped t s.device)
io_devctl-keeps c rx_frame_raw_noblock s h = read_frame-keeps c.fuel c.clock false c.rcvid s
io_devctl-keeps c rx_frame_raw_block s h = read_frame-keeps c.fuel c.clock true c.rcvid s
io_devctl-keeps c (tx_frame_raw m) s h = write_frame-keeps m s
io_devctl-keeps c (unknown x) s h = refl

-- A sequence of commands that clients send, each by its own call.
pub data Commands : Reach → Reach → Type 0 where
  sent_none : {s : Reach} → Commands s s
  sent :
      (c : Call) (k : Command) {s t u : Reach} {out : Reply}
      → sets k ≡ false
      → io_devctl c k s ≡ some (out, t)
      → Commands t u
      → Commands s u

Commands-keeps : {s u : Reach} → Commands s u → u.resmgr ≡ s.resmgr
Commands-keeps sent_none = refl
Commands-keeps {s} (sent c k h e rest) =
    Commands-keeps rest ∙ ap (resmgr_after s.resmgr) (sym e) ∙ io_devctl-keeps c k s h

-- What is set is what is read back, for the identifier and the filter, after any commands of any
-- clients that set neither of these members.
pub settings_last :
    (c d : Call) (x y : ℕ) (s : Reach) {t u v : Reach} {out out' : Reply}
    → io_devctl c (set_mid x) s ≡ some (out, t)
    → io_devctl c (set_mfilter y) t ≡ some (out', u)
    → Commands u v
    → (io_devctl d get_mid v ≡ some (done (word x), v))
      × (io_devctl d get_mfilter v ≡ some (done (word y), v))
unfolding io_devctl
settings_last c d x y s {t} {u} {v} e f g =
    let first = ap (resmgr_after s.resmgr) e in
    let second = ap (resmgr_after t.resmgr) f in
    let kept = Commands-keeps g ∙ sym second in
    (
      ap (λ m. some (done (word m), v)) (ap (λ r. r.mid) kept ∙ ap (λ r. r.mid) (sym first)),
      ap (λ m. some (done (word m), v)) (ap (λ r. r.mfilter) kept),
    )

-- The device is up, and the client is told the error code, if there is one.
abbrev pub IsLinked : Reply × CanDevice → Type 0
IsLinked (out, e) =
    (e.is_up ≡ true) × ((out ≡ done nothing) ⊎ ((err : ℕ) × (err ≢ 0) × (out ≡ failed (errno err))))

change_link-IsLinked :
    (changelink : UserDevSetup → CanDevice → ℕ × CanDevice) (user : UserDevSetup) (d : CanDevice)
    → IsLinked (change_link changelink user d)
unfolding change_link
change_link-IsLinked changelink user d =
    let err = (changelink user (record d { is_up = false })).0 in
    elim (Bool-cases (err == 0)) [
      | inl fine ↦ (refl, inl (rw fine refl))
      | inr bad ↦ (refl, inr (err, ground arith, rw bad refl))
    ]

-- CAN_DEVCTL_SET_TIMING, whatever the drivers make of the new timing: the device is up again, and
-- the client is told their error code, if there is one.
pub change_timing-IsLinked :
    (changelink : UserDevSetup → CanDevice → ℕ × CanDevice) (wrapped : ℕ) (t : Timing)
    (d : CanDevice) (out : Reply × CanDevice)
    → change_timing changelink wrapped t d ≡ some out
    → IsLinked out
unfolding change_timing
change_timing-IsLinked changelink wrapped t d out h =
    elim (Option-cases (create_user_dev_setup wrapped (asked_timing t d) d.clock_freq)) [
      | inl e ↦
          let stuck : change_timing changelink wrapped t d ≡ none = rw (change_timing, e) refl in
          absurd (cc)
      | inr (user, e) ↦
          let runs : change_timing changelink wrapped t d ≡ some (change_link changelink user d) =
            rw (change_timing, e) refl in
          subst IsLinked (ap (the_result (change_link changelink user d)) (sym runs ∙ h))
            (change_link-IsLinked changelink user d)
    ]
