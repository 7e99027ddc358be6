-- ===== src/Timestamp/Laws.antt =====
-- What a client that sets the timestamp reads later.
use dev_can_linux.Base.{ℕ, ◌+◌, ◌-◌, ◌/◌, ◌^◌, ◌≤◌, ◌<◌, ◌≡◌, ◌≢◌, true, false, arith}
use dev_can_linux.Base.Word.{u32}
use dev_can_linux.Timestamp.{UserTime, timestamp, set_timestamp}

-- The timestamps run on from the value that a client has set, by the milliseconds gone since,
-- modulo 2^32. (Not with `-t`, and not if the clock's milliseconds were 0 modulo 2^32 then.)
pub timestamp-set_timestamp :
    (u : UserTime) (ts before now : ℕ)
    → u.optt ≡ false
    → ts < 2 ^ 32
    → before ≤ now
    → now < 2 ^ 64
    → u32 (before / 1000) ≢ 0
    → timestamp (set_timestamp u ts before) now ≡ u32 (ts + (now / 1000 - before / 1000))
unfolding timestamp set_timestamp
timestamp-set_timestamp u ts before now off small order bound ne = ground arith

-- With `-t` every timestamp is the value that the client set last.
pub timestamp-set_fixed :
    (u : UserTime) (ts before now : ℕ)
    → u.optt ≡ true
    → timestamp (set_timestamp u ts before) now ≡ ts
unfolding timestamp set_timestamp
timestamp-set_fixed u ts before now on = ground arith
