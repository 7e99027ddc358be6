-- ===== src/Queue/Fifo.antt =====
-- The messages that a queue holds, oldest first, and how many.
use dev_can_linux.Base.{
  ℕ, suc, ◌+◌, ◌-◌, ◌++◌, List, [], ◌∷◌, Option, none, some, leb, span, if◌then◌else◌,
}
use dev_can_linux.Queue.{CanMsg, Queue, is_stale}

-- `data[begin .. end)`, or `data[begin .. size)` and then `data[0 .. end)` when `end` has gone
-- round the array.
unfoldable pub contents : Queue → List CanMsg
contents q =
    if leb q.begin q.end
    then span q.slots q.begin (q.end - q.begin)
    else span q.slots q.begin (q.size - q.begin) ++ span q.slots 0 q.end

unfoldable pub count : Queue → ℕ
count q = if leb q.begin q.end then q.end - q.begin else q.size - q.begin + q.end

-- An abstract queue gives its oldest message that is not stale, and forgets those before it. The
-- i-th message looked at is judged by the i-th reading of the clock.
unfoldable pub pop_fresh :
    (latency_limit_ms : ℕ) (clock : ℕ → ℕ) → List CanMsg → Option CanMsg × List CanMsg
pop_fresh latency clock [] = (none, [])
pop_fresh latency clock (m ∷ ms) =
    if is_stale latency (clock 0) m then pop_fresh latency (λ i. clock (suc i)) ms else (some m, ms)
