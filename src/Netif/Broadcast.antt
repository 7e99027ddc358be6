-- ===== src/Netif/Broadcast.antt =====
-- The delivery of a message to the clients of a device.
use Prim.Native.Nat.{bit_and}
use dev_can_linux.Base.{
  Bool, ◌==◌, ℕ, ◌≤◌, ◌≡◌, refl, inl, inr, true, List, [], ◌∷◌, ◌++◌, arith, drop, length,
  if◌then◌else◌, Bool-cases,
}
use dev_can_linux.Queue.{CanMsg, Queue}
use dev_can_linux.Queue.Fifo.{contents}
use dev_can_linux.Queue.Invariant.{IsValid, enqueue-IsValid}
use dev_can_linux.Queue.Enqueue.{lost, WrapsOntoBegin, enqueue-append}
use dev_can_linux.Netif.{Client, accepts, broadcast}

-- A queue that takes a message: up, and not about to wrap `end` onto `begin`.
pub record IsReady (q : Queue) : Type 0 where
  pub valid : IsValid q
  pub up : q.session_up ≡ true
  pub room : ¬ (WrapsOntoBegin q)

abbrev pub AllReady : List Client → Type 0
AllReady [] = Unit {0}
AllReady (c ∷ cs) = IsReady c.rx_queue × AllReady cs

-- A filter lets an identifier pass that has no bit outside of it.
abbrev pub passes : (filter mid : ℕ) → Bool
passes filter mid = bit_and mid filter == mid

module _ (mfilter : ℕ → ℕ) (m : CanMsg) where
  -- A client whose filter lets its identifier pass has it behind those it held (less the oldest, where
  -- the queue was full); any other client is as it was.
  pub record IsServed (c r : Client) : Type 0 where
    pub channel : r.channel ≡ c.channel
    pub valid : IsValid r.rx_queue
    pub holds : contents r.rx_queue ≡ (
        if passes (mfilter c.channel) m.mid
        then drop (lost c.rx_queue) (contents c.rx_queue) ++ (m ∷ [])
        else contents c.rx_queue)

  -- Each client of the list is served, and none is added, removed or moved.
  abbrev pub AllServed : List Client → List Client → Type 0
  AllServed [] [] = Unit {0}
  AllServed (c ∷ cs) (r ∷ rs) = IsServed c r × AllServed cs rs
  AllServed _ _ = ⊥

  pub broadcast-AllServed :
      (cs : List Client) → AllReady cs → AllServed cs (broadcast mfilter m cs).0
  unfolding broadcast
  broadcast-AllServed [] h = tt
  broadcast-AllServed (c ∷ cs) (h, hs) = elim (Bool-cases (accepts (mfilter c.channel) m)) [
    | inl yields ↦ rw yields (
      record {
        channel = refl;
        valid = enqueue-IsValid m h.valid;
        holds = rw yields (enqueue-append m h.valid h.up h.room).1;
      },
      broadcast-AllServed cs hs,
    )
    | inr not_for ↦ rw not_for (
      record { channel = refl; valid = h.valid; holds = rw not_for refl },
      broadcast-AllServed cs hs,
    )
  ]

  -- No more drops are reported than there are clients.
  pub broadcast-le-length : (cs : List Client) → (broadcast mfilter m cs).1 ≤ length cs
  unfolding broadcast
  broadcast-le-length [] = omega arith
  broadcast-le-length (c ∷ cs) = ground (arith, broadcast-le-length cs)
