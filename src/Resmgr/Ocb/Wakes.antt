-- ===== src/Resmgr/Ocb/Wakes.antt =====
-- The thread `rx_loop` among the other threads.
use dev_can_linux.Base.{
  ℕ, ◌≤◌, ◌<◌, ◌≡◌, refl, inl, inr, ◌⊎◌, List-cases, Bool-cases, Bool, true, false, ◌&&◌, List, [],
  ◌∷◌, arith,
}
use dev_can_linux.Resmgr.Read.{remove_client}
use dev_can_linux.Resmgr.Ocb.{
  Ocb, Thread, no_thread, testing, waiting, peeking, picking, sending, exited, faulted, pick_client,
  rx_loop, client_blocks, client_leaves, shut_down, close_queue,
}
use dev_can_linux.Resmgr.Ocb.Awake.{
  Step, own, block, shut, close, answer, Reach, here, next, is_empty, IsAwake, Awake,
  loop_test-Awake, rx_loop-Awake, client_blocks-Awake, close_queue-Awake, shut_down-Awake,
}

-- A thread that waits has been signalled since if a client is blocked or the queue is gone.
abbrev HeardAt : Thread → Ocb → Type 0
HeardAt (waiting n) s =
    (n ≤ s.signals) × ((is_empty s.blocked_clients ≡ false) ⊎ (s.has_queue ≡ false) → n < s.signals)
HeardAt _ s = Unit {0}

abbrev pub Heard : Ocb → Type 0
Heard s = HeardAt s.thread s

-- Between the loop test and the read of the client's `rcvid`.
abbrev pub is_between : Thread → Bool
is_between peeking = true
is_between picking = true
is_between _ = false

-- No client is removed between the two.
abbrev pub AllApart : {s t : Ocb} → Reach s t → Type 0
AllApart here = Unit {0}
AllApart (next r (answer t c)) = AllApart r × (is_between t.thread ≡ false)
AllApart (next r step) = AllApart r

Awake-Heard : (t : Thread) (s : Ocb) → IsAwake t s → HeardAt t s
Awake-Heard no_thread s a = tt
Awake-Heard testing s a = tt
Awake-Heard (waiting n) s a = a
Awake-Heard peeking s a = tt
Awake-Heard picking s a = tt
Awake-Heard (sending c) s a = tt
Awake-Heard exited s a = tt
Awake-Heard faulted s a = tt

pick_client-Heard : (s : Ocb) → Heard (pick_client s)
unfolding pick_client
pick_client-Heard s = elim (List-cases s.blocked_clients) [
  | inl n ↦ rw (pick_client, n) tt
  | inr (c, cs, l) ↦ rw (pick_client, l) tt
]

rx_loop-Heard :
    (t : Thread) (s : Ocb) (got served : Bool)
    → Heard (rx_loop got served (record s { thread = t }))
unfolding rx_loop
rx_loop-Heard no_thread s got served = tt
rx_loop-Heard testing s got served =
    Awake-Heard _ _ (loop_test-Awake (record s { thread = testing }))
rx_loop-Heard (waiting n) s got served =
    Awake-Heard _ _ (loop_test-Awake (record s { thread = waiting n }))
rx_loop-Heard peeking s got served = elim (Bool-cases (got && s.has_queue)) [
  | inl t ↦ rw t tt
  | inr f ↦ rw f tt
]
rx_loop-Heard picking s got served = pick_client-Heard (record s { thread = picking })
rx_loop-Heard (sending c) s got served = tt
rx_loop-Heard exited s got served = tt
rx_loop-Heard faulted s got served = tt

-- The other threads leave a thread where it stands.
HeardAt-keeps :
    (t : Thread) (s u : Ocb)
    → (s.signals ≤ u.signals)
    → ((is_empty u.blocked_clients ≡ false) ⊎ (u.has_queue ≡ false)
        → (s.signals < u.signals) ⊎ ((is_empty s.blocked_clients ≡ false) ⊎ (s.has_queue ≡ false)))
    → HeardAt t s
    → HeardAt t u
HeardAt-keeps no_thread s u l f h = tt
HeardAt-keeps testing s u l f h = tt
HeardAt-keeps (waiting n) s u l f (m, h) = (
  omega (arith, l, m),
  λ owed. elim (f owed) [ inl more ↦ omega (arith, more, m) | inr old ↦ omega (arith, l, h old) ],
)
HeardAt-keeps peeking s u l f h = tt
HeardAt-keeps picking s u l f h = tt
HeardAt-keeps (sending c) s u l f h = tt
HeardAt-keeps exited s u l f h = tt
HeardAt-keeps faulted s u l f h = tt

remove-empty : (c : ℕ) (cs : List ℕ) → is_empty (remove_client c cs) ≡ false → is_empty cs ≡ false
unfolding remove_client
remove-empty c [] h = h
remove-empty c (d ∷ cs) h = refl

step-Heard : (s u : Ocb) → Step s u → Heard s → Heard u
unfolding client_blocks close_queue shut_down client_leaves
step-Heard s u (own _ got served) h = rx_loop-Heard s.thread s got served
step-Heard s u (block _ c) h = HeardAt-keeps s.thread s u (omega arith) (λ o. inl (omega arith)) h
step-Heard s u (shut _) h = HeardAt-keeps s.thread s u (omega arith) (λ o. inr o) h
step-Heard s u (close _) h = HeardAt-keeps s.thread s u (omega arith) (λ o. inl (omega arith)) h
step-Heard s u (answer _ c) h =
    HeardAt-keeps s.thread s u (omega arith)
      (λ o. elim o [
        | inl some_client ↦ inr (inl (remove-empty c s.blocked_clients some_client))
        | inr gone ↦ inr (inr gone)
      ])
      h

client_leaves-Awake :
    (t : Thread) (s : Ocb) (c : ℕ)
    → is_between t ≡ false
    → IsAwake t s
    → IsAwake t (client_leaves c s)
unfolding client_leaves
client_leaves-Awake no_thread s c apart a = tt
client_leaves-Awake testing s c apart a = tt
client_leaves-Awake (waiting n) s c apart (l, a) = (
  l,
  λ owed. elim owed [
    | inl some_client ↦ a (inl (remove-empty c s.blocked_clients some_client))
    | inr gone ↦ a (inr gone)
  ],
)
client_leaves-Awake peeking s c apart a = cc
client_leaves-Awake picking s c apart a = cc
client_leaves-Awake (sending d) s c apart a = tt
client_leaves-Awake exited s c apart a = tt
client_leaves-Awake faulted s c apart a = a

Reach-Heard : {s t : Ocb} → Heard s → Reach s t → Heard t
Reach-Heard h here = h
Reach-Heard h (next {t = t} {u = u} r step) = step-Heard t u step (Reach-Heard h r)

apart-Awake : {s t : Ocb} → Awake s → (r : Reach s t) → AllApart r → Awake t
unfolding client_blocks close_queue shut_down client_leaves
apart-Awake a here k = a
apart-Awake a (next r (own t got served)) k =
    rx_loop-Awake t.thread t got served (apart-Awake a r k)
apart-Awake a (next r (block t c)) k = client_blocks-Awake t.thread t c (apart-Awake a r k)
apart-Awake a (next r (shut t)) k = shut_down-Awake t.thread t (apart-Awake a r k)
apart-Awake a (next r (close t)) k = close_queue-Awake t.thread t (apart-Awake a r k)
apart-Awake a (next r (answer t c)) (k, apart) =
    client_leaves-Awake t.thread t c apart (apart-Awake a r k)

-- However the thread of an open context block and the other threads take turns, from a state that is
-- awake: while the thread waits with a client blocked, or with the queue gone, it has been signalled
-- since. Where no other handler removes a client between the loop test and the read of the client's
-- `rcvid`, the thread never reads a client through NULL, either.
pub Reach-Awake : {s t : Ocb} → Awake s → (r : Reach s t) → Heard t × (AllApart r → Awake t)
Reach-Awake {s} a r = (Reach-Heard (Awake-Heard s.thread s a) r, apart-Awake a r)
