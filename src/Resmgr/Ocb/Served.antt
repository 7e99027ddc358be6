-- ===== src/Resmgr/Ocb/Served.antt =====
-- What the thread `rx_loop` does by itself.
use dev_can_linux.Base.{
  ℕ, zero, suc, ◌≡◌, ◌≢◌, refl, ap, sym, subst, ◌∙◌, inl, inr, List-cases, Bool, true, false, ◌&&◌,
  List, [], ◌∷◌, ◌++◌, append_assoc, append-nil, arith, if◌then◌else◌, length, replicate,
}
use dev_can_linux.Links.Nodes.{Away, Distinct}
use dev_can_linux.Resmgr.Read.{remove_client}
use dev_can_linux.Resmgr.Ocb.{
  Ocb, Thread, no_thread, testing, waiting, peeking, picking, sending, exited, faulted, loop_test,
  pick_client, rx_loop,
}
use dev_can_linux.Resmgr.Ocb.Awake.{IsAwake, Awake}

-- Steps of the thread, with what its calls come to in each.
unfoldable pub run : (answers : List (Bool × Bool)) → Ocb → Ocb
run [] s = s
run ((got, served) ∷ more) s = run more (rx_loop got served s)

loop_test-exited : (s : Ocb) → s.has_queue ≡ false → loop_test s ≡ record s { thread = exited }
unfolding loop_test
loop_test-exited s e = elim (List-cases s.blocked_clients) [
  | inl n ↦ ground arith
  | inr (c, cs, l) ↦ ground arith
]

loop_exits : (s : Ocb) → s.has_queue ≡ false → (loop_test s).thread ≡ exited
loop_exits s e = ap (λ t. t.thread) (loop_test-exited s e)

stays_exited :
    (s : Ocb) (got served : Bool)
    → s.has_queue ≡ false
    → (rx_loop got served (loop_test s)).thread ≡ exited
unfolding rx_loop
stays_exited s got served e = rw (loop_test-exited s e) refl

exits_sending :
    (s : Ocb) (d : ℕ) (b c : Bool × Bool)
    → s.has_queue ≡ false
    → (run (b ∷ c ∷ []) (record s { thread = sending d })).thread ≡ exited
unfolding run rx_loop
exits_sending s d b c e = loop_exits _ e

-- Three steps from any place.
exits :
    (t : Thread) (s : Ocb) (a b c : Bool × Bool)
    → t ≢ no_thread
    → IsAwake t s
    → s.has_queue ≡ false
    → (run (a ∷ b ∷ c ∷ []) (record s { thread = t })).thread ≡ exited
unfolding run rx_loop pick_client
exits no_thread s a b c ne awake e = absurd (ne refl)
exits testing s a b c ne awake e = rw (loop_test-exited (record s { thread = testing }) e) refl
exits (waiting n) s a b c ne awake e =
    rw (loop_test-exited (record s { thread = waiting n }) e) refl
exits peeking s a b c ne awake e =
    let no_message : (a.0 && s.has_queue) ≡ false = ground arith in
    rw (no_message, loop_test-exited (record s { thread = testing }) e) refl
exits picking s a b c ne awake e = elim (List-cases s.blocked_clients) [
  | inl n ↦ absurd (ground arith)
  | inr (d, cs, l) ↦
      let picked : pick_client (record s { thread = picking })
          ≡ record s { thread = sending d; sent = s.sent ++ (d ∷ []) } =
        ground arith in
      rw picked (exits_sending (record s { sent = s.sent ++ (d ∷ []) }) d b c e)
]
exits (sending d) s a b c ne awake e = stays_exited _ c.0 c.1 e
exits exited s a b c ne awake e = refl
exits faulted s a b c ne awake e = elim awake [ ]

-- Once `can_ocb_free` has set the queue to NULL, the thread of a block ends within three steps of its
-- own, wherever it stands and whatever its calls come to, so that `pthread_join` returns.
pub run-exited :
    (s : Ocb) (a b c : Bool × Bool)
    → s.thread ≢ no_thread
    → Awake s
    → s.has_queue ≡ false
    → (run (a ∷ b ∷ c ∷ []) s).thread ≡ exited
run-exited s a b c ne awake e = exits s.thread s a b c ne awake e

remove_client-absent : (c : ℕ) (cs : List ℕ) → Away c cs → remove_client c cs ≡ cs
unfolding remove_client
remove_client-absent c [] h = refl
remove_client-absent c (d ∷ cs) (ne, h) = let rest = remove_client-absent c cs h in ground arith

remove_client-here : (c : ℕ) (cs : List ℕ) → Away c cs → remove_client c (c ∷ cs) ≡ cs
unfolding remove_client
remove_client-here c cs h = let rest = remove_client-absent c cs h in ground arith

-- `n` rounds of four steps, with a message at hand and one answer for all clients.
abbrev pub served_rounds : (n : ℕ) (served : Bool) → List (Bool × Bool)
served_rounds zero served = []
served_rounds (suc n) served =
    (true, served) ∷ (true, served) ∷ (true, served) ∷ (true, served) ∷ served_rounds n served

-- A round for the client at the head.
one_round :
    (s : Ocb) (c : ℕ) (cs : List ℕ) (n : ℕ) (served : Bool)
    → s.shutdown ≡ false
    → s.has_queue ≡ true
    → s.blocked_clients ≡ c ∷ cs
    → run (served_rounds (suc n) served) (record s { thread = testing })
      ≡ run (served_rounds n served) (record s {
        thread = testing;
        sent = s.sent ++ (c ∷ []);
        blocked_clients = if served then remove_client c (c ∷ cs) else c ∷ cs;
      })
unfolding run rx_loop loop_test pick_client
one_round s c cs n served up opened list = ground arith

drains :
    (cs : List ℕ) (s : Ocb)
    → s.shutdown ≡ false
    → s.has_queue ≡ true
    → s.blocked_clients ≡ cs
    → Distinct cs
    → run (served_rounds (length cs) true) (record s { thread = testing })
      ≡ record s { thread = testing; blocked_clients = []; sent = s.sent ++ cs }
unfolding run
drains [] s up opened list d = ground (arith, append-nil s.sent)
drains (c ∷ cs) s up opened list (new, d) =
    let left : remove_client c (c ∷ cs) ≡ cs = remove_client-here c cs new in
    one_round s c cs (length cs) true up opened list
    ∙ ap
        (λ l.
          run (served_rounds (length cs) true)
            (record s { thread = testing; sent = s.sent ++ (c ∷ []); blocked_clients = l }))
        left
    ∙ drains cs (record s { sent = s.sent ++ (c ∷ []); blocked_clients = cs }) up opened refl d
    ∙ ap (λ l. record s { thread = testing; blocked_clients = []; sent = l })
        (append_assoc s.sent (c ∷ []) cs)

starves :
    (n : ℕ) (c : ℕ) (cs : List ℕ) (s : Ocb)
    → s.shutdown ≡ false
    → s.has_queue ≡ true
    → s.blocked_clients ≡ c ∷ cs
    → run (served_rounds n false) (record s { thread = testing })
      ≡ record s { thread = testing; sent = s.sent ++ replicate n c }
unfolding run replicate
starves zero c cs s up opened list = ground (arith, append-nil s.sent)
starves (suc n) c cs s up opened list =
    one_round s c cs n false up opened list
    ∙ starves n c cs (record s { sent = s.sent ++ (c ∷ []); blocked_clients = c ∷ cs }) up opened
        refl
    ∙ ap
        (λ l. record s {
          thread = testing;
          sent = s.sent ++ (c ∷ []) ++ replicate n c;
          blocked_clients = l;
        })
        (sym list)
    ∙ ap (λ l. record s { thread = testing; sent = l })
        (append_assoc s.sent (c ∷ []) (replicate n c))

-- While messages are at hand and the clients can be answered, the blocked clients are sent once each,
-- in the order in which they came, and none is left.
pub run-drains :
    (cs : List ℕ) (s : Ocb)
    → s.thread ≡ testing
    → s.shutdown ≡ false
    → s.has_queue ≡ true
    → s.blocked_clients ≡ cs
    → Distinct cs
    → run (served_rounds (length cs) true) s
      ≡ record s { blocked_clients = []; sent = s.sent ++ cs }
unfolding run
run-drains cs s at up opened list d =
    let same : record s { thread = testing } ≡ s = ground arith in
    subst
      (λ t.
        run (served_rounds (length cs) true) t
        ≡ record t { blocked_clients = []; sent = t.sent ++ cs })
      same (drains cs s up opened list d)

-- A client at the head that cannot be answered, such as one that is gone: it is sent again and again,
-- and those behind it never are.
pub run-starves :
    (n : ℕ) (c : ℕ) (cs : List ℕ) (s : Ocb)
    → s.thread ≡ testing
    → s.shutdown ≡ false
    → s.has_queue ≡ true
    → s.blocked_clients ≡ c ∷ cs
    → run (served_rounds n false) s ≡ record s { sent = s.sent ++ replicate n c }
unfolding run replicate
run-starves n c cs s at up opened list =
    let same : record s { thread = testing } ≡ s = ground arith in
    subst (λ t. run (served_rounds n false) t ≡ record t { sent = t.sent ++ replicate n c }) same
      (starves n c cs s up opened list)
