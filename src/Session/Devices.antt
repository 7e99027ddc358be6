-- ===== src/Session/Devices.antt =====
-- The sessions of devices.
use dev_can_linux.Base.{
  if-false, ℕ, zero, suc, ◌<◌, ◌≡◌, ◌≢◌, refl, sym, ap, ◌∙◌, subst, true, false, Option, none, some,
  List, [], ◌∷◌, ◌++◌, arith, length, ◌==◌, Status, eok,
}
use dev_can_linux.Queue.{Queue}
use dev_can_linux.Links.{write, unlink}
use dev_can_linux.Links.Nodes.{Away}
use dev_can_linux.Links.Segment.{Segment, write_self, write-ne}
use dev_can_linux.Links.Laws.{IsList, store_lem}
use dev_can_linux.Links.Unlink.{unlink-IsList}
use dev_can_linux.Session.{
  Sessions, find_from, get_device_session, destroyed, counts_dropped, create_client_session,
  create_device_session, destroy_device_session,
}

-- None of the sessions is one of the device.
abbrev pub NoneOf : (device : ℕ → ℕ) → ℕ → List ℕ → Type 0
NoneOf device dev [] = Unit {0}
NoneOf device dev (x ∷ xs) = (device x ≢ dev) × NoneOf device dev xs

find_from-some :
    (fuel : ℕ) (s : Sessions) (dev d : ℕ) (xs ys : List ℕ) (p q p' : ℕ)
    → Segment s.devices p q (xs ++ (d ∷ ys)) p' 0
    → s.device d ≡ dev
    → NoneOf s.device dev xs
    → length xs < fuel
    → find_from fuel s dev q ≡ some d
unfolding find_from
find_from-some zero s dev d xs ys p q p' g e o f = elim f [ ]
find_from-some (suc fuel) s dev d [] ys p q p' (a, b, _, _) e o f =
    let there : (q == 0) ≡ false = ground arith in
    let found : (s.device q == dev) ≡ true = ground (arith, ap s.device a) in
    rw (there, found) (ap some a)
find_from-some (suc fuel) s dev d (x ∷ xs) ys p q p' (a, b, c, t) e (o, os) f =
    let there : (q == 0) ≡ false = ground arith in
    let other : (s.device q == dev) ≡ false = ground (arith, ap s.device a) in
    let from_q =
      subst (λ u. Segment s.devices x u (xs ++ (d ∷ ys)) p' 0) (sym (ap s.devices.next a)) t in
    rw (there, other)
      (find_from-some fuel s dev d xs ys x (s.devices.next q) p' from_q e os (omega arith))

find_from-none :
    (fuel : ℕ) (s : Sessions) (dev : ℕ) (xs : List ℕ) (p q p' : ℕ)
    → Segment s.devices p q xs p' 0
    → NoneOf s.device dev xs
    → length xs < fuel
    → find_from fuel s dev q ≡ some 0
unfolding find_from
find_from-none zero s dev xs p q p' g o f = elim f [ ]
find_from-none (suc fuel) s dev [] p q p' (a, b) o f =
    let ends : (q == 0) ≡ true = ground arith in rw ends refl
find_from-none (suc fuel) s dev (x ∷ xs) p q p' (a, b, c, t) (o, os) f =
    let there : (q == 0) ≡ false = ground arith in
    let other : (s.device q == dev) ≡ false = ground (arith, ap s.device a) in
    let from_q = subst (λ u. Segment s.devices x u xs p' 0) (sym (ap s.devices.next a)) t in
    rw (there, other) (find_from-none fuel s dev xs x (s.devices.next q) p' from_q os (omega arith))

-- `get_device_session` finds the first session of the device, and NULL if there is none, in as many
-- rounds as there are sessions and one.
pub get_device_session_lem :
    (fuel dev d : ℕ) (s : Sessions) (xs ys : List ℕ)
    → IsList s.devices (xs ++ (d ∷ ys))
    → s.device d ≡ dev
    → NoneOf s.device dev xs
    → length xs < fuel
    → get_device_session fuel s dev ≡ some d
unfolding get_device_session
get_device_session_lem fuel dev d s xs ys h e o f =
    find_from-some fuel s dev d xs ys 0 s.devices.root h.tail h.linked e o f

pub get_device_session-null :
    (fuel dev : ℕ) (s : Sessions) (xs : List ℕ)
    → IsList s.devices xs
    → NoneOf s.device dev xs
    → length xs < fuel
    → get_device_session fuel s dev ≡ some 0
unfolding get_device_session
get_device_session-null fuel dev s xs h o f =
    find_from-none fuel s dev xs 0 s.devices.root h.tail h.linked o f

NoneOf-write :
    (device : ℕ → ℕ) (dev n v : ℕ) (xs : List ℕ)
    → Away n xs
    → NoneOf device dev xs
    → NoneOf (write device n v) dev xs
NoneOf-write device dev n v [] h o = tt
NoneOf-write device dev n v (x ∷ xs) (h, hs) (o, os) =
    ((λ e. o (sym (write-ne device v h) ∙ e)), NoneOf-write device dev n v xs hs os)

-- A new session of a device that had none is the last one, has no clients, and is the one that is found
-- for the device; the mutex is free again.
pub create_device_session-IsList :
    (fuel dev n : ℕ) (q : Queue) (s : Sessions) (xs : List ℕ)
    → s.mutex ≡ false
    → n ≢ 0
    → IsList s.devices xs
    → NoneOf s.device dev xs
    → Away n xs
    → length xs < fuel
    → (t : Sessions) × (create_device_session fuel dev n (eok, some q) true s ≡ some (n, t))
      × IsList t.devices (xs ++ (n ∷ []))
      × (get_device_session fuel t dev ≡ some n)
      × (t.root_client n ≡ 0)
      × (t.mutex ≡ false)
unfolding create_device_session
create_device_session-IsList fuel dev n q s xs u pos h o away f =
    let (m, e, k) = store_lem fuel n xs h f pos away in
    let not_n : (n == 0) ≡ false = ground arith in
    let t = record s {
      devices = m;
      device = write s.device n dev;
      root_client = write s.root_client n 0;
      tx_queue = write s.tx_queue n (counts_dropped q);
    } in
    (
      t,
      if-false none _ u ∙ rw (not_n, e) refl,
      k,
      get_device_session_lem fuel dev n t xs [] k (write_self s.device n dev)
          (NoneOf-write s.device dev n dev xs away o) f,
      write_self s.root_client n 0,
      u,
    )

-- A session of a device that is destroyed leaves the list; but the mutex stays locked, and no
-- client of another device can be given a session any more.
pub destroy_device_session-blocks :
    (d fuel dev ds n : ℕ) (created : Status × Option Queue) (s : Sessions) (xs ys us vs : List ℕ)
    → d ≢ 0
    → s.mutex ≡ false
    → IsList s.devices (xs ++ (d ∷ ys))
    → dev ≢ 0
    → ds ≢ 0
    → s.device ds ≡ dev
    → xs ++ ys ≡ us ++ (ds ∷ vs)
    → NoneOf s.device dev us
    → length us < fuel
    → (t : Sessions) × (destroy_device_session d s ≡ some t)
      × IsList t.devices (xs ++ ys)
      × (create_client_session fuel dev n created t ≡ none)
unfolding destroy_device_session create_client_session
destroy_device_session-blocks d fuel dev ds n created s xs ys us vs pos u h p r e same o f =
    let not_d : (d == 0) ≡ false = ground arith in
    let not_dev : (dev == 0) ≡ false = ground arith in
    let not_ds : (ds == 0) ≡ false = ground arith in
    let t = record s {
      mutex = true;
      devices = unlink d s.devices;
      tx_queue = write s.tx_queue d (destroyed (s.tx_queue d));
    } in
    let left = unlink-IsList d xs ys h in
    let found =
      get_device_session_lem fuel dev ds t us vs (subst (IsList t.devices) same left) e o f in
    (t, rw not_d (if-false none _ u), left, rw (not_dev, found) (rw not_ds refl))
