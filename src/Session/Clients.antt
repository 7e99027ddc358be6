-- ===== src/Session/Clients.antt =====
-- The sessions of clients.
use dev_can_linux.Base.{
  if-false, ℕ, ◌<◌, ◌≡◌, ◌≢◌, refl, sym, ◌∙◌, subst, true, false, none, some, List, [], ◌∷◌, ◌++◌,
  arith, length, ◌==◌, eok,
}
use dev_can_linux.Queue.{Queue}
use dev_can_linux.Links.{Links, write, unlink}
use dev_can_linux.Links.Nodes.{Away}
use dev_can_linux.Links.Segment.{Segment, Segment-root, write_self}
use dev_can_linux.Links.Laws.{IsList, store_lem}
use dev_can_linux.Links.Unlink.{unlink-IsList}
use dev_can_linux.Session.{
  Sessions, clients_of, with_clients_of, get_device_session, destroyed, counts_dropped,
  create_client_session, destroy_client_session,
}

-- A list is one by its links from the root; where the root stands does not matter.
same_root :
    (ds : ℕ) (l : Links) (s : Sessions) (xs : List ℕ)
    → IsList l xs
    → IsList (clients_of ds (with_clients_of ds l s)) xs
same_root ds l s xs h = record {
  distinct = h.distinct;
  tail = h.tail;
  linked =
      let r = write s.root_client ds l.root ds in
      subst (λ u. Segment (record l { root = r }) 0 u xs h.tail 0)
        (sym (write_self s.root_client ds l.root)) (Segment-root l r xs 0 l.root h.tail 0 h.linked);
}

-- A new session of a client is the last of the clients of its device, whose queue counts the messages it drops;
-- the mutex is free again.
pub create_client_session-IsList :
    (fuel dev ds n : ℕ) (q : Queue) (s : Sessions) (xs : List ℕ)
    → dev ≢ 0
    → get_device_session fuel s dev ≡ some ds
    → ds ≢ 0
    → s.mutex ≡ false
    → n ≢ 0
    → IsList (clients_of ds s) xs
    → Away n xs
    → length xs < fuel
    → (t : Sessions) × (create_client_session fuel dev n (eok, some q) s ≡ some (n, t))
      × IsList (clients_of ds t) (xs ++ (n ∷ []))
      × (t.device_session n ≡ ds)
      × (t.rx_queue n ≡ record q { dropped_packet = true })
      × (t.mutex ≡ false)
unfolding create_client_session
create_client_session-IsList fuel dev ds n q s xs d g p u pos h away f =
    let (m, e, k) = store_lem fuel n xs h f pos away in
    let not_dev : (dev == 0) ≡ false = ground arith in
    let not_ds : (ds == 0) ≡ false = ground arith in
    let not_n : (n == 0) ≡ false = ground arith in
    let t = record (with_clients_of ds m s) {
      device_session = write s.device_session n ds;
      rx_queue = write s.rx_queue n (counts_dropped q);
    } in
    (
      t,
      rw (create_client_session, not_dev, g) (rw not_ds (if-false none _ u ∙ rw (not_n, e) refl)),
      same_root ds m s (xs ++ (n ∷ [])) k,
      write_self s.device_session n ds,
      write_self s.rx_queue n (counts_dropped q),
      u,
    )

-- A session that is destroyed is no longer among the clients of its device, whose others stay in
-- order; the mutex is free again.
pub destroy_client_session-IsList :
    (n ds : ℕ) (s : Sessions) (xs ys : List ℕ)
    → n ≢ 0
    → s.device_session n ≡ ds
    → ds ≢ 0
    → s.mutex ≡ false
    → IsList (clients_of ds s) (xs ++ (n ∷ ys))
    → (t : Sessions) × (destroy_client_session n s ≡ some t)
      × IsList (clients_of ds t) (xs ++ ys)
      × (t.mutex ≡ false)
unfolding destroy_client_session
destroy_client_session-IsList n ds s xs ys pos e p u h =
    let not_ds : (ds == 0) ≡ false = ground arith in
    let not_n : (n == 0) ≡ false = ground arith in
    let l = unlink n (clients_of ds s) in
    let t = record (with_clients_of ds l s) {
      rx_queue = write s.rx_queue n (destroyed (s.rx_queue n));
    } in
    (
      t,
      rw (destroy_client_session, e) (rw (not_n, not_ds) (if-false none _ u)),
      same_root ds l s (xs ++ ys) (unlink-IsList n xs ys h),
      u,
    )
