-- ===== src/Resmgr/Register/Added.antt =====
-- The resource managers of a device that is registered.
use dev_can_linux.Base.{
  ℕ, zero, suc, ◌+◌, ◌≡◌, ◌≢◌, refl, ap, sym, ◌∙◌, Bool, true, some, List, [], ◌∷◌, ◌++◌,
  append_assoc, append-nil, arith,
}
use dev_can_linux.Links.{write}
use dev_can_linux.Options.{Options}
use dev_can_linux.Resmgr.{ChannelType, rx_channel, tx_channel}
use dev_can_linux.Resmgr.Timing.{UserDevSetup}
use dev_can_linux.Resmgr.Register.{
  Name, Node, Registry, ChannelCalls, NetdevCalls, channels_of, asked_setup, append_node,
  fresh_resmgr, add_channel, add_channels, add_all, with_session, register_netdev,
}

-- The resource managers of `n` channels of one kind from index `i` on, with the ids that
-- `resmgr_attach` has given.
abbrev pub nodes :
    (session device : ℕ) (extended : Bool) (id : Name → ℕ) → ChannelType → (n i : ℕ) → List Node
nodes session device extended id type zero i = []
nodes session device extended id type (suc n) i =
    let name : Name = record { device = device; channel_type = type; index = i } in
    record {
      device_session = session;
      name = some name;
      id = some (id name);
      resmgr = some (fresh_resmgr type extended);
    }
    ∷ nodes session device extended id type n (suc i)

-- The calls for a channel succeed.
pub record Succeeds (e : ChannelCalls) (id : ℕ) : Type 0 where
  pub memory : e.memory ≡ true
  pub dispatch : e.dispatch ≡ true
  pub attach : e.attach ≡ some id
  pub message : e.message ≡ true
  pub threads : e.threads ≡ true

-- The nodes are behind the list, and no session has changed.
pub record Grown (xs : List Node) (r s : Registry) : Type 0 where
  pub resmgrs : s.resmgrs ≡ r.resmgrs ++ xs
  pub next_device_id : s.next_device_id ≡ r.next_device_id
  pub session : s.session ≡ r.session
  pub device : s.device ≡ r.device
  pub live : s.live ≡ r.live

Grown-append :
    {xs ys : List Node} {r s t : Registry} → Grown xs r s → Grown ys s t → Grown (xs ++ ys) r t
Grown-append {xs = xs} {ys = ys} {r = r} p q = record {
  resmgrs = q.resmgrs ∙ ap (λ zs. zs ++ ys) p.resmgrs ∙ append_assoc r.resmgrs xs ys;
  next_device_id = q.next_device_id ∙ p.next_device_id;
  session = q.session ∙ p.session;
  device = q.device ∙ p.device;
  live = q.live ∙ p.live;
}

module _ (dev session : ℕ) (extended : Bool) (calls : Name → ChannelCalls) (id : Name → ℕ)
    (succeed : (name : Name) → Succeeds (calls name) (id name)) where
  -- The registry with one channel more.
  abbrev with_channel : Name → Registry → Registry
  with_channel name r =
      record (append_node
        (record {
          device_session = session;
          name = some name;
          id = some (id name);
          resmgr = some (fresh_resmgr name.channel_type extended);
        })
        r) { up = write r.up dev true }

  add_channel-some :
      (name : Name) (r : Registry)
      → add_channel dev session extended name (calls name) r ≡ some (true, with_channel name r)
  unfolding add_channel
  add_channel-some name r = let s = succeed name in ground arith

  add_channels-Grown :
      (device : ℕ) (type : ChannelType) (n i : ℕ) (r : Registry)
      → (s : Registry) × (add_channels dev session extended calls device type n i r
          ≡ some (true, s))
        × Grown (nodes session device extended id type n i) r s
  unfolding add_channels
  add_channels-Grown device type zero i r = (
    r,
    refl,
    record {
      resmgrs = sym (append-nil r.resmgrs);
      next_device_id = refl;
      session = refl;
      device = refl;
      live = refl;
    },
  )
  add_channels-Grown device type (suc n) i r =
      let name : Name = record { device = device; channel_type = type; index = i } in
      let one = add_channel-some name r in
      let first : Grown (_ ∷ []) r (with_channel name r) = record {
        resmgrs = refl;
        next_device_id = refl;
        session = refl;
        device = refl;
        live = refl;
      } in
      let (s, runs, rest) = add_channels-Grown device type n (suc i) (with_channel name r) in
      (s, ground (arith, one, runs), Grown-append first rest)

-- The calls of `register_netdev` that succeed, for a setup.
pub record AllSucceed (e : NetdevCalls) (id : Name → ℕ) (u : UserDevSetup) : Type 0 where
  pub selected : e.selected ≡ true
  pub changelink : e.changelink u ≡ true
  pub ndo_open : e.ndo_open ≡ true
  pub channels : (name : Name) → Succeeds (e.channel_calls name) (id name)

-- Where the calls succeed, a device that is registered takes the next number, has its session, and
-- its receive and transmit channels are behind the list, in the order of their indices, under the
-- names of that number, as many and with the kind of identifiers that the options ask for.
pub register_netdev-Grown :
    (e : NetdevCalls) (o : Options) (dev : ℕ) (r : Registry) (id : Name → ℕ) (u : UserDevSetup)
    → dev ≢ 0
    → asked_setup e.wrapped e.freq o r.next_device_id ≡ some u
    → AllSucceed e id u
    → let k = r.next_device_id in
      let c = channels_of o k in
      (s : Registry) × (register_netdev e o dev r ≡ some (true, s))
      × Grown
          (nodes e.new_session k c.extended id rx_channel c.num_rx 0
            ++ nodes e.new_session k c.extended id tx_channel c.num_tx 0)
          (with_session dev e.new_session (record r { next_device_id = k + 1 }))
          s
unfolding register_netdev add_all
register_netdev-Grown e o dev r id u ne setup all =
    let k = r.next_device_id in
    let c = channels_of o k in
    let r' = with_session dev e.new_session (record r { next_device_id = k + 1 }) in
    let (s, rx, p) =
      add_channels-Grown dev e.new_session c.extended e.channel_calls id all.channels k rx_channel
        c.num_rx 0 r' in
    let (t, tx, q) =
      add_channels-Grown dev e.new_session c.extended e.channel_calls id all.channels k tx_channel
        c.num_tx 0 s in
    let both : add_all e dev k c r' ≡ some (true, t) = ground (arith, rx, tx) in
    (t, ground (arith, setup, all, both), Grown-append p q)
