-- ===== src/Resmgr/Register/Named.antt =====
-- The names of the resource managers, which are numbered as they are created.
use dev_can_linux.Base.{
  ℕ, zero, suc, ◌+◌, ◌≡◌, refl, sym, ap, ◌∙◌, subst, Bool, true, false, not, ◌||◌, Option, none,
  some, [], ◌∷◌, ◌++◌, arith, ◌⊎◌, inl, inr, Bool-cases, Option-cases, ◌==◌,
}
use dev_can_linux.Options.{Options}
use dev_can_linux.Resmgr.{ChannelType, rx_channel, tx_channel}
use dev_can_linux.Resmgr.Register.{
  Name, Node, Registry, Channels, ChannelCalls, NetdevCalls, channels_of, asked_setup, add_channel,
  add_channels, add_all, with_session, register_netdev,
}
use dev_can_linux.Resmgr.Register.Names.{
  rank, Before, AllBefore, Unnamed, NamesApart, AllBefore-weaken, AllBefore-append,
  NamesApart-append, Unnamed-new, Before-later, the_same,
}

-- The registry where the next name is of this device, kind and index.
pub record Upto (d k i : ℕ) (r : Registry) : Type 0 where
  pub before : AllBefore d k i r.resmgrs
  pub apart : NamesApart r.resmgrs

-- A resource manager is added, with the next name or none.
Upto-append :
    (x : Name) (n : Node) (r s : Registry)
    → (n.name ≡ none) ⊎ (n.name ≡ some x)
    → s.resmgrs ≡ r.resmgrs ++ (n ∷ [])
    → Upto x.device (rank x.channel_type) x.index r
    → Upto x.device (rank x.channel_type) (suc x.index) s
Upto-append x n r s named more u =
    let fits : Before x.device (rank x.channel_type) (suc x.index) n.name = elim named [
      | inl e ↦ subst (Before x.device (rank x.channel_type) (suc x.index)) (sym e) tt
      | inr e ↦
          subst (Before x.device (rank x.channel_type) (suc x.index)) (sym e)
            (inr (refl, inr (refl, omega arith)))
    ] in
    let new : (y : Name) → n.name ≡ some y → Unnamed y r.resmgrs = λ y e. elim named [
      | inl z ↦ absurd (cc)
      | inr z ↦
          subst (λ w. Unnamed w r.resmgrs) (the_same x y (sym z ∙ e))
            (Unnamed-new x r.resmgrs u.before)
    ] in
    record {
      before = subst (AllBefore x.device (rank x.channel_type) (suc x.index)) (sym more) (
          AllBefore-append x.device (rank x.channel_type) (suc x.index) r.resmgrs n
            (AllBefore-weaken x.device (rank x.channel_type) x.index x.device (rank x.channel_type)
              (suc x.index) r.resmgrs (Before-later x.device (rank x.channel_type) x.index)
              u.before)
            fits);
      apart = subst NamesApart (sym more) (NamesApart-append r.resmgrs n u.apart new);
    }

-- What a round leaves.
record Appended (x : Name) (r s : Registry) : Type 0 where
  node : Node
  named : (node.name ≡ none) ⊎ (node.name ≡ some x)
  resmgrs : s.resmgrs ≡ r.resmgrs ++ (node ∷ [])
  next_device_id : s.next_device_id ≡ r.next_device_id

to_Appended :
    (x : Name) (n : Node) (r s t : Registry) (b c : Bool)
    → (◌≡◌ {A = Option (Bool × Registry)} (some (c, t)) (some (b, s)))
    → (n.name ≡ none) ⊎ (n.name ≡ some x)
    → t.resmgrs ≡ r.resmgrs ++ (n ∷ [])
    → t.next_device_id ≡ r.next_device_id
    → Appended x r s
to_Appended x n r s t b c e named more next =
    let same : t ≡ s = ap (λ y. y.1) (the_same (c, t) (b, s) e) in
    record {
      node = n;
      named = named;
      resmgrs = ap (λ y. y.resmgrs) (sym same) ∙ more;
      next_device_id = ap (λ y. y.next_device_id) (sym same) ∙ next;
    }

add_channel-Appended :
    (dev session : ℕ) (extended : Bool) (x : Name) (e : ChannelCalls) (r s : Registry) (b : Bool)
    → add_channel dev session extended x e r ≡ some (b, s)
    → Appended x r s
unfolding add_channel
add_channel-Appended dev session extended x e r s b h = elim (Bool-cases e.memory) [
  | inr no_memory ↦ absurd (let g = rw (add_channel, no_memory) at h in cc)
  | inl memory ↦ elim (Bool-cases e.dispatch) [
    | inr no_dispatch ↦
        to_Appended x _ r s _ b _ (rw (add_channel, memory, no_dispatch) at h) (inl refl) refl refl
    | inl dispatch ↦ elim (Option-cases e.attach) [
      | inl no_attach ↦
          to_Appended x _ r s _ b _ (rw (add_channel, memory, dispatch, no_attach) at h) (inr refl)
            refl refl
      | inr (i, attach) ↦ elim (Bool-cases (not e.message || not e.threads)) [
        | inl stops ↦
            to_Appended x _ r s _ b _ (rw (add_channel, memory, dispatch, attach, stops) at h)
              (inr refl) refl refl
        | inr goes ↦
            to_Appended x _ r s _ b _ (rw (add_channel, memory, dispatch, attach, goes) at h)
              (inr refl) refl refl
      ]
    ]
  ]
]

module _ (dev session : ℕ) (extended : Bool) (calls : Name → ChannelCalls) where
  add_channels-Upto :
      (device : ℕ) (type : ChannelType) (n i : ℕ) (r s : Registry) (b : Bool)
      → add_channels dev session extended calls device type n i r ≡ some (b, s)
      → Upto device (rank type) i r
      → (j : ℕ) × Upto device (rank type) j s × (s.next_device_id ≡ r.next_device_id)
  unfolding add_channels
  add_channels-Upto device type zero i r s b h u =
      let same : r ≡ s = ap (λ y. y.1) (the_same (true, r) (b, s) h) in
      (i, subst (Upto device (rank type) i) same u, ap (λ y. y.next_device_id) (sym same))
  add_channels-Upto device type (suc n) i r s b h u =
      let x : Name = record { device = device; channel_type = type; index = i } in
      elim (Option-cases (add_channel dev session extended x (calls x) r)) [
        | inl faults ↦ absurd (let g = rw (add_channels, faults) at h in cc)
        | inr ((false, t), one) ↦
            let same : t ≡ s =
              ap (λ y. y.1) (the_same (false, t) (b, s) (rw (add_channels, one) at h)) in
            let a = add_channel-Appended dev session extended x (calls x) r t false one in
            (
              suc i,
              subst (Upto device (rank type) (suc i)) same
                  (Upto-append x a.node r t a.named a.resmgrs u),
              ap (λ y. y.next_device_id) (sym same) ∙ a.next_device_id,
            )
        | inr ((true, t), one) ↦
            let a = add_channel-Appended dev session extended x (calls x) r t true one in
            let (j, v, next) =
              add_channels-Upto device type n (suc i) t s b (rw (add_channels, one) at h)
                (Upto-append x a.node r t a.named a.resmgrs u) in
            (j, v, next ∙ a.next_device_id)
      ]

-- The next kind, or the next device.
Before-kind : (d i : ℕ) (m : Option Name) → Before d 0 i m → Before d 1 0 m
Before-kind d i none h = tt
Before-kind d i (some m) (inl h) = inl h
Before-kind d i (some m) (inr (e, inl h)) = inr (e, inl (omega (arith, h)))
Before-kind d i (some m) (inr (e, inr (f, h))) = inr (e, inl (omega (arith, f)))

Before-device : (d k i : ℕ) (m : Option Name) → Before d k i m → Before (d + 1) 0 0 m
Before-device d k i none h = tt
Before-device d k i (some m) (inl h) = inl (omega (arith, h))
Before-device d k i (some m) (inr (e, _)) = inl (omega (arith, e))

Upto-weaken :
    (d k i d' k' i' : ℕ) (r : Registry)
    → ((m : Option Name) → Before d k i m → Before d' k' i' m)
    → Upto d k i r
    → Upto d' k' i' r
Upto-weaken d k i d' k' i' r f u = record {
  before = AllBefore-weaken d k i d' k' i' r.resmgrs f u.before;
  apart = u.apart;
}

add_all-Upto :
    (e : NetdevCalls) (dev d : ℕ) (c : Channels) (r s : Registry) (b : Bool)
    → add_all e dev d c r ≡ some (b, s)
    → Upto d 0 0 r
    → Upto (d + 1) 0 0 s × (s.next_device_id ≡ r.next_device_id)
unfolding add_all
add_all-Upto e dev d c r s b h u =
    let rx =
      add_channels-Upto dev e.new_session c.extended e.channel_calls d rx_channel c.num_rx 0 r in
    elim (Option-cases
      (add_channels dev e.new_session c.extended e.channel_calls d rx_channel c.num_rx 0 r)) [
        | inl faults ↦ absurd (let g = rw (add_all, faults) at h in cc)
        | inr ((false, t), one) ↦
            let same : t ≡ s =
              ap (λ y. y.1) (the_same (false, t) (b, s) (rw (add_all, one) at h)) in
            let (j, v, next) = rx t false one u in
            (
              Upto-weaken d 0 j (d + 1) 0 0 s (Before-device d 0 j) (subst (Upto d 0 j) same v),
              ap (λ y. y.next_device_id) (sym same) ∙ next,
            )
        | inr ((true, t), one) ↦
            let (j, v, next) = rx t true one u in
            let (l, w, next') =
              add_channels-Upto dev e.new_session c.extended e.channel_calls d tx_channel c.num_tx 0
                t s b (rw (add_all, one) at h) (Upto-weaken d 0 j d 1 0 t (Before-kind d j) v) in
            (Upto-weaken d 1 l (d + 1) 0 0 s (Before-device d 1 l) w, next' ∙ next)
      ]

-- The names of the resource managers are of devices that have been numbered, and all differ.
abbrev pub IsNamed : Registry → Type 0
IsNamed r = Upto r.next_device_id 0 0 r

IsNamed-same :
    (r s t : Registry) (c b : Bool)
    → (◌≡◌ {A = Option (Bool × Registry)} (some (c, t)) (some (b, s)))
    → t.resmgrs ≡ r.resmgrs
    → Upto r.next_device_id 0 0 r
    → (t.next_device_id ≡ r.next_device_id) ⊎ (t.next_device_id ≡ r.next_device_id + 1)
    → IsNamed s
IsNamed-same r s t c b e list u next =
    let same : t ≡ s = ap (λ y. y.1) (the_same (c, t) (b, s) e) in
    let kept : Upto r.next_device_id 0 0 t = record {
      before = subst (AllBefore r.next_device_id 0 0) (sym list) u.before;
      apart = subst NamesApart (sym list) u.apart;
    } in
    subst IsNamed same (elim next [
      | inl stays ↦ subst (λ k. Upto k 0 0 t) (sym stays) kept
      | inr grows ↦
          subst (λ k. Upto k 0 0 t) (sym grows)
            (Upto-weaken r.next_device_id 0 0 (r.next_device_id + 1) 0 0 t
              (Before-device r.next_device_id 0 0) kept)
    ])

with_session-keeps :
    (dev session : ℕ) (r : Registry)
    → ((with_session dev session r).resmgrs ≡ r.resmgrs)
      × ((with_session dev session r).next_device_id ≡ r.next_device_id)
with_session-keeps dev session r = elim (Bool-cases (session == 0)) [
  | inl null ↦ rw null (refl, refl)
  | inr there ↦ rw there (refl, refl)
]

-- Whatever the calls come to, and whether it returns 0 or -1: where the resource managers have names
-- of devices that have been numbered, and no two have the same, `register_netdev` keeps it so.
pub register_netdev-IsNamed :
    (e : NetdevCalls) (o : Options) (dev : ℕ) (r s : Registry) (b : Bool)
    → register_netdev e o dev r ≡ some (b, s)
    → IsNamed r
    → IsNamed s
unfolding register_netdev
register_netdev-IsNamed e o dev r s b h u = elim (Bool-cases ((dev == 0) || not e.selected)) [
  | inl refused ↦ IsNamed-same r s r false b (rw (register_netdev, refused) at h) refl u (inl refl)
  | inr goes ↦ elim (Option-cases (asked_setup e.wrapped e.freq o r.next_device_id)) [
    | inl undefined ↦ absurd (let g = rw (register_netdev, goes, undefined) at h in cc)
    | inr (v, asked) ↦ elim (Bool-cases (not (e.changelink v))) [
      | inl fails ↦
          IsNamed-same r s _ false b (rw (register_netdev, goes, asked, fails) at h) refl u
            (inr refl)
      | inr links ↦ elim (Bool-cases (not e.ndo_open)) [
        | inl fails ↦
            IsNamed-same r s _ false b (rw (register_netdev, goes, asked, links, fails) at h) refl u
              (inr refl)
        | inr opens ↦
            let k = r.next_device_id in
            let given = record r { next_device_id = k + 1 } in
            let (list, next) = with_session-keeps dev e.new_session given in
            let (v, kept) =
              add_all-Upto e dev k (channels_of o k) (with_session dev e.new_session given) s b
                (rw (register_netdev, goes, asked, links, opens) at h)
                (record {
                  before = subst (AllBefore k 0 0) (sym list) u.before;
                  apart = subst NamesApart (sym list) u.apart;
                }) in
            subst (λ n. Upto n 0 0 s) (sym (kept ∙ next)) v
      ]
    ]
  ]
]
