-- ===== src/Resmgr/Register/Dangling.antt =====
-- A device with several channels is unregistered.
use dev_can_linux.Base.{
  ℕ, ◌≡◌, ◌≢◌, refl, ap, ◌∙◌, Bool, true, false, none, some, List, [], ◌∷◌, ◌++◌, arith,
}
use dev_can_linux.Links.{write}
use dev_can_linux.Resmgr.Register.{Node, Registry, remove_first, unregister_netdev}

-- The resource managers are of other devices, and their sessions have not been freed.
abbrev pub AllOther : (dev : ℕ) (device : ℕ → ℕ) (live : ℕ → Bool) → List Node → Type 0
AllOther dev device live [] = Unit
AllOther dev device live (n ∷ t) =
    (n.device_session ≢ 0)
    × (live n.device_session ≡ true)
    × (device n.device_session ≢ dev)
    × AllOther dev device live t

module _ (dev : ℕ) (device : ℕ → ℕ) where
  remove_first-found :
      (live : ℕ → Bool) (before : List Node) (n : Node) (t : List Node)
      → AllOther dev device live before
      → n.device_session ≢ 0
      → live n.device_session ≡ true
      → device n.device_session ≡ dev
      → remove_first dev device live (before ++ (n ∷ t)) ≡ some (before ++ t, n.device_session)
  unfolding remove_first
  remove_first-found live [] n t others ne l d = ground arith
  remove_first-found live (m ∷ before) n t (mne, ml, md, others) ne l d =
      ground (arith, remove_first-found live before n t others ne l d)

  remove_first-none :
      (live : ℕ → Bool) (before : List Node) (n : Node) (t : List Node)
      → AllOther dev device live before
      → live n.device_session ≡ false
      → remove_first dev device live (before ++ (n ∷ t)) ≡ none
  unfolding remove_first
  remove_first-none live [] n t others l = ground arith
  remove_first-none live (m ∷ before) n t (mne, ml, md, others) l =
      ground (arith, remove_first-none live before n t others l)

-- The sessions of other devices live on.
AllOther-write :
    (dev dev' : ℕ) (device : ℕ → ℕ) (live : ℕ → Bool) (session : ℕ) (before : List Node)
    → device session ≡ dev
    → AllOther dev device live before
    → AllOther dev' device live before
    → AllOther dev' device (write live session false) before
AllOther-write dev dev' device live session [] d p q = tt
AllOther-write dev dev' device live session (m ∷ before) d (mne, ml, md, p) (_, _, md', q) =
    let apart : m.device_session ≢ session = λ e. md (ap device e ∙ d) in
    (mne, ground arith, md', AllOther-write dev dev' device live session before d p q)

-- A device with two resource managers, one behind the other, is unregistered: only the first of them
-- leaves the list, while the session of both has been freed. The next time a device is unregistered
-- that stands behind, or that same device, the freed session is read.
pub unregister_netdev-none :
    (dev dev' : ℕ) (r : Registry) (before : List Node) (n m : Node) (t : List Node)
    → dev ≢ 0
    → dev' ≢ 0
    → r.resmgrs ≡ before ++ (n ∷ m ∷ t)
    → AllOther dev r.device r.live before
    → AllOther dev' r.device r.live before
    → n.device_session ≢ 0
    → r.live n.device_session ≡ true
    → r.device n.device_session ≡ dev
    → m.device_session ≡ n.device_session
    → (s : Registry) × (unregister_netdev dev r ≡ some s)
      × (s.resmgrs ≡ before ++ (m ∷ t))
      × (s.live m.device_session ≡ false)
      × (unregister_netdev dev' s ≡ none)
unfolding unregister_netdev
unregister_netdev-none dev dev' r before n m t ne ne' list p q s_ne live d same =
    let live' = write r.live n.device_session false in
    let freed : live' m.device_session ≡ false = ground arith in
    let found = remove_first-found dev r.device r.live before n (m ∷ t) p s_ne live d in
    let at : remove_first dev r.device r.live r.resmgrs
        ≡ some (before ++ (m ∷ t), n.device_session) =
      rw list found in
    let read =
      remove_first-none dev' r.device live' before m t
        (AllOther-write dev dev' r.device r.live n.device_session before d p q) freed in
    (
      record r { resmgrs = before ++ (m ∷ t); up = write r.up dev false; live = live' },
      ground (arith, at),
      refl,
      freed,
      ground (arith, read),
    )
