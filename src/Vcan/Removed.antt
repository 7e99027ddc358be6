-- ===== src/Vcan/Removed.antt =====
-- `vcan_init_one` and `vcan_remove_one` of src/kernel/drivers/net/can/sja1000/vcan.c, on every branch.
use dev_can_linux.Base.{
  ℕ, zero, suc, ◌-◌, ◌≤◌, ◌<◌, ◌≡◌, ◌≢◌, refl, ap, ◌∙◌, subst, some, none, List, [], ◌∷◌, ◌++◌,
  append_assoc, arith, replicate, ◌==◌, inl, inr, Bool-cases,
}
use dev_can_linux.Links.{write}
use dev_can_linux.Links.Segment.{write_self, write-ne}
use dev_can_linux.Vcan.{
  Board, Vcan, kfree, channel_priv, vcan_remove_one, vcan_add_chans, vcan_init_one,
}
use dev_can_linux.Vcan.Devices.{
  devices, length-devices, AllThere, devices-AllThere, registers_of, releases_of, released,
  released-calls, Holds, emptied, vcan_del_all_channels_lem,
}
use dev_can_linux.Vcan.Loaded.{board_with, privs, loaded, vcan_init_one-skip}

-- The board is removed with these devices, each released once.
pub vcan_remove_one_lem :
    (s : Vcan) (b : Board) (ds : List ℕ)
    → s.board ≡ some b
    → Holds b ds
    → AllThere ds
    → (u : Vcan) × (vcan_remove_one s ≡ some u)
      × (u.board ≡ none)
      × (u.calls ≡ s.calls ++ (releases_of ds ++ (kfree b.reg_base ∷ kfree b.at ∷ [])))
unfolding vcan_remove_one
vcan_remove_one_lem s b ds e h there =
    let t = record (released ds s) {
      board = some (emptied h.free ds b);
      calls = (released ds s).calls ++ (kfree b.reg_base ∷ []);
    } in
    (
      record t { board = none; calls = t.calls ++ (kfree b.at ∷ []) },
      rw (vcan_remove_one, vcan_del_all_channels_lem s b ds h e) refl,
      refl,
      append_assoc (released ds s).calls (kfree b.reg_base ∷ []) (kfree b.at ∷ [])
          ∙ ap (λ c. c ++ (kfree b.reg_base ∷ kfree b.at ∷ [])) (released-calls ds s there)
          ∙ append_assoc s.calls (releases_of ds) (kfree b.reg_base ∷ kfree b.at ∷ []),
    )

module _ (irq : ℕ) (alloc register : ℕ → ℕ) (at reg_base channels : ℕ) (s : Vcan) where
  abbrev pub AllComeUp : (n : ℕ) → Type 0
  AllComeUp n = (c : ℕ) → c < n → (alloc c ≢ 0) × (register c ≡ 0)

  -- `alloc_sja1000dev` gives a new device each time.
  abbrev pub AllNew : (n : ℕ) → Type 0
  AllNew n = (c d : ℕ) → c < d → d < n → alloc d ≢ alloc c

  -- The driver with all its channels: each has its device, with a window of 256 registers of its own.
  pub record IsLoaded (t : Vcan) : Type 0 where
    pub board :
        t.board
        ≡ some (record {
          at = at;
          slave_dev = devices alloc channels ++ replicate (16 - channels) 0;
          no_channels = channels;
          reg_base = reg_base;
        })
    pub priv : (c : ℕ) → c < channels → t.priv (alloc c) ≡ channel_priv irq c reg_base
    pub calls : t.calls ≡ s.calls ++ registers_of (devices alloc channels)

  pub board_with-Holds :
      (n : ℕ)
      → n ≤ channels
      → channels ≤ 16
      → Holds (board_with irq alloc register at reg_base channels s n) (devices alloc n)
  board_with-Holds n l h = record {
    free = 16 - n;
    slave_dev = refl;
    above = omega (arith, length-devices alloc n);
    below = omega (arith, length-devices alloc n);
  }

  privs-at :
      (n c : ℕ)
      → AllNew n
      → c < n
      → privs irq alloc register at reg_base channels s n (alloc c) ≡ channel_priv irq c reg_base
  privs-at zero c new l = elim l [ ]
  privs-at (suc n) c new l = elim (Bool-cases (c == n)) [
    | inl e ↦
        let same : n ≡ c = ground arith in
        subst
          (λ d.
            write (privs irq alloc register at reg_base channels s n) (alloc n)
              (channel_priv irq n reg_base) (alloc d)
            ≡ channel_priv irq d reg_base)
          same
          (write_self (privs irq alloc register at reg_base channels s n) (alloc n)
            (channel_priv irq n reg_base))
    | inr e ↦
        let below : c < n = ground arith in
        write-ne (privs irq alloc register at reg_base channels s n) (channel_priv irq n reg_base)
          (new c n below (omega arith))
        ∙ privs-at n c (λ d k a b. new d k a (omega arith)) below
  ]

  vcan_init_one-all :
      AllComeUp channels
      → at ≢ 0
      → channels ≤ 16
      → vcan_init_one irq alloc register channels at reg_base s
        ≡ some (0, loaded irq alloc register at reg_base channels s channels)
  unfolding vcan_add_chans
  vcan_init_one-all ok there h =
      let no_more : channels - channels ≡ 0 = omega arith in
      vcan_init_one-skip irq alloc register at reg_base channels s channels there (omega arith) h ok
      ∙ rw no_more refl

  -- Where all channels come up, `vcan_init_one` returns 0, and each channel has its own device and
  -- its own window of 256 registers.
  pub vcan_init_one-IsLoaded :
      AllComeUp channels
      → AllNew channels
      → at ≢ 0
      → channels ≤ 16
      → (t : Vcan) × (vcan_init_one irq alloc register channels at reg_base s ≡ some (0, t))
        × IsLoaded t
  vcan_init_one-IsLoaded ok new there h = (
    loaded irq alloc register at reg_base channels s channels,
    vcan_init_one-all ok there h,
    record { board = refl; priv = λ c l. privs-at channels c new l; calls = refl },
  )

  pub remove_loaded :
      (n : ℕ)
      → n ≤ channels
      → channels ≤ 16
      → AllComeUp n
      → (u : Vcan) × (vcan_remove_one (loaded irq alloc register at reg_base channels s n) ≡ some u)
        × (u.board ≡ none)
        × (u.calls
            ≡ s.calls
              ++ (registers_of (devices alloc n)
                  ++ (releases_of (devices alloc n) ++ (kfree reg_base ∷ kfree at ∷ []))))
  remove_loaded n l h ok =
      let (u, e, gone, calls) =
        vcan_remove_one_lem (loaded irq alloc register at reg_base channels s n)
          (board_with irq alloc register at reg_base channels s n) (devices alloc n) refl
          (board_with-Holds n l h) (devices-AllThere alloc n (λ c b. (ok c b).0)) in
      (
        u,
        e,
        gone,
        calls
            ∙ append_assoc s.calls (registers_of (devices alloc n))
                (releases_of (devices alloc n) ++ (kfree reg_base ∷ kfree at ∷ [])),
      )

  -- `vcan_remove_one` after it: each device is unregistered and freed once, in order, then the
  -- registers and the board.
  pub vcan_remove_one-vcan_init_one :
      AllComeUp channels
      → at ≢ 0
      → channels ≤ 16
      → (t : Vcan) × (u : Vcan) × (vcan_init_one irq alloc register channels at reg_base s
          ≡ some (0, t))
        × (vcan_remove_one t ≡ some u)
        × (u.board ≡ none)
        × (u.calls
            ≡ s.calls
              ++ (registers_of (devices alloc channels)
                  ++ (releases_of (devices alloc channels) ++ (kfree reg_base ∷ kfree at ∷ []))))
  vcan_remove_one-vcan_init_one ok there h =
      let (u, e, gone, calls) = remove_loaded channels (omega arith) h ok in
      (
        loaded irq alloc register at reg_base channels s channels,
        u,
        vcan_init_one-all ok there h,
        e,
        gone,
        calls,
      )
