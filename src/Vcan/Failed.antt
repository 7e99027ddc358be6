-- ===== src/Vcan/Failed.antt =====
-- `vcan_init_one` of src/kernel/drivers/net/can/sja1000/vcan.c where a channel fails.
use dev_can_linux.Base.{
  ℕ, suc, ◌-◌, ◌≤◌, ◌<◌, ◌≡◌, ◌≢◌, refl, ap, ◌∙◌, false, true, some, none, [], ◌∷◌, ◌++◌,
  append_assoc, arith, length, ltb, ◌==◌,
}
use dev_can_linux.Vcan.{
  Vcan, kfree, enomem_code, vcan_remove_one, vcan_add_chan, vcan_del_all_channels, vcan_add_chans,
  vcan_init_one,
}
use dev_can_linux.Vcan.Devices.{
  devices, AllThere, AllThere-append, devices-AllThere, registers_of, releases_of, released,
  released-calls, vcan_del_all_channels_lem, emptied, emptied-Holds,
}
use dev_can_linux.Vcan.Loaded.{slots, length-slots, board_with, loaded, added, vcan_init_one-skip}
use dev_can_linux.Vcan.Removed.{AllComeUp, vcan_remove_one_lem, remove_loaded, board_with-Holds}

module _ (irq : ℕ) (alloc register : ℕ → ℕ) (at reg_base channels : ℕ) (s : Vcan) where
  vcan_add_chans-no_dev :
      (n m : ℕ) (t u : Vcan)
      → alloc n ≡ 0
      → vcan_remove_one t ≡ some u
      → vcan_add_chans irq alloc register (suc m) n t ≡ some (enomem_code, u)
  unfolding vcan_add_chans vcan_add_chan
  vcan_add_chans-no_dev n m t u e r = rw (vcan_add_chans, vcan_add_chan, e) (rw r refl)

  -- Where there is no device for a channel, `vcan_init_one` returns ENOMEM, and whatever the
  -- channels before it have been given is released once, with the registers and the board.
  pub vcan_init_one-no_dev :
      (n : ℕ)
      → AllComeUp irq alloc register at reg_base channels s n
      → alloc n ≡ 0
      → n < channels
      → channels ≤ 16
      → at ≢ 0
      → (u : Vcan) × (vcan_init_one irq alloc register channels at reg_base s
          ≡ some (enomem_code, u))
        × (u.board ≡ none)
        × (u.calls
            ≡ s.calls
              ++ (registers_of (devices alloc n)
                  ++ (releases_of (devices alloc n) ++ (kfree reg_base ∷ kfree at ∷ []))))
  vcan_init_one-no_dev n ok e l h there =
      let (u, r, gone, calls) =
        remove_loaded irq alloc register at reg_base channels s n (omega arith) h ok in
      let one_more : channels - n ≡ suc (channels - suc n) = omega arith in
      (
        u,
        vcan_init_one-skip irq alloc register at reg_base channels s n there (omega arith)
              (omega arith) ok
            ∙ ap
                (λ m.
                  vcan_add_chans irq alloc register m n
                    (loaded irq alloc register at reg_base channels s n))
                one_more
            ∙ vcan_add_chans-no_dev n (channels - suc n) _ u e r,
        gone,
        calls,
      )

  add_chan-fails :
      (n : ℕ) (u : Vcan)
      → n < 16
      → alloc n ≢ 0
      → register n ≢ 0
      → vcan_del_all_channels (loaded irq alloc register at reg_base channels s (suc n)) ≡ some u
      → vcan_add_chan irq n
          (alloc n)
          (register n)
          (loaded irq alloc register at reg_base channels s n)
        ≡ some (register n, u)
  unfolding vcan_add_chan
  add_chan-fails n u l there fails e =
      let not_null : (alloc n == 0) ≡ false = ground arith in
      let failed : (register n == 0) ≡ false = ground arith in
      let size = length-slots alloc n (omega arith) in
      let in_array : ltb n (length (slots alloc n)) ≡ true = ground (arith, size) in
      let same = ap vcan_del_all_channels (added irq alloc register at reg_base channels s n l) in
      rw (vcan_add_chan, not_null, in_array) (rw (failed, same ∙ e) refl)

  vcan_add_chans-fails :
      (n m err : ℕ) (t u v : Vcan)
      → err ≢ 0
      → vcan_add_chan irq n (alloc n) (register n) t ≡ some (err, u)
      → vcan_remove_one u ≡ some v
      → vcan_add_chans irq alloc register (suc m) n t ≡ some (err, v)
  unfolding vcan_add_chans
  vcan_add_chans-fails n m err t u v fails e r =
      let failed : (err == 0) ≡ false = ground arith in rw (vcan_add_chans, e) (rw (failed, r) refl)

  -- Where the registration of a channel fails, `vcan_init_one` returns its error, and the devices
  -- are released once, that of the failed channel among them; but `kfree` is called twice for the
  -- registers.
  pub vcan_init_one-frees_twice :
      (n : ℕ)
      → AllComeUp irq alloc register at reg_base channels s n
      → alloc n ≢ 0
      → register n ≢ 0
      → n < channels
      → channels ≤ 16
      → at ≢ 0
      → (u : Vcan) × (vcan_init_one irq alloc register channels at reg_base s
          ≡ some (register n, u))
        × (u.board ≡ none)
        × (u.calls
            ≡ s.calls
              ++ (registers_of (devices alloc (suc n))
                  ++ (releases_of (devices alloc (suc n))
                      ++ (kfree reg_base ∷ kfree reg_base ∷ kfree at ∷ []))))
  vcan_init_one-frees_twice n ok dev fails l h there =
      let ds = devices alloc (suc n) in
      let t = loaded irq alloc register at reg_base channels s (suc n) in
      let b = board_with irq alloc register at reg_base channels s (suc n) in
      let holds =
        board_with-Holds irq alloc register at reg_base channels s (suc n) (omega arith) h in
      let present : AllThere ds =
        AllThere-append (devices alloc n) (alloc n ∷ [])
          (devices-AllThere alloc n (λ c k. (ok c k).0)) (dev, tt) in
      let twice = kfree reg_base ∷ kfree reg_base ∷ kfree at ∷ [] in
      let b_after = emptied holds.free ds b in
      let u = record (released ds t) {
        board = some b_after;
        calls = (released ds t).calls ++ (kfree reg_base ∷ []);
      } in
      let (v, r, gone, calls) =
        vcan_remove_one_lem u b_after [] refl (emptied-Holds b ds holds) tt in
      let one_more : channels - n ≡ suc (channels - suc n) = omega arith in
      (
        v,
        vcan_init_one-skip irq alloc register at reg_base channels s n there (omega arith)
              (omega arith) ok
            ∙ ap
                (λ m.
                  vcan_add_chans irq alloc register m n
                    (loaded irq alloc register at reg_base channels s n))
                one_more
            ∙ vcan_add_chans-fails n (channels - suc n) (register n) _ u v fails
                (add_chan-fails n u (omega arith) dev fails
                  (vcan_del_all_channels_lem t b ds holds refl))
                r,
        gone,
        calls
            ∙ append_assoc (released ds t).calls (kfree reg_base ∷ [])
                (kfree reg_base ∷ kfree at ∷ [])
            ∙ ap (λ c. c ++ twice) (released-calls ds t present)
            ∙ append_assoc t.calls (releases_of ds) twice
            ∙ append_assoc s.calls (registers_of ds) (releases_of ds ++ twice),
      )
