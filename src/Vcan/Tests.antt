-- ===== src/Vcan/Tests.antt =====
-- Two virtual channels, the devices 1 and 2, the board at 1000 and its registers from 5000 on.
use dev_can_linux.Base.{
  ℕ, suc, ◌≡◌, refl, none, some, [], ◌∷◌, arith, replicate, ◌-◌, ◌*◌, ◌==◌, if◌then◌else◌,
}
use dev_can_linux.Vcan.{
  Vcan, register_sja1000dev, unregister_sja1000dev, free_sja1000dev, kfree, enomem_code,
  channel_priv, vcan_read_reg, vcan_write_reg, vcan_init_one, vcan_remove_one,
}
use dev_can_linux.Vcan.Removed.{
  AllComeUp, AllNew, IsLoaded, vcan_init_one-IsLoaded, vcan_remove_one-vcan_init_one,
}
use dev_can_linux.Vcan.Registers.{vcan_read_reg-vcan_write_reg}
use dev_can_linux.Vcan.Failed.{vcan_init_one-no_dev, vcan_init_one-frees_twice}

abbrev unloaded : Vcan
unloaded = record { board = none; priv = λ d. channel_priv 0 0 0; registers = λ a. 0; calls = [] }

abbrev works : ℕ → ℕ
works c = 0

both_come_up : AllComeUp 5 suc works 1000 5000 2 unloaded 2
both_come_up c l = (omega arith, refl)

both_new : AllNew 5 suc works 1000 5000 2 unloaded 2
both_new c d k l = omega arith

-- What is found out of memory: no board is made, and the result is 0.
no_board : vcan_init_one 5 suc works 2 0 5000 unloaded ≡ some (0, unloaded)
unfolding vcan_init_one
no_board = refl

vcan_init_one-IsLoaded_example :
    (t : Vcan) × (vcan_init_one 5 suc works 2 1000 5000 unloaded ≡ some (0, t))
    × IsLoaded 5 suc works 1000 5000 2 unloaded t
vcan_init_one-IsLoaded_example =
    vcan_init_one-IsLoaded 5 suc works 1000 5000 2 unloaded both_come_up both_new (omega arith)
      (omega arith)

vcan_remove_one-vcan_init_one_example :
    (t : Vcan) × (u : Vcan) × (vcan_init_one 5 suc works 2 1000 5000 unloaded ≡ some (0, t))
    × (vcan_remove_one t ≡ some u)
    × (u.board ≡ none)
    × (u.calls
        ≡ register_sja1000dev 1
          ∷ register_sja1000dev 2
          ∷ unregister_sja1000dev 1
          ∷ free_sja1000dev 1
          ∷ unregister_sja1000dev 2
          ∷ free_sja1000dev 2
          ∷ kfree 5000
          ∷ kfree 1000
          ∷ [])
vcan_remove_one-vcan_init_one_example =
    vcan_remove_one-vcan_init_one 5 suc works 1000 5000 2 unloaded both_come_up (omega arith)
      (omega arith)

abbrev loaded_state : Vcan
loaded_state = record unloaded {
  board =
      some (record {
        at = 1000;
        slave_dev = 1 ∷ 2 ∷ replicate 14 0;
        no_channels = 2;
        reg_base = 5000;
      });
  priv = λ d. if d == 1 then channel_priv 5 0 5000 else channel_priv 5 1 5000;
  calls = register_sja1000dev 1 ∷ register_sja1000dev 2 ∷ [];
}

loaded_state-IsLoaded : IsLoaded 5 suc works 1000 5000 2 unloaded loaded_state
loaded_state-IsLoaded = record { board = refl; priv = λ c l. ground arith; calls = refl }

vcan_read_reg-vcan_write_reg_example :
    vcan_read_reg
      (channel_priv 5 1 5000)
      7
      (vcan_write_reg (channel_priv 5 0 5000) 7 42 loaded_state)
    ≡ vcan_read_reg (channel_priv 5 1 5000) 7 loaded_state
vcan_read_reg-vcan_write_reg_example =
    vcan_read_reg-vcan_write_reg 5 suc works 1000 5000 2 unloaded loaded_state 0 1 7 7 42
      loaded_state-IsLoaded (omega arith) (omega arith) (omega arith) (omega arith) (omega arith)

abbrev no_second : ℕ → ℕ
no_second c = 1 - c

vcan_init_one-no_dev_example :
    (u : Vcan) × (vcan_init_one 5 no_second works 2 1000 5000 unloaded ≡ some (enomem_code, u))
    × (u.board ≡ none)
    × (u.calls
        ≡ register_sja1000dev 1
          ∷ unregister_sja1000dev 1
          ∷ free_sja1000dev 1
          ∷ kfree 5000
          ∷ kfree 1000
          ∷ [])
vcan_init_one-no_dev_example =
    vcan_init_one-no_dev 5 no_second works 1000 5000 2 unloaded 1 (λ c l. (omega arith, refl)) refl
      (omega arith) (omega arith) (omega arith)

abbrev second_fails : ℕ → ℕ
second_fails c = c * 22

vcan_init_one-frees_twice_example :
    (u : Vcan) × (vcan_init_one 5 suc second_fails 2 1000 5000 unloaded ≡ some (22, u))
    × (u.board ≡ none)
    × (u.calls
        ≡ register_sja1000dev 1
          ∷ register_sja1000dev 2
          ∷ unregister_sja1000dev 1
          ∷ free_sja1000dev 1
          ∷ unregister_sja1000dev 2
          ∷ free_sja1000dev 2
          ∷ kfree 5000
          ∷ kfree 5000
          ∷ kfree 1000
          ∷ [])
vcan_init_one-frees_twice_example =
    vcan_init_one-frees_twice 5 suc second_fails 1000 5000 2 unloaded 1
      (λ c l. (omega arith, omega arith)) (omega arith) (omega arith) (omega arith) (omega arith)
      (omega arith)
