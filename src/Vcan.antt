-- ===== src/Vcan.antt =====
-- The driver for virtual CAN, src/kernel/drivers/net/can/sja1000/vcan.c. The functions of the Linux
-- drivers that it calls (`alloc_sja1000dev`, `register_sja1000dev` and their counterparts) and the
-- allocation of memory are parameters, or calls that are logged.
pub mod Devices
pub mod Loaded
pub mod Removed
pub mod Failed
pub mod Registers
mod Tests
use dev_can_linux.Base.{
  ℕ, zero, suc, ◌+◌, ◌*◌, ◌%◌, Bool, true, false, Option, none, some, List, [], ◌∷◌, ◌++◌, set, ltb,
  length, replicate, ◌==◌, if◌then◌else◌,
}
use dev_can_linux.Links.{write}
use dev_can_linux.Options.{max_no_of_vcan_channels}

-- What a channel needs of `struct sja1000_priv` and of `struct net_device`.
pub record Priv : Type 0 where
  pub reg_base : ℕ
  pub custom_irq_handler : Bool
  pub freq : ℕ
  pub irq : ℕ
  pub dev_id : ℕ

-- `struct vcan_pci`, at the address `at`
pub record Board : Type 0 where
  pub at : ℕ
  pub slave_dev : List ℕ
  pub no_channels : ℕ
  pub reg_base : ℕ

pub data VcanCall : Type 0 where
  register_sja1000dev unregister_sja1000dev free_sja1000dev : (dev : ℕ) → VcanCall
  kfree : (block : ℕ) → VcanCall

-- The board that `pci_get_drvdata` returns, `none` for NULL; the devices; the registers by address;
-- and the calls made.
pub record Vcan : Type 0 where
  pub board : Option Board
  pub priv : ℕ → Priv
  pub registers : ℕ → ℕ
  pub calls : List VcanCall

abbrev pub vcan_pci_can_clock : ℕ
vcan_pci_can_clock = 8000000

-- The bytes from `reg_base` on.
unfoldable pub vcan_read_reg : Priv → (port : ℕ) → Vcan → ℕ
vcan_read_reg p port s = s.registers (p.reg_base + port)

unfoldable pub vcan_write_reg : Priv → (port val : ℕ) → Vcan → Vcan
vcan_write_reg p port val s = record s {
  registers = write s.registers (p.reg_base + port) (val % 256);
}

-- A channel that there is goes.
unfoldable pub del_channel : (dev : ℕ) → Vcan → Vcan
del_channel dev s = if dev == 0 then s else record s {
  priv = write s.priv dev (record (s.priv dev) { reg_base = 0 });
  calls = s.calls ++ (unregister_sja1000dev dev ∷ free_sja1000dev dev ∷ []);
}

-- The loop over the first `n` elements of `slave_dev`; `none` beyond the array.
unfoldable pub del_channels : (n : ℕ) → List ℕ → Vcan → Option (List ℕ × Vcan)
del_channels zero ds s = some (ds, s)
del_channels (suc n) [] s = none
del_channels (suc n) (d ∷ ds) s = elim (del_channels n ds (del_channel d s)) [
  | none ↦ none
  | some (es, t) ↦ some (0 ∷ es, t)
]

unfoldable pub vcan_del_all_channels : Vcan → Option Vcan
vcan_del_all_channels s = elim s.board [
  | none ↦ some s
  | some b ↦ elim (del_channels b.no_channels b.slave_dev s) [
    | none ↦ none
    | some (ds, t) ↦ some (record t {
      board = some (record b { slave_dev = ds });
      calls = t.calls ++ (kfree b.reg_base ∷ []);
    })
  ]
]

-- `kfree(board)` of NULL does nothing.
unfoldable pub vcan_remove_one : Vcan → Option Vcan
vcan_remove_one s = elim (vcan_del_all_channels s) [
  | none ↦ none
  | some t ↦ elim t.board [
    | none ↦ some t
    | some b ↦ some (record t { board = none; calls = t.calls ++ (kfree b.at ∷ []) })
  ]
]

-- `ENOMEM`
abbrev pub enomem_code : ℕ
enomem_code = 12

abbrev pub channel_priv : (irq channel reg_base : ℕ) → Priv
channel_priv irq channel reg_base = record {
  reg_base = reg_base + channel * 256;
  custom_irq_handler = true;
  freq = vcan_pci_can_clock;
  irq = irq;
  dev_id = channel;
}

-- A channel whose device `alloc_sja1000dev` gives as `dev`, and for which `register_sja1000dev`
-- returns `err`. An error is the code without its sign. `none` is a fault: no board, or a channel
-- beyond the array.
unfoldable pub vcan_add_chan : (irq channel dev err : ℕ) → Vcan → Option (ℕ × Vcan)
vcan_add_chan irq channel dev err s = if dev == 0 then some (enomem_code, s) else elim s.board [
  | none ↦ none
  | some b ↦
      if ltb channel (length b.slave_dev)
      then (let t = record s {
        board = some (record b { slave_dev = set b.slave_dev channel dev });
        priv = write s.priv dev (channel_priv irq channel b.reg_base);
        calls = s.calls ++ (register_sja1000dev dev ∷ []);
      } in
          if err == 0
          then some (0, t)
          else elim (vcan_del_all_channels t) [ none ↦ none | some u ↦ some (err, u) ])
      else none
]

-- What the allocation and the registration of each channel come to.
module _ (irq : ℕ) (alloc register : (channel : ℕ) → ℕ) where
  -- The loop over the channels, `n` of which are left.
  unfoldable pub vcan_add_chans : (n channel : ℕ) → Vcan → Option (ℕ × Vcan)
  vcan_add_chans zero c s = some (0, s)
  vcan_add_chans (suc n) c s = elim (vcan_add_chan irq c (alloc c) (register c) s) [
    | none ↦ none
    | some (err, t) ↦
        let rest = vcan_add_chans n (suc c) t in
        if err == 0 then rest else elim (vcan_remove_one t) [ none ↦ none | some u ↦ some (err, u) ]
  ]

  -- `at` and `reg_base` are what the two calls of `kzalloc` return.
  unfoldable pub vcan_init_one : (optl_num at reg_base : ℕ) → Vcan → Option (ℕ × Vcan)
  vcan_init_one optl_num at reg_base s =
      if at == 0
      then some (0, s)
      else vcan_add_chans optl_num 0 (record s {
        board = some (record {
          at = at;
          slave_dev = replicate max_no_of_vcan_channels 0;
          no_channels = optl_num;
          reg_base = reg_base;
        });
      })
