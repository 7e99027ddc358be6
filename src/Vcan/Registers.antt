-- ===== src/Vcan/Registers.antt =====
-- The registers of the channels: `vcan_read_reg` and `vcan_write_reg` of
-- src/kernel/drivers/net/can/sja1000/vcan.c.
use dev_can_linux.Base.{ℕ, ◌<◌, ◌≡◌, ◌&&◌, arith, ◌==◌, if◌then◌else◌}
use dev_can_linux.Vcan.{Vcan, channel_priv, vcan_read_reg, vcan_write_reg}
use dev_can_linux.Vcan.Removed.{IsLoaded}

windows :
    (irq base c d p q v : ℕ) (s : Vcan)
    → p < 256
    → q < 256
    → v < 256
    → vcan_read_reg (channel_priv irq d base) q (vcan_write_reg (channel_priv irq c base) p v s)
      ≡ (if (c == d) && (p == q) then v else vcan_read_reg (channel_priv irq d base) q s)
unfolding vcan_read_reg vcan_write_reg
windows irq base c d p q v s hp hq hv = ground arith

module _ (irq : ℕ) (alloc register : ℕ → ℕ) (at reg_base channels : ℕ) (s t : Vcan) where
  -- With the driver loaded: a register of a channel, of the 256 in its window, reads as the byte last written to
  -- it, and a write changes no register of another channel and no other register of its own.
  pub vcan_read_reg-vcan_write_reg :
      (c d p q v : ℕ)
      → IsLoaded irq alloc register at reg_base channels s t
      → c < channels
      → d < channels
      → p < 256
      → q < 256
      → v < 256
      → vcan_read_reg (t.priv (alloc d)) q (vcan_write_reg (t.priv (alloc c)) p v t)
        ≡ (if (c == d) && (p == q) then v else vcan_read_reg (t.priv (alloc d)) q t)
  vcan_read_reg-vcan_write_reg c d p q v h lc ld hp hq hv =
      simp (h.priv c lc, h.priv d ld, windows irq reg_base c d p q v t hp hq hv)
