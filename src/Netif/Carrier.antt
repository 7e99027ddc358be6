-- ===== src/Netif/Carrier.antt =====
-- The carrier flag in the state word of a device.
use dev_can_linux.Base.{ℕ, ◌/◌, ◌%◌, ◌≡◌, true, false, arith}
use dev_can_linux.Netif.{Device, netif_carrier_ok, netif_carrier_on, netif_carrier_off}

-- The bits of the state word other than __LINK_STATE_NOCARRIER.
abbrev pub other_bits : Device → ℕ × ℕ
other_bits d = (d.link_state % 4, d.link_state / 8)

-- `netif_carrier_ok` reports what `netif_carrier_on` or `netif_carrier_off` said last; neither
-- touches another bit, and the one undoes the other.
pub netif_carrier_ok-on_off :
    (d : Device)
    → (netif_carrier_ok (netif_carrier_on d) ≡ true)
      × (netif_carrier_ok (netif_carrier_off d) ≡ false)
      × (other_bits (netif_carrier_on d) ≡ other_bits d)
      × (other_bits (netif_carrier_off d) ≡ other_bits d)
      × (netif_carrier_on (netif_carrier_off d) ≡ netif_carrier_on d)
unfolding netif_carrier_ok netif_carrier_on netif_carrier_off
netif_carrier_ok-on_off d = ground arith
