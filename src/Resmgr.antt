-- ===== src/Resmgr.antt =====
-- src/resmgr.c: the resource managers, through which clients open, read, write and control a device.
pub mod Read
pub mod Write
pub mod Devctl
pub mod Timing
pub mod Register
pub mod Ocb
use dev_can_linux.Base.{ℕ, Bool, Option, List}
use dev_can_linux.Queue.{Queue}

-- `channel_type_t`
pub data ChannelType : Type 0 where
  rx_channel tx_channel : ChannelType

-- `can_resmgr_t`, without the members of the QNX resource manager library.
pub record Resmgr : Type 0 where
  pub channel_type : ChannelType
  pub is_extended_mid : Bool
  pub latency_limit_ms : ℕ
  pub mid : ℕ
  pub mfilter : ℕ
  pub prio : ℕ
  pub shutdown : Bool

-- `struct rx_t` of an open context block, with the receive queue of its client session. The buffer is
-- `none` where the pointer is NULL. Of the blocked clients their `rcvid`s are kept, in the
-- order of the list.
pub record Rx : Type 0 where
  pub read_buffer : Option (List ℕ)
  pub read_size : ℕ
  pub nbytes : ℕ
  pub offset : ℕ
  pub blocked_clients : List ℕ
  pub rx_queue : Queue
