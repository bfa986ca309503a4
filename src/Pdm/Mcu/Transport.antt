-- ===== src/Pdm/Mcu/Transport.antt =====
-- The operations of an MCU transport (`struct pdm_mcu_transport_ops` of
-- kernel/pdm/drivers/mcu/pdm_mcu_internal.h), over the state of its link.
use lpf.Common.{ℕ, ◌≡◌, Bool, true, false, List, Option, ℤ, is_zero}

-- What `struct pdm_mcu_xfer` asks: the command, the bytes to send, and the room for an answer.
pub record Request : Type 0 where
  pub command : ℕ
  pub tx : List ℕ
  pub tx_len : ℕ
  pub rx_len : ℕ

-- What a transfer returns: its code, the bytes in the buffer, and `actual_rx_len`.
pub record Answer (State : Type 0) : Type 0 where
  pub ret : ℤ
  pub rx : List ℕ
  pub actual_rx_len : ℕ
  pub link : State

pub record Transport : Type 1 where
  pub State : Type 0
  pub capability : ℕ
  pub max_tx_size : ℕ
  pub max_rx_size : ℕ
  pub setup : State → ℤ × State
  pub cleanup : State → State
  pub xfer : Option (Request → State → Answer State)
  -- Whether the link holds the resources of a `setup`; one that fails gives back what it took.
  pub is_up : State → Bool
  pub setup_ok : (h : State) → is_zero (setup h).0 ≡ true → is_up (setup h).1 ≡ true
  pub setup_failed :
      (h : State) → is_up h ≡ false → is_zero (setup h).0 ≡ false → is_up (setup h).1 ≡ false
  pub cleanup_down : (h : State) → is_up (cleanup h) ≡ false
