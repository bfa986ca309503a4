-- ===== src/Pdm/Mcu.antt =====
-- kernel/pdm/drivers/mcu/pdm_mcu_protocol.c: the protocol between the commands of the MCU device
-- and its transport, which is a parameter. A null pointer is `none`.
pub mod Transport
pub mod Xfer
pub mod Driver
pub mod States
pub mod Lifecycle
pub mod I2c
pub mod I2cFrame
pub mod Spi
pub mod Can
pub mod CanFrame
pub mod Uart
pub mod UartWrite
pub mod Probe
mod Tests
use Transport.{Request, Answer}
use lpf.Common.{
  ℕ, ◌+◌, ◌*◌, ◌/◌, ◌%◌, ◌^◌, min, ltb, ◌==◌, ◌&&◌, ◌||◌, if◌then◌else◌, Bool, true, false, not,
  is_some, List, [], ◌∷◌, take, Option, none, some, ℤ, is_zero, ret_ok, eio, einval, emsgsize,
  eopnotsupp, bit_and,
}
use lpf.Pdm.Mcu.Transport

-- PDM_MCU_MAX_TRANSFER_SIZE
abbrev pub max_transfer_size : ℕ
max_transfer_size = 256

-- `enum pdm_mcu_protocol_cmd`
abbrev pub cmd_get_version : ℕ
cmd_get_version = 1

abbrev pub cmd_get_status : ℕ
cmd_get_status = 2

abbrev pub cmd_reset : ℕ
cmd_reset = 3

-- PDM_MCU_CMD_F_NEED_RESPONSE
abbrev pub f_need_response : ℕ
f_need_response = 1

-- The sizes of `struct pdm_mcu_version` and, on a 64-bit machine, `struct pdm_mcu_status`.
abbrev pub version_size : ℕ
version_size = 40

abbrev pub status_size : ℕ
status_size = 40

-- `struct pdm_mcu_command`
pub record McuCommand : Type 0 where
  pub index : ℕ
  pub command : ℕ
  pub flags : ℕ
  pub tx_len : ℕ
  pub rx_len : ℕ
  pub actual_rx_len : ℕ
  pub tx_data : List ℕ
  pub rx_data : List ℕ

-- `pdm_mcu_protocol_encode_be32`, which `pdm_mcu_protocol_encode_index` calls
unfoldable pub encode_be32 : ℕ → List ℕ
encode_be32 value =
    value / 2 ^ 24 % 256 ∷ value / 2 ^ 16 % 256 ∷ value / 2 ^ 8 % 256 ∷ value % 256 ∷ []

-- `pdm_mcu_protocol_max_tx` and `pdm_mcu_protocol_max_rx`, from the size that the transport names
unfoldable pub max_tx : ℕ → ℕ
max_tx size = if not (size == 0) then min size max_transfer_size else max_transfer_size

unfoldable pub max_rx : ℕ → ℕ
max_rx size = if not (size == 0) then min size max_transfer_size else max_transfer_size

-- A buffer with its first bytes written.
unfoldable pub overwrite : List ℕ → List ℕ → List ℕ
overwrite [] old = old
overwrite (x ∷ new) [] = x ∷ new
overwrite (x ∷ new) (y ∷ old) = x ∷ overwrite new old

-- What is in `rx_data` after a transfer that was given it, if an answer is needed.
unfoldable pub received : Bool → List ℕ → List ℕ → List ℕ
received need rx old = if need then overwrite rx old else old

module _ (link : Transport.Transport) where
  open link use {State}

  abbrev pub refuse : ℤ → State → Answer State
  refuse ret h = record { ret = ret; rx = []; actual_rx_len = 0; link = h }

  -- The part of `pdm_mcu_protocol_xfer` that follows the transfer.
  unfoldable pub check_answer : ℕ → Answer State → Answer State
  check_answer rx_len a =
      if not (is_zero a.ret)
      then a
      else if ltb rx_len a.actual_rx_len
      then record a { ret = emsgsize }
      else a

  unfoldable pub xfer_with :
      Option (Request → State → Answer State)
      → ℕ
      → Option (List ℕ)
      → ℕ
      → Bool
      → ℕ
      → State
      → Answer State
  xfer_with none command tx tx_len rx rx_len h = refuse eopnotsupp h
  xfer_with (some f) command tx tx_len rx rx_len h =
      if (not (tx_len == 0) && not (is_some tx)) || (not (rx_len == 0) && not rx)
      then refuse einval h
      else if ltb (max_tx link.max_tx_size) tx_len || ltb (max_rx link.max_rx_size) rx_len
      then refuse emsgsize h
      else check_answer rx_len
          (f (record { command = command; tx = bytes tx; tx_len = tx_len; rx_len = rx_len }) h)
    where
      bytes : Option (List ℕ) → List ℕ
      bytes none = []
      bytes (some b) = take tx_len b

  -- `pdm_mcu_protocol_xfer`: `rx` says that there is a buffer for the answer.
  unfoldable pub protocol_xfer : ℕ → Option (List ℕ) → ℕ → Bool → ℕ → State → Answer State
  protocol_xfer command tx tx_len rx rx_len h = xfer_with link.xfer command tx tx_len rx rx_len h

  -- An answer that is shorter than the structure is an error.
  unfoldable pub whole : ℕ → Answer State → Answer State
  whole size a =
      if not (is_zero a.ret)
      then a
      else if ltb a.actual_rx_len size
      then record a { ret = eio }
      else a

  -- `pdm_mcu_protocol_get_version` and `pdm_mcu_protocol_get_status`: the structure is what is read.
  unfoldable pub protocol_get_version : ℕ → State → Answer State
  protocol_get_version index h =
      whole version_size
        (protocol_xfer cmd_get_version (some (encode_be32 index)) 4 true version_size h)

  unfoldable pub protocol_get_status : ℕ → State → Answer State
  protocol_get_status index h =
      whole status_size
        (protocol_xfer cmd_get_status (some (encode_be32 index)) 4 true status_size h)

  -- `pdm_mcu_protocol_reset`
  unfoldable pub protocol_reset : ℕ → State → Answer State
  protocol_reset index h = protocol_xfer cmd_reset (some (encode_be32 index)) 4 false 0 h

  -- The end of `pdm_mcu_protocol_command`; the transport has `rx_data` to write to, if an answer is
  -- needed, and may have written to it before an error.
  unfoldable pub fill_command : Bool → McuCommand → Answer State → ℤ × McuCommand × State
  fill_command need c a =
      if not (is_zero a.ret)
      then (a.ret, record c { rx_data = received need a.rx c.rx_data }, a.link)
      else (
        ret_ok,
        record c {
          actual_rx_len = if need then a.actual_rx_len else 0;
          rx_data = received need a.rx c.rx_data;
        },
        a.link,
      )

  -- `pdm_mcu_protocol_command`
  unfoldable pub protocol_command : McuCommand → State → ℤ × McuCommand × State
  protocol_command c h =
      let need = not (bit_and c.flags f_need_response == 0) in
      if not (bit_and c.flags 0xffff_fffe == 0)
      then (einval, c, h)
      else if ltb max_transfer_size c.tx_len || ltb max_transfer_size c.rx_len
      then (emsgsize, c, h)
      else if not need && not (c.rx_len == 0)
      then (einval, c, h)
      else fill_command need c
          (protocol_xfer c.command (some c.tx_data) c.tx_len need (if need then c.rx_len else 0) h)
