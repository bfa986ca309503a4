-- ===== src/Pdm/Mcu/I2c.antt =====
-- kernel/pdm/drivers/mcu/pdm_mcu_i2c.c: the I2C transport of an MCU, over the I2C adapter of the
-- kernel, which is a parameter.
use lpf.Common.{
  ℕ, zero, suc, ◌+◌, ◌*◌, ◌/◌, ◌%◌, ◌^◌, min, ltb, ◌==◌, ◌&&◌, ◌≡◌, refl, ◌∙◌, ◌++◌, if◌then◌else◌,
  true, false, not, is_some, List, [], ◌∷◌, Option, none, some, ℤ, pos, is_neg, is_zero, eqz,
  ret_ok, eio, enodev, emsgsize, eopnotsupp,
}
use lpf.Pdm.Mcu.{max_transfer_size}
use lpf.Pdm.Mcu.Transport.{Transport, Request, Answer}

-- PDM_MCU_MAX_PREFIX_BYTES
abbrev pub max_prefix_bytes : ℕ
max_prefix_bytes = 4

-- A message on the bus: bytes to write, or how many to read.
pub data Message : Type 0 where
  write : List ℕ → Message
  read : ℕ → Message

-- `i2c_transfer` to a client: its result, the bytes that were read, and the adapter.
pub record Adapter : Type 1 where
  pub Client : Type 0
  pub Bus : Type 0
  pub i2c_transfer : Client → List Message → Bus → ℤ × List ℕ × Bus

-- `pdm_mcu_i2c_encode_prefix`, from the first of `bytes` bytes on
unfoldable pub encode_prefix : ℕ → ℕ → List ℕ
encode_prefix value zero = []
encode_prefix value (suc n) = value / 2 ^ (8 * n) % 256 ∷ encode_prefix value n

-- `pdm_mcu_i2c_prefix_bytes`, from the properties `pdm,command-bytes` and `command-bytes` of a node
unfoldable pub prefix_bytes : Option (Option ℕ × Option ℕ) → ℕ → ℕ
prefix_bytes none default_value = default_value
prefix_bytes (some (some value, plain)) default_value = min value max_prefix_bytes
prefix_bytes (some (none, some value)) default_value = min value max_prefix_bytes
prefix_bytes (some (none, none)) default_value = default_value

-- The messages of a transfer, less those without bytes.
unfoldable pub messages : List ℕ → ℕ → ℕ → List Message
messages tx tx_len rx_len =
    let answer = if not (rx_len == 0) then Message.read rx_len ∷ [] else [] in
    if not (tx_len == 0) then Message.write tx ∷ answer else answer

unfoldable pub msg_count : ℕ → ℕ → ℕ
msg_count tx_len rx_len =
    (if not (tx_len == 0) then 1 else 0) + (if not (rx_len == 0) then 1 else 0)

module _ (adapter : Adapter) where
  open adapter use {Client, Bus, i2c_transfer}

  -- The I2C part of `struct pdm_mcu_instance`, with the adapter.
  pub record I2cLink : Type 0 where
    pub client : Option Client
    pub command_bytes : ℕ
    pub bus : Bus

  -- What `i2c_transfer` returned, as a return code.
  unfoldable pub transfer_code : ℕ → ℤ → ℤ
  transfer_code count ret = if is_neg ret then ret else if eqz ret (pos count) then ret_ok else eio

  -- `pdm_mcu_i2c_bus_xfer`: the code, the bytes that were read, and the link.
  unfoldable pub transfer : ℕ → I2cLink → ℤ × List ℕ × Bus → ℤ × List ℕ × I2cLink
  transfer count h (ret, rx, bus) = (transfer_code count ret, rx, record h { bus = bus })

  unfoldable pub bus_xfer_to : Option Client → List ℕ → ℕ → ℕ → I2cLink → ℤ × List ℕ × I2cLink
  bus_xfer_to none tx tx_len rx_len h = (enodev, [], h)
  bus_xfer_to (some c) tx tx_len rx_len h =
      if tx_len == 0 && rx_len == 0
      then (ret_ok, [], h)
      else transfer (msg_count tx_len rx_len) h (i2c_transfer c (messages tx tx_len rx_len) h.bus)

  unfoldable pub bus_xfer : List ℕ → ℕ → ℕ → I2cLink → ℤ × List ℕ × I2cLink
  bus_xfer tx tx_len rx_len h = bus_xfer_to h.client tx tx_len rx_len h

  -- The end of `pdm_mcu_i2c_xfer`: all of the room counts as answered.
  unfoldable pub answered : ℕ → ℤ × List ℕ × I2cLink → Answer I2cLink
  answered rx_len (ret, rx, h) = record {
    ret = ret;
    rx = rx;
    actual_rx_len = if is_zero ret then rx_len else 0;
    link = h;
  }

  -- `pdm_mcu_i2c_cmd_xfer`
  unfoldable pub cmd_xfer : Request → I2cLink → ℤ × List ℕ × I2cLink
  cmd_xfer q h =
      if h.command_bytes == 0
      then (eopnotsupp, [], h)
      else if ltb (max_transfer_size + max_prefix_bytes) (q.tx_len + h.command_bytes)
      then (emsgsize, [], h)
      else if ltb max_transfer_size q.rx_len
      then (emsgsize, [], h)
      else bus_xfer (encode_prefix q.command h.command_bytes ++ q.tx) (q.tx_len + h.command_bytes)
          q.rx_len h

  -- `pdm_mcu_i2c_xfer`
  unfoldable pub i2c_xfer : Request → I2cLink → Answer I2cLink
  i2c_xfer q h = answered q.rx_len (cmd_xfer q h)

  -- `pdm_mcu_i2c_setup`, from the client of the bus device, if it is one of I2C, and the node
  unfoldable pub i2c_setup : Option Client → Option (Option ℕ × Option ℕ) → I2cLink → ℤ × I2cLink
  i2c_setup none np h = (enodev, h)
  i2c_setup (some c) np h =
      (ret_ok, record h { client = some c; command_bytes = prefix_bytes np 1 })

  -- `pdm_mcu_i2c_cleanup`
  unfoldable pub i2c_cleanup : I2cLink → I2cLink
  i2c_cleanup h = record h { client = none }

  pub i2c_setup_ok :
      (o : Option Client) (np : Option (Option ℕ × Option ℕ)) (h : I2cLink)
      → is_zero (i2c_setup o np h).0 ≡ true
      → is_some (i2c_setup o np h).1.client ≡ true
  unfolding i2c_setup
  i2c_setup_ok none np h z = cc
  i2c_setup_ok (some c) np h z = refl

  pub i2c_setup_failed :
      (o : Option Client) (np : Option (Option ℕ × Option ℕ)) (h : I2cLink)
      → is_zero (i2c_setup o np h).0 ≡ false
      → is_some (i2c_setup o np h).1.client ≡ is_some h.client
  unfolding i2c_setup
  i2c_setup_failed none np h n = refl
  i2c_setup_failed (some c) np h n = cc

  pub i2c_cleanup_down : (h : I2cLink) → is_some (i2c_cleanup h).client ≡ false
  unfolding i2c_cleanup
  i2c_cleanup_down h = refl

  -- `pdm_mcu_i2c_ops`, of a bus device with this client and node
  abbrev pub i2c_ops : Option Client → Option (Option ℕ × Option ℕ) → Transport
  i2c_ops device np = record {
    State = I2cLink;
    capability = 4;
    max_tx_size = max_transfer_size;
    max_rx_size = max_transfer_size;
    setup = i2c_setup device np;
    cleanup = i2c_cleanup;
    xfer = some i2c_xfer;
    is_up = λ h. is_some h.client;
    setup_ok = i2c_setup_ok device np;
    setup_failed = λ h down n. i2c_setup_failed device np h n ∙ down;
    cleanup_down = i2c_cleanup_down;
  }
