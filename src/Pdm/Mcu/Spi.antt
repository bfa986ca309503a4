-- ===== src/Pdm/Mcu/Spi.antt =====
-- kernel/pdm/drivers/mcu/pdm_mcu_spi.c: the SPI transport of an MCU, over the SPI controller of the
-- kernel, which is a parameter.
use lpf.Common.{
  ℕ, ◌+◌, ltb, ◌==◌, ◌&&◌, ◌≡◌, refl, ◌∙◌, ◌++◌, if◌then◌else◌, true, false, not, is_some, List, [],
  ◌∷◌, Option, none, some, ℤ, is_zero, ret_ok, enodev, emsgsize, eopnotsupp,
}
use lpf.Pdm.Mcu.{max_transfer_size}
use lpf.Pdm.Mcu.Transport.{Transport, Request, Answer}
use lpf.Pdm.Mcu.I2c.{max_prefix_bytes, encode_prefix, prefix_bytes}

-- A `struct spi_transfer`: bytes to send, or how many to receive.
pub data Transfer : Type 0 where
  send : List ℕ → Transfer
  receive : ℕ → Transfer

-- `spi_sync_transfer` to a device: its result, the bytes that were received, and the controller.
pub record Controller : Type 1 where
  pub Device : Type 0
  pub Bus : Type 0
  pub spi_sync_transfer : Device → List Transfer → Bus → ℤ × List ℕ × Bus

-- The transfers, less those without bytes.
unfoldable pub transfers : List ℕ → ℕ → ℕ → List Transfer
transfers tx tx_len rx_len =
    let answer = if not (rx_len == 0) then Transfer.receive rx_len ∷ [] else [] in
    if not (tx_len == 0) then Transfer.send tx ∷ answer else answer

-- `pdm_mcu_spi_encode_prefix` and `pdm_mcu_spi_prefix_bytes`, word for word those of I2C
unfoldable pub spi_encode_prefix : ℕ → ℕ → List ℕ
spi_encode_prefix value n = encode_prefix value n

unfoldable pub spi_prefix_bytes : Option (Option ℕ × Option ℕ) → ℕ → ℕ
spi_prefix_bytes np default_value = prefix_bytes np default_value

module _ (controller : Controller) where
  open controller use {Device, Bus, spi_sync_transfer}

  -- The SPI part of `struct pdm_mcu_instance`, with the controller.
  pub record SpiLink : Type 0 where
    pub spi : Option Device
    pub command_bytes : ℕ
    pub bus : Bus

  -- `pdm_mcu_spi_bus_xfer`: the code, the bytes that were received, and the link.
  unfoldable pub spi_answer : SpiLink → ℤ × List ℕ × Bus → ℤ × List ℕ × SpiLink
  spi_answer h (ret, rx, bus) = (ret, rx, record h { bus = bus })

  unfoldable pub spi_bus_xfer_to : Option Device → List ℕ → ℕ → ℕ → SpiLink → ℤ × List ℕ × SpiLink
  spi_bus_xfer_to none tx tx_len rx_len h = (enodev, [], h)
  spi_bus_xfer_to (some d) tx tx_len rx_len h =
      if tx_len == 0 && rx_len == 0
      then (ret_ok, [], h)
      else spi_answer h (spi_sync_transfer d (transfers tx tx_len rx_len) h.bus)

  unfoldable pub spi_bus_xfer : List ℕ → ℕ → ℕ → SpiLink → ℤ × List ℕ × SpiLink
  spi_bus_xfer tx tx_len rx_len h = spi_bus_xfer_to h.spi tx tx_len rx_len h

  -- `pdm_mcu_spi_cmd_xfer`
  unfoldable pub spi_cmd_xfer : Request → SpiLink → ℤ × List ℕ × SpiLink
  spi_cmd_xfer q h =
      if h.command_bytes == 0
      then (eopnotsupp, [], h)
      else if ltb (max_transfer_size + max_prefix_bytes) (q.tx_len + h.command_bytes)
      then (emsgsize, [], h)
      else if ltb max_transfer_size q.rx_len
      then (emsgsize, [], h)
      else spi_bus_xfer (spi_encode_prefix q.command h.command_bytes ++ q.tx)
          (q.tx_len + h.command_bytes) q.rx_len h

  -- The end of `pdm_mcu_spi_xfer`: all of the room counts as answered.
  unfoldable pub spi_answered : ℕ → ℤ × List ℕ × SpiLink → Answer SpiLink
  spi_answered rx_len (ret, rx, h) = record {
    ret = ret;
    rx = rx;
    actual_rx_len = if is_zero ret then rx_len else 0;
    link = h;
  }

  unfoldable pub spi_xfer : Request → SpiLink → Answer SpiLink
  spi_xfer q h = spi_answered q.rx_len (spi_cmd_xfer q h)

  -- `pdm_mcu_spi_setup`, from the device of the bus device, if it is one of SPI, and the node
  unfoldable pub spi_setup : Option Device → Option (Option ℕ × Option ℕ) → SpiLink → ℤ × SpiLink
  spi_setup none np h = (enodev, h)
  spi_setup (some d) np h =
      (ret_ok, record h { spi = some d; command_bytes = spi_prefix_bytes np 1 })

  -- `pdm_mcu_spi_cleanup`
  unfoldable pub spi_cleanup : SpiLink → SpiLink
  spi_cleanup h = record h { spi = none }

  pub spi_setup_ok :
      (o : Option Device) (np : Option (Option ℕ × Option ℕ)) (h : SpiLink)
      → is_zero (spi_setup o np h).0 ≡ true
      → is_some (spi_setup o np h).1.spi ≡ true
  unfolding spi_setup
  spi_setup_ok none np h z = cc
  spi_setup_ok (some d) np h z = refl

  pub spi_setup_failed :
      (o : Option Device) (np : Option (Option ℕ × Option ℕ)) (h : SpiLink)
      → is_zero (spi_setup o np h).0 ≡ false
      → is_some (spi_setup o np h).1.spi ≡ is_some h.spi
  unfolding spi_setup
  spi_setup_failed none np h n = refl
  spi_setup_failed (some d) np h n = cc

  pub spi_cleanup_down : (h : SpiLink) → is_some (spi_cleanup h).spi ≡ false
  unfolding spi_cleanup
  spi_cleanup_down h = refl

  -- `pdm_mcu_spi_ops`, of a bus device with this device and node
  abbrev pub spi_ops : Option Device → Option (Option ℕ × Option ℕ) → Transport
  spi_ops device np = record {
    State = SpiLink;
    capability = 8;
    max_tx_size = max_transfer_size;
    max_rx_size = max_transfer_size;
    setup = spi_setup device np;
    cleanup = spi_cleanup;
    xfer = some spi_xfer;
    is_up = λ h. is_some h.spi;
    setup_ok = spi_setup_ok device np;
    setup_failed = λ h down n. spi_setup_failed device np h n ∙ down;
    cleanup_down = spi_cleanup_down;
  }
