-- ===== src/Pdm/Mcu/Can.antt =====
-- kernel/pdm/drivers/mcu/pdm_mcu_can.c: the CAN transport of an MCU, over the raw CAN sockets of the
-- kernel, which are a parameter.
use lpf.Common.{
  ℕ, ◌+◌, ◌/◌, ◌%◌, ◌^◌, ltb, ◌==◌, ◌||◌, ◌≡◌, refl, if◌then◌else◌, if_elim, Bool, true, false, not,
  unnegate_false, List, [], take, Option, none, some, ℤ, pos, is_neg, is_zero, eqz, ret_ok, eio,
  enodev, emsgsize,
}
use lpf.Pdm.Mcu.{max_transfer_size}
use lpf.Pdm.Mcu.Transport.{Transport, Request, Answer}

-- CAN_MAX_DLEN
abbrev pub can_max_dlen : ℕ
can_max_dlen = 8

-- `struct can_frame`
pub record Frame : Type 0 where
  pub can_id : ℕ
  pub len : ℕ
  pub payload : List ℕ

-- The network devices and sockets of the kernel: creating and binding a socket, sending a frame,
-- and receiving one, each with its result; a `struct can_frame` has 16 bytes.
pub record CanSockets : Type 1 where
  pub Netdev : Type 0
  pub Net : Type 0
  pub sock_create : Net → ℤ × Net
  pub bind : Netdev → Net → ℤ × Net
  pub sendmsg : Frame → Net → ℤ × Net
  pub recvmsg : Net → ℤ × Frame × Net

-- `pdm_mcu_can_make_id`: the masks are the low 11 and 29 bits, the flag is bit 31.
unfoldable pub make_id : Bool → ℕ → ℕ
make_id extended_id id = if extended_id || ltb 0x7ff id then id % 2 ^ 29 + 2 ^ 31 else id % 2 ^ 11

-- `pdm_mcu_can_strip_id`
unfoldable pub strip_id : ℕ → ℕ
strip_id can_id = if not (can_id / 2 ^ 31 % 2 == 0) then can_id % 2 ^ 29 else can_id % 2 ^ 11

-- A result of the size of a frame is success.
unfoldable pub whole_frame : ℤ → ℤ
whole_frame ret = if is_neg ret then ret else if eqz ret (pos 16) then ret_ok else eio

module _ (can : CanSockets) where
  open can use {Netdev, Net, sock_create, bind, sendmsg, recvmsg}

  -- The CAN part of `struct pdm_mcu_instance`, with the network; `sock` is whether there is one.
  pub record CanLink : Type 0 where
    pub sock : Bool
    pub netdev : Option Netdev
    pub extended_id : Bool
    pub net : Net

  unfoldable pub frame_sent : CanLink → ℤ × Net → ℤ × CanLink
  frame_sent h (ret, net) = (whole_frame ret, record h { net = net })

  -- `pdm_mcu_can_send_frame`
  unfoldable pub send_frame : ℕ → List ℕ → ℕ → CanLink → ℤ × CanLink
  send_frame id payload len h =
      if not h.sock
      then (enodev, h)
      else if ltb can_max_dlen len
      then (emsgsize, h)
      else frame_sent h (
          sendmsg (record { can_id = make_id h.extended_id id; len = len; payload = payload })
            h.net)

  -- What a received frame leaves: the code, the bytes, their number, and the link.
  abbrev pub Received : Type 0
  Received = ℤ × List ℕ × ℕ × CanLink

  unfoldable pub frame_received : ℕ → CanLink → ℤ × Frame × Net → Received
  frame_received max_len h (ret, frame, net) =
      let h' = record h { net = net } in
      if not (is_zero (whole_frame ret))
      then (whole_frame ret, [], max_len, h')
      else if ltb max_len frame.len
      then (emsgsize, [], max_len, h')
      else (ret_ok, take frame.len frame.payload, frame.len, h')

  -- `pdm_mcu_can_recv_frame`, less the id, which no caller reads
  unfoldable pub recv_frame : ℕ → CanLink → Received
  recv_frame max_len h =
      if not h.sock
      then (enodev, [], max_len, h)
      else if ltb max_transfer_size max_len
      then (emsgsize, [], max_len, h)
      else frame_received max_len h (recvmsg h.net)

  -- `pdm_mcu_can_cmd_xfer`, after the frame was sent
  unfoldable pub can_answer : ℕ → ℤ × CanLink → Received
  can_answer rx_len (ret, h) =
      if not (is_zero ret)
      then (ret, [], rx_len, h)
      else if rx_len == 0
      then (ret_ok, [], rx_len, h)
      else recv_frame rx_len h

  unfoldable pub can_cmd_xfer : Request → CanLink → Received
  can_cmd_xfer q h = can_answer q.rx_len (send_frame q.command q.tx q.tx_len h)

  -- The end of `pdm_mcu_can_xfer`
  unfoldable pub can_answered : Received → Answer CanLink
  can_answered (ret, rx, len, h) = record {
    ret = ret;
    rx = rx;
    actual_rx_len = if is_zero ret then len else 0;
    link = h;
  }

  unfoldable pub can_xfer : Request → CanLink → Answer CanLink
  can_xfer q h = can_answered (can_cmd_xfer q h)

  -- `pdm_mcu_can_setup`, after `kernel_bind`, and after `sock_create_kern`
  unfoldable pub can_bound : Netdev → CanLink → ℤ × Net → ℤ × CanLink
  can_bound dev h (ret, net) =
      if not (is_zero ret)
      then (ret, record h { sock = false; net = net })
      else (ret_ok, record h { netdev = some dev; net = net })

  unfoldable pub can_created : Netdev → CanLink → ℤ × Net → ℤ × CanLink
  can_created dev h (ret, net) =
      if not (is_zero ret)
      then (ret, record h { net = net })
      else can_bound dev (record h { sock = true; net = net }) (bind dev net)

  -- `pdm_mcu_can_setup`, from the network device of the node, if it has one, and the property
  -- can-extended-id
  unfoldable pub can_setup : Option (Netdev × Bool) → CanLink → ℤ × CanLink
  can_setup none h = (enodev, h)
  can_setup (some (dev, extended)) h =
      let h' = record h { extended_id = extended } in can_created dev h' (sock_create h'.net)

  -- `pdm_mcu_can_cleanup`
  unfoldable pub can_cleanup : CanLink → CanLink
  can_cleanup h = record h { sock = false; netdev = none }

  pub can_setup_ok :
      (o : Option (Netdev × Bool)) (h : CanLink)
      → is_zero (can_setup o h).0 ≡ true
      → (can_setup o h).1.sock ≡ true
  unfolding can_setup can_created can_bound
  can_setup_ok none h = λ z. cc z
  can_setup_ok (some (dev, extended)) h =
      if_elim (λ (r : ℤ × CanLink). is_zero r.0 ≡ true → r.1.sock ≡ true)
        (not (is_zero (sock_create h.net).0)) _ _
        (λ t z. cc (z, unnegate_false (is_zero (sock_create h.net).0) t))
        (λ _.
          if_elim (λ (r : ℤ × CanLink). is_zero r.0 ≡ true → r.1.sock ≡ true)
            (not (is_zero (bind dev (sock_create h.net).1).0)) _ _
            (λ t z. cc (z, unnegate_false (is_zero (bind dev (sock_create h.net).1).0) t))
            (λ _ z. refl))

  pub can_setup_failed :
      (o : Option (Netdev × Bool)) (h : CanLink)
      → h.sock ≡ false
      → is_zero (can_setup o h).0 ≡ false
      → (can_setup o h).1.sock ≡ false
  unfolding can_setup can_created can_bound
  can_setup_failed none h down = λ n. down
  can_setup_failed (some (dev, extended)) h down =
      if_elim (λ (r : ℤ × CanLink). is_zero r.0 ≡ false → r.1.sock ≡ false)
        (not (is_zero (sock_create h.net).0)) _ _ (λ _ _. down)
        (λ _.
          if_elim (λ (r : ℤ × CanLink). is_zero r.0 ≡ false → r.1.sock ≡ false)
            (not (is_zero (bind dev (sock_create h.net).1).0)) _ _ (λ _ _. refl) (λ _ n. cc n))

  pub can_cleanup_down : (h : CanLink) → (can_cleanup h).sock ≡ false
  unfolding can_cleanup
  can_cleanup_down h = refl

  -- `pdm_mcu_can_ops`
  abbrev pub can_ops : Option (Netdev × Bool) → Transport
  can_ops node = record {
    State = CanLink;
    capability = 1;
    max_tx_size = can_max_dlen;
    max_rx_size = can_max_dlen;
    setup = can_setup node;
    cleanup = can_cleanup;
    xfer = some can_xfer;
    is_up = λ h. h.sock;
    setup_ok = can_setup_ok node;
    setup_failed = can_setup_failed node;
    cleanup_down = can_cleanup_down;
  }
