-- ===== src/Pdm/Mcu/Tests.antt =====
-- Runs of the MCU protocol and driver over a link that answers with what it was sent.
use lpf.Common.{
  ◌≢◌, ap, min, take, negsuc, suc, ◌++◌, ◌+◌, ◌-◌, ◌*◌, ◌%◌, pos, ℕ, ◌≤◌, ◌<◌, ◌^◌, ◌≡◌, refl, ◌⊎◌,
  inl, inr, Bool, true, false, List, [], ◌∷◌, length, replicate, Option, none, some, ℤ, is_zero,
  ret_ok, arith,
}
use lpf.Common.Text.{Text, text}
use lpf.Pdm.Device.{PdmDevice, alloc, type_mcu}
use lpf.Pdm.Registry.{BackendEntry}
use lpf.Pdm.Mcu.Transport.{Request, Transport, Answer}
use lpf.Pdm.Mcu.{received, McuCommand, encode_be32, protocol_command}
use lpf.Pdm.Mcu.Xfer.{decode_be, needs, Kept, Asked, protocol_command-Handled}
use lpf.Pdm.Mcu.I2c.{Adapter, I2cLink, Message, encode_prefix, i2c_xfer}
use lpf.Pdm.Mcu.I2cFrame.{Coded, reading, i2c_xfer_lem}
use lpf.Pdm.Mcu.Can.{Frame, CanSockets, CanLink, make_id, strip_id, can_xfer}
use lpf.Pdm.Mcu.Uart.{SerialPort, UartLink, write_bus}
use lpf.Pdm.Mcu.UartWrite.{SerialLaws, Written, write_bus-Written}
use lpf.Pdm.Mcu.CanFrame.{frame_of, Taken, can_xfer_lem}
use lpf.Pdm.Mcu.Driver.{McuInstance, Command}
use lpf.Pdm.Mcu.Lifecycle.{mcu_probe, mcu_remove}
use lpf.Pdm.Mcu.States.{Agree}
use lpf.Pdm.Mcu.Probe.{bound, ioctls, mcu_probe-ioctls}

abbrev echo : Transport
echo = record {
  State = Bool;
  capability = 2;
  max_tx_size = 64;
  max_rx_size = 0;
  setup = λ h. (ret_ok, true);
  cleanup = λ h. false;
  xfer = some (λ q h. record { ret = ret_ok; rx = q.tx; actual_rx_len = q.tx_len; link = h });
  is_up = λ h. h;
  setup_ok = λ h z. refl;
  setup_failed = λ h down n. n;
  cleanup_down = λ h. refl;
}

abbrev ping : McuCommand
ping = record {
  index = 0;
  command = 9;
  flags = 1;
  tx_len = 2;
  rx_len = 4;
  actual_rx_len = 0;
  tx_data = 7 ∷ 8 ∷ replicate 254 0;
  rx_data = replicate 256 0;
}

abbrev uart : BackendEntry
uart = record {
  name = some (text "mcu_uart");
  device_type = type_mcu;
  backend_class = 0;
  matches = some (text "pdm,mcu-uart" ∷ [] ∷ []);
  ops = some 2;
  init = some ret_ok;
  exit = true;
}

unfoldable mcu : PdmDevice
unfolding alloc
mcu = record alloc { dev_name = text "mcu"; compatible = some (text "pdm,mcu-uart") }

abbrev instance_of : Option McuInstance → McuInstance
instance_of none = record {
  online = false;
  lock = 0;
  has_ops = false;
  state = 0;
  last_error = ret_ok;
  pdm_dev = mcu;
}
instance_of (some inst) = inst

abbrev kept_instance : McuInstance
kept_instance = instance_of (mcu_probe echo true (uart ∷ []) ret_ok mcu 0 false).instance

probe_ok : (mcu_probe echo true (uart ∷ []) ret_ok mcu 0 false).instance ≡ some kept_instance
unfolding mcu_probe mcu alloc lpf.Pdm.Mcu.Lifecycle.probe_found lpf.Pdm.Mcu.Lifecycle.probe_set_up
    lpf.Pdm.Registry.backend_find lpf.Pdm.Registry.entry_matches lpf.Pdm.Bus.table_has
    lpf.Common.Text.same_string
probe_ok = refl

protocol_command-Handled_example :
    let (ret, d, h) = protocol_command echo ping true in
    Kept echo ping d
    × (is_zero ret ≡ true → (d.actual_rx_len ≤ 4) × (ping.tx_len ≤ 256) × (ping.rx_len ≤ 256))
    × (is_zero ret ≡ false → d.actual_rx_len ≡ ping.actual_rx_len)
    × (((h ≡ true) × (is_zero ret ≡ false) × (d.rx_data ≡ ping.rx_data))
        ⊎ ((a : Answer Bool) × (h ≡ a.link)
            × (is_zero ret ≡ is_zero a.ret)
            × (d.rx_data ≡ received (needs echo ping) a.rx ping.rx_data)
            × ((r : ℕ) × (r ≤ 4) × Asked echo 9 2 r true a)))
protocol_command-Handled_example = protocol_command-Handled echo ping true

-- An answer, and a command with an unknown flag.
abbrev commands : List Command
commands =
    Command.ask_command (record { readable = some ping; writable = true })
    ∷ Command.ask_command (record { readable = some (record ping { flags = 2 }); writable = true })
    ∷ []

mcu_probe-ioctls_example :
    let p = mcu_probe echo true (uart ∷ []) ret_ok mcu 0 false in
    Agree (ioctls echo commands (bound echo kept_instance) p.hardware)
mcu_probe-ioctls_example =
    mcu_probe-ioctls echo true (uart ∷ []) ret_ok mcu 0 false refl kept_instance probe_ok commands

-- An adapter that keeps the messages, and answers with nothing.
abbrev recorder : Adapter
recorder = record {
  Client = ℕ;
  Bus = List Message;
  i2c_transfer = λ c sent bus. (pos (length sent), [], sent ++ bus);
}

abbrev i2c_link : I2cLink recorder
i2c_link = record { client = some 0x42; command_bytes = 2; bus = [] }

abbrev request : Request
request = record { command = 0x1_0203; tx = 7 ∷ 8 ∷ []; tx_len = 2; rx_len = 4 }

i2c_xfer_lem_example :
    let prefix = encode_prefix 0x1_0203 2 in
    let (ret, rx, bus) =
      recorder.i2c_transfer 0x42 (Message.write (prefix ++ 7 ∷ 8 ∷ []) ∷ reading 4) [] in
    let a = i2c_xfer recorder request i2c_link in
    (length prefix ≡ 2)
    × (decode_be 0 prefix ≡ 0x1_0203 % 2 ^ 16)
    × Coded recorder 2 ret a.ret
    × (is_zero a.ret ≡ true → a.actual_rx_len ≡ 4)
    × (is_zero a.ret ≡ false → a.actual_rx_len ≡ 0)
    × (a.rx ≡ rx)
    × ((a.link).bus ≡ bus)
i2c_xfer_lem_example =
    i2c_xfer_lem recorder request i2c_link 0x42 refl (omega arith) (omega arith) (omega arith)
      (omega arith)

-- A CAN network that keeps the last frame and answers with it.
abbrev loopback : CanSockets
loopback = record {
  Netdev = ℕ;
  Net = Frame;
  sock_create = λ n. (ret_ok, n);
  bind = λ d n. (ret_ok, n);
  sendmsg = λ f n. (pos 16, f);
  recvmsg = λ n. (pos 16, n, n);
}

abbrev can_up : CanLink loopback
can_up = record {
  sock = true;
  netdev = some 1;
  extended_id = false;
  net = record { can_id = 0; len = 0; payload = [] };
}

abbrev can_request : Request
can_request = record { command = 0x123; tx = 7 ∷ 8 ∷ []; tx_len = 2; rx_len = 8 }

can_xfer_lem_example :
    let (sent, net) = loopback.sendmsg (frame_of loopback can_request can_up) can_up.net in
    let a = can_xfer loopback can_request can_up in
    (sent ≢ pos 16 → (is_zero a.ret ≡ false) × ((a.link).net ≡ net))
    × (sent ≡ pos 16
        → can_request.rx_len ≡ 0
        → (a.ret ≡ ret_ok) × (a.actual_rx_len ≡ 0) × ((a.link).net ≡ net))
    × (sent ≡ pos 16
        → 0 < can_request.rx_len
        → can_request.rx_len ≤ 256
        → Taken loopback can_request.rx_len can_up (loopback.recvmsg net) a)
    × (0x123 < 2 ^ 29 → strip_id (make_id false 0x123) ≡ 0x123)
    × (a.actual_rx_len ≤ can_request.rx_len)
can_xfer_lem_example = can_xfer_lem loopback can_request can_up refl (omega arith)

-- A serial port that takes two bytes at a time, with a clock.
record Wire : Type 0 where
  out : List ℕ
  time : ℕ

abbrev accept : List ℕ → Wire → ℤ × Wire
accept buf w = (pos (min 2 (length buf)), record w { out = w.out ++ take (min 2 (length buf)) buf })

abbrev wire : SerialPort
wire = record {
  Port = Wire;
  write_buf = accept;
  wait_until_sent = λ w. w;
  fifo_out = λ n w. ([], w);
  wait_event = λ n w. (pos 0, w);
  msleep = λ w. record w { time = w.time + 1 };
  jiffies = λ w. min w.time (2 ^ 63 - 1);
  msecs_to_jiffies = λ n. n;
}

count_of : ℤ → ℕ
count_of (pos n) = n
count_of (negsuc n) = 0

accept_some :
    (buf : List ℕ) (n : ℕ) (w : Wire)
    → (accept buf w).0 ≡ pos n
    → (n ≤ length buf) × ((accept buf w).1.out ≡ w.out ++ take n buf)
unfolding count_of
accept_some buf n w e = (
  (let k = ap count_of e in omega (arith, k)),
  ap (λ (m : ℕ). w.out ++ take m buf) (ap count_of e),
)

wire_laws : SerialLaws wire
wire_laws = record {
  sent = λ w. w.out;
  took_some = accept_some;
  took_none = λ buf w e. cc e;
  wait_sent = λ w. refl;
  msleep_sent = λ w. refl;
  below = λ w. omega arith;
  write_later = λ buf w. omega arith;
  wait_later = λ w. omega arith;
  msleep_later = λ w early. omega (arith, early);
}

abbrev idle_wire : UartLink wire
idle_wire = record {
  serdev = true;
  rx_timeout_ms = 100;
  baudrate = 115200;
  port = record { out = []; time = 5 };
}

write_bus-Written_example :
    (r : ℤ × UartLink wire) × (write_bus wire 105 (1 ∷ 2 ∷ 3 ∷ []) idle_wire ≡ some r)
    × Written wire wire_laws (wire_laws.sent idle_wire.port) (1 ∷ 2 ∷ 3 ∷ []) 105 (r.0, (r.1).port)
write_bus-Written_example =
    write_bus-Written wire wire_laws (1 ∷ 2 ∷ 3 ∷ []) idle_wire 100 refl refl (omega arith)
