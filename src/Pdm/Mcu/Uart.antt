-- ===== src/Pdm/Mcu/Uart.antt =====
-- kernel/pdm/drivers/mcu/pdm_mcu_uart.c and pdm_mcu_uart_serdev.c: the UART transport of an MCU,
-- over the serial port of the kernel, which is a parameter.
use mathlib.Core.Option
use lpf.Common.{
  ℕ, zero, suc, ◌+◌, ◌-◌, ◌%◌, ◌^◌, ltb, leb, ◌==◌, ◌&&◌, ◌++◌, if◌then◌else◌, Bool, true, false,
  not, List, [], ◌∷◌, drop, length, Option, none, some, ℤ, pos, negsuc, is_neg, is_zero, eqz,
  ret_ok, eio, enodev, emsgsize,
}
use lpf.Pdm.Mcu.{max_transfer_size, encode_be32}
use lpf.Pdm.Mcu.Transport.{Request, Answer}

abbrev pub etimedout : ℤ
etimedout = negsuc 109

abbrev pub eagain : ℤ
eagain = negsuc 10

-- The serial port, its FIFO and the time in jiffies: how many bytes of a buffer were taken or an
-- error, waiting until they are sent, what the FIFO gives of so many bytes, waiting for a byte, and
-- `msleep(1)`.
pub record SerialPort : Type 1 where
  pub Port : Type 0
  pub write_buf : List ℕ → Port → ℤ × Port
  pub wait_until_sent : Port → Port
  pub fifo_out : ℕ → Port → List ℕ × Port
  pub wait_event : ℕ → Port → ℤ × Port
  pub msleep : Port → Port
  pub jiffies : Port → ℕ
  pub msecs_to_jiffies : ℕ → ℕ

-- `time_after(a, b)` and `time_after_eq(a, b)`: the sign of a difference of 64 bits
abbrev pub time_after : ℕ → ℕ → Bool
time_after a b = leb (2 ^ 63) ((b + 2 ^ 64 - a) % 2 ^ 64)

abbrev pub time_after_eq : ℕ → ℕ → Bool
time_after_eq a b = ltb ((a + 2 ^ 64 - b) % 2 ^ 64) (2 ^ 63)

module _ (serial : SerialPort) where
  open serial use {
    Port, write_buf, wait_until_sent, fifo_out, wait_event, msleep, jiffies, msecs_to_jiffies,
  }

  -- `pdm_mcu_uart_serdev_deadline`
  unfoldable pub deadline_of : ℕ → Port → ℕ
  deadline_of timeout_ms p =
      (jiffies p + msecs_to_jiffies (if timeout_ms == 0 then 1 else timeout_ms)) % 2 ^ 64

  -- `done ? (int)done : -ETIMEDOUT`
  unfoldable pub done_or_timeout : ℕ → ℤ
  done_or_timeout done = if done == 0 then etimedout else pos done

  -- A round of the loop of `pdm_mcu_uart_write_bus` after `serdev_device_write_buf`, with the next
  -- round for the bytes that are done.
  unfoldable pub write_stuck : (Port → Option (ℤ × Port)) → ℕ → ℕ → ℤ → Port → Option (ℤ × Port)
  write_stuck again deadline done ret p =
      if not (is_zero ret) && not (eqz ret eagain)
      then some (ret, p)
      else if time_after (jiffies p) deadline
      then some (done_or_timeout done, p)
      else again (msleep p)

  unfoldable pub write_took : (ℕ → Port → Option (ℤ × Port)) → ℕ → ℕ → ℤ × Port → Option (ℤ × Port)
  write_took next deadline done (pos zero, p) = write_stuck (next done) deadline done (pos zero) p
  write_took next deadline done (pos (suc n), p) = next (done + suc n) (wait_until_sent p)
  write_took next deadline done (negsuc e, p) = write_stuck (next done) deadline done (negsuc e) p

  -- The loop of `pdm_mcu_uart_write_bus`, on fuel
  unfoldable pub write_loop : ℕ → List ℕ → ℕ → ℕ → Port → Option (ℤ × Port)
  write_loop zero buf deadline done p = none
  write_loop (suc fuel) buf deadline done p =
      if not (ltb done (length buf))
      then some (pos done, p)
      else write_took (λ d q. write_loop fuel buf deadline d q) deadline done
          (write_buf (drop done buf) p)

  -- A round of the loop of `pdm_mcu_uart_read_bus` after the wait
  unfoldable pub read_waited :
      (Port → Option (ℤ × List ℕ × Port)) → ℕ → List ℕ → ℤ × Port → Option (ℤ × List ℕ × Port)
  read_waited again deadline got (ret, p) =
      if is_neg ret
      then some (ret, got, p)
      else if is_zero ret && time_after_eq (jiffies p) deadline
      then some (done_or_timeout (length got), got, p)
      else again p

  -- and after the FIFO was read; `wait_left` is at least 1
  unfoldable pub read_took :
      (List ℕ → Port → Option (ℤ × List ℕ × Port))
      → ℕ
      → List ℕ
      → List ℕ × Port
      → Option (ℤ × List ℕ × Port)
  read_took next deadline got (x ∷ xs, p) = next (got ++ x ∷ xs) p
  read_took next deadline got ([], p) =
      if time_after_eq (jiffies p) deadline
      then some (done_or_timeout (length got), got, p)
      else read_waited (next got) deadline got
          (wait_event ((deadline + 2 ^ 64 - jiffies p) % 2 ^ 64) p)

  -- The loop of `pdm_mcu_uart_read_bus`, on fuel: the code, and the bytes in the buffer
  unfoldable pub read_loop : ℕ → ℕ → ℕ → List ℕ → Port → Option (ℤ × List ℕ × Port)
  read_loop zero len deadline got p = none
  read_loop (suc fuel) len deadline got p =
      if not (ltb (length got) len)
      then some (pos (length got), got, p)
      else read_took (λ g q. read_loop fuel len deadline g q) deadline got
          (fifo_out (len - length got) p)

  -- The UART part of `struct pdm_mcu_instance`: whether it has a serial device, the timeout, the rate
  -- and the port.
  pub record UartLink : Type 0 where
    pub serdev : Bool
    pub rx_timeout_ms : ℕ
    pub baudrate : ℕ
    pub port : Port

  unfoldable pub put_port : {A : Type 0} → UartLink → Option (A × Port) → Option (A × UartLink)
  put_port h none = none
  put_port h (some (a, p)) = some (a, record h { port = p })

  -- `pdm_mcu_uart_write_bus`
  unfoldable pub write_bus : ℕ → List ℕ → UartLink → Option (ℤ × UartLink)
  write_bus fuel buf h =
      if not h.serdev
      then some (enodev, h)
      else put_port h (write_loop fuel buf (deadline_of h.rx_timeout_ms h.port) 0 h.port)

  -- `pdm_mcu_uart_write_exact`
  unfoldable pub exact_code : ℕ → ℤ → ℤ
  exact_code len ret = if is_neg ret then ret else if eqz ret (pos len) then ret_ok else eio

  unfoldable pub put_read : UartLink → Option (ℤ × List ℕ × Port) → Option (ℤ × List ℕ × UartLink)
  put_read h none = none
  put_read h (some (ret, got, p)) = some (ret, got, record h { port = p })

  -- `pdm_mcu_uart_read_bus`
  unfoldable pub read_bus : ℕ → ℕ → UartLink → Option (ℤ × List ℕ × UartLink)
  read_bus fuel len h =
      if not h.serdev
      then some (enodev, [], h)
      else if len == 0
      then some (ret_ok, [], h)
      else put_read h (read_loop fuel len (deadline_of h.rx_timeout_ms h.port) [] h.port)

  -- The end of `pdm_mcu_uart_cmd_xfer` and of `pdm_mcu_uart_xfer`: fewer bytes than asked for are
  -- an answer.
  unfoldable pub uart_received : ℤ × List ℕ × UartLink → Answer UartLink
  uart_received (pos n, rx, h) = record { ret = ret_ok; rx = rx; actual_rx_len = n; link = h }
  uart_received (negsuc e, rx, h) = record { ret = negsuc e; rx = rx; actual_rx_len = 0; link = h }

  unfoldable pub uart_failed : ℤ → UartLink → Answer UartLink
  uart_failed ret h = record { ret = ret; rx = []; actual_rx_len = 0; link = h }

  -- `pdm_mcu_uart_cmd_xfer` after the frame was written
  unfoldable pub uart_wrote : ℕ → Request → ℤ → UartLink → Option (Answer UartLink)
  uart_wrote fuel q ret h =
      if not (is_zero ret)
      then some (uart_failed ret h)
      else if q.rx_len == 0
      then some (uart_failed ret_ok h)
      else Option.map uart_received (read_bus fuel q.rx_len h)

  unfoldable pub uart_written : ℕ → Request → Option (ℤ × UartLink) → Option (Answer UartLink)
  uart_written fuel q none = none
  uart_written fuel q (some (ret, h)) = uart_wrote fuel q (exact_code (q.tx_len + 4) ret) h

  -- `pdm_mcu_uart_cmd_xfer`, with `pdm_mcu_uart_xfer`
  unfoldable pub uart_xfer : ℕ → Request → UartLink → Option (Answer UartLink)
  uart_xfer fuel q h =
      if ltb (max_transfer_size + 4) ((q.tx_len + 4) % 2 ^ 32)
      then some (uart_failed emsgsize h)
      else if ltb max_transfer_size q.rx_len
      then some (uart_failed emsgsize h)
      else uart_written fuel q (write_bus fuel (encode_be32 q.command ++ q.tx) h)

  -- `rx-timeout-ms` and the speed of the node, with their defaults
  unfoldable pub uart_configured : Option (Option ℕ × Option ℕ) → UartLink → UartLink
  uart_configured none h = record h { serdev = true; rx_timeout_ms = 100; baudrate = 115200 }
  uart_configured (some (timeout, speed)) h = record h {
    serdev = true;
    rx_timeout_ms = elim timeout [ none ↦ 100 | some t ↦ t ];
    baudrate = elim speed [ none ↦ 115200 | some b ↦ b ];
  }

  unfoldable pub opened_at : ℕ → UartLink → UartLink
  opened_at actual h = if actual == 0 then h else record h { baudrate = actual }

  -- `pdm_mcu_uart_setup_bus`, with the result of `serdev_device_open` and the rate that
  -- `serdev_device_set_baudrate` answers: one that fails keeps the serial device in the instance.
  unfoldable pub uart_setup : Bool → Option (Option ℕ × Option ℕ) → ℤ → ℕ → UartLink → ℤ × UartLink
  uart_setup bus_dev np open_ret actual h =
      if not bus_dev
      then (enodev, h)
      else if not (is_zero open_ret)
      then (open_ret, uart_configured np h)
      else (ret_ok, opened_at actual (uart_configured np h))

  -- `pdm_mcu_uart_cleanup_bus`
  unfoldable pub uart_cleanup : UartLink → UartLink
  uart_cleanup h = record h { serdev = false }
