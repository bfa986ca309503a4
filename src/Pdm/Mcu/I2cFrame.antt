-- ===== src/Pdm/Mcu/I2cFrame.antt =====
-- The frames that the I2C transport sends: kernel/pdm/drivers/mcu/pdm_mcu_i2c.c.
use lpf.Common.{
  ◌≢◌, refl, sym, subst, ℤ, pos, is_neg, is_zero, eqz, eqz_refl, eqz_iff, ret_ok, eio, length, inl,
  inr, Bool-cases, ℕ, zero, suc, ◌+◌, ◌*◌, ◌%◌, ◌^◌, ltb, ◌≤◌, ◌≡◌, ap, ◌∙◌, ◌==◌, ◌&&◌, ◌++◌,
  if◌then◌else◌, if_true, if_false, true, false, not, List, [], ◌∷◌, Option, some, arith,
}
use lpf.Pdm.Mcu.{max_transfer_size}
use lpf.Pdm.Mcu.Transport.{Request, Answer}
use lpf.Pdm.Mcu.Xfer.{decode_be}
use lpf.Pdm.Mcu.I2c.{
  Adapter, I2cLink, Message, max_prefix_bytes, encode_prefix, messages, msg_count, transfer_code,
  transfer, bus_xfer_to, bus_xfer, answered, cmd_xfer, i2c_xfer,
}

decode_be-encode_prefix :
    (value n : ℕ) → n ≤ 4 → decode_be 0 (encode_prefix value n) ≡ value % 2 ^ (8 * n)
unfolding decode_be encode_prefix
decode_be-encode_prefix value zero le = omega arith
decode_be-encode_prefix value (suc zero) le = omega arith
decode_be-encode_prefix value (suc (suc zero)) le = omega arith
decode_be-encode_prefix value (suc (suc (suc zero))) le = omega arith
decode_be-encode_prefix value (suc (suc (suc (suc zero)))) le = omega arith
decode_be-encode_prefix value (suc (suc (suc (suc (suc n))))) le = absurd (omega (arith, le))

length-encode_prefix : (value n : ℕ) → length (encode_prefix value n) ≡ n
unfolding encode_prefix
length-encode_prefix value zero = refl
length-encode_prefix value (suc n) = ap suc (length-encode_prefix value n)

-- The message that asks for an answer, if there is room for one.
abbrev pub reading : ℕ → List Message
reading n = if not (n == 0) then Message.read n ∷ [] else []

module _ (adapter : Adapter) where
  open adapter use {Client, i2c_transfer}

  guard_zero : (k : ℕ) → 1 ≤ k → (k == 0) ≡ false
  guard_zero k some_bytes = ground (arith, some_bytes)

  guard_size :
      (t k : ℕ) → t ≤ 256 → k ≤ 4 → ltb (max_transfer_size + max_prefix_bytes) (t + k) ≡ false
  guard_size t k ht hk = ground (arith, ht, hk)

  guard_room : (r : ℕ) → r ≤ 256 → ltb max_transfer_size r ≡ false
  guard_room r hr = ground (arith, hr)

  guard_empty : (t k r : ℕ) → 1 ≤ k → (t + k == 0 && r == 0) ≡ false
  guard_empty t k r some_bytes = ground (arith, some_bytes)

  guard_write : (t k : ℕ) → 1 ≤ k → not (t + k == 0) ≡ true
  guard_write t k some_bytes = ground (arith, some_bytes)

  i2c_xfer-transfer :
      (q : Request) (h : I2cLink adapter) (c : Client)
      → h.client ≡ some c
      → 1 ≤ h.command_bytes
      → h.command_bytes ≤ 4
      → q.tx_len ≤ 256
      → q.rx_len ≤ 256
      → i2c_xfer adapter q h
        ≡ answered adapter q.rx_len (
            transfer adapter (msg_count (q.tx_len + h.command_bytes) q.rx_len) h (
              i2c_transfer c
                (Message.write (encode_prefix q.command h.command_bytes ++ q.tx) ∷ reading q.rx_len)
                h.bus))
  unfolding i2c_xfer cmd_xfer bus_xfer bus_xfer_to messages
  i2c_xfer-transfer q h c up some_bytes few tx_fits rx_fits = ap (answered adapter q.rx_len) (
      if_false (h.command_bytes == 0) _ _ (guard_zero h.command_bytes some_bytes)
      ∙ if_false (ltb (max_transfer_size + max_prefix_bytes) (q.tx_len + h.command_bytes)) _ _
          (guard_size q.tx_len h.command_bytes tx_fits few)
      ∙ if_false (ltb max_transfer_size q.rx_len) _ _ (guard_room q.rx_len rx_fits)
      ∙ ap
          (λ (o : Option Client).
            bus_xfer_to adapter o (encode_prefix q.command h.command_bytes ++ q.tx)
              (q.tx_len + h.command_bytes) q.rx_len h)
          up
      ∙ if_false (q.tx_len + h.command_bytes == 0 && q.rx_len == 0) _ _
          (guard_empty q.tx_len h.command_bytes q.rx_len some_bytes)
      ∙ ap
          (λ (m : List Message).
            transfer adapter (msg_count (q.tx_len + h.command_bytes) q.rx_len) h
              (i2c_transfer c m h.bus))
          (if_true (not (q.tx_len + h.command_bytes == 0)) _ _
            (guard_write q.tx_len h.command_bytes some_bytes)))

  -- The code of a transfer of so many messages that returned `ret`: an error of the adapter is passed
  -- on, and fewer messages than asked for are an I/O error.
  abbrev pub Coded : ℕ → ℤ → ℤ → Type 0
  Coded count ret code =
      (is_neg ret ≡ true → code ≡ ret)
      × (ret ≡ pos count → code ≡ ret_ok)
      × (is_neg ret ≡ false → ret ≢ pos count → code ≡ eio)

  transfer_code-Coded : (count : ℕ) (ret : ℤ) → Coded count ret (transfer_code adapter count ret)
  unfolding transfer_code
  transfer_code-Coded count ret = (
    λ t. if_true (is_neg ret) _ _ t,
    λ e.
        if_false (is_neg ret) _ _ (ap is_neg e)
        ∙ if_true (eqz ret (pos count)) _ _
            (ap (λ (r : ℤ). eqz r (pos count)) e ∙ eqz_refl (pos count)),
    λ f ne. if_false (is_neg ret) _ _ f ∙ elim (Bool-cases (eqz ret (pos count))) [
      | inl e ↦ absurd (ne (eqz_iff ret (pos count) e))
      | inr n ↦ if_false (eqz ret (pos count)) _ _ n
    ],
  )

  counted : (t k r : ℕ) → 1 ≤ k → msg_count (t + k) r ≡ (if r == 0 then 1 else 2)
  unfolding msg_count
  counted t k r some_bytes = ground (arith, some_bytes)

  reported :
      (code : ℤ) (n : ℕ)
      → (is_zero code ≡ true → (if is_zero code then n else 0) ≡ n)
        × (is_zero code ≡ false → (if is_zero code then n else 0) ≡ 0)
  reported code n = ((λ z. if_true (is_zero code) n 0 z), (λ f. if_false (is_zero code) n 0 f))

  -- On an I2C link that is up and sends one to four bytes of a command, every request that keeps
  -- the bounds of the protocol, 256 bytes each way, becomes one transfer. It writes as many bytes as
  -- the link sends of a command, which are the low bytes of the command, the most significant first,
  -- and then the payload; and it reads as much as there is room for, if any. The code is the error of
  -- the adapter, or 0 if it did both messages, or the one if there is no room, or else -EIO; with 0 the
  -- whole room counts as answered, and with an error nothing. The bytes that were read and the
  -- adapter are what the transfer left.
  pub i2c_xfer_lem :
      (q : Request) (h : I2cLink adapter) (c : Client)
      → h.client ≡ some c
      → 1 ≤ h.command_bytes
      → h.command_bytes ≤ 4
      → q.tx_len ≤ 256
      → q.rx_len ≤ 256
      → let prefix = encode_prefix q.command h.command_bytes in
        let (ret, rx, bus) =
          i2c_transfer c (Message.write (prefix ++ q.tx) ∷ reading q.rx_len) h.bus in
        let a = i2c_xfer adapter q h in
        (length prefix ≡ h.command_bytes)
        × (decode_be 0 prefix ≡ q.command % 2 ^ (8 * h.command_bytes))
        × Coded (if q.rx_len == 0 then 1 else 2) ret a.ret
        × (is_zero a.ret ≡ true → a.actual_rx_len ≡ q.rx_len)
        × (is_zero a.ret ≡ false → a.actual_rx_len ≡ 0)
        × (a.rx ≡ rx)
        × ((a.link).bus ≡ bus)
  unfolding answered transfer
  i2c_xfer_lem q h c up some_bytes few tx_fits rx_fits =
      let done = i2c_xfer-transfer q h c up some_bytes few tx_fits rx_fits in
      let prefix : List ℕ = encode_prefix q.command h.command_bytes in
      let t = i2c_transfer c (Message.write (prefix ++ q.tx) ∷ reading q.rx_len) h.bus in
      let count = counted q.tx_len h.command_bytes q.rx_len some_bytes in
      let code = ap (λ (a : Answer (I2cLink adapter)). a.ret) done in
      let len = ap (λ (a : Answer (I2cLink adapter)). a.actual_rx_len) done in
      (
        length-encode_prefix q.command h.command_bytes,
        decode_be-encode_prefix q.command h.command_bytes few,
        subst (λ (x : ℤ). Coded (if q.rx_len == 0 then 1 else 2) t.0 x) (sym code)
            (subst
              (λ (n : ℕ).
                Coded n t.0
                  (transfer_code adapter (msg_count (q.tx_len + h.command_bytes) q.rx_len) t.0))
              count (transfer_code-Coded (msg_count (q.tx_len + h.command_bytes) q.rx_len) t.0)),
        λ z. len ∙ (reported _ q.rx_len).0 (sym (ap is_zero code) ∙ z),
        λ n. len ∙ (reported _ q.rx_len).1 (sym (ap is_zero code) ∙ n),
        ap (λ (a : Answer (I2cLink adapter)). a.rx) done,
        ap (λ (a : Answer (I2cLink adapter)). (a.link).bus) done,
      )
