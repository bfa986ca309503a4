-- ===== src/Pdm/Mcu/Xfer.antt =====
-- What the MCU protocol asks of a transport, and what it lets through:
-- kernel/pdm/drivers/mcu/pdm_mcu_protocol.c.
use lpf.Common.{
  ret_ok, sym, ◌∙◌, unnegate_true, ℕ, ◌+◌, ◌*◌, ◌^◌, ◌≤◌, ◌<◌, ◌≡◌, refl, ap, ◌⊎◌, inl, inr, ltb,
  ◌==◌, ◌&&◌, ◌||◌, if◌then◌else◌, if_elim, Bool, true, false, not, is_some, List, [], ◌∷◌, length,
  Option, none, some, ℤ, is_zero, einval, emsgsize, bit_and, arith,
}
use lpf.Pdm.Mcu.Transport.{Transport, Request, Answer}
use lpf.Pdm.Mcu.{
  McuCommand, max_transfer_size, f_need_response, encode_be32, max_tx, max_rx, check_answer,
  xfer_with, protocol_xfer, received, overwrite, fill_command, protocol_command,
}

-- The receiving side of the index: bytes, the most significant first.
unfoldable pub decode_be : ℕ → List ℕ → ℕ
decode_be acc [] = acc
decode_be acc (b ∷ bytes) = decode_be (acc * 256 + b) bytes

-- An index below 2^32 is sent in four bytes that give it back, the most significant first.
pub decode_be-encode_be32 :
    (value : ℕ)
    → value < 2 ^ 32
    → (decode_be 0 (encode_be32 value) ≡ value) × (length (encode_be32 value) ≡ 4)
unfolding decode_be encode_be32
decode_be-encode_be32 value small = (omega (arith, small), refl)

max_tx_bound : (size : ℕ) → max_tx size ≤ 256
unfolding max_tx
max_tx_bound size = ground arith

max_rx_bound : (size : ℕ) → max_rx size ≤ 256
unfolding max_rx
max_rx_bound size = ground arith

module _ (link : Transport) where
  open link use {State}

  -- The transport was asked once, within the bounds, and answered `a`.
  pub record Asked (command tx_len rx_len : ℕ) (h : State) (a : Answer State) : Type 0 where
    pub f : Request → State → Answer State
    pub its_xfer : link.xfer ≡ some f
    pub q : Request
    pub its_command : q.command ≡ command
    pub its_tx_len : (q.tx_len ≡ tx_len) × (tx_len ≤ 256)
    pub its_rx_len : (q.rx_len ≡ rx_len) × (rx_len ≤ 256)
    pub its_link : a.link ≡ (f q h).link
    pub its_rx : a.rx ≡ (f q h).rx
    pub fits : is_zero a.ret ≡ true → a.actual_rx_len ≤ rx_len

  -- The transport was not asked.
  abbrev pub Refused : State → Answer State → Type 0
  Refused h a = (is_zero a.ret ≡ false) × (a.link ≡ h) × (a.rx ≡ [])

  abbrev Outcome : ℕ → ℕ → ℕ → State → Answer State → Type 0
  Outcome command tx_len rx_len h a = Refused h a ⊎ Asked command tx_len rx_len h a

  check_answer-Asked :
      (command tx_len rx_len : ℕ) (h : State) (f : Request → State → Answer State) (q : Request)
      → link.xfer ≡ some f
      → q.command ≡ command
      → (q.tx_len ≡ tx_len) × (tx_len ≤ 256)
      → (q.rx_len ≡ rx_len) × (rx_len ≤ 256)
      → Asked command tx_len rx_len h (check_answer link rx_len (f q h))
  unfolding check_answer
  check_answer-Asked command tx_len rx_len h f q e c t r =
      if_elim (Asked command tx_len rx_len h) (not (is_zero (f q h).ret)) _ _
        (λ bad. asked (f q h) refl refl (λ z. cc (ap not z, bad)))
        (λ _.
          if_elim (Asked command tx_len rx_len h) (ltb rx_len (f q h).actual_rx_len) _ _
            (λ _. asked _ refl refl (λ z. cc))
            (λ low. asked (f q h) refl refl (λ _. ground (arith, low))))
    where
      asked :
          (a : Answer State)
          → a.link ≡ (f q h).link
          → a.rx ≡ (f q h).rx
          → (is_zero a.ret ≡ true → a.actual_rx_len ≤ rx_len)
          → Asked command tx_len rx_len h a
      asked a same rx fits = record {
        f = f;
        q = q;
        its_xfer = e;
        its_command = c;
        its_tx_len = t;
        its_rx_len = r;
        its_link = same;
        its_rx = rx;
        fits = fits;
      }

  in_bounds :
      (m n t r : ℕ) → m ≤ 256 → n ≤ 256 → (ltb m t || ltb n r) ≡ false → (t ≤ 256) × (r ≤ 256)
  in_bounds m n t r hm hn guard = ground (arith, hm, hn, guard)

  xfer_with-Outcome :
      (o : Option (Request → State → Answer State)) (command : ℕ) (tx : Option (List ℕ))
      (tx_len : ℕ) (rx : Bool) (rx_len : ℕ) (h : State)
      → link.xfer ≡ o
      → Outcome command tx_len rx_len h (xfer_with link o command tx tx_len rx rx_len h)
  unfolding xfer_with
  xfer_with-Outcome none command tx tx_len rx rx_len h e = inl (refl, refl, refl)
  xfer_with-Outcome (some f) command tx tx_len rx rx_len h e =
      if_elim (Outcome command tx_len rx_len h)
        ((not (tx_len == 0) && not (is_some tx)) || (not (rx_len == 0) && not rx)) _ _
        (λ _. inl (refl, refl, refl))
        (λ _.
          if_elim (Outcome command tx_len rx_len h)
            (ltb (max_tx link.max_tx_size) tx_len || ltb (max_rx link.max_rx_size) rx_len) _ _
            (λ _. inl (refl, refl, refl))
            (λ guard.
              let b =
                in_bounds _ _ tx_len rx_len (max_tx_bound link.max_tx_size)
                  (max_rx_bound link.max_rx_size) guard in
              inr (check_answer-Asked command tx_len rx_len h f _ e refl (refl, b.0) (refl, b.1))))

  -- What a command keeps: all but the answer.
  pub record Kept (c d : McuCommand) : Type 0 where
    pub same_request :
        (d.index ≡ c.index)
        × (d.command ≡ c.command)
        × (d.flags ≡ c.flags)
        × (d.tx_data ≡ c.tx_data)
    pub same_lengths : (d.tx_len ≡ c.tx_len) × (d.rx_len ≡ c.rx_len)

  -- Whether the flags of a command ask for an answer.
  abbrev pub needs : McuCommand → Bool
  needs c = not (bit_and c.flags f_need_response == 0)

  abbrev Handled : McuCommand → State → ℤ × McuCommand × State → Type 0
  Handled c h (ret, d, h') =
      Kept c d
      × (is_zero ret ≡ true → (d.actual_rx_len ≤ c.rx_len) × (c.tx_len ≤ 256) × (c.rx_len ≤ 256))
      × (is_zero ret ≡ false → d.actual_rx_len ≡ c.actual_rx_len)
      × (((h' ≡ h) × (is_zero ret ≡ false) × (d.rx_data ≡ c.rx_data))
          ⊎ ((a : Answer State) × (h' ≡ a.link)
              × (is_zero ret ≡ is_zero a.ret)
              × (d.rx_data ≡ received (needs c) a.rx c.rx_data)
              × ((r : ℕ) × (r ≤ c.rx_len) × Asked c.command c.tx_len r h a)))

  itself : (c : McuCommand) → Kept c c
  itself c = record { same_request = (refl, refl, refl, refl); same_lengths = (refl, refl) }

  rejected : (c : McuCommand) (h : State) (ret : ℤ) → is_zero ret ≡ false → Handled c h (ret, c, h)
  rejected c h ret bad = (itself c, (λ z. cc (z, bad)), (λ _. refl), inl (refl, bad, refl))

  fill_command-Handled :
      (c : McuCommand) (h : State) (a : Answer State)
      → c.tx_len ≤ 256
      → c.rx_len ≤ 256
      → Outcome c.command c.tx_len (if needs c then c.rx_len else 0) h a
      → Handled c h (fill_command link (needs c) c a)
  unfolding fill_command received overwrite
  fill_command-Handled c h a tx_fits rx_fits out =
      if_elim (Handled c h) (not (is_zero a.ret)) _ _
        (λ bad. (
          record { same_request = (refl, refl, refl, refl); same_lengths = (refl, refl) },
          (λ z. cc (ap not z, bad)),
          (λ _. refl),
          reached out a.ret (received (needs c) a.rx c.rx_data) refl refl,
        ))
        (λ good.
          let z = unnegate_true _ good in
          (
            record { same_request = (refl, refl, refl, refl); same_lengths = (refl, refl) },
            (λ _. (level (needs c) c.rx_len (answered z out), tx_fits, rx_fits)),
            (λ bad. cc),
            reached out ret_ok (received (needs c) a.rx c.rx_data) (sym z) refl,
          ))
    where
      answered :
          is_zero a.ret ≡ true
          → Outcome c.command c.tx_len (if needs c then c.rx_len else 0) h a
          → a.actual_rx_len ≤ (if needs c then c.rx_len else 0)
      answered z (inl no_call) = cc (z, no_call.0)
      answered z (inr call) = call.fits z

      untouched : (b : Bool) → received b [] c.rx_data ≡ c.rx_data
      untouched true = refl
      untouched false = refl

      level :
          (b : Bool) (n : ℕ)
          → a.actual_rx_len ≤ (if b then n else 0)
          → (if b then a.actual_rx_len else 0) ≤ n
      level true n le = le
      level false n le = omega arith

      small : (need : Bool) (n : ℕ) → (if need then n else 0) ≤ n
      small true n = omega arith
      small false n = omega arith

      reached :
          Outcome c.command c.tx_len (if needs c then c.rx_len else 0) h a
          → (ret : ℤ) (rx : List ℕ) → is_zero ret ≡ is_zero a.ret
          → rx ≡ received (needs c) a.rx c.rx_data
          → ((a.link ≡ h) × (is_zero ret ≡ false) × (rx ≡ c.rx_data))
            ⊎ ((b : Answer State) × (a.link ≡ b.link)
                × (is_zero ret ≡ is_zero b.ret)
                × (rx ≡ received (needs c) b.rx c.rx_data)
                × ((r : ℕ) × (r ≤ c.rx_len) × Asked c.command c.tx_len r h b))
      reached (inl no_call) ret rx same stored = inl (
        no_call.1,
        same ∙ no_call.0,
        stored
            ∙ ap (λ (l : List ℕ). received (needs c) l c.rx_data) no_call.2
            ∙ untouched (needs c),
      )
      reached (inr call) ret rx same stored =
          inr (a, refl, same, stored, (_, small (needs c) c.rx_len, call))

  both_small :
      (m n : ℕ)
      → (ltb max_transfer_size m || ltb max_transfer_size n) ≡ false
      → (m ≤ 256) × (n ≤ 256)
  both_small m n guard = ground (arith, guard)

  -- A command that returns 0 reports at most `rx_len` bytes of an answer, and both its lengths are at
  -- most 256; one that returns an error leaves the reported length as it was. All else but `rx_data` is
  -- kept in all cases. Either the call is refused, and the link and `rx_data` are as before; or the
  -- link was asked just once, with this command, with `tx_len` bytes to send and with room for at most
  -- `rx_len`, the result is 0 just if the checked answer is, and `rx_data` has changed, if an answer was
  -- asked for, in just the bytes that the transport wrote to it, errors included.
  pub protocol_command-Handled :
      (c : McuCommand) (h : State) → Handled c h (protocol_command link c h)
  unfolding protocol_command protocol_xfer
  protocol_command-Handled c h =
      if_elim (Handled c h) (not (bit_and c.flags 0xffff_fffe == 0)) _ _
        (λ _. rejected c h einval refl)
        (λ _.
          if_elim (Handled c h) (ltb max_transfer_size c.tx_len || ltb max_transfer_size c.rx_len) _
            _ (λ _. rejected c h emsgsize refl)
            (λ guard.
              let small = both_small c.tx_len c.rx_len guard in
              if_elim (Handled c h) (not (needs c) && not (c.rx_len == 0)) _ _
                (λ _. rejected c h einval refl)
                (λ _. fill_command-Handled c h _ small.0 small.1 (
                  xfer_with-Outcome link.xfer c.command (some c.tx_data) c.tx_len (needs c) _ h
                    refl))))
