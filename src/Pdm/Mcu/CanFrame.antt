-- ===== src/Pdm/Mcu/CanFrame.antt =====
-- The frames of the CAN transport: kernel/pdm/drivers/mcu/pdm_mcu_can.c.
use lpf.Common.{
  ◌≢◌, refl, sym, subst, pos, negsuc, eqz, eqz_iff, ret_ok, emsgsize, take, [], ℕ, ◌+◌, ◌/◌, ◌%◌,
  ◌^◌, ltb, ◌≤◌, ◌<◌, ◌≡◌, ap, ◌∙◌, ◌==◌, ◌||◌, if◌then◌else◌, if_elim, if_true, if_false,
  Bool-cases, inl, inr, Bool, true, false, not, ℤ, is_zero, arith,
}
use lpf.Pdm.Mcu.{max_transfer_size}
use lpf.Pdm.Mcu.Transport.{Request, Answer}
use lpf.Pdm.Mcu.Can.{
  Frame, can_max_dlen, CanSockets, make_id, strip_id, whole_frame, CanLink, frame_sent, send_frame,
  Received, frame_received, recv_frame, can_answer, can_cmd_xfer, can_answered, can_xfer,
}

strip_id-make_id : (extended : Bool) (id : ℕ) → id < 2 ^ 29 → strip_id (make_id extended id) ≡ id
unfolding strip_id make_id
strip_id-make_id extended id small = elim (Bool-cases (extended || ltb 0x7ff id)) [
  | inl t ↦
      ap strip (if_true (extended || ltb 0x7ff id) _ _ t)
      ∙ if_true (not ((id % 2 ^ 29 + 2 ^ 31) / 2 ^ 31 % 2 == 0)) _ _ (ground (arith, small))
      ∙ omega (arith, small)
  | inr f ↦
      ap strip (if_false (extended || ltb 0x7ff id) _ _ f)
      ∙ if_false (not (id % 2 ^ 11 / 2 ^ 31 % 2 == 0)) _ _ (ground arith)
      ∙ low (never extended (ltb 0x7ff id) f)
]
  where
    strip : ℕ → ℕ
    strip c = if not (c / 2 ^ 31 % 2 == 0) then c % 2 ^ 29 else c % 2 ^ 11

    never : (a b : Bool) → (a || b) ≡ false → b ≡ false
    never true b e = cc e
    never false b e = e

    low : ltb 0x7ff id ≡ false → id % 2 ^ 11 % 2 ^ 11 ≡ id
    low f = ground (arith, f)

module _ (can : CanSockets) where
  open can use {Net, sendmsg, recvmsg}

  -- The number of bytes of an answer is within the room.
  abbrev Within : ℕ → Received can → Type 0
  Within room r = r.2 ≤ room

  recv_frame-Within : (room : ℕ) (h : CanLink can) → Within room (recv_frame can room h)
  unfolding recv_frame frame_received
  recv_frame-Within room h =
      if_elim (Within room) (not h.sock) _ _ (λ _. omega arith)
        (λ _.
          if_elim (Within room) (ltb max_transfer_size room) _ _ (λ _. omega arith)
            (λ _.
              let m = recvmsg h.net in
              if_elim (Within room) (not (is_zero (whole_frame m.0))) _ _ (λ _. omega arith)
                (λ _.
                  if_elim (Within room) (ltb room (m.1).len) _ _ (λ _. omega arith)
                    (λ f. within room (m.1).len f))))
    where
      within : (a b : ℕ) → ltb a b ≡ false → b ≤ a
      within a b f = ground (arith, f)

  can_answer-Within : (room : ℕ) (r : ℤ × CanLink can) → Within room (can_answer can room r)
  unfolding can_answer
  can_answer-Within room (ret, h) =
      if_elim (Within room) (not (is_zero ret)) _ _ (λ _. omega arith)
        (λ _.
          if_elim (Within room) (room == 0) _ _ (λ _. omega arith) (λ _. recv_frame-Within room h))

  -- The frame of a request.
  abbrev pub frame_of : Request → CanLink can → Frame
  frame_of q h = record { can_id = make_id h.extended_id q.command; len = q.tx_len; payload = q.tx }

  whole_frame_bad : (ret : ℤ) → ret ≢ pos 16 → is_zero (whole_frame ret) ≡ false
  unfolding whole_frame
  whole_frame_bad (negsuc e) ne = refl
  whole_frame_bad (pos n) ne = elim (Bool-cases (eqz (pos n) (pos 16))) [
    | inl e ↦ absurd (ne (eqz_iff (pos n) (pos 16) e))
    | inr f ↦ ap is_zero (if_false (eqz (pos n) (pos 16)) _ _ f)
  ]

  whole_frame_good : (ret : ℤ) → ret ≡ pos 16 → whole_frame ret ≡ ret_ok
  unfolding whole_frame
  whole_frame_good ret e = ap whole_frame e

  -- What one received frame makes of an answer.
  abbrev pub Taken : ℕ → CanLink can → ℤ × Frame × Net → Answer (CanLink can) → Type 0
  Taken room h (ret, frame, net) a =
      ((a.link).net ≡ net)
      × (ret ≡ pos 16
          → frame.len ≤ room
          → (a.ret ≡ ret_ok)
            × (a.actual_rx_len ≡ frame.len)
            × (a.rx ≡ take frame.len frame.payload))
      × (ret ≡ pos 16 → room < frame.len → a.ret ≡ emsgsize)
      × (ret ≢ pos 16 → is_zero a.ret ≡ false)

  frame_received-Taken :
      (room : ℕ) (h : CanLink can) (m : ℤ × Frame × Net)
      → Taken room h m (can_answered can (frame_received can room h m))
  unfolding frame_received can_answered
  frame_received-Taken room h (ret, frame, net) = elim (Bool-cases (is_zero (whole_frame ret))) [
    | inr bad ↦
        let step = if_true (not (is_zero (whole_frame ret))) _ _ (ap not bad) in
        (
          ap (λ (r : Received can). r.3.net) step,
          λ e. cc (ap is_zero (whole_frame_good ret e), bad),
          λ e. cc (ap is_zero (whole_frame_good ret e), bad),
          λ ne. ap (λ (r : Received can). is_zero r.0) step ∙ bad,
        )
    | inl good ↦
        let step = if_false (not (is_zero (whole_frame ret))) _ _ (ap not good) in
        let never : ret ≢ pos 16 → ⊥ = (λ ne. cc (whole_frame_bad ret ne, good)) in
        elim (Bool-cases (ltb room frame.len)) [
          | inl long ↦
              let end = step ∙ if_true (ltb room frame.len) _ _ long in
              (
                ap (λ (r : Received can). r.3.net) end,
                λ e fits. absurd (ground (arith, long, fits)),
                λ e more. ap (λ (r : Received can). r.0) end,
                λ ne. absurd (never ne),
              )
          | inr short ↦
              let end = step ∙ if_false (ltb room frame.len) _ _ short in
              (
                ap (λ (r : Received can). r.3.net) end,
                λ e fits. (
                  ap (λ (r : Received can). r.0) end,
                  ap (λ (r : Received can). if is_zero r.0 then r.2 else 0) end,
                  ap (λ (r : Received can). r.1) end,
                ),
                λ e more. absurd (ground (arith, short, more)),
                λ ne. absurd (never ne),
              )
        ]
  ]

  -- On a CAN link that is up, a request of at most eight bytes is sent as one frame with the payload,
  -- from whose id the command, of at most 29 bits, can be read back in the standard and the extended
  -- format. If the frame is not sent whole, the answer is an error and nothing is received. If it is
  -- sent and there is no room for an answer, the answer is a success of no bytes and nothing is
  -- received. If it is sent and there is room for 1 to 256 bytes, one frame is received then: a whole
  -- one that fits is the answer, with its length, one that does not fit is -EMSGSIZE, and one that
  -- is not whole is an error. The reported number of bytes never exceeds the room.
  pub can_xfer_lem :
      (q : Request) (h : CanLink can)
      → h.sock ≡ true
      → q.tx_len ≤ 8
      → let (sent, net) = sendmsg (frame_of q h) h.net in
        let a = can_xfer can q h in
        (sent ≢ pos 16 → (is_zero a.ret ≡ false) × ((a.link).net ≡ net))
        × (sent ≡ pos 16
            → q.rx_len ≡ 0
            → (a.ret ≡ ret_ok) × (a.actual_rx_len ≡ 0) × ((a.link).net ≡ net))
        × (sent ≡ pos 16 → 0 < q.rx_len → q.rx_len ≤ 256 → Taken q.rx_len h (recvmsg net) a)
        × (q.command < 2 ^ 29 → strip_id (make_id h.extended_id q.command) ≡ q.command)
        × (a.actual_rx_len ≤ q.rx_len)
  unfolding can_xfer can_cmd_xfer send_frame frame_sent can_answered can_answer recv_frame
  can_xfer_lem q h up fits = (
    λ ne.
        let bad = whole_frame_bad s.0 ne in
        let end =
          ap (can_answer can q.rx_len) sent
          ∙ if_true (not (is_zero (whole_frame s.0))) _ _ (ap not bad) in
        (ap (λ (r : Received can). is_zero r.0) end ∙ bad, ap (λ (r : Received can). r.3.net) end),
    λ e none_.
        let end =
          started e
          ∙ if_true (q.rx_len == 0) _ (recv_frame can q.rx_len h1) (ground (arith, none_)) in
        (
          ap (λ (r : Received can). r.0) end,
          ap (λ (r : Received can). if is_zero r.0 then r.2 else 0) end ∙ none_,
          ap (λ (r : Received can). r.3.net) end,
        ),
    λ e some_ room.
        let end =
          started e
          ∙ if_false (q.rx_len == 0) _ (recv_frame can q.rx_len h1) (ground (arith, some_))
          ∙ if_false (not h1.sock) _ _ (ap not up)
          ∙ if_false (ltb max_transfer_size q.rx_len) _ _ (ground (arith, room)) in
        subst (λ (r : Received can). Taken q.rx_len h (recvmsg s.1) (can_answered can r)) (sym end)
          (frame_received-Taken q.rx_len h1 (recvmsg s.1)),
    strip_id-make_id h.extended_id q.command,
    if_elim (λ (n : ℕ). n ≤ q.rx_len) (is_zero (can_cmd_xfer can q h).0) _ _
        (λ _. can_answer-Within q.rx_len (send_frame can q.command q.tx q.tx_len h))
        (λ _. omega arith),
  )
    where
      s : ℤ × Net
      s = sendmsg (frame_of q h) h.net

      h1 : CanLink can
      h1 = record h { net = s.1 }

      sent : send_frame can q.command q.tx q.tx_len h ≡ (whole_frame s.0, h1)
      sent =
          if_false (not h.sock) _ _ (ap not up)
          ∙ if_false (ltb can_max_dlen q.tx_len) _ _ (ground (arith, fits))

      started :
          s.0 ≡ pos 16
          → can_cmd_xfer can q h
            ≡ (if q.rx_len == 0 then (ret_ok, [], q.rx_len, h1) else recv_frame can q.rx_len h1)
      started e =
          ap (can_answer can q.rx_len) sent
          ∙ ap (λ (w : ℤ). can_answer can q.rx_len (w, h1)) (whole_frame_good s.0 e)
