-- ===== src/Modbus/Frame/Response.antt =====
-- What holds of the answer to every frame and every ADU.
use regtable.Prelude.{ℕ, ◌+◌, ◌-◌, ◌/◌, ◌%◌, ◌^◌, ◌≤◌, ◌<◌, ◌≡◌, ◌⊎◌, inl, inr, refl, arith}
use regtable.Prelude.{Bool, not, ◌&&◌, ◌||◌, ap, ◌∙◌, Bool-cases}
use regtable.Prelude.{some, List, [], ◌∷◌, ltb, ◌==◌}
use regtable.Prelude.{length, get_elem?, take, drop, length-append, length-drop, length-take}
use regtable.Core.Types.{Device}
use regtable.Modbus.Map.{RegModbus}
use regtable.Modbus.Crc.{regmb_crc16}
use regtable.Modbus.Crc.Laws.{
  AllBytes, AllBytes-take, AllBytes-drop, regmb_crc16-lt, regmb_crc16_residue,
}
use regtable.Modbus.Pdu.{Reply}
use regtable.Modbus.Pdu.Loops.{get_elem?-Returns}
use regtable.Modbus.Pdu.Replies.{
  IsReply, Yields, yielded, Yields-bind, Yields-test, pdu_handle-IsReply,
}
use regtable.Modbus.Frame.{
  frame_max, seal, crc_matches, envelope, pdu_room, answer_frame, regmb_process,
}

-- An RTU response: it fits the buffer and a frame, and is silence, or the slave's address, a PDU
-- and the CRC of both. Silence, unless the request was a broadcast, means that nothing changed.
pub record IsResponse (mb : RegModbus) (frame : List ℕ) (resp_cap : ℕ) (d : Device) (reply : Reply)
    : Type 0 where
  pub fits : length reply.0 ≤ resp_cap
  pub short : length reply.0 ≤ frame_max
  pub sealed :
      (reply.0 ≡ [])
      ⊎ ((pdu : List ℕ) × (1 ≤ length pdu)
          × (reply.0 ≡ seal (mb.addr ∷ pdu))
          × (regmb_crc16 reply.0 ≡ 0))
  pub heard : (get_elem? frame 0 ≡ some 0) ⊎ (1 ≤ length reply.0) ⊎ (reply.1 ≡ d)

regmb_crc16-seal : (bs : List ℕ) → AllBytes bs → regmb_crc16 (seal bs) ≡ 0
regmb_crc16-seal bs bytes =
    let crc = regmb_crc16 bs in
    let high : crc / 2 ^ 8 % 256 ≡ crc / 256 = omega (arith, regmb_crc16-lt bs bytes) in
    rw high (regmb_crc16_residue bs bytes)

length-seal : (bs : List ℕ) → length (seal bs) ≡ length bs + 2
length-seal bs = length-append bs _

pub crc_matches-Returns :
    (frame : List ℕ) → 4 ≤ length frame → (a : Bool) × (crc_matches frame ≡ some a)
unfolding crc_matches
crc_matches-Returns frame long =
    let (low, e) = get_elem?-Returns frame (length frame - 2) (omega arith) in
    let (high, e') = get_elem?-Returns frame (length frame - 1) (omega arith) in
    let crc = regmb_crc16 (take (length frame - 2) frame) in
    (low == crc % 256 && high == crc / 2 ^ 8 % 256, rw (e, e'))

module _ (mb : RegModbus) (frame : List ℕ) (resp_cap : ℕ) (d : Device) (own : mb.addr < 256) where
  abbrev P : Reply → Type 0
  P reply = IsResponse mb frame resp_cap d reply

  silent : P ([], d)
  silent = record {
    fits = omega arith;
    short = omega arith;
    sealed = inl refl;
    heard = inr (inr refl);
  }

  unsent : (d' : Device) → (get_elem? frame 0 ≡ some 0) ⊎ (d' ≡ d) → P ([], d')
  unsent d' h = record {
    fits = omega arith;
    short = omega arith;
    sealed = inl refl;
    heard = ground arith;
  }

  sent :
      (b : ℕ) (out : List ℕ) (d' : Device)
      → AllBytes (b ∷ out)
      → length (b ∷ out) ≤ pdu_room resp_cap
      → length (b ∷ out) ≤ 252
      → P (seal (mb.addr ∷ b ∷ out), d')
  sent b out d' bytes fits short = record {
    fits = ground (arith, length-seal (mb.addr ∷ b ∷ out));
    short = omega (arith, length-seal (mb.addr ∷ b ∷ out));
    sealed = inr (b ∷ out, omega arith, refl, regmb_crc16-seal (mb.addr ∷ b ∷ out) (own, bytes));
    heard = inr (inl (omega (arith, length-seal (mb.addr ∷ b ∷ out))));
  }

  envelope-IsResponse :
      (first : ℕ) (reply : Reply)
      → get_elem? frame 0 ≡ some first
      → IsReply (pdu_room resp_cap) (first == 0) d reply
      → P (envelope mb.addr (first == 0) reply)
  envelope-IsResponse first ([], d') is r = unsent d' (ground (arith, r.heard))
  envelope-IsResponse first (b ∷ out, d') is r = elim (Bool-cases (first == 0)) [
    | inl broadcast ↦ rw broadcast (unsent d' (inl (is ∙ ap some (ground arith))))
    | inr unicast ↦ rw unicast (sent b out d' r.bytes r.fits r.short)
  ]

  answer_frame-IsResponse :
      AllBytes frame → 4 ≤ length frame → Yields P (answer_frame mb frame resp_cap d)
  unfolding answer_frame
  answer_frame-IsResponse all long =
      Yields-bind P _ _ (get_elem?-Returns frame 0 (omega arith)) λ first is.
        Yields-test P (not (first == 0) && not (first == mb.addr)) _ _ (λ _. yielded P _ silent)
          λ _.
            let pdu = take (length frame - 3) (drop 1 frame) in
            let (reply, is', good) =
              pdu_handle-IsReply mb pdu (pdu_room resp_cap) (first == 0) d
                (AllBytes-take (length frame - 3) (drop 1 frame) (AllBytes-drop 1 frame all))
                (omega
                  (arith, length-take (length frame - 3) (drop 1 frame), length-drop 1 frame)) in
            (envelope mb.addr (first == 0) reply, rw is', envelope-IsResponse first reply is good)

  -- Every frame is processed without a read outside it or through a NULL entry. The response fits
  -- the buffer and a frame, and is empty, or the slave's address, a PDU and their CRC, which a
  -- receiver finds to be right. It is empty, unless the request is a broadcast, only if the
  -- device is unchanged: no write is carried out that the master cannot hear about.
  pub regmb_process-IsResponse : AllBytes frame → Yields P (regmb_process mb frame resp_cap d)
  unfolding regmb_process
  regmb_process-IsResponse all =
      Yields-test P (ltb (length frame) 4 || ltb frame_max (length frame)) _ _
        (λ _. yielded P _ silent)
        λ long. Yields-bind P _ _ (crc_matches-Returns frame (ground arith)) λ matches _.
          Yields-test P matches _ _ (λ _. answer_frame-IsResponse all (ground arith))
            (λ _. yielded P _ silent)
