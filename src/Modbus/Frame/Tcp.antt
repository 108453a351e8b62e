-- ===== src/Modbus/Frame/Tcp.antt =====
-- What holds of the answer to every Modbus TCP ADU.
use regtable.Prelude.{ℕ, ◌+◌, ◌-◌, ◌/◌, ◌%◌, ◌^◌, ◌≤◌, ◌≡◌, ◌⊎◌, inl, inr, refl, arith}
use regtable.Prelude.{false, not, ◌||◌}
use regtable.Prelude.{some, List, [], ◌∷◌, ltb, ◌==◌}
use regtable.Prelude.{length, get_elem?, drop, length-drop}
use regtable.Core.Types.{Device}
use regtable.Modbus.Map.{RegModbus}
use regtable.Modbus.Crc.Laws.{AllBytes, AllBytes-drop}
use regtable.Modbus.Pdu.{Reply}
use regtable.Modbus.Pdu.Loops.{get_elem?-Returns, word_at-Returns}
use regtable.Modbus.Pdu.Replies.{
  IsReply, Yields, yielded, Yields-bind, Yields-test, pdu_handle-IsReply,
}
use regtable.Modbus.Frame.{tcp_adu_max, mbap, answer_adu, regmb_process_tcp}

-- A TCP response to the ADU: it fits the buffer and an ADU; it is silence, and nothing changed, or
-- a header that echoes the transaction and the unit and counts the bytes behind it, and a PDU.
pub record IsTcpResponse (adu : List ℕ) (resp_cap : ℕ) (d : Device) (reply : Reply) : Type 0 where
  pub fits : length reply.0 ≤ resp_cap
  pub short : length reply.0 ≤ tcp_adu_max
  pub framed :
      ((reply.0 ≡ []) × (reply.1 ≡ d))
      ⊎ ((t0 : ℕ) × (t1 : ℕ) × (unit : ℕ) × (pdu : List ℕ) × (get_elem? adu 0 ≡ some t0)
          × (get_elem? adu 1 ≡ some t1)
          × (get_elem? adu 6 ≡ some unit)
          × (1 ≤ length pdu)
          × (reply.0 ≡ t0 ∷ t1 ∷ 0 ∷ 0 ∷ 0 ∷ (length pdu + 1) ∷ unit ∷ pdu))

module _ (mb : RegModbus) (adu : List ℕ) (resp_cap : ℕ) (d : Device) where
  abbrev P : Reply → Type 0
  P reply = IsTcpResponse adu resp_cap d reply

  silent : P ([], d)
  silent = record { fits = omega arith; short = omega arith; framed = inl (refl, refl) }

  mbap-IsTcpResponse :
      (t0 t1 unit : ℕ) (reply : Reply)
      → get_elem? adu 0 ≡ some t0
      → get_elem? adu 1 ≡ some t1
      → get_elem? adu 6 ≡ some unit
      → 7 ≤ resp_cap
      → IsReply (resp_cap - 7) false d reply
      → P (mbap t0 t1 unit reply)
  mbap-IsTcpResponse t0 t1 unit ([], d') e0 e1 e6 room r = record {
    fits = omega arith;
    short = omega arith;
    framed = inl (refl, ground (arith, r.heard));
  }
  mbap-IsTcpResponse t0 t1 unit (b ∷ out, d') e0 e1 e6 room r =
      let n = length (b ∷ out) in
      let small : n ≤ 252 = r.short in
      let high : (n + 1) / 2 ^ 8 % 256 ≡ 0 = omega arith in
      let low : (n + 1) % 256 ≡ n + 1 = omega arith in
      record {
        fits = omega (arith, r.fits);
        short = omega (arith, r.short);
        framed = inr (t0, t1, unit, b ∷ out, e0, e1, e6, omega arith, rw (high, low));
      }

  answer_adu-IsTcpResponse :
      AllBytes adu → 8 ≤ length adu → 7 ≤ resp_cap → Yields P (answer_adu mb adu resp_cap d)
  unfolding answer_adu
  answer_adu-IsTcpResponse all long room =
      Yields-bind P _ _ (get_elem?-Returns adu 0 (omega arith)) λ t0 e0.
        Yields-bind P _ _ (get_elem?-Returns adu 1 (omega arith)) λ t1 e1.
          Yields-bind P _ _ (get_elem?-Returns adu 6 (omega arith)) λ unit e6.
            let (reply, is, good) =
              pdu_handle-IsReply mb (drop 7 adu) (resp_cap - 7) false d (AllBytes-drop 7 adu all)
                (omega (arith, length-drop 7 adu)) in
            (mbap t0 t1 unit reply, rw is, mbap-IsTcpResponse t0 t1 unit reply e0 e1 e6 room good)

  -- Every ADU is processed without a read outside it or through a NULL entry. The response fits
  -- the buffer and an ADU; it is empty, and the device unchanged, or it is a header with the
  -- transaction and unit of the request, the protocol 0 and the length of what follows, and a PDU.
  pub regmb_process_tcp-IsTcpResponse :
      AllBytes adu → Yields P (regmb_process_tcp mb adu resp_cap d)
  unfolding regmb_process_tcp
  regmb_process_tcp-IsTcpResponse all =
      Yields-test P (ltb (length adu) 8 || ltb tcp_adu_max (length adu)) _ _
        (λ _. yielded P _ silent)
        λ long. Yields-bind P _ _ (word_at-Returns adu 2 (ground arith)) λ pid _.
          Yields-bind P _ _ (word_at-Returns adu 4 (ground arith)) λ mlen _.
            Yields-test P
              (not (pid == 0) || not (mlen == (length adu - 6) % 2 ^ 16) || ltb resp_cap 7) _ _
              (λ _. yielded P _ silent)
              λ header. answer_adu-IsTcpResponse all (ground arith) (ground arith)
