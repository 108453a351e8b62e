-- ===== src/Modbus/Frame/Access.antt =====
-- The accesses of `regmb_process` and `regmb_process_tcp` of src/regtable_modbus.c.
use regtable.Prelude.{ℕ, ◌-◌, ◌%◌, ◌^◌, false, not, ◌&&◌, ◌||◌, if_cases}
use regtable.Prelude.{List, [], ◌∷◌, ltb, ◌==◌, length, get_elem?, take, drop}
use regtable.Core.Types.{Device}
use regtable.Core.Access.{start, Each, Each-bind, Any, Each-Any}
use regtable.Modbus.Map.{RegModbus}
use regtable.Modbus.Words.{word_at}
use regtable.Modbus.Pdu.{Reply, pdu_handle}
use regtable.Modbus.Pdu.Access.{Reached, pdu_handle-Reached}
use regtable.Modbus.Frame.{
  frame_max, tcp_adu_max, crc_matches, pdu_room, mbap, answer_frame, regmb_process, answer_adu,
  regmb_process_tcp,
}

module _ (mb : RegModbus) (d : Device) where
  mbap-Reached :
      (t0 t1 unit : ℕ) (reply : Reply) → Reached mb d reply → Reached mb d (mbap t0 t1 unit reply)
  mbap-Reached t0 t1 unit ([], d') h = h
  mbap-Reached t0 t1 unit (b ∷ out, d') h = h

  answer_frame-Reached :
      (frame : List ℕ) (cap : ℕ) → Each (Reached mb d) (answer_frame mb frame cap d)
  unfolding answer_frame
  answer_frame-Reached frame cap =
      Each-bind Any (Reached mb d) (get_elem? frame 0) _ (Each-Any _) λ first _.
        if_cases (Each (Reached mb d)) (not (first == 0) && not (first == mb.addr)) _ _
          (λ other. start)
          λ ours.
            Each-bind (Reached mb d) (Reached mb d)
              (pdu_handle mb (take (length frame - 3) (drop 1 frame)) (pdu_room cap) (first == 0) d)
              _ (pdu_handle-Reached mb _ _ _ d) (λ reply h. h)

  pub regmb_process-Reached :
      (frame : List ℕ) (cap : ℕ) → Each (Reached mb d) (regmb_process mb frame cap d)
  unfolding regmb_process
  regmb_process-Reached frame cap =
      if_cases (Each (Reached mb d)) (ltb (length frame) 4 || ltb frame_max (length frame)) _ _
        (λ bad. start)
        λ sizes. Each-bind Any (Reached mb d) (crc_matches frame) _ (Each-Any _) λ matches _.
          if_cases (Each (Reached mb d)) matches _ _ (λ good. answer_frame-Reached frame cap)
            (λ damaged. start)

  answer_adu-Reached : (adu : List ℕ) (cap : ℕ) → Each (Reached mb d) (answer_adu mb adu cap d)
  unfolding answer_adu
  answer_adu-Reached adu cap = Each-bind Any (Reached mb d) (get_elem? adu 0) _ (Each-Any _) λ t0 _.
      Each-bind Any (Reached mb d) (get_elem? adu 1) _ (Each-Any _) λ t1 _.
        Each-bind Any (Reached mb d) (get_elem? adu 6) _ (Each-Any _) λ unit _.
          Each-bind (Reached mb d) (Reached mb d) (pdu_handle mb (drop 7 adu) (cap - 7) false d) _
            (pdu_handle-Reached mb _ _ _ d) (λ reply h. mbap-Reached t0 t1 unit reply h)

  pub regmb_process_tcp-Reached :
      (adu : List ℕ) (cap : ℕ) → Each (Reached mb d) (regmb_process_tcp mb adu cap d)
  unfolding regmb_process_tcp
  regmb_process_tcp-Reached adu cap =
      if_cases (Each (Reached mb d)) (ltb (length adu) 8 || ltb tcp_adu_max (length adu)) _ _
        (λ bad. start)
        λ sizes. Each-bind Any (Reached mb d) (word_at adu 2) _ (Each-Any _) λ pid _.
          Each-bind Any (Reached mb d) (word_at adu 4) _ (Each-Any _) λ mlen _.
            if_cases (Each (Reached mb d))
              (not (pid == 0) || not (mlen == (length adu - 6) % 2 ^ 16) || ltb cap 7) _ _
              (λ bad. start) (λ good. answer_adu-Reached adu cap)
