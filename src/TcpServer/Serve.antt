-- ===== src/TcpServer/Serve.antt =====
-- One connection: the ADUs on its stream, and the replies to them.
use regtable.Prelude.{
  ℕ, zero, suc, ◌+◌, ◌-◌, ◌*◌, ◌%◌, ◌^◌, ◌<◌, ◌≤◌, ◌≡◌, ◌∙◌, sym, ap, refl, arith,
}
use regtable.Prelude.{Bool, true, false, ◌||◌, ltb, ◌==◌, if◌then◌else◌, if_cases}
use regtable.Prelude.{Option, none, some, List, [], ◌∷◌, ◌++◌, length, get_or, ◌>>=◌}
use mathlib.Core.List.{append-nil, append_assoc}
use std.Path.{subst}
use regtable.Core.Types.{Device}
use regtable.Core.Dirty.{reg_poll}
use regtable.Modbus.Map.{RegModbus}
use regtable.Modbus.Crc.Laws.{AllBytes}
use regtable.Modbus.Frame.{tcp_adu_max, regmb_process_tcp}
use regtable.Modbus.Frame.Tcp.{regmb_process_tcp-IsTcpResponse}
use regtable.TcpServer.{
  Socket, Read, adu, gone, read_exact, read_rest, read_adu, polled, reply, serve_read, serve,
  complete,
}
use regtable.TcpServer.Stream.{
  IsStream, HasRead, read_exact-HasRead, HasSent, send_all-HasSent, nothing-HasSent, read_exact_end,
}

-- An ADU: a header of seven bytes, whose length field counts the unit and the PDU, and a PDU.
abbrev pub IsAdu : List ℕ → Type 0
IsAdu (t0 ∷ t1 ∷ p0 ∷ p1 ∷ hi ∷ lo ∷ unit ∷ pdu) =
    (1 ≤ length pdu) × (length pdu + 7 ≤ tcp_adu_max) × (hi * 2 ^ 8 + lo ≡ length pdu + 1)
IsAdu _ = ⊥

abbrev pub AllAdus : List (List ℕ) → Type 0
AllAdus [] = Unit
AllAdus (a ∷ as') = IsAdu a × AllBytes a × AllAdus as'

abbrev pub joined : List (List ℕ) → List ℕ
joined [] = []
joined (a ∷ as') = a ++ joined as'

-- The replies to ADUs, one after the other, with the deferred hooks run after each.
pub answers : RegModbus → List (List ℕ) → Device → Option (List ℕ × Device)
answers mb [] d = some ([], d)
answers mb (a ∷ as') d = do
  (resp, d') ← regmb_process_tcp mb a tcp_adu_max d
  (rest, d'') ← answers mb as' (reg_poll (some mb.table) d').1
  some (resp ++ rest, d'')

module _ {ℓ} {S : Type ℓ} (sock : Socket S) (coming sent : S → List ℕ)
    (ok : IsStream sock coming sent) where
  record ReadsAdu (s : S) (a rest : List ℕ) (o : Read × S) : Type ℓ where
    got : o.0 ≡ adu a
    left : coming o.1 ≡ rest
    still : sent o.1 ≡ sent s

  complete-ReadsAdu :
      (s s1 : S) (header pdu rest : List ℕ) (o : Option (List ℕ) × S)
      → sent s1 ≡ sent s
      → HasRead sock coming sent ok s1 pdu rest o
      → ReadsAdu s (header ++ pdu) rest (complete sock header o)
  complete-ReadsAdu s s1 header pdu rest (none, s2) e r = absurd (cc r.got)
  complete-ReadsAdu s s1 header pdu rest (some x, s2) e r = record {
    got = let same : x ≡ pdu = cc r.got in λ i. adu (header ++ same i);
    left = r.left;
    still = r.still ∙ e;
  }

  -- The length field of the header says how many bytes the PDU has.
  read_rest-ReadsAdu :
      (s s1 : S) (header pdu rest : List ℕ)
      → 1 ≤ length pdu
      → length pdu + 7 ≤ tcp_adu_max
      → get_or header 4 0 * 2 ^ 8 + get_or header 5 0 ≡ length pdu + 1
      → sent s1 ≡ sent s
      → coming s1 ≡ pdu ++ rest
      → ReadsAdu s (header ++ pdu) rest (read_rest sock (some header, s1))
  unfolding read_rest
  read_rest-ReadsAdu s s1 header pdu rest some_byte short counts same e =
      let mlen = (get_or header 4 0 * 2 ^ 8 + get_or header 5 0) % 2 ^ 16 in
      let exact : length pdu ≡ mlen - 1 = omega (arith, counts) in
      let read = read_exact-HasRead sock coming sent ok (length pdu) pdu rest s1 (omega arith) e in
      if_cases (ReadsAdu s (header ++ pdu) rest) (ltb mlen 2 || ltb tcp_adu_max (6 + mlen)) _ _
        (λ bad. absurd (ground arith))
        (λ good.
          subst
            (λ n. ReadsAdu s (header ++ pdu) rest (complete sock header (read_exact sock n n s1)))
            exact (complete-ReadsAdu s s1 header pdu rest _ same read))

  read_adu-ReadsAdu :
      (a rest : List ℕ) (s : S)
      → IsAdu a
      → coming s ≡ a ++ rest
      → ReadsAdu s a rest (read_adu sock s)
  unfolding read_adu
  read_adu-ReadsAdu (t0 ∷ t1 ∷ p0 ∷ p1 ∷ hi ∷ lo ∷ unit ∷ pdu) rest s is_adu e =
      let header = t0 ∷ t1 ∷ p0 ∷ p1 ∷ hi ∷ lo ∷ unit ∷ [] in
      let o = read_exact sock 7 7 s in
      let read = read_exact-HasRead sock coming sent ok 7 header (pdu ++ rest) s (omega arith) e in
      let whole : (some header, o.1) ≡ o = λ i. (sym read.got i, o.1) in
      subst (λ x. ReadsAdu s (header ++ pdu) rest (read_rest sock x)) whole
        (read_rest-ReadsAdu s o.1 header pdu rest is_adu.0 is_adu.1 is_adu.2 read.still read.left)
  read_adu-ReadsAdu _ rest s is_adu e = absurd is_adu

  -- The reply is sent, and the hooks run.
  record Replied (mb : RegModbus) (s : S) (r : List ℕ × Device) (o : Bool × S × Device)
      : Type ℓ where
    on : o.0 ≡ true
    out : sent o.1 ≡ sent s ++ r.0
    same : coming o.1 ≡ coming s
    after : o.2 ≡ (reg_poll (some mb.table) r.1).1

  polled-Replied :
      (mb : RegModbus) (s : S) (bytes : List ℕ) (d : Device) (o : Bool × S)
      → HasSent sock coming sent ok s bytes o
      → Replied mb s (bytes, d) (polled sock mb d o)
  unfolding polled
  polled-Replied mb s bytes d (true, s') h = record {
    on = refl;
    out = h.all;
    same = h.still;
    after = refl;
  }
  polled-Replied mb s bytes d (false, s') h = absurd (cc h.done_all)

  reply-Replied :
      (mb : RegModbus) (s : S) (r : List ℕ × Device) → Replied mb s r (reply sock mb s r)
  unfolding reply
  reply-Replied mb s (bytes, d) = polled-Replied mb s bytes d _ (
      if_cases (HasSent sock coming sent ok s bytes) (length bytes == 0) _ _
        (λ nothing. nothing-HasSent sock coming sent ok bytes s (ground arith))
        (λ something. send_all-HasSent sock coming sent ok (length bytes) bytes s (omega arith)))

  -- The end of the stream is the end of the loop.
  read_adu_end : (s : S) → coming s ≡ [] → read_adu sock s ≡ (gone, (sock.recv 7 s).1)
  unfolding read_adu read_rest
  read_adu_end s e = ap (read_rest sock) (read_exact_end sock coming sent ok 6 6 s e)

  -- The connection: the end of the stream stops the loop.
  pub record Answered (mb : RegModbus) (s : S) (adus : List (List ℕ)) (d : Device)
      (o : Option (S × Device)) : Type ℓ where
    pub result : S × Device
    pub replies : List ℕ
    pub answered : answers mb adus d ≡ some (replies, result.1)
    pub ended : o ≡ some result
    pub out : sent result.0 ≡ sent s ++ replies

  -- Where a stream is made of ADUs and then ends, the loop answers each of them, in order and with
  -- the hooks run after each, whatever the parts in which the socket delivers and takes the bytes;
  -- it ends with the stream, after a round for each ADU and one more at most.
  pub serve-Answered :
      (mb : RegModbus) (fuel : ℕ) (adus : List (List ℕ)) (s : S) (d : Device)
      → length adus < fuel
      → AllAdus adus
      → coming s ≡ joined adus
      → Answered mb s adus d (serve sock mb fuel s d)
  unfolding serve serve_read answers
  serve-Answered mb zero adus s d h all e = absurd (omega arith)
  serve-Answered mb (suc fuel) [] s d h all e = record {
    result = ((sock.recv 7 s).1, d);
    replies = [];
    answered = refl;
    ended = rw (read_adu_end s e) refl;
    out = ok.recv_sent 7 s ∙ sym (append-nil (sent s));
  }
  serve-Answered mb (suc fuel) (a ∷ adus) s d h all e =
      let K : Bool × S × Device → Option (S × Device) =
        λ g. if g.0 then serve sock mb fuel g.1 g.2 else some (g.1, g.2) in
      let o = read_adu sock s in
      let read = read_adu-ReadsAdu a (joined adus) s all.0 e in
      let (r, processed, _) = regmb_process_tcp-IsTcpResponse mb a tcp_adu_max d all.1 in
      let q = reply sock mb o.1 r in
      let sent_it = reply-Replied mb o.1 r in
      let rec =
        serve-Answered mb fuel adus q.1 q.2 (omega arith) all.2 (sent_it.same ∙ read.left) in
      record {
        result = rec.result;
        replies = r.0 ++ rec.replies;
        answered =
            ap
              (λ x. x >>= (λ y.
                answers mb adus (reg_poll (some mb.table) y.1).1 >>= (λ z. some (y.0 ++ z.0, z.1))))
              processed
            ∙ ap (λ x. answers mb adus x >>= (λ z. some (r.0 ++ z.0, z.1))) (sym sent_it.after)
            ∙ ap (λ x. x >>= (λ z. some (r.0 ++ z.0, z.1))) rec.answered;
        ended =
            ap (λ (x : Read × S). serve_read sock mb d x >>= K) (λ i. (read.got i, o.1))
            ∙ ap (λ x. (x >>= (λ r. some (reply sock mb o.1 r))) >>= K) processed
            ∙ ap K (λ i. (sent_it.on i, q.1, q.2))
            ∙ rec.ended;
        out =
            rec.out
            ∙ ap (λ t. t ++ rec.replies) (sent_it.out ∙ ap (λ t. t ++ r.0) read.still)
            ∙ append_assoc (sent s) r.0 rec.replies;
      }
