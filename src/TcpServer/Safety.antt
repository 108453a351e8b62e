-- ===== src/TcpServer/Safety.antt =====
-- The TCP slave of example_modbus_tcp.c on any socket, whatever its peer sends.
use regtable.Prelude.{ℕ, zero, suc, ◌+◌, ◌-◌, ◌*◌, ◌%◌, ◌^◌, ◌≡◌}
use regtable.Prelude.{
  Bool, Bool-cases, inl, inr, true, false, ◌||◌, ltb, ◌==◌, if_cases, if◌then◌else◌,
}
use regtable.Prelude.{Option, none, some, List, [], ◌∷◌, length, get_or}
use std.Path.{subst}
use regtable.Core.Types.{Device}
use regtable.Core.Access.{Accesses, Each}
use regtable.Core.Access.Keeps.{HooksKeep, IsStable, Accesses-keeps, reg_poll-keeps}
use regtable.Modbus.Map.{RegModbus}
use regtable.Modbus.Crc.Laws.{AllBytes, AllBytes-append}
use regtable.Modbus.Frame.{tcp_adu_max, regmb_process_tcp}
use regtable.Modbus.Frame.Access.{regmb_process_tcp-Reached}
use regtable.Modbus.Frame.Tcp.{regmb_process_tcp-IsTcpResponse}
use regtable.Modbus.Pdu.Replies.{Yields, yielded}
use regtable.TcpServer.{
  Socket, Read, gone, unusable, adu, got_part, send_all, read_exact, complete, read_rest, read_adu,
  polled, reply, serve_read, serve,
}
use regtable.TcpServer.Demo.{serve_all}

-- What is received is bytes.
abbrev pub ReceivesBytes {ℓ} : {S : Type ℓ} → Socket S → Type ℓ
ReceivesBytes {S} sock = (n : ℕ) (s : S) → AllBytes (sock.recv n s).0

-- An ADU that was read is bytes.
abbrev IsBytes : Read → Type 0
IsBytes gone = Unit
IsBytes unusable = Unit
IsBytes (adu bytes) = AllBytes bytes

module _ {ℓ} {S : Type ℓ} (sock : Socket S) (received : ReceivesBytes sock) where
  got_part-AllBytes :
      (bytes : List ℕ) (o : Option (List ℕ) × S)
      → AllBytes bytes
      → Each AllBytes o.0
      → Each AllBytes (got_part bytes o).0
  got_part-AllBytes bytes (none, s) h rest = tt
  got_part-AllBytes bytes (some more, s) h rest = AllBytes-append bytes more h rest

  read_exact-AllBytes : (fuel n : ℕ) (s : S) → Each AllBytes (read_exact sock fuel n s).0
  unfolding read_exact
  read_exact-AllBytes fuel zero s = tt
  read_exact-AllBytes zero (suc n) s = tt
  read_exact-AllBytes (suc fuel) (suc n) s =
      let (bytes, s') = sock.recv (suc n) s in
      if_cases (λ (o : Option (List ℕ) × S). Each AllBytes o.0) (length bytes == 0) _ _
        (λ closed. tt)
        (λ more.
          got_part-AllBytes bytes _ (received (suc n) s)
            (read_exact-AllBytes fuel (suc n - length bytes) s'))

  complete-IsBytes :
      (header : List ℕ) (o : Option (List ℕ) × S)
      → AllBytes header
      → Each AllBytes o.0
      → IsBytes (complete sock header o).0
  complete-IsBytes header (none, s) h rest = tt
  complete-IsBytes header (some more, s) h rest = AllBytes-append header more h rest

  read_rest-IsBytes : (o : Option (List ℕ) × S) → Each AllBytes o.0 → IsBytes (read_rest sock o).0
  unfolding read_rest
  read_rest-IsBytes (none, s) h = tt
  read_rest-IsBytes (some header, s) h =
      let mlen = (get_or header 4 0 * 2 ^ 8 + get_or header 5 0) % 2 ^ 16 in
      if_cases (λ (o : Read × S). IsBytes o.0) (ltb mlen 2 || ltb tcp_adu_max (6 + mlen)) _ _
        (λ bad. tt)
        (λ good. complete-IsBytes header _ h (read_exact-AllBytes (mlen - 1) (mlen - 1) s))

  read_adu-IsBytes : (s : S) → IsBytes (read_adu sock s).0
  unfolding read_adu
  read_adu-IsBytes s = read_rest-IsBytes _ (read_exact-AllBytes 7 7 s)

  module _ {κ} (mb : RegModbus) (I : Device → Type κ) (hooks : HooksKeep mb.table I)
      (stable : IsStable mb.table I) (whole : mb.table.count ≡ length mb.table.entries) where
    polled-keeps : (d : Device) (o : Bool × S) → I d → I (polled sock mb d o).2
    unfolding polled
    polled-keeps d (true, s) now = reg_poll-keeps mb.table I hooks stable d whole now
    polled-keeps d (false, s) now = now

    serve_read-keeps :
        (d : Device) (o : Read × S)
        → IsBytes o.0
        → I d
        → Yields (λ (r : Bool × S × Device). I r.2) (serve_read sock mb d o)
    unfolding serve_read reply
    serve_read-keeps d (gone, s) bytes now = yielded _ _ now
    serve_read-keeps d (unusable, s) bytes now = yielded _ _ now
    serve_read-keeps d (adu bs, s) bytes now =
        let (out, is, _) = regmb_process_tcp-IsTcpResponse mb bs tcp_adu_max d bytes in
        let reached = subst (Each (λ (r : List ℕ × Device). I r.1)) is (
          each_keeps (regmb_process_tcp mb bs tcp_adu_max d)
            (regmb_process_tcp-Reached mb d bs tcp_adu_max)) in
        (
          reply sock mb s out,
          rw is,
          polled-keeps out.1
              (if length out.0 == 0 then (true, s) else send_all sock (length out.0) out.0 s)
              reached,
        )
      where
        each_keeps :
            (o : Option (List ℕ × Device))
            → Each (λ (r : List ℕ × Device). Accesses mb.table d r.1) o
            → Each (λ (r : List ℕ × Device). I r.1) o
        each_keeps none h = tt
        each_keeps (some r) h = Accesses-keeps mb.table I hooks stable h now

    -- One connection, whatever comes: no fault, and the property is kept.
    pub serve-keeps :
        (fuel : ℕ) (s : S) (d : Device)
        → I d
        → Yields (λ (r : S × Device). I r.1) (serve sock mb fuel s d)
    unfolding serve
    serve-keeps zero s d now = yielded _ _ now
    serve-keeps (suc fuel) s d now =
        let (out, is, kept) = serve_read-keeps d (read_adu sock s) (read_adu-IsBytes s) now in
        let rest = serve-keeps fuel out.1 out.2 kept in
        elim (Bool-cases out.0) [
          | inl going ↦ let (r, ends, k) = rest in (r, rw (is, going) ends, k)
          | inr stopped ↦ ((out.1, out.2), rw (is, stopped), kept)
        ]

    -- One connection after the other.
    pub serve_all-keeps :
        (fuel : ℕ) (ss : List S) (d : Device)
        → I d
        → Yields (λ (r : List S × Device). I r.1) (serve_all sock mb fuel ss d)
    unfolding serve_all
    serve_all-keeps fuel [] d now = yielded _ _ now
    serve_all-keeps fuel (s ∷ ss) d now =
        let (one, is, kept) = serve-keeps fuel s d now in
        let (more, is', kept') = serve_all-keeps fuel ss one.1 kept in
        ((one.0 ∷ more.0, more.1), rw (is, is'), kept')
