-- ===== src/TcpServer.antt =====
-- example_modbus_tcp.c: the loop that serves one connection of the Modbus TCP slave.
pub mod Stream
pub mod Serve
pub mod Demo
pub mod Connections
pub mod Safety
pub mod Valid
mod Examples
use regtable.Prelude.{
  ℕ, zero, suc, ◌+◌, ◌-◌, ◌*◌, ◌%◌, ◌^◌, Bool, true, false, ◌||◌, ltb, ◌==◌, if◌then◌else◌,
}
use regtable.Prelude.{Option, none, some, List, [], ◌∷◌, ◌++◌, length, drop, get_or, ◌>>=◌}
use regtable.Core.Types.{Device, RegTable}
use regtable.Core.Dirty.{reg_poll}
use regtable.Modbus.Map.{RegModbus}
use regtable.Modbus.Frame.{tcp_adu_max, regmb_process_tcp}

-- The calls of the operating system. `recv` of at most so many bytes returns those that it got,
-- none where the result is not positive; `send` returns how many bytes it took, 0 likewise.
pub record Socket {ℓ} (S : Type ℓ) : Type ℓ where
  pub recv : ℕ → S → List ℕ × S
  pub send : List ℕ → S → ℕ × S

-- What `read_adu` returns: 0, -1, or the length of an ADU, which is here the ADU.
pub data Read : Type 0 where
  gone unusable : Read
  adu : List ℕ → Read

abbrev pub got_part {ℓ} : {S : Type ℓ} → List ℕ → Option (List ℕ) × S → Option (List ℕ) × S
got_part bytes (none, s) = (none, s)
got_part bytes (some rest, s) = (some (bytes ++ rest), s)

module _ {ℓ} {S : Type ℓ} (sock : Socket S) where
  -- A round for each byte is enough, since a round without one is the last.
  pub send_all : ℕ → List ℕ → S → Bool × S
  send_all fuel [] s = (true, s)
  send_all zero (b ∷ bytes) s = (false, s)
  send_all (suc fuel) (b ∷ bytes) s =
      let (r, s') = sock.send (b ∷ bytes) s in
      let rest = send_all fuel (drop r (b ∷ bytes)) s' in if r == 0 then (false, s') else rest

  -- `n` bytes are still to come.
  pub read_exact : ℕ → ℕ → S → Option (List ℕ) × S
  read_exact fuel zero s = (some [], s)
  read_exact zero (suc n) s = (none, s)
  read_exact (suc fuel) (suc n) s =
      let (bytes, s') = sock.recv (suc n) s in
      let rest = read_exact fuel (suc n - length bytes) s' in
      if length bytes == 0 then (none, s') else got_part bytes rest

  -- The second part of the ADU, behind its header.
  abbrev pub complete : List ℕ → Option (List ℕ) × S → Read × S
  complete header (none, s) = (gone, s)
  complete header (some rest, s) = (adu (header ++ rest), s)

  pub read_rest : Option (List ℕ) × S → Read × S
  read_rest (none, s) = (gone, s)
  read_rest (some header, s) =
      let mlen = (get_or header 4 0 * 2 ^ 8 + get_or header 5 0) % 2 ^ 16 in
      if ltb mlen 2 || ltb tcp_adu_max (6 + mlen)
      then (unusable, s)
      else complete header (read_exact (mlen - 1) (mlen - 1) s)

  pub read_adu : S → Read × S
  read_adu s = read_rest (read_exact 7 7 s)

  -- The deferred hooks run, unless the reply was not sent; `true` if the loop goes on.
  pub polled : RegModbus → Device → Bool × S → Bool × S × Device
  polled mb d (true, s) = (true, s, (reg_poll (some mb.table) d).1)
  polled mb d (false, s) = (false, s, d)

  -- What follows the processing of an ADU.
  pub reply : RegModbus → S → List ℕ × Device → Bool × S × Device
  reply mb s (resp, d) =
      polled mb d (if length resp == 0 then (true, s) else send_all (length resp) resp s)

  -- One round of the inner loop of `main`.
  pub serve_read : RegModbus → Device → Read × S → Option (Bool × S × Device)
  serve_read mb d (gone, s) = some (false, s, d)
  serve_read mb d (unusable, s) = some (false, s, d)
  serve_read mb d (adu bytes, s) =
      regmb_process_tcp mb bytes tcp_adu_max d >>= (λ r. some (reply mb s r))

  -- The loop, for as many rounds.
  pub serve : RegModbus → ℕ → S → Device → Option (S × Device)
  serve mb zero s d = some (s, d)
  serve mb (suc fuel) s d = do
    (going, s', d') ← serve_read mb d (read_adu s)
    if going then serve mb fuel s' d' else some (s', d')
