-- ===== src/TcpServer/Examples.antt =====
-- The connection loop on a socket that delivers and takes one byte at a time.
use regtable.Prelude.{ℕ, ◌≤◌, ◌≡◌, false, length, take, replicate, refl, arith, List, [], ◌∷◌, ◌++◌}
use regtable.Core.Examples.{table, fresh}
use regtable.Modbus.Map.{RegModbus}
use regtable.TcpServer.{Socket}
use regtable.TcpServer.Demo.{Layout, registry, main}
use regtable.TcpServer.Connections.{AllAnswered, demo, main-AllAnswered}
use regtable.Core.Types.{Device}
use regtable.Core.Dirty.{dirty_words}
use regtable.Prelude.{◌+◌, ◌%◌, ◌==◌, get_or, inl, if◌then◌else◌}
use regtable.Core.Types.{reg_rw, RegEntry}
use regtable.Core.Memory.{load_raw}
use regtable.Core.Float.{float_lt, rank, isnan}
use regtable.Core.Access.Keeps.{IsValue}
use regtable.Core.Access.Hooks.{AllEntries-Listed}
use regtable.Core.Access.Sound.{IsLaid, IsValid}
use regtable.Modbus.Pdu.Replies.{Yields}
use regtable.TcpServer.Safety.{ReceivesBytes}
use regtable.TcpServer.Valid.{slave_table, slave-IsValid}
use regtable.TcpServer.Stream.{IsStream}
use regtable.TcpServer.Serve.{AllAdus, joined}

-- What is still to come, and what was sent.
abbrev Pipe : Type 0
Pipe = List ℕ × List ℕ

abbrev trickle_recv : ℕ → Pipe → List ℕ × Pipe
trickle_recv n ([], sent) = ([], ([], sent))
trickle_recv n (b ∷ bytes, sent) = (b ∷ [], (bytes, sent))

abbrev trickle_send : List ℕ → Pipe → ℕ × Pipe
trickle_send [] p = (0, p)
trickle_send (b ∷ bytes) (coming, sent) = (1, (coming, sent ++ (b ∷ [])))

abbrev trickle : Socket Pipe
trickle = record { recv = trickle_recv; send = trickle_send }

trickle_recv_some :
    (n : ℕ) (p : Pipe)
    → 1 ≤ n
    → 1 ≤ length p.0
    → let (bytes, p') = trickle_recv n p in
      (1 ≤ length bytes) × (length bytes ≤ n) × (p.0 ≡ bytes ++ p'.0)
trickle_recv_some n ([], sent) h some_byte = absurd (omega arith)
trickle_recv_some n (b ∷ bytes, sent) h some_byte = (omega arith, omega arith, refl)

trickle_recv_end : (n : ℕ) (p : Pipe) → p.0 ≡ [] → (trickle_recv n p).0 ≡ []
trickle_recv_end n ([], sent) h = refl
trickle_recv_end n (b ∷ bytes, sent) h = absurd (cc h)

trickle_recv_sent : (n : ℕ) (p : Pipe) → (trickle_recv n p).1.1 ≡ p.1
trickle_recv_sent n ([], sent) = refl
trickle_recv_sent n (b ∷ bytes, sent) = refl

trickle_send_some :
    (bytes : List ℕ) (p : Pipe)
    → 1 ≤ length bytes
    → let (r, p') = trickle_send bytes p in
      (1 ≤ r) × (r ≤ length bytes) × (p'.1 ≡ p.1 ++ take r bytes) × (p'.0 ≡ p.0)
trickle_send_some [] p h = absurd (omega arith)
trickle_send_some (b ∷ bytes) (coming, sent) h = (omega arith, omega arith, refl, refl)

trickle-IsStream : IsStream trickle (λ p. p.0) (λ p. p.1)
trickle-IsStream = record {
  recv_some = trickle_recv_some;
  recv_end = trickle_recv_end;
  recv_sent = trickle_recv_sent;
  send_some = trickle_send_some;
}

abbrev slave : RegModbus
slave = record { table = table; addr = 17; word_swap = false }

-- Write 258 to the register 1, then read it.
abbrev adus : List (List ℕ)
adus =
    (0 ∷ 7 ∷ 0 ∷ 0 ∷ 0 ∷ 6 ∷ 17 ∷ 6 ∷ 0 ∷ 1 ∷ 1 ∷ 2 ∷ [])
    ∷ (0 ∷ 8 ∷ 0 ∷ 0 ∷ 0 ∷ 6 ∷ 17 ∷ 3 ∷ 0 ∷ 1 ∷ 0 ∷ 1 ∷ [])
    ∷ []

adus-AllAdus : AllAdus adus
adus-AllAdus = ground arith

abbrev layout : Layout
layout = record { led = 100; counter = 102; uptime = 104; gain = 108; registry = 2000 }

-- A clock that stands at five seconds.
abbrev five : Device → ℕ
five d = 5

abbrev connections : List Pipe
connections = (joined adus, []) ∷ ([], []) ∷ (joined adus, []) ∷ []

main-AllAnswered_example :
    AllAnswered trickle
      (λ p. p.0)
      (λ p. p.1)
      trickle-IsStream
      (demo layout five)
      connections
      (adus ∷ [] ∷ adus ∷ [])
      (record fresh { dirty = replicate dirty_words 0 })
      (main trickle layout five slave 3 connections fresh)
main-AllAnswered_example =
    main-AllAnswered trickle (λ p. p.0) (λ p. p.1) trickle-IsStream layout five slave 3 connections
      (adus ∷ [] ∷ adus ∷ []) fresh
      (
        omega arith,
        adus-AllAdus,
        refl,
        (omega arith, tt, refl, (omega arith, adus-AllAdus, refl, tt)),
      )

-- A peer that sends the bytes of a script, then zeros, and takes every other byte.
abbrev rude : Socket ℕ
rude = record {
  recv = λ n k. (get_or (joined adus) k 0 % 256 ∷ [], k + 1);
  send = λ bytes k. (if k % 2 == 0 then 1 else 0, k + 1);
}

rude-ReceivesBytes : ReceivesBytes rude
rude-ReceivesBytes n k = omega arith

layout-IsLaid : IsLaid (slave_table layout five).entries
unfolding registry
layout-IsLaid = ground arith

-- The gain is 1.0.
abbrev unity : Device
unity = record fresh { mem = λ a. if a == 110 then 0x80 else if a == 111 then 0x3f else 0 }

unity-IsValid : IsValid (slave_table layout five) unity
unfolding registry load_raw float_lt rank isnan
unity-IsValid e at =
    AllEntries-Listed (λ (x : RegEntry). x.perm ≡ reg_rw → IsValue x (load_raw x unity.mem))
      (registry layout five) e
      (
        λ w. (tt, inl (refl, refl)),
        (λ w. absurd (cc w), (λ w. absurd (cc w), (λ w. ground arith, tt))),
      )
      at

slave-IsValid_example :
    Yields
      (λ (r : List ℕ × Device). IsValid (slave_table layout five) r.1)
      (main rude layout five slave 3 (0 ∷ 5 ∷ []) unity)
slave-IsValid_example =
    slave-IsValid layout five layout-IsLaid rude slave 3 (0 ∷ 5 ∷ []) unity rude-ReceivesBytes
      unity-IsValid
