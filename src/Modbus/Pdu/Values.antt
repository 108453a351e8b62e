-- ===== src/Modbus/Pdu/Values.antt =====
-- What a read request is answered with.
use regtable.Prelude.{ℕ, zero, suc, ◌+◌, ◌*◌, ◌%◌, ◌^◌, ◌<◌, ◌≤◌, ◌≡◌, arith, true, false, ◌||◌}
use regtable.Prelude.{none, some, List, [], ◌∷◌, ◌++◌, ltb, length, get_elem?}
use regtable.Core.Types.{Device}
use regtable.Core.Memory.{load_raw}
use regtable.Core.Raw.Effect.{plain_read}
use regtable.Modbus.Map.{RegModbus, entry_words}
use regtable.Modbus.Map.Cover.{Tiled, done, tile, Tiled-le, entry_words_bounds, span_covered_iff}
use regtable.Modbus.Words.{word_at, raw_to_words}
use regtable.Modbus.Pdu.{
  max_read_qty, fc_read_holding, read_loop, read_span, do_read, dispatch, pdu_handle,
}

module _ (mb : RegModbus) where
  -- The values of the entries that make up a span, one after the other.
  abbrev pub values : {end addr : ℕ} → Tiled mb.table end addr → Device → List ℕ
  values (done e) d = []
  values (tile r lt e rest) d =
      raw_to_words mb.word_swap r.entry.type (load_raw r.entry d.mem) ++ values rest d

  -- None of them has an `on_read`.
  abbrev pub AllStill : {end addr : ℕ} → Tiled mb.table end addr → Type 0
  AllStill (done e) = Unit
  AllStill (tile r lt e rest) = (r.entry.on_read ≡ none) × AllStill rest

  read_loop-values :
      (fuel addr end : ℕ) (d : Device) (tiles : Tiled mb.table end addr)
      → end < addr + fuel
      → AllStill tiles
      → read_loop fuel mb addr end d ≡ some (values tiles d, d)
  unfolding read_loop
  read_loop-values zero addr end d tiles enough still = absurd (omega (arith, Tiled-le tiles))
  read_loop-values (suc fuel) addr end d (done e) enough still = ground arith
  read_loop-values (suc fuel) addr end d (tile r lt e rest) enough still =
      let more : ltb addr end ≡ true = ground arith in
      rw (
        more,
        e,
        plain_read r.entry d still.0,
        read_loop-values fuel (addr + entry_words r.entry.type) end d rest
            (omega (arith, entry_words_bounds r.entry.type)) still.1,
      )

  -- A request to read the holding registers from `start` on, 1 to 125 words that whole entries
  -- without `on_read` make up, is answered, if there is room, with the number of bytes and the
  -- values of those entries in order; the device is not changed.
  pub pdu_handle-values :
      (pdu : List ℕ) (start qty pcap : ℕ) (d : Device) (tiles : Tiled mb.table (start + qty) start)
      → length pdu ≡ 5
      → get_elem? pdu 0 ≡ some fc_read_holding
      → word_at pdu 1 ≡ some start
      → word_at pdu 3 ≡ some qty
      → 1 ≤ qty
      → qty ≤ max_read_qty
      → 2 + 2 * qty ≤ pcap
      → AllStill tiles
      → pdu_handle mb pdu pcap false d ≡ some (fc_read_holding ∷ 2 * qty ∷ values tiles d, d)
  unfolding pdu_handle dispatch do_read read_span
  pdu_handle-values pdu start qty pcap d tiles size fc at len low high room still =
      let bounds : (ltb qty 1 || ltb max_read_qty qty) ≡ false = ground arith in
      let covered = (span_covered_iff mb.table start qty).1 tiles in
      let fits : ltb pcap ((2 + 2 * qty) % 2 ^ 16) ≡ false = ground arith in
      let bytes : 2 * qty % 256 ≡ 2 * qty = omega arith in
      rw (
        fc,
        size,
        at,
        len,
        bounds,
        covered,
        fits,
        read_loop-values (qty + 1) start (start + qty) d tiles (omega arith) still,
        bytes,
      )
