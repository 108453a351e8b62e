-- ===== src/Modbus/Pdu/Replies.antt =====
-- What holds of the reply to every request of at least one byte, whatever its bytes.
use regtable.Prelude.{ℕ, ◌+◌, ◌*◌, ◌%◌, ◌^◌, ◌≤◌, ◌<◌, ◌≡◌, ◌⊎◌, inl, inr, refl, arith}
use regtable.Prelude.{Bool, true, false, not, ◌&&◌, ◌||◌, Bool-cases}
use regtable.Prelude.{Option, none, some, List, [], ◌∷◌, ltb, ◌==◌, if◌then◌else◌, ◌>>=◌}
use regtable.Prelude.{length, take, drop, length-drop, length-take}
use regtable.Core.Types.{RegResult, Device, EntryRef}
use regtable.Core.Raw.{reg_set_raw}
use regtable.Modbus.Map.{RegModbus, entry_words, entry_at, span_covered}
use regtable.Modbus.Map.Cover.{Tiled, span_covered_iff}
use regtable.Modbus.Crc.Laws.{AllBytes, AllBytes-take, AllBytes-get_elem?}
use regtable.Modbus.Pdu.Loops.{
  Returns, get_elem?-Returns, word_at-Returns, words_to_raw-Returns, read_loop-Returns,
  write_loop-Returns,
}
use regtable.Modbus.Pdu.{
  Reply, pdu_exception, answer, exc_illegal_function, exc_illegal_address, exc_illegal_value,
  exc_device_failure, fc_read_holding, fc_read_input, fc_write_single, fc_write_multiple,
  max_read_qty, max_write_qty, is_ok, read_span, do_read, write_span, write_entry, write_found,
  do_write_single, do_write_multiple, dispatch, pdu_handle,
}

-- A reply fits the room and one PDU, is made of bytes, and is silent without a broadcast only if
-- nothing has changed.
pub record IsReply (pcap : ℕ) (broadcast : Bool) (d : Device) (reply : Reply) : Type 0 where
  pub fits : length reply.0 ≤ pcap
  pub short : length reply.0 ≤ 2 + 2 * max_read_qty
  pub bytes : AllBytes reply.0
  pub heard : (broadcast ≡ true) ⊎ (1 ≤ length reply.0) ⊎ (reply.1 ≡ d)

-- A computation that ends well, in a value with a property.
abbrev pub Yields {ℓ κ} : {A : Type ℓ} → (A → Type κ) → Option A → Type (ℓ ⊔ κ)
Yields {A} P o = (a : A) × (o ≡ some a) × P a

pub yielded {ℓ κ} : {A : Type ℓ} (P : A → Type κ) (a : A) → P a → Yields P (some a)
yielded P a p = (a, refl, p)

pub Yields-bind {ℓ κ ι} :
    {A : Type ℓ} {B : Type κ} (P : B → Type ι) (o : Option A) (f : A → Option B)
    → Returns o
    → ((a : A) → o ≡ some a → Yields P (f a))
    → Yields P (o >>= f)
Yields-bind P o f r s = let (b, e, p) = s r.0 r.1 in (b, rw (r.1) e, p)

-- Each branch may use the outcome of its test.
pub Yields-test {ℓ κ} :
    {A : Type ℓ} (P : A → Type κ) (c : Bool) (x y : Option A)
    → (c ≡ true → Yields P x)
    → (c ≡ false → Yields P y)
    → Yields P (if c then x else y)
Yields-test P true x y f g = f refl
Yields-test P false x y f g = g refl

covered_tiles :
    (mb : RegModbus) (start qty : ℕ)
    → not (span_covered mb.table start qty) ≡ false
    → Tiled mb.table (start + qty) start
covered_tiles mb start qty h = (span_covered_iff mb.table start qty).0 (ground arith)

module _ (mb : RegModbus) (pdu : List ℕ) (pcap : ℕ) (broadcast : Bool) (d : Device)
    (all : AllBytes pdu) where
  abbrev P : Reply → Type 0
  P reply = IsReply pcap broadcast d reply

  silent : P ([], d)
  silent = record { fits = omega arith; short = omega arith; bytes = tt; heard = ground arith }

  pdu_exception-bounds :
      (fc code : ℕ)
      → code < 256
      → (length (pdu_exception pcap fc code) ≤ pcap)
        × (length (pdu_exception pcap fc code) ≤ 2)
        × AllBytes (pdu_exception pcap fc code)
        × ((pcap < 2) ⊎ (1 ≤ length (pdu_exception pcap fc code)))
  unfolding pdu_exception
  pdu_exception-bounds fc code h = elim (Bool-cases (ltb pcap 2)) [
    | inl tight ↦ rw tight (ground arith)
    | inr room ↦ rw room (ground arith)
  ]

  excepted : (fc code : ℕ) → code < 256 → P (pdu_exception pcap fc code, d)
  excepted fc code h =
      let b = pdu_exception-bounds fc code h in
      record { fits = b.0; short = omega (arith, b.1); bytes = b.2; heard = ground arith }

  echo-IsReply :
      (d' : Device)
      → length (take 5 pdu) ≡ 5
      → (not broadcast && ltb pcap 5) ≡ false
      → P (if broadcast then [] else take 5 pdu, d')
  echo-IsReply d' five room = elim (Bool-cases broadcast) [
    | inl b ↦
        rw b (record { fits = omega arith; short = omega arith; bytes = tt; heard = inl refl })
    | inr unicast ↦ rw unicast (record {
      fits = ground arith;
      short = omega arith;
      bytes = AllBytes-take 5 pdu all;
      heard = inr (inl (omega arith));
    })
  ]

  -- An answer to a write, if there is room for it or it is not sent.
  answer-IsReply :
      (fc : ℕ) (res : RegResult) (d' : Device)
      → length (take 5 pdu) ≡ 5
      → (not broadcast && ltb pcap 5) ≡ false
      → P (answer pcap fc broadcast (take 5 pdu) (res, d'))
  answer-IsReply fc res d' five room =
      let b = pdu_exception-bounds fc exc_device_failure (omega arith) in
      elim (Bool-cases (is_ok res)) [
        | inl fine ↦ rw fine (echo-IsReply d' five room)
        | inr refused ↦ rw refused (record {
          fits = b.0;
          short = omega (arith, b.1);
          bytes = b.2;
          heard = ground (arith, b.3);
        })
      ]

  read_span-IsReply : (fc start qty : ℕ) → fc < 256 → Yields P (read_span mb fc start qty pcap d)
  unfolding read_span
  read_span-IsReply fc start qty hfc =
      Yields-test P (ltb qty 1 || ltb max_read_qty qty) _ _
        (λ _. yielded P _ (excepted fc exc_illegal_value (omega arith)))
        λ sizes.
          Yields-test P (not (span_covered mb.table start qty)) _ _
            (λ _. yielded P _ (excepted fc exc_illegal_address (omega arith)))
            λ gaps.
              Yields-test P (ltb pcap ((2 + 2 * qty) % 2 ^ 16)) _ _ (λ _. yielded P _ silent)
                λ room.
                  let (out, is, size, bytes) =
                    read_loop-Returns mb (qty + 1) start (start + qty) d (omega arith)
                      (covered_tiles mb start qty gaps) in
                  (
                    (fc ∷ 2 * qty % 256 ∷ out.0, out.1),
                    rw is,
                    record {
                      fits = ground (arith, size);
                      short = ground (arith, size);
                      bytes = (hfc, (omega arith, bytes));
                      heard = inr (inl (omega arith));
                    },
                  )

  do_read-IsReply : 1 ≤ length pdu → Yields P (do_read mb pdu pcap d)
  unfolding do_read
  do_read-IsReply h = Yields-bind P _ _ (get_elem?-Returns pdu 0 h) λ fc is.
      Yields-test P (not (length pdu == 5)) _ _
        (λ _. yielded P _ (excepted fc exc_illegal_value (omega arith)))
        λ five. Yields-bind P _ _ (word_at-Returns pdu 1 (ground arith)) λ start _.
          Yields-bind P _ _ (word_at-Returns pdu 3 (ground arith))
            λ qty _. read_span-IsReply fc start qty (AllBytes-get_elem? pdu 0 fc all is)

  write_entry-IsReply :
      (fc : ℕ) (r : EntryRef) → length pdu ≡ 5 → Yields P (write_entry mb pdu fc pcap broadcast r d)
  unfolding write_entry
  write_entry-IsReply fc r five =
      Yields-test P (not (entry_words r.entry.type == 1)) _ _
        (λ _. yielded P _ (excepted fc exc_illegal_address (omega arith)))
        λ one.
          Yields-test P (not broadcast && ltb pcap 5) _ _ (λ _. yielded P _ silent)
            λ room.
              Yields-bind P _ _
                (words_to_raw-Returns mb.word_swap r.entry.type (drop 3 pdu)
                  (ground (arith, length-drop 3 pdu)))
                λ raw _. yielded P _ (
                  answer-IsReply fc (reg_set_raw (some mb.table) r raw d).0
                    (reg_set_raw (some mb.table) r raw d).1 (omega (arith, length-take 5 pdu)) room)

  found-IsReply :
      (fc : ℕ) (o : Option EntryRef)
      → length pdu ≡ 5
      → Yields P (write_found mb pdu fc pcap broadcast d o)
  found-IsReply fc none five = yielded P _ (excepted fc exc_illegal_address (omega arith))
  found-IsReply fc (some r) five = write_entry-IsReply fc r five

  do_write_single-IsReply : 1 ≤ length pdu → Yields P (do_write_single mb pdu pcap broadcast d)
  unfolding do_write_single
  do_write_single-IsReply h = Yields-bind P _ _ (get_elem?-Returns pdu 0 h) λ fc _.
      Yields-test P (not (length pdu == 5)) _ _
        (λ _. yielded P _ (excepted fc exc_illegal_value (omega arith)))
        λ five.
          Yields-bind P _ _ (word_at-Returns pdu 1 (ground arith))
            λ addr _. found-IsReply fc (entry_at mb.table addr) (ground arith)

  write_span-IsReply :
      (fc start qty bytes : ℕ)
      → 6 ≤ length pdu
      → Yields P (write_span mb pdu fc start qty bytes pcap broadcast d)
  unfolding write_span
  write_span-IsReply fc start qty bytes six =
      Yields-test P
        (ltb qty 1
          || ltb max_write_qty qty
          || not (bytes == 2 * qty)
          || not (length pdu == (6 + bytes) % 2 ^ 16))
        _ _ (λ _. yielded P _ (excepted fc exc_illegal_value (omega arith)))
        λ sizes.
          Yields-test P (not (span_covered mb.table start qty)) _ _
            (λ _. yielded P _ (excepted fc exc_illegal_address (omega arith)))
            λ gaps.
              Yields-test P (not broadcast && ltb pcap 5) _ _ (λ _. yielded P _ silent)
                λ room.
                  Yields-bind P _ _
                    (write_loop-Returns mb (qty + 1) start (start + qty) (drop 6 pdu) d
                      (omega arith) (ground (arith, length-drop 6 pdu))
                      (covered_tiles mb start qty gaps))
                    λ out _.
                      yielded P _
                        (answer-IsReply fc out.0 out.1 (omega (arith, length-take 5 pdu)) room)

  do_write_multiple-IsReply : 1 ≤ length pdu → Yields P (do_write_multiple mb pdu pcap broadcast d)
  unfolding do_write_multiple
  do_write_multiple-IsReply h = Yields-bind P _ _ (get_elem?-Returns pdu 0 h) λ fc _.
      Yields-test P (ltb (length pdu) 6) _ _
        (λ _. yielded P _ (excepted fc exc_illegal_value (omega arith)))
        λ six. Yields-bind P _ _ (word_at-Returns pdu 1 (ground arith)) λ start _.
          Yields-bind P _ _ (word_at-Returns pdu 3 (ground arith)) λ qty _.
            Yields-bind P _ _ (get_elem?-Returns pdu 5 (ground arith))
              λ bytes _. write_span-IsReply fc start qty bytes (ground arith)

  dispatch-IsReply : (fc : ℕ) → 1 ≤ length pdu → Yields P (dispatch mb pdu fc pcap broadcast d)
  unfolding dispatch
  dispatch-IsReply fc h =
      Yields-test P (fc == fc_read_holding || fc == fc_read_input) _ _
        (λ _. Yields-test P broadcast _ _ (λ _. yielded P _ silent) (λ _. do_read-IsReply h))
        λ _.
          Yields-test P (fc == fc_write_single) _ _ (λ _. do_write_single-IsReply h)
            λ _.
              Yields-test P (fc == fc_write_multiple) _ _ (λ _. do_write_multiple-IsReply h)
                λ _.
                  Yields-test P broadcast _ _ (λ _. yielded P _ silent)
                    λ _. yielded P _ (excepted fc exc_illegal_function (omega arith))

  -- Every PDU of at least one byte gets a reply: no handler reads outside the request or follows
  -- a NULL entry. The reply fits the room, is at most 252 bytes long, and is empty, where it is to
  -- be sent, only if the device is unchanged.
  pub pdu_handle-IsReply : 1 ≤ length pdu → Yields P (pdu_handle mb pdu pcap broadcast d)
  unfolding pdu_handle
  pdu_handle-IsReply h =
      Yields-bind P _ _ (get_elem?-Returns pdu 0 h) (λ fc _. dispatch-IsReply fc h)
