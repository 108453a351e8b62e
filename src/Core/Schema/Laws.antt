-- ===== src/Core/Schema/Laws.antt =====
-- What the fingerprint sees of a table, and the changes that it cannot miss.
use regtable.Prelude.{ℕ, zero, suc, ◌*◌, ◌/◌, ◌%◌, ◌^◌, ◌<◌, ◌≡◌, ◌≢◌, refl, arith, ap, ◌∙◌, sym}
use regtable.Prelude.{Option, none, some, List, [], ◌∷◌, ◌++◌, bit_xor}
use regtable.Prelude.Bits.{bit_xor-lt, bit_xor_cancel, bit_xor_comm}
use regtable.Core.Types.{
  Text, RegType, reg_u8, reg_u16, reg_u32, reg_i8, reg_i16, reg_i32, reg_float, reg_bool, RegPerm,
  reg_ro, reg_rw, RegEntry, RegTable,
}
use regtable.Core.Schema.{
  type_code, perm_code, mix, mix_text, mix_bytes, field_bytes, text_or_empty, mix_entries,
  reg_table_schema,
}

abbrev c_bytes : Text → List ℕ
c_bytes [] = 0 ∷ []
c_bytes (c ∷ s) = c % 256 ∷ c_bytes s

abbrev type_number : RegType → ℕ
type_number reg_u8 = 0
type_number reg_u16 = 1
type_number reg_u32 = 2
type_number reg_i8 = 3
type_number reg_i16 = 4
type_number reg_i32 = 5
type_number reg_float = 6
type_number reg_bool = 7

abbrev perm_number : RegPerm → ℕ
perm_number reg_ro = 0
perm_number reg_rw = 1

-- A word of `n` bytes, the low byte first.
abbrev low_first : ℕ → ℕ → List ℕ
low_first zero w = []
low_first (suc n) w = w % 256 ∷ low_first n (w / 256)

abbrev description_text : Option Text → Text
description_text none = []
description_text (some s) = s

-- Type, permission, both limits and the address.
abbrev fixed_bytes : RegEntry → List ℕ
fixed_bytes e =
    type_number e.type ∷ perm_number e.perm ∷ low_first 4 e.min
    ++ (low_first 4 e.max ++ low_first 2 e.modbus_addr)

-- A table as bytes: each entry's name and NUL, its twelve bytes, its description and NUL.
abbrev pub serialise : List RegEntry → List ℕ
serialise [] = []
serialise (e ∷ es) =
    c_bytes e.name ++ (fixed_bytes e ++ (c_bytes (description_text e.description) ++ serialise es))

type_code-number : (k : RegType) → type_code k ≡ type_number k
type_code-number k = ground arith

perm_code-number : (p : RegPerm) → perm_code p ≡ perm_number p
perm_code-number p = ground arith

text_or_empty-description : (o : Option Text) → text_or_empty o ≡ description_text o
text_or_empty-description none = refl
text_or_empty-description (some s) = refl

field_bytes-fixed : (e : RegEntry) → field_bytes e ≡ fixed_bytes e
field_bytes-fixed e =
    let two : (w : ℕ) → w / 2 ^ 16 % 256 ≡ w / 256 / 256 % 256 = λ w. omega arith in
    let three : (w : ℕ) → w / 2 ^ 24 % 256 ≡ w / 256 / 256 / 256 % 256 = λ w. omega arith in
    λ i.
      type_code-number e.type i
      ∷ perm_code-number e.perm i
      ∷ e.min % 256
      ∷ e.min / 256 % 256
      ∷ two e.min i
      ∷ three e.min i
      ∷ e.max % 256
      ∷ e.max / 256 % 256
      ∷ two e.max i
      ∷ three e.max i
      ∷ e.modbus_addr % 256
      ∷ e.modbus_addr / 256 % 256
      ∷ []

mix_bytes-append : (h : ℕ) (xs ys : List ℕ) → mix_bytes h (xs ++ ys) ≡ mix_bytes (mix_bytes h xs) ys
unfolding mix_bytes
mix_bytes-append h [] ys = refl
mix_bytes-append h (x ∷ xs) ys = mix_bytes-append (mix h x) xs ys

mix_text-eq : (h : ℕ) (s : Text) → mix_text h s ≡ mix_bytes h (c_bytes s)
unfolding mix_text mix_bytes
mix_text-eq h [] = refl
mix_text-eq h (c ∷ s) = mix_text-eq (mix h (c % 256)) s

mix_entry-eq :
    (h : ℕ) (name : Text) (bs : List ℕ) (s : Text) (rest : List ℕ)
    → mix_bytes (mix_text (mix_bytes (mix_text h name) bs) s) rest
      ≡ mix_bytes h (c_bytes name ++ (bs ++ (c_bytes s ++ rest)))
mix_entry-eq h name bs s rest = simp (mix_text-eq, mix_bytes-append)

mix_entries-eq : (h : ℕ) (es : List RegEntry) → mix_entries h es ≡ mix_bytes h (serialise es)
unfolding mix_entries mix_bytes
mix_entries-eq h [] = refl
mix_entries-eq h (e ∷ es) =
    mix_entries-eq
      (mix_text (mix_bytes (mix_text h e.name) (field_bytes e)) (text_or_empty e.description)) es
    ∙ mix_entry-eq h e.name (field_bytes e) (text_or_empty e.description) (serialise es)
    ∙ λ i. mix_bytes h (
        c_bytes e.name
        ++ (field_bytes-fixed e i
            ++ (c_bytes (text_or_empty-description e.description i) ++ serialise es)))

-- The fingerprint is FNV-1a over the serialised table.
pub reg_table_schema-serialise :
    (t : RegTable) → reg_table_schema (some t) ≡ mix_bytes 2166136261 (serialise t.entries)
unfolding reg_table_schema
reg_table_schema-serialise t = mix_entries-eq 2166136261 t.entries

-- A round loses nothing of the state, nor of the byte: the multiplier is odd.
unmix : (x y : ℕ) → x < 2 ^ 32 → y < 2 ^ 32 → x * 16777619 % 2 ^ 32 ≡ y * 16777619 % 2 ^ 32 → x ≡ y
unmix x y hx hy same = sym (undo x hx) ∙ ap (λ (k : ℕ). k * 899433627 % 2 ^ 32) same ∙ undo y hy
  where
    undo : (k : ℕ) → k < 2 ^ 32 → k * 16777619 % 2 ^ 32 * 899433627 % 2 ^ 32 ≡ k
    undo k h = omega arith

mix-lt : (h b : ℕ) → mix h b < 2 ^ 32
unfolding mix
mix-lt h b = omega arith

-- Two states that a byte takes to one state are one state.
mix_state : (h h' b : ℕ) → h < 2 ^ 32 → h' < 2 ^ 32 → b < 256 → mix h b ≡ mix h' b → h ≡ h'
unfolding mix
mix_state h h' b lt lt' small same =
    let fits : b < 2 ^ 32 = omega arith in
    sym (bit_xor_cancel 32 h b lt fits)
    ∙ ap (λ k. bit_xor k b)
        (unmix (bit_xor h b) (bit_xor h' b) (bit_xor-lt 32 h b lt fits)
          (bit_xor-lt 32 h' b lt' fits) same)
    ∙ bit_xor_cancel 32 h' b lt' fits

-- Two bytes that take a state to one state are one byte.
mix_byte : (h b b' : ℕ) → h < 2 ^ 32 → b < 256 → b' < 256 → mix h b ≡ mix h b' → b ≡ b'
unfolding mix
mix_byte h b b' lt small small' same =
    let fits : b < 2 ^ 32 = omega arith in
    let fits' : b' < 2 ^ 32 = omega arith in
    sym (bit_xor_cancel 32 b h fits lt)
    ∙ ap (λ k. bit_xor k h)
        (bit_xor_comm 32 b h fits lt
          ∙ unmix (bit_xor h b) (bit_xor h b') (bit_xor-lt 32 h b lt fits)
              (bit_xor-lt 32 h b' lt fits') same
          ∙ bit_xor_comm 32 h b' lt fits')
    ∙ bit_xor_cancel 32 b' h fits' lt

abbrev pub AllBytes : List ℕ → Type 0
AllBytes [] = Unit
AllBytes (b ∷ bs) = (b < 256) × AllBytes bs

mix_bytes-lt : (h : ℕ) (bs : List ℕ) → h < 2 ^ 32 → mix_bytes h bs < 2 ^ 32
unfolding mix_bytes
mix_bytes-lt h [] lt = lt
mix_bytes-lt h (b ∷ bs) lt = mix_bytes-lt (mix h b) bs (mix-lt h b)

mix_bytes_state :
    (bs : List ℕ) (h h' : ℕ)
    → AllBytes bs
    → h < 2 ^ 32
    → h' < 2 ^ 32
    → mix_bytes h bs ≡ mix_bytes h' bs
    → h ≡ h'
unfolding mix_bytes
mix_bytes_state [] h h' bytes lt lt' same = same
mix_bytes_state (b ∷ bs) h h' bytes lt lt' same =
    mix_state h h' b lt lt' bytes.0
      (mix_bytes_state bs (mix h b) (mix h' b) bytes.1 (mix-lt h b) (mix-lt h' b) same)

-- Two tables have different fingerprints if their serialised forms differ in exactly one byte. The
-- form has of each entry its name and a NUL, the numbers of its type and permission, both limits
-- and its address, the low byte first, its description and a NUL.
pub reg_table_schema_changed :
    (t t' : RegTable) (before after : List ℕ) (b b' : ℕ)
    → serialise t.entries ≡ before ++ (b ∷ after)
    → serialise t'.entries ≡ before ++ (b' ∷ after)
    → b < 256
    → b' < 256
    → AllBytes after
    → b ≢ b'
    → reg_table_schema (some t) ≢ reg_table_schema (some t')
unfolding mix_bytes
reg_table_schema_changed t t' before after b b' is is' small small' bytes differ same =
    let h = mix_bytes 2166136261 before in
    let lt : h < 2 ^ 32 = mix_bytes-lt 2166136261 before (omega arith) in
    let one : mix_bytes (mix h b) after ≡ mix_bytes (mix h b') after =
      sym (mix_bytes-append 2166136261 before (b ∷ after))
      ∙ ap (mix_bytes 2166136261) (sym is)
      ∙ sym (reg_table_schema-serialise t)
      ∙ same
      ∙ reg_table_schema-serialise t'
      ∙ ap (mix_bytes 2166136261) is'
      ∙ mix_bytes-append 2166136261 before (b' ∷ after) in
    differ (
      mix_byte h b b' lt small small'
        (mix_bytes_state after (mix h b) (mix h b') bytes (mix-lt h b) (mix-lt h b') one))
