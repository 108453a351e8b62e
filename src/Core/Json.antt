-- ===== src/Core/Json.antt =====
-- JSON strings as the adapters write them, and a reader of JSON strings.
pub mod Laws
use regtable.Prelude.{
  ℕ, zero, suc, ◌+◌, ◌-◌, ◌*◌, Option, none, some, ltb, leb, ◌&&◌, ◌||◌, ◌==◌, if◌then◌else◌,
}
use regtable.Prelude.{[], ◌∷◌, ◌++◌, codes}
use regtable.Core.Types.{Text}
use regtable.Core.Format.{format_x}

-- The escape of a byte: by name, as \u00xx, or none.
unfoldable pub escape : ℕ → Text
unfolding codes
escape c =
    if c == b'"'
    then codes "\\\""
    else if c == b'\\'
    then codes "\\\\"
    else if c == b'\n'
    then codes "\\n"
    else if c == b'\r'
    then codes "\\r"
    else if c == b'\t'
    then codes "\\t"
    else if leb 0x20 c
    then c ∷ []
    else codes "\\u" ++ format_x 4 c

unfoldable pub escaped : Text → Text
unfolding escape
escaped [] = []
escaped (c ∷ s) = escape c ++ escaped s

-- A JSON string.
unfoldable pub quoted : Text → Text
unfolding escaped
quoted s = b'"' ∷ escaped s ++ (b'"' ∷ [])

-- What a reader of a JSON string is in: text, behind a backslash, or `left` digits from the end of
-- \u, with the value of those before, if they had one.
pub data Mode : Type 0 where
  in_text behind_slash : Mode
  in_hex : ℕ → Option ℕ → Mode

abbrev pub put : ℕ → Option (Text × Text) → Option (Text × Text)
put c none = none
put c (some (s, rest)) = some (c ∷ s, rest)

-- The value of a hexadecimal digit; another byte has none.
abbrev pub hex_value : ℕ → Option ℕ
hex_value c =
    if leb b'0' c && leb c b'9'
    then some (c - b'0')
    else if leb b'a' c && leb c b'f'
    then some (c - b'a' + 10)
    else if leb b'A' c && leb c b'F'
    then some (c - b'A' + 10)
    else none

-- The byte that is named behind a backslash; another escape is refused.
abbrev pub named : ℕ → Option ℕ
named c =
    if c == b'"' || c == b'\\' || c == b'/'
    then some c
    else if c == b'b'
    then some 8
    else if c == b'f'
    then some 12
    else if c == b'n'
    then some 10
    else if c == b'r'
    then some 13
    else if c == b't'
    then some 9
    else none

abbrev pub put_if : Option ℕ → Option (Text × Text) → Option (Text × Text)
put_if none o = none
put_if (some c) o = put c o

-- The value so far, with one more digit.
abbrev pub shifted : ℕ → Option ℕ → Option ℕ
shifted v none = none
shifted v (some d) = some (v * 16 + d)

-- The string up to the quote that ends it, and what follows. A control byte, an escape that JSON
-- does not have, a digit that is none, and an end with no quote are refused.
unfoldable pub read_string : Mode → Text → Option (Text × Text)
read_string mode [] = none
read_string in_text (c ∷ s) =
    if c == b'"'
    then some ([], s)
    else if c == b'\\'
    then read_string behind_slash s
    else if ltb c 0x20
    then none
    else put c (read_string in_text s)
read_string behind_slash (c ∷ s) =
    if c == b'u'
    then read_string (in_hex 3 (some 0)) s
    else put_if (named c) (read_string in_text s)
read_string (in_hex zero (some v)) (c ∷ s) =
    put_if (shifted v (hex_value c)) (read_string in_text s)
read_string (in_hex (suc left) (some v)) (c ∷ s) =
    read_string (in_hex left (shifted v (hex_value c))) s
read_string (in_hex left none) (c ∷ s) = none

-- A JSON string: behind its first quote.
unfoldable pub unquote : Text → Option (Text × Text)
unfolding read_string
unquote [] = none
unquote (c ∷ s) = if c == b'"' then read_string in_text s else none
