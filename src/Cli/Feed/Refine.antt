-- ===== src/Cli/Feed/Refine.antt =====
-- An editor on a plain list of bytes, with which `regcli_feed` is compared.
use regtable.Prelude.{
  ℕ, zero, suc, ◌+◌, ◌-◌, ◌%◌, ◌^◌, ◌<◌, ◌≡◌, ◌∙◌, sym, ap, refl, arith, inl, inr,
}
use regtable.Prelude.{Bool, true, false, ◌||◌, ltb, ◌==◌, if◌then◌else◌, codes, Bool-cases, if_both}
use regtable.Prelude.{List, [], ◌∷◌, ◌++◌, length, take, set, length-take, take-take, take-set}
use regtable.Core.Types.{Text, Device}
use regtable.Core.Text.{Libc}
use regtable.Core.Format.{Build}
use regtable.Cli.Output.{Writes, cli_lit}
use regtable.Cli.Process.{Served, cli_process}
use regtable.Cli.Feed.{
  buf_size, RegCli, c_string, echoed, run_line, end_line, erase_char, keep_char, feed_byte,
  regcli_feed,
}
use regtable.Cli.Feed.Editor.{IsCli}

-- The line that is being typed, and whether it was cut.
pub record Line : Type 0 where
  pub text : Text
  pub cut : Bool

abbrev pub line_of : RegCli → Line
line_of cli = record { text = take cli.pos cli.buf; cut = cli.overflow }

abbrev pub served_by : RegCli → Served
served_by cli = record { table = cli.table; identity = cli.identity }

abbrev pub empty_line : Line
empty_line = record { text = []; cut = false }

-- The end of the line: a line that was cut is refused, an empty one passed over, any other run.
unfoldable pub spec_end : Libc → Build → Served → Bool → Line → Device → Writes × Line × Device
spec_end c b s echo l d =
    if l.cut
    then (
      echoed echo (cli_lit (codes "\r\n")) ++ cli_lit (codes "ERR: line too long\r\n"),
      empty_line,
      d,
    )
    else if ltb 0 (length l.text)
    then (let (ws, d') = cli_process c b s (c_string l.text) d in
        (echoed echo (cli_lit (codes "\r\n")) ++ ws, empty_line, d'))
    else ([], empty_line, d)

-- An editor: the end of a line, a byte taken back, or a byte more, up to `buf_size - 1` of them.
unfoldable pub spec_feed : Libc → Build → Served → Bool → Line → ℕ → Device → Writes × Line × Device
unfolding spec_end
spec_feed c b s echo l byte d =
    if byte == b'\n' || byte == b'\r'
    then spec_end c b s echo l d
    else if byte == 8 || byte == 0x7F
    then (
      if ltb 0 (length l.text) then echoed echo (cli_lit (codes "\u{8} \u{8}")) else [],
      record l { text = take (length l.text - 1) l.text },
      d,
    )
    else if ltb (length l.text) (buf_size - 1)
    then ([], record l { text = l.text ++ (byte ∷ []) }, d)
    else ([], record l { cut = true }, d)

c_string-set : (s : List ℕ) (n : ℕ) → n < length s → c_string (set s n 0) ≡ c_string (take n s)
unfolding c_string
c_string-set [] n h = absurd (omega arith)
c_string-set (x ∷ s) zero h = refl
c_string-set (x ∷ s) (suc n) h = rw (c_string-set s n (omega arith))

take_none : (n : ℕ) (s : List ℕ) → n ≡ 0 → take n s ≡ take (n - 1) (take n s)
take_none zero [] h = refl
take_none zero (x ∷ s) h = refl
take_none (suc n) s h = absurd (omega arith)

abbrev pub after_echo : Bool → ℕ → Writes × Line × Device → Writes × Line × Device
after_echo echo byte (ws, l, d) = (echoed echo ((byte ∷ []) ∷ []) ++ ws, l, d)

-- A state of the session as the editor sees it.
abbrev pub seen : Writes × RegCli × Device → Writes × Line × Device
seen (ws, cli, d) = (ws, line_of cli, d)

module _ (c : Libc) (b : Build) (cli : RegCli) (d : Device) (ok : IsCli cli) where
  abbrev l : Line
  l = line_of cli

  length-line : length l.text ≡ cli.pos
  length-line = omega (arith, length-take cli.pos cli.buf, ok.full, ok.room)

  abbrev R : Writes × RegCli × Device → Writes × Line × Device → Type 0
  R x y = seen x ≡ y

  run_line_lem :
      cli.overflow ≡ false
      → R (run_line c b cli d) (
          let (ws, d') = cli_process c b (served_by cli) (c_string l.text) d in
          (echoed cli.echo (cli_lit (codes "\r\n")) ++ ws, empty_line, d'))
  unfolding run_line
  run_line_lem whole =
      let same = c_string-set cli.buf cli.pos (omega (arith, ok.full, ok.room)) in
      let runs = λ (t : Text). cli_process c b (served_by cli) t d in
      λ i. (
        echoed cli.echo (cli_lit (codes "\r\n")) ++ (runs (same i)).0,
        record { text = []; cut = whole i },
        (runs (same i)).1,
      )

  no_line : ltb 0 cli.pos ≡ false → cli.overflow ≡ false → line_of cli ≡ empty_line
  no_line empty whole =
      let start : cli.pos ≡ 0 = ground arith in
      λ i. record { text = take (start i) cli.buf; cut = whole i }

  end_line-spec : R (end_line c b cli d) (spec_end c b (served_by cli) cli.echo l d)
  unfolding end_line spec_end
  end_line-spec =
      if_both R cli.overflow (λ cut. refl)
        λ whole. rw length-line (
          if_both R (ltb 0 cli.pos) (λ some_text. run_line_lem whole)
            λ empty i. ([], no_line empty whole i, d))

  erase_char_lem :
      R
        ((erase_char cli).0, (erase_char cli).1, d)
        (
          if ltb 0 (length l.text) then echoed cli.echo (cli_lit (codes "\u{8} \u{8}")) else [],
          record l { text = take (length l.text - 1) l.text },
          d,
        )
  unfolding erase_char
  erase_char_lem = rw length-line (elim (Bool-cases (ltb 0 cli.pos)) [
    | inl more ↦
        let same = sym (take-take cli.buf (cli.pos - 1) cli.pos (omega arith)) in
        rw more λ i. (
          echoed cli.echo (cli_lit (codes "\u{8} \u{8}")),
          record { text = same i; cut = cli.overflow },
          d,
        )
    | inr start ↦
        let same = take_none cli.pos cli.buf (ground arith) in
        rw start λ i. ([], record { text = same i; cut = cli.overflow }, d)
  ])

  keep_char_lem :
      (byte : ℕ)
      → R
          ([], keep_char cli byte, d)
          (if ltb (length l.text) (buf_size - 1)
            then ([], record l { text = l.text ++ (byte ∷ []) }, d)
            else ([], record l { cut = true }, d))
  unfolding keep_char
  keep_char_lem byte = rw length-line (elim (Bool-cases (ltb cli.pos (buf_size - 1))) [
    | inl fits ↦
        let next : (cli.pos + 1) % 2 ^ 16 ≡ suc cli.pos = ground arith in
        let same = take-set cli.buf cli.pos byte (omega (arith, ok.full, ok.room)) in
        let kept : take ((cli.pos + 1) % 2 ^ 16) (set cli.buf cli.pos byte)
            ≡ take cli.pos cli.buf ++ (byte ∷ []) =
          ap (λ n. take n (set cli.buf cli.pos byte)) next ∙ same in
        rw fits λ i. ([], record { text = kept i; cut = cli.overflow }, d)
    | inr full ↦ rw full refl
  ])

  feed_byte-spec :
      (byte : ℕ) → R (feed_byte c b cli byte d) (spec_feed c b (served_by cli) cli.echo l byte d)
  unfolding feed_byte spec_feed
  feed_byte-spec byte =
      if_both R (byte == b'\n' || byte == b'\r') (λ newline. end_line-spec)
        λ other.
          if_both R (byte == 8 || byte == 0x7F) (λ erase. erase_char_lem) λ char. keep_char_lem byte

  -- From any state of the session in which the buffer is sound, `regcli_feed` writes what the
  -- editor on a plain list writes, leaves the device that it leaves, and holds the line that it
  -- goes to.
  pub regcli_feed-spec_feed :
      (byte : ℕ)
      → seen (regcli_feed c b cli byte d)
        ≡ after_echo cli.echo byte (spec_feed c b (served_by cli) cli.echo (line_of cli) byte d)
  unfolding regcli_feed
  regcli_feed-spec_feed byte = ap (after_echo cli.echo byte) (feed_byte-spec byte)

  abbrev Same : RegCli → Type 0
  Same cli' = (served_by cli' ≡ served_by cli) × (cli'.echo ≡ cli.echo)

  -- The settings of the session stay.
  pub regcli_feed-settings : (byte : ℕ) → Same (regcli_feed c b cli byte d).1
  unfolding regcli_feed feed_byte end_line run_line erase_char keep_char
  regcli_feed-settings byte = ground arith
