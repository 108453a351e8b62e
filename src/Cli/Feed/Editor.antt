-- ===== src/Cli/Feed/Editor.antt =====
-- The buffer of the line editor, and its bounds.
use regtable.Prelude.{ℕ, suc, ◌-◌, ◌<◌, ◌≤◌, ◌≡◌, ◌∙◌, ap, refl, arith}
use regtable.Prelude.{Bool, false, not, ◌||◌, ltb, ◌==◌, if_cases}
use regtable.Prelude.{List, [], ◌∷◌, length, drop, set, length-set, length-append, length-drop}
use regtable.Core.Types.{Text, Device}
use regtable.Core.Text.{Libc}
use regtable.Core.Format.{Build}
use regtable.Cli.Output.{Writes}
use regtable.Cli.Split.{cut_line, is_blank}
use regtable.Cli.Feed.{
  buf_size, RegCli, c_string, run_line, end_line, erase_char, keep_char, feed_byte, regcli_feed,
}

-- The buffer is an array of `buf_size` bytes, in which the line and a NUL fit.
pub record IsCli (cli : RegCli) : Type 0 where
  pub full : length cli.buf ≡ buf_size
  pub room : cli.pos < buf_size

length-cut_line : (s : Text) (in_token : Bool) → length (cut_line s in_token) ≡ length s
unfolding cut_line
length-cut_line [] in_token = refl
length-cut_line (c ∷ s) in_token = ap suc (length-cut_line s (not (is_blank c)))

length-c_string : (s : List ℕ) → length (c_string s) ≤ length s
unfolding c_string
length-c_string [] = omega arith
length-c_string (c ∷ s) = ground (arith, length-c_string s)

module _ (c : Libc) (b : Build) where
  run_line-IsCli : (cli : RegCli) (d : Device) → IsCli cli → IsCli (run_line c b cli d).1
  unfolding run_line
  run_line-IsCli cli d ok = record {
    full =
        let buf = set cli.buf cli.pos 0 in
        omega (
          arith,
          ok.full,
          length-set cli.buf cli.pos 0,
          length-c_string buf,
          length-cut_line (c_string buf) false,
          length-append (cut_line (c_string buf) false) (drop (length (c_string buf)) buf),
          length-drop (length (c_string buf)) buf,
        );
    room = omega arith;
  }

  end_line-IsCli : (cli : RegCli) (d : Device) → IsCli cli → IsCli (end_line c b cli d).1
  unfolding end_line
  end_line-IsCli cli d ok =
      if_cases (λ (r : Writes × RegCli × Device). IsCli r.1) cli.overflow _ _
        (λ cut. record { full = ok.full; room = omega arith })
        λ whole.
          if_cases (λ (r : Writes × RegCli × Device). IsCli r.1) (ltb 0 cli.pos) _ _
            (λ some_text. run_line-IsCli cli d ok) (λ no_text. ok)

  erase_char-IsCli : (cli : RegCli) → IsCli cli → IsCli (erase_char cli).1
  unfolding erase_char
  erase_char-IsCli cli ok =
      if_cases (λ (r : Writes × RegCli). IsCli r.1) (ltb 0 cli.pos) _ _
        (λ some_text. record { full = ok.full; room = omega (arith, ok.room) }) (λ no_text. ok)

  keep_char-IsCli : (cli : RegCli) (byte : ℕ) → IsCli cli → IsCli (keep_char cli byte)
  unfolding keep_char
  keep_char-IsCli cli byte ok =
      if_cases IsCli (ltb cli.pos (buf_size - 1)) _ _
        (λ fits. record { full = length-set cli.buf cli.pos byte ∙ ok.full; room = ground arith })
        (λ full. record { full = ok.full; room = ok.room })

  -- Whatever byte is fed, the line stays within the buffer, with room for the NUL.
  pub regcli_feed-IsCli :
      (cli : RegCli) (byte : ℕ) (d : Device) → IsCli cli → IsCli (regcli_feed c b cli byte d).1
  unfolding regcli_feed feed_byte
  regcli_feed-IsCli cli byte d ok =
      if_cases (λ (r : Writes × RegCli × Device). IsCli r.1) (byte == b'\n' || byte == b'\r') _ _
        (λ newline. end_line-IsCli cli d ok)
        λ other.
          if_cases (λ (r : Writes × RegCli × Device). IsCli r.1) (byte == 8 || byte == 0x7F) _ _
            (λ erase. erase_char-IsCli cli ok) (λ char. keep_char-IsCli cli byte ok)
