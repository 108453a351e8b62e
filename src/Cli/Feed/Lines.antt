-- ===== src/Cli/Feed/Lines.antt =====
-- Whole lines, byte by byte, into a session that does not echo.
use regtable.Prelude.{ℕ, ◌-◌, ◌<◌, ◌≤◌, ◌≡◌, ◌∙◌, sym, ap, refl, arith, inl, inr}
use regtable.Prelude.{Bool, true, false, ltb, Bool-cases}
use regtable.Prelude.{[], ◌∷◌, ◌++◌, length}
use mathlib.Core.List.{append-nil, append_assoc}
use regtable.Core.Types.{Text, Device}
use regtable.Core.Text.{Libc}
use regtable.Core.Format.{Build}
use regtable.Cli.Output.{Writes}
use regtable.Cli.Process.{Served, cli_process}
use regtable.Cli.Feed.{buf_size, RegCli, c_string, regcli_feed}
use regtable.Cli.Feed.Editor.{IsCli, regcli_feed-IsCli}
use regtable.Cli.Feed.Refine.{
  Line, line_of, served_by, empty_line, spec_end, spec_feed, seen, after_echo,
  regcli_feed-spec_feed, regcli_feed-settings,
}
use regtable.Cli.Feed.Typing.{IsChar, AllChars, push, push_all, push_all-fits, c_string-chars}

module _ (c : Libc) (b : Build) where
  -- The bytes of a text, one after the other.
  pub feed_all : RegCli → Text → Device → Writes × RegCli × Device
  feed_all cli [] d = ([], cli, d)
  feed_all cli (x ∷ s) d =
      let (ws, cli', d') = regcli_feed c b cli x d in
      let (rest, cli'', d'') = feed_all cli' s d' in (ws ++ rest, cli'', d'')

  -- A session that answers, but does not echo.
  pub record IsQuiet (s : Served) (cli : RegCli) : Type 0 where
    pub ok : IsCli cli
    pub quiet : cli.echo ≡ false
    pub same : served_by cli ≡ s

  fed-IsQuiet :
      (s : Served) (cli : RegCli) (x : ℕ) (d : Device)
      → IsQuiet s cli
      → IsQuiet s (regcli_feed c b cli x d).1
  fed-IsQuiet s cli x d q = record {
    ok = regcli_feed-IsCli c b cli x d q.ok;
    quiet = (regcli_feed-settings c b cli d q.ok x).1 ∙ q.quiet;
    same = (regcli_feed-settings c b cli d q.ok x).0 ∙ q.same;
  }

  fed_char :
      (s : Served) (cli : RegCli) (x : ℕ) (d : Device)
      → IsQuiet s cli
      → IsChar x
      → seen (regcli_feed c b cli x d) ≡ ([], push (line_of cli) x, d)
  unfolding spec_feed
  fed_char s cli x d q h =
      regcli_feed-spec_feed c b cli d q.ok x
      ∙ rw (q.quiet, h.0, h.1)
          (elim (Bool-cases (ltb (length (line_of cli).text) (buf_size - 1))) [
            | inl fits ↦ rw fits
            | inr full ↦ rw full
          ])

  newline_spec :
      (s : Served) (echo : Bool) (l : Line) (d : Device)
      → echo ≡ false
      → after_echo echo b'\n' (spec_feed c b s echo l b'\n' d) ≡ spec_end c b s false l d
  unfolding spec_feed
  newline_spec s echo l d e = rw e

  fed_newline :
      (s : Served) (cli : RegCli) (d : Device)
      → IsQuiet s cli
      → seen (regcli_feed c b cli b'\n' d) ≡ spec_end c b s false (line_of cli) d
  unfolding spec_feed
  fed_newline s cli d q =
      regcli_feed-spec_feed c b cli d q.ok b'\n'
      ∙ ap (λ t. after_echo cli.echo b'\n' (spec_feed c b t cli.echo (line_of cli) b'\n' d)) q.same
      ∙ newline_spec s cli.echo (line_of cli) d q.quiet

  -- What a text that is typed does.
  record Typed (s : Served) (cli : RegCli) (text : Text) (d : Device) (r : Writes × RegCli × Device)
      : Type 0 where
    silent : r.0 ≡ []
    quiet : IsQuiet s r.1
    line : line_of r.1 ≡ push_all (line_of cli) text
    device : r.2 ≡ d

  feed_all-Typed :
      (s : Served) (cli : RegCli) (text : Text) (d : Device)
      → IsQuiet s cli
      → AllChars text
      → Typed s cli text d (feed_all cli text d)
  unfolding feed_all push_all
  feed_all-Typed s cli [] d q h = record { silent = refl; quiet = q; line = refl; device = refl }
  feed_all-Typed s cli (x ∷ text) d q h =
      let (ws, cli', d') = regcli_feed c b cli x d in
      let fed = fed_char s cli x d q h.0 in
      let rest = feed_all-Typed s cli' text d' (fed-IsQuiet s cli x d q) h.1 in
      record {
        silent = ap (λ l. l ++ (feed_all cli' text d').0) (ap (λ r. r.0) fed) ∙ rest.silent;
        quiet = rest.quiet;
        line = rest.line ∙ ap (λ l. push_all l text) (ap (λ r. r.1) fed);
        device = rest.device ∙ ap (λ r. r.2) fed;
      }

  feed_all-append :
      (cli : RegCli) (s s' : Text) (d : Device)
      → let (ws, cli', d') = feed_all cli s d in
        let (ws', cli'', d'') = feed_all cli' s' d' in
        feed_all cli (s ++ s') d ≡ (ws ++ ws', cli'', d'')
  unfolding feed_all
  feed_all-append cli [] s' d = refl
  feed_all-append cli (x ∷ s) s' d =
      let (ws, cli', d') = regcli_feed c b cli x d in
      let (front, cli1, d1) = feed_all cli' s d' in
      let (back, cli2, d2) = feed_all cli1 s' d1 in
      let same = sym (append_assoc ws front back) in
      ap (λ (r : Writes × RegCli × Device). (ws ++ r.0, r.1, r.2)) (feed_all-append cli' s s' d')
      ∙ λ i. (same i, cli2, d2)

  typed_line :
      (s : Served) (cli : RegCli) (text : Text) (d : Device)
      → IsQuiet s cli
      → AllChars text
      → seen (feed_all cli (text ++ (b'\n' ∷ [])) d)
        ≡ spec_end c b s false (push_all (line_of cli) text) d
  unfolding feed_all
  typed_line s cli text d q h =
      let r = feed_all cli text d in
      let n = regcli_feed c b r.1 b'\n' r.2 in
      let typed = feed_all-Typed s cli text d q h in
      let nothing = append-nil n.0 in
      ap seen (feed_all-append cli text (b'\n' ∷ []) d)
      ∙ (λ i. (typed.silent i ++ nothing i, line_of n.1, n.2))
      ∙ fed_newline s r.1 r.2 typed.quiet
      ∙ λ i. spec_end c b s false (typed.line i) (typed.device i)

  spec_end_runs :
      (s : Served) (text : Text) (d : Device)
      → 1 ≤ length text
      → spec_end c b s false (record { text = text; cut = false }) d
        ≡ (let (ws, d') = cli_process c b s (c_string text) d in (ws, empty_line, d'))
  unfolding spec_end
  spec_end_runs s text d long = let more : ltb 0 (length text) ≡ true = ground arith in rw more

  -- A line of 1 to 127 bytes, none of them a control byte of the editor or NUL, that is typed into
  -- a session with nothing typed yet and no echo, does what `cli_process` does with it, and leaves
  -- nothing typed.
  pub feed_all-cli_process :
      (s : Served) (cli : RegCli) (text : Text) (d : Device)
      → IsQuiet s cli
      → line_of cli ≡ empty_line
      → AllChars text
      → 1 ≤ length text
      → length text < buf_size
      → seen (feed_all cli (text ++ (b'\n' ∷ [])) d)
        ≡ (let (ws, d') = cli_process c b s text d in (ws, empty_line, d'))
  feed_all-cli_process s cli text d q fresh h long short =
      typed_line s cli text d q h
      ∙ ap (λ l. spec_end c b s false l d)
          (ap (λ l. push_all l text) fresh ∙ push_all-fits [] text false (omega arith))
      ∙ spec_end_runs s text d long
      ∙ ap (λ t. let (ws, d') = cli_process c b s t d in (ws, empty_line, d'))
          (c_string-chars text h)
