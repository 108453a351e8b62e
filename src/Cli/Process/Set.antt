-- ===== src/Cli/Process/Set.antt =====
-- The command `set`, from the bytes on the line to the register.
use regtable.Prelude.{◌<◌, ◌≤◌, ◌≡◌, ◌∙◌, ap, refl, Bool, false, codes}
use regtable.Prelude.{some, List, [], ◌∷◌, ◌++◌, length}
use regtable.Core.Types.{Text, Device, EntryRef}
use regtable.Core.Table.{str_eq, reg_find}
use regtable.Core.Text.{Libc, reg_set_str}
use regtable.Core.Format.{Build}
use regtable.Cli.Output.{Writes, sent}
use regtable.Cli.Process.Answer.{answer_text, sent-cli_result}
use regtable.Cli.Split.Laws.{
  AllBlank, AreWords, laid_out, words_of, plain_words, has_flag, described, cli_split-laid_out,
}
use regtable.Cli.Commands.{cli_result, cmd_set}
use regtable.Cli.Process.{Served, find_row, cmds, run_row, run_split, run_command, cli_process}
use regtable.Cli.Feed.{buf_size, RegCli}
use regtable.Cli.Feed.Refine.{line_of, empty_line, seen}
use regtable.Cli.Feed.Typing.{AllChars}
use regtable.Cli.Feed.Lines.{feed_all, IsQuiet, feed_all-cli_process}

module _ (c : Libc) (b : Build) (s : Served) where
  -- The line is run by its words.
  pub cli_process-words :
      (lead : Text) (ps : List (Text × Text)) (d : Device)
      → AllBlank lead
      → AreWords ps
      → cli_process c b s (lead ++ laid_out ps) d ≡ run_split c b s (described (words_of ps)) d
  unfolding cli_process
  cli_process-words lead ps d blank words =
      ap (λ l. run_split c b s l d) (cli_split-laid_out lead ps blank words)

  described_three :
      (ws : List Text) (x y z : Text)
      → plain_words ws ≡ x ∷ y ∷ z ∷ []
      → described ws ≡ record { argv = x ∷ y ∷ z ∷ []; too_many = false; json = has_flag ws }
  unfolding described
  described_three ws x y z h = rw h

  run_split-set :
      (name value : Text) (json : Bool) (d : Device)
      → run_split c b s
          (record { argv = codes "set" ∷ name ∷ value ∷ []; too_many = false; json = json })
          d
        ≡ cmd_set c s.table name value json d
  unfolding run_split find_row cmds run_row run_command str_eq codes
  run_split-set name value json d = refl

  -- A line whose words but the flag are `set`, a name and a value writes that value to the entry
  -- of that name, by `reg_set_str`, and answers with the result, in the format that the flag asks.
  pub cli_process-set :
      (lead : Text) (ps : List (Text × Text)) (name value : Text) (r : EntryRef) (d : Device)
      → AllBlank lead
      → AreWords ps
      → plain_words (words_of ps) ≡ codes "set" ∷ name ∷ value ∷ []
      → reg_find s.table name ≡ some r
      → let (res, d') = reg_set_str c (some s.table) r value d in
        cli_process c b s (lead ++ laid_out ps) d ≡ (cli_result res (has_flag (words_of ps)), d')
  unfolding cmd_set
  cli_process-set lead ps name value r d blank words three found =
      cli_process-words lead ps d blank words
      ∙ ap (λ l. run_split c b s l d) (described_three (words_of ps) (codes "set") name value three)
      ∙ run_split-set name value (has_flag (words_of ps)) d
      ∙ rw found

  -- A line of 1 to 127 bytes, none of them a control byte of the editor or NUL, whose words but
  -- the flag are `set`, a name that the table has, and a value, is typed into a session with
  -- nothing typed yet and no echo, and ended. Then `reg_set_str` has written the value to the entry
  -- of that name, the text of its result is sent as a line, or as JSON if the flag was given, and
  -- nothing is left typed.
  pub feed_all-set :
      (cli : RegCli) (lead : Text) (ps : List (Text × Text)) (name value : Text) (r : EntryRef)
      (d : Device)
      → IsQuiet c b s cli
      → line_of cli ≡ empty_line
      → AllChars (lead ++ laid_out ps)
      → 1 ≤ length (lead ++ laid_out ps)
      → length (lead ++ laid_out ps) < buf_size
      → AllBlank lead
      → AreWords ps
      → plain_words (words_of ps) ≡ codes "set" ∷ name ∷ value ∷ []
      → reg_find s.table name ≡ some r
      → let (res, d') = reg_set_str c (some s.table) r value d in
        let (out, line, after) =
          seen (feed_all c b cli ((lead ++ laid_out ps) ++ (b'\n' ∷ [])) d) in
        (sent out ≡ answer_text (has_flag (words_of ps)) res) × (line ≡ empty_line) × (after ≡ d')
  feed_all-set cli lead ps name value r d q fresh chars long short blank words three found =
      let (res, d') = reg_set_str c (some s.table) r value d in
      let all =
        feed_all-cli_process c b s cli (lead ++ laid_out ps) d q fresh chars long short
        ∙ ap (λ (o : Writes × Device). (o.0, empty_line, o.1))
            (cli_process-set lead ps name value r d blank words three found) in
      (
        ap (λ o. sent o.0) all ∙ sent-cli_result res (has_flag (words_of ps)),
        ap (λ o. o.1) all,
        ap (λ o. o.2) all,
      )
