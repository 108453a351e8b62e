-- ===== src/Cli/Feed/Access.antt =====
-- The accesses of `regcli_feed` of src/regtable_cli.c.
use regtable.Prelude.{ℕ, ◌-◌, ◌≡◌, refl, ◌||◌, ltb, ◌==◌, if_cases, set}
use regtable.Core.Types.{Device}
use regtable.Core.Access.{Accesses, start}
use regtable.Core.Text.{Libc}
use regtable.Core.Text.Access.{IsLibc}
use regtable.Core.Format.{Build}
use regtable.Cli.Output.{Writes}
use regtable.Cli.Process.Access.{cli_process-Accesses}
use regtable.Cli.Feed.{
  RegCli, buf_size, c_string, run_line, end_line, erase_char, keep_char, feed_byte, regcli_feed,
}

module _ (c : Libc) (b : Build) (ok : IsLibc c) (cli : RegCli) (d : Device) where
  -- The session is at its table, and the device is reached by accesses.
  pub record Bound (o : Writes × RegCli × Device) : Type 0 where
    pub same : o.1.table ≡ cli.table
    pub reached : Accesses cli.table d o.2

  run_line-Bound : Bound (run_line c b cli d)
  unfolding run_line
  run_line-Bound = record {
    same = refl;
    reached =
        cli_process-Accesses c b (record { table = cli.table; identity = cli.identity }) ok
          (c_string (set cli.buf cli.pos 0)) d;
  }

  end_line-Bound : Bound (end_line c b cli d)
  unfolding end_line
  end_line-Bound =
      if_cases Bound cli.overflow _ _ (λ long. record { same = refl; reached = start })
        λ fits.
          if_cases Bound (ltb 0 cli.pos) _ _ (λ typed. run_line-Bound)
            (λ blank. record { same = refl; reached = start })

  erase_char-table : (erase_char cli).1.table ≡ cli.table
  unfolding erase_char
  erase_char-table =
      if_cases (λ (o : Writes × RegCli). o.1.table ≡ cli.table) (ltb 0 cli.pos) _ _ (λ e. refl)
        (λ e. refl)

  keep_char-table : (byte : ℕ) → (keep_char cli byte).table ≡ cli.table
  unfolding keep_char
  keep_char-table byte =
      if_cases (λ (o : RegCli). o.table ≡ cli.table) (ltb cli.pos (buf_size - 1)) _ _ (λ e. refl)
        (λ e. refl)

  feed_byte-Bound : (byte : ℕ) → Bound (feed_byte c b cli byte d)
  unfolding feed_byte
  feed_byte-Bound byte =
      if_cases Bound (byte == b'\n' || byte == b'\r') _ _ (λ end. end_line-Bound)
        λ other.
          if_cases Bound (byte == 8 || byte == 0x7F) _ _
            (λ erase. record { same = erase_char-table; reached = start })
            (λ keep. record { same = keep_char-table byte; reached = start })

  pub regcli_feed-Bound : (byte : ℕ) → Bound (regcli_feed c b cli byte d)
  unfolding regcli_feed
  regcli_feed-Bound byte =
      let fed = feed_byte-Bound byte in record { same = fed.same; reached = fed.reached }
