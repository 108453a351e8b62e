-- ===== src/Cli/Split.antt =====
-- `cli_split` of src/regtable_cli.c.
pub mod Laws
use regtable.Prelude.{ℕ, Bool, true, false, not, ◌||◌, ◌&&◌, ◌==◌, if◌then◌else◌, codes}
use regtable.Prelude.{List, [], ◌∷◌, ◌++◌, length}
use regtable.Core.Types.{Text}
use regtable.Core.Table.{str_eq}
use regtable.Cli.Output.{is_empty}

-- REGTABLE_CLI_MAX_ARGS
abbrev pub max_args : ℕ
max_args = 4

abbrev pub is_blank : ℕ → Bool
is_blank c = c == b' ' || c == b'\t'

-- What one token of the line does.
pub record Split : Type 0 where
  pub argv : List Text
  pub too_many : Bool
  pub json : Bool

abbrev pub json_flag : Text
json_flag = b'-' ∷ b'-' ∷ b'j' ∷ b's' ∷ b'o' ∷ b'n' ∷ []

pub take_token : Text → Split → Split
take_token tok s =
    if str_eq tok json_flag
    then record s { json = true }
    else if length s.argv == max_args
    then record s { too_many = true }
    else record s { argv = s.argv ++ (tok ∷ []) }

-- The token ends here; where there is none, a blank was skipped.
pub end_token : Text → Split → Split
unfolding take_token
end_token tok s = if is_empty tok then s else take_token tok s

-- The loop over the line, with the token that is being read.
pub split_from : Text → Text → Split → Split
unfolding end_token
split_from [] tok s = end_token tok s
split_from (c ∷ line) tok s =
    let blank = is_blank c in
    split_from line (if blank then [] else tok ++ (c ∷ [])) (if blank then end_token tok s else s)

unfoldable pub cli_split : Text → Split
unfolding split_from
cli_split line = split_from line [] (record { argv = []; too_many = false; json = false })

-- What the split leaves of the line: a NUL in the place of the blank behind each token.
unfoldable pub cut_line : Text → Bool → Text
cut_line [] in_token = []
cut_line (c ∷ line) in_token =
    let blank = is_blank c in (if blank && in_token then 0 else c) ∷ cut_line line (not blank)
