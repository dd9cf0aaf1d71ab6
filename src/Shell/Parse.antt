-- ===== src/Shell/Parse.antt =====
-- shell/shell.c: `parse_command` cuts a line into arguments.
pub mod Words
use ephemeral_os.Base.{
  ℕ, ◌+◌, ◌-◌, Bool, false, not, ◌&&◌, ◌||◌, List, [], ◌∷◌, ◌++◌, Bytes, ltb, ◌==◌, if◌then◌else◌,
  length,
}

abbrev pub max_args : ℕ
max_args = 20

abbrev pub max_arg_len : ℕ
max_arg_len = 64

-- The last lines: the argument that the end of the line ends.
unfoldable pub finish : List Bytes → Bytes → List Bytes
finish argv buf =
    if ltb 0 (length buf) && ltb (length argv) max_args then argv ++ buf ∷ [] else argv

-- The loop, with `argv`, `in_quotes` and the argument in `argv_buffer[argc]` so far.
unfoldable pub parse_from : List Bytes → Bool → Bytes → Bytes → List Bytes
unfolding finish
parse_from argv in_quotes buf [] = finish argv buf
parse_from argv in_quotes buf (c ∷ cs) =
    let begun = ltb 0 (length buf) in
    let quote = parse_from argv (not in_quotes) buf cs in
    let blank =
      parse_from (if begun then argv ++ buf ∷ [] else argv) in_quotes (if begun then [] else buf)
        cs in
    let more =
      parse_from argv in_quotes (if ltb (length buf) (max_arg_len - 1) then buf ++ c ∷ [] else buf)
        cs in
    if not (ltb (length argv) max_args)
    then finish argv buf
    else if c == b'"'
    then quote
    else if (c == b' ' || c == 9) && not in_quotes
    then blank
    else more

unfoldable pub parse_command : Bytes → List Bytes
unfolding parse_from
parse_command input = parse_from [] false [] input
