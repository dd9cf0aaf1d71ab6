-- ===== src/Shell/Parse/Words.antt =====
-- shell/shell.c: what arguments `parse_command` makes.
use ephemeral_os.Base.{
  ◌+◌, ◌≤◌, ◌<◌, ◌≡◌, refl, ◌∙◌, ◌≢◌, Bool, false, not, List, [], ◌∷◌, ◌++◌, append-nil,
  append_assoc, arith, Bytes, All, length, length-append,
}
use ephemeral_os.Shell.Parse.{finish, parse_from, parse_command}

-- An argument as `argv_buffer` can hold it.
abbrev pub IsArgument : Bytes → Type 0
IsArgument a = (1 ≤ length a) × (length a ≤ 63)

record Fits (argv : List Bytes) : Type 0 where
  short : length argv ≤ 20
  arguments : All IsArgument argv

All-snoc :
    (argv : List Bytes) (a : Bytes)
    → All IsArgument argv
    → IsArgument a
    → All IsArgument (argv ++ a ∷ [])
All-snoc [] a h k = (k, tt)
All-snoc (x ∷ argv) a h k = (h.0, All-snoc argv a h.1 k)

Fits-snoc :
    (argv : List Bytes) (buf : Bytes)
    → length argv < 20
    → 0 < length buf
    → length buf ≤ 63
    → Fits argv
    → Fits (argv ++ buf ∷ [])
Fits-snoc argv buf l p q w = record {
  short = omega (arith, length-append argv (buf ∷ []));
  arguments = All-snoc argv buf w.arguments (omega arith, q);
}

finish-Fits :
    (argv : List Bytes) (buf : Bytes) → length buf ≤ 63 → Fits argv → Fits (finish argv buf)
unfolding finish
finish-Fits argv buf q w = ground (arith, w, Fits-snoc argv buf)

parse_from-Fits :
    (cs : Bytes) (argv : List Bytes) (in_quotes : Bool) (buf : Bytes)
    → length buf ≤ 63
    → Fits argv
    → Fits (parse_from argv in_quotes buf cs)
unfolding parse_from
parse_from-Fits [] argv in_quotes buf q w = finish-Fits argv buf q w
parse_from-Fits (c ∷ cs) argv in_quotes buf q w = ground (
  arith,
  w,
  finish-Fits argv buf q w,
  Fits-snoc argv buf,
  parse_from-Fits cs argv (not in_quotes) buf q w,
  parse_from-Fits cs argv in_quotes buf q w,
  parse_from-Fits cs (argv ++ buf ∷ []) in_quotes [],
  parse_from-Fits cs argv in_quotes (buf ++ c ∷ []),
  length-append buf (c ∷ []),
)

-- Whatever the line, `parse_command` makes at most 20 arguments, each of 1 to 63 bytes.
pub parse_command_bounds :
    (input : Bytes) → (length (parse_command input) ≤ 20) × All IsArgument (parse_command input)
unfolding parse_command
parse_command_bounds input =
    let w : Fits (parse_from [] false [] input) =
      parse_from-Fits input [] false [] (omega arith)
        (record { short = omega arith; arguments = tt }) in
    (w.short, w.arguments)

-- A word of a line: no quote, no blank.
abbrev pub IsWord : Bytes → Type 0
IsWord w = IsArgument w × All (λ c. (c ≢ b'"') × (c ≢ b' ') × (c ≢ 9)) w

-- The words with one space before each, and the line that they make.
unfoldable pub spaced : List Bytes → Bytes
spaced [] = []
spaced (w ∷ ws) = b' ' ∷ w ++ spaced ws

unfoldable pub line_of_words : List Bytes → Bytes
line_of_words [] = []
line_of_words (w ∷ ws) = w ++ spaced ws

-- Inside an argument.
parse_from-word :
    (w : Bytes) (argv : List Bytes) (buf rest : Bytes)
    → length argv < 20
    → length buf + length w ≤ 63
    → All (λ c. (c ≢ b'"') × (c ≢ b' ') × (c ≢ 9)) w
    → parse_from argv false buf (w ++ rest) ≡ parse_from argv false (buf ++ w) rest
unfolding parse_from
parse_from-word [] argv buf rest l k h = rw (append-nil buf)
parse_from-word (c ∷ w) argv buf rest l k h = ground (
  arith,
  parse_from-word w argv (buf ++ c ∷ []) rest l,
  length-append buf (c ∷ []),
  append_assoc buf (c ∷ []) w,
)

parse_from-spaced :
    (ws : List Bytes) (argv : List Bytes) (w : Bytes)
    → length argv + length ws < 20
    → IsArgument w
    → All IsWord ws
    → parse_from argv false w (spaced ws) ≡ argv ++ w ∷ ws
unfolding parse_from spaced finish
parse_from-spaced [] argv w l h hs = ground arith
parse_from-spaced (v ∷ ws) argv w l h hs =
    blank
    ∙ parse_from-word v (argv ++ w ∷ []) [] (spaced ws) (omega (arith, length-append argv (w ∷ [])))
        (omega (arith, hs.0.0.1)) hs.0.1
    ∙ parse_from-spaced ws (argv ++ w ∷ []) v (omega (arith, length-append argv (w ∷ []))) hs.0.0
        hs.1
    ∙ append_assoc argv (w ∷ []) (v ∷ ws)
  where
    blank :
        parse_from argv false w (b' ' ∷ v ++ spaced ws)
        ≡ parse_from (argv ++ w ∷ []) false [] (v ++ spaced ws)
    blank = ground arith

-- A line of at most 20 words of 1 to 63 bytes, without quotes or tabs, and with one space between one
-- and the next, is cut into exactly these words.
pub parse_command-line_of_words :
    (ws : List Bytes) → length ws ≤ 20 → All IsWord ws → parse_command (line_of_words ws) ≡ ws
unfolding parse_command line_of_words finish parse_from
parse_command-line_of_words [] l h = refl
parse_command-line_of_words (w ∷ ws) l h =
    parse_from-word w [] [] (spaced ws) (omega arith) (omega (arith, h.0.0.1)) h.0.1
    ∙ parse_from-spaced ws [] w (omega arith) h.0.0 h.1
