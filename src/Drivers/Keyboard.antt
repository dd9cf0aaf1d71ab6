-- ===== src/Drivers/Keyboard.antt =====
-- drivers/keyboard.c: from scancodes to characters to a line. The keyboard is the list of the
-- scancodes that it will deliver; `none` is a driver still waiting at the end of the list.

pub mod Line
pub mod Rest
use ephemeral_os.Drivers.Screen.{Screen, screen_print_char, screen_backspace}
use ephemeral_os.Base.{
  ℕ, ◌+◌, ◌-◌, ◌*◌, ◌/◌, ◌%◌, ◌^◌, ◌<◌, Bool, true, false, not, ◌&&◌, ◌||◌, Option, none, some,
  List, [], ◌∷◌, ◌++◌, Bytes, codes, ltb, leb, ◌==◌, if◌then◌else◌, length, get_or, take,
}

abbrev pub scancode_to_ascii : Bytes
scancode_to_ascii =
    0 ∷ 0 ∷ codes "1234567890-="
    ++ 8 ∷ 9 ∷ codes "qwertyuiop[]"
    ++ 10 ∷ 0 ∷ codes "asdfghjkl;"
    ++ 39 ∷ 96 ∷ 0 ∷ 92 ∷ codes "zxcvbnm,./"
    ++ 0 ∷ codes "*"
    ++ 0 ∷ codes " "

abbrev pub scancode_to_ascii_shift : Bytes
scancode_to_ascii_shift =
    0 ∷ 0 ∷ codes "!@#$%^&*()_+"
    ++ 8 ∷ 9 ∷ codes "QWERTYUIOP{}"
    ++ 10 ∷ 0 ∷ codes "ASDFGHJKL:"
    ++ 34 ∷ 126 ∷ 0 ∷ 124 ∷ codes "ZXCVBNM<>?"
    ++ 0 ∷ codes "*"
    ++ 0 ∷ codes " "

abbrev pub table : Bool → Bytes
table shift = if shift then scancode_to_ascii_shift else scancode_to_ascii

-- One round of the loop of `keyboard_getchar`: `shift_pressed`, and the character if there is one.
unfoldable pub scancode_step : Bool → ℕ → Bool × Option ℕ
scancode_step shift scancode =
    let c = get_or (table shift) scancode 0 in
    if scancode == 0x2a || scancode == 0x36
    then (true, none)
    else if scancode == 0xaa || scancode == 0xb6
    then (false, none)
    else if leb 128 scancode
    then (shift, none)
    else if ltb scancode 58 && not (c == 0)
    then (shift, some c)
    else (shift, none)

-- `keyboard_getchar`: the character, `shift_pressed`, and the scancodes that are left.
unfoldable pub keyboard_getchar : Bool → List ℕ → Option (ℕ × Bool × List ℕ)
unfolding scancode_step
keyboard_getchar shift [] = none
keyboard_getchar shift (scancode ∷ rest) =
    let (shift', o) = scancode_step shift scancode in
    elim o [ none ↦ keyboard_getchar shift' rest | some c ↦ some (c, shift', rest) ]

-- The line that is being typed: `buffer` up to `index`, and the screen that shows it.
pub record Typed : Type 0 where
  pub buffer : Bytes
  pub screen : Screen

-- One character that does not end the line; `echo` is what the screen shows for it, the character
-- itself or, for a password, a star.
unfoldable pub type_char : (ℕ → ℕ) → ℕ → Typed → ℕ → Typed
type_char echo max_length t c =
    if c == 8
    then (if ltb 0 (length t.buffer)
        then record {
          buffer = take (length t.buffer - 1) t.buffer;
          screen = screen_backspace t.screen;
        }
        else t)
    else if ltb (length t.buffer + 1) max_length && (leb 32 c && leb c 126)
    then record { buffer = t.buffer ++ c ∷ []; screen = screen_print_char t.screen (echo c) }
    else t

-- `keyboard_getline`, and `keyboard_getline_password` of kernel/kernel.c with its star: the loop over
-- the characters that `keyboard_getchar` returns, a scancode at a time.
unfoldable pub getline : (ℕ → ℕ) → ℕ → Bool → Typed → List ℕ → Option (Typed × Bool × List ℕ)
getline echo max_length shift t [] = none
getline echo max_length shift t (scancode ∷ rest) =
    let (shift', o) = scancode_step shift scancode in
    elim o [
      | none ↦ getline echo max_length shift' t rest
      | some c ↦
          let more = getline echo max_length shift' (type_char echo max_length t c) rest in
          if c == b'\n'
          then some (record t { screen = screen_print_char t.screen b'\n' }, shift', rest)
          else more
    ]

unfoldable pub keyboard_getline : ℕ → Bool → Screen → List ℕ → Option (Typed × Bool × List ℕ)
keyboard_getline max_length shift s =
    getline (λ c. c) max_length shift (record { buffer = []; screen = s })

unfoldable pub keyboard_getline_password :
    ℕ → Bool → Screen → List ℕ → Option (Typed × Bool × List ℕ)
keyboard_getline_password max_length shift s =
    getline (λ c. b'*') max_length shift (record { buffer = []; screen = s })
