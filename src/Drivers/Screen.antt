-- ===== src/Drivers/Screen.antt =====
-- drivers/screen.c: the text screen. `video` is the memory at 0xB8000, a word to a cell; `high` and
-- `low` are the cursor registers of the video controller.
pub mod Inv
use ephemeral_os.Base.{
  ℕ, zero, suc, ◌+◌, ◌-◌, ◌*◌, ◌/◌, ◌%◌, bit_or, List, [], ◌∷◌, Bytes, ltb, leb, ◌==◌,
  if◌then◌else◌, set, ℤ, pos, negsuc,
}
use ephemeral_os.Text.{copy_up}

abbrev pub width : ℕ
width = 80

abbrev pub height : ℕ
height = 25

pub record Screen : Type 0 where
  pub cursor_x : ℕ
  pub cursor_y : ℕ
  pub foreground : ℕ
  pub background : ℕ
  pub video : List ℕ
  pub high : ℕ
  pub low : ℕ

abbrev pub position : Screen → ℕ
position s = s.cursor_y * width + s.cursor_x

unfoldable pub update_cursor : Screen → Screen
update_cursor s = record s { high = position s / 256 % 256; low = position s % 256 }

-- The word of a character in the current colours. `char` is signed, so a byte above 127 brings ones
-- above it.
unfoldable pub cell : Screen → ℕ → ℕ
cell s c =
    bit_or (bit_or (s.background * 4096 % 65536) (s.foreground * 256 % 65536))
      (if ltb c 128 then c else c + 0xff00)

-- `for (i = i; i < i + n; i++) video[i] = word`
unfoldable pub fill : List ℕ → ℕ → ℕ → ℕ → List ℕ
fill video i zero word = video
fill video i (suc n) word = fill (set video i word) (i + 1) n word

unfoldable pub scroll_down : Screen → Screen
scroll_down s = update_cursor (record s {
  video =
      fill (copy_up s.video 0 width (width * (height - 1))) (width * (height - 1)) width
        (cell s b' ');
  cursor_y = height - 1;
  cursor_x = 0;
})

unfoldable pub screen_init : Screen → Screen
screen_init s =
    update_cursor (record s { cursor_x = 0; cursor_y = 0; foreground = 0x0f; background = 0 })

unfoldable pub screen_clear : Screen → Screen
screen_clear s =
    update_cursor (record s {
      video = fill s.video 0 (width * height) (cell s b' ');
      cursor_x = 0;
      cursor_y = 0;
    })

unfoldable pub screen_set_row : ℤ → Screen → Screen
screen_set_row (pos row) s =
    if ltb row height then update_cursor (record s { cursor_y = row; cursor_x = 0 }) else s
screen_set_row (negsuc n) s = s

unfoldable pub screen_set_color : ℕ → ℕ → Screen → Screen
screen_set_color foreground background s = record s {
  foreground = foreground;
  background = background;
}

-- `if (cursor_y >= SCREEN_HEIGHT) scroll_down()`
unfoldable pub scroll_if_below : Screen → Screen
scroll_if_below s = if leb height s.cursor_y then scroll_down s else s

unfoldable pub put : Screen → ℕ → Screen
put s c = record s { video = set s.video (position s) (cell s c) }

unfoldable pub print_newline : Screen → Screen
print_newline s =
    update_cursor (scroll_if_below (record s { cursor_x = 0; cursor_y = s.cursor_y + 1 }))

unfoldable pub print_backspace : Screen → Screen
print_backspace s =
    update_cursor
      (put (if ltb 0 s.cursor_x then record s { cursor_x = s.cursor_x - 1 } else s) b' ')

unfoldable pub print_visible : Screen → ℕ → Screen
print_visible s c =
    let t = put s c in
    update_cursor (
      if leb width (t.cursor_x + 1)
      then scroll_if_below (record t { cursor_x = 0; cursor_y = t.cursor_y + 1 })
      else record t { cursor_x = t.cursor_x + 1 })

unfoldable pub screen_print_char : Screen → ℕ → Screen
screen_print_char s c =
    if c == b'\n' then print_newline s else if c == 8 then print_backspace s else print_visible s c

unfoldable pub step_back : Screen → Screen
step_back s =
    if ltb 0 s.cursor_x
    then record s { cursor_x = s.cursor_x - 1 }
    else if ltb 0 s.cursor_y
    then record s { cursor_y = s.cursor_y - 1; cursor_x = width - 1 }
    else s

unfoldable pub screen_backspace : Screen → Screen
screen_backspace s = update_cursor (put (step_back s) b' ')

unfoldable pub screen_print : Screen → Bytes → Screen
screen_print s [] = s
screen_print s (c ∷ cs) = screen_print (screen_print_char s c) cs
