-- ===== src/Drivers/Screen/Inv.antt =====
-- drivers/screen.c: the cursor stays on the screen, and with it every write to the video memory.
use ephemeral_os.Base.{
  ℕ, zero, suc, ◌+◌, ◌-◌, ◌*◌, ◌<◌, ◌≡◌, refl, ◌∙◌, Bool, true, false, List, [], ◌∷◌, arith, Bytes,
  ltb, leb, ◌==◌, if◌then◌else◌, length, get_or, set, length-set, get_or-set_ne,
}
use ephemeral_os.Text.{copy_up}
use ephemeral_os.Text.Move.{copy_up_lem, length-copy_up}
use ephemeral_os.Drivers.Screen.{
  Screen, position, cell, fill, update_cursor, scroll_down, scroll_if_below, put, print_newline,
  print_backspace, print_visible, screen_print_char, step_back, screen_backspace, screen_print,
  screen_clear,
}

-- The cursor is on the screen, and the memory has its 2000 cells.
pub record OnScreen (s : Screen) : Type 0 where
  pub column : s.cursor_x < 80
  pub row : s.cursor_y < 25
  pub cells : length s.video ≡ 2000

-- The controller shows the cursor where the driver has it.
pub record IsShown (s : Screen) : Type 0 where
  pub on_screen : OnScreen s
  pub shown : s.high * 256 + s.low ≡ position s

-- Every write to a cell at the cursor is inside the video memory.
pub position-lt : (s : Screen) → OnScreen s → position s < length s.video
position-lt s w = omega arith

length-fill : (video : List ℕ) (i n word : ℕ) → length (fill video i n word) ≡ length video
unfolding fill
length-fill video i zero word = refl
length-fill video i (suc n) word =
    length-fill (set video i word) (i + 1) n word ∙ length-set video i word

update_cursor-IsShown : (s : Screen) → OnScreen s → IsShown (update_cursor s)
unfolding update_cursor
update_cursor-IsShown s w = record {
  on_screen = record { column = w.column; row = w.row; cells = w.cells };
  shown = omega arith;
}

-- Scrolling keeps the 2000 cells and brings the cursor to the last row.
scroll_down-OnScreen : (s : Screen) → length s.video ≡ 2000 → OnScreen (scroll_down s)
unfolding scroll_down update_cursor
scroll_down-OnScreen s h = record {
  column = omega arith;
  row = omega arith;
  cells =
      length-fill (copy_up s.video 0 80 1920) 1920 80 (cell s b' ')
      ∙ length-copy_up 1920 s.video 0 80
      ∙ h;
}

if-OnScreen :
    (b : Bool) (x y : Screen)
    → (b ≡ true → OnScreen x)
    → (b ≡ false → OnScreen y)
    → OnScreen (if b then x else y)
if-OnScreen true x y h k = h refl
if-OnScreen false x y h k = k refl

scroll_if_below-OnScreen :
    (s : Screen) → s.cursor_x < 80 → length s.video ≡ 2000 → OnScreen (scroll_if_below s)
unfolding scroll_if_below
scroll_if_below-OnScreen s x h =
    if-OnScreen (leb 25 s.cursor_y) (scroll_down s) s (λ e. scroll_down-OnScreen s h)
      (λ e. record { column = x; row = ground arith; cells = h })

put-OnScreen : (s : Screen) (c : ℕ) → OnScreen s → OnScreen (put s c)
unfolding put
put-OnScreen s c w = record {
  column = w.column;
  row = w.row;
  cells = length-set s.video (position s) (cell s c) ∙ w.cells;
}

print_newline-IsShown : (s : Screen) → OnScreen s → IsShown (print_newline s)
unfolding print_newline
print_newline-IsShown s w =
    update_cursor-IsShown _ (scroll_if_below-OnScreen _ (omega arith) w.cells)

print_backspace-IsShown : (s : Screen) → OnScreen s → IsShown (print_backspace s)
unfolding print_backspace
print_backspace-IsShown s w = update_cursor-IsShown _ (put-OnScreen _ b' ' back)
  where
    back : OnScreen (if ltb 0 s.cursor_x then record s { cursor_x = s.cursor_x - 1 } else s)
    back = ground arith

print_visible-IsShown : (s : Screen) (c : ℕ) → OnScreen s → IsShown (print_visible s c)
unfolding print_visible
print_visible-IsShown s c w = update_cursor-IsShown _ moved
  where
    t : Screen
    t = put s c

    v : OnScreen t
    v = put-OnScreen s c w

    moved : OnScreen (
        if leb 80 (t.cursor_x + 1)
        then scroll_if_below (record t { cursor_x = 0; cursor_y = t.cursor_y + 1 })
        else record t { cursor_x = t.cursor_x + 1 })
    moved =
        if-OnScreen (leb 80 (t.cursor_x + 1))
          (scroll_if_below (record t { cursor_x = 0; cursor_y = t.cursor_y + 1 }))
          (record t { cursor_x = t.cursor_x + 1 })
          (λ e.
            scroll_if_below-OnScreen (record t { cursor_x = 0; cursor_y = t.cursor_y + 1 })
              (omega arith) v.cells)
          (λ e. record { column = ground arith; row = v.row; cells = v.cells })

-- From a cursor on the screen, `screen_print_char` of any byte leaves the cursor on the screen, the
-- memory with its cells, and the controller's cursor where the driver has it.
pub screen_print_char-IsShown : (s : Screen) (c : ℕ) → OnScreen s → IsShown (screen_print_char s c)
unfolding screen_print_char
screen_print_char-IsShown s c w = go (c == b'\n') (c == 8)
  where
    go :
        (a b : Bool)
        → IsShown
            (if a then print_newline s else if b then print_backspace s else print_visible s c)
    go true b = print_newline-IsShown s w
    go false true = print_backspace-IsShown s w
    go false false = print_visible-IsShown s c w

-- From a shown cursor, `screen_print` of any text leaves the cursor shown.
pub screen_print-IsShown : (text : Bytes) (s : Screen) → IsShown s → IsShown (screen_print s text)
unfolding screen_print
screen_print-IsShown [] s w = w
screen_print-IsShown (c ∷ cs) s w =
    screen_print-IsShown cs (screen_print_char s c) (screen_print_char-IsShown s c w.on_screen)

-- `screen_backspace` leaves the cursor shown.
pub screen_backspace-IsShown : (s : Screen) → OnScreen s → IsShown (screen_backspace s)
unfolding screen_backspace step_back
screen_backspace-IsShown s w = update_cursor-IsShown _ (put-OnScreen _ b' ' back)
  where
    back : OnScreen (
        if ltb 0 s.cursor_x
        then record s { cursor_x = s.cursor_x - 1 }
        else if ltb 0 s.cursor_y
        then record s { cursor_y = s.cursor_y - 1; cursor_x = 79 }
        else s)
    back = ground arith

-- `screen_clear` shows the cursor in the first cell, wherever it was.
pub screen_clear-IsShown : (s : Screen) → length s.video ≡ 2000 → IsShown (screen_clear s)
unfolding screen_clear
screen_clear-IsShown s h = update_cursor-IsShown _ (record {
  column = omega arith;
  row = omega arith;
  cells = length-fill s.video 0 2000 (cell s b' ') ∙ h;
})

get_or-fill_before :
    (n i j word : ℕ) (video : List ℕ) → j < i → get_or (fill video i n word) j 0 ≡ get_or video j 0
unfolding fill
get_or-fill_before zero i j word video h = refl
get_or-fill_before (suc n) i j word video h =
    get_or-fill_before n (i + 1) j word (set video i word) (omega arith)
    ∙ get_or-set_ne video i j word 0 (omega arith)

-- In a memory of 2000 cells scrolling moves every row but the first one up: a cell of the first 24 rows holds what the cell
-- below it held.
pub scroll_down_rows :
    (s : Screen) (j : ℕ)
    → length s.video ≡ 2000
    → j < 1920
    → get_or (scroll_down s).video j 0 ≡ get_or s.video (80 + j) 0
unfolding scroll_down update_cursor
scroll_down_rows s j h l =
    get_or-fill_before 80 1920 j (cell s b' ') (copy_up s.video 0 80 1920) l
    ∙ copy_up_lem 1920 s.video 0 80 j (omega arith) (omega arith)
    ∙ ground arith
