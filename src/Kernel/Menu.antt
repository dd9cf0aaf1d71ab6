-- ===== src/Kernel/Menu.antt =====
-- kernel/kernel.c: `show_continue_menu`, behind the loop that empties the keyboard. The keyboard is
-- the list of the scancodes that it will deliver.
use ephemeral_os.Base.{
  ℕ, Bool, not, Option, none, some, List, [], ◌∷◌, Bytes, codes, ltb, ◌==◌, if◌then◌else◌, pos,
}
use ephemeral_os.Drivers.Screen.{Screen, screen_print, screen_set_color, screen_set_row}

-- One of the two lines of the menu: the text that is shown when it is the selected one, and else.
unfoldable pub menu_item : Bool → Bytes → Bytes → Screen → Screen
menu_item chosen selected_text other_text s =
    if chosen
    then screen_set_color 0x0f 0 (screen_print (screen_set_color 0 0x0f s) selected_text)
    else screen_print (screen_set_color 0x0f 0 s) other_text

-- What a round of the loop draws; `screen_row` is 20.
unfoldable pub draw_menu : ℕ → Screen → Screen
draw_menu selected s =
    let s1 =
      menu_item (selected == 0) (codes "  > SI  ") (codes "    SI  ") (screen_set_row (pos 24) s) in
    menu_item (selected == 1) (codes "  > No  ") (codes "    No  ") (screen_set_row (pos 25) s1)

-- The arrow keys.
unfoldable pub menu_key : ℕ → ℕ → ℕ
menu_key selected scancode =
    if scancode == 0x4b
    then 0
    else if scancode == 0x4d
    then 1
    else if scancode == 0x48
    then 0
    else if scancode == 0x50
    then 1
    else selected

-- The loop that waits for the release of the enter key.
unfoldable pub wait_release : List ℕ → Option (List ℕ)
wait_release [] = none
wait_release (scancode ∷ keys) = if scancode == 0x9c then some keys else wait_release keys

-- The loop over the keys: what is selected when it ends, the screen, and the scancodes that are left.
unfoldable pub menu_from : ℕ → Screen → List ℕ → Option (ℕ × Screen × List ℕ)
unfolding wait_release
menu_from selected s [] = none
menu_from selected s (scancode ∷ keys) =
    let drawn = draw_menu selected s in
    let released : Option (ℕ × Screen × List ℕ) = elim (wait_release keys) [
      | none ↦ none
      | some rest ↦ some (selected, drawn, rest)
    ] in
    if not (ltb scancode 128)
    then menu_from selected drawn keys
    else if scancode == 0x1c
    then released
    else menu_from (menu_key selected scancode) drawn keys

abbrev pub blank_line : Bytes
blank_line = codes "                                          "

abbrev pub line_at : ℕ → Bytes → Screen → Screen
line_at row text s = screen_print (screen_set_row (pos row) s) text

-- The lines above and below the two, and the loop.
unfoldable pub show_continue_menu : Screen → List ℕ → Option (ℕ × Screen × List ℕ)
show_continue_menu s keys =
    let s0 =
      line_at 21 (codes "  Deseas continuar?                      ")
        (screen_print (screen_set_color 0x0f 0 (screen_set_row (pos 20) s)) blank_line) in
    let s1 = line_at 24 blank_line (line_at 23 blank_line (line_at 22 blank_line s0)) in
    let s2 = line_at 26 blank_line (line_at 25 blank_line s1) in
    menu_from 0 (line_at 27 (codes "  Use LEFT/RIGHT arrows, then ENTER     ") s2) keys
