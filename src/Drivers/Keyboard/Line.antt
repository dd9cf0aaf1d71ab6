-- ===== src/Drivers/Keyboard/Line.antt =====
-- drivers/keyboard.c: what a line of input can be.
use ephemeral_os.Base.{
  subst, ℕ, zero, suc, ◌+◌, ◌-◌, ◌≤◌, ◌<◌, ◌≡◌, ap, ◌⊎◌, inl, inr, Bool, true, false, ◌&&◌, Option,
  none, some, List, [], ◌∷◌, ◌++◌, arith, Bytes, All, ltb, leb, ◌==◌, if◌then◌else◌, Bool-cases,
  length, take, length-append, length-take,
}
use ephemeral_os.Drivers.Screen.{screen_print_char, screen_backspace, Screen}
use ephemeral_os.Drivers.Screen.Inv.{IsShown, screen_print_char-IsShown, screen_backspace-IsShown}
use ephemeral_os.Drivers.Keyboard.{Typed, type_char, scancode_step, getline, keyboard_getline}

-- Printable ASCII.
abbrev pub Printable : Bytes → Type 0
Printable = All (λ c. (32 ≤ c) × (c ≤ 126))

-- The line fits its buffer with the NUL, holds printable bytes alone, and the cursor is shown.
pub record IsLine (max_length : ℕ) (t : Typed) : Type 0 where
  pub fits : length t.buffer < max_length
  pub printable : Printable t.buffer
  pub shown : IsShown t.screen

Printable-append : (s : Bytes) (c : ℕ) → 32 ≤ c → c ≤ 126 → Printable s → Printable (s ++ c ∷ [])
Printable-append [] c l k h = ((l, k), tt)
Printable-append (d ∷ s) c l k h = (h.0, Printable-append s c l k h.1)

Printable-take : (n : ℕ) (s : Bytes) → Printable s → Printable (take n s)
Printable-take zero s h = tt
Printable-take (suc n) [] h = tt
Printable-take (suc n) (c ∷ s) h = (h.0, Printable-take n s h.1)

type_char-IsLine :
    (echo : ℕ → ℕ) (max_length : ℕ) (t : Typed) (c : ℕ)
    → IsLine max_length t
    → IsLine max_length (type_char echo max_length t c)
unfolding type_char
type_char-IsLine echo max_length t c w =
    go (c == 8) (Bool-cases (ltb 0 (length t.buffer)))
      (Bool-cases (ltb (length t.buffer + 1) max_length && (leb 32 c && leb c 126)))
  where
    go :
        (a : Bool)
        → (ltb 0 (length t.buffer) ≡ true) ⊎ (ltb 0 (length t.buffer) ≡ false)
        → ((ltb (length t.buffer + 1) max_length && (leb 32 c && leb c 126)) ≡ true)
          ⊎ ((ltb (length t.buffer + 1) max_length && (leb 32 c && leb c 126)) ≡ false)
        → IsLine max_length (
            if a
            then (if ltb 0 (length t.buffer)
                then record {
                  buffer = take (length t.buffer - 1) t.buffer;
                  screen = screen_backspace t.screen;
                }
                else t)
            else if ltb (length t.buffer + 1) max_length && (leb 32 c && leb c 126)
            then record {
              buffer = t.buffer ++ c ∷ [];
              screen = screen_print_char t.screen (echo c);
            }
            else t)
    go true (inl e) q = rw e (record {
      fits = omega (arith, length-take {0} (length t.buffer - 1) t.buffer, w.fits);
      printable = Printable-take (length t.buffer - 1) t.buffer w.printable;
      shown = screen_backspace-IsShown t.screen w.shown.on_screen;
    })
    go true (inr e) q = rw e w
    go false p (inl e) = rw e (record {
      fits = ground (arith, length-append t.buffer (c ∷ []));
      printable = Printable-append t.buffer c (ground arith) (ground arith) w.printable;
      shown = screen_print_char-IsShown t.screen (echo c) w.shown.on_screen;
    })
    go false p (inr e) = rw e w

abbrev line_of : Typed → Option (Typed × Bool × List ℕ) → Typed
line_of t none = t
line_of t (some r) = r.0

getline-IsLine :
    (keys : List ℕ) (echo : ℕ → ℕ) (max_length : ℕ) (shift : Bool) (t : Typed) {t' : Typed}
    {shift' : Bool} {rest : List ℕ}
    → IsLine max_length t
    → getline echo max_length shift t keys ≡ some (t', shift', rest)
    → IsLine max_length t'
unfolding getline
getline-IsLine [] echo max_length shift t w e = cc
getline-IsLine (scancode ∷ rest) echo max_length shift t {t'} {shift'} {rest = left} w e =
    go (scancode_step shift scancode) (λ s u v d. getline-IsLine rest echo max_length s u v d) e
  where
    go :
        (r : Bool × Option ℕ)
        → ((s : Bool) (u : Typed)
            → IsLine max_length u
            → getline echo max_length s u rest ≡ some (t', shift', left)
            → IsLine max_length t')
        → elim r.1 [
          | none ↦ getline echo max_length r.0 t rest
          | some c ↦
              let more = getline echo max_length r.0 (type_char echo max_length t c) rest in
              if c == b'\n'
              then some (record t { screen = screen_print_char t.screen b'\n' }, r.0, rest)
              else more
        ]
          ≡ some (t', shift', left)
        → IsLine max_length t'
    go (s, none) ih d = ih s t w d
    go (s, some c) ih d = ends (Bool-cases (c == b'\n'))
      where
        ends : ((c == b'\n') ≡ true) ⊎ ((c == b'\n') ≡ false) → IsLine max_length t'
        ends (inl y) = subst (IsLine max_length) (ap (line_of t) (rw y at d)) (record {
          fits = w.fits;
          printable = w.printable;
          shown = screen_print_char-IsShown t.screen b'\n' w.shown.on_screen;
        })
        ends (inr n) =
            ih s (type_char echo max_length t c) (type_char-IsLine echo max_length t c w)
              (rw n at d)

-- Whatever is typed, once `keyboard_getline` with a buffer of at least one byte returns, the line is
-- shorter than the buffer, its bytes are printable, and the cursor on the screen is shown.
pub keyboard_getline-IsLine :
    (keys : List ℕ) (max_length : ℕ) (shift : Bool) (s : Screen) {t : Typed} {shift' : Bool}
    {rest : List ℕ}
    → 0 < max_length
    → IsShown s
    → keyboard_getline max_length shift s keys ≡ some (t, shift', rest)
    → IsLine max_length t
unfolding keyboard_getline
keyboard_getline-IsLine keys max_length shift s h w e =
    getline-IsLine keys (λ c. c) max_length shift (record { buffer = []; screen = s })
      (record { fits = h; printable = tt; shown = w }) e
