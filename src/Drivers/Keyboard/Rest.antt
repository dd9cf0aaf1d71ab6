-- ===== src/Drivers/Keyboard/Rest.antt =====
-- drivers/keyboard.c: a line takes keys away.
use ephemeral_os.Base.{
  subst, ℕ, suc, ◌<◌, ◌≡◌, ap, inl, inr, Bool, Option, none, some, List, [], ◌∷◌, arith, ◌==◌,
  if◌then◌else◌, Bool-cases, length,
}
use ephemeral_os.Drivers.Screen.{screen_print_char}
use ephemeral_os.Drivers.Keyboard.{Typed, scancode_step, type_char, getline}

abbrev left_of : List ℕ → Option (Typed × Bool × List ℕ) → List ℕ
left_of keys none = keys
left_of keys (some r) = r.2

-- A line that has been read has taken at least one scancode.
pub getline-shorter :
    (keys : List ℕ) (echo : ℕ → ℕ) (max_length : ℕ) (shift : Bool) (t : Typed) {t' : Typed}
    {shift' : Bool} {rest : List ℕ}
    → getline echo max_length shift t keys ≡ some (t', shift', rest)
    → length rest < length keys
unfolding getline
getline-shorter [] echo max_length shift t e = cc
getline-shorter (scancode ∷ keys) echo max_length shift t {t'} {shift'} {rest} e =
    go (scancode_step shift scancode) (λ s u d. getline-shorter keys echo max_length s u d) e
  where
    go :
        (r : Bool × Option ℕ)
        → ((s : Bool) (u : Typed)
            → getline echo max_length s u keys ≡ some (t', shift', rest)
            → length rest < length keys)
        → elim r.1 [
          | none ↦ getline echo max_length r.0 t keys
          | some c ↦
              let more = getline echo max_length r.0 (type_char echo max_length t c) keys in
              if c == b'\n'
              then some (record t { screen = screen_print_char t.screen b'\n' }, r.0, keys)
              else more
        ]
          ≡ some (t', shift', rest)
        → length rest < suc (length keys)
    go (s, none) ih d = let l = ih s t d in omega arith
    go (s, some c) ih d = elim (Bool-cases (c == b'\n')) [
      | inl y ↦
          let l : keys ≡ rest = ap (left_of keys) (rw y at d) in
          subst (λ r. length r < suc (length keys)) l (omega arith)
      | inr n ↦ let l = ih s (type_char echo max_length t c) (rw n at d) in omega arith
    ]
