-- ===== src/Bin/Numbers/Decimal.antt =====
-- bin/date.c, bin/ping.c: the decimal text of a number, read by `atoi` of kernel/string.c.
use ephemeral_os.Base.{
  ℕ, zero, suc, ◌+◌, ◌-◌, ◌*◌, ◌/◌, ◌≤◌, ◌≡◌, refl, ap, ◌∙◌, ◌≢◌, inl, inr, true, false, [], ◌∷◌,
  ◌++◌, arith, Bytes, All, ◌==◌, Bool-cases, length, replicate, pos,
}
use ephemeral_os.Text.{is_digit, digits_value, signed_value, skip_spaces, atoi}
use ephemeral_os.Bin.Numbers.{digits_up, reversed, decimal, int_to_str}

abbrev pub IsDigit : ℕ → Type 0
IsDigit c = (b'0' ≤ c) × (c ≤ b'9')

is_digit-IsDigit : (c : ℕ) → IsDigit c → is_digit c ≡ true
is_digit-IsDigit c d = ground arith

-- What the digits say, the last one first.
unfoldable value : ℕ → Bytes → ℕ
value acc [] = acc
value acc (c ∷ cs) = value acc cs * 10 + (c - b'0')

digits_up_lem : (fuel num : ℕ) → num ≤ fuel → value 0 (digits_up fuel num) ≡ num
unfolding value digits_up
digits_up_lem zero num h = omega arith
digits_up_lem (suc fuel) num h =
    let ih : num ≢ 0 → value 0 (digits_up fuel (num / 10)) ≡ num / 10 =
      λ n. digits_up_lem fuel (num / 10) (omega arith) in
    ground arith

digits_up-IsDigit : (fuel num : ℕ) → All IsDigit (digits_up fuel num)
unfolding digits_up
digits_up-IsDigit zero num = tt
digits_up-IsDigit (suc fuel) num =
    let ih : All IsDigit (digits_up fuel (num / 10)) = digits_up-IsDigit fuel (num / 10) in
    elim (Bool-cases (num == 0)) [ inl y ↦ rw y tt | inr n ↦ rw n ((omega arith, omega arith), ih) ]

reversed-IsDigit :
    (cs out : Bytes) → All IsDigit cs → All IsDigit out → All IsDigit (reversed cs out)
unfolding reversed
reversed-IsDigit [] out d e = e
reversed-IsDigit (c ∷ cs) out d e = reversed-IsDigit cs (c ∷ out) d.1 (d.0, e)

digits_value-reversed :
    (acc : ℕ) (cs out : Bytes)
    → All IsDigit cs
    → digits_value acc (reversed cs out) ≡ digits_value (value acc cs) out
unfolding reversed digits_value value
digits_value-reversed acc [] out d = refl
digits_value-reversed acc (c ∷ cs) out (d, ds) =
    digits_value-reversed acc cs (c ∷ out) ds ∙ rw (is_digit-IsDigit c d) refl

digits_value-one : (acc c : ℕ) → IsDigit c → digits_value acc (c ∷ []) ≡ acc * 10 + (c - b'0')
unfolding digits_value
digits_value-one acc c d = rw (is_digit-IsDigit c d) refl

-- A text of digits is read as its value, whatever spaces stand before it.
atoi-digits :
    (w : ℕ) (t : Bytes) → All IsDigit t → atoi (replicate w b' ' ++ t) ≡ pos (digits_value 0 t)
unfolding atoi skip_spaces signed_value
atoi-digits zero [] d = refl
atoi-digits zero (c ∷ cs) (d, ds) =
    let s : (c == b' ') ≡ false = ground arith in
    let m : (c == b'-') ≡ false = ground arith in
    let p : (c == b'+') ≡ false = ground arith in rw (s, m, p) refl
atoi-digits (suc w) t d = atoi-digits w t d

decimal_lem : (n : ℕ) → (digits_value 0 (decimal n) ≡ n) × All IsDigit (decimal n)
unfolding decimal digits_value value
decimal_lem n = elim (Bool-cases (n == 0)) [
  | inl y ↦ rw y (
    digits_value-one 0 b'0' (omega arith, omega arith) ∙ ground (arith, y),
    ((omega arith, omega arith), tt),
  )
  | inr z ↦ rw z (
    digits_value-reversed 0 (digits_up n n) [] (digits_up-IsDigit n n)
        ∙ digits_up_lem n n (omega arith),
    reversed-IsDigit (digits_up n n) [] (digits_up-IsDigit n n) tt,
  )
]

-- The text that `int_to_str` makes of a number, at any width, is read back by `atoi`.
pub atoi-int_to_str : (num min_width : ℕ) → atoi (int_to_str num min_width) ≡ pos num
unfolding int_to_str
atoi-int_to_str num min_width =
    atoi-digits (min_width - length (decimal num)) (decimal num) (decimal_lem num).1
    ∙ ap pos (decimal_lem num).0
