-- ===== src/Text.antt =====
-- kernel/string.c. A pointer into a buffer is the list of the bytes from it to the buffer's end;
-- `none` is an access past that end. Plain C strings, where no buffer matters, are byte lists.
pub mod Compare
pub mod Copy
pub mod Move
use mathlib.Core.Option
use ephemeral_os.Base.{
  ℕ, zero, suc, ◌+◌, ◌-◌, ◌*◌, Bool, not, ◌&&◌, Option, none, some, [], ◌∷◌, ltb, leb, ◌==◌,
  if◌then◌else◌, get_or, set, Bytes, ℤ, pos, sub_ℕ, neg_ℕ,
}

unfoldable pub strlen : Bytes → Option ℕ
strlen [] = none
strlen (c ∷ cs) = if c == 0 then some 0 else Option.map suc (strlen cs)

unfoldable pub strcmp : Bytes → Bytes → Option ℤ
strcmp [] ys = none
strcmp (x ∷ xs) [] = none
strcmp (x ∷ xs) (y ∷ ys) = if not (x == 0) && x == y then strcmp xs ys else some (sub_ℕ x y)

unfoldable pub strncmp : Bytes → Bytes → ℕ → Option ℤ
strncmp xs ys zero = some (pos 0)
strncmp [] ys (suc n) = none
strncmp (x ∷ xs) [] (suc n) = none
strncmp (x ∷ xs) (y ∷ ys) (suc n) =
    if not (x == 0) && x == y then strncmp xs ys n else some (sub_ℕ x y)

unfoldable pub memcmp : Bytes → Bytes → ℕ → Option ℤ
memcmp xs ys zero = some (pos 0)
memcmp [] ys (suc n) = none
memcmp (x ∷ xs) [] (suc n) = none
memcmp (x ∷ xs) (y ∷ ys) (suc n) = if x == y then memcmp xs ys n else some (sub_ℕ x y)

-- The destination buffer after the copy.
unfoldable pub strcpy : Bytes → Bytes → Option Bytes
strcpy [] src = none
strcpy (d ∷ ds) [] = none
strcpy (d ∷ ds) (c ∷ cs) = if c == 0 then some (0 ∷ ds) else Option.map (◌∷◌ c) (strcpy ds cs)

unfoldable pub strcat : Bytes → Bytes → Option Bytes
strcat [] src = none
strcat (d ∷ ds) src =
    let rest = Option.map (◌∷◌ d) (strcat ds src) in if d == 0 then strcpy (d ∷ ds) src else rest

-- `while (n--) *s++ = c`, with `c` already a byte.
unfoldable pub memset : Bytes → ℕ → ℕ → Option Bytes
memset s c zero = some s
memset [] c (suc n) = none
memset (x ∷ s) c (suc n) = Option.map (◌∷◌ c) (memset s c n)

-- The NUL that ends the source is stored without a step of `n`, so `n` more zeros follow it.
unfoldable pub strncpy : Bytes → Bytes → ℕ → Option Bytes
strncpy dest src zero = some dest
strncpy [] src (suc n) = none
strncpy (d ∷ ds) [] (suc n) = none
strncpy (d ∷ ds) (c ∷ cs) (suc n) =
    let rest = Option.map (◌∷◌ c) (strncpy ds cs n) in
    if c == 0 then Option.map (◌∷◌ 0) (memset ds 0 (suc n)) else rest

-- Two regions of one memory, by their first addresses: `n` bytes upwards, and downwards.
unfoldable pub copy_up : Bytes → ℕ → ℕ → ℕ → Bytes
copy_up m d s zero = m
copy_up m d s (suc n) = copy_up (set m d (get_or m s 0)) (d + 1) (s + 1) n

unfoldable pub copy_down : Bytes → ℕ → ℕ → ℕ → Bytes
copy_down m d s zero = m
copy_down m d s (suc n) = copy_down (set m (d + n) (get_or m (s + n) 0)) d s n

unfoldable pub memcpy : Bytes → ℕ → ℕ → ℕ → Bytes
memcpy m d s n = copy_up m d s n

unfoldable pub memmove : Bytes → ℕ → ℕ → ℕ → Bytes
memmove m d s n = if ltb d s then copy_up m d s n else copy_down m d s n

-- `atoi`, on a string without its NUL. The C `int` is unbounded here: the caller's numbers are small.
unfoldable pub skip_spaces : Bytes → Bytes
skip_spaces [] = []
skip_spaces (c ∷ cs) = let rest = skip_spaces cs in if c == b' ' then rest else c ∷ cs

abbrev pub is_digit : ℕ → Bool
is_digit c = leb b'0' c && leb c b'9'

unfoldable pub digits_value : ℕ → Bytes → ℕ
digits_value acc [] = acc
digits_value acc (c ∷ cs) =
    let rest = digits_value (acc * 10 + (c - b'0')) cs in if is_digit c then rest else acc

unfoldable pub signed_value : Bytes → ℤ
unfolding digits_value
signed_value [] = pos 0
signed_value (c ∷ cs) =
    if c == b'-'
    then neg_ℕ (digits_value 0 cs)
    else if c == b'+'
    then pos (digits_value 0 cs)
    else pos (digits_value 0 (c ∷ cs))

unfoldable pub atoi : Bytes → ℤ
unfolding signed_value skip_spaces
atoi s = signed_value (skip_spaces s)
