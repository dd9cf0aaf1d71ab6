-- ===== src/Text/Copy.antt =====
-- kernel/string.c: the string copies, on buffers that are large enough, and what `strncpy` writes.
use ephemeral_os.Base.{
  ℕ, zero, suc, ◌-◌, ◌≤◌, ◌<◌, ◌≡◌, refl, some, [], ◌∷◌, ◌++◌, arith, length, drop, replicate,
  Bytes,
}
use ephemeral_os.Text.{strcpy, strcat, strncpy, memset}
use ephemeral_os.Text.Compare.{NulFree}

-- `strcpy` into a buffer with room for the string and its NUL leaves them at its start, and the
-- rest of the buffer as it was.
pub strcpy_lem :
    (dest s rest : Bytes)
    → NulFree s
    → length s < length dest
    → strcpy dest (s ++ 0 ∷ rest) ≡ some (s ++ 0 ∷ drop (suc (length s)) dest)
unfolding strcpy
strcpy_lem [] s rest h l = absurd (omega arith)
strcpy_lem (d ∷ ds) [] rest h l = refl
strcpy_lem (d ∷ ds) (c ∷ cs) rest h l = ground (arith, strcpy_lem ds cs rest h.1)

-- `strcat` onto the string `t` in a buffer with room for both strings and a NUL leaves `t`, `s` and
-- a NUL at its start, and the rest of the buffer as it was.
pub strcat_lem :
    (t tail s rest : Bytes)
    → NulFree t
    → NulFree s
    → length s ≤ length tail
    → strcat (t ++ 0 ∷ tail) (s ++ 0 ∷ rest) ≡ some (t ++ s ++ 0 ∷ drop (length s) tail)
unfolding strcat
strcat_lem [] tail s rest ht hs l = strcpy_lem (0 ∷ tail) s rest hs (omega arith)
strcat_lem (d ∷ t) tail s rest ht hs l = ground (arith, strcat_lem t tail s rest ht.1 hs l)

memset_zero : (n : ℕ) (s : Bytes) → n ≤ length s → memset s 0 n ≡ some (replicate n 0 ++ drop n s)
unfolding memset
memset_zero zero s l = refl
memset_zero (suc n) [] l = absurd (omega arith)
memset_zero (suc n) (x ∷ s) l = ground (arith, memset_zero n s)

-- For a string shorter than `n`, into a buffer of more than `n` bytes, `strncpy` writes `n + 1` bytes, not `n`: the string, then zeros up
-- to and including the byte at index `n`.
pub strncpy-overruns :
    (n : ℕ) (dest s rest : Bytes)
    → NulFree s
    → length s < n
    → n < length dest
    → strncpy dest (s ++ 0 ∷ rest) n
      ≡ some (s ++ replicate (suc (n - length s)) 0 ++ drop (suc n) dest)
unfolding strncpy
strncpy-overruns zero dest s rest h l k = absurd (omega arith)
strncpy-overruns (suc n) [] s rest h l k = absurd (omega arith)
strncpy-overruns (suc n) (d ∷ ds) [] rest h l k = ground (arith, memset_zero (suc n) ds)
strncpy-overruns (suc n) (d ∷ ds) (c ∷ cs) rest h l k =
    ground (arith, strncpy-overruns n ds cs rest h.1)
