-- ===== src/Text/Compare.antt =====
-- kernel/string.c: what the comparisons and `strlen` find out about NUL-terminated strings.
use ephemeral_os.Base.{
  ℕ, zero, suc, ◌≡◌, refl, ◌≢◌, ◌↔◌, some, [], ◌∷◌, ◌++◌, arith, length, take, Bytes, All, pos, ◌≤◌,
}
use ephemeral_os.Text.{strlen, strcmp, memcmp}

-- No byte of the string is NUL.
abbrev pub NulFree : Bytes → Type 0
NulFree = All (λ c. c ≢ 0)

-- `strlen` of a buffer that holds the NUL-free string `s` and its NUL is the length of `s`,
-- whatever follows.
pub strlen_lem : (s rest : Bytes) → NulFree s → strlen (s ++ 0 ∷ rest) ≡ some (length s)
unfolding strlen
strlen_lem [] rest h = refl
strlen_lem (c ∷ cs) rest h = ground (arith, strlen_lem cs rest h.1)

strcmp→eq :
    (s t r1 r2 : Bytes)
    → NulFree s
    → NulFree t
    → strcmp (s ++ 0 ∷ r1) (t ++ 0 ∷ r2) ≡ some (pos 0)
    → s ≡ t
unfolding strcmp
strcmp→eq [] [] r1 r2 hs ht h = refl
strcmp→eq [] (y ∷ ys) r1 r2 hs ht h = ground arith
strcmp→eq (x ∷ xs) [] r1 r2 hs ht h = ground arith
strcmp→eq (x ∷ xs) (y ∷ ys) r1 r2 hs ht h = ground (arith, strcmp→eq xs ys r1 r2 hs.1 ht.1)

strcmp_self : (s r1 r2 : Bytes) → strcmp (s ++ 0 ∷ r1) (s ++ 0 ∷ r2) ≡ some (pos 0)
unfolding strcmp
strcmp_self [] r1 r2 = refl
strcmp_self (x ∷ xs) r1 r2 = ground (arith, strcmp_self xs r1 r2)

-- `strcmp` of two NUL-terminated strings returns 0 exactly when the strings are equal, whatever
-- follows their NULs.
pub strcmp_iff :
    (s t r1 r2 : Bytes)
    → NulFree s
    → NulFree t
    → (strcmp (s ++ 0 ∷ r1) (t ++ 0 ∷ r2) ≡ some (pos 0)) ↔ (s ≡ t)
strcmp_iff s t r1 r2 hs ht = (strcmp→eq s t r1 r2 hs ht, λ e. rw e (strcmp_self t r1 r2))

memcmp→eq : (n : ℕ) (xs ys : Bytes) → memcmp xs ys n ≡ some (pos 0) → take n xs ≡ take n ys
unfolding memcmp
memcmp→eq zero xs ys h = refl
memcmp→eq (suc n) [] ys h = cc
memcmp→eq (suc n) (x ∷ xs) [] h = cc
memcmp→eq (suc n) (x ∷ xs) (y ∷ ys) h = ground (arith, memcmp→eq n xs ys)

eq→memcmp :
    (n : ℕ) (xs ys : Bytes) → n ≤ length xs → take n xs ≡ take n ys → memcmp xs ys n ≡ some (pos 0)
unfolding memcmp
eq→memcmp zero xs ys l h = refl
eq→memcmp (suc n) [] ys l h = absurd (omega arith)
eq→memcmp (suc n) (x ∷ xs) [] l h = cc
eq→memcmp (suc n) (x ∷ xs) (y ∷ ys) l h = ground (arith, eq→memcmp n xs ys)

-- `memcmp` over `n` bytes that lie in the first buffer returns 0 exactly when the buffers agree in
-- their first `n` bytes.
pub memcmp_iff :
    (n : ℕ) (xs ys : Bytes)
    → n ≤ length xs
    → (memcmp xs ys n ≡ some (pos 0)) ↔ (take n xs ≡ take n ys)
memcmp_iff n xs ys l = (memcmp→eq n xs ys, eq→memcmp n xs ys l)
