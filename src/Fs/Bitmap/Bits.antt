-- ===== src/Fs/Bitmap/Bits.antt =====
-- One bit of the bitmap: what `|=` and `&= ~` do to every bit, by a table over all bytes.
use ephemeral_os.Base.{
  ℕ, zero, suc, ◌-◌, ◌/◌, ◌%◌, ◌^◌, ◌<◌, bit_and, bit_or, ◌≡◌, refl, ◌∙◌, Bool, true, false, not,
  ◌&&◌, arith, Bytes, ltb, ◌==◌, if◌then◌else◌, ltb→lt, all_below, all_below_sound, length, get_or,
  set, replicate, length-set, get_or-set_self, get_or-set_ne,
}
use native.Mathlib.Decide.{ℕ_discrete}
use ephemeral_os.Fs.Bitmap.{is_block_free, set_bit, clear_bit}

abbrev bool_eq : Bool → Bool → Bool
bool_eq true b = b
bool_eq false b = not b

bool_eq→eq : (a b : Bool) → bool_eq a b ≡ true → a ≡ b
bool_eq→eq a b h = ground arith

abbrev bit_clear : ℕ → ℕ → Bool
bit_clear b k = bit_and b (2 ^ k) == 0

abbrev or_row : ℕ → ℕ → ℕ → Bool
or_row b k j =
    ltb (bit_or b (2 ^ k)) 256
    && bool_eq (bit_clear (bit_or b (2 ^ k)) j) (if k == j then false else bit_clear b j)

abbrev and_row : ℕ → ℕ → ℕ → Bool
and_row b k j =
    ltb (bit_and b (255 - 2 ^ k)) 256
    && bool_eq (bit_clear (bit_and b (255 - 2 ^ k)) j) (if k == j then true else bit_clear b j)

abbrev cube : (ℕ → ℕ → ℕ → Bool) → Bool
cube row = all_below 256 (λ b. all_below 8 (λ k. all_below 8 (λ j. row b k j)))

or_table : cube or_row ≡ true
unfolding all_below
or_table = refl

and_table : cube and_row ≡ true
unfolding all_below
and_table = refl

cube_sound :
    (row : ℕ → ℕ → ℕ → Bool) (b k j : ℕ)
    → cube row ≡ true
    → b < 256
    → k < 8
    → j < 8
    → row b k j ≡ true
cube_sound row b k j h hb hk hj =
    all_below_sound 8 (λ j. row b k j) j
      (all_below_sound 8 (λ k. all_below 8 (λ j. row b k j)) k (all_below_sound 256 _ b h hb) hk) hj

and-true : (a b : Bool) → (a && b) ≡ true → (a ≡ true) × (b ≡ true)
and-true a b h = ground arith

module _ (b k j : ℕ) (hb : b < 256) (hk : k < 8) (hj : j < 8) where
  or_bit :
      (bit_or b (2 ^ k) < 256)
      × (bit_clear (bit_or b (2 ^ k)) j ≡ (if k == j then false else bit_clear b j))
  or_bit =
      let h = and-true _ _ (cube_sound or_row b k j or_table hb hk hj) in
      (ltb→lt _ 256 h.0, bool_eq→eq _ _ h.1)

  and_bit :
      (bit_and b (255 - 2 ^ k) < 256)
      × (bit_clear (bit_and b (255 - 2 ^ k)) j ≡ (if k == j then true else bit_clear b j))
  and_bit =
      let h = and-true _ _ (cube_sound and_row b k j and_table hb hk hj) in
      (ltb→lt _ 256 h.0, bool_eq→eq _ _ h.1)

-- A bitmap of 64 bytes.
pub record IsBitmap (bitmap : Bytes) : Type 0 where
  pub size : length bitmap ≡ 64
  pub bytes : (i : ℕ) → get_or bitmap i 0 < 256

-- Replacing a byte of a bitmap.
get_or-set :
    (xs : Bytes) (i j v : ℕ)
    → i < length xs
    → get_or (set xs i v) j 0 ≡ (if i == j then v else get_or xs j 0)
get_or-set xs i j v h = elim (ℕ_discrete i j) [
  | yes e ↦ ground (arith, get_or-set_self xs i v 0)
  | no ne ↦ ground (arith, get_or-set_ne xs i j v 0 ne)
]

set-IsBitmap : (xs : Bytes) (i v : ℕ) → i < 64 → v < 256 → IsBitmap xs → IsBitmap (set xs i v)
set-IsBitmap xs i v hi hv w = record {
  size = length-set xs i v ∙ w.size;
  bytes = λ j. ground (arith, get_or-set xs i j v, w.bytes j, w.size);
}

module _ (bitmap : Bytes) (n : ℕ) (w : IsBitmap bitmap) (hn : n < 512) where
  pub set_bit-IsBitmap : IsBitmap (set_bit bitmap n)
  unfolding set_bit
  set_bit-IsBitmap =
      set-IsBitmap bitmap (n / 8) _ (omega arith)
        (or_bit (get_or bitmap (n / 8) 0) (n % 8) 0 (w.bytes (n / 8)) (omega arith) (omega arith)).0
        w

  pub clear_bit-IsBitmap : IsBitmap (clear_bit bitmap n)
  unfolding clear_bit
  clear_bit-IsBitmap =
      set-IsBitmap bitmap (n / 8) _ (omega arith)
        (and_bit (get_or bitmap (n / 8) 0) (n % 8) 0 (w.bytes (n / 8)) (omega arith)
          (omega arith)).0
        w

  -- Marking a block used changes the answer for that block alone.
  pub is_block_free-set_bit :
      (m : ℕ)
      → m < 512
      → is_block_free (set_bit bitmap n) m ≡ (if n == m then false else is_block_free bitmap m)
  unfolding set_bit is_block_free
  is_block_free-set_bit m hm = ground (
    arith,
    get_or-set bitmap (n / 8) (m / 8) (bit_or (get_or bitmap (n / 8) 0) (2 ^ (n % 8))),
    w.size,
    or_bit (get_or bitmap (n / 8) 0) (n % 8) (m % 8) (w.bytes (n / 8)),
  )

  -- Marking a block free changes the answer for that block alone.
  pub is_block_free-clear_bit :
      (m : ℕ)
      → m < 512
      → is_block_free (clear_bit bitmap n) m ≡ (if n == m then true else is_block_free bitmap m)
  unfolding clear_bit is_block_free
  is_block_free-clear_bit m hm = ground (
    arith,
    get_or-set bitmap (n / 8) (m / 8) (bit_and (get_or bitmap (n / 8) 0) (255 - 2 ^ (n % 8))),
    w.size,
    and_bit (get_or bitmap (n / 8) 0) (n % 8) (m % 8) (w.bytes (n / 8)),
  )

pub get_or-replicate : (n i : ℕ) → ◌≡◌ {A = ℕ} (get_or (replicate n 0) i 0) 0
get_or-replicate zero i = refl
get_or-replicate (suc n) zero = refl
get_or-replicate (suc n) (suc i) = get_or-replicate n i

-- The bitmap of a drive with no block in use.
pub zeros-IsBitmap : IsBitmap (replicate 64 0)
zeros-IsBitmap = record { size = refl; bytes = λ i. omega (arith, get_or-replicate 64 i) }
