-- ===== src/Fs/Sound.antt =====
-- fs/filesystem.c: which inode owns which block. Two inodes never share a block, the bitmap marks
-- every block of an inode, and the superblock counts the free ones.
pub mod Release
pub mod Kept
pub mod Installed
use ephemeral_os.Base.{
  ℕ, zero, suc, ◌-◌, ◌<◌, ◌≡◌, refl, sym, ap, ◌∙◌, ◌≢◌, ◌⊎◌, inl, inr, false, List, [], ◌∷◌, arith,
  get_or, set,
}
use ephemeral_os.Fs.State.{Fs, inode_at}
use ephemeral_os.Fs.Bitmap.{is_block_free}
use ephemeral_os.Fs.Bitmap.Allocate.{IsCounted, free_count}

-- `inode_table[i].blocks[k]`; 0 is no block.
abbrev pub pointer : Fs → ℕ → ℕ → ℕ
pointer fs i k = get_or (inode_at fs i).blocks k 0

pub record IsSound (fs : Fs) : Type 0 where
  pub counted : IsCounted fs
  pub lt : (i k : ℕ) → pointer fs i k < 512
  pub used : (i k : ℕ) → pointer fs i k ≢ 0 → is_block_free fs.block_bitmap (pointer fs i k) ≡ false
  pub distinct :
      (i k j l : ℕ) → pointer fs i k ≢ 0 → pointer fs i k ≡ pointer fs j l → (i ≡ j) × (k ≡ l)

-- A pointer of the new state is that of the old one, or none.
abbrev pub Fewer : Fs → Fs → Type 0
Fewer fs fs' = (i k : ℕ) → (pointer fs' i k ≡ pointer fs i k) ⊎ (pointer fs' i k ≡ 0)

pub get_or-set_cases {ℓ} :
    {A : Type ℓ} (xs : List A) (i j : ℕ) (v d : A)
    → (get_or (set xs i v) j d ≡ get_or xs j d) ⊎ ((i ≡ j) × (get_or (set xs i v) j d ≡ v))
get_or-set_cases [] i j v d = inl refl
get_or-set_cases (x ∷ xs) zero zero v d = inr (refl, refl)
get_or-set_cases (x ∷ xs) zero (suc j) v d = inl refl
get_or-set_cases (x ∷ xs) (suc i) zero v d = inl refl
get_or-set_cases (x ∷ xs) (suc i) (suc j) v d = elim (get_or-set_cases xs i j v d) [
  | inl p ↦ inl p
  | inr (e, p) ↦ inr (ap suc e, p)
]

pub get_or-set_same {ℓ} :
    {A : Type ℓ} (xs : List A) (i : ℕ) (v d : A)
    → (get_or (set xs i v) i d ≡ v) ⊎ (get_or (set xs i v) i d ≡ d)
get_or-set_same [] i v d = inr refl
get_or-set_same (x ∷ xs) zero v d = inl refl
get_or-set_same (x ∷ xs) (suc i) v d = get_or-set_same xs i v d

-- A pointer that is not none is an old one.
pub Fewer-eq :
    (fs fs' : Fs) (i k : ℕ) → Fewer fs fs' → pointer fs' i k ≢ 0 → pointer fs' i k ≡ pointer fs i k
Fewer-eq fs fs' i k f ne = elim (f i k) [ inl p ↦ p | inr z ↦ absurd (ne z) ]

-- With the same bitmap and count, fewer pointers are sound.
pub Fewer-IsSound :
    (fs fs' : Fs)
    → IsSound fs
    → fs'.block_bitmap ≡ fs.block_bitmap
    → fs'.superblock.free_blocks ≡ fs.superblock.free_blocks
    → Fewer fs fs'
    → IsSound fs'
Fewer-IsSound fs fs' w b c f = record {
  counted = record {
    bitmap = rw b w.counted.bitmap;
    counted = c ∙ w.counted.counted ∙ ap free_count (sym b);
  };
  lt = λ i k. elim (f i k) [ inl p ↦ rw p (w.lt i k) | inr z ↦ rw z (omega arith) ];
  used = λ i k ne.
      let p : pointer fs' i k ≡ pointer fs i k = Fewer-eq fs fs' i k f ne in
      rw (b, p) (w.used i k (λ e. ne (p ∙ e)));
  distinct = λ i k j l ne e.
      let p : pointer fs' i k ≡ pointer fs i k = Fewer-eq fs fs' i k f ne in
      let q : pointer fs' j l ≡ pointer fs j l = Fewer-eq fs fs' j l f (λ z. ne (e ∙ z)) in
      w.distinct i k j l (λ z. ne (p ∙ z)) (sym p ∙ e ∙ q);
}
