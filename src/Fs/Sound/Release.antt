-- ===== src/Fs/Sound/Release.antt =====
-- fs/filesystem.c: `free_inode` takes the blocks of one inode back and leaves the others theirs.
use native.Mathlib.Decide.{ℕ_discrete}
use ephemeral_os.Base.{
  subst, ℕ, zero, suc, ◌<◌, ◌≡◌, refl, sym, ap, ◌∙◌, ◌≢◌, ◌⊎◌, inl, inr, false, List, [], ◌∷◌,
  arith, leb, ◌==◌, if◌then◌else◌, Bool-cases, get_or, get_or-set_ne,
}
use ephemeral_os.Fs.State.{Fs, Inode, inode_at, set_inode, zero_inode}
use ephemeral_os.Fs.Bitmap.{is_block_free, mark_block_free, clear_bit}
use ephemeral_os.Fs.Bitmap.Bits.{get_or-replicate, IsBitmap, is_block_free-clear_bit}
use ephemeral_os.Fs.Bitmap.Allocate.{IsCounted, mark_block_free-IsCounted}
use ephemeral_os.Fs.Inodes.{free_blocks_of, free_inode}
use ephemeral_os.Fs.Sound.{get_or-set_same, pointer, IsSound, Fewer-IsSound}

-- Pointers to used blocks, none twice.
record AreUsed (fs : Fs) (bs : List ℕ) : Type 0 where
  lt : (k : ℕ) → get_or bs k 0 < 512
  used : (k : ℕ) → get_or bs k 0 ≢ 0 → is_block_free fs.block_bitmap (get_or bs k 0) ≡ false
  distinct : (k l : ℕ) → get_or bs k 0 ≢ 0 → get_or bs k 0 ≡ get_or bs l 0 → k ≡ l

abbrev Avoids : List ℕ → ℕ → Type 0
Avoids bs m = (k : ℕ) → get_or bs k 0 ≢ 0 → get_or bs k 0 ≢ m

-- What the loop over the pointers leaves.
record Freed (fs : Fs) (bs : List ℕ) (r : Fs × List ℕ) : Type 0 where
  counted : IsCounted r.0
  table : r.0.inode_table ≡ fs.inode_table
  others :
      (m : ℕ)
      → m < 512
      → Avoids bs m
      → is_block_free r.0.block_bitmap m ≡ is_block_free fs.block_bitmap m
  zeros : (k : ℕ) → get_or r.1 k 0 ≡ 0

mark_block_free-parts :
    (fs : Fs) (b : ℕ)
    → b < 512
    → ((mark_block_free fs b).block_bitmap ≡ clear_bit fs.block_bitmap b)
      × ((mark_block_free fs b).inode_table ≡ fs.inode_table)
unfolding mark_block_free
mark_block_free-parts fs b l = ground arith

mark_block_free-free :
    (fs : Fs) (b m : ℕ)
    → IsBitmap fs.block_bitmap
    → b < 512
    → m < 512
    → b ≢ m
    → is_block_free (mark_block_free fs b).block_bitmap m ≡ is_block_free fs.block_bitmap m
mark_block_free-free fs b m w l k ne =
    rw (mark_block_free-parts fs b l).0
      (ground (arith, is_block_free-clear_bit fs.block_bitmap b w l m k))

AreUsed-tail :
    (fs : Fs) (b : ℕ) (bs : List ℕ)
    → IsCounted fs
    → AreUsed fs (b ∷ bs)
    → AreUsed (if b == 0 then fs else mark_block_free fs b) bs
AreUsed-tail fs b bs w u = record {
  lt = λ k. u.lt (suc k);
  used = λ k ne. elim (Bool-cases (b == 0)) [
    | inl z ↦ rw z (u.used (suc k) ne)
    | inr n ↦ rw n (
        mark_block_free-free fs b (get_or bs k 0) w.bitmap (u.lt 0) (u.lt (suc k))
          (λ e. apart k n e)
        ∙ u.used (suc k) ne)
  ];
  distinct = λ k l ne e. suc_injective (u.distinct (suc k) (suc l) ne e);
}
  where
    suc_injective : {k l : ℕ} → suc k ≡ suc l → k ≡ l
    suc_injective e = omega arith

    apart : (k : ℕ) → (b == 0) ≡ false → b ≢ get_or bs k 0
    apart k n e = let z : 0 ≡ suc k = u.distinct 0 (suc k) (ground arith) e in absurd (omega arith)

next-IsCounted :
    (fs : Fs) (b : ℕ) (bs : List ℕ)
    → IsCounted fs
    → AreUsed fs (b ∷ bs)
    → IsCounted (if b == 0 then fs else mark_block_free fs b)
next-IsCounted fs b bs w u = elim (Bool-cases (b == 0)) [
  | inl z ↦ rw z w
  | inr n ↦ rw n (mark_block_free-IsCounted fs b (u.used 0 (ground arith)) (u.lt 0) w)
]

free_blocks_of-Freed :
    (bs : List ℕ) (fs : Fs) → IsCounted fs → AreUsed fs bs → Freed fs bs (free_blocks_of fs bs)
unfolding free_blocks_of
free_blocks_of-Freed [] fs w u = record {
  counted = w;
  table = refl;
  others = λ m l a. refl;
  zeros = λ k. refl;
}
free_blocks_of-Freed (b ∷ bs) fs w u =
    let fs1 : Fs = if b == 0 then fs else mark_block_free fs b in
    let ih : Freed fs1 bs (free_blocks_of fs1 bs) =
      free_blocks_of-Freed bs fs1 (next-IsCounted fs b bs w u) (AreUsed-tail fs b bs w u) in
    record {
      counted = ih.counted;
      table = ih.table ∙ ground (arith, mark_block_free-parts fs b (u.lt 0));
      others = λ m l a. ih.others m l (λ k. a (suc k)) ∙ head m l a;
      zeros = λ k. zeros_cons (free_blocks_of fs1 bs).1 ih.zeros k;
    }
  where
    head :
        (m : ℕ)
        → m < 512
        → Avoids (b ∷ bs) m
        → is_block_free (if b == 0 then fs else mark_block_free fs b).block_bitmap m
          ≡ is_block_free fs.block_bitmap m
    head m l a = elim (Bool-cases (b == 0)) [
      | inl z ↦ rw z refl
      | inr n ↦ rw n (mark_block_free-free fs b m w.bitmap (u.lt 0) l (a 0 (ground arith)))
    ]

    zeros_cons : (xs : List ℕ) → ((k : ℕ) → get_or xs k 0 ≡ 0) → (k : ℕ) → get_or (0 ∷ xs) k 0 ≡ 0
    zeros_cons xs h zero = refl
    zeros_cons xs h (suc k) = h k

module _ (fs : Fs) (i : ℕ) (w : IsSound fs) where
  bs : List ℕ
  bs = (inode_at fs i).blocks

  freed : Freed fs bs (free_blocks_of fs bs)
  unfolding bs
  freed =
      free_blocks_of-Freed bs fs w.counted (record {
        lt = w.lt i;
        used = w.used i;
        distinct = λ k l ne e. (w.distinct i k i l ne e).1;
      })

  emptied : Inode
  unfolding bs
  emptied = record (inode_at fs i) { type = 0; size = 0; blocks = (free_blocks_of fs bs).1 }

  after : Fs
  after = set_inode (free_blocks_of fs bs).0 i emptied

  after-pointer :
      (j k : ℕ) → (pointer after j k ≡ 0) ⊎ ((i ≢ j) × (pointer after j k ≡ pointer fs j k))
  unfolding after emptied
  after-pointer j k = elim (ℕ_discrete i j) [
    | yes e ↦ inl (subst (λ j. pointer after j k ≡ 0) e own)
    | no ne ↦ inr (
      ne,
      ap (λ (n : Inode). get_or n.blocks k 0)
            (get_or-set_ne (free_blocks_of fs bs).0.inode_table i j emptied zero_inode ne)
          ∙ ap (λ (t : List Inode). get_or (get_or t j zero_inode).blocks k 0) freed.table,
    )
  ]
    where
      own : pointer after i k ≡ 0
      own = elim (get_or-set_same (free_blocks_of fs bs).0.inode_table i emptied zero_inode) [
        | inl p ↦ ap (λ (n : Inode). get_or n.blocks k 0) p ∙ freed.zeros k
        | inr p ↦ ap (λ (n : Inode). get_or n.blocks k 0) p ∙ get_or-replicate 12 k
      ]

  kept : (j k : ℕ) → pointer after j k ≢ 0 → (i ≢ j) × (pointer after j k ≡ pointer fs j k)
  kept j k ne = elim (after-pointer j k) [ inl z ↦ absurd (ne z) | inr h ↦ h ]

  after-IsSound : IsSound after
  unfolding after bs
  after-IsSound = record {
    counted = record { bitmap = freed.counted.bitmap; counted = freed.counted.counted };
    lt = λ j k. elim (after-pointer j k) [
      | inl z ↦ rw z (omega arith)
      | inr (ne, p) ↦ rw p (w.lt j k)
    ];
    used = λ j k ne.
        let h = kept j k ne in
        rw h.1 (
          freed.others (pointer fs j k) (w.lt j k) (λ m nm e. h.0 (w.distinct i m j k nm e).0)
          ∙ w.used j k (λ z. ne (h.1 ∙ z)));
    distinct = λ j k l m ne e.
        let h = kept j k ne in
        let g = kept l m (λ z. ne (e ∙ z)) in
        w.distinct j k l m (λ z. ne (h.1 ∙ z)) (sym h.1 ∙ e ∙ g.1);
  }

-- Freeing an inode keeps the ownership of blocks sound.
pub free_inode-IsSound : (fs : Fs) (i : ℕ) → IsSound fs → IsSound (free_inode fs i)
unfolding free_inode after emptied bs
free_inode-IsSound fs i w = elim (Bool-cases (leb 200 i)) [
  | inl out ↦ rw out w
  | inr within ↦
      rw within (Fewer-IsSound (after fs i w) _ (after-IsSound fs i w) refl refl (λ j k. inl refl))
]
