-- ===== src/Fs/Inodes/Laws.antt =====
-- fs/filesystem.c: which inode `allocate_inode` gives out.
use ephemeral_os.Base.{
  subst, ℕ, zero, suc, ◌+◌, ◌≤◌, ◌<◌, ◌≡◌, refl, ◌≢◌, inl, inr, arith, no_index, ◌==◌,
  if◌then◌else◌, Bool-cases, length, get_or-set_self, get_or-set_ne,
}
use ephemeral_os.Fs.State.{Fs, zero_inode, inode_at}
use ephemeral_os.Fs.Inodes.{new_inode, take_inode, allocate_inode_from, allocate_inode}
use native.Mathlib.Decide.{ℕ_discrete}

-- No inode from `i` up to, and without, `j` is free.
abbrev pub AllTaken : Fs → ℕ → ℕ → Type 0
AllTaken fs i j = (m : ℕ) → i ≤ m → m < j → (inode_at fs m).type ≢ 0

-- What an allocation that looks at the inodes from `i` up to `j` comes to.
pub data InodeOutcome (fs : Fs) (i j : ℕ) (r : Fs × ℕ) : Type 0 where
  table_full : AllTaken fs i j → r ≡ (fs, no_index) → InodeOutcome fs i j r
  taken :
      (n : ℕ)
      → i ≤ n
      → n < j
      → (inode_at fs n).type ≡ 0
      → AllTaken fs i n
      → r ≡ (take_inode fs n, n)
      → InodeOutcome fs i j r

InodeOutcome-step :
    (fs : Fs) (i j : ℕ) (r : Fs × ℕ)
    → (inode_at fs i).type ≢ 0
    → InodeOutcome fs (i + 1) j r
    → InodeOutcome fs i j r
InodeOutcome-step fs i j r ne o = go o
  where
    step : (j : ℕ) → AllTaken fs (i + 1) j → AllTaken fs i j
    step j u m l k = elim (ℕ_discrete i m) [
      | yes p ↦ subst (λ m. (inode_at fs m).type ≢ 0) p ne
      | no q ↦ u m (omega arith) k
    ]

    go : InodeOutcome fs (i + 1) j r → InodeOutcome fs i j r
    go (table_full u p) = table_full (step j u) p
    go (taken n l k f u p) = taken n (omega arith) k f (step n u) p

allocate_inode_from-InodeOutcome :
    (fs : Fs) (n i j : ℕ) → i + n ≡ j → InodeOutcome fs i j (allocate_inode_from fs n i)
unfolding allocate_inode_from
allocate_inode_from-InodeOutcome fs zero i j e = table_full (λ m l k. absurd (omega arith)) refl
allocate_inode_from-InodeOutcome fs (suc n) i j e = elim (Bool-cases ((inode_at fs i).type == 0)) [
  | inl free ↦
      taken i (omega arith) (omega arith) (ground arith) (λ m l k. absurd (omega arith)) (rw free)
  | inr used ↦ rw used (
      InodeOutcome-step fs i j _ (ground arith)
        (allocate_inode_from-InodeOutcome fs n (i + 1) j (omega arith)))
]

-- `allocate_inode` either finds none of the 200 inodes free, and then changes nothing and answers
-- 0xFFFFFFFF, or answers the lowest free inode and turns it into an empty file with no block.
pub allocate_inode-InodeOutcome : (fs : Fs) → InodeOutcome fs 0 200 (allocate_inode fs)
unfolding allocate_inode
allocate_inode-InodeOutcome fs = allocate_inode_from-InodeOutcome fs 200 0 200 refl

-- In a table of 200 inodes, the inode that was taken reads as an empty file, and every other inode
-- reads as before.
pub inode_at-take_inode :
    (fs : Fs) (n m : ℕ)
    → length fs.inode_table ≡ 200
    → n < 200
    → inode_at (take_inode fs n) m ≡ (if n == m then new_inode else inode_at fs m)
unfolding take_inode
inode_at-take_inode fs n m s l = elim (ℕ_discrete n m) [
  | yes e ↦ ground (arith, get_or-set_self fs.inode_table n new_inode (zero_inode))
  | no ne ↦ ground (arith, get_or-set_ne fs.inode_table n m new_inode zero_inode ne)
]
