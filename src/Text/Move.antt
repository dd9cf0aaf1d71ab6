-- ===== src/Text/Move.antt =====
-- kernel/string.c: `memmove` between regions of one memory that may overlap.
use ephemeral_os.Base.{
  ◌∙◌, ℕ, zero, suc, ◌+◌, ◌-◌, ◌≤◌, ◌≡◌, refl, ◌&&◌, ltb, leb, if◌then◌else◌, arith, length, get_or,
  set, length-set, get_or-set_self, get_or-set_ne, Bytes, Bool-cases, inl, inr,
}
use native.Mathlib.Decide.{ℕ_discrete}
use ephemeral_os.Text.{copy_up, copy_down, memmove}

-- The byte at address `j` once the `n` bytes at `s` have been moved to `d` all at once.
abbrev pub moved : Bytes → ℕ → ℕ → ℕ → ℕ → ℕ
moved m d s n j = if leb d j && ltb j (d + n) then get_or m (s + j - d) 0 else get_or m j 0

pub length-copy_up : (n : ℕ) (m : Bytes) (d s : ℕ) → length (copy_up m d s n) ≡ length m
unfolding copy_up
length-copy_up zero m d s = refl
length-copy_up (suc n) m d s =
    length-copy_up n (set m d (get_or m s 0)) (d + 1) (s + 1) ∙ length-set m d (get_or m s 0)

pub copy_up_lem :
    (n : ℕ) (m : Bytes) (d s j : ℕ)
    → d ≤ s
    → d + n ≤ length m
    → get_or (copy_up m d s n) j 0 ≡ moved m d s n j
unfolding copy_up
copy_up_lem zero m d s j h l = ground arith
copy_up_lem (suc n) m d s j h l =
    let v : ℕ = get_or m s 0 in
    elim (ℕ_discrete d j) [
      | yes e ↦ ground (
        arith,
        copy_up_lem n (set m d v) (d + 1) (s + 1) j (omega arith) (omega (arith, length-set m d v)),
        get_or-set_self m d v 0,
      )
      | no ne ↦ ground (
        arith,
        copy_up_lem n (set m d v) (d + 1) (s + 1) j (omega arith) (omega (arith, length-set m d v)),
        get_or-set_ne m d j v 0 ne,
        get_or-set_ne m d (s + 1 + j - (d + 1)) v 0,
      )
    ]

copy_down_lem :
    (n : ℕ) (m : Bytes) (d s j : ℕ)
    → s ≤ d
    → d + n ≤ length m
    → get_or (copy_down m d s n) j 0 ≡ moved m d s n j
unfolding copy_down
copy_down_lem zero m d s j h l = ground arith
copy_down_lem (suc n) m d s j h l =
    let v : ℕ = get_or m (s + n) 0 in
    elim (ℕ_discrete (d + n) j) [
      | yes e ↦ ground (
        arith,
        copy_down_lem n (set m (d + n) v) d s j h (omega (arith, length-set m (d + n) v)),
        get_or-set_self m (d + n) v 0,
      )
      | no ne ↦ ground (
        arith,
        copy_down_lem n (set m (d + n) v) d s j h (omega (arith, length-set m (d + n) v)),
        get_or-set_ne m (d + n) j v 0 ne,
        get_or-set_ne m (d + n) (s + j - d) v 0,
      )
    ]

-- `memmove` gives each byte of the destination the value that its source byte had before the call,
-- and leaves every other byte of the memory alone, however the two regions overlap.
pub memmove_lem :
    (m : Bytes) (d s n j : ℕ) → d + n ≤ length m → get_or (memmove m d s n) j 0 ≡ moved m d s n j
unfolding memmove
memmove_lem m d s n j l = elim (Bool-cases (ltb d s)) [
  | inl e ↦ rw e (copy_up_lem n m d s j (ground arith) l)
  | inr e ↦ rw e (copy_down_lem n m d s j (ground arith) l)
]
