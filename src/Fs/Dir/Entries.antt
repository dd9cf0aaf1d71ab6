-- ===== src/Fs/Dir/Entries.antt =====
-- fs/filesystem.c: the loops over a directory's entries, as a map from names to inodes.
use ephemeral_os.Base.{
  subst, ℕ, suc, ◌^◌, ◌<◌, ◌≡◌, refl, ap, ◌∙◌, ◌⊎◌, inl, inr, Bool, true, false, ◌&&◌, some, [],
  ◌∷◌, ◌++◌, arith, Bytes, All, str_eq, str_eq→eq, ◌==◌, if◌then◌else◌, Bool-cases, Option-cases,
  length, drop, length-append, length-drop,
}
use ephemeral_os.Text.Compare.{NulFree}
use ephemeral_os.Fs.Dir.{DirEntry, DirBlock, c_str, store_name, find_entry, add_entry}
use ephemeral_os.Fs.Dir.RoundTrip.{IsEntry}

pub c_str-append : (s rest : Bytes) → NulFree s → c_str (s ++ 0 ∷ rest) ≡ s
unfolding c_str
c_str-append [] rest h = refl
c_str-append (c ∷ s) rest h = ground (arith, c_str-append s rest h.1)

-- The entry is in use under the name.
abbrev pub holds : DirEntry → Bytes → Bool
holds e name = e.in_use == 1 && str_eq (c_str e.name) name

-- No entry is in use under the name.
abbrev pub Absent : Bytes → DirBlock → Type 0
Absent name = All (λ e. holds e name ≡ false)

-- What a use of the entry `e` for `name` makes of it.
abbrev pub filled : DirEntry → Bytes → ℕ → DirEntry
filled e name inode = record { name = store_name e.name name; inode = inode; in_use = 1 }

pub filled-IsEntry :
    (e : DirEntry) (name : Bytes) (inode : ℕ)
    → length name < 28
    → inode < 2 ^ 32
    → IsEntry e
    → IsEntry (filled e name inode)
unfolding store_name
filled-IsEntry e name inode l k h = record {
  name =
      length-append name (0 ∷ drop (suc (length name)) e.name)
      ∙ omega (arith, length-drop {0} (suc (length name)) e.name, h.name);
  inode = k;
}

find_entry-filled :
    (e : DirEntry) (d : DirBlock) (name other : Bytes) (inode : ℕ)
    → NulFree name
    → find_entry (filled e name inode ∷ d) other
      ≡ (if str_eq name other then inode else find_entry d other)
unfolding find_entry store_name
find_entry-filled e d name other inode h =
    ground (arith, c_str-append name (drop (suc (length name)) e.name) h)

find_entry-cons :
    (x : DirEntry) (d : DirBlock) (other : Bytes)
    → find_entry (x ∷ d) other ≡ (if holds x other then x.inode else find_entry d other)
unfolding find_entry
find_entry-cons x d other = refl

add_entry-cases :
    (x : DirEntry) (d : DirBlock) {d' : DirBlock} (name : Bytes) (inode : ℕ)
    → add_entry (x ∷ d) name inode ≡ some d'
    → ((x.in_use == 1) ≡ false) × (d' ≡ filled x name inode ∷ d)
      ⊎ (t : DirBlock) × ((x.in_use == 1) ≡ true) × (add_entry d name inode ≡ some t) × (d' ≡ x ∷ t)
unfolding add_entry
add_entry-cases x d name inode e = elim (Option-cases (add_entry d name inode)) [
  | inl n ↦ inl (ground arith)
  | inr (t, n) ↦ elim (Bool-cases (x.in_use == 1)) [
    | inl u ↦ inr (t, ground arith, ground arith, ground arith)
    | inr u ↦ inl (ground arith)
  ]
]

holds-other :
    (x : DirEntry) (name other : Bytes)
    → holds x name ≡ false
    → str_eq name other ≡ true
    → holds x other ≡ false
holds-other x name other h e = subst (λ o. holds x o ≡ false) (str_eq→eq name other e) h

-- When an entry is added under a name without NUL that no entry in use has, a later search for the
-- name gives its inode, and the answer for no other name changes.
pub find_entry-add_entry :
    (d : DirBlock) {d' : DirBlock} (name other : Bytes) (inode : ℕ)
    → NulFree name
    → Absent name d
    → add_entry d name inode ≡ some d'
    → find_entry d' other ≡ (if str_eq name other then inode else find_entry d other)
unfolding add_entry
find_entry-add_entry [] name other inode h a e = cc
find_entry-add_entry (x ∷ d) {d'} name other inode h a e = elim (add_entry-cases x d name inode e) [
  | inl (u, p) ↦
      rw p (find_entry-filled x d name other inode h ∙ ground (arith, find_entry-cons x d other, u))
  | inr (t, u, q, p) ↦ rw p (
      ground (
        arith,
        find_entry-cons x d other,
        find_entry-cons x t other,
        find_entry-add_entry d name other inode h a.1 q,
        holds-other x name other a.0,
      ))
]

abbrev pub AllInUse : DirBlock → Type 0
AllInUse = All (λ e. (e.in_use == 1) ≡ true)

-- In a directory whose first entries are all in use and whose last is not, the last is taken.
pub add_entry-last :
    (d : DirBlock) (x : DirEntry) (name : Bytes) (inode : ℕ)
    → AllInUse d
    → (x.in_use == 1) ≡ false
    → add_entry (d ++ x ∷ []) name inode ≡ some (d ++ filled x name inode ∷ [])
unfolding add_entry
add_entry-last [] x name inode h u = ground arith
add_entry-last (y ∷ d) x name inode h u = ground (arith, add_entry-last d x name inode h.1 u)

-- An entry that is taken from the first ones leaves what follows alone.
pub add_entry-append :
    (d : DirBlock) {d' : DirBlock} (r : DirBlock) (name : Bytes) (inode : ℕ)
    → add_entry d name inode ≡ some d'
    → add_entry (d ++ r) name inode ≡ some (d' ++ r)
unfolding add_entry
add_entry-append [] r name inode e = cc
add_entry-append (x ∷ d) r name inode e = elim (add_entry-cases x d name inode e) [
  | inl (u, p) ↦ rw p (ground arith)
  | inr (t, u, q, p) ↦ rw p (ground (arith, add_entry-append d r name inode q))
]

pub add_entry-IsEntry :
    (d : DirBlock) {d' : DirBlock} (name : Bytes) (inode : ℕ)
    → length name < 28
    → inode < 2 ^ 32
    → All IsEntry d
    → add_entry d name inode ≡ some d'
    → All IsEntry d' × (length d' ≡ length d)
unfolding add_entry
add_entry-IsEntry [] name inode l k h e = cc
add_entry-IsEntry (x ∷ d) name inode l k h e = elim (add_entry-cases x d name inode e) [
  | inl (u, p) ↦ rw p ((filled-IsEntry x name inode l k h.0, h.1), refl)
  | inr (t, u, q, p) ↦
      let ih = add_entry-IsEntry d name inode l k h.1 q in rw p ((h.0, ih.0), ap suc ih.1)
]

-- An entry that is not in use at the end is never found.
pub find_entry-append :
    (d : DirBlock) (x : DirEntry) (name : Bytes)
    → (x.in_use == 1) ≡ false
    → find_entry (d ++ x ∷ []) name ≡ find_entry d name
unfolding find_entry
find_entry-append [] x name u = ground arith
find_entry-append (y ∷ d) x name u = ground (arith, find_entry-append d x name u)
