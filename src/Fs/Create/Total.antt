-- ===== src/Fs/Create/Total.antt =====
-- fs/filesystem.c: the recursion of `fs_create_dir` for missing parents ends.
use ephemeral_os.Fs.Path.{split_path, slash}
use ephemeral_os.Base.{
  subst, ℕ, zero, suc, ◌≤◌, ◌<◌, ◌≡◌, refl, ap, ◌≢◌, inl, inr, List, [], ◌∷◌, ◌++◌, arith, Bytes,
  All, ◌==◌, Bool-cases, length, length-append,
}
use ephemeral_os.Fs.Create.{
  fs_create_dir, create_dir_fuel, make_in_parent, make_dir, Status, success, failure, out_of_fuel,
}
use ephemeral_os.Fs.State.{Fs}
use ephemeral_os.Fs.Path.Components.{
  pieces, non_empty, components, render, components-render, components-IsName, IsName,
}
use ephemeral_os.Fs.Path.Split.{split_path_lem, split_path_root, snoc_cases}
use ephemeral_os.Fs.Lookup.{find_inode_by_path}

-- The call came back with 0 or -1.
abbrev pub Returns : Fs × Status → Type 0
Returns r = r.1 ≢ out_of_fuel

make_dir-Returns : (fs : Fs) (parent : ℕ) (name : Bytes) → Returns (make_dir fs parent name)
unfolding make_dir
make_dir-Returns fs parent name = ground arith

make_in_parent-Returns :
    (path name : Bytes) (r : Fs × Status) → Returns r → Returns (make_in_parent path name r)
unfolding make_in_parent
make_in_parent-Returns path name (fs, success) h =
    ground (arith, make_dir-Returns fs (find_inode_by_path fs path) name)
make_in_parent-Returns path name (fs, failure) h = h
make_in_parent-Returns path name (fs, out_of_fuel) h = absurd (h refl)

pub All-init : (ws : List Bytes) (w : Bytes) → All IsName (ws ++ w ∷ []) → All IsName ws
All-init [] w h = tt
All-init (v ∷ ws) w h = (h.0, All-init ws w h.1)

create_dir_fuel-snoc :
    (fuel : ℕ) (fs : Fs) (path name : Bytes) (ws : List Bytes)
    → split_path path ≡ (render ws, name)
    → Returns (create_dir_fuel fuel fs (render ws))
    → Returns (create_dir_fuel (suc fuel) fs path)
unfolding create_dir_fuel
create_dir_fuel-snoc fuel fs path name ws e h = ground (
  arith,
  e,
  make_dir-Returns fs (find_inode_by_path fs (render ws)) name,
  make_in_parent-Returns (render ws) name (create_dir_fuel fuel fs (render ws)) h,
)

create_dir_fuel-root :
    (fuel : ℕ) (fs : Fs) (path : Bytes)
    → (split_path path).1 ≡ []
    → Returns (create_dir_fuel (suc fuel) fs path)
unfolding create_dir_fuel
create_dir_fuel-root fuel fs path e = ground arith

create_dir_fuel-Returns :
    (fuel : ℕ) (fs : Fs) (path : Bytes)
    → length (components path) < fuel
    → Returns (create_dir_fuel fuel fs path)
create_dir_fuel-Returns zero fs path h = absurd (omega arith)
create_dir_fuel-Returns (suc fuel) fs path h = elim (snoc_cases (components path)) [
  | inl e ↦ create_dir_fuel-root fuel fs path (ap (λ p. p.1) (split_path_root path e))
  | inr (ws, w, e) ↦ create_dir_fuel-snoc fuel fs path w ws (split_path_lem path ws w e) (
      create_dir_fuel-Returns fuel fs (render ws) (
        let names : All IsName (ws ++ w ∷ []) = subst (All IsName) e (components-IsName path) in
        rw (components-render ws (All-init ws w names))
          (omega (arith, ap length e, length-append {0} ws (w ∷ [])))))
]

length-non_empty : (ws : List Bytes) → length (non_empty ws) ≤ length ws
unfolding non_empty
length-non_empty [] = omega arith
length-non_empty ([] ∷ ws) = omega (arith, length-non_empty ws)
length-non_empty ((c ∷ w) ∷ ws) = omega (arith, length-non_empty ws)

length-pieces : (path : Bytes) → length (pieces path).1 ≤ length path
unfolding pieces
length-pieces [] = omega arith
length-pieces (c ∷ cs) = ground (arith, length-pieces cs)

-- A path of `n` bytes has at most `n` components.
pub length-components : (path : Bytes) → length (components path) ≤ length path
unfolding components non_empty pieces
length-components [] = omega arith
length-components (c ∷ cs) = elim (Bool-cases (c == slash)) [
  | inl e ↦ rw e (omega (arith, length-non_empty ((pieces cs).0 ∷ (pieces cs).1), length-pieces cs))
  | inr e ↦ rw e (omega (arith, length-non_empty (pieces cs).1, length-pieces cs))
]

-- `fs_create_dir` returns, with 0 or -1, whatever the state and the path: its recursion for the
-- missing parents ends within one call for each byte of the path.
pub fs_create_dir-Returns : (fs : Fs) (path : Bytes) → Returns (fs_create_dir fs path)
unfolding fs_create_dir
fs_create_dir-Returns fs path =
    create_dir_fuel-Returns (suc (length path)) fs path (omega (arith, length-components path))
