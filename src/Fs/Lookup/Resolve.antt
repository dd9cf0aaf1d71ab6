-- ===== src/Fs/Lookup/Resolve.antt =====
-- fs/filesystem.c: `find_inode_by_path` follows the components of the path from the root inode.
use ephemeral_os.Base.{
  ℕ, ◌≡◌, refl, ap, ◌∙◌, ◌≢◌, false, List, [], ◌∷◌, ◌++◌, append-nil, append_assoc, arith, Bytes,
  All, no_index, str_eq, str_eq_refl, ◌==◌, if◌then◌else◌, drop,
}
use ephemeral_os.Fs.State.{Fs}
use ephemeral_os.Fs.Path.{slash}
use ephemeral_os.Fs.Path.Components.{components, join, render, IsName, components-IsName}
use ephemeral_os.Fs.Path.Normal.{normalize_path_lem}
use ephemeral_os.Fs.Lookup.{find_component, is_empty, walk, find_inode_by_path}

-- The inode at the end of a chain of names, each looked up in the directory before it.
unfoldable pub resolve : Fs → ℕ → List Bytes → ℕ
resolve fs current [] = current
resolve fs current (w ∷ ws) =
    let found = find_component fs current w in
    let rest = resolve fs found ws in if found == no_index then no_index else rest

is_empty-name : (v r : Bytes) → v ≢ [] → is_empty (v ++ r) ≡ false
is_empty-name [] r h = absurd (h refl)
is_empty-name (c ∷ v) r h = refl

walk-resolve :
    (fs : Fs) (w : Bytes) (ws : List Bytes) (current : ℕ) (seen : Bytes)
    → All (λ c. c ≢ slash) w
    → All IsName ws
    → walk fs current seen (w ++ join ws) ≡ resolve fs current ((seen ++ w) ∷ ws)
unfolding walk resolve join
walk-resolve fs [] [] current seen hw hs = ground (arith, append-nil seen)
walk-resolve fs [] (v ∷ ws) current seen hw hs = ground (
  arith,
  append-nil seen,
  walk-resolve fs v ws (find_component fs current seen) [] hs.0.1 hs.1,
  is_empty-name v (join ws) hs.0.0,
)
walk-resolve fs (c ∷ w) ws current seen hw hs =
    ground
      (arith, walk-resolve fs w ws current (seen ++ c ∷ []) hw.1 hs, append_assoc seen (c ∷ []) w)

-- `find_inode_by_path` behind the call of `normalize_path`.
find_at : Fs → Bytes → ℕ
find_at fs normalized =
    if str_eq normalized (slash ∷ [])
    then fs.superblock.root_inode
    else if is_empty (drop 1 normalized)
    then fs.superblock.root_inode
    else walk fs fs.superblock.root_inode [] (drop 1 normalized)

str_eq-not_root : (w r : Bytes) → w ≢ [] → str_eq (slash ∷ w ++ r) (slash ∷ []) ≡ false
unfolding str_eq
str_eq-not_root [] r h = absurd (h refl)
str_eq-not_root (c ∷ w) r h = refl

find_at-render :
    (fs : Fs) (ws : List Bytes)
    → All IsName ws
    → find_at fs (render ws) ≡ resolve fs fs.superblock.root_inode ws
unfolding find_at resolve render join
find_at-render fs [] h = rw (str_eq_refl (slash ∷ []))
find_at-render fs (w ∷ ws) h =
    rw (str_eq-not_root w (join ws) h.0.0, is_empty-name w (join ws) h.0.0)
      (walk-resolve fs w ws fs.superblock.root_inode [] h.0.1 h.1)

-- `find_inode_by_path` returns what following the path's components from the root inode returns.
pub find_inode_by_path_lem :
    (fs : Fs) (path : Bytes)
    → find_inode_by_path fs path ≡ resolve fs fs.superblock.root_inode (components path)
unfolding find_inode_by_path find_at
find_inode_by_path_lem fs path =
    ap (find_at fs) (normalize_path_lem path)
    ∙ find_at-render fs (components path) (components-IsName path)
