-- ===== src/Fs/Path/Split.antt =====
-- fs/filesystem.c: `split_path` cuts the last component off.
use mathlib.Core.Path.{subst}
use native.Mathlib.Nat.{zero-add}
use ephemeral_os.Base.{
  ℕ, suc, ◌+◌, ◌≡◌, ◌≢◌, ◌∙◌, ◌⊎◌, ap, refl, false, [], ◌∷◌, ◌++◌, List, Bytes, All, ◌==◌,
  if◌then◌else◌, arith, length, drop, take, take-append, append_assoc, append-nil, inl, inr, str_eq,
}
use ephemeral_os.Fs.Path.{slash, last_slash, split_path}
use ephemeral_os.Fs.Path.Components.{components, join, render, IsName, components-IsName}
use ephemeral_os.Fs.Path.Normal.{normalize_path_lem}

last_slash_none : (w : Bytes) (best i : ℕ) → All (λ c. c ≢ slash) w → last_slash best i w ≡ best
unfolding last_slash
last_slash_none [] best i h = refl
last_slash_none (c ∷ w) best i h = ground (arith, last_slash_none w best (i + 1) h.1)

last_slash_lem :
    (xs w : Bytes) (best i : ℕ)
    → All (λ c. c ≢ slash) w
    → last_slash best i (xs ++ slash ∷ w) ≡ i + length xs
unfolding last_slash
last_slash_lem [] w best i h = ground (arith, last_slash_none w i (i + 1) h)
last_slash_lem (x ∷ xs) w best i h =
    omega (arith, last_slash_lem xs w (if x == slash then i else best) (i + 1) h)

join-append : (ws : List Bytes) (w : Bytes) → join (ws ++ w ∷ []) ≡ join ws ++ slash ∷ w
unfolding join
join-append [] w = rw append-nil
join-append (v ∷ ws) w = rw (join-append ws w, append_assoc v (join ws) (slash ∷ w))

All-last : (ws : List Bytes) (w : Bytes) → All IsName (ws ++ w ∷ []) → IsName w
All-last [] w h = h.0
All-last (v ∷ ws) w h = All-last ws w h.1

-- `split_path` of a normalized path.
cut : Bytes → Bytes × Bytes
cut normalized =
    if str_eq normalized (slash ∷ [])
    then (slash ∷ [], [])
    else let at = last_slash 0 0 normalized in
      if at == 0
      then (slash ∷ [], drop (at + 1) normalized)
      else (take at normalized, drop (at + 1) normalized)

drop-slash : (xs w : Bytes) → drop (length xs + 1) (xs ++ slash ∷ w) ≡ w
drop-slash [] w = refl
drop-slash (x ∷ xs) w = rw (add_one_suc (length xs)) (drop-slash xs w)
  where
    add_one_suc : (n : ℕ) → suc n + 1 ≡ suc (n + 1)
    add_one_suc n = omega arith

not_root : (xs w : Bytes) → w ≢ [] → str_eq (xs ++ slash ∷ w) (slash ∷ []) ≡ false
unfolding str_eq
not_root [] [] h = absurd (h refl)
not_root [] (c ∷ w) h = refl
not_root (x ∷ []) w h = ground arith
not_root (x ∷ y ∷ xs) w h = ground arith

-- The bytes before the last slash, or the root.
abbrev or_root : Bytes → Bytes
or_root xs = if length xs == 0 then slash ∷ [] else xs

cut_lem : (xs w : Bytes) → IsName w → cut (xs ++ slash ∷ w) ≡ (or_root xs, w)
unfolding cut
cut_lem xs w h =
    rw
      (
        not_root xs w h.0,
        last_slash_lem xs w 0 0 h.1,
        zero-add,
        drop-slash xs w,
        take-append xs (slash ∷ w),
      )
      (ground arith)

or_root-join : (ws : List Bytes) → or_root (join ws) ≡ render ws
unfolding join render
or_root-join [] = refl
or_root-join (w ∷ ws) = ground arith

render-snoc : (ws : List Bytes) (w : Bytes) → render (ws ++ w ∷ []) ≡ join ws ++ slash ∷ w
unfolding render
render-snoc [] w = join-append [] w
render-snoc (v ∷ ws) w = join-append (v ∷ ws) w

-- `split_path` of a path with at least one component returns the path of all components but the
-- last, and the last one.
pub split_path_lem :
    (path : Bytes) (ws : List Bytes) (w : Bytes)
    → components path ≡ ws ++ w ∷ []
    → split_path path ≡ (render ws, w)
unfolding split_path cut
split_path_lem path ws w e =
    ap cut (normalize_path_lem path ∙ ap render e ∙ render-snoc ws w)
    ∙ cut_lem (join ws) w (All-last ws w (subst (All IsName) e (components-IsName path)))
    ∙ ap (λ p. (p, w)) (or_root-join ws)

-- `split_path` of a path with no component returns the root and an empty name.
pub split_path_root : (path : Bytes) → components path ≡ [] → split_path path ≡ (slash ∷ [], [])
unfolding split_path cut render
split_path_root path e = ap cut (normalize_path_lem path ∙ ap render e)

-- A list is empty or ends with an element.
pub snoc_cases :
    (ws : List Bytes) → (ws ≡ []) ⊎ ((vs : List Bytes) × (w : Bytes) × (ws ≡ vs ++ w ∷ []))
snoc_cases [] = inl refl
snoc_cases (x ∷ xs) = inr (elim (snoc_cases xs) [
  | inl e ↦ ([], x, ap (◌∷◌ x) e)
  | inr (vs, w, e) ↦ (x ∷ vs, w, ap (◌∷◌ x) e)
])
