-- ===== src/Fs/Path/Components.antt =====
-- What a path means: the non-empty names between its slashes. `render` writes them back.
use ephemeral_os.Base.{
  ◌∙◌, ℕ, ◌≡◌, ◌≢◌, refl, [], ◌∷◌, ◌++◌, List, Bytes, All, ◌==◌, if◌then◌else◌, arith, ap,
  append-nil, Bool-cases, inl, inr,
}
use ephemeral_os.Fs.Path.{slash}

-- The bytes before the first slash, and the pieces after it.
unfoldable pub pieces : Bytes → Bytes × List Bytes
pieces [] = ([], [])
pieces (c ∷ cs) = let (w, ws) = pieces cs in if c == slash then ([], w ∷ ws) else (c ∷ w, ws)

unfoldable pub non_empty : List Bytes → List Bytes
non_empty [] = []
non_empty ([] ∷ ws) = non_empty ws
non_empty ((c ∷ w) ∷ ws) = (c ∷ w) ∷ non_empty ws

unfoldable pub components : Bytes → List Bytes
unfolding pieces non_empty
components path = let (w, ws) = pieces path in non_empty (w ∷ ws)

-- Each name behind a slash.
unfoldable pub join : List Bytes → Bytes
join [] = []
join (w ∷ ws) = slash ∷ w ++ join ws

unfoldable pub render : List Bytes → Bytes
unfolding join
render [] = slash ∷ []
render (w ∷ ws) = join (w ∷ ws)

-- A name has a byte, and none of its bytes is a slash.
abbrev pub IsName : Bytes → Type 0
IsName w = (w ≢ []) × All (λ c. c ≢ slash) w

cons_ne : (c : ℕ) (w : Bytes) → c ∷ w ≢ []
cons_ne c w e = cc

pieces_name :
    (w : Bytes)
    → All (λ c. c ≢ slash) w
    → (r : Bytes) → pieces (w ++ r) ≡ (w ++ (pieces r).0, (pieces r).1)
unfolding pieces
pieces_name [] h r = refl
pieces_name (c ∷ w) h r = ground (arith, pieces_name w h.1 r)

pieces-join : (ws : List Bytes) → All IsName ws → pieces (join ws) ≡ ([], ws)
unfolding pieces join
pieces-join [] h = refl
pieces-join (w ∷ ws) h = rw (pieces_name w h.0.1 (join ws), pieces-join ws h.1, append-nil)

non_empty_names : (ws : List Bytes) → All IsName ws → non_empty ws ≡ ws
unfolding non_empty
non_empty_names [] h = refl
non_empty_names ([] ∷ ws) h = absurd (h.0.0 refl)
non_empty_names ((c ∷ w) ∷ ws) h = ap (◌∷◌ (c ∷ w)) (non_empty_names ws h.1)

abbrev flat : Bytes × List Bytes → List Bytes
flat (w, ws) = non_empty (w ∷ ws)

-- The components of names written behind slashes are those names.
pub components-render : (ws : List Bytes) → All IsName ws → components (render ws) ≡ ws
unfolding components render non_empty
components-render [] h = refl
components-render (w ∷ ws) h = ap flat (pieces-join (w ∷ ws) h) ∙ non_empty_names (w ∷ ws) h

abbrev SlashFree : Bytes → Type 0
SlashFree = All (λ c. c ≢ slash)

pieces-SlashFree : (path : Bytes) → SlashFree (pieces path).0 × All SlashFree (pieces path).1
unfolding pieces
pieces-SlashFree [] = (tt, tt)
pieces-SlashFree (c ∷ cs) = elim (Bool-cases (c == slash)) [
  | inl e ↦ rw e (tt, pieces-SlashFree cs)
  | inr e ↦ rw e ((ground arith, (pieces-SlashFree cs).0), (pieces-SlashFree cs).1)
]

non_empty-IsName : (ws : List Bytes) → All SlashFree ws → All IsName (non_empty ws)
unfolding non_empty
non_empty-IsName [] h = tt
non_empty-IsName ([] ∷ ws) h = non_empty-IsName ws h.1
non_empty-IsName ((c ∷ w) ∷ ws) h = ((cons_ne c w, h.0), non_empty-IsName ws h.1)

-- Every component of a path is a name.
pub components-IsName : (path : Bytes) → All IsName (components path)
unfolding components
components-IsName path =
    non_empty-IsName ((pieces path).0 ∷ (pieces path).1) (pieces-SlashFree path)

pub components-normal : (path : Bytes) → components (render (components path)) ≡ components path
components-normal path = components-render (components path) (components-IsName path)
